-- ===== src/State/Preserves.antt =====
-- A property of the state that a call keeps, however the call ends, and how the calls compose.
use liquidator.Base.{◌≡◌, refl, Option, none, some}
use liquidator.Base.Results.{Error, Result, ok, err}
use liquidator.State.Monad.{Action, pure, read, gets, present, catch, ◌>>=◌}

pub record Preserves {S A : Type 0} (P : S → Type 0) (m : Action S A) : Type 0 where
  pub apply : (s : S) → P s → P (m s).1

module _ {S A : Type 0} (P : S → Type 0) where
  pub read-Preserves : (f : S → Result A) → Preserves P (read f)
  read-Preserves f = record { apply = λ s h. h }

  pub gets-Preserves : (f : S → A) → Preserves P (gets f)
  gets-Preserves f = record { apply = λ s h. h }

  pub pure-Preserves : (a : A) → Preserves P (pure a)
  pure-Preserves a = record { apply = λ s h. h }

  pub present-Preserves : (a : Option A) (e : Error) → Preserves P (present a e)
  present-Preserves none e = record { apply = λ s h. h }
  present-Preserves (some a) e = record { apply = λ s h. h }

  pub catch-Preserves :
      (m : Action S A) (handler : Error → Action S A)
      → Preserves P m
      → ((e : Error) → Preserves P (handler e))
      → Preserves P (catch m handler)
  catch-Preserves m handler hm hh = record { apply = λ s h. go (m s).0 (m s).1 (hm.apply s h) }
    where
      go :
          (r : Result A) (t : S)
          → P t
          → let end : Result A × S = elim r [ ok a ↦ (ok a, t) | err e ↦ handler e t ] in P end.1
      go (ok a) t h = h
      go (err e) t h = (hh e).apply t h

module _ {S A B : Type 0} (P : S → Type 0) where
  pub bind-Preserves :
      (m : Action S A) (f : A → Action S B)
      → Preserves P m
      → ((a : A) → Preserves P (f a))
      → Preserves P (m >>= f)
  bind-Preserves m f hm hf = record { apply = λ s h. go (m s).0 (m s).1 (hm.apply s h) }
    where
      go :
          (r : Result A) (t : S)
          → P t
          → let end : Result B × S = elim r [ ok a ↦ f a t | err e ↦ (err e, t) ] in P end.1
      go (ok a) t h = (hf a).apply t h
      go (err e) t h = h

  -- A read, where what follows may rest on what was read.
  pub read_bind-Preserves :
      (f : S → Result A) (k : A → Action S B)
      → ((s : S) (a : A) → f s ≡ ok a → P s → P (k a s).1)
      → Preserves P (read f >>= k)
  read_bind-Preserves f k h = record { apply = λ s p. go s p (f s) refl }
    where
      go :
          (s : S)
          → P s
          → (r : Result A) → f s ≡ r
          → let end : Result B × S = elim r [ ok a ↦ k a s | err e ↦ (err e, s) ] in P end.1
      go s p (ok a) e = h s a e p
      go s p (err x) e = p
