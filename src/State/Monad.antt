-- ===== src/State/Monad.antt =====
-- A call over a state: it returns or throws, and the state comes back in both cases.
use liquidator.Base.{◌≡◌, refl, ap, Bool, true, false, Option, none, some}
use liquidator.Base.Results.{Error, Result, ok, err}

abbrev pub Action : Type 0 → Type 0 → Type 0
Action S A = S → Result A × S

module _ {S : Type 0} where
  abbrev pub pure : {A : Type 0} → A → Action S A
  pure a s = (ok a, s)

  abbrev pub throw : {A : Type 0} → Error → Action S A
  throw e s = (err e, s)

  -- A read of the state, which may throw.
  abbrev pub read : {A : Type 0} → (S → Result A) → Action S A
  read f s = (f s, s)

  abbrev pub gets : {A : Type 0} → (S → A) → Action S A
  gets f s = (ok (f s), s)

  abbrev pub modify : (S → S) → Action S (Unit {0})
  modify f s = (ok tt, f s)

  infixl 5 ◌>>=◌ ◌>>◌
  abbrev pub ◌>>=◌ : {A B : Type 0} → Action S A → (A → Action S B) → Action S B
  ◌>>=◌ m f s = let (r, s') = m s in elim r [ ok a ↦ f a s' | err e ↦ (err e, s') ]

  abbrev pub ◌>>◌ : {A B : Type 0} → Action S A → Action S B → Action S B
  m >> k = m >>= λ _. k

  -- A field of `null` or `undefined` throws a TypeError.
  abbrev pub present : {A : Type 0} → Option A → Error → Action S A
  present none e = throw e
  present (some a) e = pure a

  abbrev pub when : Bool → Action S (Unit {0}) → Action S (Unit {0})
  when true m = m
  when false m = pure tt

  -- `try { … } catch (err) { … }`: the state at the throw is kept.
  abbrev pub catch : {A : Type 0} → Action S A → (Error → Action S A) → Action S A
  catch m handler s = let (r, s') = m s in elim r [ ok a ↦ (ok a, s') | err e ↦ handler e s' ]

module _ {S A B : Type 0} where
  -- To prove something of a read and what follows it: a case for each way the read can end.
  pub read_elim :
      (P : Result B × S → Type 0) (f : S → Result A) (k : A → Action S B) (s : S)
      → ((a : A) → f s ≡ ok a → P (k a s))
      → ((e : Error) → f s ≡ err e → P (err e, s))
      → P ((read f >>= k) s)
  read_elim P f k s good bad = go (f s) refl
    where
      go : (r : Result A) → f s ≡ r → P (elim r [ ok a ↦ k a s | err e ↦ (err e, s) ])
      go (ok a) h = good a h
      go (err e) h = bad e h

  -- A read that succeeds.
  pub read_ok :
      (f : S → Result A) (k : A → Action S B) (s : S) (a : A)
      → f s ≡ ok a
      → (read f >>= k) s ≡ k a s
  read_ok f k s a e = go (f s) e
    where
      go :
          (r : Result A)
          → r ≡ ok a
          → (let end : Result B × S = elim r [ ok a ↦ k a s | err e ↦ (err e, s) ] in end) ≡ k a s
      go (ok b) e = let same : b ≡ a = cc in ap (λ x. k x s) same
      go (err x) e = absurd (let c : ⊥ = cc in c)

  -- A call that returns.
  pub bind_ok :
      (m : Action S A) (k : A → Action S B) (s : S) (a : A) (t : S)
      → m s ≡ (ok a, t)
      → (m >>= k) s ≡ k a t
  bind_ok m k s a t e = go (m s).0 (m s).1 (ap (λ x. x.0) e) (ap (λ x. x.1) e)
    where
      go :
          (r : Result A) (u : S)
          → r ≡ ok a
          → u ≡ t
          → (let end : Result B × S = elim r [ ok a ↦ k a u | err e ↦ (err e, u) ] in end) ≡ k a t
      go (ok b) u e there = let same : b ≡ a = cc in rw (same, there) refl
      go (err x) u e there = absurd (let c : ⊥ = cc in c)

module _ {S : Type 0} where
  -- A call whose `catch` only logs returns, in the state in which it stopped.
  pub caught : (m : Action S (Unit {0})) (s : S) → (catch m (λ e. pure tt) s).0 ≡ ok tt
  caught m s = go (m s).0 (m s).1
    where
      go :
          (r : Result (Unit {0})) (t : S)
          → (let end : Result (Unit {0}) × S = elim r [ ok a ↦ (ok a, t) | err e ↦ (ok tt, t) ] in
              end.0)
            ≡ ok tt
      go (ok tt) t = refl
      go (err e) t = refl

  pub caught_state : (m : Action S (Unit {0})) (s : S) → (catch m (λ e. pure tt) s).1 ≡ (m s).1
  caught_state m s = go (m s).0 (m s).1
    where
      go :
          (r : Result (Unit {0})) (t : S)
          → (let end : Result (Unit {0}) × S = elim r [ ok a ↦ (ok a, t) | err e ↦ (ok tt, t) ] in
              end.1)
            ≡ t
      go (ok tt) t = refl
      go (err e) t = refl

  -- A call that returns is not caught.
  pub catch_ok :
      {A : Type 0} (m : Action S A) (handler : Error → Action S A) (s : S) (a : A) (t : S)
      → m s ≡ (ok a, t)
      → catch m handler s ≡ (ok a, t)
  catch_ok {A} m handler s a t e =
      ap
        (λ (z : Result A × S).
          let end : Result A × S = elim (z.0) [ ok b ↦ (ok b, z.1) | err x ↦ handler x (z.1) ] in
          end)
        e
