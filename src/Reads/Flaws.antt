-- ===== src/Reads/Flaws.antt =====
-- What is remembered after an error.
use liquidator.Base.{
  String, ◌≡◌, refl, sym, subst, ap, ◌∙◌, true, false, Bool-cases, inl, inr, Option, none, some,
  List, [], ◌∷◌, ◌++◌, arith,
}
use liquidator.Base.Results.{Error, Result, ok, err}
use liquidator.Config.{Network, network_eq}
use liquidator.State.Monad.{Action, read, gets, ◌>>=◌, ◌>>◌}
use liquidator.State.Preserves.{Preserves, read-Preserves, gets-Preserves, bind-Preserves}
use liquidator.Reads.{
  Remembered, Pool, Answers, remembered, ask_oracle, get_price_oracle_address, get_asset_price,
  fill_reserves, get_reserves_list, Call, oracle_address, asset_price, reserves_list, after_calls,
}

bind_err :
    {A B : Type 0} (m : Action Remembered A) (k : A → Action Remembered B) (c : Remembered)
    (e : Error)
    → (m c).0 ≡ err e
    → ((m >>= k) c).0 ≡ err e
bind_err {A} {B} m k c e h = go (m c).0 (m c).1 h
  where
    go :
        (r : Result A) (t : Remembered)
        → r ≡ err e
        → (let end : Result B × Remembered = elim r [ ok a ↦ k a t | err x ↦ (err x, t) ] in end.0)
          ≡ err e
    go (ok a) t h = absurd (let c : ⊥ = cc in c)
    go (err x) t h = let same : x ≡ e = cc in ap (λ y. err y) same

itself : (n : Network) → network_eq n n ≡ true
itself n = ground arith

module _ {Num : Type 0} (answers : Answers Num) (network : Network) where
  known_oracle :
      (r : Result String) (c : Remembered)
      → remembered network c.oracles ≡ some r
      → get_price_oracle_address answers network c ≡ (r, c)
  unfolding get_price_oracle_address
  known_oracle r c h = rw (h, get_price_oracle_address) refl

  new_oracle :
      (c : Remembered)
      → remembered network c.oracles ≡ none
      → answers.get_web3 network ≡ ok tt
      → get_price_oracle_address answers network c ≡ ask_oracle answers network c
  unfolding get_price_oracle_address
  new_oracle c h web3 = rw (h, get_price_oracle_address, web3) refl

  asked_oracle :
      (c : Remembered)
      → remembered network (ask_oracle answers network c).1.oracles
        ≡ some (answers.get_price_oracle network)
  unfolding remembered ask_oracle
  asked_oracle c = rw (itself network) refl

same_network : (n m : Network) → network_eq n m ≡ true → n ≡ m
same_network n m e = ground (arith, e)

-- What is remembered of the oracle of a network stays through every later call.
module _ (network : Network) (r : Result String) where
  abbrev HasOracle : Remembered → Type 0
  HasOracle c = remembered network c.oracles ≡ some r

module _ {Num : Type 0} (network : Network) (r : Result String) where
  ask_oracle-HasOracle :
      (answers : Answers Num) (n : Network) (c : Remembered)
      → network_eq n network ≡ false
      → HasOracle network r c
      → (HasOracle network r) (ask_oracle answers n c).1
  unfolding ask_oracle remembered
  ask_oracle-HasOracle answers n c other h = rw other h

  get_price_oracle_address-HasOracle :
      (answers : Answers Num) (n : Network)
      → Preserves (HasOracle network r) (get_price_oracle_address answers n)
  unfolding get_price_oracle_address
  get_price_oracle_address-HasOracle answers n = record {
    apply = λ c h. elim (Bool-cases (network_eq n network)) [
      | inl t ↦
          let same = same_network n network t in
          subst (λ m. (HasOracle network r) (get_price_oracle_address answers m c).1) (sym same)
            (rw (known_oracle answers network r c h) h)
      | inr f ↦ other c h f (remembered n c.oracles)
    ];
  }
    where
      other :
          (c : Remembered)
          → HasOracle network r c
          → network_eq n network ≡ false
          → (o : Option (Result String))
          → let end : Result String × Remembered = elim o [
            | some promise ↦ (promise, c)
            | none ↦ (read (λ d. answers.get_web3 n) >>= λ web3. ask_oracle answers n) c
          ] in
            (HasOracle network r) end.1
      other c h f (some promise) = h
      other c h f none = asked (answers.get_web3 n)
        where
          asked :
              (web3 : Result (Unit {0}))
              → let end : Result String × Remembered = elim web3 [
                | ok w ↦ ask_oracle answers n c
                | err e ↦ (err e, c)
              ] in
                (HasOracle network r) end.1
          asked (ok w) = ask_oracle-HasOracle answers n c f h
          asked (err e) = h

  get_asset_price-HasOracle :
      (answers : Answers Num) (asset : String) (n : Network)
      → Preserves (HasOracle network r) (get_asset_price answers asset n)
  unfolding get_asset_price
  get_asset_price-HasOracle answers asset n =
      bind-Preserves (HasOracle network r) (get_price_oracle_address answers n)
        (λ contract_address. read (λ d. answers.get_web3 n) >>= λ web3.
          read (λ d. answers.get_price contract_address asset n))
        (get_price_oracle_address-HasOracle answers n)
        (λ contract_address.
          bind-Preserves (HasOracle network r) (read (λ d. answers.get_web3 n))
            (λ web3. read (λ d. answers.get_price contract_address asset n))
            (read-Preserves (HasOracle network r) (λ d. answers.get_web3 n))
            (λ web3.
              read-Preserves (HasOracle network r)
                (λ d. answers.get_price contract_address asset n)))

  fill_reserves-HasOracle :
      (answers : Answers Num) (listeners : List Pool) (c : Remembered)
      → HasOracle network r c
      → (HasOracle network r) (fill_reserves answers listeners c).1
  unfolding fill_reserves
  fill_reserves-HasOracle answers [] c h = h
  fill_reserves-HasOracle answers (l ∷ rest) c h = go (answers.get_reserves l) (λ list.
      fill_reserves-HasOracle answers rest
        (record c { reserves = (l.network_id, list) ∷ c.reserves }) h)
    where
      go :
          (list : Result (List String))
          → ((names : List String)
              → HasOracle network r
                  (fill_reserves answers rest
                    (record c { reserves = (l.network_id, names) ∷ c.reserves })).1)
          → let end : Result (Unit {0}) × Remembered = elim list [
            | err e ↦ (err e, c)
            | ok list ↦
                fill_reserves answers rest
                  (record c { reserves = (l.network_id, list) ∷ c.reserves })
          ] in
            HasOracle network r end.1
      go (err e) later = h
      go (ok list) later = later list

  get_reserves_list-HasOracle :
      (answers : Answers Num) (listeners : List Pool)
      → Preserves (HasOracle network r) (get_reserves_list answers listeners)
  unfolding get_reserves_list
  get_reserves_list-HasOracle answers listeners = record { apply = λ c h. go c h c.reserves }
    where
      go :
          (c : Remembered)
          → HasOracle network r c
          → (lists : List (Network × List String))
          → let end : Result (List (Network × List String)) × Remembered = elim lists [
            | [] ↦ (fill_reserves answers listeners >> gets (λ d. d.reserves)) c
            | r ∷ rest ↦ (ok c.reserves, c)
          ] in
            (HasOracle network r) end.1
      go c h [] =
          (bind-Preserves (HasOracle network r) (fill_reserves answers listeners)
              (λ done. gets (λ d. d.reserves))
              (record { apply = fill_reserves-HasOracle answers listeners })
              (λ done. gets-Preserves (HasOracle network r) (λ d. d.reserves))).apply
            c h
      go c h (r ∷ rest) = h

  after_calls-HasOracle :
      (calls : List (Answers Num × Call)) (c : Remembered)
      → HasOracle network r c
      → (HasOracle network r) (after_calls calls c)
  unfolding after_calls
  after_calls-HasOracle [] c h = h
  after_calls-HasOracle ((a, oracle_address n) ∷ calls) c h =
      after_calls-HasOracle calls _ ((get_price_oracle_address-HasOracle a n).apply c h)
  after_calls-HasOracle ((a, asset_price asset n) ∷ calls) c h =
      after_calls-HasOracle calls _ ((get_asset_price-HasOracle a asset n).apply c h)
  after_calls-HasOracle ((a, reserves_list listeners) ∷ calls) c h =
      after_calls-HasOracle calls _ ((get_reserves_list-HasOracle a listeners).apply c h)

module _ {Num : Type 0} where
  -- An address of the price oracle that could not be read when it was first asked for: every later
  -- price of the network throws the same error, whichever calls of the three functions came in
  -- between, and whatever the node answers by then.
  pub failed_oracle_stays :
      (answers later : Answers Num) (network : Network) (asset : String) (e : Error)
      (c : Remembered) (calls : List (Answers Num × Call))
      → remembered network c.oracles ≡ none
      → answers.get_web3 network ≡ ok tt
      → answers.get_price_oracle network ≡ err e
      → let d = after_calls calls (get_price_oracle_address answers network c).1 in
        (get_asset_price later asset network d).0 ≡ err e
  unfolding get_asset_price
  failed_oracle_stays answers later network asset e c calls new web3 failed =
      let first = (get_price_oracle_address answers network c).1 in
      let stored : remembered network first.oracles ≡ some (err e) =
        ap (λ z. remembered network (z.1).oracles) (new_oracle answers network c new web3)
        ∙ (asked_oracle answers network c ∙ ap (λ r. some r) failed) in
      let d = after_calls calls first in
      let still = after_calls-HasOracle network (err e) calls first stored in
      bind_err (get_price_oracle_address later network)
        (λ contract_address. read (λ x. later.get_web3 network) >>= λ web3.
          read (λ x. later.get_price contract_address asset network))
        d e (ap (λ z. z.0) (known_oracle later network (err e) d still))

-- What a run over the listeners has entered, the last one first.
unfoldable pub entered :
    {Num : Type 0}
    → Answers Num
    → List Pool
    → List (Network × List String)
    → Result (List (Network × List String))
entered answers [] so_far = ok so_far
entered answers (l ∷ rest) so_far = elim (answers.get_reserves l) [
  | err e ↦ err e
  | ok list ↦ entered answers rest ((l.network_id, list) ∷ so_far)
]

module _ {Num : Type 0} (answers : Answers Num) where
  -- The loop stops at the first listener whose list cannot be read, and keeps what it has.
  stops :
      (first : List Pool) (bad : Pool) (rest : List Pool) (e : Error) (c : Remembered)
      (lists : List (Network × List String))
      → entered answers first c.reserves ≡ ok lists
      → answers.get_reserves bad ≡ err e
      → fill_reserves answers (first ++ (bad ∷ rest)) c ≡ (err e, record c { reserves = lists })
  unfolding fill_reserves entered
  stops [] bad rest e c lists h failed =
      let same : c.reserves ≡ lists = cc in
      rw (failed, fill_reserves)
        (ap
          (λ (x : List (Network × List String)).
            let end : Result (Unit {0}) × Remembered = (err e, record c { reserves = x }) in end)
          same)
  stops (l ∷ first) bad rest e c lists h failed =
      go
        (λ list k.
          stops first bad rest e (record c { reserves = (l.network_id, list) ∷ c.reserves }) lists k
            failed)
        (answers.get_reserves l) h
    where
      go :
          ((list : List String)
            → entered answers first ((l.network_id, list) ∷ c.reserves) ≡ ok lists
            → fill_reserves answers
                (first ++ (bad ∷ rest))
                (record c { reserves = (l.network_id, list) ∷ c.reserves })
              ≡ (err e, record c { reserves = lists }))
          → (r : Result (List String))
          → (let all : Result (List (Network × List String)) = elim r [
            | err x ↦ err x
            | ok list ↦ entered answers first ((l.network_id, list) ∷ c.reserves)
          ] in
              all)
            ≡ ok lists
          → (let end : Result (Unit {0}) × Remembered = elim r [
            | err x ↦ (err x, c)
            | ok list ↦
                fill_reserves answers
                  (first ++ (bad ∷ rest))
                  (record c { reserves = (l.network_id, list) ∷ c.reserves })
          ] in
              end)
            ≡ (err e, record c { reserves = lists })
      go later (err x) k = absurd (let z : ⊥ = cc in z)
      go later (ok list) k = later list k

-- Lists of reserves that are remembered stay through every later call, if there are any.
module _ (r : Network × List String) (rs : List (Network × List String)) where
  abbrev HasLists : Remembered → Type 0
  HasLists c = c.reserves ≡ r ∷ rs

module _ {Num : Type 0} (r : Network × List String) (rs : List (Network × List String)) where
  get_price_oracle_address-HasLists :
      (answers : Answers Num) (n : Network)
      → Preserves (HasLists r rs) (get_price_oracle_address answers n)
  unfolding get_price_oracle_address ask_oracle
  get_price_oracle_address-HasLists answers n = record {
    apply = λ c h. go c h (remembered n c.oracles) (answers.get_web3 n);
  }
    where
      go :
          (c : Remembered)
          → HasLists r rs c
          → (o : Option (Result String)) (web3 : Result (Unit {0}))
          → let asked : Result String × Remembered = elim web3 [
            | ok w ↦ ask_oracle answers n c
            | err e ↦ (err e, c)
          ] in
            let end : Result String × Remembered = elim o [
              | some promise ↦ (promise, c)
              | none ↦ asked
            ] in
            (HasLists r rs) end.1
      go c h (some promise) web3 = h
      go c h none (ok w) = h
      go c h none (err e) = h

  get_asset_price-HasLists :
      (answers : Answers Num) (asset : String) (n : Network)
      → Preserves (HasLists r rs) (get_asset_price answers asset n)
  unfolding get_asset_price
  get_asset_price-HasLists answers asset n =
      bind-Preserves (HasLists r rs) (get_price_oracle_address answers n)
        (λ contract_address. read (λ d. answers.get_web3 n) >>= λ web3.
          read (λ d. answers.get_price contract_address asset n))
        (get_price_oracle_address-HasLists answers n)
        (λ contract_address.
          bind-Preserves (HasLists r rs) (read (λ d. answers.get_web3 n))
            (λ web3. read (λ d. answers.get_price contract_address asset n))
            (read-Preserves (HasLists r rs) (λ d. answers.get_web3 n))
            (λ web3.
              read-Preserves (HasLists r rs) (λ d. answers.get_price contract_address asset n)))

  known_lists :
      (answers : Answers Num) (listeners : List Pool) (c : Remembered)
      → HasLists r rs c
      → get_reserves_list answers listeners c ≡ (ok (r ∷ rs), c)
  unfolding get_reserves_list
  known_lists answers listeners c h = go c.reserves h
    where
      go :
          (lists : List (Network × List String))
          → lists ≡ r ∷ rs
          → (let end : Result (List (Network × List String)) × Remembered = elim lists [
            | [] ↦ (fill_reserves answers listeners >> gets (λ d. d.reserves)) c
            | first ∷ rest ↦ (ok c.reserves, c)
          ] in
              end)
            ≡ (ok (r ∷ rs), c)
      go [] e = absurd (let z : ⊥ = cc in z)
      go (first ∷ rest) e =
          ap
            (λ (x : List (Network × List String)).
              let end : Result (List (Network × List String)) × Remembered = (ok x, c) in end)
            h

  after_calls-HasLists :
      (calls : List (Answers Num × Call)) (c : Remembered)
      → HasLists r rs c
      → (HasLists r rs) (after_calls calls c)
  unfolding after_calls
  after_calls-HasLists [] c h = h
  after_calls-HasLists ((a, oracle_address n) ∷ calls) c h =
      after_calls-HasLists calls _ ((get_price_oracle_address-HasLists a n).apply c h)
  after_calls-HasLists ((a, asset_price asset n) ∷ calls) c h =
      after_calls-HasLists calls _ ((get_asset_price-HasLists a asset n).apply c h)
  after_calls-HasLists ((a, reserves_list listeners) ∷ calls) c h =
      after_calls-HasLists calls _ (ap (λ z. (z.1).reserves) (known_lists a listeners c h) ∙ h)

module _ {Num : Type 0} where
  -- If the list of the reserves is read for some networks and not for a further one: the call throws,
  -- and every later call returns what was read for the first ones, whichever calls of the three
  -- functions came in between, whatever the listeners are and whatever the contracts answer by then.
  pub partial_list_stays :
      (answers later : Answers Num) (first rest listeners : List Pool) (bad : Pool) (e : Error)
      (oracles : List (Network × Result String)) (r : Network × List String)
      (rs : List (Network × List String)) (calls : List (Answers Num × Call))
      → entered answers first [] ≡ ok (r ∷ rs)
      → answers.get_reserves bad ≡ err e
      → let now =
          get_reserves_list answers
            (first ++ (bad ∷ rest))
            (record { oracles = oracles; reserves = [] }) in
        (now.0 ≡ err e)
        × ((get_reserves_list later listeners (after_calls calls now.1)).0 ≡ ok (r ∷ rs))
  unfolding get_reserves_list
  partial_list_stays answers later first rest listeners bad e oracles r rs calls read_first failed =
      let c : Remembered = record { oracles = oracles; reserves = [] } in
      let loop = stops answers first bad rest e c (r ∷ rs) read_first failed in
      let now : get_reserves_list answers (first ++ (bad ∷ rest)) c
          ≡ (err e, record c { reserves = r ∷ rs }) =
        ap
          (λ (z : Result (Unit {0}) × Remembered).
            let end : Result (List (Network × List String)) × Remembered = elim (z.0) [
              | ok a ↦ (ok (z.1.reserves), z.1)
              | err x ↦ (err x, z.1)
            ] in
            end)
          loop in
      let d = (get_reserves_list answers (first ++ (bad ∷ rest)) c).1 in
      (
        ap (λ z. z.0) now,
        ap (λ z. z.0)
            (known_lists r rs later listeners (after_calls calls d)
              (after_calls-HasLists r rs calls d (ap (λ z. (z.1).reserves) now))),
      )
