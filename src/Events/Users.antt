-- ===== src/Events/Users.antt =====
-- The users of a list of events.
use liquidator.Base.{
  ℕ, suc, String, ◌+◌, ◌≡◌, refl, ap, ◌∙◌, true, ◌&&◌, Option, none, some, List, [], ◌∷◌, ◌++◌, map,
  count, count-append, length, length-append, str_eq_iff, ltb, ◌==◌, if◌then◌else◌, Bool-cases, inl,
  inr, arith,
}
use liquidator.Events.{
  Event, truthy, event_user, user_eq, index_of, is_at, keep_first, get_users_from_events,
}

abbrev pub occurs : Option String → List (Option String) → ℕ
occurs user = count (λ x. user_eq x user)

user_eq_refl : (a : Option String) → user_eq a a ≡ true
unfolding user_eq
user_eq_refl none = refl
user_eq_refl (some s) = (str_eq_iff s s).1 refl

user_eq_sound : (a b : Option String) → user_eq a b ≡ true → a ≡ b
unfolding user_eq
user_eq_sound none none e = refl
user_eq_sound none (some b) e = absurd (let c : ⊥ = cc in c)
user_eq_sound (some a) none e = absurd (let c : ⊥ = cc in c)
user_eq_sound (some a) (some b) e = ap some ((str_eq_iff a b).0 e)

suc_at :
    (n : ℕ) (o : Option ℕ)
    → is_at (suc n) (elim o [ none ↦ none | some i ↦ some (suc i) ]) ≡ is_at n o
unfolding is_at
suc_at n none = refl
suc_at n (some i) = ground arith

-- The first index of a user is where it stands exactly if it does not stand before.
index_of-append :
    (user : Option String) (pre rest : List (Option String))
    → is_at (length pre) (index_of user (pre ++ (user ∷ rest))) ≡ (occurs user pre == 0)
unfolding index_of is_at
index_of-append user [] rest = rw (user_eq_refl user) refl
index_of-append user (p ∷ pre) rest = elim (Bool-cases (user_eq p user)) [
  | inl t ↦ rw t (ground arith)
  | inr f ↦
      rw f
        (suc_at (length pre) (index_of user (pre ++ (user ∷ rest))) ∙ index_of-append user pre rest)
]

append_one :
    {A : Type 0} (xs : List A) (x : A) (ys : List A) → xs ++ (x ∷ ys) ≡ (xs ++ (x ∷ [])) ++ ys
append_one [] x ys = refl
append_one (z ∷ xs) x ys = ap (λ l. z ∷ l) (append_one xs x ys)

count-keep_first :
    (users pre rest : List (Option String)) (i : ℕ) (u : Option String)
    → users ≡ pre ++ rest
    → i ≡ length pre
    → occurs u (keep_first users i rest)
      ≡ (if truthy u && (occurs u pre == 0) && ltb 0 (occurs u rest) then 1 else 0)
unfolding keep_first
count-keep_first users pre [] i u split here = ground arith
count-keep_first users pre (x ∷ xs) i u split here =
    let first : is_at i (index_of x users) ≡ (occurs x pre == 0) =
      rw (split, here) (index_of-append x pre xs) in
    let later =
      count-keep_first users (pre ++ (x ∷ [])) xs (i + 1) u (split ∙ append_one pre x xs)
        (omega (arith, here, length-append pre (x ∷ []))) in
    let before = count-append (λ y. user_eq y u) pre (x ∷ []) in
    elim (Bool-cases (user_eq x u)) [
      | inl t ↦
          let same = user_eq_sound x u t in
          let taken = ap truthy same in let seen = ap (λ y. occurs y pre) same in ground arith
      | inr f ↦ ground arith
    ]

-- The list of users has each user of the events that is there and not empty once, however many
-- events name it, and nothing else.
pub occurs-get_users_from_events :
    (events : List Event) (u : Option String)
    → occurs u (get_users_from_events events)
      ≡ (if truthy u && ltb 0 (occurs u (map event_user events)) then 1 else 0)
unfolding get_users_from_events
occurs-get_users_from_events events u =
    let all = map event_user events in
    let counted = count-keep_first all [] all 0 u refl refl in ground arith
