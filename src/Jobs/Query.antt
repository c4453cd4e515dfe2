-- ===== src/Jobs/Query.antt =====
-- The placeholders of the query and its values go together.
use mathlib.Core.List.{append_assoc, append-nil}
use liquidator.Base.{
  ℕ, zero, suc, String, ◌+◌, ◌≡◌, refl, sym, ◌∙◌, ap, Option, none, some, List, [], ◌∷◌, ◌++◌,
  length, arith,
}
use liquidator.Jobs.{
  Value, text, Piece, sql, placeholder, Options, Composed, given, with_defaults, option_text,
  add_option, add_options, call_text, option_names, add_job,
}

-- The numbers of the placeholders, in the order of the text.
unfoldable pub placeholders : List Piece → List ℕ
placeholders [] = []
placeholders (sql s ∷ rest) = placeholders rest
placeholders (placeholder n ∷ rest) = n ∷ placeholders rest

-- 1, 2, …, n
unfoldable pub up_to : ℕ → List ℕ
up_to zero = []
up_to (suc n) = up_to n ++ (suc n ∷ [])

-- The values of the options that are given, in the order of their names.
unfoldable pub given_values : Options → List String → List Value
given_values options [] = []
given_values options (name ∷ names) = elim (given name options) [
  | none ↦ given_values options names
  | some v ↦ v ∷ given_values options names
]

unfoldable pub payload_values : Option String → List Value
payload_values none = []
payload_values (some payload) = text payload ∷ []

-- Each value has its placeholder, in order.
record IsNumbered (q : Composed) : Type 0 where
  numbers : placeholders q.pieces ≡ up_to (length q.values)
  counter : q.c ≡ length q.values

placeholders_append :
    (xs ys : List Piece) → placeholders (xs ++ ys) ≡ placeholders xs ++ placeholders ys
unfolding placeholders
placeholders_append [] ys = refl
placeholders_append (sql s ∷ xs) ys = placeholders_append xs ys
placeholders_append (placeholder n ∷ xs) ys = ap (λ t. n ∷ t) (placeholders_append xs ys)

length-snoc : {A : Type 0} (xs : List A) (x : A) → length (xs ++ (x ∷ [])) ≡ suc (length xs)
length-snoc [] x = refl
length-snoc (y ∷ ys) x = ap suc (length-snoc ys x)

placeholders-option_text : (name : String) (c : ℕ) → placeholders (option_text name c) ≡ c ∷ []
unfolding placeholders option_text
placeholders-option_text name c = ground arith

-- An option that is given brings the next number, and its value.
by_option : List Value → Option Value → List Value
by_option values none = values
by_option values (some v) = values ++ (v ∷ [])

add_option-IsNumbered :
    (options : Options) (name : String) (q : Composed)
    → IsNumbered q
    → IsNumbered (add_option options name q)
      × ((add_option options name q).values ≡ by_option q.values (given name options))
unfolding add_option by_option up_to
add_option-IsNumbered options name q h = go (given name options)
  where
    next : q.c + 1 ≡ suc (length q.values)
    next = omega (arith, h.counter)

    pieces :
        (v : Value)
        → placeholders (q.pieces ++ option_text name (q.c + 1))
          ≡ up_to (length (q.values ++ (v ∷ [])))
    pieces v =
        placeholders_append q.pieces (option_text name (q.c + 1))
        ∙ rw (placeholders-option_text name (q.c + 1), h.numbers, length-snoc q.values v, next) refl

    go :
        (o : Option Value)
        → let end : Composed = elim o [
          | none ↦ q
          | some v ↦ record {
            pieces = q.pieces ++ option_text name (q.c + 1);
            values = q.values ++ (v ∷ []);
            c = q.c + 1;
          }
        ] in
          IsNumbered end × (end.values ≡ by_option q.values o)
    go none = (h, refl)
    go (some v) =
        (record { numbers = pieces v; counter = next ∙ sym (length-snoc q.values v) }, refl)

values_step :
    (options : Options) (name : String) (names : List String) (values : List Value)
    → by_option values (given name options) ++ given_values options names
      ≡ values ++ given_values options (name ∷ names)
unfolding given_values by_option
values_step options name names values = go (given name options)
  where
    go :
        (o : Option Value)
        → by_option values o ++ given_values options names ≡ (
            values
            ++ (let rest : List Value = elim o [
              | none ↦ given_values options names
              | some v ↦ v ∷ given_values options names
            ] in
                rest))
    go none = refl
    go (some v) = append_assoc values (v ∷ []) (given_values options names)

add_options-IsNumbered :
    (options : Options) (names : List String) (q : Composed)
    → IsNumbered q
    → IsNumbered (add_options options names q)
      × ((add_options options names q).values ≡ q.values ++ given_values options names)
unfolding add_options given_values
add_options-IsNumbered options [] q h = (h, sym (append-nil q.values))
add_options-IsNumbered options (name ∷ names) q h =
    let step = add_option-IsNumbered options name q h in
    let later = add_options-IsNumbered options names (add_option options name q) (step.0) in
    (
      later.0,
      later.1
          ∙ (ap (λ t. t ++ given_values options names) (step.1)
              ∙ (unfold given_values in values_step options name names q.values)),
    )

call_text-IsNumbered :
    (task_name : String) (payload : Option String)
    → IsNumbered (call_text task_name payload)
      × ((call_text task_name payload).values ≡ text task_name ∷ payload_values payload)
unfolding call_text placeholders up_to payload_values
call_text-IsNumbered task_name none = (record { numbers = refl; counter = refl }, refl)
call_text-IsNumbered task_name (some payload) = (record { numbers = refl; counter = refl }, refl)

-- Whatever the task, the payload and the options are: the placeholders of the query are 1, 2, … up to
-- the number of its values, in this order and each once; and the values are the task, the payload if
-- there is one, and the options that are given, the default of `max_attempts` among them, in the
-- order of their names.
pub add_job_lem :
    (task_name : String) (payload : Option String) (options : Options)
    → let q = add_job task_name payload options in
      (placeholders q.pieces ≡ up_to (length q.values))
      × (q.values
          ≡ text task_name
            ∷ (payload_values payload ++ given_values (with_defaults options) option_names))
unfolding add_job placeholders
add_job_lem task_name payload options =
    let begun = call_text-IsNumbered task_name payload in
    let all =
      add_options-IsNumbered (with_defaults options) option_names (call_text task_name payload)
        (begun.0) in
    let q = add_options (with_defaults options) option_names (call_text task_name payload) in
    (
      (unfold placeholders in placeholders_append q.pieces (sql ")" ∷ []))
          ∙ (append-nil (placeholders q.pieces) ∙ all.0.numbers),
      all.1 ∙ ap (λ t. t ++ given_values (with_defaults options) option_names) (begun.1),
    )
