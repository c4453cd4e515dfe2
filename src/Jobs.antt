-- ===== src/Jobs.antt =====
-- src/jobs/utils/index.ts, `addJob`: the query that it composes for the worker, and its values. The
-- text is the list of its pieces, a number stands for a placeholder.
pub mod Query
pub mod Tests
use liquidator.Base.{
  ℕ, String, ◌+◌, Bool, true, false, not, Option, none, some, List, [], ◌∷◌, ◌++◌, length, str_eq,
  ◌==◌, if◌then◌else◌,
}

-- A value of the query, or of an option.
pub data Value : Type 0 where
  text : String → Value
  number : ℕ → Value

pub data Piece : Type 0 where
  sql : String → Piece
  placeholder : ℕ → Piece

-- `IOptionsJob`, the entries of the object; an entry hides those of its name behind it.
abbrev pub Options : Type 0
Options = List (String × Value)

-- The query and its values, with the counter `c`.
pub record Composed : Type 0 where
  pub pieces : List Piece
  pub values : List Value
  pub c : ℕ

unfoldable pub is_truthy : Value → Bool
is_truthy (text s) = not (str_eq s "")
is_truthy (number n) = not (n == 0)

-- `options[itm]`
unfoldable pub option : String → Options → Option Value
option name [] = none
option name ((n, v) ∷ rest) =
    let later = option name rest in if str_eq n name then some v else later

-- `if (options[itm])`
unfoldable pub given : String → Options → Option Value
given name options = elim (option name options) [
  | none ↦ none
  | some v ↦ if is_truthy v then some v else none
]

-- `{ ...{ max_attempts: 3 }, ...options }`
unfoldable pub with_defaults : Options → Options
with_defaults options = options ++ (("max_attempts", number 3) ∷ [])

unfoldable pub option_text : String → ℕ → List Piece
option_text name c =
    if str_eq name "interval"
    then sql ", run_at := NOW() + (" ∷ placeholder c ∷ sql " * INTERVAL '1 minute')" ∷ []
    else sql ", " ∷ sql name ∷ sql " :=" ∷ placeholder c ∷ []

-- The body of the `forEach`.
unfoldable pub add_option : Options → String → Composed → Composed
add_option options name q = elim (given name options) [
  | none ↦ q
  | some v ↦ record {
    pieces = q.pieces ++ option_text name (q.c + 1);
    values = q.values ++ (v ∷ []);
    c = q.c + 1;
  }
]

unfoldable pub add_options : Options → List String → Composed → Composed
add_options options [] q = q
add_options options (name ∷ names) q = add_options options names (add_option options name q)

-- The task, and the payload if there is one.
unfoldable pub call_text : String → Option String → Composed
call_text task_name none = record {
  pieces = sql "SELECT graphile_worker.add_job(" ∷ placeholder 1 ∷ sql "::text" ∷ [];
  values = text task_name ∷ [];
  c = 1;
}
call_text task_name (some payload) = record {
  pieces =
      sql "SELECT graphile_worker.add_job("
      ∷ placeholder 1
      ∷ sql "::text"
      ∷ sql ", payload := "
      ∷ placeholder 2
      ∷ [];
  values = text task_name ∷ text payload ∷ [];
  c = 2;
}

abbrev pub option_names : List String
option_names = "queue_name" ∷ "max_attempts" ∷ "run_at" ∷ "interval" ∷ []

-- `addJob`, up to the query that it sends.
unfoldable pub add_job : String → Option String → Options → Composed
add_job task_name payload options =
    let q = add_options (with_defaults options) option_names (call_text task_name payload) in
    record q { pieces = q.pieces ++ (sql ")" ∷ []) }
