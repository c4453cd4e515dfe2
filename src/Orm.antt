-- ===== src/Orm.antt =====
-- The package sequelize, which the source keeps its tables with, as an interface. A table is the
-- list of its rows; a `where` clause is a test on a row. The laws are the documentation of
-- `findAll`, `findOne`, `create`, `update`, `upsert` and `order`: which row `findOne` picks among several
-- is left open.
pub mod Rows
pub mod Memory
use liquidator.Base.{
  ℕ, ◌≡◌, Bool, true, false, Option, none, some, List, [], ◌∷◌, ◌++◌, map, filter, count, All,
  if◌then◌else◌,
}
use liquidator.Base.Int.{ℤ, ◌≤ℤ◌}
use Rows.{In, IsAscending}

pub record Orm : Type 1 where
  pub find_all : {Row : Type 0} → (Row → Bool) → List Row → List Row
  pub find_one : {Row : Type 0} → (Row → Bool) → List Row → Option Row
  pub create : {Row : Type 0} → Row → List Row → List Row
  pub update : {Row : Type 0} → (Row → Bool) → (Row → Row) → List Row → List Row
  pub upsert : {Row : Type 0} → (Row → Bool) → Row → List Row → List Row
  pub order_by : {Row : Type 0} → (Row → ℤ) → List Row → List Row
  pub find_all_lem : {Row : Type 0} (p : Row → Bool) (t : List Row) → find_all p t ≡ filter p t
  pub find_one_none :
      {Row : Type 0} (p : Row → Bool) (t : List Row)
      → find_one p t ≡ none
      → All (λ r. p r ≡ false) t
  pub find_one_some :
      {Row : Type 0} (p : Row → Bool) (t : List Row) (r : Row)
      → find_one p t ≡ some r
      → In r t × (p r ≡ true)
  pub create_lem : {Row : Type 0} (r : Row) (t : List Row) → create r t ≡ t ++ (r ∷ [])
  pub update_lem :
      {Row : Type 0} (p : Row → Bool) (f : Row → Row) (t : List Row)
      → update p f t ≡ map (λ r. if p r then f r else r) t
  pub upsert_known :
      {Row : Type 0} (p : Row → Bool) (row : Row) (t : List Row) (r : Row)
      → find_one p t ≡ some r
      → upsert p row t ≡ update p (λ _. row) t
  pub upsert_new :
      {Row : Type 0} (p : Row → Bool) (row : Row) (t : List Row)
      → find_one p t ≡ none
      → upsert p row t ≡ create row t
  pub order_by-count :
      {Row : Type 0} (key : Row → ℤ) (p : Row → Bool) (t : List Row)
      → count p (order_by key t) ≡ count p t
  pub order_by-IsAscending :
      {Row : Type 0} (key : Row → ℤ) (t : List Row) → IsAscending key (order_by key t)
