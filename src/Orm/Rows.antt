-- ===== src/Orm/Rows.antt =====
-- What the laws of the tables speak of: rows in a table, and rows in order.
use liquidator.Base.{◌≡◌, ◌⊎◌, List, [], ◌∷◌, All}
use liquidator.Base.Int.{ℤ, ◌≤ℤ◌}

abbrev pub In : {Row : Type 0} → Row → List Row → Type 0
In r [] = ⊥
In r (x ∷ xs) = (r ≡ x) ⊎ In r xs

-- No row has a greater key than a row behind it.
abbrev pub IsAscending : {Row : Type 0} → (Row → ℤ) → List Row → Type 0
IsAscending key [] = Unit
IsAscending key (x ∷ xs) = All (λ y. key x ≤ℤ key y) xs × IsAscending key xs
