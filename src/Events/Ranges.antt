-- ===== src/Events/Ranges.antt =====
-- The ranges of blocks that `lpGetPastEvents` fetches.
use liquidator.Base.{
  ℕ, zero, suc, ◌+◌, ◌≤◌, ◌≡◌, refl, ap, List, ◌∷◌, Bool, true, false, ◌&&◌, count, ltb, leb,
  if◌then◌else◌, arith,
}
use liquidator.Events.{ToBlock, block, latest, BlockRange, end_of, more_ranges, block_ranges}

-- The block is fetched with the range: its end counts in, and 'latest' has every later block.
abbrev pub until : ℕ → ToBlock → Bool
until b (block n) = leb b n
until b latest = true

abbrev pub fetches : ℕ → BlockRange → Bool
fetches b r = leb r.from b && until b r.to

until-end_of : (b n c : ℕ) → until b (end_of n c) ≡ (if ltb n c then leb b n else true)
unfolding end_of
until-end_of b n c = by_test (ltb n c)
  where
    by_test : (t : Bool) → until b (if t then block n else latest) ≡ (if t then leb b n else true)
    by_test true = refl
    by_test false = refl

-- With fuel enough, the rounds that are left fetch each later block once.
count-more_ranges :
    (fuel to current b : ℕ)
    → current ≤ to + fuel
    → count (fetches b) (more_ranges fuel to current)
      ≡ (if ltb to current && ltb to b then 1 else 0)
unfolding more_ranges
count-more_ranges zero to current b enough = ground arith
count-more_ranges (suc fuel) to current b enough = ground (
  arith,
  count-more_ranges fuel (to + 1000) current b (omega (arith, enough)),
  until-end_of b (to + 1000) current,
)

-- Every block from `fromBlock` on is fetched with one range exactly, and no earlier block with any:
-- no event is missed and none is read twice, however many blocks there are.
pub count-block_ranges :
    (from_block current_block b : ℕ)
    → count (fetches b) (block_ranges from_block current_block)
      ≡ (if leb from_block b then 1 else 0)
unfolding block_ranges
count-block_ranges from_block current_block b = ground (
  arith,
  count-more_ranges current_block (from_block + 1000) current_block b (omega arith),
  until-end_of b (from_block + 1000) current_block,
)

-- Two amounts of fuel that are both enough.
same_ranges :
    (fuel more to current : ℕ)
    → current ≤ to + fuel
    → current ≤ to + more
    → more_ranges fuel to current ≡ more_ranges more to current
unfolding more_ranges
same_ranges zero zero to current h k = refl
same_ranges zero (suc more) to current h k =
    let over : ltb to current ≡ false = ground arith in rw over refl
same_ranges (suc fuel) zero to current h k =
    let over : ltb to current ≡ false = ground arith in rw over refl
same_ranges (suc fuel) (suc more) to current h k =
    rw (same_ranges fuel more (to + 1000) current (omega (arith, h)) (omega (arith, k))) refl

-- The loop over the ranges ends by its own condition, and never because the fuel of the model is used
-- up: with any amount of fuel from one round for each block on, the ranges are the same.
pub block_ranges_terminates :
    (fuel from_block current_block : ℕ)
    → current_block ≤ from_block + 1000 + fuel
    → block_ranges from_block current_block
      ≡ record { from = from_block; to = end_of (from_block + 1000) current_block }
        ∷ more_ranges fuel (from_block + 1000) current_block
unfolding block_ranges
block_ranges_terminates fuel from_block current_block enough =
    ap
      (λ (rest : List BlockRange).
        record { from = from_block; to = end_of (from_block + 1000) current_block } ∷ rest)
      (same_ranges current_block fuel (from_block + 1000) current_block (omega arith) enough)
