-- ===== src/Events.antt =====
-- The past events of the lending pool and their users: `lpGetPastEvents` of src/contract/utils/lp.ts
-- and `getUsersFromEvents` of src/listener/handle/collect-users.ts.
pub mod Ranges
pub mod Users
pub mod Tests
use liquidator.Base.{
  ℕ, zero, suc, String, ◌+◌, Bool, true, false, not, ◌&&◌, Option, none, some, List, [], ◌∷◌, ◌++◌,
  map, str_eq, ltb, leb, ◌==◌, if◌then◌else◌,
}

-- `MAX_BLOCK_COUNT`
abbrev pub max_block_count : ℕ
max_block_count = 1000

-- The end of a range of blocks: a block, or 'latest'.
pub data ToBlock : Type 0 where
  block : ℕ → ToBlock
  latest : ToBlock

-- An entry of `map`.
pub record BlockRange : Type 0 where
  pub from : ℕ
  pub to : ToBlock

-- `to < currentBlock ? to : 'latest'`
unfoldable pub end_of : ℕ → ℕ → ToBlock
end_of to current_block = if ltb to current_block then block to else latest

-- `while (to < currentBlock)`, on fuel.
unfoldable pub more_ranges : ℕ → ℕ → ℕ → List BlockRange
more_ranges zero to current_block = []
more_ranges (suc fuel) to current_block =
    let next = to + max_block_count in
    let rest = more_ranges fuel next current_block in
    if ltb to current_block
    then record { from = to + 1; to = end_of next current_block } ∷ rest
    else []

-- `map` at the end of the loop, which takes no more rounds than there are blocks.
unfoldable pub block_ranges : ℕ → ℕ → List BlockRange
block_ranges from_block current_block =
    let to = from_block + max_block_count in
    record { from = from_block; to = end_of to current_block }
    ∷ more_ranges current_block to current_block

-- `IEvent`, the fields that `getUsersFromEvents` reads: the `user` of `values`, of `returnValues`
-- and of `args`.
pub record Event : Type 0 where
  pub values_user : Option String
  pub return_values_user : Option String
  pub args_user : Option String

-- `!!user`: a text that is there and not empty.
unfoldable pub truthy : Option String → Bool
truthy none = false
truthy (some s) = not (str_eq s "")

-- `a || b`
abbrev pub or_else : Option String → Option String → Option String
or_else a b = if truthy a then a else b

unfoldable pub event_user : Event → Option String
event_user e = or_else e.values_user (or_else e.return_values_user (or_else e.args_user none))

-- `===` on two users.
unfoldable pub user_eq : Option String → Option String → Bool
user_eq none none = true
user_eq none (some b) = false
user_eq (some a) none = false
user_eq (some a) (some b) = str_eq a b

-- `users.indexOf(user)`, `none` for -1.
unfoldable pub index_of : Option String → List (Option String) → Option ℕ
index_of user [] = none
index_of user (x ∷ xs) =
    let rest = index_of user xs in
    if user_eq x user then some 0 else elim rest [ none ↦ none | some i ↦ some (suc i) ]

unfoldable pub is_at : ℕ → Option ℕ → Bool
is_at i none = false
is_at i (some j) = j == i

-- `users.filter((user, i) => !!user && users.indexOf(user) === i)`, from the position i on.
unfoldable pub keep_first : List (Option String) → ℕ → List (Option String) → List (Option String)
keep_first users i [] = []
keep_first users i (user ∷ rest) =
    let kept = keep_first users (i + 1) rest in
    if truthy user && is_at i (index_of user users) then user ∷ kept else kept

unfoldable pub get_users_from_events : List Event → List (Option String)
get_users_from_events events = let users = map event_user events in keep_first users 0 users
