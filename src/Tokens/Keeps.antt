-- ===== src/Tokens/Keeps.antt =====
-- What filling the tokens keeps: whatever the write of a row keeps.
use liquidator.Base.{String, List, [], ◌∷◌, filter}
use liquidator.Base.Results.{Result, ok, err}
use liquidator.BigNumber.{BigNumber}
use liquidator.Config.{Network}
use liquidator.Orm.{Orm}
use liquidator.State.{App, Token, NetworkRow}
use liquidator.State.Preserves.{Preserves}
use liquidator.Tokens.{
  TokenReads, TokenDescription, is_pool_asset, write_token, fill_token, fill_each, fill_networks,
  fill_tokens, read_token,
}

module _ (bn : BigNumber) (orm : Orm) {World : Type 0} (reads : TokenReads bn.Num World)
    (account : String) (P : App bn.Num World → Type 0)
    (upserts : (row : Token bn.Num) (s : App bn.Num World)
      → P s
      → P (write_token bn orm reads account row s)) where
  fill_token-Preserves :
      (network : Network) (t : TokenDescription)
      → Preserves P (fill_token bn orm reads account network t)
  unfolding fill_token
  fill_token-Preserves network t = record {
    apply = λ s h. go s h (read_token bn orm reads account network t s);
  }
    where
      go :
          (s : App bn.Num World)
          → P s
          → (r : Result (Token bn.Num))
          → let end : Result (Unit {0}) × App bn.Num World = elim r [
            | err e ↦ (err e, s)
            | ok row ↦ (ok tt, write_token bn orm reads account row s)
          ] in
            P end.1
      go s h (err e) = h
      go s h (ok row) = upserts row s h

  fill_each-Preserves :
      (network : Network) (ts : List TokenDescription)
      → Preserves P (fill_each bn orm reads account network ts)
  unfolding fill_each
  fill_each-Preserves network [] = record { apply = λ s h. h }
  fill_each-Preserves network (t ∷ rest) = record {
    apply = λ s h.
        (fill_each-Preserves network rest).apply _ ((fill_token-Preserves network t).apply s h);
  }

  fill_networks-Preserves :
      (ns : List (NetworkRow bn.Num)) → Preserves P (fill_networks bn orm reads account ns)
  unfolding fill_networks
  fill_networks-Preserves [] = record { apply = λ s h. h }
  fill_networks-Preserves (n ∷ rest) = record {
    apply =
        λ s h. go (fill_networks-Preserves rest).apply s h (reads.get_all_reserves_tokens n.id s);
  }
    where
      go :
          ((s : App bn.Num World) → P s → P (fill_networks bn orm reads account rest s).1)
          → (s : App bn.Num World) → P s
          → (r : Result (List TokenDescription))
          → let end : Result (Unit {0}) × App bn.Num World = elim r [
            | err e ↦ (err e, s)
            | ok tokens ↦
                let (r, s') = fill_each bn orm reads account n.id (filter is_pool_asset tokens) s in
                let (later, s'') = fill_networks bn orm reads account rest s' in
                (elim r [ err e ↦ err e | ok _ ↦ later ], s'')
          ] in
            P end.1
      go later s h (err e) = h
      go later s h (ok tokens) =
          later _ ((fill_each-Preserves n.id (filter is_pool_asset tokens)).apply s h)

  pub fill_tokens-Preserves : Preserves P (fill_tokens bn orm reads account)
  unfolding fill_tokens
  fill_tokens-Preserves = record {
    apply = λ s h.
        (fill_networks-Preserves
            (orm.find_all (λ (n : NetworkRow bn.Num). n.is_active) s.networks)).apply
          s h;
  }

module _ (bn : BigNumber) (orm : Orm) {World : Type 0} (reads : TokenReads bn.Num World)
    (account : String) (P : App bn.Num World → Type 0)
    (free : (s : App bn.Num World) (tokens : List (Token bn.Num))
      → P s
      → P (record s { tokens = tokens })) where
  -- A property that the tokens do not bear on.
  pub write_token-keeps :
      (row : Token bn.Num) (s : App bn.Num World) → P s → P (write_token bn orm reads account row s)
  unfolding write_token
  write_token-keeps row s h = free s _ h
