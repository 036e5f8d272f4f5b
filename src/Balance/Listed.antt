-- ===== src/Balance/Listed.antt =====
-- What load_assets_listing of matchengine/me_balance.c does to the assets, and to the balances.
use viabtc_exchange_server.Base.{
  ℕ, ◌+◌, ◌≡◌, Option, none, some, List, [], ◌∷◌, ◌==◌, if◌then◌else◌, length, nat_eq,
}
use viabtc_exchange_server.Decimal.{Decimal}
use viabtc_exchange_server.Balance.{AssetType, Ledger, get_asset_type, key_eq}
use viabtc_exchange_server.Balance.Listing.{AssetRow, read_row}

abbrev pub or_else : Option AssetType → Option AssetType → Option AssetType
or_else none q = q
or_else (some x) q = some x

abbrev pub rows_of : Option (List AssetRow) → List AssetRow
rows_of none = []
rows_of (some rows) = rows

-- The number of an asset's name.
module _ (intern : List ℕ → ℕ) where
  -- The first row of an asset.
  abbrev pub first_row : ℕ → List AssetRow → Option AssetType
  first_row a [] = none
  first_row a (row ∷ rows) = elim (read_row intern row) [
    | none ↦ none
    | some r ↦ if a == r.0 then some r.1 else first_row a rows
  ]

  -- Without an error each asset is what it was, or else what its first row says, and the new assets are
  -- counted.
  abbrev pub Counted : List AssetRow → ℕ → Ledger → Ledger → Option ℕ → Type 0
  Counted rows count l l' none = Unit
  Counted rows count l l' (some n) =
      ((a : ℕ) → get_asset_type l' a ≡ or_else (get_asset_type l a) (first_row a rows))
      × (length l'.dict_asset + count ≡ length l.dict_asset + n)

  -- No balance changes, and no known asset.
  pub record Listed (rows : List AssetRow) (count : ℕ) (l : Ledger) (r : Option ℕ × Ledger)
      : Type 0 where
    pub balances : r.1.dict_balance ≡ l.dict_balance
    pub kept : (a : ℕ) → get_asset_type r.1 a ≡ or_else (get_asset_type l a) (get_asset_type r.1 a)
    pub counted : Counted rows count l r.1 r.0
