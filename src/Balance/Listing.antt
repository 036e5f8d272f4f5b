-- ===== src/Balance/Listing.antt =====
-- load_assets_listing of matchengine/me_balance.c, which adds the assets of a configuration while the engine
-- runs, with read_cfg_str and read_cfg_int of utils/ut_config.c. The copy of the assets in `settings` is
-- left out. A precision is a number from 0 to 2^31 - 1.
use viabtc_exchange_server.Base.{
  ℕ, suc, Bool, true, false, not, Option, none, some, List, [], ◌∷◌, leb, if◌then◌else◌, length,
  nat_eq,
}
use viabtc_exchange_server.Dict.{find}
use viabtc_exchange_server.Balance.{AssetType, Ledger, key_eq}

-- What json_object_get gives for a key.
pub data Field : Type 0 where
  absent : Field
  whole : ℕ → Field
  text : List ℕ → Field
  other : Field

-- A row of the array "assets", with the three keys that are read.
pub record AssetRow : Type 0 where
  pub is_object : Bool
  pub name : Field
  pub prec_save : Field
  pub prec_show : Field

-- ASSET_NAME_MAX_LEN
abbrev pub asset_name_max_len : ℕ
asset_name_max_len = 15

-- `none` for a negative code; without a default value.
unfoldable pub read_cfg_str : Field → Option (List ℕ)
read_cfg_str absent = none
read_cfg_str (whole n) = none
read_cfg_str (text t) = some t
read_cfg_str other = none

unfoldable pub read_cfg_int : Field → Bool → ℕ → Option ℕ
read_cfg_int absent true default = none
read_cfg_int absent false default = some default
read_cfg_int (whole n) required default = some n
read_cfg_int (text t) required default = none
read_cfg_int other required default = none

infixl 20 ◌>>=◌
abbrev ◌>>=◌ {ℓ κ} : {A : Type ℓ} {B : Type κ} → Option A → (A → Option B) → Option B
none >>= f = none
some x >>= f = f x

-- dict_add on dict_asset: an asset that is there is not replaced.
unfoldable pub add_asset : ℕ → AssetType → Ledger → Bool × Ledger
add_asset a type l = elim (find a l.dict_asset) [
  | some _ ↦ (false, l)
  | none ↦ (true, record l { dict_asset = (a, type) ∷ l.dict_asset })
]

-- init_balance on the assets of the configuration: no asset may be there twice.
unfoldable pub init_assets : List (ℕ × AssetType) → Ledger → Bool × Ledger
unfolding add_asset
init_assets [] l = (true, l)
init_assets ((a, type) ∷ assets) l =
    let added = add_asset a type l in
    let rest = init_assets assets added.1 in if added.0 then rest else (false, l)

abbrev pub init_balance : List (ℕ × AssetType) → Bool × Ledger
init_balance assets = init_assets assets (record { dict_asset = []; dict_balance = [] })

-- The number of an asset's name.
module _ (intern : List ℕ → ℕ) where
  -- The check of the name's length.
  abbrev pub named : List ℕ → AssetType → Option (ℕ × AssetType)
  named name type = if leb (length name) asset_name_max_len then some (intern name, type) else none

  -- The asset of a row.
  unfoldable pub read_row : AssetRow → Option (ℕ × AssetType)
  read_row row = if not row.is_object then none else do
    name ← read_cfg_str row.name
    save ← read_cfg_int row.prec_save true 0
    shown ← read_cfg_int row.prec_show false save
    named name (record { prec_save = save; prec_show = shown })

  -- The loop with the assets counted so far. Behind an error the assets of the rows before stay.
  unfoldable pub load_rows : List AssetRow → ℕ → Ledger → Option ℕ × Ledger
  load_rows [] count l = (some count, l)
  load_rows (row ∷ rows) count l = elim (read_row row) [
    | none ↦ (none, l)
    | some r ↦
        let added = add_asset r.0 r.1 l in
        load_rows rows (if added.0 then suc count else count) added.1
  ]

  -- `none` in place of an array: the key is missing, or its value is no array.
  unfoldable pub load_assets_listing : Option (List AssetRow) → Ledger → Option ℕ × Ledger
  load_assets_listing none l = (none, l)
  load_assets_listing (some rows) l = load_rows rows 0 l
