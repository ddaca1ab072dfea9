-- ===== src/Skynet/Seri/Values/Layout.antt =====
-- What a packed value looks like, when it can be packed, and what is built of it again.
use game_server_development.Prelude.{
  ℕ, zero, suc, leb, ◌<◌, ◌^◌, ◌≡◌, ◌==◌, ◌||◌, List, [], ◌++◌, Bool, true, false, ◌&&◌,
  if◌then◌else◌, refl, arith,
}
use game_server_development.Skynet.Seri.Scalars.{nil, integer, wb_scalar}
use game_server_development.Skynet.Seri.Scalars.RoundTrip.{IsScalar}
use game_server_development.Skynet.Seri.Values.{
  Value, scalar, table, other, Values, end, item, Pairs, no_pair, pair, count, is_array_key, is_nil,
  array_head,
}

-- Whether a key is one of 1 to `n`.
abbrev pub is_index : ℕ → Value → Bool
is_index zero k = false
is_index (suc n) (scalar (integer x)) = (x == suc n) || is_index n (scalar (integer x))
is_index (suc n) k = false

-- `is_array_key` counts the keys that the array has written.
pub is_array_key_lem : (n : ℕ) (k : Value) → is_array_key n k ≡ is_index n k
is_array_key_lem zero (scalar (integer x)) = ground arith
is_array_key_lem (suc n) (scalar (integer x)) =
    let e = is_array_key_lem n (scalar (integer x)) in ground (arith, e)
is_array_key_lem zero k = refl
is_array_key_lem (suc n) k = refl

-- The larger of two depths.
abbrev pub deeper : ℕ → ℕ → ℕ
deeper a b = if leb a b then b else a

-- The pieces of a value, without the errors.
unfoldable mutual
  pub layout : Value → List (List ℕ)
  layout (scalar v) = wb_scalar v
  layout (table vs ps) =
      array_head (count vs) ++ layout_array vs ++ layout_hash ps (count vs) ++ wb_scalar nil
  layout other = []

  pub layout_array : Values → List (List ℕ)
  layout_array end = []
  layout_array (item v vs) = layout v ++ layout_array vs

  pub layout_hash : Pairs → ℕ → List (List ℕ)
  layout_hash no_pair n = []
  layout_hash (pair k v ps) n =
      let rest = layout_hash ps n in
      let both = layout k ++ layout v in if is_index n k then rest else both ++ rest

-- How many tables a value is deep; a table that holds nothing adds nothing.
unfoldable mutual
  pub nesting : Value → ℕ
  nesting (scalar v) = 0
  nesting (table vs ps) = deeper (nesting_array vs) (nesting_hash ps (count vs))
  nesting other = 0

  pub nesting_array : Values → ℕ
  nesting_array end = 0
  nesting_array (item v vs) = deeper (suc (nesting v)) (nesting_array vs)

  pub nesting_hash : Pairs → ℕ → ℕ
  nesting_hash no_pair n = 0
  nesting_hash (pair k v ps) n =
      let rest = nesting_hash ps n in
      let both = deeper (suc (nesting k)) (suc (nesting v)) in
      if is_index n k then rest else deeper both rest

-- Whether each value in it has a serial form.
unfoldable mutual
  pub supported : Value → Bool
  supported (scalar v) = true
  supported (table vs ps) = supported_array vs && supported_hash ps (count vs)
  supported other = false

  pub supported_array : Values → Bool
  supported_array end = true
  supported_array (item v vs) = supported v && supported_array vs

  pub supported_hash : Pairs → ℕ → Bool
  supported_hash no_pair n = true
  supported_hash (pair k v ps) n =
      let rest = supported_hash ps n in
      let both = supported k && supported v in if is_index n k then rest else both && rest

-- The value with tables as `unpack_table` builds them: no pair stands for an array element.
unfoldable mutual
  pub rebuilt : Value → Value
  rebuilt (scalar v) = scalar v
  rebuilt (table vs ps) = table (rebuilt_array vs) (rebuilt_hash ps (count vs))
  rebuilt other = other

  pub rebuilt_array : Values → Values
  rebuilt_array end = end
  rebuilt_array (item v vs) = item (rebuilt v) (rebuilt_array vs)

  pub rebuilt_hash : Pairs → ℕ → Pairs
  rebuilt_hash no_pair n = no_pair
  rebuilt_hash (pair k v ps) n =
      let rest = rebuilt_hash ps n in
      let key = rebuilt k in
      let value = rebuilt v in if is_index n k then rest else pair key value rest

-- What Lua and C can hold: sizes that are ints, and keys that are not nil.
abbrev mutual
  pub IsValue : Value → Type 0
  IsValue (scalar v) = IsScalar v
  IsValue (table vs ps) = (count vs < 2 ^ 31) × AreValues vs × ArePairs ps
  IsValue other = Unit

  pub AreValues : Values → Type 0
  AreValues end = Unit
  AreValues (item v vs) = IsValue v × AreValues vs

  pub ArePairs : Pairs → Type 0
  ArePairs no_pair = Unit
  ArePairs (pair k v ps) = (is_nil k ≡ false) × IsValue k × IsValue v × ArePairs ps
