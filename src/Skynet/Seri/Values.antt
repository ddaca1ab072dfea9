-- ===== src/Skynet/Seri/Values.antt =====
-- 02_skynet/lib/skynet/lualib-src/lua-seri.c: all values, with tables of tables, packed as pieces and
-- unpacked again.
pub mod Layout
pub mod Packing
pub mod Refusing
pub mod Reading
pub mod RoundTrip
pub mod Unpacking
use game_server_development.Prelude.{
  ℕ, zero, suc, ◌+◌, ◌%◌, ◌^◌, List, [], ◌∷◌, ◌++◌, Bool, true, false, not, ◌&&◌, leb, ltb, ◌==◌,
  if◌then◌else◌, Option, none, some, ◌>>=◌, length,
}
use game_server_development.Skynet.Seri.Scalars.{
  Scalar, nil, integer, combine_type, type_of, cookie_of, wb_integer, wb_scalar, get_integer,
  push_scalar,
}

-- `MAX_DEPTH`, and `MAX_COOKIE - 1`, the cookie of a table whose size follows.
abbrev pub max_depth : ℕ
max_depth = 32

abbrev pub long_array : ℕ
long_array = 31

-- A Lua value. A table without `__pairs` is its elements from 1 to its `lua_rawlen` and the pairs in the
-- order of `lua_next`; `other` is what has no serial form.
mutual
  pub data Value : Type 0 where
    scalar : Scalar → Value
    table : Values → Pairs → Value
    other : Value

  pub data Values : Type 0 where
    end : Values
    item : Value → Values → Values

  pub data Pairs : Type 0 where
    no_pair : Pairs
    pair : Value → Value → Pairs → Pairs

-- `lua_rawlen`
abbrev pub count : Values → ℕ
count end = 0
count (item v vs) = suc (count vs)

-- The keys that `wb_table_hash` passes over: a negative integer is above every size.
abbrev pub is_array_key : ℕ → Value → Bool
is_array_key n (scalar (integer x)) = ltb 0 x && leb x n
is_array_key n _ = false

abbrev pub is_nil : Value → Bool
is_nil (scalar nil) = true
is_nil _ = false

-- The tag and the size in `wb_table_array`.
unfoldable pub array_head : ℕ → List (List ℕ)
array_head n =
    if leb long_array n
    then (combine_type 6 long_array ∷ []) ∷ wb_integer n
    else (combine_type 6 n ∷ []) ∷ []

-- `pack_one` at a depth, `wb_table_array` behind its head, and `wb_table_hash` behind an array of the
-- given size; none is the error of a table that is too deep or of a type without a serial form.
mutual
  unfolding array_head

  pub pack_one : Value → ℕ → Option (List (List ℕ))
  pack_one (scalar v) depth = if ltb max_depth depth then none else some (wb_scalar v)
  pack_one (table vs ps) depth =
      let array = pack_array vs (depth + 1) in
      let hash = pack_hash ps (count vs) (depth + 1) in
      if ltb max_depth depth
      then none
      else (array >>= λ a. hash >>= λ h. some (array_head (count vs) ++ a ++ h ++ wb_scalar nil))
  pack_one other depth = none

  pub pack_array : Values → ℕ → Option (List (List ℕ))
  pack_array end depth = some []
  pack_array (item v vs) depth =
      pack_one v depth >>= λ a. pack_array vs depth >>= λ b. some (a ++ b)

  pub pack_hash : Pairs → ℕ → ℕ → Option (List (List ℕ))
  pack_hash no_pair n depth = some []
  pack_hash (pair k v ps) n depth =
      let rest = pack_hash ps n depth in
      let key = pack_one k depth in
      let value = pack_one v depth in
      if is_array_key n k
      then rest
      else (key >>= λ a. value >>= λ b. rest >>= λ c. some (a ++ b ++ c))

-- `pack_from`
pub pack_from : Values → Option (List (List ℕ))
unfolding pack_one
pack_from end = some []
pack_from (item v vs) = pack_one v 0 >>= λ a. pack_from vs >>= λ b. some (a ++ b)

-- A number as an int that counts: none of it where it is negative.
abbrev pub as_int : ℕ → ℕ
as_int n = if ltb (n % 2 ^ 32) (2 ^ 31) then n % 2 ^ 32 else 0

-- The size of an array at the beginning of `unpack_table`.
pub array_size : ℕ → List ℕ → Option (ℕ × List ℕ)
array_size cookie [] = if cookie == long_array then none else some (cookie, [])
array_size cookie (tag ∷ bytes) =
    if cookie == long_array
    then (if (type_of tag == 2) && not (cookie_of tag == 8)
        then (get_integer (cookie_of tag) bytes >>= λ r. some (as_int r.0, r.1))
        else none)
    else some (cookie, tag ∷ bytes)

-- The two loops of `unpack_table`, given `unpack_one`; the second on fuel.
module _ (unpack : List ℕ → Option (Value × List ℕ)) where
  pub unpack_array : ℕ → List ℕ → Option (Values × List ℕ)
  unpack_array zero bytes = some (end, bytes)
  unpack_array (suc n) bytes =
      unpack bytes >>= λ r. unpack_array n r.1 >>= λ s. some (item r.0 s.0, s.1)

  pub unpack_hash : ℕ → List ℕ → Option (Pairs × List ℕ)
  unpack_hash zero bytes = none
  unpack_hash (suc fuel) bytes = unpack bytes >>= λ k.
      (if is_nil k.0
        then some (no_pair, k.1)
        else (unpack k.1 >>= λ v. unpack_hash fuel v.1 >>= λ s. some (pair k.0 v.0 s.0, s.1)))

  -- `unpack_table`
  pub unpack_table : ℕ → ℕ → List ℕ → Option (Value × List ℕ)
  unfolding array_size unpack_array unpack_hash
  unpack_table fuel cookie bytes = array_size cookie bytes >>= λ n.
      unpack_array n.0 n.1 >>= λ a. unpack_hash fuel a.1 >>= λ h. some (table a.0 h.0, h.1)

  -- `push_value`
  pub push_value : ℕ → ℕ → ℕ → List ℕ → Option (Value × List ℕ)
  unfolding unpack_table
  push_value fuel t cookie bytes =
      if t == 6
      then unpack_table fuel cookie bytes
      else (push_scalar t cookie bytes >>= λ r. some (scalar r.0, r.1))

-- `unpack_one`; the number is fuel, for the depth of tables and the loop over their pairs.
pub unpack_one : ℕ → List ℕ → Option (Value × List ℕ)
unfolding push_value
unpack_one zero bytes = none
unpack_one (suc fuel) [] = none
unpack_one (suc fuel) (tag ∷ bytes) =
    push_value (unpack_one fuel) fuel (type_of tag) (cookie_of tag) bytes

-- The loop of `luaseri_unpack`, and `luaseri_unpack`, whose size is an int.
pub unpack_loop : ℕ → List ℕ → Option Values
unfolding unpack_one
unpack_loop zero bytes = none
unpack_loop (suc fuel) [] = some end
unpack_loop (suc fuel) (tag ∷ bytes) =
    unpack_one (suc fuel) (tag ∷ bytes) >>= λ r. unpack_loop fuel r.1 >>= λ vs. some (item r.0 vs)

pub luaseri_unpack : List ℕ → Option Values
unfolding unpack_loop
luaseri_unpack bytes =
    let values = unpack_loop (suc (length bytes)) bytes in
    if leb (2 ^ 31) (length bytes) then none else values
