-- ===== src/Skynet/Seri/Scalars.antt =====
-- 02_skynet/lib/skynet/lualib-src/lua-seri.c: the values that are not tables, as the pieces that are
-- pushed for them, and as they are read back.
pub mod Bytes
pub mod Numbers
pub mod Strings
pub mod RoundTrip
use game_server_development.Prelude.{
  ℕ, zero, suc, ◌+◌, ◌-◌, ◌*◌, ◌/◌, ◌%◌, ◌^◌, bit_and, bit_or, List, [], ◌∷◌, ◌++◌, Bool, true,
  false, not, leb, ltb, ◌==◌, if◌then◌else◌, Option, none, some, ◌>>=◌, length, take, drop,
}

-- A Lua integer is its 64 bits, a real and a pointer are the eight bytes that are copied.
pub data Scalar : Type 0 where
  nil : Scalar
  boolean : Bool → Scalar
  integer : ℕ → Scalar
  real pointer string : List ℕ → Scalar

-- `COMBINE_TYPE`, and the two parts of a tag.
abbrev pub combine_type : ℕ → ℕ → ℕ
combine_type t v = bit_or t (v * 2 ^ 3)

abbrev pub type_of : ℕ → ℕ
type_of tag = bit_and tag 7

abbrev pub cookie_of : ℕ → ℕ
cookie_of tag = tag / 2 ^ 3

-- The bytes of an integer in memory, lowest first, and back.
pub to_bytes : ℕ → ℕ → List ℕ
to_bytes zero v = []
to_bytes (suc n) v = v % 256 ∷ to_bytes n (v / 256)

pub of_bytes : List ℕ → ℕ
of_bytes [] = 0
of_bytes (b ∷ bytes) = b + 256 * of_bytes bytes

-- The 64 bits of the low 32 as a signed number.
pub int32 : ℕ → ℕ
int32 v = if ltb (v % 2 ^ 32) (2 ^ 31) then v % 2 ^ 32 else v % 2 ^ 32 + (2 ^ 64 - 2 ^ 32)

-- `wb_integer`
pub wb_integer : ℕ → List (List ℕ)
unfolding int32 to_bytes
wb_integer v =
    if v == 0
    then (combine_type 2 0 ∷ []) ∷ []
    else if not (v == int32 v)
    then (combine_type 2 6 ∷ []) ∷ to_bytes 8 v ∷ []
    else if leb (2 ^ 63) v
    then (combine_type 2 4 ∷ []) ∷ to_bytes 4 (v % 2 ^ 32) ∷ []
    else if ltb v 256
    then (combine_type 2 1 ∷ []) ∷ to_bytes 1 v ∷ []
    else if ltb v 65536
    then (combine_type 2 2 ∷ []) ∷ to_bytes 2 v ∷ []
    else (combine_type 2 4 ∷ []) ∷ to_bytes 4 v ∷ []

-- `wb_string` of a length that an int can hold.
pub wb_string : List ℕ → List (List ℕ)
unfolding to_bytes
wb_string s =
    if ltb (length s) 32
    then (combine_type 4 (length s) ∷ []) ∷ (if ltb 0 (length s) then s ∷ [] else [])
    else if ltb (length s) 65536
    then (combine_type 5 2 ∷ []) ∷ to_bytes 2 (length s) ∷ s ∷ []
    else (combine_type 5 4 ∷ []) ∷ to_bytes 4 (length s) ∷ s ∷ []

-- `wb_nil`, `wb_boolean`, `wb_real` and `wb_pointer` with these, by the type as in `pack_one`.
unfoldable pub wb_scalar : Scalar → List (List ℕ)
unfolding wb_integer wb_string
wb_scalar nil = (0 ∷ []) ∷ []
wb_scalar (boolean b) = (combine_type 1 (if b then 1 else 0) ∷ []) ∷ []
wb_scalar (integer v) = wb_integer v
wb_scalar (real bytes) = (combine_type 2 8 ∷ []) ∷ bytes ∷ []
wb_scalar (pointer bytes) = (3 ∷ []) ∷ bytes ∷ []
wb_scalar (string s) = wb_string s

-- `rb_read` on the bytes that are left.
pub rb_read : List ℕ → ℕ → Option (List ℕ × List ℕ)
rb_read bytes n = if ltb (length bytes) n then none else some (take n bytes, drop n bytes)

-- `get_integer`; none is an invalid stream.
unfoldable pub get_integer : ℕ → List ℕ → Option (ℕ × List ℕ)
unfolding rb_read of_bytes int32
get_integer cookie bytes =
    if cookie == 0
    then some (0, bytes)
    else if cookie == 1
    then (rb_read bytes 1 >>= λ r. some (of_bytes r.0, r.1))
    else if cookie == 2
    then (rb_read bytes 2 >>= λ r. some (of_bytes r.0, r.1))
    else if cookie == 4
    then (rb_read bytes 4 >>= λ r. some (int32 (of_bytes r.0), r.1))
    else if cookie == 6
    then (rb_read bytes 8 >>= λ r. some (of_bytes r.0, r.1))
    else none

-- `push_value` for the types other than tables, with `get_real`, `get_pointer` and `get_buffer`; none is
-- an invalid stream, or a length that is negative as an int, which `rb_read` does not refuse.
unfoldable pub push_scalar : ℕ → ℕ → List ℕ → Option (Scalar × List ℕ)
unfolding rb_read of_bytes get_integer
push_scalar t cookie bytes =
    if t == 0
    then some (nil, bytes)
    else if t == 1
    then some (boolean (not (cookie == 0)), bytes)
    else if t == 2
    then (if cookie == 8
        then (rb_read bytes 8 >>= λ r. some (real r.0, r.1))
        else (get_integer cookie bytes >>= λ r. some (integer r.0, r.1)))
    else if t == 3
    then (rb_read bytes 8 >>= λ r. some (pointer r.0, r.1))
    else if t == 4
    then (rb_read bytes cookie >>= λ r. some (string r.0, r.1))
    else if t == 5
    then (if cookie == 2
        then (rb_read bytes 2 >>= λ r. rb_read r.1 (of_bytes r.0) >>= λ s. some (string s.0, s.1))
        else if cookie == 4
        then (rb_read bytes 4 >>= λ r.
            (if ltb (of_bytes r.0) (2 ^ 31) then rb_read r.1 (of_bytes r.0) else none) >>= λ s.
            some (string s.0, s.1))
        else none)
    else none

-- `unpack_one` for these.
unfoldable pub unpack_scalar : List ℕ → Option (Scalar × List ℕ)
unfolding push_scalar
unpack_scalar [] = none
unpack_scalar (tag ∷ bytes) = push_scalar (type_of tag) (cookie_of tag) bytes
