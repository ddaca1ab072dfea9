-- ===== src/Skynet/Seri/Scalars/Bytes.antt =====
-- Tags, the bytes of integers, and reading what stands in front.
use game_server_development.Prelude.{
  ℕ, zero, suc, ◌/◌, ◌^◌, ◌<◌, ◌≡◌, refl, ap, ap₂, ◌∙◌, subst, List, [], ◌∷◌, ◌++◌, ltb, if_false,
  Option, some, ◌>>=◌, arith, length, drop, length-append,
}
use native.Mathlib.Nat.{pow-suc}
use game_server_development.Prelude.Bits.{bit_or_fields, bit_and_mask}
use game_server_development.Skynet.Seri.Blocks.{concat, take-append}
use game_server_development.Skynet.Seri.Scalars.{
  Scalar, combine_type, type_of, cookie_of, to_bytes, of_bytes, rb_read, push_scalar, unpack_scalar,
}

-- A tag has its two parts.
pub tag-type : (t v : ℕ) → t < 8 → type_of (combine_type t v) ≡ t
tag-type t v h = omega (arith, bit_or_fields 3 v t h, bit_and_mask 3 (combine_type t v))

pub tag-cookie : (t v : ℕ) → t < 8 → cookie_of (combine_type t v) ≡ v
tag-cookie t v h = omega (arith, bit_or_fields 3 v t h)

pub length-to_bytes : (n v : ℕ) → length (to_bytes n v) ≡ n
unfolding to_bytes
length-to_bytes zero v = refl
length-to_bytes (suc n) v = ap suc (length-to_bytes n (v / 256))

pub of_bytes-to_bytes : (n v : ℕ) → v < 256 ^ n → of_bytes (to_bytes n v) ≡ v
unfolding to_bytes of_bytes
of_bytes-to_bytes zero v h = omega (arith, h)
of_bytes-to_bytes (suc n) v h =
    omega (arith, of_bytes-to_bytes n (v / 256) (omega (arith, h, pow-suc 256 n)))

drop-append : (xs ys : List ℕ) → drop (length xs) (xs ++ ys) ≡ ys
drop-append [] ys = refl
drop-append (x ∷ xs) ys = drop-append xs ys

-- What stands in front can be read.
pub rb_read-append :
    (xs rest : List ℕ) (n : ℕ) → length xs ≡ n → rb_read (xs ++ rest) n ≡ some (xs, rest)
unfolding rb_read
rb_read-append xs rest n e =
    subst (λ k. rb_read (xs ++ rest) k ≡ some (xs, rest)) e
      (if_false {b = ltb (length (xs ++ rest)) (length xs)} _ _
          (ground (arith, length-append xs rest))
        ∙ ap₂ (λ x y. some (x, y)) (take-append xs rest) (drop-append xs rest))

-- What is made of the bytes that were read.
abbrev as_integer : List ℕ × List ℕ → Option (ℕ × List ℕ)
as_integer r = some (of_bytes r.0, r.1)

pub read-to_bytes :
    (n v : ℕ) (rest : List ℕ)
    → v < 256 ^ n
    → (rb_read (to_bytes n v ++ rest) n >>= as_integer) ≡ some (v, rest)
read-to_bytes n v rest h =
    ap (λ o. o >>= as_integer) (rb_read-append (to_bytes n v) rest n (length-to_bytes n v))
    ∙ ap (λ k. some (k, rest)) (of_bytes-to_bytes n v h)

-- A number reads back from its tag and its bytes.
abbrev pub Reads : Scalar → List (List ℕ) → Type 0
Reads v pieces = (rest : List ℕ) → unpack_scalar (concat pieces ++ rest) ≡ some (v, rest)

pub tagged :
    (t cookie : ℕ) (bytes : List ℕ)
    → t < 8
    → unpack_scalar (combine_type t cookie ∷ bytes) ≡ push_scalar t cookie bytes
unfolding unpack_scalar
tagged t cookie bytes h =
    ap₂ (λ a b. push_scalar a b bytes) (tag-type t cookie h) (tag-cookie t cookie h)
