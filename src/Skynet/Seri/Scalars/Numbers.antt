-- ===== src/Skynet/Seri/Scalars/Numbers.antt =====
-- Integers are read back.
use game_server_development.Prelude.{
  ℕ, ◌%◌, ◌^◌, ◌<◌, ◌≡◌, refl, sym, ap, ◌∙◌, subst, List, [], ◌∷◌, ◌++◌, append-nil, true, not, leb,
  ltb, ◌==◌, if_true, if_false, Option, some, ◌>>=◌, arith, Bool-cases, inl, inr, ==_iff,
}
use game_server_development.Skynet.Seri.Blocks.{concat}
use game_server_development.Skynet.Seri.Scalars.{
  Scalar, integer, combine_type, to_bytes, of_bytes, int32, wb_integer, get_integer, push_scalar,
  unpack_scalar,
}
use game_server_development.Skynet.Seri.Scalars.Bytes.{
  length-to_bytes, of_bytes-to_bytes, rb_read-append, read-to_bytes, Reads, tagged,
}

abbrev as_signed : List ℕ × List ℕ → Option (ℕ × List ℕ)
as_signed r = some (int32 (of_bytes r.0), r.1)

abbrev of_integer : ℕ × List ℕ → Option (Scalar × List ℕ)
of_integer r = some (integer r.0, r.1)

-- Pieces that are a tag with a cookie below 8 and the bytes that `get_integer` reads for it.
abbrev pub Written : ℕ → List (List ℕ) → Type 0
Written v pieces =
    (cookie : ℕ) × (bytes : List ℕ) × (concat pieces ≡ combine_type 2 cookie ∷ bytes)
    × (cookie < 8)
    × ((rest : List ℕ) → get_integer cookie (bytes ++ rest) ≡ some (v, rest))

written :
    (cookie v : ℕ) (bytes : List ℕ)
    → cookie < 8
    → ((rest : List ℕ) → get_integer cookie (bytes ++ rest) ≡ some (v, rest))
    → Written v ((combine_type 2 cookie ∷ []) ∷ bytes ∷ [])
written cookie v bytes c e =
    (cookie, bytes, ap (λ b. combine_type 2 cookie ∷ b) (append-nil bytes), c, e)

-- The low 32 bits as a signed number.
int32-low : (v : ℕ) → int32 (v % 2 ^ 32) ≡ int32 v
unfolding int32
int32-low v = ground arith

signed_bytes :
    (v : ℕ) (rest : List ℕ)
    → v < 2 ^ 32
    → get_integer 4 (to_bytes 4 v ++ rest) ≡ some (int32 v, rest)
unfolding get_integer
signed_bytes v rest h =
    ap (λ o. o >>= λ r. as_signed r) (rb_read-append (to_bytes 4 v) rest 4 (length-to_bytes 4 v))
    ∙ ap (λ k. some (int32 k, rest)) (of_bytes-to_bytes 4 v (omega (arith, h)))

pub same : (v : ℕ) → (v == int32 v) ≡ true → v ≡ int32 v
same v e = (==_iff v (int32 v)).0 e

-- Four bytes, where their sign gives the number.
word :
    (v w : ℕ) → w < 2 ^ 32 → int32 w ≡ v → Written v ((combine_type 2 4 ∷ []) ∷ to_bytes 4 w ∷ [])
word v w h e =
    written 4 v (to_bytes 4 w) (omega arith)
      (λ rest. signed_bytes w rest h ∙ ap (λ k. some (k, rest)) e)

pub wb_integer-Written : (v : ℕ) → v < 2 ^ 64 → Written v (wb_integer v)
unfolding wb_integer get_integer int32
wb_integer-Written v h = elim (Bool-cases (v == 0)) [
  | inl z ↦
      let e : 0 ≡ v = ground (arith, z) in
      subst (Written v) (sym (if_true _ _ z))
        (0, [], refl, omega arith, λ rest. ap (λ k. some (k, rest)) e)
  | inr nz ↦ subst (Written v) (sym (if_false _ _ nz)) (elim (Bool-cases (v == int32 v)) [
    | inr big ↦ subst (Written v) (sym (if_true _ _ (ap not big))) (
        written 6 v (to_bytes 8 v) (omega arith)
          (λ rest. read-to_bytes 8 v rest (omega (arith, h))))
    | inl fits ↦
        subst (Written v) (sym (if_false _ _ (ap not fits))) (elim (Bool-cases (leb (2 ^ 63) v)) [
          | inl negative ↦
              subst (Written v) (sym (if_true _ _ negative))
                (word v (v % 2 ^ 32) (omega arith) (int32-low v ∙ sym (same v fits)))
          | inr positive ↦
              subst (Written v) (sym (if_false _ _ positive)) (elim (Bool-cases (ltb v 256)) [
                | inl one ↦ subst (Written v) (sym (if_true _ _ one)) (
                    written 1 v (to_bytes 1 v) (omega arith)
                      (λ rest. read-to_bytes 1 v rest (ground (arith, one))))
                | inr more_bytes ↦
                    subst (Written v) (sym (if_false _ _ more_bytes))
                      (elim (Bool-cases (ltb v 65536)) [
                        | inl two ↦ subst (Written v) (sym (if_true _ _ two)) (
                            written 2 v (to_bytes 2 v) (omega arith)
                              (λ rest. read-to_bytes 2 v rest (ground (arith, two))))
                        | inr four ↦
                            subst (Written v) (sym (if_false _ _ four))
                              (word v v (ground (arith, positive, same v fits)) (sym (same v fits)))
                      ])
              ])
        ])
  ])
]

-- A tag with a cookie below 8 and its bytes are a number.
pub wb_integer-Reads : (v : ℕ) → v < 2 ^ 64 → Reads (integer v) (wb_integer v)
unfolding push_scalar
wb_integer-Reads v h rest =
    let (cookie, bytes, e, c, reads) = wb_integer-Written v h in
    ap (λ t. unpack_scalar (t ++ rest)) e
    ∙ tagged 2 cookie (bytes ++ rest) (omega arith)
    ∙ if_false {b = cookie == 8} _ _ (ground (arith, c))
    ∙ ap (λ o. o >>= of_integer) (reads rest)
