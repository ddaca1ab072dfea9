-- ===== src/Skynet/Seri/Values/Reading.antt =====
-- How `unpack_one` begins on a value that is not a table, and on the head of a table.
use game_server_development.Prelude.{
  ℕ, suc, ◌^◌, ◌<◌, ◌≡◌, refl, sym, ap, ap₂, ◌∙◌, subst, List, [], ◌∷◌, ◌++◌, true, false, not,
  ◌&&◌, leb, ◌==◌, if_true, if_false, Option, none, some, ◌>>=◌, arith, Bool-cases, inl, inr,
  ==_iff, length,
}
use game_server_development.Skynet.Seri.Blocks.{concat}
use game_server_development.Skynet.Seri.Scalars.{
  Scalar, nil, combine_type, type_of, cookie_of, wb_integer, get_integer, push_scalar,
  unpack_scalar,
}
use game_server_development.Skynet.Seri.Scalars.Bytes.{tag-type, tag-cookie}
use game_server_development.Skynet.Seri.Scalars.Numbers.{wb_integer-Written}
use game_server_development.Skynet.Seri.Scalars.RoundTrip.{no_value}
use game_server_development.Skynet.Seri.Values.{
  Value, scalar, table, long_array, array_head, as_int, array_size, unpack_array, unpack_hash,
  unpack_table, push_value, unpack_one,
}

abbrev as_scalar : Scalar × List ℕ → Option (Value × List ℕ)
as_scalar r = some (scalar r.0, r.1)

push_scalar-table : (cookie : ℕ) (bytes : List ℕ) → push_scalar 6 cookie bytes ≡ none
unfolding push_scalar
push_scalar-table cookie bytes = refl

-- What `unpack_scalar` reads is no table.
pub unpack_one-scalar :
    (fuel : ℕ) (v : Scalar) (bytes rest : List ℕ)
    → unpack_scalar bytes ≡ some (v, rest)
    → unpack_one (suc fuel) bytes ≡ some (scalar v, rest)
unfolding unpack_one push_value unpack_scalar
unpack_one-scalar fuel v [] rest e = absurd (no_value v rest e)
unpack_one-scalar fuel v (tag ∷ bytes) rest e = elim (Bool-cases (type_of tag == 6)) [
  | inl t ↦
      let n =
        sym (
          ap (λ k. push_scalar k (cookie_of tag) bytes) ((==_iff (type_of tag) 6).0 t)
          ∙ push_scalar-table (cookie_of tag) bytes)
        ∙ e in
      absurd (cc n)
  | inr t ↦ if_false _ _ t ∙ ap (λ o. o >>= as_scalar) e
]

-- The end of the pairs.
pub unpack_one-nil :
    (fuel : ℕ) (rest : List ℕ) → unpack_one (suc fuel) (0 ∷ rest) ≡ some (scalar nil, rest)
unfolding unpack_scalar push_scalar
unpack_one-nil fuel rest = unpack_one-scalar fuel nil (0 ∷ rest) rest refl

-- What `unpack_table` does once it knows the size.
abbrev pub unpack_items :
    (List ℕ → Option (Value × List ℕ)) → ℕ → ℕ × List ℕ → Option (Value × List ℕ)
unpack_items unpack fuel n = unpack_array unpack n.0 n.1 >>= λ a.
    unpack_hash unpack fuel a.1 >>= λ h. some (table a.0 h.0, h.1)

tagged_table :
    (fuel cookie : ℕ) (bytes : List ℕ)
    → unpack_one (suc fuel) (combine_type 6 cookie ∷ bytes)
      ≡ (array_size cookie bytes >>= unpack_items (unpack_one fuel) fuel)
unfolding unpack_one push_value unpack_table
tagged_table fuel cookie bytes =
    ap₂ (λ t c. push_value (unpack_one fuel) fuel t c bytes) (tag-type 6 cookie (omega arith))
      (tag-cookie 6 cookie (omega arith))

short_size :
    (n : ℕ) (bytes : List ℕ) → (n == long_array) ≡ false → array_size n bytes ≡ some (n, bytes)
unfolding array_size
short_size n [] e = if_false _ _ e
short_size n (b ∷ bytes) e = if_false _ _ e

long_size :
    (n : ℕ) (rest : List ℕ)
    → n < 2 ^ 31
    → array_size long_array (concat (wb_integer n) ++ rest) ≡ some (n, rest)
unfolding array_size
long_size n rest h =
    let (cookie, bytes, e, c, reads) = wb_integer-Written n (omega (arith, h)) in
    let tag = combine_type 2 cookie in
    let t : (type_of tag == 2) ≡ true =
      (==_iff (type_of tag) 2).1 (tag-type 2 cookie (omega arith)) in
    let d : cookie_of tag ≡ cookie = tag-cookie 2 cookie (omega arith) in
    let nine : not (cookie_of tag == 8) ≡ true = ground (arith, d, c) in
    ap (λ b. array_size long_array (b ++ rest)) e
    ∙ if_true _ _ (ap₂ ◌&&◌ t nine)
    ∙ ap (λ k. get_integer k (bytes ++ rest) >>= as_size) d
    ∙ ap (λ o. o >>= as_size) (reads rest)
    ∙ ap (λ k. some (k, rest)) (ground (arith, h))
  where
    as_size : ℕ × List ℕ → Option (ℕ × List ℕ)
    as_size r = some (as_int r.0, r.1)

-- The head of a table gives its size.
pub unpack_one-head :
    (fuel n : ℕ) (rest : List ℕ)
    → n < 2 ^ 31
    → unpack_one (suc fuel) (concat (array_head n) ++ rest)
      ≡ unpack_items (unpack_one fuel) fuel (n, rest)
unfolding array_head
unpack_one-head fuel n rest h = elim (Bool-cases (leb long_array n)) [
  | inl long ↦
      ap (λ p. unpack_one (suc fuel) (concat p ++ rest)) (if_true _ _ long)
      ∙ tagged_table fuel long_array (concat (wb_integer n) ++ rest)
      ∙ ap (λ o. o >>= unpack_items (unpack_one fuel) fuel) (long_size n rest h)
  | inr short ↦
      ap (λ p. unpack_one (suc fuel) (concat p ++ rest)) (if_false _ _ short)
      ∙ tagged_table fuel n rest
      ∙ ap (λ o. o >>= unpack_items (unpack_one fuel) fuel)
          (short_size n rest (ground (arith, short)))
]

-- The head has a tag at least.
pub head_some : (n : ℕ) → 0 < length (concat (array_head n))
unfolding array_head
head_some n = elim (Bool-cases (leb long_array n)) [
  | inl long ↦ subst (λ p. 0 < length (concat p)) (sym (if_true _ _ long)) (omega arith)
  | inr short ↦ subst (λ p. 0 < length (concat p)) (sym (if_false _ _ short)) (omega arith)
]
