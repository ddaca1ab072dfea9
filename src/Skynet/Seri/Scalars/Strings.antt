-- ===== src/Skynet/Seri/Scalars/Strings.antt =====
-- Strings are read back.
use game_server_development.Prelude.{
  ℕ, ◌^◌, ◌<◌, ◌≡◌, refl, sym, ap, ◌∙◌, subst, List, [], ◌∷◌, ◌++◌, append-nil, true, ltb,
  if◌then◌else◌, if_true, if_false, Option, none, some, ◌>>=◌, arith, length, Bool-cases, inl, inr,
}
use game_server_development.Skynet.Seri.Blocks.{concat}
use game_server_development.Skynet.Seri.Scalars.{
  Scalar, string, to_bytes, of_bytes, wb_string, rb_read, push_scalar,
}
use game_server_development.Skynet.Seri.Scalars.Bytes.{
  length-to_bytes, of_bytes-to_bytes, rb_read-append, Reads, tagged,
}

abbrev of_string : List ℕ × List ℕ → Option (Scalar × List ℕ)
of_string r = some (string r.0, r.1)

-- A string behind its length.
sized_string :
    (n : ℕ) (s rest : List ℕ)
    → length s < 256 ^ n
    → (rb_read (to_bytes n (length s) ++ (s ++ rest)) n >>= λ r.
        rb_read r.1 (of_bytes r.0) >>= of_string)
      ≡ some (string s, rest)
sized_string n s rest h =
    ap (λ o. o >>= λ r. rb_read r.1 (of_bytes r.0) >>= of_string)
      (rb_read-append (to_bytes n (length s)) (s ++ rest) n (length-to_bytes n (length s)))
    ∙ ap (λ o. o >>= of_string)
        (rb_read-append s rest (of_bytes (to_bytes n (length s)))
          (sym (of_bytes-to_bytes n (length s) h)))

-- The same with the test that the length is an int.
long_string :
    (s rest : List ℕ)
    → length s < 2 ^ 31
    → (rb_read (to_bytes 4 (length s) ++ (s ++ rest)) 4 >>= λ r.
        (if ltb (of_bytes r.0) (2 ^ 31) then rb_read r.1 (of_bytes r.0) else none) >>= of_string)
      ≡ some (string s, rest)
long_string s rest h =
    let n = of_bytes-to_bytes 4 (length s) (omega (arith, h)) in
    ap
      (λ o. o >>= λ r.
        (if ltb (of_bytes r.0) (2 ^ 31) then rb_read r.1 (of_bytes r.0) else none) >>= of_string)
      (rb_read-append (to_bytes 4 (length s)) (s ++ rest) 4 (length-to_bytes 4 (length s)))
    ∙ ap (λ o. o >>= of_string)
        (if_true {b = ltb (of_bytes (to_bytes 4 (length s))) (2 ^ 31)} _ _ (ground (arith, n, h))
          ∙ rb_read-append s rest (of_bytes (to_bytes 4 (length s))) (sym n))

short_piece : (s : List ℕ) → concat (if ltb 0 (length s) then s ∷ [] else []) ≡ s
short_piece [] = refl
short_piece (b ∷ s) = if_pieces (ground arith) ∙ append-nil (b ∷ s)
  where
    if_pieces :
        ltb 0 (length (b ∷ s)) ≡ true
        → concat (if ltb 0 (length (b ∷ s)) then (b ∷ s) ∷ [] else []) ≡ concat ((b ∷ s) ∷ [])
    if_pieces e = ap concat (if_true _ _ e)

pub wb_string-Reads : (s : List ℕ) → length s < 2 ^ 31 → Reads (string s) (wb_string s)
unfolding wb_string push_scalar
wb_string-Reads s h = elim (Bool-cases (ltb (length s) 32)) [
  | inl short ↦ subst (Reads (string s)) (sym (if_true _ _ short)) (λ rest.
      tagged 4 (length s) (concat (if ltb 0 (length s) then s ∷ [] else []) ++ rest) (omega arith)
      ∙ ap (λ b. rb_read (b ++ rest) (length s) >>= of_string) (short_piece s)
      ∙ ap (λ o. o >>= of_string) (rb_read-append s rest (length s) refl))
  | inr long ↦
      subst (Reads (string s)) (sym (if_false _ _ long)) (elim (Bool-cases (ltb (length s) 65536)) [
        | inl two ↦ subst (Reads (string s)) (sym (if_true _ _ two)) (λ rest.
            tagged 5 2 (to_bytes 2 (length s) ++ ((s ++ []) ++ rest)) (omega arith)
            ∙ ap
                (λ t. rb_read (to_bytes 2 (length s) ++ (t ++ rest)) 2 >>= λ r.
                  rb_read r.1 (of_bytes r.0) >>= of_string)
                (append-nil s)
            ∙ sized_string 2 s rest (ground (arith, two)))
        | inr four ↦ subst (Reads (string s)) (sym (if_false _ _ four)) (λ rest.
            tagged 5 4 (to_bytes 4 (length s) ++ ((s ++ []) ++ rest)) (omega arith)
            ∙ ap
                (λ t. rb_read (to_bytes 4 (length s) ++ (t ++ rest)) 4 >>= λ r.
                  (if ltb (of_bytes r.0) (2 ^ 31) then rb_read r.1 (of_bytes r.0) else none)
                  >>= of_string)
                (append-nil s)
            ∙ long_string s rest h)
      ])
]
