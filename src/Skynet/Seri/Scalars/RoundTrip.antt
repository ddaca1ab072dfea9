-- ===== src/Skynet/Seri/Scalars/RoundTrip.antt =====
-- Every value that is not a table reads back from its pieces.
use game_server_development.Prelude.{
  ℕ, ◌^◌, ◌<◌, ◌≡◌, refl, sym, ap, ◌∙◌, List, [], ◌∷◌, ◌++◌, append-nil, append_assoc, true, false,
  Option, some, ◌>>=◌, arith, length,
}
use game_server_development.Skynet.Seri.Blocks.{concat}
use game_server_development.Skynet.Seri.Scalars.{
  Scalar, nil, boolean, integer, real, pointer, string, wb_scalar, rb_read, push_scalar,
  unpack_scalar,
}
use game_server_development.Skynet.Seri.Scalars.Bytes.{rb_read-append, Reads}
use game_server_development.Skynet.Seri.Scalars.Numbers.{wb_integer-Reads}
use game_server_development.Skynet.Seri.Scalars.Strings.{wb_string-Reads}

abbrev of_real : List ℕ × List ℕ → Option (Scalar × List ℕ)
of_real r = some (real r.0, r.1)

abbrev of_pointer : List ℕ × List ℕ → Option (Scalar × List ℕ)
of_pointer r = some (pointer r.0, r.1)

-- What Lua and C can hold.
abbrev pub IsScalar : Scalar → Type 0
IsScalar nil = Unit
IsScalar (boolean b) = Unit
IsScalar (integer v) = v < 2 ^ 64
IsScalar (real bytes) = length bytes ≡ 8
IsScalar (pointer bytes) = length bytes ≡ 8
IsScalar (string s) = length s < 2 ^ 31

-- Every value reads back from its pieces, whatever stands behind them.
pub wb_scalar-Reads : (v : Scalar) → IsScalar v → Reads v (wb_scalar v)
unfolding wb_scalar push_scalar unpack_scalar
wb_scalar-Reads nil h rest = refl
wb_scalar-Reads (boolean true) h rest = refl
wb_scalar-Reads (boolean false) h rest = refl
wb_scalar-Reads (integer v) h rest = wb_integer-Reads v h rest
wb_scalar-Reads (real bytes) h rest =
    ap (λ b. rb_read (b ++ rest) 8 >>= of_real) (append-nil bytes)
    ∙ ap (λ o. o >>= of_real) (rb_read-append bytes rest 8 h)
wb_scalar-Reads (pointer bytes) h rest =
    ap (λ b. rb_read (b ++ rest) 8 >>= of_pointer) (append-nil bytes)
    ∙ ap (λ o. o >>= of_pointer) (rb_read-append bytes rest 8 h)
wb_scalar-Reads (string s) h rest = wb_string-Reads s h rest

pub concat-pieces : (xss yss : List (List ℕ)) → concat (xss ++ yss) ≡ concat xss ++ concat yss
concat-pieces [] yss = refl
concat-pieces (xs ∷ xss) yss =
    ap (λ t. xs ++ t) (concat-pieces xss yss) ∙ sym (append_assoc xs (concat xss) (concat yss))

pub no_value : (v : Scalar) (rest : List ℕ) → unpack_scalar [] ≡ some (v, rest) → ⊥
unfolding unpack_scalar
no_value v rest e = cc e

-- A value takes bytes away.
pub some_bytes :
    (v : Scalar) (xs : List ℕ) → unpack_scalar (xs ++ []) ≡ some (v, []) → 0 < length xs
some_bytes v [] e = absurd (no_value v [] e)
some_bytes v (x ∷ xs) e = omega arith
