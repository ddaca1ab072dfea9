-- ===== src/Skynet/Send/Hex.antt =====
-- `id_to_hex` against the value of a numeral in base 16.
use game_server_development.Prelude.{
  ℕ, zero, suc, ◌+◌, ◌-◌, ◌*◌, ◌/◌, ◌%◌, ◌^◌, ◌<◌, ◌≡◌, refl, sym, ap, ◌∙◌, List, [], ◌∷◌, arith,
  bit_and, length, ltb, if◌then◌else◌,
}
use native.Mathlib.Nat.{div-div-eq-div-mul}
use game_server_development.Prelude.Bits.{bit_and_mask, pow-add}
use game_server_development.Skynet.Send.{hex_digit, hex_digits, id_to_hex}

-- The digit that a character from 0 to 9 or from A to F stands for.
abbrev pub digit_value : ℕ → ℕ
digit_value c = if ltb c 58 then c - 48 else c - 55

-- The value of the digits `cs` after those of value `n`.
abbrev pub hex_value : ℕ → List ℕ → ℕ
hex_value n [] = n
hex_value n (c ∷ cs) = hex_value (n * 16 + digit_value c) cs

pub value-hex_digit : (d : ℕ) → d < 16 → digit_value (hex_digit d) ≡ d
unfolding hex_digit
value-hex_digit d h = ground arith

-- A shift by one digit more.
div-digit : (id n : ℕ) → id / 2 ^ (suc n * 4) ≡ id / 2 ^ (n * 4) / 16
div-digit id n =
    let e : suc n * 4 ≡ n * 4 + 4 = omega arith in
    ap (λ t. id / 2 ^ t) e
    ∙ ap (λ t. id / t) (pow-add (n * 4) 4)
    ∙ sym (div-div-eq-div-mul id (2 ^ (n * 4)) 16)

hex_value-digits : (n id : ℕ) → hex_value (id / 2 ^ (n * 4)) (hex_digits n id) ≡ id / 1
unfolding hex_digits
hex_value-digits zero id = refl
hex_value-digits (suc n) id =
    let q : ℕ = id / 2 ^ (n * 4) in
    let low : bit_and q 0xf ≡ q % 16 = bit_and_mask 4 q in
    let digit : digit_value (hex_digit (bit_and q 0xf)) ≡ q % 16 =
      value-hex_digit (bit_and q 0xf) (omega (arith, low)) ∙ low in
    ap (λ v. hex_value v (hex_digits n id)) (omega (arith, digit, div-digit id n))
    ∙ hex_value-digits n id

-- Of a handle of 32 bits, `id_to_hex` writes a colon and eight characters, which read as a numeral in
-- base 16 are the handle.
pub id_to_hex_lem :
    (id : ℕ)
    → id < 2 ^ 32
    → (cs : List ℕ) × (id_to_hex id ≡ 58 ∷ cs) × (length cs ≡ 8) × (hex_value 0 cs ≡ id)
unfolding id_to_hex
id_to_hex_lem id h =
    let top : 0 ≡ id / 2 ^ (8 * 4) = omega arith in
    (
      hex_digits 8 id,
      refl,
      (unfold hex_digits in refl),
      ap (λ v. hex_value v (hex_digits 8 id)) top ∙ hex_value-digits 8 id ∙ omega arith,
    )
