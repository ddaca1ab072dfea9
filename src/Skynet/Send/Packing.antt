-- ===== src/Skynet/Send/Packing.antt =====
-- The type and the size of a message in one word, and the harbor in a handle.
use game_server_development.Prelude.{
  ℕ, zero, suc, ◌+◌, ◌-◌, ◌*◌, ◌/◌, ◌%◌, ◌^◌, ◌<◌, ◌≡◌, ◌≢◌, ◌↔◌, ap, ap₂, ◌∙◌, arith, bit_and,
  bit_or, true,
}
use native.Mathlib.Nat.{div-div-eq-div-mul, pow-suc}
use game_server_development.Prelude.Bits.{bit_and_mask, bit_or_fields, bit_and-lowest, mul-pow-suc}
use game_server_development.Skynet.Send.{
  pack, unpack, isremote, harbor_init, message_type_mask, handle_mask,
}

pack_lem : (sz type : ℕ) → sz < 2 ^ 56 → pack sz type ≡ (type % 256) * 2 ^ 56 + sz
unfolding pack
pack_lem sz type h =
    let low : bit_and type 0xff ≡ type % 256 = bit_and_mask 8 type in
    let high : bit_and type 0xff * 2 ^ 56 % 2 ^ 64 ≡ (type % 256) * 2 ^ 56 = omega (arith, low) in
    ap (λ t. bit_or sz t) high ∙ bit_or_fields 56 (type % 256) sz h

-- Of a message whose size fits 56 bits, the receiver reads the size and the low 8 bits of the type.
pub unpack-pack : (sz type : ℕ) → sz < 2 ^ 56 → unpack (pack sz type) ≡ (type % 256, sz)
unfolding unpack
unpack-pack sz type h =
    let e = pack_lem sz type h in
    let high : pack sz type / 2 ^ 56 ≡ type % 256 = omega (arith, e) in
    let low : bit_and (pack sz type) message_type_mask ≡ sz =
      bit_and_mask 56 (pack sz type) ∙ omega (arith, e) in
    ap₂ (λ a b. (a, b)) high low

-- `a & (m << k)` sees the bits above the lowest `k`.
and_high : (k a m : ℕ) → bit_and a (m * 2 ^ k) ≡ bit_and (a / 2 ^ k) m * 2 ^ k
and_high zero a m =
    let x : m * 2 ^ 0 ≡ m = omega arith in
    let y : a / 2 ^ 0 ≡ a = omega arith in
    ap (λ t. bit_and a t) x ∙ omega (arith, ap (λ t. bit_and t m) y)
and_high (suc k) a m =
    let halves : m * 2 ^ suc k ≡ 2 * (m * 2 ^ k) = mul-pow-suc m k in
    let half : m * 2 ^ suc k / 2 ≡ m * 2 ^ k = omega (arith, halves) in
    let twice : 2 * 2 ^ k ≡ 2 ^ suc k = omega (arith, pow-suc 2 k) in
    let deeper : a / 2 / 2 ^ k ≡ a / 2 ^ suc k =
      div-div-eq-div-mul a 2 (2 ^ k) ∙ ap (λ t. a / t) twice in
    let even : m * 2 ^ suc k % 2 ≡ 0 = omega (arith, halves) in
    bit_and-lowest a (m * 2 ^ suc k)
    ∙ ground (
      arith,
      ap (bit_and (a / 2)) half,
      and_high k (a / 2) m,
      ap (λ t. bit_and t m * 2 ^ k) deeper,
      mul-pow-suc (bit_and (a / 2 ^ suc k) m) k,
      even,
    )

-- A handle of 32 bits is remote exactly if its top 8 bits are neither those of this harbor nor 0,
-- for a harbor below 256.
pub isremote_iff :
    (harbor handle : ℕ)
    → harbor < 256
    → handle < 2 ^ 32
    → (isremote (harbor_init harbor) handle ≡ true)
      ↔ ((handle / 2 ^ 24 ≢ harbor) × (handle / 2 ^ 24 ≢ 0))
unfolding isremote harbor_init
isremote_iff harbor handle h lt =
    let e : bit_and handle (2 ^ 32 - 1 - handle_mask) ≡ handle / 2 ^ 24 * 2 ^ 24 =
      and_high 24 handle 255 ∙ omega (arith, bit_and_mask 8 (handle / 2 ^ 24)) in
    (λ r. ground (arith, e, r), λ r. ground (arith, e, r))
