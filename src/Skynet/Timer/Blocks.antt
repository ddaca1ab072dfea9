-- ===== src/Skynet/Timer/Blocks.antt =====
-- Where a node is, by division, and which nodes a tick of the clock moves.
use game_server_development.Prelude.{
  ℕ, ◌+◌, ◌*◌, ◌/◌, ◌%◌, ◌^◌, ◌<◌, ◌≡◌, ◌≢◌, ap, ap₂, ◌∙◌, bit_and, Bool, true, false, ◌==◌,
  if◌then◌else◌, arith, ◌⊎◌, inl, inr, ℕ_discrete,
}
use game_server_development.Prelude.Bits.{bit_and_mask, bit_or_mask}
use game_server_development.Skynet.Timer.{Place, near_at, level_at, same_block, find_level, place}

same_block_8 : (a b : ℕ) → same_block 8 a b ≡ (a / 256 == b / 256)
unfolding same_block
same_block_8 a b = ap₂ (λ x y. x == y) (bit_or_mask 8 a) (bit_or_mask 8 b) ∙ ground arith

same_block_14 : (a b : ℕ) → same_block 14 a b ≡ (a / 16384 == b / 16384)
unfolding same_block
same_block_14 a b = ap₂ (λ x y. x == y) (bit_or_mask 14 a) (bit_or_mask 14 b) ∙ ground arith

same_block_20 : (a b : ℕ) → same_block 20 a b ≡ (a / 1048576 == b / 1048576)
unfolding same_block
same_block_20 a b = ap₂ (λ x y. x == y) (bit_or_mask 20 a) (bit_or_mask 20 b) ∙ ground arith

same_block_26 : (a b : ℕ) → same_block 26 a b ≡ (a / 67108864 == b / 67108864)
unfolding same_block
same_block_26 a b = ap₂ (λ x y. x == y) (bit_or_mask 26 a) (bit_or_mask 26 b) ∙ ground arith

-- The list of a node, by the lowest block of the clock that it shares.
abbrev pub place_in : ℕ → ℕ → Place
place_in ct e =
    if e / 256 == ct / 256
    then near_at (e % 256)
    else if e / 16384 == ct / 16384
    then level_at 0 (e / 256 % 64)
    else if e / 1048576 == ct / 1048576
    then level_at 1 (e / 16384 % 64)
    else if e / 67108864 == ct / 67108864
    then level_at 2 (e / 1048576 % 64)
    else level_at 3 (e / 67108864 % 64)

pub place_lem : (ct e : ℕ) → place ct e ≡ place_in ct e
unfolding place find_level
place_lem ct e =
    rw (same_block_8 e ct, same_block_14 e ct, same_block_20 e ct, same_block_26 e ct)
      (picks (e / 256 == ct / 256) (e / 16384 == ct / 16384) (e / 1048576 == ct / 1048576)
        (e / 67108864 == ct / 67108864))
  where
    picks :
        (a b c d : Bool)
        → (let i : ℕ = if b then 0 else if c then 1 else if d then 2 else 3 in
            if a then near_at (bit_and e 255) else level_at i (bit_and (e / 2 ^ (8 + i * 6)) 63))
          ≡ (if a
              then near_at (e % 256)
              else if b
              then level_at 0 (e / 256 % 64)
              else if c
              then level_at 1 (e / 16384 % 64)
              else if d
              then level_at 2 (e / 1048576 % 64)
              else level_at 3 (e / 67108864 % 64))
    picks true b c d = ap near_at (bit_and_mask 8 e)
    picks false true c d = ap (level_at 0) (bit_and_mask 6 (e / 256))
    picks false false true d = ap (level_at 1) (bit_and_mask 6 (e / 16384))
    picks false false false true = ap (level_at 2) (bit_and_mask 6 (e / 1048576))
    picks false false false false = ap (level_at 3) (bit_and_mask 6 (e / 67108864))

-- A tick within a block of 256 moves nothing.
pub stay_near : (t e : ℕ) → t < e → (t + 1) % 256 ≢ 0 → place_in (t + 1) e ≡ place_in t e
stay_near t e lt h = ground arith

pub stay_0 :
    (t e : ℕ)
    → t < e
    → (t + 1) % 256 ≡ 0
    → (t + 1) / 256 % 64 ≢ 0
    → (place_in (t + 1) e ≡ place_in t e) ⊎ (place_in t e ≡ level_at 0 ((t + 1) / 256 % 64))
stay_0 t e lt h k = elim (ℕ_discrete (e / 256) ((t + 1) / 256)) [
  | yes p ↦ inr (ground (arith, p))
  | no n ↦ inl (ground (arith, n))
]

pub stay_1 :
    (t e : ℕ)
    → t < e
    → (t + 1) % 16384 ≡ 0
    → (t + 1) / 16384 % 64 ≢ 0
    → (place_in (t + 1) e ≡ place_in t e) ⊎ (place_in t e ≡ level_at 1 ((t + 1) / 16384 % 64))
stay_1 t e lt h k = elim (ℕ_discrete (e / 16384) ((t + 1) / 16384)) [
  | yes p ↦ inr (ground (arith, p))
  | no n ↦ inl (ground (arith, n))
]

pub stay_2 :
    (t e : ℕ)
    → t < e
    → (t + 1) % 1048576 ≡ 0
    → (t + 1) / 1048576 % 64 ≢ 0
    → (place_in (t + 1) e ≡ place_in t e) ⊎ (place_in t e ≡ level_at 2 ((t + 1) / 1048576 % 64))
stay_2 t e lt h k = elim (ℕ_discrete (e / 1048576) ((t + 1) / 1048576)) [
  | yes p ↦ inr (ground (arith, p))
  | no n ↦ inl (ground (arith, n))
]

pub stay_3 :
    (t e : ℕ)
    → t < e
    → (t + 1) % 67108864 ≡ 0
    → (place_in (t + 1) e ≡ place_in t e) ⊎ (place_in t e ≡ level_at 3 ((t + 1) / 67108864 % 64))
stay_3 t e lt h = elim (ℕ_discrete (e / 67108864) ((t + 1) / 67108864)) [
  | yes p ↦ inr (ground (arith, p))
  | no n ↦ inl (ground (arith, n))
]
