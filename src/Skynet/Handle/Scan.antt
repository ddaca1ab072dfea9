-- ===== src/Skynet/Handle/Scan.antt =====
-- The scan for a free slot in `skynet_handle_register`.
use game_server_development.Prelude.{
  ℕ, zero, suc, ◌+◌, ◌-◌, ◌*◌, ◌%◌, ◌^◌, ◌≤◌, ◌<◌, ◌≡◌, ◌≢◌, sym, ap, ◌∙◌, List, ltb, ◌==◌,
  if◌then◌else◌, Option, none, some, get_or, arith, inl, inr, Option-cases, ℕ_discrete,
}
use game_server_development.Prelude.Bits.{bit_and_mask, mul-add-mod, pow-add}
use game_server_development.Skynet.Handle.{handle_mask, hash, scan}
use native.Mathlib.Nat.{suc-mod, mod-lt, one-le-pow, mod-eq_of_lt, mod_self}

-- What the scan tries in the place of `handle`: 0 is reserved.
abbrev pub wrap : ℕ → ℕ
wrap handle = if ltb handle_mask handle then 1 else handle

scan-free :
    (slots : List (Option ℕ)) (size n handle : ℕ)
    → get_or slots (hash (wrap handle) size) none ≡ none
    → scan slots size (suc n) handle ≡ some (wrap handle)
unfolding scan
scan-free slots size n handle e = rw (e, scan)

scan-taken :
    (slots : List (Option ℕ)) (size n handle c : ℕ)
    → get_or slots (hash (wrap handle) size) none ≡ some c
    → scan slots size (suc n) handle ≡ scan slots size n (wrap handle + 1)
unfolding scan
scan-taken slots size n handle c e = rw (e, scan)

-- The handle that the scan finds is in range, is not 0, and its slot is free.
pub scan_sound :
    (slots : List (Option ℕ)) (size n handle r : ℕ)
    → 0 < handle
    → scan slots size n handle ≡ some r
    → (0 < r) × (r ≤ handle_mask) × (get_or slots (hash r size) none ≡ none)
scan_sound slots size zero handle r pos e = unfold scan in cc
scan_sound slots size (suc n) handle r pos e =
    elim (Option-cases (get_or slots (hash (wrap handle) size) none)) [
      | inl free ↦
          let found : wrap handle ≡ r = cc (scan-free slots size n handle free) in
          (
            ground (arith, found),
            ground (arith, found),
            ap (λ x. get_or slots (hash x size) none) (sym found) ∙ free,
          )
      | inr (c, taken) ↦
          scan_sound slots size n (wrap handle + 1) r (omega arith)
            (sym (scan-taken slots size n handle c taken) ∙ e)
    ]

all_but_one : (a b : ℕ) → 1 ≤ a → 1 ≤ b → suc ((a - 1) * b + (b - 1)) ≡ a * b
all_but_one zero b p q = absurd (omega arith)
all_but_one (suc a) b p q = let e : suc a - 1 ≡ a = omega arith in rw e (omega arith)

-- The last handle before the wrap stands in the last slot.
mask-mod : (level size : ℕ) → size ≡ 2 ^ level → level ≤ 24 → handle_mask % size ≡ size - 1
mask-mod level size e short = rw e (
    ap (λ t. t % 2 ^ level) whole
    ∙ mul-add-mod (2 ^ (24 - level) - 1) (2 ^ level) (2 ^ level - 1)
    ∙ mod-eq_of_lt (omega (arith, one-le-pow level 2)))
  where
    split : 24 ≡ 24 - level + level
    split = omega arith

    product : 2 ^ 24 ≡ 2 ^ (24 - level) * 2 ^ level
    product = ap (λ k. 2 ^ k) split ∙ pow-add (24 - level) level

    whole : handle_mask ≡ (2 ^ (24 - level) - 1) * 2 ^ level + (2 ^ level - 1)
    whole = omega (
      arith,
      product,
      all_but_one (2 ^ (24 - level)) (2 ^ level) (one-le-pow (24 - level) 2 (omega arith))
          (one-le-pow level 2 (omega arith)),
    )

-- How many rounds from `r`, the slot of the handle tried, the scan needs to reach slot `j`.
abbrev ahead : ℕ → ℕ → ℕ → ℕ
ahead size j r = if ltb j r then size - r + j else j - r

next-mod :
    (h size : ℕ)
    → 0 < size
    → (h + 1) % size ≡ (if suc (h % size) == size then 0 else suc (h % size))
next-mod h size pos =
    ap (λ t. t % size) up ∙ suc-mod h size ∙ (elim (ℕ_discrete (suc (h % size)) size) [
      | yes e ↦ ground (arith, ap (λ t. t % size) e, mod_self size)
      | no n ↦ ground (arith, mod-lt h {m = size} pos, mod-eq_of_lt {n = suc (h % size)} {m = size})
    ])
  where
    up : h + 1 ≡ suc h
    up = omega arith

ahead-next :
    (level size j h : ℕ)
    → size ≡ 2 ^ level
    → level ≤ 24
    → 0 < j
    → j < size
    → h ≤ handle_mask
    → h % size ≢ j
    → ahead size j (wrap (h + 1) % size) < ahead size j (h % size)
ahead-next level size j h e short pos lt low ne = elim (ℕ_discrete h handle_mask) [
  | yes last ↦ ground (
    arith,
    ap (λ t. t % size) last,
    mask-mod level size e short,
    mod-eq_of_lt {n = 1} {m = size} (omega arith),
  )
  | no n ↦ ground (arith, next-mod h size (omega arith), mod-lt h {m = size} (omega arith))
]

-- Within as many rounds as it is ahead, the scan finds a free slot, if slot `j` is one.
pub scan_cover :
    (slots : List (Option ℕ)) (level size j n handle : ℕ)
    → size ≡ 2 ^ level
    → level ≤ 24
    → 0 < j
    → j < size
    → get_or slots j none ≡ none
    → ahead size j (wrap handle % size) < n
    → (r : ℕ) × (scan slots size n handle ≡ some r)
scan_cover slots level size j zero handle e short pos lt free h = absurd (omega arith)
scan_cover slots level size j (suc n) handle e short pos lt free h =
    elim (Option-cases (get_or slots (hash (wrap handle) size) none)) [
      | inl found ↦ (wrap handle, scan-free slots size n handle found)
      | inr (c, taken) ↦
          let (r, later) =
            scan_cover slots level size j n (wrap handle + 1) e short pos lt free
              (closer c taken) in
          (r, scan-taken slots size n handle c taken ∙ later)
    ]
  where
    closer :
        (c : ℕ)
        → get_or slots (hash (wrap handle) size) none ≡ some c
        → ahead size j (wrap (wrap handle + 1) % size) < n
    closer c taken =
        omega (arith, h, ahead-next level size j (wrap handle) e short pos lt (ground arith) other)
      where
        at : hash (wrap handle) size ≡ wrap handle % size
        at = rw e (bit_and_mask level (wrap handle))

        other : wrap handle % size ≢ j
        other q = cc (ap (λ k. get_or slots k none) (at ∙ q))
