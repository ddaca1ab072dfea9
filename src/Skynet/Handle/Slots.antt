-- ===== src/Skynet/Handle/Slots.antt =====
-- The slots as a finite map from handles to contexts.
use game_server_development.Prelude.{
  ℕ, ◌+◌, ◌-◌, ◌*◌, ◌%◌, ◌^◌, ◌≤◌, ◌<◌, ◌≡◌, ◌≢◌, refl, sym, ap, ◌∙◌, bit_or, List, ◌==◌,
  if◌then◌else◌, Option, none, some, length, get_or, set, arith, ◌⊎◌, inl, inr, Option-cases,
  get_or-set_self, get_or-set_ne, ==_refl, ℕ_discrete,
}
use game_server_development.Prelude.Bits.{bit_and_mask, bit_or_fields, mod-mod-pow}
use game_server_development.Skynet.Handle.{
  Storage, HandleName, handle_mask, hash, find, owner, retire, drop_names, place,
}
use native.Mathlib.Nat.{mod-lt, one-le-pow}

-- The invariant of the slots: a power of two of them, and each context in the slot of its handle,
-- which is not 0.
pub record IsValid (handle_of : ℕ → ℕ) (s : Storage) : Type 0 where
  pub level : ℕ
  pub short : level ≤ 24
  pub size : s.slot_size ≡ 2 ^ level
  pub room : length s.slot ≡ s.slot_size
  pub index : s.handle_index ≤ handle_mask + 1
  pub started : 0 < s.handle_index
  pub node : ℕ
  pub remote : s.harbor ≡ node * 2 ^ 24
  pub placed :
      (i c : ℕ)
      → get_or s.slot i none ≡ some c
      → (hash (handle_of c) s.slot_size ≡ i) × (handle_of c ≢ 0)

-- A handle's slot is in range, and does not depend on the node's number in its high byte.
pub hash-lt : (level handle size : ℕ) → size ≡ 2 ^ level → hash handle size < size
hash-lt level handle size e =
    rw (e, bit_and_mask level handle) (mod-lt handle (one-le-pow level 2 (omega arith)))

pub hash-remote :
    (level handle size node : ℕ)
    → size ≡ 2 ^ level
    → level ≤ 24
    → handle < 2 ^ 24
    → hash (bit_or handle (node * 2 ^ 24)) size ≡ hash handle size
hash-remote level handle size node e short h =
    let split : 24 ≡ 24 - level + level = omega arith in
    rw
      (
        e,
        bit_and_mask level (bit_or handle (node * 2 ^ 24)),
        bit_and_mask level handle,
        bit_or_fields 24 node handle h,
      )
      (ap (λ k. (node * 2 ^ k + handle) % 2 ^ level) split
        ∙ mod-mod-pow (24 - level) level node handle)

-- Two options of contexts, of which one is known to be missing from the table.
abbrev pub Absent : ℕ → List (Option ℕ) → Type 0
Absent c slot = (i : ℕ) → get_or slot i none ≢ some c

-- `handle_of` after `ctx->handle = handle` in the caller of `skynet_handle_register`.
abbrev pub assign : (ℕ → ℕ) → ℕ → ℕ → ℕ → ℕ
assign handle_of c handle d = if d == c then handle else handle_of d

pub get_or-set :
    (xs : List (Option ℕ)) (i j : ℕ) (v : Option ℕ)
    → i < length xs
    → get_or (set xs i v) j none ≡ (if i == j then v else get_or xs j none)
get_or-set xs i j v h = elim (ℕ_discrete i j) [
  | yes e ↦ rw (← e, ==_refl i) (get_or-set_self xs i v none h)
  | no n ↦ ground (arith, get_or-set_ne xs i j v none n)
]

-- What a slot says of a handle once the context `c` has its new handle `full`.
owner-assign :
    (handle_of : ℕ → ℕ) (c full x : ℕ) (o : Option ℕ)
    → o ≢ some c
    → owner (assign handle_of c full) x o ≡ owner handle_of x o
owner-assign handle_of c full x none ne = refl
owner-assign handle_of c full x (some d) ne = elim (ℕ_discrete d c) [
  | yes e ↦ absurd (ne (ap some e))
  | no n ↦ ground arith
]

-- Placing a context that is not in the table in a free slot adds one handle to the map, and
-- leaves every other handle with the context that it had.
pub find-place :
    {handle_of : ℕ → ℕ} {s : Storage}
    → IsValid handle_of s
    → (h c x : ℕ) → h ≤ handle_mask
    → Absent c s.slot
    → get_or s.slot (hash h s.slot_size) none ≡ none
    → find (assign handle_of c (bit_or h s.harbor)) (place s h c) x
      ≡ (if bit_or h s.harbor == x then some c else find handle_of s x)
unfolding find place
find-place {handle_of} {s} v h c x low absent free =
    rw
      (get_or-set s.slot (hash h size) (hash x size) (some c)
        (rw v.room (hash-lt v.level h size v.size)))
      (elim (ℕ_discrete (hash h size) (hash x size)) [
        | yes e ↦ ground (arith, ap (λ i. get_or s.slot i none) e)
        | no n ↦ ground (
          arith,
          owner-assign handle_of c full x (get_or s.slot (hash x size) none) (absent (hash x size)),
          λ (e : full ≡ x). n (sym same ∙ ap (λ y. hash y size) e),
        )
      ])
  where
    size : ℕ
    size = s.slot_size

    full : ℕ
    full = bit_or h s.harbor

    same : hash full size ≡ hash h size
    same =
        ap (λ r. hash (bit_or h r) size) v.remote
        ∙ hash-remote v.level h size v.node v.size v.short (omega arith)

pub find_cases :
    (handle_of : ℕ → ℕ) (s : Storage) (h : ℕ)
    → (find handle_of s h ≡ none)
      ⊎ ((c : ℕ) × (get_or s.slot (hash h s.slot_size) none ≡ some c) × (handle_of c ≡ h))
unfolding find
find_cases handle_of s h = elim (Option-cases (get_or s.slot (hash h s.slot_size) none)) [
  | inl e ↦ inl (rw e)
  | inr (c, e) ↦ elim (ℕ_discrete (handle_of c) h) [
    | yes q ↦ inr (c, e, q)
    | no n ↦ inl (rw e (ground arith))
  ]
]

-- The two branches of `skynet_handle_retire`.
pub retire_missing :
    (handle_of : ℕ → ℕ) (s : Storage) (h : ℕ)
    → find handle_of s h ≡ none
    → retire handle_of s h ≡ (s, none)
unfolding retire
retire_missing handle_of s h e = rw (e, retire)

pub retire_found :
    (handle_of : ℕ → ℕ) (s : Storage) (h c : ℕ)
    → find handle_of s h ≡ some c
    → retire handle_of s h ≡ (
      record s { slot = set s.slot (hash h s.slot_size) none; names = drop_names h s.names },
      some c,
    )
unfolding retire
retire_found handle_of s h c e = rw (e, retire)

pub find_self :
    (handle_of : ℕ → ℕ) (s : Storage) (h c : ℕ)
    → get_or s.slot (hash h s.slot_size) none ≡ some c
    → handle_of c ≡ h
    → find handle_of s h ≡ some c
unfolding find
find_self handle_of s h c e q = rw e (ground arith)

find-clear :
    {handle_of : ℕ → ℕ} {s : Storage}
    → IsValid handle_of s
    → (h c x : ℕ) (ns : List HandleName) → get_or s.slot (hash h s.slot_size) none ≡ some c
    → handle_of c ≡ h
    → find handle_of (record s { slot = set s.slot (hash h s.slot_size) none; names = ns }) x
      ≡ (if h == x then none else find handle_of s x)
unfolding find
find-clear {handle_of} {s} v h c x ns e q =
    rw
      (get_or-set s.slot (hash h s.slot_size) (hash x s.slot_size) none
        (rw v.room (hash-lt v.level h s.slot_size v.size)))
      (elim (ℕ_discrete (hash h s.slot_size) (hash x s.slot_size)) [
        | yes same ↦ rw (← same, e) (ground arith)
        | no n ↦ ground (arith, λ (p : h ≡ x). n (ap (λ y. hash y s.slot_size) p))
      ])

-- Retiring a handle of a valid table removes it from the map and no other, and hands back the context
-- that it had.
pub find-retire :
    {handle_of : ℕ → ℕ} {s : Storage}
    → IsValid handle_of s
    → (h x : ℕ)
    → (find handle_of (retire handle_of s h).0 x ≡ (if h == x then none else find handle_of s x))
      × ((retire handle_of s h).1 ≡ find handle_of s h)
find-retire {handle_of} {s} v h x = elim (find_cases handle_of s h) [
  | inl missing ↦ rw (retire_missing handle_of s h missing) (elim (ℕ_discrete h x) [
    | yes e ↦ (ground (arith, ap (find handle_of s) e), sym missing)
    | no n ↦ (ground arith, sym missing)
  ])
  | inr (c, e, q) ↦
      let found = find_self handle_of s h c e q in
      rw (retire_found handle_of s h c found)
        (find-clear v h c x (drop_names h s.names) e q, sym found)
]
