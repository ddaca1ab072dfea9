-- ===== src/Skynet/Handle/Register.antt =====
-- `skynet_handle_register` gives a fresh handle, after one growth at most.
use game_server_development.Prelude.{
  ℕ, suc, ◌+◌, ◌*◌, ◌%◌, ◌^◌, ◌≤◌, ◌<◌, ◌≡◌, ◌≢◌, sym, ap, ◌∙◌, bit_or, ◌==◌, if◌then◌else◌, none,
  some, length, get_or, arith, ◌⊎◌, inl, inr, Option-cases, length-set, ==_refl, ℕ_discrete,
}
use game_server_development.Prelude.Bits.{bit_or_fields}
use game_server_development.Skynet.Handle.{
  Storage, handle_mask, hash, find, grow, scan, place, register,
}
use game_server_development.Skynet.Handle.Slots.{
  IsValid, Absent, assign, hash-lt, find-place, hash-remote,
}
use game_server_development.Skynet.Handle.Grow.{Grown, grow-Grown, get_or-set_cases, hash-half}
use native.Mathlib.Nat.{mod-lt, add-mod_right}
use game_server_development.Skynet.Handle.Scan.{wrap, scan_sound, scan_cover}

-- A scan over all slots finds a handle, if some slot but the first is free.
scan_total :
    {handle_of : ℕ → ℕ} {s : Storage}
    → IsValid handle_of s
    → (j : ℕ) → 0 < j
    → j < s.slot_size
    → get_or s.slot j none ≡ none
    → (r : ℕ) × (scan s.slot s.slot_size s.slot_size s.handle_index ≡ some r)
scan_total {s} v j pos lt free =
    scan_cover s.slot v.level s.slot_size j s.slot_size s.handle_index v.size v.short pos lt free
      (ground (arith, mod-lt (wrap s.handle_index) {m = s.slot_size} (omega arith)))

-- Two handles of a grown table that share an old slot would be two contexts in it.
room_after_growth :
    {handle_of : ℕ → ℕ} {s s' : Storage}
    → IsValid handle_of s
    → 2 ≤ s.slot_size
    → Grown handle_of s s'
    → (j : ℕ) × (0 < j) × (j < s'.slot_size) × (get_or s'.slot j none ≡ none)
room_after_growth {handle_of} {s} {s'} v two g = elim (Option-cases (get_or s'.slot 1 none)) [
  | inl free ↦ (1, omega arith, omega (arith, g.doubled), free)
  | inr (c, e) ↦ elim (Option-cases (get_or s'.slot (1 + s.slot_size) none)) [
    | inl free ↦ (1 + s.slot_size, omega arith, omega (arith, g.doubled), free)
    | inr (d, q) ↦ absurd (
        let c_slot = (v'.placed 1 c e).0 in
        let d_slot = (v'.placed (1 + s.slot_size) d q).0 in
        let low : hash (handle_of c) s.slot_size ≡ hash (handle_of d) s.slot_size =
          half c 1 c_slot ∙ sym (half d (1 + s.slot_size) d_slot ∙ add-mod_right 1 s.slot_size) in
        let both : some c ≡ some d =
          sym (g.from 1 c e) ∙ ap (λ k. get_or s.slot k none) low ∙ g.from (1 + s.slot_size) d q in
        let same : c ≡ d = cc both in
        omega (arith, c_slot, d_slot, ap (λ x. hash (handle_of x) s'.slot_size) same))
  ]
]
  where
    v' : IsValid handle_of s'
    v' = g.valid

    half :
        (x k : ℕ)
        → hash (handle_of x) s'.slot_size ≡ k
        → hash (handle_of x) s.slot_size ≡ k % s.slot_size
    half x k h =
        hash-half v.level s.slot_size v.size (handle_of x)
        ∙ ap (λ t. t % s.slot_size) (ap (hash (handle_of x)) (sym g.doubled) ∙ h)

-- What registering a context in a valid table gives: a fresh handle of the node, under which, once
-- the caller has stored it in the context, the table finds that context; every other handle is
-- found as before, and the table is valid again.
pub record Registered (handle_of : ℕ → ℕ) (s : Storage) (c : ℕ) (s' : Storage) (handle : ℕ)
    : Type 0 where
  pub fresh : find handle_of s handle ≡ none
  pub nonzero : handle ≢ 0
  pub found :
      (x : ℕ)
      → find (assign handle_of c handle) s' x ≡ (if handle == x then some c else find handle_of s x)
  pub valid : IsValid (assign handle_of c handle) s'

assign_other : (handle_of : ℕ → ℕ) (c full d : ℕ) → d ≢ c → assign handle_of c full d ≡ handle_of d
assign_other handle_of c full d n = ground arith

place-Registered :
    {handle_of : ℕ → ℕ} {s : Storage} (c r : ℕ)
    → IsValid handle_of s
    → Absent c s.slot
    → 0 < r
    → r ≤ handle_mask
    → get_or s.slot (hash r s.slot_size) none ≡ none
    → Registered handle_of s c (place s r c) (bit_or r s.harbor)
unfolding place
place-Registered {handle_of} {s} c r v absent pos low free = record {
  fresh = unfold find in rw (same, free);
  nonzero = positive;
  found = λ x. find-place v r c x low absent free;
  valid = record {
    level = v.level;
    short = v.short;
    size = v.size;
    room = length-set s.slot (hash r s.slot_size) (some c) ∙ v.room;
    index = omega arith;
    started = omega arith;
    node = v.node;
    remote = v.remote;
    placed = λ i d e. placed i d (get_or-set_cases s.slot (hash r s.slot_size) i c d in_range e);
  };
}
  where
    full : ℕ
    full = bit_or r s.harbor

    sum : full ≡ v.node * 2 ^ 24 + r
    sum = ap (bit_or r) v.remote ∙ bit_or_fields 24 v.node r (omega arith)

    positive : full ≢ 0
    positive = omega (arith, sum)

    same : hash full s.slot_size ≡ hash r s.slot_size
    same =
        ap (λ h. hash (bit_or r h) s.slot_size) v.remote
        ∙ hash-remote v.level r s.slot_size v.node v.size v.short (omega arith)

    in_range : hash r s.slot_size < length s.slot
    in_range = rw v.room (hash-lt v.level r s.slot_size v.size)

    placed :
        (i d : ℕ)
        → ((hash r s.slot_size ≡ i) × (c ≡ d)) ⊎ (get_or s.slot i none ≡ some d)
        → (hash (assign handle_of c full d) s.slot_size ≡ i) × (assign handle_of c full d ≢ 0)
    placed i d (inl (p, q)) = rw (← q, ==_refl c) (same ∙ p, positive)
    placed i d (inr old) = elim (ℕ_discrete d c) [
      | yes e ↦ absurd (absent i (old ∙ ap some e))
      | no n ↦ rw (assign_other handle_of c full d n) (v.placed i d old)
    ]

register_now :
    (fuel : ℕ) (handle_of : ℕ → ℕ) (s : Storage) (c r : ℕ)
    → scan s.slot s.slot_size s.slot_size s.handle_index ≡ some r
    → register (suc fuel) handle_of s c ≡ some (place s r c, bit_or r s.harbor)
unfolding register
register_now fuel handle_of s c r e = rw (e, register)

register_grown :
    (fuel : ℕ) (handle_of : ℕ → ℕ) (s s' : Storage) (c : ℕ)
    → scan s.slot s.slot_size s.slot_size s.handle_index ≡ none
    → grow handle_of s ≡ some s'
    → register (suc fuel) handle_of s c ≡ register fuel handle_of s' c
unfolding register
register_grown fuel handle_of s s' c e g = rw (e, register, g)

-- Where the scan succeeds, at any fuel.
scanned :
    {handle_of : ℕ → ℕ} {s : Storage} (fuel c r : ℕ)
    → IsValid handle_of s
    → Absent c s.slot
    → scan s.slot s.slot_size s.slot_size s.handle_index ≡ some r
    → (register (suc fuel) handle_of s c ≡ some (place s r c, bit_or r s.harbor))
      × Registered handle_of s c (place s r c) (bit_or r s.harbor)
scanned {handle_of} {s} fuel c r v absent e =
    let (pos, low, free) = scan_sound s.slot s.slot_size s.slot_size s.handle_index r v.started e in
    (register_now fuel handle_of s c r e, place-Registered c r v absent pos low free)

before_growth :
    {handle_of : ℕ → ℕ} {s s' s'' : Storage} {c handle : ℕ}
    → Grown handle_of s s'
    → Registered handle_of s' c s'' handle
    → Registered handle_of s c s'' handle
before_growth {handle_of} {c} {handle} g r = record {
  fresh = sym (g.same handle) ∙ r.fresh;
  nonzero = r.nonzero;
  found = λ x. r.found x ∙ ap (λ o. if handle == x then some c else o) (g.same x);
  valid = r.valid;
}

-- Registering a context that is not in a valid table of at least two slots needs one growth at most:
-- with 2^23 slots or fewer it gives a handle, as `Registered` says.
pub register-Registered :
    {handle_of : ℕ → ℕ} {s : Storage} (c : ℕ)
    → IsValid handle_of s
    → Absent c s.slot
    → 2 ≤ s.slot_size
    → s.slot_size * 2 ≤ handle_mask + 1
    → (s' : Storage) × (handle : ℕ) × (register 2 handle_of s c ≡ some (s', handle))
      × Registered handle_of s c s' handle
register-Registered {handle_of} {s} c v absent two few =
    elim (Option-cases (scan s.slot s.slot_size s.slot_size s.handle_index)) [
      | inr (r, e) ↦
          let (done, reg) = scanned 1 c r v absent e in (place s r c, bit_or r s.harbor, done, reg)
      | inl full ↦
          let (s', growing, g) = grow-Grown v few in
          let (j, pos, lt, free) = room_after_growth v two g in
          let (r, e) = scan_total g.valid j pos lt free in
          let (done, reg) = scanned 0 c r g.valid (g.absent c absent) e in
          (
            place s' r c,
            bit_or r s'.harbor,
            register_grown 1 handle_of s s' c full growing ∙ done,
            before_growth g reg,
          )
    ]
