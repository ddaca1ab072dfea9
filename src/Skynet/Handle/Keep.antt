-- ===== src/Skynet/Handle/Keep.antt =====
-- The table is valid at the start, and `skynet_handle_retire` and `skynet_handle_grab` keep it so.
use game_server_development.Prelude.{
  ℕ, zero, suc, ◌+◌, ◌*◌, ◌%◌, ◌^◌, ◌<◌, ◌≡◌, refl, sym, ap, ◌∙◌, List, [], ◌∷◌, ◌==◌,
  if◌then◌else◌, Option, none, some, length, get_or, set, arith, inl, inr, length-set,
  get_or-set_self, get_or-set_ne, ℕ_discrete,
}
use game_server_development.Prelude.Bits.{bit_and_mask}
use game_server_development.Skynet.Handle.{Storage, Contexts, hash, find, init, retire, grab}
use game_server_development.Skynet.Handle.Slots.{
  IsValid, Absent, hash-lt, find_cases, find_self, retire_missing, retire_found,
}
use native.Mathlib.Nat.{mod-eq_of_lt}

no_slot : (i : ℕ) → get_or {A = Option ℕ} (none ∷ none ∷ none ∷ none ∷ []) i none ≡ none
no_slot zero = refl
no_slot (suc zero) = refl
no_slot (suc (suc zero)) = refl
no_slot (suc (suc (suc zero))) = refl
no_slot (suc (suc (suc (suc i)))) = refl

-- A new table is valid and holds no context.
pub init-IsValid :
    (handle_of : ℕ → ℕ) (harbor : ℕ)
    → IsValid handle_of (init harbor) × ((c : ℕ) → Absent c (init harbor).slot)
unfolding init
init-IsValid handle_of harbor = (
  record {
    level = 2;
    short = omega arith;
    size = refl;
    room = refl;
    index = omega arith;
    started = omega arith;
    node = harbor % 2 ^ 8;
    remote = ap (λ t. t * 2 ^ 24 % 2 ^ 32) (bit_and_mask 8 harbor) ∙ mod-eq_of_lt (omega arith);
    placed = λ i c e. absurd (none_there c i e);
  },
  none_there,
)
  where
    none_there :
        (c i : ℕ) → get_or {A = Option ℕ} (none ∷ none ∷ none ∷ none ∷ []) i none ≡ some c → ⊥
    none_there c i e = cc (no_slot i)

cleared :
    (slot : List (Option ℕ)) (k i c : ℕ)
    → k < length slot
    → get_or (set slot k none) i none ≡ some c
    → get_or slot i none ≡ some c
cleared slot k i c lt e = elim (ℕ_discrete k i) [
  | yes p ↦
      absurd
        (cc (e, ap (λ x. get_or (set slot k none) x none) p, get_or-set_self slot k none none lt))
  | no n ↦ sym (get_or-set_ne slot k i none none n) ∙ e
]

-- `skynet_handle_retire` keeps a valid table valid, and what it hands back is in no slot any more.
pub retire-IsValid :
    {handle_of : ℕ → ℕ} {s : Storage} (h : ℕ)
    → IsValid handle_of s
    → IsValid handle_of (retire handle_of s h).0
      × ((c : ℕ) → (retire handle_of s h).1 ≡ some c → Absent c (retire handle_of s h).0.slot)
retire-IsValid {handle_of} {s} h v = elim (find_cases handle_of s h) [
  | inl missing ↦ rw (retire_missing handle_of s h missing) (v, λ c e. cc)
  | inr (c, e, q) ↦ rw (retire_found handle_of s h c (find_self handle_of s h c e q)) (
    record {
      level = v.level;
      short = v.short;
      size = v.size;
      room = length-set s.slot (hash h s.slot_size) none ∙ v.room;
      index = v.index;
      started = v.started;
      node = v.node;
      remote = v.remote;
      placed = λ i d p. v.placed i d (cleared s.slot (hash h s.slot_size) i d in_range p);
    },
    λ d same i p. gone c d q same i p,
  )
]
  where
    in_range : hash h s.slot_size < length s.slot
    in_range = rw v.room (hash-lt v.level h s.slot_size v.size)

    gone :
        (c d : ℕ)
        → handle_of c ≡ h
        → some c ≡ some d
        → (i : ℕ) → get_or (set s.slot (hash h s.slot_size) none) i none ≡ some d
        → ⊥
    gone c d q same i p =
        let at : hash (handle_of d) s.slot_size ≡ i =
          (v.placed i d (cleared s.slot (hash h s.slot_size) i d in_range p)).0 in
        let eq : d ≡ c = cc in
        let here : hash h s.slot_size ≡ i =
          ap (λ x. hash x s.slot_size) (sym q ∙ ap handle_of (sym eq)) ∙ at in
        cc (
          p,
          ap (λ x. get_or (set s.slot (hash h s.slot_size) none) x none) here,
          get_or-set_self s.slot (hash h s.slot_size) none none in_range,
        )

-- `skynet_handle_grab` takes one reference to the context that holds the handle, and to no other;
-- without one it changes nothing.
pub grab_lem :
    (cs : Contexts) (s : Storage) (h d : ℕ)
    → ((grab cs s h).0 ≡ find cs.handle_of s h)
      × ((grab cs s h).1.handle_of ≡ cs.handle_of)
      × ((grab cs s h).1.ref_of d ≡ (elim (find cs.handle_of s h) [
        | none ↦ cs.ref_of d
        | some c ↦ if d == c then cs.ref_of d + 1 else cs.ref_of d
      ]))
unfolding grab
grab_lem cs s h d = ground arith
