-- ===== src/Skynet/Handle/RetireAll.antt =====
-- `skynet_handle_retireall` empties the table in two passes.
use game_server_development.Prelude.{
  ℕ, zero, suc, ◌+◌, ◌<◌, ◌≤◌, ◌≡◌, ◌≢◌, refl, sym, ap, subst, ◌∙◌, List, [], ◌∷◌, false, ◌==◌,
  if◌then◌else◌, Option, none, some, length, get_or, set, arith, inl, inr, Option-cases,
  get_or-set_self, get_or-set_ne, ℕ_discrete, dec_lt,
}
use game_server_development.Skynet.Handle.{Storage, retire, retire_slots, retire_all, drop_names}
use game_server_development.Skynet.Handle.Slots.{IsValid, find_self, retire_found}
use game_server_development.Skynet.Handle.Keep.{retire-IsValid}

-- No context below slot `i`.
abbrev pub IsEmptyBelow : ℕ → Storage → Type 0
IsEmptyBelow i s = (j : ℕ) → j < i → get_or s.slot j none ≡ none

-- Retiring the handle of the context in slot `i` clears that slot.
clears :
    {handle_of : ℕ → ℕ} {s : Storage}
    → IsValid handle_of s
    → (i c : ℕ) → get_or s.slot i none ≡ some c
    → (retire handle_of s (handle_of c)).0
      ≡ record s { slot = set s.slot i none; names = drop_names (handle_of c) s.names }
clears {handle_of} {s} v i c e =
    let (at, nz) = v.placed i c e in
    ap (λ p. p.0)
      (retire_found handle_of s (handle_of c) c
        (find_self handle_of s (handle_of c) c (ap (λ k. get_or s.slot k none) at ∙ e) refl))
    ∙ ap (λ k. record s { slot = set s.slot k none; names = drop_names (handle_of c) s.names }) at

empty_next :
    (i : ℕ) (s : Storage) → IsEmptyBelow i s → get_or s.slot i none ≡ none → IsEmptyBelow (i + 1) s
empty_next i s below e j lt = elim (ℕ_discrete j i) [
  | yes p ↦ ap (λ k. get_or s.slot k none) p ∙ e
  | no n ↦ below j (omega (arith, n, lt))
]

get_or-length_le : (xs : List (Option ℕ)) (i : ℕ) → length xs ≤ i → get_or xs i none ≡ none
get_or-length_le [] i h = refl
get_or-length_le (x ∷ xs) zero h = absurd (omega arith)
get_or-length_le (x ∷ xs) (suc i) h = get_or-length_le xs i (omega arith)

-- What a pass from slot `i` on comes to.
record Passed (handle_of : ℕ → ℕ) (n i : ℕ) (s : Storage) (r : Storage) : Type 0 where
  valid : IsValid handle_of r
  size : r.slot_size ≡ s.slot_size
  below : IsEmptyBelow (i + n) r

next_none :
    (handle_of : ℕ → ℕ) (n i : ℕ) (s : Storage)
    → get_or s.slot i none ≡ none
    → retire_slots handle_of (suc n) i s ≡ retire_slots handle_of n (i + 1) s
unfolding retire_slots
next_none handle_of n i s e = rw (e, retire_slots)

next_some :
    (handle_of : ℕ → ℕ) (n i c : ℕ) (s : Storage)
    → get_or s.slot i none ≡ some c
    → handle_of c ≢ 0
    → (retire_slots handle_of (suc n) i s).0
      ≡ (retire_slots handle_of n (i + 1) (retire handle_of s (handle_of c)).0).0
unfolding retire_slots
next_some handle_of n i c s e nz =
    let ne : (handle_of c == 0) ≡ false = ground arith in rw (e, retire_slots, ne)

-- After the first slot of a pass is retired, it is empty too.
cleared_below :
    {handle_of : ℕ → ℕ} {s : Storage}
    → IsValid handle_of s
    → (i c : ℕ) → get_or s.slot i none ≡ some c
    → IsEmptyBelow i s
    → IsEmptyBelow (i + 1) (retire handle_of s (handle_of c)).0
cleared_below {handle_of} {s} v i c e below = subst (IsEmptyBelow (i + 1)) (sym (clears v i c e)) (
    empty_next i (record s { slot = set s.slot i none; names = drop_names (handle_of c) s.names })
      (λ j lt. get_or-set_ne s.slot i j none none (omega (arith, lt)) ∙ below j lt)
      (elim (dec_lt i (length s.slot)) [
        | yes lt ↦ get_or-set_self s.slot i none none lt
        | no ge ↦ absurd (cc (e, get_or-length_le s.slot i (omega (arith, ge))))
      ]))

pass-Passed :
    {handle_of : ℕ → ℕ} (n i : ℕ) (s : Storage)
    → IsValid handle_of s
    → IsEmptyBelow i s
    → Passed handle_of n i s (retire_slots handle_of n i s).0
unfolding retire_slots
pass-Passed zero i s v below = record {
  valid = v;
  size = refl;
  below = λ j lt. below j (omega arith);
}
pass-Passed {handle_of} (suc n) i s v below = elim (Option-cases (get_or s.slot i none)) [
  | inl e ↦
      let p = pass-Passed n (i + 1) s v (empty_next i s below e) in
      subst (Passed handle_of (suc n) i s) (sym (ap (λ r. r.0) (next_none handle_of n i s e)))
        (record { valid = p.valid; size = p.size; below = λ j lt. p.below j (omega (arith, lt)) })
  | inr (c, e) ↦
      let p =
        pass-Passed n (i + 1) (retire handle_of s (handle_of c)).0
          (retire-IsValid (handle_of c) v).0 (cleared_below v i c e below) in
      subst (Passed handle_of (suc n) i s) (sym (next_some handle_of n i c s e (v.placed i c e).1))
        (record {
          valid = p.valid;
          size = p.size ∙ ap (λ t. t.slot_size) (clears v i c e);
          below = λ j lt. p.below j (omega (arith, lt));
        })
]

-- A pass over empty slots changes nothing and meets no context.
pass_empty :
    (handle_of : ℕ → ℕ) (n i : ℕ) (s : Storage)
    → ((j : ℕ) → get_or s.slot j none ≡ none)
    → retire_slots handle_of n i s ≡ (s, 0)
unfolding retire_slots
pass_empty handle_of zero i s e = refl
pass_empty handle_of (suc n) i s e = rw (e i, retire_slots) (pass_empty handle_of n (i + 1) s e)

-- `skynet_handle_retireall` on a valid table ends after two passes at most, and leaves a valid table of
-- the same size without a context.
pub retire_all_lem :
    {handle_of : ℕ → ℕ} (s : Storage)
    → IsValid handle_of s
    → (s' : Storage) × (retire_all 2 handle_of s ≡ some s')
      × IsValid handle_of s'
      × (s'.slot_size ≡ s.slot_size)
      × ((i : ℕ) → get_or s'.slot i none ≡ none)
unfolding retire_all
retire_all_lem {handle_of} s v =
    (r, finish (retire_slots handle_of s.slot_size 0 s).1, p.valid, p.size, bare)
  where
    r : Storage
    r = (retire_slots handle_of s.slot_size 0 s).0

    p : Passed handle_of s.slot_size 0 s r
    p = pass-Passed s.slot_size 0 s v (λ j lt. absurd (omega (arith, lt)))

    bare : (j : ℕ) → get_or r.slot j none ≡ none
    bare j = elim (dec_lt j s.slot_size) [
      | yes lt ↦ p.below j (omega (arith, lt))
      | no ge ↦ get_or-length_le r.slot j (omega (arith, ge, p.valid.room, p.size))
    ]

    finish :
        (k : ℕ)
        → (if k == 0
            then some r
            else if (retire_slots handle_of r.slot_size 0 r).1 == 0
            then some (retire_slots handle_of r.slot_size 0 r).0
            else none)
          ≡ some r
    finish k = rw (pass_empty handle_of r.slot_size 0 r bare) (ground arith)
