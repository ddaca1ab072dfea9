-- ===== src/Skynet/Hashid/Map.antt =====
-- The table as a finite map from ids to slots.
use game_server_development.Prelude.{
  ℕ, zero, suc, ◌+◌, ◌-◌, ◌*◌, ◌/◌, ◌%◌, ◌≡◌, ◌≢◌, ◌<◌, ◌≤◌, refl, sym, ap, ◌∙◌, subst, ◌^◌, ltb,
  leb, if_true, if_false, bit_and, List, [], ◌∷◌, false, ◌==◌, if◌then◌else◌, Option, none, some,
  get_or, set, length, replicate, arith, ◌⊎◌, inl, inr, ◌↔◌, Bool-cases, Option-cases,
  get_or-set_self, get_or-set_ne, ℕ_discrete, dec_lt, length-set, length-replicate,
}
use game_server_development.Skynet.Hashid.{
  Hashid, find_in, lookup, unlink, remove, is_free, free_slot, insert, full, init, hash_cap,
}
use game_server_development.Skynet.Hashid.Chains.{
  Linked, Avoids, find_in-eq, find_in_head, find_in_tail, find_in-set, Linked-set, free-Avoids,
  other-Avoids, unlink_lem,
}
use game_server_development.Prelude.Bits.{mul-add-mod, bit_and_mask, pow-add}
use native.Mathlib.Nat.{mod-lt, mod-eq_of_lt, div-add-mod', one-le-pow}

-- How many slots are in use.
pub used : List (Option ℕ) → ℕ
used [] = 0
used (none ∷ os) = used os
used (some x ∷ os) = suc (used os)

abbrev pub hash_of : Hashid → ℕ → ℕ
hash_of hi x = bit_and x hi.hashmod

pub record IsValid (hi : Hashid) : Type 0 where
  pub room : length hi.ids ≡ hi.cap
  pub index : (x : ℕ) → hash_of hi x < length hi.hash
  pub linked : (k : ℕ) → Linked (hash_of hi) hi.ids k (get_or hi.hash k [])
  pub listed : (c x : ℕ) → get_or hi.ids c none ≡ some x → lookup hi x ≡ some c
  pub counted : hi.count ≡ used hi.ids

-- A valid table finds a slot for an id exactly if the slot has it.
pub lookup_iff :
    {hi : Hashid} (x c : ℕ) → IsValid hi → (lookup hi x ≡ some c) ↔ (get_or hi.ids c none ≡ some x)
unfolding lookup
lookup_iff {hi} x c v = (find_in-eq hi.ids (get_or hi.hash (hash_of hi x) []) x c, v.listed c x)

used-le : (os : List (Option ℕ)) → used os ≤ length os
unfolding used
used-le [] = omega arith
used-le (none ∷ os) = omega (arith, used-le os)
used-le (some x ∷ os) = omega (arith, used-le os)

used_all :
    (os : List (Option ℕ))
    → ((i : ℕ) → i < length os → is_free (get_or os i none) ≡ false)
    → used os ≡ length os
unfolding used is_free
used_all [] h = refl
used_all (none ∷ os) h = absurd (cc (h 0 (omega arith)))
used_all (some x ∷ os) h = ap suc (used_all os (λ i lt. h (suc i) (omega arith)))

used_more :
    (os : List (Option ℕ)) (c x : ℕ)
    → c < length os
    → get_or os c none ≡ none
    → used (set os c (some x)) ≡ used os + 1
unfolding used
used_more [] c x lt e = absurd (omega arith)
used_more (none ∷ os) zero x lt e = omega arith
used_more (some y ∷ os) zero x lt e = absurd (cc e)
used_more (none ∷ os) (suc c) x lt e = used_more os c x (omega arith) e
used_more (some y ∷ os) (suc c) x lt e = omega (arith, used_more os c x (omega arith) e)

used_less :
    (os : List (Option ℕ)) (c x : ℕ)
    → get_or os c none ≡ some x
    → used (set os c none) + 1 ≡ used os
unfolding used
used_less [] c x e = absurd (cc e)
used_less (none ∷ os) zero x e = absurd (cc e)
used_less (some y ∷ os) zero x e = omega arith
used_less (none ∷ os) (suc c) x e = used_less os c x e
used_less (some y ∷ os) (suc c) x e = omega (arith, used_less os c x e)

below_length : (os : List (Option ℕ)) (c x : ℕ) → get_or os c none ≡ some x → c < length os
below_length [] c x e = absurd (cc e)
below_length (o ∷ os) zero x e = omega arith
below_length (o ∷ os) (suc c) x e = omega (arith, below_length os c x e)

-- The search for a free slot tries every slot.
free_slot-none :
    (ids : List (Option ℕ)) (cap id n i : ℕ)
    → i + n + id ≤ 2 ^ 31
    → free_slot ids cap id n i ≡ none
    → (j : ℕ) → i ≤ j
    → j < i + n
    → is_free (get_or ids ((j + id) % cap) none) ≡ false
unfolding free_slot
free_slot-none ids cap id zero i small e j lo hi = absurd (omega arith)
free_slot-none ids cap id (suc n) i small e j lo hi =
    let fits : leb (2 ^ 31) (i + id) ≡ false = ground (arith, small) in
    let f = sym (if_false _ _ fits) ∙ e in
    elim (Bool-cases (is_free (get_or ids ((i + id) % cap) none))) [
      | inl t ↦ absurd (cc (rw t at f))
      | inr t ↦ elim (ℕ_discrete i j) [
        | yes p ↦ ap (λ k. is_free (get_or ids ((k + id) % cap) none)) (sym p) ∙ t
        | no p ↦
            free_slot-none ids cap id n (i + 1) (omega (arith, small)) (rw t at f) j (omega arith)
              (omega arith)
      ]
    ]

free_slot-some :
    (ids : List (Option ℕ)) (cap id n i c : ℕ)
    → 0 < cap
    → free_slot ids cap id n i ≡ some c
    → (get_or ids c none ≡ none) × (c < cap)
unfolding free_slot is_free
free_slot-some ids cap id zero i c pos e = absurd (cc e)
free_slot-some ids cap id (suc n) i c pos e = elim (Bool-cases (leb (2 ^ 31) (i + id))) [
  | inl over ↦ let f = sym (if_true _ _ over) ∙ e in absurd (cc f)
  | inr fits ↦
      let f = sym (if_false _ _ fits) ∙ e in
      elim (Option-cases (get_or ids ((i + id) % cap) none)) [
        | inl t ↦
            let same : some ((i + id) % cap) ≡ some c = sym (rw t refl) ∙ f in
            let eq : (i + id) % cap ≡ c = cc same in
            (
              ap (λ k. get_or ids k none) (sym eq) ∙ t,
              subst (λ k. k < cap) eq (mod-lt (i + id) pos),
            )
        | inr (x, t) ↦ free_slot-some ids cap id n (i + 1) c pos (rw t at f)
      ]
]

-- The round that comes to slot `j`.
round_of : (cap id j : ℕ) → j < cap → (i : ℕ) × (i < cap) × ((i + id) % cap ≡ j)
round_of cap id j lt = elim (dec_lt j (id % cap)) [
  | yes less ↦ (
    j + cap - id % cap,
    omega arith,
    ap (λ k. k % cap) (total less) ∙ mul-add-mod (id / cap + 1) cap j ∙ mod-eq_of_lt lt,
  )
  | no more ↦ (
    j - id % cap,
    omega arith,
    ap (λ k. k % cap) (exact more) ∙ mul-add-mod (id / cap) cap j ∙ mod-eq_of_lt lt,
  )
]
  where
    bound : id % cap < cap
    bound = mod-lt id (omega (arith, lt))

    next : (q : ℕ) → (q + 1) * cap ≡ q * cap + cap
    next q = grind arith

    total : j < id % cap → j + cap - id % cap + id ≡ (id / cap + 1) * cap + j
    total h = omega (arith, h, bound, div-add-mod' id cap, next (id / cap))

    exact : (j < id % cap → ⊥) → j - id % cap + id ≡ id / cap * cap + j
    exact h = omega (arith, h, bound, div-add-mod' id cap)

-- A table with a free slot finds one, if no index overflows.
free_slot_found :
    (ids : List (Option ℕ)) (id : ℕ)
    → id + length ids ≤ 2 ^ 31
    → used ids < length ids
    → (c : ℕ) × (free_slot ids (length ids) id (length ids) 0 ≡ some c)
free_slot_found ids id small lt =
    elim (Option-cases (free_slot ids (length ids) id (length ids) 0)) [
      | inr (c, e) ↦ (c, e)
      | inl e ↦ absurd (
          omega (
            arith,
            lt,
            used_all ids (λ j h.
                let (i, li, at) = round_of (length ids) id j h in
                ap (λ k. is_free (get_or ids k none)) (sym at)
                ∙ free_slot-none ids (length ids) id (length ids) 0 (omega (arith, small)) e i
                    (omega arith) (omega (arith, li))),
          ))
    ]

-- The chain of an id after one chain is replaced.
chain_same :
    (hash : List (List ℕ)) (h : ℕ) (ch : List ℕ)
    → h < length hash
    → get_or (set hash h ch) h [] ≡ ch
chain_same hash h ch lt = get_or-set_self hash h ch [] lt

-- What inserting an id gives.
pub record Inserted (hi : Hashid) (id c : ℕ) (hi' : Hashid) : Type 0 where
  pub valid : IsValid hi'
  pub was_free : get_or hi.ids c none ≡ none
  pub in_range : c < hi.cap
  pub ids : hi'.ids ≡ set hi.ids c (some id)
  pub cap : hi'.cap ≡ hi.cap
  pub lookup : (x : ℕ) → lookup hi' x ≡ (if x == id then some c else lookup hi x)

module _ {hi : Hashid} (id c : ℕ) (v : IsValid hi) (new_id : lookup hi id ≡ none)
    (free : get_or hi.ids c none ≡ none) (lt : c < hi.cap) where
  ids' : List (Option ℕ)
  ids' = set hi.ids c (some id)

  h : ℕ
  h = hash_of hi id

  old : List ℕ
  old = get_or hi.hash h []

  hi' : Hashid
  hi' = record hi { count = hi.count + 1; ids = ids'; hash = set hi.hash h (c ∷ old) }

  here : get_or ids' c none ≡ some id
  unfolding ids'
  here = get_or-set_self hi.ids c (some id) none (omega (arith, lt, v.room))

  avoids : (k : ℕ) → Avoids c (get_or hi.hash k [])
  avoids k = free-Avoids (hash_of hi) hi.ids k c (get_or hi.hash k []) free (v.linked k)

  insert-lookup : (x : ℕ) → lookup hi' x ≡ (if x == id then some c else lookup hi x)
  unfolding lookup hi' ids' h old
  insert-lookup x = elim (ℕ_discrete h (hash_of hi x)) [
    | yes p ↦
        let chain : get_or (set hi.hash h (c ∷ old)) (hash_of hi x) [] ≡ c ∷ old =
          ap (λ k. get_or (set hi.hash h (c ∷ old)) k []) (sym p)
          ∙ get_or-set_self hi.hash h (c ∷ old) [] (v.index id) in
        ap (λ ch. find_in ids' ch x) chain ∙ elim (ℕ_discrete id x) [
          | yes q ↦ find_in_head ids' c old x (here ∙ ap some q) ∙ ground (arith, q)
          | no q ↦
              find_in_tail ids' c old x id here q
              ∙ find_in-set hi.ids c (some id) old x (avoids h)
              ∙ ap (λ k. find_in hi.ids (get_or hi.hash k []) x) p
              ∙ ground (arith, q)
        ]
    | no p ↦
        let other : (x == id) ≡ false =
          ground (arith, λ (q : x ≡ id). p (ap (hash_of hi) (sym q))) in
        ap (λ ch. find_in ids' ch x) (get_or-set_ne hi.hash h (hash_of hi x) (c ∷ old) [] p)
        ∙ find_in-set hi.ids c (some id) (get_or hi.hash (hash_of hi x) []) x
            (avoids (hash_of hi x))
        ∙ rw other refl
  ]

  insert-Linked : (k : ℕ) → Linked (hash_of hi) ids' k (get_or (set hi.hash h (c ∷ old)) k [])
  unfolding ids' h old lookup
  insert-Linked k = elim (ℕ_discrete h k) [
    | yes p ↦
        subst (λ j. Linked (hash_of hi) ids' j (get_or (set hi.hash h (c ∷ old)) j [])) p
          (rw (get_or-set_self hi.hash h (c ∷ old) [] (v.index id)) (
            (id, here, refl, find_in-set hi.ids c (some id) old id (avoids h) ∙ new_id),
            Linked-set (hash_of hi) hi.ids h c (some id) old (avoids h) (v.linked h),
          ))
    | no p ↦
        rw (get_or-set_ne hi.hash h k (c ∷ old) [] p) (
          Linked-set (hash_of hi) hi.ids k c (some id) (get_or hi.hash k []) (avoids k)
            (v.linked k))
  ]

  insert-Inserted : Inserted hi id c hi'
  unfolding hi' ids' h old
  insert-Inserted = record {
    valid = record {
      room = length-set hi.ids c (some id) ∙ v.room;
      index = λ x. subst (λ n. hash_of hi x < n) (sym (length-set hi.hash h (c ∷ old))) (v.index x);
      linked = insert-Linked;
      listed = listed';
      counted = omega (arith, v.counted, used_more hi.ids c id (omega (arith, lt, v.room)) free);
    };
    was_free = free;
    in_range = lt;
    ids = refl;
    cap = refl;
    lookup = insert-lookup;
  }
    where
      listed' : (d x : ℕ) → get_or ids' d none ≡ some x → lookup hi' x ≡ some d
      listed' d x e = elim (ℕ_discrete c d) [
        | yes p ↦
            let s : some id ≡ some x = sym here ∙ ap (λ j. get_or ids' j none) p ∙ e in
            let q : id ≡ x = cc s in insert-lookup x ∙ ground (arith, q, p)
        | no p ↦
            let old_one : lookup hi x ≡ some d =
              v.listed d x (sym (get_or-set_ne hi.ids c d (some id) none p) ∙ e) in
            let nq : x ≢ id = λ r. cc (old_one, new_id, r) in
            let q : (x == id) ≡ false = ground (arith, nq) in insert-lookup x ∙ rw q old_one
      ]

-- Inserting an id that a valid table does not have, while a slot is free and the id and the number of
-- slots add up to at most 2^31, succeeds: the id gets a slot
-- that was free, every other id keeps its slot, and the table is valid again.
pub insert_lem :
    {hi : Hashid} (id : ℕ)
    → IsValid hi
    → lookup hi id ≡ none
    → hi.count < hi.cap
    → id + hi.cap ≤ 2 ^ 31
    → (c : ℕ) × (hi' : Hashid) × (insert hi id ≡ some (c, hi')) × Inserted hi id c hi'
unfolding insert hi' ids' h old
insert_lem {hi} id v missing room small =
    let (c, e) =
      free_slot_found hi.ids id (omega (arith, small, v.room))
        (omega (arith, room, v.counted, v.room)) in
    let (free, lt) =
      free_slot-some hi.ids (length hi.ids) id (length hi.ids) 0 c (omega (arith, room, v.room))
        e in
    (
      c,
      hi' id c v missing free (omega (arith, lt, v.room)),
      rw (subst (λ n. free_slot hi.ids n id n 0 ≡ some c) v.room e, insert) refl,
      insert-Inserted id c v missing free (omega (arith, lt, v.room)),
    )

-- What removing an id gives.
pub record Removed (hi : Hashid) (id c : ℕ) (hi' : Hashid) : Type 0 where
  pub valid : IsValid hi'
  pub ids : hi'.ids ≡ set hi.ids c none
  pub cap : hi'.cap ≡ hi.cap
  pub lookup : (x : ℕ) → lookup hi' x ≡ (if x == id then none else lookup hi x)

module _ {hi : Hashid} (id c : ℕ) (v : IsValid hi) (found : lookup hi id ≡ some c) where
  rest_of : List ℕ
  rest_of = unlink hi.ids (get_or hi.hash (hash_of hi id) []) id

  removed : Hashid
  unfolding rest_of
  removed = record hi {
    count = hi.count - 1;
    ids = set hi.ids c none;
    hash = set hi.hash (hash_of hi id) rest_of;
  }

  owner : get_or hi.ids c none ≡ some id
  unfolding lookup
  owner = find_in-eq hi.ids (get_or hi.hash (hash_of hi id) []) id c found

  unlinked :
      Linked (hash_of hi) (set hi.ids c none) (hash_of hi id) rest_of
      × (find_in (set hi.ids c none) rest_of id ≡ none)
      × ((x : ℕ)
          → x ≢ id
          → find_in (set hi.ids c none) rest_of x
            ≡ find_in hi.ids (get_or hi.hash (hash_of hi id) []) x)
  unfolding rest_of lookup
  unlinked =
      unlink_lem (hash_of hi) hi.ids (hash_of hi id) id c (get_or hi.hash (hash_of hi id) [])
        (v.linked (hash_of hi id)) found

  others_avoid : (k : ℕ) → hash_of hi id ≢ k → Avoids c (get_or hi.hash k [])
  others_avoid k n =
      other-Avoids (hash_of hi) hi.ids k c id (get_or hi.hash k []) owner n (v.linked k)

  remove-lookup : (x : ℕ) → lookup removed x ≡ (if x == id then none else lookup hi x)
  unfolding lookup removed rest_of
  remove-lookup x = elim (ℕ_discrete (hash_of hi id) (hash_of hi x)) [
    | yes p ↦
        let chain : get_or (set hi.hash (hash_of hi id) rest_of) (hash_of hi x) [] ≡ rest_of =
          ap (λ k. get_or (set hi.hash (hash_of hi id) rest_of) k []) (sym p)
          ∙ get_or-set_self hi.hash (hash_of hi id) rest_of [] (v.index id) in
        ap (λ ch. find_in (set hi.ids c none) ch x) chain ∙ elim (ℕ_discrete x id) [
          | yes q ↦ ap (find_in (set hi.ids c none) rest_of) q ∙ unlinked.1 ∙ ground (arith, q)
          | no q ↦
              unlinked.2 x q
              ∙ ap (λ k. find_in hi.ids (get_or hi.hash k []) x) p
              ∙ ground (arith, q)
        ]
    | no p ↦
        let other : (x == id) ≡ false =
          ground (arith, λ (q : x ≡ id). p (ap (hash_of hi) (sym q))) in
        ap (λ ch. find_in (set hi.ids c none) ch x)
          (get_or-set_ne hi.hash (hash_of hi id) (hash_of hi x) rest_of [] p)
        ∙ find_in-set hi.ids c none (get_or hi.hash (hash_of hi x) []) x
            (others_avoid (hash_of hi x) p)
        ∙ rw other refl
  ]

  remove-Linked :
      (k : ℕ)
      → Linked
          (hash_of hi)
          (set hi.ids c none)
          k
          (get_or (set hi.hash (hash_of hi id) rest_of) k [])
  remove-Linked k = elim (ℕ_discrete (hash_of hi id) k) [
    | yes p ↦
        subst
          (λ j.
            Linked (hash_of hi) (set hi.ids c none) j
              (get_or (set hi.hash (hash_of hi id) rest_of) j []))
          p (rw (get_or-set_self hi.hash (hash_of hi id) rest_of [] (v.index id)) unlinked.0)
    | no p ↦ rw (get_or-set_ne hi.hash (hash_of hi id) k rest_of [] p) (
        Linked-set (hash_of hi) hi.ids k c none (get_or hi.hash k []) (others_avoid k p)
          (v.linked k))
  ]

  remove-Removed : Removed hi id c removed
  unfolding removed rest_of
  remove-Removed = record {
    valid = record {
      room = length-set hi.ids c none ∙ v.room;
      index = λ x.
          subst (λ n. hash_of hi x < n) (sym (length-set hi.hash (hash_of hi id) rest_of))
            (v.index x);
      linked = remove-Linked;
      listed = still;
      counted = omega (arith, v.counted, used_less hi.ids c id owner);
    };
    ids = refl;
    cap = refl;
    lookup = remove-lookup;
  }
    where
      still : (d x : ℕ) → get_or (set hi.ids c none) d none ≡ some x → lookup removed x ≡ some d
      still d x e = elim (ℕ_discrete c d) [
        | yes p ↦ absurd (
            cc (
              e,
              ap (λ j. get_or (set hi.ids c none) j none) p,
              get_or-set_self hi.ids c none none (below_length hi.ids c id owner),
            ))
        | no p ↦
            let old_one : lookup hi x ≡ some d =
              v.listed d x (sym (get_or-set_ne hi.ids c d none none p) ∙ e) in
            let nq : x ≢ id = λ r.
              p (let s : some c ≡ some d = sym found ∙ ap (lookup hi) (sym r) ∙ old_one in cc s) in
            let q : (x == id) ≡ false = ground (arith, nq) in remove-lookup x ∙ rw q old_one
      ]

-- Removing an id from a valid table gives the slot that the table has for it and forgets that id and
-- no other; an id that the table does not have changes nothing.
pub remove_lem :
    {hi : Hashid} (id : ℕ)
    → IsValid hi
    → ((lookup hi id ≡ none) × (remove hi id ≡ (none, hi)))
      ⊎ ((c : ℕ) × (hi' : Hashid) × (lookup hi id ≡ some c)
          × (remove hi id ≡ (some c, hi'))
          × Removed hi id c hi')
unfolding remove lookup removed rest_of
remove_lem {hi} id v = elim (Option-cases (lookup hi id)) [
  | inl e ↦ inl (e, rw (e, remove) refl)
  | inr (c, e) ↦ inr (c, removed id c v e, e, rw (e, remove) refl, remove-Removed id c v e)
]

hash_cap-pow : (fuel k max : ℕ) → (j : ℕ) × (hash_cap fuel (2 ^ k) max ≡ 2 ^ j)
unfolding hash_cap
hash_cap-pow zero k max = (k, refl)
hash_cap-pow (suc fuel) k max = elim (Bool-cases (ltb (2 ^ k) max)) [
  | inr done ↦ (k, rw done refl)
  | inl more ↦
      let (j, e) = hash_cap-pow fuel (k + 1) max in
      (j, rw more (ap (λ n. hash_cap fuel n max) (sym (pow-add k 1)) ∙ e))
]

no_slot : (n c : ℕ) → get_or {A = Option ℕ} (replicate n none) c none ≡ none
no_slot zero c = refl
no_slot (suc n) zero = refl
no_slot (suc n) (suc c) = no_slot n c

no_chain : (n k : ℕ) → get_or {A = List ℕ} (replicate n []) k [] ≡ []
no_chain zero k = refl
no_chain (suc n) zero = refl
no_chain (suc n) (suc k) = no_chain n k

unused : (n : ℕ) → used (replicate n none) ≡ 0
unfolding used
unused zero = refl
unused (suc n) = unused n

-- A new table is valid, has room for `max` ids, and finds none.
pub init-IsValid :
    (max : ℕ) → IsValid (init max) × ((init max).cap ≡ max) × ((x : ℕ) → lookup (init max) x ≡ none)
unfolding init lookup find_in
init-IsValid max =
    let (j, e) = hash_cap-pow max 4 max in
    (
      record {
        room = length-replicate max none;
        index = λ x. below x j e;
        linked = λ k.
            subst (Linked (hash_of (init max)) (replicate max none) k)
              (sym (no_chain (hash_cap max 16 max) k)) tt;
        listed = λ c x q. absurd (cc (q, no_slot max c));
        counted = sym (unused max);
      },
      refl,
      λ x.
          ap (λ ch. find_in (replicate max none) ch x)
            (no_chain (hash_cap max 16 max) (bit_and x (hash_cap max 16 max - 1))),
    )
  where
    below :
        (x i : ℕ)
        → hash_cap max 16 max ≡ 2 ^ i
        → bit_and x (hash_cap max 16 max - 1)
          < length {A = List ℕ} (replicate (hash_cap max 16 max) [])
    below x i q =
        rw (length-replicate {A = List ℕ} (hash_cap max 16 max) [], q, bit_and_mask i x)
          (mod-lt x (one-le-pow i 2 (omega arith)))

-- A valid table that is not full has a free slot.
pub full_lem : {hi : Hashid} → IsValid hi → full hi ≡ false → hi.count < hi.cap
unfolding full
full_lem {hi} v e = ground (arith, v.counted, v.room, used-le hi.ids)
