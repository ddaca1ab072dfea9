-- ===== src/Skynet/Handle/Grow.antt =====
-- The rehashing of `skynet_handle_register`: no assertion breaks, and no handle is lost.
use game_server_development.Prelude.{
  ℕ, zero, suc, ◌+◌, ◌*◌, ◌/◌, ◌%◌, ◌^◌, ◌≤◌, ◌<◌, ◌≡◌, ◌≢◌, refl, sym, ap, ◌∙◌, List, [], ◌∷◌,
  Option, none, some, length, get_or, set, replicate, arith, ◌⊎◌, inl, inr, Option-cases,
  length-set, get_or-set_self, get_or-set_ne, length-replicate, dec_lt, ℕ_discrete,
}
use game_server_development.Prelude.Bits.{bit_and_mask, mod-mod-pow}
use game_server_development.Skynet.Handle.{
  Storage, handle_mask, hash, find, grow, rehash, rehash_one,
}
use game_server_development.Skynet.Handle.Slots.{
  IsValid, Absent, hash-lt, get_or-set, find_cases, find_self,
}
use native.Mathlib.Nat.{pow-suc, div-add-mod', pow-le-pow_right}

-- The slot in the old table from the slot in the doubled one.
pub hash-half :
    (level size : ℕ) → size ≡ 2 ^ level → (x : ℕ) → hash x size ≡ hash x (size * 2) % size
hash-half level size sz x =
    rw (sz, bit_and_mask level x, ← pow-suc 2 level, bit_and_mask (suc level) x)
      (sym (
        sym (mod-mod-pow 1 level (x / 2 ^ suc level) (x % 2 ^ suc level))
        ∙ ap (λ t. t % 2 ^ level)
            (ap (λ k. x / 2 ^ suc level * 2 ^ k + x % 2 ^ suc level) one_more
              ∙ div-add-mod' x (2 ^ suc level))))
  where
    one_more : 1 + level ≡ suc level
    one_more = omega arith

-- Handles that share a slot of the doubled table share one of the old table.
hash-double :
    (level size : ℕ)
    → size ≡ 2 ^ level
    → (a b : ℕ) → hash a (size * 2) ≡ hash b (size * 2)
    → hash a size ≡ hash b size
hash-double level size sz a b e =
    hash-half level size sz a ∙ ap (λ t. t % size) e ∙ sym (hash-half level size sz b)

-- What a slot holds after a write.
pub get_or-set_cases :
    (new : List (Option ℕ)) (k j d c : ℕ)
    → k < length new
    → get_or (set new k (some d)) j none ≡ some c
    → ((k ≡ j) × (d ≡ c)) ⊎ (get_or new j none ≡ some c)
get_or-set_cases new k j d c lt e = elim (ℕ_discrete k j) [
  | yes q ↦ inl (q, ground (arith, get_or-set new k j (some d) lt))
  | no n ↦ inr (ground (arith, get_or-set new k j (some d) lt))
]

module _ (handle_of : ℕ → ℕ) (size level : ℕ) (sz : size ≡ 2 ^ level) where
  abbrev slot_of : ℕ → ℕ
  slot_of c = hash (handle_of c) (size * 2)

  -- Where a context of the new table comes from: it was there, or it is one of the rest.
  abbrev Came : List (Option ℕ) → List (Option ℕ) → ℕ → ℕ → Type 0
  Came new rest j c =
      (get_or new j none ≡ some c)
      ⊎ ((i : ℕ) × (get_or rest i none ≡ some c) × (j ≡ hash (handle_of c) (size * 2)))

  record Rehashed (new rest new' : List (Option ℕ)) : Type 0 where
    room : length new' ≡ size * 2
    only : (j c : ℕ) → get_or new' j none ≡ some c → Came new rest j c
    all : (j c : ℕ) → Came new rest j c → get_or new' j none ≡ some c

  -- The contexts of the new table stand in their slots, and came from old slots below `b`.
  abbrev Below : ℕ → List (Option ℕ) → Type 0
  Below b new =
      (j c : ℕ)
      → get_or new j none ≡ some c
      → (hash (handle_of c) (size * 2) ≡ j) × (hash (handle_of c) (size) < b)

  later :
      (o : Option ℕ) (rest new : List (Option ℕ)) (j c : ℕ)
      → Came new rest j c
      → Came new (o ∷ rest) j c
  later o rest new j c k = elim k [ inl e ↦ inl e | inr (i, e, q) ↦ inr (suc i, e, q) ]

  earlier : (rest new : List (Option ℕ)) (j c : ℕ) → Came new (none ∷ rest) j c → Came new rest j c
  earlier rest new j c k = elim k [ inl e ↦ inl e | inr (i, e, q) ↦ go i e q ]
    where
      go :
          (i : ℕ)
          → get_or (none ∷ rest) i none ≡ some c
          → j ≡ hash (handle_of c) (size * 2)
          → Came new rest j c
      go zero e q = cc
      go (suc i) e q = inr (i, e, q)

  slot_of-lt : (d : ℕ) → slot_of d < size * 2
  slot_of-lt d = rw (sz, ← pow-suc 2 level) (hash-lt (suc level) (handle_of d) (2 ^ suc level) refl)

  -- The assertion of the rehashing loop holds.
  is_free :
      (new : List (Option ℕ)) (d b : ℕ)
      → Below b new
      → b ≤ hash (handle_of d) (size)
      → get_or new (slot_of d) none ≡ none
  is_free new d b below h = elim (Option-cases (get_or new (slot_of d) none)) [
    | inl e ↦ e
    | inr (c, e) ↦ absurd (
        let (p, q) = below (slot_of d) c e in
        omega (arith, q, h, hash-double level size sz (handle_of c) (handle_of d) p))
  ]

  Below-set :
      (new : List (Option ℕ)) (d b : ℕ)
      → slot_of d < length new
      → Below b new
      → hash (handle_of d) (size) < b + 1
      → Below (b + 1) (set new (slot_of d) (some d))
  Below-set new d b lt below h j c e = elim (get_or-set_cases new (slot_of d) j d c lt e) [
    | inl (p, q) ↦ (rw (← q) p, rw (← q) h)
    | inr old ↦ let (p, q) = below j c old in (p, omega arith)
  ]

  Came-set :
      (rest new : List (Option ℕ)) (d : ℕ)
      → slot_of d < length new
      → (j c : ℕ) → Came (set new (slot_of d) (some d)) rest j c
      → Came new (some d ∷ rest) j c
  Came-set rest new d lt j c k = elim k [
    | inl e ↦ elim (get_or-set_cases new (slot_of d) j d c lt e) [
      | inl (p, q) ↦ inr (0, ap some q, sym p ∙ ap slot_of q)
      | inr old ↦ inl old
    ]
    | inr (i, e, q) ↦ inr (suc i, e, q)
  ]

  Came-unset :
      (rest new : List (Option ℕ)) (d : ℕ)
      → slot_of d < length new
      → get_or new (slot_of d) none ≡ none
      → (j c : ℕ) → Came new (some d ∷ rest) j c
      → Came (set new (slot_of d) (some d)) rest j c
  Came-unset rest new d lt free j c k = elim k [ inl e ↦ inl (kept e) | inr (i, e, q) ↦ go i e q ]
    where
      kept : get_or new j none ≡ some c → get_or (set new (slot_of d) (some d)) j none ≡ some c
      kept e = elim (ℕ_discrete (slot_of d) j) [
        | yes p ↦ absurd (cc (ap (λ i. get_or new i none) p))
        | no n ↦ get_or-set_ne new (slot_of d) j (some d) none n ∙ e
      ]

      go :
          (i : ℕ)
          → get_or (some d ∷ rest) i none ≡ some c
          → j ≡ slot_of c
          → Came (set new (slot_of d) (some d)) rest j c
      go zero e q = inl (
          ap (λ x. get_or (set new (slot_of d) (some d)) x none) (q ∙ ap slot_of (sym d-eq))
          ∙ get_or-set_self new (slot_of d) (some d) none lt
          ∙ e)
        where
          d-eq : d ≡ c
          d-eq = cc
      go (suc i) e q = inr (i, e, q)

  -- From a table below `b`, the loop over the rest succeeds: it keeps what was there and adds each
  -- context of the rest in its slot.
  rehash-Rehashed :
      (rest new : List (Option ℕ)) (b : ℕ)
      → length new ≡ size * 2
      → Below b new
      → ((i c : ℕ) → get_or rest i none ≡ some c → hash (handle_of c) (size) ≡ b + i)
      → (new' : List (Option ℕ)) × (rehash handle_of (size * 2) rest new ≡ some new')
        × Rehashed new rest new'
  unfolding rehash rehash_one
  rehash-Rehashed [] new b room below from = (
    new,
    refl,
    record {
      room = room;
      only = λ j c e. inl e;
      all = λ j c k. elim k [ inl e ↦ e | inr (i, e, q) ↦ cc ];
    },
  )
  rehash-Rehashed (none ∷ rest) new b room below from =
      let (new', done, r) =
        rehash-Rehashed rest new (b + 1) room
          (λ j c e. let (p, q) = below j c e in (p, omega arith))
          (λ i c e. omega (arith, from (suc i) c e)) in
      (
        new',
        done,
        record {
          room = r.room;
          only = λ j c e. later none rest new j c (r.only j c e);
          all = λ j c k. r.all j c (earlier rest new j c k);
        },
      )
  rehash-Rehashed (some d ∷ rest) new b room below from =
      let (new', done, r) =
        rehash-Rehashed rest (set new (slot_of d) (some d)) (b + 1)
          (length-set new (slot_of d) (some d) ∙ room)
          (Below-set new d b in_range below (omega (arith, from 0 d refl)))
          (λ i c e. omega (arith, from (suc i) c e)) in
      (
        new',
        rw (free, rehash_one) done,
        record {
          room = r.room;
          only = λ j c e. Came-set rest new d in_range j c (r.only j c e);
          all = λ j c q. r.all j c (Came-unset rest new d in_range free j c q);
        },
      )
    where
      in_range : slot_of d < length new
      in_range = rw room (slot_of-lt d)

      free : get_or new (slot_of d) none ≡ none
      free = is_free new d b below (omega (arith, from 0 d refl))

get_or-replicate : (n i : ℕ) → get_or {A = Option ℕ} (replicate n none) i none ≡ none
get_or-replicate zero i = refl
get_or-replicate (suc n) zero = refl
get_or-replicate (suc n) (suc i) = get_or-replicate n i

-- What `grow` leaves: a valid table of twice the size, with the same map from handles to contexts,
-- the same contexts, and at most one of them in each pair of slots that share an old slot.
pub record Grown (handle_of : ℕ → ℕ) (s s' : Storage) : Type 0 where
  pub valid : IsValid handle_of s'
  pub doubled : s'.slot_size ≡ s.slot_size * 2
  pub harbor : s'.harbor ≡ s.harbor
  pub next : s'.handle_index ≡ s.handle_index
  pub same : (x : ℕ) → find handle_of s' x ≡ find handle_of s x
  pub absent : (c : ℕ) → Absent c s.slot → Absent c s'.slot
  pub from :
      (j c : ℕ)
      → get_or s'.slot j none ≡ some c
      → get_or s.slot (hash (handle_of c) s.slot_size) none ≡ some c

no_context : (n j c : ℕ) → get_or {A = Option ℕ} (replicate n none) j none ≡ some c → ⊥
no_context n j c e = cc (get_or-replicate n j)

-- The table may double while it has fewer than 2^24 slots.
level_bound : (level size : ℕ) → size ≡ 2 ^ level → size * 2 ≤ handle_mask + 1 → suc level ≤ 24
level_bound level size e few = elim (dec_lt level 24) [
  | yes h ↦ h
  | no n ↦
      absurd
        (omega (arith, pow-le-pow_right {n = 2} (omega arith) {i = 24} {j = level} (omega arith)))
]

module _ {handle_of : ℕ → ℕ} {s : Storage} (v : IsValid handle_of s) (slot : List (Option ℕ))
    (r : Rehashed handle_of s.slot_size v.level v.size
      (replicate (s.slot_size * 2) none)
      s.slot
      slot) where
  abbrev table : Storage
  table = record s { slot = slot; slot_size = s.slot_size * 2 }

  origin :
      (j c : ℕ)
      → get_or slot j none ≡ some c
      → (get_or s.slot (hash (handle_of c) s.slot_size) none ≡ some c)
        × (hash (handle_of c) (s.slot_size * 2) ≡ j)
        × (handle_of c ≢ 0)
  origin j c e = elim (r.only j c e) [
    | inl q ↦ absurd (no_context (s.slot_size * 2) j c q)
    | inr (i, q, at) ↦
        let (p, ne) = v.placed i c q in (ap (λ k. get_or s.slot k none) p ∙ q, sym at, ne)
  ]

  kept :
      (i c : ℕ)
      → get_or s.slot i none ≡ some c
      → get_or slot (hash (handle_of c) (s.slot_size * 2)) none ≡ some c
  kept i c e = r.all (hash (handle_of c) (s.slot_size * 2)) c (inr (i, e, refl))

  find-table : (x : ℕ) → find handle_of table x ≡ find handle_of s x
  find-table x = elim (find_cases handle_of s x) [
    | inl missing ↦ elim (find_cases handle_of table x) [
      | inl gone ↦ gone ∙ sym missing
      | inr (c, e, q) ↦
          let (old, _, _) = origin (hash x (s.slot_size * 2)) c e in
          absurd (
            clash missing (
              find_self handle_of s x c
                (ap (λ h. get_or s.slot (hash h s.slot_size) none) (sym q) ∙ old) q))
    ]
    | inr (c, e, q) ↦
        find_self handle_of table x c
          (ap (λ h. get_or slot (hash h (s.slot_size * 2)) none) (sym q)
            ∙ kept (hash x s.slot_size) c e)
          q
        ∙ sym (find_self handle_of s x c e q)
  ]
    where
      clash : {c : ℕ} → find handle_of s x ≡ none → find handle_of s x ≡ some c → ⊥
      clash a b = cc

  table-Grown : s.slot_size * 2 ≤ handle_mask + 1 → Grown handle_of s table
  table-Grown few = record {
    valid = record {
      level = suc v.level;
      short = level_bound v.level s.slot_size v.size few;
      size = omega (arith, v.size, pow-suc 2 v.level);
      room = r.room;
      index = v.index;
      started = v.started;
      node = v.node;
      remote = v.remote;
      placed = λ i c e. let (_, at, ne) = origin i c e in (at, ne);
    };
    doubled = refl;
    harbor = refl;
    next = refl;
    same = find-table;
    absent = λ c gone j e. gone (hash (handle_of c) s.slot_size) (origin j c e).0;
    from = λ j c e. (origin j c e).0;
  }

-- `grow` of a valid table of at most 2^23 slots breaks no assertion and leaves what `Grown` says: a
-- valid table of twice the size, with the same map from handles to contexts and the same contexts.
pub grow-Grown :
    {handle_of : ℕ → ℕ} {s : Storage}
    → IsValid handle_of s
    → s.slot_size * 2 ≤ handle_mask + 1
    → (s' : Storage) × (grow handle_of s ≡ some s') × Grown handle_of s s'
unfolding grow
grow-Grown {handle_of} {s} v few =
    let (slot, done, r) =
      rehash-Rehashed handle_of s.slot_size v.level v.size s.slot (replicate (s.slot_size * 2) none)
        0 (length-replicate (s.slot_size * 2) none)
        (λ j c e. absurd (no_context (s.slot_size * 2) j c e))
        (λ i c e. omega (arith, (v.placed i c e).0)) in
    (table v slot r, rw done (ground arith), table-Grown v slot r few)
