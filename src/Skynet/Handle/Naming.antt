-- ===== src/Skynet/Handle/Naming.antt =====
-- `skynet_handle_findname` and `skynet_handle_namehandle` against a plain dictionary of names.
use game_server_development.Prelude.{
  ℕ, zero, suc, ◌*◌, ◌≤◌, ◌<◌, ◌≡◌, ◌≢◌, refl, sym, ap, ◌∙◌, List, [], ◌∷◌, Bool, true, false, leb,
  if◌then◌else◌, some, ◌>>=◌, length, get_or, arith, ◌⊎◌, inl, inr, dec_lt, ℕ_discrete,
}
use Prim.Native.Nat.{Ordering}
use game_server_development.Skynet.Handle.{
  HandleName, Storage, Found, hit, miss, no_name, strcmp, search_names, find_name, insert_at,
  insert_name_before, name_handle, max_slot_size,
}
use game_server_development.Skynet.Handle.Compare.{strcmp_refl, strcmp_eq, strcmp_flip}
use game_server_development.Skynet.Handle.Names.{
  IsSorted, Answers, name_at, strcmp_cases, search_names-Answers,
}

-- The dictionary: the handle of a name, or 0.
unfoldable pub lookup : List HandleName → List ℕ → ℕ
lookup [] key = 0
lookup (n ∷ ns) key =
    let rest = lookup ns key in elim (strcmp n.name key) [ Ordering.eq ↦ n.handle | _ ↦ rest ]

lookup-missing :
    (ns : List HandleName) (key : List ℕ)
    → ((i : ℕ) → i < length ns → strcmp (name_at ns i) key ≢ Ordering.eq)
    → lookup ns key ≡ 0
unfolding lookup
lookup-missing [] key ne = refl
lookup-missing (n ∷ ns) key ne =
    ground (arith, ne 0 (omega arith), lookup-missing ns key (λ i h. ne (suc i) (omega arith)))

lookup-present :
    (ns : List HandleName) (key : List ℕ) (k : ℕ)
    → k < length ns
    → strcmp (name_at ns k) key ≡ Ordering.eq
    → ((i : ℕ) → i < k → strcmp (name_at ns i) key ≢ Ordering.eq)
    → lookup ns key ≡ (get_or ns k no_name).handle
unfolding lookup
lookup-present [] key k lt e ne = absurd (omega arith)
lookup-present (n ∷ ns) key zero lt e ne = rw (e, lookup)
lookup-present (n ∷ ns) key (suc k) lt e ne = ground (
  arith,
  ne 0 (omega arith),
  lookup-present ns key k (omega arith) e (λ i h. ne (suc i) (omega arith)),
)

-- The handle that an answer stands for.
abbrev pub answer : Found → ℕ
answer (hit h) = h
answer (miss i) = 0

Answers-lookup :
    (ns : List HandleName) (key : List ℕ) (r : Found)
    → IsSorted ns
    → Answers ns key r
    → answer r ≡ lookup ns key
Answers-lookup ns key (hit h) sorted (k, lt, e, q) =
    q ∙ sym (lookup-present ns key k lt e (λ i below at. earlier i below at))
  where
    earlier : (i : ℕ) → i < k → strcmp (name_at ns i) key ≡ Ordering.eq → ⊥
    earlier i below at =
        let same : name_at ns i ≡ name_at ns k =
          strcmp_eq (name_at ns i) key at ∙ sym (strcmp_eq (name_at ns k) key e) in
        cc (sorted i k below lt, ap (λ a. strcmp a (name_at ns k)) same, strcmp_refl (name_at ns k))
Answers-lookup ns key (miss k) sorted (room, lo, hi) = sym (lookup-missing ns key other)
  where
    other : (i : ℕ) → i < length ns → strcmp (name_at ns i) key ≢ Ordering.eq
    other i lt e = elim (dec_lt i k) [ yes h ↦ cc (lo i h) | no n ↦ cc (hi i (omega arith) lt) ]

search :
    (ns : List HandleName) (key : List ℕ)
    → IsSorted ns
    → (r : Found) × (search_names (suc (length ns)) ns key 0 (length ns) ≡ some r)
      × Answers ns key r
search ns key sorted =
    search_names-Answers ns key sorted (suc (length ns)) 0 (length ns) (omega arith) (omega arith)
      (omega arith) (λ i h. absurd (omega arith)) (λ i h q. absurd (omega arith))

-- On sorted names, `skynet_handle_findname` ends, and gives the handle of the name, or 0 if it is
-- not entered.
pub find_name-lookup :
    (s : Storage) (key : List ℕ)
    → IsSorted s.names
    → find_name (suc (length s.names)) s key ≡ some (lookup s.names key)
unfolding find_name
find_name-lookup s key sorted =
    let (r, found, ok) = search s.names key sorted in
    rw found (go r ∙ ap some (Answers-lookup s.names key r sorted ok))
  where
    go : (r : Found) → (some r >>= elim [ hit h ↦ some h | miss i ↦ some 0 ]) ≡ some (answer r)
    go (hit h) = refl
    go (miss i) = refl

length-insert_at :
    (ns : List HandleName) (k : ℕ) (n : HandleName) → length (insert_at ns k n) ≡ suc (length ns)
unfolding insert_at
length-insert_at ns zero n = refl
length-insert_at [] (suc k) n = refl
length-insert_at (m ∷ ns) (suc k) n = ap suc (length-insert_at ns k n)

-- The entries of the array after the insertion: those below, the new one, and those above.
below_new :
    (ns : List HandleName) (k i : ℕ) (n : HandleName)
    → k ≤ length ns
    → i < k
    → get_or (insert_at ns k n) i no_name ≡ get_or ns i no_name
unfolding insert_at
below_new ns zero i n h lt = absurd (omega arith)
below_new [] (suc k) i n h lt = absurd (omega arith)
below_new (m ∷ ns) (suc k) zero n h lt = refl
below_new (m ∷ ns) (suc k) (suc i) n h lt = below_new ns k i n (omega arith) (omega arith)

at_new :
    (ns : List HandleName) (k : ℕ) (n : HandleName)
    → k ≤ length ns
    → get_or (insert_at ns k n) k no_name ≡ n
unfolding insert_at
at_new ns zero n h = refl
at_new [] (suc k) n h = absurd (omega arith)
at_new (m ∷ ns) (suc k) n h = at_new ns k n (omega arith)

above_new :
    (ns : List HandleName) (k i : ℕ) (n : HandleName)
    → k ≤ length ns
    → k ≤ i
    → get_or (insert_at ns k n) (suc i) no_name ≡ get_or ns i no_name
unfolding insert_at
above_new ns zero i n h le = refl
above_new [] (suc k) i n h le = absurd (omega arith)
above_new (m ∷ ns) (suc k) zero n h le = absurd (omega arith)
above_new (m ∷ ns) (suc k) (suc i) n h le = above_new ns k i n (omega arith) (omega arith)

-- The name at each index after the insertion at `k`.
data Place (ns : List HandleName) (k : ℕ) (n : HandleName) (i : ℕ) : Type 0 where
  low : i < k → name_at (insert_at ns k n) i ≡ name_at ns i → Place ns k n i
  here : i ≡ k → name_at (insert_at ns k n) i ≡ n.name → Place ns k n i
  high : (h : ℕ) → i ≡ suc h → k ≤ h → name_at (insert_at ns k n) i ≡ name_at ns h → Place ns k n i

where_placed :
    (ns : List HandleName) (k : ℕ) (n : HandleName) (i : ℕ) → k ≤ length ns → Place ns k n i
where_placed ns k n zero room = elim (dec_lt 0 k) [
  | yes lt ↦ low lt (ap (λ m. m.name) (below_new ns k 0 n room lt))
  | no ge ↦
      let e : 0 ≡ k = omega arith in
      here e (ap (λ x. name_at (insert_at ns k n) x) e ∙ ap (λ m. m.name) (at_new ns k n room))
]
where_placed ns k n (suc i) room = elim (dec_lt (suc i) k) [
  | yes lt ↦ low lt (ap (λ m. m.name) (below_new ns k (suc i) n room lt))
  | no ge ↦ elim (ℕ_discrete (suc i) k) [
    | yes e ↦
        here e (ap (λ x. name_at (insert_at ns k n) x) e ∙ ap (λ m. m.name) (at_new ns k n room))
    | no ne ↦ high i refl (omega arith) (ap (λ m. m.name) (above_new ns k i n room (omega arith)))
  ]
]

-- Inserting a name where the search says keeps the names sorted.
insert_at-IsSorted :
    (ns : List HandleName) (k : ℕ) (n : HandleName)
    → IsSorted ns
    → Answers ns n.name (miss k)
    → IsSorted (insert_at ns k n)
insert_at-IsSorted ns k n sorted (room, lo, hi) i j lt below =
    go (where_placed ns k n i room) (where_placed ns k n j room)
  where
    last : j < suc (length ns)
    last = omega (arith, length-insert_at ns k n)

    go :
        Place ns k n i
        → Place ns k n j
        → strcmp (name_at (insert_at ns k n) i) (name_at (insert_at ns k n) j) ≡ Ordering.lt
    go (low a p) (low b q) = rw (p, q) (sorted i j lt (omega arith))
    go (low a p) (here b q) = rw (p, q) (lo i a)
    go (low a p) (high h b c q) = rw (p, q) (sorted i h (omega arith) (omega (arith, last)))
    go (here a p) (low b q) = absurd (omega arith)
    go (here a p) (here b q) = absurd (omega arith)
    go (here a p) (high h b c q) =
        rw (p, q) (strcmp_flip (name_at ns h) n.name (hi h c (omega (arith, last))))
    go (high g a d p) (low b q) = absurd (omega arith)
    go (high g a d p) (here b q) = absurd (omega arith)
    go (high g a d p) (high h b c q) = rw (p, q) (sorted g h (omega arith) (omega (arith, last)))

-- The insertion enters the name in the dictionary, and changes no other name.
lookup-insert_at :
    (ns : List HandleName) (k : ℕ) (n : HandleName) (key : List ℕ)
    → ((i : ℕ) → i < k → strcmp (name_at ns i) n.name ≡ Ordering.lt)
    → k ≤ length ns
    → lookup (insert_at ns k n) key
      ≡ (elim (strcmp n.name key) [ Ordering.eq ↦ n.handle | _ ↦ lookup ns key ])
unfolding lookup insert_at
lookup-insert_at ns zero n key lo room = refl
lookup-insert_at [] (suc k) n key lo room = absurd (omega arith)
lookup-insert_at (m ∷ ns) (suc k) n key lo room = elim (strcmp_cases m.name key) [
  | inl e ↦ ground (arith, e, differ e)
  | inr (inl e) ↦
      ground (arith, e, lookup-insert_at ns k n key (λ i h. lo (suc i) (omega arith)) (omega arith))
  | inr (inr e) ↦
      ground (arith, e, lookup-insert_at ns k n key (λ i h. lo (suc i) (omega arith)) (omega arith))
]
  where
    differ : strcmp m.name key ≡ Ordering.eq → strcmp n.name key ≢ Ordering.eq
    differ e q =
        let same : m.name ≡ n.name = strcmp_eq m.name key e ∙ sym (strcmp_eq n.name key q) in
        cc (lo 0 (omega arith), same, strcmp_refl n.name)

-- A name that the search does not find stands nowhere.
absent :
    (ns : List HandleName) (key : List ℕ) (k : ℕ)
    → IsSorted ns
    → Answers ns key (miss k)
    → (i : ℕ) → i < length ns
    → name_at ns i ≢ key
absent ns key k sorted (room, lo, hi) i lt e = elim (dec_lt i k) [
  | yes p ↦ cc (lo i p, ap (λ n. strcmp n key) e, strcmp_refl key)
  | no p ↦ cc (hi i (omega arith) lt, ap (λ n. strcmp n key) e, strcmp_refl key)
]

-- What entering a name may come to: it was there, and nothing changes, or it was not there, and the
-- dictionary has it and all other names as before.
abbrev pub Entered : Storage → ℕ → List ℕ → Storage → Bool → Type 0
Entered s handle key s' added =
    ((added ≡ false) × (s' ≡ s) × (i : ℕ) × (i < length s.names) × (name_at s.names i ≡ key))
    ⊎ ((added ≡ true)
        × ((i : ℕ) → i < length s.names → name_at s.names i ≢ key)
        × ((x : List ℕ)
            → lookup s'.names x
              ≡ (elim (strcmp key x) [ Ordering.eq ↦ handle | _ ↦ lookup s.names x ])))

insert_name_before_lem :
    (s : Storage) (key : List ℕ) (handle k : ℕ)
    → s.name_cap * 2 ≤ max_slot_size
    → (c : ℕ) × (insert_name_before s key handle k
        ≡ some (record s {
          names = insert_at s.names k (record { name = key; handle = handle });
          name_cap = c;
        }))
unfolding insert_name_before
insert_name_before_lem s key handle k room =
    (if leb s.name_cap (length s.names) then s.name_cap * 2 else s.name_cap, ground arith)

enter :
    (s : Storage) (handle : ℕ) (key : List ℕ) (r : Found)
    → IsSorted s.names
    → s.name_cap * 2 ≤ max_slot_size
    → search_names (suc (length s.names)) s.names key 0 (length s.names) ≡ some r
    → Answers s.names key r
    → (s' : Storage) × (added : Bool) × (name_handle (suc (length s.names)) s handle key
        ≡ some (s', added))
      × IsSorted s'.names
      × Entered s handle key s' added
unfolding name_handle
enter s handle key (hit h) sorted room found (i, lt, e, q) =
    (s, false, rw found, sorted, inl (refl, refl, i, lt, strcmp_eq (name_at s.names i) key e))
enter s handle key (miss k) sorted room found ok =
    let entry : HandleName = record { name = key; handle = handle } in
    let (c, done) = insert_name_before_lem s key handle k room in
    (
      record s { names = insert_at s.names k entry; name_cap = c },
      true,
      rw (found, done),
      insert_at-IsSorted s.names k entry sorted ok,
      inr (refl, absent s.names key k sorted ok, λ x. lookup-insert_at s.names k entry x ok.1 ok.0),
    )

-- `skynet_handle_namehandle` on sorted names, with room for one more: it ends and the names stay
-- sorted. A name that is entered already changes nothing; any other is entered with the handle, and
-- every other name keeps its handle.
pub name_handle_lem :
    (s : Storage) (handle : ℕ) (key : List ℕ)
    → IsSorted s.names
    → s.name_cap * 2 ≤ max_slot_size
    → (s' : Storage) × (added : Bool) × (name_handle (suc (length s.names)) s handle key
        ≡ some (s', added))
      × IsSorted s'.names
      × Entered s handle key s' added
name_handle_lem s handle key sorted room =
    let (r, found, ok) = search s.names key sorted in enter s handle key r sorted room found ok
