-- ===== src/Skynet/Netpack/Chains.antt =====
-- The table of unfinished packets as a map from descriptors.
use game_server_development.Prelude.{
  ℕ, ◌+◌, ◌-◌, ◌≤◌, ◌≡◌, ◌≢◌, refl, sym, ap, ◌∙◌, subst, List, [], ◌∷◌, false, ◌==◌, if◌then◌else◌,
  if_true, if_false, Option, none, some, arith, Bool-cases, inl, inr, ==_iff,
}
use game_server_development.Skynet.Netpack.{
  Uncomplete, Queue, hash_fd, assign, find_in_chain, find_uncomplete, save_uncomplete,
}

-- How often a descriptor stands in a chain.
abbrev pub entries : ℕ → List Uncomplete → ℕ
entries fd [] = 0
entries fd (uc ∷ ucs) = (if uc.id == fd then 1 else 0) + entries fd ucs

-- What waits for a descriptor.
abbrev pub search_in : List Uncomplete → ℕ → Option Uncomplete
search_in [] fd = none
search_in (uc ∷ ucs) fd = if uc.id == fd then some uc else search_in ucs fd

abbrev pub waits : Queue → ℕ → Option Uncomplete
waits q fd = search_in (q.hash (hash_fd fd)) fd

-- At most one entry for each descriptor.
abbrev pub IsTable : Queue → Type 0
IsTable q = (fd : ℕ) → entries fd (q.hash (hash_fd fd)) ≤ 1

-- A property of an updated table at an index.
at_assign :
    (P : List Uncomplete → Type 0) (f : ℕ → List Uncomplete) (i j : ℕ) (ucs : List Uncomplete)
    → (i ≡ j → P ucs)
    → P (f j)
    → P (assign f i ucs j)
at_assign P f i j ucs same different = elim (Bool-cases (i == j)) [
  | inl e ↦ subst P (sym (if_true _ _ e)) (same ((==_iff i j).0 e))
  | inr e ↦ subst P (sym (if_false _ _ e)) different
]

find_in_chain-found : (ucs : List Uncomplete) (fd : ℕ) → (find_in_chain ucs fd).0 ≡ search_in ucs fd
unfolding find_in_chain
find_in_chain-found [] fd = refl
find_in_chain-found (uc ∷ ucs) fd = elim (Bool-cases (uc.id == fd)) [
  | inl e ↦ rw e refl
  | inr e ↦ rw e (find_in_chain-found ucs fd)
]

find_in_chain-entries :
    (ucs : List Uncomplete) (fd : ℕ) → entries fd (find_in_chain ucs fd).1 ≡ entries fd ucs - 1
unfolding find_in_chain
find_in_chain-entries [] fd = refl
find_in_chain-entries (uc ∷ ucs) fd = elim (Bool-cases (uc.id == fd)) [
  | inl e ↦ rw e (omega arith)
  | inr e ↦ rw e (ground (arith, e, find_in_chain-entries ucs fd))
]

find_in_chain-other :
    (ucs : List Uncomplete) (fd other : ℕ)
    → fd ≢ other
    → (search_in (find_in_chain ucs fd).1 other ≡ search_in ucs other)
      × (entries other (find_in_chain ucs fd).1 ≡ entries other ucs)
unfolding find_in_chain
find_in_chain-other [] fd other n = (refl, refl)
find_in_chain-other (uc ∷ ucs) fd other n = elim (Bool-cases (uc.id == fd)) [
  | inl e ↦ let d : (uc.id == other) ≡ false = ground (arith, e, n) in rw (e, d) (refl, omega arith)
  | inr e ↦
      let (s, c) = find_in_chain-other ucs fd other n in
      rw e (ap (λ t. if uc.id == other then some uc else t) s, omega (arith, c))
]

pub none_of : (ucs : List Uncomplete) (fd : ℕ) → entries fd ucs ≡ 0 → search_in ucs fd ≡ none
none_of [] fd e = refl
none_of (uc ∷ ucs) fd e =
    let d : (uc.id == fd) ≡ false = ground (arith, e) in
    if_false _ _ d ∙ none_of ucs fd (ground (arith, e, d))

-- What `find_uncomplete` makes of the table: the entry of `fd` leaves it.
pub find_uncomplete_lem :
    (q : Queue) (fd : ℕ)
    → IsTable q
    → ((find_uncomplete q fd).0 ≡ waits q fd)
      × IsTable (find_uncomplete q fd).1
      × (waits (find_uncomplete q fd).1 fd ≡ none)
      × ((other : ℕ) → fd ≢ other → waits (find_uncomplete q fd).1 other ≡ waits q other)
      × (entries fd ((find_uncomplete q fd).1.hash (hash_fd fd)) ≡ 0)
unfolding find_uncomplete
find_uncomplete_lem q fd t = (
  find_in_chain-found (q.hash (hash_fd fd)) fd,
  λ other. elim (Bool-cases (fd == other)) [
    | inl e ↦
        let p : fd ≡ other = (==_iff fd other).0 e in
        subst (λ o. entries o (assign q.hash (hash_fd fd) left (hash_fd o)) ≤ 1) p
          (omega (arith, gone))
    | inr e ↦
        at_assign (λ ucs. entries other ucs ≤ 1) q.hash (hash_fd fd) (hash_fd other) left
          (λ h. omega (
            arith,
            (find_in_chain-other (q.hash (hash_fd fd)) fd other (ground (arith, e))).1,
            subst (λ k. entries other (q.hash k) ≤ 1) (sym h) (t other),
          ))
          (t other)
  ],
  none_of (assign q.hash (hash_fd fd) left (hash_fd fd)) fd gone,
  λ other n.
      at_assign (λ ucs. search_in ucs other ≡ waits q other) q.hash (hash_fd fd) (hash_fd other)
        left
        (λ h.
          (find_in_chain-other (q.hash (hash_fd fd)) fd other n).0
          ∙ ap (λ k. search_in (q.hash k) other) h)
        refl,
  gone,
)
  where
    left : List Uncomplete
    left = (find_in_chain (q.hash (hash_fd fd)) fd).1

    gone : entries fd (assign q.hash (hash_fd fd) left (hash_fd fd)) ≡ 0
    gone =
        ap (entries fd) (if_true _ _ ((==_iff (hash_fd fd) (hash_fd fd)).1 refl))
        ∙ omega (arith, find_in_chain-entries (q.hash (hash_fd fd)) fd, t fd)

-- What `save_uncomplete` makes of the table: the entry stands for its descriptor, and nothing else
-- changes.
pub save_uncomplete_lem :
    (q : Queue) (uc : Uncomplete)
    → IsTable q
    → entries uc.id (q.hash (hash_fd uc.id)) ≡ 0
    → IsTable (save_uncomplete q uc)
      × (waits (save_uncomplete q uc) uc.id ≡ some uc)
      × ((other : ℕ) → uc.id ≢ other → waits (save_uncomplete q uc) other ≡ waits q other)
unfolding save_uncomplete
save_uncomplete_lem q uc t free = (
  λ other. elim (Bool-cases (uc.id == other)) [
    | inl e ↦
        let p : uc.id ≡ other = (==_iff uc.id other).0 e in
        subst (λ o. entries o (assign q.hash (hash_fd uc.id) longer (hash_fd o)) ≤ 1) p
          (subst (λ ucs. entries uc.id ucs ≤ 1)
            (sym (if_true _ _ ((==_iff (hash_fd uc.id) (hash_fd uc.id)).1 refl)))
            (ground (arith, free)))
    | inr e ↦
        at_assign (λ ucs. entries other ucs ≤ 1) q.hash (hash_fd uc.id) (hash_fd other) longer
          (λ h. ground (arith, e, subst (λ k. entries other (q.hash k) ≤ 1) (sym h) (t other)))
          (t other)
  ],
  ap (λ ucs. search_in ucs uc.id) (if_true _ _ ((==_iff (hash_fd uc.id) (hash_fd uc.id)).1 refl))
      ∙ if_true _ _ ((==_iff uc.id uc.id).1 refl),
  λ other n.
      at_assign (λ ucs. search_in ucs other ≡ waits q other) q.hash (hash_fd uc.id) (hash_fd other)
        longer
        (λ h.
          let d : (uc.id == other) ≡ false = ground (arith, n) in
          if_false _ _ d ∙ ap (λ k. search_in (q.hash k) other) h)
        refl,
)
  where
    longer : List Uncomplete
    longer = uc ∷ q.hash (hash_fd uc.id)

-- The entry that is found is one of the descriptor's.
pub search_in-id :
    (ucs : List Uncomplete) (fd : ℕ) (uc : Uncomplete) → search_in ucs fd ≡ some uc → uc.id ≡ fd
search_in-id [] fd uc e = absurd (cc e)
search_in-id (u ∷ ucs) fd uc e = elim (Bool-cases (u.id == fd)) [
  | inl d ↦
      let h : some u ≡ some uc = sym (if_true _ _ d) ∙ e in
      let k : u ≡ uc = cc h in sym (ap (λ (x : Uncomplete). x.id) k) ∙ (==_iff u.id fd).0 d
  | inr d ↦ search_in-id ucs fd uc (sym (if_false _ _ d) ∙ e)
]
