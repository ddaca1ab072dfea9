-- ===== src/Skynet/Handle/Names.antt =====
-- The sorted names of skynet_handle.c: the binary search, and what it finds after an insertion.
use game_server_development.Prelude.{
  ℕ, zero, suc, ◌+◌, ◌-◌, ◌/◌, ◌≤◌, ◌<◌, ◌≡◌, refl, List, ltb, some, length, get_or, arith, ◌⊎◌,
  inl, inr, Bool-cases, dec_lt,
}
use Prim.Native.Nat.{Ordering}
use game_server_development.Skynet.Handle.{
  HandleName, Found, hit, miss, no_name, strcmp, search_names,
}
use game_server_development.Skynet.Handle.Compare.{strcmp_flip, strcmp_flip_lt, strcmp_trans}

abbrev pub name_at : List HandleName → ℕ → List ℕ
name_at ns i = (get_or ns i no_name).name

-- Each name comes before the later ones.
abbrev pub IsSorted : List HandleName → Type 0
IsSorted ns = (i j : ℕ) → i < j → j < length ns → strcmp (name_at ns i) (name_at ns j) ≡ Ordering.lt

-- What a search is right to answer.
abbrev pub Answers : List HandleName → List ℕ → Found → Type 0
Answers ns key (hit h) =
    (i : ℕ) × (i < length ns)
    × (strcmp (name_at ns i) key ≡ Ordering.eq)
    × (h ≡ (get_or ns i no_name).handle)
Answers ns key (miss k) =
    (k ≤ length ns)
    × ((i : ℕ) → i < k → strcmp (name_at ns i) key ≡ Ordering.lt)
    × ((i : ℕ) → k ≤ i → i < length ns → strcmp (name_at ns i) key ≡ Ordering.gt)

pub strcmp_cases :
    (a b : List ℕ)
    → (strcmp a b ≡ Ordering.eq) ⊎ (strcmp a b ≡ Ordering.lt) ⊎ (strcmp a b ≡ Ordering.gt)
strcmp_cases a b = go (strcmp a b) refl
  where
    go :
        (o : Ordering)
        → strcmp a b ≡ o
        → (strcmp a b ≡ Ordering.eq) ⊎ (strcmp a b ≡ Ordering.lt) ⊎ (strcmp a b ≡ Ordering.gt)
    go Ordering.eq e = inl e
    go Ordering.lt e = inr (inl e)
    go Ordering.gt e = inr (inr e)

module _ (ns : List HandleName) (key : List ℕ) (sorted : IsSorted ns) where
  -- A name up to one that comes before the key comes before it, and a name from one after it on
  -- comes after it.
  before :
      (i m : ℕ)
      → i ≤ m
      → m < length ns
      → strcmp (name_at ns m) key ≡ Ordering.lt
      → strcmp (name_at ns i) key ≡ Ordering.lt
  before i m le lt e = elim (dec_lt i m) [
    | yes h ↦ strcmp_trans (name_at ns i) (name_at ns m) key (sorted i m h lt) e
    | no n ↦ let same : i ≡ m = omega arith in rw same e
  ]

  after :
      (i m : ℕ)
      → m ≤ i
      → i < length ns
      → strcmp (name_at ns m) key ≡ Ordering.gt
      → strcmp (name_at ns i) key ≡ Ordering.gt
  after i m le lt e = elim (dec_lt m i) [
    | yes h ↦ strcmp_flip_lt key (name_at ns i) (
        strcmp_trans key (name_at ns m) (name_at ns i) (strcmp_flip (name_at ns m) key e)
          (sorted m i h lt))
    | no n ↦ let same : i ≡ m = omega arith in rw same e
  ]

  -- The binary search of sorted names ends with the right answer, within as many rounds as there
  -- are names, and one to see the range empty.
  pub search_names-Answers :
      (fuel begin stop : ℕ)
      → stop < begin + fuel
      → begin ≤ stop
      → stop ≤ length ns
      → ((i : ℕ) → i < begin → strcmp (name_at ns i) key ≡ Ordering.lt)
      → ((i : ℕ) → stop ≤ i → i < length ns → strcmp (name_at ns i) key ≡ Ordering.gt)
      → (r : Found) × (search_names fuel ns key begin stop ≡ some r) × Answers ns key r
  unfolding search_names
  search_names-Answers zero begin stop enough le room lo hi = absurd (omega arith)
  search_names-Answers (suc fuel) begin stop enough le room lo hi =
      elim (Bool-cases (ltb begin stop)) [
        | inr done ↦ (miss begin, rw done, (omega arith, lo, λ i p q. hi i (ground arith) q))
        | inl more ↦ elim (strcmp_cases (name_at ns mid) key) [
          | inl e ↦ (hit (get_or ns mid no_name).handle, rw (more, e), (mid, ground arith, e, refl))
          | inr (inl e) ↦
              let (r, found, ok) =
                search_names-Answers fuel (mid + 1) stop (ground arith) (ground arith) room
                  (λ i h. before i mid (omega arith) (ground arith) e) hi in
              (r, rw (more, e) found, ok)
          | inr (inr e) ↦
              let (r, found, ok) =
                search_names-Answers fuel begin mid (ground arith) (ground arith) (ground arith) lo
                  (λ i h q. after i mid h q e) in
              (r, rw (more, e) found, ok)
        ]
      ]
    where
      mid : ℕ
      mid = (begin + (stop - 1)) / 2
