-- ===== src/Skynet/Hashid/Chains.antt =====
-- The chains of the table: each slot in a chain has an id of that chain, and no id is there twice.
use game_server_development.Prelude.{
  ℕ, ◌≡◌, ◌≢◌, refl, sym, ap, ◌∙◌, subst, List, [], ◌∷◌, true, Option, none, some, get_or, set,
  arith, inl, inr, Bool-cases, ==_iff, ==_refl, get_or-set_ne, ℕ_discrete,
}
use game_server_development.Skynet.Hashid.{is_id, find_in, unlink}

-- The ids of the slots, and which chain an id belongs to.
module _ (hash_of : ℕ → ℕ) where
  abbrev pub Linked : List (Option ℕ) → ℕ → List ℕ → Type 0
  Linked ids k [] = Unit
  Linked ids k (c ∷ cs) =
      ((x : ℕ) × (get_or ids c none ≡ some x) × (hash_of x ≡ k) × (find_in ids cs x ≡ none))
      × Linked ids k cs

abbrev pub Avoids : ℕ → List ℕ → Type 0
Avoids c [] = Unit
Avoids c (d ∷ ds) = (c ≢ d) × Avoids c ds

pub is_id_self : (o : Option ℕ) (x : ℕ) → o ≡ some x → is_id o x ≡ true
unfolding is_id
is_id_self o x e = rw e (==_refl x)

pub is_id_eq : (o : Option ℕ) (x : ℕ) → is_id o x ≡ true → o ≡ some x
unfolding is_id
is_id_eq none x e = absurd (cc e)
is_id_eq (some y) x e = ap some ((==_iff y x).0 e)

pub find_in_head :
    (ids : List (Option ℕ)) (c : ℕ) (cs : List ℕ) (x : ℕ)
    → get_or ids c none ≡ some x
    → find_in ids (c ∷ cs) x ≡ some c
unfolding find_in
find_in_head ids c cs x e = rw (is_id_self (get_or ids c none) x e)

pub find_in_tail :
    (ids : List (Option ℕ)) (c : ℕ) (cs : List ℕ) (x y : ℕ)
    → get_or ids c none ≡ some y
    → y ≢ x
    → find_in ids (c ∷ cs) x ≡ find_in ids cs x
unfolding find_in is_id
find_in_tail ids c cs x y e n = rw e (ground arith)

-- What a walk finds has the id.
pub find_in-eq :
    (ids : List (Option ℕ)) (cs : List ℕ) (x c : ℕ)
    → find_in ids cs x ≡ some c
    → get_or ids c none ≡ some x
unfolding find_in
find_in-eq ids [] x c e = absurd (cc e)
find_in-eq ids (d ∷ cs) x c e = elim (Bool-cases (is_id (get_or ids d none) x)) [
  | inl h ↦
      let same : some d ≡ some c = sym (rw h refl) ∙ e in
      let eq : d ≡ c = cc same in
      ap (λ k. get_or ids k none) (sym eq) ∙ is_id_eq (get_or ids d none) x h
  | inr h ↦ find_in-eq ids cs x c (rw h at e)
]

-- A write to a slot that is not in the chain changes nothing for the chain.
pub find_in-set :
    (ids : List (Option ℕ)) (c : ℕ) (v : Option ℕ) (cs : List ℕ) (x : ℕ)
    → Avoids c cs
    → find_in (set ids c v) cs x ≡ find_in ids cs x
unfolding find_in
find_in-set ids c v [] x a = refl
find_in-set ids c v (d ∷ cs) x (n, a) =
    rw (get_or-set_ne ids c d v none n, find_in-set ids c v cs x a) refl

module _ (hash_of : ℕ → ℕ) (ids : List (Option ℕ)) where
  pub Linked-set :
      (k c : ℕ) (v : Option ℕ) (cs : List ℕ)
      → Avoids c cs
      → Linked hash_of ids k cs
      → Linked hash_of (set ids c v) k cs
  Linked-set k c v [] a l = tt
  Linked-set k c v (d ∷ cs) (n, a) ((x, e, h, f), l) = (
    (x, get_or-set_ne ids c d v none n ∙ e, h, find_in-set ids c v cs x a ∙ f),
    Linked-set k c v cs a l,
  )

  -- A free slot is in no chain, and a slot with an id of another chain is not in this one.
  pub free-Avoids :
      (k c : ℕ) (cs : List ℕ) → get_or ids c none ≡ none → Linked hash_of ids k cs → Avoids c cs
  free-Avoids k c [] e l = tt
  free-Avoids k c (d ∷ cs) e ((x, q, h, f), l) =
      ((λ p. absurd (cc (e, q, ap (λ j. get_or ids j none) p))), free-Avoids k c cs e l)

  pub other-Avoids :
      (k c y : ℕ) (cs : List ℕ)
      → get_or ids c none ≡ some y
      → hash_of y ≢ k
      → Linked hash_of ids k cs
      → Avoids c cs
  other-Avoids k c y [] e n l = tt
  other-Avoids k c y (d ∷ cs) e n ((x, q, h, f), l) = (
    (λ p.
        let s : some y ≡ some x = sym e ∙ ap (λ j. get_or ids j none) p ∙ q in
        let eq : y ≡ x = cc s in n (ap hash_of eq ∙ h)),
    other-Avoids k c y cs e n l,
  )

  pub missing-Avoids :
      (k c y : ℕ) (cs : List ℕ)
      → get_or ids c none ≡ some y
      → find_in ids cs y ≡ none
      → Linked hash_of ids k cs
      → Avoids c cs
  unfolding find_in
  missing-Avoids k c y [] e n l = tt
  missing-Avoids k c y (d ∷ cs) e n ((x, q, h, f), l) =
      elim (Bool-cases (is_id (get_or ids d none) y)) [
        | inl t ↦ absurd (cc (find_in_head ids d cs y (is_id_eq (get_or ids d none) y t), n))
        | inr t ↦ (
          (λ p.
              absurd (
                cc
                  (t, is_id_self (get_or ids d none) y (ap (λ j. get_or ids j none) (sym p) ∙ e)))),
          missing-Avoids k c y cs e (rw t at n) l,
        )
      ]

  -- Unlinking the slot of an id, which becomes free: the chain is linked, has the id no more, and finds
  -- every other id as before.
  pub unlink_lem :
      (k id c : ℕ) (cs : List ℕ)
      → Linked hash_of ids k cs
      → find_in ids cs id ≡ some c
      → Linked hash_of (set ids c none) k (unlink ids cs id)
        × (find_in (set ids c none) (unlink ids cs id) id ≡ none)
        × ((x : ℕ) → x ≢ id → find_in (set ids c none) (unlink ids cs id) x ≡ find_in ids cs x)
  unfolding unlink find_in
  unlink_lem k id c [] l e = absurd (cc e)
  unlink_lem k id c (d ∷ cs) ((y, q, h, f), l) e =
      elim (Bool-cases (is_id (get_or ids d none) id)) [
        | inl t ↦
            let same : some d ≡ some c =
              sym (find_in_head ids d cs id (is_id_eq (get_or ids d none) id t)) ∙ e in
            let eq : d ≡ c = cc same in
            let mine : some y ≡ some id = sym q ∙ is_id_eq (get_or ids d none) id t in
            let yi : y ≡ id = cc mine in
            let av : Avoids c cs = subst (λ j. Avoids j cs) eq (missing-Avoids k d y cs q f l) in
            rw t (
              Linked-set k c none cs av l,
              find_in-set ids c none cs id av ∙ ap (find_in ids cs) (sym yi) ∙ f,
              λ x n.
                  find_in-set ids c none cs x av
                  ∙ sym (find_in_tail ids d cs x y q (λ p. n (sym p ∙ yi))),
            )
        | inr t ↦
            let (l', gone, others) = unlink_lem k id c cs l (rw t at e) in
            let holds : get_or ids c none ≡ some id = find_in-eq ids cs id c (rw t at e) in
            let apart : c ≢ d = λ p. absurd (
              cc (
                t,
                is_id_self (get_or ids d none) id (ap (λ j. get_or ids j none) (sym p) ∙ holds),
              )) in
            let yn : y ≢ id =
              λ p. absurd (cc (t, is_id_self (get_or ids d none) id (q ∙ ap some p))) in
            let q' : get_or (set ids c none) d none ≡ some y =
              get_or-set_ne ids c d none none apart ∙ q in
            rw t (
              ((y, q', h, others y yn ∙ f), l'),
              find_in_tail (set ids c none) d (unlink ids cs id) id y q' yn ∙ gone,
              λ x n. elim (ℕ_discrete y x) [
                | yes p ↦
                    find_in_head (set ids c none) d (unlink ids cs id) x (q' ∙ ap some p)
                    ∙ sym (find_in_head ids d cs x (q ∙ ap some p))
                | no p ↦
                    find_in_tail (set ids c none) d (unlink ids cs id) x y q' p
                    ∙ others x n
                    ∙ sym (find_in_tail ids d cs x y q p)
              ],
            )
      ]
