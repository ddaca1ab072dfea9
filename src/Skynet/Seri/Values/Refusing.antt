-- ===== src/Skynet/Seri/Values/Refusing.antt =====
-- What cannot be packed is refused as a whole.
use game_server_development.Prelude.{
  ℕ, suc, ◌+◌, ◌≤◌, ◌<◌, ◌≡◌, refl, sym, ap, ◌∙◌, subst, List, Bool, true, false, ◌&&◌, leb, ltb,
  if◌then◌else◌, if_true, if_false, Option, none, some, arith, Bool-cases, inl, inr, ◌⊎◌,
}
use game_server_development.Skynet.Seri.Values.{
  Value, scalar, table, other, Values, end, item, Pairs, no_pair, pair, count, is_array_key,
  max_depth, pack_one, pack_array, pack_hash, pack_from,
}
use game_server_development.Skynet.Seri.Values.Layout.{
  is_index, is_array_key_lem, deeper, layout_array, nesting, nesting_array, nesting_hash, supported,
  supported_array, supported_hash,
}
use game_server_development.Skynet.Seri.Values.Packing.{
  and_left, and_right, with_table, both, all_three, pack_array-layout,
}

and_false : (a b : Bool) → (a && b) ≡ false → (a ≡ false) ⊎ (b ≡ false)
and_false true b e = inr e
and_false false b e = inl refl

deeper_above : (m d a b : ℕ) → m < d + deeper a b → (m < d + a) ⊎ (m < d + b)
deeper_above m d a b h = elim (Bool-cases (ltb m (d + a))) [
  | inl e ↦ inl (ground (arith, e))
  | inr e ↦ inr (ground (arith, e, h))
]

both-none : (o : Option (List (List ℕ))) → both o none ≡ none
both-none none = refl
both-none (some a) = refl

with_table-none : (n : ℕ) (o : Option (List (List ℕ))) → with_table n o none ≡ none
with_table-none n none = refl
with_table-none n (some a) = refl

all_three-none : (o p : Option (List (List ℕ))) → all_three o p none ≡ none
all_three-none none p = refl
all_three-none (some a) none = refl
all_three-none (some a) (some b) = refl

all_three-second : (o q : Option (List (List ℕ))) → all_three o none q ≡ none
all_three-second none q = refl
all_three-second (some a) q = refl

-- A value without a serial form in it, or one that is too deep where it stands.
abbrev Refused : Bool → ℕ → ℕ → ℕ → Type 0
Refused ok depth nests limit = (ok ≡ false) ⊎ (limit < depth + nests)

-- One of two parts is refused if the whole is.
parts :
    (a b : Bool) (depth m n limit : ℕ)
    → Refused (a && b) depth (deeper m n) limit
    → Refused a depth m limit ⊎ Refused b depth n limit
parts a b depth m n limit (inl e) = elim (and_false a b e) [
  | inl p ↦ inl (inl p)
  | inr q ↦ inr (inl q)
]
parts a b depth m n limit (inr h) = elim (deeper_above limit depth m n h) [
  | inl p ↦ inl (inr p)
  | inr q ↦ inr (inr q)
]

-- The depth of an element counts the table around it.
inside :
    (ok : Bool) (depth n : ℕ)
    → Refused ok depth (suc n) (suc max_depth)
    → Refused ok depth n max_depth
inside ok depth n (inl e) = inl e
inside ok depth n (inr h) = inr (omega (arith, h))

deeper_table :
    (ok : Bool) (depth n : ℕ)
    → ltb max_depth depth ≡ false
    → Refused ok depth n max_depth
    → Refused ok (depth + 1) n (suc max_depth)
deeper_table ok depth n e (inl p) = inl p
deeper_table ok depth n e (inr h) = inr (omega (arith, h))

mutual
  unfolding pack_one nesting supported

  pack_one-none :
      (v : Value) (depth : ℕ)
      → Refused (supported v) depth (nesting v) max_depth
      → pack_one v depth ≡ none
  pack_one-none (scalar v) depth (inl e) = absurd (cc e)
  pack_one-none (scalar v) depth (inr h) = if_true {b = ltb max_depth depth} _ _ (ground (arith, h))
  pack_one-none (table vs ps) depth r = elim (Bool-cases (ltb max_depth depth)) [
    | inl deep ↦ if_true _ _ deep
    | inr e ↦
        let n = count vs in
        if_false _ _ e
        ∙ (elim (parts (supported_array vs) (supported_hash ps n) (depth + 1) (nesting_array vs)
            (nesting_hash ps n) (suc max_depth)
            (deeper_table (supported_array vs && supported_hash ps n) depth
              (deeper (nesting_array vs) (nesting_hash ps n)) e r)) [
                | inl p ↦
                    ap (λ o. with_table n o (pack_hash ps n (depth + 1)))
                      (pack_array-none vs (depth + 1) p (ground (arith, e)))
                | inr q ↦
                    ap (with_table n (pack_array vs (depth + 1)))
                      (pack_hash-none ps n (depth + 1) q (ground (arith, e)))
                    ∙ with_table-none n (pack_array vs (depth + 1))
              ])
  ]
  pack_one-none other depth r = refl

  pack_array-none :
      (vs : Values) (depth : ℕ)
      → Refused (supported_array vs) depth (nesting_array vs) (suc max_depth)
      → depth ≤ suc max_depth
      → pack_array vs depth ≡ none
  pack_array-none end depth (inl e) le = absurd (cc e)
  pack_array-none end depth (inr h) le = absurd (omega (arith, h, le))
  pack_array-none (item v vs) depth r le =
      elim (parts (supported v) (supported_array vs) depth (suc (nesting v)) (nesting_array vs)
        (suc max_depth) r) [
          | inl p ↦
              ap (λ o. both o (pack_array vs depth))
                (pack_one-none v depth (inside (supported v) depth (nesting v) p))
          | inr q ↦
              ap (both (pack_one v depth)) (pack_array-none vs depth q le)
              ∙ both-none (pack_one v depth)
        ]

  pack_hash-none :
      (ps : Pairs) (n depth : ℕ)
      → Refused (supported_hash ps n) depth (nesting_hash ps n) (suc max_depth)
      → depth ≤ suc max_depth
      → pack_hash ps n depth ≡ none
  pack_hash-none no_pair n depth (inl e) le = absurd (cc e)
  pack_hash-none no_pair n depth (inr h) le = absurd (omega (arith, h, le))
  pack_hash-none (pair k v ps) n depth r le = elim (Bool-cases (is_index n k)) [
    | inl e ↦
        if_true {b = is_array_key n k} _ _ (is_array_key_lem n k ∙ e)
        ∙ pack_hash-none ps n depth
            (subst (λ t. Refused t depth (nesting_hash ps n) (suc max_depth)) (if_true _ _ e)
              (subst (λ m. Refused (supported_hash (pair k v ps) n) depth m (suc max_depth))
                (if_true _ _ e) r))
            le
    | inr e ↦
        let kv = supported k && supported v in
        let deep = deeper (suc (nesting k)) (suc (nesting v)) in
        let t =
          subst (λ t. Refused t depth (deeper deep (nesting_hash ps n)) (suc max_depth))
            (if_false _ _ e)
            (subst (λ m. Refused (supported_hash (pair k v ps) n) depth m (suc max_depth))
              (if_false _ _ e) r) in
        if_false {b = is_array_key n k} _ _ (is_array_key_lem n k ∙ e)
        ∙ (elim (parts kv (supported_hash ps n) depth deep (nesting_hash ps n) (suc max_depth) t) [
          | inr q ↦
              ap (all_three (pack_one k depth) (pack_one v depth)) (pack_hash-none ps n depth q le)
              ∙ all_three-none (pack_one k depth) (pack_one v depth)
          | inl p ↦
              elim (parts (supported k) (supported v) depth (suc (nesting k)) (suc (nesting v))
                (suc max_depth) p) [
                  | inl a ↦
                      ap (λ o. all_three o (pack_one v depth) (pack_hash ps n depth))
                        (pack_one-none k depth (inside (supported k) depth (nesting k) a))
                  | inr b ↦
                      ap (λ o. all_three (pack_one k depth) o (pack_hash ps n depth))
                        (pack_one-none v depth (inside (supported v) depth (nesting v) b))
                      ∙ all_three-second (pack_one k depth) (pack_hash ps n depth)
                ]
        ])
  ]

pack_from-array : (vs : Values) → pack_from vs ≡ pack_array vs 0
unfolding pack_from pack_one
pack_from-array end = refl
pack_from-array (item v vs) = ap (both (pack_one v 0)) (pack_from-array vs)

-- Values are packed exactly if each value in them has a serial form and no value stands in more than 32
-- tables, and then their pieces are their layout.
pub pack_from_lem :
    (vs : Values)
    → pack_from vs ≡ (
        if supported_array vs && leb (nesting_array vs) (suc max_depth)
        then some (layout_array vs)
        else none)
pack_from_lem vs =
    let s = supported_array vs in
    let d = leb (nesting_array vs) (suc max_depth) in
    pack_from-array vs ∙ (elim (Bool-cases (s && d)) [
      | inl e ↦
          let shallow = and_right s d e in
          pack_array-layout vs 0 (and_left s d e) (ground (arith, shallow)) ∙ sym (if_true _ _ e)
      | inr e ↦
          (elim (and_false s d e) [
            | inl p ↦ pack_array-none vs 0 (inl p) (omega arith)
            | inr q ↦ pack_array-none vs 0 (inr (ground (arith, q))) (omega arith)
          ])
          ∙ sym (if_false _ _ e)
    ])
