-- ===== src/Skynet/Seri/Values/Packing.antt =====
-- When a value can be packed, and that its pieces are then its layout.
use game_server_development.Prelude.{
  ℕ, suc, ◌+◌, ◌≤◌, ◌≡◌, refl, sym, ap, ◌∙◌, subst, List, ◌++◌, Bool, true, false, ◌&&◌, ltb,
  if_true, if_false, Option, some, ◌>>=◌, arith, Bool-cases, inl, inr,
}
use game_server_development.Skynet.Seri.Scalars.{nil, wb_scalar}
use game_server_development.Skynet.Seri.Values.{
  Value, scalar, table, other, Values, end, item, Pairs, no_pair, pair, count, is_array_key,
  max_depth, array_head, pack_one, pack_array, pack_hash,
}
use game_server_development.Skynet.Seri.Values.Layout.{
  is_index, is_array_key_lem, deeper, layout, layout_array, layout_hash, nesting, nesting_array,
  nesting_hash, supported, supported_array, supported_hash,
}

pub and_left : (a b : Bool) → (a && b) ≡ true → a ≡ true
and_left true b e = refl
and_left false b e = e

pub and_right : (a b : Bool) → (a && b) ≡ true → b ≡ true
and_right true b e = e
and_right false b e = absurd (cc e)

-- The steps of `pack_one` for a table, one element and one pair, where what they call gives pieces.
abbrev pub with_table : ℕ → Option (List (List ℕ)) → Option (List (List ℕ)) → Option (List (List ℕ))
with_table n array hash =
    array >>= λ a. hash >>= λ h. some (array_head n ++ a ++ h ++ wb_scalar nil)

abbrev pub both : Option (List (List ℕ)) → Option (List (List ℕ)) → Option (List (List ℕ))
both o p = o >>= λ a. p >>= λ b. some (a ++ b)

abbrev pub all_three :
    Option (List (List ℕ))
    → Option (List (List ℕ))
    → Option (List (List ℕ))
    → Option (List (List ℕ))
all_three o p q = o >>= λ a. p >>= λ b. q >>= λ c. some (a ++ b ++ c)

-- A value that is supported and not too deep is packed as its layout.
mutual
  unfolding pack_one layout nesting supported

  pub pack_one-layout :
      (v : Value) (depth : ℕ)
      → supported v ≡ true
      → depth + nesting v ≤ max_depth
      → pack_one v depth ≡ some (layout v)
  pack_one-layout (scalar v) depth s h = if_false {b = ltb max_depth depth} _ _ (ground (arith, h))
  pack_one-layout (table vs ps) depth s h =
      let a = supported_array vs in
      let b = supported_hash ps (count vs) in
      if_false {b = ltb max_depth depth} _ _ (ground (arith, h))
      ∙ ap (λ o. with_table (count vs) o (pack_hash ps (count vs) (depth + 1)))
          (pack_array-layout vs (depth + 1) (and_left a b s) (ground (arith, h)))
      ∙ ap (with_table (count vs) (some (layout_array vs)))
          (pack_hash-layout ps (count vs) (depth + 1) (and_right a b s) (ground (arith, h)))
  pack_one-layout other depth s h = absurd (cc s)

  pub pack_array-layout :
      (vs : Values) (depth : ℕ)
      → supported_array vs ≡ true
      → depth + nesting_array vs ≤ suc max_depth
      → pack_array vs depth ≡ some (layout_array vs)
  pack_array-layout end depth s h = refl
  pack_array-layout (item v vs) depth s h =
      let a = supported v in
      let b = supported_array vs in
      ap (λ o. both o (pack_array vs depth))
        (pack_one-layout v depth (and_left a b s) (ground (arith, h)))
      ∙ ap (both (some (layout v)))
          (pack_array-layout vs depth (and_right a b s) (ground (arith, h)))

  pack_hash-layout :
      (ps : Pairs) (n depth : ℕ)
      → supported_hash ps n ≡ true
      → depth + nesting_hash ps n ≤ suc max_depth
      → pack_hash ps n depth ≡ some (layout_hash ps n)
  pack_hash-layout no_pair n depth s h = refl
  pack_hash-layout (pair k v ps) n depth s h = elim (Bool-cases (is_index n k)) [
    | inl e ↦
        if_true {b = is_array_key n k} _ _ (is_array_key_lem n k ∙ e)
        ∙ pack_hash-layout ps n depth (sym (if_true _ _ e) ∙ s)
            (subst (λ m. depth + m ≤ suc max_depth) (if_true _ _ e) h)
        ∙ ap some (sym (if_true _ _ e))
    | inr e ↦
        let t : ((supported k && supported v) && supported_hash ps n) ≡ true =
          sym (if_false _ _ e) ∙ s in
        let d : depth + deeper (deeper (suc (nesting k)) (suc (nesting v))) (nesting_hash ps n)
            ≤ suc max_depth =
          subst (λ m. depth + m ≤ suc max_depth) (if_false _ _ e) h in
        let kv = and_left (supported k && supported v) (supported_hash ps n) t in
        if_false {b = is_array_key n k} _ _ (is_array_key_lem n k ∙ e)
        ∙ ap (λ o. all_three o (pack_one v depth) (pack_hash ps n depth))
            (pack_one-layout k depth (and_left (supported k) (supported v) kv) (ground (arith, d)))
        ∙ ap (λ o. all_three (some (layout k)) o (pack_hash ps n depth))
            (pack_one-layout v depth (and_right (supported k) (supported v) kv) (ground (arith, d)))
        ∙ ap (all_three (some (layout k)) (some (layout v))) (
            pack_hash-layout ps n depth
              (and_right (supported k && supported v) (supported_hash ps n) t) (ground (arith, d)))
        ∙ ap some (sym (if_false _ _ e))
  ]
