-- ===== src/Skynet/Seri/Values/RoundTrip.antt =====
-- What is packed is unpacked again, tables of tables included.
use game_server_development.Prelude.{
  ℕ, zero, suc, ◌+◌, ◌≤◌, ◌<◌, ◌≡◌, refl, sym, ap, ◌∙◌, subst, List, [], ◌∷◌, ◌++◌, append_assoc,
  true, false, ◌&&◌, if◌then◌else◌, if_true, if_false, Option, some, ◌>>=◌, arith, Bool-cases, inl,
  inr, length, length-append,
}
use game_server_development.Skynet.Seri.Blocks.{concat}
use game_server_development.Skynet.Seri.Scalars.{nil, wb_scalar}
use game_server_development.Skynet.Seri.Scalars.RoundTrip.{
  wb_scalar-Reads, concat-pieces, some_bytes,
}
use game_server_development.Skynet.Seri.Values.{
  Value, scalar, table, other, Values, end, item, Pairs, no_pair, pair, count, is_nil, array_head,
  unpack_array, unpack_hash, unpack_one,
}
use game_server_development.Skynet.Seri.Values.Layout.{
  is_index, layout, layout_array, layout_hash, supported, supported_array, supported_hash, rebuilt,
  rebuilt_array, rebuilt_hash, IsValue, AreValues, ArePairs,
}
use game_server_development.Skynet.Seri.Values.Packing.{and_left, and_right}
use game_server_development.Skynet.Seri.Values.Reading.{
  unpack_one-scalar, unpack_one-nil, unpack_one-head, head_some,
}

abbrev pub bytes_of : List (List ℕ) → ℕ
bytes_of pieces = length (concat pieces)

pub bytes_of-append :
    (xss yss : List (List ℕ)) → bytes_of (xss ++ yss) ≡ bytes_of xss + bytes_of yss
bytes_of-append xss yss =
    ap length (concat-pieces xss yss) ∙ length-append (concat xss) (concat yss)

-- Pieces before pieces before what follows them.
split :
    (xss yss : List (List ℕ)) (rest : List ℕ)
    → concat (xss ++ yss) ++ rest ≡ concat xss ++ (concat yss ++ rest)
split xss yss rest =
    ap (λ t. t ++ rest) (concat-pieces xss yss) ∙ append_assoc (concat xss) (concat yss) rest

-- The pieces of a table, with the nil at their end.
split_table :
    (head array hash : List (List ℕ)) (rest : List ℕ)
    → concat (((head ++ array) ++ hash) ++ wb_scalar nil) ++ rest
      ≡ concat head ++ (concat array ++ (concat hash ++ 0 ∷ rest))
unfolding wb_scalar
split_table head array hash rest =
    split ((head ++ array) ++ hash) (wb_scalar nil) rest
    ∙ split (head ++ array) hash (0 ∷ rest)
    ∙ split head array (concat hash ++ 0 ∷ rest)

bytes_of-table :
    (head array hash : List (List ℕ))
    → bytes_of (((head ++ array) ++ hash) ++ wb_scalar nil)
      ≡ bytes_of head + bytes_of array + bytes_of hash + 1
unfolding wb_scalar
bytes_of-table head array hash = omega (
  arith,
  bytes_of-append ((head ++ array) ++ hash) (wb_scalar nil),
  bytes_of-append (head ++ array) hash,
  bytes_of-append head array,
)

-- Each value has a tag at least.
pub layout_some : (v : Value) → IsValue v → supported v ≡ true → 0 < bytes_of (layout v)
unfolding layout supported
layout_some (scalar v) h s = some_bytes v (concat (wb_scalar v)) (wb_scalar-Reads v h [])
layout_some (table vs ps) h s =
    let n = count vs in
    omega (arith, head_some n, bytes_of-table (array_head n) (layout_array vs) (layout_hash ps n))
layout_some other h s = absurd (cc s)

rebuilt-key : (k : Value) → is_nil k ≡ false → is_nil (rebuilt k) ≡ false
unfolding rebuilt
rebuilt-key (scalar v) e = e
rebuilt-key (table vs ps) e = refl
rebuilt-key other e = refl

-- What the loops make of what they read.
abbrev then_item : Value → Values × List ℕ → Option (Values × List ℕ)
then_item v s = some (item v s.0, s.1)

abbrev then_pair : Value → Value → Pairs × List ℕ → Option (Pairs × List ℕ)
then_pair k v s = some (pair k v s.0, s.1)

abbrev then_key : (List ℕ → Option (Value × List ℕ)) → ℕ → Value × List ℕ → Option (Pairs × List ℕ)
then_key unpack fuel k =
    if is_nil k.0
    then some (no_pair, k.1)
    else (unpack k.1 >>= λ v. unpack_hash unpack fuel v.1 >>= then_pair k.0 v.0)

abbrev then_table : Values → Pairs × List ℕ → Option (Value × List ℕ)
then_table vs h = some (table vs h.0, h.1)

-- With fuel for its bytes a value is read back, whatever stands behind it.
mutual
  unfolding layout supported rebuilt unpack_array unpack_hash

  pub unpack_one-layout :
      (v : Value) (fuel : ℕ) (rest : List ℕ)
      → IsValue v
      → supported v ≡ true
      → bytes_of (layout v) ≤ fuel
      → unpack_one fuel (concat (layout v) ++ rest) ≡ some (rebuilt v, rest)
  unpack_one-layout v zero rest h s enough = absurd (omega (arith, layout_some v h s, enough))
  unpack_one-layout (scalar v) (suc fuel) rest h s enough =
      unpack_one-scalar fuel v (concat (wb_scalar v) ++ rest) rest (wb_scalar-Reads v h rest)
  unpack_one-layout (table vs ps) (suc fuel) rest h s enough =
      let n = count vs in
      let head = array_head n in
      let array = layout_array vs in
      let hash = layout_hash ps n in
      let t = bytes_of-table head array hash in
      let behind = concat hash ++ 0 ∷ rest in
      ap (unpack_one (suc fuel)) (split_table head array hash rest)
      ∙ unpack_one-head fuel n (concat array ++ behind) h.0
      ∙ ap (λ o. o >>= λ a. unpack_hash (unpack_one fuel) fuel a.1 >>= then_table a.0)
          (unpack_array-layout vs fuel behind h.1
            (and_left (supported_array vs) (supported_hash ps n) s)
            (omega (arith, t, enough, head_some n)))
      ∙ ap (λ o. o >>= then_table (rebuilt_array vs))
          (unpack_hash-layout ps n fuel fuel rest h.2
            (and_right (supported_array vs) (supported_hash ps n) s)
            (omega (arith, t, enough, head_some n)) (omega (arith, t, enough, head_some n)))
  unpack_one-layout other (suc fuel) rest h s enough = absurd (cc s)

  unpack_array-layout :
      (vs : Values) (fuel : ℕ) (rest : List ℕ)
      → AreValues vs
      → supported_array vs ≡ true
      → bytes_of (layout_array vs) ≤ fuel
      → unpack_array (unpack_one fuel) (count vs) (concat (layout_array vs) ++ rest)
        ≡ some (rebuilt_array vs, rest)
  unpack_array-layout end fuel rest h s enough = refl
  unpack_array-layout (item v vs) fuel rest h s enough =
      let n = bytes_of-append (layout v) (layout_array vs) in
      let unpack = unpack_one fuel in
      ap (λ b. unpack_array unpack (suc (count vs)) b) (split (layout v) (layout_array vs) rest)
      ∙ ap (λ o. o >>= λ r. unpack_array unpack (count vs) r.1 >>= then_item r.0)
          (unpack_one-layout v fuel (concat (layout_array vs) ++ rest) h.0
            (and_left (supported v) (supported_array vs) s) (omega (arith, n, enough)))
      ∙ ap (λ o. o >>= then_item (rebuilt v))
          (unpack_array-layout vs fuel rest h.1 (and_right (supported v) (supported_array vs) s)
            (omega (arith, n, enough)))

  unpack_hash-layout :
      (ps : Pairs) (n fuel rounds : ℕ) (rest : List ℕ)
      → ArePairs ps
      → supported_hash ps n ≡ true
      → bytes_of (layout_hash ps n) < fuel
      → bytes_of (layout_hash ps n) < rounds
      → unpack_hash (unpack_one fuel) rounds (concat (layout_hash ps n) ++ 0 ∷ rest)
        ≡ some (rebuilt_hash ps n, rest)
  unpack_hash-layout ps n fuel zero rest h s enough more = absurd (omega (arith, more))
  unpack_hash-layout ps n zero (suc rounds) rest h s enough more = absurd (omega (arith, enough))
  unpack_hash-layout no_pair n (suc fuel) (suc rounds) rest h s enough more =
      ap (λ o. o >>= then_key (unpack_one (suc fuel)) rounds) (unpack_one-nil fuel rest)
  unpack_hash-layout (pair k v ps) n (suc fuel) (suc rounds) rest h s enough more =
      let unpack = unpack_one (suc fuel) in
      let ks = layout k in
      let vs = layout v in
      let after = layout_hash ps n in
      elim (Bool-cases (is_index n k)) [
        | inl e ↦
            ap (λ p. unpack_hash unpack (suc rounds) (concat p ++ 0 ∷ rest)) (if_true _ _ e)
            ∙ unpack_hash-layout ps n (suc fuel) (suc rounds) rest h.3 (sym (if_true _ _ e) ∙ s)
                (subst (λ p. bytes_of p < suc fuel) (if_true _ _ e) enough)
                (subst (λ p. bytes_of p < suc rounds) (if_true _ _ e) more)
            ∙ ap (λ q. some (q, rest)) (sym (if_true _ _ e))
        | inr e ↦
            let t : ((supported k && supported v) && supported_hash ps n) ≡ true =
              sym (if_false _ _ e) ∙ s in
            let kv = and_left (supported k && supported v) (supported_hash ps n) t in
            let sk = and_left (supported k) (supported v) kv in
            let d : bytes_of ((ks ++ vs) ++ after) < suc fuel =
              subst (λ p. bytes_of p < suc fuel) (if_false _ _ e) enough in
            let m : bytes_of ((ks ++ vs) ++ after) < suc rounds =
              subst (λ p. bytes_of p < suc rounds) (if_false _ _ e) more in
            let b = bytes_of-append (ks ++ vs) after in
            let c = bytes_of-append ks vs in
            ap (λ p. unpack_hash unpack (suc rounds) (concat p ++ 0 ∷ rest)) (if_false _ _ e)
            ∙ ap (unpack_hash unpack (suc rounds))
                (split (ks ++ vs) after (0 ∷ rest) ∙ split ks vs (concat after ++ 0 ∷ rest))
            ∙ ap (λ o. o >>= then_key unpack rounds)
                (unpack_one-layout k (suc fuel) (concat vs ++ (concat after ++ 0 ∷ rest)) h.1 sk
                  (omega (arith, b, c, d)))
            ∙ if_false _ _ (rebuilt-key k h.0)
            ∙ ap (λ o. o >>= λ r. unpack_hash unpack rounds r.1 >>= then_pair (rebuilt k) r.0)
                (unpack_one-layout v (suc fuel) (concat after ++ 0 ∷ rest) h.2
                  (and_right (supported k) (supported v) kv) (omega (arith, b, c, d)))
            ∙ ap (λ o. o >>= then_pair (rebuilt k) (rebuilt v))
                (unpack_hash-layout ps n (suc fuel) rounds rest h.3
                  (and_right (supported k && supported v) (supported_hash ps n) t)
                  (omega (arith, b, d)) (omega (arith, b, c, m, layout_some k h.1 sk)))
            ∙ ap (λ q. some (q, rest)) (sym (if_false _ _ e))
      ]
