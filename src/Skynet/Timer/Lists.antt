-- ===== src/Skynet/Timer/Lists.antt =====
-- Which nodes are in which list after `add_node` and `move_list`.
use game_server_development.Prelude.{
  ◌≡◌, ◌≢◌, refl, sym, ap, subst, ◌∙◌, List, [], ◌∷◌, ◌++◌, true, if◌then◌else◌, ◌⊎◌, inl, inr,
  arith, Bool-cases, ==_iff, ==_refl, ap₂,
}
use game_server_development.Skynet.Timer.{
  TimerNode, Timer, Place, near_at, level_at, same_place, put, place, add_node, add_nodes,
}

-- Membership in a list.
abbrev pub In : {A : Type 0} → A → List A → Type 0
In x [] = ⊥
In x (y ∷ ys) = (x ≡ y) ⊎ In x ys

module _ {A : Type 0} where
  pub In-left : (x : A) (xs ys : List A) → In x xs → In x (xs ++ ys)
  In-left x [] ys i = absurd i
  In-left x (y ∷ xs) ys (inl e) = inl e
  In-left x (y ∷ xs) ys (inr i) = inr (In-left x xs ys i)

  pub In-right : (x : A) (xs ys : List A) → In x ys → In x (xs ++ ys)
  In-right x [] ys i = i
  In-right x (y ∷ xs) ys i = inr (In-right x xs ys i)

  pub In-append : (x : A) (xs ys : List A) → In x (xs ++ ys) → In x xs ⊎ In x ys
  In-append x [] ys i = inr i
  In-append x (y ∷ xs) ys (inl e) = inl (inl e)
  In-append x (y ∷ xs) ys (inr i) = elim (In-append x xs ys i) [
    | inl l ↦ inl (inr l)
    | inr r ↦ inr r
  ]

same_place-eq : (p q : Place) → same_place p q ≡ true → p ≡ q
same_place-eq (near_at i) (near_at j) e = ap near_at ((==_iff i j).0 e)
same_place-eq (near_at i) (level_at k l) e = absurd (cc e)
same_place-eq (level_at i j) (near_at k) e = absurd (cc e)
same_place-eq (level_at i j) (level_at k l) e = ap₂ level_at (ground arith) (ground arith)

same_place_refl : (p : Place) → same_place p p ≡ true
same_place_refl (near_at i) = ==_refl i
same_place_refl (level_at i j) = ground arith

-- A write of one list.
pub put_cases :
    (slot : Place → List TimerNode) (p : Place) (ns : List TimerNode) (q : Place)
    → ((p ≡ q) × (put slot p ns q ≡ ns)) ⊎ ((p ≢ q) × (put slot p ns q ≡ slot q))
put_cases slot p ns q = elim (Bool-cases (same_place p q)) [
  | inl e ↦ inl (same_place-eq p q e, ap (λ b. if b then ns else slot q) e)
  | inr e ↦ inr ((λ h. absurd (cc (e, same_place_refl p, h))), ap (λ b. if b then ns else slot q) e)
]

-- Where a node of the timer is after `add_node`, and where it came from.
pub add_node-keeps :
    (t : Timer) (n m : TimerNode) (q : Place) → In m (t.slot q) → In m ((add_node t n).slot q)
unfolding add_node
add_node-keeps t n m q i =
    elim (put_cases t.slot (place t.time n.expire) (t.slot (place t.time n.expire) ++ n ∷ []) q) [
      | inl (p, e) ↦ subst (In m) (sym e) (
          In-left m (t.slot (place t.time n.expire)) (n ∷ [])
            (subst (λ r. In m (t.slot r)) (sym p) i))
      | inr (p, e) ↦ subst (In m) (sym e) i
    ]

pub add_node-places :
    (t : Timer) (n : TimerNode) → In n ((add_node t n).slot (place t.time n.expire))
unfolding add_node
add_node-places t n =
    elim (put_cases t.slot (place t.time n.expire) (t.slot (place t.time n.expire) ++ n ∷ [])
      (place t.time n.expire)) [
        | inl (p, e) ↦
            subst (In n) (sym e) (In-right n (t.slot (place t.time n.expire)) (n ∷ []) (inl refl))
        | inr (p, e) ↦ absurd (p refl)
      ]

pub add_node-from :
    (t : Timer) (n m : TimerNode) (q : Place)
    → In m ((add_node t n).slot q)
    → In m (t.slot q) ⊎ ((m ≡ n) × (place t.time n.expire ≡ q))
unfolding add_node
add_node-from t n m q i =
    elim (put_cases t.slot (place t.time n.expire) (t.slot (place t.time n.expire) ++ n ∷ []) q) [
      | inl (p, e) ↦
          elim (In-append m (t.slot (place t.time n.expire)) (n ∷ []) (subst (In m) e i)) [
            | inl l ↦ inl (subst (λ r. In m (t.slot r)) p l)
            | inr (inl r) ↦ inr (r, p)
            | inr (inr r) ↦ absurd r
          ]
      | inr (p, e) ↦ inl (subst (In m) e i)
    ]

-- The same for a list of nodes.
pub add_nodes-keeps :
    (t : Timer) (ns : List TimerNode) (m : TimerNode) (q : Place)
    → In m (t.slot q)
    → In m ((add_nodes t ns).slot q)
unfolding add_nodes
add_nodes-keeps t [] m q i = i
add_nodes-keeps t (n ∷ ns) m q i = add_nodes-keeps (add_node t n) ns m q (add_node-keeps t n m q i)

pub add_nodes-places :
    (t : Timer) (ns : List TimerNode) (m : TimerNode)
    → In m ns
    → In m ((add_nodes t ns).slot (place t.time m.expire))
unfolding add_nodes add_node
add_nodes-places t [] m i = absurd i
add_nodes-places t (n ∷ ns) m (inl e) =
    add_nodes-keeps (add_node t n) ns m (place t.time m.expire) (
      subst (λ k. In k ((add_node t n).slot (place t.time k.expire))) (sym e) (add_node-places t n))
add_nodes-places t (n ∷ ns) m (inr i) = add_nodes-places (add_node t n) ns m i

pub add_nodes-from :
    (t : Timer) (ns : List TimerNode) (m : TimerNode) (q : Place)
    → In m ((add_nodes t ns).slot q)
    → In m (t.slot q) ⊎ (In m ns × (place t.time m.expire ≡ q))
unfolding add_nodes add_node
add_nodes-from t [] m q i = inl i
add_nodes-from t (n ∷ ns) m q i = elim (add_nodes-from (add_node t n) ns m q i) [
  | inr (j, e) ↦ inr (inr j, e)
  | inl j ↦ elim (add_node-from t n m q j) [
    | inl k ↦ inl k
    | inr (e, p) ↦ inr (inl e, ap (λ k. place t.time k.expire) e ∙ p)
  ]
]

pub add_nodes-time : (t : Timer) (ns : List TimerNode) → (add_nodes t ns).time ≡ t.time
unfolding add_nodes add_node
add_nodes-time t [] = refl
add_nodes-time t (n ∷ ns) = add_nodes-time (add_node t n) ns
