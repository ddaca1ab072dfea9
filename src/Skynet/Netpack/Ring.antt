-- ===== src/Skynet/Netpack/Ring.antt =====
-- The ring of whole packets as a list.
use game_server_development.Prelude.{
  ℕ, suc, ◌+◌, ◌-◌, ◌%◌, ◌≤◌, ◌<◌, ◌≡◌, refl, sym, ap, ap₂, ◌∙◌, subst, List, [], ◌∷◌, ◌++◌, true,
  false, leb, ◌==◌, if◌then◌else◌, if_true, if_false, length, set, get_or, replicate, arith,
  Bool-cases, inl, inr, Option, none, some, length-set, length-append, length-replicate,
}
use game_server_development.Prelude.Ring.{
  unroll, mod_wrap, length-unroll, unroll-set, unroll-append, unroll-advance,
}
use game_server_development.Skynet.Netpack.{
  Netpack, blank, Queue, queue_size, expand_queue, push_data, lpop,
}

pub record IsRing (q : Queue) : Type 0 where
  pub storage : q.cap ≤ length q.ring
  pub head_in : q.head < q.cap
  pub tail_in : q.tail < q.cap

-- How many packets wait, and the packets, oldest first.
abbrev pub count : Queue → ℕ
count q = if leb q.head q.tail then q.tail - q.head else q.tail + q.cap - q.head

abbrev pub contents : Queue → List Netpack
contents q = unroll blank q.ring q.cap q.head 0 (count q)

-- The queue with the packet in its cell, before the test for a full ring.
abbrev stored : Queue → Netpack → Queue
stored q p = record q {
  ring = set q.ring q.tail p;
  tail = (if leb q.cap (q.tail + 1) then q.tail + 1 - q.cap else q.tail + 1);
}

pub count-lt : (q : Queue) → IsRing q → count q < q.cap
count-lt q v = ground (arith, v.head_in, v.tail_in)

stored-window :
    (q : Queue) (p : Netpack)
    → IsRing q
    → unroll blank (set q.ring q.tail p) q.cap q.head 0 (suc (count q)) ≡ contents q ++ p ∷ []
stored-window q p v =
    let e : q.tail ≡ (q.head + count q) % q.cap =
      ground (arith, v.head_in, v.tail_in, mod_wrap q.head (count q) q.cap) in
    ap (λ t. unroll blank (set q.ring t p) q.cap q.head 0 (suc (count q))) e
    ∙ unroll-set blank q.ring q.cap q.head (count q) p v.storage v.head_in (count-lt q v)

-- The ring of `r` is that of `q` with `p` at its end.
abbrev pub Pushed : Queue → Netpack → Queue → Type 0
Pushed q p r = IsRing r × (contents r ≡ contents q ++ p ∷ []) × (r.hash ≡ q.hash)

stored-Pushed :
    (q : Queue) (p : Netpack)
    → IsRing q
    → ((stored q p).head == (stored q p).tail) ≡ false
    → Pushed q p (stored q p)
stored-Pushed q p v e =
    let n : count (stored q p) ≡ suc (count q) = ground (arith, v.head_in, v.tail_in, e) in
    (
      record {
        storage = omega (arith, length-set q.ring q.tail p, v.storage);
        head_in = v.head_in;
        tail_in = ground (arith, v.tail_in);
      },
      ap (unroll blank (set q.ring q.tail p) q.cap q.head 0) n ∙ stored-window q p v,
      refl,
    )

expanded-Pushed :
    (q : Queue) (p : Netpack)
    → IsRing q
    → ((stored q p).head == (stored q p).tail) ≡ true
    → Pushed q p (expand_queue (stored q p))
unfolding expand_queue
expanded-Pushed q p v e =
    let xs = unroll blank (set q.ring q.tail p) q.cap q.head 0 q.cap in
    let len = length-unroll blank (set q.ring q.tail p) q.cap q.head 0 q.cap in
    let n : suc (count q) ≡ q.cap = ground (arith, v.head_in, v.tail_in, e) in
    let m : (if leb 0 q.cap then q.cap - 0 else q.cap + (q.cap + queue_size) - 0) ≡ length xs =
      ground (arith, len) in
    (
      record {
        storage = omega (
          arith,
          length-append xs (replicate queue_size blank),
          len,
          length-replicate queue_size blank,
        );
        head_in = omega (arith, v.head_in);
        tail_in = omega (arith, v.head_in);
      },
      ap (unroll blank (xs ++ replicate queue_size blank) (q.cap + queue_size) 0 0) m
          ∙ unroll-append blank xs (replicate queue_size blank) (q.cap + queue_size)
              (omega (arith, len))
          ∙ ap (unroll blank (set q.ring q.tail p) q.cap q.head 0) (sym n)
          ∙ stored-window q p v,
      refl,
    )

-- `push_data` adds the packet at the end, whether or not the ring has to grow, and leaves the table of
-- unfinished packets as it is.
pub push_data-Pushed : (q : Queue) (p : Netpack) → IsRing q → Pushed q p (push_data q p)
unfolding push_data
push_data-Pushed q p v = elim (Bool-cases ((stored q p).head == (stored q p).tail)) [
  | inl full ↦ subst (Pushed q p) (sym (if_true _ _ full)) (expanded-Pushed q p v full)
  | inr roomy ↦ subst (Pushed q p) (sym (if_false _ _ roomy)) (stored-Pushed q p v roomy)
]

-- The result of taking the oldest packet, or nothing if there is none.
abbrev pub Took : Queue → Option Netpack → Queue → Type 0
Took q none r = (contents q ≡ []) × (contents r ≡ [])
Took q (some p) r = contents q ≡ p ∷ contents r

abbrev pub Popped : Queue → Option Netpack × Queue → Type 0
Popped q r = IsRing r.1 × (r.1.hash ≡ q.hash) × Took q r.0 r.1

abbrev moved : Queue → Queue
moved q = record q { head = (if leb q.cap (q.head + 1) then 0 else q.head + 1) }

-- `lpop` takes the oldest packet, or gives nothing if there is none.
pub lpop-Popped : (q : Queue) → IsRing q → Popped q (lpop q)
unfolding lpop
lpop-Popped q v = elim (Bool-cases (q.head == q.tail)) [
  | inl e ↦
      let z : count q ≡ 0 = ground (arith, e) in
      let c : contents q ≡ [] =
        ap (unroll blank q.ring q.cap q.head 0) z ∙ (unfold unroll in refl) in
      subst (Popped q) (sym (if_true _ _ e)) (v, refl, (c, c))
  | inr e ↦
      let n : count q ≡ suc (count (moved q)) = ground (arith, v.head_in, v.tail_in, e) in
      let near : 0 + count (moved q) < q.cap = omega (arith, n, count-lt q v) in
      subst (Popped q) (sym (if_false _ _ e)) (
        record { storage = v.storage; head_in = ground (arith, v.head_in); tail_in = v.tail_in },
        refl,
        ap (unroll blank q.ring q.cap q.head 0) n
            ∙ unfold unroll in
              ap₂ ◌∷◌
                (ap (λ i. get_or q.ring i blank)
                  (ground (arith, v.head_in, mod_wrap q.head 0 q.cap)))
                (unroll-advance blank q.ring q.cap q.head 0 (count (moved q)) v.head_in near),
      )
]
