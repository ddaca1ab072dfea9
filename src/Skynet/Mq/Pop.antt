-- ===== src/Skynet/Mq/Pop.antt =====
-- `skynet_mq_pop` against a first-in first-out list, and its overload marks.
use game_server_development.Prelude.{
  ℕ, zero, suc, ◌+◌, ◌*◌, ◌≤◌, ◌<◌, ◌≡◌, refl, sym, ap, ap₂, ◌∙◌, ◌≢◌, ◌⊎◌, inl, inr, List, [], ◌∷◌,
  true, false, arith, length, get_or, Option, none, some, leb, ltb, ◌==◌, if◌then◌else◌, Bool-cases,
}
use game_server_development.Skynet.Mq.{
  Message, blank, Mq, mq_length, raise_threshold, advance, pop, drop_queue, release_queue,
}
use game_server_development.Prelude.Ring.{unroll, mod_wrap, unroll-advance}
use game_server_development.Skynet.Mq.Invariant.{IsValid, contents, length-contents, length-lt-cap}

-- What the loop of `skynet_mq_pop` may do to the overload mark `o` and the threshold `t`: nothing
-- while the length is within the threshold, and else a mark and a threshold that covers it.
abbrev pub Raises : ℕ → ℕ → ℕ → ℕ → ℕ → Type 0
Raises len o t o' t' =
    ((len ≤ t) × (o' ≡ o) × (t' ≡ t)) ⊎ ((t < len) × (o' ≡ len) × (len ≤ t') × (t' < len * 2))

-- With as much fuel as the length exceeds the threshold, the loop ends by its test.
pub raise_threshold-Raises :
    (fuel len o t : ℕ)
    → 0 < t
    → len < t + fuel
    → Raises len o t (raise_threshold fuel len o t).0 (raise_threshold fuel len o t).1
unfolding raise_threshold
raise_threshold-Raises zero len o t pos h = inl (omega arith, refl, refl)
raise_threshold-Raises (suc fuel) len o t pos h = elim (Bool-cases (ltb t len)) [
  | inl over ↦ rw over (inr (ground (arith, raise_threshold-Raises fuel len len (t * 2))))
  | inr within ↦ rw within (inl (ground arith, refl, refl))
]

-- A first-in first-out list: what a client of the queue may think of.
abbrev pub fifo_pop : List Message → Option Message × List Message
fifo_pop [] = (none, [])
fifo_pop (m ∷ ms) = (some m, ms)

-- The queue with its head moved on, before the overload marks.
abbrev moved : Mq → Mq
moved q = record q { head = (if leb q.cap (q.head + 1) then 0 else q.head + 1) }

length-moved :
    {q : Mq} → IsValid q → (q.head == q.tail) ≡ false → suc (mq_length (moved q)) ≡ mq_length q
unfolding mq_length
length-moved v left = ground arith

advance-Raises :
    {q : Mq}
    → IsValid q
    → Raises
        (mq_length (moved q))
        q.overload
        q.overload_threshold
        (advance q).overload
        (advance q).overload_threshold
unfolding advance
advance-Raises {q} v =
    raise_threshold-Raises (mq_length (moved q)) (mq_length (moved q)) q.overload
      q.overload_threshold v.marked (omega (arith, v.marked))

advance-IsValid : {q : Mq} → IsValid q → (q.head == q.tail) ≡ false → IsValid (advance q)
unfolding advance
advance-IsValid {q} v left = record {
  storage = v.storage;
  small = v.small;
  head_in = ground arith;
  tail_in = v.tail_in;
  marked = omega (arith, advance-Raises v, v.marked);
}

advance-contents :
    {q : Mq}
    → IsValid q
    → (q.head == q.tail) ≡ false
    → contents q ≡ get_or q.queue q.head blank ∷ contents (advance q)
unfolding advance mq_length
advance-contents {q} v left =
    ap (unroll blank q.queue q.cap q.head 0) (sym (length-moved v left))
    ∙ unfold unroll in
      ap₂ ◌∷◌ (ap (λ i. get_or q.queue i blank) (ground (arith, mod_wrap q.head 0 q.cap))) (
        unroll-advance blank q.queue q.cap q.head 0 (mq_length (moved q)) v.head_in
          (omega (arith, length-moved v left, length-lt-cap v)))

-- An empty ring holds no message.
contents-empty : (q : Mq) → (q.head == q.tail) ≡ true → contents q ≡ []
unfolding mq_length unroll
contents-empty q e =
    let none_left : mq_length q ≡ 0 = ground arith in
    ap (unroll blank q.queue q.cap q.head 0) none_left

-- `skynet_mq_pop` on a valid queue takes the oldest message, if there is one, and leaves the others
-- in order.
pub pop_lem : {q : Mq} → IsValid q → ((pop q).0, contents (pop q).1) ≡ fifo_pop (contents q)
unfolding pop mq_length
pop_lem {q} v = elim (Bool-cases (q.head == q.tail)) [
  | inl empty ↦ rw (empty, contents-empty q empty)
  | inr left ↦ rw (left, advance-contents v left)
]

pub pop-IsValid : {q : Mq} → IsValid q → IsValid (pop q).1
unfolding pop
pop-IsValid {q} v = elim (Bool-cases (q.head == q.tail)) [
  | inl empty ↦ rw empty (record {
    storage = v.storage;
    small = v.small;
    head_in = v.head_in;
    tail_in = v.tail_in;
    marked = omega arith;
  })
  | inr left ↦ rw left (advance-IsValid v left)
]

advance-length :
    {q : Mq}
    → IsValid q
    → (q.head == q.tail) ≡ false
    → length (contents (advance q)) ≡ mq_length (moved q)
unfolding advance mq_length
advance-length {q} v left = length-contents (advance q)

-- After a pop from a valid queue that is not empty: while the messages left are within the overload threshold,
-- mark and threshold are unchanged; otherwise the mark is their number, and the threshold covers
-- that number and is less than twice it.
pub pop-Raises :
    {q : Mq}
    → IsValid q
    → mq_length q ≢ 0
    → Raises
        (length (contents (pop q).1))
        q.overload
        q.overload_threshold
        (pop q).1.overload
        (pop q).1.overload_threshold
unfolding pop
pop-Raises {q} v ne = elim (Bool-cases (q.head == q.tail)) [
  | inl empty ↦ absurd (ne (unfold mq_length in ground arith))
  | inr left ↦ rw (left, advance-length v left) (advance-Raises v)
]

pop-empty : (q : Mq) → (q.head == q.tail) ≡ true → (pop q).0 ≡ none
unfolding pop
pop-empty q e = rw e

pop-left :
    (q : Mq) → (q.head == q.tail) ≡ false → pop q ≡ (some (get_or q.queue q.head blank), advance q)
unfolding pop
pop-left q e = rw e

-- `_drop_queue` with more fuel than messages hands each message to `drop_func` once, in order.
pub drop_queue_lem :
    (fuel : ℕ) (q : Mq)
    → IsValid q
    → length (contents q) < fuel
    → drop_queue fuel q ≡ some (contents q)
unfolding drop_queue
drop_queue_lem zero q v h = elim h [ ]
drop_queue_lem (suc fuel) q v h = elim (Bool-cases (q.head == q.tail)) [
  | inl empty ↦ rw (pop-empty q empty, drop_queue, contents-empty q empty)
  | inr left ↦
      let e = advance-contents v left in
      let rest : (pop q).1 ≡ advance q = ap (λ p. p.1) (pop-left q left) in
      let shorter : length (contents (advance q)) < fuel = omega (arith, h, ap length e) in
      rw (
        pop-left q left,
        drop_queue,
        rest,
        e,
        drop_queue_lem fuel (advance q) (advance-IsValid v left) shorter,
      )
]

-- `skynet_mq_release` of a valid queue that is marked drops all of its messages in order, with more
-- fuel than messages; of one that is not marked it drops none, and the queue goes back to the global
-- queue.
pub release_queue_lem :
    (fuel : ℕ) (q : Mq)
    → IsValid q
    → length (contents q) < fuel
    → release_queue fuel q ≡ some (if q.release then some (contents q) else none)
unfolding release_queue
release_queue_lem fuel q v h = elim (Bool-cases q.release) [
  | inl marked ↦ simp (marked, drop_queue_lem fuel q v h)
  | inr unmarked ↦ rw unmarked
]
