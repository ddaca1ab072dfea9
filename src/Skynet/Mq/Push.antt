-- ===== src/Skynet/Mq/Push.antt =====
-- `skynet_mq_push` against a first-in first-out list.
use game_server_development.Prelude.{
  suc, ◌+◌, ◌*◌, ◌≤◌, ◌<◌, ◌≡◌, refl, sym, ap, ◌∙◌, inl, inr, List, [], ◌∷◌, ◌++◌, true, false, not,
  arith, length, set, some, ◌==◌, Bool-cases, length-set, length-append, length-replicate,
  replicate,
}
use game_server_development.Skynet.Mq.{
  blank, Message, Mq, int_max, mq_length, expand, announce, write_tail, push,
}
use game_server_development.Prelude.Ring.{unroll, length-unroll, unroll-set, unroll-append}
use game_server_development.Skynet.Mq.Invariant.{IsValid, contents, length-lt-cap, tail_lem}

write_tail-contents :
    {q : Mq} (m : Message)
    → IsValid q
    → unroll blank (write_tail q m).queue q.cap q.head 0 (suc (mq_length q)) ≡ contents q ++ m ∷ []
unfolding write_tail
write_tail-contents {q} m v =
    ap (λ t. unroll blank (set q.queue t m) q.cap q.head 0 (suc (mq_length q))) (tail_lem v)
    ∙ unroll-set blank q.queue q.cap q.head (mq_length q) m v.storage v.head_in (length-lt-cap v)

write_tail-roomy :
    {q : Mq} (m : Message)
    → IsValid q
    → ((write_tail q m).head == (write_tail q m).tail) ≡ false
    → IsValid (write_tail q m) × (mq_length (write_tail q m) ≡ suc (mq_length q))
unfolding write_tail mq_length
write_tail-roomy {q} m v e = (
  record {
    storage = ground (arith, length-set q.queue q.tail m);
    small = v.small;
    head_in = v.head_in;
    tail_in = ground arith;
    marked = v.marked;
  },
  ground arith,
)

write_tail-full :
    {q : Mq} (m : Message)
    → IsValid q
    → ((write_tail q m).head == (write_tail q m).tail) ≡ true
    → suc (mq_length q) ≡ q.cap
unfolding write_tail mq_length
write_tail-full m v e = ground arith

-- The queue after `expand_queue` on a full ring.
abbrev grown : Message → Mq → Mq
grown junk q = record q {
  head = 0;
  tail = q.cap;
  cap = q.cap * 2;
  queue = unroll blank q.queue q.cap q.head 0 q.cap ++ replicate q.cap junk;
}

grown_lem :
    (junk : Message) (q : Mq)
    → 0 < q.cap
    → q.cap * 2 ≤ int_max
    → 0 < q.overload_threshold
    → IsValid (grown junk q) × (contents (grown junk q) ≡ unroll blank q.queue q.cap q.head 0 q.cap)
unfolding mq_length
grown_lem junk q pos small mark = (
  record {
    storage = omega (
      arith,
      length-append (unroll blank q.queue q.cap q.head 0 q.cap) (replicate q.cap junk),
      length-unroll blank q.queue q.cap q.head 0 q.cap,
      length-replicate q.cap junk,
    );
    small = small;
    head_in = omega arith;
    tail_in = omega arith;
    marked = mark;
  },
  ap (λ n. unroll blank (xs ++ replicate q.cap junk) (q.cap * 2) 0 0 n) (ground (arith, len))
      ∙ unroll-append blank xs (replicate q.cap junk) (q.cap * 2) (omega (arith, len)),
)
  where
    xs : List Message
    xs = unroll blank q.queue q.cap q.head 0 q.cap

    len : length xs ≡ q.cap
    len = length-unroll blank q.queue q.cap q.head 0 q.cap

announce_lem :
    (q : Mq)
    → IsValid q
    → (r : Mq) × (announce q ≡ (r, not q.in_global))
      × IsValid r
      × (contents r ≡ contents q)
      × (r.in_global ≡ true)
unfolding announce mq_length
announce_lem q v = (
  record q { in_global = true },
  ground arith,
  record {
    storage = v.storage;
    small = v.small;
    head_in = v.head_in;
    tail_in = v.tail_in;
    marked = v.marked;
  },
  refl,
  refl,
)

-- The queue that a push leaves, before the test of `in_global`.
stored :
    {q : Mq} (junk m : Message)
    → IsValid q
    → (mq_length q + 1) * 2 ≤ int_max
    → (w : Mq) × (push junk q m ≡ some (announce w))
      × (w.in_global ≡ q.in_global)
      × IsValid w
      × (contents w ≡ contents q ++ m ∷ [])
unfolding push expand write_tail
stored {q} junk m v few = elim (Bool-cases ((write_tail q m).head == (write_tail q m).tail)) [
  | inl full ↦
      let len = write_tail-full m v full in
      let (valid, held) =
        grown_lem junk (write_tail q m) (omega (arith, v.head_in)) (omega (arith, len)) v.marked in
      (
        grown junk (write_tail q m),
        rw full (ground (arith, len)),
        refl,
        valid,
        held
            ∙ ap (unroll blank (write_tail q m).queue q.cap q.head 0) (sym len)
            ∙ write_tail-contents m v,
      )
  | inr roomy ↦
      let (valid, len) = write_tail-roomy m v roomy in
      (
        write_tail q m,
        rw roomy,
        refl,
        valid,
        ap (unroll blank (write_tail q m).queue q.cap q.head 0) len ∙ write_tail-contents m v,
      )
]

-- `skynet_mq_push` on a valid queue with fewer than 2^30 - 1 messages succeeds and keeps it valid.
-- It adds the message at the end, whether or not the ring had to grow, and leaves the queue marked
-- as in the global queue, to which it hands it exactly if it was not there.
pub push_lem :
    {q : Mq} (junk m : Message)
    → IsValid q
    → (mq_length q + 1) * 2 ≤ int_max
    → (r : Mq) × (push junk q m ≡ some (r, not q.in_global))
      × IsValid r
      × (contents r ≡ contents q ++ m ∷ [])
      × (r.in_global ≡ true)
push_lem junk m v few =
    let (w, pushed, flag, valid, held) = stored junk m v few in
    let (r, done, valid', same, set) = announce_lem w valid in
    (r, pushed ∙ ap some (done ∙ ap (λ b. (r, not b)) flag), valid', same ∙ held, set)
