-- ===== src/Skynet/Mq.antt =====
-- 02_skynet/lib/skynet/skynet-src/skynet_mq.c: the message queue of one service, a ring that
-- doubles when it is full.
pub mod Invariant
pub mod Push
pub mod Pop
pub mod Client
mod Tests
use game_server_development.Prelude.{
  ℕ, zero, suc, ◌+◌, ◌-◌, ◌*◌, ◌%◌, ◌^◌, List, [], ◌∷◌, ◌++◌, Bool, true, false, not, ltb, leb,
  ◌==◌, if◌then◌else◌, Option, none, some, ◌>>=◌, get_or, set, replicate,
}
use game_server_development.Prelude.Ring.{unroll}

-- `struct skynet_message`; `payload` stands for the pointer, which the queue only moves.
pub record Message : Type 0 where
  pub source : ℕ
  pub session : ℕ
  pub payload : ℕ
  pub sz : ℕ

-- A read that the invariant rules out gives this.
abbrev pub blank : Message
blank = record { source = 0; session = 0; payload = 0; sz = 0 }

-- `DEFAULT_QUEUE_SIZE`, `MQ_OVERLOAD`, and the range of a C `int`.
abbrev pub default_queue_size : ℕ
default_queue_size = 64

abbrev pub mq_overload : ℕ
mq_overload = 1024

abbrev pub int_max : ℕ
int_max = 2 ^ 31 - 1

-- `struct message_queue`, without the lock and the `next` link.
pub record Mq : Type 0 where
  pub handle : ℕ
  pub cap : ℕ
  pub head : ℕ
  pub tail : ℕ
  pub release : Bool
  pub in_global : Bool
  pub overload : ℕ
  pub overload_threshold : ℕ
  pub queue : List Message

-- `skynet_mq_create`; `junk` is what the allocator leaves in a cell.
pub create : Message → ℕ → Mq
create junk handle = record {
  handle = handle;
  cap = default_queue_size;
  head = 0;
  tail = 0;
  release = false;
  in_global = true;
  overload = 0;
  overload_threshold = mq_overload;
  queue = replicate default_queue_size junk;
}

-- `skynet_mq_length`
pub mq_length : Mq → ℕ
mq_length q = if leb q.head q.tail then q.tail - q.head else q.tail + q.cap - q.head

-- `skynet_mq_overload`: the reading resets the mark.
pub take_overload : Mq → ℕ × Mq
take_overload q = if q.overload == 0 then (0, q) else (q.overload, record q { overload = 0 })

-- The loop of `skynet_mq_pop`: `while (length > threshold) { overload = length; threshold *= 2; }`.
-- The first number is fuel.
pub raise_threshold : ℕ → ℕ → ℕ → ℕ → ℕ × ℕ
raise_threshold zero len overload threshold = (overload, threshold)
raise_threshold (suc fuel) len overload threshold =
    let rest = raise_threshold fuel len len (threshold * 2) in
    if ltb threshold len then rest else (overload, threshold)

-- The branch of `skynet_mq_pop` that takes a message, from the queue with `head` moved on.
advance : Mq → Mq
advance q =
    let h : ℕ = if leb q.cap (q.head + 1) then 0 else q.head + 1 in
    let moved : Mq = record q { head = h } in
    let len : ℕ = mq_length moved in
    let (o, t) = raise_threshold len len q.overload q.overload_threshold in
    record q { head = h; overload = o; overload_threshold = t }

-- `skynet_mq_pop`: the message, or none when the queue is empty, which clears `in_global`.
pub pop : Mq → Option Message × Mq
pop q =
    if q.head == q.tail
    then (none, record q { overload_threshold = mq_overload; in_global = false })
    else (some (get_or q.queue q.head blank), advance q)

-- `expand_queue`, whose loop is `unroll`; doubling `cap` past the range of `int` is undefined behaviour.
pub expand : Message → Mq → Option Mq
expand junk q =
    if ltb int_max (q.cap * 2)
    then none
    else some (record q {
      head = 0;
      tail = q.cap;
      cap = q.cap * 2;
      queue = unroll blank q.queue q.cap q.head 0 q.cap ++ replicate q.cap junk;
    })

-- The write of `skynet_mq_push`, before the test for a full ring.
pub write_tail : Mq → Message → Mq
write_tail q m = record q {
  queue = set q.queue q.tail m;
  tail = (if leb q.cap (q.tail + 1) then 0 else q.tail + 1);
}

-- The end of `skynet_mq_push`: a queue that is not in the global queue goes there.
announce : Mq → Mq × Bool
announce q = if q.in_global then (q, false) else (record q { in_global = true }, true)

-- `skynet_mq_push`: the new queue, and whether it is handed to the global queue.
pub push : Message → Mq → Message → Option (Mq × Bool)
push junk q m = do
  let w = write_tail q m
  r ← if w.head == w.tail then expand junk w else some w
  some (announce r)

-- `skynet_mq_mark_release`: fails on a second mark; the Boolean is the push to the global queue.
pub mark_release : Mq → Option (Mq × Bool)
mark_release q = if q.release then none else some (record q { release = true }, not q.in_global)

-- `_drop_queue`: what `drop_func` is called with, in order, until the queue is empty. The number
-- is fuel.
pub drop_queue : ℕ → Mq → Option (List Message)
drop_queue zero q = none
drop_queue (suc fuel) q =
    let (r, q') = pop q in
    elim r [ none ↦ some [] | some m ↦ drop_queue fuel q' >>= λ ms. some (m ∷ ms) ]

-- `skynet_mq_release`: the messages dropped, or none when the queue goes to the global queue again.
pub release_queue : ℕ → Mq → Option (Option (List Message))
release_queue fuel q = if q.release then (drop_queue fuel q >>= λ ms. some (some ms)) else some none

-- What a client may do with one queue.
pub data Op : Type 0 where
  put : Message → Op
  take : Op

-- A client's calls in order, and what each `take` gives.
pub run : Message → Mq → List Op → Option (List (Option Message))
run junk q [] = some []
run junk q (put m ∷ ops) = push junk q m >>= λ r. run junk r.0 ops
run junk q (take ∷ ops) = run junk (pop q).1 ops >>= λ rs. some ((pop q).0 ∷ rs)
