-- ===== src/Skynet/Mq/Invariant.antt =====
-- The representation invariant of a service's queue, and the messages that it holds.
use game_server_development.Prelude.{ℕ, ◌+◌, ◌%◌, ◌≤◌, ◌<◌, ◌≡◌, refl, List, [], arith, length}
use game_server_development.Skynet.Mq.{blank, Message, Mq, int_max, create, mq_length, unroll}
use game_server_development.Prelude.Ring.{unroll, mod_wrap, length-unroll}

-- The representation invariant of `struct message_queue`.
pub record IsValid (q : Mq) : Type 0 where
  pub storage : q.cap ≤ length q.queue
  pub small : q.cap ≤ int_max
  pub head_in : q.head < q.cap
  pub tail_in : q.tail < q.cap
  pub marked : 0 < q.overload_threshold

-- The messages that wait, oldest first.
abbrev pub contents : Mq → List Message
contents q = unroll blank q.queue q.cap q.head 0 (mq_length q)

pub length-contents : (q : Mq) → length (contents q) ≡ mq_length q
length-contents q = length-unroll blank q.queue q.cap q.head 0 (mq_length q)

pub length-lt-cap : {q : Mq} → IsValid q → mq_length q < q.cap
unfolding mq_length
length-lt-cap v = ground arith

-- A new queue holds nothing and is valid.
pub create-IsValid :
    (junk : Message) (handle : ℕ)
    → IsValid (create junk handle) × (contents (create junk handle) ≡ [])
unfolding create mq_length unroll
create-IsValid junk handle = (omega arith, refl)

-- The tail is the cell after the messages.
pub tail_lem : {q : Mq} → IsValid q → q.tail ≡ (q.head + mq_length q) % q.cap
unfolding mq_length
tail_lem {q} v = ground (arith, mod_wrap q.head (mq_length q) q.cap)
