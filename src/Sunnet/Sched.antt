-- ===== src/Sunnet/Sched.antt =====
-- 07_embed_lua/src/Sunnet.cpp, Service.cpp and Worker.cpp: how messages reach services. Senders and
-- workers run side by side; an action is what one of them does under one lock. A service is the
-- number of its object here, which its id finds in `services`.
pub mod Count
pub mod Owner
pub mod Workers
pub mod Senders
pub mod Interleaving
pub mod Order
pub mod Runs
mod Tests
use game_server_development.Prelude.{
  ℕ, zero, suc, ◌+◌, ◌-◌, ◌*◌, ◌%◌, ◌^◌, List, [], ◌∷◌, ◌++◌, Bool, true, false, ◌||◌, ltb, leb,
  ◌==◌, if◌then◌else◌, Option, none, some, length, get_or, set, replicate,
}

-- `Service`: a message is a number here, since the queues only move it.
pub record Service : Type 0 where
  pub is_exit : Bool
  pub msg_queue : List ℕ
  pub in_global : Bool

-- Where a worker stands in `Worker::operator()`: before the pop of the global queue, between an
-- empty pop and the wait, in the wait, in `ProcessMsgs` with so many rounds left, and before
-- `CheckAndPutGlobal`.
pub data Worker : Type 0 where
  popping : Worker
  found_none : Worker
  sleeping : Worker
  processing : ℕ → ℕ → Worker
  putting : ℕ → Worker

-- `Sunnet`, with the number of service objects made so far, the senders that stand in `Send` between
-- `PushMsg` and the test of `in_global`, the number of those before `CheckAndWeakUp`, and the messages
-- that `OnMsg` has been called with.
pub record Server : Type 0 where
  pub max_id : ℕ
  pub services : ℕ → Option ℕ
  pub created : ℕ
  pub service : ℕ → Service
  pub global_queue : List ℕ
  pub workers : List Worker
  pub senders : List ℕ
  pub wakers : ℕ
  pub delivered : ℕ → List ℕ

abbrev pub assign {ℓ} : {A : Type ℓ} → (ℕ → A) → ℕ → A → ℕ → A
assign f i a j = if i == j then a else f j

abbrev pub new_service : Service
new_service = record { is_exit = false; msg_queue = []; in_global = false }

-- A server with `n` workers and no service.
abbrev pub start : ℕ → Server
start n = record {
  max_id = 0;
  services = λ i. none;
  created = 0;
  service = λ i. new_service;
  global_queue = [];
  workers = replicate n popping;
  senders = [];
  wakers = 0;
  delivered = λ i. [];
}

-- `StartWorker`: `each_num = 2 << i`.
pub each_num : ℕ → ℕ
each_num i = 2 * 2 ^ i

-- `Service::PushMsg`
pub push_msg : Service → ℕ → Service
push_msg s m = record s { msg_queue = s.msg_queue ++ m ∷ [] }

-- `Service::PopMsg`: the message, if there is one, and the queue without it.
pub pop_msg : List ℕ → Option ℕ × List ℕ
pop_msg [] = (none, [])
pop_msg (m ∷ ms) = (some m, ms)

-- The first half of `Sunnet::Send`: nothing for a service that is not there.
pub send_push : Server → ℕ → ℕ → Server
send_push v to m = elim (v.services to) [
  | none ↦ v
  | some i ↦ record v {
    service = assign v.service i (push_msg (v.service i) m);
    senders = i ∷ v.senders;
  }
]

-- How many workers sleep: `worker_sleep_count`.
pub sleep_count : List Worker → ℕ
sleep_count [] = 0
sleep_count (sleeping ∷ ws) = suc (sleep_count ws)
sleep_count (popping ∷ ws) = sleep_count ws
sleep_count (found_none ∷ ws) = sleep_count ws
sleep_count (processing i n ∷ ws) = sleep_count ws
sleep_count (putting i ∷ ws) = sleep_count ws

-- `notify_one`, which wakes a worker if one sleeps; here the first.
pub wake_one : List Worker → List Worker
wake_one [] = []
wake_one (sleeping ∷ ws) = popping ∷ ws
wake_one (popping ∷ ws) = popping ∷ wake_one ws
wake_one (found_none ∷ ws) = found_none ∷ wake_one ws
wake_one (processing i n ∷ ws) = processing i n ∷ wake_one ws
wake_one (putting i ∷ ws) = putting i ∷ wake_one ws

-- `Sunnet::CheckAndWeakUp`
pub check_and_weak_up : Server → Server
check_and_weak_up v =
    if sleep_count v.workers == 0
    then v
    else if leb (length v.workers - sleep_count v.workers) (length v.global_queue)
    then record v { workers = wake_one v.workers }
    else v

-- One sender less.
pub drop_sender : ℕ → List ℕ → List ℕ
drop_sender i [] = []
drop_sender i (j ∷ js) = let rest = drop_sender i js in if i == j then js else j ∷ rest

pub has_sender : ℕ → List ℕ → Bool
has_sender i [] = false
has_sender i (j ∷ js) = let rest = has_sender i js in if i == j then true else rest

-- `PushGlobalQueue` and the flag.
pub push_global : Server → ℕ → Server
push_global v i = record v {
  service = assign v.service i (record (v.service i) { in_global = true });
  global_queue = v.global_queue ++ i ∷ [];
}

-- The test of `in_global` in `Sunnet::Send`, by one of the senders to service `i`.
pub send_flag : Server → ℕ → Server
unfolding push_global
send_flag v i =
    let v' : Server = record v { senders = drop_sender i v.senders } in
    if has_sender i v.senders
    then (if (v.service i).in_global
        then v'
        else push_global (record v' { wakers = suc v.wakers }) i)
    else v

-- The end of `Sunnet::Send`, in a sender that pushed the service.
pub send_wake : Server → Server
unfolding check_and_weak_up
send_wake v = elim v.wakers [ zero ↦ v | suc n ↦ check_and_weak_up (record v { wakers = n }) ]

-- `PopGlobalQueue` in worker `w`.
pub worker_pop : Server → ℕ → Server
worker_pop v w = elim v.global_queue [
  | [] ↦ record v { workers = set v.workers w found_none }
  | i ∷ q ↦ record v { workers = set v.workers w (processing i (each_num w)); global_queue = q }
]

-- One round of `Service::ProcessMsgs`, with `n` left after it: `ProcessMsg` takes a message and calls
-- `OnMsg`; without one the loop breaks.
pub process_msg : Server → ℕ → ℕ → ℕ → Server
process_msg v w i n = elim (v.service i).msg_queue [
  | [] ↦ record v { workers = set v.workers w (putting i) }
  | m ∷ ms ↦ record v {
    service = assign v.service i (record (v.service i) { msg_queue = ms });
    workers = set v.workers w (processing i n);
    delivered = assign v.delivered i (v.delivered i ++ m ∷ []);
  }
]

-- `Worker::CheckAndPutGlobal`
pub check_and_put_global : Server → ℕ → ℕ → Server
check_and_put_global v w i =
    let v' : Server = record v { workers = set v.workers w popping } in
    if (v.service i).is_exit then v' else elim (v.service i).msg_queue [
      | [] ↦ record v' { service = assign v.service i (record (v.service i) { in_global = false }) }
      | m ∷ ms ↦ record v' { global_queue = v.global_queue ++ i ∷ [] }
    ]

-- What worker `w` does next. A sleeping worker does nothing until it is woken.
pub work : Server → ℕ → Worker → Server
unfolding worker_pop process_msg check_and_put_global
work v w popping = worker_pop v w
work v w found_none = record v { workers = set v.workers w sleeping }
work v w sleeping = v
work v w (processing i zero) = record v { workers = set v.workers w (putting i) }
work v w (processing i (suc n)) = process_msg v w i n
work v w (putting i) = check_and_put_global v w i

-- `Sunnet::NewService`: `emplace` keeps the service that has the id already. `OnInit`, which then runs
-- the service's Lua in the calling thread, where a worker may process the service already, is left out.
pub new : Server → Server
new v = record v {
  max_id = suc v.max_id % 2 ^ 32;
  services = elim (v.services v.max_id) [
    | none ↦ assign v.services v.max_id (some v.created)
    | some i ↦ v.services
  ];
  created = suc v.created;
}

-- `Sunnet::KillService`, where the service's Lua runs `OnExit` in the calling thread and is closed there,
-- which is left out: a worker may be processing the service.
pub kill : Server → ℕ → Server
kill v id = elim (v.services id) [
  | none ↦ v
  | some i ↦ record v {
    services = assign v.services id none;
    service = assign v.service i (record (v.service i) { is_exit = true });
  }
]

pub data Action : Type 0 where
  creates wakes : Action
  kills flags works : ℕ → Action
  pushes : ℕ → ℕ → Action

pub act : Server → Action → Server
unfolding send_push send_flag send_wake work new kill
act v creates = new v
act v (kills id) = kill v id
act v (pushes id m) = send_push v id m
act v (flags i) = send_flag v i
act v wakes = send_wake v
act v (works w) = if ltb w (length v.workers) then work v w (get_or v.workers w sleeping) else v

pub run : Server → List Action → Server
run v [] = v
run v (a ∷ rest) = run (act v a) rest
