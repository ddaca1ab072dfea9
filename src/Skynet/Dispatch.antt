-- ===== src/Skynet/Dispatch.antt =====
-- 02_skynet/lib/skynet/skynet-src/skynet_server.c, skynet_start.c and the global queue of
-- skynet_mq.c: how messages reach contexts. Threads run side by side; an action is what one of them
-- does under one lock or in one atomic operation. A context is named by its handle, which is not
-- given again in a run. The ring of a queue is that of Skynet/Mq, here the list of its messages.
pub mod Count
pub mod Sound
pub mod Frame
pub mod References
pub mod Handles
pub mod Queues
pub mod Freeing
pub mod Messages
pub mod Interleaving
mod Tests
use game_server_development.Prelude.{
  ℕ, zero, suc, ◌+◌, ◌-◌, ◌*◌, ◌^◌, ◌/◌, List, [], ◌∷◌, ◌++◌, Bool, true, false, not, ◌||◌, ltb,
  ◌==◌, if◌then◌else◌, Option, none, some, ◌>>=◌, length, get_or, set, replicate, map,
}
use game_server_development.Skynet.Mq.{Message}

-- `struct skynet_context` and its `struct message_queue`: `registered` says that the handle finds the
-- context, `made` that `skynet_mq_create` has set the queue, `alive` that the queue is not freed;
-- `handled` are the messages dispatched. A queue that is not made counts as in the hands of the thread
-- that makes it; it is reached by its handle alone, to push a message, so `mq_push` has the test.
pub record Context : Type 0 where
  pub registered : Bool
  pub ref : ℕ
  pub made : Bool
  pub alive : Bool
  pub in_global : Bool
  pub release : Bool
  pub messages : List Message
  pub handled : List Message

-- Where a thread stands. A worker in `thread_worker`: before `skynet_globalmq_pop`, in the wait,
-- before `skynet_handle_grab` and `skynet_mq_release`, before the first `skynet_mq_pop`, before
-- `skynet_mq_length`, with so many rounds left, after the loop, and before `skynet_globalmq_push`.
-- Then a call of `skynet_context_push` before its push, a thread with a reference to give back, one
-- in `delete_context`, `skynet_context_new` before `skynet_mq_create`, its end, and an error that
-- `drop_message` sends.
pub data Thread : Type 0 where
  popping : Thread
  waiting : Thread
  grabbing : ℕ → Thread
  dropping : ℕ → Thread
  first : ℕ → Thread
  measuring : ℕ → Thread
  looping : ℕ → ℕ → Thread
  swapping : ℕ → Thread
  pushing : ℕ → ℕ → Thread
  delivering : ℕ → Message → Thread
  letting : ℕ → Thread
  deleting : ℕ → Thread
  making : ℕ → Thread
  launching : ℕ → Thread
  starting : ℕ → Thread
  failing : ℕ → Thread
  abandoning : ℕ → Thread
  replying : ℕ → Message → Thread
  done : Thread

-- The process: the next handle to give, the contexts, the global queue and the threads, the
-- workers first.
pub record Node : Type 0 where
  pub total : ℕ
  pub context : ℕ → Context
  pub global_queue : List ℕ
  pub threads : List Thread

abbrev pub assign {ℓ} : {A : Type ℓ} → (ℕ → A) → ℕ → A → ℕ → A
assign f i a j = if i == j then a else f j

abbrev pub no_context : Context
no_context = record {
  registered = false;
  ref = 0;
  made = false;
  alive = false;
  in_global = false;
  release = false;
  messages = [];
  handled = [];
}

-- `skynet_mq_init` and `start`, with `n` workers.
abbrev pub start : ℕ → Node
start n = record {
  total = 1;
  context = λ i. no_context;
  global_queue = [];
  threads = replicate n popping;
}

-- `start`: the weight of worker `w`; none stands for -1.
pub weight : ℕ → Option ℕ
weight w =
    if ltb w 4
    then none
    else if ltb w 8
    then some 0
    else if ltb w 16
    then some 1
    else if ltb w 24
    then some 2
    else if ltb w 32
    then some 3
    else some 0

-- Thread `t` goes on to `x`, and leaves `rest` to do.
abbrev pub go : Node → ℕ → Thread → List Thread → Node
go v t x rest = record v { threads = set v.threads t x ++ rest }

abbrev pub put : Node → ℕ → Context → Node
put v i c = record v { context = assign v.context i c }

pub waits : ℕ → List ℕ → Bool
waits i [] = false
waits i (j ∷ js) = let rest = waits i js in if j == i then true else rest

-- `skynet_globalmq_push`: fails on a freed queue, and by its assertion on one that is linked already.
pub globalmq_push : Node → ℕ → Option Node
globalmq_push v i =
    if (v.context i).alive
    then (if waits i v.global_queue
        then none
        else some (record v { global_queue = v.global_queue ++ i ∷ [] }))
    else none

-- `skynet_handle_grab`
abbrev pub grabbed : Context → Context
grabbed c = record c { ref = suc c.ref }

-- `skynet_context_push` up to the push: nothing for a handle that finds no context.
pub context_push : Node → ℕ → Message → Node
context_push v i m =
    if (v.context i).registered
    then (record (put v i (grabbed (v.context i))) { threads = v.threads ++ delivering i m ∷ [] })
    else v

-- `skynet_handle_retire`, by which the table gives its reference back.
pub retire : Node → ℕ → Node
retire v i =
    if (v.context i).registered
    then (record (put v i (record (v.context i) { registered = false })) {
      threads = v.threads ++ letting i ∷ [];
    })
    else v

-- `skynet_context_release`: fails on a context without references.
pub context_release : Node → ℕ → ℕ → Option Node
context_release v t i = elim (v.context i).ref [
  | zero ↦ none
  | suc n ↦
      let v' : Node = put v i (record (v.context i) { ref = n }) in
      some (if n == 0 then go v' t (deleting i) [] else go v' t done [])
]

-- `delete_context` from `skynet_mq_mark_release` on, which asserts that it is the first.
pub mark_release : Node → ℕ → ℕ → Option Node
unfolding globalmq_push
mark_release v t i =
    let c : Context = v.context i in
    let v' : Node = go (put v i (record c { release = true })) t done [] in
    if c.alive
    then (if c.release then none else if c.in_global then some v' else globalmq_push v' i)
    else none

-- `skynet_mq_push` in thread `t`, which has a reference to give back after it. It fails on a queue that
-- is not made, where the code follows a pointer that is not set.
pub mq_push : Node → ℕ → ℕ → Message → Option Node
unfolding globalmq_push
mq_push v t i m =
    let c : Context = v.context i in
    let c' : Context = record c { messages = c.messages ++ m ∷ []; in_global = true } in
    let v' : Node = go (put v i c') t (letting i) [] in
    let pushed : Option Node =
      if c.alive then (if c.in_global then some v' else globalmq_push v' i) else none in
    if c.made then pushed else none

abbrev pub ptype_error : ℕ
ptype_error = 7

-- `drop_message`: the error that goes to the sender of a dropped message.
abbrev pub drop_message : ℕ → Message → Thread
drop_message i m =
    replying m.source
      (record { source = i; session = m.session; payload = 0; sz = ptype_error * 2 ^ 56 })

-- `skynet_mq_release`, after which the thread goes on to `x`.
pub mq_release : Node → ℕ → ℕ → Thread → Option Node
unfolding globalmq_push
mq_release v t i x =
    let c : Context = v.context i in
    let freed : Context = record c { alive = false; in_global = false; messages = [] } in
    if c.alive
    then (if c.release
        then some (go (put v i freed) t x (map (drop_message i) c.messages))
        else globalmq_push (go v t x []) i)
    else none

-- One round of the loop of `skynet_context_message_dispatch`, after which the thread goes on to `x`:
-- `skynet_mq_pop` and `dispatch_message`. On an empty queue the call ends. A message of a context
-- without a callback, which the code frees, counts as handled.
pub dispatch_round : Node → ℕ → ℕ → Thread → Option Node
dispatch_round v t i x =
    let c : Context = v.context i in
    let left : Node = elim c.messages [
      | [] ↦ go (put v i (record c { in_global = false })) t popping (letting i ∷ [])
      | m ∷ ms ↦ go (put v i (record c { messages = ms; handled = c.handled ++ m ∷ [] })) t x []
    ] in
    if c.alive then some left else none

-- The rounds that are left after the first, from the length then.
pub rounds : Option ℕ → ℕ → ℕ
rounds none len = 0
rounds (some w) len = len / 2 ^ w - 1

-- `skynet_globalmq_pop` at the end of the dispatch, with queue `i` in hand.
pub swap : Node → ℕ → ℕ → Node
swap v t i = elim v.global_queue [
  | [] ↦ go v t (grabbing i) (letting i ∷ [])
  | j ∷ q ↦ record (go v t (pushing i j) []) { global_queue = q }
]

-- `skynet_globalmq_pop` of a worker without a queue.
pub globalmq_pop : Node → ℕ → Node
globalmq_pop v t = elim v.global_queue [
  | [] ↦ go v t waiting []
  | j ∷ q ↦ record (go v t (grabbing j) []) { global_queue = q }
]

-- `skynet_handle_grab` of the dispatch.
pub grab : Node → ℕ → ℕ → Node
grab v t i =
    if (v.context i).registered
    then go (put v i (grabbed (v.context i))) t (first i) []
    else go v t (dropping i) []

-- The end of `skynet_context_new`: the caller's reference goes back, and the queue goes to the global
-- queue, or the handle is retired and the queue released.
pub launched : Node → ℕ → Bool → ℕ → Node
launched v t true i = go v t (starting i) (letting i ∷ [])
launched v t false i = go v t (failing i) (letting i ∷ [])

-- What thread `t` does next; `ok` is what the module's `init` answers.
pub step : Node → ℕ → Bool → Thread → Option Node
unfolding context_release mark_release mq_push mq_release dispatch_round swap globalmq_pop grab
    globalmq_push context_push retire launched
step v t ok popping = some (globalmq_pop v t)
step v t ok waiting = some (go v t popping [])
step v t ok (grabbing i) = some (grab v t i)
step v t ok (dropping i) = mq_release v t i popping
step v t ok (first i) = dispatch_round v t i (measuring i)
step v t ok (measuring i) =
    if (v.context i).alive
    then some (go v t (looping i (rounds (weight t) (length (v.context i).messages))) [])
    else none
step v t ok (looping i zero) = some (go v t (swapping i) [])
step v t ok (looping i (suc n)) = dispatch_round v t i (looping i n)
step v t ok (swapping i) = some (swap v t i)
step v t ok (pushing i j) = globalmq_push (go v t (grabbing j) (letting i ∷ [])) i
step v t ok (delivering i m) = mq_push v t i m
step v t ok (letting i) = context_release v t i
step v t ok (deleting i) = mark_release v t i
step v t ok (making i) =
    some (go (put v i (record (v.context i) { made = true })) t (launching i) [])
step v t ok (launching i) = some (launched v t ok i)
step v t ok (starting i) = globalmq_push (go v t done []) i
step v t ok (failing i) = some (retire (go v t (abandoning i) []) i)
step v t ok (abandoning i) = mq_release v t i done
step v t ok (replying i m) = some (context_push (go v t done []) i m)
step v t ok done = some v

-- `skynet_context_new` up to `skynet_handle_register`: one reference for the table, one for the caller,
-- and a queue to make, which will count as in the global queue.
pub launch : Node → Node
launch v = record v {
  total = suc v.total;
  context =
      assign v.context v.total
        (record no_context { registered = true; ref = 2; alive = true; in_global = true });
  threads = v.threads ++ making v.total ∷ [];
}

pub data Action : Type 0 where
  launches : Action
  sends : ℕ → Message → Action
  retires : ℕ → Action
  steps : ℕ → Bool → Action

pub act : Node → Action → Option Node
unfolding launch context_push retire step
act v launches = some (launch v)
act v (sends i m) = some (context_push v i m)
act v (retires i) = some (retire v i)
act v (steps t ok) =
    if ltb t (length v.threads) then step v t ok (get_or v.threads t done) else some v

pub run : Node → List Action → Option Node
run v [] = some v
run v (a ∷ rest) = act v a >>= λ v'. run v' rest
