-- ===== src/Sunnet/Sched/Order.antt =====
-- The messages that were pushed to a service are the ones it handles, in the order of the pushes.
use game_server_development.Prelude.{
  ℕ, zero, suc, ◌≡◌, refl, sym, ap, ◌∙◌, List, [], ◌∷◌, ◌++◌, Bool, true, false, ltb, ◌==◌,
  if◌then◌else◌, Option, none, some, length, get_or, set, arith, append-nil, append_assoc,
  Bool-cases, Option-cases, List-cases, ==_iff, inl, inr,
}
use game_server_development.Sunnet.Sched.{
  Service, Server, Worker, Action, popping, found_none, sleeping, processing, putting, creates,
  wakes, kills, flags, works, pushes, assign, push_msg, send_push, check_and_weak_up, has_sender,
  push_global, send_flag, send_wake, worker_pop, process_msg, check_and_put_global, work, new, kill,
  act, run, each_num,
}

-- What a service handled, then what waits in its queue.
abbrev pub traffic : Server → ℕ → List ℕ
traffic v i = v.delivered i ++ (v.service i).msg_queue

-- What an action adds to the queue of a service: a message that is sent to its id.
abbrev pub addressed : Option ℕ → ℕ → ℕ → List ℕ
addressed none i m = []
addressed (some j) i m = if j == i then m ∷ [] else []

abbrev pub given : Server → ℕ → Action → List ℕ
given v i (pushes id m) = addressed (v.services id) i m
given v i creates = []
given v i wakes = []
given v i (kills id) = []
given v i (flags j) = []
given v i (works w) = []

-- The messages sent to a service in a run, in order.
unfoldable pub sent : Server → ℕ → List Action → List ℕ
sent v i [] = []
sent v i (a ∷ rest) = given v i a ++ sent (act v a) i rest

assign_same :
    (f : ℕ → Service) (j i : ℕ) (s : Service)
    → s.msg_queue ≡ (f j).msg_queue
    → (assign f j s i).msg_queue ≡ (f i).msg_queue
assign_same f j i s e = elim (Bool-cases (j == i)) [
  | inl h ↦
      ap (λ b. (if b then s else f i).msg_queue) h
      ∙ e
      ∙ ap (λ k. (f k).msg_queue) ((==_iff j i).0 h)
  | inr h ↦ ap (λ b. (if b then s else f i).msg_queue) h
]

traffic-kill : (v : Server) (i id : ℕ) → traffic (kill v id) i ≡ traffic v i
unfolding kill
traffic-kill v i id = elim (Option-cases (v.services id)) [
  | inl e ↦ rw (e, kill)
  | inr (j, e) ↦
      rw (e, kill, assign_same v.service j i (record (v.service j) { is_exit = true }) refl)
]

traffic-send_push :
    (v : Server) (i id m : ℕ)
    → traffic (send_push v id m) i ≡ traffic v i ++ addressed (v.services id) i m
unfolding send_push push_msg
traffic-send_push v i id m = elim (Option-cases (v.services id)) [
  | inl e ↦ rw (e, send_push, append-nil (traffic v i))
  | inr (j, e) ↦ elim (Bool-cases (j == i)) [
    | inl h ↦
        let p : j ≡ i = (==_iff j i).0 h in
        rw (e, send_push, h, p, append_assoc (v.delivered i) (v.service i).msg_queue (m ∷ []))
    | inr h ↦ rw (e, send_push, h, append-nil (traffic v i))
  ]
]

traffic-check_and_weak_up : (v : Server) (i : ℕ) → traffic (check_and_weak_up v) i ≡ traffic v i
unfolding check_and_weak_up
traffic-check_and_weak_up v i = ground arith

traffic-send_wake : (v : Server) (i : ℕ) → traffic (send_wake v) i ≡ traffic v i
unfolding send_wake
traffic-send_wake v i = woken v.wakers
  where
    woken :
        (n : ℕ)
        → traffic (elim n [ zero ↦ v | suc n ↦ check_and_weak_up (record v { wakers = n }) ]) i
          ≡ traffic v i
    woken zero = refl
    woken (suc n) = traffic-check_and_weak_up (record v { wakers = n }) i

traffic-send_flag : (v : Server) (i j : ℕ) → traffic (send_flag v j) i ≡ traffic v i
unfolding send_flag push_global
traffic-send_flag v i j = elim (Bool-cases (has_sender j v.senders)) [
  | inr h ↦ rw (h, send_flag)
  | inl h ↦ elim (Bool-cases (v.service j).in_global) [
    | inl g ↦ rw (h, g, send_flag)
    | inr g ↦ rw (
      h,
      g,
      send_flag,
      push_global,
      assign_same v.service j i (record (v.service j) { in_global = true }) refl,
    )
  ]
]

traffic-worker_pop : (v : Server) (i w : ℕ) → traffic (worker_pop v w) i ≡ traffic v i
unfolding worker_pop
traffic-worker_pop v i w = popped v.global_queue
  where
    popped :
        (q : List ℕ)
        → traffic
            (elim q [
              | [] ↦ record v { workers = set v.workers w found_none }
              | j ∷ q ↦ record v {
                workers = set v.workers w (processing j (each_num w));
                global_queue = q;
              }
            ])
            i
          ≡ traffic v i
    popped [] = refl
    popped (j ∷ q) = refl

traffic-process_msg : (v : Server) (i w j n : ℕ) → traffic (process_msg v w j n) i ≡ traffic v i
unfolding process_msg
traffic-process_msg v i w j n = elim (List-cases (v.service j).msg_queue) [
  | inl e ↦ rw (e, process_msg)
  | inr (m, ms, e) ↦ elim (Bool-cases (j == i)) [
    | inl h ↦
        let p : j ≡ i = (==_iff j i).0 h in
        rw (e, process_msg, h)
          (append_assoc (v.delivered j) (m ∷ []) ms
            ∙ ap (λ q. v.delivered j ++ q) (sym e)
            ∙ ap (traffic v) p)
    | inr h ↦ rw (e, process_msg, h)
  ]
]

traffic-check_and_put_global :
    (v : Server) (i w j : ℕ) → traffic (check_and_put_global v w j) i ≡ traffic v i
unfolding check_and_put_global
traffic-check_and_put_global v i w j = elim (Bool-cases (v.service j).is_exit) [
  | inl x ↦ rw (x, check_and_put_global)
  | inr x ↦ elim (List-cases (v.service j).msg_queue) [
    | inl e ↦ rw (
      x,
      e,
      check_and_put_global,
      assign_same v.service j i (record (v.service j) { in_global = false }) refl,
    )
    | inr (m, ms, e) ↦ rw (x, e, check_and_put_global)
  ]
]

traffic-work : (v : Server) (i w : ℕ) (x : Worker) → traffic (work v w x) i ≡ traffic v i
unfolding work
traffic-work v i w popping = traffic-worker_pop v i w
traffic-work v i w found_none = refl
traffic-work v i w sleeping = refl
traffic-work v i w (processing j zero) = refl
traffic-work v i w (processing j (suc n)) = traffic-process_msg v i w j n
traffic-work v i w (putting j) = traffic-check_and_put_global v i w j

traffic-act : (v : Server) (i : ℕ) (a : Action) → traffic (act v a) i ≡ traffic v i ++ given v i a
unfolding act new
traffic-act v i creates = sym (append-nil (traffic v i))
traffic-act v i wakes = traffic-send_wake v i ∙ sym (append-nil (traffic v i))
traffic-act v i (kills id) = traffic-kill v i id ∙ sym (append-nil (traffic v i))
traffic-act v i (flags j) = traffic-send_flag v i j ∙ sym (append-nil (traffic v i))
traffic-act v i (pushes id m) = traffic-send_push v i id m
traffic-act v i (works w) =
    works_traffic (ltb w (length v.workers)) ∙ sym (append-nil (traffic v i))
  where
    works_traffic :
        (b : Bool)
        → traffic (if b then work v w (get_or v.workers w sleeping) else v) i ≡ traffic v i
    works_traffic true = traffic-work v i w (get_or v.workers w sleeping)
    works_traffic false = refl

-- In every run, the messages that a service has handled and those in its queue are those it had
-- handled and queued before, followed by the messages sent to it in the run, in the order they were
-- pushed: none is lost, repeated, or overtakes another.
pub traffic-run :
    (v : Server) (i : ℕ) (actions : List Action)
    → traffic (run v actions) i ≡ traffic v i ++ sent v i actions
unfolding run sent
traffic-run v i [] = sym (append-nil (traffic v i))
traffic-run v i (a ∷ rest) =
    traffic-run (act v a) i rest
    ∙ ap (λ t. t ++ sent (act v a) i rest) (traffic-act v i a)
    ∙ append_assoc (traffic v i) (given v i a) (sent (act v a) i rest)
