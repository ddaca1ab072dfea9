-- ===== src/Sunnet/Sched/Runs.antt =====
-- What every interleaving of senders and workers keeps, and the wake-up that one of them loses.
use game_server_development.Prelude.{
  ℕ, suc, ◌+◌, ◌-◌, ◌≡◌, ◌≢◌, ◌≤◌, ◌<◌, refl, sym, ap, subst, ◌∙◌, List, [], ◌∷◌, ◌++◌, Bool, true,
  false, ltb, leb, ◌==◌, if◌then◌else◌, length, get_or, set, arith, Bool-cases, ℕ_discrete,
  get_or-set_self, inl, inr,
}
use game_server_development.Sunnet.Sched.{
  Server, Action, popping, found_none, sleeping, wakes, flags, works, assign, check_and_weak_up,
  drop_sender, has_sender, push_global, start, send_flag, send_wake, work, act, run, sleep_count,
  wake_one,
}
use game_server_development.Sunnet.Sched.Count.{one, queued, holds, held, holds-le, two-le}
use game_server_development.Sunnet.Sched.Owner.{Owned}
use game_server_development.Sunnet.Sched.Interleaving.{run-IsValid, start-IsValid}

le-one : (b : Bool) (k : ℕ) → k ≤ one b → k ≤ 1
le-one true k h = omega arith
le-one false k h = omega arith

-- In every run of a new server, two workers that hold the same service are the same worker, and a
-- service that a worker holds is not in the global queue: no two workers process the messages of one
-- service at once. `OnInit` and `OnExit`, which run in other threads, are no part of this.
pub run-exclusive :
    (n : ℕ) (actions : List Action) (i w u : ℕ)
    → holds i (get_or (run (start n) actions).workers w sleeping) ≡ 1
    → holds i (get_or (run (start n) actions).workers u sleeping) ≡ 1
    → (w ≡ u) × (queued i (run (start n) actions).global_queue ≡ 0)
run-exclusive n actions i w u hw hu = (
  elim (ℕ_discrete w u) [
    | yes e ↦ e
    | no ne ↦ absurd (omega (arith, hw, hu, bound, two-le i (run (start n) actions).workers w u ne))
  ],
  omega (arith, hw, bound, holds-le i (run (start n) actions).workers w),
)
  where
    bound :
        queued i (run (start n) actions).global_queue + held i (run (start n) actions).workers ≤ 1
    bound =
        le-one ((run (start n) actions).service i).in_global
          (queued i (run (start n) actions).global_queue + held i (run (start n) actions).workers)
          (run-IsValid (start n) actions (start-IsValid n) i).at_most

-- In every run of a new server, a service that has not exited, has a message and no sender that is about
-- to test its flag stands exactly once in the global queue or in a worker's hands: no message is stranded.
pub run-owned :
    (n : ℕ) (actions : List Action) (i : ℕ)
    → ((run (start n) actions).service i).is_exit ≡ false
    → ((run (start n) actions).service i).msg_queue ≢ []
    → has_sender i (run (start n) actions).senders ≡ false
    → queued i (run (start n) actions).global_queue + held i (run (start n) actions).workers ≡ 1
run-owned n actions i x q s =
    owned (run (start n) actions) (run-IsValid (start n) actions (start-IsValid n) i) x q s
  where
    owned :
        (v : Server)
        → Owned (queued i v.global_queue + held i v.workers) (v.service i) (has_sender i v.senders)
        → (v.service i).is_exit ≡ false
        → (v.service i).msg_queue ≢ []
        → has_sender i v.senders ≡ false
        → queued i v.global_queue + held i v.workers ≡ 1
    owned v o x q s = elim (Bool-cases (v.service i).in_global) [
      | inl g ↦ omega (arith, ap one g, o.at_most, o.live x)
      | inr g ↦ absurd (q (o.idle x g s))
    ]

ltb-true : (a b : ℕ) → a < b → ltb a b ≡ true
ltb-true a b h = ground arith

works_sleep :
    (v : Server) (w : ℕ)
    → w < length v.workers
    → get_or v.workers w sleeping ≡ found_none
    → act v (works w) ≡ record v { workers = set v.workers w sleeping }
unfolding act work
works_sleep v w lt e = rw (ltb-true w (length v.workers) lt, e, work, act)

works_still : (v : Server) (w : ℕ) → get_or v.workers w sleeping ≡ sleeping → act v (works w) ≡ v
unfolding act work
works_still v w e = elim (Bool-cases (ltb w (length v.workers))) [
  | inl h ↦ rw (h, e, work, act)
  | inr h ↦ rw (h, act)
]

-- The state after the sender is done.
abbrev sent_to : Server → ℕ → Server
sent_to v i = record v {
  senders = drop_sender i v.senders;
  service = assign v.service i (record (v.service i) { in_global = true });
  global_queue = v.global_queue ++ i ∷ [];
}

flag_wake :
    (v : Server) (i : ℕ)
    → has_sender i v.senders ≡ true
    → (v.service i).in_global ≡ false
    → sleep_count v.workers ≡ 0
    → send_wake (send_flag v i) ≡ sent_to v i
unfolding send_flag send_wake push_global check_and_weak_up
flag_wake v i hs g sc = ap send_wake flagged ∙ asleep (sleep_count v.workers == 0) (==_zero sc)
  where
    flagged :
        send_flag v i
        ≡ push_global (record v { senders = drop_sender i v.senders; wakers = suc v.wakers }) i
    flagged = rw (hs, g, send_flag)

    ==_zero : {k : ℕ} → k ≡ 0 → (k == 0) ≡ true
    ==_zero e = ground arith

    asleep :
        (b : Bool)
        → b ≡ true
        → (if b
            then sent_to v i
            else if leb
                (length v.workers - sleep_count v.workers)
                (length (v.global_queue ++ i ∷ []))
            then record (sent_to v i) { workers = wake_one v.workers }
            else sent_to v i)
          ≡ sent_to v i
    asleep true e = refl
    asleep false e = absurd (cc e)

-- A sender that puts a service in the global queue while no worker sleeps yet wakes nobody, and a
-- worker that had found the queue empty before goes to sleep all the same, with the service in
-- the queue; it does nothing more until it is woken.
pub lost_wakeup :
    (v : Server) (i w : ℕ)
    → has_sender i v.senders ≡ true
    → (v.service i).in_global ≡ false
    → sleep_count v.workers ≡ 0
    → w < length v.workers
    → get_or v.workers w sleeping ≡ found_none
    → (get_or (run v (flags i ∷ wakes ∷ works w ∷ [])).workers w popping ≡ sleeping)
      × ((run v (flags i ∷ wakes ∷ works w ∷ [])).global_queue ≡ v.global_queue ++ i ∷ [])
      × (act (run v (flags i ∷ wakes ∷ works w ∷ [])) (works w)
          ≡ run v (flags i ∷ wakes ∷ works w ∷ []))
unfolding run act
lost_wakeup v i w hs g sc lt fn = (
  ap (λ u. get_or u.workers w popping) after ∙ get_or-set_self v.workers w sleeping popping lt,
  ap (λ u. u.global_queue) after,
  subst (λ u. act u (works w) ≡ u) (sym after)
      (works_still (record (sent_to v i) { workers = set v.workers w sleeping }) w
        (get_or-set_self v.workers w sleeping sleeping lt)),
)
  where
    after :
        run v (flags i ∷ wakes ∷ works w ∷ [])
        ≡ record (sent_to v i) { workers = set v.workers w sleeping }
    after = ap (λ u. act u (works w)) (flag_wake v i hs g sc) ∙ works_sleep (sent_to v i) w lt fn
