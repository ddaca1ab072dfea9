-- ===== src/Sunnet/Sched/Tests.antt =====
-- Runs of the scheduler on concrete inputs.
use game_server_development.Prelude.{ℕ, ◌≡◌, ◌+◌, ◌++◌, refl, List, [], ◌∷◌, get_or, arith}
use game_server_development.Sunnet.Sched.{
  Server, Action, popping, sleeping, creates, wakes, flags, works, pushes, start, act, run,
  send_push, send_flag, send_wake, push_msg, push_global, check_and_weak_up, worker_pop,
  process_msg, work, new, has_sender, drop_sender, sleep_count, each_num,
}
use game_server_development.Sunnet.Sched.Count.{held, queued}
use game_server_development.Sunnet.Sched.Order.{sent, traffic-run}
use game_server_development.Sunnet.Sched.Runs.{run-exclusive, run-owned, lost_wakeup}

-- A service with three messages; worker 0 has handled one of them.
abbrev script : List Action
script =
    creates
    ∷ pushes 0 7
    ∷ flags 0
    ∷ wakes
    ∷ pushes 0 8
    ∷ works 0
    ∷ works 0
    ∷ pushes 0 9
    ∷ flags 0
    ∷ flags 0
    ∷ []

run-script : (run (start 2) script).delivered 0 ≡ 7 ∷ []
unfolding run act send_push send_flag send_wake push_msg push_global check_and_weak_up worker_pop
    process_msg work new has_sender drop_sender sleep_count each_num
run-script = refl

traffic-run_example :
    (run (start 2) script).delivered 0 ++ ((run (start 2) script).service 0).msg_queue
    ≡ 7 ∷ 8 ∷ 9 ∷ []
unfolding run act send_push send_flag send_wake push_msg push_global check_and_weak_up worker_pop
    process_msg work new has_sender drop_sender sleep_count each_num sent
traffic-run_example = traffic-run (start 2) 0 script

run-exclusive_example : (◌≡◌ {A = ℕ} 0 0) × (queued 0 (run (start 2) script).global_queue ≡ 0)
unfolding run act send_push send_flag send_wake push_msg push_global check_and_weak_up worker_pop
    process_msg work new has_sender drop_sender sleep_count each_num
run-exclusive_example = run-exclusive 2 script 0 0 0 refl refl

not_empty : {m : ℕ} {ms : List ℕ} → (m ∷ ms ≡ []) → ⊥
not_empty e = cc e

run-owned_example :
    queued 0 (run (start 2) script).global_queue + held 0 (run (start 2) script).workers ≡ 1
unfolding run act send_push send_flag send_wake push_msg push_global check_and_weak_up worker_pop
    process_msg work new has_sender drop_sender sleep_count each_num
run-owned_example = run-owned 2 script 0 refl (λ e. not_empty e) refl

-- The only worker finds no service just before a message arrives.
abbrev raced : Server
raced = run (start 1) (creates ∷ works 0 ∷ pushes 0 7 ∷ [])

lost_wakeup_example :
    (get_or (run raced (flags 0 ∷ wakes ∷ works 0 ∷ [])).workers 0 popping ≡ sleeping)
    × ((run raced (flags 0 ∷ wakes ∷ works 0 ∷ [])).global_queue ≡ 0 ∷ [])
    × (act (run raced (flags 0 ∷ wakes ∷ works 0 ∷ [])) (works 0)
        ≡ run raced (flags 0 ∷ wakes ∷ works 0 ∷ []))
unfolding run act send_push send_flag send_wake push_msg push_global check_and_weak_up worker_pop
    process_msg work new has_sender drop_sender sleep_count each_num
lost_wakeup_example = lost_wakeup raced 0 0 refl refl refl (omega arith) refl
