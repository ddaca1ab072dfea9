-- ===== src/Sunnet/Sched/Interleaving.antt =====
-- Every interleaving keeps every service owned.
use game_server_development.Prelude.{
  ℕ, ◌≡◌, refl, List, [], ◌∷◌, Bool, true, false, ltb, if◌then◌else◌, length, get_or, arith, ltb→lt,
}
use game_server_development.Sunnet.Sched.{
  Server, Action, sleeping, creates, wakes, kills, flags, works, pushes, start, work, new, act, run,
}
use game_server_development.Sunnet.Sched.Count.{held-replicate}
use game_server_development.Sunnet.Sched.Owner.{IsValid}
use game_server_development.Sunnet.Sched.Workers.{work-IsValid}
use game_server_development.Sunnet.Sched.Senders.{
  push-IsValid, wake-IsValid, kill-IsValid, flag-IsValid,
}

act-IsValid : (v : Server) (a : Action) → IsValid v → IsValid (act v a)
unfolding act new
act-IsValid v creates inv = inv
act-IsValid v wakes inv = wake-IsValid v inv
act-IsValid v (kills id) inv = kill-IsValid v id inv
act-IsValid v (flags j) inv = flag-IsValid v j inv
act-IsValid v (pushes id m) inv = push-IsValid v id m inv
act-IsValid v (works w) inv = worked (ltb w (length v.workers)) refl
  where
    worked :
        (b : Bool)
        → ltb w (length v.workers) ≡ b
        → IsValid (if b then work v w (get_or v.workers w sleeping) else v)
    worked true e =
        work-IsValid v w (get_or v.workers w sleeping) (ltb→lt w (length v.workers) e) refl inv
    worked false e = inv

-- A new server satisfies the invariant.
pub start-IsValid : (n : ℕ) → IsValid (start n)
start-IsValid n i = record {
  at_most = omega (arith, held-replicate i n);
  live = λ a. omega arith;
  idle = λ a b c. refl;
}

pub run-IsValid : (v : Server) (actions : List Action) → IsValid v → IsValid (run v actions)
unfolding run
run-IsValid v [] inv = inv
run-IsValid v (a ∷ rest) inv = run-IsValid (act v a) rest (act-IsValid v a inv)
