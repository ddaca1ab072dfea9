-- ===== src/Skynet/Timer/Clock.antt =====
-- The clock of skynet-src/skynet_timer.c and what services ask of it: `skynet_updatetime`, which the
-- loop of thread_timer in skynet_start.c calls, and `skynet_timeout`.
pub mod Timeouts
use game_server_development.Prelude.{
  ℕ, zero, suc, ◌+◌, ◌-◌, ◌%◌, ◌^◌, List, [], ◌∷◌, ◌++◌, Bool, true, false, ltb, ◌==◌,
  if◌then◌else◌, Option, none, some,
}
use game_server_development.Prelude.Int.{ℤ, pos, pos_part, leb_ℤ}
use game_server_development.Skynet.Timer.{TimerNode, Timer, empty_timer, timer_update, timer_add}

-- `struct timer` with its clock.
pub record Clock : Type 0 where
  pub timer : Timer
  pub starttime : ℕ
  pub current : ℕ
  pub current_point : ℕ

-- `skynet_timer_init`, for the seconds and centiseconds of `systime` and what `gettime` gives.
abbrev pub skynet_timer_init : ℕ → ℕ → ℕ → Clock
skynet_timer_init sec cs cp = record {
  timer = empty_timer;
  starttime = sec;
  current = cs;
  current_point = cp;
}

-- The loop of `skynet_updatetime`, with all nodes that are dispatched.
pub updates : ℕ → Timer → List TimerNode × Timer
updates zero t = ([], t)
updates (suc n) t =
    let (out, t') = timer_update t in let (rest, t'') = updates n t' in (out ++ rest, t'')

-- `skynet_updatetime` for what `gettime` gives.
pub skynet_updatetime : Clock → ℕ → List TimerNode × Clock
unfolding updates
skynet_updatetime c cp =
    let diff : ℕ = (cp - c.current_point) % 2 ^ 32 in
    let (out, t) = updates diff c.timer in
    if ltb cp c.current_point
    then ([], record c { current_point = cp })
    else if cp == c.current_point
    then ([], c)
    else (out, record c { timer = t; current = (c.current + diff) % 2 ^ 64; current_point = cp })

-- The loop of thread_timer for what `gettime` gives each time.
pub thread_timer : Clock → List ℕ → List TimerNode × Clock
unfolding skynet_updatetime
thread_timer c [] = ([], c)
thread_timer c (cp ∷ readings) =
    let (out, c') = skynet_updatetime c cp in
    let (rest, c'') = thread_timer c' readings in (out ++ rest, c'')

-- What `skynet_timeout` returns, -1 as none, the messages that it pushes at once, as a handle and a
-- session, and the clock.
pub record Answered : Type 0 where
  pub result : Option ℕ
  pub pushed : List (ℕ × ℕ)
  pub clock : Clock

-- `skynet_timeout`, where `found` says which handles skynet_context_push finds.
pub skynet_timeout : (ℕ → Bool) → Clock → ℕ → ℤ → ℕ → Answered
skynet_timeout found c handle time session =
    if leb_ℤ time (pos 0)
    then (if found handle
        then record { result = some session; pushed = (handle, session) ∷ []; clock = c }
        else record { result = none; pushed = []; clock = c })
    else record {
      result = some session;
      pushed = [];
      clock = record c { timer = timer_add c.timer handle session (pos_part time) };
    }
