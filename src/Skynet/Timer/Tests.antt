-- ===== src/Skynet/Timer/Tests.antt =====
-- Runs of the timer on concrete inputs.
use game_server_development.Prelude.Int.{pos}
use game_server_development.Skynet.Timer.Clock.{
  Clock, skynet_timer_init, thread_timer, skynet_timeout,
}
use game_server_development.Skynet.Timer.Clock.Timeouts.{skynet_timeout-fires}
use game_server_development.Prelude.{true, ◌↔◌, ◌≤◌, ◌≡◌, refl, [], ◌∷◌, arith}
use game_server_development.Skynet.Timer.{
  Timer, empty_timer, timer_add, timer_update, timer_shift, timer_execute, add_node, add_nodes,
  move_list, shift_loop, place, find_level, same_block,
}
use game_server_development.Skynet.Timer.Lists.{In}
use game_server_development.Skynet.Timer.Tick.{IsOnTime}
use game_server_development.Skynet.Timer.Fire.{timer_node}

-- At 255, a timer for 256 that stands in the first level.
abbrev late : Timer
late = record empty_timer { time = 255 }

late-IsOnTime : IsOnTime late
late-IsOnTime = record { placed = λ q m i. absurd i; later = λ q m i. absurd i }

tick_fires :
    (timer_update (timer_add late 7 1 1)).0 ≡ record { expire = 256; handle = 7; session = 1 } ∷ []
unfolding timer_update timer_execute timer_shift timer_add add_node add_nodes move_list shift_loop
    place find_level same_block
tick_fires = refl

-- A timeout of 300 centiseconds, at readings that stand still, move a little and then pass it.
abbrev clock : Clock
clock = record (skynet_timer_init 1700000000 50 1000) { timer = late }

skynet_timeout-fires_example :
    In
      (timer_node late 7 1 300)
      (thread_timer
        (skynet_timeout (λ h. true) clock 7 (pos 300) 1).clock
        (1000 ∷ 1005 ∷ 1301 ∷ [])).0
    ↔ (300 ≤ 301)
skynet_timeout-fires_example =
    skynet_timeout-fires (λ h. true) clock 7 1 299 (1000 ∷ 1005 ∷ 1301 ∷ []) late-IsOnTime
      (omega arith, (omega arith, (omega arith, tt))) (omega arith) (omega arith)
