-- ===== src/Skynet/Monitor/Tests.antt =====
-- Runs of the monitor on concrete inputs.
use game_server_development.Prelude.{◌≡◌, refl, arith, [], some, none}
use game_server_development.Skynet.Monitor.{Monitor, new, trigger, check, triggers}
use game_server_development.Skynet.Monitor.Reports.{check-triggers}

-- In a message from 3 to 5.
abbrev busy : Monitor
unfolding trigger
busy = trigger new 3 5

-- The first check after a call reports nothing, the next one does.
reports_second : ((check busy).0 ≡ none) × ((check (check busy).1).0 ≡ some (3, 5))
unfolding check trigger
reports_second = (refl, refl)

check-triggers_example : (check (triggers (check busy).1 [])).0 ≡ some (3, 5)
unfolding trigger
check-triggers_example = check-triggers busy [] (omega arith) (omega arith)
