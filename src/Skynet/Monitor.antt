-- ===== src/Skynet/Monitor.antt =====
-- 02_skynet/lib/skynet/skynet-src/skynet_monitor.c: how a thread that does not come back from a
-- message is noticed.
pub mod Reports
mod Tests
use game_server_development.Prelude.{
  ℕ, ◌+◌, ◌%◌, ◌^◌, List, [], ◌∷◌, ◌==◌, if◌then◌else◌, Option, none, some,
}

-- `struct skynet_monitor`
pub record Monitor : Type 0 where
  pub version : ℕ
  pub check_version : ℕ
  pub source : ℕ
  pub destination : ℕ

-- `skynet_monitor_new`
abbrev pub new : Monitor
new = record { version = 0; check_version = 0; source = 0; destination = 0 }

-- `skynet_monitor_trigger`: the version is an atomic `int`, which wraps around.
pub trigger : Monitor → ℕ → ℕ → Monitor
trigger sm source destination = record sm {
  source = source;
  destination = destination;
  version = (sm.version + 1) % 2 ^ 32;
}

-- `skynet_monitor_check`: whom it reports to be in an endless loop, with the sender of the message.
pub check : Monitor → Option (ℕ × ℕ) × Monitor
check sm =
    if sm.version == sm.check_version
    then ((if sm.destination == 0 then none else some (sm.source, sm.destination)), sm)
    else (none, record sm { check_version = sm.version })

-- The calls that a worker makes between two checks.
pub triggers : Monitor → List (ℕ × ℕ) → Monitor
triggers sm [] = sm
triggers sm (c ∷ cs) = triggers (trigger sm c.0 c.1) cs
