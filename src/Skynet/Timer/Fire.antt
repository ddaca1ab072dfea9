-- ===== src/Skynet/Timer/Fire.antt =====
-- A timer fires at the tick it was set for, and at no earlier one.
use game_server_development.Prelude.{ℕ, zero, suc, ◌+◌, ◌%◌, ◌^◌, ◌<◌, ◌≡◌, ◌∙◌, arith}
use game_server_development.Skynet.Timer.{
  TimerNode, Timer, Place, place, add_node, timer_update, timer_add, ticks,
}
use game_server_development.Skynet.Timer.Lists.{In, add_node-places}
use game_server_development.Skynet.Timer.Tick.{IsOnTime}
use game_server_development.Skynet.Timer.Update.{update-Updated, timer_add-IsOnTime}
use native.Mathlib.Nat.{mod-eq_of_lt}

-- A node that waits is dispatched by the update that brings the clock to its time.
node_fires :
    (d : ℕ) (t : Timer) (q : Place) (m : TimerNode)
    → IsOnTime t
    → In m (t.slot q)
    → m.expire ≡ t.time + suc d
    → m.expire < 2 ^ 32
    → In m (timer_update (ticks d t)).0
unfolding ticks
node_fires zero t q m on i e lt = (update-Updated t (omega arith) on).fires q m i (omega arith)
node_fires (suc d) t q m on i e lt =
    let u = update-Updated t (omega arith) on in
    node_fires d (timer_update t).1 (place (timer_update t).1.time m.expire) m u.on_time
      (u.waits q m i (omega arith)) (omega (arith, e, u.time)) lt

-- What the update after `k` others dispatches has its time then.
ticks_exact :
    (k : ℕ) (t : Timer) (m : TimerNode)
    → IsOnTime t
    → t.time + suc k < 2 ^ 32
    → In m (timer_update (ticks k t)).0
    → m.expire ≡ t.time + suc k
unfolding ticks
ticks_exact zero t m on lt i = (update-Updated t (omega arith) on).exact m i ∙ omega arith
ticks_exact (suc k) t m on lt i =
    let u = update-Updated t (omega arith) on in
    ticks_exact k (timer_update t).1 m u.on_time (omega (arith, lt, u.time)) i
    ∙ omega (arith, u.time)

-- The node of `timer_add`.
abbrev pub timer_node : Timer → ℕ → ℕ → ℕ → TimerNode
timer_node t handle session time = record {
  expire = (time + t.time) % 2 ^ 32;
  handle = handle;
  session = session;
}

-- A timer that is added with the time d + 1 to a timer that is on time, before the clock wraps around,
-- is dispatched by the update after d others, and by none of those.
pub timer_add-fires :
    (t : Timer) (handle session d : ℕ)
    → suc d + t.time < 2 ^ 32
    → IsOnTime t
    → In
        (timer_node t handle session (suc d))
        (timer_update (ticks d (timer_add t handle session (suc d)))).0
      × ((k : ℕ)
          → k < d
          → In
              (timer_node t handle session (suc d))
              (timer_update (ticks k (timer_add t handle session (suc d)))).0
          → ⊥)
unfolding timer_add add_node
timer_add-fires t handle session d lt on = (
  node_fires d t' (place t.time node.expire) node on' (add_node-places t node)
      (expires ∙ omega arith) (omega (arith, expires, lt)),
  λ k less i.
      absurd (omega (arith, expires, less, ticks_exact k t' node on' (omega (arith, lt, less)) i)),
)
  where
    node : TimerNode
    node = timer_node t handle session (suc d)

    t' : Timer
    t' = timer_add t handle session (suc d)

    on' : IsOnTime t'
    on' = timer_add-IsOnTime t handle session (suc d) (omega arith) lt on

    expires : node.expire ≡ suc d + t.time
    expires = mod-eq_of_lt lt
