-- ===== src/Skynet/Timer/Clock/Timeouts.antt =====
-- When a service that asked for a timeout hears of it.
use game_server_development.Prelude.{
  ℕ, zero, suc, ◌+◌, ◌-◌, ◌%◌, ◌^◌, ◌≤◌, ◌<◌, ◌≡◌, ◌↔◌, refl, sym, ap, ap₂, ◌∙◌, subst, List, [],
  ◌∷◌, ◌++◌, append_assoc, Bool, false, ltb, ◌==◌, if_true, if_false, arith, Bool-cases, inl, inr,
}
use native.Mathlib.Nat.{mod-eq_of_lt}
use game_server_development.Prelude.Int.{pos, leb_ℤ}
use game_server_development.Skynet.Timer.{
  TimerNode, Timer, Place, place, add_node, timer_update, timer_add,
}
use game_server_development.Skynet.Timer.Lists.{In, In-left, In-right, In-append, add_node-places}
use game_server_development.Skynet.Timer.Tick.{IsOnTime}
use game_server_development.Skynet.Timer.Update.{update-Updated, timer_add-IsOnTime}
use game_server_development.Skynet.Timer.Fire.{timer_node}
use game_server_development.Skynet.Timer.Clock.{
  Clock, Answered, updates, skynet_updatetime, thread_timer, skynet_timeout,
}

-- Readings that do not go back, and the last of them.
abbrev pub IsAscending : ℕ → List ℕ → Type 0
IsAscending point [] = Unit
IsAscending point (cp ∷ readings) = (point ≤ cp) × IsAscending cp readings

abbrev pub last : ℕ → List ℕ → ℕ
last point [] = point
last point (cp ∷ readings) = last cp readings

last-le : (point : ℕ) (readings : List ℕ) → IsAscending point readings → point ≤ last point readings
last-le point [] a = omega arith
last-le point (cp ∷ readings) a = omega (arith, a.0, last-le cp readings a.1)

-- Two runs of updates after each other.
updates-add :
    (m n : ℕ) (t : Timer)
    → updates (m + n) t
      ≡ ((updates m t).0 ++ (updates n (updates m t).1).0, (updates n (updates m t).1).1)
unfolding updates
updates-add zero n t = let e : 0 + n ≡ n = omega arith in ap (λ k. updates k t) e
updates-add (suc m) n t =
    let e : suc m + n ≡ suc (m + n) = omega arith in
    ap (λ k. updates k t) e
    ∙ ap (λ r. ((timer_update t).0 ++ r.0, r.1)) (updates-add m n (timer_update t).1)
    ∙ ap (λ out. (out, (updates n (updates m (timer_update t).1).1).1))
        (sym (
          append_assoc (timer_update t).0 (updates m (timer_update t).1).0
            (updates n (updates m (timer_update t).1).1).0))

-- Nodes that wait are dispatched in time, and nothing is dispatched early.
updates_fire :
    (d n : ℕ) (t : Timer) (q : Place) (m : TimerNode)
    → IsOnTime t
    → In m (t.slot q)
    → m.expire ≡ t.time + suc d
    → m.expire < 2 ^ 32
    → d < n
    → In m (updates n t).0
unfolding updates
updates_fire d zero t q m on i e lt less = absurd (omega (arith, less))
updates_fire zero (suc n) t q m on i e lt less =
    let u = update-Updated t (omega (arith, e, lt)) on in
    In-left m (timer_update t).0 (updates n (timer_update t).1).0 (u.fires q m i (omega (arith, e)))
updates_fire (suc d) (suc n) t q m on i e lt less =
    let u = update-Updated t (omega (arith, e, lt)) on in
    In-right m (timer_update t).0 (updates n (timer_update t).1).0 (
      updates_fire d n (timer_update t).1 (place (timer_update t).1.time m.expire) m u.on_time
        (u.waits q m i (omega (arith, e))) (omega (arith, e, u.time)) lt (omega (arith, less)))

updates_exact :
    (n : ℕ) (t : Timer) (m : TimerNode)
    → IsOnTime t
    → t.time + n < 2 ^ 32
    → In m (updates n t).0
    → m.expire ≤ t.time + n
unfolding updates
updates_exact zero t m on lt i = absurd i
updates_exact (suc n) t m on lt i =
    let u = update-Updated t (omega (arith, lt)) on in
    elim (In-append m (timer_update t).0 (updates n (timer_update t).1).0 i) [
      | inl now ↦ omega (arith, u.exact m now)
      | inr later ↦ omega (
        arith,
        u.time,
        updates_exact n (timer_update t).1 m u.on_time (omega (arith, lt, u.time)) later,
      )
    ]

-- What a reading does to the timer: as many updates as centiseconds have passed.
abbrev Turned : Clock → ℕ → List TimerNode × Clock → Type 0
Turned c cp r =
    (r.0 ≡ (updates (cp - c.current_point) c.timer).0)
    × (r.1.timer ≡ (updates (cp - c.current_point) c.timer).1)
    × (r.1.current_point ≡ cp)

skynet_updatetime-Turned :
    (c : Clock) (cp : ℕ)
    → c.current_point ≤ cp
    → cp - c.current_point < 2 ^ 32
    → Turned c cp (skynet_updatetime c cp)
unfolding skynet_updatetime
skynet_updatetime-Turned c cp le lt =
    let back : ltb cp c.current_point ≡ false = ground (arith, le) in
    elim (Bool-cases (cp == c.current_point)) [
      | inl e ↦
          let z : cp - c.current_point ≡ 0 = ground (arith, e) in
          subst (Turned c cp) (sym (if_false _ _ back ∙ if_true _ _ e)) (
            ap (λ n. (updates n c.timer).0) (sym z),
            ap (λ n. (updates n c.timer).1) (sym z),
            ground (arith, e),
          )
      | inr e ↦
          let d : (cp - c.current_point) % 2 ^ 32 ≡ cp - c.current_point = mod-eq_of_lt lt in
          subst (Turned c cp) (sym (if_false _ _ back ∙ if_false _ _ e))
            (ap (λ n. (updates n c.timer).0) d, ap (λ n. (updates n c.timer).1) d, refl)
    ]

-- Any readings that do not go back do what the last of them would do alone.
thread_timer-updates :
    (c : Clock) (readings : List ℕ)
    → IsAscending c.current_point readings
    → last c.current_point readings - c.current_point < 2 ^ 32
    → (thread_timer c readings).0
      ≡ (updates (last c.current_point readings - c.current_point) c.timer).0
unfolding thread_timer updates
thread_timer-updates c [] a lt =
    let z : 0 ≡ c.current_point - c.current_point = omega arith in ap (λ n. (updates n c.timer).0) z
thread_timer-updates c (cp ∷ readings) a lt =
    let c' = (skynet_updatetime c cp).1 in
    let far = last-le cp readings a.1 in
    let (out, t, p) = skynet_updatetime-Turned c cp a.0 (omega (arith, far, lt)) in
    let point = c.current_point in
    let end = last cp readings in
    let a' = subst (λ k. IsAscending k readings) (sym p) a.1 in
    let near : last c'.current_point readings - c'.current_point < 2 ^ 32 =
      subst (λ k. last k readings - k < 2 ^ 32) (sym p) (omega (arith, a.0, lt)) in
    let both : (cp - point) + (end - cp) ≡ end - point = omega (arith, a.0, far) in
    ap₂ ◌++◌ out (
      thread_timer-updates c' readings a' near
      ∙ ap (λ k. (updates (last k readings - k) c'.timer).0) p
      ∙ ap (λ u. (updates (end - cp) u).0) t)
    ∙ sym (ap (λ (r : List TimerNode × Timer). r.0) (updates-add (cp - point) (end - cp) c.timer))
    ∙ ap (λ n. (updates n c.timer).0) both

-- The clock with the node that a timeout adds.
abbrev waiting : Clock → ℕ → ℕ → ℕ → Clock
waiting c handle session d = record c { timer = timer_add c.timer handle session (suc d) }

skynet_timeout-waiting :
    (found : ℕ → Bool) (c : Clock) (handle session d : ℕ)
    → (skynet_timeout found c handle (pos (suc d)) session).clock ≡ waiting c handle session d
unfolding skynet_timeout
skynet_timeout-waiting found c handle session d =
    ap (λ (r : Answered). r.clock) (if_false {b = leb_ℤ (pos (suc d)) (pos 0)} _ _ (ground arith))

-- A service that asks for a timeout of d + 1 centiseconds hears of it once the readings of the clock have
-- gone that far, and not before, whatever the readings are on the way; as long as the readings do
-- not go back, the timer is on time, and its clock does not wrap around.
pub skynet_timeout-fires :
    (found : ℕ → Bool) (c : Clock) (handle session d : ℕ) (readings : List ℕ)
    → IsOnTime c.timer
    → IsAscending c.current_point readings
    → suc d + c.timer.time < 2 ^ 32
    → last c.current_point readings - c.current_point + c.timer.time < 2 ^ 32
    → In
        (timer_node c.timer handle session (suc d))
        (thread_timer (skynet_timeout found c handle (pos (suc d)) session).clock readings).0
      ↔ (suc d ≤ last c.current_point readings - c.current_point)
unfolding timer_add add_node
skynet_timeout-fires found c handle session d readings on a lt far =
    let n = last c.current_point readings - c.current_point in
    let node = timer_node c.timer handle session (suc d) in
    let t = timer_add c.timer handle session (suc d) in
    let on' = timer_add-IsOnTime c.timer handle session (suc d) (omega arith) lt on in
    let expires : node.expire ≡ suc d + c.timer.time = mod-eq_of_lt lt in
    let out =
      ap (λ k. (thread_timer k readings).0) (skynet_timeout-waiting found c handle session d)
      ∙ thread_timer-updates (waiting c handle session d) readings a (omega (arith, far)) in
    (
      λ i.
          omega (
            arith,
            expires,
            updates_exact n t node on' (omega (arith, far)) (subst (In node) out i),
          ),
      λ le. subst (In node) (sym out) (
          updates_fire d n t (place c.timer.time node.expire) node on'
            (add_node-places c.timer node) (omega (arith, expires)) (omega (arith, expires, lt))
            (omega (arith, le))),
    )
