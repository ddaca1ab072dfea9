-- ===== src/Skynet/Timer/Update.antt =====
-- `timer_update` dispatches exactly the timers that are due.
use game_server_development.Prelude.{
  ℕ, ◌+◌, ◌%◌, ◌^◌, ◌<◌, ◌≡◌, ◌≢◌, sym, ap, subst, ◌∙◌, bit_and, List, [], inl, inr, arith,
  ℕ_discrete,
}
use game_server_development.Prelude.Bits.{bit_and_mask}
use game_server_development.Skynet.Timer.{
  TimerNode, Timer, Place, near_at, level_at, put, place, add_node, timer_shift, timer_execute,
  timer_update, timer_add, empty_timer,
}
use game_server_development.Skynet.Timer.Blocks.{place_in, place_lem}
use game_server_development.Skynet.Timer.Lists.{In, In-append, In-right, put_cases, add_node-from}
use game_server_development.Skynet.Timer.Tick.{IsOnTime, Shifted, shift-Shifted}
use native.Mathlib.Nat.{mod-eq_of_lt}

-- The index of a list of `near`, which is less than 256.
near_index : Place → ℕ
near_index (near_at i) = i
near_index (level_at i j) = 256

-- The list of the nodes that are due.
due : (t e : ℕ) → place t e ≡ near_at (bit_and t 255) → e ≡ t
unfolding near_index
due t e h = at (sym (place_lem t e) ∙ h ∙ ap near_at (bit_and_mask 8 t))
  where
    at : place_in t e ≡ near_at (t % 256) → e ≡ t
    at h = ground (arith, ap near_index h)

due_self : (t : ℕ) → place t t ≡ near_at (bit_and t 255)
due_self t = place_lem t t ∙ same ∙ ap near_at (sym (bit_and_mask 8 t))
  where
    same : place_in t t ≡ near_at (t % 256)
    same = ground arith

-- What `timer_update` gives: every node that is due and none with another time, and a timer that has
-- the nodes of the lists that are not due.
pub record Updated (t : Timer) (out : List TimerNode) (t' : Timer) : Type 0 where
  pub time : t'.time ≡ t.time + 1
  pub on_time : IsOnTime t'
  pub exact : (m : TimerNode) → In m out → m.expire ≡ t.time + 1
  pub fires : (q : Place) (m : TimerNode) → In m (t.slot q) → m.expire ≡ t.time + 1 → In m out
  pub waits :
      (q : Place) (m : TimerNode)
      → In m (t.slot q)
      → m.expire ≢ t.time + 1
      → In m (t'.slot (place t'.time m.expire))

-- The first `timer_execute` finds nothing.
early_none :
    (t : Timer) → IsOnTime t → (m : TimerNode) → In m (t.slot (near_at (bit_and t.time 255))) → ⊥
early_none t on m i =
    let e = due t.time m.expire (on.placed (near_at (bit_and t.time 255)) m i) in
    absurd (omega (arith, e, on.later (near_at (bit_and t.time 255)) m i))

put_none :
    (t : Timer) (p q : Place) (m : TimerNode) → In m (put t.slot p [] q) → (p ≢ q) × In m (t.slot q)
put_none t p q m i = elim (put_cases t.slot p [] q) [
  | inl (e, w) ↦ absurd (subst (In m) w i)
  | inr (ne, w) ↦ (ne, subst (In m) w i)
]

put_else :
    (t : Timer) (p q : Place) (m : TimerNode) → p ≢ q → In m (t.slot q) → In m (put t.slot p [] q)
put_else t p q m ne i = elim (put_cases t.slot p [] q) [
  | inl (e, w) ↦ absurd (ne e)
  | inr (n, w) ↦ subst (In m) (sym w) i
]

executed : (t : Timer) → IsOnTime t → IsOnTime (timer_execute t).1
unfolding timer_execute
executed t on = record {
  placed = λ q m i. on.placed q m (put_none t (near_at (bit_and t.time 255)) q m i).1;
  later = λ q m i. on.later q m (put_none t (near_at (bit_and t.time 255)) q m i).1;
}

-- `timer_update` on a timer whose nodes are in their lists and still to come, before its clock wraps
-- around, dispatches each node whose time the clock reaches, and only nodes of that time; every other
-- node stays, and the timer is on time again.
pub update-Updated :
    (t : Timer) → t.time + 1 < 2 ^ 32 → IsOnTime t → Updated t (timer_update t).0 (timer_update t).1
unfolding timer_update timer_execute
update-Updated t lt on = record {
  time = shifted.time;
  on_time = record {
    placed = λ q m i. shifted.placed q m (put_none s now q m i).1;
    later = λ q m i.
        let (ne, j) = put_none s now q m i in
        let after : t.time < m.expire = shifted.later q m j in
        elim (ℕ_discrete m.expire s.time) [
          | yes e ↦ absurd (ne (sym (ap (place s.time) e ∙ due_self s.time) ∙ shifted.placed q m j))
          | no n ↦ omega (arith, after, n, shifted.time)
        ];
  };
  exact = λ m i. elim (In-append m (t.slot (near_at (bit_and t.time 255))) (s.slot now) i) [
    | inl l ↦ absurd (early_none t on m l)
    | inr r ↦ due s.time m.expire (shifted.placed now m r) ∙ shifted.time
  ];
  fires = λ q m i e. In-right m (t.slot (near_at (bit_and t.time 255))) (s.slot now) (
      subst (λ r. In m (s.slot r)) (ap (place s.time) (e ∙ sym shifted.time) ∙ due_self s.time)
        (shifted.kept q m (here q m i)));
  waits = λ q m i ne.
      put_else s now (place s.time m.expire) m
        (λ p. ne (due s.time m.expire (sym p) ∙ shifted.time)) (shifted.kept q m (here q m i));
}
  where
    t1 : Timer
    t1 = (timer_execute t).1

    s : Timer
    s = timer_shift t1

    now : Place
    now = near_at (bit_and s.time 255)

    shifted : Shifted t1 s
    shifted = shift-Shifted t1 lt (executed t on)

    here : (q : Place) (m : TimerNode) → In m (t.slot q) → In m (t1.slot q)
    here q m i =
        put_else t (near_at (bit_and t.time 255)) q m
          (λ e. early_none t on m (subst (λ r. In m (t.slot r)) (sym e) i)) i

-- A new timer is on time.
pub empty_timer-IsOnTime : IsOnTime empty_timer
empty_timer-IsOnTime = record { placed = λ q m i. absurd i; later = λ q m i. absurd i }

-- `timer_add` of a timer that is to come before the clock wraps around keeps the lists on time.
pub timer_add-IsOnTime :
    (t : Timer) (handle session time : ℕ)
    → 0 < time
    → time + t.time < 2 ^ 32
    → IsOnTime t
    → IsOnTime (timer_add t handle session time)
unfolding timer_add add_node
timer_add-IsOnTime t handle session time pos lt on = record {
  placed = λ q m i. elim (add_node-from t node m q i) [
    | inl j ↦ on.placed q m j
    | inr (e, p) ↦ ap (λ k. place t.time k.expire) e ∙ p
  ];
  later = λ q m i. elim (add_node-from t node m q i) [
    | inl j ↦ on.later q m j
    | inr (e, p) ↦ omega (arith, ap (λ k. k.expire) e, mod-eq_of_lt lt, pos)
  ];
}
  where
    node : TimerNode
    node = record { expire = (time + t.time) % 2 ^ 32; handle = handle; session = session }
