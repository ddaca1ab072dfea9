-- ===== src/Skynet/Timer/Tick.antt =====
-- What a tick of the clock does to the lists.
use game_server_development.Prelude.{
  ℕ, ◌+◌, ◌/◌, ◌%◌, ◌^◌, ◌<◌, ◌≡◌, ◌≢◌, refl, sym, ap, subst, ◌∙◌, [], false, ◌==◌, if◌then◌else◌,
  ◌⊎◌, inl, inr, arith, ℕ_discrete,
}
use game_server_development.Prelude.Bits.{bit_and_mask}
use game_server_development.Skynet.Timer.{
  TimerNode, Timer, Place, level_at, put, place, add_nodes, move_list, shift_loop, timer_shift,
}
use game_server_development.Skynet.Timer.Blocks.{
  place_in, place_lem, stay_near, stay_0, stay_1, stay_2, stay_3,
}
use game_server_development.Skynet.Timer.Lists.{
  In, put_cases, add_nodes-keeps, add_nodes-places, add_nodes-from, add_nodes-time,
}
use native.Mathlib.Nat.{mod-eq_of_lt}

-- The loop of `timer_shift`, by division.
abbrev shift_in : ℕ → Timer → Timer
shift_in ct u =
    if ct % 256 == 0
    then if ct / 256 % 64 == 0
      then if ct % 16384 == 0
        then if ct / 256 / 64 % 64 == 0
          then if ct % 1048576 == 0
            then if ct / 256 / 64 / 64 % 64 == 0
              then if ct % 67108864 == 0
                then if ct / 256 / 64 / 64 / 64 % 64 == 0
                  then u
                  else move_list u (level_at 3 (ct / 256 / 64 / 64 / 64 % 64))
                else u
              else move_list u (level_at 2 (ct / 256 / 64 / 64 % 64))
            else u
          else move_list u (level_at 1 (ct / 256 / 64 % 64))
        else u
      else move_list u (level_at 0 (ct / 256 % 64))
    else u

loop_lem : (u : Timer) → shift_loop 4 0 (u.time / 2 ^ 8) u ≡ shift_in u.time u
unfolding shift_loop
loop_lem u =
    rw
      (
        bit_and_mask 8 u.time,
        bit_and_mask 14 u.time,
        bit_and_mask 20 u.time,
        bit_and_mask 26 u.time,
        bit_and_mask 6 (u.time / 256),
        bit_and_mask 6 (u.time / 256 / 64),
        bit_and_mask 6 (u.time / 256 / 64 / 64),
        bit_and_mask 6 (u.time / 256 / 64 / 64 / 64),
      )
      refl

-- A tick leaves the lists alone or moves the nodes of one list; every other node stays.
abbrev Moves : ℕ → Timer → Timer → Type 0
Moves t u r =
    ((r ≡ u) × ((e : ℕ) → t < e → place_in (t + 1) e ≡ place_in t e))
    ⊎ ((p : Place) × (r ≡ move_list u p)
        × ((e : ℕ) → t < e → (place_in (t + 1) e ≡ place_in t e) ⊎ (place_in t e ≡ p)))

shift_in-Moves : (t : ℕ) (u : Timer) → t + 1 < 2 ^ 32 → Moves t u (shift_in (t + 1) u)
shift_in-Moves t u lt = elim (ℕ_discrete ((t + 1) % 256) 0) [
  | no a ↦ inl (ground arith, λ e h. stay_near t e h a)
  | yes a ↦ elim (ℕ_discrete ((t + 1) / 256 % 64) 0) [
    | no b ↦ inr (level_at 0 ((t + 1) / 256 % 64), ground arith, λ e h. stay_0 t e h a b)
    | yes b ↦ elim (ℕ_discrete ((t + 1) / 256 / 64 % 64) 0) [
      | no c ↦ inr (
        level_at 1 ((t + 1) / 256 / 64 % 64),
        ground arith,
        λ e h.
            let q : (t + 1) / 16384 ≡ (t + 1) / 256 / 64 = omega arith in
            subst (λ k. (place_in (t + 1) e ≡ place_in t e) ⊎ (place_in t e ≡ level_at 1 (k % 64)))
              q (stay_1 t e h (omega arith) (subst (λ k. k % 64 ≢ 0) (sym q) c)),
      )
      | yes c ↦ elim (ℕ_discrete ((t + 1) / 256 / 64 / 64 % 64) 0) [
        | no d ↦ inr (
          level_at 2 ((t + 1) / 256 / 64 / 64 % 64),
          ground arith,
          λ e h.
              let q : (t + 1) / 1048576 ≡ (t + 1) / 256 / 64 / 64 = omega arith in
              subst
                (λ k. (place_in (t + 1) e ≡ place_in t e) ⊎ (place_in t e ≡ level_at 2 (k % 64))) q
                (stay_2 t e h (omega arith) (subst (λ k. k % 64 ≢ 0) (sym q) d)),
        )
        | yes d ↦ inr (
          level_at 3 ((t + 1) / 256 / 64 / 64 / 64 % 64),
          ground arith,
          λ e h.
              let q : (t + 1) / 67108864 ≡ (t + 1) / 256 / 64 / 64 / 64 = omega arith in
              subst
                (λ k. (place_in (t + 1) e ≡ place_in t e) ⊎ (place_in t e ≡ level_at 3 (k % 64))) q
                (stay_3 t e h (omega arith)),
        )
      ]
    ]
  ]
]

shift-Moves :
    (t : Timer)
    → t.time + 1 < 2 ^ 32
    → Moves t.time (record t { time = t.time + 1 }) (timer_shift t)
unfolding timer_shift
shift-Moves t lt = shifted ((t.time + 1) % 2 ^ 32) (mod-eq_of_lt lt)
  where
    ticked :
        (u : Timer)
        → u.time ≢ 0
        → (if u.time == 0 then move_list u (level_at 3 0) else shift_loop 4 0 (u.time / 2 ^ 8) u)
          ≡ shift_in u.time u
    ticked u nz = let ne : (u.time == 0) ≡ false = ground arith in rw ne (loop_lem u)

    shifted :
        (ct : ℕ)
        → ct ≡ t.time + 1
        → Moves t.time
            (record t { time = t.time + 1 })
            (let t' : Timer = record t { time = ct } in
              if ct == 0 then move_list t' (level_at 3 0) else shift_loop 4 0 (ct / 2 ^ 8) t')
    shifted ct e =
        let next : Timer = record t { time = t.time + 1 } in
        subst
          (λ k. Moves t.time next (
            let t' : Timer = record t { time = k } in
            if k == 0 then move_list t' (level_at 3 0) else shift_loop 4 0 (k / 2 ^ 8) t'))
          (sym e)
          (subst (Moves t.time next) (sym (ticked next (omega arith)))
            (shift_in-Moves t.time next lt))

-- Every node stands in the list that its time and the clock say, and is still to come.
pub record IsOnTime (t : Timer) : Type 0 where
  pub placed : (q : Place) (m : TimerNode) → In m (t.slot q) → place t.time m.expire ≡ q
  pub later : (q : Place) (m : TimerNode) → In m (t.slot q) → t.time < m.expire

-- What `timer_shift` leaves: the same nodes, each in the list that the next clock says.
pub record Shifted (t s : Timer) : Type 0 where
  pub time : s.time ≡ t.time + 1
  pub placed : (q : Place) (m : TimerNode) → In m (s.slot q) → place s.time m.expire ≡ q
  pub later : (q : Place) (m : TimerNode) → In m (s.slot q) → t.time < m.expire
  pub kept : (q : Place) (m : TimerNode) → In m (t.slot q) → In m (s.slot (place s.time m.expire))

moved-Shifted :
    (t : Timer) (p : Place)
    → IsOnTime t
    → ((e : ℕ)
        → t.time < e
        → (place_in (t.time + 1) e ≡ place_in t.time e) ⊎ (place_in t.time e ≡ p))
    → Shifted t (move_list (record t { time = t.time + 1 }) p)
unfolding move_list
moved-Shifted t p on stays = record {
  time = add_nodes-time cleared (t.slot p);
  placed = λ q m i.
      ap (λ k. place k m.expire) (add_nodes-time cleared (t.slot p))
      ∙ at q m (add_nodes-from cleared (t.slot p) m q i);
  later = λ q m i. after q m (add_nodes-from cleared (t.slot p) m q i);
  kept = λ q m i.
      subst (λ k. In m ((add_nodes cleared (t.slot p)).slot (place k m.expire)))
        (sym (add_nodes-time cleared (t.slot p))) (keeps q m i (put_cases t.slot p [] q));
}
  where
    cleared : Timer
    cleared = record t { time = t.time + 1; slot = put t.slot p [] }

    still : (q : Place) (m : TimerNode) → In m (t.slot q) → p ≢ q → place (t.time + 1) m.expire ≡ q
    still q m i ne = elim (stays m.expire (on.later q m i)) [
      | inl e ↦
          place_lem (t.time + 1) m.expire ∙ e ∙ sym (place_lem t.time m.expire) ∙ on.placed q m i
      | inr e ↦ absurd (ne (sym e ∙ sym (place_lem t.time m.expire) ∙ on.placed q m i))
    ]

    origin : (q : Place) (m : TimerNode) → In m (put t.slot p [] q) → In m (t.slot q) × (p ≢ q)
    origin q m i = elim (put_cases t.slot p [] q) [
      | inl (e, w) ↦ absurd (subst (In m) w i)
      | inr (ne, w) ↦ (subst (In m) w i, ne)
    ]

    at :
        (q : Place) (m : TimerNode)
        → In m (put t.slot p [] q) ⊎ (In m (t.slot p) × (place (t.time + 1) m.expire ≡ q))
        → place (t.time + 1) m.expire ≡ q
    at q m (inl i) = let (j, ne) = origin q m i in still q m j ne
    at q m (inr (i, e)) = e

    after :
        (q : Place) (m : TimerNode)
        → In m (put t.slot p [] q) ⊎ (In m (t.slot p) × (place (t.time + 1) m.expire ≡ q))
        → t.time < m.expire
    after q m (inl i) = on.later q m (origin q m i).0
    after q m (inr (i, e)) = on.later p m i

    keeps :
        (q : Place) (m : TimerNode)
        → In m (t.slot q)
        → ((p ≡ q) × (put t.slot p [] q ≡ [])) ⊎ ((p ≢ q) × (put t.slot p [] q ≡ t.slot q))
        → In m ((add_nodes cleared (t.slot p)).slot (place (t.time + 1) m.expire))
    keeps q m i (inl (e, w)) =
        add_nodes-places cleared (t.slot p) m (subst (λ r. In m (t.slot r)) (sym e) i)
    keeps q m i (inr (ne, w)) =
        subst (λ r. In m ((add_nodes cleared (t.slot p)).slot r)) (sym (still q m i ne))
          (add_nodes-keeps cleared (t.slot p) m q (subst (In m) (sym w) i))

pub shift-Shifted : (t : Timer) → t.time + 1 < 2 ^ 32 → IsOnTime t → Shifted t (timer_shift t)
shift-Shifted t lt on = elim (shift-Moves t lt) [
  | inl (e, same) ↦
      let stay : (m : TimerNode) (q : Place) → In m (t.slot q) → place (t.time + 1) m.expire ≡ q =
        λ m q i.
          place_lem (t.time + 1) m.expire
          ∙ same m.expire (on.later q m i)
          ∙ sym (place_lem t.time m.expire)
          ∙ on.placed q m i in
      subst (Shifted t) (sym e) (record {
        time = refl;
        placed = λ q m i. stay m q i;
        later = on.later;
        kept = λ q m i. subst (λ r. In m (t.slot r)) (sym (stay m q i)) i;
      })
  | inr (p, e, stays) ↦ subst (Shifted t) (sym e) (moved-Shifted t p on stays)
]
