-- ===== src/Skynet/Timer.antt =====
-- 02_skynet/lib/skynet/skynet-src/skynet_timer.c: the wheel of timers. The arrays `near` and `t` are
-- one function from places to lists of nodes; the lock makes each operation one step.
pub mod Blocks
pub mod Lists
pub mod Tick
pub mod Update
pub mod Fire
pub mod Clock
mod Tests
use game_server_development.Prelude.{
  ℕ, zero, suc, ◌+◌, ◌-◌, ◌*◌, ◌/◌, ◌%◌, ◌^◌, bit_and, bit_or, List, [], ◌∷◌, ◌++◌, Bool, true,
  false, ◌&&◌, ◌==◌, if◌then◌else◌,
}

-- `struct timer_node` with its `struct timer_event`.
pub record TimerNode : Type 0 where
  pub expire : ℕ
  pub handle : ℕ
  pub session : ℕ

-- A list of the timer: `near[i]`, or `t[i][j]`.
pub data Place : Type 0 where
  near_at : ℕ → Place
  level_at : ℕ → ℕ → Place

abbrev pub same_place : Place → Place → Bool
same_place (near_at i) (near_at j) = i == j
same_place (near_at i) (level_at k l) = false
same_place (level_at i j) (near_at k) = false
same_place (level_at i j) (level_at k l) = (i == k) && (j == l)

-- `struct timer`, without the clock.
pub record Timer : Type 0 where
  pub slot : Place → List TimerNode
  pub time : ℕ

abbrev pub put : (Place → List TimerNode) → Place → List TimerNode → Place → List TimerNode
put slot p ns q = if same_place p q then ns else slot q

-- `timer_create_timer`
abbrev pub empty_timer : Timer
empty_timer = record { slot = λ p. []; time = 0 }

-- `(a|mask) == (b|mask)` with the mask of the low `k` bits.
pub same_block : ℕ → ℕ → ℕ → Bool
same_block k a b = bit_or a (2 ^ k - 1) == bit_or b (2 ^ k - 1)

-- The loop of `add_node` over the levels, with `n` rounds left from level `i`.
pub find_level : ℕ → ℕ → ℕ → ℕ → ℕ
find_level zero i expire current_time = i
find_level (suc n) i expire current_time =
    let rest = find_level n (i + 1) expire current_time in
    if same_block (14 + i * 6) expire current_time then i else rest

-- The list that `add_node` picks.
pub place : ℕ → ℕ → Place
place current_time expire =
    let i : ℕ = find_level 3 0 expire current_time in
    if same_block 8 expire current_time
    then near_at (bit_and expire (2 ^ 8 - 1))
    else level_at i (bit_and (expire / 2 ^ (8 + i * 6)) (2 ^ 6 - 1))

-- `add_node`
pub add_node : Timer → TimerNode → Timer
add_node t n =
    let p : Place = place t.time n.expire in record t { slot = put t.slot p (t.slot p ++ n ∷ []) }

pub add_nodes : Timer → List TimerNode → Timer
add_nodes t [] = t
add_nodes t (n ∷ ns) = add_nodes (add_node t n) ns

-- `move_list`
pub move_list : Timer → Place → Timer
move_list t p = add_nodes (record t { slot = put t.slot p [] }) (t.slot p)

-- The loop of `timer_shift`, with `n` rounds left at level `i`; `time` is the clock above that level.
pub shift_loop : ℕ → ℕ → ℕ → Timer → Timer
shift_loop zero i time t = t
shift_loop (suc n) i time t =
    let rest = shift_loop n (i + 1) (time / 2 ^ 6) t in
    let j : ℕ = bit_and time (2 ^ 6 - 1) in
    if bit_and t.time (2 ^ (8 + i * 6) - 1) == 0
    then (if j == 0 then rest else move_list t (level_at i j))
    else t

-- `timer_shift`
pub timer_shift : Timer → Timer
timer_shift t =
    let ct : ℕ = (t.time + 1) % 2 ^ 32 in
    let t' : Timer = record t { time = ct } in
    if ct == 0 then move_list t' (level_at 3 0) else shift_loop 4 0 (ct / 2 ^ 8) t'

-- `timer_execute`: the nodes that are dispatched.
pub timer_execute : Timer → List TimerNode × Timer
timer_execute t =
    let p : Place = near_at (bit_and t.time (2 ^ 8 - 1)) in
    (t.slot p, record t { slot = put t.slot p [] })

-- `timer_update`
pub timer_update : Timer → List TimerNode × Timer
timer_update t =
    let (early, t1) = timer_execute t in
    let (due, t2) = timer_execute (timer_shift t1) in (early ++ due, t2)

-- `timer_add`
pub timer_add : Timer → ℕ → ℕ → ℕ → Timer
timer_add t handle session time =
    add_node t (record { expire = (time + t.time) % 2 ^ 32; handle = handle; session = session })

-- So many calls of `timer_update`.
pub ticks : ℕ → Timer → Timer
ticks zero t = t
ticks (suc n) t = ticks n (timer_update t).1
