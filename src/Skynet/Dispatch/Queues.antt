-- ===== src/Skynet/Dispatch/Queues.antt =====
-- The steps that move a queue between the global queue and a thread.
use game_server_development.Prelude.{
  ℕ, ◌≡◌, ◌≤◌, ◌<◌, refl, ap, List, [], ◌∷◌, ◌++◌, true, ◌||◌, length, get_or, arith,
}
use game_server_development.Skynet.Dispatch.{
  Node, Thread, popping, waiting, grabbing, swapping, pushing, letting, done, go, globalmq_push,
  globalmq_pop, swap,
}
use game_server_development.Skynet.Dispatch.Count.{queued, holds, total_of}
use game_server_development.Skynet.Dispatch.Sound.{IsValid, one-le, used_alive}
use game_server_development.Skynet.Dispatch.Frame.{moved, Balanced}
use game_server_development.Skynet.Dispatch.References.{Succeeds, thread-le, globalmq_push_fresh}

pub globalmq_pop-IsValid :
    (v : Node) (t : ℕ)
    → t < length v.threads
    → get_or v.threads t done ≡ popping
    → IsValid v
    → IsValid (globalmq_pop v t)
unfolding globalmq_pop
globalmq_pop-IsValid v t lt e inv = popped v.global_queue refl
  where
    popped :
        (q : List ℕ)
        → v.global_queue ≡ q
        → IsValid (elim q [
          | [] ↦ go v t waiting []
          | j ∷ q ↦ record (go v t (grabbing j) []) { global_queue = q }
        ])
    popped [] p =
        moved v t popping waiting [] v.global_queue lt e inv
          (λ j. record { hold = omega arith; refer = omega arith; delete = omega arith })
    popped (j ∷ q) p = moved v t popping (grabbing j) [] q lt e inv (λ i. record {
      hold = omega (arith, ap (queued i) p);
      refer = omega arith;
      delete = omega arith;
    })

pub swap-IsValid :
    (v : Node) (t i : ℕ)
    → t < length v.threads
    → get_or v.threads t done ≡ swapping i
    → IsValid v
    → IsValid (swap v t i)
unfolding swap
swap-IsValid v t i lt e inv = popped v.global_queue refl
  where
    popped :
        (q : List ℕ)
        → v.global_queue ≡ q
        → IsValid (elim q [
          | [] ↦ go v t (grabbing i) (letting i ∷ [])
          | j ∷ q ↦ record (go v t (pushing i j) []) { global_queue = q }
        ])
    popped [] p =
        moved v t (swapping i) (grabbing i) (letting i ∷ []) v.global_queue lt e inv
          (λ j. record { hold = omega arith; refer = omega arith; delete = omega arith })
    popped (j ∷ q) p = moved v t (swapping i) (pushing i j) [] q lt e inv (λ k. record {
      hold = omega (arith, ap (queued k) p);
      refer = omega arith;
      delete = omega arith;
    })

-- A thread that has a queue in hand is the only place where the queue is.
pub sole :
    (v : Node) (t i : ℕ) (x : Thread)
    → t < length v.threads
    → get_or v.threads t done ≡ x
    → 1 ≤ holds i x
    → IsValid v
    → ((v.context i).alive ≡ true)
      × (queued i v.global_queue ≡ 0)
      × (total_of (holds i) v.threads ≡ 1)
sole v t i x lt e h inv =
    let some_hold = thread-le v (holds i) t x lt e in
    let alive = used_alive (inv i) (omega (arith, some_hold, h)) in
    let few = (inv i).owned alive in
    let most = one-le ((v.context i).in_global || (v.context i).release) in
    (alive, omega (arith, few, most, some_hold, h), omega (arith, few, most, some_hold, h))

-- A thread that has a queue in hand puts it back in the global queue.
pub globalmq_push-IsValid :
    (v : Node) (t i : ℕ) (x y : Thread) (rest : List Thread)
    → t < length v.threads
    → get_or v.threads t done ≡ x
    → 1 ≤ holds i x
    → IsValid v
    → ((j : ℕ) → Balanced j v.global_queue x (v.global_queue ++ i ∷ []) y rest)
    → Succeeds (globalmq_push (go v t y rest) i)
globalmq_push-IsValid v t i x y rest lt e h inv balanced =
    let (alive, absent, held) = sole v t i x lt e h inv in
    (
      _,
      globalmq_push_fresh (go v t y rest) i alive absent,
      moved v t x y rest (v.global_queue ++ i ∷ []) lt e inv balanced,
    )
