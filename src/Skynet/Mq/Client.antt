-- ===== src/Skynet/Mq/Client.antt =====
-- Any sequence of calls on one queue, against a first-in first-out list.
use game_server_development.Prelude.{
  ℕ, ◌+◌, ◌*◌, ◌≤◌, ◌≡◌, refl, ap, ◌∙◌, List, [], ◌∷◌, ◌++◌, arith, length, Option, some,
  length-append,
}
use game_server_development.Skynet.Mq.{Message, Mq, int_max, Op, put, take, run, pop, create}
use game_server_development.Skynet.Mq.Invariant.{IsValid, contents, length-contents, create-IsValid}
use game_server_development.Skynet.Mq.Push.{push_lem}
use game_server_development.Skynet.Mq.Pop.{fifo_pop, pop_lem, pop-IsValid}

-- The same calls on a list.
unfoldable pub fifo_run : List Message → List Op → List (Option Message)
fifo_run ms [] = []
fifo_run ms (put m ∷ ops) = fifo_run (ms ++ m ∷ []) ops
fifo_run ms (take ∷ ops) = (fifo_pop ms).0 ∷ fifo_run (fifo_pop ms).1 ops

length-fifo_pop : (ms : List Message) → length (fifo_pop ms).1 ≤ length ms
length-fifo_pop [] = omega arith
length-fifo_pop (m ∷ ms) = omega arith

run-fifo_run :
    (junk : Message) (ops : List Op) (q : Mq)
    → IsValid q
    → (length (contents q) + length ops) * 2 ≤ int_max
    → run junk q ops ≡ some (fifo_run (contents q) ops)
unfolding run fifo_run
run-fifo_run junk [] q v h = refl
run-fifo_run junk (put m ∷ ops) q v h =
    let (r, pushed, valid, held, set) = push_lem junk m v (omega (arith, h, length-contents q)) in
    rw (pushed, ← held)
      (run-fifo_run junk ops r valid
        (omega (arith, h, ap length held, length-append (contents q) (m ∷ []))))
run-fifo_run junk (take ∷ ops) q v h =
    let e = pop_lem v in
    let held : contents (pop q).1 ≡ (fifo_pop (contents q)).1 = ap (λ p. p.1) e in
    let got : (pop q).0 ≡ (fifo_pop (contents q)).0 = ap (λ p. p.0) e in
    rw (
      run-fifo_run junk ops (pop q).1 (pop-IsValid v)
          (omega (arith, h, ap length held, length-fifo_pop (contents q))),
      held,
      got,
    )

-- On a new queue, any sequence of at most 2^30 - 1 pushes and pops succeeds, and every pop gives
-- what it gives on a first-in first-out list.
pub run-create :
    (junk : Message) (handle : ℕ) (ops : List Op)
    → length ops * 2 ≤ int_max
    → run junk (create junk handle) ops ≡ some (fifo_run [] ops)
run-create junk handle ops h =
    let (valid, empty) = create-IsValid junk handle in
    run-fifo_run junk ops (create junk handle) valid (omega (arith, h, ap length empty))
    ∙ ap (λ ms. some (fifo_run ms ops)) empty
