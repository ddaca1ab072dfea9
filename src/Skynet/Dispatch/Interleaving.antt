-- ===== src/Skynet/Dispatch/Interleaving.antt =====
-- Every interleaving of the threads.
use game_server_development.Prelude.{
  if_false, if_true, ℕ, zero, suc, ◌+◌, ◌≡◌, ◌≢◌, ◌<◌, refl, ap, ◌∙◌, List, [], ◌∷◌, Bool, true,
  false, ltb, ◌||◌, subst, length, get_or, arith, Bool-cases, inl, inr, ltb→lt, some, ◌>>=◌, none,
  Option, Option-cases, ◌&&◌, if◌then◌else◌, sym, ap₂,
}
use game_server_development.Skynet.Dispatch.{
  Node, Thread, Action, popping, waiting, grabbing, dropping, first, measuring, looping, swapping,
  pushing, delivering, letting, deleting, making, launching, mq_push, starting, failing, abandoning,
  replying, done, launches, sends, retires, steps, start, go, rounds, weight, launched, step, act,
  run,
}
use game_server_development.Skynet.Dispatch.Count.{
  one, queued, holds, refers, deletes, total_of, queued-append, total_of-replicate,
}
use game_server_development.Skynet.Dispatch.Sound.{IsValid, used_alive}
use game_server_development.Skynet.Dispatch.Frame.{one_same, moved}
use game_server_development.Skynet.Dispatch.References.{
  Succeeds, thread-le, context_release-IsValid, mark_release-IsValid,
}
use game_server_development.Skynet.Dispatch.Handles.{
  grab-IsValid, context_push-IsValid, retire-IsValid, launch-IsValid,
}
use game_server_development.Skynet.Dispatch.Queues.{
  globalmq_pop-IsValid, swap-IsValid, globalmq_push-IsValid,
}
use game_server_development.Skynet.Dispatch.Freeing.{mq_release-IsValid}
use game_server_development.Skynet.Dispatch.Messages.{
  dispatch_round-IsValid, mq_push-IsValid, making-IsValid,
}

-- Whether a thread may go on: it does not push a message to a queue that is not made.
abbrev goes_on : Node → Thread → Bool
goes_on v (delivering i m) = (v.context i).made
goes_on v _ = true

abbrev may_act : Node → Action → Bool
may_act v (steps t ok) =
    let ready = goes_on v (get_or v.threads t done) in
    if ltb t (length v.threads) then ready else true
may_act v _ = true

-- No message is pushed before its queue is made.
unfoldable pub calm : Node → List Action → Bool
unfolding act
calm v [] = true
calm v (a ∷ rest) = may_act v a && elim (act v a) [ none ↦ true | some v' ↦ calm v' rest ]

step-IsValid :
    (v : Node) (t : ℕ) (ok : Bool) (x : Thread)
    → t < length v.threads
    → get_or v.threads t done ≡ x
    → goes_on v x ≡ true
    → IsValid v
    → Succeeds (step v t ok x)
unfolding step launched
step-IsValid v t ok popping lt e g inv = (_, refl, globalmq_pop-IsValid v t lt e inv)
step-IsValid v t ok waiting lt e g inv = (
  _,
  refl,
  moved v t waiting popping [] v.global_queue lt e inv
      (λ j. record { hold = omega arith; refer = omega arith; delete = omega arith }),
)
step-IsValid v t ok (grabbing i) lt e g inv = (_, refl, grab-IsValid v t i lt e inv)
step-IsValid v t ok (dropping i) lt e g inv =
    mq_release-IsValid v t i (dropping i) popping lt e (λ j. (refl, refl, refl))
      (λ j. (refl, refl, refl)) inv
step-IsValid v t ok (first i) lt e g inv =
    dispatch_round-IsValid v t i (first i) (measuring i) lt e (λ j. (refl, refl, refl))
      (λ j. (refl, refl, refl)) inv
step-IsValid v t ok (measuring i) lt e g inv =
    let self = one_same i i refl in
    let alive =
      used_alive (inv i) (omega (arith, thread-le v (holds i) t (measuring i) lt e, self)) in
    let n = rounds (weight t) (length (v.context i).messages) in
    (
      _,
      if_true _ _ alive,
      moved v t (measuring i) (looping i n) [] v.global_queue lt e inv
          (λ j. record { hold = omega arith; refer = omega arith; delete = omega arith }),
    )
step-IsValid v t ok (looping i zero) lt e g inv = (
  _,
  refl,
  moved v t (looping i zero) (swapping i) [] v.global_queue lt e inv
      (λ j. record { hold = omega arith; refer = omega arith; delete = omega arith }),
)
step-IsValid v t ok (looping i (suc n)) lt e g inv =
    dispatch_round-IsValid v t i (looping i (suc n)) (looping i n) lt e (λ j. (refl, refl, refl))
      (λ j. (refl, refl, refl)) inv
step-IsValid v t ok (swapping i) lt e g inv = (_, refl, swap-IsValid v t i lt e inv)
step-IsValid v t ok (pushing i j) lt e g inv =
    globalmq_push-IsValid v t i (pushing i j) (grabbing j) (letting i ∷ []) lt e
      (omega (arith, one_same i i refl)) inv
      (λ k. record {
        hold = omega (arith, queued-append k v.global_queue (i ∷ []));
        refer = omega arith;
        delete = omega arith;
      })
step-IsValid v t ok (delivering i m) lt e g inv = mq_push-IsValid v t i m lt e g inv
step-IsValid v t ok (letting i) lt e g inv = context_release-IsValid v t i lt e inv
step-IsValid v t ok (deleting i) lt e g inv = mark_release-IsValid v t i lt e inv
step-IsValid v t ok (making i) lt e g inv = (_, refl, making-IsValid v t i lt e inv)
step-IsValid v t true (launching i) lt e g inv = (
  _,
  refl,
  moved v t (launching i) (starting i) (letting i ∷ []) v.global_queue lt e inv
      (λ j. record { hold = omega arith; refer = omega arith; delete = omega arith }),
)
step-IsValid v t false (launching i) lt e g inv = (
  _,
  refl,
  moved v t (launching i) (failing i) (letting i ∷ []) v.global_queue lt e inv
      (λ j. record { hold = omega arith; refer = omega arith; delete = omega arith }),
)
step-IsValid v t ok (starting i) lt e g inv =
    globalmq_push-IsValid v t i (starting i) done [] lt e (omega (arith, one_same i i refl)) inv
      (λ k. record {
        hold = omega (arith, queued-append k v.global_queue (i ∷ []));
        refer = omega arith;
        delete = omega arith;
      })
step-IsValid v t ok (failing i) lt e g inv = (
  _,
  refl,
  retire-IsValid (go v t (abandoning i) []) i (
      moved v t (failing i) (abandoning i) [] v.global_queue lt e inv
        (λ j. record { hold = omega arith; refer = omega arith; delete = omega arith })),
)
step-IsValid v t ok (abandoning i) lt e g inv =
    mq_release-IsValid v t i (abandoning i) done lt e (λ j. (refl, refl, refl))
      (λ j. (refl, refl, refl)) inv
step-IsValid v t ok (replying i m) lt e g inv = (
  _,
  refl,
  context_push-IsValid (go v t done []) i m (
      moved v t (replying i m) done [] v.global_queue lt e inv
        (λ j. record { hold = omega arith; refer = omega arith; delete = omega arith })),
)
step-IsValid v t ok done lt e g inv = (v, refl, inv)

-- In a state in which every context is sound, no action fails but a push to a queue that is not made,
-- and it keeps every context sound.
act-IsValid : (v : Node) (a : Action) → may_act v a ≡ true → IsValid v → Succeeds (act v a)
unfolding act
act-IsValid v launches m inv = (_, refl, launch-IsValid v inv)
act-IsValid v (sends i x) m inv = (_, refl, context_push-IsValid v i x inv)
act-IsValid v (retires i) m inv = (_, refl, retire-IsValid v i inv)
act-IsValid v (steps t ok) m inv = elim (Bool-cases (ltb t (length v.threads))) [
  | inl h ↦
      let (v', e, valid) =
        step-IsValid v t ok (get_or v.threads t done) (ltb→lt t (length v.threads) h) refl
          (sym (if_true _ _ h) ∙ m) inv in
      (v', if_true _ _ h ∙ e, valid)
  | inr h ↦ (v, if_false _ _ h, inv)
]

start-IsValid : (n : ℕ) → IsValid (start n)
start-IsValid n i = record {
  given = λ q. absurd (cc q);
  dead = λ q. omega (
    arith,
    total_of-replicate (holds i) n refl,
    total_of-replicate (refers i) n refl,
    total_of-replicate (deletes i) n refl,
  );
  owned = λ q. absurd (cc q);
  counted = omega (arith, total_of-replicate (refers i) n refl);
  ended = λ q. absurd (cc q);
  idle = λ q. refl;
}

-- What follows an action, as `calm` reads it.
abbrev after : List Action → Option Node → Bool
after rest o = elim o [ none ↦ true | some v' ↦ calm v' rest ]

abbrev goes : Node → Action → List Action → Bool
goes v a rest = after rest (act v a)

and_left : (a b : Bool) → (a && b) ≡ true → a ≡ true
and_left true b e = refl
and_left false b e = e

and_right : (a b : Bool) → (a && b) ≡ true → b ≡ true
and_right true b e = e
and_right false b e = absurd (cc e)

run-IsValid :
    (v : Node) (actions : List Action)
    → calm v actions ≡ true
    → IsValid v
    → Succeeds (run v actions)
unfolding run calm
run-IsValid v [] c inv = (v, refl, inv)
run-IsValid v (a ∷ rest) c inv =
    let (v', e, valid) = act-IsValid v a (and_left (may_act v a) (goes v a rest) c) inv in
    let (v'', e', valid') =
      run-IsValid v' rest (sym (ap (after rest) e) ∙ and_right (may_act v a) (goes v a rest) c)
        valid in
    (v'', ap (λ r. r >>= λ w. run w rest) e ∙ e', valid')

-- A run that goes through is calm.
act-none : (v : Node) (a : Action) → may_act v a ≡ false → act v a ≡ none
unfolding act step mq_push
act-none v launches m = absurd (cc m)
act-none v (sends i x) m = absurd (cc m)
act-none v (retires i) m = absurd (cc m)
act-none v (steps t ok) m = elim (Bool-cases (ltb t (length v.threads))) [
  | inl h ↦ if_true _ _ h ∙ stuck (get_or v.threads t done) (sym (if_true _ _ h) ∙ m)
  | inr h ↦ let k = sym (if_false _ _ h) ∙ m in absurd (cc k)
]
  where
    stuck : (x : Thread) → goes_on v x ≡ false → step v t ok x ≡ none
    stuck (delivering i x) m = if_false _ _ m
    stuck _ m = absurd (cc m)

run-calm : (v w : Node) (actions : List Action) → run v actions ≡ some w → calm v actions ≡ true
unfolding run calm
run-calm v w [] e = refl
run-calm v w (a ∷ rest) e = elim (Option-cases (act v a)) [
  | inl n ↦ let k = sym (ap (λ r. r >>= λ w. run w rest) n) ∙ e in absurd (cc k)
  | inr (v', s) ↦ elim (Bool-cases (may_act v a)) [
    | inl m ↦
        ap₂ ◌&&◌ m
          (ap (after rest) s ∙ run-calm v' w rest (sym (ap (λ r. r >>= λ w. run w rest) s) ∙ e))
    | inr m ↦ let n = act-none v a m in let k : none ≡ some v' = sym n ∙ s in absurd (cc k)
  ]
]

-- From a process with any number of workers and no context, every interleaving of launches, sends,
-- retirements and thread steps in which no message is pushed to a queue before skynet_mq_create has
-- made it goes through: no queue is linked twice or used after it is freed, no context is released without a reference or deleted twice. At its end, a queue that is not freed
-- stands once in the global queue or in one thread's hands if it is marked as global or released,
-- and nowhere otherwise, an unmarked queue is empty, and the reference count of every context is the
-- number of its holders.
pub run-start :
    (n : ℕ) (actions : List Action)
    → calm (start n) actions ≡ true
    → Succeeds (run (start n) actions)
run-start n actions c = run-IsValid (start n) actions c (start-IsValid n)

-- In a run from the start, messages never wait in a queue that no one will look at: while a queue
-- that is not freed holds a message, it stands once in the global queue or in one thread's hands.
pub run_attended :
    (n : ℕ) (actions : List Action) (v : Node) (i : ℕ)
    → run (start n) actions ≡ some v
    → (v.context i).alive ≡ true
    → (v.context i).messages ≢ []
    → queued i v.global_queue + total_of (holds i) v.threads ≡ 1
run_attended n actions v i e a ne =
    let (v', e', valid') = run-start n actions (run-calm (start n) v actions e) in
    let p : v' ≡ v = cc (e, e') in
    let s = (subst IsValid p valid') i in
    elim (Bool-cases (v.context i).in_global) [
      | inl g ↦ s.owned a ∙ ap (λ b. one (b || (v.context i).release)) g
      | inr g ↦ absurd (ne (s.idle g))
    ]
