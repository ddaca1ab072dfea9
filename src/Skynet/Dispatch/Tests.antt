-- ===== src/Skynet/Dispatch/Tests.antt =====
-- Runs of threads on concrete inputs.
use game_server_development.Prelude.{
  ℕ, ◌+◌, ◌*◌, ◌^◌, ◌≡◌, ◌≢◌, refl, List, [], ◌∷◌, ◌++◌, Bool, true, false, some, none, get_or,
  ◌>>=◌,
}
use game_server_development.Skynet.Mq.{Message}
use game_server_development.Skynet.Dispatch.{
  Node, Thread, Action, Thread, launches, sends, retires, steps, replying, done, ptype_error, start,
  run, act, step, launch, context_push, mq_push, globalmq_push, globalmq_pop, grab, dispatch_round,
  retire, waits, context_release, mark_release, mq_release,
}
use game_server_development.Skynet.Dispatch.Count.{queued, holds, total_of}
use game_server_development.Skynet.Dispatch.References.{Succeeds}
use game_server_development.Skynet.Dispatch.Interleaving.{calm, run-start, run_attended}

abbrev msg : ℕ → Message
msg n = record { source = 1; session = n; payload = 0; sz = 0 }

-- Thread 0 is the worker, thread 1 launches context 1, threads 2 and 3 are a reference and a sender.
abbrev script : List Action
script = launches ∷ steps 1 true ∷ steps 1 true ∷ sends 1 (msg 5) ∷ steps 3 true ∷ []

run-start_example : Succeeds (run (start 1) script)
unfolding calm act launch step context_push mq_push
run-start_example = run-start 1 script refl

abbrev ran : Node
unfolding run act launch step context_push mq_push
ran = elim (run (start 1) script) [ none ↦ start 1 | some v ↦ v ]

-- A message that comes before the queue is made.
too_early : run (start 1) (launches ∷ sends 1 (msg 5) ∷ steps 2 true ∷ []) ≡ none
unfolding run act launch step context_push mq_push
too_early = refl

cons-ne : (m : Message) (ms : List Message) → m ∷ ms ≢ []
cons-ne m ms e = absurd (cc e)

run_attended_example : queued 1 ran.global_queue + total_of (holds 1) ran.threads ≡ 1
unfolding run act launch step context_push mq_push
run_attended_example = run_attended 1 script ran 1 refl refl (cons-ne (msg 5) [])

-- The worker takes the queue, and the context handles the message.
handles_message :
    (run (start 1) (script ++ steps 1 true ∷ steps 0 true ∷ steps 0 true ∷ steps 0 true ∷ [])
      >>= λ v. some (v.context 1).handled)
    ≡ some (msg 5 ∷ [])
unfolding run act launch step context_push mq_push globalmq_push globalmq_pop grab dispatch_round
    waits
handles_message = refl

-- The context is retired and deleted before the worker comes, which frees the queue and answers the
-- sender of the message with an error.
abbrev retired : List Action
retired =
    script
    ++ steps 1 true
      ∷ steps 2 true
      ∷ steps 3 true
      ∷ retires 1
      ∷ steps 4 true
      ∷ steps 4 true
      ∷ steps 0 true
      ∷ steps 0 true
      ∷ steps 0 true
      ∷ []

abbrev outcome : Node → Bool × Thread
outcome v = ((v.context 1).alive, get_or v.threads 5 done)

frees_queue :
    (run (start 1) retired >>= λ v. some (outcome v))
    ≡ some (
      false,
      replying 1 (record { source = 1; session = 5; payload = 0; sz = ptype_error * 2 ^ 56 }),
    )
unfolding run act launch step context_push mq_push globalmq_push globalmq_pop grab retire waits
    context_release mark_release mq_release
frees_queue = refl
