-- ===== src/Skynet/Mq/Tests.antt =====
-- Runs of the queue on concrete inputs.
use game_server_development.Prelude.{
  ℕ, ◌≡◌, refl, List, [], ◌∷◌, true, false, arith, length, none, some,
}
use game_server_development.Skynet.Mq.{
  Message, blank, Mq, Op, put, take, create, mq_length, pop, push, expand, announce, write_tail,
  release_queue, mark_release, take_overload, run,
}
use game_server_development.Skynet.Mq.Invariant.{IsValid, contents}
use game_server_development.Skynet.Mq.Push.{push_lem}
use game_server_development.Skynet.Mq.Pop.{Raises, pop-Raises, release_queue_lem}
use game_server_development.Skynet.Mq.Client.{fifo_run, run-create}
use game_server_development.Prelude.Ring.{unroll}

abbrev msg : ℕ → Message
msg n = record { source = n; session = 1; payload = 0; sz = 0 }

-- A ring of three cells that holds 8, then 9, round its end.
abbrev wrapped : Mq
wrapped = record {
  handle = 5;
  cap = 3;
  head = 2;
  tail = 1;
  release = true;
  in_global = false;
  overload = 0;
  overload_threshold = 1;
  queue = msg 9 ∷ msg 7 ∷ msg 8 ∷ [];
}

wrapped-IsValid : IsValid wrapped
wrapped-IsValid = omega arith

contents-wrapped : contents wrapped ≡ msg 8 ∷ msg 9 ∷ []
unfolding unroll mq_length
contents-wrapped = refl

-- The third message fills the ring, which doubles.
push_grows :
    push blank wrapped (msg 4)
    ≡ some (
      record wrapped {
        cap = 6;
        head = 0;
        tail = 3;
        in_global = true;
        queue = msg 8 ∷ msg 9 ∷ msg 4 ∷ blank ∷ blank ∷ blank ∷ [];
      },
      true,
    )
unfolding push write_tail expand unroll announce
push_grows = refl

mark_release_once :
    (mark_release (record wrapped { release = false }) ≡ some (wrapped, true))
    × (mark_release wrapped ≡ none)
unfolding mark_release
mark_release_once = (refl, refl)

take_overload_resets : take_overload (record wrapped { overload = 7 }) ≡ (7, wrapped)
unfolding take_overload
take_overload_resets = refl

push_lem_example :
    (r : Mq) × (push blank wrapped (msg 4) ≡ some (r, true))
    × IsValid r
    × (contents r ≡ msg 8 ∷ msg 9 ∷ msg 4 ∷ [])
    × (r.in_global ≡ true)
unfolding unroll mq_length
push_lem_example = push_lem {q = wrapped} blank (msg 4) wrapped-IsValid (omega arith)

pop-Raises_example :
    Raises
      (length (contents (pop wrapped).1))
      0
      1
      (pop wrapped).1.overload
      (pop wrapped).1.overload_threshold
unfolding mq_length
pop-Raises_example = pop-Raises {q = wrapped} wrapped-IsValid (omega arith)

release_queue_lem_example : release_queue 3 wrapped ≡ some (some (msg 8 ∷ msg 9 ∷ []))
unfolding unroll mq_length
release_queue_lem_example = release_queue_lem 3 wrapped wrapped-IsValid (omega arith)

abbrev script : List Op
script = put (msg 1) ∷ put (msg 2) ∷ take ∷ take ∷ take ∷ []

run-create_example :
    run blank (create blank 7) script ≡ some (some (msg 1) ∷ some (msg 2) ∷ none ∷ [])
unfolding fifo_run
run-create_example = run-create blank 7 script (omega arith)
