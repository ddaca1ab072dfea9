-- ===== src/Sunnet/ConnWriter/Tests.antt =====
-- Runs of a connection's writer on concrete inputs.
use game_server_development.Prelude.{◌≡◌, refl, List, [], ◌∷◌, ◌++◌, true, false, some, arith}
use game_server_development.Prelude.Int.{pos}
use game_server_development.Sunnet.ConnWriter.{
  wrote, again, ConnWriter, fresh, Event, writes, writable, closes, modify_event, shutdown_read,
  send_rw, run, step, entire_write, entire_write_when_empty, entire_write_when_not_empty,
  linger_close, write_front_obj, write_part, write_loop, on_writeable, finish_writeable,
}
use game_server_development.Sunnet.ConnWriter.Loop.{All, IsSound, pending}
use game_server_development.Sunnet.ConnWriter.Stream.{accepted, run-stream}
use game_server_development.Sunnet.ConnWriter.Again.{again_repeats}

-- Three bytes of which the socket takes one, two more, the close, and a socket that takes the rest.
abbrev script : List Event
script =
    writes (1 ∷ 2 ∷ 3 ∷ []) (wrote 1)
    ∷ writes (4 ∷ 5 ∷ []) (wrote 9)
    ∷ closes
    ∷ writes (6 ∷ []) (wrote 9)
    ∷ writable (λ i. wrote 9)
    ∷ []

run-script :
    run fresh script
    ≡ some (record {
      is_closing = true;
      write_list = [];
      sent = 1 ∷ 2 ∷ 3 ∷ 4 ∷ 5 ∷ [];
      effects = modify_event true ∷ modify_event false ∷ shutdown_read ∷ send_rw ∷ [];
    })
unfolding run step entire_write entire_write_when_empty entire_write_when_not_empty linger_close
    on_writeable write_loop write_front_obj write_part finish_writeable
run-script = refl

run-stream_example :
    (w : ConnWriter) × (run fresh script ≡ some w)
    × (w.sent ++ pending w.write_list ≡ 1 ∷ 2 ∷ 3 ∷ 4 ∷ 5 ∷ [])
    × All IsSound w.write_list
unfolding accepted pending
run-stream_example =
    run-stream script fresh
      (
        (omega arith, (0, refl)),
        ((omega arith, (8, refl)), (tt, ((omega arith, (8, refl)), ((λ i. (8, refl)), tt)))),
      )
      tt

again_repeats_example :
    (w : ConnWriter) × (write_front_obj fresh
        (record { start = pos 1; len = 2; buf = 7 ∷ 8 ∷ [] } ∷ [])
        again
      ≡ some (w, false))
    × (w.sent ≡ [])
    × (pending w.write_list ≡ 7 ∷ 8 ∷ [])
unfolding pending
again_repeats_example = again_repeats fresh 0 2 (7 ∷ 8 ∷ []) [] (omega arith)
