-- ===== src/Skynet/Socket/Events/Tests.antt =====
-- Runs of a socket on concrete inputs.
use game_server_development.Prelude.{
  ℕ, ◌+◌, ◌≡◌, refl, List, [], ◌∷◌, ◌++◌, Bool, true, false, some, none, arith,
}
use game_server_development.Skynet.Socket.{
  WriteBuffer, wrote, interrupted, Socket, connected, invalid, is_type, refuses, new_fd,
  force_close, close_write, send_list, list_uncomplete, raise_uncomplete, finish_sending, send_low,
  send_lists, send_buffer, append_high, append_low, warn, send_socket,
}
use game_server_development.Skynet.Socket.Events.{
  SendBuffer, memory, object, Event, worker_sends, worker_sends_low, command, writable,
  clone_buffer, free_buffer, nomore_sending_data, can_direct_write, direct_write, request_send,
  send, send_lowpriority, dec_sending_ref, ctrl_cmd, read_pipe, event, run,
}
use game_server_development.Skynet.Socket.Sound.{concat, part, picks, dw_list}
use game_server_development.Skynet.Socket.Events.Order.{waiting, run-messages}
use game_server_development.Skynet.Socket.Events.Faults.{low_object_aborts}

abbrev mem : ℕ → List ℕ → SendBuffer
mem p bytes = record { type = memory; buffer = p; bytes = bytes }

-- The bytes of an object lie 8 behind its address.
abbrev interior : ℕ → ℕ
interior p = p + 8

abbrev copy : ℕ → ℕ
copy p = p + 100

-- A direct write that is cut short, two messages behind it, of which the first has low priority.
abbrev script : List Event
script =
    worker_sends (mem 1 (10 ∷ 11 ∷ 12 ∷ [])) (wrote 1)
    ∷ worker_sends_low (mem 2 (20 ∷ 21 ∷ []))
    ∷ worker_sends (mem 3 (30 ∷ [])) (wrote 9)
    ∷ command
    ∷ command
    ∷ command
    ∷ writable (wrote 9 ∷ interrupted ∷ wrote 1 ∷ [])
    ∷ []

abbrev after : List Event → List ℕ × List ℕ
unfolding run event send send_lowpriority can_direct_write nomore_sending_data clone_buffer
    free_buffer direct_write request_send read_pipe ctrl_cmd send_socket dec_sending_ref append_high
    append_low warn send_buffer send_lists send_low send_list list_uncomplete raise_uncomplete
    finish_sending close_write force_close
after es = elim (run interior copy (new_fd connected true) es) [
  | none ↦ ([], [])
  | some s ↦ (s.written, s.freed)
]

-- The message of low priority goes before the other, since the lists were empty, and it is not mixed
-- with it.
writes_in_order :
    after (script ++ writable (wrote 1 ∷ wrote 1 ∷ []) ∷ [])
    ≡ (10 ∷ 11 ∷ 12 ∷ 20 ∷ 21 ∷ 30 ∷ [], 1 ∷ 2 ∷ 3 ∷ [])
unfolding run event send send_lowpriority can_direct_write nomore_sending_data clone_buffer
    free_buffer direct_write request_send read_pipe ctrl_cmd send_socket dec_sending_ref append_high
    append_low warn send_buffer send_lists send_low send_list list_uncomplete raise_uncomplete
    finish_sending close_write force_close
writes_in_order = refl

run-messages_example :
    (s : Socket) × (run interior copy (new_fd connected true) script ≡ some s)
    × (done : List WriteBuffer) × (is_type s.kind invalid ≡ false
        → s.written ≡ concat done ++ part (dw_list s.dw ++ s.high))
    × (refuses s ≡ false → (p : Bool) → picks p (done ++ waiting s) ≡ picks p s.accepted)
run-messages_example =
    run-messages interior copy true script
      (tt, (λ e. absurd (cc e), (tt, (tt, (tt, (tt, (tt, tt)))))))

abbrev thing : SendBuffer
thing = record { type = object; buffer = 5; bytes = 50 ∷ [] }

abbrev with_object : Socket
unfolding clone_buffer
with_object = record (new_fd connected true) {
  low = clone_buffer interior copy true thing ∷ [];
  wb_size = 1;
  writing = true;
}

low_object_aborts_example : send_buffer with_object (wrote 1 ∷ []) ≡ none
unfolding clone_buffer
low_object_aborts_example =
    low_object_aborts interior copy thing [] with_object (wrote 1 ∷ []) refl
      (λ e. absurd (omega (arith, e))) refl

-- A message of low priority and then an object of low priority get there.
object_reaches_low :
    run interior copy (new_fd connected true) (
      worker_sends_low (mem 1 (10 ∷ []))
      ∷ worker_sends_low thing
      ∷ command
      ∷ command
      ∷ writable (wrote 9 ∷ [])
      ∷ [])
    ≡ none
unfolding run event send send_lowpriority can_direct_write nomore_sending_data clone_buffer
    free_buffer direct_write request_send read_pipe ctrl_cmd send_socket dec_sending_ref append_high
    append_low warn send_buffer send_lists send_low send_list list_uncomplete raise_uncomplete
    finish_sending close_write force_close
object_reaches_low = refl
