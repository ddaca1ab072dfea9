-- ===== src/Skynet/Socket/Events/Faults.antt =====
-- Where `socket_server.c` does not do what it means to.
use game_server_development.Prelude.{
  Option-cases, if_true, ℕ, ◌+◌, ◌≡◌, ◌≢◌, ap, ◌∙◌, List, [], ◌∷◌, map, true, false, Option, some,
  none, length, inl, inr, arith,
}
use game_server_development.Skynet.Socket.{
  WriteBuffer, WriteResult, Socket, sends, halfclose_read, list_uncomplete, send_lists, send_buffer,
  rest,
}
use game_server_development.Skynet.Socket.Events.{
  SendBuffer, object, Event, worker_sends, worker_sends_low, worker_closes, command, eof, writable,
  readable, clone_buffer,
}

clone_uncomplete :
    (interior copy : ℕ → ℕ) (b : SendBuffer) (bs : List WriteBuffer)
    → b.type ≡ object
    → interior b.buffer ≢ b.buffer
    → list_uncomplete (clone_buffer interior copy true b ∷ bs) ≡ true
unfolding list_uncomplete clone_buffer
clone_uncomplete interior copy b bs t n = rw t (ground (arith, n))

uncomplete_aborts :
    (s : Socket) (rs : List WriteResult) → list_uncomplete s.low ≡ true → send_lists s rs ≡ none
unfolding send_lists
uncomplete_aborts s rs e = if_true _ _ e

-- An object whose bytes do not lie at its own address and that comes first in the low list, though
-- nothing of it was sent, looks as if a part had been: `send_buffer` fails by its assertion, whatever
-- `write` would do.
pub low_object_aborts :
    (interior copy : ℕ → ℕ) (b : SendBuffer) (bs : List WriteBuffer) (s : Socket)
    (rs : List WriteResult)
    → b.type ≡ object
    → interior b.buffer ≢ b.buffer
    → s.low ≡ clone_buffer interior copy true b ∷ bs
    → send_buffer s rs ≡ none
unfolding send_buffer
low_object_aborts interior copy b bs s rs t n l =
    let e : list_uncomplete s.low ≡ true =
      ap list_uncomplete l ∙ clone_uncomplete interior copy b bs t n in
    elim (Option-cases s.dw) [
      | inl d ↦
          ap (λ x. send_buffer (record s { dw = x }) rs) d
          ∙ uncomplete_aborts (record s { dw = none }) rs e
      | inr (x, d) ↦
          ap (λ y. send_buffer (record s { dw = y }) rs) d
          ∙ uncomplete_aborts
              (record s { dw = none; high = x ∷ s.high; wb_size = s.wb_size + length (rest x) }) rs
              e
    ]

-- A socket that is closing, with nothing to write and with the messages `bs` in the pipe.
abbrev idle : Socket → List WriteBuffer → Socket
idle s bs = record s {
  kind = halfclose_read;
  closing = true;
  high = [];
  low = [];
  dw = none;
  writing = false;
  reading = false;
  pipe = map sends bs;
  sending = length bs;
}

-- Whatever comes from services but a further close, and nothing from the descriptor.
abbrev pub IsQuiet : Event → Type 0
IsQuiet (worker_sends b r) = Unit
IsQuiet (worker_sends_low b) = Unit
IsQuiet (worker_closes x) = ⊥
IsQuiet command = Unit
IsQuiet eof = ⊥
IsQuiet (writable rs) = ⊥
IsQuiet (readable r) = ⊥

abbrev pub AllQuiet : List Event → Type 0
AllQuiet [] = Unit
AllQuiet (e ∷ es) = IsQuiet e × AllQuiet es

abbrev Idles : Option Socket → Type 0
Idles r = (s : Socket) × (bs : List WriteBuffer) × (r ≡ some (idle s bs))
