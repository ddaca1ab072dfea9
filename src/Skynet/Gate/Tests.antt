-- ===== src/Skynet/Gate/Tests.antt =====
-- Runs of the gate on concrete inputs.
use game_server_development.Prelude.{
  ℕ, ◌≡◌, refl, List, [], ◌∷◌, Option, some, arith, inl, inr, ◌>>=◌,
}
use game_server_development.Prelude.Int.{pos, negsuc}
use game_server_development.Skynet.Databuffer
use game_server_development.Skynet.Databuffer.{
  Databuffer, MessagePool, readheader, reset, ready, parse_header, read_chunks, take_node,
}
use game_server_development.Skynet.Databuffer.Contents.{contents}
use game_server_development.Skynet.Hashid
use game_server_development.Skynet.Gate.{
  Gate, Connection, Effect, forward_text, no_connection, dispatch_message, feed,
  dispatch_socket_message, on_accept, accepted,
}
use game_server_development.Skynet.Gate.Frames.{feed-encode}
use game_server_development.Skynet.Gate.Faults.{negative_header}

abbrev pool : MessagePool
pool = record { blocks = 0; free = 0 }

-- A gate with headers of two bytes and the watchdog 9.
abbrev gate : Gate
gate = record {
  listen_id = some 1;
  watchdog = 9;
  broker = 0;
  client_tag = 3;
  header_size = 2;
  hash = Hashid.init 4;
  conn = no_connection ∷ no_connection ∷ no_connection ∷ no_connection ∷ [];
  mp = pool;
}

abbrev client : Connection
client = record no_connection { id = some 5 }

-- Two packets, cut in the middle of a header and of a body.
abbrev chunks : List (List ℕ)
chunks = (0 ∷ []) ∷ (2 ∷ 7 ∷ []) ∷ (8 ∷ 0 ∷ 1 ∷ 6 ∷ []) ∷ []

feed-encode_example :
    (db : Databuffer) × (mp' : MessagePool) × (feed gate client pool 5 chunks
      ≡ some (
        forward_text 9 5 (7 ∷ 8 ∷ []) ∷ forward_text 9 5 (6 ∷ []) ∷ [],
        record client { buffer = db },
        mp',
      ))
    × (contents db ≡ [])
    × (db.header ≡ pos 0)
feed-encode_example =
    feed-encode chunks gate client pool 5 5 ((7 ∷ 8 ∷ []) ∷ (6 ∷ []) ∷ [])
      (refl, omega arith, inr (inr (omega arith))) (inl refl)
      ((omega arith, omega arith), ((omega arith, omega arith), tt)) refl refl

abbrev stalled : Connection
stalled = record client { buffer = record Databuffer.empty { header = negsuc 6 } }

negative_header_example :
    (dispatch_message gate stalled pool 5 (1 ∷ 2 ∷ [])
      ≡ some (
        [],
        record stalled { buffer = (Databuffer.push stalled.buffer pool (1 ∷ 2 ∷ [])).0 },
        (Databuffer.push stalled.buffer pool (1 ∷ 2 ∷ [])).1,
      ))
    × ((Databuffer.push stalled.buffer pool (1 ∷ 2 ∷ [])).0.header ≡ negsuc 6)
negative_header_example = negative_header gate stalled pool 5 6 (1 ∷ 2 ∷ []) refl

-- A client is accepted, with the id 5 in slot 1.
abbrev opened : Option (List Effect × Gate)
opened = dispatch_socket_message gate (accepted 1 5 [])

opened_at : (opened >>= λ r. Hashid.lookup r.1.hash 5) ≡ some 1
unfolding dispatch_socket_message on_accept Hashid.init Hashid.hash_cap Hashid.insert
    Hashid.free_slot Hashid.is_free Hashid.full Hashid.lookup Hashid.find_in Hashid.is_id
opened_at = refl
