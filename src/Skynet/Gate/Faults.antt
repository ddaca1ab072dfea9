-- ===== src/Skynet/Gate/Faults.antt =====
-- How a gate loses the packets of a stream.
use game_server_development.Prelude.{ℕ, zero, suc, ◌+◌, ◌≡◌, ◌≢◌, refl, ◌∙◌, List, [], some, arith}
use game_server_development.Prelude.Int.{negsuc}
use game_server_development.Skynet.Databuffer
use game_server_development.Skynet.Databuffer.{Databuffer, MessagePool, readheader, ready, reset}
use game_server_development.Skynet.Databuffer.Header.{readheader-negative, push-header}
use game_server_development.Skynet.Gate.{
  Gate, Connection, dispatch_size, dispatch_loop, dispatch_message,
}
use game_server_development.Skynet.Gate.Frames.{round_partial}

-- A connection whose header of four bytes was 2^31 or more, a negative `int`, is neither read nor
-- closed again: the gate keeps all that it receives.
pub negative_header :
    (g : Gate) (c : Connection) (mp : MessagePool) (id n : ℕ) (bytes : List ℕ)
    → c.buffer.header ≡ negsuc n
    → (dispatch_message g c mp id bytes
        ≡ some (
          [],
          record c { buffer = (Databuffer.push c.buffer mp bytes).0 },
          (Databuffer.push c.buffer mp bytes).1,
        ))
      × ((Databuffer.push c.buffer mp bytes).0.header ≡ negsuc n)
unfolding dispatch_message dispatch_loop dispatch_size
negative_header g c mp id n bytes h =
    (rounds (db.size + 2) (omega arith), push-header c.buffer mp bytes ∙ h)
  where
    db : Databuffer
    db = (Databuffer.push c.buffer mp bytes).0

    mp' : MessagePool
    mp' = (Databuffer.push c.buffer mp bytes).1

    rounds :
        (k : ℕ)
        → k ≢ 0
        → dispatch_loop k g (record c { buffer = db }) mp' id
          ≡ some ([], record c { buffer = db }, mp')
    rounds zero nz = absurd (nz refl)
    rounds (suc k) nz =
        round_partial k g (record c { buffer = db }) mp' id n db mp'
          (readheader-negative g.header_size n db mp' (push-header c.buffer mp bytes ∙ h))
