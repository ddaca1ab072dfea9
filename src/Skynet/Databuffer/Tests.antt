-- ===== src/Skynet/Databuffer/Tests.antt =====
-- Runs of a buffer on concrete inputs.
use game_server_development.Prelude.{◌≡◌, refl, [], ◌∷◌, some, arith}
use game_server_development.Prelude.Int.{pos}
use game_server_development.Skynet.Databuffer.{Databuffer, MessagePool, read, read_chunks}
use game_server_development.Skynet.Databuffer.Contents.{IsValid, contents, join}

-- Five bytes in two chunks, the first of them read.
abbrev db : Databuffer
db = record { header = pos 0; offset = 1; size = 4; chunks = (1 ∷ 2 ∷ 3 ∷ []) ∷ (4 ∷ 5 ∷ []) ∷ [] }

abbrev pool : MessagePool
pool = record { blocks = 1; free = 1021 }

db-IsValid : IsValid db
unfolding contents join
db-IsValid = record { within = omega arith; size = refl }

read_across :
    read db pool 3
    ≡ some (
      2 ∷ 3 ∷ 4 ∷ [],
      record { header = pos 0; offset = 1; size = 1; chunks = (4 ∷ 5 ∷ []) ∷ [] },
      record { blocks = 1; free = 1022 },
    )
unfolding read read_chunks
read_across = refl
