-- ===== src/Sunnet/ConnWriter/Again.antt =====
-- What happens where the socket takes nothing (EAGAIN).
use game_server_development.Prelude.{
  ℕ, zero, suc, ◌<◌, ◌≡◌, refl, ap, List, [], ◌∷◌, ◌++◌, false, some, length, drop, get_or, arith,
  append-nil,
}
use game_server_development.Prelude.Int.{pos}
use game_server_development.Sunnet.ConnWriter.{
  again, WriteObject, ConnWriter, write_part, write_front_obj,
}
use game_server_development.Sunnet.ConnWriter.Loop.{pending}

drop_back : (s : ℕ) (b : List ℕ) → s < length b → drop s b ≡ get_or b s 0 ∷ drop (suc s) b
drop_back s [] h = absurd (omega arith)
drop_back zero (x ∷ b) h = refl
drop_back (suc s) (x ∷ b) h = drop_back s b (omega arith)

-- A writable event whose write gives EAGAIN after s + 1 bytes of the front object went out: the
-- byte at s, which the socket has taken already, waits again before the others.
pub again_repeats :
    (w : ConnWriter) (s n : ℕ) (b : List ℕ) (os : List WriteObject)
    → s < length b
    → (w' : ConnWriter) × (write_front_obj w
          (record { start = pos (suc s); len = n; buf = b } ∷ os)
          again
        ≡ some (w', false))
      × (w'.sent ≡ w.sent)
      × (pending w'.write_list
          ≡ get_or b s 0 ∷ pending (record { start = pos (suc s); len = n; buf = b } ∷ os))
unfolding write_front_obj write_part pending
again_repeats w s n b os h = (
  record w { sent = w.sent ++ []; write_list = record { start = pos s; len = n; buf = b } ∷ os },
  ground arith,
  append-nil w.sent,
  ap (λ xs. xs ++ pending os) (drop_back s b h),
)
