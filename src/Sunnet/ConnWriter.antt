-- ===== src/Sunnet/ConnWriter.antt =====
-- 07_embed_lua/src/ConnWriter.cpp (the same file as in 06_tcp_network_module): the bytes that wait
-- to be written to one socket. The results of `write` are arguments; what the methods ask of the
-- rest of the server is a list of effects.
pub mod Loop
pub mod Stream
pub mod Again
mod Tests
use game_server_development.Prelude.{
  ℕ, zero, suc, ◌+◌, ◌-◌, ◌%◌, ◌^◌, min, List, [], ◌∷◌, ◌++◌, Bool, true, false, not, ◌&&◌, ◌||◌,
  ltb, leb, ◌==◌, if◌then◌else◌, Option, none, some, ◌>>=◌, length, take, drop,
}
use game_server_development.Prelude.Int.{ℤ, pos, negsuc, pos_part, ◌+ℤ◌, ltb_ℤ, leb_ℤ}

-- What the socket does with a `write`: it takes at most so many bytes, never more than it is given,
-- or `write` returns -1 with an errno.
pub data WriteResult : Type 0 where
  wrote : ℕ → WriteResult
  again interrupted failed : WriteResult

-- How many of `n` bytes the socket takes.
abbrev pub taken : WriteResult → ℕ → ℕ
taken (wrote k) n = min k n
taken _ n = 0

-- The number that `write` returns for `n` bytes.
abbrev pub ret : WriteResult → ℕ → ℤ
ret (wrote k) n = pos (min k n)
ret _ n = negsuc 0

abbrev pub is_again : WriteResult → Bool
is_again again = true
is_again _ = false

abbrev pub is_wrote : WriteResult → Bool
is_wrote (wrote k) = true
is_wrote _ = false

-- `WriteObject`
pub record WriteObject : Type 0 where
  pub start : ℤ
  pub len : ℕ
  pub buf : List ℕ

-- What the writer asks of the others.
pub data Effect : Type 0 where
  modify_event : Bool → Effect
  close_conn : Effect
  shutdown_read : Effect
  send_rw : Effect

-- `ConnWriter`, with the bytes that the socket has taken and the effects, the latest last.
pub record ConnWriter : Type 0 where
  pub is_closing : Bool
  pub write_list : List WriteObject
  pub sent : List ℕ
  pub effects : List Effect

abbrev pub fresh : ConnWriter
fresh = record { is_closing = false; write_list = []; sent = []; effects = [] }

-- The bytes `buf[start .. len)`; a negative start is a read before the buffer, which is undefined.
abbrev pub slice : ℤ → ℕ → List ℕ → Option (List ℕ)
slice (pos s) len buf = some (drop s (take len buf))
slice (negsuc s) len buf = none

-- The second case of a write: a part is written, or the socket's buffer is full.
abbrev pub is_partial : ℤ → ℕ → WriteResult → Bool
is_partial got len r =
    (ltb_ℤ (pos 0) got && ltb_ℤ got (pos len)) || (ltb_ℤ got (pos 0) && is_again r)

-- `ConnWriter::EntireWriteWhenEmpty`
pub entire_write_when_empty : ConnWriter → List ℕ → ℕ → WriteResult → ConnWriter
entire_write_when_empty w buf len r =
    let got : ℤ = ret r len in
    let w' : ConnWriter = record w { sent = w.sent ++ take (taken r len) buf } in
    if leb_ℤ (pos 0) got && (taken r len == len)
    then w'
    else if is_partial got len r
    then record w' {
      write_list = w'.write_list ++ record { start = got; len = len; buf = buf } ∷ [];
      effects = w'.effects ++ modify_event true ∷ [];
    }
    else w'

-- `ConnWriter::EntireWriteWhenNotEmpty`
pub entire_write_when_not_empty : ConnWriter → List ℕ → ℕ → ConnWriter
entire_write_when_not_empty w buf len = record w {
  write_list = w.write_list ++ record { start = pos 0; len = len; buf = buf } ∷ [];
}

-- `ConnWriter::EntireWrite`; the result of `write` is read only if the list is empty.
pub entire_write : ConnWriter → List ℕ → ℕ → WriteResult → ConnWriter
entire_write w buf len r = if w.is_closing then w else elim w.write_list [
  | [] ↦ entire_write_when_empty w buf len r
  | o ∷ os ↦ entire_write_when_not_empty w buf len
]

-- What `ConnWriter::LingerClose` asks for: the descriptor is closed only if nothing waits.
pub close_effects : List WriteObject → List Effect
close_effects [] = close_conn ∷ []
close_effects (o ∷ os) = []

-- `ConnWriter::LingerClose`
pub linger_close : ConnWriter → ConnWriter
unfolding close_effects
linger_close w =
    if w.is_closing
    then w
    else record w { is_closing = true; effects = w.effects ++ close_effects w.write_list }

-- `ConnWriter::WriteFrontObj` from its `write` on, for the size that this is given: whether an object
-- was written whole.
pub write_part :
    ConnWriter → WriteObject → List WriteObject → List ℕ → ℕ → WriteResult → ConnWriter × Bool
write_part w o os bytes len r =
    let got : ℤ = ret r len in
    let w' : ConnWriter = record w { sent = w.sent ++ take (taken r len) bytes } in
    if leb_ℤ (pos 0) got && (taken r len == len)
    then (record w' { write_list = os }, true)
    else if is_partial got len r
    then (record w' { write_list = record o { start = o.start +ℤ got } ∷ os }, false)
    else (w', false)

-- `ConnWriter::WriteFrontObj`, with the size as an `int`, of 32 bits. `none` is a read before the
-- buffer, or a negative size, which `write` takes for one beyond the buffer, if any of it is written.
pub write_front_obj : ConnWriter → List WriteObject → WriteResult → Option (ConnWriter × Bool)
unfolding write_part
write_front_obj w [] r = some (w, false)
write_front_obj w (o ∷ os) r = slice o.start o.len o.buf >>= λ bytes.
    let len : ℕ = (o.len - pos_part o.start) % 2 ^ 32 in
    if leb (2 ^ 31) len && is_wrote r then none else some (write_part w o os bytes len r)

-- The loop of `ConnWriter::OnWriteable`: `results i` is what the socket does with its i-th write.
-- The first number is fuel; `none` means that it ran out, or that `write_front_obj` has none.
pub write_loop : ℕ → ConnWriter → (ℕ → WriteResult) → ℕ → Option ConnWriter
write_loop zero w results i = none
write_loop (suc fuel) w results i = write_front_obj w w.write_list (results i) >>= λ p.
    let rest = write_loop fuel p.0 results (i + 1) in if p.1 then rest else some p.0

-- What `ConnWriter::OnWriteable` asks for after its loop, if nothing waits any more.
pub finish_effects : Bool → List WriteObject → List Effect
finish_effects is_closing [] =
    modify_event false ∷ (if is_closing then shutdown_read ∷ send_rw ∷ [] else [])
finish_effects is_closing (o ∷ os) = []

-- The end of `ConnWriter::OnWriteable`, after the loop.
pub finish_writeable : ConnWriter → ConnWriter
unfolding finish_effects
finish_writeable w = record w { effects = w.effects ++ finish_effects w.is_closing w.write_list }

-- `ConnWriter::OnWriteable`, where the connection is still there. The loop writes each object of
-- the list once at most, and may ask once more.
pub on_writeable : ConnWriter → (ℕ → WriteResult) → Option ConnWriter
on_writeable w results =
    write_loop (suc (length w.write_list)) w results 0 >>= λ w'. some (finish_writeable w')

-- What happens to a writer: the service writes, the socket becomes writable, the service closes.
pub data Event : Type 0 where
  writes : List ℕ → WriteResult → Event
  writable : (ℕ → WriteResult) → Event
  closes : Event

pub step : ConnWriter → Event → Option ConnWriter
step w (writes buf r) = some (entire_write w buf (length buf) r)
step w (writable results) = on_writeable w results
step w closes = some (linger_close w)

pub run : ConnWriter → List Event → Option ConnWriter
run w [] = some w
run w (e ∷ es) = step w e >>= λ w'. run w' es
