-- ===== src/Skynet/Socket.antt =====
-- 02_skynet/lib/skynet/skynet-src/socket_server.c: how the messages that services send reach one TCP
-- socket. A worker may write to the descriptor itself, under the socket's lock; the socket thread
-- takes commands from a pipe and writes what waits. What the kernel does is an argument.
pub mod Events
pub mod Sound
pub mod Writing
pub mod Moves
pub mod Closing
pub mod Sending
pub mod Messages
use game_server_development.Prelude.{
  ℕ, zero, suc, ◌+◌, ◌-◌, ◌*◌, ◌/◌, ◌%◌, min, List, [], ◌∷◌, ◌++◌, map, Bool, true, false, not,
  ◌&&◌, ◌||◌, ltb, leb, ◌==◌, if◌then◌else◌, Option, none, some, ◌>>=◌, length, take, drop,
}

-- The types of a socket that the code can find in the calls below, and the rest of them.
pub data SocketType : Type 0 where
  invalid connected halfclose_read halfclose_write bind paccept : SocketType
  reserve plisten listen connecting : SocketType

abbrev pub is_type : SocketType → SocketType → Bool
is_type invalid invalid = true
is_type connected connected = true
is_type halfclose_read halfclose_read = true
is_type halfclose_write halfclose_write = true
is_type bind bind = true
is_type paccept paccept = true
is_type reserve reserve = true
is_type plisten plisten = true
is_type listen listen = true
is_type connecting connecting = true
is_type _ _ = false

-- `struct write_buffer`: `buffer` and `start` are the addresses of the object and of its first byte,
-- `offset` is how far `ptr` stands behind that, and `sz` is the rest of `bytes`. The code does not
-- keep the priority that the message was sent with.
pub record WriteBuffer : Type 0 where
  pub buffer : ℕ
  pub start : ℕ
  pub userobject : Bool
  pub bytes : List ℕ
  pub offset : ℕ
  pub low_priority : Bool

-- The bytes from `ptr` on.
abbrev pub rest : WriteBuffer → List ℕ
rest b = drop b.offset b.bytes

-- What `write` does: it takes at most so many bytes, or fails with an errno.
pub data WriteResult : Type 0 where
  wrote : ℕ → WriteResult
  again interrupted failed : WriteResult

-- A command in the pipe to the socket thread: 'D' and 'P', 'W', and 'K' with the flag to shut down.
pub data Command : Type 0 where
  sends : WriteBuffer → Command
  triggers : Command
  closes : Bool → Command

-- What the socket thread reports to skynet; -1 is `quiet`, and a warning has its size in KB.
pub data Report : Type 0 where
  quiet raised_error closed : Report
  warning got got_more : ℕ → Report

-- `struct socket` of a TCP socket, with its part of the pipe; `sending` is the low half of the
-- counter, and `dw` the buffer of a direct write that is not done. `written` are the bytes that
-- the kernel took, `freed` the buffers freed, and `accepted` the messages that senders handed over.
pub record Socket : Type 0 where
  pub kind : SocketType
  pub high : List WriteBuffer
  pub low : List WriteBuffer
  pub wb_size : ℕ
  pub sending : ℕ
  pub size : ℕ
  pub reading : Bool
  pub writing : Bool
  pub closing : Bool
  pub warn_size : ℕ
  pub dw : Option WriteBuffer
  pub pipe : List Command
  pub written : List ℕ
  pub freed : List ℕ
  pub accepted : List WriteBuffer

abbrev pub warning_size : ℕ
warning_size = 1024 * 1024

abbrev pub min_read_buffer : ℕ
min_read_buffer = 64

-- A socket of the given type as `new_fd` leaves it.
abbrev pub new_fd : SocketType → Bool → Socket
new_fd kind reading = record {
  kind = kind;
  high = [];
  low = [];
  wb_size = 0;
  sending = 0;
  size = min_read_buffer;
  reading = reading;
  writing = false;
  closing = false;
  warn_size = 0;
  dw = none;
  pipe = [];
  written = [];
  freed = [];
  accepted = [];
}

abbrev pub is_empty : List WriteBuffer → Bool
is_empty [] = true
is_empty (b ∷ bs) = false

abbrev pub is_none : Option WriteBuffer → Bool
is_none none = true
is_none (some b) = false

-- The buffers that `free_wb_list` frees.
abbrev pub buffers : List WriteBuffer → List ℕ
buffers [] = []
buffers (b ∷ bs) = b.buffer ∷ buffers bs

abbrev pub dw_buffers : Option WriteBuffer → List ℕ
dw_buffers none = []
dw_buffers (some b) = b.buffer ∷ []

-- `force_close`, which asserts that the socket is not being set up.
pub force_close : Socket → Option Socket
force_close s =
    if is_type s.kind invalid
    then some s
    else if is_type s.kind reserve
    then none
    else some (record s {
      kind = invalid;
      high = [];
      low = [];
      dw = none;
      freed = s.freed ++ (buffers s.high ++ (buffers s.low ++ dw_buffers s.dw));
    })

-- `close_write`, after a failed `write`.
pub close_write : Socket → Option (Report × Socket)
unfolding force_close
close_write s =
    if s.closing || is_type s.kind halfclose_read
    then (force_close s >>= λ s'. some (quiet, s'))
    else if is_type s.kind halfclose_write
    then some (quiet, s)
    else some (raised_error, record s { kind = halfclose_write; writing = false })

-- What `send_list_tcp` has done: whether `write` failed, the results of `write` that are left, the
-- list, the bytes written and the buffers freed.
pub record Progress : Type 0 where
  pub broken : Bool
  pub results : List WriteResult
  pub list : List WriteBuffer
  pub bytes : List ℕ
  pub done : List ℕ

-- `send_list_tcp` up to `close_write`, on a list of results of `write`; at its end the kernel takes
-- nothing more.
pub send_list : List WriteResult → List WriteBuffer → Progress
send_list [] bs = record { broken = false; results = []; list = bs; bytes = []; done = [] }
send_list (r ∷ rs) [] = record {
  broken = false;
  results = r ∷ rs;
  list = [];
  bytes = [];
  done = [];
}
send_list (interrupted ∷ rs) (b ∷ bs) = send_list rs (b ∷ bs)
send_list (again ∷ rs) (b ∷ bs) = record {
  broken = false;
  results = rs;
  list = b ∷ bs;
  bytes = [];
  done = [];
}
send_list (failed ∷ rs) (b ∷ bs) = record {
  broken = true;
  results = rs;
  list = b ∷ bs;
  bytes = [];
  done = [];
}
send_list (wrote k ∷ rs) (b ∷ bs) =
    let sz : ℕ = min k (length (rest b)) in
    let p = send_list rs bs in
    if sz == length (rest b)
    then record p { bytes = rest b ++ p.bytes; done = b.buffer ∷ p.done }
    else record {
      broken = false;
      results = rs;
      list = record b { offset = b.offset + sz } ∷ bs;
      bytes = take sz (rest b);
      done = [];
    }

-- `list_uncomplete`
pub list_uncomplete : List WriteBuffer → Bool
list_uncomplete [] = false
list_uncomplete (b ∷ bs) = not (b.start + b.offset == b.buffer)

-- `raise_uncomplete`, which asserts that the high list is empty.
pub raise_uncomplete : Socket → Option Socket
raise_uncomplete s = elim s.high [
  | b ∷ bs ↦ none
  | [] ↦ elim s.low [ [] ↦ none | b ∷ bs ↦ some (record s { high = b ∷ []; low = bs }) ]
]

-- Step 4 of `send_buffer_`: nothing waits.
pub finish_sending : Socket → Option (Report × Socket)
unfolding force_close
finish_sending s =
    if not (s.wb_size == 0)
    then none
    else if s.closing
    then (force_close s >>= λ s'. some (quiet, s'))
    else if ltb 0 s.warn_size
    then some (warning 0, record s { writing = false; warn_size = 0 })
    else some (quiet, record s { writing = false })

abbrev pub after_high : Socket → Progress → Socket
after_high s p = record s {
  high = p.list;
  wb_size = s.wb_size - length p.bytes;
  written = s.written ++ p.bytes;
  freed = s.freed ++ p.done;
}

abbrev pub after_low : Socket → Progress → Socket
after_low s p = record s {
  low = p.list;
  wb_size = s.wb_size - length p.bytes;
  written = s.written ++ p.bytes;
  freed = s.freed ++ p.done;
}

-- Steps 2 to 4 of `send_buffer_`, with the high list empty.
pub send_low : Socket → List WriteResult → Option (Report × Socket)
unfolding send_list list_uncomplete raise_uncomplete finish_sending close_write
send_low s rs =
    let p = send_list rs s.low in
    let s' : Socket = after_low s p in
    if p.broken
    then close_write s'
    else if list_uncomplete s'.low
    then (raise_uncomplete s' >>= λ t. some (quiet, t))
    else if is_empty s'.low
    then finish_sending s'
    else some (quiet, s')

-- `send_buffer_`
pub send_lists : Socket → List WriteResult → Option (Report × Socket)
unfolding send_list send_low list_uncomplete close_write
send_lists s rs =
    let p = send_list rs s.high in
    let s' : Socket = after_high s p in
    if list_uncomplete s.low
    then none
    else if p.broken
    then close_write s'
    else if is_empty s'.high
    then send_low s' p.results
    else some (quiet, s')

-- `send_buffer`: the rest of a direct write goes before the high list.
pub send_buffer : Socket → List WriteResult → Option (Report × Socket)
unfolding send_lists
send_buffer s rs = elim s.dw [
  | none ↦ send_lists s rs
  | some b ↦
      send_lists (record s { dw = none; high = b ∷ s.high; wb_size = s.wb_size + length (rest b) })
        rs
]

-- `append_sendbuffer` and `append_sendbuffer_low`
pub append_high : Socket → WriteBuffer → Socket
append_high s b = record s { high = s.high ++ b ∷ []; wb_size = s.wb_size + length (rest b) }

pub append_low : Socket → WriteBuffer → Socket
append_low s b = record s { low = s.low ++ b ∷ []; wb_size = s.wb_size + length (rest b) }

-- The warning at the end of `send_socket`.
pub warn : Socket → Report × Socket
warn s =
    if leb warning_size s.wb_size && leb s.warn_size s.wb_size
    then (
      warning (if s.wb_size % 1024 == 0 then s.wb_size / 1024 else s.wb_size / 1024 + 1),
      record s { warn_size = (if s.warn_size == 0 then warning_size * 2 else s.warn_size * 2) },
    )
    else (quiet, s)

-- A socket to which `send_socket` does not write.
abbrev pub refuses : Socket → Bool
refuses s =
    is_type s.kind invalid
    || is_type s.kind halfclose_write
    || is_type s.kind paccept
    || s.closing
    || is_type s.kind plisten
    || is_type s.kind listen

-- `send_socket`
pub send_socket : Socket → WriteBuffer → Report × Socket
unfolding warn append_high append_low
send_socket s b =
    if refuses s
    then (quiet, record s { freed = s.freed ++ b.buffer ∷ [] })
    else if is_empty s.high && is_empty s.low
    then warn (record (append_high s b) { writing = true })
    else if b.low_priority
    then warn (append_low s b)
    else warn (append_high s b)
