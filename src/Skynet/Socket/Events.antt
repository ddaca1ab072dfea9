-- ===== src/Skynet/Socket/Events.antt =====
-- What workers and the socket thread do to one socket, one call after the other: a call that holds
-- the socket's lock is one step, and so is a command.
pub mod Workers
pub mod Commands
pub mod Order
pub mod Faults
mod Tests
use game_server_development.Prelude.{
  ℕ, zero, suc, ◌*◌, ◌/◌, min, List, [], ◌∷◌, ◌++◌, Bool, true, false, not, ◌&&◌, ◌||◌, ltb, ◌==◌,
  if◌then◌else◌, Option, none, some, ◌>>=◌, length, take,
}
use game_server_development.Skynet.Socket.{
  invalid, connected, halfclose_read, halfclose_write, is_type, WriteBuffer, WriteResult, wrote,
  again, interrupted, failed, Command, sends, triggers, closes, Report, quiet, raised_error, closed,
  got, got_more, Socket, connecting, listen, is_empty, is_none, min_read_buffer, force_close,
  send_buffer, send_socket,
}

-- `struct socket_sendbuffer`
pub data BufferType : Type 0 where
  memory object rawpointer : BufferType

pub record SendBuffer : Type 0 where
  pub type : BufferType
  pub buffer : ℕ
  pub bytes : List ℕ

-- `clone_buffer` and what `send_object_init` makes of its result: the interface of objects has the
-- bytes of one at `interior`, and a raw pointer is copied to `copy`.
pub clone_buffer : (ℕ → ℕ) → (ℕ → ℕ) → Bool → SendBuffer → WriteBuffer
clone_buffer interior copy low_priority b = elim b.type [
  | memory ↦ record {
    buffer = b.buffer;
    start = b.buffer;
    userobject = false;
    bytes = b.bytes;
    offset = 0;
    low_priority = low_priority;
  }
  | object ↦ record {
    buffer = b.buffer;
    start = interior b.buffer;
    userobject = true;
    bytes = b.bytes;
    offset = 0;
    low_priority = low_priority;
  }
  | rawpointer ↦ record {
    buffer = copy b.buffer;
    start = copy b.buffer;
    userobject = false;
    bytes = b.bytes;
    offset = 0;
    low_priority = low_priority;
  }
]

-- `free_buffer`, and `free_func` of a buffer that was written.
pub free_buffer : SendBuffer → List ℕ
free_buffer b = elim b.type [ memory ↦ b.buffer ∷ [] | object ↦ b.buffer ∷ [] | rawpointer ↦ [] ]

-- How many of `n` bytes the kernel takes; `socket_server_send` takes an error for 0.
abbrev pub taken : WriteResult → ℕ → ℕ
taken (wrote k) n = min k n
taken again n = 0
taken interrupted n = 0
taken failed n = 0

-- `nomore_sending_data`
pub nomore_sending_data : Socket → Bool
nomore_sending_data s =
    (is_empty s.high && is_empty s.low && is_none s.dw && (s.sending == 0))
    || is_type s.kind halfclose_write

-- `can_direct_write` of a TCP socket with the id that is asked for.
pub can_direct_write : Socket → Bool
unfolding nomore_sending_data
can_direct_write s = nomore_sending_data s && is_type s.kind connected

-- The write of `socket_server_send` under the lock: what is left of `b`, a clone of the buffer with
-- the address `frees` to free, waits in `dw`, and the socket thread is asked to write it.
pub direct_write : Socket → WriteBuffer → List ℕ → WriteResult → Socket
direct_write s b frees r =
    let n : ℕ = taken r (length b.bytes) in
    let s' : Socket = record s {
      written = s.written ++ take n b.bytes;
      accepted = s.accepted ++ b ∷ [];
    } in
    if n == length b.bytes
    then record s' { freed = s.freed ++ frees }
    else record s' { dw = some (record b { offset = n }); pipe = s.pipe ++ triggers ∷ [] }

-- `inc_sending_ref` and the command in the pipe. At 0xffff the caller waits.
pub request_send : Socket → WriteBuffer → Socket
request_send s b = if s.sending == 0xffff then s else record s {
  sending = suc s.sending;
  pipe = s.pipe ++ sends b ∷ [];
  accepted = s.accepted ++ b ∷ [];
}

-- `socket_server_send`
pub send : (ℕ → ℕ) → (ℕ → ℕ) → Socket → SendBuffer → WriteResult → Socket
unfolding direct_write request_send clone_buffer can_direct_write free_buffer
send interior copy s b r =
    if is_type s.kind invalid || s.closing
    then record s { freed = s.freed ++ free_buffer b }
    else if can_direct_write s
    then direct_write s (clone_buffer interior copy false b) (free_buffer b) r
    else request_send s (clone_buffer interior copy false b)

-- `socket_server_send_lowpriority`
pub send_lowpriority : (ℕ → ℕ) → (ℕ → ℕ) → Socket → SendBuffer → Socket
unfolding request_send clone_buffer free_buffer
send_lowpriority interior copy s b =
    if is_type s.kind invalid
    then record s { freed = s.freed ++ free_buffer b }
    else request_send s (clone_buffer interior copy true b)

-- `close_read`
pub close_read : Socket → Socket
close_read s = record s { kind = halfclose_read; reading = false }

-- `close_socket`
pub close_socket : Socket → Bool → Option (Report × Socket)
unfolding nomore_sending_data force_close close_read
close_socket s shutdown =
    let shutdown_read : Bool = is_type s.kind halfclose_read in
    if is_type s.kind invalid
    then some (quiet, s)
    else if shutdown || nomore_sending_data s
    then (force_close s >>= λ s'. some ((if shutdown_read then quiet else closed), s'))
    else if shutdown_read
    then some (quiet, record s { closing = true })
    else some (closed, close_read (record s { closing = true }))

-- `dec_sending_ref`, which asserts that there is something to count down.
pub dec_sending_ref : Socket → Option Socket
dec_sending_ref s = elim s.sending [ zero ↦ none | suc n ↦ some (record s { sending = n }) ]

-- `ctrl_cmd` on the commands above; `trigger_write` is the second.
pub ctrl_cmd : Socket → Command → Option (Report × Socket)
unfolding send_socket dec_sending_ref close_socket
ctrl_cmd s (sends b) = let (r, s') = send_socket s b in dec_sending_ref s' >>= λ s''. some (r, s'')
ctrl_cmd s triggers =
    some (quiet, if is_type s.kind invalid then s else record s { writing = true })
ctrl_cmd s (closes shutdown) = close_socket s shutdown

-- The next command of the pipe.
pub read_pipe : Socket → Option (Report × Socket)
unfolding ctrl_cmd
read_pipe s = elim s.pipe [ [] ↦ some (quiet, s) | c ∷ cs ↦ ctrl_cmd (record s { pipe = cs }) c ]

-- What `read` gives: an error that is to be tried again, another error, the end, or so many bytes.
pub data ReadResult : Type 0 where
  nothing read_failed end : ReadResult
  read : ℕ → ReadResult

-- The end of the stream in `forward_message_tcp`.
pub forward_end : Socket → Option (Report × Socket)
unfolding nomore_sending_data force_close close_read
forward_end s =
    if s.closing
    then (if nomore_sending_data s
        then (force_close s >>= λ s'. some (quiet, s'))
        else some (quiet, s))
    else if is_type s.kind halfclose_read
    then some (quiet, s)
    else if is_type s.kind halfclose_write
    then (force_close s >>= λ s'. some (closed, s'))
    else some (closed, close_read s)

-- `forward_message_tcp`
pub forward_message_tcp : Socket → ReadResult → Option (Report × Socket)
unfolding forward_end
forward_message_tcp s nothing = some (quiet, s)
forward_message_tcp s read_failed = some (raised_error, s)
forward_message_tcp s end = forward_end s
forward_message_tcp s (read n) =
    if is_type s.kind halfclose_read
    then some (quiet, s)
    else if n == s.size
    then some (got_more n, record s { size = s.size * 2 })
    else if ltb min_read_buffer s.size && ltb (n * 2) s.size
    then some (got n, record s { size = s.size / 2 })
    else some (got n, s)

-- The end of `socket_server_poll`, for a descriptor that is closed on both sides.
pub poll_eof : Socket → Option (Report × Socket)
unfolding force_close
poll_eof s =
    let halfclose : Bool = is_type s.kind halfclose_read in
    force_close s >>= λ s'. some ((if halfclose then quiet else closed), s')

-- What happens to a socket. The descriptor may be found writable or readable also when neither is
-- asked for any more, by an event that was fetched before.
pub data Event : Type 0 where
  worker_sends : SendBuffer → WriteResult → Event
  worker_sends_low : SendBuffer → Event
  worker_closes : Bool → Event
  command eof : Event
  writable : List WriteResult → Event
  readable : ReadResult → Event

-- Whether `socket_server_poll` reads and writes a socket of this type.
abbrev pub polls : Socket → Bool
polls s = not (is_type s.kind invalid || is_type s.kind connecting || is_type s.kind listen)

pub event : (ℕ → ℕ) → (ℕ → ℕ) → Socket → Event → Option Socket
unfolding send send_lowpriority read_pipe send_buffer forward_message_tcp poll_eof
event interior copy s (worker_sends b r) = some (send interior copy s b r)
event interior copy s (worker_sends_low b) = some (send_lowpriority interior copy s b)
event interior copy s (worker_closes shutdown) =
    some (record s { pipe = s.pipe ++ closes shutdown ∷ [] })
event interior copy s command = read_pipe s >>= λ p. some p.1
event interior copy s (writable rs) =
    if polls s then (send_buffer s rs >>= λ p. some p.1) else some s
event interior copy s (readable r) =
    if polls s then (forward_message_tcp s r >>= λ p. some p.1) else some s
event interior copy s eof = if polls s then (poll_eof s >>= λ p. some p.1) else some s

pub run : (ℕ → ℕ) → (ℕ → ℕ) → Socket → List Event → Option Socket
run interior copy s [] = some s
run interior copy s (e ∷ es) = event interior copy s e >>= λ s'. run interior copy s' es
