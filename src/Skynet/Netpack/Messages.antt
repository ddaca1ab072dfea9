-- ===== src/Skynet/Netpack/Messages.antt =====
-- `lfilter`: the filter for every type of socket message, and `lclear`.
use game_server_development.Prelude.{ℕ, ◌≡◌, refl, List, [], Option, none, some, ◌>>=◌, arith}
use game_server_development.Skynet.Netpack.{
  Queue, Answer, filter_data, close_uncomplete, find_uncomplete, lclear,
}
use game_server_development.Prelude.Ring.{unroll}
use game_server_development.Skynet.Netpack.Ring.{contents}
use game_server_development.Skynet.Netpack.Chains.{find_uncomplete_lem}
use game_server_development.Skynet.Netpack.Packets.{taken}
use game_server_development.Skynet.Netpack.Steps.{IsQueue, Same, found-Free, Free-taken}

-- `struct skynet_socket_message` by its type: the descriptor, the text behind the message and `ud`
-- where they are read.
pub data SocketMessage : Type 0 where
  data_message : ℕ → List ℕ → SocketMessage
  connect_message : ℕ → List ℕ → ℕ → SocketMessage
  close_message : ℕ → SocketMessage
  accept_message : ℕ → List ℕ → SocketMessage
  error_message : ℕ → List ℕ → SocketMessage
  warning_message : ℕ → ℕ → SocketMessage
  other_message : SocketMessage

-- What `lfilter` gives behind the queue.
pub data Filtered : Type 0 where
  packets : Answer → Filtered
  type_init : ℕ → List ℕ → ℕ → Filtered
  type_close : ℕ → Filtered
  type_open : ℕ → List ℕ → Filtered
  type_error : ℕ → List ℕ → Filtered
  type_warning : ℕ → ℕ → Filtered
  none_of_these : Filtered

abbrev end_of : Option Queue → ℕ → Option Queue
unfolding close_uncomplete
end_of none fd = none
end_of (some q) fd = some (close_uncomplete q fd)

-- `lfilter`
pub lfilter : Option Queue → SocketMessage → Option (Filtered × Option Queue)
unfolding filter_data close_uncomplete
lfilter q (data_message fd bytes) = filter_data q fd bytes >>= λ r. some (packets r.0, some r.1)
lfilter q (connect_message id text ud) = some (type_init id text ud, q)
lfilter q (close_message fd) = some (type_close fd, end_of q fd)
lfilter q (accept_message ud text) = some (type_open ud text, q)
lfilter q (error_message fd text) = some (type_error fd text, end_of q fd)
lfilter q (warning_message fd ud) = some (type_warning fd ud, q)
lfilter q other_message = some (none_of_these, q)

-- A queue where nothing is left of what waited for `fd`, and all else is as in `q`.
abbrev pub Ended : Queue → ℕ → Queue → Type 0
Ended q fd r = IsQueue r × (taken r fd ≡ []) × Same q fd r × (contents r ≡ contents q)

-- A close or an error of a descriptor drops what waits for it, so that the next stream of that
-- descriptor begins afresh; whole packets and other descriptors are untouched.
pub lfilter_end :
    (q : Queue) (fd : ℕ) (text : List ℕ)
    → IsQueue q
    → (r : Queue) × (lfilter (some q) (close_message fd) ≡ some (type_close fd, some r))
      × (lfilter (some q) (error_message fd text) ≡ some (type_error fd text, some r))
      × Ended q fd r
unfolding lfilter close_uncomplete find_uncomplete
lfilter_end q fd text v =
    let free = found-Free q fd v in
    let (found, t, none_left, same, gone) = find_uncomplete_lem q fd v.table in
    (
      close_uncomplete q fd,
      refl,
      refl,
      (free.0, Free-taken (find_uncomplete q fd).1 fd free, same, refl),
    )

-- `lclear` leaves a sound queue where nothing waits, in the ring or for a descriptor.
pub lclear_lem :
    (q : Queue)
    → IsQueue q
    → IsQueue (lclear q) × (contents (lclear q) ≡ []) × ((fd : ℕ) → taken (lclear q) fd ≡ [])
unfolding lclear
lclear_lem q v = (
  record {
    ring = record {
      storage = v.ring.storage;
      head_in = omega (arith, v.ring.head_in);
      tail_in = omega (arith, v.ring.head_in);
    };
    table = λ fd. omega arith;
    parts = λ fd. tt;
  },
  unfold unroll in refl,
  λ fd. refl,
)
