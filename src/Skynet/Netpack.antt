-- ===== src/Skynet/Netpack.antt =====
-- 02_skynet/lib/skynet/lualib-src/lua-netpack.c: packets of two bytes of size and the bytes, out of the
-- chunks that a socket gives. What waits for its end stands in a hash table, and whole packets that
-- come together in a ring.
pub mod Chains
pub mod Ring
pub mod Packets
pub mod Steps
pub mod Fill
pub mod Filter
pub mod Messages
pub mod Serve
pub mod Delivery
mod Tests
use game_server_development.Prelude.{
  ℕ, zero, suc, ◌+◌, ◌-◌, ◌*◌, ◌/◌, ◌%◌, ◌^◌, bit_or, List, [], ◌∷◌, ◌++◌, Bool, true, false, ltb,
  leb, ◌==◌, if◌then◌else◌, Option, none, some, ◌>>=◌, length, take, drop, get_or, set, replicate,
}
use game_server_development.Prelude.Ring.{unroll}

-- `QUEUESIZE` and `HASHSIZE`.
abbrev pub queue_size : ℕ
queue_size = 1024

abbrev pub hash_size : ℕ
hash_size = 4096

-- `struct netpack`
pub record Netpack : Type 0 where
  pub id : ℕ
  pub size : ℕ
  pub buffer : List ℕ

-- What a cell that was never written holds.
abbrev pub blank : Netpack
blank = record { id = 0; size = 0; buffer = [] }

-- `struct uncomplete`: `read` is -1 and the first byte is in `header` until `started`, and then the
-- length of `buffer`, the bytes that are there.
pub record Uncomplete : Type 0 where
  pub id : ℕ
  pub size : ℕ
  pub buffer : List ℕ
  pub started : Bool
  pub header : ℕ

-- `struct queue`: chains are lists.
pub record Queue : Type 0 where
  pub cap : ℕ
  pub head : ℕ
  pub tail : ℕ
  pub hash : ℕ → List Uncomplete
  pub ring : List Netpack

-- The queue that `get_queue` makes.
abbrev pub new_queue : Queue
new_queue = record {
  cap = queue_size;
  head = 0;
  tail = 0;
  hash = λ h. [];
  ring = replicate queue_size blank;
}

-- `get_queue`; none stands for nil.
abbrev pub get_queue : Option Queue → Queue
get_queue none = new_queue
get_queue (some q) = q

-- `hash_fd` of a descriptor that is not negative; the sum of `int`s wraps around.
pub hash_fd : ℕ → ℕ
hash_fd fd = (fd / 2 ^ 24 + fd / 2 ^ 12 + fd) % 2 ^ 32 % hash_size

abbrev pub assign {ℓ} : {A : Type ℓ} → (ℕ → A) → ℕ → A → ℕ → A
assign f i a j = if i == j then a else f j

-- The walk of `find_uncomplete` along a chain, which takes the entry out.
pub find_in_chain : List Uncomplete → ℕ → Option Uncomplete × List Uncomplete
find_in_chain [] fd = (none, [])
find_in_chain (uc ∷ ucs) fd =
    let rest = find_in_chain ucs fd in if uc.id == fd then (some uc, ucs) else (rest.0, uc ∷ rest.1)

-- `find_uncomplete` in a queue that is there.
pub find_uncomplete : Queue → ℕ → Option Uncomplete × Queue
unfolding find_in_chain
find_uncomplete q fd =
    let h : ℕ = hash_fd fd in
    let found = find_in_chain (q.hash h) fd in
    (found.0, record q { hash = assign q.hash h found.1 })

-- `save_uncomplete`, and the second half of `filter_data_` that puts an entry back.
pub save_uncomplete : Queue → Uncomplete → Queue
save_uncomplete q uc =
    let h : ℕ = hash_fd uc.id in record q { hash = assign q.hash h (uc ∷ q.hash h) }

-- `expand_queue`, whose loop is `unroll`.
pub expand_queue : Queue → Queue
expand_queue q = record q {
  cap = q.cap + queue_size;
  head = 0;
  tail = q.cap;
  ring = unroll blank q.ring q.cap q.head 0 q.cap ++ replicate queue_size blank;
}

-- `push_data`
pub push_data : Queue → Netpack → Queue
unfolding expand_queue
push_data q p =
    let q' : Queue = record q {
      ring = set q.ring q.tail p;
      tail = (if leb q.cap (q.tail + 1) then q.tail + 1 - q.cap else q.tail + 1);
    } in
    if q'.head == q'.tail then expand_queue q' else q'

abbrev pub netpack : ℕ → List ℕ → Netpack
netpack fd bytes = record { id = fd; size = length bytes; buffer = bytes }

-- `read_size`
pub read_size : ℕ → ℕ → ℕ
read_size a b = bit_or b (a * 2 ^ 8)

abbrev pub first_byte : ℕ → ℕ → Uncomplete
first_byte fd b = record { id = fd; size = 0; buffer = []; started = false; header = b }

abbrev pub begun : ℕ → ℕ → List ℕ → Uncomplete
begun fd size bytes = record { id = fd; size = size; buffer = bytes; started = true; header = 0 }

-- `push_more`; the number is fuel, and a read behind the buffer is none.
pub push_more : ℕ → Queue → ℕ → List ℕ → Option Queue
unfolding push_data save_uncomplete read_size
push_more zero q fd bytes = none
push_more (suc fuel) q fd [] = none
push_more (suc fuel) q fd (a ∷ []) = some (save_uncomplete q (first_byte fd a))
push_more (suc fuel) q fd (a ∷ b ∷ bytes) =
    let n : ℕ = read_size a b in
    let rest = push_more fuel (push_data q (netpack fd (take n bytes))) fd (drop n bytes) in
    if ltb (length bytes) n
    then some (save_uncomplete q (begun fd n bytes))
    else if ltb 0 (length bytes - n)
    then rest
    else some (push_data q (netpack fd (take n bytes)))

-- What `filter_data_` gives: nothing yet, one packet, or word that packets are in the ring.
pub data Answer : Type 0 where
  nothing more : Answer
  data_of : Netpack → Answer

-- `filter_data_` for a packet that has begun, with the bytes from those of the packet on.
pub fill : Queue → Uncomplete → ℕ → List ℕ → Option (Answer × Queue)
unfolding save_uncomplete push_data push_more
fill q uc fd bytes =
    let need : ℕ = uc.size - length uc.buffer in
    let p : Netpack = netpack fd (uc.buffer ++ take need bytes) in
    let left : List ℕ = drop need bytes in
    if ltb (length bytes) need
    then some (nothing, save_uncomplete q (record uc { buffer = uc.buffer ++ bytes }))
    else if length left == 0
    then some (data_of p, q)
    else (push_more (length left) (push_data q p) fd left >>= λ q'. some (more, q'))

-- `filter_data_` where nothing waits for the descriptor.
pub filter_fresh : Queue → ℕ → List ℕ → Option (Answer × Queue)
unfolding save_uncomplete push_data push_more read_size
filter_fresh q fd [] = none
filter_fresh q fd (a ∷ []) = some (nothing, save_uncomplete q (first_byte fd a))
filter_fresh q fd (a ∷ b ∷ bytes) =
    let n : ℕ = read_size a b in
    let left : List ℕ = drop n bytes in
    if ltb (length bytes) n
    then some (nothing, save_uncomplete q (begun fd n bytes))
    else if length bytes == n
    then some (data_of (netpack fd bytes), q)
    else (push_more (length left) (push_data q (netpack fd (take n bytes))) fd left >>= λ q'.
        some (more, q'))

-- `filter_data_` where something waits.
pub resume : Queue → Uncomplete → ℕ → List ℕ → Option (Answer × Queue)
unfolding fill read_size
resume q uc fd bytes = if uc.started then fill q uc fd bytes else elim bytes [
  | [] ↦ none
  | b ∷ rest ↦
      fill q (record uc { size = read_size uc.header b; buffer = []; started = true }) fd rest
]

-- `filter_data_`, with `get_queue` at its beginning.
pub filter_data : Option Queue → ℕ → List ℕ → Option (Answer × Queue)
unfolding find_uncomplete filter_fresh resume
filter_data q fd bytes =
    let (found, q') = find_uncomplete (get_queue q) fd in
    elim found [ none ↦ filter_fresh q' fd bytes | some uc ↦ resume q' uc fd bytes ]

-- `close_uncomplete`
pub close_uncomplete : Queue → ℕ → Queue
unfolding find_uncomplete
close_uncomplete q fd = (find_uncomplete q fd).1

-- `lpop`
pub lpop : Queue → Option Netpack × Queue
lpop q = if q.head == q.tail then (none, q) else (
  some (get_or q.ring q.head blank),
  record q { head = (if leb q.cap (q.head + 1) then 0 else q.head + 1) },
)

-- `lclear`, which keeps the ring's cells.
pub lclear : Queue → Queue
lclear q = record q { hash = λ h. []; head = 0; tail = 0 }

-- `write_size` in front of the bytes, and `lpack`; none is the error for what is too long.
abbrev pub write_size : ℕ → List ℕ → List ℕ
write_size n bytes = n / 2 ^ 8 % 2 ^ 8 ∷ n % 2 ^ 8 ∷ bytes

pub lpack : List ℕ → Option (List ℕ)
lpack bytes = if leb 65536 (length bytes) then none else some (write_size (length bytes) bytes)
