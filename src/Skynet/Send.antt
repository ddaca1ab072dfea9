-- ===== src/Skynet/Send.antt =====
-- `skynet_send` and what it is made of in 02_skynet/lib/skynet/skynet-src/skynet_server.c and
-- skynet_harbor.c: sessions, the type in the size of a message, local and remote handles, and who
-- frees the data.
pub mod Sessions
pub mod Packing
pub mod Ownership
pub mod Hex
mod Tests
use game_server_development.Prelude.{
  ℕ, zero, suc, ◌+◌, ◌-◌, ◌*◌, ◌/◌, ◌%◌, ◌^◌, bit_and, bit_or, List, [], ◌∷◌, Bool, true, false,
  not, ◌&&◌, ◌||◌, ltb, leb, ◌==◌, if◌then◌else◌, Option, none, some, ◌>>=◌,
}
use game_server_development.Skynet.Mq.{Message}

-- `skynet_context_newsession` of `++ctx->session_id`, an `int` that wraps around, as the test for a
-- session that is not positive supposes.
pub newsession : ℕ → ℕ
newsession session_id =
    let session : ℕ = (session_id + 1) % 2 ^ 32 in
    if (session == 0) || leb (2 ^ 31) session then 1 else session

-- `MESSAGE_TYPE_MASK` and `MESSAGE_TYPE_SHIFT` for a `size_t` of 8 bytes, `PTYPE_TAG_DONTCOPY`,
-- `PTYPE_TAG_ALLOCSESSION`, `HANDLE_MASK`.
abbrev pub message_type_mask : ℕ
message_type_mask = 2 ^ 56 - 1

abbrev pub message_type_shift : ℕ
message_type_shift = 56

abbrev pub tag_dontcopy : ℕ
tag_dontcopy = 0x10000

abbrev pub tag_allocsession : ℕ
tag_allocsession = 0x20000

abbrev pub handle_mask : ℕ
handle_mask = 0xffffff

-- `skynet_harbor_init`
pub harbor_init : ℕ → ℕ
harbor_init harbor = harbor * 2 ^ 24 % 2 ^ 32

-- `skynet_harbor_message_isremote`
pub isremote : ℕ → ℕ → Bool
isremote harbor handle =
    let h : ℕ = bit_and handle (2 ^ 32 - 1 - handle_mask) in not (h == harbor) && not (h == 0)

-- The size and the type in one word: the end of `_filter_args`.
pub pack : ℕ → ℕ → ℕ
pack sz type = bit_or sz (bit_and type 0xff * 2 ^ message_type_shift % 2 ^ 64)

-- The type and the size that `dispatch_message` reads.
pub unpack : ℕ → ℕ × ℕ
unpack sz = (sz / 2 ^ message_type_shift, bit_and sz message_type_mask)

-- What `_filter_args` leaves: the last session given, the session, the data and the size.
pub record Args : Type 0 where
  pub session_id : ℕ
  pub session : ℕ
  pub payload : ℕ
  pub sz : ℕ

-- `_filter_args`, which asserts that no session is given where one is to be made; `copy` is where
-- `skynet_malloc` puts a copy, and 0 is NULL.
pub filter_args : (ℕ → ℕ) → ℕ → ℕ → ℕ → ℕ → ℕ → Option Args
filter_args copy session_id type session payload sz =
    let alloc : Bool = not (bit_and type tag_allocsession == 0) in
    let copied : Bool = (bit_and type tag_dontcopy == 0) && not (payload == 0) in
    let new : ℕ = newsession session_id in
    if alloc && not (session == 0)
    then none
    else some (record {
      session_id = (if alloc then new else session_id);
      session = (if alloc then new else session);
      payload = (if copied then copy payload else payload);
      sz = pack sz type;
    })

-- What `skynet_send` returns: a session, -1 and -2.
pub data Reply : Type 0 where
  answers : ℕ → Reply
  fails too_large : Reply

-- Where the message went, with its destination.
pub data Sent : Type 0 where
  nowhere : Sent
  local remote : ℕ → Message → Sent

pub record Outcome : Type 0 where
  pub reply : Reply
  pub last_session : ℕ
  pub sent : Sent
  pub freed : List ℕ

-- `skynet_free`, which takes NULL too.
abbrev pub free : ℕ → List ℕ
free p = if p == 0 then [] else p ∷ []

-- The assertion of `skynet_harbor_send`: whether there is a harbor service, and a type that is neither
-- PTYPE_SYSTEM nor PTYPE_HARBOR.
abbrev pub harbor_sends : Bool → ℕ → Bool
harbor_sends started type = started && (not (type == 4) && not (type == 5))

-- `skynet_send` after `_filter_args`; `started` says whether there is a harbor service, and `exists`
-- which handles `skynet_context_push` finds. none is a failed assertion.
pub send_args : Bool → (ℕ → Bool) → ℕ → ℕ → ℕ → Args → Option Outcome
send_args started exists harbor source destination a =
    let m : Message = record {
      source = source;
      session = a.session;
      payload = a.payload;
      sz = a.sz;
    } in
    let ends : Reply → Sent → List ℕ → Outcome =
      λ r s f. record { reply = r; last_session = a.session_id; sent = s; freed = f } in
    if destination == 0
    then (if a.payload == 0
        then some (ends (answers a.session) nowhere [])
        else some (ends fails nowhere (free a.payload)))
    else if isremote harbor destination
    then (if harbor_sends started (a.sz / 2 ^ message_type_shift)
        then some (ends (answers a.session) (remote destination m) [])
        else none)
    else if exists destination
    then some (ends (answers a.session) (local destination m) [])
    else some (ends fails nowhere (free a.payload))

-- `skynet_send` of context `handle`, with source 0 for that context.
pub send : Bool → (ℕ → Bool) → (ℕ → ℕ) → ℕ → ℕ → ℕ → ℕ → ℕ → ℕ → ℕ → ℕ → ℕ → Option Outcome
send started exists copy harbor handle session_id source destination type session payload sz =
    let large : Outcome = record {
      reply = too_large;
      last_session = session_id;
      sent = nowhere;
      freed = (if bit_and type tag_dontcopy == 0 then [] else free payload);
    } in
    let from : ℕ = if source == 0 then handle else source in
    if not (bit_and sz message_type_mask == sz)
    then some large
    else (filter_args copy session_id type session payload sz >>= λ a.
        send_args started exists harbor from destination a)

-- `hex[d]` of `id_to_hex`, as a character code.
pub hex_digit : ℕ → ℕ
hex_digit d = if ltb d 10 then 48 + d else 55 + d

-- The loop of `id_to_hex`, with `n` digits left.
pub hex_digits : ℕ → ℕ → List ℕ
hex_digits zero id = []
hex_digits (suc n) id = hex_digit (bit_and (id / 2 ^ (n * 4)) 0xf) ∷ hex_digits n id

-- `id_to_hex`: a colon and eight digits.
pub id_to_hex : ℕ → List ℕ
unfolding hex_digits
id_to_hex id = 58 ∷ hex_digits 8 id
