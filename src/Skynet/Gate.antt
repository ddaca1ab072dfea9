-- ===== src/Skynet/Gate.antt =====
-- 02_skynet/lib/skynet/service-src/service_gate.c: the gate, which turns the bytes of client sockets
-- into packets for a broker, an agent or a watchdog. What it asks of the rest of skynet is a list of
-- effects.
pub mod Frames
pub mod Faults
mod Tests
use game_server_development.Prelude.{
  ℕ, zero, suc, ◌+◌, ◌-◌, ◌*◌, ◌^◌, List, [], ◌∷◌, ◌++◌, Bool, true, false, ltb, leb, ◌==◌,
  if◌then◌else◌, Option, none, some, ◌>>=◌, length, take, get_or, set, replicate,
}
use game_server_development.Prelude.Int.{ℤ, pos, negsuc}
use game_server_development.Skynet.Databuffer
use game_server_development.Skynet.Databuffer.{Databuffer, MessagePool, readheader, reset}
use game_server_development.Skynet.Hashid
use game_server_development.Skynet.Hashid.{Hashid}

-- What a gate asks for: closing, starting and writing to a socket, messages with the bytes of a packet
-- (to a watchdog they have the text "id data " in front), reports to the watchdog, and log lines.
pub data Effect : Type 0 where
  close_socket start_socket : ℕ → Effect
  send_socket : ℕ → List ℕ → Effect
  forward_raw : ℕ → ℕ → ℕ → ℕ → List ℕ → Effect
  forward_text : ℕ → ℕ → List ℕ → Effect
  report_open : ℕ → ℕ → List ℕ → Effect
  report_close : ℕ → ℕ → Effect
  log : Effect

-- `struct connection`; the id is none for -1.
pub record Connection : Type 0 where
  pub id : Option ℕ
  pub agent : ℕ
  pub client : ℕ
  pub remote_name : List ℕ
  pub buffer : Databuffer

abbrev pub no_connection : Connection
no_connection = record {
  id = none;
  agent = 0;
  client = 0;
  remote_name = [];
  buffer = Databuffer.empty;
}

-- `struct gate`; `mp` is the pool of nodes.
pub record Gate : Type 0 where
  pub listen_id : Option ℕ
  pub watchdog : ℕ
  pub broker : ℕ
  pub client_tag : ℕ
  pub header_size : ℕ
  pub hash : Hashid
  pub conn : List Connection
  pub mp : MessagePool

-- The body of a packet, read by one of the branches of `_forward`.
pub read_body :
    Connection
    → MessagePool
    → ℕ
    → (List ℕ → Effect)
    → Option (List Effect × Connection × MessagePool)
read_body c mp size effect =
    Databuffer.read c.buffer mp size >>= λ r. some (effect r.0 ∷ [], record c { buffer = r.1 }, r.2)

-- `_forward`, from a socket `fd`. Without a broker, an agent and a watchdog the packet stays.
pub forward_fd :
    Gate → Connection → MessagePool → ℕ → ℕ → Option (List Effect × Connection × MessagePool)
unfolding read_body
forward_fd g c mp size fd =
    if fd == 0
    then some ([], c, mp)
    else if (if g.broker == 0 then false else true)
    then read_body c mp size (forward_raw 0 g.broker g.client_tag fd)
    else if (if c.agent == 0 then false else true)
    then read_body c mp size (forward_raw c.client c.agent g.client_tag fd)
    else if (if g.watchdog == 0 then false else true)
    then read_body c mp size (forward_text g.watchdog fd)
    else some ([], c, mp)

pub forward : Gate → Connection → MessagePool → ℕ → Option (List Effect × Connection × MessagePool)
forward g c mp size = elim c.id [ none ↦ some ([], c, mp) | some fd ↦ forward_fd g c mp size fd ]

-- One round of the loop of `dispatch_message`, with the answer of `databuffer_readheader`; `again` is
-- the next round.
pub dispatch_size :
    Gate
    → Connection
    → MessagePool
    → ℕ
    → ℤ
    → (Connection → MessagePool → Option (List Effect × Connection × MessagePool))
    → Option (List Effect × Connection × MessagePool)
dispatch_size g c mp id (negsuc n) again = some ([], c, mp)
dispatch_size g c mp id (pos zero) again = again c mp
dispatch_size g c mp id (pos (suc n)) again =
    if leb 0x1000000 (suc n)
    then (let (db, mp') = Databuffer.clear c.buffer mp in
        some (close_socket id ∷ log ∷ [], record c { buffer = db }, mp'))
    else forward g c mp (suc n) >>= λ r.
        again (record r.1 { buffer = reset r.1.buffer }) r.2 >>= λ r'.
        some (r.0 ++ r'.0, r'.1, r'.2)

-- The loop of `dispatch_message`, on fuel.
pub dispatch_loop :
    ℕ → Gate → Connection → MessagePool → ℕ → Option (List Effect × Connection × MessagePool)
unfolding dispatch_size
dispatch_loop zero g c mp id = none
dispatch_loop (suc fuel) g c mp id = readheader c.buffer mp g.header_size >>= λ r.
    dispatch_size g (record c { buffer = r.1 }) r.2 id r.0
      (λ c' mp'. dispatch_loop fuel g c' mp' id)

-- `dispatch_message`. Each round but the last takes a byte from the buffer, or clears a header that
-- was there at the start.
pub dispatch_message :
    Gate → Connection → MessagePool → ℕ → List ℕ → Option (List Effect × Connection × MessagePool)
dispatch_message g c mp id bytes =
    let (db, mp') = Databuffer.push c.buffer mp bytes in
    dispatch_loop (db.size + 2) g (record c { buffer = db }) mp' id

-- `struct skynet_socket_message`
pub data SocketMessage : Type 0 where
  received : ℕ → List ℕ → SocketMessage
  connected closed failed : ℕ → SocketMessage
  accepted : ℕ → ℕ → List ℕ → SocketMessage
  warned : ℕ → ℕ → SocketMessage

-- `_report`
pub report : Gate → Effect → List Effect
report g e = if g.watchdog == 0 then [] else e ∷ []

pub is_listen : Option ℕ → ℕ → Bool
is_listen none id = false
is_listen (some x) id = x == id

-- The case of `SKYNET_SOCKET_TYPE_DATA`
pub on_data : Gate → ℕ → List ℕ → Option (List Effect × Gate)
on_data g id bytes = elim (Hashid.lookup g.hash id) [
  | none ↦ some (log ∷ close_socket id ∷ [], g)
  | some slot ↦ dispatch_message g (get_or g.conn slot no_connection) g.mp id bytes >>= λ r.
      some (r.0, record g { conn = set g.conn slot r.1; mp = r.2 })
]

-- The case of `SKYNET_SOCKET_TYPE_CONNECT`
pub on_connect : Gate → ℕ → List Effect × Gate
on_connect g id = if is_listen g.listen_id id then ([], g) else elim (Hashid.lookup g.hash id) [
  | none ↦ (log ∷ close_socket id ∷ [], g)
  | some slot ↦ ([], g)
]

-- The case of `SKYNET_SOCKET_TYPE_CLOSE` and `SKYNET_SOCKET_TYPE_ERROR`
pub on_close : Gate → ℕ → List Effect × Gate
unfolding report
on_close g id =
    let (found, hash) = Hashid.remove g.hash id in
    elim found [
      | none ↦ ([], g)
      | some slot ↦
          (let (db, mp) = Databuffer.clear (get_or g.conn slot no_connection).buffer g.mp in
            (
              report g (report_close g.watchdog id),
              record g { hash = hash; conn = set g.conn slot no_connection; mp = mp },
            ))
    ]

-- The case of `SKYNET_SOCKET_TYPE_ACCEPT`, with its two assertions.
pub on_accept : Gate → ℕ → ℕ → List ℕ → Option (List Effect × Gate)
unfolding report is_listen
on_accept g id ud name =
    if is_listen g.listen_id id
    then (if Hashid.full g.hash
        then some (close_socket ud ∷ [], g)
        else Hashid.insert g.hash ud >>= λ r.
            let c : Connection = record (get_or g.conn r.0 no_connection) {
              id = some ud;
              remote_name = take 31 name;
            } in
            some (
              report g (report_open g.watchdog ud c.remote_name) ++ log ∷ [],
              record g { hash = r.1; conn = set g.conn r.0 c },
            ))
    else none

-- `dispatch_socket_message`
pub dispatch_socket_message : Gate → SocketMessage → Option (List Effect × Gate)
unfolding on_data on_connect on_close on_accept
dispatch_socket_message g (received id bytes) = on_data g id bytes
dispatch_socket_message g (connected id) = some (on_connect g id)
dispatch_socket_message g (closed id) = some (on_close g id)
dispatch_socket_message g (failed id) = some (on_close g id)
dispatch_socket_message g (accepted id ud name) = on_accept g id ud name
dispatch_socket_message g (warned id ud) = some (log ∷ [], g)

-- `_forward_agent`
pub forward_agent : Gate → ℕ → ℕ → ℕ → Gate
forward_agent g fd agent client = elim (Hashid.lookup g.hash fd) [
  | none ↦ g
  | some slot ↦ record g {
    conn =
        set g.conn slot
          (record (get_or g.conn slot no_connection) { agent = agent; client = client });
  }
]

-- The case of `PTYPE_CLIENT` in `_cb`: the last four bytes of the message are the id of a socket, the
-- lowest first; the others are written to it.
pub on_client : Gate → List ℕ → List Effect
on_client g msg =
    let sz : ℕ = length msg in
    let uid : ℕ =
      get_or msg (sz - 4) 0
      + get_or msg (sz - 3) 0 * 2 ^ 8
      + get_or msg (sz - 2) 0 * 2 ^ 16
      + get_or msg (sz - 1) 0 * 2 ^ 24 in
    if leb sz 4 then log ∷ [] else elim (Hashid.lookup g.hash uid) [
      | none ↦ log ∷ []
      | some slot ↦ send_socket uid (take (sz - 4) msg) ∷ []
    ]

-- `dispatch_message` for each of the chunks that a socket receives.
pub feed :
    Gate
    → Connection
    → MessagePool
    → ℕ
    → List (List ℕ)
    → Option (List Effect × Connection × MessagePool)
feed g c mp id [] = some ([], c, mp)
feed g c mp id (bytes ∷ chunks) = dispatch_message g c mp id bytes >>= λ r.
    feed g r.1 r.2 id chunks >>= λ r'. some (r.0 ++ r'.0, r'.1, r'.2)
