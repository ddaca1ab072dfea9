-- ===== src/Skynet/Gate/Frames.antt =====
-- The packets that a gate forwards are the packets of the stream, however it is cut into chunks.
use game_server_development.Prelude.{
  ℕ, zero, suc, ◌+◌, ◌-◌, ◌≤◌, ◌<◌, ◌≡◌, ◌≢◌, refl, sym, ap, ◌∙◌, subst, List, [], ◌∷◌, ◌++◌, map,
  false, leb, ◌==◌, if◌then◌else◌, Option, some, ◌>>=◌, length, take, drop, arith, append-nil,
  append_assoc, ◌⊎◌, inl, inr,
}
use game_server_development.Prelude.Int.{pos, negsuc}
use mathlib.Core.List.{map-append}
use game_server_development.Skynet.Databuffer
use game_server_development.Skynet.Databuffer.{Databuffer, MessagePool, readheader, reset}
use game_server_development.Skynet.Databuffer.Contents.{
  IsValid, contents, push_lem, read_lem, take-append, take_all, drop_over, drop-append, drop-length,
  reset_lem, empty-IsValid,
}
use game_server_development.Skynet.Databuffer.Header.{
  IsHeaderSize, IsPacket, limit, encode, All, Stands, before, Answers, partial, whole, Read,
  readheader-Read, encode_nil, at_end,
}
use game_server_development.Skynet.Gate.{
  Gate, Connection, Effect, forward_raw, forward_text, forward, forward_fd, read_body,
  dispatch_size, dispatch_loop, dispatch_message, feed,
}

-- Someone takes the packets of the connection.
abbrev pub HasReader : Gate → Connection → ℕ → Type 0
HasReader g c fd =
    (c.id ≡ some fd) × (fd ≢ 0) × ((g.broker ≢ 0) ⊎ ((c.agent ≢ 0) ⊎ (g.watchdog ≢ 0)))

-- Who: the broker before the agent before the watchdog.
abbrev pub reader : Gate → Connection → ℕ → List ℕ → Effect
reader g c fd =
    if g.broker == 0
    then (if c.agent == 0
        then forward_text g.watchdog fd
        else forward_raw c.client c.agent g.client_tag fd)
    else forward_raw 0 g.broker g.client_tag fd

forward_reads :
    (g : Gate) (c : Connection) (mp : MessagePool) (size fd : ℕ)
    → HasReader g c fd
    → forward g c mp size ≡ read_body c mp size (reader g c fd)
unfolding forward forward_fd
forward_reads g c mp size fd (i, nz, who) =
    let known : forward g c mp size ≡ forward_fd g c mp size fd = ground (arith, i) in
    known ∙ chosen who
  where
    chosen :
        (g.broker ≢ 0) ⊎ ((c.agent ≢ 0) ⊎ (g.watchdog ≢ 0))
        → forward_fd g c mp size fd ≡ read_body c mp size (reader g c fd)
    chosen (inl b) = ground (arith, b, nz)
    chosen (inr (inl a)) = ground (arith, a, nz)
    chosen (inr (inr w)) = ground (arith, w, nz)

-- What a packet that is there as a whole comes to.
forward_packet :
    (g : Gate) (c : Connection) (mp : MessagePool) (future p rest : List ℕ) (fd : ℕ)
    → HasReader g c fd
    → IsValid c.buffer
    → 0 < length p
    → length p ≤ c.buffer.size
    → contents c.buffer ++ future ≡ p ++ rest
    → (db : Databuffer) × (mp' : MessagePool) × (forward g c mp (length p)
        ≡ some (reader g c fd p ∷ [], record c { buffer = db }, mp'))
      × IsValid db
      × (contents db ++ future ≡ rest)
      × (db.size < c.buffer.size)
unfolding read_body
forward_packet g c mp future p rest fd who v pp le e =
    let (db, mp', done, valid, left, same, nodes, blocks) =
      read_lem c.buffer mp (length p) v pp le in
    (
      db,
      mp',
      forward_reads g c mp (length p) fd who ∙ ground (arith, done, front),
      valid,
      ap (λ b. b ++ future) left ∙ behind,
      omega (arith, v.size, valid.size, ap length left, drop-length (length p) (contents c.buffer)),
    )
  where
    enough : length p ≤ length (contents c.buffer)
    enough = omega (arith, v.size, le)

    front : take (length p) (contents c.buffer) ≡ p
    front =
        sym (take-append (length p) (contents c.buffer) future enough)
        ∙ ap (take (length p)) e
        ∙ take-append (length p) p rest (omega arith)
        ∙ take_all (length p) p (omega arith)

    from : (k : ℕ) → k ≡ 0 → drop k rest ≡ rest
    from k z = ap (λ j. drop j rest) z

    behind : drop (length p) (contents c.buffer) ++ future ≡ rest
    behind =
        sym (drop-append (length p) (contents c.buffer) future enough)
        ∙ ap (drop (length p)) e
        ∙ drop_over (length p) p rest (omega arith)
        ∙ from (length p - length p) (omega arith)

-- What the loop of `dispatch_message` comes to: it forwards some of the packets to come and leaves the
-- connection before the others.
pub record Dispatched (g : Gate) (c : Connection) (fd : ℕ) (future : List ℕ) (ps : List (List ℕ))
    (result : Option (List Effect × Connection × MessagePool)) : Type 0 where
  pub sent : List (List ℕ)
  pub rest : List (List ℕ)
  pub split : ps ≡ sent ++ rest
  pub buffer : Databuffer
  pub pool : MessagePool
  pub done : result ≡ some (map (reader g c fd) sent, record c { buffer = buffer }, pool)
  pub valid : IsValid buffer
  pub stands : Stands g.header_size buffer.header (contents buffer ++ future) rest
  pub last : future ≡ [] → rest ≡ []

-- One round, when the packet is not there as a whole.
pub round_partial :
    (fuel : ℕ) (g : Gate) (c : Connection) (mp : MessagePool) (id k : ℕ) (db : Databuffer)
    (mp' : MessagePool)
    → readheader c.buffer mp g.header_size ≡ some (negsuc k, db, mp')
    → dispatch_loop (suc fuel) g c mp id ≡ some ([], record c { buffer = db }, mp')
unfolding dispatch_loop dispatch_size
round_partial fuel g c mp id k db mp' e = rw (e, dispatch_loop)

-- One round that forwards a packet.
pub round_whole :
    (fuel : ℕ) (g : Gate) (c : Connection) (mp : MessagePool) (id n : ℕ) (db : Databuffer)
    (mp' : MessagePool) (out : List Effect) (c2 : Connection) (mp2 : MessagePool)
    → suc n < 0x1000000
    → readheader c.buffer mp g.header_size ≡ some (pos (suc n), db, mp')
    → forward g (record c { buffer = db }) mp' (suc n) ≡ some (out, c2, mp2)
    → dispatch_loop (suc fuel) g c mp id ≡ (
        dispatch_loop fuel g (record c2 { buffer = reset c2.buffer }) mp2 id >>= λ r.
        some (out ++ r.0, r.1, r.2))
unfolding dispatch_loop dispatch_size
round_whole fuel g c mp id n db mp' out c2 mp2 lt e f =
    let small : leb 0x1000000 (suc n) ≡ false = ground arith in
    rw (e, dispatch_loop, small, f, ◌>>=◌)

limit-le : (hs : ℕ) → limit hs ≤ 0x1000000
limit-le hs = ground arith

forward_one :
    (fuel : ℕ) (g : Gate) (c : Connection) (mp : MessagePool) (id fd : ℕ) (future p : List ℕ)
    (rest : List (List ℕ)) (db : Databuffer) (mp1 : MessagePool)
    → HasReader g c fd
    → IsHeaderSize g.header_size
    → IsPacket g.header_size p
    → All (IsPacket g.header_size) rest
    → readheader c.buffer mp g.header_size ≡ some (pos (length p), db, mp1)
    → IsValid db
    → db.size ≤ c.buffer.size
    → length p ≤ db.size
    → contents db ++ future ≡ p ++ encode g.header_size rest
    → ((c2 : Connection) (mp2 : MessagePool)
        → HasReader g c2 fd
        → IsValid c2.buffer
        → c2.buffer.size < c.buffer.size
        → Stands g.header_size c2.buffer.header (contents c2.buffer ++ future) rest
        → Dispatched g c2 fd future rest (dispatch_loop fuel g c2 mp2 id))
    → Dispatched g c fd future (p ∷ rest) (dispatch_loop (suc fuel) g c mp id)
forward_one fuel g c mp id fd future [] rest db mp1 who ih (pp, lim) good e v s le bytes again =
    absurd (omega arith)
forward_one fuel g c mp id fd future (x ∷ xs) rest db mp1 who ih (pp, lim) good e v s le bytes
      again =
    let p : List ℕ = x ∷ xs in
    let c1 : Connection = record c { buffer = db } in
    let (db2, mp2, f, v2, left, less) =
      forward_packet g c1 mp1 future p (encode g.header_size rest) fd who v pp le bytes in
    let (v3, same, h0, sz) = reset_lem db2 v2 in
    let d =
      again (record c { buffer = reset db2 }) mp2 who v3 (omega (arith, less, s, sz))
        (before h0 (ap (λ b. b ++ future) same ∙ left)) in
    record {
      sent = p ∷ d.sent;
      rest = d.rest;
      split = ap (λ r. p ∷ r) d.split;
      buffer = d.buffer;
      pool = d.pool;
      done =
          round_whole fuel g c mp id (length xs) db mp1 (reader g c fd p ∷ [])
            (record c { buffer = db2 }) mp2 (omega (arith, lim, limit-le g.header_size)) e f
          ∙ ap (λ r. r >>= λ r'. some (reader g c fd p ∷ r'.0, r'.1, r'.2)) d.done;
      valid = d.valid;
      stands = d.stands;
      last = d.last;
    }

loop-Dispatched :
    (fuel : ℕ) (g : Gate) (c : Connection) (mp : MessagePool) (id fd : ℕ) (future : List ℕ)
    (ps : List (List ℕ))
    → HasReader g c fd
    → IsHeaderSize g.header_size
    → IsValid c.buffer
    → All (IsPacket g.header_size) ps
    → Stands g.header_size c.buffer.header (contents c.buffer ++ future) ps
    → c.buffer.size < fuel
    → Dispatched g c fd future ps (dispatch_loop fuel g c mp id)
unfolding dispatch_loop
loop-Dispatched zero g c mp id fd future ps who ih v good st lt = absurd (omega arith)
loop-Dispatched (suc fuel) g c mp id fd future ps who ih v good st lt =
    next
      (λ c2 mp2 rest w v2 less gd s2.
        loop-Dispatched fuel g c2 mp2 id fd future rest w ih v2 gd s2 (omega (arith, less, lt)))
      (readheader-Read g.header_size c.buffer mp future ps ih v good st)
  where
    next :
        ((c2 : Connection) (mp2 : MessagePool) (rest : List (List ℕ))
          → HasReader g c2 fd
          → IsValid c2.buffer
          → c2.buffer.size < c.buffer.size
          → All (IsPacket g.header_size) rest
          → Stands g.header_size c2.buffer.header (contents c2.buffer ++ future) rest
          → Dispatched g c2 fd future rest (dispatch_loop fuel g c2 mp2 id))
        → Read g.header_size c.buffer mp future ps
        → Dispatched g c fd future ps (dispatch_loop (suc fuel) g c mp id)
    next again r = answered r.answers
      where
        answered :
            Answers g.header_size future ps r.result r.buffer
            → Dispatched g c fd future ps (dispatch_loop (suc fuel) g c mp id)
        answered (partial e s l) = record {
          sent = [];
          rest = ps;
          split = refl;
          buffer = r.buffer;
          pool = r.pool;
          done =
              round_partial fuel g c mp id 0 r.buffer r.pool
                (r.done ∙ ap (λ k. some (k, r.buffer, r.pool)) e);
          valid = r.valid;
          stands = s;
          last = l;
        }
        answered (whole p rest q e h le bytes) =
            let (gp, gs) = subst (All (IsPacket g.header_size)) q good in
            subst (λ k. Dispatched g c fd future k (dispatch_loop (suc fuel) g c mp id)) (sym q)
              (forward_one fuel g c mp id fd future p rest r.buffer r.pool who ih gp gs
                (r.done ∙ ap (λ k. some (k, r.buffer, r.pool)) e) r.valid r.shorter le bytes
                (λ c2 mp2 w v2 less s2. again c2 mp2 rest w v2 less gs s2))

-- One chunk.
message-Dispatched :
    (g : Gate) (c : Connection) (mp : MessagePool) (id fd : ℕ) (bytes future : List ℕ)
    (ps : List (List ℕ))
    → HasReader g c fd
    → IsHeaderSize g.header_size
    → IsValid c.buffer
    → All (IsPacket g.header_size) ps
    → Stands g.header_size c.buffer.header (contents c.buffer ++ (bytes ++ future)) ps
    → Dispatched g c fd future ps (dispatch_message g c mp id bytes)
unfolding dispatch_message
message-Dispatched g c mp id fd bytes future ps who ih v good st =
    let db : Databuffer = (Databuffer.push c.buffer mp bytes).0 in
    let mp' : MessagePool = (Databuffer.push c.buffer mp bytes).1 in
    let (v', e, h) = push_lem c.buffer mp bytes v in
    let d =
      loop-Dispatched (db.size + 2) g (record c { buffer = db }) mp' id fd future ps who ih v' good
        (subst (λ k. Stands g.header_size k (contents db ++ future) ps) (sym h)
          (subst (λ k. Stands g.header_size c.buffer.header k ps)
            (sym (append_assoc (contents c.buffer) bytes future) ∙ ap (λ k. k ++ future) (sym e))
            st))
        (omega arith) in
    record {
      sent = d.sent;
      rest = d.rest;
      split = d.split;
      buffer = d.buffer;
      pool = d.pool;
      done = d.done;
      valid = d.valid;
      stands = d.stands;
      last = d.last;
    }

All-split : (P : List ℕ → Type 0) (xs ys : List (List ℕ)) → All P (xs ++ ys) → All P ys
All-split P [] ys a = a
All-split P (x ∷ xs) ys (h, a) = All-split P xs ys a

-- The chunks of a stream, one after the other.
abbrev pub joined : List (List ℕ) → List ℕ
joined [] = []
joined (c ∷ cs) = c ++ joined cs

feed-Dispatched :
    (chunks : List (List ℕ)) (g : Gate) (c : Connection) (mp : MessagePool) (id fd : ℕ)
    (ps : List (List ℕ))
    → HasReader g c fd
    → IsHeaderSize g.header_size
    → IsValid c.buffer
    → All (IsPacket g.header_size) ps
    → Stands g.header_size c.buffer.header (contents c.buffer ++ joined chunks) ps
    → (chunks ≡ [] → ps ≡ [])
    → Dispatched g c fd [] ps (feed g c mp id chunks)
unfolding feed
feed-Dispatched [] g c mp id fd ps who ih v good st last = record {
  sent = [];
  rest = ps;
  split = refl;
  buffer = c.buffer;
  pool = mp;
  done = refl;
  valid = v;
  stands = st;
  last = λ e. last refl;
}
feed-Dispatched (b ∷ chunks) g c mp id fd ps who ih v good st last =
    let d = message-Dispatched g c mp id fd b (joined chunks) ps who ih v good st in
    let r =
      feed-Dispatched chunks g (record c { buffer = d.buffer }) d.pool id fd d.rest who ih d.valid
        (All-split (IsPacket g.header_size) d.sent d.rest
          (subst (All (IsPacket g.header_size)) d.split good))
        d.stands (λ e. d.last (ap joined e)) in
    record {
      sent = d.sent ++ r.sent;
      rest = r.rest;
      split = d.split ∙ ap (λ k. d.sent ++ k) r.split ∙ sym (append_assoc d.sent r.sent r.rest);
      buffer = r.buffer;
      pool = r.pool;
      done =
          rw (d.done, r.done)
            (ap (λ k. some (k, record c { buffer = r.buffer }, r.pool))
              (sym (map-append (reader g c fd) d.sent r.sent)));
      valid = r.valid;
      stands = r.stands;
      last = r.last;
    }

-- A gate with headers of two or four bytes, one of whose connections has a broker, an agent or a watchdog
-- to read it: however the encoding of packets is cut into the chunks that its socket receives, the gate
-- forwards exactly these packets, in order, and nothing is left over.
pub feed-encode :
    (chunks : List (List ℕ)) (g : Gate) (c : Connection) (mp : MessagePool) (id fd : ℕ)
    (ps : List (List ℕ))
    → HasReader g c fd
    → IsHeaderSize g.header_size
    → All (IsPacket g.header_size) ps
    → c.buffer ≡ Databuffer.empty
    → joined chunks ≡ encode g.header_size ps
    → (db : Databuffer) × (mp' : MessagePool) × (feed g c mp id chunks
        ≡ some (map (reader g c fd) ps, record c { buffer = db }, mp'))
      × (contents db ≡ [])
      × (db.header ≡ pos 0)
feed-encode chunks g c mp id fd ps who ih good fresh e =
    let (v, none_there) = empty-IsValid in
    let d =
      feed-Dispatched chunks g c mp id fd ps who ih (subst IsValid (sym fresh) v) good
        (subst (λ b. Stands g.header_size b.header (contents b ++ joined chunks) ps) (sym fresh)
          (before refl (ap (λ k. k ++ joined chunks) none_there ∙ e)))
        (λ z. encode_nil g.header_size ps ih (sym e ∙ ap joined z)) in
    let all : ps ≡ d.sent = d.split ∙ ap (λ k. d.sent ++ k) (d.last refl) ∙ append-nil d.sent in
    let (c0, h0) =
      at_end g.header_size d.buffer.header (contents d.buffer) d.rest d.stands (d.last refl) in
    (
      d.buffer,
      d.pool,
      d.done
          ∙ ap (λ k. some (map (reader g c fd) k, record c { buffer = d.buffer }, d.pool))
              (sym all),
      c0,
      h0,
    )
