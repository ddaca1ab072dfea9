-- ===== src/Skynet/Netpack/Serve.antt =====
-- The loop around the filter, of 02_skynet/lib/skynet/lualib/snax/gateserver.lua with a handler that does
-- not block, and what it hands on of the chunks of many descriptors while none of them is opened or
-- closed: `connection` says which are open.
use game_server_development.Prelude.{
  ℕ, zero, suc, ◌<◌, ◌≡◌, sym, ap, ◌∙◌, subst, List, [], ◌∷◌, ◌++◌, Bool, if◌then◌else◌, map,
  append-nil, Option, none, some, ◌>>=◌, arith, length, Option-cases, inl, inr,
}
use game_server_development.Prelude.Ring.{length-unroll}
use game_server_development.Skynet.Netpack.{
  Netpack, netpack, blank, Queue, Answer, nothing, more, data_of, filter_data, lpop, hash_fd,
}
use game_server_development.Skynet.Netpack.Ring.{count, count-lt, contents, Took, lpop-Popped}
use game_server_development.Skynet.Netpack.Chains.{search_in}
use game_server_development.Skynet.Netpack.Packets.{stream, taken_in, taken}
use game_server_development.Skynet.Netpack.Steps.{IsQueue, Fed, Same, same_hash-IsQueue}

-- `dispatch_msg`: what the handler gets of a packet.
unfoldable pub dispatch_msg : (ℕ → Bool) → Netpack → List Netpack
dispatch_msg connection p = if connection p.id then p ∷ [] else []

-- `dispatch_queue`: packets until `netpack.pop` gives none; the number is fuel.
pub dispatch_queue : (ℕ → Bool) → ℕ → Queue → Option (List Netpack × Queue)
unfolding lpop dispatch_msg
dispatch_queue connection zero q = none
dispatch_queue connection (suc fuel) q =
    let rest = dispatch_queue connection fuel (lpop q).1 in
    elim (lpop q).0 [
      | none ↦ some ([], (lpop q).1)
      | some p ↦ rest >>= λ r. some (dispatch_msg connection p ++ r.0, r.1)
    ]

-- `MSG[type]` for what the filter gave.
pub handle_answer : (ℕ → Bool) → Answer → Queue → Option (List Netpack × Queue)
unfolding dispatch_queue dispatch_msg
handle_answer connection nothing q = some ([], q)
handle_answer connection more q = dispatch_queue connection q.cap q
handle_answer connection (data_of p) q = some (dispatch_msg connection p, q)

-- Chunks from sockets, one after the other.
unfoldable pub serve : (ℕ → Bool) → Queue → List (ℕ × List ℕ) → Option (List Netpack × Queue)
unfolding filter_data handle_answer
serve connection q [] = some ([], q)
serve connection q ((fd, bytes) ∷ chunks) = filter_data (some q) fd bytes >>= λ r.
    handle_answer connection r.0 r.1 >>= λ s.
    serve connection s.1 chunks >>= λ t. some (s.0 ++ t.0, t.1)

-- The packets of open descriptors.
abbrev pub handed : (ℕ → Bool) → List Netpack → List Netpack
handed connection [] = []
handed connection (p ∷ ps) = dispatch_msg connection p ++ handed connection ps

-- A sound queue with nothing in its ring.
abbrev pub IsReady : Queue → Type 0
IsReady q = IsQueue q × (contents q ≡ [])

-- What `dispatch_queue` makes of a ring, given fuel for its packets.
dispatch_queue_lem :
    (connection : ℕ → Bool) (fuel : ℕ) (q : Queue)
    → IsQueue q
    → length (contents q) < fuel
    → (r : Queue) × (dispatch_queue connection fuel q ≡ some (handed connection (contents q), r))
      × IsReady r
      × (r.hash ≡ q.hash)
unfolding dispatch_queue
dispatch_queue_lem connection zero q v h = absurd (omega (arith, h))
dispatch_queue_lem connection (suc fuel) q v h =
    let (ring, hash, took) = lpop-Popped q v.ring in
    elim (Option-cases (lpop q).0) [
      | inl e ↦
          let (c, d) = subst (λ o. Took q o (lpop q).1) e took in
          (
            (lpop q).1,
            ap taking e ∙ ap (λ t. some (handed connection t, (lpop q).1)) (sym c),
            (same_hash-IsQueue q (lpop q).1 v ring hash, d),
            hash,
          )
      | inr (p, e) ↦
          let c = subst (λ o. Took q o (lpop q).1) e took in
          let (r, d, w, h2) =
            dispatch_queue_lem connection fuel (lpop q).1
              (same_hash-IsQueue q (lpop q).1 v ring hash) (omega (arith, h, ap length c)) in
          (
            r,
            ap taking e
                ∙ ap (λ o. o >>= λ r. some (dispatch_msg connection p ++ r.0, r.1)) d
                ∙ ap (λ t. some (handed connection t, r)) (sym c),
            w,
            h2 ∙ hash,
          )
    ]
  where
    taking : Option Netpack → Option (List Netpack × Queue)
    taking o = elim o [
      | none ↦ some ([], (lpop q).1)
      | some p ↦ dispatch_queue connection fuel (lpop q).1 >>= λ r.
          some (dispatch_msg connection p ++ r.0, r.1)
    ]

-- What the filter and `MSG` make of one chunk.
abbrev pub Handled : Queue → ℕ → List ℕ → Queue → List (List ℕ) → Type 0
Handled q fd bytes r xss =
    IsReady r × Same q fd r × (taken q fd ++ bytes ≡ stream xss ++ taken r fd)

pub handle_answer_lem :
    (connection : ℕ → Bool) (q : Queue) (fd : ℕ) (bytes : List ℕ) (a : Answer) (r : Queue)
    → IsReady q
    → (f : Fed q fd (taken q fd ++ bytes) (a, r))
    → (r' : Queue) × (handle_answer connection a r
        ≡ some (handed connection (map (netpack fd) f.packets), r'))
      × Handled q fd bytes r' f.packets
unfolding handle_answer
handle_answer_lem connection q fd bytes nothing r y f =
    let e =
      sym (ap (λ t. t ++ map (netpack fd) f.packets) y.1)
      ∙ f.delivered.1
      ∙ append-nil (contents r) in
    (
      r,
      ap (λ t. some (handed connection t, r)) (sym (e ∙ f.ring_still ∙ y.1)),
      ((f.queue, f.ring_still ∙ y.1), f.others, f.delivered.0),
    )
handle_answer_lem connection q fd bytes (data_of p) r y f =
    let e = sym (ap (λ t. t ++ map (netpack fd) f.packets) y.1) ∙ f.delivered.1 in
    let d : map (netpack fd) f.packets ≡ p ∷ [] = e ∙ ap (λ t. t ++ p ∷ []) (f.ring_still ∙ y.1) in
    (
      r,
      ap (λ t. some (t, r)) (sym (append-nil (dispatch_msg connection p)))
          ∙ ap (λ t. some (handed connection t, r)) (sym d),
      ((f.queue, f.ring_still ∙ y.1), f.others, f.delivered.0),
    )
handle_answer_lem connection q fd bytes more r y f =
    let e =
      sym (ap (λ t. t ++ map (netpack fd) f.packets) y.1)
      ∙ f.delivered.1
      ∙ append-nil (contents r) in
    let (r', d, w, h) = dispatch_queue_lem connection r.cap r f.queue (
      omega
        (arith, count-lt r f.queue.ring, length-unroll blank r.ring r.cap r.head 0 (count r))) in
    (
      r',
      d ∙ ap (λ t. some (handed connection t, r')) (sym e),
      (
        w,
        λ o n. ap (λ k. search_in (k (hash_fd o)) o) h ∙ f.others o n,
        f.delivered.0
            ∙ ap (λ k. stream f.packets ++ taken_in (search_in (k (hash_fd fd)) fd)) (sym h),
      ),
    )
