-- ===== src/Skynet/Netpack/Delivery.antt =====
-- What went into `lpack` for a descriptor comes out of the gate, however the sockets cut it up.
use game_server_development.Prelude.{
  ℕ, ◌%◌, ◌<◌, ◌≡◌, refl, sym, ap, ap₂, ◌∙◌, subst, List, [], ◌∷◌, ◌++◌, map, append-nil,
  append_assoc, Bool, true, false, leb, ◌==◌, if◌then◌else◌, if_true, if_false, Option, some, ◌>>=◌,
  arith, length, Bool-cases, Option-cases, inl, inr, ==_iff, ==_refl, length-replicate,
}
use game_server_development.Prelude.Ring.{unroll}
use game_server_development.Skynet.Netpack.{
  Netpack, netpack, Queue, new_queue, queue_size, blank, write_size, lpack,
}
use game_server_development.Skynet.Netpack.Packets.{
  frame, stream, taken_in, taken, AreBytes, stream-append, stream_unique,
}
use game_server_development.Skynet.Netpack.Steps.{Same}
use game_server_development.Skynet.Netpack.Filter.{filter_data-Fed}
use game_server_development.Skynet.Netpack.Serve.{
  dispatch_msg, handed, serve, handle_answer, IsReady, handle_answer_lem,
}

-- What was sent for a descriptor, and the packets that were handed on for it.
abbrev pub sent : ℕ → List (ℕ × List ℕ) → List ℕ
sent fd [] = []
sent fd ((f, bytes) ∷ chunks) = (if f == fd then bytes else []) ++ sent fd chunks

abbrev pub got : ℕ → List Netpack → List (List ℕ)
got fd [] = []
got fd (p ∷ ps) = (if p.id == fd then p.buffer ∷ [] else []) ++ got fd ps

-- No chunk is empty, and chunks are of bytes.
abbrev pub AreChunks : List (ℕ × List ℕ) → Type 0
AreChunks [] = Unit
AreChunks ((fd, bytes) ∷ chunks) = (0 < length bytes) × AreBytes bytes × AreChunks chunks

-- Messages packed one after the other.
unfoldable pub packs : List (List ℕ) → Option (List ℕ)
unfolding lpack
packs [] = some []
packs (m ∷ ms) = lpack m >>= λ b. packs ms >>= λ bs. some (b ++ bs)

got-append : (fd : ℕ) (ps qs : List Netpack) → got fd (ps ++ qs) ≡ got fd ps ++ got fd qs
got-append fd [] qs = refl
got-append fd (p ∷ ps) qs =
    let h = if p.id == fd then p.buffer ∷ [] else [] in
    ap (λ t. h ++ t) (got-append fd ps qs) ∙ sym (append_assoc h (got fd ps) (got fd qs))

got-same : (fd : ℕ) (xss : List (List ℕ)) → got fd (map (netpack fd) xss) ≡ xss
got-same fd [] = refl
got-same fd (xs ∷ xss) = ap₂ (λ h t. h ++ t) (if_true (xs ∷ []) [] (==_refl fd)) (got-same fd xss)

got-other : (fd f : ℕ) (xss : List (List ℕ)) → (f == fd) ≡ false → got fd (map (netpack f) xss) ≡ []
got-other fd f [] e = refl
got-other fd f (xs ∷ xss) e = ap₂ (λ h t. h ++ t) (if_false (xs ∷ []) [] e) (got-other fd f xss e)

-- One chunk and what follows it, for its descriptor and for another.
joined :
    (t b s u v : List ℕ) (xss yss : List (List ℕ))
    → t ++ b ≡ stream xss ++ u
    → u ++ s ≡ stream yss ++ v
    → t ++ (b ++ s) ≡ stream (xss ++ yss) ++ v
joined t b s u v xss yss d e =
    sym (append_assoc t b s)
    ∙ ap (λ k. k ++ s) d
    ∙ append_assoc (stream xss) u s
    ∙ ap (λ k. stream xss ++ k) e
    ∙ sym (append_assoc (stream xss) (stream yss) v)
    ∙ ap (λ k. k ++ v) (sym (stream-append xss yss))

-- One chunk of `f` and what follows it, for every descriptor.
each_chunk :
    (q u r : Queue) (f : ℕ) (bytes : List ℕ) (xss : List (List ℕ)) (chunks : List (ℕ × List ℕ))
    (out : List Netpack)
    → taken q f ++ bytes ≡ stream xss ++ taken u f
    → Same q f u
    → ((fd : ℕ) → taken u fd ++ sent fd chunks ≡ stream (got fd out) ++ taken r fd)
    → (fd : ℕ)
    → taken q fd ++ sent fd ((f, bytes) ∷ chunks)
      ≡ stream (got fd (map (netpack f) xss ++ out)) ++ taken r fd
each_chunk q u r f bytes xss chunks out cut same each fd = elim (Bool-cases (f == fd)) [
  | inl h ↦ subst Goal ((==_iff f fd).0 h) (
      ap (λ b. taken q f ++ (b ++ sent f chunks)) (if_true bytes [] (==_refl f))
      ∙ joined (taken q f) bytes (sent f chunks) (taken u f) (taken r f) xss (got f out) cut
          (each f)
      ∙ ap (λ g. stream g ++ taken r f)
          (sym
            (got-append f (map (netpack f) xss) out ∙ ap (λ g. g ++ got f out) (got-same f xss))))
  | inr h ↦
      ap (λ b. taken q fd ++ (b ++ sent fd chunks)) (if_false bytes [] h)
      ∙ ap (λ w. taken_in w ++ sent fd chunks) (sym (same fd (ground (arith, h))))
      ∙ each fd
      ∙ ap (λ g. stream g ++ taken r fd)
          (sym (
            got-append fd (map (netpack f) xss) out
            ∙ ap (λ g. g ++ got fd out) (got-other fd f xss h)))
]
  where
    Goal : ℕ → Type 0
    Goal fd =
        taken q fd ++ sent fd ((f, bytes) ∷ chunks)
        ≡ stream (got fd (map (netpack f) xss ++ out)) ++ taken r fd

pub new_queue-IsReady : IsReady new_queue
new_queue-IsReady = (
  record {
    ring = record {
      storage = omega (arith, length-replicate queue_size blank);
      head_in = omega arith;
      tail_in = omega arith;
    };
    table = λ fd. omega arith;
    parts = λ fd. tt;
  },
  unfold unroll in refl,
)

-- What `lpack` makes is a packet with its size.
lpack-frame : (m b : List ℕ) → lpack m ≡ some b → b ≡ frame m
unfolding lpack
lpack-frame m b e = elim (Bool-cases (leb 65536 (length m))) [
  | inl h ↦ let k = sym (if_true _ _ h) ∙ e in absurd (cc k)
  | inr h ↦
      let k : some (write_size (length m) m) ≡ some b = sym (if_false _ _ h) ∙ e in
      let c : write_size (length m) m ≡ b = cc k in
      sym c ∙ ap (λ s. s ∷ length m % 256 ∷ m) (ground (arith, h))
]

packs-stream : (ms : List (List ℕ)) (s : List ℕ) → packs ms ≡ some s → s ≡ stream ms
unfolding packs
packs-stream [] s e = cc e
packs-stream (m ∷ ms) s e = elim (Option-cases (lpack m)) [
  | inl h ↦
      let k = sym (ap (λ o. o >>= λ b. packs ms >>= λ bs. some (b ++ bs)) h) ∙ e in absurd (cc k)
  | inr (b, h) ↦ elim (Option-cases (packs ms)) [
    | inl g ↦
        let k =
          sym (
            ap (λ o. o >>= λ b. packs ms >>= λ bs. some (b ++ bs)) h
            ∙ ap (λ o. o >>= λ bs. some (b ++ bs)) g)
          ∙ e in
        absurd (cc k)
    | inr (bs, g) ↦
        let k : some (b ++ bs) ≡ some s =
          sym (
            ap (λ o. o >>= λ b. packs ms >>= λ bs. some (b ++ bs)) h
            ∙ ap (λ o. o >>= λ bs. some (b ++ bs)) g)
          ∙ e in
        let c : b ++ bs ≡ s = cc k in
        sym c ∙ ap₂ (λ x y. x ++ y) (lpack-frame m b h) (packs-stream ms bs g)
  ]
]

handed-append :
    (connection : ℕ → Bool) (ps qs : List Netpack)
    → handed connection (ps ++ qs) ≡ handed connection ps ++ handed connection qs
handed-append connection [] qs = refl
handed-append connection (p ∷ ps) qs =
    let h = dispatch_msg connection p in
    ap (λ t. h ++ t) (handed-append connection ps qs)
    ∙ sym (append_assoc h (handed connection ps) (handed connection qs))

-- What is handed on of one packet, and of all, for a descriptor.
got-dispatch_msg :
    (connection : ℕ → Bool) (fd : ℕ) (p : Netpack)
    → got fd (dispatch_msg connection p) ≡ (if connection fd then got fd (p ∷ []) else [])
unfolding dispatch_msg
got-dispatch_msg connection fd p = elim (Bool-cases (p.id == fd)) [
  | inl e ↦
      let q : connection p.id ≡ connection fd = ap connection ((==_iff p.id fd).0 e) in
      elim (Bool-cases (connection fd)) [
        | inl o ↦ ap (got fd) (if_true (p ∷ []) [] (q ∙ o)) ∙ sym (if_true (got fd (p ∷ [])) [] o)
        | inr o ↦ ap (got fd) (if_false (p ∷ []) [] (q ∙ o)) ∙ sym (if_false (got fd (p ∷ [])) [] o)
      ]
  | inr e ↦
      let other : got fd (p ∷ []) ≡ [] = ap (λ t. t ++ []) (if_false (p.buffer ∷ []) [] e) in
      (elim (Bool-cases (connection p.id)) [
        | inl o ↦ ap (got fd) (if_true (p ∷ []) [] o) ∙ other
        | inr o ↦ ap (got fd) (if_false (p ∷ []) [] o)
      ])
      ∙ (elim (Bool-cases (connection fd)) [
        | inl o ↦ sym (if_true (got fd (p ∷ [])) [] o ∙ other)
        | inr o ↦ sym (if_false (got fd (p ∷ [])) [] o)
      ])
]

got-handed :
    (connection : ℕ → Bool) (fd : ℕ) (ps : List Netpack)
    → got fd (handed connection ps) ≡ (if connection fd then got fd ps else [])
got-handed connection fd [] = ground arith
got-handed connection fd (p ∷ ps) =
    let e = got-append fd (dispatch_msg connection p) (handed connection ps) in
    let f = ap₂ (λ a b. a ++ b) (got-dispatch_msg connection fd p) (got-handed connection fd ps) in
    e ∙ f ∙ elim (Bool-cases (connection fd)) [
      | inl o ↦
          ap₂ (λ a b. a ++ b) (if_true (got fd (p ∷ [])) [] o) (if_true (got fd ps) [] o)
          ∙ ap (λ t. t ++ got fd ps) (append-nil (if p.id == fd then p.buffer ∷ [] else []))
          ∙ sym (if_true (got fd (p ∷ ps)) [] o)
      | inr o ↦
          ap₂ (λ a b. a ++ b) (if_false (got fd (p ∷ [])) [] o) (if_false (got fd ps) [] o)
          ∙ sym (if_false (got fd (p ∷ ps)) [] o)
    ]

-- From a sound queue whose ring is empty, every chunk is taken, the queue is sound and its ring empty
-- again, and for each descriptor the bytes are packets and what waits; those of open descriptors are
-- handed on.
pub serve_lem :
    (connection : ℕ → Bool) (q : Queue) (chunks : List (ℕ × List ℕ))
    → AreChunks chunks
    → IsReady q
    → (out : List Netpack) × (r : Queue) × (serve connection q chunks
        ≡ some (handed connection out, r))
      × IsReady r
      × ((fd : ℕ) → taken q fd ++ sent fd chunks ≡ stream (got fd out) ++ taken r fd)
unfolding serve
serve_lem connection q [] are y = ([], q, refl, y, λ fd. append-nil (taken q fd))
serve_lem connection q ((f, bytes) ∷ chunks) are y =
    let ((a, s), e, fed) = filter_data-Fed q f bytes are.0 are.1 y.0 in
    let xss = fed.packets in
    let (u, d, (yu, same, cut)) = handle_answer_lem connection q f bytes a s y fed in
    let (out, r, g, yr, each) = serve_lem connection u chunks are.2 yu in
    (
      map (netpack f) xss ++ out,
      r,
      ap
            (λ o. o >>= λ r. handle_answer connection r.0 r.1 >>= λ s.
              serve connection s.1 chunks >>= λ t. some (s.0 ++ t.0, t.1))
            e
          ∙ ap (λ o. o >>= λ s. serve connection s.1 chunks >>= λ t. some (s.0 ++ t.0, t.1)) d
          ∙ ap (λ o. o >>= λ t. some (handed connection (map (netpack f) xss) ++ t.0, t.1)) g
          ∙ ap (λ t. some (t, r)) (sym (handed-append connection (map (netpack f) xss) out)),
      yr,
      each_chunk q u r f bytes xss chunks out cut same each,
    )

-- Whatever packs of messages were sent for an open descriptor, in chunks of any size and with those of
-- other descriptors between them, while none is opened or closed, the gate hands on exactly these
-- messages for it, in order, and nothing waits for it then; for a descriptor that is not open it hands
-- on nothing.
pub serve-packs :
    (connection : ℕ → Bool) (chunks : List (ℕ × List ℕ)) (fd : ℕ) (ms : List (List ℕ))
    → AreChunks chunks
    → packs ms ≡ some (sent fd chunks)
    → connection fd ≡ true
    → (out : List Netpack) × (r : Queue) × (serve connection new_queue chunks ≡ some (out, r))
      × (got fd out ≡ ms)
      × (taken r fd ≡ [])
      × ((f : ℕ) → connection f ≡ false → got f out ≡ [])
serve-packs connection chunks fd ms are e open_ =
    let (out, r, d, y, each) = serve_lem connection new_queue chunks are new_queue-IsReady in
    let (same, none_left) =
      stream_unique (got fd out) ms (taken r fd) (y.0.parts fd)
        (sym (each fd) ∙ packs-stream ms (sent fd chunks) e) in
    (
      handed connection out,
      r,
      d,
      got-handed connection fd out ∙ if_true _ _ open_ ∙ same,
      none_left,
      λ f shut. got-handed connection f out ∙ if_false _ _ shut,
    )
