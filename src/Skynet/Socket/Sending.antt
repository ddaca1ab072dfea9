-- ===== src/Skynet/Socket/Sending.antt =====
-- `send_buffer` keeps the messages whole and in order.
use game_server_development.Prelude.{
  List-cases, if_true, if_false, ◌+◌, ◌≡◌, refl, ap, ◌∙◌, subst, List, [], ◌∷◌, ◌++◌, true, false,
  not, ltb, ◌==◌, if◌then◌else◌, none, some, ◌>>=◌, length, arith, Bool-cases, Option-cases, inl,
  inr,
}
use game_server_development.Skynet.Socket.{
  WriteBuffer, rest, WriteResult, quiet, Socket, invalid, is_type, refuses, force_close, send_list,
  list_uncomplete, raise_uncomplete, finish_sending, after_high, after_low, send_low, send_lists,
  send_buffer, is_empty,
}
use game_server_development.Skynet.Socket.Sound.{
  Fresh, Low, TailLow, carried, Sound, Fresh-tail, Low-Fresh,
}
use game_server_development.Skynet.Socket.Writing.{Sends, send_list-Sends}
use game_server_development.Skynet.Socket.Moves.{advance, split, to_front, from_front, before_high}
use game_server_development.Skynet.Socket.Closing.{
  in_use, IsValid, Succeeds, force_close-Closes, then_reports, close_write-Succeeds,
}

-- A socket of which nothing waits but `low`.
abbrev lone : Socket → List WriteBuffer → Socket
lone s low = record s { dw = none; high = []; low = low }

finish_sending-Succeeds :
    (s : Socket)
    → is_type s.kind invalid ≡ false
    → IsValid (lone s [])
    → Succeeds (finish_sending (lone s []))
unfolding finish_sending
finish_sending-Succeeds s alive v =
    let sum = v.sound.size alive in
    let sent : not (s.wb_size == 0) ≡ false = ground (arith, sum) in
    elim (Bool-cases s.closing) [
      | inl c ↦
          let (p, d, w) =
            then_reports (force_close (lone s [])) quiet (force_close-Closes (lone s []) v) in
          (p, if_false _ _ sent ∙ if_true _ _ c ∙ d, w)
      | inr c ↦ elim (Bool-cases (ltb 0 s.warn_size)) [
        | inl w ↦ (
          _,
          if_false _ _ sent ∙ if_false _ _ c ∙ if_true _ _ w,
          record { done = v.done; sound = v.sound; set_up = v.set_up },
        )
        | inr w ↦ (
          _,
          if_false _ _ sent ∙ if_false _ _ c ∙ if_false _ _ w,
          record { done = v.done; sound = v.sound; set_up = v.set_up },
        )
      ]
    ]

-- A low list that is not sent in part.
complete-Low : (bs : List WriteBuffer) → TailLow bs → list_uncomplete bs ≡ false → Low bs
unfolding list_uncomplete
complete-Low [] l e = tt
complete-Low (b ∷ bs) l e = (ground (arith, l.0, e), l.0, l.1, l.2)

Fresh-Low : (bs : List WriteBuffer) → TailLow bs → Fresh bs → Low bs
Fresh-Low [] l f = tt
Fresh-Low (b ∷ bs) l f = (f.0, l.0, l.1, l.2)

Low-complete : (bs : List WriteBuffer) → Low bs → list_uncomplete bs ≡ false
unfolding list_uncomplete
Low-complete [] l = refl
Low-complete (b ∷ bs) l = ground (arith, l.0, l.1)

-- The end of step 2 without a failure, and steps 3 and 4, with `xs` the low list as it is left.
after_low-Succeeds :
    (s : Socket) (xs done : List WriteBuffer)
    → is_type s.kind invalid ≡ false
    → in_use s.kind ≡ true
    → Sound
        (is_type s.kind invalid)
        (refuses s)
        none
        xs
        []
        s.wb_size
        s.sending
        (carried s.pipe)
        s.written
        s.accepted
        done
    → TailLow xs
    → Succeeds (
        if list_uncomplete xs
        then (raise_uncomplete (lone s xs) >>= λ t. some (quiet, t))
        else if is_empty xs
        then finish_sending (lone s xs)
        else some (quiet, lone s xs))
unfolding list_uncomplete raise_uncomplete
after_low-Succeeds s [] done alive set_up sound lows =
    finish_sending-Succeeds s alive
      (record { done = done; sound = from_front sound lows; set_up = set_up })
after_low-Succeeds s (b ∷ bs) done alive set_up sound lows =
    elim (Bool-cases (list_uncomplete (b ∷ bs))) [
      | inl e ↦
          (_, if_true _ _ e, record { done = done; sound = split sound lows.2; set_up = set_up })
      | inr e ↦ (
        _,
        if_false _ _ e,
        record {
          done = done;
          sound = from_front sound (complete-Low (b ∷ bs) lows e);
          set_up = set_up;
        },
      )
    ]

-- Steps 2 to 4.
send_low-Succeeds :
    (s : Socket) (rs : List WriteResult)
    → is_type s.kind invalid ≡ false
    → IsValid (lone s s.low)
    → Succeeds (send_low (lone s s.low) rs)
unfolding send_low
send_low-Succeeds s rs alive v =
    let p = send_list rs s.low in
    let t = send_list-Sends rs s.low (Fresh-tail s.low (Low-Fresh s.low v.sound.lows)) in
    let sound = advance (to_front v.sound) t in
    let s' : Socket = after_low (lone s s.low) p in
    elim (Bool-cases p.broken) [
      | inl b ↦
          let low =
            Fresh-Low p.list (t.lows v.sound.lows) (t.unbroken b (Low-Fresh s.low v.sound.lows)) in
          let (r, d, w) =
            close_write-Succeeds s' alive (record {
              done = v.done ++ t.done;
              sound = from_front sound low;
              set_up = v.set_up;
            }) in
          (r, if_true _ _ b ∙ d, w)
      | inr b ↦
          let (r, d, w) =
            after_low-Succeeds s' p.list (v.done ++ t.done) alive v.set_up sound
              (t.lows v.sound.lows) in
          (r, if_false _ _ b ∙ d, w)
    ]

send_lists-Succeeds :
    (s : Socket) (rs : List WriteResult)
    → is_type s.kind invalid ≡ false
    → IsValid (record s { dw = none })
    → Succeeds (send_lists (record s { dw = none }) rs)
unfolding send_lists
send_lists-Succeeds s rs alive v = elim (Bool-cases (send_list rs s.high).broken) [
  | inl b ↦
      let (r, d, w) = close_write-Succeeds s' alive ready in
      (r, if_false _ _ unsent ∙ if_true _ _ b ∙ d, w)
  | inr b ↦ elim (List-cases (send_list rs s.high).list) [
    | inl e ↦
        let q : s' ≡ lone s' s.low = ap (λ h. record s' { high = h }) e in
        let (r, d, w) =
          send_low-Succeeds s' (send_list rs s.high).results alive (subst IsValid q ready) in
        (
          r,
          if_false _ _ unsent
              ∙ if_false _ _ b
              ∙ if_true _ _ (ap is_empty e)
              ∙ ap (λ u. send_low u (send_list rs s.high).results) q
              ∙ d,
          w,
        )
    | inr (x, xs, e) ↦
        (_, if_false _ _ unsent ∙ if_false _ _ b ∙ if_false _ _ (ap is_empty e), ready)
  ]
]
  where
    unsent : list_uncomplete s.low ≡ false
    unsent = Low-complete s.low v.sound.lows

    t : Sends s.high (send_list rs s.high)
    t = send_list-Sends rs s.high v.sound.tail

    s' : Socket
    s' = after_high (record s { dw = none }) (send_list rs s.high)

    ready : IsValid s'
    ready = record { done = v.done ++ t.done; sound = advance v.sound t; set_up = v.set_up }

-- `send_buffer` on a valid socket that is not invalid passes its assertions and leaves a valid socket.
pub send_buffer-Succeeds :
    (s : Socket) (rs : List WriteResult)
    → is_type s.kind invalid ≡ false
    → IsValid s
    → Succeeds (send_buffer s rs)
unfolding send_buffer
send_buffer-Succeeds s rs alive v = elim (Option-cases s.dw) [
  | inl e ↦
      let q : s ≡ record s { dw = none } = ap (λ d. record s { dw = d }) e in
      let (r, d, w) = send_lists-Succeeds s rs alive (subst IsValid q v) in
      (r, ap (λ u. send_buffer u rs) q ∙ d, w)
  | inr (b, e) ↦
      let q : s ≡ record s { dw = some b } = ap (λ d. record s { dw = d }) e in
      let w = subst IsValid q v in
      let s' : Socket = record s { high = b ∷ s.high; wb_size = s.wb_size + length (rest b) } in
      let (r, d, w') =
        send_lists-Succeeds s' rs alive
          (record { done = w.done; sound = before_high w.sound; set_up = w.set_up }) in
      (r, ap (λ u. send_buffer u rs) q ∙ d, w')
]
