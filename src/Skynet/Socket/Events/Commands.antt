-- ===== src/Skynet/Socket/Events/Commands.antt =====
-- What the socket thread does, other than writing, passes its assertions and leaves a socket valid.
use game_server_development.Prelude.{
  if_true, if_false, List-cases, Bool-cases, ℕ, zero, suc, ◌*◌, ◌≡◌, refl, sym, ap, ◌∙◌, subst,
  List, [], ◌∷◌, Bool, true, false, ◌||◌, ◌&&◌, ltb, leb, ◌==◌, if◌then◌else◌, Option, none, some,
  ◌>>=◌, length, arith, inl, inr,
}
use game_server_development.Skynet.Socket.{
  SocketType, invalid, connected, halfclose_read, halfclose_write, reserve, bind, paccept, plisten,
  listen, connecting, is_type, WriteBuffer, Command, sends, triggers, closes, Report, quiet, closed,
  Socket, refuses, is_empty, force_close, append_high, append_low, warn, send_socket, warning_size,
  min_read_buffer,
}
use game_server_development.Skynet.Socket.Events.{
  nomore_sending_data, close_read, close_socket, dec_sending_ref, ctrl_cmd, read_pipe, ReadResult,
  nothing, read_failed, end, read, forward_end, forward_message_tcp, poll_eof,
}
use game_server_development.Skynet.Socket.Sound.{carried, Sound}
use game_server_development.Skynet.Socket.Moves.{weaken}
use game_server_development.Skynet.Socket.Closing.{
  in_use, IsValid, Succeeds, force_close-Closes, then_reports,
}
use game_server_development.Skynet.Socket.Messages.{dropped, to_low, to_high}

-- A socket that has one message more in `sending` than in the pipe.
pub record Uncounted (s : Socket) : Type 0 where
  pub done : List WriteBuffer
  pub n : ℕ
  pub one_more : s.sending ≡ suc n
  pub sound :
      Sound
        (is_type s.kind invalid)
        (refuses s)
        s.dw
        s.high
        s.low
        s.wb_size
        n
        (carried s.pipe)
        s.written
        s.accepted
        done
  pub set_up : in_use s.kind ≡ true

-- A warning changes nothing that counts.
warn-Uncounted : (s : Socket) → Uncounted s → Uncounted (warn s).1
unfolding warn
warn-Uncounted s u = elim (Bool-cases (leb warning_size s.wb_size && leb s.warn_size s.wb_size)) [
  | inl e ↦
      subst (λ (r : Report × Socket). Uncounted r.1) (sym (if_true _ _ e))
        (record {
          done = u.done;
          n = u.n;
          one_more = u.one_more;
          sound = u.sound;
          set_up = u.set_up;
        })
  | inr e ↦ subst (λ (r : Report × Socket). Uncounted r.1) (sym (if_false _ _ e)) u
]

dec_sending_ref-Uncounted :
    (s : Socket) (report : Report)
    → Uncounted s
    → Succeeds (dec_sending_ref s >>= λ t. some (report, t))
unfolding dec_sending_ref
dec_sending_ref-Uncounted s report u = (
  (report, record s { sending = u.n }),
  ap
      (λ n. (elim n [ zero ↦ none | suc n ↦ some (record s { sending = n }) ]) >>= λ t.
        some (report, t))
      u.one_more,
  record { done = u.done; sound = u.sound; set_up = u.set_up },
)

is_empty_nil : (bs : List WriteBuffer) → is_empty bs ≡ true → bs ≡ []
is_empty_nil [] e = refl
is_empty_nil (b ∷ bs) e = absurd (cc e)

-- `send_socket` of a message that was taken from the pipe.
send_socket-Uncounted :
    (s : Socket) (b : WriteBuffer) (cs : List Command) (done : List WriteBuffer)
    → Sound
        (is_type s.kind invalid)
        (refuses s)
        s.dw
        s.high
        s.low
        s.wb_size
        s.sending
        (b ∷ carried cs)
        s.written
        s.accepted
        done
    → in_use s.kind ≡ true
    → Uncounted (send_socket (record s { pipe = cs }) b).1
unfolding send_socket append_high append_low
send_socket-Uncounted s b cs done sound set_up = elim (Bool-cases (refuses s)) [
  | inl r ↦
      subst (λ (p : Report × Socket). Uncounted p.1) (sym (if_true _ _ r))
        (record { done = done; n = n; one_more = more; sound = dropped r ready; set_up = set_up })
  | inr r ↦ elim (Bool-cases (is_empty s.high && is_empty s.low)) [
    | inl e ↦
        subst (λ (p : Report × Socket). Uncounted p.1) (sym (if_false _ _ r ∙ if_true _ _ e))
          (warn-Uncounted (record (append_high s' b) { writing = true })
            (record {
              done = done;
              n = n;
              one_more = more;
              sound = to_high (inr (is_empty_nil s.low (ground (arith, e)))) ready;
              set_up = set_up;
            }))
    | inr e ↦ elim (Bool-cases b.low_priority) [
      | inl l ↦
          subst (λ (p : Report × Socket). Uncounted p.1)
            (sym (if_false _ _ r ∙ if_false _ _ e ∙ if_true _ _ l))
            (warn-Uncounted (append_low s' b) (record {
              done = done;
              n = n;
              one_more = more;
              sound = to_low l ready;
              set_up = set_up;
            }))
      | inr l ↦
          subst (λ (p : Report × Socket). Uncounted p.1)
            (sym (if_false _ _ r ∙ if_false _ _ e ∙ if_false _ _ l))
            (warn-Uncounted (append_high s' b) (record {
              done = done;
              n = n;
              one_more = more;
              sound = to_high (inl l) ready;
              set_up = set_up;
            }))
    ]
  ]
]
  where
    s' : Socket
    s' = record s { pipe = cs }

    n : ℕ
    n = length (carried cs)

    more : s.sending ≡ suc n
    more = omega (arith, sound.count)

    ready :
        Sound
          (is_type s.kind invalid)
          (refuses s)
          s.dw
          s.high
          s.low
          s.wb_size
          (suc n)
          (b ∷ carried cs)
          s.written
          s.accepted
          done
    ready =
        subst
          (λ k.
            Sound (is_type s.kind invalid) (refuses s) s.dw s.high s.low s.wb_size k
              (b ∷ carried cs) s.written s.accepted done)
          more sound

-- `force_close` and a report.
force_closes :
    (s : Socket) (report : Report) → IsValid s → Succeeds (force_close s >>= λ t. some (report, t))
force_closes s report v = then_reports (force_close s) report (force_close-Closes s v)

close_socket-Succeeds :
    (s : Socket) (shutdown : Bool) → IsValid s → Succeeds (close_socket s shutdown)
unfolding close_socket close_read
close_socket-Succeeds s shutdown v = elim (Bool-cases (is_type s.kind invalid)) [
  | inl e ↦ (_, if_true _ _ e, v)
  | inr e ↦ elim (Bool-cases (shutdown || nomore_sending_data s)) [
    | inl f ↦
        let (p, d, w) =
          force_closes s (if is_type s.kind halfclose_read then quiet else closed) v in
        (p, if_false _ _ e ∙ if_true _ _ f ∙ d, w)
    | inr f ↦ elim (Bool-cases (is_type s.kind halfclose_read)) [
      | inl h ↦ (
        _,
        if_false _ _ e ∙ if_false _ _ f ∙ if_true _ _ h,
        record {
          done = v.done;
          sound = weaken (λ q. q) (λ q. absurd (ground (arith, q))) v.sound;
          set_up = v.set_up;
        },
      )
      | inr h ↦ (
        _,
        if_false _ _ e ∙ if_false _ _ f ∙ if_false _ _ h,
        record {
          done = v.done;
          sound = weaken (λ q. e) (λ q. absurd (cc q)) v.sound;
          set_up = refl;
        },
      )
    ]
  ]
]

-- The next command of the pipe is carried out.
pub read_pipe-Succeeds : (s : Socket) → IsValid s → Succeeds (read_pipe s)
unfolding read_pipe ctrl_cmd
read_pipe-Succeeds s v = elim (List-cases s.pipe) [
  | inl e ↦ ((quiet, s), ap (carry_out s) e, v)
  | inr (c, cs, e) ↦
      let q : s ≡ record s { pipe = c ∷ cs } = ap (λ p. record s { pipe = p }) e in
      let (p, d, w) = command c cs (subst IsValid q v) in (p, ap (carry_out s) e ∙ d, w)
]
  where
    carry_out : Socket → List Command → Option (Report × Socket)
    carry_out s [] = some (quiet, s)
    carry_out s (c ∷ cs) = ctrl_cmd (record s { pipe = cs }) c

    command :
        (c : Command) (cs : List Command)
        → IsValid (record s { pipe = c ∷ cs })
        → Succeeds (ctrl_cmd (record s { pipe = cs }) c)
    command (sends b) cs v =
        dec_sending_ref-Uncounted (send_socket (record s { pipe = cs }) b).1
          (send_socket (record s { pipe = cs }) b).0
          (send_socket-Uncounted s b cs v.done v.sound v.set_up)
    command triggers cs v = elim (Bool-cases (is_type s.kind invalid)) [
      | inl e ↦ (
        _,
        ap (λ t. some (quiet, t)) (if_true _ _ e),
        record { done = v.done; sound = v.sound; set_up = v.set_up },
      )
      | inr e ↦ (
        _,
        ap (λ t. some (quiet, t)) (if_false _ _ e),
        record { done = v.done; sound = v.sound; set_up = v.set_up },
      )
    ]
    command (closes shutdown) cs v =
        close_socket-Succeeds (record s { pipe = cs }) shutdown
          (record { done = v.done; sound = v.sound; set_up = v.set_up })

-- A socket in use that is neither closed on a side nor closing takes messages.
open_takes :
    (k : SocketType) (c : Bool)
    → in_use k ≡ true
    → is_type k invalid ≡ false
    → is_type k halfclose_write ≡ false
    → c ≡ false
    → (is_type k invalid
        || is_type k halfclose_write
        || is_type k paccept
        || c
        || is_type k plisten
        || is_type k listen)
      ≡ false
open_takes connected c u i h e = ground (arith, e)
open_takes halfclose_read c u i h e = ground (arith, e)
open_takes halfclose_write c u i h e = absurd (cc h)
open_takes invalid c u i h e = absurd (cc i)
open_takes bind c u i h e = absurd (cc u)
open_takes paccept c u i h e = absurd (cc u)
open_takes plisten c u i h e = absurd (cc u)
open_takes listen c u i h e = absurd (cc u)
open_takes connecting c u i h e = absurd (cc u)
open_takes reserve c u i h e = absurd (cc u)

forward_end-Succeeds :
    (s : Socket) → is_type s.kind invalid ≡ false → IsValid s → Succeeds (forward_end s)
unfolding forward_end close_read
forward_end-Succeeds s alive v = elim (Bool-cases s.closing) [
  | inl c ↦ elim (Bool-cases (nomore_sending_data s)) [
    | inl f ↦ let (p, d, w) = force_closes s quiet v in (p, if_true _ _ c ∙ if_true _ _ f ∙ d, w)
    | inr f ↦ (_, if_true _ _ c ∙ if_false _ _ f, v)
  ]
  | inr c ↦ elim (Bool-cases (is_type s.kind halfclose_read)) [
    | inl r ↦ (_, if_false _ _ c ∙ if_true _ _ r, v)
    | inr r ↦ elim (Bool-cases (is_type s.kind halfclose_write)) [
      | inl w ↦
          let (p, d, w') = force_closes s closed v in
          (p, if_false _ _ c ∙ if_false _ _ r ∙ if_true _ _ w ∙ d, w')
      | inr w ↦ (
        _,
        if_false _ _ c ∙ if_false _ _ r ∙ if_false _ _ w,
        record {
          done = v.done;
          sound = weaken (λ q. alive) (λ q. open_takes s.kind s.closing v.set_up alive w c) v.sound;
          set_up = refl;
        },
      )
    ]
  ]
]

pub forward_message_tcp-Succeeds :
    (s : Socket) (r : ReadResult)
    → is_type s.kind invalid ≡ false
    → IsValid s
    → Succeeds (forward_message_tcp s r)
unfolding forward_message_tcp
forward_message_tcp-Succeeds s nothing alive v = (_, refl, v)
forward_message_tcp-Succeeds s read_failed alive v = (_, refl, v)
forward_message_tcp-Succeeds s end alive v = forward_end-Succeeds s alive v
forward_message_tcp-Succeeds s (read n) alive v =
    elim (Bool-cases (is_type s.kind halfclose_read)) [
      | inl h ↦ (_, if_true _ _ h, v)
      | inr h ↦ elim (Bool-cases (n == s.size)) [
        | inl e ↦ (
          _,
          if_false _ _ h ∙ if_true _ _ e,
          record { done = v.done; sound = v.sound; set_up = v.set_up },
        )
        | inr e ↦ elim (Bool-cases (ltb min_read_buffer s.size && ltb (n * 2) s.size)) [
          | inl f ↦ (
            _,
            if_false _ _ h ∙ if_false _ _ e ∙ if_true _ _ f,
            record { done = v.done; sound = v.sound; set_up = v.set_up },
          )
          | inr f ↦ (_, if_false _ _ h ∙ if_false _ _ e ∙ if_false _ _ f, v)
        ]
      ]
    ]

pub poll_eof-Succeeds : (s : Socket) → IsValid s → Succeeds (poll_eof s)
unfolding poll_eof
poll_eof-Succeeds s v = force_closes s (if is_type s.kind halfclose_read then quiet else closed) v
