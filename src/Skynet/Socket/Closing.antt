-- ===== src/Skynet/Socket/Closing.antt =====
-- Closing a socket, by a caller or after a failed `write`, leaves it valid.
use game_server_development.Prelude.{
  if_true, if_false, ◌≡◌, refl, ap, ◌∙◌, List, Bool, true, false, ◌||◌, Option, some, ◌>>=◌,
  Bool-cases, inl, inr,
}
use game_server_development.Skynet.Socket.{
  WriteBuffer, Report, quiet, Socket, SocketType, connected, bind, paccept, plisten, listen,
  connecting, invalid, halfclose_read, halfclose_write, reserve, is_type, force_close, close_write,
}
use game_server_development.Skynet.Socket.Sound.{SoundAt}
use game_server_development.Skynet.Socket.Moves.{weaken}

-- The types of a socket that is connected, and of one that was.
abbrev pub in_use : SocketType → Bool
in_use connected = true
in_use halfclose_read = true
in_use halfclose_write = true
in_use invalid = true
in_use _ = false

in_use_set_up : (k : SocketType) → in_use k ≡ true → is_type k reserve ≡ false
in_use_set_up connected e = refl
in_use_set_up halfclose_read e = refl
in_use_set_up halfclose_write e = refl
in_use_set_up invalid e = refl
in_use_set_up bind e = refl
in_use_set_up paccept e = refl
in_use_set_up plisten e = refl
in_use_set_up listen e = refl
in_use_set_up connecting e = refl
in_use_set_up reserve e = absurd (cc e)

-- A socket that is set up, with its messages in order.
pub record IsValid (s : Socket) : Type 0 where
  pub done : List WriteBuffer
  pub sound : SoundAt s done
  pub set_up : in_use s.kind ≡ true

-- The call goes through and leaves a valid socket.
abbrev pub Succeeds : Option (Report × Socket) → Type 0
Succeeds r = (p : Report × Socket) × (r ≡ some p) × IsValid p.1

abbrev pub Closes : Option Socket → Type 0
Closes r = (s : Socket) × (r ≡ some s) × IsValid s

pub force_close-Closes : (s : Socket) → IsValid s → Closes (force_close s)
unfolding force_close
force_close-Closes s v = elim (Bool-cases (is_type s.kind invalid)) [
  | inl e ↦ (s, if_true _ _ e, v)
  | inr e ↦ (
    _,
    if_false _ _ e ∙ if_false _ _ (in_use_set_up s.kind v.set_up),
    record {
      done = v.done;
      sound = record {
        stream = λ q. absurd (cc q);
        order = λ q. absurd (cc q);
        size = λ q. absurd (cc q);
        count = v.sound.count;
        tail = tt;
        lows = tt;
        waits = v.sound.waits;
      };
      set_up = refl;
    },
  )
]

-- What follows a `force_close`.
pub then_reports :
    (r : Option Socket) (report : Report) → Closes r → Succeeds (r >>= λ s. some (report, s))
then_reports r report c =
    let (s, e, v) = c in ((report, s), ap (λ t. t >>= λ s. some (report, s)) e, v)

pub close_write-Succeeds :
    (s : Socket) → is_type s.kind invalid ≡ false → IsValid s → Succeeds (close_write s)
unfolding close_write
close_write-Succeeds s alive v = elim (Bool-cases (s.closing || is_type s.kind halfclose_read)) [
  | inl e ↦
      let (p, d, w) = then_reports (force_close s) quiet (force_close-Closes s v) in
      (p, if_true _ _ e ∙ d, w)
  | inr e ↦ elim (Bool-cases (is_type s.kind halfclose_write)) [
    | inl h ↦ (_, if_false _ _ e ∙ if_true _ _ h, v)
    | inr h ↦ (
      _,
      if_false _ _ e ∙ if_false _ _ h,
      record {
        done = v.done;
        sound = weaken (λ q. alive) (λ q. absurd (cc q)) v.sound;
        set_up = refl;
      },
    )
  ]
]
