-- ===== src/Skynet/Socket/Events/Order.antt =====
-- Every run of workers and the socket thread.
use game_server_development.Prelude.{
  ℕ, ◌≡◌, refl, sym, ap, ◌∙◌, subst, List, [], ◌∷◌, ◌++◌, Bool, true, false, if◌then◌else◌, Option,
  some, ◌>>=◌, arith, append-nil,
}
use game_server_development.Skynet.Socket.{
  WriteBuffer, Report, Socket, closes, connected, invalid, is_type, refuses, new_fd, send_buffer,
}
use game_server_development.Skynet.Socket.Events.{
  Event, worker_sends, worker_sends_low, worker_closes, command, eof, writable, readable, polls,
  read_pipe, forward_message_tcp, poll_eof, event, run,
}
use game_server_development.Skynet.Socket.Sound.{
  concat, part, picks, dw_list, carried, Sound, carried-append, picks-append,
}
use game_server_development.Skynet.Socket.Closing.{IsValid, Succeeds, Closes}
use game_server_development.Skynet.Socket.Sending.{send_buffer-Succeeds}
use game_server_development.Skynet.Socket.Events.Workers.{
  IsPlain, send-IsValid, send_lowpriority-IsValid,
}
use game_server_development.Skynet.Socket.Events.Commands.{
  read_pipe-Succeeds, forward_message_tcp-Succeeds, poll_eof-Succeeds,
}

-- No object is sent with low priority whose bytes lie elsewhere.
abbrev pub Allowed : (ℕ → ℕ) → Event → Type 0
Allowed interior (worker_sends_low b) = IsPlain interior b
Allowed interior (worker_sends b r) = Unit
Allowed interior (worker_closes x) = Unit
Allowed interior command = Unit
Allowed interior eof = Unit
Allowed interior (writable rs) = Unit
Allowed interior (readable r) = Unit

abbrev pub AllAllowed : (ℕ → ℕ) → List Event → Type 0
AllAllowed interior [] = Unit
AllAllowed interior (e ∷ es) = Allowed interior e × AllAllowed interior es

without_report : (r : Option (Report × Socket)) → Succeeds r → Closes (r >>= λ p. some p.1)
without_report r c = let (p, e, v) = c in (p.1, ap (λ t. t >>= λ p. some p.1) e, v)

-- A step that is taken only if `b` is true.
guarded :
    (s : Socket) (b : Bool) (r : Option Socket)
    → IsValid s
    → (b ≡ true → Closes r)
    → Closes (if b then r else some s)
guarded s true r v h = h refl
guarded s false r v h = (s, refl, v)

polls_alive : (s : Socket) → polls s ≡ true → is_type s.kind invalid ≡ false
polls_alive s e = ground (arith, e)

pub event-Closes :
    (interior copy : ℕ → ℕ) (s : Socket) (e : Event)
    → Allowed interior e
    → IsValid s
    → Closes (event interior copy s e)
unfolding event
event-Closes interior copy s (worker_sends b r) a v = (_, refl, send-IsValid interior copy s b r v)
event-Closes interior copy s (worker_sends_low b) a v =
    (_, refl, send_lowpriority-IsValid interior copy s b a v)
event-Closes interior copy s (worker_closes x) a v = (
  _,
  refl,
  record {
    done = v.done;
    sound =
        subst
          (λ q.
            Sound (is_type s.kind invalid) (refuses s) s.dw s.high s.low s.wb_size s.sending q
              s.written s.accepted v.done)
          (sym (carried-append s.pipe (closes x ∷ []) ∙ append-nil (carried s.pipe))) v.sound;
    set_up = v.set_up;
  },
)
event-Closes interior copy s command a v = without_report (read_pipe s) (read_pipe-Succeeds s v)
event-Closes interior copy s (writable rs) a v =
    guarded s (polls s) _ v
      (λ b. without_report (send_buffer s rs) (send_buffer-Succeeds s rs (polls_alive s b) v))
event-Closes interior copy s (readable r) a v = guarded s (polls s) _ v (λ b.
    without_report (forward_message_tcp s r) (forward_message_tcp-Succeeds s r (polls_alive s b) v))
event-Closes interior copy s eof a v =
    guarded s (polls s) _ v (λ b. without_report (poll_eof s) (poll_eof-Succeeds s v))

pub run-Closes :
    (interior copy : ℕ → ℕ) (s : Socket) (es : List Event)
    → AllAllowed interior es
    → IsValid s
    → Closes (run interior copy s es)
unfolding run
run-Closes interior copy s [] a v = (s, refl, v)
run-Closes interior copy s (e ∷ es) a v =
    let (s', d, w) = event-Closes interior copy s e a.0 v in
    let (s'', d', w') = run-Closes interior copy s' es a.1 w in
    (s'', ap (λ r. r >>= λ t. run interior copy t es) d ∙ d', w')

pub new_fd-IsValid : (reading : Bool) → IsValid (new_fd connected reading)
new_fd-IsValid reading = record {
  done = [];
  sound = record {
    stream = λ e. refl;
    order = λ e p. refl;
    size = λ e. omega arith;
    count = refl;
    tail = tt;
    lows = tt;
    waits = tt;
  };
  set_up = refl;
}

-- The messages that wait: the rest of a direct write, the lists, and the pipe.
abbrev pub waiting : Socket → List WriteBuffer
waiting s = dw_list s.dw ++ (s.high ++ (s.low ++ carried s.pipe))

picks-waiting :
    (p : Bool) (done : List WriteBuffer) (s : Socket)
    → picks p (done ++ waiting s)
      ≡ picks p done
        ++ (picks p (dw_list s.dw)
            ++ (picks p s.high ++ (picks p s.low ++ picks p (carried s.pipe))))
picks-waiting p done s =
    picks-append p done (waiting s)
    ∙ ap (λ t. picks p done ++ t)
        (picks-append p (dw_list s.dw) (s.high ++ (s.low ++ carried s.pipe))
          ∙ ap (λ t. picks p (dw_list s.dw) ++ t)
              (picks-append p s.high (s.low ++ carried s.pipe)
                ∙ ap (λ t. picks p s.high ++ t) (picks-append p s.low (carried s.pipe))))

-- Any run on a new connection, in which no object is sent with low priority whose bytes lie elsewhere,
-- passes every assertion, whatever `write` and `read` do. At its end there are messages `done` such
-- that, while the socket is not invalid, what the kernel took is these as a whole and a part of at
-- most one more, the next in line. While the socket takes messages, for each priority, the messages
-- sent with it are, in the order of the calls, those of `done` and then those that wait.
pub run-messages :
    (interior copy : ℕ → ℕ) (reading : Bool) (es : List Event)
    → AllAllowed interior es
    → (s : Socket) × (run interior copy (new_fd connected reading) es ≡ some s)
      × (done : List WriteBuffer) × (is_type s.kind invalid ≡ false
          → s.written ≡ concat done ++ part (dw_list s.dw ++ s.high))
      × (refuses s ≡ false → (p : Bool) → picks p (done ++ waiting s) ≡ picks p s.accepted)
run-messages interior copy reading es a =
    let (s, e, v) =
      run-Closes interior copy (new_fd connected reading) es a (new_fd-IsValid reading) in
    (s, e, v.done, v.sound.stream, λ q p. picks-waiting p v.done s ∙ v.sound.order q p)
