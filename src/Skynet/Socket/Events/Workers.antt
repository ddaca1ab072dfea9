-- ===== src/Skynet/Socket/Events/Workers.antt =====
-- What a worker does leaves a socket valid.
use game_server_development.Prelude.{
  if_true, if_false, Bool-cases, ℕ, suc, ◌≡◌, ◌≤◌, refl, sym, ap, ◌∙◌, subst, List, [], ◌∷◌, ◌++◌,
  append-nil, Bool, true, false, ◌||◌, ◌==◌, Option, none, some, length, take, arith, inl, inr,
}
use game_server_development.Skynet.Databuffer.Contents.{take_all}
use game_server_development.Skynet.Socket.{
  SocketType, invalid, connected, halfclose_read, halfclose_write, reserve, bind, paccept, plisten,
  listen, connecting, is_type, WriteBuffer, WriteResult, wrote, again, interrupted, failed, sends,
  triggers, Socket, refuses, is_empty, is_none,
}
use game_server_development.Skynet.Socket.Events.{
  SendBuffer, BufferType, memory, object, rawpointer, clone_buffer, taken, nomore_sending_data,
  can_direct_write, direct_write, request_send, send, send_lowpriority, free_buffer,
}
use game_server_development.Skynet.Socket.Sound.{carried, Sound, carried-append}
use game_server_development.Skynet.Socket.Closing.{IsValid}
use game_server_development.Skynet.Socket.Messages.{New, requested, direct_whole, direct_part}

exclusive : (k : SocketType) → is_type k connected ≡ true → is_type k halfclose_write ≡ false
exclusive connected e = refl
exclusive halfclose_write e = absurd (cc e)
exclusive invalid e = refl
exclusive halfclose_read e = refl
exclusive bind e = refl
exclusive paccept e = refl
exclusive reserve e = refl
exclusive plisten e = refl
exclusive listen e = refl
exclusive connecting e = refl

is_empty_nil : (bs : List WriteBuffer) → is_empty bs ≡ true → bs ≡ []
is_empty_nil [] e = refl
is_empty_nil (b ∷ bs) e = absurd (cc e)

is_none_nothing : (d : Option WriteBuffer) → is_none d ≡ true → d ≡ none
is_none_nothing none e = refl
is_none_nothing (some b) e = absurd (cc e)

-- What a socket has that `can_direct_write` finds free.
can_direct_write_free :
    (s : Socket)
    → can_direct_write s ≡ true
    → (s.high ≡ []) × (s.low ≡ []) × (s.dw ≡ none) × (s.sending ≡ 0)
unfolding can_direct_write nomore_sending_data
can_direct_write_free s h =
    let k : is_type s.kind connected ≡ true = ground (arith, h) in
    let other = exclusive s.kind k in
    let a : is_empty s.high ≡ true = ground (arith, h, other) in
    let b : is_empty s.low ≡ true = ground (arith, h, other) in
    let c : is_none s.dw ≡ true = ground (arith, h, other) in
    let d : (s.sending == 0) ≡ true = ground (arith, h, other) in
    (is_empty_nil s.high a, is_empty_nil s.low b, is_none_nothing s.dw c, ground (arith, d))

request_send-IsValid :
    (s : Socket) (b : WriteBuffer) → New b → IsValid s → IsValid (request_send s b)
unfolding request_send
request_send-IsValid s b n v = elim (Bool-cases (s.sending == 0xffff)) [
  | inl e ↦ subst IsValid (sym (if_true _ _ e)) v
  | inr e ↦ subst IsValid (sym (if_false _ _ e)) (record {
    done = v.done;
    sound =
        subst
          (λ q.
            Sound (is_type s.kind invalid) (refuses s) s.dw s.high s.low s.wb_size (suc s.sending) q
              s.written (s.accepted ++ b ∷ []) v.done)
          (sym (carried-append s.pipe (sends b ∷ []))) (requested n v.sound);
    set_up = v.set_up;
  })
]

-- An object is sent with low priority only if its bytes lie at its own address.
abbrev pub IsPlain : (ℕ → ℕ) → SendBuffer → Type 0
IsPlain interior b = b.type ≡ object → interior b.buffer ≡ b.buffer

clone_buffer-New :
    (interior copy : ℕ → ℕ) (p : Bool) (b : SendBuffer)
    → (p ≡ true → IsPlain interior b)
    → New (clone_buffer interior copy p b)
unfolding clone_buffer
clone_buffer-New interior copy p b h = cloned b.type refl
  where
    cloned :
        (t : BufferType)
        → b.type ≡ t
        → New (elim t [
          | memory ↦ record {
            buffer = b.buffer;
            start = b.buffer;
            userobject = false;
            bytes = b.bytes;
            offset = 0;
            low_priority = p;
          }
          | object ↦ record {
            buffer = b.buffer;
            start = interior b.buffer;
            userobject = true;
            bytes = b.bytes;
            offset = 0;
            low_priority = p;
          }
          | rawpointer ↦ record {
            buffer = copy b.buffer;
            start = copy b.buffer;
            userobject = false;
            bytes = b.bytes;
            offset = 0;
            low_priority = p;
          }
        ])
    cloned memory e = record { untouched = refl; plain = λ q. refl }
    cloned object e = record { untouched = refl; plain = λ q. h q e }
    cloned rawpointer e = record { untouched = refl; plain = λ q. refl }

nil_of : {A : Type 0} (xs : List A) → length xs ≡ 0 → xs ≡ []
nil_of [] e = refl
nil_of (x ∷ xs) e = absurd (omega (arith, e))

taken-le : (r : WriteResult) (n : ℕ) → taken r n ≤ n
taken-le (wrote k) n = ground arith
taken-le again n = omega arith
taken-le interrupted n = omega arith
taken-le failed n = omega arith

-- A socket of which nothing waits.
abbrev bare : Socket → Socket
bare s = record s { high = []; low = []; dw = none; sending = 0 }

bare_lem : (s : Socket) → can_direct_write s ≡ true → s ≡ bare s
bare_lem s h =
    let (a, b, c, d) = can_direct_write_free s h in
    ap (λ x. record s { high = x }) a
    ∙ ap (λ x. record s { high = []; low = x }) b
    ∙ ap (λ x. record s { high = []; low = []; dw = x }) c
    ∙ ap (λ x. record s { high = []; low = []; dw = none; sending = x }) d

direct_write-bare :
    (s : Socket) (b : WriteBuffer) (frees : List ℕ) (r : WriteResult)
    → IsValid (bare s)
    → IsValid (direct_write (bare s) b frees r)
unfolding direct_write
direct_write-bare s b frees r v =
    let n : ℕ = taken r (length b.bytes) in
    let e : carried s.pipe ≡ [] = nil_of (carried s.pipe) (omega (arith, v.sound.count)) in
    let sound =
      subst
        (λ q.
          Sound (is_type s.kind invalid) (refuses s) none [] [] s.wb_size 0 q s.written s.accepted
            v.done)
        e v.sound in
    elim (Bool-cases (n == length b.bytes)) [
      | inl w ↦ subst IsValid (sym (if_true _ _ w)) (record {
        done = v.done ++ b ∷ [];
        sound =
            subst
              (λ q.
                Sound (is_type s.kind invalid) (refuses s) none [] [] s.wb_size 0 q
                  (s.written ++ take n b.bytes) (s.accepted ++ b ∷ []) (v.done ++ b ∷ []))
              (sym e) (direct_whole b n (take_all n b.bytes (ground (arith, w))) sound);
        set_up = v.set_up;
      })
      | inr w ↦ subst IsValid (sym (if_false _ _ w)) (record {
        done = v.done;
        sound =
            subst
              (λ q.
                Sound (is_type s.kind invalid) (refuses s) (some (record b { offset = n })) [] []
                  s.wb_size 0 q (s.written ++ take n b.bytes) (s.accepted ++ b ∷ []) v.done)
              (sym (carried-append s.pipe (triggers ∷ []) ∙ append-nil (carried s.pipe) ∙ e))
              (direct_part b n sound);
        set_up = v.set_up;
      })
    ]

direct_write-IsValid :
    (s : Socket) (b : WriteBuffer) (frees : List ℕ) (r : WriteResult)
    → can_direct_write s ≡ true
    → IsValid s
    → IsValid (direct_write s b frees r)
direct_write-IsValid s b frees r h v =
    let q = bare_lem s h in
    subst (λ u. IsValid (direct_write u b frees r)) (sym q)
      (direct_write-bare s b frees r (subst IsValid q v))

pub send-IsValid :
    (interior copy : ℕ → ℕ) (s : Socket) (b : SendBuffer) (r : WriteResult)
    → IsValid s
    → IsValid (send interior copy s b r)
unfolding send
send-IsValid interior copy s b r v = elim (Bool-cases (is_type s.kind invalid || s.closing)) [
  | inl e ↦
      subst IsValid (sym (if_true _ _ e))
        (record { done = v.done; sound = v.sound; set_up = v.set_up })
  | inr e ↦ elim (Bool-cases (can_direct_write s)) [
    | inl d ↦
        subst IsValid (sym (if_false _ _ e ∙ if_true _ _ d))
          (direct_write-IsValid s (clone_buffer interior copy false b) (free_buffer b) r d v)
    | inr d ↦ subst IsValid (sym (if_false _ _ e ∙ if_false _ _ d)) (
        request_send-IsValid s (clone_buffer interior copy false b)
          (clone_buffer-New interior copy false b (λ q. absurd (cc q))) v)
  ]
]

pub send_lowpriority-IsValid :
    (interior copy : ℕ → ℕ) (s : Socket) (b : SendBuffer)
    → IsPlain interior b
    → IsValid s
    → IsValid (send_lowpriority interior copy s b)
unfolding send_lowpriority
send_lowpriority-IsValid interior copy s b plain v = elim (Bool-cases (is_type s.kind invalid)) [
  | inl e ↦
      subst IsValid (sym (if_true _ _ e))
        (record { done = v.done; sound = v.sound; set_up = v.set_up })
  | inr e ↦ subst IsValid (sym (if_false _ _ e)) (
      request_send-IsValid s (clone_buffer interior copy true b)
        (clone_buffer-New interior copy true b (λ q. plain)) v)
]
