-- ===== src/Skynet/Socket/Sound.antt =====
-- What holds of the buffers of a socket between calls.
use game_server_development.Prelude.{
  ℕ, ◌+◌, ◌≡◌, refl, sym, ap, ◌∙◌, List, [], ◌∷◌, ◌++◌, append_assoc, Bool, true, false,
  if◌then◌else◌, Option, none, some, length, take, arith,
}
use game_server_development.Skynet.Socket.{
  WriteBuffer, rest, Command, sends, triggers, closes, Socket, invalid, is_type, refuses,
}

-- The bytes of whole messages.
abbrev pub concat : List WriteBuffer → List ℕ
concat [] = []
concat (b ∷ bs) = b.bytes ++ concat bs

-- What was sent of the first buffer.
abbrev pub part : List WriteBuffer → List ℕ
part [] = []
part (b ∷ bs) = take b.offset b.bytes

-- How many bytes are left.
abbrev pub left : List WriteBuffer → ℕ
left [] = 0
left (b ∷ bs) = length (rest b) + left bs

abbrev pub pick : Bool → WriteBuffer → List (List ℕ)
pick true b = if b.low_priority then b.bytes ∷ [] else []
pick false b = if b.low_priority then [] else b.bytes ∷ []

-- The messages of low priority, for `true`, or of high priority, in order.
abbrev pub picks : Bool → List WriteBuffer → List (List ℕ)
picks p [] = []
picks p (b ∷ bs) = pick p b ++ picks p bs

abbrev pub Fresh : List WriteBuffer → Type 0
Fresh [] = Unit
Fresh (b ∷ bs) = (b.offset ≡ 0) × Fresh bs

-- All but the first are untouched.
abbrev pub TailFresh : List WriteBuffer → Type 0
TailFresh [] = Unit
TailFresh (b ∷ bs) = Fresh bs

-- The buffers of the low list: untouched, of low priority, and not an object whose bytes lie elsewhere.
abbrev pub Low : List WriteBuffer → Type 0
Low [] = Unit
Low (b ∷ bs) = (b.offset ≡ 0) × (b.start ≡ b.buffer) × (b.low_priority ≡ true) × Low bs

-- Of a low list of which the first may be sent in part.
abbrev pub TailLow : List WriteBuffer → Type 0
TailLow [] = Unit
TailLow (b ∷ bs) = (b.start ≡ b.buffer) × (b.low_priority ≡ true) × Low bs

-- The buffers in the pipe.
abbrev pub Waits : List WriteBuffer → Type 0
Waits [] = Unit
Waits (b ∷ bs) = (b.offset ≡ 0) × (b.low_priority ≡ true → b.start ≡ b.buffer) × Waits bs

abbrev pub dw_list : Option WriteBuffer → List WriteBuffer
dw_list none = []
dw_list (some b) = b ∷ []

-- The buffers that the pipe carries.
abbrev pub carried : List Command → List WriteBuffer
carried [] = []
carried (sends b ∷ cs) = b ∷ carried cs
carried (triggers ∷ cs) = carried cs
carried (closes x ∷ cs) = carried cs

-- A socket that is `gone` if it is invalid, with the messages `done` written as a whole.
pub record Sound (gone refusing : Bool) (dw : Option WriteBuffer) (high low : List WriteBuffer)
    (wb_size sending : ℕ) (queue : List WriteBuffer) (written : List ℕ)
    (accepted done : List WriteBuffer) : Type 0 where
  pub stream : gone ≡ false → written ≡ concat done ++ part (dw_list dw ++ high)
  pub order :
      refusing ≡ false
      → (p : Bool)
      → picks p done ++ (picks p (dw_list dw) ++ (picks p high ++ (picks p low ++ picks p queue)))
        ≡ picks p accepted
  pub size : gone ≡ false → wb_size ≡ left high + left low
  pub count : sending ≡ length queue
  pub tail : TailFresh (dw_list dw ++ high)
  pub lows : Low low
  pub waits : Waits queue

abbrev pub SoundAt : Socket → List WriteBuffer → Type 0
SoundAt s done =
    Sound (is_type s.kind invalid) (refuses s) s.dw s.high s.low s.wb_size s.sending
      (carried s.pipe) s.written s.accepted done

pub concat-append : (xs ys : List WriteBuffer) → concat (xs ++ ys) ≡ concat xs ++ concat ys
concat-append [] ys = refl
concat-append (x ∷ xs) ys =
    ap (λ t. x.bytes ++ t) (concat-append xs ys)
    ∙ sym (append_assoc x.bytes (concat xs) (concat ys))

pub picks-append :
    (p : Bool) (xs ys : List WriteBuffer) → picks p (xs ++ ys) ≡ picks p xs ++ picks p ys
picks-append p [] ys = refl
picks-append p (x ∷ xs) ys =
    ap (λ t. pick p x ++ t) (picks-append p xs ys)
    ∙ sym (append_assoc (pick p x) (picks p xs) (picks p ys))

pub left-append : (xs ys : List WriteBuffer) → left (xs ++ ys) ≡ left xs + left ys
left-append [] ys = omega arith
left-append (x ∷ xs) ys = omega (arith, left-append xs ys)

pub Fresh-part : (bs : List WriteBuffer) → Fresh bs → part bs ≡ []
Fresh-part [] f = refl
Fresh-part (b ∷ bs) f = ap (λ n. take n b.bytes) f.0

pub Fresh-tail : (bs : List WriteBuffer) → Fresh bs → TailFresh bs
Fresh-tail [] f = f
Fresh-tail (b ∷ bs) f = f.1

pub Fresh-append :
    (xs : List WriteBuffer) (b : WriteBuffer) → Fresh xs → b.offset ≡ 0 → Fresh (xs ++ b ∷ [])
Fresh-append [] b f e = (e, tt)
Fresh-append (x ∷ xs) b f e = (f.0, Fresh-append xs b f.1 e)

pub TailFresh-append :
    (xs : List WriteBuffer) (b : WriteBuffer)
    → TailFresh xs
    → b.offset ≡ 0
    → TailFresh (xs ++ b ∷ [])
TailFresh-append [] b f e = tt
TailFresh-append (x ∷ xs) b f e = Fresh-append xs b f e

pub Low-Fresh : (bs : List WriteBuffer) → Low bs → Fresh bs
Low-Fresh [] l = l
Low-Fresh (b ∷ bs) l = (l.0, Low-Fresh bs l.3)

pub Low-append :
    (xs : List WriteBuffer) (b : WriteBuffer)
    → Low xs
    → b.offset ≡ 0
    → b.start ≡ b.buffer
    → b.low_priority ≡ true
    → Low (xs ++ b ∷ [])
Low-append [] b l e f g = (e, f, g, tt)
Low-append (x ∷ xs) b l e f g = (l.0, l.1, l.2, Low-append xs b l.3 e f g)

pub Waits-append :
    (xs : List WriteBuffer) (b : WriteBuffer)
    → Waits xs
    → b.offset ≡ 0
    → (b.low_priority ≡ true → b.start ≡ b.buffer)
    → Waits (xs ++ b ∷ [])
Waits-append [] b w e f = (e, f, tt)
Waits-append (x ∷ xs) b w e f = (w.0, w.1, Waits-append xs b w.2 e f)

-- The low list has no message of high priority.
pub picks-Low : (bs : List WriteBuffer) → Low bs → picks false bs ≡ []
picks-Low [] l = refl
picks-Low (b ∷ bs) l = rw (l.2) (picks-Low bs l.3)

pub carried-append : (xs ys : List Command) → carried (xs ++ ys) ≡ carried xs ++ carried ys
carried-append [] ys = refl
carried-append (sends b ∷ xs) ys = ap (λ t. b ∷ t) (carried-append xs ys)
carried-append (triggers ∷ xs) ys = carried-append xs ys
carried-append (closes x ∷ xs) ys = carried-append xs ys

pub Low-tail : (bs : List WriteBuffer) → Low bs → TailLow bs
Low-tail [] l = l
Low-tail (b ∷ bs) l = (l.1, l.2, l.3)
