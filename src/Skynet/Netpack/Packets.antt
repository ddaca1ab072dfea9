-- ===== src/Skynet/Netpack/Packets.antt =====
-- What a stream of packets looks like, and which bytes an unfinished packet stands for.
use game_server_development.Prelude.{
  ℕ, ◌+◌, ◌*◌, ◌/◌, ◌%◌, ◌<◌, ◌≡◌, refl, sym, ap, ap₂, ◌∙◌, List, [], ◌∷◌, ◌++◌, true, false,
  Option, none, some, arith, append_assoc, length, length-append,
}
use game_server_development.Prelude.Bits.{bit_or_fields}
use game_server_development.Skynet.Netpack.{Uncomplete, Queue, read_size}
use game_server_development.Skynet.Netpack.Chains.{waits}

-- A packet in the stream, and packets one after the other.
abbrev pub frame : List ℕ → List ℕ
frame xs = length xs / 256 ∷ length xs % 256 ∷ xs

abbrev pub stream : List (List ℕ) → List ℕ
stream [] = []
stream (xs ∷ xss) = frame xs ++ stream xss

-- The bytes that were taken in for an unfinished packet.
abbrev pub taken_of : Uncomplete → List ℕ
taken_of uc = elim uc.started [
  | false ↦ uc.header ∷ []
  | true ↦ uc.size / 256 ∷ uc.size % 256 ∷ uc.buffer
]

abbrev pub taken_in : Option Uncomplete → List ℕ
taken_in none = []
taken_in (some uc) = taken_of uc

abbrev pub taken : Queue → ℕ → List ℕ
taken q fd = taken_in (waits q fd)

-- Bytes that do not make up a packet.
abbrev pub Partial : List ℕ → Type 0
Partial [] = Unit
Partial (a ∷ []) = Unit
Partial (a ∷ b ∷ bytes) = length bytes < a * 256 + b

abbrev pub AreBytes : List ℕ → Type 0
AreBytes [] = Unit
AreBytes (b ∷ bytes) = (b < 256) × AreBytes bytes

pub read_size_lem : (a b : ℕ) → b < 256 → read_size a b ≡ a * 256 + b
unfolding read_size
read_size_lem a b h = bit_or_fields 8 a b h

cons-parts : (a b : ℕ) (xs ys : List ℕ) → a ∷ xs ≡ b ∷ ys → (a ≡ b) × (xs ≡ ys)
cons-parts a b xs ys e = (cc e, cc e)

-- Bytes with two endings of the same length before them.
append-parts :
    (xs ys r s : List ℕ) → length xs ≡ length ys → xs ++ r ≡ ys ++ s → (xs ≡ ys) × (r ≡ s)
append-parts [] [] r s l e = (refl, e)
append-parts [] (y ∷ ys) r s l e = absurd (omega (arith, l))
append-parts (x ∷ xs) [] r s l e = absurd (omega (arith, l))
append-parts (x ∷ xs) (y ∷ ys) r s l e =
    let (h, t) = cons-parts x y (xs ++ r) (ys ++ s) e in
    let (p, q) = append-parts xs ys r s (omega (arith, l)) t in (ap₂ ◌∷◌ h p, q)

-- A stream is cut into packets in one way, and what ends it is unfinished only if it is nothing.
pub stream_unique :
    (xss yss : List (List ℕ)) (rem : List ℕ)
    → Partial rem
    → stream xss ++ rem ≡ stream yss
    → (xss ≡ yss) × (rem ≡ [])
stream_unique [] [] rem p e = (refl, e)
stream_unique [] (ys ∷ yss) [] p e = absurd (cc e)
stream_unique [] (ys ∷ yss) (a ∷ []) p e = absurd (cc e)
stream_unique [] (ys ∷ yss) (a ∷ b ∷ rem) p e =
    let n : length ys ≡ length ys / 256 * 256 + length ys % 256 = omega arith in
    let (d, f) = cons-parts a (length ys / 256) (b ∷ rem) (length ys % 256 ∷ ys ++ stream yss) e in
    let (g, c) = cons-parts b (length ys % 256) rem (ys ++ stream yss) f in
    absurd (omega (arith, p, d, g, n, ap length c, length-append ys (stream yss)))
stream_unique (xs ∷ xss) [] rem p e = absurd (cc e)
stream_unique (xs ∷ xss) (ys ∷ yss) rem p e =
    let bs = (xs ++ stream xss) ++ rem in
    let cs = ys ++ stream yss in
    let (d, f) =
      cons-parts (length xs / 256) (length ys / 256) (length xs % 256 ∷ bs) (length ys % 256 ∷ cs)
        e in
    let (g, c) = cons-parts (length xs % 256) (length ys % 256) bs cs f in
    let (h, t) =
      append-parts xs ys (stream xss ++ rem) (stream yss) (omega (arith, d, g))
        (sym (append_assoc xs (stream xss) rem) ∙ c) in
    let (i, j) = stream_unique xss yss rem p t in (ap₂ ◌∷◌ h i, j)

pub stream-append : (xss yss : List (List ℕ)) → stream (xss ++ yss) ≡ stream xss ++ stream yss
stream-append [] yss = refl
stream-append (xs ∷ xss) yss =
    ap (λ t. frame xs ++ t) (stream-append xss yss)
    ∙ sym (append_assoc (frame xs) (stream xss) (stream yss))
