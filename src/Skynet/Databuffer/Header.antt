-- ===== src/Skynet/Databuffer/Header.antt =====
-- The packets of a stream: `databuffer_readheader` over the encoding of packets, however the stream
-- is cut into chunks.
use game_server_development.Prelude.{
  ℕ, ◌+◌, ◌-◌, ◌/◌, ◌%◌, ◌^◌, ◌≤◌, ◌<◌, ◌≡◌, refl, sym, ap, ◌∙◌, subst, List, [], ◌∷◌, ◌++◌, ◌==◌,
  if◌then◌else◌, some, length, take, drop, arith, append-nil, length-append, ◌⊎◌, inl, inr, dec_lt,
}
use game_server_development.Prelude.Int.{ℤ, pos, negsuc}
use game_server_development.Skynet.Databuffer.{
  MessagePool, Databuffer, push, ready, readheader, parse_header,
}
use game_server_development.Skynet.Databuffer.Contents.{
  IsValid, contents, read_lem, take-append, drop_over, take_all, drop-length, drop-append,
  with_header,
}

-- The sizes of a header, and of the packets that fit it.
abbrev pub IsHeaderSize : ℕ → Type 0
IsHeaderSize hs = (hs ≡ 2) ⊎ (hs ≡ 4)

abbrev pub limit : ℕ → ℕ
limit hs = if hs == 2 then 2 ^ 16 else 0x1000000

abbrev pub IsPacket : ℕ → List ℕ → Type 0
IsPacket hs p = (0 < length p) × (length p < limit hs)

-- The encoding that the peer uses: the size in `hs` bytes, the highest first, and the bytes.
abbrev pub put_header : ℕ → ℕ → List ℕ
put_header hs n =
    if hs == 2
    then n / 256 ∷ n % 256 ∷ []
    else n / 2 ^ 24 ∷ n / 2 ^ 16 % 256 ∷ n / 256 % 256 ∷ n % 256 ∷ []

abbrev pub encode : ℕ → List (List ℕ) → List ℕ
encode hs [] = []
encode hs (p ∷ ps) = put_header hs (length p) ++ (p ++ encode hs ps)

abbrev pub All : {A : Type 0} → (A → Type 0) → List A → Type 0
All P [] = Unit
All P (x ∷ xs) = P x × All P xs

put_header-length : (hs n : ℕ) → IsHeaderSize hs → length (put_header hs n) ≡ hs
put_header-length hs n (inl e) = ground arith
put_header-length hs n (inr e) = ground arith

header_size_pos : (hs : ℕ) → IsHeaderSize hs → 0 < hs
header_size_pos hs (inl e) = omega arith
header_size_pos hs (inr e) = omega arith

pub encode_nil : (hs : ℕ) (ps : List (List ℕ)) → IsHeaderSize hs → encode hs ps ≡ [] → ps ≡ []
encode_nil hs [] ih e = refl
encode_nil hs (p ∷ ps) ih e = absurd (
    omega (
      arith,
      ap length e,
      length-append {0} (put_header hs (length p)) (p ++ encode hs ps),
      put_header-length hs (length p) ih,
      header_size_pos hs ih,
    ))

parse-put_header :
    (hs n : ℕ) → IsHeaderSize hs → n < limit hs → parse_header hs (put_header hs n) ≡ pos n
unfolding parse_header
parse-put_header hs n (inl e) lt = ground arith
parse-put_header hs n (inr e) lt = ground arith

-- Where a buffer stands in a stream of packets: before a header, or after the header of a packet.
pub data Stands (hs : ℕ) (header : ℤ) (bytes : List ℕ) (ps : List (List ℕ)) : Type 0 where
  before : header ≡ pos 0 → bytes ≡ encode hs ps → Stands hs header bytes ps
  after :
      (p : List ℕ) (rest : List (List ℕ))
      → ps ≡ p ∷ rest
      → header ≡ pos (length p)
      → bytes ≡ p ++ encode hs rest
      → Stands hs header bytes ps

-- What `databuffer_readheader` answers: -1 if the next packet is not there as a whole, and else its
-- size, the packet being the next bytes.
pub data Answers (hs : ℕ) (future : List ℕ) (ps : List (List ℕ)) (r : ℤ) (db : Databuffer)
    : Type 0 where
  partial :
      r ≡ negsuc 0
      → Stands hs db.header (contents db ++ future) ps
      → (future ≡ [] → ps ≡ [])
      → Answers hs future ps r db
  whole :
      (p : List ℕ) (rest : List (List ℕ))
      → ps ≡ p ∷ rest
      → r ≡ pos (length p)
      → db.header ≡ pos (length p)
      → length p ≤ db.size
      → contents db ++ future ≡ p ++ encode hs rest
      → Answers hs future ps r db

-- With the header read.
ready-Answers :
    (hs : ℕ) (db : Databuffer) (future : List ℕ) (p : List ℕ) (rest : List (List ℕ))
    → IsValid db
    → 0 < length p
    → db.header ≡ pos (length p)
    → contents db ++ future ≡ p ++ encode hs rest
    → Answers hs future (p ∷ rest) (ready db) db
unfolding ready
ready-Answers hs db future p rest v pp h e = elim (dec_lt db.size (length p)) [
  | yes less ↦ partial (ground (arith, h)) (after p rest refl h e) (λ none_left. absurd (
      omega (
        arith,
        less,
        v.size,
        ap length e,
        ap length none_left,
        length-append {0} (contents db) future,
        length-append {0} p (encode hs rest),
      )))
  | no more ↦ whole p rest refl (ground (arith, h)) h (omega arith) e
]

-- What `databuffer_readheader` gives.
pub record Read (hs : ℕ) (db : Databuffer) (mp : MessagePool) (future : List ℕ) (ps : List (List ℕ))
    : Type 0 where
  pub result : ℤ
  pub buffer : Databuffer
  pub pool : MessagePool
  pub done : readheader db mp hs ≡ some (result, buffer, pool)
  pub valid : IsValid buffer
  pub shorter : buffer.size ≤ db.size
  pub answers : Answers hs future ps result buffer

known_header :
    (hs : ℕ) (db : Databuffer) (mp : MessagePool) (future : List ℕ) (p : List ℕ)
    (rest : List (List ℕ))
    → IsValid db
    → 0 < length p
    → db.header ≡ pos (length p)
    → contents db ++ future ≡ p ++ encode hs rest
    → Read hs db mp future (p ∷ rest)
unfolding readheader
known_header hs db mp future p rest v pp h e = record {
  result = ready db;
  buffer = db;
  pool = mp;
  done = ground (arith, h);
  valid = v;
  shorter = omega arith;
  answers = ready-Answers hs db future p rest v pp h e;
}

-- The header of the next packet is read, if its bytes are there.
fresh_header :
    (hs : ℕ) (db : Databuffer) (mp : MessagePool) (future : List ℕ) (p : List ℕ)
    (rest : List (List ℕ))
    → IsHeaderSize hs
    → IsValid db
    → IsPacket hs p
    → hs ≤ db.size
    → db.header ≡ pos 0
    → contents db ++ future ≡ encode hs (p ∷ rest)
    → Read hs db mp future (p ∷ rest)
unfolding readheader
fresh_header hs db mp future p rest ih v (pp, fits) le h e =
    let (d, mp', done, valid, left, same, nodes, blocks) =
      read_lem db mp hs v (header_size_pos hs ih) le in
    let db' : Databuffer = record d { header = parse_header hs (take hs (contents db)) } in
    let plen : take hs (contents db) ≡ put_header hs (length p) = front in
    let parsed : parse_header hs (take hs (contents db)) ≡ pos (length p) =
      ap (parse_header hs) plen ∙ parse-put_header hs (length p) ih fits in
    let body : contents d ++ future ≡ p ++ encode hs rest = ap (λ b. b ++ future) left ∙ behind in
    record {
      result = ready db';
      buffer = db';
      pool = mp';
      done = ground (arith, h, done);
      valid = (with_header d (parse_header hs (take hs (contents db))) valid).0;
      shorter = omega (arith, v.size, valid.size, ap length left, drop-length hs (contents db));
      answers =
          ready-Answers hs db' future p rest
            (with_header d (parse_header hs (take hs (contents db))) valid).0 pp parsed
            (ap (λ b. b ++ future) (with_header d (parse_header hs (take hs (contents db))) valid).1
              ∙ body);
    }
  where
    enough : hs ≤ length (contents db)
    enough = omega (arith, v.size, le)

    front : take hs (contents db) ≡ put_header hs (length p)
    front =
        sym (take-append hs (contents db) future enough)
        ∙ ap (take hs) e
        ∙ take-append hs (put_header hs (length p)) (p ++ encode hs rest)
            (omega (arith, put_header-length hs (length p) ih))
        ∙ take_all hs (put_header hs (length p)) (omega (arith, put_header-length hs (length p) ih))

    none_left : (k : ℕ) → k ≡ 0 → drop k (p ++ encode hs rest) ≡ p ++ encode hs rest
    none_left k z = ap (λ j. drop j (p ++ encode hs rest)) z

    behind : drop hs (contents db) ++ future ≡ p ++ encode hs rest
    behind =
        sym (drop-append hs (contents db) future enough)
        ∙ ap (drop hs) e
        ∙ drop_over hs (put_header hs (length p)) (p ++ encode hs rest)
            (omega (arith, put_header-length hs (length p) ih))
        ∙ none_left (hs - length (put_header hs (length p)))
            (omega (arith, put_header-length hs (length p) ih))

no_header :
    (hs : ℕ) (db : Databuffer) (mp : MessagePool) (future : List ℕ) (ps : List (List ℕ))
    → IsHeaderSize hs
    → IsValid db
    → All (IsPacket hs) ps
    → db.header ≡ pos 0
    → contents db ++ future ≡ encode hs ps
    → Read hs db mp future ps
unfolding readheader
no_header hs db mp future ps ih v good h e = elim (dec_lt db.size hs) [
  | yes less ↦ record {
    result = negsuc 0;
    buffer = db;
    pool = mp;
    done = ground (arith, h);
    valid = v;
    shorter = omega arith;
    answers = partial refl (before h e) (λ last. short ps e last less);
  }
  | no more ↦ enough ps good e (omega arith)
]
  where
    size_of : db.size + length future ≡ length (encode hs ps)
    size_of = omega (arith, v.size, ap length e, length-append (contents db) future)

    short :
        (qs : List (List ℕ))
        → contents db ++ future ≡ encode hs qs
        → future ≡ []
        → db.size < hs
        → qs ≡ []
    short [] e last less = refl
    short (p ∷ rest) e last less = absurd (
        omega (
          arith,
          v.size,
          ap length e,
          ap length last,
          length-append (contents db) future,
          less,
          length-append (put_header hs (length p)) (p ++ encode hs rest),
          put_header-length hs (length p) ih,
        ))

    enough :
        (qs : List (List ℕ))
        → All (IsPacket hs) qs
        → contents db ++ future ≡ encode hs qs
        → hs ≤ db.size
        → Read hs db mp future qs
    enough [] g e le = absurd (
        omega (
          arith,
          le,
          header_size_pos hs ih,
          v.size,
          ap length e,
          length-append (contents db) future,
        ))
    enough (p ∷ rest) (g, gs) e le = fresh_header hs db mp future p rest ih v g le h e

pub readheader-Read :
    (hs : ℕ) (db : Databuffer) (mp : MessagePool) (future : List ℕ) (ps : List (List ℕ))
    → IsHeaderSize hs
    → IsValid db
    → All (IsPacket hs) ps
    → Stands hs db.header (contents db ++ future) ps
    → Read hs db mp future ps
readheader-Read hs db mp future ps ih v good (before h e) =
    no_header hs db mp future ps ih v good h e
readheader-Read hs db mp future ps ih v good (after p rest q h e) =
    subst (Read hs db mp future) (sym q)
      (known_header hs db mp future p rest v (subst (All (IsPacket hs)) q good).0.0 h e)

-- A buffer at the end of its stream.
pub at_end :
    (hs : ℕ) (header : ℤ) (bytes : List ℕ) (ps : List (List ℕ))
    → Stands hs header (bytes ++ []) ps
    → ps ≡ []
    → (bytes ≡ []) × (header ≡ pos 0)
at_end hs header bytes ps (before h e) none_left =
    (sym (append-nil bytes) ∙ e ∙ ap (encode hs) none_left, h)
at_end hs header bytes ps (after p rest q h e) none_left = absurd (cc (q, none_left))

-- A negative header is an answer that never changes.
pub readheader-negative :
    (hs n : ℕ) (db : Databuffer) (mp : MessagePool)
    → db.header ≡ negsuc n
    → readheader db mp hs ≡ some (negsuc n, db, mp)
unfolding readheader ready
readheader-negative hs n db mp h = ground (arith, h)

pub push-header :
    (db : Databuffer) (mp : MessagePool) (bytes : List ℕ) → (push db mp bytes).0.header ≡ db.header
unfolding push
push-header db mp bytes = refl
