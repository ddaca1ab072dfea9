-- ===== src/Skynet/Databuffer/Contents.antt =====
-- The bytes of a buffer: a push adds some at the end, a read takes some from the front.
use game_server_development.Prelude.{
  ℕ, zero, suc, ◌+◌, ◌-◌, ◌*◌, ◌≤◌, ◌<◌, ◌≡◌, refl, sym, ap, ◌∙◌, List, [], ◌∷◌, ◌++◌, some, length,
  take, drop, arith, append-nil, append_assoc, length-append, dec_lt, ℕ_discrete,
}
use game_server_development.Prelude.Int.{ℤ, pos}
use game_server_development.Skynet.Databuffer.{
  MessagePool, Databuffer, messagepool_size, push, read_chunks, read, reset, empty,
}

unfoldable pub join : List (List ℕ) → List ℕ
join [] = []
join (c ∷ cs) = c ++ join cs

-- The bytes that wait.
unfoldable pub contents : Databuffer → List ℕ
unfolding join
contents db = drop db.offset (join db.chunks)

-- The offset lies in the first chunk.
abbrev pub Within : ℕ → List (List ℕ) → Type 0
Within o [] = o ≡ 0
Within o (c ∷ cs) = o ≤ length c

pub record IsValid (db : Databuffer) : Type 0 where
  pub within : Within db.offset db.chunks
  pub size : db.size ≡ length (contents db)

-- Every node is free or in one of the lists.
abbrev pub Balanced : ℕ → MessagePool → Type 0
Balanced used mp = used + mp.free ≡ mp.blocks * messagepool_size

pub drop-append :
    {A : Type 0} (n : ℕ) (xs ys : List A) → n ≤ length xs → drop n (xs ++ ys) ≡ drop n xs ++ ys
drop-append zero xs ys h = refl
drop-append (suc n) [] ys h = absurd (omega arith)
drop-append (suc n) (x ∷ xs) ys h = drop-append n xs ys (omega arith)

pub take-append :
    {A : Type 0} (n : ℕ) (xs ys : List A) → n ≤ length xs → take n (xs ++ ys) ≡ take n xs
take-append zero xs ys h = refl
take-append (suc n) [] ys h = absurd (omega arith)
take-append (suc n) (x ∷ xs) ys h = ap (λ r. x ∷ r) (take-append n xs ys (omega arith))

join-append : (cs ds : List (List ℕ)) → join (cs ++ ds) ≡ join cs ++ join ds
unfolding join
join-append [] ds = refl
join-append (c ∷ cs) ds =
    ap (λ r. c ++ r) (join-append cs ds) ∙ sym (append_assoc c (join cs) (join ds))

pub drop-length : {A : Type 0} (n : ℕ) (xs : List A) → length (drop n xs) ≡ length xs - n
drop-length zero xs = omega arith
drop-length (suc n) [] = omega arith
drop-length (suc n) (x ∷ xs) = omega (arith, drop-length n xs)

pub take-length : {A : Type 0} (n : ℕ) (xs : List A) → n ≤ length xs → length (take n xs) ≡ n
take-length zero xs h = refl
take-length (suc n) [] h = absurd (omega arith)
take-length (suc n) (x ∷ xs) h = ap suc (take-length n xs (omega arith))

offset_le : (o : ℕ) (cs : List (List ℕ)) → Within o cs → o ≤ length (join cs)
unfolding join
offset_le o [] w = omega arith
offset_le o (c ∷ cs) w = omega (arith, length-append {0} c (join cs))

drop_nil : {A : Type 0} (k : ℕ) → drop {A = A} k [] ≡ []
drop_nil zero = refl
drop_nil (suc k) = refl

pub take_all : {A : Type 0} (n : ℕ) (xs : List A) → length xs ≤ n → take n xs ≡ xs
take_all zero [] h = refl
take_all (suc n) [] h = refl
take_all zero (x ∷ xs) h = absurd (omega arith)
take_all (suc n) (x ∷ xs) h = ap (λ r. x ∷ r) (take_all n xs (omega arith))

pub drop-drop : {A : Type 0} (m n : ℕ) (xs : List A) → drop n (drop m xs) ≡ drop (m + n) xs
drop-drop zero n xs = ap (λ k. drop k xs) (omega arith)
drop-drop {A} (suc m) n [] = drop_nil {A = A} n ∙ sym (drop_nil {A = A} (suc m + n))
drop-drop (suc m) n (x ∷ xs) =
    let e : suc m + n ≡ suc (m + n) = omega arith in
    drop-drop m n xs ∙ sym (ap (λ k. drop k (x ∷ xs)) e)

-- Past the first of two lists.
pub drop_over :
    {A : Type 0} (n : ℕ) (xs ys : List A)
    → length xs ≤ n
    → drop n (xs ++ ys) ≡ drop (n - length xs) ys
drop_over n [] ys h = ap (λ k. drop k ys) (omega arith)
drop_over zero (x ∷ xs) ys h = absurd (omega arith)
drop_over (suc n) (x ∷ xs) ys h =
    drop_over n xs ys (omega arith) ∙ ap (λ k. drop k ys) (omega arith)

pub take_over :
    {A : Type 0} (n : ℕ) (xs ys : List A)
    → length xs ≤ n
    → take n (xs ++ ys) ≡ xs ++ take (n - length xs) ys
take_over n [] ys h = ap (λ k. take k ys) (omega arith)
take_over zero (x ∷ xs) ys h = absurd (omega arith)
take_over (suc n) (x ∷ xs) ys h =
    ap (λ r. x ∷ r) (take_over n xs ys (omega arith) ∙ ap (λ k. xs ++ take k ys) (omega arith))

-- `databuffer_push` adds the bytes at the end.
pub push_lem :
    (db : Databuffer) (mp : MessagePool) (bytes : List ℕ)
    → IsValid db
    → IsValid (push db mp bytes).0
      × (contents (push db mp bytes).0 ≡ contents db ++ bytes)
      × ((push db mp bytes).0.header ≡ db.header)
unfolding push contents join
push_lem db mp bytes v = (
  record {
    within = within_after db.chunks v.within;
    size = omega (arith, v.size, ap length same, length-append (contents db) bytes);
  },
  same,
  refl,
)
  where
    within_after : (cs : List (List ℕ)) → Within db.offset cs → Within db.offset (cs ++ bytes ∷ [])
    within_after [] w = omega arith
    within_after (c ∷ cs) w = w

    same :
        drop db.offset (join (db.chunks ++ bytes ∷ [])) ≡ drop db.offset (join db.chunks) ++ bytes
    same =
        ap (drop db.offset)
          (join-append db.chunks (bytes ∷ []) ∙ ap (λ r. join db.chunks ++ r) (append-nil bytes))
        ∙ drop-append db.offset (join db.chunks) bytes (offset_le db.offset db.chunks v.within)

-- What a read of `sz` bytes from chunks leaves.
record Taken (cs : List (List ℕ)) (o sz : ℕ) (mp : MessagePool) : Type 0 where
  left : List (List ℕ)
  offset : ℕ
  pool : MessagePool
  done : read_chunks cs o sz mp ≡ some (take sz (drop o (join cs)), left, offset, pool)
  within : Within offset left
  rest : drop offset (join left) ≡ drop sz (drop o (join cs))
  nodes : length left + pool.free ≡ length cs + mp.free
  blocks : pool.blocks ≡ mp.blocks

read_chunks-Taken :
    (cs : List (List ℕ)) (o sz : ℕ) (mp : MessagePool)
    → Within o cs
    → 0 < sz
    → sz ≤ length (drop o (join cs))
    → Taken cs o sz mp
unfolding read_chunks join
read_chunks-Taken [] o sz mp w p h = absurd (omega (arith, drop-length {A = ℕ} o [], h, p))
read_chunks-Taken (c ∷ cs) o sz mp w p h = elim (dec_lt sz (length c - o)) [
  | yes less ↦ record {
    left = c ∷ cs;
    offset = o + sz;
    pool = mp;
    done = ground (arith, front (omega (arith, len, less)));
    within = omega arith;
    rest = sym (drop-drop o sz (c ++ join cs));
    nodes = refl;
    blocks = refl;
  }
  | no more ↦ elim (ℕ_discrete (length c - o) sz) [
    | yes same ↦ record {
      left = cs;
      offset = 0;
      pool = record mp { free = mp.free + 1 };
      done = ground (arith, front (omega (arith, len, same)));
      within = from_start cs;
      rest = sym (
          past (omega (arith, len, same))
          ∙ nothing (sz - length (drop o c)) (omega (arith, len, same)));
      nodes = omega arith;
      blocks = refl;
    }
    | no other ↦
        let r =
          read_chunks-Taken cs 0 (sz - (length c - o)) (record mp { free = mp.free + 1 })
            (from_start cs) (omega arith) (omega (arith, h, split_length)) in
        record {
          left = r.left;
          offset = r.offset;
          pool = r.pool;
          done = ground (
            arith,
            r.done,
            both (omega (arith, len, more)),
            take_all (length c - o) (drop o c) (omega (arith, len)),
          );
          within = r.within;
          rest =
              r.rest
              ∙ sym (past (omega (arith, len, more)) ∙ ap (λ k. drop (sz - k) (join cs)) len);
          nodes = omega (arith, r.nodes);
          blocks = r.blocks;
        }
  ]
]
  where
    from_start : (ds : List (List ℕ)) → Within 0 ds
    from_start [] = refl
    from_start (d ∷ ds) = omega arith

    split : drop o (c ++ join cs) ≡ drop o c ++ join cs
    split = drop-append o c (join cs) w

    len : length (drop o c) ≡ length c - o
    len = drop-length o c

    nothing : (k : ℕ) → k ≡ 0 → drop k (join cs) ≡ join cs
    nothing k e = ap (λ j. drop j (join cs)) e

    split_length : length (drop o (c ++ join cs)) ≡ length c - o + length (join cs)
    split_length =
        ap length split ∙ length-append (drop o c) (join cs) ∙ ap (λ k. k + length (join cs)) len

    front : sz ≤ length (drop o c) → take sz (drop o (c ++ join cs)) ≡ take sz (drop o c)
    front le = ap (take sz) split ∙ take-append sz (drop o c) (join cs) le

    past :
        length (drop o c) ≤ sz
        → drop sz (drop o (c ++ join cs)) ≡ drop (sz - length (drop o c)) (join cs)
    past le = ap (drop sz) split ∙ drop_over sz (drop o c) (join cs) le

    both :
        length (drop o c) ≤ sz
        → take sz (drop o (c ++ join cs)) ≡ drop o c ++ take (sz - (length c - o)) (join cs)
    both le =
        ap (take sz) split
        ∙ take_over sz (drop o c) (join cs) le
        ∙ ap (λ k. drop o c ++ take (sz - k) (join cs)) len

-- `databuffer_read` of a positive number of bytes that are there gives the first of them and leaves
-- the others; every node that it empties goes back to the pool.
pub read_lem :
    (db : Databuffer) (mp : MessagePool) (sz : ℕ)
    → IsValid db
    → 0 < sz
    → sz ≤ db.size
    → (db' : Databuffer) × (mp' : MessagePool) × (read db mp sz
        ≡ some (take sz (contents db), db', mp'))
      × IsValid db'
      × (contents db' ≡ drop sz (contents db))
      × (db'.header ≡ db.header)
      × (length db'.chunks + mp'.free ≡ length db.chunks + mp.free)
      × (mp'.blocks ≡ mp.blocks)
unfolding read contents
read_lem db mp sz v p h =
    let t = read_chunks-Taken db.chunks db.offset sz mp v.within p (omega (arith, h, v.size)) in
    let db' : Databuffer = record db { size = db.size - sz; chunks = t.left; offset = t.offset } in
    (
      db',
      t.pool,
      ground (arith, t.done),
      record {
        within = t.within;
        size =
            omega
              (arith, v.size, ap length t.rest, drop-length sz (drop db.offset (join db.chunks)));
      },
      t.rest,
      refl,
      t.nodes,
      t.blocks,
    )

-- The header does not count among the bytes.
pub with_header :
    (d : Databuffer) (x : ℤ)
    → IsValid d
    → IsValid (record d { header = x }) × (contents (record d { header = x }) ≡ contents d)
unfolding contents
with_header d x v = (record { within = v.within; size = v.size }, refl)

pub reset_lem :
    (d : Databuffer)
    → IsValid d
    → IsValid (reset d)
      × (contents (reset d) ≡ contents d)
      × ((reset d).header ≡ pos 0)
      × ((reset d).size ≡ d.size)
unfolding contents reset
reset_lem d v = (record { within = v.within; size = v.size }, refl, refl, refl)

pub empty-IsValid : IsValid empty × (contents empty ≡ [])
unfolding contents join
empty-IsValid = (record { within = refl; size = refl }, refl)
