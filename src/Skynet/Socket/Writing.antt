-- ===== src/Skynet/Socket/Writing.antt =====
-- `send_list_tcp`: which messages are written as a whole, and what is left.
use game_server_development.Prelude.{
  take-drop, length-append, ℕ, zero, suc, ◌+◌, ◌≤◌, ◌≡◌, refl, sym, ap, ◌∙◌, List, [], ◌∷◌, ◌++◌,
  append-nil, append_assoc, Bool, true, false, ◌==◌, min, length, take, drop, arith, Bool-cases,
  inl, inr,
}
use game_server_development.Skynet.Databuffer.Contents.{drop-length, take-length}
use game_server_development.Skynet.Socket.{
  WriteBuffer, rest, WriteResult, wrote, again, interrupted, failed, Progress, send_list,
}
use game_server_development.Skynet.Socket.Sound.{
  concat, part, left, picks, pick, Fresh, TailFresh, Low, TailLow, Low-tail, Fresh-part, Fresh-tail,
}

take-take : (m n : ℕ) (xs : List ℕ) → take m xs ++ take n (drop m xs) ≡ take (m + n) xs
take-take zero n xs = let e : n ≡ 0 + n = omega arith in ap (λ k. take k xs) e
take-take (suc m) zero [] = let e : suc m ≡ suc m + 0 = omega arith in ap (λ k. take k []) e
take-take (suc m) (suc n) [] =
    let e : suc (m + suc n) ≡ suc m + suc n = omega arith in ap (λ k. take k []) e
take-take (suc m) n (x ∷ xs) =
    let e : suc (m + n) ≡ suc m + n = omega arith in
    ap (λ t. x ∷ t) (take-take m n xs) ∙ ap (λ k. take k (x ∷ xs)) e

-- What `send_list_tcp` makes of the list `bs`: `done` are the messages that it completes.
pub record Sends (bs : List WriteBuffer) (p : Progress) : Type 0 where
  pub done : List WriteBuffer
  pub bytes : part bs ++ p.bytes ≡ concat done ++ part p.list
  pub order : (b : Bool) → picks b done ++ picks b p.list ≡ picks b bs
  pub size : left p.list + length p.bytes ≡ left bs
  pub tail : TailFresh p.list
  pub unbroken : p.broken ≡ true → Fresh bs → Fresh p.list
  pub lows : Low bs → TailLow p.list

unsent :
    (rs : List WriteResult) (broken : Bool) (bs : List WriteBuffer)
    → TailFresh bs
    → Sends bs (record { broken = broken; results = rs; list = bs; bytes = []; done = [] })
unsent rs broken bs f = record {
  done = [];
  bytes = append-nil (part bs);
  order = λ p. refl;
  size = omega arith;
  tail = f;
  unbroken = λ e fr. fr;
  lows = Low-tail bs;
}

-- The first message is written as a whole.
whole :
    (b : WriteBuffer) (bs : List WriteBuffer) (p : Progress)
    → Sends bs p
    → Fresh bs
    → Sends (b ∷ bs) (record p { bytes = rest b ++ p.bytes; done = b.buffer ∷ p.done })
whole b bs p s f = record {
  done = b ∷ s.done;
  bytes =
      sym (append_assoc (take b.offset b.bytes) (rest b) p.bytes)
      ∙ ap (λ t. t ++ p.bytes) (take-drop b.offset b.bytes)
      ∙ ap (λ t. b.bytes ++ (t ++ p.bytes)) (sym (Fresh-part bs f))
      ∙ ap (λ t. b.bytes ++ t) s.bytes
      ∙ sym (append_assoc b.bytes (concat s.done) (part p.list));
  order = λ q.
      append_assoc (pick q b) (picks q s.done) (picks q p.list)
      ∙ ap (λ t. pick q b ++ t) (s.order q);
  size = omega (arith, s.size, length-append (rest b) p.bytes);
  tail = s.tail;
  unbroken = λ e fr. s.unbroken e fr.1;
  lows = λ l. s.lows l.3;
}

pub pick_same : (q : Bool) (b : WriteBuffer) (n : ℕ) → pick q (record b { offset = n }) ≡ pick q b
pick_same true b n = refl
pick_same false b n = refl

-- A part of the first message is written.
partly :
    (rs : List WriteResult) (b : WriteBuffer) (bs : List WriteBuffer) (n : ℕ)
    → n ≤ length (rest b)
    → Fresh bs
    → Sends (b ∷ bs) (record {
      broken = false;
      results = rs;
      list = record b { offset = b.offset + n } ∷ bs;
      bytes = take n (rest b);
      done = [];
    })
partly rs b bs n h f = record {
  done = [];
  bytes = take-take b.offset n b.bytes;
  order = λ q. ap (λ t. t ++ picks q bs) (pick_same q b (b.offset + n));
  size = omega (
    arith,
    drop-length (b.offset + n) b.bytes,
    drop-length b.offset b.bytes,
    take-length n (rest b) h,
    h,
  );
  tail = f;
  unbroken = λ e fr. absurd (cc e);
  lows = λ l. (l.1, l.2, l.3);
}

pub send_list-Sends :
    (rs : List WriteResult) (bs : List WriteBuffer) → TailFresh bs → Sends bs (send_list rs bs)
unfolding send_list
send_list-Sends [] bs f = unsent [] false bs f
send_list-Sends (r ∷ rs) [] f = unsent (r ∷ rs) false [] f
send_list-Sends (interrupted ∷ rs) (b ∷ bs) f = send_list-Sends rs (b ∷ bs) f
send_list-Sends (again ∷ rs) (b ∷ bs) f = unsent rs false (b ∷ bs) f
send_list-Sends (failed ∷ rs) (b ∷ bs) f = unsent rs true (b ∷ bs) f
send_list-Sends (wrote k ∷ rs) (b ∷ bs) f =
    let n : ℕ = length (rest b) in
    elim (Bool-cases (min k n == n)) [
      | inl e ↦ rw e (whole b bs (send_list rs bs) (send_list-Sends rs bs (Fresh-tail bs f)) f)
      | inr e ↦ rw e (partly rs b bs (min k n) (ground arith) f)
    ]
