-- ===== src/Skynet/Socket/Messages.antt =====
-- How a new message comes into the pipe, into a list, or to the descriptor.
use game_server_development.Prelude.{
  ℕ, suc, ◌+◌, ◌≡◌, refl, sym, ap, ap₂, ◌∙◌, List, [], ◌∷◌, ◌++◌, append-nil, append_assoc,
  length-append, Bool, true, false, Option, none, some, length, take, arith, ◌⊎◌, inl, inr,
}
use game_server_development.Skynet.Socket.{WriteBuffer, rest}
use game_server_development.Skynet.Socket.Writing.{pick_same}
use game_server_development.Skynet.Socket.Sound.{
  concat, part, picks, pick, TailFresh, Low, dw_list, Sound, concat-append, picks-append,
  left-append, Fresh-append, TailFresh-append, Low-append, Waits-append, picks-Low,
}

-- One part more at the end of five.
append_five :
    {A : Type 0} (a b c d e f : List A)
    → a ++ (b ++ (c ++ (d ++ (e ++ f)))) ≡ (a ++ (b ++ (c ++ (d ++ e)))) ++ f
append_five a b c d e f =
    ap (λ t. a ++ (b ++ (c ++ t))) (sym (append_assoc d e f))
    ∙ ap (λ t. a ++ (b ++ t)) (sym (append_assoc c (d ++ e) f))
    ∙ ap (λ t. a ++ t) (sym (append_assoc b (c ++ (d ++ e)) f))
    ∙ sym (append_assoc a (b ++ (c ++ (d ++ e))) f)

-- A buffer that a sender hands over.
pub record New (b : WriteBuffer) : Type 0 where
  pub untouched : b.offset ≡ 0
  pub plain : b.low_priority ≡ true → b.start ≡ b.buffer

module _ {g r : Bool} {low accepted done : List WriteBuffer} {wb : ℕ} {written : List ℕ} where
  -- A message goes into the pipe.
  pub requested :
      {dw : Option WriteBuffer} {high queue : List WriteBuffer} {sending : ℕ} {b : WriteBuffer}
      → New b
      → Sound g r dw high low wb sending queue written accepted done
      → Sound g r dw high low wb (suc sending) (queue ++ b ∷ []) written (accepted ++ b ∷ []) done
  requested {dw = dw} {high = high} {queue = queue} {b = b} n s = record {
    stream = s.stream;
    order = λ e p.
        ap (λ t. picks p done ++ (picks p (dw_list dw) ++ (picks p high ++ (picks p low ++ t))))
          (picks-append p queue (b ∷ []))
        ∙ append_five (picks p done) (picks p (dw_list dw)) (picks p high) (picks p low)
            (picks p queue) (picks p (b ∷ []))
        ∙ ap (λ t. t ++ picks p (b ∷ [])) (s.order e p)
        ∙ sym (picks-append p accepted (b ∷ []));
    size = s.size;
    count = omega (arith, s.count, length-append queue (b ∷ []));
    tail = s.tail;
    lows = s.lows;
    waits = Waits-append queue b s.waits n.untouched n.plain;
  }

  -- The first message of the pipe is dropped by a socket that refuses it.
  pub dropped :
      {dw : Option WriteBuffer} {high queue : List WriteBuffer} {sending : ℕ} {b : WriteBuffer}
      → r ≡ true
      → Sound g r dw high low wb (suc sending) (b ∷ queue) written accepted done
      → Sound g r dw high low wb sending queue written accepted done
  dropped q s = record {
    stream = s.stream;
    order = λ e. absurd (cc (q, e));
    size = s.size;
    count = omega (arith, s.count);
    tail = s.tail;
    lows = s.lows;
    waits = s.waits.2;
  }

  -- It goes to the low list.
  pub to_low :
      {dw : Option WriteBuffer} {high queue : List WriteBuffer} {sending : ℕ} {b : WriteBuffer}
      → b.low_priority ≡ true
      → Sound g r dw high low wb (suc sending) (b ∷ queue) written accepted done
      → Sound g r dw high (low ++ b ∷ []) (wb + length (rest b)) sending queue written accepted done
  to_low {dw = dw} {high = high} {queue = queue} {b = b} l s = record {
    stream = s.stream;
    order = λ e p.
        ap (λ t. picks p done ++ (picks p (dw_list dw) ++ (picks p high ++ t)))
          (ap (λ t. t ++ picks p queue) (picks-append p low (b ∷ []))
            ∙ append_assoc (picks p low) (picks p (b ∷ [])) (picks p queue)
            ∙ ap (λ t. picks p low ++ (t ++ picks p queue)) (append-nil (pick p b)))
        ∙ s.order e p;
    size = λ e. omega (arith, s.size e, left-append low (b ∷ []));
    count = omega (arith, s.count);
    tail = s.tail;
    lows = Low-append low b s.lows s.waits.0 (s.waits.1 l) l;
    waits = s.waits.2;
  }

-- A message passes the low list, if that is empty or if the message is of high priority.
passes :
    (p : Bool) (b : WriteBuffer) (low : List WriteBuffer)
    → Low low
    → (b.low_priority ≡ false) ⊎ (low ≡ [])
    → pick p b ++ picks p low ≡ picks p low ++ pick p b
passes p b low l (inr e) =
    ap (λ t. pick p b ++ picks p t) e
    ∙ append-nil (pick p b)
    ∙ ap (λ t. picks p t ++ pick p b) (sym e)
passes true b low l (inl e) = rw e (sym (append-nil (picks true low)))
passes false b low l (inl e) =
    ap (λ t. pick false b ++ t) (picks-Low low l)
    ∙ append-nil (pick false b)
    ∙ ap (λ t. t ++ pick false b) (sym (picks-Low low l))

part-append :
    (xs : List WriteBuffer) (b : WriteBuffer) → b.offset ≡ 0 → part (xs ++ b ∷ []) ≡ part xs
part-append [] b e = ap (λ n. take n b.bytes) e
part-append (x ∷ xs) b e = refl

module _ {g r : Bool} {low accepted done : List WriteBuffer} {wb : ℕ} {written : List ℕ} where
  -- It goes to the high list.
  pub to_high :
      {dw : Option WriteBuffer} {high queue : List WriteBuffer} {sending : ℕ} {b : WriteBuffer}
      → (b.low_priority ≡ false) ⊎ (low ≡ [])
      → Sound g r dw high low wb (suc sending) (b ∷ queue) written accepted done
      → Sound g r dw (high ++ b ∷ []) low (wb + length (rest b)) sending queue written accepted done
  to_high {dw = dw} {high = high} {queue = queue} {b = b} l s = record {
    stream = λ e.
        s.stream e
        ∙ ap (λ t. concat done ++ t)
            (sym (part-append (dw_list dw ++ high) b s.waits.0)
              ∙ ap part (append_assoc (dw_list dw) high (b ∷ [])));
    order = λ e p.
        ap (λ t. picks p done ++ (picks p (dw_list dw) ++ t))
          (ap (λ t. t ++ (picks p low ++ picks p queue))
              (picks-append p high (b ∷ []) ∙ ap (λ t. picks p high ++ t) (append-nil (pick p b)))
            ∙ append_assoc (picks p high) (pick p b) (picks p low ++ picks p queue)
            ∙ ap (λ t. picks p high ++ t)
                (sym (append_assoc (pick p b) (picks p low) (picks p queue))
                  ∙ ap (λ t. t ++ picks p queue) (passes p b low s.lows l)
                  ∙ append_assoc (picks p low) (pick p b) (picks p queue)))
        ∙ s.order e p;
    size = λ e. omega (arith, s.size e, left-append high (b ∷ []));
    count = omega (arith, s.count);
    tail = tail_append dw high b s.tail s.waits.0;
    lows = s.lows;
    waits = s.waits.2;
  }
    where
      tail_append :
          (dw : Option WriteBuffer) (high : List WriteBuffer) (b : WriteBuffer)
          → TailFresh (dw_list dw ++ high)
          → b.offset ≡ 0
          → TailFresh (dw_list dw ++ (high ++ b ∷ []))
      tail_append none high b t e = TailFresh-append high b t e
      tail_append (some x) high b t e = Fresh-append high b t e

-- What a direct write of `n` bytes makes of a socket with nothing to send.
module _ {g r : Bool} {accepted done : List WriteBuffer} {wb : ℕ} {written : List ℕ} where
  pub direct_whole :
      (b : WriteBuffer) (n : ℕ)
      → take n b.bytes ≡ b.bytes
      → Sound g r none [] [] wb 0 [] written accepted done
      → Sound g r none [] [] wb 0 []
          (written ++ take n b.bytes)
          (accepted ++ b ∷ [])
          (done ++ b ∷ [])
  direct_whole b n w s = record {
    stream = λ e.
        ap₂ (λ x y. x ++ y) (s.stream e ∙ append-nil (concat done)) w
        ∙ ap (λ t. concat done ++ t) (sym (append-nil b.bytes))
        ∙ sym (concat-append done (b ∷ []))
        ∙ sym (append-nil (concat (done ++ b ∷ [])));
    order = λ e p.
        append-nil (picks p (done ++ b ∷ []))
        ∙ picks-append p done (b ∷ [])
        ∙ ap (λ t. t ++ picks p (b ∷ [])) (sym (append-nil (picks p done)) ∙ s.order e p)
        ∙ sym (picks-append p accepted (b ∷ []));
    size = s.size;
    count = s.count;
    tail = tt;
    lows = tt;
    waits = tt;
  }

  pub direct_part :
      (b : WriteBuffer) (n : ℕ)
      → Sound g r none [] [] wb 0 [] written accepted done
      → Sound g r
          (some (record b { offset = n }))
          []
          []
          wb
          0
          []
          (written ++ take n b.bytes)
          (accepted ++ b ∷ [])
          done
  direct_part b n s = record {
    stream = λ e. ap (λ t. t ++ take n b.bytes) (s.stream e ∙ append-nil (concat done));
    order = λ e p.
        ap (λ t. picks p done ++ t)
          (append-nil (pick p (record b { offset = n }) ++ [])
            ∙ ap (λ t. t ++ []) (pick_same p b n))
        ∙ ap (λ t. t ++ picks p (b ∷ [])) (sym (append-nil (picks p done)) ∙ s.order e p)
        ∙ sym (picks-append p accepted (b ∷ []));
    size = s.size;
    count = s.count;
    tail = tt;
    lows = tt;
    waits = tt;
  }
