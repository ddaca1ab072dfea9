-- ===== src/Skynet/Socket/Moves.antt =====
-- How messages move between the lists of a socket.
use game_server_development.Prelude.{
  ℕ, ◌+◌, ◌-◌, ◌≡◌, sym, ap, ◌∙◌, List, [], ◌∷◌, ◌++◌, append-nil, append_assoc, Bool, false,
  Option, none, some, length, arith,
}
use game_server_development.Skynet.Socket.{WriteBuffer, rest, Progress}
use game_server_development.Skynet.Socket.Sound.{
  concat, part, picks, pick, Low, Sound, concat-append, picks-append, Fresh-part, Fresh-tail,
  Low-Fresh,
}
use game_server_development.Skynet.Socket.Writing.{Sends}

module _ {low queue accepted done : List WriteBuffer} {wb sending : ℕ} {written : List ℕ} where
  -- A type that is invalid, or refuses, more often.
  pub weaken :
      {g r g' r' : Bool} {dw : Option WriteBuffer} {high : List WriteBuffer}
      → (g' ≡ false → g ≡ false)
      → (r' ≡ false → r ≡ false)
      → Sound g r dw high low wb sending queue written accepted done
      → Sound g' r' dw high low wb sending queue written accepted done
  weaken a b s = record {
    stream = λ e. s.stream (a e);
    order = λ e. s.order (b e);
    size = λ e. s.size (a e);
    count = s.count;
    tail = s.tail;
    lows = s.lows;
    waits = s.waits;
  }

  -- `send_list_tcp` on the high list.
  pub advance :
      {g r : Bool} {high : List WriteBuffer} {p : Progress}
      → Sound g r none high low wb sending queue written accepted done
      → (t : Sends high p)
      → Sound g r none p.list low
          (wb - length p.bytes)
          sending
          queue
          (written ++ p.bytes)
          accepted
          (done ++ t.done)
  advance {high = high} {p = p} s t = record {
    stream = λ e.
        ap (λ w. w ++ p.bytes) (s.stream e)
        ∙ append_assoc (concat done) (part high) p.bytes
        ∙ ap (λ w. concat done ++ w) t.bytes
        ∙ sym (append_assoc (concat done) (concat t.done) (part p.list))
        ∙ ap (λ w. w ++ part p.list) (sym (concat-append done t.done));
    order = λ e b.
        let rest = picks b low ++ picks b queue in
        ap (λ w. w ++ (picks b p.list ++ rest)) (picks-append b done t.done)
        ∙ append_assoc (picks b done) (picks b t.done) (picks b p.list ++ rest)
        ∙ ap (λ w. picks b done ++ w) (sym (append_assoc (picks b t.done) (picks b p.list) rest))
        ∙ ap (λ w. picks b done ++ (w ++ rest)) (t.order b)
        ∙ s.order e b;
    size = λ e. omega (arith, s.size e, t.size);
    count = s.count;
    tail = t.tail;
    lows = s.lows;
    waits = s.waits;
  }

  -- The first of the low list is raised.
  pub split :
      {g r : Bool} {b : WriteBuffer}
      → Sound g r none (b ∷ low) [] wb sending queue written accepted done
      → Low low
      → Sound g r none (b ∷ []) low wb sending queue written accepted done
  split {b = b} s l = record {
    stream = s.stream;
    order = λ e q.
        ap (λ w. picks q done ++ w)
          (ap (λ w. w ++ (picks q low ++ picks q queue)) (append-nil (pick q b))
            ∙ sym (append_assoc (pick q b) (picks q low) (picks q queue)))
        ∙ s.order e q;
    size = λ e. omega (arith, s.size e);
    count = s.count;
    tail = tt;
    lows = l;
    waits = s.waits;
  }

  pub to_front :
      {g r : Bool}
      → Sound g r none [] low wb sending queue written accepted done
      → Sound g r none low [] wb sending queue written accepted done
  to_front s = record {
    stream =
        λ e. s.stream e ∙ ap (λ w. concat done ++ w) (sym (Fresh-part low (Low-Fresh low s.lows)));
    order = s.order;
    size = λ e. omega (arith, s.size e);
    count = s.count;
    tail = Fresh-tail low (Low-Fresh low s.lows);
    lows = tt;
    waits = s.waits;
  }

  pub from_front :
      {g r : Bool}
      → Sound g r none low [] wb sending queue written accepted done
      → Low low
      → Sound g r none [] low wb sending queue written accepted done
  from_front s l = record {
    stream = λ e. s.stream e ∙ ap (λ w. concat done ++ w) (Fresh-part low (Low-Fresh low l));
    order = s.order;
    size = λ e. omega (arith, s.size e);
    count = s.count;
    tail = tt;
    lows = l;
    waits = s.waits;
  }

  pub before_high :
      {g r : Bool} {high : List WriteBuffer} {b : WriteBuffer}
      → Sound g r (some b) high low wb sending queue written accepted done
      → Sound g r none (b ∷ high) low (wb + length (rest b)) sending queue written accepted done
  before_high {high = high} {b = b} s = record {
    stream = s.stream;
    order = λ e q.
        ap (λ w. picks q done ++ w)
          (append_assoc (pick q b) (picks q high) (picks q low ++ picks q queue)
            ∙ ap (λ w. w ++ (picks q high ++ (picks q low ++ picks q queue)))
                (sym (append-nil (pick q b))))
        ∙ s.order e q;
    size = λ e. omega (arith, s.size e);
    count = s.count;
    tail = s.tail;
    lows = s.lows;
    waits = s.waits;
  }
