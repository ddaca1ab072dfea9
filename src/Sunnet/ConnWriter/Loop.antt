-- ===== src/Sunnet/ConnWriter/Loop.antt =====
-- The loop of `ConnWriter::OnWriteable` keeps the bytes sent and those that wait, in order.
use game_server_development.Prelude.{
  length-drop, ℕ, zero, suc, ◌+◌, ◌-◌, ◌%◌, ◌^◌, ◌&&◌, leb, if_false, ◌≤◌, ◌<◌, min, ◌≡◌, refl, sym,
  ap, subst, ◌∙◌, List, [], ◌∷◌, ◌++◌, Bool, true, false, ◌==◌, Option, some, length, take, drop,
  arith, inl, inr, Bool-cases, append_assoc,
}
use game_server_development.Prelude.Int.{pos, pos_part}
use game_server_development.Sunnet.ConnWriter.{
  WriteResult, wrote, WriteObject, ConnWriter, is_wrote, write_part, write_front_obj, write_loop,
  Event, writes, writable, closes,
}

-- The socket takes a part at least.
abbrev pub Takes : WriteResult → Type 0
Takes r = (k : ℕ) × (r ≡ wrote (suc k))

-- Every write of an event is one of which it takes a part, and what is written fits in an int.
abbrev pub IsClean : Event → Type 0
IsClean (writes buf r) = (length buf < 2 ^ 31) × Takes r
IsClean (writable results) = (i : ℕ) → Takes (results i)
IsClean closes = Unit {0}

abbrev pub All {ℓ κ} : {A : Type ℓ} → (A → Type κ) → List A → Type κ
All P [] = Unit
All P (x ∷ xs) = P x × All P xs

-- An object that waits has its start in the buffer, and a size that fits in an int.
abbrev pub IsSound : WriteObject → Type 0
IsSound o = (s : ℕ) × (o.start ≡ pos s) × (s ≤ o.len) × (o.len ≡ length o.buf) × (o.len < 2 ^ 31)

-- The bytes of the objects that wait.
unfoldable pub pending : List WriteObject → List ℕ
pending [] = []
pending (o ∷ os) = drop (pos_part o.start) o.buf ++ pending os

pub take_whole : (n : ℕ) (xs : List ℕ) → length xs ≤ n → take n xs ≡ xs
take_whole zero [] h = refl
take_whole zero (x ∷ xs) h = absurd (omega arith)
take_whole (suc n) [] h = refl
take_whole (suc n) (x ∷ xs) h = ap (λ ys. x ∷ ys) (take_whole n xs (omega arith))

pub take-append-drop : (n : ℕ) (xs : List ℕ) → take n xs ++ drop n xs ≡ xs
take-append-drop zero xs = refl
take-append-drop (suc n) [] = refl
take-append-drop (suc n) (x ∷ xs) = ap (λ ys. x ∷ ys) (take-append-drop n xs)

-- Taking `m` bytes from index `s` moves the start by `m`.
pub take_from : (s m : ℕ) (xs : List ℕ) → take m (drop s xs) ++ drop (s + m) xs ≡ drop s xs
take_from zero zero xs = refl
take_from zero (suc m) [] = let e : 0 + suc m ≡ suc (0 + m) = omega arith in rw e refl
take_from zero (suc m) (x ∷ xs) =
    let e : 0 + suc m ≡ suc (0 + m) = omega arith in rw e (ap (λ ys. x ∷ ys) (take_from zero m xs))
take_from (suc s) zero [] = let e : suc s + 0 ≡ suc s = omega arith in rw e refl
take_from (suc s) (suc m) [] = let e : suc s + suc m ≡ suc (s + suc m) = omega arith in rw e refl
take_from (suc s) m (x ∷ xs) =
    let e : suc s + m ≡ suc (s + m) = omega arith in rw e (take_from s m xs)

-- What a writer keeps: the bytes sent and those that wait, together; sound objects; whether it is
-- closing.
pub record Keeps (w : ConnWriter) (os : List WriteObject) (w' : ConnWriter) : Type 0 where
  pub stream : w'.sent ++ pending w'.write_list ≡ w.sent ++ pending os
  pub sound : All IsSound w'.write_list
  pub closing : w'.is_closing ≡ w.is_closing

-- A size that fits in an int is the one that `write` is given.
front_small :
    (w : ConnWriter) (s n : ℕ) (b : List ℕ) (os : List WriteObject) (r : WriteResult)
    → n < 2 ^ 31
    → write_front_obj w (record { start = pos s; len = n; buf = b } ∷ os) r
      ≡ some (
          write_part w
            (record { start = pos s; len = n; buf = b })
            os
            (drop s (take n b))
            (n - s)
            r)
unfolding write_front_obj
front_small w s n b os r h =
    let len : (n - s) % 2 ^ 32 ≡ n - s = omega (arith, h) in
    let fits : (leb (2 ^ 31) ((n - s) % 2 ^ 32) && is_wrote r) ≡ false = ground (arith, len, h) in
    if_false _ _ fits
    ∙ ap
        (λ l.
          some
            (write_part w (record { start = pos s; len = n; buf = b }) os (drop s (take n b)) l r))
        len

front_whole :
    (w : ConnWriter) (s n : ℕ) (b : List ℕ) (os : List WriteObject) (k : ℕ)
    → n ≡ length b
    → n < 2 ^ 31
    → (min (suc k) (n - s) == n - s) ≡ true
    → write_front_obj w (record { start = pos s; len = n; buf = b } ∷ os) (wrote (suc k))
      ≡ some (record w { sent = w.sent ++ drop s b; write_list = os }, true)
unfolding write_part
front_whole w s n b os k l h e =
    front_small w s n b os (wrote (suc k)) h
    ∙ ground (
      arith,
      take_whole n b (omega (arith, l)),
      take_whole (min (suc k) (n - s)) (drop s b) (ground (arith, length-drop s b)),
    )

front_part :
    (w : ConnWriter) (s n : ℕ) (b : List ℕ) (os : List WriteObject) (k : ℕ)
    → n ≡ length b
    → n < 2 ^ 31
    → s ≤ n
    → (min (suc k) (n - s) == n - s) ≡ false
    → write_front_obj w (record { start = pos s; len = n; buf = b } ∷ os) (wrote (suc k))
      ≡ some (
        record w {
          sent = w.sent ++ take (suc k) (drop s b);
          write_list = record { start = pos (s + suc k); len = n; buf = b } ∷ os;
        },
        false,
      )
unfolding write_part
front_part w s n b os k l h le e =
    front_small w s n b os (wrote (suc k)) h
    ∙ ground (
      arith,
      take_whole n b (omega (arith, l)),
      (let m : min (suc k) (n - s) ≡ suc k = ground arith in m),
    )

-- One call of `write_front_obj`: it keeps the stream, and returns true when one object less waits.
abbrev Front : ConnWriter → WriteObject → List WriteObject → WriteResult → Type 0
Front w o os r =
    (w' : ConnWriter) × (whole : Bool) × (write_front_obj w (o ∷ os) r ≡ some (w', whole))
    × Keeps w (o ∷ os) w'
    × (whole ≡ true → length w'.write_list ≡ length os)

first_starts :
    (w : ConnWriter) (s n : ℕ) (b : List ℕ) (os : List WriteObject) (k : ℕ)
    → n ≡ length b
    → n < 2 ^ 31
    → s ≤ n
    → All IsSound os
    → Front w (record { start = pos s; len = n; buf = b }) os (wrote (suc k))
first_starts w s n b os k l small le sound = elim (Bool-cases (min (suc k) (n - s) == n - s)) [
  | inl e ↦ (
    record w { sent = w.sent ++ drop s b; write_list = os },
    true,
    front_whole w s n b os k l small e,
    record {
      stream = unfold pending in append_assoc w.sent (drop s b) (pending os);
      sound = sound;
      closing = refl;
    },
    λ _. refl,
  )
  | inr e ↦ (
    record w {
      sent = w.sent ++ take (suc k) (drop s b);
      write_list = record { start = pos (s + suc k); len = n; buf = b } ∷ os;
    },
    false,
    front_part w s n b os k l small le e,
    record {
      stream =
          unfold pending in
          (append_assoc w.sent (take (suc k) (drop s b)) (drop (s + suc k) b ++ pending os)
            ∙ ap (λ xs. w.sent ++ xs)
                (sym (append_assoc (take (suc k) (drop s b)) (drop (s + suc k) b) (pending os))
                  ∙ ap (λ xs. xs ++ pending os) (take_from s (suc k) b)));
      sound = ((s + suc k, refl, ground arith, l, small), sound);
      closing = refl;
    },
    λ h. cc,
  )
]

front :
    (w : ConnWriter) (o : WriteObject) (os : List WriteObject) (r : WriteResult)
    → Takes r
    → All IsSound (o ∷ os)
    → Front w o os r
front w o os r (k, e) ((s, at, le, l, small), sound) = rw e (
    subst (λ x. Front w x os (wrote (suc k))) same
      (first_starts w s o.len o.buf os k l small le sound))
  where
    same : ◌≡◌ {A = WriteObject} (record { start = pos s; len = o.len; buf = o.buf }) o
    same = λ i. record { start = sym at i; len = o.len; buf = o.buf }

-- The loop's next round, or its end.
abbrev pub Looped : ConnWriter → List WriteObject → Option ConnWriter → Type 0
Looped w os o = (w' : ConnWriter) × (o ≡ some w') × Keeps w os w'

round :
    (fuel : ℕ) (w : ConnWriter) (os : List WriteObject) (results : ℕ → WriteResult) (i : ℕ)
    (w' : ConnWriter) (whole : Bool)
    → write_front_obj w w.write_list (results i) ≡ some (w', whole)
    → Keeps w os w'
    → (whole ≡ true → Looped w' w'.write_list (write_loop fuel w' results (i + 1)))
    → Looped w os (write_loop (suc fuel) w results i)
unfolding write_loop
round fuel w os results i w' false done keeps later = (w', rw (done, write_loop), keeps)
round fuel w os results i w' true done keeps later =
    let (w'', looped, k) = later refl in
    (
      w'',
      rw (done, write_loop) looped,
      record {
        stream = k.stream ∙ keeps.stream;
        sound = k.sound;
        closing = k.closing ∙ keeps.closing;
      },
    )

-- The loop of `on_writeable` ends within its fuel, and keeps the stream.
pub loop-Keeps :
    (fuel : ℕ) (w : ConnWriter) (os : List WriteObject) (results : ℕ → WriteResult) (i : ℕ)
    → w.write_list ≡ os
    → ((j : ℕ) → Takes (results j))
    → All IsSound os
    → length os < fuel
    → Looped w os (write_loop fuel w results i)
loop-Keeps zero w os results i e t sound h = absurd (omega arith)
loop-Keeps (suc fuel) w [] results i e t sound h =
    round fuel w [] results i w false
      (ap (λ l. write_front_obj w l (results i)) e ∙ unfold write_front_obj in refl)
      (record { stream = ap (λ l. w.sent ++ pending l) e; sound = rw e tt; closing = refl })
      (λ h. cc)
loop-Keeps (suc fuel) w (o ∷ os) results i e t sound h =
    let (w', whole, done, keeps, shorter) = front w o os (results i) (t i) sound in
    round fuel w (o ∷ os) results i w' whole (ap (λ l. write_front_obj w l (results i)) e ∙ done)
      keeps
      (λ more.
        loop-Keeps fuel w' w'.write_list results (i + 1) refl t keeps.sound
          (omega (arith, h, shorter more)))
