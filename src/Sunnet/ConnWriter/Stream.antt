-- ===== src/Sunnet/ConnWriter/Stream.antt =====
-- What reaches the socket: the bytes that were written, in order.
use game_server_development.Prelude.{
  ℕ, suc, ◌<◌, ◌^◌, min, ◌≡◌, refl, sym, ap, ap₂, ◌∙◌, List, [], ◌∷◌, ◌++◌, Bool, true, false, ◌==◌,
  if◌then◌else◌, some, ◌>>=◌, length, take, drop, arith, inl, inr, Bool-cases, append-nil,
  append_assoc,
}
use game_server_development.Prelude.Int.{pos, pos_part}
use game_server_development.Sunnet.ConnWriter.{
  WriteResult, wrote, WriteObject, ConnWriter, modify_event, entire_write_when_empty,
  entire_write_when_not_empty, entire_write, linger_close, on_writeable, finish_writeable, Event,
  writes, writable, closes, step, run,
}
use game_server_development.Sunnet.ConnWriter.Loop.{
  Takes, IsClean, All, IsSound, pending, loop-Keeps, take_whole, take-append-drop,
}

-- What one event adds to the stream: a write's bytes, unless the writer is closing.
abbrev pub given : Bool → Event → List ℕ
given is_closing (writes buf r) = if is_closing then [] else buf
given is_closing (writable results) = []
given is_closing closes = []

abbrev pub closing_after : Bool → Event → Bool
closing_after is_closing closes = true
closing_after is_closing _ = is_closing

record Adds (w : ConnWriter) (e : Event) (w' : ConnWriter) : Type 0 where
  stream :
      w'.sent ++ pending w'.write_list ≡ (w.sent ++ pending w.write_list) ++ given w.is_closing e
  sound : All IsSound w'.write_list
  closing : w'.is_closing ≡ closing_after w.is_closing e

pending-append : (os ps : List WriteObject) → pending (os ++ ps) ≡ pending os ++ pending ps
unfolding pending
pending-append [] ps = refl
pending-append (o ∷ os) ps =
    ap (λ xs. drop (pos_part o.start) o.buf ++ xs) (pending-append os ps)
    ∙ sym (append_assoc (drop (pos_part o.start) o.buf) (pending os) (pending ps))

All-append :
    (os : List WriteObject) (o : WriteObject)
    → All IsSound os
    → IsSound o
    → All IsSound (os ++ o ∷ [])
All-append [] o a s = (s, tt)
All-append (x ∷ os) o (b, a) s = (b, All-append os o a s)

empty_whole :
    (w : ConnWriter) (buf : List ℕ) (k : ℕ)
    → (min (suc k) (length buf) == length buf) ≡ true
    → entire_write_when_empty w buf (length buf) (wrote (suc k)) ≡ record w { sent = w.sent ++ buf }
unfolding entire_write_when_empty
empty_whole w buf k e = ground (arith, take_whole (min (suc k) (length buf)) buf (ground arith))

empty_part :
    (w : ConnWriter) (buf : List ℕ) (k : ℕ)
    → (min (suc k) (length buf) == length buf) ≡ false
    → entire_write_when_empty w buf (length buf) (wrote (suc k)) ≡ record w {
      sent = w.sent ++ take (suc k) buf;
      write_list = w.write_list ++ record { start = pos (suc k); len = length buf; buf = buf } ∷ [];
      effects = w.effects ++ modify_event true ∷ [];
    }
unfolding entire_write_when_empty
empty_part w buf k e =
    ground (arith, (let m : min (suc k) (length buf) ≡ suc k = ground arith in m))

empty-Adds :
    (w : ConnWriter) (buf : List ℕ) (r : WriteResult)
    → length buf < 2 ^ 31
    → Takes r
    → w.is_closing ≡ false
    → w.write_list ≡ []
    → Adds w (writes buf r) (entire_write_when_empty w buf (length buf) r)
empty-Adds w buf r small (k, part_taken) open_ e =
    elim (Bool-cases (min (suc k) (length buf) == length buf)) [
      | inl whole ↦
          rw (part_taken, empty_whole w buf k whole)
            (record {
              stream = rw (open_, e) (unfold pending in simp append-nil);
              sound = rw e tt;
              closing = refl;
            })
      | inr part ↦
          rw (part_taken, empty_part w buf k part)
            (record {
              stream =
                  rw (open_, e)
                    (unfold pending in
                      simp append-nil (
                        append_assoc w.sent (take (suc k) buf) (drop (suc k) buf)
                        ∙ ap (λ xs. w.sent ++ xs) (take-append-drop (suc k) buf)));
              sound = rw e ((suc k, refl, ground arith, refl, small), tt);
              closing = refl;
            })
    ]

pending-new :
    (buf : List ℕ) → pending (record { start = pos 0; len = length buf; buf = buf } ∷ []) ≡ buf
unfolding pending
pending-new buf = append-nil buf

not_empty-Adds :
    (w : ConnWriter) (buf : List ℕ) (r : WriteResult)
    → length buf < 2 ^ 31
    → All IsSound w.write_list
    → w.is_closing ≡ false
    → Adds w (writes buf r) (entire_write_when_not_empty w buf (length buf))
unfolding entire_write_when_not_empty
not_empty-Adds w buf r small sound open_ = record {
  stream = rw open_ (
      ap (λ xs. w.sent ++ xs)
        (pending-append w.write_list (record { start = pos 0; len = length buf; buf = buf } ∷ [])
          ∙ ap (λ xs. pending w.write_list ++ xs) (pending-new buf))
      ∙ sym (append_assoc w.sent (pending w.write_list) buf));
  sound =
      All-append w.write_list (record { start = pos 0; len = length buf; buf = buf }) sound
        (0, refl, omega arith, refl, small);
  closing = refl;
}

entire_write_closing :
    (w : ConnWriter) (buf : List ℕ) (r : WriteResult)
    → w.is_closing ≡ true
    → entire_write w buf (length buf) r ≡ w
unfolding entire_write
entire_write_closing w buf r e = ground (arith, e)

pub entire_write_now :
    (w : ConnWriter) (buf : List ℕ) (r : WriteResult)
    → w.is_closing ≡ false
    → w.write_list ≡ []
    → entire_write w buf (length buf) r ≡ entire_write_when_empty w buf (length buf) r
unfolding entire_write
entire_write_now w buf r o e = ground arith

entire_write_later :
    (w : ConnWriter) (buf : List ℕ) (r : WriteResult) (x : WriteObject) (l : List WriteObject)
    → w.is_closing ≡ false
    → w.write_list ≡ x ∷ l
    → entire_write w buf (length buf) r ≡ entire_write_when_not_empty w buf (length buf)
unfolding entire_write
entire_write_later w buf r x l o e = ground arith

entire_write-Adds :
    (w : ConnWriter) (buf : List ℕ) (r : WriteResult)
    → length buf < 2 ^ 31
    → Takes r
    → All IsSound w.write_list
    → Adds w (writes buf r) (entire_write w buf (length buf) r)
unfolding entire_write
entire_write-Adds w buf r small t sound = elim (Bool-cases w.is_closing) [
  | inl shut ↦ rw (entire_write_closing w buf r shut) (record {
    stream = rw shut (sym (append-nil (w.sent ++ pending w.write_list)));
    sound = sound;
    closing = refl;
  })
  | inr open_ ↦ go w.write_list refl open_
]
  where
    go :
        (l : List WriteObject)
        → w.write_list ≡ l
        → w.is_closing ≡ false
        → Adds w (writes buf r) (entire_write w buf (length buf) r)
    go [] e o = rw (entire_write_now w buf r o e) (empty-Adds w buf r small t o e)
    go (x ∷ l) e o = rw (entire_write_later w buf r x l o e) (not_empty-Adds w buf r small sound o)

linger_close-Adds : (w : ConnWriter) → All IsSound w.write_list → Adds w closes (linger_close w)
unfolding linger_close
linger_close-Adds w sound = elim (Bool-cases w.is_closing) [
  | inl shut ↦
      rw (shut, linger_close)
        (record {
          stream = sym (append-nil (w.sent ++ pending w.write_list));
          sound = sound;
          closing = refl;
        })
  | inr open_ ↦
      rw (open_, linger_close)
        (record {
          stream = sym (append-nil (w.sent ++ pending w.write_list));
          sound = sound;
          closing = refl;
        })
]

-- An event that the socket does not spoil is handled, adds its bytes to the stream, and keeps the
-- objects that wait sound.
step-Adds :
    (w : ConnWriter) (e : Event)
    → IsClean e
    → All IsSound w.write_list
    → (w' : ConnWriter) × (step w e ≡ some w') × Adds w e w'
unfolding step on_writeable
step-Adds w (writes buf r) (small, t) sound =
    (entire_write w buf (length buf) r, refl, entire_write-Adds w buf r small t sound)
step-Adds w (writable results) t sound =
    let (w', done, k) =
      loop-Keeps (suc (length w.write_list)) w w.write_list results 0 refl t sound (omega arith) in
    (
      finish_writeable w',
      ap (λ o. o >>= λ x. some (finish_writeable x)) done,
      record {
        stream =
            unfold finish_writeable in
            (k.stream ∙ sym (append-nil (w.sent ++ pending w.write_list)));
        sound = unfold finish_writeable in k.sound;
        closing = unfold finish_writeable in k.closing;
      },
    )
step-Adds w closes t sound = (linger_close w, refl, linger_close-Adds w sound)

-- The bytes that a sequence of events writes, up to the close.
unfoldable pub accepted : Bool → List Event → List ℕ
accepted is_closing [] = []
accepted is_closing (e ∷ es) = given is_closing e ++ accepted (closing_after is_closing e) es

-- From a writer whose waiting objects are sound, while the socket takes a part at least of every
-- write and what is written at once has fewer than 2^31 bytes, any sequence of writes, writable events
-- and closes is handled, and the bytes that the socket has taken, followed by those that still
-- wait, are exactly the bytes written before the close, in order.
pub run-stream :
    (es : List Event) (w : ConnWriter)
    → All IsClean es
    → All IsSound w.write_list
    → (w' : ConnWriter) × (run w es ≡ some w')
      × (w'.sent ++ pending w'.write_list
          ≡ (w.sent ++ pending w.write_list) ++ accepted w.is_closing es)
      × All IsSound w'.write_list
unfolding run accepted
run-stream [] w clean sound = (w, refl, sym (append-nil (w.sent ++ pending w.write_list)), sound)
run-stream (e ∷ es) w (c, clean) sound =
    let (w', done, adds) = step-Adds w e c sound in
    let (w'', ran, stream, sound') = run-stream es w' clean adds.sound in
    (
      w'',
      rw done ran,
      stream
          ∙ ap₂ (λ xs b. xs ++ accepted b es) adds.stream adds.closing
          ∙ append_assoc (w.sent ++ pending w.write_list) (given w.is_closing e)
              (accepted (closing_after w.is_closing e) es),
      sound',
    )
