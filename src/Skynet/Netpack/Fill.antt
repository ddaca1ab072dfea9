-- ===== src/Skynet/Netpack/Fill.antt =====
-- `push_more` and the filling of a packet that has begun take all the bytes apart.
use game_server_development.Prelude.{
  ℕ, zero, suc, ◌-◌, ◌/◌, ◌%◌, ◌≤◌, ◌<◌, ◌≡◌, refl, sym, ap, ◌∙◌, subst, List, [], ◌∷◌, ◌++◌,
  append-nil, append_assoc, Bool, true, ltb, ◌==◌, if_true, if_false, some, ◌>>=◌, arith, length,
  take, drop, take-drop, length-take, length-drop, length-append, Bool-cases, inl, inr,
}
use game_server_development.Skynet.Netpack.{
  netpack, Uncomplete, Queue, first_byte, begun, push_data, save_uncomplete, read_size, push_more,
  Answer, nothing, more, data_of, fill,
}
use game_server_development.Skynet.Netpack.Packets.{frame, AreBytes}
use game_server_development.Skynet.Netpack.Steps.{
  given, Fed, Free, idle-Fed, saved-Fed, pushed-Free, pushed-Fed, Free-taken, read_size-bytes,
  frame-take,
}

AreBytes-drop : (n : ℕ) (bytes : List ℕ) → AreBytes bytes → AreBytes (drop n bytes)
AreBytes-drop zero bytes a = a
AreBytes-drop (suc n) [] a = a
AreBytes-drop (suc n) (b ∷ bytes) a = AreBytes-drop n bytes a.1

no_bytes : (bytes : List ℕ) → length bytes ≡ 0 → bytes ≡ []
no_bytes [] e = refl
no_bytes (b ∷ bytes) e = absurd (omega (arith, e))

pub take_all : (n : ℕ) (bytes : List ℕ) → length bytes ≤ n → take n bytes ≡ bytes
take_all zero [] h = refl
take_all zero (b ∷ bytes) h = absurd (omega (arith, h))
take_all (suc n) [] h = refl
take_all (suc n) (b ∷ bytes) h = ap (λ t. b ∷ t) (take_all n bytes (omega (arith, h)))

-- A packet that has begun and is not whole is saved.
begun-Fed :
    (q : Queue) (fd a b : ℕ) (bytes : List ℕ) (answer : Answer)
    → Free q fd
    → b < 256
    → length bytes < read_size a b
    → given answer ≡ []
    → Fed q fd (a ∷ b ∷ bytes) (answer, save_uncomplete q (begun fd (read_size a b) bytes))
begun-Fed q fd a b bytes answer f h lt e =
    let n = read_size a b in
    subst (λ t. Fed q fd t (answer, save_uncomplete q (begun fd n bytes)))
      (read_size-bytes a b bytes h) (saved-Fed q (begun fd n bytes) answer f (omega (arith, lt)) e)

-- Where `push_more` has fuel for each byte, it takes all of them apart.
pub push_more-Fed :
    (fuel : ℕ) (q : Queue) (fd : ℕ) (bytes : List ℕ)
    → 0 < length bytes
    → length bytes ≤ fuel
    → AreBytes bytes
    → Free q fd
    → (r : Queue) × (push_more fuel q fd bytes ≡ some r) × Fed q fd bytes (more, r)
unfolding push_more
push_more-Fed zero q fd bytes some_bytes enough are f = absurd (omega (arith, some_bytes, enough))
push_more-Fed (suc fuel) q fd [] some_bytes enough are f = absurd (omega (arith, some_bytes))
push_more-Fed (suc fuel) q fd (a ∷ []) some_bytes enough are f =
    (save_uncomplete q (first_byte fd a), refl, saved-Fed q (first_byte fd a) more f tt refl)
push_more-Fed (suc fuel) q fd (a ∷ b ∷ bytes) some_bytes enough are f =
    let n = read_size a b in
    let q' = push_data q (netpack fd (take n bytes)) in
    let free = pushed-Free q fd (netpack fd (take n bytes)) f in
    elim (Bool-cases (ltb (length bytes) n)) [
      | inl short ↦ (
        save_uncomplete q (begun fd n bytes),
        if_true _ _ short,
        begun-Fed q fd a b bytes more f (are.1).0 (ground (arith, short)) refl,
      )
      | inr whole ↦
          let cut = frame-take a b bytes (are.1).0 (ground (arith, whole)) in
          elim (Bool-cases (ltb 0 (length bytes - n))) [
            | inl longer ↦
                let (r, e, fed) =
                  push_more-Fed fuel q' fd (drop n bytes)
                    (ground (arith, longer, length-drop n bytes))
                    (omega (arith, enough, length-drop n bytes)) (AreBytes-drop n bytes (are.1).1)
                    free in
                (
                  r,
                  if_false _ _ whole ∙ if_true _ _ longer ∙ e,
                  subst (λ t. Fed q fd t (more, r)) cut
                      (pushed-Fed q r fd (take n bytes) (drop n bytes) f fed),
                )
            | inr done ↦
                let z = no_bytes (drop n bytes) (ground (arith, done, length-drop n bytes)) in
                (
                  q',
                  if_false _ _ whole ∙ if_false _ _ done,
                  subst (λ t. Fed q fd t (more, q')) cut
                      (subst (λ t. Fed q fd (frame (take n bytes) ++ t) (more, q')) (sym z)
                        (pushed-Fed q q' fd (take n bytes) [] f (idle-Fed q' fd free))),
                )
          ]
    ]

abbrev pub entry : ℕ → ℕ → ℕ → List ℕ → Bool → Uncomplete
entry fd header n xs started = record {
  id = fd;
  size = n;
  buffer = xs;
  started = started;
  header = header;
}

-- An entry with a size, and `xs` of its bytes.
abbrev pub part : ℕ → ℕ → ℕ → List ℕ → Uncomplete
part fd header n xs = entry fd header n xs true

-- The bytes of such an entry and those that come, once it is whole.
whole_bytes :
    (n : ℕ) (xs bytes : List ℕ)
    → length xs ≤ n
    → n - length xs ≤ length bytes
    → frame (xs ++ take (n - length xs) bytes) ++ drop (n - length xs) bytes
      ≡ n / 256 ∷ n % 256 ∷ xs ++ bytes
whole_bytes n xs bytes le enough =
    let k = n - length xs in
    let m : length (xs ++ take k bytes) ≡ n =
      omega (arith, le, length-append xs (take k bytes), length-take k bytes enough) in
    ap (λ j. j / 256 ∷ j % 256 ∷ (xs ++ take k bytes) ++ drop k bytes) m
    ∙ ap (λ t. n / 256 ∷ n % 256 ∷ t)
        (append_assoc xs (take k bytes) (drop k bytes) ∙ ap (λ t. xs ++ t) (take-drop k bytes))

one-Fed :
    (q : Queue) (fd : ℕ) (xs bytes : List ℕ)
    → Free q fd
    → frame xs ≡ bytes
    → Fed q fd bytes (data_of (netpack fd xs), q)
one-Fed q fd xs bytes f e = record {
  queue = f.0;
  others = λ other n. refl;
  ring_still = refl;
  packets = xs ∷ [];
  delivered = (
    sym e
        ∙ sym (append-nil (frame xs))
        ∙ sym (append-nil (frame xs ++ []))
        ∙ ap (λ t. (frame xs ++ []) ++ t) (sym (Free-taken q fd f)),
    refl,
  );
}

-- What `fill` does with the bytes that continue a packet.
pub fill-Fed :
    (q : Queue) (fd header n : ℕ) (xs bytes : List ℕ)
    → length xs ≤ n
    → AreBytes bytes
    → Free q fd
    → (r : Answer × Queue) × (fill q (part fd header n xs) fd bytes ≡ some r)
      × Fed q fd (n / 256 ∷ n % 256 ∷ xs ++ bytes) r
unfolding fill
fill-Fed q fd header n xs bytes le are f =
    let k = n - length xs in
    let ys = xs ++ take k bytes in
    let left = drop k bytes in
    elim (Bool-cases (ltb (length bytes) k)) [
      | inl short ↦
          let uc = part fd header n (xs ++ bytes) in
          (
            (nothing, save_uncomplete q uc),
            if_true _ _ short,
            saved-Fed q uc nothing f (ground (arith, short, length-append xs bytes)) refl,
          )
      | inr whole ↦
          let cut = whole_bytes n xs bytes le (ground (arith, whole)) in
          elim (Bool-cases (length left == 0)) [
            | inl done ↦
                let z = no_bytes left (ground (arith, done)) in
                (
                  (data_of (netpack fd ys), q),
                  if_false _ _ whole ∙ if_true _ _ done,
                  one-Fed q fd ys (n / 256 ∷ n % 256 ∷ xs ++ bytes) f
                      (sym (append-nil (frame ys)) ∙ ap (λ t. frame ys ++ t) (sym z) ∙ cut),
                )
            | inr longer ↦
                let (r, e, fed) =
                  push_more-Fed (length left) (push_data q (netpack fd ys)) fd left
                    (ground (arith, longer)) (omega arith) (AreBytes-drop k bytes are)
                    (pushed-Free q fd (netpack fd ys) f) in
                (
                  (more, r),
                  if_false _ _ whole
                      ∙ if_false _ _ longer
                      ∙ ap (λ o. o >>= λ q'. some (more, q')) e,
                  subst (λ t. Fed q fd t (more, r)) cut (pushed-Fed q r fd ys left f fed),
                )
          ]
    ]
