-- ===== src/Skynet/Seri/Blocks.antt =====
-- A chain of blocks is the list of the bytes that were pushed.
use game_server_development.Prelude.{
  ℕ, zero, suc, ◌+◌, ◌-◌, ◌*◌, ◌^◌, ◌≤◌, ◌<◌, ◌≡◌, refl, sym, ap, ◌∙◌, List, [], ◌∷◌, ◌++◌,
  append-nil, append_assoc, leb, ◌==◌, if_true, if_false, some, ◌>>=◌, arith, length, take, drop,
  length-append, length-take, length-drop, length-replicate, take-drop, Bool-cases, inl, inr,
}
use game_server_development.Skynet.Seri.{
  block_size, WriteBlock, wb_init, copied, next_block, place, wb_push, push_all, seri_copy, seri,
}

abbrev pub concat : List (List ℕ) → List ℕ
concat [] = []
concat (xs ∷ xss) = xs ++ concat xss

-- Every block has all its cells.
abbrev AreBlocks : List (List ℕ) → Type 0
AreBlocks [] = Unit
AreBlocks (b ∷ blocks) = (length b ≡ block_size) × AreBlocks blocks

pub record IsBlock (w : WriteBlock) : Type 0 where
  pub before_whole : AreBlocks w.before
  pub current_whole : length w.current ≡ block_size
  pub ptr_in : w.ptr ≤ block_size
  pub counted : w.len ≡ length w.before * block_size + w.ptr

-- The bytes that were written.
abbrev pub written : WriteBlock → List ℕ
written w = concat w.before ++ take w.ptr w.current

AreBlocks-append :
    (blocks : List (List ℕ)) (b : List ℕ)
    → AreBlocks blocks
    → length b ≡ block_size
    → AreBlocks (blocks ++ b ∷ [])
AreBlocks-append [] b a e = (e, tt)
AreBlocks-append (c ∷ blocks) b a e = (a.0, AreBlocks-append blocks b a.1 e)

concat-append : (xss : List (List ℕ)) (xs : List ℕ) → concat (xss ++ xs ∷ []) ≡ concat xss ++ xs
concat-append [] xs = append-nil xs
concat-append (ys ∷ xss) xs =
    ap (λ t. ys ++ t) (concat-append xss xs) ∙ sym (append_assoc ys (concat xss) xs)

pub take-append : (xs ys : List ℕ) → take (length xs) (xs ++ ys) ≡ xs
take-append [] ys = refl
take-append (x ∷ xs) ys = ap (λ t. x ∷ t) (take-append xs ys)

take_whole : (xs : List ℕ) → take (length xs) xs ≡ xs
take_whole [] = refl
take_whole (x ∷ xs) = ap (λ t. x ∷ t) (take_whole xs)

-- What a copy does where there is room, and a new block where the current one is full.
copied_lem :
    (w : WriteBlock) (bytes : List ℕ)
    → IsBlock w
    → w.ptr + length bytes ≤ block_size
    → IsBlock (copied w bytes) × (written (copied w bytes) ≡ written w ++ bytes)
copied_lem w bytes v room =
    let front = take w.ptr w.current in
    let behind = drop (w.ptr + length bytes) w.current in
    let n : length front ≡ w.ptr =
      length-take w.ptr w.current (omega (arith, v.ptr_in, v.current_whole)) in
    let m : w.ptr + length bytes ≡ length (front ++ bytes) =
      omega (arith, n, length-append front bytes) in
    (
      record {
        before_whole = v.before_whole;
        current_whole = omega (
          arith,
          room,
          v.current_whole,
          n,
          length-append (front ++ bytes) behind,
          length-append front bytes,
          length-drop (w.ptr + length bytes) w.current,
        );
        ptr_in = room;
        counted = omega (arith, v.counted);
      },
      ap (λ k. concat w.before ++ take k ((front ++ bytes) ++ behind)) m
          ∙ ap (λ t. concat w.before ++ t) (take-append (front ++ bytes) behind)
          ∙ sym (append_assoc (concat w.before) front bytes),
    )

next_block_lem :
    (w : WriteBlock)
    → IsBlock w
    → w.ptr ≡ block_size
    → IsBlock (next_block w) × (written (next_block w) ≡ written w)
next_block_lem w v full = (
  record {
    before_whole = AreBlocks-append w.before w.current v.before_whole v.current_whole;
    current_whole = length-replicate {A = ℕ} block_size 0;
    ptr_in = omega arith;
    counted = omega (arith, v.counted, full, length-append w.before (w.current ∷ []));
  },
  append-nil (concat (w.before ++ w.current ∷ []))
      ∙ concat-append w.before w.current
      ∙ ap (λ t. concat w.before ++ t)
          (sym (ap (λ k. take k w.current) (full ∙ sym v.current_whole) ∙ take_whole w.current)),
)

-- The loop of `wb_push`, given fuel for its bytes.
place_lem :
    (fuel : ℕ) (w : WriteBlock) (bytes : List ℕ)
    → IsBlock w
    → length bytes < fuel
    → w.ptr < block_size
    → (r : WriteBlock) × (place fuel w bytes ≡ some r)
      × IsBlock r
      × (written r ≡ written w ++ bytes)
unfolding place
place_lem zero w bytes v enough room = absurd (omega (arith, enough))
place_lem (suc fuel) w bytes v enough room =
    let copy = block_size - w.ptr in
    let filled = copied w (take copy bytes) in
    elim (Bool-cases (leb (w.ptr + length bytes) block_size)) [
      | inl fits ↦
          let (b, e) = copied_lem w bytes v (ground (arith, fits)) in
          (copied w bytes, if_true _ _ fits, b, e)
      | inr long ↦
          let le : copy ≤ length bytes = ground (arith, long, room) in
          let n = length-take copy bytes le in
          let (b, e) = copied_lem w (take copy bytes) v (omega (arith, n, room)) in
          let (c, f) = next_block_lem filled b (omega (arith, n, room)) in
          let (r, d, k, g) =
            place_lem fuel (next_block filled) (drop copy bytes) c
              (omega (arith, enough, room, le, length-drop copy bytes)) (omega arith) in
          (
            r,
            if_false _ _ long ∙ d,
            k,
            g
                ∙ ap (λ t. t ++ drop copy bytes) (f ∙ e)
                ∙ append_assoc (written w) (take copy bytes) (drop copy bytes)
                ∙ ap (λ t. written w ++ t) (take-drop copy bytes),
          )
    ]

whole_blocks :
    (blocks : List (List ℕ))
    → AreBlocks blocks
    → length (concat blocks) ≡ length blocks * block_size
whole_blocks [] a = refl
whole_blocks (b ∷ blocks) a =
    let n = whole_blocks blocks a.1 in omega (arith, n, a.0, length-append b (concat blocks))

written-len : (w : WriteBlock) → IsBlock w → length (written w) ≡ w.len
written-len w v =
    let front = take w.ptr w.current in
    omega (
      arith,
      v.counted,
      whole_blocks w.before v.before_whole,
      length-take w.ptr w.current (omega (arith, v.ptr_in, v.current_whole)),
      length-append (concat w.before) front,
    )

-- `wb_push` adds its bytes behind those that were written, over as many new blocks as they need, if all
-- of them can be counted in an int.
pub wb_push_lem :
    (w : WriteBlock) (bytes : List ℕ)
    → IsBlock w
    → w.len + length bytes < 2 ^ 31
    → (r : WriteBlock) × (wb_push w bytes ≡ some r) × IsBlock r × (written r ≡ written w ++ bytes)
unfolding wb_push
wb_push_lem w bytes v small = elim (Bool-cases (w.ptr == block_size)) [
  | inl full ↦
      let (c, f) = next_block_lem w v (ground (arith, full)) in
      let (r, d, k, g) =
        place_lem (suc (length bytes)) (next_block w) bytes c (omega arith) (omega arith) in
      (
        r,
        if_false {b = leb (2 ^ 31) (w.len + length bytes)} _ _ (ground (arith, small))
            ∙ (ap (λ b. place (suc (length bytes)) b bytes) (if_true _ _ full) ∙ d),
        k,
        g ∙ ap (λ t. t ++ bytes) f,
      )
  | inr room ↦
      let (r, d, k, g) =
        place_lem (suc (length bytes)) w bytes v (omega arith) (ground (arith, room, v.ptr_in)) in
      (
        r,
        if_false {b = leb (2 ^ 31) (w.len + length bytes)} _ _ (ground (arith, small))
            ∙ (ap (λ b. place (suc (length bytes)) b bytes) (if_false _ _ room) ∙ d),
        k,
        g,
      )
]

pub push_all_lem :
    (w : WriteBlock) (pieces : List (List ℕ))
    → IsBlock w
    → w.len + length (concat pieces) < 2 ^ 31
    → (r : WriteBlock) × (push_all w pieces ≡ some r)
      × IsBlock r
      × (written r ≡ written w ++ concat pieces)
unfolding push_all
push_all_lem w [] v small = (w, refl, v, sym (append-nil (written w)))
push_all_lem w (bytes ∷ pieces) v small =
    let n = length-append bytes (concat pieces) in
    let (r, e, b, f) = wb_push_lem w bytes v (omega (arith, n, small)) in
    let (s, d, c, g) = push_all_lem r pieces b (
      omega (
        arith,
        small,
        n,
        written-len w v,
        written-len r b,
        ap length f,
        length-append (written w) bytes,
      )) in
    (
      s,
      ap (λ o. o >>= λ r. push_all r pieces) e ∙ d,
      c,
      g ∙ ap (λ t. t ++ concat pieces) f ∙ append_assoc (written w) bytes (concat pieces),
    )

seri_copy_lem :
    (blocks : List (List ℕ)) (b : List ℕ) (k : ℕ)
    → AreBlocks blocks
    → length b ≡ block_size
    → k ≤ block_size
    → seri_copy (blocks ++ b ∷ []) (length blocks * block_size + k)
      ≡ some (concat blocks ++ take k b)
unfolding seri_copy
seri_copy_lem [] b k a e h =
    let z : 0 + k ≡ k = omega arith in
    rw z (elim (Bool-cases (k == 0)) [
      | inl none_left ↦
          let y : 0 ≡ k = ground (arith, none_left) in
          if_true _ _ none_left ∙ ap (λ j. some (take j b)) y
      | inr left ↦ if_false _ _ left ∙ (elim (Bool-cases (leb block_size k)) [
        | inl full ↦
            let y : block_size ≡ k = ground (arith, full, h) in
            if_true _ _ full
            ∙ ap (λ o. o >>= λ bytes. some (take block_size b ++ bytes))
                (if_true {b = (k - block_size) == 0} _ _ (ground (arith, y)))
            ∙ ap some (append-nil (take block_size b))
            ∙ ap (λ j. some (take j b)) y
        | inr part ↦ if_false _ _ part
      ])
    ])
seri_copy_lem (c ∷ blocks) b k a e h =
    let n = suc (length blocks) * block_size + k in
    let m : n - block_size ≡ length blocks * block_size + k = omega arith in
    if_false {b = n == 0} _ _ (ground arith)
    ∙ if_true {b = leb block_size n} _ _ (ground arith)
    ∙ ap (λ o. o >>= λ bytes. some (take block_size c ++ bytes))
        (ap (seri_copy (blocks ++ b ∷ [])) m ∙ seri_copy_lem blocks b k a.1 e h)
    ∙ ap (λ t. some (t ++ (concat blocks ++ take k b)))
        (ap (λ j. take j c) (sym a.0) ∙ take_whole c)
    ∙ ap some (sym (append_assoc c (concat blocks) (take k b)))

-- `seri` gives the bytes that were written, and reaches no block that is not there.
pub seri_lem : (w : WriteBlock) → IsBlock w → seri w ≡ some (written w)
unfolding seri
seri_lem w v =
    ap (seri_copy (w.before ++ w.current ∷ [])) v.counted
    ∙ seri_copy_lem w.before w.current w.ptr v.before_whole v.current_whole v.ptr_in

wb_init-IsBlock : IsBlock wb_init
wb_init-IsBlock = record {
  before_whole = tt;
  current_whole = length-replicate {A = ℕ} block_size 0;
  ptr_in = omega arith;
  counted = omega arith;
}

-- Whatever pieces are pushed to a write block that was just set up, of fewer than 2^31 bytes, every
-- push succeeds and `seri` then gives the pieces in one piece, in order.
pub seri-push_all :
    (pieces : List (List ℕ))
    → length (concat pieces) < 2 ^ 31
    → (w : WriteBlock) × (push_all wb_init pieces ≡ some w) × (seri w ≡ some (concat pieces))
seri-push_all pieces small =
    let (w, e, b, f) = push_all_lem wb_init pieces wb_init-IsBlock (omega (arith, small)) in
    (w, e, seri_lem w b ∙ ap some f)
