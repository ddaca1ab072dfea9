-- ===== src/Prelude/Ring.antt =====
-- A ring of cells in an array: the cells from its head on, and what a write does to them.
use Prim.Native.Nat.{ℕ, zero, suc, ◌+◌, ◌-◌, ◌%◌, ◌≤◌, ◌<◌}
use mathlib.Core.Path.{◌≡◌, refl, sym, ap, ap₂, ◌∙◌}
use mathlib.Core.Logic.{◌≢◌}
use mathlib.Core.List.{List, [], ◌∷◌, ◌++◌, append_assoc}
use native.Mathlib.Omega.{arith}
use native.Mathlib.Decide.{dec_lt}
use game_server_development.Prelude.Tests.{leb, if◌then◌else◌}
use game_server_development.Prelude.Arrays.{
  length, get_or, set, length-append, get_or-set_self, get_or-set_ne,
}
use native.Mathlib.Nat.{mod-eq_of_lt, mod-eq-sub-mod}

-- One turn of the ring at most: an index below twice the capacity wraps once.
mod_below : (a n : ℕ) → a < n → a % n ≡ a
mod_below a n h = mod-eq_of_lt h

mod_above : (a n : ℕ) → n ≤ a → a < n + n → a % n ≡ a - n
mod_above a n h k =
    mod-eq-sub-mod {n = a} {m = n} (omega arith) ∙ mod-eq_of_lt {n = a - n} {m = n} (omega arith)

-- The index after the last of `n` cells from `h`, as the code computes it.
pub mod_wrap :
    (h k n : ℕ) → h < n → k ≤ n → (h + k) % n ≡ (if leb n (h + k) then h + k - n else h + k)
mod_wrap h k n lt le = elim (dec_lt (h + k) n) [
  | yes p ↦ ground (arith, mod_below (h + k) n p)
  | no p ↦ ground (arith, mod_above (h + k) n (omega arith) (omega arith))
]

mod-ne : (h i j n : ℕ) → h < n → i < j → j < n → (h + i) % n ≢ (h + j) % n
mod-ne h i j n a b c = ground (arith, mod_wrap h i n a, mod_wrap h j n a)

-- The cells are of type `A`, and `blank` is read out of bounds.
module _ {A : Type 0} (blank : A) where
  -- `n` cells from the `i`-th after the head on.
  unfoldable pub unroll : List A → ℕ → ℕ → ℕ → ℕ → List A
  unroll buf cap head i zero = []
  unroll buf cap head i (suc n) =
      get_or buf ((head + i) % cap) blank ∷ unroll buf cap head (i + 1) n

  pub length-unroll : (buf : List A) (n head i k : ℕ) → length (unroll buf n head i k) ≡ k
  unfolding unroll
  length-unroll buf n head i zero = refl
  length-unroll buf n head i (suc k) = ap suc (length-unroll buf n head (i + 1) k)

  -- One cell more at the end.
  pub unroll-snoc :
      (buf : List A) (n h i k : ℕ)
      → unroll buf n h i (suc k) ≡ unroll buf n h i k ++ get_or buf ((h + (i + k)) % n) blank ∷ []
  unfolding unroll
  unroll-snoc buf n h i zero = ap (λ x. get_or buf ((h + x) % n) blank ∷ []) (omega arith)
  unroll-snoc buf n h i (suc k) =
      ap (λ xs. get_or buf ((h + i) % n) blank ∷ xs)
        (unroll-snoc buf n h (i + 1) k
          ∙ ap (λ x. unroll buf n h (i + 1) k ++ get_or buf ((h + x) % n) blank ∷ []) (omega arith))

  -- A write at an index that the window does not reach.
  pub unroll-set_ne :
      (buf : List A) (n h i k j : ℕ) (m : A)
      → h < n
      → i + k ≤ j
      → j < n
      → unroll (set buf ((h + j) % n) m) n h i k ≡ unroll buf n h i k
  unfolding unroll
  unroll-set_ne buf n h i zero j m a b c = refl
  unroll-set_ne buf n h i (suc k) j m a b c =
      ap₂ ◌∷◌
        (get_or-set_ne buf ((h + j) % n) ((h + i) % n) m blank
          (λ e. mod-ne h i j n a (omega arith) c (omega arith)))
        (unroll-set_ne buf n h (i + 1) k j m a (omega arith) c)

  -- Writing just past the window adds the message at its end.
  pub unroll-set :
      (buf : List A) (n h k : ℕ) (m : A)
      → n ≤ length buf
      → h < n
      → k < n
      → unroll (set buf ((h + k) % n) m) n h 0 (suc k) ≡ unroll buf n h 0 k ++ m ∷ []
  unroll-set buf n h k m room a b =
      unroll-snoc (set buf ((h + k) % n) m) n h 0 k
      ∙ ap₂ (λ xs x. xs ++ x ∷ []) (unroll-set_ne buf n h 0 k k m a (omega arith) b)
          (ap (λ x. get_or (set buf ((h + k) % n) m) ((h + x) % n) blank) (omega arith)
            ∙ get_or-set_self buf ((h + k) % n) m blank (ground (arith, mod_wrap h k n a)))

  -- Moving the head by one cell.
  pub unroll-advance :
      (buf : List A) (n h i k : ℕ)
      → h < n
      → i + k < n
      → unroll buf n h (i + 1) k ≡ unroll buf n (if leb n (h + 1) then 0 else h + 1) i k
  unfolding unroll
  unroll-advance buf n h i zero a b = refl
  unroll-advance buf n h i (suc k) a b =
      ap₂ ◌∷◌
        (ap (λ x. get_or buf x blank)
          (ground (arith, mod_wrap h (i + 1) n a, mod_wrap 0 i n, mod_wrap (h + 1) i n)))
        (unroll-advance buf n h (i + 1) k a (omega arith))

  get_or-skip : (xs : List A) (y : A) (ys : List A) → get_or (xs ++ y ∷ ys) (length xs) blank ≡ y
  get_or-skip [] y ys = refl
  get_or-skip (x ∷ xs) y ys = get_or-skip xs y ys

  -- The window from an index on of an array that is read without wrapping.
  unroll_flat :
      (pre xs rest buf : List A) (n p : ℕ)
      → buf ≡ pre ++ (xs ++ rest)
      → p ≡ length pre
      → p + length xs ≤ n
      → unroll buf n 0 p (length xs) ≡ xs
  unfolding unroll
  unroll_flat pre [] rest buf n p e l h = refl
  unroll_flat pre (x ∷ xs) rest buf n p e l h =
      ap₂ ◌∷◌
        (ap₂ (λ b i. get_or b i blank) e (ground (arith, mod_wrap 0 p n))
          ∙ get_or-skip pre x (xs ++ rest))
        (unroll_flat (pre ++ x ∷ []) xs rest buf n (p + 1)
          (e ∙ sym (append_assoc pre (x ∷ []) (xs ++ rest)))
          (omega (arith, length-append pre (x ∷ []))) (omega arith))

  -- The window of an array's whole beginning.
  pub unroll-append :
      (xs rest : List A) (n : ℕ) → length xs ≤ n → unroll (xs ++ rest) n 0 0 (length xs) ≡ xs
  unroll-append xs rest n h = unroll_flat [] xs rest (xs ++ rest) n 0 refl refl (omega arith)
