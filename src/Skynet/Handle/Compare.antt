-- ===== src/Skynet/Handle/Compare.antt =====
-- `strcmp` is a strict order on names.
use game_server_development.Prelude.{ℕ, ◌≡◌, refl, List, [], ◌∷◌, arith}
use Prim.Native.Nat.{Ordering}
use game_server_development.Skynet.Handle.{strcmp}

pub strcmp_refl : (a : List ℕ) → strcmp a a ≡ Ordering.eq
unfolding strcmp
strcmp_refl [] = refl
strcmp_refl (x ∷ xs) = ground (arith, strcmp_refl xs)

pub strcmp_eq : (a b : List ℕ) → strcmp a b ≡ Ordering.eq → a ≡ b
unfolding strcmp
strcmp_eq [] [] e = refl
strcmp_eq [] (y ∷ ys) e = cc
strcmp_eq (x ∷ xs) [] e = cc
strcmp_eq (x ∷ xs) (y ∷ ys) e = ground (arith, strcmp_eq xs ys)

pub strcmp_flip : (a b : List ℕ) → strcmp a b ≡ Ordering.gt → strcmp b a ≡ Ordering.lt
unfolding strcmp
strcmp_flip [] [] e = cc
strcmp_flip [] (y ∷ ys) e = cc
strcmp_flip (x ∷ xs) [] e = refl
strcmp_flip (x ∷ xs) (y ∷ ys) e = ground (arith, strcmp_flip xs ys)

pub strcmp_flip_lt : (a b : List ℕ) → strcmp a b ≡ Ordering.lt → strcmp b a ≡ Ordering.gt
unfolding strcmp
strcmp_flip_lt [] [] e = cc
strcmp_flip_lt [] (y ∷ ys) e = refl
strcmp_flip_lt (x ∷ xs) [] e = cc
strcmp_flip_lt (x ∷ xs) (y ∷ ys) e = ground (arith, strcmp_flip_lt xs ys)

pub strcmp_trans :
    (a b c : List ℕ)
    → strcmp a b ≡ Ordering.lt
    → strcmp b c ≡ Ordering.lt
    → strcmp a c ≡ Ordering.lt
unfolding strcmp
strcmp_trans [] [] c p q = cc
strcmp_trans [] (y ∷ ys) [] p q = cc
strcmp_trans [] (y ∷ ys) (z ∷ zs) p q = refl
strcmp_trans (x ∷ xs) [] c p q = cc
strcmp_trans (x ∷ xs) (y ∷ ys) [] p q = cc
strcmp_trans (x ∷ xs) (y ∷ ys) (z ∷ zs) p q = ground (arith, strcmp_trans xs ys zs)
