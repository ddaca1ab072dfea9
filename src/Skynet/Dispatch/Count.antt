-- ===== src/Skynet/Dispatch/Count.antt =====
-- How many threads have a queue in hand, hold a reference, or delete a context.
use game_server_development.Prelude.{
  ℕ, zero, suc, ◌+◌, ◌≡◌, ◌≤◌, ◌<◌, refl, ap, List, [], ◌∷◌, ◌++◌, Bool, true, false, ◌==◌, length,
  get_or, set, arith, replicate, map,
}
use game_server_development.Skynet.Mq.{Message}
use game_server_development.Skynet.Dispatch.{
  Thread, popping, waiting, grabbing, dropping, first, measuring, looping, swapping, pushing,
  delivering, letting, deleting, making, launching, starting, failing, abandoning, replying, done,
  waits, drop_message,
}

-- One for `true`.
abbrev pub one : Bool → ℕ
one true = 1
one false = 0

abbrev pub queued : ℕ → List ℕ → ℕ
queued i [] = 0
queued i (j ∷ js) = one (j == i) + queued i js

-- Whether the thread has queue `i` in hand.
abbrev pub holds : ℕ → Thread → ℕ
holds i popping = 0
holds i waiting = 0
holds i (grabbing j) = one (j == i)
holds i (dropping j) = one (j == i)
holds i (first j) = one (j == i)
holds i (measuring j) = one (j == i)
holds i (looping j n) = one (j == i)
holds i (swapping j) = one (j == i)
holds i (pushing j k) = one (j == i) + one (k == i)
holds i (delivering j m) = 0
holds i (letting j) = 0
holds i (deleting j) = 0
holds i (making j) = one (j == i)
holds i (launching j) = one (j == i)
holds i (starting j) = one (j == i)
holds i (failing j) = one (j == i)
holds i (abandoning j) = one (j == i)
holds i (replying j m) = 0
holds i done = 0

-- Whether it has a reference to context `i`.
abbrev pub refers : ℕ → Thread → ℕ
refers i popping = 0
refers i waiting = 0
refers i (grabbing j) = 0
refers i (dropping j) = 0
refers i (first j) = one (j == i)
refers i (measuring j) = one (j == i)
refers i (looping j n) = one (j == i)
refers i (swapping j) = one (j == i)
refers i (pushing j k) = one (j == i)
refers i (delivering j m) = one (j == i)
refers i (letting j) = one (j == i)
refers i (deleting j) = 0
refers i (making j) = one (j == i)
refers i (launching j) = one (j == i)
refers i (starting j) = 0
refers i (failing j) = 0
refers i (abandoning j) = 0
refers i (replying j m) = 0
refers i done = 0

-- Whether it deletes context `i`.
abbrev pub deletes : ℕ → Thread → ℕ
deletes i popping = 0
deletes i waiting = 0
deletes i (grabbing j) = 0
deletes i (dropping j) = 0
deletes i (first j) = 0
deletes i (measuring j) = 0
deletes i (looping j n) = 0
deletes i (swapping j) = 0
deletes i (pushing j k) = 0
deletes i (delivering j m) = 0
deletes i (letting j) = 0
deletes i (deleting j) = one (j == i)
deletes i (making j) = 0
deletes i (launching j) = 0
deletes i (starting j) = 0
deletes i (failing j) = 0
deletes i (abandoning j) = 0
deletes i (replying j m) = 0
deletes i done = 0

-- The sum over the threads.
abbrev pub total_of : (Thread → ℕ) → List Thread → ℕ
total_of f [] = 0
total_of f (x ∷ xs) = f x + total_of f xs

pub total_of-append :
    (f : Thread → ℕ) (xs ys : List Thread) → total_of f (xs ++ ys) ≡ total_of f xs + total_of f ys
total_of-append f [] ys = omega arith
total_of-append f (x ∷ xs) ys = omega (arith, total_of-append f xs ys)

total_of-set :
    (f : Thread → ℕ) (xs : List Thread) (t : ℕ) (y : Thread)
    → t < length xs
    → total_of f (set xs t y) + f (get_or xs t done) ≡ total_of f xs + f y
total_of-set f [] t y h = absurd (omega arith)
total_of-set f (x ∷ xs) zero y h = omega arith
total_of-set f (x ∷ xs) (suc t) y h = omega (arith, total_of-set f xs t y (omega arith))

-- Thread `t` goes on from `x` to `y`, and leaves `rest` to do.
pub total_of-go :
    (f : Thread → ℕ) (xs : List Thread) (t : ℕ) (x y : Thread) (rest : List Thread)
    → t < length xs
    → get_or xs t done ≡ x
    → total_of f (set xs t y ++ rest) + f x ≡ total_of f xs + f y + total_of f rest
total_of-go f xs t x y rest h e =
    omega (arith, total_of-append f (set xs t y) rest, total_of-set f xs t y h, ap f e)

pub total_of-le :
    (f : Thread → ℕ) (xs : List Thread) (t : ℕ)
    → t < length xs
    → f (get_or xs t done) ≤ total_of f xs
total_of-le f [] t h = absurd (omega arith)
total_of-le f (x ∷ xs) zero h = omega arith
total_of-le f (x ∷ xs) (suc t) h = omega (arith, total_of-le f xs t (omega arith))

pub queued-append : (i : ℕ) (js ks : List ℕ) → queued i (js ++ ks) ≡ queued i js + queued i ks
queued-append i [] ks = omega arith
queued-append i (j ∷ js) ks = omega (arith, queued-append i js ks)

-- A queue that is not counted in the global queue does not stand there.
pub waits_none : (i : ℕ) (js : List ℕ) → queued i js ≡ 0 → waits i js ≡ false
unfolding waits
waits_none i [] e = refl
waits_none i (j ∷ js) e = ground (arith, waits_none i js)

pub total_of-replicate :
    (f : Thread → ℕ) (n : ℕ) → f popping ≡ 0 → total_of f (replicate n popping) ≡ 0
total_of-replicate f zero e = refl
total_of-replicate f (suc n) e = omega (arith, total_of-replicate f n e, e)

-- The errors that a dropped queue sends are no part of any count.
pub total_of-drop_message :
    (f : Thread → ℕ) (i : ℕ) (ms : List Message)
    → ((j : ℕ) (m : Message) → f (replying j m) ≡ 0)
    → total_of f (map (drop_message i) ms) ≡ 0
total_of-drop_message f i [] e = refl
total_of-drop_message f i (m ∷ ms) e = omega (arith, total_of-drop_message f i ms e, e m.source _)
