-- ===== src/Sunnet/Sched/Count.antt =====
-- How often a service stands in the global queue and in the hands of the workers.
use game_server_development.Prelude.{
  ℕ, zero, suc, ◌+◌, ◌≡◌, ◌≢◌, ◌≤◌, ◌<◌, refl, ap, List, [], ◌∷◌, ◌++◌, Bool, true, false, ◌==◌,
  length, get_or, set, arith, replicate,
}
use game_server_development.Sunnet.Sched.{
  Worker, popping, found_none, sleeping, processing, putting, wake_one,
}

-- One for `true`.
abbrev pub one : Bool → ℕ
one true = 1
one false = 0

abbrev pub queued : ℕ → List ℕ → ℕ
queued i [] = 0
queued i (j ∷ js) = one (j == i) + queued i js

-- Whether a worker has popped the service and not put it back yet.
abbrev pub holds : ℕ → Worker → ℕ
holds i (processing j n) = one (j == i)
holds i (putting j) = one (j == i)
holds i popping = 0
holds i found_none = 0
holds i sleeping = 0

abbrev pub held : ℕ → List Worker → ℕ
held i [] = 0
held i (w ∷ ws) = holds i w + held i ws

pub queued-append : (i : ℕ) (js ks : List ℕ) → queued i (js ++ ks) ≡ queued i js + queued i ks
queued-append i [] ks = omega arith
queued-append i (j ∷ js) ks = omega (arith, queued-append i js ks)

pub held-set :
    (i : ℕ) (ws : List Worker) (w : ℕ) (x : Worker)
    → w < length ws
    → held i (set ws w x) + holds i (get_or ws w sleeping) ≡ held i ws + holds i x
held-set i [] w x h = absurd (omega arith)
held-set i (y ∷ ws) zero x h = omega arith
held-set i (y ∷ ws) (suc w) x h = omega (arith, held-set i ws w x (omega arith))

pub held-wake_one : (i : ℕ) (ws : List Worker) → held i (wake_one ws) ≡ held i ws
unfolding wake_one
held-wake_one i [] = refl
held-wake_one i (sleeping ∷ ws) = refl
held-wake_one i (popping ∷ ws) = omega (arith, held-wake_one i ws)
held-wake_one i (found_none ∷ ws) = omega (arith, held-wake_one i ws)
held-wake_one i (processing j n ∷ ws) = omega (arith, held-wake_one i ws)
held-wake_one i (putting j ∷ ws) = omega (arith, held-wake_one i ws)

pub held-replicate : (i n : ℕ) → held i (replicate n popping) ≡ 0
held-replicate i zero = refl
held-replicate i (suc n) = omega (arith, held-replicate i n)

pub holds-le : (i : ℕ) (ws : List Worker) (w : ℕ) → holds i (get_or ws w sleeping) ≤ held i ws
holds-le i [] w = omega arith
holds-le i (y ∷ ws) zero = omega arith
holds-le i (y ∷ ws) (suc w) = omega (arith, holds-le i ws w)

-- Two workers that have the same service count twice.
pub two-le :
    (i : ℕ) (ws : List Worker) (w u : ℕ)
    → w ≢ u
    → holds i (get_or ws w sleeping) + holds i (get_or ws u sleeping) ≤ held i ws
two-le i [] w u n = omega arith
two-le i (y ∷ ws) zero zero n = absurd (n refl)
two-le i (y ∷ ws) zero (suc u) n = omega (arith, holds-le i ws u)
two-le i (y ∷ ws) (suc w) zero n = omega (arith, holds-le i ws w)
two-le i (y ∷ ws) (suc w) (suc u) n = omega (arith, two-le i ws w u (λ e. n (ap suc e)))
