-- ===== src/Skynet/Dispatch/Sound.antt =====
-- What holds of a context and its queue between the steps of the threads.
use game_server_development.Prelude.{
  ℕ, ◌+◌, ◌≡◌, ◌≤◌, ◌<◌, ap, [], Bool, true, false, ◌||◌, ◌==◌, arith, Bool-cases, inl, inr,
}
use game_server_development.Skynet.Dispatch.{Context, Node}
use game_server_development.Skynet.Dispatch.Count.{one, queued, holds, refers, deletes, total_of}

-- A context with a handle below `total`, whose queue stands `k` times in the global queue and in the
-- hands of threads, to which threads have `r` references, and which `d` threads delete.
pub record Sound (i total : ℕ) (c : Context) (k r d : ℕ) : Type 0 where
  pub given : c.alive ≡ true → i < total
  pub dead : c.alive ≡ false → k + (r + (d + one c.registered)) ≡ 0
  pub owned : c.alive ≡ true → k ≡ one (c.in_global || c.release)
  pub counted : c.ref ≡ one c.registered + r
  pub ended : c.alive ≡ true → one c.release + d ≡ one (c.ref == 0)
  pub idle : c.in_global ≡ false → c.messages ≡ []

abbrev pub SoundAt : Node → ℕ → Type 0
SoundAt v i =
    Sound i v.total (v.context i) (queued i v.global_queue + total_of (holds i) v.threads)
      (total_of (refers i) v.threads) (total_of (deletes i) v.threads)

abbrev pub IsValid : Node → Type 0
IsValid v = (i : ℕ) → SoundAt v i

pub one-le : (b : Bool) → one b ≤ 1
one-le true = omega arith
one-le false = omega arith

-- A queue in use is not freed.
pub used_alive :
    {i total k r d : ℕ} {c : Context} → Sound i total c k r d → 0 < k + (r + d) → c.alive ≡ true
used_alive {c = c} s h = elim (Bool-cases c.alive) [
  | inl a ↦ a
  | inr a ↦ absurd (omega (arith, s.dead a, h))
]

-- A registered context has a queue.
pub registered_alive :
    {i total k r d : ℕ} {c : Context} → Sound i total c k r d → c.registered ≡ true → c.alive ≡ true
registered_alive {c = c} s h = elim (Bool-cases c.alive) [
  | inl a ↦ a
  | inr a ↦ absurd (omega (arith, s.dead a, ap one h))
]

-- A context with references is not deleted.
pub referred :
    {i total k r d : ℕ} {c : Context}
    → Sound i total c k r d
    → c.alive ≡ true
    → 0 < c.ref
    → (c.release ≡ false) × (d ≡ 0)
referred {c = c} s a h =
    let e : one (c.ref == 0) ≡ 0 = ground arith in
    elim (Bool-cases c.release) [
      | inl b ↦ absurd (omega (arith, s.ended a, ap one b, e))
      | inr b ↦ (b, omega (arith, s.ended a, e))
    ]
