-- ===== src/Skynet/Send/Sessions.antt =====
-- The sessions that one context gives to its requests.
use game_server_development.Prelude.{ℕ, zero, suc, ◌+◌, ◌-◌, ◌%◌, ◌^◌, ◌<◌, ◌≡◌, ◌≢◌, arith}
use game_server_development.Skynet.Send.{newsession}

-- The `n`th session after `s`.
unfoldable pub sessions : ℕ → ℕ → ℕ
sessions s zero = s
sessions s (suc n) = newsession (sessions s n)

newsession_lem : (s : ℕ) → s < 2 ^ 31 → newsession s ≡ s % (2 ^ 31 - 1) + 1
unfolding newsession
newsession_lem s h = ground arith

sessions_closed : (s n : ℕ) → s < 2 ^ 31 → sessions s (suc n) ≡ (s + n) % (2 ^ 31 - 1) + 1
unfolding sessions
sessions_closed s zero h = omega (arith, newsession_lem s h)
sessions_closed s (suc n) h = omega (
  arith,
  sessions_closed s n h,
  newsession_lem (sessions s (suc n)) (omega (arith, sessions_closed s n h)),
)

-- Every session that a context gives is positive and an `int`, and no two of any 2^31 - 1 sessions
-- that it gives one after the other are the same.
pub sessions_distinct :
    (s n d : ℕ)
    → s < 2 ^ 31
    → 0 < d
    → d < 2 ^ 31 - 1
    → (0 < sessions s (suc n))
      × (sessions s (suc n) < 2 ^ 31)
      × (sessions s (suc (n + d)) ≢ sessions s (suc n))
sessions_distinct s n d h pos few =
    let a = sessions_closed s n h in
    let b = sessions_closed s (n + d) h in
    (omega (arith, a), omega (arith, a), λ e. omega (arith, a, b, e))
