-- ===== src/Skynet/Monitor/Reports.antt =====
-- When a check reports.
use game_server_development.Prelude.{
  ℕ, ◌+◌, ◌%◌, ◌^◌, ◌<◌, ◌≡◌, refl, sym, ap₂, ◌≢◌, ◌∙◌, List, [], ◌∷◌, ◌==◌, if◌then◌else◌, length,
  arith, Option, none, some,
}
use game_server_development.Skynet.Monitor.{Monitor, trigger, check, triggers}

version-triggers :
    (sm : Monitor) (cs : List (ℕ × ℕ))
    → sm.version < 2 ^ 32
    → (triggers sm cs).version ≡ (sm.version + length cs) % 2 ^ 32
unfolding triggers trigger
version-triggers sm [] h = omega arith
version-triggers sm (c ∷ cs) h =
    omega (arith, version-triggers (trigger sm c.0 c.1) cs (omega arith))

check_version-triggers :
    (sm : Monitor) (cs : List (ℕ × ℕ)) → (triggers sm cs).check_version ≡ sm.check_version
unfolding triggers trigger
check_version-triggers sm [] = refl
check_version-triggers sm (c ∷ cs) = check_version-triggers (trigger sm c.0 c.1) cs

-- After a check the versions agree.
checked :
    (sm : Monitor)
    → ((check sm).1.check_version ≡ sm.version)
      × ((check sm).1.version ≡ sm.version)
      × ((check sm).1.destination ≡ sm.destination)
      × ((check sm).1.source ≡ sm.source)
unfolding check
checked sm = ground arith

check_moved : (sm : Monitor) → sm.version ≢ sm.check_version → (check sm).0 ≡ none
unfolding check
check_moved sm h = ground arith

check_same :
    (sm : Monitor)
    → sm.version ≡ sm.check_version
    → (check sm).0 ≡ (if sm.destination == 0 then none else some (sm.source, sm.destination))
unfolding check
check_same sm h = ground arith

abbrev pub reported : Monitor → List (ℕ × ℕ) → Option (ℕ × ℕ)
reported sm [] = if sm.destination == 0 then none else some (sm.source, sm.destination)
reported sm (c ∷ cs) = none

-- The second of two checks, with fewer than 2^32 calls of trigger between them, reports exactly if
-- there was no call and the last one before named a destination; it reports that and its source.
pub check-triggers :
    (sm : Monitor) (cs : List (ℕ × ℕ))
    → sm.version < 2 ^ 32
    → length cs < 2 ^ 32
    → (check (triggers (check sm).1 cs)).0 ≡ reported sm cs
unfolding triggers
check-triggers sm [] h few =
    let (c, v, d, s) = checked sm in
    check_same (check sm).1 (v ∙ sym c) ∙ ap₂ (λ a b. if a == 0 then none else some (b, a)) d s
check-triggers sm (x ∷ cs) h few =
    let (c, v, d, s) = checked sm in
    check_moved (triggers (check sm).1 (x ∷ cs)) (λ e. omega (
      arith,
      e,
      version-triggers (check sm).1 (x ∷ cs) (omega (arith, v)),
      check_version-triggers (check sm).1 (x ∷ cs),
      c,
      v,
      h,
      few,
    ))
