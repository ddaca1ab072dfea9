-- ===== src/Skynet/Dispatch/References.antt =====
-- The steps that give back a reference and delete a context.
use game_server_development.Prelude.{
  if_true, if_false, ℕ, zero, suc, ◌≡◌, ◌≤◌, ◌<◌, refl, ap, ◌∙◌, List, [], ◌∷◌, ◌++◌, true, false,
  ◌==◌, if◌then◌else◌, length, get_or, set, arith, Bool-cases, ==_iff, inl, inr, Option, none, some,
}
use game_server_development.Skynet.Dispatch.{
  Context, Node, Thread, done, assign, go, put, globalmq_push, context_release, mark_release,
  letting, deleting,
}
use game_server_development.Skynet.Dispatch.Count.{
  one, queued, holds, refers, deletes, total_of, total_of-le, waits_none, queued-append,
}
use game_server_development.Skynet.Dispatch.Sound.{SoundAt, IsValid, one-le, used_alive, referred}
use game_server_development.Skynet.Dispatch.Frame.{one_same, one_ne, framed}

-- The step does not fail, and keeps every context sound.
abbrev pub Succeeds : Option Node → Type 0
Succeeds r = (v : Node) × (r ≡ some v) × IsValid v

-- A thread of which a count is positive makes the sum positive.
pub thread-le :
    (v : Node) (f : Thread → ℕ) (t : ℕ) (x : Thread)
    → t < length v.threads
    → get_or v.threads t done ≡ x
    → f x ≤ total_of f v.threads
thread-le v f t x lt e = omega (arith, total_of-le f v.threads t lt, ap f e)

pub assign_self : (f : ℕ → Context) (i : ℕ) (c : Context) → assign f i c i ≡ c
assign_self f i c = ap (λ b. if b then c else f i) ((==_iff i i).1 refl)

-- `skynet_globalmq_push` of a queue that is not freed and not linked.
pub globalmq_push_fresh :
    (v : Node) (i : ℕ)
    → (v.context i).alive ≡ true
    → queued i v.global_queue ≡ 0
    → globalmq_push v i ≡ some (record v { global_queue = v.global_queue ++ i ∷ [] })
unfolding globalmq_push
globalmq_push_fresh v i a e = rw (a, waits_none i v.global_queue e) refl

pub globalmq_push_put :
    (v : Node) (i : ℕ) (c : Context) (ts : List Thread)
    → c.alive ≡ true
    → queued i v.global_queue ≡ 0
    → globalmq_push (record v { context = assign v.context i c; threads = ts }) i
      ≡ some (record v {
        context = assign v.context i c;
        global_queue = v.global_queue ++ i ∷ [];
        threads = ts;
      })
globalmq_push_put v i c ts a e =
    globalmq_push_fresh (record v { context = assign v.context i c; threads = ts }) i
      (ap (λ c. c.alive) (assign_self v.context i c) ∙ a) e

pub context_release-IsValid :
    (v : Node) (t i : ℕ)
    → t < length v.threads
    → get_or v.threads t done ≡ letting i
    → IsValid v
    → Succeeds (context_release v t i)
unfolding context_release
context_release-IsValid v t i lt e inv = released (v.context i).ref refl
  where
    s : SoundAt v i
    s = inv i

    self : one (i == i) ≡ 1
    self = one_same i i refl

    refers_some : 1 ≤ total_of (refers i) v.threads
    refers_some = omega (arith, thread-le v (refers i) t (letting i) lt e, self)

    alive : (v.context i).alive ≡ true
    alive = used_alive s (omega (arith, refers_some))

    given_back :
        (n : ℕ)
        → (v.context i).ref ≡ suc n
        → (y : Thread)
        → ((j : ℕ)
            → (holds j y ≡ 0)
              × (refers j y ≡ 0)
              × (deletes j y ≡ (if n == 0 then one (i == j) else 0)))
        → IsValid (go (put v i (record (v.context i) { ref = n })) t y [])
    given_back n p y counts =
        let (h, r, d) = counts i in
        let (unreleased, none_deletes) = referred s alive (omega (arith, p)) in
        framed v t (letting i) y [] v.global_queue i (record (v.context i) { ref = n }) lt e inv
          (λ j ne.
            let (h, r, d) = counts j in
            record {
              hold = omega (arith, h);
              refer = omega (arith, r, one_ne j i ne);
              delete = ground (arith, d, one_ne j i ne);
            })
          (λ k' r' d' a b c. record {
            given = s.given;
            dead = λ q. absurd (cc (alive, q));
            owned = λ q. omega (arith, s.owned q, a, h);
            counted = omega (arith, s.counted, p, b, r, self);
            ended = λ q. ground (arith, c, d, self, none_deletes, ap one unreleased);
            idle = s.idle;
          })

    released :
        (n : ℕ)
        → (v.context i).ref ≡ n
        → Succeeds (elim n [
          | zero ↦ none
          | suc n ↦
              let v' : Node = put v i (record (v.context i) { ref = n }) in
              some (if n == 0 then go v' t (deleting i) [] else go v' t done [])
        ])
    released zero p = absurd (omega (arith, p, s.counted, refers_some))
    released (suc zero) p = (_, refl, given_back 0 p (deleting i) (λ j. (refl, refl, refl)))
    released (suc (suc n)) p = (
      _,
      ap some (if_false {b = suc n == 0} _ _ (ground arith)),
      given_back (suc n) p done (λ j. (refl, refl, ground arith)),
    )

pub mark_release-IsValid :
    (v : Node) (t i : ℕ)
    → t < length v.threads
    → get_or v.threads t done ≡ deleting i
    → IsValid v
    → Succeeds (mark_release v t i)
unfolding mark_release
mark_release-IsValid v t i lt e inv = elim (Bool-cases (v.context i).in_global) [
  | inl g ↦ (
    _,
    if_true _ _ alive ∙ if_false _ _ unreleased ∙ if_true _ _ g,
    framed v t (deleting i) done [] v.global_queue i (record (v.context i) { release = true }) lt e
        inv
        (λ j ne. record {
          hold = omega arith;
          refer = omega arith;
          delete = omega (arith, one_ne j i ne);
        })
        (λ k' r' d' a b c. record {
          given = s.given;
          dead = λ q. absurd (cc (alive, q));
          owned = λ q. ground (arith, s.owned q, a, g, unreleased);
          counted = omega (arith, s.counted, b);
          ended = λ q. omega (arith, s.ended q, c, self, ap one unreleased);
          idle = s.idle;
        }),
  )
  | inr g ↦ (
    _,
    if_true _ _ alive
        ∙ if_false _ _ unreleased
        ∙ if_false _ _ g
        ∙ (globalmq_push_put v i (record (v.context i) { release = true })
            (set v.threads t done ++ []) alive (ground (arith, s.owned alive, g, unreleased))),
    framed v t (deleting i) done [] (v.global_queue ++ i ∷ []) i
        (record (v.context i) { release = true }) lt e inv
        (λ j ne. record {
          hold = omega (arith, queued-append j v.global_queue (i ∷ []), one_ne j i ne);
          refer = omega arith;
          delete = omega (arith, one_ne j i ne);
        })
        (λ k' r' d' a b c. record {
          given = s.given;
          dead = λ q. absurd (cc (alive, q));
          owned = λ q.
              ground
                (arith, s.owned q, a, g, unreleased, queued-append i v.global_queue (i ∷ []), self);
          counted = omega (arith, s.counted, b);
          ended = λ q. omega (arith, s.ended q, c, self, ap one unreleased);
          idle = s.idle;
        }),
  )
]
  where
    s : SoundAt v i
    s = inv i

    self : one (i == i) ≡ 1
    self = one_same i i refl

    deletes_some : 1 ≤ total_of (deletes i) v.threads
    deletes_some = omega (arith, thread-le v (deletes i) t (deleting i) lt e, self)

    alive : (v.context i).alive ≡ true
    alive = used_alive s (omega (arith, deletes_some))

    unreleased : (v.context i).release ≡ false
    unreleased = elim (Bool-cases (v.context i).release) [
      | inl b ↦
          absurd
            (omega (arith, s.ended alive, ap one b, deletes_some, one-le ((v.context i).ref == 0)))
      | inr b ↦ b
    ]
