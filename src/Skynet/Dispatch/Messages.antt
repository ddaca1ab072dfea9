-- ===== src/Skynet/Dispatch/Messages.antt =====
-- The steps that put messages in a queue and take them out.
use game_server_development.Prelude.{
  if_false, if_true, ℕ, ◌+◌, ◌≡◌, ◌≤◌, ◌<◌, refl, ap, ◌∙◌, List, [], ◌∷◌, ◌++◌, true, false, ◌==◌,
  if◌then◌else◌, length, get_or, set, arith, Bool-cases, inl, inr, none, some,
}
use game_server_development.Skynet.Mq.{Message}
use game_server_development.Skynet.Dispatch.{
  Context, Node, Thread, popping, delivering, making, launching, letting, done, go, put, mq_push,
  dispatch_round,
}
use game_server_development.Skynet.Dispatch.Count.{
  one, queued, holds, refers, deletes, total_of, queued-append,
}
use game_server_development.Skynet.Dispatch.Sound.{SoundAt, IsValid, used_alive, referred}
use game_server_development.Skynet.Dispatch.Frame.{one_same, one_ne, framed}
use game_server_development.Skynet.Dispatch.References.{Succeeds, thread-le, globalmq_push_put}
use game_server_development.Skynet.Dispatch.Queues.{sole}

-- The states in which a worker dispatches queue `i`.
abbrev pub Serves : ℕ → Thread → Type 0
Serves i x = (j : ℕ) → (holds j x ≡ one (i == j)) × (refers j x ≡ one (i == j)) × (deletes j x ≡ 0)

pub dispatch_round-IsValid :
    (v : Node) (t i : ℕ) (x y : Thread)
    → t < length v.threads
    → get_or v.threads t done ≡ x
    → Serves i x
    → Serves i y
    → IsValid v
    → Succeeds (dispatch_round v t i y)
unfolding dispatch_round
dispatch_round-IsValid v t i x y lt e before after inv = taken (v.context i).messages refl
  where
    s : SoundAt v i
    s = inv i

    self : one (i == i) ≡ 1
    self = one_same i i refl

    alone :
        ((v.context i).alive ≡ true)
        × (queued i v.global_queue ≡ 0)
        × (total_of (holds i) v.threads ≡ 1)
    alone = sole v t i x lt e (omega (arith, (before i).0, self)) inv

    alive : (v.context i).alive ≡ true
    alive = alone.0

    count : queued i v.global_queue + total_of (holds i) v.threads ≡ 1
    count = omega (arith, alone.1, alone.2)

    unreleased : ((v.context i).release ≡ false) × (total_of (deletes i) v.threads ≡ 0)
    unreleased =
        referred s alive
          (omega (arith, s.counted, thread-le v (refers i) t x lt e, (before i).1, self))

    in_global : (v.context i).in_global ≡ true
    in_global = elim (Bool-cases (v.context i).in_global) [
      | inl g ↦ g
      | inr g ↦ absurd (ground (arith, s.owned alive, count, g, unreleased.0))
    ]

    taken :
        (ms : List Message)
        → (v.context i).messages ≡ ms
        → Succeeds (
            if (v.context i).alive
            then some (elim ms [
              | [] ↦
                  go
                    (put v i (record (v.context i) { in_global = false }))
                    t
                    popping
                    (letting i ∷ [])
              | m ∷ ms ↦
                  go
                    (put v i (record (v.context i) {
                      messages = ms;
                      handled = (v.context i).handled ++ m ∷ [];
                    }))
                    t
                    y
                    []
            ])
            else none)
    taken [] p = (
      _,
      if_true _ _ alive,
      framed v t x popping (letting i ∷ []) v.global_queue i
          (record (v.context i) { in_global = false }) lt e inv
          (λ j ne.
            let (h, r, d) = before j in
            record {
              hold = omega (arith, h, one_ne j i ne);
              refer = omega (arith, r);
              delete = omega (arith, d);
            })
          (λ k' r' d' a b c.
            let (h, r, d) = before i in
            record {
              given = s.given;
              dead = λ q. absurd (cc (alive, q));
              owned = λ q. omega (arith, a, h, self, count, ap one unreleased.0);
              counted = omega (arith, s.counted, b, r);
              ended = λ q. omega (arith, s.ended q, c, d);
              idle = λ q. p;
            }),
    )
    taken (m ∷ ms) p = (
      _,
      if_true _ _ alive,
      framed v t x y [] v.global_queue i
          (record (v.context i) { messages = ms; handled = (v.context i).handled ++ m ∷ [] }) lt e
          inv
          (λ j ne.
            let (h, r, d) = before j in
            let (h', r', d') = after j in
            record {
              hold = omega (arith, h, h');
              refer = omega (arith, r, r');
              delete = omega (arith, d, d');
            })
          (λ k' r' d' a b c.
            let (h, r, d) = before i in
            let (hy, ry, dy) = after i in
            record {
              given = s.given;
              dead = λ q. absurd (cc (alive, q));
              owned = λ q. omega (arith, s.owned q, a, h, hy);
              counted = omega (arith, s.counted, b, r, ry);
              ended = λ q. omega (arith, s.ended q, c, d, dy);
              idle = λ q. absurd (cc (in_global, q));
            }),
    )

pub mq_push-IsValid :
    (v : Node) (t i : ℕ) (m : Message)
    → t < length v.threads
    → get_or v.threads t done ≡ delivering i m
    → (v.context i).made ≡ true
    → IsValid v
    → Succeeds (mq_push v t i m)
unfolding mq_push
mq_push-IsValid v t i m lt e made inv = elim (Bool-cases (v.context i).in_global) [
  | inl g ↦ (
    _,
    if_true _ _ made ∙ if_true _ _ alive ∙ if_true _ _ g,
    framed v t (delivering i m) (letting i) [] v.global_queue i pushed lt e inv
        (λ j ne. record { hold = omega arith; refer = omega arith; delete = omega arith })
        (λ k' r' d' a b c. record {
          given = s.given;
          dead = λ q. absurd (cc (alive, q));
          owned = λ q. ground (arith, s.owned q, a, g);
          counted = omega (arith, s.counted, b);
          ended = λ q. omega (arith, s.ended q, c);
          idle = λ q. absurd (cc q);
        }),
  )
  | inr g ↦
      let absent : queued i v.global_queue + total_of (holds i) v.threads ≡ 0 =
        ground (arith, s.owned alive, g, unreleased) in
      (
        _,
        if_true _ _ made
            ∙ if_true _ _ alive
            ∙ if_false _ _ g
            ∙ globalmq_push_put v i pushed (set v.threads t (letting i) ++ []) alive
                (omega (arith, absent)),
        framed v t (delivering i m) (letting i) [] (v.global_queue ++ i ∷ []) i pushed lt e inv
            (λ j ne. record {
              hold = omega (arith, queued-append j v.global_queue (i ∷ []), one_ne j i ne);
              refer = omega arith;
              delete = omega arith;
            })
            (λ k' r' d' a b c. record {
              given = s.given;
              dead = λ q. absurd (cc (alive, q));
              owned = λ q. omega (arith, a, absent, queued-append i v.global_queue (i ∷ []), self);
              counted = omega (arith, s.counted, b);
              ended = λ q. omega (arith, s.ended q, c);
              idle = λ q. absurd (cc q);
            }),
      )
]
  where
    s : SoundAt v i
    s = inv i

    pushed : Context
    pushed = record (v.context i) { messages = (v.context i).messages ++ m ∷ []; in_global = true }

    self : one (i == i) ≡ 1
    self = one_same i i refl

    refers_some : 1 ≤ total_of (refers i) v.threads
    refers_some = omega (arith, thread-le v (refers i) t (delivering i m) lt e, self)

    alive : (v.context i).alive ≡ true
    alive = used_alive s (omega (arith, refers_some))

    unreleased : (v.context i).release ≡ false
    unreleased = (referred s alive (omega (arith, s.counted, refers_some))).0

-- `skynet_mq_create` for a new context.
pub making-IsValid :
    (v : Node) (t i : ℕ)
    → t < length v.threads
    → get_or v.threads t done ≡ making i
    → IsValid v
    → IsValid (go (put v i (record (v.context i) { made = true })) t (launching i) [])
making-IsValid v t i lt e inv =
    framed v t (making i) (launching i) [] v.global_queue i (record (v.context i) { made = true })
      lt e inv (λ j ne. record { hold = omega arith; refer = omega arith; delete = omega arith })
      (λ k' r' d' a b c. record {
        given = s.given;
        dead = λ q. omega (arith, s.dead q, a, b, c);
        owned = λ q. omega (arith, s.owned q, a);
        counted = omega (arith, s.counted, b);
        ended = λ q. omega (arith, s.ended q, c);
        idle = s.idle;
      })
  where
    s : SoundAt v i
    s = inv i
