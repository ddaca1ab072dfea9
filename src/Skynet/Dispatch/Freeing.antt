-- ===== src/Skynet/Dispatch/Freeing.antt =====
-- `skynet_mq_release`: the queue of a deleted context is freed, another goes back.
use game_server_development.Prelude.{
  if_false, if_true, ℕ, ◌≡◌, ◌<◌, refl, ap, ◌∙◌, [], ◌∷◌, true, false, ◌==◌, length, get_or, arith,
  Bool-cases, inl, inr, map,
}
use game_server_development.Skynet.Dispatch.{Node, Thread, done, mq_release, drop_message}
use game_server_development.Skynet.Dispatch.Count.{
  one, queued, holds, refers, deletes, total_of, queued-append, total_of-drop_message,
}
use game_server_development.Skynet.Dispatch.Sound.{SoundAt, IsValid, one-le}
use game_server_development.Skynet.Dispatch.Frame.{one_same, one_ne, framed}
use game_server_development.Skynet.Dispatch.References.{Succeeds}
use game_server_development.Skynet.Dispatch.Queues.{sole, globalmq_push-IsValid}

-- The states in which a thread does nothing but to give up queue `i`.
abbrev pub Frees : ℕ → Thread → Type 0
Frees i x = (j : ℕ) → (holds j x ≡ one (i == j)) × (refers j x ≡ 0) × (deletes j x ≡ 0)

-- The states in which it has nothing.
abbrev pub Free : Thread → Type 0
Free x = (j : ℕ) → (holds j x ≡ 0) × (refers j x ≡ 0) × (deletes j x ≡ 0)

pub mq_release-IsValid :
    (v : Node) (t i : ℕ) (x y : Thread)
    → t < length v.threads
    → get_or v.threads t done ≡ x
    → Frees i x
    → Free y
    → IsValid v
    → Succeeds (mq_release v t i y)
unfolding mq_release
mq_release-IsValid v t i x y lt e frees free inv = elim (Bool-cases (v.context i).release) [
  | inl b ↦ (
    _,
    if_true _ _ alive ∙ if_true _ _ b,
    framed v t x y (map (drop_message i) (v.context i).messages) v.global_queue i
        (record (v.context i) { alive = false; in_global = false; messages = [] }) lt e inv
        (λ j ne.
          let (h, r, d) = frees j in
          let (h', r', d') = free j in
          record {
            hold = omega (arith, h, h', dropped_holds j, one_ne j i ne);
            refer = omega (arith, r, r', dropped_refers j);
            delete = omega (arith, d, d', dropped_deletes j);
          })
        (λ k' r' d' a b' c.
          let (hx, rx, dx) = frees i in
          let (hy, ry, dy) = free i in
          let ends = s.ended alive in
          let last : (v.context i).ref ≡ 0 = ground (arith, ends, ap one b) in
          record {
            given = λ q. absurd (cc q);
            dead = λ q. omega (
              arith,
              a,
              b',
              c,
              hx,
              rx,
              dx,
              hy,
              ry,
              dy,
              dropped_holds i,
              dropped_refers i,
              dropped_deletes i,
              held,
              self,
              ends,
              ap one b,
              one-le ((v.context i).ref == 0),
              last,
              s.counted,
              absent,
            );
            owned = λ q. absurd (cc q);
            counted = omega (arith, b', rx, ry, dropped_refers i, s.counted);
            ended = λ q. absurd (cc q);
            idle = λ q. refl;
          }),
  )
  | inr b ↦
      let (v', done', valid) =
        globalmq_push-IsValid v t i x y [] lt e (omega (arith, (frees i).0, self)) inv (λ j.
          let (h, r, d) = frees j in
          let (h', r', d') = free j in
          record {
            hold = omega (arith, h, h', queued-append j v.global_queue (i ∷ []));
            refer = omega (arith, r, r');
            delete = omega (arith, d, d');
          }) in
      (v', if_true _ _ alive ∙ if_false _ _ b ∙ done', valid)
]
  where
    s : SoundAt v i
    s = inv i

    self : one (i == i) ≡ 1
    self = one_same i i refl

    alone :
        ((v.context i).alive ≡ true)
        × (queued i v.global_queue ≡ 0)
        × (total_of (holds i) v.threads ≡ 1)
    alone = sole v t i x lt e (omega (arith, (frees i).0, self)) inv

    alive : (v.context i).alive ≡ true
    alive = alone.0

    absent : queued i v.global_queue ≡ 0
    absent = alone.1

    held : total_of (holds i) v.threads ≡ 1
    held = alone.2

    dropped_holds : (j : ℕ) → total_of (holds j) (map (drop_message i) (v.context i).messages) ≡ 0
    dropped_holds j = total_of-drop_message (holds j) i (v.context i).messages (λ k m. refl)

    dropped_refers : (j : ℕ) → total_of (refers j) (map (drop_message i) (v.context i).messages) ≡ 0
    dropped_refers j = total_of-drop_message (refers j) i (v.context i).messages (λ k m. refl)

    dropped_deletes :
        (j : ℕ) → total_of (deletes j) (map (drop_message i) (v.context i).messages) ≡ 0
    dropped_deletes j = total_of-drop_message (deletes j) i (v.context i).messages (λ k m. refl)
