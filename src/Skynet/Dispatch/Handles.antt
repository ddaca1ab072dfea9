-- ===== src/Skynet/Dispatch/Handles.antt =====
-- The steps that make a context, find it by its handle, and retire the handle.
use game_server_development.Prelude.{
  ℕ, suc, ◌+◌, ◌≡◌, ◌<◌, refl, ap, [], ◌∷◌, ◌++◌, Bool, true, false, ◌==◌, if◌then◌else◌, length,
  get_or, arith, Bool-cases, inl, inr,
}
use game_server_development.Skynet.Mq.{Message}
use game_server_development.Skynet.Dispatch.{
  Context, no_context, Node, done, go, put, grabbed, context_push, retire, grab, launch, letting,
  delivering, grabbing, first, dropping, making,
}
use game_server_development.Skynet.Dispatch.Count.{
  one, queued, holds, refers, deletes, total_of, total_of-append,
}
use game_server_development.Skynet.Dispatch.Sound.{
  Sound, SoundAt, IsValid, registered_alive, referred,
}
use game_server_development.Skynet.Dispatch.Frame.{
  one_same, one_ne, recount, assigned, framed, moved, spawned,
}

pub grab-IsValid :
    (v : Node) (t i : ℕ)
    → t < length v.threads
    → get_or v.threads t done ≡ grabbing i
    → IsValid v
    → IsValid (grab v t i)
unfolding grab
grab-IsValid v t i lt e inv = found (v.context i).registered refl
  where
    s : SoundAt v i
    s = inv i

    found :
        (b : Bool)
        → (v.context i).registered ≡ b
        → IsValid (
            if b
            then go (put v i (grabbed (v.context i))) t (first i) []
            else go v t (dropping i) [])
    found true p =
        let alive = registered_alive s p in
        let (unreleased, none_deletes) = referred s alive (omega (arith, s.counted, ap one p)) in
        framed v t (grabbing i) (first i) [] v.global_queue i (grabbed (v.context i)) lt e inv
          (λ j ne. record {
            hold = omega arith;
            refer = omega (arith, one_ne j i ne);
            delete = omega arith;
          })
          (λ k' r' d' a b c. record {
            given = s.given;
            dead = λ q. absurd (cc (alive, q));
            owned = λ q. omega (arith, s.owned q, a);
            counted = omega (arith, s.counted, b, one_same i i refl);
            ended = λ q. ground (arith, c, none_deletes, ap one unreleased);
            idle = s.idle;
          })
    found false p =
        moved v t (grabbing i) (dropping i) [] v.global_queue lt e inv
          (λ j. record { hold = omega arith; refer = omega arith; delete = omega arith })

pub context_push-IsValid :
    (v : Node) (i : ℕ) (m : Message) → IsValid v → IsValid (context_push v i m)
unfolding context_push
context_push-IsValid v i m inv = found (v.context i).registered refl
  where
    s : SoundAt v i
    s = inv i

    found :
        (b : Bool)
        → (v.context i).registered ≡ b
        → IsValid (
            if b
            then (record (put v i (grabbed (v.context i))) {
              threads = v.threads ++ delivering i m ∷ [];
            })
            else v)
    found true p =
        let alive = registered_alive s p in
        let (unreleased, none_deletes) = referred s alive (omega (arith, s.counted, ap one p)) in
        spawned v (delivering i m) i (grabbed (v.context i)) inv
          (λ j ne. (refl, one_ne j i ne, refl))
          (λ k' r' d' a b c. record {
            given = s.given;
            dead = λ q. absurd (cc (alive, q));
            owned = λ q. omega (arith, s.owned q, a);
            counted = omega (arith, s.counted, b, one_same i i refl);
            ended = λ q. ground (arith, c, none_deletes, ap one unreleased);
            idle = s.idle;
          })
    found false p = inv

pub retire-IsValid : (v : Node) (i : ℕ) → IsValid v → IsValid (retire v i)
unfolding retire
retire-IsValid v i inv = found (v.context i).registered refl
  where
    s : SoundAt v i
    s = inv i

    found :
        (b : Bool)
        → (v.context i).registered ≡ b
        → IsValid (
            if b
            then (record (put v i (record (v.context i) { registered = false })) {
              threads = v.threads ++ letting i ∷ [];
            })
            else v)
    found true p =
        let alive = registered_alive s p in
        spawned v (letting i) i (record (v.context i) { registered = false }) inv
          (λ j ne. (refl, one_ne j i ne, refl))
          (λ k' r' d' a b c. record {
            given = s.given;
            dead = λ q. absurd (cc (alive, q));
            owned = λ q. omega (arith, s.owned q, a);
            counted = omega (arith, s.counted, b, ap one p, one_same i i refl);
            ended = λ q. omega (arith, s.ended q, c);
            idle = s.idle;
          })
    found false p = inv

pub launch-IsValid : (v : Node) → IsValid v → IsValid (launch v)
unfolding launch
launch-IsValid v inv i =
    assigned v.context v.total i created
      (λ c.
        Sound i (suc v.total) c
          (queued i v.global_queue + total_of (holds i) (v.threads ++ making v.total ∷ []))
          (total_of (refers i) (v.threads ++ making v.total ∷ []))
          (total_of (deletes i) (v.threads ++ making v.total ∷ [])))
      (λ p.
        let unborn : (v.context i).alive ≡ false = elim (Bool-cases (v.context i).alive) [
          | inl a ↦ absurd (omega (arith, s.given a, p))
          | inr a ↦ a
        ] in
        let one_here = one_same i v.total p in
        record {
          given = λ q. omega (arith, p);
          dead = λ q. absurd (cc q);
          owned = λ q. omega (arith, s.dead unborn, hold, one_here);
          counted = omega (arith, s.dead unborn, refer, one_here);
          ended = λ q. ground (arith, s.dead unborn, delete);
          idle = λ q. refl;
        })
      (λ n.
        let grown : Sound i (suc v.total) (v.context i)
            (queued i v.global_queue + total_of (holds i) v.threads) (total_of (refers i) v.threads)
            (total_of (deletes i) v.threads) =
          record {
            given = λ q. omega (arith, s.given q);
            dead = s.dead;
            owned = s.owned;
            counted = s.counted;
            ended = s.ended;
            idle = s.idle;
          } in
        recount (omega (arith, hold, one_ne i v.total n)) (omega (arith, refer, one_ne i v.total n))
          (omega (arith, delete)) grown)
  where
    s : SoundAt v i
    s = inv i

    created : Context
    created = record no_context { registered = true; ref = 2; alive = true; in_global = true }

    hold :
        total_of (holds i) (v.threads ++ making v.total ∷ [])
        ≡ total_of (holds i) v.threads + (one (v.total == i) + 0)
    hold = total_of-append (holds i) v.threads (making v.total ∷ [])

    refer :
        total_of (refers i) (v.threads ++ making v.total ∷ [])
        ≡ total_of (refers i) v.threads + (one (v.total == i) + 0)
    refer = total_of-append (refers i) v.threads (making v.total ∷ [])

    delete :
        total_of (deletes i) (v.threads ++ making v.total ∷ []) ≡ total_of (deletes i) v.threads + 0
    delete = total_of-append (deletes i) v.threads (making v.total ∷ [])
