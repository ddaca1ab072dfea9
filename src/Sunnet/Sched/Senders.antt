-- ===== src/Sunnet/Sched/Senders.antt =====
-- What senders do, and the end of a service, keep every service owned.
use game_server_development.Prelude.{
  ℕ, zero, suc, ◌+◌, ◌-◌, ◌≡◌, ◌≢◌, ◌≤◌, refl, sym, ap, subst, [], ◌∷◌, ◌++◌, Bool, true, false,
  leb, ◌==◌, if◌then◌else◌, Option, none, some, length, arith, ==_iff, ℕ_discrete,
}
use game_server_development.Sunnet.Sched.{
  Service, Server, assign, push_msg, send_push, check_and_weak_up, drop_sender, has_sender,
  push_global, send_flag, send_wake, kill, sleep_count, wake_one,
}
use game_server_development.Sunnet.Sched.Count.{one, queued, held, queued-append, held-wake_one}
use game_server_development.Sunnet.Sched.Owner.{
  Owned, OwnedAt, IsValid, recount, at_assign, has_sender-drop_ne, same_service, has_sender_self,
  has_sender_ne,
}

pub push-IsValid : (v : Server) (id m : ℕ) → IsValid v → IsValid (send_push v id m)
unfolding send_push push_msg
push-IsValid v id m inv i = pushed (v.services id)
  where
    sent_to : ℕ → Service
    sent_to j = push_msg (v.service j) m

    pushed :
        (o : Option ℕ)
        → OwnedAt
            (elim o [
              | none ↦ v
              | some j ↦ record v {
                service = assign v.service j (push_msg (v.service j) m);
                senders = j ∷ v.senders;
              }
            ])
            i
    pushed none = inv i
    pushed (some j) =
        at_assign v.service j i (push_msg (v.service j) m)
          (λ p. record {
            at_most = (same_service v i j p inv).at_most;
            live = (same_service v i j p inv).live;
            idle = λ a b c. absurd (cc (c, has_sender_self i j v.senders p));
          })
          (λ n.
            subst (λ b. Owned (queued i v.global_queue + held i v.workers) (v.service i) b)
              (sym (has_sender_ne i j v.senders n)) (inv i))

weak_up-IsValid : (v : Server) → IsValid v → IsValid (check_and_weak_up v)
unfolding check_and_weak_up
weak_up-IsValid v inv i =
    woken (sleep_count v.workers == 0)
      (leb (length v.workers - sleep_count v.workers) (length v.global_queue))
  where
    woken :
        (a b : Bool)
        → OwnedAt (if a then v else if b then record v { workers = wake_one v.workers } else v) i
    woken true b = inv i
    woken false true = recount (omega (arith, held-wake_one i v.workers)) (inv i)
    woken false false = inv i

pub wake-IsValid : (v : Server) → IsValid v → IsValid (send_wake v)
unfolding send_wake
wake-IsValid v inv = woken v.wakers
  where
    woken :
        (n : ℕ)
        → IsValid (elim n [ zero ↦ v | suc n ↦ check_and_weak_up (record v { wakers = n }) ])
    woken zero = inv
    woken (suc n) = weak_up-IsValid (record v { wakers = n }) inv

pub kill-IsValid : (v : Server) (id : ℕ) → IsValid v → IsValid (kill v id)
unfolding kill
kill-IsValid v id inv i = killed (v.services id)
  where
    killed :
        (o : Option ℕ)
        → OwnedAt
            (elim o [
              | none ↦ v
              | some j ↦ record v {
                services = assign v.services id none;
                service = assign v.service j (record (v.service j) { is_exit = true });
              }
            ])
            i
    killed none = inv i
    killed (some j) =
        at_assign v.service j i (record (v.service j) { is_exit = true })
          (λ p. record {
            at_most = (same_service v i j p inv).at_most;
            live = λ a. absurd (cc a);
            idle = λ a b c. absurd (cc a);
          })
          (λ n. inv i)

-- A sender that finds the flag up leaves the service to its owner.
skip-IsValid :
    (v : Server) (j : ℕ)
    → (v.service j).in_global ≡ true
    → IsValid v
    → IsValid (record v { senders = drop_sender j v.senders })
skip-IsValid v j g inv i = elim (ℕ_discrete j i) [
  | yes p ↦ record {
    at_most = (inv i).at_most;
    live = (inv i).live;
    idle = λ a b c. absurd (cc (g, b, p));
  }
  | no n ↦
      subst (λ b. Owned (queued i v.global_queue + held i v.workers) (v.service i) b)
        (sym (has_sender-drop_ne i j v.senders n)) (inv i)
]

-- A sender that finds it down puts the service in the global queue, where it was not.
flag_up-IsValid :
    (v : Server) (j n : ℕ)
    → (v.service j).in_global ≡ false
    → IsValid v
    → IsValid (push_global (record v { senders = drop_sender j v.senders; wakers = n }) j)
unfolding push_global
flag_up-IsValid v j n g inv i =
    at_assign v.service j i (record (v.service j) { in_global = true })
      (λ p. record {
        at_most = omega (arith, added, has p, none_before p);
        live = λ a. omega (arith, added, has p);
        idle = λ a b c. absurd (cc b);
      })
      (λ ne. recount (omega (arith, added, lacks ne)) (
        subst (λ b. Owned (queued i v.global_queue + held i v.workers) (v.service i) b)
          (sym (has_sender-drop_ne i j v.senders ne)) (inv i)))
  where
    added : queued i (v.global_queue ++ j ∷ []) ≡ queued i v.global_queue + (one (j == i) + 0)
    added = queued-append i v.global_queue (j ∷ [])

    has : j ≡ i → one (j == i) ≡ 1
    has p = ap one ((==_iff j i).1 p)

    lacks : j ≢ i → one (j == i) ≡ 0
    lacks ne = ground arith

    none_before : j ≡ i → queued i v.global_queue + held i v.workers ≤ 0
    none_before p =
        subst (λ b. queued i v.global_queue + held i v.workers ≤ one b) g
          (same_service v i j p inv).at_most

pub flag-IsValid : (v : Server) (j : ℕ) → IsValid v → IsValid (send_flag v j)
unfolding send_flag
flag-IsValid v j inv = flagged (has_sender j v.senders) (v.service j).in_global refl
  where
    flagged :
        (a b : Bool)
        → (v.service j).in_global ≡ b
        → IsValid (
            let v' : Server = record v { senders = drop_sender j v.senders } in
            if a
            then (if b then v' else push_global (record v' { wakers = suc v.wakers }) j)
            else v)
    flagged false b g = inv
    flagged true true g = skip-IsValid v j g inv
    flagged true false g = flag_up-IsValid v j (suc v.wakers) g inv
