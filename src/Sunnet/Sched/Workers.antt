-- ===== src/Sunnet/Sched/Workers.antt =====
-- What a worker does keeps every service owned as `Owned` says.
use game_server_development.Prelude.{
  List-cases, ℕ, zero, suc, ◌+◌, ◌≡◌, ◌≢◌, ◌<◌, refl, sym, ap, subst, List, [], ◌∷◌, ◌++◌, Bool,
  true, false, ◌==◌, if◌then◌else◌, length, get_or, set, arith, ==_iff, ℕ_discrete, inl, inr,
}
use game_server_development.Sunnet.Sched.{
  Server, Worker, popping, found_none, sleeping, processing, putting, assign, has_sender,
  worker_pop, process_msg, check_and_put_global, work, each_num,
}
use game_server_development.Sunnet.Sched.Count.{one, queued, holds, held, queued-append}
use game_server_development.Sunnet.Sched.Owner.{
  Owned, OwnedAt, IsValid, recount, at_assign, same_service, one-le, worker_set,
}

pop-IsValid :
    (v : Server) (w : ℕ)
    → w < length v.workers
    → get_or v.workers w sleeping ≡ popping
    → IsValid v
    → IsValid (worker_pop v w)
unfolding worker_pop
pop-IsValid v w lt e inv i = elim (List-cases v.global_queue) [
  | inl q ↦
      subst (λ u. OwnedAt u i) (sym (pop_none q))
        (recount (omega (arith, worker_set v w i found_none popping lt e)) (inv i))
  | inr (j, rest, q) ↦
      subst (λ u. OwnedAt u i) (sym (pop_some j rest q))
        (recount
          (omega
            (arith, ap (queued i) q, worker_set v w i (processing j (each_num w)) popping lt e))
          (inv i))
]
  where
    pop_none :
        v.global_queue ≡ [] → worker_pop v w ≡ record v { workers = set v.workers w found_none }
    pop_none q =
        rw (q, worker_pop)
          (ap (λ z. record v { workers = set v.workers w found_none; global_queue = z }) q)

    pop_some :
        (j : ℕ) (rest : List ℕ)
        → v.global_queue ≡ j ∷ rest
        → worker_pop v w
          ≡ record v { workers = set v.workers w (processing j (each_num w)); global_queue = rest }
    pop_some j rest q = rw (q, worker_pop)

sleep-IsValid :
    (v : Server) (w : ℕ) (x y : Worker)
    → ((i : ℕ) → holds i x ≡ holds i y)
    → w < length v.workers
    → get_or v.workers w sleeping ≡ x
    → IsValid v
    → IsValid (record v { workers = set v.workers w y })
sleep-IsValid v w x y same lt e inv i =
    recount (omega (arith, worker_set v w i y x lt e, same i)) (inv i)

process-IsValid :
    (v : Server) (w j n : ℕ)
    → w < length v.workers
    → get_or v.workers w sleeping ≡ processing j (suc n)
    → IsValid v
    → IsValid (process_msg v w j n)
unfolding process_msg
process-IsValid v w j n lt e inv i = processed (v.service j).msg_queue refl
  where
    kept :
        (x : Worker)
        → holds i x ≡ one (j == i)
        → queued i v.global_queue + held i v.workers
          ≡ queued i v.global_queue + held i (set v.workers w x)
    kept x h = omega (arith, worker_set v w i x (processing j (suc n)) lt e, h)

    processed :
        (ms : List ℕ)
        → (v.service j).msg_queue ≡ ms
        → OwnedAt
            (elim ms [
              | [] ↦ record v { workers = set v.workers w (putting j) }
              | m ∷ ms ↦ record v {
                service = assign v.service j (record (v.service j) { msg_queue = ms });
                workers = set v.workers w (processing j n);
                delivered = assign v.delivered j (v.delivered j ++ m ∷ []);
              }
            ])
            i
    processed [] q = recount (kept (putting j) refl) (inv i)
    processed (m ∷ ms) q =
        recount (kept (processing j n) refl)
          (at_assign v.service j i (record (v.service j) { msg_queue = ms }) shorter (λ ne. inv i))
      where
        shorter :
            j ≡ i
            → Owned
                (queued i v.global_queue + held i v.workers)
                (record (v.service j) { msg_queue = ms })
                (has_sender i v.senders)
        shorter p =
            let o : Owned (queued i v.global_queue + held i v.workers) (v.service j)
                (has_sender i v.senders) =
              same_service v i j p inv in
            record {
              at_most = o.at_most;
              live = o.live;
              idle = λ x g s. absurd (cc (q, o.idle x g s));
            }

put-IsValid :
    (v : Server) (w j : ℕ)
    → w < length v.workers
    → get_or v.workers w sleeping ≡ putting j
    → IsValid v
    → IsValid (check_and_put_global v w j)
unfolding check_and_put_global
put-IsValid v w j lt e inv i = put (v.service j).is_exit (v.service j).msg_queue refl refl
  where
    freed :
        queued i v.global_queue + held i (set v.workers w popping) + one (j == i)
        ≡ queued i v.global_queue + held i v.workers
    freed = omega (arith, worker_set v w i popping (putting j) lt e)

    has : j ≡ i → one (j == i) ≡ 1
    has p = ap one ((==_iff j i).1 p)

    lacks : j ≢ i → one (j == i) ≡ 0
    lacks n = ground arith

    put :
        (x : Bool) (ms : List ℕ)
        → (v.service j).is_exit ≡ x
        → (v.service j).msg_queue ≡ ms
        → OwnedAt
            (let v' : Server = record v { workers = set v.workers w popping } in
              if x then v' else elim ms [
                | [] ↦ record v' {
                  service = assign v.service j (record (v.service j) { in_global = false });
                }
                | m ∷ ms ↦ record v' { global_queue = v.global_queue ++ j ∷ [] }
              ])
            i
    put true ms ex eq = record {
      at_most = omega (arith, freed, (inv i).at_most);
      live = λ a. elim (ℕ_discrete j i) [
        | yes p ↦ absurd (cc (ex, a, p))
        | no n ↦ omega (arith, freed, lacks n, (inv i).live a)
      ];
      idle = (inv i).idle;
    }
    put false [] ex eq =
        at_assign v.service j i (record (v.service j) { in_global = false })
          (λ p. record {
            at_most = omega (arith, freed, has p, (inv i).at_most, one-le (v.service i).in_global);
            live = λ a. omega arith;
            idle = λ a b c. eq;
          })
          (λ n. recount (omega (arith, freed, lacks n)) (inv i))
    put false (m ∷ ms) ex eq =
        recount (omega (arith, freed, queued-append i v.global_queue (j ∷ []))) (inv i)

pub work-IsValid :
    (v : Server) (w : ℕ) (x : Worker)
    → w < length v.workers
    → get_or v.workers w sleeping ≡ x
    → IsValid v
    → IsValid (work v w x)
unfolding work
work-IsValid v w popping lt e inv = pop-IsValid v w lt e inv
work-IsValid v w found_none lt e inv = sleep-IsValid v w found_none sleeping (λ i. refl) lt e inv
work-IsValid v w sleeping lt e inv = inv
work-IsValid v w (processing j zero) lt e inv =
    sleep-IsValid v w (processing j 0) (putting j) (λ i. refl) lt e inv
work-IsValid v w (processing j (suc n)) lt e inv = process-IsValid v w j n lt e inv
work-IsValid v w (putting j) lt e inv = put-IsValid v w j lt e inv
