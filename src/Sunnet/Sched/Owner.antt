-- ===== src/Sunnet/Sched/Owner.antt =====
-- Who owns a service: the global queue, one worker, or a sender about to put it there.
use game_server_development.Prelude.{
  ℕ, ◌+◌, ◌≡◌, ◌≢◌, ◌≤◌, ◌<◌, refl, sym, ap, subst, ◌∙◌, List, [], ◌∷◌, Bool, true, false, ◌==◌,
  if◌then◌else◌, length, get_or, set, arith, Bool-cases, ==_iff, inl, inr,
}
use game_server_development.Sunnet.Sched.{
  Service, Server, Worker, sleeping, assign, drop_sender, has_sender,
}
use game_server_development.Sunnet.Sched.Count.{one, queued, holds, held, held-set}

-- A service that stands `k` times in the global queue and in the workers' hands, and that has a sender
-- before the test of `in_global` or not.
pub record Owned (k : ℕ) (s : Service) (has_sender : Bool) : Type 0 where
  pub at_most : k ≤ one s.in_global
  pub live : s.is_exit ≡ false → one s.in_global ≤ k
  pub idle : s.is_exit ≡ false → s.in_global ≡ false → has_sender ≡ false → s.msg_queue ≡ []

abbrev pub OwnedAt : Server → ℕ → Type 0
OwnedAt v i =
    Owned (queued i v.global_queue + held i v.workers) (v.service i) (has_sender i v.senders)

abbrev pub IsValid : Server → Type 0
IsValid v = (i : ℕ) → OwnedAt v i

pub recount : {k k' : ℕ} {s : Service} {b : Bool} → k ≡ k' → Owned k s b → Owned k' s b
recount {s = s} {b = b} e o = subst (λ k. Owned k s b) e o

-- What changes the record of service `j` alone keeps every service owned if it does so for `j`.
pub at_assign :
    {k : ℕ} {b : Bool} (f : ℕ → Service) (j i : ℕ) (s : Service)
    → (j ≡ i → Owned k s b)
    → (j ≢ i → Owned k (f i) b)
    → Owned k (assign f j s i) b
at_assign {k} {b} f j i s same other = elim (Bool-cases (j == i)) [
  | inl h ↦ subst (λ x. Owned k (if x then s else f i) b) (sym h) (same ((==_iff j i).0 h))
  | inr h ↦ subst (λ x. Owned k (if x then s else f i) b) (sym h) (other (ground (arith, h)))
]

pub has_sender-drop_ne :
    (i j : ℕ) (js : List ℕ) → j ≢ i → has_sender i (drop_sender j js) ≡ has_sender i js
unfolding has_sender drop_sender
has_sender-drop_ne i j [] n = refl
has_sender-drop_ne i j (k ∷ js) n = ground (arith, has_sender-drop_ne i j js n)

pub same_service :
    (v : Server) (i j : ℕ)
    → j ≡ i
    → IsValid v
    → Owned (queued i v.global_queue + held i v.workers) (v.service j) (has_sender i v.senders)
same_service v i j p inv =
    subst
      (λ k.
        Owned (queued i v.global_queue + held i v.workers) (v.service k) (has_sender i v.senders))
      (sym p) (inv i)

pub has_sender_self : (i j : ℕ) (js : List ℕ) → j ≡ i → has_sender i (j ∷ js) ≡ true
unfolding has_sender
has_sender_self i j js p = ground arith

pub has_sender_ne : (i j : ℕ) (js : List ℕ) → j ≢ i → has_sender i (j ∷ js) ≡ has_sender i js
unfolding has_sender
has_sender_ne i j js n = ground arith

pub one-le : (b : Bool) → one b ≤ 1
one-le true = omega arith
one-le false = omega arith

pub worker_set :
    (v : Server) (w i : ℕ) (x y : Worker)
    → w < length v.workers
    → get_or v.workers w sleeping ≡ y
    → held i (set v.workers w x) + holds i y ≡ held i v.workers + holds i x
worker_set v w i x y lt e =
    ap (λ z. held i (set v.workers w x) + holds i z) (sym e) ∙ held-set i v.workers w x lt
