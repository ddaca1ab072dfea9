-- ===== src/Skynet/Dispatch/Frame.antt =====
-- A step that changes one context and one thread keeps the others sound.
use game_server_development.Prelude.{
  ℕ, ◌+◌, ◌≡◌, ◌≢◌, ◌<◌, sym, ap, subst, List, [], ◌∷◌, ◌++◌, ◌==◌, if◌then◌else◌, length, get_or,
  set, arith, Bool-cases, ==_iff, inl, inr,
}
use game_server_development.Skynet.Dispatch.{Context, Node, Thread, done, assign}
use game_server_development.Skynet.Dispatch.Count.{
  one, queued, holds, refers, deletes, total_of, total_of-go, total_of-append,
}
use game_server_development.Skynet.Dispatch.Sound.{Sound, IsValid}

pub one_same : (i j : ℕ) → j ≡ i → one (j == i) ≡ 1
one_same i j p = ap one ((==_iff j i).1 p)

pub one_ne : (i j : ℕ) → j ≢ i → one (j == i) ≡ 0
one_ne i j n = ground arith

-- A function that is changed at `j` alone.
pub assigned :
    (f : ℕ → Context) (j i : ℕ) (c : Context) (P : Context → Type 0)
    → (j ≡ i → P c)
    → (j ≢ i → P (f i))
    → P (assign f j c i)
assigned f j i c P same other = elim (Bool-cases (j == i)) [
  | inl h ↦ subst (λ b. P (if b then c else f i)) (sym h) (same ((==_iff j i).0 h))
  | inr h ↦ subst (λ b. P (if b then c else f i)) (sym h) (other (ground (arith, h)))
]

pub recount :
    {i total k r d k' r' d' : ℕ} {c : Context}
    → k ≡ k'
    → r ≡ r'
    → d ≡ d'
    → Sound i total c k r d
    → Sound i total c k' r' d'
recount {i = i} {total = n} {r = r} {d = d} {k' = k'} {r' = r'} {c = c} a b e s =
    subst (λ x. Sound i n c k' r' x) e
      (subst (λ x. Sound i n c k' x d) b (subst (λ x. Sound i n c x r d) a s))

-- The counts `k r d` of thread states and the global queue `g` before and after a step, for context
-- `i`: the thread goes from `x` to `y` and leaves `rest`.
pub record Balanced (i : ℕ) (g : List ℕ) (x : Thread) (g' : List ℕ) (y : Thread)
    (rest : List Thread) : Type 0 where
  pub hold : queued i g' + (holds i y + total_of (holds i) rest) ≡ queued i g + holds i x
  pub refer : refers i y + total_of (refers i) rest ≡ refers i x
  pub delete : deletes i y + total_of (deletes i) rest ≡ deletes i x

-- A context changes by `c`, and the thread's step is balanced for the others.
pub framed :
    (v : Node) (t : ℕ) (x y : Thread) (rest : List Thread) (g : List ℕ) (j : ℕ) (c : Context)
    → t < length v.threads
    → get_or v.threads t done ≡ x
    → IsValid v
    → ((i : ℕ) → j ≢ i → Balanced i v.global_queue x g y rest)
    → ((k r d : ℕ)
        → k + (queued j v.global_queue + holds j x)
          ≡ queued j v.global_queue
            + total_of (holds j) v.threads
            + (queued j g + (holds j y + total_of (holds j) rest))
        → r + refers j x ≡ total_of (refers j) v.threads + (refers j y + total_of (refers j) rest)
        → d + deletes j x
          ≡ total_of (deletes j) v.threads + (deletes j y + total_of (deletes j) rest)
        → Sound j v.total c k r d)
    → IsValid (record v {
      context = assign v.context j c;
      global_queue = g;
      threads = set v.threads t y ++ rest;
    })
framed v t x y rest g j c lt e inv other here i =
    let hold = total_of-go (holds i) v.threads t x y rest lt e in
    let refer = total_of-go (refers i) v.threads t x y rest lt e in
    let delete = total_of-go (deletes i) v.threads t x y rest lt e in
    assigned v.context j i c
      (λ b.
        Sound i v.total b (queued i g + total_of (holds i) (set v.threads t y ++ rest))
          (total_of (refers i) (set v.threads t y ++ rest))
          (total_of (deletes i) (set v.threads t y ++ rest)))
      (λ p.
        subst
          (λ u.
            Sound u v.total c (queued u g + total_of (holds u) (set v.threads t y ++ rest))
              (total_of (refers u) (set v.threads t y ++ rest))
              (total_of (deletes u) (set v.threads t y ++ rest)))
          p
          (here _ _ _ (omega (arith, total_of-go (holds j) v.threads t x y rest lt e))
            (omega (arith, total_of-go (refers j) v.threads t x y rest lt e))
            (omega (arith, total_of-go (deletes j) v.threads t x y rest lt e))))
      (λ n.
        let b = other i n in
        recount (omega (arith, hold, b.hold)) (omega (arith, refer, b.refer))
          (omega (arith, delete, b.delete)) (inv i))

-- A step that changes no context.
pub moved :
    (v : Node) (t : ℕ) (x y : Thread) (rest : List Thread) (g : List ℕ)
    → t < length v.threads
    → get_or v.threads t done ≡ x
    → IsValid v
    → ((i : ℕ) → Balanced i v.global_queue x g y rest)
    → IsValid (record v { global_queue = g; threads = set v.threads t y ++ rest })
moved v t x y rest g lt e inv balanced i =
    let b = balanced i in
    recount (omega (arith, b.hold, total_of-go (holds i) v.threads t x y rest lt e))
      (omega (arith, b.refer, total_of-go (refers i) v.threads t x y rest lt e))
      (omega (arith, b.delete, total_of-go (deletes i) v.threads t x y rest lt e)) (inv i)

-- A context changes by `c`, and there is one thread more.
pub spawned :
    (v : Node) (y : Thread) (j : ℕ) (c : Context)
    → IsValid v
    → ((i : ℕ) → j ≢ i → (holds i y ≡ 0) × (refers i y ≡ 0) × (deletes i y ≡ 0))
    → ((k r d : ℕ)
        → k ≡ queued j v.global_queue + total_of (holds j) v.threads + holds j y
        → r ≡ total_of (refers j) v.threads + refers j y
        → d ≡ total_of (deletes j) v.threads + deletes j y
        → Sound j v.total c k r d)
    → IsValid (record v { context = assign v.context j c; threads = v.threads ++ y ∷ [] })
spawned v y j c inv other here i =
    assigned v.context j i c
      (λ b.
        Sound i v.total b (queued i v.global_queue + total_of (holds i) (v.threads ++ y ∷ []))
          (total_of (refers i) (v.threads ++ y ∷ [])) (total_of (deletes i) (v.threads ++ y ∷ [])))
      (λ p.
        subst
          (λ u.
            Sound u v.total c (queued u v.global_queue + total_of (holds u) (v.threads ++ y ∷ []))
              (total_of (refers u) (v.threads ++ y ∷ []))
              (total_of (deletes u) (v.threads ++ y ∷ [])))
          p
          (here _ _ _ (omega (arith, total_of-append (holds j) v.threads (y ∷ [])))
            (omega (arith, total_of-append (refers j) v.threads (y ∷ [])))
            (omega (arith, total_of-append (deletes j) v.threads (y ∷ [])))))
      (λ n.
        let (a, b, e) = other i n in
        recount (omega (arith, total_of-append (holds i) v.threads (y ∷ []), a))
          (omega (arith, total_of-append (refers i) v.threads (y ∷ []), b))
          (omega (arith, total_of-append (deletes i) v.threads (y ∷ []), e)) (inv i))
