-- ===== src/Skynet/Netpack/Steps.antt =====
-- What a step of the filter promises, and the steps that save an unfinished packet or add a whole one.
use game_server_development.Prelude.{
  ℕ, ◌/◌, ◌%◌, ◌≤◌, ◌<◌, ◌≡◌, ◌≢◌, refl, sym, ap, ap₂, ◌∙◌, subst, List, [], ◌∷◌, ◌++◌, map,
  append_assoc, arith, length, take, drop, take-drop, ℕ_discrete, length-take,
}
use game_server_development.Skynet.Netpack.{
  Netpack, netpack, Uncomplete, Queue, hash_fd, find_uncomplete, push_data, save_uncomplete,
  read_size, Answer, nothing, more, data_of,
}
use game_server_development.Skynet.Netpack.Ring.{IsRing, contents, push_data-Pushed}
use game_server_development.Skynet.Netpack.Chains.{
  IsTable, entries, search_in, waits, none_of, find_uncomplete_lem, save_uncomplete_lem,
}
use game_server_development.Skynet.Netpack.Packets.{
  frame, stream, taken_of, taken_in, taken, Partial, read_size_lem,
}

-- The ring and the table are sound, and nothing that waits is a whole packet.
pub record IsQueue (q : Queue) : Type 0 where
  pub ring : IsRing q
  pub table : IsTable q
  pub parts : (fd : ℕ) → Partial (taken q fd)

-- The packet that an answer carries itself.
abbrev pub given : Answer → List Netpack
given nothing = []
given more = []
given (data_of p) = p ∷ []

-- The packets `xss` are what the bytes complete: they are in the answer or at the ring's end, and the
-- bytes behind the last of them wait. Nothing changes for the other descriptors.
abbrev pub Delivers : Queue → ℕ → List ℕ → Answer × Queue → List (List ℕ) → Type 0
Delivers q fd bytes r xss =
    (bytes ≡ stream xss ++ taken r.1 fd)
    × (contents q ++ map (netpack fd) xss ≡ contents r.1 ++ given r.0)

abbrev pub Same : Queue → ℕ → Queue → Type 0
Same q fd r = (other : ℕ) → fd ≢ other → waits r other ≡ waits q other

-- Only where the answer says `more` has the ring changed.
abbrev pub Still : Queue → Answer → Queue → Type 0
Still q more r = Unit
Still q nothing r = contents r ≡ contents q
Still q (data_of p) r = contents r ≡ contents q

still : (q : Queue) (a : Answer) (r : Queue) → contents r ≡ contents q → Still q a r
still q more r e = tt
still q nothing r e = e
still q (data_of p) r e = e

pub record Fed (q : Queue) (fd : ℕ) (bytes : List ℕ) (r : Answer × Queue) : Type 0 where
  pub queue : IsQueue r.1
  pub others : Same q fd r.1
  pub ring_still : Still q r.0 r.1
  pub packets : List (List ℕ)
  pub delivered : Delivers q fd bytes r packets

-- A queue in which nothing waits for the descriptor.
abbrev pub Free : Queue → ℕ → Type 0
Free q fd = IsQueue q × (entries fd (q.hash (hash_fd fd)) ≡ 0)

-- Taking out what waits for the descriptor makes room for it.
pub found-Free : (q : Queue) (fd : ℕ) → IsQueue q → Free (find_uncomplete q fd).1 fd
unfolding find_uncomplete
found-Free q fd v =
    let (found, t, none_left, same, gone) = find_uncomplete_lem q fd v.table in
    (
      record {
        ring = record {
          storage = v.ring.storage;
          head_in = v.ring.head_in;
          tail_in = v.ring.tail_in;
        };
        table = t;
        parts = λ other. elim (ℕ_discrete fd other) [
          | yes d ↦
              subst (λ o. Partial (taken (find_uncomplete q fd).1 o)) d
                (subst (λ w. Partial (taken_in w)) (sym none_left) tt)
          | no n ↦ subst (λ w. Partial (taken_in w)) (sym (same other n)) (v.parts other)
        ];
      },
      gone,
    )

pub found-Fed :
    (q : Queue) (fd : ℕ) (bytes : List ℕ) (r : Answer × Queue)
    → IsQueue q
    → Fed (find_uncomplete q fd).1 fd bytes r
    → Fed q fd bytes r
unfolding find_uncomplete
found-Fed q fd bytes r v s =
    let (found, t, none_left, same, gone) = find_uncomplete_lem q fd v.table in
    record {
      queue = s.queue;
      others = λ other n. s.others other n ∙ same other n;
      ring_still = s.ring_still;
      packets = s.packets;
      delivered = s.delivered;
    }

pub Free-taken : (q : Queue) (fd : ℕ) → Free q fd → taken q fd ≡ []
Free-taken q fd f = ap taken_in (none_of (q.hash (hash_fd fd)) fd f.1)

pub idle-Fed : (q : Queue) (fd : ℕ) → Free q fd → Fed q fd [] (more, q)
idle-Fed q fd f = record {
  queue = f.0;
  others = λ other n. refl;
  ring_still = tt;
  packets = [];
  delivered = (sym (Free-taken q fd f), refl);
}

pub saved-Fed :
    (q : Queue) (uc : Uncomplete) (a : Answer)
    → Free q uc.id
    → Partial (taken_of uc)
    → given a ≡ []
    → Fed q uc.id (taken_of uc) (a, save_uncomplete q uc)
unfolding save_uncomplete
saved-Fed q uc a f p e =
    let (t, w, same) = save_uncomplete_lem q uc f.0.table f.1 in
    record {
      queue = record {
        ring = record {
          storage = f.0.ring.storage;
          head_in = f.0.ring.head_in;
          tail_in = f.0.ring.tail_in;
        };
        table = t;
        parts = λ other. elim (ℕ_discrete uc.id other) [
          | yes d ↦
              subst (λ o. Partial (taken (save_uncomplete q uc) o)) d
                (subst (λ o. Partial (taken_in o)) (sym w) p)
          | no n ↦ subst (λ o. Partial (taken_in o)) (sym (same other n)) (f.0.parts other)
        ];
      };
      others = same;
      ring_still = still q a (save_uncomplete q uc) refl;
      packets = [];
      delivered = (sym (ap taken_in w), ap (λ t. contents q ++ t) (sym e));
    }

-- A queue with the same table.
pub same_hash-IsQueue : (q r : Queue) → IsQueue q → IsRing r → r.hash ≡ q.hash → IsQueue r
same_hash-IsQueue q r v ring h = record {
  ring = ring;
  table = subst (λ hash. (o : ℕ) → entries o (hash (hash_fd o)) ≤ 1) (sym h) v.table;
  parts =
      λ o. subst (λ hash. Partial (taken_in (search_in (hash (hash_fd o)) o))) (sym h) (v.parts o);
}

pub pushed-Free : (q : Queue) (fd : ℕ) (p : Netpack) → Free q fd → Free (push_data q p) fd
pushed-Free q fd p f =
    let (r, c, h) = push_data-Pushed q p f.0.ring in
    (same_hash-IsQueue q (push_data q p) f.0 r h, ap (λ k. entries fd (k (hash_fd fd))) h ∙ f.1)

-- The packet that was pushed comes before what follows it.
pub pushed-Fed :
    (q q' : Queue) (fd : ℕ) (xs rest : List ℕ)
    → Free q fd
    → Fed (push_data q (netpack fd xs)) fd rest (more, q')
    → Fed q fd (frame xs ++ rest) (more, q')
pushed-Fed q q' fd xs rest f r =
    let (v, c, h) = push_data-Pushed q (netpack fd xs) f.0.ring in
    record {
      queue = r.queue;
      others = λ o n. r.others o n ∙ ap (λ k. search_in (k (hash_fd o)) o) h;
      ring_still = tt;
      packets = xs ∷ r.packets;
      delivered = (
        ap (λ t. frame xs ++ t) r.delivered.0
            ∙ sym (append_assoc (frame xs) (stream r.packets) (taken q' fd)),
        sym (append_assoc (contents q) (netpack fd xs ∷ []) (map (netpack fd) r.packets))
            ∙ ap (λ t. t ++ map (netpack fd) r.packets) (sym c)
            ∙ r.delivered.1,
      );
    }

-- The two bytes of a size that was read.
pub read_size-bytes :
    (a b : ℕ) (bytes : List ℕ)
    → b < 256
    → read_size a b / 256 ∷ read_size a b % 256 ∷ bytes ≡ a ∷ b ∷ bytes
read_size-bytes a b bytes h =
    ap₂ (λ s t. s ∷ t ∷ bytes) (omega (arith, read_size_lem a b h))
      (omega (arith, read_size_lem a b h))

-- The packet at the front, with its size.
pub frame-take :
    (a b : ℕ) (bytes : List ℕ)
    → b < 256
    → read_size a b ≤ length bytes
    → frame (take (read_size a b) bytes) ++ drop (read_size a b) bytes ≡ a ∷ b ∷ bytes
frame-take a b bytes h le =
    let n = read_size a b in
    ap (λ k. k / 256 ∷ k % 256 ∷ take n bytes ++ drop n bytes) (length-take n bytes le)
    ∙ ap (λ t. n / 256 ∷ n % 256 ∷ t) (take-drop n bytes)
    ∙ read_size-bytes a b bytes h
