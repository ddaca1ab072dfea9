-- ===== src/Skynet/Hashid.antt =====
-- 02_skynet/lib/skynet/service-src/hashid.h: a hash table from socket ids to slots of an array. A chain
-- is a list of slots here, where the code links the nodes of the slots.
pub mod Chains
pub mod Map
mod Tests
use game_server_development.Prelude.{
  ℕ, zero, suc, ◌+◌, ◌-◌, ◌*◌, ◌%◌, ◌^◌, leb, bit_and, List, [], ◌∷◌, Bool, true, false, ltb, ◌==◌,
  if◌then◌else◌, Option, none, some, ◌>>=◌, get_or, set, replicate, length,
}

-- `struct hashid`: the ids of the slots, none for -1, and the chains of slots.
pub record Hashid : Type 0 where
  pub hashmod : ℕ
  pub cap : ℕ
  pub count : ℕ
  pub ids : List (Option ℕ)
  pub hash : List (List ℕ)

-- The loop of `hashid_init`; the first number is fuel.
unfoldable pub hash_cap : ℕ → ℕ → ℕ → ℕ
hash_cap zero cap max = cap
hash_cap (suc fuel) cap max =
    let rest = hash_cap fuel (cap * 2) max in if ltb cap max then rest else cap

-- `hashid_init`
unfoldable pub init : ℕ → Hashid
init max =
    let n : ℕ = hash_cap max 16 max in
    record {
      hashmod = n - 1;
      cap = max;
      count = 0;
      ids = replicate max none;
      hash = replicate n [];
    }

unfoldable pub is_id : Option ℕ → ℕ → Bool
is_id none id = false
is_id (some x) id = x == id

-- The walk of `hashid_lookup` along a chain.
unfoldable pub find_in : List (Option ℕ) → List ℕ → ℕ → Option ℕ
find_in ids [] id = none
find_in ids (c ∷ cs) id =
    let rest = find_in ids cs id in if is_id (get_or ids c none) id then some c else rest

-- `hashid_lookup`, none for -1.
unfoldable pub lookup : Hashid → ℕ → Option ℕ
lookup hi id = find_in hi.ids (get_or hi.hash (bit_and id hi.hashmod) []) id

-- The unlinking in `hashid_remove`: the first slot that has the id leaves the chain.
pub unlink : List (Option ℕ) → List ℕ → ℕ → List ℕ
unlink ids [] id = []
unlink ids (c ∷ cs) id =
    let rest = unlink ids cs id in if is_id (get_or ids c none) id then cs else c ∷ rest

-- `hashid_remove`
pub remove : Hashid → ℕ → Option ℕ × Hashid
remove hi id =
    let h : ℕ = bit_and id hi.hashmod in
    let chain : List ℕ = get_or hi.hash h [] in
    elim (find_in hi.ids chain id) [
      | none ↦ (none, hi)
      | some c ↦ (
        some c,
        record hi {
          count = hi.count - 1;
          ids = set hi.ids c none;
          hash = set hi.hash h (unlink hi.ids chain id);
        },
      )
    ]

unfoldable pub is_free : Option ℕ → Bool
is_free none = true
is_free (some x) = false

-- The search of `hashid_insert` for a free slot, with `n` rounds left from round `i`; none is that there
-- is none, or a sum of `i` and the id that leaves the range of an int.
unfoldable pub free_slot : List (Option ℕ) → ℕ → ℕ → ℕ → ℕ → Option ℕ
free_slot ids cap id zero i = none
free_slot ids cap id (suc n) i =
    let rest = free_slot ids cap id n (i + 1) in
    let index : ℕ = (i + id) % cap in
    if leb (2 ^ 31) (i + id)
    then none
    else if is_free (get_or ids index none)
    then some index
    else rest

-- `hashid_insert`: none if its assertion fails, that is without a free slot, or if an index overflows.
unfoldable pub insert : Hashid → ℕ → Option (ℕ × Hashid)
insert hi id =
    let h : ℕ = bit_and id hi.hashmod in
    free_slot hi.ids hi.cap id hi.cap 0 >>= λ c. some (
      c,
      record hi {
        count = hi.count + 1;
        ids = set hi.ids c (some id);
        hash = set hi.hash h (c ∷ get_or hi.hash h []);
      },
    )

-- `hashid_full`
unfoldable pub full : Hashid → Bool
full hi = hi.count == hi.cap
