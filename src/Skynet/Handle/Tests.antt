-- ===== src/Skynet/Handle/Tests.antt =====
-- Runs of the handle table on concrete inputs.
use game_server_development.Prelude.{
  ℕ, suc, ◌+◌, ◌-◌, ◌≢◌, zero, ◌≡◌, refl, [], ◌∷◌, Bool, true, none, some, arith, leb,
  if◌then◌else◌, get_or,
}
use game_server_development.Skynet.Handle.{
  Storage, HandleName, hash, find, retire, retire_all, register, scan, grow, rehash, rehash_one,
  place, strcmp, search_names, find_name, insert_at, insert_name_before, name_handle,
}
use game_server_development.Skynet.Handle.Slots.{IsValid, Absent}
use game_server_development.Skynet.Handle.Grow.{Grown, grow-Grown}
use game_server_development.Skynet.Handle.Register.{Registered, register-Registered}
use game_server_development.Skynet.Handle.RetireAll.{retire_all_lem}
use game_server_development.Skynet.Handle.Names.{IsSorted}
use game_server_development.Skynet.Handle.Naming.{
  Entered, lookup, find_name-lookup, name_handle_lem,
}

-- Contexts 10 to 14 have handles 1 to 5 of node 1.
abbrev handles : ℕ → ℕ
handles c = if leb c 14 then c + 0x1000000 - 9 else 1

abbrev full : Storage
full = record {
  harbor = 0x1000000;
  handle_index = 5;
  slot_size = 4;
  slot = some 13 ∷ some 10 ∷ some 11 ∷ some 12 ∷ [];
  name_cap = 2;
  names = [];
}

-- A fifth context makes the table double.
register_grows :
    register 2 handles full 14
    ≡ some (
      record full {
        handle_index = 6;
        slot_size = 8;
        slot = none ∷ some 10 ∷ some 11 ∷ some 12 ∷ some 13 ∷ some 14 ∷ none ∷ none ∷ [];
      },
      0x1000005,
    )
unfolding register scan grow rehash rehash_one place
register_grows = refl

retire_second : (retire handles full 0x1000002).1 ≡ some 11
unfolding retire find
retire_second = refl

-- The context of a slot, once it is known.
held :
    (k i c : ℕ)
    → some k ≡ some c
    → (hash (handles k) 4 ≡ i) × (handles k ≢ 0)
    → (hash (handles c) 4 ≡ i) × (handles c ≢ 0)
held k i c e p = let same : c ≡ k = cc in rw same p

full-IsValid : IsValid handles full
full-IsValid = record {
  level = 2;
  short = omega arith;
  size = refl;
  room = refl;
  index = omega arith;
  started = omega arith;
  node = 1;
  remote = refl;
  placed = placed;
}
  where
    placed :
        (i c : ℕ) → get_or full.slot i none ≡ some c → (hash (handles c) 4 ≡ i) × (handles c ≢ 0)
    placed zero c e = held 13 0 c e (refl, omega arith)
    placed (suc zero) c e = held 10 1 c e (refl, omega arith)
    placed (suc (suc zero)) c e = held 11 2 c e (refl, omega arith)
    placed (suc (suc (suc zero))) c e = held 12 3 c e (refl, omega arith)
    placed (suc (suc (suc (suc i)))) c e = cc

no_context_14 : Absent 14 full.slot
no_context_14 zero e = ground arith
no_context_14 (suc zero) e = ground arith
no_context_14 (suc (suc zero)) e = ground arith
no_context_14 (suc (suc (suc zero))) e = ground arith
no_context_14 (suc (suc (suc (suc i)))) e = cc

grow-Grown_example : (s' : Storage) × (grow handles full ≡ some s') × Grown handles full s'
grow-Grown_example = grow-Grown full-IsValid (omega arith)

register-Registered_example :
    (s' : Storage) × (handle : ℕ) × (register 2 handles full 14 ≡ some (s', handle))
    × Registered handles full 14 s' handle
register-Registered_example =
    register-Registered 14 full-IsValid no_context_14 (omega arith) (omega arith)

abbrev entry : ℕ → ℕ → HandleName
entry c h = record { name = c ∷ []; handle = h }

abbrev named : Storage
named = record full { names = entry 97 1 ∷ entry 99 2 ∷ [] }

named-IsSorted : IsSorted named.names
unfolding strcmp
named-IsSorted zero zero p q = absurd (omega arith)
named-IsSorted zero (suc zero) p q = refl
named-IsSorted zero (suc (suc j)) p q = absurd (omega arith)
named-IsSorted (suc i) zero p q = absurd (omega arith)
named-IsSorted (suc i) (suc zero) p q = absurd (omega arith)
named-IsSorted (suc i) (suc (suc j)) p q = absurd (omega arith)

insert_between :
    name_handle 3 named 5 (98 ∷ [])
    ≡ some (record named { names = entry 97 1 ∷ entry 98 5 ∷ entry 99 2 ∷ []; name_cap = 4 }, true)
unfolding name_handle search_names insert_name_before insert_at strcmp
insert_between = refl

find_name-lookup_example : find_name 3 named (99 ∷ []) ≡ some 2
unfolding lookup strcmp
find_name-lookup_example = find_name-lookup named (99 ∷ []) named-IsSorted

name_handle_lem_example :
    (s' : Storage) × (added : Bool) × (name_handle 3 named 5 (98 ∷ []) ≡ some (s', added))
    × IsSorted s'.names
    × Entered named 5 (98 ∷ []) s' added
name_handle_lem_example = name_handle_lem named 5 (98 ∷ []) named-IsSorted (omega arith)

retire_all_lem_example :
    (s' : Storage) × (retire_all 2 handles full ≡ some s')
    × IsValid handles s'
    × (s'.slot_size ≡ 4)
    × ((i : ℕ) → get_or s'.slot i none ≡ none)
retire_all_lem_example = retire_all_lem full full-IsValid
