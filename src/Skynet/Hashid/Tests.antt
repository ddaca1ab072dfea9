-- ===== src/Skynet/Hashid/Tests.antt =====
-- Runs of the table on concrete inputs.
use game_server_development.Prelude.{ℕ, ◌≡◌, refl, Option, none, some, arith, ◌⊎◌, ◌>>=◌}
use game_server_development.Skynet.Hashid.{
  Hashid, init, hash_cap, insert, free_slot, is_free, lookup, find_in, is_id, remove, unlink,
}
use game_server_development.Skynet.Hashid.Map.{
  IsValid, Inserted, Removed, init-IsValid, insert_lem, remove_lem,
}

abbrev small : Hashid
small = init 4

small-IsValid : IsValid small
small-IsValid = (init-IsValid 4).0

-- Ids 5 and 21 share a chain; 5 leaves again.
abbrev twice : Option (ℕ × ℕ × Hashid)
twice = do a ← insert small 5; b ← insert a.1 21; some (a.0, b.0, b.1)

insert_remove : (twice >>= λ r. lookup (remove r.2 5).1 21) ≡ some 2
unfolding init hash_cap insert free_slot is_free lookup find_in is_id remove unlink
insert_remove = refl

insert_lem_example :
    (c : ℕ) × (hi' : Hashid) × (insert small 5 ≡ some (c, hi')) × Inserted small 5 c hi'
unfolding init
insert_lem_example = insert_lem 5 small-IsValid ((init-IsValid 4).2 5) (omega arith) (omega arith)

remove_lem_example :
    ((lookup small 5 ≡ none) × (remove small 5 ≡ (none, small)))
    ⊎ ((c : ℕ) × (hi' : Hashid) × (lookup small 5 ≡ some c)
        × (remove small 5 ≡ (some c, hi'))
        × Removed small 5 c hi')
remove_lem_example = remove_lem 5 small-IsValid
