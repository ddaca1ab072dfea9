-- ===== src/Skynet/Handle.antt =====
-- 02_skynet/lib/skynet/skynet-src/skynet_handle.c: the table from handles to contexts, and the
-- sorted array of names. The lock makes each operation one step.
pub mod Slots
pub mod Grow
pub mod Scan
pub mod Register
mod Compare
pub mod Names
pub mod Naming
pub mod Keep
pub mod RetireAll
mod Tests
use game_server_development.Prelude.{
  ℕ, zero, suc, ◌+◌, ◌-◌, ◌*◌, ◌/◌, ◌%◌, ◌^◌, bit_and, bit_or, List, [], ◌∷◌, Bool, true, false,
  ◌&&◌, ltb, leb, ◌==◌, if◌then◌else◌, Option, none, some, ◌>>=◌, length, get_or, set, replicate,
}
use Prim.Native.Nat.{compare, Ordering}

-- `HANDLE_MASK`, `HANDLE_REMOTE_SHIFT` (skynet.h), `DEFAULT_SLOT_SIZE`, `MAX_SLOT_SIZE`.
abbrev pub handle_mask : ℕ
handle_mask = 0xffffff

abbrev pub handle_remote_shift : ℕ
handle_remote_shift = 24

abbrev pub default_slot_size : ℕ
default_slot_size = 4

abbrev pub max_slot_size : ℕ
max_slot_size = 0x40000000

-- A context is the number of its object. These are the fields that the table reads and writes
-- through the pointer: `handle` and the reference count.
pub record Contexts : Type 0 where
  pub handle_of : ℕ → ℕ
  pub ref_of : ℕ → ℕ

-- `struct handle_name`: a name is its bytes.
pub record HandleName : Type 0 where
  pub name : List ℕ
  pub handle : ℕ

-- `struct handle_storage`, without the lock; `names` holds the `name_count` entries in use.
pub record Storage : Type 0 where
  pub harbor : ℕ
  pub handle_index : ℕ
  pub slot_size : ℕ
  pub slot : List (Option ℕ)
  pub name_cap : ℕ
  pub names : List HandleName

-- `skynet_handle_init`
pub init : ℕ → Storage
init harbor = record {
  harbor = bit_and harbor 0xff * 2 ^ handle_remote_shift % 2 ^ 32;
  handle_index = 1;
  slot_size = default_slot_size;
  slot = replicate default_slot_size none;
  name_cap = 2;
  names = [];
}

-- `handle & (slot_size - 1)`
abbrev pub hash : ℕ → ℕ → ℕ
hash handle size = bit_and handle (size - 1)

-- The inner loop of `skynet_handle_register`: the first handle with a free slot, in `n` rounds.
pub scan : List (Option ℕ) → ℕ → ℕ → ℕ → Option ℕ
scan slot size zero handle = none
scan slot size (suc n) handle =
    let h : ℕ = if ltb handle_mask handle then 1 else handle in
    let rest = scan slot size n (h + 1) in
    elim (get_or slot (hash h size) none) [ none ↦ some h | some c ↦ rest ]

-- One round of the rehashing loop; a filled slot breaks its assertion.
rehash_one : (ℕ → ℕ) → ℕ → Option ℕ → List (Option ℕ) → Option (List (Option ℕ))
rehash_one handle_of size none new = some new
rehash_one handle_of size (some c) new = elim (get_or new (hash (handle_of c) size) none) [
  | none ↦ some (set new (hash (handle_of c) size) (some c))
  | some d ↦ none
]

-- The rehashing loop of `skynet_handle_register` over the old slots, into an array of `size` slots.
pub rehash : (ℕ → ℕ) → ℕ → List (Option ℕ) → List (Option ℕ) → Option (List (Option ℕ))
unfolding rehash_one
rehash handle_of size [] new = some new
rehash handle_of size (c ∷ slot) new =
    rehash_one handle_of size c new >>= λ new'. rehash handle_of size slot new'

-- The growth of the table, with its assertion.
pub grow : (ℕ → ℕ) → Storage → Option Storage
grow handle_of s =
    if ltb handle_mask (s.slot_size * 2 - 1)
    then none
    else (rehash handle_of (s.slot_size * 2) s.slot (replicate (s.slot_size * 2) none) >>= λ slot.
        some (record s { slot = slot; slot_size = s.slot_size * 2 }))

-- `s->slot[hash] = ctx; s->handle_index = handle + 1;`
pub place : Storage → ℕ → ℕ → Storage
place s handle ctx = record s {
  slot = set s.slot (hash handle s.slot_size) (some ctx);
  handle_index = handle + 1;
}

-- `skynet_handle_register`: the outer loop on fuel; `none` is a broken assertion or no fuel.
pub register : ℕ → (ℕ → ℕ) → Storage → ℕ → Option (Storage × ℕ)
register zero handle_of s ctx = none
register (suc fuel) handle_of s ctx = elim (scan s.slot s.slot_size s.slot_size s.handle_index) [
  | some h ↦ some (place s h ctx, bit_or h s.harbor)
  | none ↦ grow handle_of s >>= λ s'. register fuel handle_of s' ctx
]

-- `ctx && skynet_context_handle(ctx) == handle`, for the content of a slot.
abbrev pub owner : (ℕ → ℕ) → ℕ → Option ℕ → Option ℕ
owner handle_of handle none = none
owner handle_of handle (some c) = if handle_of c == handle then some c else none

-- The context that holds a handle: the test that `retire` and `grab` share.
pub find : (ℕ → ℕ) → Storage → ℕ → Option ℕ
find handle_of s handle = owner handle_of handle (get_or s.slot (hash handle s.slot_size) none)

-- The compaction of the names in `skynet_handle_retire`.
pub drop_names : ℕ → List HandleName → List HandleName
drop_names handle [] = []
drop_names handle (n ∷ ns) =
    let rest = drop_names handle ns in if n.handle == handle then rest else n ∷ rest

-- `skynet_handle_retire`: the new table, and the context that the caller releases (the result is 1
-- exactly if there is one).
pub retire : (ℕ → ℕ) → Storage → ℕ → Storage × Option ℕ
retire handle_of s handle = elim (find handle_of s handle) [
  | none ↦ (s, none)
  | some c ↦ (
    record s {
      slot = set s.slot (hash handle s.slot_size) none;
      names = drop_names handle s.names;
    },
    some c,
  )
]

-- One pass of `skynet_handle_retireall`, with `n` rounds left from slot `i`: the table, and how many
-- contexts it came across.
pub retire_slots : (ℕ → ℕ) → ℕ → ℕ → Storage → Storage × ℕ
retire_slots handle_of zero i s = (s, 0)
retire_slots handle_of (suc n) i s = elim (get_or s.slot i none) [
  | none ↦ retire_slots handle_of n (i + 1) s
  | some c ↦
      let s' : Storage = if handle_of c == 0 then s else (retire handle_of s (handle_of c)).0 in
      let (r, k) = retire_slots handle_of n (i + 1) s' in (r, suc k)
]

-- `skynet_handle_retireall`: passes until one meets no context. The number is fuel.
pub retire_all : ℕ → (ℕ → ℕ) → Storage → Option Storage
retire_all zero handle_of s = none
retire_all (suc fuel) handle_of s =
    let (s', k) = retire_slots handle_of s.slot_size 0 s in
    let rest = retire_all fuel handle_of s' in if k == 0 then some s' else rest

-- `skynet_handle_grab`: takes a reference to the context that it finds.
pub grab : Contexts → Storage → ℕ → Option ℕ × Contexts
grab cs s handle = elim (find cs.handle_of s handle) [
  | none ↦ (none, cs)
  | some c ↦ (some c, record cs { ref_of = λ d. if d == c then cs.ref_of d + 1 else cs.ref_of d })
]

-- `strcmp` on the bytes of two names.
unfoldable pub strcmp : List ℕ → List ℕ → Ordering
strcmp [] [] = Ordering.eq
strcmp [] (y ∷ ys) = Ordering.lt
strcmp (x ∷ xs) [] = Ordering.gt
strcmp (x ∷ xs) (y ∷ ys) =
    let rest = strcmp xs ys in
    elim (compare x y) [
      | Ordering.eq ↦ rest
      | Ordering.lt ↦ Ordering.lt
      | Ordering.gt ↦ Ordering.gt
    ]

-- A read out of range of the names, which the search does not make.
abbrev pub no_name : HandleName
no_name = record { name = []; handle = 0 }

-- What a search of the names ends with: the entry's handle, or where a new entry goes.
pub data Found : Type 0 where
  hit : ℕ → Found
  miss : ℕ → Found

-- The loop of `skynet_handle_findname` and of `_insert_name`, from `begin` up to `stop`, which is
-- `end + 1` (`end` may be -1). The first number is fuel; `none` means that it ran out.
pub search_names : ℕ → List HandleName → List ℕ → ℕ → ℕ → Option Found
search_names zero ns key begin stop = none
search_names (suc fuel) ns key begin stop =
    let mid : ℕ = (begin + (stop - 1)) / 2 in
    let n : HandleName = get_or ns mid no_name in
    let right = search_names fuel ns key (mid + 1) stop in
    let left = search_names fuel ns key begin mid in
    if ltb begin stop
    then (elim (strcmp n.name key) [
      | Ordering.eq ↦ some (hit n.handle)
      | Ordering.lt ↦ right
      | Ordering.gt ↦ left
    ])
    else some (miss begin)

-- `skynet_handle_findname`: 0 if there is no such name.
pub find_name : ℕ → Storage → List ℕ → Option ℕ
find_name fuel s key =
    search_names fuel s.names key 0 (length s.names) >>= elim [ hit h ↦ some h | miss i ↦ some 0 ]

-- The entries after the shifts of `_insert_name_before`, in either branch.
pub insert_at : List HandleName → ℕ → HandleName → List HandleName
insert_at ns zero n = n ∷ ns
insert_at [] (suc i) n = n ∷ []
insert_at (m ∷ ns) (suc i) n = m ∷ insert_at ns i n

-- `_insert_name_before`, with the assertion on the capacity.
pub insert_name_before : Storage → List ℕ → ℕ → ℕ → Option Storage
insert_name_before s key handle before =
    let entry : HandleName = record { name = key; handle = handle } in
    let cap : ℕ = if leb s.name_cap (length s.names) then s.name_cap * 2 else s.name_cap in
    if ltb s.name_cap cap && ltb max_slot_size cap
    then none
    else some (record s { names = insert_at s.names before entry; name_cap = cap })

-- `skynet_handle_namehandle`: the new table, and whether the name was entered (NULL if it was
-- there already).
pub name_handle : ℕ → Storage → ℕ → List ℕ → Option (Storage × Bool)
name_handle fuel s handle key = search_names fuel s.names key 0 (length s.names) >>= elim [
  | hit h ↦ some (s, false)
  | miss i ↦ insert_name_before s key handle i >>= λ s'. some (s', true)
]
