-- ===== src/Skynet/Databuffer.antt =====
-- 02_skynet/lib/skynet/service-src/databuffer.h: the bytes that came in on a connection, as a linked
-- list of chunks. The nodes of the list come from a pool; a list of chunks stands for the links.
pub mod Contents
pub mod Header
mod Tests
use game_server_development.Prelude.{
  ℕ, zero, suc, ◌+◌, ◌-◌, ◌*◌, ◌^◌, List, [], ◌∷◌, ◌++◌, Bool, true, false, ltb, leb, ◌==◌,
  if◌then◌else◌, Option, none, some, ◌>>=◌, length, take, drop, get_or,
}
use game_server_development.Prelude.Int.{ℤ, pos, negsuc, ltb_ℤ}

-- `MESSAGEPOOL`
abbrev pub messagepool_size : ℕ
messagepool_size = 1023

-- `struct messagepool`: how many blocks it has taken, and how many nodes are on the free list.
pub record MessagePool : Type 0 where
  pub blocks : ℕ
  pub free : ℕ

-- `struct databuffer`; each chunk is the bytes of one `struct message`.
pub record Databuffer : Type 0 where
  pub header : ℤ
  pub offset : ℕ
  pub size : ℕ
  pub chunks : List (List ℕ)

abbrev pub empty : Databuffer
empty = record { header = pos 0; offset = 0; size = 0; chunks = [] }

-- The taking of a node from the pool, at the start of `databuffer_push`.
unfoldable pub take_node : MessagePool → MessagePool
take_node mp =
    if mp.free == 0
    then record { blocks = mp.blocks + 1; free = messagepool_size - 1 }
    else record mp { free = mp.free - 1 }

-- `databuffer_push`
unfoldable pub push : Databuffer → MessagePool → List ℕ → Databuffer × MessagePool
push db mp bytes =
    (record db { size = db.size + length bytes; chunks = db.chunks ++ bytes ∷ [] }, take_node mp)

-- The loop of `databuffer_read`: the bytes read, the chunks and the offset left, and the pool. `none` is
-- the read of a node that is not there.
unfoldable pub read_chunks :
    List (List ℕ) → ℕ → ℕ → MessagePool → Option (List ℕ × List (List ℕ) × ℕ × MessagePool)
read_chunks [] offset sz mp = none
read_chunks (c ∷ cs) offset sz mp =
    let bsz : ℕ = length c - offset in
    let mp' : MessagePool = record mp { free = mp.free + 1 } in
    let rest = read_chunks cs 0 (sz - bsz) mp' in
    if ltb sz bsz
    then some (take sz (drop offset c), c ∷ cs, offset + sz, mp)
    else if bsz == sz
    then some (take sz (drop offset c), cs, 0, mp')
    else rest >>= λ r. some (take bsz (drop offset c) ++ r.0, r.1, r.2, r.3)

-- `databuffer_read`, with its assertion.
unfoldable pub read : Databuffer → MessagePool → ℕ → Option (List ℕ × Databuffer × MessagePool)
read db mp sz =
    if ltb db.size sz
    then none
    else read_chunks db.chunks db.offset sz mp >>= λ r.
        some (r.0, record db { size = db.size - sz; chunks = r.1; offset = r.2 }, r.3)

-- The big-endian number of a header; four bytes are put into an `int`.
abbrev pub signed32 : ℕ → ℤ
signed32 w = if ltb w (2 ^ 31) then pos w else negsuc (2 ^ 32 - w - 1)

unfoldable pub parse_header : ℕ → List ℕ → ℤ
parse_header header_size plen =
    if header_size == 2
    then pos (get_or plen 0 0 * 2 ^ 8 + get_or plen 1 0)
    else signed32 (
        get_or plen 0 0 * 2 ^ 24
        + get_or plen 1 0 * 2 ^ 16
        + get_or plen 2 0 * 2 ^ 8
        + get_or plen 3 0)

is_zero : ℤ → Bool
is_zero (pos zero) = true
is_zero (pos (suc n)) = false
is_zero (negsuc n) = false

-- The end of `databuffer_readheader`: the size of the packet if all of it is there, and else -1.
unfoldable pub ready : Databuffer → ℤ
ready db = if ltb_ℤ (pos db.size) db.header then negsuc 0 else db.header

-- `databuffer_readheader`
unfoldable pub readheader : Databuffer → MessagePool → ℕ → Option (ℤ × Databuffer × MessagePool)
unfolding is_zero
readheader db mp header_size =
    if is_zero db.header
    then (if ltb db.size header_size
        then some (negsuc 0, db, mp)
        else read db mp header_size >>= λ r.
            let db' : Databuffer = record r.1 { header = parse_header header_size r.0 } in
            some (ready db', db', r.2))
    else some (ready db, db, mp)

-- `databuffer_reset`
unfoldable pub reset : Databuffer → Databuffer
reset db = record db { header = pos 0 }

-- `databuffer_clear`
unfoldable pub clear : Databuffer → MessagePool → Databuffer × MessagePool
clear db mp = (empty, record mp { free = mp.free + length db.chunks })
