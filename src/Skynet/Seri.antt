-- ===== src/Skynet/Seri.antt =====
-- 02_skynet/lib/skynet/lualib-src/lua-seri.c: the chain of blocks that values are written to, and the
-- copy of it in one piece. Scalars has the values themselves.
pub mod Blocks
pub mod Scalars
pub mod Values
mod Tests
use game_server_development.Prelude.{
  ℕ, zero, suc, ◌+◌, ◌-◌, ◌^◌, List, [], ◌∷◌, ◌++◌, leb, ◌==◌, if◌then◌else◌, Option, none, some,
  ◌>>=◌, length, take, drop, replicate,
}

-- `BLOCK_SIZE`
abbrev pub block_size : ℕ
block_size = 128

-- `struct write_block`: the blocks before the current one, the cells of the current one, how many of
-- these are written, and how many bytes there are in all.
pub record WriteBlock : Type 0 where
  pub before : List (List ℕ)
  pub current : List ℕ
  pub ptr : ℕ
  pub len : ℕ

-- The cells of a block that `blk_alloc` gives.
abbrev pub blk_alloc : List ℕ
blk_alloc = replicate block_size 0

-- `wb_init`
abbrev pub wb_init : WriteBlock
wb_init = record { before = []; current = blk_alloc; ptr = 0; len = 0 }

-- `memcpy` of bytes to the current block, with what is counted.
abbrev pub copied : WriteBlock → List ℕ → WriteBlock
copied w bytes = record w {
  current = take w.ptr w.current ++ bytes ++ drop (w.ptr + length bytes) w.current;
  ptr = w.ptr + length bytes;
  len = w.len + length bytes;
}

-- A new block behind the current one.
abbrev pub next_block : WriteBlock → WriteBlock
next_block w = record w { before = w.before ++ w.current ∷ []; current = blk_alloc; ptr = 0 }

-- The loop of `wb_push` from its second test on; the number is fuel.
pub place : ℕ → WriteBlock → List ℕ → Option WriteBlock
place zero w bytes = none
place (suc fuel) w bytes =
    let copy : ℕ = block_size - w.ptr in
    let rest = place fuel (next_block (copied w (take copy bytes))) (drop copy bytes) in
    if leb (w.ptr + length bytes) block_size then some (copied w bytes) else rest

-- `wb_push`; none is a number of bytes that does not fit in an int.
pub wb_push : WriteBlock → List ℕ → Option WriteBlock
unfolding place
wb_push w bytes =
    let b = if w.ptr == block_size then next_block w else w in
    if leb (2 ^ 31) (w.len + length bytes) then none else place (suc (length bytes)) b bytes

-- Bytes that are pushed piece by piece.
pub push_all : WriteBlock → List (List ℕ) → Option WriteBlock
unfolding wb_push
push_all w [] = some w
push_all w (bytes ∷ pieces) = wb_push w bytes >>= λ r. push_all r pieces

-- The loop of `seri` over a chain; none is a block that is not there.
pub seri_copy : List (List ℕ) → ℕ → Option (List ℕ)
seri_copy [] len = if len == 0 then some [] else none
seri_copy (b ∷ blocks) len =
    let rest = seri_copy blocks (len - block_size) in
    if len == 0
    then some []
    else if leb block_size len
    then (rest >>= λ bytes. some (take block_size b ++ bytes))
    else some (take len b)

-- `seri` of what was written.
pub seri : WriteBlock → Option (List ℕ)
unfolding seri_copy
seri w = seri_copy (w.before ++ w.current ∷ []) w.len
