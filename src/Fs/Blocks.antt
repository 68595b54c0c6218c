-- ===== src/Fs/Blocks.antt =====
-- The blocks of a file: file_block_walk, file_get_block, file_free_block, file_truncate_blocks,
-- file_set_size and file_flush of fs/fs.c, and diskaddr of fs/bc.c.
-- A `struct File *` is the block that the structure stands in and the index of its first word there;
-- the name takes 32 words, then come the size, the type, ten direct blocks and the indirect block. A
-- `uint32_t *` into a block is the block and the index of the word.
pub mod Stable
use yu_os.Prelude.{
  ℕ, ◌+◌, Bool, update, Run, ok, ◌-◌, if◌then◌else◌, true, ◌>>=◌, leb, ltb, ◌/◌, ◌==◌, false, ◌||◌,
  zero, panic, ◌&&◌, not,
}
use yu_os.Fs.{
  Disk, set_disk_word, Run, update, Bool, pgsize, true, Reply, ok, leb, false, suc, ltb,
  flush_block, alloc_block, err, s_nblocks, ret, free_block, panic,
}
use yu_os.Layout.{pgsize, Reply, err, inval}

pub record FileAt : Type 0 where
  pub block : ℕ
  pub base : ℕ

pub record Place : Type 0 where
  pub in_block : ℕ
  pub at : ℕ

abbrev pub read_place : Place → Disk → ℕ
read_place p d = d.word p.in_block p.at

abbrev pub write_place : Place → ℕ → Disk → Disk
write_place p v d = set_disk_word p.in_block p.at v d

abbrev pub ndirect : ℕ
ndirect = 10

abbrev pub nindirect : ℕ
nindirect = 1024

abbrev pub f_size : FileAt → Place
f_size f = record { in_block = f.block; at = f.base + 32 }

abbrev pub f_direct : FileAt → ℕ → Place
f_direct f i = record { in_block = f.block; at = f.base + 34 + i }

abbrev pub f_indirect : FileAt → Place
f_indirect f = record { in_block = f.block; at = f.base + 44 }

-- The block at the address is returned in place of the address.
unfoldable pub diskaddr : ℕ → Disk → Run ℕ
diskaddr blockno d = if (blockno == 0) || leb (s_nblocks d) blockno then panic else ok blockno

-- `memset(diskaddr(b), 0, BLKSIZE)`
abbrev pub clear_block : ℕ → Disk → Disk
clear_block b d = record d { word = update d.word b (λ _. 0); dirty = update d.dirty b true }

-- The indirect block is allocated if there is none; the reply's number says nothing.
unfoldable pub need_indirect : FileAt → Disk → Run (Reply ℕ × Disk)
need_indirect f d =
    if read_place (f_indirect f) d == 0
    then (do
      let found : Reply ℕ × Disk = alloc_block d
      elim found.0 [
        | err e ↦ ok (err e, found.1)
        | ret r ↦ (do
          let d' : Disk = write_place (f_indirect f) r found.1
          b ← diskaddr (read_place (f_indirect f) d') d'
          ok (ret 0, clear_block b d'))
      ])
    else ok (ret 0, d)

-- `alloc` is not read.
unfoldable pub file_block_walk : FileAt → ℕ → Bool → Disk → Run (Reply Place × Disk)
file_block_walk f filebno alloc d =
    if leb (ndirect + nindirect) filebno
    then ok (err inval, d)
    else if ltb filebno ndirect
    then ok (ret (f_direct f filebno), d)
    else (do
      (r, d) ← need_indirect f d
      elim r [
        | err e ↦ ok (err e, d)
        | ret _ ↦ (do
          indirect ← diskaddr (read_place (f_indirect f) d) d
          ok (ret (record { in_block = indirect; at = filebno - ndirect }), d))
      ])

-- The result and the block that it stands for
abbrev pub answers : ℕ → Disk → Run (Reply ℕ × Disk)
answers b d = ok (ret b, d)

-- `*pdiskbno = r`, after `alloc_block`, and the address of the block
abbrev pub fill_place : Place → Reply ℕ × Disk → Run (Reply ℕ × Disk)
fill_place p (err e, d) = ok (err e, d)
fill_place p (ret r, d) = do
  b ← diskaddr (read_place p (write_place p r d)) (write_place p r d)
  answers b (write_place p r d)

-- The part of `file_get_block` behind the walk
unfoldable pub block_at : Place → Disk → Run (Reply ℕ × Disk)
block_at p d =
    if read_place p d == 0
    then fill_place p (alloc_block d)
    else (do b ← diskaddr (read_place p d) d; answers b d)

-- The reply holds the block stored in `*blk`.
unfoldable pub file_get_block : FileAt → ℕ → Disk → Run (Reply ℕ × Disk)
file_get_block f filebno d = do
  (r, d) ← file_block_walk f filebno false d
  elim r [ err e ↦ ok (err e, d) | ret p ↦ block_at p d ]

unfoldable pub file_free_block : FileAt → ℕ → Disk → Run (Reply ℕ × Disk)
file_free_block f filebno d = do
  (r, d) ← file_block_walk f filebno false d
  elim r [
    | err e ↦ ok (err e, d)
    | ret p ↦
        (if read_place p d == 0
          then ok (ret 0, d)
          else (do d ← free_block (read_place p d) d; ok (ret 0, write_place p 0 d)))
  ]

-- `for (bno = new_nblocks; bno < old_nblocks; bno++)`, with so many rounds left
unfoldable pub free_blocks : FileAt → ℕ → ℕ → Disk → Run Disk
free_blocks f bno zero d = ok d
free_blocks f bno (suc n) d = do (r, d) ← file_free_block f bno d; free_blocks f (bno + 1) n d

-- `(size + BLKSIZE - 1) / BLKSIZE`, of a size at which the sum is no negative off_t
abbrev pub blocks_of_size : ℕ → ℕ
blocks_of_size size = (size + pgsize - 1) / pgsize

unfoldable pub file_truncate_blocks : FileAt → ℕ → Disk → Run Disk
file_truncate_blocks f newsize d = do
  let new_nblocks : ℕ = blocks_of_size newsize
  d ← free_blocks f new_nblocks (blocks_of_size (read_place (f_size f) d) - new_nblocks) d
  (if leb new_nblocks ndirect && not (read_place (f_indirect f) d == 0)
      then (do d ← free_block (read_place (f_indirect f) d) d; ok (write_place (f_indirect f) 0 d))
      else ok d)

-- It returns 0 in each case. Sizes are not negative as an off_t.
unfoldable pub file_set_size : FileAt → ℕ → Disk → Run Disk
file_set_size f newsize d = do
  d ← (if ltb newsize (read_place (f_size f) d) then file_truncate_blocks f newsize d else ok d)
  ok (flush_block f.block (write_place (f_size f) newsize d))
