-- ===== src/Fs.antt =====
-- The disk of the file server, as the block cache of fs/bc.c shows it in memory.
-- A block is 1024 words of 32 bits. Block 1 is the super block, whose second word is `s_nblocks`;
-- from block 2 on stands the bitmap, in which a set bit marks a free block. `super` and `bitmap` have
-- been set, by `fs_init`.
pub mod Bitmap
pub mod Blocks
pub mod Files
pub mod Dirs
pub mod Serve
use yu_os.Prelude.{
  ℕ, Bool, List, ◌∷◌, ◌+◌, ◌-◌, ◌*◌, ◌/◌, ◌%◌, ◌^◌, ◌<◌, ◌==◌, ◌||◌, bit_or, bit_and, ltb, leb,
  update, Run, ok, panic, if◌then◌else◌, zero, suc, Option, none, some, false, true,
}
use yu_os.Layout.{flag, pgsize, Reply, ret, err, no_disk}

pub record Disk : Type 0 where
  -- the blocks in memory
  pub word : ℕ → ℕ → ℕ
  -- the blocks on the disk
  pub image : ℕ → ℕ → ℕ
  -- the PTE_D bit of each block's page
  pub dirty : ℕ → Bool

-- A store to word `i` of block `b` sets the page's dirty bit.
abbrev pub set_disk_word : ℕ → ℕ → ℕ → Disk → Disk
set_disk_word b i v d = record d {
  word = update d.word b (update (d.word b) i v);
  dirty = update d.dirty b true;
}

-- `flush_block` of an address in block `b`. A block that is not mapped is not dirty.
unfoldable pub flush_block : ℕ → Disk → Disk
flush_block b d =
    if d.dirty b
    then record d { image = update d.image b (d.word b); dirty = update d.dirty b false }
    else d

-- `super->s_nblocks`
abbrev pub s_nblocks : Disk → ℕ
s_nblocks d = d.word 1 1

-- Where `bitmap[i]` stands
abbrev pub bitmap_block : ℕ → ℕ
bitmap_block i = 2 + i / 1024

abbrev pub bitmap_index : ℕ → ℕ
bitmap_index i = i % 1024

-- `bitmap[i]`
abbrev pub bitmap : ℕ → Disk → ℕ
bitmap i d = d.word (bitmap_block i) (bitmap_index i)

abbrev pub set_bitmap : ℕ → ℕ → Disk → Disk
set_bitmap i v d = set_disk_word (bitmap_block i) (bitmap_index i) v d

-- `bitmap[blockno / 32] & (1 << (blockno % 32))`
abbrev pub bit_is_set : ℕ → Disk → Bool
bit_is_set blockno d = flag (bitmap (blockno / 32) d) (2 ^ (blockno % 32))

unfoldable pub block_is_free : ℕ → Disk → Bool
block_is_free blockno d = if leb (s_nblocks d) blockno then false else bit_is_set blockno d

unfoldable pub free_block : ℕ → Disk → Run Disk
free_block blockno d =
    if blockno == 0
    then panic
    else ok (set_bitmap (blockno / 32) (bit_or (bitmap (blockno / 32) d) (2 ^ (blockno % 32))) d)

-- The loop of `alloc_block`, from `i` with so many rounds left
unfoldable pub first_free : ℕ → ℕ → Disk → Option ℕ
first_free zero i d = none
first_free (suc n) i d =
    let rest = first_free n (i + 1) d in if bit_is_set i d then some i else rest

-- `bitmap[i/32] &= ~(1 << (i % 32))`
abbrev pub use_block : ℕ → Disk → Disk
use_block i d = set_bitmap (i / 32) (bit_and (bitmap (i / 32) d) (2 ^ 32 - 1 - 2 ^ (i % 32))) d

-- The address that is flushed is that of the first block of the bitmap.
abbrev pub alloc_found : Option ℕ → Disk → Reply ℕ × Disk
alloc_found none d = (err no_disk, d)
alloc_found (some i) d = (ret i, flush_block 2 (use_block i d))

unfoldable pub alloc_block : Disk → Reply ℕ × Disk
alloc_block d = alloc_found (first_free (s_nblocks d - 1) 1 d) d
