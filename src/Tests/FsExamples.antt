-- ===== src/Tests/FsExamples.antt =====
-- The theorems on the bitmap of blocks at a disk of 40 blocks, of which 5, 6 and 33 are free.
use yu_os.Fs.{Disk, block_is_free, alloc_block, first_free, flush_block}
use yu_os.Fs.Bitmap.{Allocation, alloc_block-Allocation}
use yu_os.Prelude.{if◌then◌else◌, ◌≡◌, true, ◌==◌, ok, false, refl, ◌∷◌, []}
use yu_os.Layout.{ret}
use yu_os.Tests.Machine.{words}
use yu_os.Fs.Blocks.{
  file_get_block, write_place, FileAt, f_direct, file_block_walk, block_at, diskaddr,
}

abbrev disk : Disk
disk = record {
  word = λ b.
      if b == 1
      then words ((0, 0x4A0530AE) ∷ (1, 40) ∷ [])
      else if b == 2
      then words ((0, 0x60) ∷ (1, 2) ∷ [])
      else words [];
  image = λ b. words [];
  dirty = λ b. false;
}

free_five :
    (block_is_free 5 disk ≡ true)
    × (block_is_free 7 disk ≡ false)
    × (block_is_free 33 disk ≡ true)
    × (block_is_free 45 disk ≡ false)
unfolding block_is_free
free_five = (refl, refl, refl, refl)

-- The first allocation takes block 5.
abbrev after : Disk
after = (alloc_block disk).1

first_allocation : alloc_block disk ≡ (ret 5, after)
unfolding alloc_block first_free
first_allocation = refl

alloc_block-Allocation_example : Allocation disk (alloc_block disk)
alloc_block-Allocation_example = alloc_block-Allocation disk

-- The root directory, whose structure stands in the super block, has no blocks yet.
abbrev root : FileAt
root = record { block = 1; base = 2 }

abbrev grown : Disk
grown = write_place (f_direct root 3) 5 after

first_block : file_get_block root 3 disk ≡ ok (ret 5, grown)
unfolding file_get_block file_block_walk block_at alloc_block first_free diskaddr flush_block
first_block = refl
