-- ===== src/Fs/Bitmap.antt =====
-- alloc_block, free_block and block_is_free of fs/fs.c as operations on a set of free blocks.
pub mod Sequel
use yu_os.Fs.{
  Disk, flush_block, bitmap, set_bitmap, bit_is_set, block_is_free, free_block, first_free,
  use_block, alloc_block, s_nblocks, bitmap_block, bitmap_index, ℕ, flag, bit_or, bit_and, true,
  false, Bool, panic, ok, ltb, leb, Option, Reply, none, suc, err, some, no_disk, ret, alloc_found,
}
use yu_os.Prelude.{
  ℕ, ◌≡◌, ◌<◌, bit_or, Bool-cases, bit_and, if◌then◌else◌, ◌/◌, ◌^◌, inl, ◌-◌, ◌==◌, inr, true,
  false, ◌%◌, refl, ==_refl, arith, ==-ne, Bool, panic, ◌∙◌, ap, ◌≢◌, ok, ltb, ◌≤◌, leb, ◌+◌,
  Option, none, some, zero,
}
use yu_os.Layout.{flag, Reply, err, no_disk, ret}
use native.Mathlib.Decide.{ℕ_discrete}
use yu_os.Prelude.Bits.Single.{
  bit_and_digit, bit_or_digit, complement_digit, pow_digit, pow_digit_ne, pow_lt,
}
use mathlib.Core.Path.{subst}

pub flush_word : (b : ℕ) (d : Disk) → (flush_block b d).word ≡ d.word
unfolding flush_block
flush_word b d = elim (Bool-cases (d.dirty b)) [ inl h ↦ rw h refl | inr h ↦ rw h refl ]

-- The bits of a word in which one bit was set or cleared
or_bit : (w j k : ℕ) → flag (bit_or w (2 ^ k)) (2 ^ j) ≡ (if j == k then true else flag w (2 ^ j))
or_bit w j k = elim (ℕ_discrete j k) [
  | yes e ↦ rw (bit_or_digit j w (2 ^ k), e, pow_digit k, ==_refl k) (ground arith)
  | no h ↦ rw (bit_or_digit j w (2 ^ k), pow_digit_ne j k h, ==-ne j k h) (ground arith)
]

and_bit :
    (w j k : ℕ)
    → j < 32
    → k < 32
    → flag (bit_and w (2 ^ 32 - 1 - 2 ^ k)) (2 ^ j) ≡ (if j == k then false else flag w (2 ^ j))
and_bit w j k hj hk = elim (ℕ_discrete j k) [
  | yes e ↦
      rw
        (
          bit_and_digit j w (2 ^ 32 - 1 - 2 ^ k),
          complement_digit 32 (2 ^ k) j (pow_lt k 32 hk) hj,
          e,
          pow_digit k,
          ==_refl k,
        )
        (ground arith)
  | no h ↦
      rw
        (
          bit_and_digit j w (2 ^ 32 - 1 - 2 ^ k),
          complement_digit 32 (2 ^ k) j (pow_lt k 32 hk) hj,
          pow_digit_ne j k h,
          ==-ne j k h,
        )
        (ground arith)
]

-- The bits of the bitmap in which a word was stored
stored_bit :
    (i v j : ℕ) (d : Disk)
    → bit_is_set j (set_bitmap i v d)
      ≡ (if j / 32 == i then flag v (2 ^ (j % 32)) else bit_is_set j d)
stored_bit i v j d = elim (ℕ_discrete (j / 32) i) [
  | yes e ↦ rw (e, ==_refl (bitmap_block i), ==_refl (bitmap_index i), ==_refl i)
  | no h ↦ elim (ℕ_discrete (bitmap_block i) (bitmap_block (j / 32))) [
    | yes e ↦ rw (
      ==-ne (j / 32) i h,
      e,
      ==_refl (bitmap_block (j / 32)),
      ==-ne (bitmap_index i) (bitmap_index (j / 32)) (λ q. h (omega arith)),
    )
    | no g ↦ rw (==-ne (j / 32) i h, ==-ne (bitmap_block i) (bitmap_block (j / 32)) g)
  ]
]

-- Word and bit of a block number together name the block.
bit_of_block :
    (b : Bool) (i j : ℕ) (d : Disk)
    → (if j / 32 == i / 32
        then (if j % 32 == i % 32 then b else flag (bitmap (i / 32) d) (2 ^ (j % 32)))
        else bit_is_set j d)
      ≡ (if j == i then b else bit_is_set j d)
bit_of_block b i j d = elim (ℕ_discrete (j / 32) (i / 32)) [
  | no h ↦ rw (==-ne (j / 32) (i / 32) h, ==-ne j i (λ e. h (ap (λ t. t / 32) e)))
  | yes e ↦ elim (ℕ_discrete (j % 32) (i % 32)) [
    | yes q ↦
        let same : j ≡ i = omega arith in rw (same, ==_refl (i / 32), ==_refl (i % 32), ==_refl i)
    | no q ↦ rw (
      e,
      ==_refl (i / 32),
      ==-ne (j % 32) (i % 32) q,
      ==-ne j i (λ same. q (ap (λ t. t % 32) same)),
    )
  ]
]

-- Setting and clearing the bit of block `i`
freed_bit :
    (i j : ℕ) (d : Disk)
    → bit_is_set j (set_bitmap (i / 32) (bit_or (bitmap (i / 32) d) (2 ^ (i % 32))) d)
      ≡ (if j == i then true else bit_is_set j d)
freed_bit i j d =
    stored_bit (i / 32) (bit_or (bitmap (i / 32) d) (2 ^ (i % 32))) j d
    ∙ rw (or_bit (bitmap (i / 32) d) (j % 32) (i % 32)) (bit_of_block true i j d)

used_bit :
    (i j : ℕ) (d : Disk) → bit_is_set j (use_block i d) ≡ (if j == i then false else bit_is_set j d)
used_bit i j d =
    stored_bit (i / 32) (bit_and (bitmap (i / 32) d) (2 ^ 32 - 1 - 2 ^ (i % 32))) j d
    ∙ rw (and_bit (bitmap (i / 32) d) (j % 32) (i % 32) (omega arith) (omega arith))
        (bit_of_block false i j d)

-- The super block is no block of the bitmap.
size_kept : (i v : ℕ) (d : Disk) → s_nblocks (set_bitmap i v d) ≡ s_nblocks d
size_kept i v d = rw (==-ne (bitmap_block i) 1 (omega arith))

on_disk :
    (n j b : ℕ) (free : Bool)
    → (if leb n j then false else (if j == b then true else free))
      ≡ (if j == b then ltb b n else (if leb n j then false else free))
on_disk n j b free = ground arith

-- Freeing a block other than 0 makes it free, if it is on the disk, and changes no other block.
-- Block 0 is refused by a panic.
pub free_block_lem :
    (b : ℕ) (d : Disk)
    → (free_block 0 d ≡ panic)
      × (b ≢ 0
          → (d' : Disk) × (free_block b d ≡ ok d')
            × ((j : ℕ)
                → block_is_free j d' ≡ (if j == b then ltb b (s_nblocks d) else block_is_free j d)))
unfolding free_block block_is_free
free_block_lem b d = (
  refl,
  λ ne. (
    set_bitmap (b / 32) (bit_or (bitmap (b / 32) d) (2 ^ (b % 32))) d,
    rw (==-ne b 0 ne),
    λ j.
        rw (size_kept (b / 32) (bit_or (bitmap (b / 32) d) (2 ^ (b % 32))) d, freed_bit b j d)
          (on_disk (s_nblocks d) j b (bit_is_set j d)),
  ),
)

-- No block from `i` up to `n` is marked as free.
abbrev pub NoneFree : ℕ → ℕ → Disk → Type 0
NoneFree i n d = (j : ℕ) → i ≤ j → j < n → bit_is_set j d ≡ false

data FirstFree (i n : ℕ) (d : Disk) : Option ℕ → Type 0 where
  all_used : NoneFree i n d → FirstFree i n d none
  first :
      {p : ℕ} → i ≤ p → p < n → bit_is_set p d ≡ true → NoneFree i p d → FirstFree i n d (some p)

NoneFree-suc : (i n : ℕ) (d : Disk) → bit_is_set i d ≡ false → NoneFree (i + 1) n d → NoneFree i n d
NoneFree-suc i n d h rest j lo hi = elim (ℕ_discrete j i) [
  | yes e ↦ rw e h
  | no ne ↦ rest j (omega arith) hi
]

FirstFree-suc :
    (i n : ℕ) (d : Disk) {o : Option ℕ}
    → bit_is_set i d ≡ false
    → FirstFree (i + 1) n d o
    → FirstFree i n d o
FirstFree-suc i n d h (all_used rest) = all_used (NoneFree-suc i n d h rest)
FirstFree-suc i n d h (first {p} lo hi q before) =
    first (omega arith) hi q (NoneFree-suc i p d h before)

first_free-FirstFree :
    (rounds i : ℕ) (d : Disk) → FirstFree i (i + rounds) d (first_free rounds i d)
unfolding first_free
first_free-FirstFree zero i d = all_used (λ j lo hi. absurd (omega arith))
first_free-FirstFree (suc n) i d = elim (Bool-cases (bit_is_set i d)) [
  | inl h ↦ rw h (first (omega arith) (omega arith) h (λ j lo hi. absurd (omega arith)))
  | inr h ↦ rw h (FirstFree-suc i (i + suc n) d h (shifted (first_free-FirstFree n (i + 1) d)))
]
  where
    shifted : {o : Option ℕ} → FirstFree (i + 1) (i + 1 + n) d o → FirstFree (i + 1) (i + suc n) d o
    shifted {o} r =
        let e : i + 1 + n ≡ i + suc n = omega arith in subst (λ t. FirstFree (i + 1) t d o) e r

-- What `alloc_block` comes to, of the blocks that were free before and are free afterwards
pub data Allocation (d : Disk) : Reply ℕ × Disk → Type 0 where
  no_room : ((j : ℕ) → 1 ≤ j → block_is_free j d ≡ false) → Allocation d (err no_disk, d)
  allotted :
      {i : ℕ} {d' : Disk}
      → 1 ≤ i
      → block_is_free i d ≡ true
      → ((j : ℕ) → 1 ≤ j → j < i → block_is_free j d ≡ false)
      → ((j : ℕ) → block_is_free j d' ≡ (if j == i then false else block_is_free j d))
      → s_nblocks d' ≡ s_nblocks d
      → Allocation d (ret i, d')

used_free :
    (i : ℕ) (d : Disk) (j : ℕ)
    → block_is_free j (flush_block 2 (use_block i d))
      ≡ (if j == i then false else block_is_free j d)
unfolding block_is_free
used_free i d j =
    rw
      (
        flush_word 2 (use_block i d),
        size_kept (i / 32) (bit_and (bitmap (i / 32) d) (2 ^ 32 - 1 - 2 ^ (i % 32))) d,
        used_bit i j d,
      )
      (taken (s_nblocks d) (bit_is_set j d))
  where
    taken :
        (n : ℕ) (free : Bool)
        → (if leb n j then false else (if j == i then false else free))
          ≡ (if j == i then false else (if leb n j then false else free))
    taken n free = ground arith

used_size : (i : ℕ) (d : Disk) → s_nblocks (flush_block 2 (use_block i d)) ≡ s_nblocks d
used_size i d =
    rw (flush_word 2 (use_block i d))
      (size_kept (i / 32) (bit_and (bitmap (i / 32) d) (2 ^ 32 - 1 - 2 ^ (i % 32))) d)

-- `alloc_block` takes the free block with the least number other than 0 and marks it as used; no
-- other block changes. It fails with -E_NO_DISK, changing nothing, if there is none.
pub alloc_block-Allocation : (d : Disk) → Allocation d (alloc_block d)
unfolding alloc_block block_is_free
alloc_block-Allocation d = chosen (first_free-FirstFree (s_nblocks d - 1) 1 d)
  where
    chosen :
        {o : Option ℕ} → FirstFree 1 (1 + (s_nblocks d - 1)) d o → Allocation d (alloc_found o d)
    chosen (all_used none_free) = no_room (λ j lo. let h = none_free j lo in ground arith)
    chosen (first {p} lo hi q before) =
        allotted lo (rw q (ground arith)) (λ j lo hi. let h = before j lo hi in ground arith)
          (used_free p d) (used_size p d)
