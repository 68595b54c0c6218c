-- ===== src/Fs/Bitmap/Sequel.antt =====
-- What follows a call of alloc_block: freeing the block again, and what is on the disk.
use yu_os.Fs.{
  Disk, alloc_block, free_block, block_is_free, s_nblocks, flush_block, use_block, first_free,
  alloc_found, ℕ, true, ret, ltb, ok, Bool, false, Reply, some,
}
use yu_os.Fs.Bitmap.{
  Allocation, no_room, allotted, alloc_block-Allocation, free_block_lem, flush_word, arith, ap,
  ==_refl, Bool-cases, inl, ==-ne, inr,
}
use yu_os.Prelude.{
  ℕ, ◌<◌, ◌≡◌, ◌≤◌, true, ltb, ok, ◌+◌, ◌/◌, arith, Bool, if◌then◌else◌, ◌==◌, false, ◌∙◌, sym, ap,
  ==_refl, ◌≢◌, Option-cases, Bool-cases, ◌-◌, ==-ne, some, refl,
}
use yu_os.Layout.{ret, Reply}

in_size : (p : ℕ) (d : Disk) → block_is_free p d ≡ true → ltb p (s_nblocks d) ≡ true
unfolding block_is_free
in_size p d h = ground arith

-- If `alloc_block` has taken a block and `free_block` gives it back, the free blocks are as before.
pub free_block-alloc_block :
    (d d' : Disk) (i : ℕ)
    → alloc_block d ≡ (ret i, d')
    → (d2 : Disk) × (free_block i d' ≡ ok d2) × ((j : ℕ) → block_is_free j d2 ≡ block_is_free j d)
free_block-alloc_block d d' i e = restored (alloc_block-Allocation d) e
  where
    same_bit :
        (j p : ℕ) (size size' : ℕ) (b : Bool)
        → size' ≡ size
        → ((j ≡ p) → ltb p size ≡ b)
        → (if j == p then ltb p size' else (if j == p then false else b)) ≡ b
    same_bit j p size size' b e h = rw e (ground arith)

    of_block :
        (p : ℕ) (q : Disk)
        → 1 ≤ p
        → block_is_free p d ≡ true
        → ((j : ℕ) → block_is_free j q ≡ (if j == p then false else block_is_free j d))
        → s_nblocks q ≡ s_nblocks d
        → (d2 : Disk) × (free_block p q ≡ ok d2)
          × ((j : ℕ) → block_is_free j d2 ≡ block_is_free j d)
    of_block p q lo was now size =
        let (d2, run, free) = (free_block_lem p q).1 (omega arith) in
        (
          d2,
          run,
          λ j.
              free j
              ∙ rw (now j) (
                  same_bit j p (s_nblocks d) (s_nblocks q) (block_is_free j d) size
                    (λ same. in_size p d was ∙ sym (ap (λ t. block_is_free t d) same ∙ was))),
        )

    restored :
        {r : Reply ℕ × Disk}
        → Allocation d r
        → r ≡ (ret i, d')
        → (d2 : Disk) × (free_block i d' ≡ ok d2)
          × ((j : ℕ) → block_is_free j d2 ≡ block_is_free j d)
    restored (no_room h) e = absurd (let q = ap (λ r. r.0) e in cc)
    restored (allotted {i = p} {d' = q} lo was before now size) e =
        let e1 : p ≡ i = (let t = ap (λ r. r.0) e in cc) in
        let e2 : q ≡ d' = ap (λ r. r.1) e in rw (← e1, ← e2) (of_block p q lo was now size)

flush_image_self : (b : ℕ) (d : Disk) → d.dirty b ≡ true → (flush_block b d).image b ≡ d.word b
unfolding flush_block
flush_image_self b d h = rw (h, ==_refl b)

flush_image_other : (b c : ℕ) (d : Disk) → b ≢ c → (flush_block b d).image c ≡ d.image c
unfolding flush_block
flush_image_other b c d h = elim (Bool-cases (d.dirty b)) [
  | inl q ↦ rw (q, ==-ne b c h)
  | inr q ↦ rw q refl
]

alloc_block-flushed :
    (d d' : Disk) (i : ℕ) → alloc_block d ≡ (ret i, d') → flush_block 2 (use_block i d) ≡ d'
unfolding alloc_block
alloc_block-flushed d d' i e = elim (Option-cases (first_free (s_nblocks d - 1) 1 d)) [
  | inl h ↦ absurd (let q = ap (λ r. r.0) (sym (ap (λ o. alloc_found o d) h) ∙ e) in cc)
  | inr (p, h) ↦
      (let e' : alloc_found (some p) d ≡ (ret i, d') = sym (ap (λ o. alloc_found o d) h) ∙ e in
        let same : p ≡ i = (let t = ap (λ r. r.0) e' in cc) in rw (← same) (ap (λ r. r.1) e'))
]

-- After `alloc_block` has taken a block whose bit is in the first block of the bitmap, that block
-- is on the disk as it is in memory. A later block of the bitmap is not written to the disk when
-- its bit is changed.
pub alloc_block-image :
    (d d' : Disk) (i : ℕ)
    → alloc_block d ≡ (ret i, d')
    → ((i < 32768) → d'.image 2 ≡ d'.word 2)
      × ((32768 ≤ i) → d'.image (2 + i / 32768) ≡ d.image (2 + i / 32768))
alloc_block-image d d' i e = rw (← alloc_block-flushed d d' i e) (
  λ lo.
      flush_image_self 2 (use_block i d) (marked (omega arith))
      ∙ sym (ap (λ w. w 2) (flush_word 2 (use_block i d))),
  λ hi. flush_image_other 2 (2 + i / 32768) (use_block i d) (omega arith),
)
  where
    marked : 2 + i / 32 / 1024 ≡ 2 → (use_block i d).dirty 2 ≡ true
    marked h = rw h
