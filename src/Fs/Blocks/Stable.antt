-- ===== src/Fs/Blocks/Stable.antt =====
-- The block that file_get_block gives for a place of a file stays the same.
use yu_os.Fs.Blocks.{
  FileAt, Place, read_place, write_place, diskaddr, block_at, file_get_block, file_block_walk,
  f_direct, ndirect, ℕ, Disk, fill_place, answers, nindirect,
}
use yu_os.Fs.{Disk, ok, panic, ret, Reply, err, alloc_block, leb, false}
use yu_os.Prelude.{
  ℕ, ok, ◌≡◌, panic, ◌≢◌, ==-ne, ◌⊎◌, arith, refl, inl, inr, Bool-cases, ◌==◌, ◌<◌, ◌+◌, sym, leb,
  false, ◌∙◌, lt→ltb,
}
use yu_os.Layout.{ret, Reply}

diskaddr_cases : (b : ℕ) (d : Disk) → (diskaddr b d ≡ panic) ⊎ ((diskaddr b d ≡ ok b) × (b ≢ 0))
unfolding diskaddr
diskaddr_cases b d = ground arith

-- The place holds the block, and asking again gives the same.
record Given (p : Place) (b : ℕ) (d' : Disk) : Type 0 where
  holds : read_place p d' ≡ b
  again : block_at p d' ≡ ok (ret b, d')

Given-by_place :
    (p : Place) (d : Disk) (b : ℕ) → read_place p d ≡ b → diskaddr b d ≡ ok b → b ≢ 0 → Given p b d
unfolding block_at
Given-by_place p d b e run ne = record { holds = e; again = rw (e, ==-ne b 0 ne, run) refl }

Given-by_answer :
    (p : Place) (a b : ℕ) (d d' : Disk) → answers a d ≡ answers b d' → Given p a d → Given p b d'
Given-by_answer p a b d d' e g =
    let same : a ≡ b = cc in let same_disk : d ≡ d' = cc in rw (← same, ← same_disk) g

fill_place-Given :
    (p : Place) (r : Reply ℕ × Disk) (b : ℕ) (d' : Disk)
    → fill_place p r ≡ answers b d'
    → Given p b d'
fill_place-Given p (err e, d) b d' = λ h. absurd (cc)
fill_place-Given p (ret r, d) b d' =
    elim (diskaddr_cases (read_place p (write_place p r d)) (write_place p r d)) [
      | inl bad ↦ rw bad (λ h. absurd (cc))
      | inr (good, ne) ↦
          rw good (λ h.
            Given-by_answer p _ b _ d' h (Given-by_place p (write_place p r d) _ refl good ne))
    ]

block_at-Given : (p : Place) (d d' : Disk) (b : ℕ) → block_at p d ≡ answers b d' → Given p b d'
unfolding block_at
block_at-Given p d d' b = elim (Bool-cases (read_place p d == 0)) [
  | inl hole ↦ rw hole (fill_place-Given p (alloc_block d) b d')
  | inr full ↦ rw full (elim (diskaddr_cases (read_place p d) d) [
    | inl bad ↦ rw bad (λ h. absurd (cc))
    | inr (good, ne) ↦
        rw good
          (λ h. Given-by_answer p _ b d d' h (Given-by_place p d (read_place p d) refl good ne))
  ])
]

pub direct_walk :
    (f : FileAt) (filebno : ℕ) (d : Disk)
    → filebno < ndirect
    → file_get_block f filebno d ≡ block_at (f_direct f filebno) d
unfolding file_get_block file_block_walk
direct_walk f filebno d low =
    let near : leb (ndirect + nindirect) filebno ≡ false = ground arith in
    rw (near, lt→ltb filebno ndirect low) refl

-- If `file_get_block` gives a block for one of the direct places of a file, the place holds that
-- block afterwards, and a second call gives the same block and changes nothing.
pub file_get_block-stable :
    (f : FileAt) (filebno b : ℕ) (d d' : Disk)
    → filebno < ndirect
    → file_get_block f filebno d ≡ ok (ret b, d')
    → (read_place (f_direct f filebno) d' ≡ b) × (file_get_block f filebno d' ≡ ok (ret b, d'))
file_get_block-stable f filebno b d d' low run =
    let g = block_at-Given (f_direct f filebno) d d' b (sym (direct_walk f filebno d low) ∙ run) in
    (g.holds, direct_walk f filebno d' low ∙ g.again)
