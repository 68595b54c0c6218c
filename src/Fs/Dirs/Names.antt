-- ===== src/Fs/Dirs/Names.antt =====
-- The names of the entries of a directory, and the comparison with a name, in fs/fs.c.
use yu_os.Prelude.{
  ℕ, ◌<◌, ◌+◌, ◌≡◌, arith, false, true, Bool-cases, inl, ==_iff, refl, inr, ◌*◌, ap, List, ◌↔◌,
  length, ltb, ◌-◌,
}
use yu_os.Fs.Dirs.{Bytes, is_named, disk_byte, beside, maxnamelen}
use yu_os.Fs.{Disk, true, false, pgsize, List, ltb}
use yu_os.Layout.{pgsize}
use yu_os.Strings.{Bytes}
use yu_os.Strings.Text.{Holds, strcmp_lem, Holds-same}
use yu_os.Fs.Files.{disk_byte}

-- The names of the entries, which start every 256 bytes; each ends in a null byte, which is one of its
-- 128 bytes.
pub record AreNames (names : ℕ → ℕ → List ℕ) (blocks : ℕ → ℕ) (stop : ℕ) (d : Disk) : Type 0 where
  pub held :
      (b j : ℕ) → b < stop → j < 16 → Holds (λ a. disk_byte (blocks b) a d) (256 * j) (names b j)
  pub short : (b j : ℕ) → b < stop → j < 16 → length (names b j) < 128

pub is_named_lem :
    (b j : ℕ) (name : Bytes) (d : Disk) (given str : List ℕ)
    → j < 16
    → ((i : ℕ) → name i < 256)
    → Holds (λ a. disk_byte b a d) (256 * j) given
    → length given < 128
    → Holds name 0 str
    → (is_named b j name d ≡ true) ↔ (given ≡ str)
unfolding is_named
is_named_lem b j name d given str lo bytes held short named =
    let (v, run, zero_iff) =
      strcmp_lem maxnamelen (256 * j) pgsize (beside b name d) given str small
        (Holds-same (λ a. disk_byte b a d) (beside b name d) (256 * j) (256 * j) given
          (λ i h. let low : ltb (256 * j + i) pgsize ≡ true = ground arith in rw low refl) held)
        (Holds-same name (beside b name d) 0 pgsize str
          (λ i h.
            let high : ltb (pgsize + i) pgsize ≡ false = ground arith in
            rw high (ap name (omega arith)))
          named)
        short in
    rw (run, is_named) (λ e. zero_iff.0 ((==_iff v 0).0 e), λ e. (==_iff v 0).1 (zero_iff.1 e))
  where
    small : (i : ℕ) → beside b name d i < 256
    small i = elim (Bool-cases (ltb i pgsize)) [
      | inl low ↦ rw low (omega arith)
      | inr high ↦ rw high (bytes (i - pgsize))
    ]
