-- ===== src/Fs/Files/Pieces.antt =====
-- What the piece of a block that file_write of fs/fs.c stores does to a file of direct blocks.
use yu_os.Prelude.{
  ℕ, ◌<◌, ◌/◌, ◌≤◌, ==-ne, ◌≡◌, arith, ◌^◌, ◌%◌, if◌then◌else◌, ◌==◌, ok, ◌*◌, Bool-cases, ◌≢◌, ◌+◌,
  lt→leb, inl, ◌∙◌, zero, inr, refl, ap, ◌-◌, leb, ◌&&◌, ltb, false, true,
}
use yu_os.Fs.Blocks.Stable.{direct_walk}
use yu_os.Fs.Blocks.{FileAt, block_at, diskaddr, read_place, ndirect, f_direct}
use yu_os.Strings.{Bytes}
use yu_os.Fs.{Disk, s_nblocks, ok, suc, ret, pgsize, leb, ltb, true, false}
use yu_os.Fs.Files.{word_of_bytes, written_byte, disk_byte, copy_in}
use yu_os.Fs.Files.Reads.{IsStored}
use yu_os.Layout.{ret, pgsize}

-- The first blocks of the file are direct blocks on the disk, other than each other, than the super
-- block and than the one that the structure stands in.
pub record IsDirect (f : FileAt) (blocks : ℕ → ℕ) (n : ℕ) (d : Disk) : Type 0 where
  pub few : n ≤ ndirect
  pub placed : (i : ℕ) → i < n → read_place (f_direct f i) d ≡ blocks i
  pub real : (i : ℕ) → i < n → 1 < blocks i
  pub on_disk : (i : ℕ) → i < n → blocks i < s_nblocks d
  pub apart : (i : ℕ) → i < n → blocks i ≢ f.block
  pub distinct : (i j : ℕ) → i < n → j < n → blocks i ≡ blocks j → i ≡ j

pub IsStored-IsDirect :
    (f : FileAt) (blocks : ℕ → ℕ) (n : ℕ) (d : Disk) → IsDirect f blocks n d → IsStored f blocks n d
unfolding block_at diskaddr
IsStored-IsDirect f blocks n d g i h =
    direct_walk f i d (let few = g.few in omega arith) ∙ at_place (g.placed i h)
  where
    at_place :
        read_place (f_direct f i) d ≡ blocks i → block_at (f_direct f i) d ≡ ok (ret (blocks i), d)
    at_place e =
        let r = g.real i h in
        rw (e, ==-ne (blocks i) 0 (omega arith), lt→leb (s_nblocks d) (blocks i) (g.on_disk i h))
          refl

-- Byte `i` of words that were put together from bytes
word_byte :
    (byte : ℕ → ℕ)
    → ((j : ℕ) → byte j < 256)
    → (i : ℕ) → word_of_bytes byte (i / 4) / 256 ^ (i % 4) % 256 ≡ byte i
word_byte byte small i = by_rest (i % 4) refl (omega arith)
  where
    w : ℕ
    w = 4 * (i / 4)

    by_rest : (k : ℕ) → i % 4 ≡ k → k < 4 → word_of_bytes byte (i / 4) / 256 ^ k % 256 ≡ byte i
    by_rest zero e h =
        let a = small w in
        let b = small (w + 1) in
        let c = small (w + 2) in
        let d = small (w + 3) in let n : w ≡ i = omega arith in omega arith ∙ ap byte n
    by_rest (suc zero) e h =
        let a = small w in
        let b = small (w + 1) in
        let c = small (w + 2) in
        let d = small (w + 3) in let n : w + 1 ≡ i = omega arith in omega arith ∙ ap byte n
    by_rest (suc (suc zero)) e h =
        let a = small w in
        let b = small (w + 1) in
        let c = small (w + 2) in
        let d = small (w + 3) in let n : w + 2 ≡ i = omega arith in omega arith ∙ ap byte n
    by_rest (suc (suc (suc zero))) e h =
        let a = small w in
        let b = small (w + 1) in
        let c = small (w + 2) in
        let d = small (w + 3) in let n : w + 3 ≡ i = omega arith in omega arith ∙ ap byte n
    by_rest (suc (suc (suc (suc k)))) e h = absurd (omega arith)

written_small :
    (p b at n : ℕ) (buf : Bytes) (d : Disk) (i : ℕ) → written_byte p b at n buf d i < 256
written_small p b at n buf d i = ground arith

pub byte-copy_in :
    (p b at n : ℕ) (buf : Bytes) (d : Disk) (c i : ℕ)
    → disk_byte c i (copy_in p b at n buf d)
      ≡ (if b == c then written_byte p b at n buf d i else disk_byte c i d)
byte-copy_in p b at n buf d c i = elim (Bool-cases (b == c)) [
  | inl same ↦ rw same (word_byte (written_byte p b at n buf d) (written_small p b at n buf d) i)
  | inr other ↦ rw other refl
]

pub IsDirect-copy_in :
    (f : FileAt) (blocks : ℕ → ℕ) (n : ℕ) (d : Disk) (j p at k : ℕ) (buf : Bytes)
    → j < n
    → IsDirect f blocks n d
    → IsDirect f blocks n (copy_in p (blocks j) at k buf d)
IsDirect-copy_in f blocks n d j p at k buf lt g = record {
  few = g.few;
  placed = λ i h. rw (==-ne (blocks j) f.block (g.apart j lt)) (g.placed i h);
  real = g.real;
  on_disk = λ i h.
      let r = g.real j lt in rw (==-ne (blocks j) 1 (λ e. absurd (omega arith))) (g.on_disk i h);
  apart = g.apart;
  distinct = g.distinct;
}

-- A piece of a block, by the places in the file
pub in_piece :
    (offset pos k i old : ℕ) (buf : Bytes)
    → pos / pgsize ≡ i / pgsize
    → offset ≤ pos
    → (if leb (pos % pgsize) (i % pgsize) && ltb (i % pgsize) (pos % pgsize + k)
        then buf (pos - offset + (i % pgsize - pos % pgsize)) % 256
        else old)
      ≡ (if leb pos i && ltb i (pos + k) then buf (i - offset) % 256 else old)
in_piece offset pos k i old buf e low = elim (Bool-cases (leb pos i && ltb i (pos + k))) [
  | inl inside ↦ rw (inside, moved_test ∙ inside, index inside) refl
  | inr outside ↦ rw (outside, moved_test ∙ outside) refl
]
  where
    moved_test :
        (leb (pos % pgsize) (i % pgsize) && ltb (i % pgsize) (pos % pgsize + k))
        ≡ (leb pos i && ltb i (pos + k))
    moved_test = ground arith

    index :
        (leb pos i && ltb i (pos + k)) ≡ true
        → pos - offset + (i % pgsize - pos % pgsize) ≡ i - offset
    index inside = ground arith

pub off_piece :
    (pos k i : ℕ)
    → pos % pgsize + k ≤ pgsize
    → (pos / pgsize == i / pgsize) ≡ false
    → (leb pos i && ltb i (pos + k)) ≡ false
off_piece pos k i fits other = ground arith
