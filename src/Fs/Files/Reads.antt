-- ===== src/Fs/Files/Reads.antt =====
-- What file_read of fs/fs.c reads from a file whose blocks are allocated.
use yu_os.Prelude.{
  ℕ, ◌<◌, ◌+◌, ◌≡◌, ◌/◌, ◌≤◌, ◌%◌, ok, if◌then◌else◌, ◌*◌, ◌-◌, arith, leb, ◌&&◌, min, Bool-cases,
  ltb, inl, true, inr, refl, zero, ◌∙◌, Run,
}
use yu_os.Fs.Blocks.{FileAt, file_get_block, read_place, f_size}
use yu_os.Fs.{Disk, ok, pgsize, ret, leb, suc, ltb, true, Run, Reply}
use yu_os.Fs.Files.{read_blocks, piece, file_read, disk_byte, copy_out, min}
use yu_os.Strings.{Bytes}
use yu_os.Layout.{pgsize, ret, Reply}

-- The first blocks of the file, in the given order, are allocated.
abbrev pub IsStored : FileAt → (ℕ → ℕ) → ℕ → Disk → Type 0
IsStored f blocks n d = (i : ℕ) → i < n → file_get_block f i d ≡ ok (ret (blocks i), d)

-- Byte `i` of the file
abbrev pub file_byte : (ℕ → ℕ) → Disk → ℕ → ℕ
file_byte blocks d i = disk_byte (blocks (i / pgsize)) (i % pgsize) d

-- Reading moves a piece of a block; the next piece starts behind it.
pub piece-bounds :
    (stop pos : ℕ)
    → pos < stop
    → (0 < piece stop pos)
      × (pos + piece stop pos ≤ stop)
      × (pos % pgsize + piece stop pos ≤ pgsize)
piece-bounds stop pos h = (omega arith, omega arith, omega arith)

module _ (f : FileAt) (blocks : ℕ → ℕ) (d : Disk) where
  piece-bytes :
      (offset pos k i : ℕ) (buf : Bytes)
      → offset ≤ pos
      → pos % pgsize + k ≤ pgsize
      → leb (pos - offset) i && ltb i (pos - offset + k) ≡ true
      → copy_out (pos - offset) (blocks (pos / pgsize)) (pos % pgsize) k d buf i
        ≡ file_byte blocks d (offset + i)
  piece-bytes offset pos k i buf low fits inside = rw (inside, block, place) refl
    where
      block : (offset + i) / pgsize ≡ pos / pgsize
      block = ground arith

      place : (offset + i) % pgsize ≡ pos % pgsize + (i - (pos - offset))
      place = ground arith

  abbrev Reads : ℕ → ℕ → ℕ → Bytes → Bytes → Type 0
  Reads offset stop pos buf buf' =
      (i : ℕ)
      → buf' i ≡ (
          if leb (pos - offset) i && ltb i (stop - offset)
          then file_byte blocks d (offset + i)
          else buf i)

  Reads-step :
      (offset stop pos k : ℕ) (buf buf' : Bytes)
      → offset ≤ pos
      → pos + k ≤ stop
      → pos % pgsize + k ≤ pgsize
      → Reads offset stop
          (pos + k)
          (copy_out (pos - offset) (blocks (pos / pgsize)) (pos % pgsize) k d buf)
          buf'
      → Reads offset stop pos buf buf'
  Reads-step offset stop pos k buf buf' low fits piece r i =
      elim (Bool-cases (leb (pos - offset) i && ltb i (pos - offset + k))) [
        | inl inside ↦
            let e = piece-bytes offset pos k i buf low piece inside in let s = r i in ground arith
        | inr outside ↦ let s = r i in ground arith
      ]

  read_blocks_lem :
      (n offset stop pos : ℕ) (buf : Bytes) (nb : ℕ)
      → IsStored f blocks nb d
      → stop ≤ nb * pgsize
      → offset ≤ pos
      → stop - pos ≤ n
      → (buf' : Bytes) × (read_blocks n f offset stop pos buf d ≡ ok (ret (stop - offset), buf', d))
        × Reads offset stop pos buf buf'
  unfolding read_blocks
  read_blocks_lem zero offset stop pos buf nb stored long low enough =
      (buf, refl, λ i. ground arith)
  read_blocks_lem (suc n) offset stop pos buf nb stored long low enough =
      elim (Bool-cases (leb stop pos)) [
        | inl ended ↦ (buf, rw ended refl, λ i. ground arith)
        | inr more ↦
            let lt : pos < stop = ground arith in
            let b = piece-bounds stop pos lt in
            let ih =
              read_blocks_lem n offset stop (pos + piece stop pos)
                (copy_out (pos - offset) (blocks (pos / pgsize)) (pos % pgsize) (piece stop pos) d
                  buf)
                nb stored long (omega arith) (omega arith) in
            (
              ih.0,
              rw (more, stored (pos / pgsize) (omega arith)) ih.1,
              Reads-step offset stop pos (piece stop pos) buf ih.0 low b.1 b.2 ih.2,
            )
      ]

  -- If the blocks of a file are allocated up to its size, `file_read` returns the smaller of the
  -- count and what is left behind the offset, puts that many bytes of the file, from the offset on,
  -- at the start of the buffer, and changes nothing else.
  pub file_read_lem :
      (count offset : ℕ) (buf : Bytes) (nb : ℕ)
      → IsStored f blocks nb d
      → read_place (f_size f) d ≤ nb * pgsize
      → (buf' : Bytes) × (file_read f buf count offset d
          ≡ ok (ret (min count (read_place (f_size f) d - offset)), buf', d))
        × ((i : ℕ)
            → buf' i ≡ (
                if ltb i (min count (read_place (f_size f) d - offset))
                then file_byte blocks d (offset + i)
                else buf i))
  unfolding file_read
  file_read_lem count offset buf nb stored long =
      elim (Bool-cases (leb (read_place (f_size f) d) offset)) [
        | inl past ↦ (buf, rw past (at_end past), λ i. ground arith)
        | inr more ↦
            let r =
              read_blocks_lem (to_read count offset) offset (offset + to_read count offset) offset
                buf nb stored
                (let m : offset < read_place (f_size f) d = ground arith in omega arith)
                (omega arith) (omega arith) in
            (
              r.0,
              rw more (r.1 ∙ rw (add-sub offset (to_read count offset)) refl),
              λ i. r.2 i ∙ ground arith,
            )
      ]
    where
      to_read : ℕ → ℕ → ℕ
      to_read count offset = min count (read_place (f_size f) d - offset)

      add-sub : (a b : ℕ) → a + b - a ≡ b
      add-sub a b = omega arith

      at_end :
          leb (read_place (f_size f) d) offset ≡ true
          → ◌≡◌ {A = Run (Reply ℕ × Bytes × Disk)}
              (ok (ret 0, buf, d))
              (ok (ret (min count (read_place (f_size f) d - offset)), buf, d))
      at_end past =
          let e : min count (read_place (f_size f) d - offset) ≡ 0 = ground arith in rw e refl
