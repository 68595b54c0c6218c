-- ===== src/Fs/Files/Writes.antt =====
-- What file_write of fs/fs.c writes to a file of direct blocks.
use yu_os.Prelude.{
  ℕ, ◌<◌, ◌/◌, ◌≤◌, ==-ne, ◌≡◌, arith, ◌%◌, if◌then◌else◌, ◌==◌, ok, ◌*◌, Bool-cases, ◌≢◌, ◌+◌, inl,
  ◌∙◌, zero, inr, refl, ap, ◌-◌, leb, ◌&&◌, ltb, false, Run, true, ==_iff, ==_refl, le→ltb, min,
  ltb→lt,
}
use yu_os.Fs.Blocks.{FileAt, read_place, f_size}
use yu_os.Strings.{Bytes}
use yu_os.Fs.{Disk, ok, suc, ret, pgsize, leb, ltb, true, false, Run, Reply}
use yu_os.Fs.Files.{disk_byte, copy_in, write_blocks, piece, file_write, file_read, min}
use yu_os.Fs.Files.Reads.{file_byte, piece-bounds, file_read_lem}
use yu_os.Layout.{ret, pgsize, Reply}
use yu_os.Fs.Files.Pieces.{
  IsDirect, IsStored-IsDirect, byte-copy_in, IsDirect-copy_in, in_piece, off_piece,
}

module _ (f : FileAt) (blocks : ℕ → ℕ) (n : ℕ) where
  -- The bytes of the file after a write of the buffer from `pos` to `stop`; `offset` is where the
  -- buffer starts.
  abbrev Writes : ℕ → ℕ → ℕ → Bytes → Disk → Disk → Type 0
  Writes offset stop pos buf d d' =
      (i : ℕ)
      → i < n * pgsize
      → file_byte blocks d' i
        ≡ (if leb pos i && ltb i stop then buf (i - offset) % 256 else file_byte blocks d i)

  -- one piece
  Writes-copy_in :
      (offset pos k : ℕ) (buf : Bytes) (d : Disk)
      → IsDirect f blocks n d
      → offset ≤ pos
      → pos + k ≤ n * pgsize
      → 0 < k
      → pos % pgsize + k ≤ pgsize
      → Writes offset
          (pos + k)
          pos
          buf
          d
          (copy_in (pos - offset) (blocks (pos / pgsize)) (pos % pgsize) k buf d)
  Writes-copy_in offset pos k buf d g low long some_bytes fits i lt =
      byte-copy_in (pos - offset) (blocks (pos / pgsize)) (pos % pgsize) k buf d
        (blocks (i / pgsize)) (i % pgsize)
      ∙ elim (Bool-cases (pos / pgsize == i / pgsize)) [
        | inl same ↦
            let e : pos / pgsize ≡ i / pgsize = (==_iff (pos / pgsize) (i / pgsize)).0 same in
            rw (e, ==_refl (blocks (i / pgsize)))
              (in_piece offset pos k i (disk_byte (blocks (i / pgsize)) (i % pgsize) d) buf e low)
        | inr other ↦ rw (==-ne _ _ (elsewhere other), off_piece pos k i fits other) refl
      ]
    where
      elsewhere : (pos / pgsize == i / pgsize) ≡ false → blocks (pos / pgsize) ≢ blocks (i / pgsize)
      elsewhere other e =
          let same = g.distinct (pos / pgsize) (i / pgsize) (omega arith) (omega arith) e in
          absurd (ground arith)

  Writes-then :
      (offset stop pos k : ℕ) (buf : Bytes) (d d1 d2 : Disk)
      → pos + k ≤ stop
      → Writes offset (pos + k) pos buf d d1
      → Writes offset stop (pos + k) buf d1 d2
      → Writes offset stop pos buf d d2
  Writes-then offset stop pos k buf d d1 d2 le u v i lt =
      let a = u i lt in let b = v i lt in ground arith

  -- What a write does to the disk of the file
  abbrev Written : ℕ → ℕ → ℕ → Bytes → Disk → Run (Reply ℕ × Disk) → Type 0
  Written offset stop pos buf d run =
      (d' : Disk) × (run ≡ ok (ret (stop - offset), d'))
      × IsDirect f blocks n d'
      × Writes offset stop pos buf d d'
      × (read_place (f_size f) d' ≡ read_place (f_size f) d)

  size_kept :
      (d : Disk) (j p at k : ℕ) (buf : Bytes)
      → j < n
      → IsDirect f blocks n d
      → read_place (f_size f) (copy_in p (blocks j) at k buf d) ≡ read_place (f_size f) d
  size_kept d j p at k buf lt g = rw (==-ne (blocks j) f.block (g.apart j lt)) refl

  write_blocks_lem :
      (m offset stop pos : ℕ) (buf : Bytes) (d : Disk)
      → IsDirect f blocks n d
      → stop ≤ n * pgsize
      → offset ≤ pos
      → stop - pos ≤ m
      → Written offset stop pos buf d (write_blocks m f offset stop pos buf d)
  unfolding write_blocks
  write_blocks_lem zero offset stop pos buf d g long low enough =
      (d, refl, g, (λ i lt. ground arith), refl)
  write_blocks_lem (suc m) offset stop pos buf d g long low enough =
      elim (Bool-cases (leb stop pos)) [
        | inl ended ↦ (d, rw ended refl, g, (λ i lt. ground arith), refl)
        | inr more ↦
            let lt : pos < stop = ground arith in
            let b = piece-bounds stop pos lt in
            let k = piece stop pos in
            let d1 = copy_in (pos - offset) (blocks (pos / pgsize)) (pos % pgsize) k buf d in
            let ih =
              write_blocks_lem m offset stop (pos + k) buf d1
                (IsDirect-copy_in f blocks n d (pos / pgsize) (pos - offset) (pos % pgsize) k buf
                  (omega arith) g)
                long (omega arith) (omega arith) in
            (
              ih.0,
              rw (more, IsStored-IsDirect f blocks n d g (pos / pgsize) (omega arith)) ih.1,
              ih.2,
              Writes-then offset stop pos k buf d d1 ih.0 b.1
                  (Writes-copy_in offset pos k buf d g low (omega arith) b.0 b.2) ih.3,
              ih.4 ∙ size_kept d (pos / pgsize) (pos - offset) (pos % pgsize) k buf (omega arith) g,
            )
      ]

  file_write_lem :
      (count offset : ℕ) (buf : Bytes) (d : Disk)
      → IsDirect f blocks n d
      → offset + count ≤ read_place (f_size f) d
      → read_place (f_size f) d ≤ n * pgsize
      → Written offset (offset + count) offset buf d (file_write f buf count offset d)
  unfolding file_write
  file_write_lem count offset buf d g inside long =
      rw (le→ltb (read_place (f_size f) d) (offset + count) inside) (
        write_blocks_lem count offset (offset + count) offset buf d g (omega arith) (omega arith)
          (omega arith))

  read_back :
      (count offset : ℕ) (buf page : Bytes) (d d' : Disk)
      → ((i : ℕ)
          → i < offset + count
          → file_byte blocks d' i ≡ (
              if leb offset i && ltb i (offset + count)
              then buf (i - offset) % 256
              else file_byte blocks d i))
      → (i : ℕ)
      → (if ltb i count then file_byte blocks d' (offset + i) else page i)
        ≡ (if ltb i count then buf i % 256 else page i)
  read_back count offset buf page d d' bytes i = elim (Bool-cases (ltb i count)) [
    | inl lt ↦ rw lt (
        bytes (offset + i) (let h = ltb→lt i count lt in omega arith)
        ∙ rw (within lt, add-sub offset i) refl)
    | inr ge ↦ rw ge refl
  ]
    where
      within :
          ltb i count ≡ true → (leb offset (offset + i) && ltb (offset + i) (offset + count)) ≡ true
      within lt = ground arith

      add-sub : (a b : ℕ) → a + b - a ≡ b
      add-sub a b = omega arith

  -- A write that stays within the size of a file of at most ten blocks, which stand on the disk
  -- apart from each other, from the super block and from the one of the structure, succeeds;
  -- reading at the same offset gives the bytes that were written and changes nothing on the disk,
  -- and of the bytes of the file only those have changed.
  pub file_read-file_write :
      (count offset : ℕ) (buf page : Bytes) (d : Disk)
      → IsDirect f blocks n d
      → offset + count ≤ read_place (f_size f) d
      → read_place (f_size f) d ≤ n * pgsize
      → (d' : Disk) × (page' : Bytes) × (file_write f buf count offset d ≡ ok (ret count, d'))
        × (file_read f page count offset d' ≡ ok (ret count, page', d'))
        × ((i : ℕ) → page' i ≡ (if ltb i count then buf i % 256 else page i))
        × ((i : ℕ)
            → i < n * pgsize
            → file_byte blocks d' i ≡ (
                if leb offset i && ltb i (offset + count)
                then buf (i - offset) % 256
                else file_byte blocks d i))
  file_read-file_write count offset buf page d g inside long =
      let w = file_write_lem count offset buf d g inside long in
      let r =
        file_read_lem f blocks w.0 count offset page n (IsStored-IsDirect f blocks n w.0 w.2)
          (rw w.4 long) in
      (
        w.0,
        r.0,
        w.1 ∙ ap (λ c. ok (ret c, w.0)) (back count),
        r.1 ∙ ap (λ c. ok (ret c, r.0, w.0)) (whole w.0 w.4),
        λ i.
            r.2 i
            ∙ ap (λ c. if ltb i c then file_byte blocks w.0 (offset + i) else page i)
                (whole w.0 w.4)
            ∙ read_back count offset buf page d w.0 (λ j lt. w.3 j (omega arith)) i,
        w.3,
      )
    where
      back : (count : ℕ) → offset + count - offset ≡ count
      back count = omega arith

      whole :
          (d' : Disk)
          → read_place (f_size f) d' ≡ read_place (f_size f) d
          → min count (read_place (f_size f) d' - offset) ≡ count
      whole d' e = rw e (omega arith)
