-- ===== src/Fs/Files.antt =====
-- Reading, writing and flushing a file: file_read, file_write and file_flush of fs/fs.c.
-- Offsets and sizes are not negative as an off_t and their sums stay below 2^31. A buffer gives its
-- bytes by their index. The calls of memmove move bytes between a buffer and a block, which do not
-- overlap.
pub mod Reads
pub mod Pieces
pub mod Writes
use yu_os.Prelude.{
  ℕ, min, ◌*◌, update, ◌/◌, ◌+◌, if◌then◌else◌, Run, true, ok, ◌-◌, leb, ◌^◌, ◌>>=◌, ltb, ◌&&◌, ◌%◌,
  ◌==◌, false, zero,
}
use yu_os.Fs.Blocks.{
  FileAt, Place, read_place, blocks_of_size, f_size, file_set_size, f_indirect, file_block_walk,
  file_get_block, diskaddr,
}
use yu_os.Fs.{Disk, update, pgsize, Run, leb, true, err, ok, ret, ltb, suc, flush_block, false}
use yu_os.Strings.{Bytes}
use yu_os.Layout.{Reply, pgsize, Error, ret}

-- Byte `i` of a block, in little-endian words
abbrev pub disk_byte : ℕ → ℕ → Disk → ℕ
disk_byte b i d = d.word b (i / 4) / 256 ^ (i % 4) % 256

-- `memmove(buf, blk + at, n)`, at place `p` of the buffer
abbrev pub copy_out : ℕ → ℕ → ℕ → ℕ → Disk → Bytes → Bytes
copy_out p b at n d buf i = if leb p i && ltb i (p + n) then disk_byte b (at + (i - p)) d else buf i

-- Byte `i` of the block after `memmove(blk + at, buf, n)`
abbrev pub written_byte : ℕ → ℕ → ℕ → ℕ → Bytes → Disk → ℕ → ℕ
written_byte p b at n buf d i =
    if leb at i && ltb i (at + n) then buf (p + (i - at)) % 256 else disk_byte b i d

abbrev pub word_of_bytes : (ℕ → ℕ) → ℕ → ℕ
word_of_bytes byte w =
    byte (4 * w) + 256 * byte (4 * w + 1) + 65536 * byte (4 * w + 2) + 16777216 * byte (4 * w + 3)

abbrev pub copy_in : ℕ → ℕ → ℕ → ℕ → Bytes → Disk → Disk
copy_in p b at n buf d = record d {
  word = update d.word b (word_of_bytes (written_byte p b at n buf d));
  dirty = update d.dirty b true;
}

-- `if ((r = file_get_block(...)) < 0) return r;`, with the code that follows
abbrev pub on_block {ℓ κ} : {A : Type ℓ} {B : Type κ} → Reply A → (Error → B) → (A → B) → B
on_block (err e) fails next = fails e
on_block (ret b) fails next = next b

-- `MIN(BLKSIZE - pos % BLKSIZE, offset + count - pos)`
abbrev pub piece : ℕ → ℕ → ℕ
piece stop pos = min (pgsize - pos % pgsize) (stop - pos)

-- The loop of `file_read`, with so many rounds left; `stop` is `offset + count`. What is read comes
-- with the result, which is `count` at the end.
unfoldable pub read_blocks : ℕ → FileAt → ℕ → ℕ → ℕ → Bytes → Disk → Run (Reply ℕ × Bytes × Disk)
read_blocks zero f offset stop pos buf d = ok (ret (stop - offset), buf, d)
read_blocks (suc n) f offset stop pos buf d =
    if leb stop pos then ok (ret (stop - offset), buf, d) else (do
      (r, d) ← file_get_block f (pos / pgsize) d
      on_block r (λ e. ok (err e, buf, d))
          (λ b.
            read_blocks n f offset stop (pos + piece stop pos)
              (copy_out (pos - offset) b (pos % pgsize) (piece stop pos) d buf) d))

-- Each round reads at least a byte.
unfoldable pub file_read : FileAt → Bytes → ℕ → ℕ → Disk → Run (Reply ℕ × Bytes × Disk)
file_read f buf count offset d =
    let size = read_place (f_size f) d in
    if leb size offset
    then ok (ret 0, buf, d)
    else (let count = min count (size - offset) in
        read_blocks count f offset (offset + count) offset buf d)

-- The loop of `file_write`
unfoldable pub write_blocks : ℕ → FileAt → ℕ → ℕ → ℕ → Bytes → Disk → Run (Reply ℕ × Disk)
write_blocks zero f offset stop pos buf d = ok (ret (stop - offset), d)
write_blocks (suc n) f offset stop pos buf d =
    if leb stop pos then ok (ret (stop - offset), d) else (do
      (r, d) ← file_get_block f (pos / pgsize) d
      on_block r (λ e. ok (err e, d))
          (λ b.
            write_blocks n f offset stop (pos + piece stop pos) buf
              (copy_in (pos - offset) b (pos % pgsize) (piece stop pos) buf d)))

unfoldable pub file_write : FileAt → Bytes → ℕ → ℕ → Disk → Run (Reply ℕ × Disk)
file_write f buf count offset d = do
  d ←
      (if ltb (read_place (f_size f) d) (offset + count)
        then file_set_size f (offset + count) d
        else ok d)
  write_blocks count f offset (offset + count) offset buf d

-- The block in the place, if there is one, goes to the disk.
abbrev pub flush_place : Place → Disk → Run Disk
flush_place p d =
    if read_place p d == 0 then ok d else (do b ← diskaddr (read_place p d) d; ok (flush_block b d))

-- The loop of `file_flush`, from block `i` with so many rounds left
unfoldable pub flush_blocks : ℕ → FileAt → ℕ → Disk → Run Disk
flush_blocks zero f i d = ok d
flush_blocks (suc n) f i d = do
  (r, d) ← file_block_walk f i false d
  d ← on_block r (λ e. ok d) (λ p. flush_place p d)
  flush_blocks n f (i + 1) d

unfoldable pub file_flush : FileAt → Disk → Run Disk
file_flush f d = do
  d ← flush_blocks (blocks_of_size (read_place (f_size f) d)) f 0 d
  flush_place (f_indirect f) (flush_block f.block d)
