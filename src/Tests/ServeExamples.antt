-- ===== src/Tests/ServeExamples.antt =====
-- The theorems on files and requests at a disk whose root directory holds the file "hi" of the text
-- "hello".
use yu_os.Prelude.{
  ℕ, Option, arith, update, if◌then◌else◌, none, ◌==◌, ◌∷◌, ◌≡◌, ==-ne, ok, [], leb, some, refl,
  ◌+◌, sym, ltb, ◌*◌, false, ◌%◌, ◌<◌, ◌&&◌, ◌-◌, List, Bool-cases, inl, ==_iff, inr, length,
}
use yu_os.Fs.Dirs.{dir_lookup, search_dir, s_root, entry, first_entry, is_named}
use yu_os.Fs.Files.Reads.{IsStored, file_byte, file_read_lem}
use yu_os.Fs.Blocks.{file_get_block, file_block_walk, FileAt, block_at, diskaddr}
use yu_os.Fs.Serve.{
  openfile_lookup, Server, PageAlloc, openfile_alloc, openfile_from, req_word, no_fd,
}
use yu_os.Strings.{Bytes, strcmp}
use yu_os.Fs.Serve.Table.{
  IsTable, openfile_alloc-FileAlloc, Taken, Taken-openfile_lookup, FileAlloc,
}
use yu_os.Fs.{Disk}
use yu_os.Fs.Serve.Seek.{IsOpen}
use yu_os.Tests.Machine.{words}
use yu_os.Fs.Files.{file_read, file_write, disk_byte}
use yu_os.Fs.Dirs.Names.{AreNames}
use yu_os.Fs.Dirs.Lookup.{answer, Finds, dir_lookup-Finds}
use yu_os.Layout.{err, ret, inval, pgsize}
use yu_os.Fs.Files.Pieces.{IsDirect}
use yu_os.Fs.Files.Writes.{file_read-file_write}
use yu_os.Strings.Text.{Holds}

abbrev disk : Disk
disk = record {
  word = λ b.
      if b == 1
      then words ((0, 0x4A0530AE) ∷ (1, 40) ∷ (34, 4096) ∷ (35, 1) ∷ (36, 3) ∷ [])
      else if b == 3
      then words ((0, b'h' + 256 * b'i') ∷ (32, 5) ∷ (34, 4) ∷ [])
      else if b == 4
      then words ((0, b'h' + 256 * b'e' + 65536 * b'l' + 16777216 * b'l') ∷ (1, b'o') ∷ [])
      else words [];
  image = λ b. words [];
  dirty = λ b. false;
}

abbrev hi : Bytes
hi = words ((0, b'h') ∷ (1, b'i') ∷ [])

root_block : file_get_block s_root 0 disk ≡ ok (ret 3, disk)
unfolding file_get_block file_block_walk block_at diskaddr
root_block = refl

root-IsStored : IsStored s_root (λ i. 3) 1 disk
root-IsStored i h = let e : i ≡ 0 = omega arith in rw e root_block

-- The first entry of the root is found.
found : dir_lookup s_root hi disk ≡ ok (ret (entry 3 0), disk)
unfolding dir_lookup search_dir file_get_block file_block_walk block_at diskaddr first_entry
    is_named strcmp
found = refl

-- The first entry is named "hi", and the others have no name.
abbrev entry_names : ℕ → ℕ → List ℕ
entry_names b j = if j == 0 then b'h' ∷ b'i' ∷ [] else []

root-AreNames : AreNames entry_names (λ i. 3) 1 disk
root-AreNames = record { held = λ b j h l. held_at j l; short = λ b j h l. short_at j }
  where
    held_at : (j : ℕ) → j < 16 → Holds (λ a. disk_byte 3 a disk) (256 * j) (entry_names 0 j)
    held_at j l = elim (Bool-cases (j == 0)) [
      | inl e ↦ rw (e, (==_iff j 0).0 e) (refl, omega arith, (refl, omega arith, refl))
      | inr e ↦ rw e (ground arith)
    ]

    short_at : (j : ℕ) → length (entry_names 0 j) < 128
    short_at j = elim (Bool-cases (j == 0)) [
      | inl e ↦ rw e (omega arith)
      | inr e ↦ rw e (omega arith)
    ]

hi-bytes : (i : ℕ) → hi i < 256
hi-bytes i = ground arith

dir_lookup-Finds_example :
    (o : Option FileAt) × (dir_lookup s_root hi disk ≡ ok (answer o, disk))
    × Finds entry_names (b'h' ∷ b'i' ∷ []) (λ i. 3) 1 o
dir_lookup-Finds_example =
    dir_lookup-Finds s_root (λ i. 3) 1 hi disk entry_names (b'h' ∷ b'i' ∷ []) root-IsStored refl
      root-AreNames hi-bytes (refl, omega arith, (refl, omega arith, refl))

file_block : file_get_block (entry 3 0) 0 disk ≡ ok (ret 4, disk)
unfolding file_get_block file_block_walk block_at diskaddr
file_block = refl

file-IsStored : IsStored (entry 3 0) (λ i. 4) 1 disk
file-IsStored i h = let e : i ≡ 0 = omega arith in rw e file_block

-- Reading goes to the end of the file only.
file_read_lem_example :
    (buf : Bytes) × (file_read (entry 3 0) (λ i. 0) 100 2 disk ≡ ok (ret 3, buf, disk))
    × ((i : ℕ) → buf i ≡ (if ltb i 3 then file_byte (λ i. 4) disk (2 + i) else 0))
file_read_lem_example =
    file_read_lem (entry 3 0) (λ i. 4) disk 100 2 (λ i. 0) 1 file-IsStored (omega arith)

abbrev request : Bytes
request = words ((0, 3) ∷ (1, 4) ∷ (4, 100) ∷ [])

file-IsDirect : IsDirect (entry 3 0) (λ i. 4) 1 disk
file-IsDirect = record {
  few = omega arith;
  placed = λ i h. let e : i ≡ 0 = omega arith in rw e refl;
  real = λ i h. omega arith;
  on_disk = λ i h. omega arith;
  apart = λ i h. omega arith;
  distinct = λ i j h g e. omega arith;
}

-- Three bytes from the second one on
file_read-file_write_example :
    (d : Disk) × (page : Bytes) × (file_write (entry 3 0) request 3 1 disk ≡ ok (ret 3, d))
    × (file_read (entry 3 0) (λ i. 0) 3 1 d ≡ ok (ret 3, page, d))
    × ((i : ℕ) → page i ≡ (if ltb i 3 then request i % 256 else 0))
    × ((i : ℕ)
        → i < 1 * pgsize
        → file_byte (λ i. 4) d i
          ≡ (if leb 1 i && ltb i 4 then request (i - 1) % 256 else file_byte (λ i. 4) disk i))
file_read-file_write_example =
    file_read-file_write (entry 3 0) (λ i. 4) 1 3 1 request (λ i. 0) disk file-IsDirect
      (omega arith) (omega arith)

-- Slot 3 is shared with a client; slot 0 is free, and the others are taken.
abbrev server : Server
server = record {
  disk = disk;
  opentab = λ i. record {
    o_fileid = if i == 3 then 1027 else i;
    o_file = if i == 3 then some (entry 3 0) else none;
    o_mode = 0;
    o_fd = no_fd;
  };
  refs = λ i. if i == 0 then 0 else 2;
}

file-IsOpen : IsOpen server (req_word request 0) 3 (entry 3 0) (λ i. 4) 1
unfolding openfile_lookup
file-IsOpen = record { slot = refl; file = refl; stored = file-IsStored; short = omega arith }

-- Memory is left for a page.
abbrev memory : PageAlloc
memory i s = none

openfile_alloc-FileAlloc_example : FileAlloc memory server 0 (openfile_alloc memory server)
openfile_alloc-FileAlloc_example = openfile_alloc-FileAlloc memory server

abbrev reopened : Server
reopened = (openfile_alloc memory server).1

server-IsTable : IsTable server
server-IsTable = record { named = λ i h. ground arith; is_word = λ i h. ground arith }

slot-Taken : Taken server 0 reopened
unfolding openfile_alloc openfile_from
slot-Taken = record {
  in_table = omega arith;
  unused = omega arith;
  new_id = refl;
  cleared = refl;
  same_file = refl;
  same_mode = refl;
  held = refl;
  others = λ j ne. (rw (==-ne 0 j (λ e. ne (sym e))) refl, rw (==-ne 0 j (λ e. ne (sym e))) refl);
  same_disk = refl;
}

Taken-openfile_lookup_example :
    IsTable reopened
    × ((n : ℕ)
        → openfile_lookup
            ((reopened.opentab 0).o_fileid)
            (record reopened { refs = update reopened.refs 0 n })
          ≡ (if leb n 1 then err inval else ret 0))
    × ((n : ℕ)
        → openfile_lookup
            ((server.opentab 0).o_fileid)
            (record reopened { refs = update reopened.refs 0 n })
          ≡ err inval)
Taken-openfile_lookup_example = Taken-openfile_lookup server reopened 0 server-IsTable slot-Taken
