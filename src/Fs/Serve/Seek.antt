-- ===== src/Fs/Serve/Seek.antt =====
-- Requests to read go through a file in order.
use yu_os.Prelude.{ℕ, min, ◌≡◌, ok, ◌-◌, some, if◌then◌else◌, ◌≤◌, ltb, ◌*◌, ◌+◌, ap, ◌∙◌, ◌>>=◌}
use yu_os.Fs.Serve.{
  serve_read, Server, openfile_lookup, Bytes, req_word, ret, ok, says, some, advance, ltb,
  file_read, with_file, read_at, the_file, moved,
}
use yu_os.Fs.Blocks.{FileAt, read_place, f_size}
use yu_os.Strings.{Bytes}
use yu_os.Layout.{ret, pgsize}
use yu_os.Fs.Files.Reads.{IsStored, file_byte, file_read_lem}
use yu_os.Fs.Files.{file_read}

-- A shared slot of the given id, with an open file whose blocks are allocated
pub record IsOpen (s : Server) (fileid i : ℕ) (f : FileAt) (blocks : ℕ → ℕ) (n : ℕ) : Type 0 where
  pub slot : openfile_lookup fileid s ≡ ret i
  pub file : (s.opentab i).o_file ≡ some f
  pub stored : IsStored f blocks n s.disk
  pub short : read_place (f_size f) s.disk ≤ n * pgsize

abbrev pub left_to_read : ℕ → ℕ → FileAt → Server → ℕ
left_to_read count i f s = min count (read_place (f_size f) s.disk - (s.opentab i).o_fd.fd_offset)

-- A request to read an open file, whose blocks are allocated up to its size, is answered with the
-- bytes from the seek position on, as many as are asked for and left, and moves the position on by
-- that number.
pub serve_read_lem :
    (page : Bytes) (s : Server) (i : ℕ) (f : FileAt) (blocks : ℕ → ℕ) (n : ℕ)
    → IsOpen s (req_word page 0) i f blocks n
    → (page' : Bytes) × (serve_read page s
        ≡ ok (
          says (ret (left_to_read (req_word page 1) i f s)) page',
          advance i (left_to_read (req_word page 1) i f s) s.disk s,
        ))
      × ((j : ℕ)
          → page' j ≡ (
              if ltb j (left_to_read (req_word page 1) i f s)
              then file_byte blocks s.disk ((s.opentab i).o_fd.fd_offset + j)
              else page j))
unfolding serve_read
serve_read_lem page s i f blocks n o =
    let r =
      file_read_lem f blocks s.disk (req_word page 1) (s.opentab i).o_fd.fd_offset page n o.stored
        o.short in
    (r.0, run r.0 r.1, r.2)
  where
    run :
        (page' : Bytes)
        → file_read f page (req_word page 1) (s.opentab i).o_fd.fd_offset s.disk
          ≡ ok (ret (left_to_read (req_word page 1) i f s), page', s.disk)
        → with_file (openfile_lookup (req_word page 0) s) read_at page s
          ≡ ok (
            says (ret (left_to_read (req_word page 1) i f s)) page',
            advance i (left_to_read (req_word page 1) i f s) s.disk s,
          )
    run page' e =
        ap (λ r. with_file r read_at page s) o.slot
        ∙ ap (λ g. the_file g >>= (λ f. read_at i f page s)) o.file
        ∙ ap (λ m. m >>= (λ (r, page', d). ok (moved i r page' d s))) e
