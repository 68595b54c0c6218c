-- ===== src/Fs/Serve.antt =====
-- The open files and the requests of fs/serv.c. Slot `i` of `opentab` stands with the `struct Fd` on
-- its page and with what `pageref` tells of that page; other programs and the kernel change the
-- counts between requests. A request page, and a page of results, gives its bytes by their index.
pub mod Table
pub mod Seek
pub mod Open
use yu_os.Prelude.{
  ℕ, update, Option, if◌then◌else◌, ◌/◌, ok, Run, leb, none, ◌^◌, ltb, ◌*◌, ◌+◌, ◌>>=◌, ◌%◌, panic,
  ◌||◌, not, ◌==◌, ◌-◌, zero,
}
use yu_os.Fs.{Disk, ltb, ret, some, err, leb, none, Run, panic, suc}
use yu_os.Layout.{Error, Reply, err, ret, max_open, word_mod, inval}
use yu_os.Strings.{Bytes}
use yu_os.Fs.Blocks.{FileAt, read_place, f_size}
use yu_os.Fs.Files.{disk_byte, file_read, file_flush, file_write}
use yu_os.Fs.Dirs.{name_length, f_type, ftype_dir}

abbrev pub maxopen : ℕ
maxopen = 1024

-- `struct Fd` of inc/fd.h
pub record Fd : Type 0 where
  pub fd_dev_id : ℕ
  pub fd_offset : ℕ
  pub fd_omode : ℕ
  pub fd_file_id : ℕ

-- `struct OpenFile`, with the page that `o_fd` points to
pub record OpenFile : Type 0 where
  pub o_fileid : ℕ
  pub o_file : Option FileAt
  pub o_mode : ℕ
  pub o_fd : Fd

pub record Server : Type 0 where
  pub disk : Disk
  pub opentab : ℕ → OpenFile
  -- `pageref(opentab[i].o_fd)`
  pub refs : ℕ → ℕ

abbrev pub no_fd : Fd
no_fd = record { fd_dev_id = 0; fd_offset = 0; fd_omode = 0; fd_file_id = 0 }

abbrev pub set_slot : ℕ → OpenFile → Server → Server
set_slot i o s = record s { opentab = update s.opentab i o }

-- The addresses of the pages are given by the slots.
unfoldable pub serve_init : Server → Server
serve_init s = record s {
  opentab = λ i. if ltb i maxopen then record (s.opentab i) { o_fileid = i } else s.opentab i;
}

-- `sys_page_alloc(0, o_fd, ...)`: the kernel's error, or none, for a slot
abbrev pub PageAlloc : Type 0
PageAlloc = ℕ → Server → Option Error

-- `opentab[i].o_fileid += MAXOPEN`, and the page is cleared. The reply is the slot.
abbrev pub take_slot : ℕ → Server → Reply ℕ × Server
take_slot i s = (
  ret i,
  set_slot i
      (record (s.opentab i) {
        o_fileid = ((s.opentab i).o_fileid + maxopen) % word_mod;
        o_fd = no_fd;
      })
      s,
)

abbrev pub with_page : Option Error → ℕ → Server → Reply ℕ × Server
with_page (some e) i s = (err e, s)
with_page none i s = take_slot i (record s { refs = update s.refs i 1 })

-- The loop of `openfile_alloc`, from slot `i` with so many rounds left
unfoldable pub openfile_from : PageAlloc → ℕ → ℕ → Server → Reply ℕ × Server
openfile_from alloc zero i s = (err max_open, s)
openfile_from alloc (suc n) i s =
    let rest = openfile_from alloc n (i + 1) s in
    if s.refs i == 0
    then with_page (alloc i s) i s
    else if s.refs i == 1
    then take_slot i s
    else rest

unfoldable pub openfile_alloc : PageAlloc → Server → Reply ℕ × Server
openfile_alloc alloc s = openfile_from alloc maxopen 0 s

unfoldable pub openfile_lookup : ℕ → Server → Reply ℕ
openfile_lookup fileid s =
    if leb (s.refs (fileid % maxopen)) 1 || not ((s.opentab (fileid % maxopen)).o_fileid == fileid)
    then err inval
    else ret (fileid % maxopen)

-- What a request comes to: the result, the page of results, and the slot whose page is sent
pub record Answer : Type 0 where
  pub r : Reply ℕ
  pub page : Bytes
  pub pg : Option ℕ

abbrev pub says : Reply ℕ → Bytes → Answer
says r page = record { r = r; page = page; pg = none }

-- A handler, which reads the request page
abbrev pub Handler : Type 0
Handler = Bytes → Server → Run (Answer × Server)

abbrev pub fails : Error → Handler
fails e page s = ok (says (err e) page, s)

-- Word `i` of the request page
abbrev pub req_word : Bytes → ℕ → ℕ
req_word page i =
    page (4 * i) + 256 * page (4 * i + 1) + 65536 * page (4 * i + 2) + 16777216 * page (4 * i + 3)

-- A slot whose page is shared holds an open file; the server reads through `o_file`.
abbrev pub the_file : Option FileAt → Run FileAt
the_file none = panic
the_file (some f) = ok f

-- `if ((r = openfile_lookup(...)) < 0) return r;`, with the code that follows
abbrev pub with_file : Reply ℕ → (ℕ → FileAt → Handler) → Handler
with_file (err e) next page s = fails e page s
with_file (ret i) next page s = do f ← the_file (s.opentab i).o_file; next i f page s

-- `o->o_fd->fd_offset += r`
abbrev pub advance : ℕ → ℕ → Disk → Server → Server
advance i r d s =
    set_slot i
      (record (s.opentab i) {
        o_fd = record ((s.opentab i).o_fd) { fd_offset = (s.opentab i).o_fd.fd_offset + r };
      })
      (record s { disk = d })

abbrev pub moved : ℕ → Reply ℕ → Bytes → Disk → Server → Answer × Server
moved i (err e) page d s = (says (err e) page, record s { disk = d })
moved i (ret r) page d s = (says (ret r) page, advance i r d s)

-- `req_n` bytes are read to the start of the page.
abbrev pub read_at : ℕ → FileAt → Handler
read_at i f page s = do
  (r, page', d) ← file_read f page (req_word page 1) (s.opentab i).o_fd.fd_offset s.disk
  ok (moved i r page' d s)

unfoldable pub serve_read : Handler
serve_read page s = with_file (openfile_lookup (req_word page 0) s) read_at page s

-- `req_buf` stands behind two words.
abbrev pub write_at : ℕ → FileAt → Handler
write_at i f page s = do
  (r, d) ← file_write f (λ j. page (8 + j)) (req_word page 1) (s.opentab i).o_fd.fd_offset s.disk
  ok (moved i r page d s)

unfoldable pub serve_write : Handler
serve_write page s = with_file (openfile_lookup (req_word page 0) s) write_at page s

-- Byte `i` of `ret->ret_name`, `ret_size` and `ret_isdir`, of which the last two are words; `strcpy`
-- stops behind the null byte of the name.
abbrev pub byte_of : ℕ → ℕ → ℕ
byte_of w i = w / 256 ^ i % 256

abbrev pub stat_page : FileAt → Disk → Bytes → Bytes
stat_page f d page i =
    let name : Bytes = λ j. disk_byte f.block (4 * f.base + j) d in
    if leb i (name_length name)
    then name i
    else if ltb i 128
    then page i
    else if ltb i 132
    then byte_of (read_place (f_size f) d) (i - 128)
    else if ltb i 136
    then byte_of (if read_place (f_type f) d == ftype_dir then 1 else 0) (i - 132)
    else page i

unfoldable pub serve_stat : Handler
serve_stat page s =
    with_file (openfile_lookup (req_word page 0) s)
      (λ i f page s. ok (says (ret 0) (stat_page f s.disk page), s)) page s

abbrev pub flush_file : ℕ → FileAt → Handler
flush_file i f page s = do d ← file_flush f s.disk; ok (says (ret 0) page, record s { disk = d })

unfoldable pub serve_flush : Handler
serve_flush page s = with_file (openfile_lookup (req_word page 0) s) flush_file page s
