-- ===== src/Fs/Serve/Open.antt =====
-- Opening a file and the choice of the handler: serve_open and one round of serve in fs/serv.c.
use yu_os.Prelude.{
  ℕ, Option, Run, Bool, if◌then◌else◌, ltb, true, ok, ◌==◌, leb, panic, some, false, ◌>>=◌, ◌-◌,
  ◌^◌, not, bit_and, ◌&&◌, none,
}
use yu_os.Strings.{Bytes}
use yu_os.Fs.Blocks.{FileAt, file_set_size}
use yu_os.Fs.Serve.{
  PageAlloc, Server, Handler, Disk, err, openfile_alloc, Answer, set_slot, fails, req_word,
  serve_read, not, serve_write, says, serve_stat, serve_flush, inval,
}
use yu_os.Layout.{Error, Reply, flag, file_exists, inval, pte_p}
use yu_os.Fs.{Disk, ltb, true, ret, flag, false, some, panic, ok, leb, bit_and, none}
use yu_os.Fs.Dirs.{file_open, maxpathlen, file_create}

abbrev pub o_accmode : ℕ
o_accmode = 0x3

abbrev pub o_creat : ℕ
o_creat = 0x100

abbrev pub o_trunc : ℕ
o_trunc = 0x200

abbrev pub o_excl : ℕ
o_excl = 0x400

-- `devfile.dev_id`, 'f'
abbrev pub devfile_id : ℕ
devfile_id = 102

-- `memmove(path, req->req_path, MAXPATHLEN); path[MAXPATHLEN-1] = 0;`
abbrev pub path_of : Bytes → Bytes
path_of page i = if ltb i (maxpathlen - 1) then page i else 0

-- `file_open(path, &f)`, which leaves `f` as it is on an error
abbrev pub Opened : Type 0
Opened = Run (Reply FileAt × Disk)

abbrev pub is_file_exists : Error → Bool
is_file_exists file_exists = true
is_file_exists _ = false

-- What follows `file_create`
abbrev pub try_open : ℕ → Bytes → Reply FileAt → Disk → Opened
try_open omode path (ret f) d = file_open path d
try_open omode path (err e) d =
    if not (flag omode o_excl) && is_file_exists e then file_open path d else ok (err e, d)

-- `if (req->req_omode & O_CREAT)`: the reply holds `f`, which is not set without the flag.
abbrev pub some_file : Reply FileAt → Reply (Option FileAt)
some_file (err e) = err e
some_file (ret f) = ret (some f)

unfoldable pub create_part : ℕ → Bytes → Disk → Run (Reply (Option FileAt) × Disk)
create_part omode path d =
    if flag omode o_creat
    then (do (r, d) ← file_create path d; (r, d) ← try_open omode path r d; ok (some_file r, d))
    else ok (ret none, d)

-- `if (req->req_omode & O_TRUNC)`: without a file, the pointer that is used was never set.
abbrev pub trunc_part : ℕ → Option FileAt → Disk → Run Disk
trunc_part omode none d = if flag omode o_trunc then panic else ok d
trunc_part omode (some f) d = if flag omode o_trunc then file_set_size f 0 d else ok d

-- The slot is filled in, and its page sent.
abbrev pub fill_slot : ℕ → ℕ → FileAt → Server → Server
fill_slot i omode f s =
    set_slot i
      (record (s.opentab i) {
        o_file = some f;
        o_mode = omode;
        o_fd = record ((s.opentab i).o_fd) {
          fd_file_id = (s.opentab i).o_fileid;
          fd_omode = bit_and omode o_accmode;
          fd_dev_id = devfile_id;
        };
      })
      s

-- What follows the last `file_open`
abbrev pub open_ends : ℕ → ℕ → Reply FileAt → Handler
open_ends i omode (err e) page s = fails e page s
open_ends i omode (ret f) page s =
    ok (record { r = ret 0; page = page; pg = some i }, fill_slot i omode f s)

-- What follows the creation
abbrev pub open_created : ℕ → ℕ → Bytes → Reply (Option FileAt) → Handler
open_created i omode path (err e) page s = fails e page s
open_created i omode path (ret f) page s = do
  d ← trunc_part omode f s.disk
  (r, d) ← file_open path d
  open_ends i omode r page (record s { disk = d })

-- The result of `openfile_alloc` is the file id as an int: from 2 ^ 31 on it is negative.
abbrev pub open_slot : ℕ → Bytes → Reply ℕ → Handler
open_slot omode path (err e) page s = fails e page s
open_slot omode path (ret i) page s =
    if leb (2 ^ 31) (s.opentab i).o_fileid
    then ok (says (ret (s.opentab i).o_fileid) page, s)
    else (do
      (r, d) ← create_part omode path s.disk
      open_created i omode path r page (record s { disk = d }))

-- `req_omode` stands behind the path.
unfoldable pub serve_open : PageAlloc → Handler
serve_open alloc page s =
    let (r, s) = openfile_alloc alloc s in open_slot (req_word page 256) (path_of page) r page s

-- One round of `serve` with a request code and the permissions that `ipc_recv` gave; `none`: the
-- client gets no answer. The flags of the answer's page are those that `serve_open` sets.
unfoldable pub serve_one : PageAlloc → ℕ → ℕ → Bytes → Server → Run (Option Answer × Server)
serve_one alloc req perm page s =
    let answered : Run (Answer × Server) =
      if req == 1
      then serve_open alloc page s
      else if req == 2
      then serve_read page s
      else if req == 3
      then serve_write page s
      else if req == 4
      then serve_stat page s
      else if req == 5
      then serve_flush page s
      else fails inval page s in
    if not (flag perm pte_p) then ok (none, s) else (do (a, s) ← answered; ok (some a, s))
