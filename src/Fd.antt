-- ===== src/Fd.antt =====
-- The file descriptors of lib/fd.c, in one user environment. A `struct Fd` lies at the start of a page
-- at FDTABLE, and a descriptor is the place of its page; copies of a descriptor share the page.
pub mod Alloc
pub mod Close
pub mod Dup
pub mod Readn
use yu_os.Prelude.{
  ℕ, zero, suc, List, [], ◌∷◌, Option, some, none, Bool, true, false, ◌==◌, if◌then◌else◌, leb, ◌+◌,
  ◌-◌, ◌%◌, ◌^◌, update, is_some,
}
use yu_os.Layout.{Reply, ret, err, Error}

abbrev pub maxfd : ℕ
maxfd = 32

-- `struct Fd`, with the id of a file of the file server
pub record FdPage : Type 0 where
  pub fd_dev_id : ℕ
  pub fd_offset : ℕ
  pub fd_omode : ℕ
  pub fd_file_id : ℕ

-- The pages of the environment from FDTABLE on, by their number from there: the frame that is mapped,
-- if one is. The frames are those of descriptors and of data.
pub record Fds : Type 0 where
  pub frame : ℕ → Option ℕ
  pub page : ℕ → FdPage

-- INDEX2FD and INDEX2DATA as page numbers from FDTABLE on, in 32-bit arithmetic
abbrev pub index2fd : ℕ → ℕ
index2fd i = i % 2 ^ 20

abbrev pub index2data : ℕ → ℕ
index2data i = (maxfd + i) % 2 ^ 20

-- `fd2num` of a descriptor's page is its number.
abbrev pub fd2data : ℕ → ℕ
fd2data fd = index2data fd

-- The loop of `fd_alloc`, with `n` rounds left
unfoldable pub fd_alloc_from : ℕ → ℕ → Fds → Reply ℕ
fd_alloc_from zero i s = err Error.max_fd
fd_alloc_from (suc n) i s =
    let rest = fd_alloc_from n (i + 1) s in if is_some (s.frame (index2fd i)) then rest else ret i

unfoldable pub fd_alloc : Fds → Reply ℕ
fd_alloc s = fd_alloc_from maxfd 0 s

-- `fd_lookup`, with the number of the page. A negative number is one of 2^31 or more.
unfoldable pub fd_lookup : ℕ → Fds → Reply ℕ
fd_lookup fdnum s =
    if leb maxfd fdnum
    then err Error.inval
    else if is_some (s.frame (index2fd fdnum))
    then ret (index2fd fdnum)
    else err Error.inval

abbrev pub fd_at_frame : Fds → Option ℕ → FdPage
fd_at_frame s none = s.page 0
fd_at_frame s (some f) = s.page f

-- What `*fd` reads
abbrev pub fd_at : Fds → ℕ → FdPage
fd_at s fd = fd_at_frame s (s.frame fd)

-- `struct Dev`; `none` is a null function pointer. The operations of a device change what is mapped
-- and the pages, and read gives the bytes.
pub record Dev : Type 0 where
  pub dev_id : ℕ
  pub dev_read : Option (ℕ → ℕ → Fds → Reply (List ℕ) × Fds)
  pub dev_write : Option (ℕ → List ℕ → Fds → Reply ℕ × Fds)
  pub dev_close : Option (ℕ → Fds → Reply ℕ × Fds)

-- `dev_lookup`, by the devices from there on in `devtab`
unfoldable pub dev_lookup : List Dev → ℕ → Reply Dev
dev_lookup [] dev_id = err Error.inval
dev_lookup (dev ∷ devtab) dev_id =
    let rest = dev_lookup devtab dev_id in if dev.dev_id == dev_id then ret dev else rest

-- `sys_page_unmap(0, va)`
abbrev pub unmap : ℕ → Fds → Fds
unmap va s = record s { frame = update s.frame va none }

abbrev pub close_device : ℕ → Fds → Option (ℕ → Fds → Reply ℕ × Fds) → Reply ℕ × Fds
close_device fd s none = (ret 0, s)
close_device fd s (some dev_close) = dev_close fd s

abbrev pub close_found : ℕ → Fds → Reply Dev → Reply ℕ × Fds
close_found fd s (ret dev) = close_device fd s dev.dev_close
close_found fd s (err e) = (err e, s)

abbrev pub unmapped : ℕ → Reply ℕ × Fds → Reply ℕ × Fds
unmapped fd (r, s) = (r, unmap fd s)

-- The access mode of a descriptor
abbrev pub access : FdPage → ℕ
access fd = fd.fd_omode % 4

abbrev pub o_rdonly : ℕ
o_rdonly = 0

abbrev pub o_wronly : ℕ
o_wronly = 1

module _ (devtab : List Dev) where
  abbrev pub close_looked_up : ℕ → Bool → Fds → Reply ℕ → Reply ℕ × Fds
  close_looked_up fd must_exist s (ret _) =
      unmapped fd (close_found fd s (dev_lookup devtab (fd_at s fd).fd_dev_id))
  close_looked_up fd must_exist s (err e) = (if must_exist then err e else ret 0, s)

  unfoldable pub fd_close : ℕ → Bool → Fds → Reply ℕ × Fds
  fd_close fd must_exist s = close_looked_up fd must_exist s (fd_lookup fd s)

  abbrev close_at : Fds → Reply ℕ → Reply ℕ × Fds
  close_at s (ret fd) = fd_close fd true s
  close_at s (err e) = (err e, s)

  unfoldable pub close : ℕ → Fds → Reply ℕ × Fds
  close fdnum s = close_at s (fd_lookup fdnum s)

  abbrev pub read_device :
      ℕ → ℕ → Fds → Option (ℕ → ℕ → Fds → Reply (List ℕ) × Fds) → Reply (List ℕ) × Fds
  read_device fd n s none = (err Error.not_supp, s)
  read_device fd n s (some dev_read) = dev_read fd n s

  abbrev pub read_found : ℕ → ℕ → Fds → Reply Dev → Reply (List ℕ) × Fds
  read_found fd n s (err e) = (err e, s)
  read_found fd n s (ret dev) =
      if access (fd_at s fd) == o_wronly
      then (err Error.inval, s)
      else read_device fd n s dev.dev_read

  abbrev pub read_fd : ℕ → Fds → Reply ℕ → Reply (List ℕ) × Fds
  read_fd n s (err e) = (err e, s)
  read_fd n s (ret fd) = read_found fd n s (dev_lookup devtab (fd_at s fd).fd_dev_id)

  unfoldable pub read : ℕ → ℕ → Fds → Reply (List ℕ) × Fds
  read fdnum n s = read_fd n s (fd_lookup fdnum s)

  abbrev write_device : ℕ → List ℕ → Fds → Option (ℕ → List ℕ → Fds → Reply ℕ × Fds) → Reply ℕ × Fds
  write_device fd buf s none = (err Error.not_supp, s)
  write_device fd buf s (some dev_write) = dev_write fd buf s

  abbrev write_found : ℕ → List ℕ → Fds → Reply Dev → Reply ℕ × Fds
  write_found fd buf s (err e) = (err e, s)
  write_found fd buf s (ret dev) =
      if access (fd_at s fd) == o_rdonly
      then (err Error.inval, s)
      else write_device fd buf s dev.dev_write

  abbrev write_fd : List ℕ → Fds → Reply ℕ → Reply ℕ × Fds
  write_fd buf s (err e) = (err e, s)
  write_fd buf s (ret fd) = write_found fd buf s (dev_lookup devtab (fd_at s fd).fd_dev_id)

  unfoldable pub write : ℕ → List ℕ → Fds → Reply ℕ × Fds
  write fdnum buf s = write_fd buf s (fd_lookup fdnum s)

abbrev set_offset : ℕ → Fds → Option ℕ → Fds
set_offset offset s none = s
set_offset offset s (some f) = record s {
  page = update s.page f (record (s.page f) { fd_offset = offset });
}

abbrev seek_at : ℕ → Fds → Reply ℕ → Reply ℕ × Fds
seek_at offset s (err e) = (err e, s)
seek_at offset s (ret fd) = (ret 0, set_offset offset s (s.frame fd))

unfoldable pub seek : ℕ → ℕ → Fds → Reply ℕ × Fds
seek fdnum offset s = seek_at offset s (fd_lookup fdnum s)

-- `sys_page_map(0, src, 0, dst, perm)` with permissions of a page that is mapped: it fails if nothing
-- is mapped at `src`, or if the kernel refuses for another reason, and maps the frame if not.
abbrev map_granted : Option Error → ℕ → ℕ → Fds → Reply ℕ × Fds
map_granted (some e) dst f s = (err e, s)
map_granted none dst f s = (ret 0, record s { frame = update s.frame dst (some f) })

abbrev map_frame : (ℕ → Option Error) → ℕ → Fds → Option ℕ → Reply ℕ × Fds
map_frame refuses dst s none = (err Error.inval, s)
map_frame refuses dst s (some f) = map_granted (refuses dst) dst f s

abbrev pub map_page : (ℕ → Option Error) → ℕ → ℕ → Fds → Reply ℕ × Fds
map_page refuses src dst s = map_frame refuses dst s (s.frame src)

-- `dup`. The kernel's refusals, by the address to map at, are a parameter.
module _ (devtab : List Dev) (refuses : ℕ → Option Error) where
  -- the code at `err`
  abbrev pub undo : ℕ → ℕ → Reply ℕ × Fds → Reply ℕ × Fds
  undo newfd nva (r, s) = (r, unmap nva (unmap newfd s))

  abbrev descriptor_mapped : ℕ → ℕ → ℕ → Reply ℕ × Fds → Reply ℕ × Fds
  descriptor_mapped newfdnum newfd nva (ret _, s) = (ret newfdnum, s)
  descriptor_mapped newfdnum newfd nva (err e, s) = undo newfd nva (err e, s)

  abbrev pub map_descriptor : ℕ → ℕ → ℕ → ℕ → Reply ℕ × Fds → Reply ℕ × Fds
  map_descriptor newfdnum newfd nva oldfd (err e, s) = undo newfd nva (err e, s)
  map_descriptor newfdnum newfd nva oldfd (ret _, s) =
      descriptor_mapped newfdnum newfd nva (map_page refuses oldfd newfd s)

  abbrev pub dup_closed : ℕ → ℕ → Fds → Reply ℕ × Fds
  dup_closed newfdnum oldfd s =
      let newfd = index2fd newfdnum in
      let nva = fd2data newfd in
      let ova = fd2data oldfd in
      map_descriptor newfdnum newfd nva oldfd
        (if is_some (s.frame ova) then map_page refuses ova nva s else (ret 0, s))

  abbrev pub dup_at : ℕ → Fds → Reply ℕ → Reply ℕ × Fds
  dup_at newfdnum s (err e) = (err e, s)
  dup_at newfdnum s (ret oldfd) = dup_closed newfdnum oldfd (close devtab newfdnum s).1

  unfoldable pub dup : ℕ → ℕ → Fds → Reply ℕ × Fds
  dup oldfdnum newfdnum s = dup_at newfdnum s (fd_lookup oldfdnum s)
