-- ===== src/Fs/Dirs.antt =====
-- Directories and paths: dir_lookup, dir_alloc_file, skip_slash, walk_path, file_create and file_open
-- of fs/fs.c. A path and a name give their bytes by the index. A path has its null byte among the
-- first MAXPATHLEN bytes, which is the fuel of the loops over it.
pub mod Names
pub mod Lookup
use yu_os.Prelude.{
  ℕ, Option, Bool, ◌*◌, if◌then◌else◌, true, none, Run, some, false, ok, ◌==◌, ltb, ◌&&◌, not, ◌+◌,
  ◌>>=◌, ◌-◌, ◌||◌, leb, zero, panic, ◌%◌, ◌/◌,
}
use yu_os.Fs.{Disk, none, Run, suc, some, true, ltb, pgsize, ok, err, false, ret, leb, panic}
use yu_os.Layout.{Error, Reply, pgsize, file_exists, ret, not_found, bad_path, word_mod}
use yu_os.Strings.{Bytes, strnlen, strcmp}
use yu_os.Fs.Blocks.{FileAt, Place, read_place, file_get_block, f_size, write_place}
use yu_os.Fs.Files.{disk_byte, copy_in, file_flush, on_block}

abbrev pub maxnamelen : ℕ
maxnamelen = 128

abbrev pub maxpathlen : ℕ
maxpathlen = 1024

-- `BLKFILES`
abbrev pub blkfiles : ℕ
blkfiles = 16

abbrev pub ftype_dir : ℕ
ftype_dir = 1

abbrev pub f_type : FileAt → Place
f_type f = record { in_block = f.block; at = f.base + 33 }

-- `&f[j]`, in a block of a directory
abbrev pub entry : ℕ → ℕ → FileAt
entry b j = record { block = b; base = 64 * j }

-- `super->s_root`
abbrev pub s_root : FileAt
s_root = record { block = 1; base = 2 }

-- The memory that `strcmp` sees: a block, and behind it a name
abbrev pub beside : ℕ → Bytes → Disk → Bytes
beside b name d a = if ltb a pgsize then disk_byte b a d else name (a - pgsize)

-- `strcmp(f[j].f_name, name) == 0`. A name ends within MAXNAMELEN bytes, and so does the comparison.
unfoldable pub is_named : ℕ → ℕ → Bytes → Disk → Bool
is_named b j name d = elim (strcmp maxnamelen (256 * j) pgsize (beside b name d)) [
  | none ↦ false
  | some r ↦ r == 0
]

-- `f[j].f_name[0] == '\0'`
unfoldable pub is_unused : ℕ → ℕ → Disk → Bool
is_unused b j d = disk_byte b (256 * j) d == 0

-- The loop over the entries of a block, from `j` with so many rounds left
unfoldable pub first_entry : (ℕ → Bool) → ℕ → ℕ → Option ℕ
first_entry test zero j = none
first_entry test (suc n) j =
    let rest = first_entry test n (j + 1) in if test j then some j else rest

-- The loop over the blocks of a directory, from block `i` with so many rounds left. The reply tells
-- the entry, or NULL where the loop ends.
unfoldable pub search_dir :
    (ℕ → ℕ → Disk → Bool) → FileAt → ℕ → ℕ → Disk → Run (Reply (Option FileAt) × Disk)
search_dir test dir zero i d = ok (ret none, d)
search_dir test dir (suc n) i d = do
  (r, d) ← file_get_block dir i d
  on_block r (λ e. ok (err e, d))
      (λ b. elim (first_entry (λ j. test b j d) blkfiles 0) [
        | none ↦ search_dir test dir n (i + 1) d
        | some j ↦ ok (ret (some (entry b j)), d)
      ])

-- The result where the loop has ended
abbrev pub looked_up : Reply (Option FileAt) → Disk → Run (Reply FileAt × Disk)
looked_up (err e) d = ok (err e, d)
looked_up (ret none) d = ok (err not_found, d)
looked_up (ret (some f)) d = ok (ret f, d)

unfoldable pub dir_lookup : FileAt → Bytes → Disk → Run (Reply FileAt × Disk)
dir_lookup dir name d = if not (read_place (f_size dir) d % pgsize == 0) then panic else (do
  (r, d) ← search_dir (λ b j d. is_named b j name d) dir (read_place (f_size dir) d / pgsize) 0 d
  looked_up r d)

-- What follows the loop of `dir_alloc_file` over so many blocks
abbrev pub grown : FileAt → ℕ → Reply (Option FileAt) → Disk → Run (Reply FileAt × Disk)
grown dir nblock (err e) d = ok (err e, d)
grown dir nblock (ret (some f)) d = ok (ret f, d)
grown dir nblock (ret none) d = do
  (r, d) ←
      file_get_block dir nblock
        (write_place (f_size dir) ((read_place (f_size dir) d + pgsize) % word_mod) d)
  on_block r (λ e. ok (err e, d)) (λ b. ok (ret (entry b 0), d))

unfoldable pub dir_alloc_file : FileAt → Disk → Run (Reply FileAt × Disk)
dir_alloc_file dir d = if not (read_place (f_size dir) d % pgsize == 0) then panic else (do
  (r, d') ← search_dir is_unused dir (read_place (f_size dir) d / pgsize) 0 d
  grown dir (read_place (f_size dir) d / pgsize) r d')

-- '/' is 47. The index behind the slashes at `p`
unfoldable pub skip_slash : ℕ → Bytes → ℕ → ℕ
skip_slash zero path p = p
skip_slash (suc fuel) path p =
    let rest = skip_slash fuel path (p + 1) in if path p == 47 then rest else p

-- `while(*path != '/' && *path != '\0')`
unfoldable pub element_end : ℕ → Bytes → ℕ → ℕ
element_end zero path p = p
element_end (suc fuel) path p =
    let rest = element_end fuel path (p + 1) in if (path p == 47) || (path p == 0) then p else rest

-- `memmove(name, p, path - p); name[path - p] = '\0';`
abbrev pub element : Bytes → ℕ → ℕ → Bytes → Bytes
element path p q name i = if ltb i (q - p) then path (p + i) else if i == q - p then 0 else name i

-- What `walk_path` stores: `*pdir`, `*pf` and the last element, and what it returns
pub record Walked : Type 0 where
  pub result : Option Error
  pub pdir : Option FileAt
  pub pf : Option FileAt
  pub lastelem : Bytes

abbrev pub walk_fails : Error → Walked
walk_fails e = record { result = some e; pdir = none; pf = none; lastelem = λ _. 0 }

abbrev pub walk_ends : Option FileAt → FileAt → Bytes → Walked
walk_ends dir f name = record { result = none; pdir = dir; pf = some f; lastelem = λ _. 0 }

abbrev pub is_not_found : Error → Bool
is_not_found not_found = true
is_not_found _ = false

-- The directory of the last element was found, the element not.
abbrev pub walk_misses : Error → Bool → FileAt → Bytes → Walked
walk_misses e at_end dir name =
    if is_not_found e && at_end
    then record { result = some e; pdir = some dir; pf = none; lastelem = name }
    else walk_fails e

-- The loop of `walk_path`; each round moves on in the path.
unfoldable pub walk_loop :
    ℕ → Bytes → ℕ → Option FileAt → FileAt → Bytes → Disk → Run (Walked × Disk)
walk_loop zero path p dir f name d = ok (walk_ends dir f name, d)
walk_loop (suc fuel) path p dir f name d =
    let q = element_end maxpathlen path p in
    let name' = element path p q name in
    let next = skip_slash maxpathlen path q in
    if path p == 0
    then ok (walk_ends dir f name, d)
    else if leb maxnamelen (q - p)
    then ok (walk_fails bad_path, d)
    else if not (read_place (f_type f) d == ftype_dir)
    then ok (walk_fails not_found, d)
    else (do
      (r, d) ← dir_lookup f name' d
      on_block r (λ e. ok (walk_misses e (path next == 0) f name', d))
          (λ g. walk_loop fuel path next (some f) g name' d))

unfoldable pub walk_path : Bytes → Disk → Run (Walked × Disk)
walk_path path d = walk_loop maxpathlen path (skip_slash maxpathlen path 0) none s_root (λ _. 0) d

-- `strcpy(f->f_name, name)`, which writes up to the null byte: `len` bytes
abbrev pub set_name : FileAt → ℕ → Bytes → Disk → Disk
set_name f len name d = copy_in 0 f.block (4 * f.base) (len + 1) name d

abbrev pub name_length : Bytes → ℕ
name_length name = strnlen name 0 maxnamelen

-- The new entry in the directory gets its name.
abbrev pub entered_name : FileAt → Bytes → Reply FileAt → Disk → Run (Reply FileAt × Disk)
entered_name dir name (err e) d = ok (err e, d)
entered_name dir name (ret f) d = do
  d ← file_flush dir (set_name f (name_length name) name d)
  ok (ret f, d)

-- What follows `walk_path` in `file_create`
abbrev pub created : Walked → Disk → Run (Reply FileAt × Disk)
created w d = elim w.result [
  | none ↦ ok (err file_exists, d)
  | some e ↦
      (if not (is_not_found e) then ok (err e, d) else elim w.pdir [
        | none ↦ ok (err e, d)
        | some dir ↦ (do (r, d) ← dir_alloc_file dir d; entered_name dir w.lastelem r d)
      ])
]

unfoldable pub file_create : Bytes → Disk → Run (Reply FileAt × Disk)
file_create path d = do (w, d) ← walk_path path d; created w d

-- `*pf` of a walk that succeeded
abbrev pub opened : Option Error → Option FileAt → Disk → Run (Reply FileAt × Disk)
opened (some e) pf d = ok (err e, d)
opened none (some f) d = ok (ret f, d)
opened none none d = panic

unfoldable pub file_open : Bytes → Disk → Run (Reply FileAt × Disk)
file_open path d = do (w, d) ← walk_path path d; opened w.result w.pf d
