-- ===== src/Layout.antt =====
-- The constants and address macros of inc/mmu.h, inc/memlayout.h and inc/types.h, and the error
-- codes of inc/error.h.
use yu_os.Prelude.{ℕ, ◌+◌, ◌-◌, ◌*◌, ◌/◌, ◌%◌, ◌^◌, Bool, ◌==◌}

-- an address or a register: a number below this
abbrev pub word_mod : ℕ
word_mod = 2 ^ 32

abbrev pub pgsize : ℕ
pgsize = 4096

abbrev pub ptsize : ℕ
ptsize = pgsize * 1024

abbrev pub pte_p : ℕ
pte_p = 0x001

abbrev pub pte_w : ℕ
pte_w = 0x002

abbrev pub pte_u : ℕ
pte_u = 0x004

abbrev pub pte_pwt : ℕ
pte_pwt = 0x008

abbrev pub pte_pcd : ℕ
pte_pcd = 0x010

-- ~(PTE_P | PTE_U | PTE_W | PTE_AVAIL), on 32 bits
abbrev pub not_pte_syscall : ℕ
not_pte_syscall = 0xFFFFF1F8

abbrev pub kernbase : ℕ
kernbase = 0xF0000000

abbrev pub ulim : ℕ
ulim = kernbase - ptsize - ptsize

abbrev pub uvpt : ℕ
uvpt = ulim - ptsize

abbrev pub upages : ℕ
upages = uvpt - ptsize

abbrev pub utop : ℕ
utop = upages - ptsize

abbrev pub ustacktop : ℕ
ustacktop = utop - 2 * pgsize

abbrev pub iophysmem : ℕ
iophysmem = 0x0A0000

abbrev pub extphysmem : ℕ
extphysmem = 0x100000

-- `(word & bit) != 0`, for a single bit
abbrev pub flag : ℕ → ℕ → Bool
flag word bit = word / bit % 2 == 1

abbrev pub pgnum : ℕ → ℕ
pgnum la = la / pgsize

abbrev pub pdx : ℕ → ℕ
pdx la = la / ptsize % 1024

abbrev pub ptx : ℕ → ℕ
ptx la = la / pgsize % 1024

abbrev pub pgoff : ℕ → ℕ
pgoff la = la % pgsize

-- `PTE_ADDR`: the low twelve bits are cleared.
abbrev pub pte_addr : ℕ → ℕ
pte_addr pte = pte / pgsize * pgsize

-- `ROUNDDOWN` and `ROUNDUP` to a page, in 32-bit arithmetic
abbrev pub round_down : ℕ → ℕ
round_down a = a - a % pgsize

abbrev pub round_up : ℕ → ℕ
round_up a = round_down ((a + (pgsize - 1)) % word_mod)

pub data Error : Type 0 where
  unspecified bad_env inval no_mem no_free_env fault no_sys ipc_not_recv eof : Error
  no_disk max_open not_found bad_path file_exists not_exec not_supp max_fd : Error

-- An `int` result: a value that is not negative, or the negated code of an error.
pub data Reply {ℓ} (A : Type ℓ) : Type ℓ where
  ret : A → Reply A
  err : Error → Reply A
