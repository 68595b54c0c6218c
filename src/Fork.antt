-- ===== src/Fork.antt =====
-- The copy of an address space by fork in lib/fork.c: duppage, and the loop over the pages below UTOP.
-- A page is its number; `uvpt` and `uvpd` are the tables of the parent as it reads them.
pub mod Tried
pub mod Copy
pub mod All
pub mod Fault
use yu_os.Prelude.{
  ℕ, Bool, Run, ◌+◌, ◌==◌, ◌/◌, ok, if◌then◌else◌, ◌||◌, panic, suc, ◌-◌, bit_and, not, ◌>>=◌, zero,
}
use yu_os.Layout.{pte_p, utop, Reply, err, pgsize, flag, pte_u, ret, pte_w}

abbrev pub pte_share : ℕ
pte_share = 0x400

abbrev pub pte_cow : ℕ
pte_cow = 0x800

abbrev pub pte_syscall : ℕ
pte_syscall = 0xE07

-- The entries of the parent's two tables and of the child's pages
pub record Spaces : Type 0 where
  pub uvpd : ℕ → ℕ
  pub uvpt : ℕ → ℕ
  pub child : ℕ → ℕ

pub data Target : Type 0 where
  to_child to_self : Target

-- `sys_page_map(0, va, envid, va, perm)` to the child, or to the parent itself
abbrev pub PageMap : Type 0
PageMap = Target → ℕ → ℕ → Spaces → Reply ℕ × Spaces

-- `if (r != 0) panic(...)`, with the code that follows
abbrev pub or_panic : {S : Type 0} → Reply ℕ × S → (S → Run S) → Run S
or_panic (err e, s) next = panic
or_panic (ret zero, s) next = next s
or_panic (ret (suc r), s) next = panic

abbrev pub cow_perm : ℕ
cow_perm = pte_p + pte_u + pte_cow

unfoldable pub duppage : PageMap → ℕ → Spaces → Run Spaces
duppage sys_page_map pn s =
    if flag (s.uvpt pn) pte_share
    then or_panic (sys_page_map to_child pn (bit_and (s.uvpt pn) pte_syscall) s) (λ s. ok s)
    else if flag (s.uvpt pn) pte_w || flag (s.uvpt pn) pte_cow
    then or_panic (sys_page_map to_child pn cow_perm s)
        (λ s. or_panic (sys_page_map to_self pn cow_perm s) (λ s. ok s))
    else or_panic (sys_page_map to_child pn (pte_p + pte_u) s) (λ s. ok s)

-- The page of the user exception stack, at UXSTACKTOP - PGSIZE
abbrev pub exception_page : ℕ
exception_page = utop / pgsize - 1

-- The pages that the loop passes over
abbrev pub skips : ℕ → Spaces → Bool
skips pn s =
    (pn == exception_page) || not (flag (s.uvpd (pn / 1024)) pte_p) || not (flag (s.uvpt pn) pte_p)

abbrev pub copy_page : PageMap → ℕ → Spaces → Run Spaces
copy_page sys_page_map pn s = if skips pn s then ok s else duppage sys_page_map pn s

-- The loop of `fork` from page `pn`, with so many rounds left
unfoldable pub copy_pages : PageMap → ℕ → ℕ → Spaces → Run Spaces
copy_pages sys_page_map zero pn s = ok s
copy_pages sys_page_map (suc n) pn s = do
  s ← copy_page sys_page_map pn s
  copy_pages sys_page_map n (pn + 1) s

-- for (addr = 0; addr < (uint8_t *) UTOP; addr += PGSIZE)
unfoldable pub copy_space : PageMap → Spaces → Run Spaces
copy_space sys_page_map s = copy_pages sys_page_map (utop / pgsize) 0 s
