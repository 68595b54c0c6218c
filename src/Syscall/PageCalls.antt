-- ===== src/Syscall/PageCalls.antt =====
-- The system calls on pages in kern/syscall.c.
pub mod Mapping
pub mod Sharing
use yu_os.Pmap.Table.{Found, Slot, load, page_remove, page_lookup, page_insert}
use yu_os.Prelude.{
  Option, ℕ, Bool, leb, not, if◌then◌else◌, ◌||◌, bit_and, ◌%◌, ◌==◌, ◌>>=◌, ◌&&◌, panic, false,
  none, some,
}
use yu_os.Layout.{
  Reply, ret, flag, utop, pte_u, err, not_pte_syscall, inval, pte_p, pte_w, pgsize, no_mem,
}
use yu_os.Syscall.{Call, returns, with_env}
use yu_os.Pmap.{Mem}
use yu_os.Pmap.Alloc.{page_free, page_alloc, alloc_zero}

-- `(uint32_t)va >= UTOP || (uint32_t)va % PGSIZE != 0`
abbrev pub bad_va : ℕ → Bool
bad_va va = leb utop va || not (va % pgsize == 0)

-- `(perm & PTE_U) == 0 || (perm & PTE_P) == 0`
abbrev pub lacks_bits : ℕ → Bool
lacks_bits perm = not (flag perm pte_u) || not (flag perm pte_p)

-- `perm & ~(PTE_P | PTE_U | PTE_W | PTE_AVAIL)`
abbrev pub extra_bits : ℕ → Bool
extra_bits perm = not (bit_and perm not_pte_syscall == 0)

-- What follows `page_insert` in `sys_page_alloc`: a page that could not be mapped is freed.
abbrev pub inserted : ℕ → Reply ℕ → Call
inserted page (ret v) k = returns (ret v) k
inserted page (err e) k = do m ← page_free page k.mem; returns (err e) (record k { mem = m })

-- What follows `page_alloc`, which returned the page or NULL
abbrev pub insert_new : ℕ → ℕ → ℕ → Option ℕ → Call
insert_new va perm e none k = returns (err no_mem) k
insert_new va perm e (some p) k = do
  (r, m) ← page_insert (k.envs e).env_pgdir p va perm k.mem
  inserted p r (record k { mem = m })

-- The part of `sys_page_alloc` behind the checks
unfoldable pub alloc_in : ℕ → ℕ → ℕ → Call
alloc_in va perm e k = do
  (page, m) ← page_alloc alloc_zero k.mem
  insert_new va perm e page (record k { mem = m })

unfoldable pub sys_page_alloc : ℕ → ℕ → ℕ → Call
sys_page_alloc envid va perm k =
    if bad_va va
    then returns (err inval) k
    else if lacks_bits perm
    then returns (err inval) k
    else if extra_bits perm
    then returns (err inval) k
    else with_env envid false (alloc_in va perm) k

-- `(*pte & PTE_W) == 0 && perm & PTE_W`
abbrev pub gains_write : Slot → ℕ → Mem → Bool
gains_write pte perm m = not (flag (load pte m) pte_w) && flag perm pte_w

-- What follows `page_lookup`, which found a page and its entry or returned NULL
abbrev pub map_found : ℕ → ℕ → ℕ → Option Found → Call
map_found dstva perm dste none k = returns (err inval) k
map_found dstva perm dste (some f) k =
    if gains_write f.slot perm k.mem then returns (err inval) k else (do
      (r, m) ← page_insert (k.envs dste).env_pgdir f.page dstva perm k.mem
      returns r (record k { mem = m }))

-- The part of `sys_page_map` behind the checks
unfoldable pub map_between : ℕ → ℕ → ℕ → ℕ → ℕ → Call
map_between srcva dstva perm srce dste k = do
  (found, m) ← page_lookup (k.envs srce).env_pgdir srcva k.mem
  map_found dstva perm dste found (record k { mem = m })

unfoldable pub sys_page_map : ℕ → ℕ → ℕ → ℕ → ℕ → Call
sys_page_map srcenvid srcva dstenvid dstva perm k =
    if bad_va srcva || bad_va dstva
    then returns (err inval) k
    else if lacks_bits perm
    then returns (err inval) k
    else if extra_bits perm
    then panic
    else with_env srcenvid false
        (λ srce. with_env dstenvid false (λ dste. map_between srcva dstva perm srce dste)) k

unfoldable pub sys_page_unmap : ℕ → ℕ → Call
sys_page_unmap envid va k =
    if bad_va va
    then returns (err inval) k
    else with_env envid false
        (λ e k. do
          m ← page_remove (k.envs e).env_pgdir va k.mem
          returns (ret 0) (record k { mem = m }))
        k
