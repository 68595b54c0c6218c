-- ===== src/Syscall/Invariant/PageCalls.antt =====
-- The system calls on pages change the memory only.
use yu_os.Sched.Calls.{OneRuns-same}
use yu_os.Syscall.{Option, ℕ}
use yu_os.Layout.{Reply, ret, err}
use yu_os.Prelude.{Option, ℕ, After-any, ends, some, After-if, false, none, ◌||◌, refl, stopped}
use yu_os.Syscall.PageCalls.{
  sys_page_unmap, inserted, sys_page_alloc, map_between, sys_page_map, insert_new, alloc_in, bad_va,
  map_found, gains_write, lacks_bits, extra_bits,
}
use yu_os.Pmap.Table.{Found, page_lookup, page_insert, page_remove}
use yu_os.Pmap.Alloc.{page_free, page_alloc, alloc_zero}
use yu_os.Syscall.Invariant.{Keeps, Keeps-with_env}

pub Keeps-inserted : (page : ℕ) (r : Reply ℕ) → Keeps (inserted page r)
Keeps-inserted page (ret v) k one = ends one
Keeps-inserted page (err e) k one =
    After-any (page_free page k.mem) _ (λ m. ends (OneRuns-same {k = k} refl refl one))

pub Keeps-insert_new : (va perm e : ℕ) (page : Option ℕ) → Keeps (insert_new va perm e page)
Keeps-insert_new va perm e none k one = ends one
Keeps-insert_new va perm e (some p) k one =
    After-any (page_insert (k.envs e).env_pgdir p va perm k.mem) _
      (λ (r, m). Keeps-inserted p r _ (OneRuns-same {k = k} refl refl one))

pub Keeps-alloc_in : (va perm e : ℕ) → Keeps (alloc_in va perm e)
unfolding alloc_in
Keeps-alloc_in va perm e k one =
    After-any (page_alloc alloc_zero k.mem) _
      (λ (page, m). Keeps-insert_new va perm e page _ (OneRuns-same {k = k} refl refl one))

pub Keeps-sys_page_alloc : (envid va perm : ℕ) → Keeps (sys_page_alloc envid va perm)
unfolding sys_page_alloc
Keeps-sys_page_alloc envid va perm k one = After-if (bad_va va) (ends one) (
    After-if (lacks_bits perm) (ends one) (
      After-if (extra_bits perm) (ends one)
        (Keeps-with_env envid false _ (λ e. Keeps-alloc_in va perm e) k one)))

pub Keeps-map_found :
    (dstva perm dste : ℕ) (found : Option Found) → Keeps (map_found dstva perm dste found)
Keeps-map_found dstva perm dste none k one = ends one
Keeps-map_found dstva perm dste (some f) k one =
    After-if (gains_write f.slot perm k.mem) (ends one) (
      After-any (page_insert (k.envs dste).env_pgdir f.page dstva perm k.mem) _
        (λ (r, m). ends (OneRuns-same {k = k} refl refl one)))

pub Keeps-map_between :
    (srcva dstva perm srce dste : ℕ) → Keeps (map_between srcva dstva perm srce dste)
unfolding map_between
Keeps-map_between srcva dstva perm srce dste k one =
    After-any (page_lookup (k.envs srce).env_pgdir srcva k.mem) _
      (λ (found, m). Keeps-map_found dstva perm dste found _ (OneRuns-same {k = k} refl refl one))

pub Keeps-sys_page_map :
    (srcenvid srcva dstenvid dstva perm : ℕ)
    → Keeps (sys_page_map srcenvid srcva dstenvid dstva perm)
unfolding sys_page_map
Keeps-sys_page_map srcenvid srcva dstenvid dstva perm k one =
    After-if (bad_va srcva || bad_va dstva) (ends one) (
      After-if (lacks_bits perm) (ends one) (
        After-if (extra_bits perm) stopped (
          Keeps-with_env srcenvid false _
            (λ srce.
              Keeps-with_env dstenvid false _
                (λ dste. Keeps-map_between srcva dstva perm srce dste))
            k one)))

pub Keeps-sys_page_unmap : (envid va : ℕ) → Keeps (sys_page_unmap envid va)
unfolding sys_page_unmap
Keeps-sys_page_unmap envid va k one = After-if (bad_va va) (ends one) (
    Keeps-with_env envid false _
      (λ e k one.
        After-any (page_remove (k.envs e).env_pgdir va k.mem) _
          (λ m. ends (OneRuns-same {k = k} refl refl one)))
      k one)
