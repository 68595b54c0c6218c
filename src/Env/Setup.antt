-- ===== src/Env/Setup.antt =====
-- env_setup_vm of kern/env.c: the page directory of a new environment.
pub mod Copy
pub mod Directory
use yu_os.Prelude.{Option, ℕ, bit_or, Run, suc, ◌+◌, ◌>>=◌, zero, none, ok, some, ◌/◌, ◌-◌}
use yu_os.Pmap.{Mem, page2pa, set_word, page2kva}
use yu_os.Env.{Kernel, set_env}
use yu_os.Layout.{Reply, pte_p, pte_u, err, no_mem, utop, ptsize, ret, pdx, uvpt}
use yu_os.Pmap.Alloc.{page_alloc, alloc_zero, ref_up}

-- `for (i = UTOP/PTSIZE; i < NPDENTRIES; i++) env_pgdir[i] = kern_pgdir[i]`, from `i` with so many
-- rounds left
unfoldable pub copy_entries : ℕ → ℕ → ℕ → ℕ → Mem → Mem
copy_entries pgdir kern i zero m = m
copy_entries pgdir kern i (suc n) m =
    copy_entries pgdir kern (i + 1) n (set_word pgdir i (m.word kern i) m)

abbrev pub npdentries : ℕ
npdentries = 1024

-- `PADDR(e->env_pgdir) | PTE_P | PTE_U`
abbrev pub self_entry : ℕ → ℕ
self_entry pgdir = bit_or (bit_or (page2pa pgdir) pte_p) pte_u

-- What follows `page_alloc`, which returned the page or NULL; `e` is the index of the environment.
abbrev pub setup_page : ℕ → Kernel → Option ℕ → Mem → Run (Reply ℕ × Kernel)
setup_page e k none m = ok (err no_mem, record k { mem = m })
setup_page e k (some p) m = do
  pgdir ← page2kva p m
  let copied = copy_entries pgdir k.kern_pgdir (utop / ptsize) (npdentries - utop / ptsize) m
  let counted = ref_up p copied
  ok (
    ret 0,
    set_env e (record (k.envs e) { env_pgdir = pgdir })
        (record k { mem = set_word pgdir (pdx uvpt) (self_entry pgdir) counted }),
  )

unfoldable pub env_setup_vm : ℕ → Kernel → Run (Reply ℕ × Kernel)
env_setup_vm e k = do (page, m) ← page_alloc alloc_zero k.mem; setup_page e k page m
