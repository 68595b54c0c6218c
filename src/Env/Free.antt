-- ===== src/Env/Free.antt =====
-- env_free of kern/env.c.
use yu_os.Prelude.{
  Option, ℕ, Run, ok, if◌then◌else◌, not, suc, ◌>>=◌, ◌+◌, zero, none, ◌*◌, some, ◌==◌, update,
}
use yu_os.Pmap.{Mem, kaddr, set_word, pa2page, page2pa}
use yu_os.Env.{Kernel, update, Status}
use yu_os.Layout.{flag, pte_p, pte_addr, ptsize, pgsize, pdx, utop}
use yu_os.Pmap.Alloc.{page_decref}
use yu_os.Pmap.Table.{page_remove}

-- `page_remove` of the present entries of the table `pt`, from `pteno` with so many rounds left
unfoldable pub unmap_ptes : ℕ → ℕ → ℕ → ℕ → ℕ → Mem → Run Mem
unmap_ptes pgdir pt pdeno pteno zero m = ok m
unmap_ptes pgdir pt pdeno pteno (suc n) m = do
  m ←
      (if flag (m.word pt pteno) pte_p
        then page_remove pgdir (pdeno * ptsize + pteno * pgsize) m
        else ok m)
  unmap_ptes pgdir pt pdeno (pteno + 1) n m

-- One round of the loop over the directory. `PGADDR(pdeno, pteno, 0)` has disjoint bits.
unfoldable pub free_table : ℕ → ℕ → Mem → Run Mem
unfolding unmap_ptes
free_table pgdir pdeno m = if not (flag (m.word pgdir pdeno) pte_p) then ok m else (do
  pt ← kaddr (pte_addr (m.word pgdir pdeno)) m
  let pa : ℕ = pte_addr (m.word pgdir pdeno)
  m ← unmap_ptes pgdir pt pdeno 0 1024 m
  let m' : Mem = set_word pgdir pdeno 0 m
  page ← pa2page pa m'
  page_decref page m')

unfoldable pub free_tables : ℕ → ℕ → ℕ → Mem → Run Mem
free_tables pgdir pdeno zero m = ok m
free_tables pgdir pdeno (suc n) m = do
  m ← free_table pgdir pdeno m
  free_tables pgdir (pdeno + 1) n m

-- The page directory is switched first if the environment is the current one.
abbrev pub leave_space : ℕ → Option ℕ → Kernel → Kernel
leave_space e none k = k
leave_space e (some cur) k = if e == cur then record k { cr3 = k.kern_pgdir } else k

unfoldable pub env_free : ℕ → Kernel → Run Kernel
unfolding free_tables free_table
env_free e k = do
  let switched : Kernel = leave_space e k.curenv k
  let pgdir : ℕ = (k.envs e).env_pgdir
  m ← free_tables pgdir 0 (pdx utop) k.mem
  page ← pa2page (page2pa pgdir) m
  m ← page_decref page m
  ok (record switched {
    mem = m;
    envs =
        update k.envs e (record (k.envs e) {
          env_pgdir = 0;
          env_status = Status.free;
          env_link = k.env_free_list;
        });
    env_free_list = some e;
  })
