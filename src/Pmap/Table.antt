-- ===== src/Pmap/Table.antt =====
-- Two-level page tables in kern/pmap.c: pgdir_walk, page_lookup, page_insert, page_remove and
-- boot_map_region. A `pde_t *` to a page directory is the number of its page; a `pte_t *` is a
-- slot, a table's page with an index.
use yu_os.Prelude.{◌-◌}
pub mod Entry
pub mod Translate
pub mod Walk
pub mod Remove
pub mod Space
pub mod Inserted
pub mod Insert
use yu_os.Prelude.{
  ℕ, zero, suc, ◌+◌, ◌/◌, ◌%◌, bit_or, Bool, true, false, not, Option, none, some, ◌∷◌, Run, ok,
  panic, ◌>>=◌, ◌==◌, if◌then◌else◌,
}
use yu_os.Layout.{
  word_mod, pgsize, pte_p, pte_w, pte_u, flag, pdx, ptx, pte_addr, no_mem, Reply, ret, err,
}
use yu_os.Pmap.{Mem, set_word, page2pa, pa2page, kaddr}
use yu_os.Pmap.Alloc.{alloc_zero, page_alloc, page_decref, ref_up}

pub record Slot : Type 0 where
  pub table : ℕ
  pub index : ℕ

abbrev pub load : Slot → Mem → ℕ
load s m = m.word s.table s.index

abbrev pub store : Slot → ℕ → Mem → Mem
store s v m = set_word s.table s.index v m

-- The last lines of `pgdir_walk`: the slot in the table that the directory entry names.
abbrev pub walk_table : ℕ → ℕ → Mem → Run (Option Slot × Mem)
walk_table pgdir va m = do
  pt ← kaddr (pte_addr (m.word pgdir (pdx va))) m
  ok (some (record { table = pt; index = ptx va }), m)

unfoldable pub pgdir_walk : ℕ → ℕ → Bool → Mem → Run (Option Slot × Mem)
pgdir_walk pgdir va create m =
    if flag (m.word pgdir (pdx va)) pte_p
    then walk_table pgdir va m
    else if not create
    then ok (none, m)
    else do
      (page, m) ← page_alloc alloc_zero m
      elim page [
        | none ↦ ok (none, m)
        | some page ↦ walk_table pgdir va (
            set_word pgdir (pdx va) (bit_or (bit_or (bit_or (page2pa page) pte_p) pte_w) pte_u)
              (ref_up page m))
      ]

-- What `page_lookup` returns and stores: the page, and the slot that maps it.
pub record Found : Type 0 where
  pub page : ℕ
  pub slot : Slot

unfoldable pub page_lookup : ℕ → ℕ → Mem → Run (Option Found × Mem)
page_lookup pgdir va m = do
  (pte, m) ← pgdir_walk pgdir va false m
  elim pte [
    | none ↦ ok (none, m)
    | some s ↦
        (if not (flag (load s m) pte_p) then ok (none, m) else (do
          page ← pa2page (pte_addr (load s m)) m
          ok (some (record { page = page; slot = s }), m)))
  ]

abbrev pub tlb_invalidate : ℕ → ℕ → Mem → Mem
tlb_invalidate pgdir va m = record m { invlpg = va ∷ m.invlpg }

unfoldable pub page_remove : ℕ → ℕ → Mem → Run Mem
page_remove pgdir va m = do
  (found, m) ← page_lookup pgdir va m
  elim found [
    | none ↦ ok m
    | some f ↦ (do m ← page_decref f.page (store f.slot 0 m); ok (tlb_invalidate pgdir va m))
  ]

-- `page2pa(pp)|perm|PTE_P`
abbrev pub page_entry : ℕ → ℕ → ℕ
page_entry pp perm = bit_or (bit_or (page2pa pp) perm) pte_p

unfoldable pub page_insert : ℕ → ℕ → ℕ → ℕ → Mem → Run (Reply ℕ × Mem)
page_insert pgdir pp va perm m = do
  (pte, m) ← pgdir_walk pgdir va true m
  elim pte [
    | none ↦ ok (err no_mem, m)
    | some s ↦
        (if flag (load s m) pte_p
          then (if pte_addr (load s m) == page2pa pp
              then ok (ret 0, store s (bit_or (pte_addr (load s m)) (bit_or perm pte_p)) m)
              else (do
                m ← page_remove pgdir va m
                ok (ret 0, ref_up pp (store s (page_entry pp perm) m))))
          else ok (ret 0, ref_up pp (store s (page_entry pp perm) m)))
  ]

-- One round of `boot_map_region`, at offset `i`. A NULL from `pgdir_walk` is dereferenced.
abbrev pub boot_map_step : ℕ → ℕ → ℕ → ℕ → ℕ → Mem → Run Mem
boot_map_step pgdir va pa perm i m = do
  (pte, m) ← pgdir_walk pgdir ((va + i) % word_mod) true m
  elim pte [
    | none ↦ panic
    | some s ↦ ok (store s (bit_or (bit_or ((pa + i) % word_mod) perm) pte_p) m)
  ]

-- The loop from offset `i`, with so many rounds left.
unfoldable pub boot_map_loop : ℕ → ℕ → ℕ → ℕ → ℕ → ℕ → Mem → Run Mem
boot_map_loop pgdir va pa perm i zero m = ok m
boot_map_loop pgdir va pa perm i (suc n) m = do
  m ← boot_map_step pgdir va pa perm i m
  boot_map_loop pgdir va pa perm (i + pgsize) n m

-- `for (i = 0; i < size; i += PGSIZE)` makes `size / PGSIZE` rounds, rounded up.
unfoldable pub boot_map_region : ℕ → ℕ → ℕ → ℕ → ℕ → Mem → Run Mem
unfolding boot_map_loop
boot_map_region pgdir va size pa perm m =
    boot_map_loop pgdir va pa perm 0 ((size + (pgsize - 1)) / pgsize) m
