-- ===== src/Pmap/UserMem.antt =====
-- user_mem_check of kern/pmap.c, on the page directory of an environment.
pub mod Range
use yu_os.Prelude.{
  ℕ, if◌then◌else◌, ◌-◌, Run, ◌/◌, ◌==◌, not, ◌%◌, Option, ◌+◌, ok, ◌>>=◌, none, suc, some, leb,
  false, bit_and, zero,
}
use yu_os.Layout.{round_down, pgsize, word_mod, round_up, ulim}
use yu_os.Pmap.{Mem, Run, Option, ok, leb}
use yu_os.Pmap.Table.{pgdir_walk, load}

-- The rounds of the loop from the page at `addr` on. The result is the page at which it fails.
-- `pgdir_walk` is called for `va` in every round.
unfoldable pub check_pages : ℕ → ℕ → ℕ → ℕ → ℕ → Mem → Run (Option ℕ)
check_pages zero addr pgdir va perm m = ok none
check_pages (suc n) addr pgdir va perm m =
    let rest = check_pages n (addr + pgsize) pgdir va perm m in
    if leb ulim addr then ok (some addr) else (do
      (pte, m) ← pgdir_walk pgdir va false m
      elim pte [
        | none ↦ ok (some addr)
        | some s ↦ (if not (bit_and (load s m) perm == perm) then ok (some addr) else rest)
      ])

abbrev pub start_of : ℕ → ℕ
start_of va = round_down va

-- A page that `va` begins counts in full even where the range ends before it.
abbrev pub end_of : ℕ → ℕ → ℕ
end_of va len =
    if not (va % pgsize == 0)
    then round_up ((va + len) % word_mod)
    else round_up ((va + len + 1) % word_mod)

-- `for (addr = start; addr < end; addr += PGSIZE)`: `start` and `end` are multiples of PGSIZE.
abbrev pub rounds_of : ℕ → ℕ → ℕ
rounds_of va len = (end_of va len - start_of va) / pgsize

-- The address that is reported for a failure at the page `addr`
abbrev pub fault_addr : ℕ → ℕ → ℕ → ℕ
fault_addr va len addr =
    if addr == start_of va
    then va
    else if addr == (va + word_mod - pgsize) % word_mod
    then (va + len) % word_mod
    else addr

-- `some a` is -E_FAULT with `user_mem_check_addr` set to `a`.
unfoldable pub user_mem_check : ℕ → ℕ → ℕ → ℕ → Mem → Run (Option ℕ)
user_mem_check pgdir va len perm m = do
  failed ← check_pages (rounds_of va len) (start_of va) pgdir va perm m
  elim failed [ none ↦ ok none | some addr ↦ ok (some (fault_addr va len addr)) ]
