-- ===== src/Pmap/Table/Entry.antt =====
-- What the bits of a page-table entry say, for the entries that pmap.c composes.
use yu_os.Prelude.{ℕ, ◌<◌, ◌^◌, bit_or, ◌≡◌, ◌/◌, ◌*◌, arith, true, ◌+◌, ==_iff}
use yu_os.Layout.{flag, pte_p, pte_w, pte_u}
use yu_os.Pmap.Table.{page_entry, page2pa, true}
use yu_os.Pmap.{page2pa, arith}
use yu_os.Prelude.Bits.{bit_or-eq_add, bit_or-one, bit_or_two, bit_or_four}

-- `page2pa(pp)|perm|PTE_P` has the page's number above bit 12 and `perm|PTE_P` below.
pub page_entry_lem :
    (pp perm : ℕ) → pp < 2 ^ 20 → perm < 4096 → page_entry pp perm ≡ pp * 4096 + (perm / 2 * 2 + 1)
page_entry_lem pp perm hp hq =
    rw (address, bit_or-eq_add 12 pp perm hq, bit_or-one (pp * 2 ^ 12 + perm)) (omega arith)
  where
    address : page2pa pp ≡ pp * 2 ^ 12
    address = omega arith

pub page_entry-page : (pp perm : ℕ) → pp < 2 ^ 20 → perm < 4096 → page_entry pp perm / 4096 ≡ pp
page_entry-page pp perm hp hq = omega (arith, page_entry_lem pp perm hp hq)

pub page_entry-present :
    (pp perm : ℕ) → pp < 2 ^ 20 → perm < 4096 → flag (page_entry pp perm) pte_p ≡ true
page_entry-present pp perm hp hq = (==_iff _ 1).1 (omega (arith, page_entry_lem pp perm hp hq))

-- The entry that `pgdir_walk` makes for a new table
pub table_entry_lem :
    (pp : ℕ) → pp < 2 ^ 20 → bit_or (bit_or (bit_or (page2pa pp) pte_p) pte_w) pte_u ≡ pp * 4096 + 7
table_entry_lem pp h =
    rw (address, bit_or-eq_add 12 pp 1 (omega arith), bit_or_two, bit_or_four) (omega arith)
  where
    address : page2pa pp ≡ pp * 2 ^ 12
    address = omega arith
