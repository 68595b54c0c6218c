-- ===== src/Pmap/Table/Inserted.antt =====
-- What page_insert of kern/pmap.c leaves, and the entry that it writes.
use yu_os.Prelude.{
  ℕ, ◌<◌, Option, List, ◌^◌, ◌≡◌, ◌+◌, ◌∉◌, some, if◌then◌else◌, arith, bit_or, ◌/◌, ◌==◌, ◌*◌,
  none, ◌∙◌, sym,
}
use yu_os.Pmap.{Mem, Option, List, pte_addr, page2pa, arith}
use yu_os.Pmap.Table.Translate.{translate}
use yu_os.Layout.{pte_addr, pte_p}
use yu_os.Pmap.Table.Space.{Others}
use yu_os.Pmap.Table.{page_entry, bit_or}
use yu_os.Prelude.Bits.{bit_or-one, bit_or-eq_add}
use yu_os.Pmap.Table.Entry.{page_entry_lem}

-- The entry that `page_insert` writes over one for the same page
pub replaced_entry :
    (pp perm pte : ℕ)
    → pp < 2 ^ 20
    → perm < 4096
    → pte_addr pte ≡ page2pa pp
    → bit_or (pte_addr pte) (bit_or perm pte_p) ≡ page_entry pp perm
replaced_entry pp perm pte hp hq e = joined ∙ sym (page_entry_lem pp perm hp hq)
  where
    address : page2pa pp ≡ pp * 2 ^ 12
    address = omega arith

    joined : bit_or (pte_addr pte) (bit_or perm pte_p) ≡ pp * 4096 + (perm / 2 * 2 + 1)
    joined = rw (e, bit_or-one perm, address, bit_or-eq_add 12 pp (perm / 2 * 2 + 1) (omega arith))

-- The references of `pp` after it has been inserted over the entry `old`
abbrev pub count_after : ℕ → Option ℕ → ℕ → ℕ
count_after pp none n = n + 1
count_after pp (some pte) n = if pte / 4096 == pp then n else n + 1

-- What a successful `page_insert` leaves: the page is mapped with its permissions, the other user
-- pages are mapped as before, and the page has one reference more unless it was mapped here.
pub record Inserted (dir va pp perm : ℕ) (m m' : Mem) : Type 0 where
  pub mapped : translate m'.word dir va ≡ some (page_entry pp perm)
  pub others : Others dir va m.word m'.word
  pub count : m'.pp_ref pp ≡ count_after pp (translate m.word dir va) (m.pp_ref pp)

-- A page that can be inserted: it exists, is not free, and has room for one more reference.
pub record IsPage (m : Mem) (free : List ℕ) (pp : ℕ) : Type 0 where
  pub exists : pp < m.npages
  pub used : pp ∉ free
  pub narrow : m.pp_ref pp + 1 < 2 ^ 16
