-- ===== src/Pmap.antt =====
-- The state of kern/pmap.c and the address conversions of kern/pmap.h.
-- A `struct PageInfo *` is its index in `pages`, which is also the number of the physical page.
-- The kernel address of a physical page (`page2kva`, `KADDR` of an aligned address) stands for
-- that page and is its number too. A page holds 1024 words.
pub mod Alloc
pub mod Table
pub mod UserMem
use yu_os.Prelude.{
  ℕ, ◌*◌, ◌%◌, ◌≡◌, Option, List, Run, ok, panic, update, leb, if◌then◌else◌, ◌<◌, ◌≤◌, ◌^◌, arith,
  ◌/◌,
}
use yu_os.Layout.{word_mod, pgsize, pgnum, pte_addr}

pub record Mem : Type 0 where
  pub npages : ℕ
  pub pp_ref : ℕ → ℕ
  pub pp_link : ℕ → Option ℕ
  pub page_free_list : Option ℕ
  -- physical memory: the words of each page
  pub word : ℕ → ℕ → ℕ
  -- the addresses that `invlpg` has flushed from the TLB, the latest first
  pub invlpg : List ℕ

abbrev pub set_word : ℕ → ℕ → ℕ → Mem → Mem
set_word page i v m = record m { word = update m.word page (update (m.word page) i v) }

-- `memset(page2kva(pp), 0, PGSIZE)`
abbrev pub clear_page : ℕ → Mem → Mem
clear_page page m = record m { word = update m.word page (λ _. 0) }

abbrev pub page2pa : ℕ → ℕ
page2pa pp = pp * pgsize % word_mod

abbrev pub pa2page : ℕ → Mem → Run ℕ
pa2page pa m = if leb m.npages (pgnum pa) then panic else ok (pgnum pa)

abbrev pub kaddr : ℕ → Mem → Run ℕ
kaddr pa m = if leb m.npages (pgnum pa) then panic else ok (pgnum pa)

-- `page2kva`
abbrev pub page2kva : ℕ → Mem → Run ℕ
page2kva pp m = kaddr (page2pa pp) m

-- The addresses of existing pages convert without a panic.
pub page2kva-ok : (p : ℕ) (m : Mem) → p < m.npages → m.npages ≤ 2 ^ 20 → page2kva p m ≡ ok p
page2kva-ok p m h small = ground arith

pub kaddr-ok :
    (pte : ℕ) (m : Mem) → pte / 4096 < m.npages → kaddr (pte_addr pte) m ≡ ok (pte / 4096)
kaddr-ok pte m h = ground arith

pub pa2page-ok :
    (pte : ℕ) (m : Mem) → pte / 4096 < m.npages → pa2page (pte_addr pte) m ≡ ok (pte / 4096)
pa2page-ok pte m h = ground arith
