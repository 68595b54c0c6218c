-- ===== src/Tests/PmapExamples.antt =====
-- The theorems on memory at the small machine.
use yu_os.Pmap.Alloc.{page_alloc, page_decref, alloc_zero, page_init}
use yu_os.Pmap.Table.{page_lookup, page_insert, page_remove}
use yu_os.Pmap.Alloc.FreeList.{
  IsFreeList, Dropped, Allocated, page_decref_refines, page_alloc_refines,
}
use yu_os.Pmap.{Mem}
use yu_os.Pmap.UserMem.{user_mem_check}
use yu_os.Prelude.{◌≡◌, [], arith, ok, none, ◌↔◌, some, ◌∷◌, inl, refl, ℕ, has, true, ◌<◌}
use yu_os.Layout.{ret}
use yu_os.Pmap.Table.Translate.{translate}
use yu_os.Pmap.UserMem.Range.{Grants, check_one_page}
use yu_os.Pmap.Table.Remove.{found, page_lookup-translate}
use yu_os.Pmap.Table.Space.{Others, page_remove-translate, InRange-space}
use yu_os.Pmap.Table.Inserted.{Inserted}
use yu_os.Pmap.Table.Insert.{page_insert_refines}
use yu_os.Tests.Machine.{mem, in_range, mem-IsFreeList, mem-IsSpace, IsPage-four}
use yu_os.Pmap.Alloc.Init.{IsBlank, free_pages, page_init-IsFreeList, IsFreePage}

page_alloc_refines_example :
    (m' : Mem) × (page_alloc alloc_zero mem ≡ ok (some 8, m'))
    × Allocated alloc_zero mem (8 ∷ 9 ∷ []) m'
page_alloc_refines_example = page_alloc_refines alloc_zero (8 ∷ 9 ∷ []) mem-IsFreeList

-- Page 5 has one reference: it is freed.
page_decref_refines_example :
    (m' : Mem) × (page_decref 5 mem ≡ ok m') × Dropped 5 mem (8 ∷ 9 ∷ []) m'
page_decref_refines_example =
    page_decref_refines (8 ∷ 9 ∷ []) 5 mem-IsFreeList (omega arith) refl (omega arith) (omega arith)

page_lookup-translate_example :
    page_lookup 2 0x1000 mem ≡ ok (found mem.word 2 0x1000 (translate mem.word 2 0x1000), mem)
page_lookup-translate_example = page_lookup-translate mem 2 0x1000 in_range

page_remove-translate_example :
    (m' : Mem) × (page_remove 2 0x1000 mem ≡ ok m')
    × (translate m'.word 2 0x1000 ≡ none)
    × Others 2 0x1000 mem.word m'.word
page_remove-translate_example =
    page_remove-translate (8 ∷ 9 ∷ []) 2 0x1000 mem-IsFreeList mem-IsSpace (omega arith)

-- Page 4 goes in place of page 5.
page_insert_refines_example :
    (m' : Mem) × (page_insert 2 4 0x2000 7 mem ≡ ok (ret 0, m')) × Inserted 2 0x2000 4 7 mem m'
page_insert_refines_example =
    page_insert_refines (8 ∷ 9 ∷ []) 2 0x2000 4 7 mem-IsFreeList mem-IsSpace (omega arith)
      IsPage-four (omega arith) (inl refl)

-- The same memory with no page left
abbrev full : Mem
full = record mem { page_free_list = none; pp_link = λ p. none }

full-IsFreeList : IsFreeList full []
full-IsFreeList = record {
  chain = refl;
  unused = tt;
  unlinked = λ p out. refl;
  small = omega arith;
}

-- A range of two pages of which the second is read-only, checked for writing
check_one_page_example : (user_mem_check 2 0x1800 0x1000 2 mem ≡ ok none) ↔ Grants mem 2 0x1800 2
check_one_page_example =
    check_one_page mem 2 0x1800 2 (InRange-space 0x1800 mem-IsSpace (omega arith)) 0x1000
      (omega arith) (omega arith)

-- Memory at boot: nothing is on a list.
abbrev blank : Mem
blank = record mem { page_free_list = none; pp_link = λ p. none; npages = 0x200 }

blank-IsBlank : IsBlank blank
blank-IsBlank = record { no_list = refl; no_links = λ p. refl; small = omega arith }

page_init-IsFreeList_example :
    IsFreeList (page_init 0x150000 blank) (free_pages 0x150000 0x200)
    × ((p : ℕ) → (has p (free_pages 0x150000 0x200) ≡ true) ↔ ((p < 0x200) × IsFreePage 0x150000 p))
page_init-IsFreeList_example = page_init-IsFreeList 0x150000 blank blank-IsBlank
