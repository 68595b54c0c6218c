-- ===== src/Pmap/Table/Remove.antt =====
-- page_lookup and page_remove against the hardware's reading of the tables.
use yu_os.Pmap.Table.Translate.{Words, translate, table_of, put}
use yu_os.Pmap.{Mem, ℕ, Option, ok, pa2page-ok, List, update}
use yu_os.Pmap.Table.{
  page_lookup, Slot, flag, Found, some, true, false, page_remove, store, tlb_invalidate,
}
use yu_os.Prelude.{
  ℕ, ◌≡◌, Option, ok, Bool-cases, true, ◌/◌, inr, ◌<◌, inl, false, none, List, ◌∉◌, ◌^◌, update,
  ◌-◌, ◌∷◌, ap, refl,
}
use yu_os.Layout.{flag, pdx, ptx, pte_p}
use yu_os.Pmap.Table.Walk.{walk_absent, walk_present}
use yu_os.Pmap.Alloc.FreeList.{IsFreeList, free_after, page_decref_refines, IsFreeList-word}

-- The table and the page that serve `va` exist.
pub record InRange (m : Mem) (dir va : ℕ) : Type 0 where
  pub tables : flag (m.word dir (pdx va)) pte_p ≡ true → table_of m.word dir va < m.npages
  pub pages : (pte : ℕ) → translate m.word dir va ≡ some pte → pte / 4096 < m.npages

abbrev pub slot_of : Words → ℕ → ℕ → Slot
slot_of word dir va = record { table = table_of word dir va; index = ptx va }

-- The page that an entry maps, with the slot of `va`
abbrev pub found : Words → ℕ → ℕ → Option ℕ → Option Found
found word dir va none = none
found word dir va (some pte) = some (record { page = pte / 4096; slot = slot_of word dir va })

-- If the table and the page that serve the address exist, `page_lookup` finds the page and the slot
-- that the hardware reads in the same tables, and changes nothing.
pub page_lookup-translate :
    (m : Mem) (dir va : ℕ)
    → InRange m dir va
    → page_lookup dir va m ≡ ok (found m.word dir va (translate m.word dir va), m)
unfolding page_lookup translate
page_lookup-translate m dir va r = elim (Bool-cases (flag (m.word dir (pdx va)) pte_p)) [
  | inr absent ↦ rw (walk_absent dir va m absent, absent)
  | inl p ↦ elim (Bool-cases (flag (m.word (table_of m.word dir va) (ptx va)) pte_p)) [
    | inr gone ↦ rw (walk_present dir va false m p (r.tables p), p, gone)
    | inl here ↦ rw (
      walk_present dir va false m p (r.tables p),
      p,
      here,
      pa2page-ok (m.word (table_of m.word dir va) (ptx va)) m (r.pages _ (rw (p, here))),
    )
  ]
]

-- Removing a page that is not mapped changes nothing.
pub page_remove_unmapped :
    (m : Mem) (dir va : ℕ)
    → InRange m dir va
    → translate m.word dir va ≡ none
    → page_remove dir va m ≡ ok m
unfolding page_remove
page_remove_unmapped m dir va r gone = rw (page_lookup-translate m dir va r, gone)

-- What removing the page `q` of `va` leaves: its slot is zero, it has one reference less and is
-- free if that was the last, and the address is flushed from the TLB.
pub record Removed (dir va q : ℕ) (m : Mem) (free : List ℕ) (m' : Mem) : Type 0 where
  pub list : IsFreeList m' (free_after q m free)
  pub words : m'.word ≡ put (table_of m.word dir va) (ptx va) 0 m.word
  pub refs : m'.pp_ref ≡ update m.pp_ref q (m.pp_ref q - 1)
  pub pages : m'.npages ≡ m.npages
  pub tlb : m'.invlpg ≡ va ∷ m.invlpg

-- The page that an entry maps is referenced, and is not free.
pub record IsHeld (m : Mem) (free : List ℕ) (q : ℕ) : Type 0 where
  pub exists : q < m.npages
  pub used : q ∉ free
  pub counted : 0 < m.pp_ref q
  pub narrow : m.pp_ref q < 2 ^ 16

pub page_remove_mapped :
    {m : Mem} (free : List ℕ) (dir va pte : ℕ)
    → IsFreeList m free
    → InRange m dir va
    → translate m.word dir va ≡ some pte
    → IsHeld m free (pte / 4096)
    → (m' : Mem) × (page_remove dir va m ≡ ok m') × Removed dir va (pte / 4096) m free m'
unfolding page_remove put
page_remove_mapped {m} free dir va pte v r here held =
    let (m1, run, d) =
      page_decref_refines {m = cleared} free (pte / 4096)
        (IsFreeList-word free cleared.word m.invlpg v) held.exists held.used held.counted
        held.narrow in
    (
      tlb_invalidate dir va m1,
      rw (page_lookup-translate m dir va r, here) (rw run refl),
      record {
        list =
            IsFreeList-word {m = m1} (free_after (pte / 4096) cleared free) m1.word (va ∷ m1.invlpg)
              d.list;
        words = d.words;
        refs = d.refs;
        pages = d.pages;
        tlb = ap (λ l. va ∷ l) d.tlb;
      },
    )
  where
    cleared : Mem
    cleared = store (slot_of m.word dir va) 0 m
