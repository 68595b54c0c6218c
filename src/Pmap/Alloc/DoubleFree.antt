-- ===== src/Pmap/Alloc/DoubleFree.antt =====
-- Freeing a page of the free list again, with page_free of kern/pmap.c.
use yu_os.Pmap.{Mem, ℕ, Option, List, ok, update}
use yu_os.Pmap.Alloc.{page_free, some}
use yu_os.Pmap.Alloc.FreeList.{IsFreeList}
use yu_os.Prelude.{ℕ, ◌∷◌, Option, [], List, ◌≡◌, ok, some, Chain, update, update_self, refl}
use mathlib.Core.Path.{subst}

-- A link that leads to its own page has no end.
no-Chain :
    (link : ℕ → Option ℕ) (p : ℕ) (free : List ℕ) → link p ≡ some p → ¬ Chain link (some p) free
no-Chain link p [] e c = absurd (cc)
no-Chain link p (q ∷ qs) e c =
    let same : p ≡ q = (let h = c.0 in cc) in
    let next : link q ≡ some p = rw (← same) e in
    no-Chain link p qs e (subst (λ head. Chain link head qs) next c.1)

-- If the free list is one page, `page_free` of that page again does not panic, and what it leaves
-- is no free list: the links never end.
pub page_free_again :
    (m : Mem) (p : ℕ)
    → IsFreeList m (p ∷ [])
    → (m' : Mem) × (page_free p m ≡ ok m') × ((free : List ℕ) → ¬ IsFreeList m' free)
unfolding page_free
page_free_again m p v = (
  record m { pp_link = update m.pp_link p m.page_free_list; page_free_list = some p },
  rw (v.unused.1, v.chain.1) refl,
  λ free w.
      no-Chain (update m.pp_link p m.page_free_list) p free
        (rw (update_self m.pp_link p m.page_free_list, v.chain.0)) w.chain,
)
