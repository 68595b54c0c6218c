-- ===== src/Pmap/Table/Walk.antt =====
-- What pgdir_walk finds or makes, on each of its paths.
use yu_os.Prelude.{
  ℕ, Bool, List, ◌≡◌, ◌*◌, true, false, ok, ◌+◌, [], update, none, ◌≢◌, ◌<◌, some, ◌≤◌, ◌∷◌, ◌^◌,
  bit_or, ==_refl, arith, ◌/◌,
}
use yu_os.Pmap.Table.{
  pgdir_walk, Bool, Mem, page_alloc, flag, true, false, none, some, bit_or, walk_table,
}
use yu_os.Pmap.{Mem, ok, update, kaddr-ok, set_word, page2pa, arith}
use yu_os.Pmap.Alloc.{page_alloc, alloc_zero, ref_up}
use yu_os.Pmap.Alloc.FreeList.{IsFreeList, page_alloc_refines, IsFreeList-ref}
use yu_os.Layout.{flag, pdx, pte_p, ptx, pte_w, pte_u}
use yu_os.Pmap.Table.Translate.{put, table_of}
use yu_os.Pmap.Table.Entry.{table_entry_lem}

pub walk_present :
    (dir va : ℕ) (create : Bool) (m : Mem)
    → flag (m.word dir (pdx va)) pte_p ≡ true
    → table_of m.word dir va < m.npages
    → pgdir_walk dir va create m
      ≡ ok (some (record { table = table_of m.word dir va; index = ptx va }), m)
unfolding pgdir_walk
walk_present dir va create m p h = rw (p, kaddr-ok (m.word dir (pdx va)) m h)

pub walk_absent :
    (dir va : ℕ) (m : Mem)
    → flag (m.word dir (pdx va)) pte_p ≡ false
    → pgdir_walk dir va false m ≡ ok (none, m)
unfolding pgdir_walk
walk_absent dir va m p = rw p

-- With no page left for a table the walk returns NULL and changes nothing.
pub walk_full :
    (dir va : ℕ) (m : Mem)
    → flag (m.word dir (pdx va)) pte_p ≡ false
    → IsFreeList m []
    → pgdir_walk dir va true m ≡ ok (none, m)
unfolding pgdir_walk page_alloc
walk_full dir va m p v = rw (p, v.chain)

-- A new table is the first free page: it is cleared, referenced once, and named by the directory.
pub record Made (dir va t : ℕ) (m : Mem) (rest : List ℕ) (m' : Mem) : Type 0 where
  pub list : IsFreeList m' rest
  pub words : m'.word ≡ put dir (pdx va) (t * 4096 + 7) (update m.word t (λ _. 0))
  pub refs : m'.pp_ref ≡ update m.pp_ref t 1
  pub pages : m'.npages ≡ m.npages
  pub tlb : m'.invlpg ≡ m.invlpg

-- The directory entry and the reference count that `pgdir_walk` writes for the table `t`.
abbrev named_table : ℕ → ℕ → ℕ → Mem → Mem
named_table dir va t m =
    set_word dir (pdx va) (bit_or (bit_or (bit_or (page2pa t) pte_p) pte_w) pte_u) (ref_up t m)

walk_named :
    (dir va t : ℕ) (m : Mem)
    → t < m.npages
    → m.npages ≤ 2 ^ 20
    → walk_table dir va (named_table dir va t m)
      ≡ ok (some (record { table = t; index = ptx va }), named_table dir va t m)
walk_named dir va t m h small = rw (
  ==_refl dir,
  ==_refl (pdx va),
  table_entry_lem t (omega arith),
  kaddr-ok (t * 4096 + 7) m (omega arith),
  table_page,
)
  where
    table_page : (t * 4096 + 7) / 4096 ≡ t
    table_page = omega arith

pub walk-Made :
    (dir va t : ℕ) (rest : List ℕ) (m : Mem)
    → flag (m.word dir (pdx va)) pte_p ≡ false
    → IsFreeList m (t ∷ rest)
    → t ≢ dir
    → (m' : Mem) × (pgdir_walk dir va true m ≡ ok (some (record { table = t; index = ptx va }), m'))
      × Made dir va t m rest m'
unfolding pgdir_walk put
walk-Made dir va t rest m p v ne =
    let (m1, run, a) = page_alloc_refines alloc_zero (t ∷ rest) v in
    (
      named_table dir va t m1,
      rw (p, run) (walk_named dir va t m1 (rw a.pages v.unused.0) (rw a.pages v.small)),
      record {
        list = IsFreeList-ref rest t _ _ _ v.unused.2 a.list;
        words = rw (table_entry_lem t (omega arith), a.words);
        refs = rw (a.refs, v.unused.1);
        pages = a.pages;
        tlb = a.tlb;
      },
    )
