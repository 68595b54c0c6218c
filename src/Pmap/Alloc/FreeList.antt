-- ===== src/Pmap/Alloc/FreeList.antt =====
-- The free list of pages as a list of page numbers, which page_alloc pops and page_free pushes.
use yu_os.Prelude.{
  ℕ, ◌<◌, ◌≤◌, ◌^◌, ◌≡◌, Option, none, some, List, [], ◌∷◌, arith, ◌∉◌, update, ==-ne,
  if◌then◌else◌, ok, Bool-cases, refl, panic, update_self, inl, ◌↔◌, ◌≢◌, inr, ◌⊎◌, ==_refl, ◌-◌,
  ◌==◌, true, ◌∙◌, ap, false, ==_iff, Chain-update, Chain,
}
use yu_os.Pmap.{Mem, ok, panic, page2kva-ok}
use yu_os.Pmap.Alloc.{page_alloc, flag, alloc_zero, page_decref, page_free, ref_down}
use mathlib.Core.List.{tail, head?}
use yu_os.Layout.{flag}

-- The pages are distinct, exist, and have no references.
abbrev pub Unused : ℕ → (ℕ → ℕ) → List ℕ → Type 0
Unused npages ref [] = Unit {0}
Unused npages ref (p ∷ ps) = (p < npages) × (ref p ≡ 0) × (p ∉ ps) × Unused npages ref ps

pub record IsFreeList (m : Mem) (free : List ℕ) : Type 0 where
  pub chain : Chain m.pp_link m.page_free_list free
  pub unused : Unused m.npages m.pp_ref free
  -- A page that is not free has no link.
  pub unlinked : (p : ℕ) → p ∉ free → m.pp_link p ≡ none
  pub small : m.npages ≤ 2 ^ 20

pub Unused-update :
    (n : ℕ) (ref : ℕ → ℕ) (ps : List ℕ) (q v : ℕ)
    → q ∉ ps
    → Unused n ref ps
    → Unused n (update ref q v) ps
Unused-update n ref [] q v out u = tt
Unused-update n ref (p ∷ ps) q v out u =
    (u.0, ground arith, u.2, Unused-update n ref ps q v (ground arith) u.3)

-- The list does not depend on the words of memory, nor on the references of other pages.
pub IsFreeList-ref :
    {m : Mem} (free : List ℕ) (p v : ℕ) (w : ℕ → ℕ → ℕ) (tlb : List ℕ)
    → p ∉ free
    → IsFreeList m free
    → IsFreeList (record m { pp_ref = update m.pp_ref p v; word = w; invlpg = tlb }) free
IsFreeList-ref {m} free p v w tlb out l = record {
  chain = l.chain;
  unused = Unused-update m.npages m.pp_ref free p v out l.unused;
  unlinked = l.unlinked;
  small = l.small;
}

pub IsFreeList-word :
    {m : Mem} (free : List ℕ) (w : ℕ → ℕ → ℕ) (tlb : List ℕ)
    → IsFreeList m free
    → IsFreeList (record m { word = w; invlpg = tlb }) free
IsFreeList-word free w tlb l = record {
  chain = l.chain;
  unused = l.unused;
  unlinked = l.unlinked;
  small = l.small;
}

-- What ALLOC_ZERO does to the words of the page that is handed out.
abbrev pub zeroed : ℕ → Option ℕ → (ℕ → ℕ → ℕ) → ℕ → ℕ → ℕ
zeroed flags none word = word
zeroed flags (some p) word = if flag flags alloc_zero then update word p (λ _. 0) else word

-- What `page_alloc` leaves: the first page is taken off the list, and cleared on request.
pub record Allocated (flags : ℕ) (m : Mem) (free : List ℕ) (m' : Mem) : Type 0 where
  pub list : IsFreeList m' (tail free)
  pub words : m'.word ≡ zeroed flags (head? free) m.word
  pub refs : m'.pp_ref ≡ m.pp_ref
  pub pages : m'.npages ≡ m.npages
  pub tlb : m'.invlpg ≡ m.invlpg

abbrev taken : ℕ → Mem → Mem
taken p m = record m { page_free_list = m.pp_link p; pp_link = update m.pp_link p none }

taken-IsFreeList :
    (m : Mem) (p : ℕ) (ps : List ℕ) (w : ℕ → ℕ → ℕ)
    → IsFreeList m (p ∷ ps)
    → IsFreeList (record (taken p m) { word = w }) ps
taken-IsFreeList m p ps w v = record {
  chain = Chain-update m.pp_link (m.pp_link p) ps p none v.unused.2 v.chain.1;
  unused = v.unused.3;
  unlinked = λ q out. ground (arith, v.unlinked q);
  small = v.small;
}

page_alloc_run :
    (flags : ℕ) (m : Mem) (p : ℕ)
    → m.page_free_list ≡ some p
    → p < m.npages
    → m.npages ≤ 2 ^ 20
    → page_alloc flags m ≡ ok (some p, record (taken p m) { word = zeroed flags (some p) m.word })
unfolding page_alloc
page_alloc_run flags m p e h small =
    rw (e, page_alloc)
      (elim (Bool-cases (flag flags alloc_zero)) [
        | inl zero ↦ rw (zero, page2kva-ok p (taken p m) h small) refl
        | inr keep ↦ rw keep refl
      ])

-- With an empty list `page_alloc` returns NULL and changes nothing.
pub page_alloc_empty : (flags : ℕ) (m : Mem) → IsFreeList m [] → page_alloc flags m ≡ ok (none, m)
unfolding page_alloc
page_alloc_empty flags m v = rw v.chain

-- On a sound free list `page_alloc` takes the first page off, clears it on request and returns it,
-- or returns NULL if there is none. What is left is a sound free list, and nothing else changes.
pub page_alloc_refines :
    (flags : ℕ) {m : Mem} (free : List ℕ)
    → IsFreeList m free
    → (m' : Mem) × (page_alloc flags m ≡ ok (head? free, m')) × Allocated flags m free m'
unfolding page_alloc
page_alloc_refines flags {m} [] v =
    (m, rw (v.chain), record { list = v; words = refl; refs = refl; pages = refl; tlb = refl })
page_alloc_refines flags {m} (p ∷ ps) v = (
  record (taken p m) { word = zeroed flags (some p) m.word },
  page_alloc_run flags m p v.chain.0 v.unused.0 v.small,
  record {
    list = taken-IsFreeList m p ps (zeroed flags (some p) m.word) v;
    words = refl;
    refs = refl;
    pages = refl;
    tlb = refl;
  },
)

-- What `page_free` leaves: the page stands at the head of the list.
pub record Freed (p : ℕ) (m : Mem) (free : List ℕ) (m' : Mem) : Type 0 where
  pub list : IsFreeList m' (p ∷ free)
  pub words : m'.word ≡ m.word
  pub refs : m'.pp_ref ≡ m.pp_ref
  pub pages : m'.npages ≡ m.npages
  pub tlb : m'.invlpg ≡ m.invlpg

-- `page_free` of an existing page that has no references and is not on the free list puts it at the
-- head of the list and changes nothing else.
pub page_free_refines :
    {m : Mem} (free : List ℕ) (p : ℕ)
    → IsFreeList m free
    → p < m.npages
    → p ∉ free
    → m.pp_ref p ≡ 0
    → (m' : Mem) × (page_free p m ≡ ok m') × Freed p m free m'
unfolding page_free
page_free_refines {m} free p v h out zero = (
  record m { pp_link = update m.pp_link p m.page_free_list; page_free_list = some p },
  rw (zero, v.unlinked p out),
  record {
    list = record {
      chain = (
        refl,
        rw (update_self m.pp_link p m.page_free_list)
            (Chain-update m.pp_link m.page_free_list free p m.page_free_list out v.chain),
      );
      unused = (h, zero, out, v.unused);
      unlinked = λ q o. ground (arith, v.unlinked q);
      small = v.small;
    };
    words = refl;
    refs = refl;
    pages = refl;
    tlb = refl;
  },
)

-- `page_free` panics exactly if the page has references or a link.
pub page_free-panic :
    (p : ℕ) (m : Mem) → (page_free p m ≡ panic) ↔ ((m.pp_ref p ≢ 0) ⊎ (m.pp_link p ≢ none))
unfolding page_free
page_free-panic p m = (λ h. ground arith, λ h. ground arith)

-- The free list after a reference to `p` is gone
abbrev pub free_after : ℕ → Mem → List ℕ → List ℕ
free_after p m free = if m.pp_ref p == 1 then p ∷ free else free

-- What `page_decref` leaves: one reference less, and the page freed if that was the last.
pub record Dropped (p : ℕ) (m : Mem) (free : List ℕ) (m' : Mem) : Type 0 where
  pub list : IsFreeList m' (free_after p m free)
  pub words : m'.word ≡ m.word
  pub refs : m'.pp_ref ≡ update m.pp_ref p (m.pp_ref p - 1)
  pub pages : m'.npages ≡ m.npages
  pub tlb : m'.invlpg ≡ m.invlpg

page_decref-page_free :
    (p : ℕ) (m : Mem) → (ref_down p m).pp_ref p ≡ 0 → page_decref p m ≡ page_free p (ref_down p m)
unfolding page_decref
page_decref-page_free p m zero =
    let tested : ((ref_down p m).pp_ref p == 0) ≡ true = rw zero in rw tested

module _ {m : Mem} (free : List ℕ) (p : ℕ) (v : IsFreeList m free) (h : p < m.npages)
    (out : p ∉ free) where
  lowered : 0 < m.pp_ref p → m.pp_ref p < 2 ^ 16 → (ref_down p m).pp_ref p ≡ m.pp_ref p - 1
  lowered lo hi = rw (==_refl p) (omega arith)

  lowered_refs :
      0 < m.pp_ref p
      → m.pp_ref p < 2 ^ 16
      → (ref_down p m).pp_ref ≡ update m.pp_ref p (m.pp_ref p - 1)
  lowered_refs lo hi = ap (λ (r : ℕ). update m.pp_ref p r) (omega arith)

  Freed-Dropped : m.pp_ref p ≡ 1 → (m' : Mem) → Freed p (ref_down p m) free m' → Dropped p m free m'
  Freed-Dropped one m' f = record {
    list = rw one f.list;
    words = f.words;
    refs = f.refs ∙ lowered_refs (omega arith) (omega arith);
    pages = f.pages;
    tlb = f.tlb;
  }

  page_decref_last : m.pp_ref p ≡ 1 → (m' : Mem) × (page_decref p m ≡ ok m') × Dropped p m free m'
  page_decref_last one =
      let zero : (ref_down p m).pp_ref p ≡ 0 =
        rw (lowered (omega arith) (omega arith)) (omega arith) in
      let (m', run, f) =
        page_free_refines free p (IsFreeList-ref free p _ m.word m.invlpg out v) h out zero in
      (m', page_decref-page_free p m zero ∙ run, Freed-Dropped one m' f)

  page_decref_more :
      1 < m.pp_ref p
      → m.pp_ref p < 2 ^ 16
      → (m' : Mem) × (page_decref p m ≡ ok m') × Dropped p m free m'
  unfolding page_decref
  page_decref_more lo hi =
      let tested : ((ref_down p m).pp_ref p == 0) ≡ false =
        rw (lowered (omega arith) hi) (==-ne _ 0 (omega arith)) in
      (
        ref_down p m,
        rw tested,
        record {
          list =
              rw (==-ne (m.pp_ref p) 1 (omega arith))
                (IsFreeList-ref free p _ m.word m.invlpg out v);
          words = refl;
          refs = lowered_refs (omega arith) hi;
          pages = refl;
          tlb = refl;
        },
      )

  -- `page_decref` of an existing page that is not free and has between 1 and 2^16 - 1 references
  -- takes one away, and puts the page on the free list exactly if that was the last.
  pub page_decref_refines :
      0 < m.pp_ref p
      → m.pp_ref p < 2 ^ 16
      → (m' : Mem) × (page_decref p m ≡ ok m') × Dropped p m free m'
  page_decref_refines lo hi = elim (Bool-cases (m.pp_ref p == 1)) [
    | inl last ↦ page_decref_last ((==_iff _ 1).0 last)
    | inr more ↦ page_decref_more (ground arith) hi
  ]
