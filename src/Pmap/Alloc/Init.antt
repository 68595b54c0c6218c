-- ===== src/Pmap/Alloc/Init.antt =====
-- The free list that page_init of kern/pmap.c builds.
use yu_os.Pmap.Alloc.{page_init, page_init_loop, reserved, none, suc, ltb, not, some, Bool}
use yu_os.Pmap.Alloc.FreeList.{IsFreeList, Unused-update}
use yu_os.Pmap.{Mem, ℕ, ◌≡◌, List, update, arith, leb}
use yu_os.Prelude.{
  List, ◌≡◌, ℕ, ◌<◌, has, ◌≤◌, none, [], if◌then◌else◌, Bool-cases, ltb, ◌^◌, ◌∉◌, update, ◌&&◌,
  ◌∷◌, inl, not, arith, some, zero, inr, ◌∙◌, Bool, update_self, refl, Chain-update, true, false,
  ◌==◌, ◌||◌, leb, ◌⊎◌, ◌↔◌, ◌*◌,
}
use native.Mathlib.Decide.{ℕ_discrete}

-- Page `p` is not page 0, not in the I/O hole from 640 KB to 1 MB, and not in the memory from 1 MB
-- up to `boot_end`.
abbrev pub is_free_page : ℕ → ℕ → Bool
is_free_page boot_end p =
    ltb 0 p && (ltb p 160 || leb 256 p) && (ltb p 256 || leb boot_end (4096 * p))

abbrev pub IsFreePage : ℕ → ℕ → Type 0
IsFreePage boot_end p = (0 < p) × ((p < 160) ⊎ (256 ≤ p)) × ((p < 256) ⊎ (boot_end ≤ 4096 * p))

is_free_page_lem : (boot_end p : ℕ) → (is_free_page boot_end p ≡ true) ↔ IsFreePage boot_end p
is_free_page_lem boot_end p = (λ e. ground arith, λ h. ground arith)

reserved_lem : (boot_end p : ℕ) → p < 2 ^ 20 → reserved boot_end p ≡ not (is_free_page boot_end p)
reserved_lem boot_end p h = ground arith

-- The free pages below `n`, the last first
abbrev pub free_pages : ℕ → ℕ → List ℕ
free_pages boot_end zero = []
free_pages boot_end (suc n) =
    let below = free_pages boot_end n in if is_free_page boot_end n then n ∷ below else below

-- The memory before: no free list yet, and every link NULL
pub record IsBlank (m : Mem) : Type 0 where
  pub no_list : m.page_free_list ≡ none
  pub no_links : (p : ℕ) → m.pp_link p ≡ none
  pub small : m.npages ≤ 2 ^ 20

pub free_pages-has :
    (boot_end n p : ℕ) → has p (free_pages boot_end n) ≡ (ltb p n && is_free_page boot_end p)
free_pages-has boot_end zero p = ground arith
free_pages-has boot_end (suc n) p = elim (Bool-cases (is_free_page boot_end n)) [
  | inl r ↦ rw (r, free_pages-has boot_end n p) (last_free (is_free_page boot_end p) (λ e. rw e r))
  | inr r ↦ rw (r, free_pages-has boot_end n p) (last_used (is_free_page boot_end p) (λ e. rw e r))
]
  where
    last_used : (b : Bool) → (p ≡ n → b ≡ false) → (ltb p n && b) ≡ (ltb p (suc n) && b)
    last_used b h = elim (ℕ_discrete p n) [
      | yes e ↦ rw (h e, e) (ground arith)
      | no ne ↦ ground arith
    ]

    last_free :
        (b : Bool) → (p ≡ n → b ≡ true) → ((p == n) || (ltb p n && b)) ≡ (ltb p (suc n) && b)
    last_free b h = elim (ℕ_discrete p n) [
      | yes e ↦ rw (h e, e) (ground arith)
      | no ne ↦ ground arith
    ]

push-IsFreeList :
    {m : Mem} (free : List ℕ) (p : ℕ)
    → IsFreeList m free
    → p < m.npages
    → p ∉ free
    → IsFreeList
        (record m {
          pp_ref = update m.pp_ref p 0;
          pp_link = update m.pp_link p m.page_free_list;
          page_free_list = some p;
        })
        (p ∷ free)
push-IsFreeList {m} free p v lo out = record {
  chain = (
    refl,
    rw (update_self m.pp_link p m.page_free_list)
        (Chain-update m.pp_link m.page_free_list free p m.page_free_list out v.chain),
  );
  unused =
      (lo, update_self m.pp_ref p 0, out, Unused-update m.npages m.pp_ref free p 0 out v.unused);
  unlinked = λ q away. ground (arith, v.unlinked q);
  small = v.small;
}

has-IsFreePage :
    (boot_end n p : ℕ) → (has p (free_pages boot_end n) ≡ true) ↔ ((p < n) × IsFreePage boot_end p)
has-IsFreePage boot_end n p = rw (free_pages-has boot_end n p) (
    let h = is_free_page_lem boot_end p in
    (λ e. (ground arith, h.0 (ground arith)), λ e. let x = h.1 e.1 in ground arith))

module _ (boot_end : ℕ) (m : Mem) (blank : IsBlank m) where
  loop_pages : (n : ℕ) → (page_init_loop boot_end n m).npages ≡ m.npages
  unfolding page_init_loop
  loop_pages zero = refl
  loop_pages (suc n) = elim (Bool-cases (reserved boot_end n)) [
    | inl r ↦ rw r (loop_pages n)
    | inr r ↦ rw r (loop_pages n)
  ]

  loop-IsFreeList :
      (n : ℕ) → n ≤ m.npages → IsFreeList (page_init_loop boot_end n m) (free_pages boot_end n)
  unfolding page_init_loop
  loop-IsFreeList zero h = record {
    chain = blank.no_list;
    unused = tt;
    unlinked = λ p out. blank.no_links p;
    small = blank.small;
  }
  loop-IsFreeList (suc n) h = elim (Bool-cases (is_free_page boot_end n)) [
    | inl r ↦
        let low = blank.small in
        rw (reserved_lem boot_end n (omega arith), r)
          (push-IsFreeList (free_pages boot_end n) n (loop-IsFreeList n (omega arith))
            (rw (loop_pages n) (omega arith)) (free_pages-has boot_end n n ∙ ground arith))
    | inr r ↦
        let low = blank.small in
        rw (reserved_lem boot_end n (omega arith), r) (loop-IsFreeList n (omega arith))
  ]

  -- With no free list, no links and at most 2^20 pages, `page_init` makes a sound free list of
  -- exactly these pages: page 0 is not on it, nor are the pages from 160 to 255 (the I/O hole, from
  -- 640 KB to 1 MB), nor those from 256 on that start below the given physical end of the kernel;
  -- all others are.
  pub page_init-IsFreeList :
      IsFreeList (page_init boot_end m) (free_pages boot_end m.npages)
      × ((p : ℕ)
          → (has p (free_pages boot_end m.npages) ≡ true)
            ↔ ((p < m.npages) × IsFreePage boot_end p))
  unfolding page_init
  page_init-IsFreeList =
      (loop-IsFreeList m.npages (omega arith), λ p. has-IsFreePage boot_end m.npages p)
