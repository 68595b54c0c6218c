-- ===== src/Pmap/Table/Space.antt =====
-- The user part of an address space, and page_remove on it.
use yu_os.Pmap.Table.Translate.{translate, Words, table_of, put, translate-put_ne, translate-put}
use yu_os.Prelude.{
  ℕ, List, ◌<◌, ◌∉◌, ◌≡◌, some, ok, ◌≢◌, none, true, Option-cases, Bool-cases, inl, ◌⊎◌, inr, ◌/◌,
  arith, refl,
}
use yu_os.Pmap.{Mem, List, ok, arith}
use yu_os.Pmap.Alloc.FreeList.{IsFreeList}
use yu_os.Layout.{utop, pgnum, flag, pdx, pte_p, ptx}
use yu_os.Pmap.Table.{page_remove, none, true}
use yu_os.Pmap.Table.Remove.{InRange, page_remove_unmapped, IsHeld, page_remove_mapped}
use native.Mathlib.Decide.{ℕ_discrete}

-- What a page directory satisfies below UTOP: its tables exist, are in use, and serve one entry
-- each; what they map is held.
pub record IsSpace (m : Mem) (free : List ℕ) (dir : ℕ) : Type 0 where
  pub dir_used : dir ∉ free
  pub tables :
      (va : ℕ)
      → va < utop
      → flag (m.word dir (pdx va)) pte_p ≡ true
      → (table_of m.word dir va < m.npages)
        × (table_of m.word dir va ≢ dir)
        × (table_of m.word dir va ∉ free)
  pub apart :
      (va vb : ℕ)
      → va < utop
      → vb < utop
      → flag (m.word dir (pdx va)) pte_p ≡ true
      → flag (m.word dir (pdx vb)) pte_p ≡ true
      → pdx va ≢ pdx vb
      → table_of m.word dir va ≢ table_of m.word dir vb
  pub held :
      (va pte : ℕ) → va < utop → translate m.word dir va ≡ some pte → IsHeld m free (pte / 4096)

pub InRange-space :
    {m : Mem} {free : List ℕ} {dir : ℕ} (va : ℕ) → IsSpace m free dir → va < utop → InRange m dir va
InRange-space va sp h = record {
  tables = λ p. (sp.tables va h p).0;
  pages = λ pte e. (sp.held va pte h e).exists;
}

-- An address with an entry has a table.
pub mapped-has_table :
    (word : Words) (dir va pte : ℕ)
    → translate word dir va ≡ some pte
    → flag (word dir (pdx va)) pte_p ≡ true
unfolding translate
mapped-has_table word dir va pte e = elim (Bool-cases (flag (word dir (pdx va)) pte_p)) [
  | inl p ↦ p
  | inr absent ↦ absurd (ground arith)
]

-- Two pages have two slots.
pub slots_apart :
    {m : Mem} {free : List ℕ} {dir : ℕ} (va vb : ℕ)
    → IsSpace m free dir
    → va < utop
    → vb < utop
    → pgnum vb ≢ pgnum va
    → flag (m.word dir (pdx va)) pte_p ≡ true
    → flag (m.word dir (pdx vb)) pte_p ≡ true
    → (table_of m.word dir vb ≢ table_of m.word dir va) ⊎ (ptx vb ≢ ptx va)
slots_apart va vb sp ha hb ne pa pb = elim (ℕ_discrete (pdx vb) (pdx va)) [
  | yes e ↦ inr (omega arith)
  | no other ↦ inl (sp.apart vb va hb ha pb pa other)
]

-- Only the page of `va` may be read differently in the words `word'`.
pub record Others (dir va : ℕ) (word word' : Words) : Type 0 where
  pub same :
      (vb : ℕ) → vb < utop → pgnum vb ≢ pgnum va → translate word' dir vb ≡ translate word dir vb

-- A write to the slot of `va`
pub Others-put :
    {m : Mem} {free : List ℕ} {dir : ℕ} (va v : ℕ)
    → IsSpace m free dir
    → va < utop
    → flag (m.word dir (pdx va)) pte_p ≡ true
    → Others dir va m.word (put (table_of m.word dir va) (ptx va) v m.word)
Others-put {m} {free} {dir} va v sp h p = record {
  same = λ vb hb ne.
      translate-put_ne m.word dir (table_of m.word dir va) (ptx va) v vb (sp.tables va h p).1
        (λ pb. slots_apart va vb sp h hb ne p pb);
}

-- `page_remove` of an address below UTOP in an address space whose tables are sound succeeds.
-- Afterwards the address is not mapped and every other user page is mapped as before.
pub page_remove-translate :
    {m : Mem} (free : List ℕ) (dir va : ℕ)
    → IsFreeList m free
    → IsSpace m free dir
    → va < utop
    → (m' : Mem) × (page_remove dir va m ≡ ok m')
      × (translate m'.word dir va ≡ none)
      × Others dir va m.word m'.word
page_remove-translate {m} free dir va v sp h = elim (Option-cases (translate m.word dir va)) [
  | inl gone ↦ (
    m,
    page_remove_unmapped m dir va (InRange-space va sp h) gone,
    gone,
    record { same = λ vb hb ne. refl },
  )
  | inr (pte, here) ↦
      (let p = mapped-has_table m.word dir va pte here in
        let (m', run, removed) =
          page_remove_mapped free dir va pte v (InRange-space va sp h) here
            (sp.held va pte h here) in
        (
          m',
          run,
          rw removed.words
              (translate-put m.word dir va 0 (table_of m.word dir va) p refl (sp.tables va h p).1),
          rw removed.words (Others-put va 0 sp h p),
        ))
]
