-- ===== src/Pmap/Table/Translate.antt =====
-- What the paging hardware reads from a page directory: the specification of a mapping.
use yu_os.Prelude.{
  ℕ, Option, ◌≢◌, update, if◌then◌else◌, ◌/◌, some, ◌≡◌, none, true, ◌⊎◌, ==_refl, Bool-cases,
  ==-ne, arith, inl, inr, ◌*◌, sym, ==_iff, ◌+◌, ◌∙◌, update_ne, update_self, false,
}
use yu_os.Layout.{pdx, flag, pte_p, ptx}
use mathlib.Core.Path.{fun_ext}

-- The words of physical memory
abbrev pub Words : Type 0
Words = ℕ → ℕ → ℕ

abbrev pub table_of : Words → ℕ → ℕ → ℕ
table_of word dir va = word dir (pdx va) / 4096

-- A page-table entry, if its present bit is set
abbrev pub present : ℕ → Option ℕ
present pte = if flag pte pte_p then some pte else none

-- The entry that maps `va`, if one does
unfoldable pub translate : Words → ℕ → ℕ → Option ℕ
translate word dir va =
    if flag (word dir (pdx va)) pte_p then present (word (table_of word dir va) (ptx va)) else none

unfoldable pub put : ℕ → ℕ → ℕ → Words → Words
put page i v word = update word page (update (word page) i v)

pub put_self : (page i v : ℕ) (word : Words) → put page i v word page i ≡ v
unfolding put
put_self page i v word = rw (==_refl page, ==_refl i)

pub put_page_ne : (page i v p : ℕ) (word : Words) → page ≢ p → put page i v word p ≡ word p
unfolding put
put_page_ne page i v p word h = rw (==-ne page p h)

pub put_ne :
    (page i v p j : ℕ) (word : Words) → (p ≢ page) ⊎ (j ≢ i) → put page i v word p j ≡ word p j
unfolding put
put_ne page i v p j word h = ground arith

-- A write to the slot of `va`, in a table that is not the directory
pub translate-put :
    (word : Words) (dir va v t : ℕ)
    → flag (word dir (pdx va)) pte_p ≡ true
    → table_of word dir va ≡ t
    → t ≢ dir
    → translate (put t (ptx va) v word) dir va ≡ present v
unfolding translate
translate-put word dir va v t p e h =
    rw (put_page_ne t (ptx va) v dir word h, p, e, put_self t (ptx va) v word)

-- leaves the other pages of the directory alone, if no table serves two of its entries.
pub translate-put_ne :
    (word : Words) (dir t i v va : ℕ)
    → t ≢ dir
    → ((flag (word dir (pdx va)) pte_p ≡ true) → (table_of word dir va ≢ t) ⊎ (ptx va ≢ i))
    → translate (put t i v word) dir va ≡ translate word dir va
unfolding translate
translate-put_ne word dir t i v va h apart =
    rw (put_page_ne t i v dir word h) (elim (Bool-cases (flag (word dir (pdx va)) pte_p)) [
      | inl p ↦ rw (p, put_ne t i v (table_of word dir va) (ptx va) word (apart p))
      | inr absent ↦ rw absent
    ])

-- The words after `pgdir_walk` has made the table `t` for the directory's entry `i`
abbrev pub with_table : ℕ → ℕ → ℕ → Words → Words
with_table dir i t word = put dir i (t * 4096 + 7) (update word t (λ _. 0))

module _ (word : Words) (dir i t : ℕ) (ne : t ≢ dir) where
  with_table-entry : with_table dir i t word dir i ≡ t * 4096 + 7
  with_table-entry = put_self dir i (t * 4096 + 7) (update word t (λ _. 0))

  pub with_table-present : flag (with_table dir i t word dir i) pte_p ≡ true
  with_table-present = rw with_table-entry ((==_iff _ 1).1 (omega arith))

  pub with_table-table : with_table dir i t word dir i / 4096 ≡ t
  with_table-table = rw with_table-entry (omega arith)

  pub with_table-zero : (k : ℕ) → with_table dir i t word t k ≡ 0
  with_table-zero k =
      put_ne dir i (t * 4096 + 7) t k (update word t (λ _. 0)) (inl ne)
      ∙ rw (update_self word t (λ _. 0))

  pub with_table-other :
      (p k : ℕ) → p ≢ t → (p ≢ dir) ⊎ (k ≢ i) → with_table dir i t word p k ≡ word p k
  with_table-other p k apart h =
      put_ne dir i (t * 4096 + 7) p k (update word t (λ _. 0)) h
      ∙ rw (update_ne word t p (λ _. 0) (λ e. apart (sym e)))

  -- A new table maps nothing,
  pub translate-with_table :
      (va : ℕ) → pdx va ≡ i → translate (with_table dir i t word) dir va ≡ none
  unfolding translate
  translate-with_table va e =
      rw (e, with_table-present, with_table-table, with_table-zero (ptx va)) (ground arith)

  -- and leaves the pages of the other tables alone.
  pub translate-with_table_ne :
      (va : ℕ)
      → pdx va ≢ i
      → (flag (word dir (pdx va)) pte_p ≡ true
          → (table_of word dir va ≢ dir) × (table_of word dir va ≢ t))
      → translate (with_table dir i t word) dir va ≡ translate word dir va
  unfolding translate
  translate-with_table_ne va h old =
      rw (with_table-other dir (pdx va) (λ e. ne (sym e)) (inr h))
        (elim (Bool-cases (flag (word dir (pdx va)) pte_p)) [
          | inl p ↦
              rw (p, with_table-other (table_of word dir va) (ptx va) (old p).1 (inl (old p).0))
          | inr absent ↦ rw absent
        ])

-- What the slot of `va` holds, by its translation
module _ (word : Words) (dir va : ℕ) (p : flag (word dir (pdx va)) pte_p ≡ true) where
  pub slot_empty :
      translate word dir va ≡ none → flag (word (table_of word dir va) (ptx va)) pte_p ≡ false
  unfolding translate
  slot_empty e = elim (Bool-cases (flag (word (table_of word dir va) (ptx va)) pte_p)) [
    | inl full ↦ absurd (ground arith)
    | inr empty ↦ empty
  ]

  pub slot_full :
      {pte : ℕ}
      → translate word dir va ≡ some pte
      → (word (table_of word dir va) (ptx va) ≡ pte) × (flag pte pte_p ≡ true)
  unfolding translate
  slot_full e = elim (Bool-cases (flag (word (table_of word dir va) (ptx va)) pte_p)) [
    | inl full ↦ ground arith
    | inr empty ↦ absurd (ground arith)
  ]

pub translate_absent :
    (word : Words) (dir va : ℕ)
    → flag (word dir (pdx va)) pte_p ≡ false
    → translate word dir va ≡ none
unfolding translate
translate_absent word dir va absent = rw absent

pub put-put : (t i u v : ℕ) (word : Words) → put t i v (put t i u word) ≡ put t i v word
unfolding put
put-put t i u v word = fun_ext λ p. fun_ext λ j. ground arith

-- Clearing a page that is neither the directory nor a table of it
pub translate-clear :
    (word : Words) (dir p va : ℕ)
    → p ≢ dir
    → (flag (word dir (pdx va)) pte_p ≡ true → p ≢ table_of word dir va)
    → translate (update word p (λ _. 0)) dir va ≡ translate word dir va
unfolding translate
translate-clear word dir p va ne apart =
    rw (==-ne p dir ne) (elim (Bool-cases (flag (word dir (pdx va)) pte_p)) [
      | inl q ↦ rw (q, ==-ne p (table_of word dir va) (apart q))
      | inr absent ↦ rw absent
    ])
