-- ===== src/Pmap/UserMem/Range.antt =====
-- What user_mem_check makes of a range.
use yu_os.Pmap.UserMem.{
  user_mem_check, check_pages, rounds_of, end_of, bit_and, none, suc, false, start_of, some,
}
use yu_os.Pmap.{Mem, ℕ, ok, leb, arith}
use yu_os.Prelude.{
  ℕ, ◌%◌, ◌+◌, ◌<◌, ◌*◌, ◌≡◌, true, ◌≤◌, bit_and, ok, none, ◌↔◌, leb, false, arith, ==_iff, zero,
  refl, some, ◌-◌, Bool-cases, ◌≢◌, inr, ap, ◌∙◌, inl, ==-ne,
}
use yu_os.Pmap.Table.Remove.{InRange}
use yu_os.Layout.{flag, pdx, pgsize, pte_p, word_mod, ulim, ptx}
use yu_os.Pmap.Table.Translate.{table_of}
use yu_os.Pmap.Table.Walk.{walk_present, walk_absent}
use native.Mathlib.Decide.{ℕ_discrete}

-- The entry of `va` grants `perm`, whatever its present bit says.
abbrev pub Grants : Mem → ℕ → ℕ → ℕ → Type 0
Grants m dir va perm =
    (flag (m.word dir (pdx va)) pte_p ≡ true)
    × (bit_and (m.word (table_of m.word dir va) (ptx va)) perm ≡ perm)

module _ (m : Mem) (dir va perm : ℕ) (r : InRange m dir va) where
  check_granted :
      (n addr : ℕ)
      → Grants m dir va perm
      → addr + n * pgsize < ulim + pgsize
      → check_pages n addr dir va perm m ≡ ok none
  unfolding check_pages
  check_granted zero addr g h = refl
  check_granted (suc n) addr g h =
      rw
        (
          ==-leb ulim addr (omega arith),
          walk_present dir va false m g.0 (r.tables g.0),
          (==_iff _ perm).1 g.1,
        )
        (check_granted n (addr + pgsize) g (omega arith))
    where
      ==-leb : (a b : ℕ) → b < a → leb a b ≡ false
      ==-leb a b q = ground arith

  check_denied :
      (n addr : ℕ)
      → addr < ulim
      → ¬ Grants m dir va perm
      → check_pages (suc n) addr dir va perm m ≡ ok (some addr)
  unfolding check_pages
  check_denied n addr h d =
      rw (==-leb addr h) (elim (Bool-cases (flag (m.word dir (pdx va)) pte_p)) [
        | inr absent ↦ rw (walk_absent dir va m absent) refl
        | inl p ↦
            rw
              (
                walk_present dir va false m p (r.tables p),
                ==-ne (bit_and (m.word (table_of m.word dir va) (ptx va)) perm) perm
                    (λ e. d (p, e)),
              )
              refl
      ])
    where
      ==-leb : (b : ℕ) → b < ulim → leb ulim b ≡ false
      ==-leb b q = ground arith

  -- `user_mem_check` of a range of at least one page that ends below ULIM, in tables that exist,
  -- accepts exactly if the first page of the range grants the permissions. The other pages of the
  -- range are not looked at.
  pub check_one_page :
      (len : ℕ)
      → 0 < rounds_of va len
      → end_of va len ≤ ulim
      → (user_mem_check dir va len perm m ≡ ok none) ↔ Grants m dir va perm
  unfolding user_mem_check
  check_one_page len some_page below = (
    λ h. elim (Bool-cases (flag (m.word dir (pdx va)) pte_p)) [
      | inr absent ↦ absurd (refused (λ g. ground arith) h)
      | inl p ↦ elim (ℕ_discrete (bit_and (m.word (table_of m.word dir va) (ptx va)) perm) perm) [
        | yes e ↦ (p, e)
        | no other ↦ absurd (refused (λ g. other g.1) h)
      ]
    ],
    λ g. rw (check_granted (rounds_of va len) (start_of va) g in_space),
  )
    where
      in_space : start_of va + rounds_of va len * pgsize < ulim + pgsize
      in_space = omega arith

      one_more : rounds_of va len ≡ suc (rounds_of va len - 1)
      one_more = omega arith

      refused : ¬ Grants m dir va perm → user_mem_check dir va len perm m ≢ ok none
      refused d h =
          let e = check_denied (rounds_of va len - 1) (start_of va) (omega arith) d in
          absurd (
            let q = ap (λ n. check_pages n (start_of va) dir va perm m) one_more ∙ e in
            ground arith)

-- A range from a page boundary whose end wraps past 2^32, and stays below its start, is empty for
-- the loop of `user_mem_check`: it is accepted in any address space, whatever is mapped.
pub check_wraps :
    (m : Mem) (dir va len perm : ℕ)
    → va % pgsize ≡ 0
    → va < word_mod
    → len < word_mod
    → word_mod ≤ va + len + 1
    → len + 1 + pgsize ≤ word_mod
    → user_mem_check dir va len perm m ≡ ok none
unfolding user_mem_check check_pages
check_wraps m dir va len perm aligned hv hl wraps small = rw no_rounds
  where
    no_rounds : rounds_of va len ≡ 0
    no_rounds = rw ((==_iff _ 0).1 aligned) (omega arith)
