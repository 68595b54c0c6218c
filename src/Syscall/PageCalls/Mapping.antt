-- ===== src/Syscall/PageCalls/Mapping.antt =====
-- What sys_page_alloc, sys_page_map and sys_page_unmap do to the address spaces.
use yu_os.Pmap.{Mem}
use yu_os.Prelude.{
  ℕ, ◌<◌, List, ◌∷◌, ◌≤◌, ◌%◌, ◌⊎◌, ◌≢◌, ◌≡◌, false, true, arith, bit_and, ok, ==-ne, ◌/◌, ◌∙◌,
  ==_iff, [], some, refl,
}
use yu_os.Syscall.PageCalls.{sys_page_alloc, utop, alloc_zero, bad_va, alloc_in}
use yu_os.Env.{Kernel}
use yu_os.Pmap.Table.Space.{IsSpace, Others}
use yu_os.Layout.{
  utop, pgsize, flag, pte_u, pte_p, not_pte_syscall, word_mod, err, inval, pdx, no_mem, ret,
}
use yu_os.Pmap.Alloc.FreeList.{Allocated, IsFreeList, page_alloc_refines, page_free_refines}
use yu_os.Pmap.Alloc.{alloc_zero}
use yu_os.Syscall.{back}
use yu_os.Pmap.Table.Remove.{IsHeld}
use yu_os.Pmap.Table.Translate.{translate, translate-clear, Words}
use yu_os.Env.Id.{Names}
use yu_os.Syscall.Rights.{with_env_unchecked}
use yu_os.Pmap.Table.{page_entry}
use yu_os.Pmap.Table.Inserted.{IsPage}
use yu_os.Pmap.Table.Insert.{page_insert_full, page_insert_refines}
use yu_os.Prelude.Bits.{lt_of_bit_and}
use mathlib.Core.Path.{subst}

-- Arguments that the checks of the calls accept
pub record IsUserPage (va perm : ℕ) : Type 0 where
  pub low : va < utop
  pub aligned : va % pgsize ≡ 0
  pub user : flag perm pte_u ≡ true
  pub present : flag perm pte_p ≡ true
  pub legal : bit_and perm not_pte_syscall ≡ 0
  pub word : perm < word_mod

pub bad_va-ok : (va : ℕ) → va < utop → va % pgsize ≡ 0 → bad_va va ≡ false
bad_va-ok va h a = ground arith

-- `sys_page_alloc` returns -E_INVAL and changes nothing for an address at or above UTOP or not on a
-- page boundary, and for permissions without PTE_U or PTE_P or with a bit outside PTE_SYSCALL.
pub sys_page_alloc_rejects :
    (envid va perm : ℕ) (k : Kernel)
    → (utop ≤ va)
      ⊎ ((va % pgsize ≢ 0)
          ⊎ ((flag perm pte_u ≡ false)
              ⊎ ((flag perm pte_p ≡ false) ⊎ (bit_and perm not_pte_syscall ≢ 0))))
    → sys_page_alloc envid va perm k ≡ ok (back (err inval), k)
unfolding sys_page_alloc
sys_page_alloc_rejects envid va perm k h = ground arith

-- `page_alloc` hands out a page that is no table of the directory: the space reads as before.
module _ {m m1 : Mem} {p : ℕ} {rest : List ℕ} {dir : ℕ} (sp : IsSpace m (p ∷ rest) dir)
    (a : Allocated alloc_zero m (p ∷ rest) m1) where
  p_dir : p ≢ dir
  p_dir e = let d = sp.dir_used in ground arith

  alloc_dir : m1.word dir ≡ m.word dir
  alloc_dir = rw (a.words, ==-ne p dir p_dir)

  alloc_translate : (va : ℕ) → va < utop → translate m1.word dir va ≡ translate m.word dir va
  alloc_translate va h =
      rw a.words (
        translate-clear m.word dir p va p_dir (λ q e. let d = (sp.tables va h q).2 in ground arith))

  alloc-IsHeld : (q : ℕ) → IsHeld m (p ∷ rest) q → IsHeld m1 rest q
  alloc-IsHeld q held = record {
    exists = rw a.pages held.exists;
    used = let d = held.used in ground arith;
    counted = rw a.refs held.counted;
    narrow = rw a.refs held.narrow;
  }

  IsSpace-alloc : IsSpace m1 rest dir
  IsSpace-alloc = record {
    dir_used = let d = sp.dir_used in ground arith;
    tables = λ va h.
        rw (alloc_dir, a.pages)
          (λ q. let t = sp.tables va h q in (t.0, t.1, let d = t.2 in ground arith));
    apart = λ va vb ha hb. rw alloc_dir (sp.apart va vb ha hb);
    held =
        λ va pte h. rw (alloc_translate va h) (λ e. alloc-IsHeld (pte / 4096) (sp.held va pte h e));
  }

  Others-alloc : {va : ℕ} {word' : Words} → Others dir va m1.word word' → Others dir va m.word word'
  Others-alloc o = record { same = λ vb h ne. o.same vb h ne ∙ alloc_translate vb h }

-- The part behind the checks is reached with good arguments.
sys_page_alloc-checked :
    (k : Kernel) (envid i va perm : ℕ)
    → envid ≢ 0
    → Names k envid i
    → IsUserPage va perm
    → sys_page_alloc envid va perm k ≡ alloc_in va perm i k
unfolding sys_page_alloc
sys_page_alloc-checked k envid i va perm ne n u =
    rw (bad_va-ok va u.low u.aligned, u.user, u.present, (==_iff _ 0).1 u.legal)
      (with_env_unchecked k envid i (alloc_in va perm) ne n)

module _ (k : Kernel) (envid i va perm p : ℕ) (rest : List ℕ) (ne : envid ≢ 0) (n : Names k envid i)
    (u : IsUserPage va perm) (v : IsFreeList k.mem (p ∷ rest))
    (sp : IsSpace k.mem (p ∷ rest) (k.envs i).env_pgdir) where
  -- With an address below UTOP on a page boundary, legal permissions and an id other than 0 that
  -- names an environment with a sound address space, `sys_page_alloc` maps the first free page
  -- there with the permissions, if the environment has a table for the address or a second page is
  -- free. This holds for every caller, whether it may change the environment or not; the comment
  -- promises -E_BAD_ENV to a caller that may not. The other user pages of the environment are
  -- mapped as before.
  pub sys_page_alloc_lem :
      (flag (k.mem.word (k.envs i).env_pgdir (pdx va)) pte_p ≡ true) ⊎ (rest ≢ [])
      → (k' : Kernel) × (sys_page_alloc envid va perm k ≡ ok (back (ret 0), k'))
        × (translate k'.mem.word (k.envs i).env_pgdir va ≡ some (page_entry p perm))
        × Others (k.envs i).env_pgdir va k.mem.word k'.mem.word
  unfolding alloc_in
  sys_page_alloc_lem room =
      let (m1, run, a) = page_alloc_refines alloc_zero (p ∷ rest) v in
      let (m2, run2, ins) =
        page_insert_refines rest (k.envs i).env_pgdir va p perm a.list (IsSpace-alloc sp a) u.low
          (fresh_page m1 a) (lt_of_bit_and perm u.word u.legal) (table_room m1 a room) in
      (
        record k { mem = m2 },
        sys_page_alloc-checked k envid i va perm ne n u ∙ rw run (rw run2 refl),
        ins.mapped,
        Others-alloc sp a ins.others,
      )
    where
      fresh_page : (m1 : Mem) → Allocated alloc_zero k.mem (p ∷ rest) m1 → IsPage m1 rest p
      fresh_page m1 a = record {
        exists = rw a.pages v.unused.0;
        used = v.unused.2;
        narrow = rw (a.refs, v.unused.1) (omega arith);
      }

      table_room :
          (m1 : Mem)
          → Allocated alloc_zero k.mem (p ∷ rest) m1
          → (flag (k.mem.word (k.envs i).env_pgdir (pdx va)) pte_p ≡ true) ⊎ (rest ≢ [])
          → (flag (m1.word (k.envs i).env_pgdir (pdx va)) pte_p ≡ true) ⊎ (rest ≢ [])
      table_room m1 a = rw (alloc_dir sp a) (λ r. r)

  -- With arguments as for `sys_page_alloc_lem`, if the only free page is taken and a table is
  -- wanted too, `sys_page_alloc` returns -E_NO_MEM, the page is free again, and the address space
  -- reads as before.
  pub sys_page_alloc_full :
      flag (k.mem.word (k.envs i).env_pgdir (pdx va)) pte_p ≡ false
      → rest ≡ []
      → (k' : Kernel) × (sys_page_alloc envid va perm k ≡ ok (back (err no_mem), k'))
        × IsFreeList k'.mem (p ∷ rest)
        × ((vb : ℕ)
            → vb < utop
            → translate k'.mem.word (k.envs i).env_pgdir vb
              ≡ translate k.mem.word (k.envs i).env_pgdir vb)
  unfolding alloc_in
  sys_page_alloc_full absent none_left =
      let (m1, run, a) = page_alloc_refines alloc_zero (p ∷ rest) v in
      let (m2, run2, f) =
        page_free_refines rest p a.list (rw a.pages v.unused.0) v.unused.2 (rw a.refs v.unused.1) in
      (
        record k { mem = m2 },
        sys_page_alloc-checked k envid i va perm ne n u
            ∙ rw run (
                rw
                  (page_insert_full m1 (k.envs i).env_pgdir p va perm (rw (alloc_dir sp a) absent)
                    (subst (λ l. IsFreeList m1 l) none_left a.list))
                  (rw run2 refl)),
        f.list,
        λ vb h. rw f.words (alloc_translate sp a vb h),
      )
