-- ===== src/Pmap/Table/Insert.antt =====
-- page_insert on the user part of an address space.
use yu_os.Prelude.{
  ℕ, ◌<◌, List, ◌^◌, ◌≡◌, ◌+◌, some, arith, ◌/◌, true, none, ok, update, ◌∙◌, sym, ◌%◌, ==_refl,
  refl, ◌≢◌, ==_iff, ==-ne, false, ◌∷◌, ◌∈◌, inr, [], ◌⊎◌, inl, Bool-cases, Option-cases,
}
use yu_os.Pmap.Table.Inserted.{Inserted, IsPage, count_after, replaced_entry}
use yu_os.Pmap.{Mem, List, pte_addr, page2pa, arith, ok, update}
use yu_os.Pmap.Table.Translate.{
  translate, put, table_of, translate-put, slot_empty, slot_full, put-put, Words, with_table,
  with_table-zero, with_table-present, with_table-table, translate_absent, translate-put_ne,
  translate-with_table, translate-with_table_ne, with_table-other,
}
use yu_os.Pmap.Alloc.FreeList.{IsFreeList}
use yu_os.Layout.{pte_addr, utop, flag, pdx, pte_p, ret, ptx, err, no_mem}
use yu_os.Pmap.Table.Space.{IsSpace, Others, Others-put, InRange-space}
use yu_os.Pmap.Table.{page_entry, page_insert, true, ref_up, store, false}
use yu_os.Pmap.Alloc.{ref_up}
use yu_os.Pmap.Table.Entry.{page_entry-present}
use yu_os.Pmap.Table.Remove.{slot_of, Removed, page_remove_mapped}
use yu_os.Pmap.Table.Walk.{walk_present, Made, walk-Made, walk_full}
use native.Mathlib.Decide.{ℕ_discrete}

module _ {m : Mem} (free : List ℕ) (dir va pp perm : ℕ) (v : IsFreeList m free)
    (sp : IsSpace m free dir) (h : va < utop) (pg : IsPage m free pp) (hq : perm < 4096) where
  small : pp < 2 ^ 20
  small = let a = pg.exists in let b = v.small in omega arith

  entry : ℕ
  entry = page_entry pp perm

  -- With a table there is one write to the slot of `va`.
  put_entry :
      flag (m.word dir (pdx va)) pte_p ≡ true
      → translate (put (table_of m.word dir va) (ptx va) (page_entry pp perm) m.word) dir va
        ≡ some (page_entry pp perm)
  put_entry p =
      translate-put m.word dir va (page_entry pp perm) (table_of m.word dir va) p refl
        (sp.tables va h p).1
      ∙ rw (page_entry-present pp perm small hq)

  -- 1. nothing was mapped at `va`
  insert_fresh :
      flag (m.word dir (pdx va)) pte_p ≡ true
      → translate m.word dir va ≡ none
      → (m' : Mem) × (page_insert dir pp va perm m ≡ ok (ret 0, m')) × Inserted dir va pp perm m m'
  unfolding page_insert put
  insert_fresh p gone = (
    ref_up pp (store (slot_of m.word dir va) (page_entry pp perm) m),
    rw (walk_present dir va true m p (sp.tables va h p).0, slot_empty m.word dir va p gone) refl,
    record {
      mapped = put_entry p;
      others = Others-put va (page_entry pp perm) sp h p;
      count = counted;
    },
  )
    where
      counted :
          update m.pp_ref pp ((m.pp_ref pp + 1) % 2 ^ 16) pp
          ≡ count_after pp (translate m.word dir va) (m.pp_ref pp)
      counted = rw (gone, ==_refl pp) (let n = pg.narrow in omega arith)

  -- 2. the same page was mapped: the entry gets the new permissions
  insert_same :
      flag (m.word dir (pdx va)) pte_p ≡ true
      → (pte : ℕ) → translate m.word dir va ≡ some pte
      → pte / 4096 ≡ pp
      → (m' : Mem) × (page_insert dir pp va perm m ≡ ok (ret 0, m')) × Inserted dir va pp perm m m'
  unfolding page_insert put
  insert_same p pte here same = (
    store (slot_of m.word dir va) (page_entry pp perm) m,
    rw
        (
          walk_present dir va true m p (sp.tables va h p).0,
          full.0,
          full.1,
          (==_iff (pte_addr pte) (page2pa pp)).1 address,
          replaced_entry pp perm pte small hq address,
        )
        refl,
    record {
      mapped = put_entry p;
      others = Others-put va (page_entry pp perm) sp h p;
      count = rw (here, (==_iff _ pp).1 same);
    },
  )
    where
      full : (m.word (table_of m.word dir va) (ptx va) ≡ pte) × (flag pte pte_p ≡ true)
      full = slot_full m.word dir va p here

      address : pte_addr pte ≡ page2pa pp
      address = let s = small in omega arith

  -- 3. another page was mapped: it is removed first
  insert_other :
      flag (m.word dir (pdx va)) pte_p ≡ true
      → (pte : ℕ) → translate m.word dir va ≡ some pte
      → pte / 4096 ≢ pp
      → (m' : Mem) × (page_insert dir pp va perm m ≡ ok (ret 0, m')) × Inserted dir va pp perm m m'
  unfolding page_insert put
  insert_other p pte here other =
      let (m1, run, removed) =
        page_remove_mapped free dir va pte v (InRange-space va sp h) here (sp.held va pte h here) in
      (
        ref_up pp (store (slot_of m.word dir va) (page_entry pp perm) m1),
        rw
            (
              walk_present dir va true m p (sp.tables va h p).0,
              full.0,
              full.1,
              ==-ne (pte_addr pte) (page2pa pp) address,
            )
            (rw run refl),
        record {
          mapped = rw (words m1 removed) (put_entry p);
          others = rw (words m1 removed) (Others-put va (page_entry pp perm) sp h p);
          count = counted m1 removed;
        },
      )
    where
      full : (m.word (table_of m.word dir va) (ptx va) ≡ pte) × (flag pte pte_p ≡ true)
      full = slot_full m.word dir va p here

      address : pte_addr pte ≢ page2pa pp
      address = let s = small in λ e. other (omega arith)

      words :
          (m1 : Mem)
          → Removed dir va (pte / 4096) m free m1
          → (store (slot_of m.word dir va) (page_entry pp perm) m1).word
            ≡ put (table_of m.word dir va) (ptx va) (page_entry pp perm) m.word
      words m1 removed =
          rw removed.words (put-put (table_of m.word dir va) (ptx va) 0 (page_entry pp perm) m.word)

      counted :
          (m1 : Mem)
          → Removed dir va (pte / 4096) m free m1
          → update m1.pp_ref pp ((m1.pp_ref pp + 1) % 2 ^ 16) pp
            ≡ count_after pp (translate m.word dir va) (m.pp_ref pp)
      counted m1 removed =
          rw
            (
              ==_refl pp,
              removed.refs,
              ==-ne (pte / 4096) pp other,
              here,
              ==-ne (pte / 4096) pp other,
            )
            (let n = pg.narrow in omega arith)

  -- A new table changes what `va` alone is mapped to.
  Others-table :
      (t entry : ℕ)
      → flag (m.word dir (pdx va)) pte_p ≡ false
      → t ∈ free
      → t ≢ dir
      → Others dir va m.word (put t (ptx va) entry (with_table dir (pdx va) t m.word))
  Others-table t entry absent has_t t_dir = record {
    same = λ vb hb ne. elim (ℕ_discrete (pdx vb) (pdx va)) [
      | yes e ↦
          translate-put_ne word' dir t (ptx va) entry vb t_dir (λ q. inr (omega arith))
          ∙ translate-with_table m.word dir (pdx va) t t_dir vb e
          ∙ sym (translate_absent m.word dir vb (rw e absent))
      | no other ↦
          translate-put_ne word' dir t (ptx va) entry vb t_dir (
            rw
              (with_table-other m.word dir (pdx va) t t_dir dir (pdx vb) (λ e. t_dir (sym e))
                (inr other))
              (λ p. inl (old_table vb hb p)))
          ∙ translate-with_table_ne m.word dir (pdx va) t t_dir vb other
              (λ p. ((sp.tables vb hb p).1, old_table vb hb p))
    ];
  }
    where
      word' : Words
      word' = with_table dir (pdx va) t m.word

      old_table :
          (vb : ℕ)
          → vb < utop
          → flag (m.word dir (pdx vb)) pte_p ≡ true
          → table_of m.word dir vb ≢ t
      old_table vb hb p = let o = (sp.tables vb hb p).2 in λ q. ground arith

  -- 4. there was no table: the first free page becomes one
  insert_table :
      (t : ℕ) (rest : List ℕ)
      → flag (m.word dir (pdx va)) pte_p ≡ false
      → free ≡ t ∷ rest
      → (m' : Mem) × (page_insert dir pp va perm m ≡ ok (ret 0, m')) × Inserted dir va pp perm m m'
  unfolding page_insert put
  insert_table t rest absent e =
      let (m1, run, made) = walk-Made dir va t rest m absent (rw e at v) t_dir in
      (
        ref_up pp (store (record { table = t; index = ptx va }) (page_entry pp perm) m1),
        rw run (rw (empty m1 made) refl),
        record {
          mapped = rw (words m1 made) mapped;
          others = rw (words m1 made) others;
          count = counted m1 made;
        },
      )
    where
      has_t : t ∈ free
      has_t = rw e (ground arith)

      t_dir : t ≢ dir
      t_dir = λ q. let d = sp.dir_used in ground arith

      word' : Words
      word' = with_table dir (pdx va) t m.word

      empty : (m1 : Mem) → Made dir va t m rest m1 → flag (m1.word t (ptx va)) pte_p ≡ false
      empty m1 made =
          rw (made.words, with_table-zero m.word dir (pdx va) t t_dir (ptx va)) (ground arith)

      words :
          (m1 : Mem)
          → Made dir va t m rest m1
          → (store (record { table = t; index = ptx va }) (page_entry pp perm) m1).word
            ≡ put t (ptx va) (page_entry pp perm) word'
      words m1 made = rw made.words refl

      mapped :
          translate (put t (ptx va) (page_entry pp perm) word') dir va ≡ some (page_entry pp perm)
      mapped =
          translate-put word' dir va (page_entry pp perm) t
            (with_table-present m.word dir (pdx va) t t_dir)
            (with_table-table m.word dir (pdx va) t t_dir) t_dir
          ∙ rw (page_entry-present pp perm small hq)

      others : Others dir va m.word (put t (ptx va) (page_entry pp perm) word')
      others = Others-table t (page_entry pp perm) absent has_t t_dir

      counted :
          (m1 : Mem)
          → Made dir va t m rest m1
          → update m1.pp_ref pp ((m1.pp_ref pp + 1) % 2 ^ 16) pp
            ≡ count_after pp (translate m.word dir va) (m.pp_ref pp)
      counted m1 made =
          rw
            (
              ==_refl pp,
              made.refs,
              ==-ne t pp (λ q. let d = pg.used in ground arith),
              translate_absent m.word dir va absent,
            )
            (let n = pg.narrow in omega arith)

  -- In an address space whose tables are sound, `page_insert` of an existing page that is not free,
  -- at an address below UTOP and with permissions of 12 bits, succeeds if the directory has a table
  -- there or a page is free to become one. Afterwards the address maps the page with the
  -- permissions, every other user page is mapped as before, and the page has one reference more
  -- unless it was mapped here already.
  pub page_insert_refines :
      (flag (m.word dir (pdx va)) pte_p ≡ true) ⊎ (free ≢ [])
      → (m' : Mem) × (page_insert dir pp va perm m ≡ ok (ret 0, m')) × Inserted dir va pp perm m m'
  page_insert_refines room = elim (Bool-cases (flag (m.word dir (pdx va)) pte_p)) [
    | inl p ↦ elim (Option-cases (translate m.word dir va)) [
      | inl gone ↦ insert_fresh p gone
      | inr (pte, here) ↦ elim (ℕ_discrete (pte / 4096) pp) [
        | yes same ↦ insert_same p pte here same
        | no other ↦ insert_other p pte here other
      ]
    ]
    | inr absent ↦ (let (t, rest, e) = some_free room absent in insert_table t rest absent e)
  ]
    where
      nonempty : (l : List ℕ) → l ≢ [] → (t : ℕ) × (rest : List ℕ) × (l ≡ t ∷ rest)
      nonempty [] ne = absurd (ne refl)
      nonempty (t ∷ rest) ne = (t, rest, refl)

      some_free :
          (flag (m.word dir (pdx va)) pte_p ≡ true) ⊎ (free ≢ [])
          → flag (m.word dir (pdx va)) pte_p ≡ false
          → (t : ℕ) × (rest : List ℕ) × (free ≡ t ∷ rest)
      some_free (inl p) absent = absurd (ground arith)
      some_free (inr ne) absent = nonempty free ne

-- With neither a table for the address nor a free page `page_insert` returns -E_NO_MEM and changes
-- nothing.
pub page_insert_full :
    (m : Mem) (dir pp va perm : ℕ)
    → flag (m.word dir (pdx va)) pte_p ≡ false
    → IsFreeList m []
    → page_insert dir pp va perm m ≡ ok (err no_mem, m)
unfolding page_insert
page_insert_full m dir pp va perm absent v = rw (walk_full dir va m absent v)
