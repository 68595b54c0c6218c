-- ===== src/Fs/Serve/Table.antt =====
-- The table of open files: file ids name their slots, and an old id is refused.
use yu_os.Prelude.{
  ℕ, ◌<◌, lt→ltb, Option, ◌+◌, update, ◌≡◌, ◌≤◌, arith, ◌%◌, Bool-cases, if◌then◌else◌, ◌==◌, leb,
  ==_refl, some, ◌≢◌, ==-ne, inl, sym, ==_iff, refl, none, inr, zero, ◌∙◌, ◌||◌, not,
}
use yu_os.Fs.Serve.{
  Server, openfile_lookup, openfile_from, openfile_alloc, PageAlloc, serve_init, maxopen, Reply,
  Option, update, Error, with_page, take_slot, word_mod, ret, suc, no_fd, some, leb, err, max_open,
  inval, not,
}
use yu_os.Layout.{Reply, Error, word_mod, ret, err, inval, max_open}

-- Each slot's id stands for the slot.
pub record IsTable (s : Server) : Type 0 where
  pub named : (i : ℕ) → i < maxopen → (s.opentab i).o_fileid % maxopen ≡ i
  pub is_word : (i : ℕ) → i < maxopen → (s.opentab i).o_fileid < word_mod

-- So it is at the start.
pub serve_init-IsTable : (s : Server) → IsTable (serve_init s)
unfolding serve_init
serve_init-IsTable s = record {
  named = λ i h. rw (lt→ltb i maxopen h) (omega arith);
  is_word = λ i h. rw (lt→ltb i maxopen h) (omega arith);
}

-- Slot `i` was taken: it has the next id, a clear page that the server alone holds, and all else is
-- as it was.
pub record Taken (s : Server) (i : ℕ) (s' : Server) : Type 0 where
  pub in_table : i < maxopen
  pub unused : s.refs i ≤ 1
  pub new_id : (s'.opentab i).o_fileid ≡ ((s.opentab i).o_fileid + maxopen) % word_mod
  pub cleared : (s'.opentab i).o_fd ≡ no_fd
  pub same_file : (s'.opentab i).o_file ≡ (s.opentab i).o_file
  pub same_mode : (s'.opentab i).o_mode ≡ (s.opentab i).o_mode
  pub held : s'.refs i ≡ 1
  pub others : (j : ℕ) → j ≢ i → (s'.opentab j ≡ s.opentab j) × (s'.refs j ≡ s.refs j)
  pub same_disk : s'.disk ≡ s.disk

-- How `openfile_alloc` ends
pub data FileAlloc (alloc : PageAlloc) (s : Server) (i : ℕ) : Reply ℕ × Server → Type 0 where
  takes :
      {k : ℕ} {s' : Server}
      → i ≤ k
      → Taken s k s'
      → ((j : ℕ) → i ≤ j → j < k → 1 < s.refs j)
      → FileAlloc alloc s i (ret k, s')
  no_page : {k : ℕ} {e : Error} → s.refs k ≡ 0 → alloc k s ≡ some e → FileAlloc alloc s i (err e, s)
  all_open : ((j : ℕ) → i ≤ j → j < maxopen → 1 < s.refs j) → FileAlloc alloc s i (err max_open, s)

Taken-take_slot : (s : Server) (i : ℕ) → i < maxopen → s.refs i ≡ 1 → Taken s i (take_slot i s).1
Taken-take_slot s i lt one = record {
  in_table = lt;
  unused = omega arith;
  new_id = rw (==_refl i) refl;
  cleared = rw (==_refl i) refl;
  same_file = rw (==_refl i) refl;
  same_mode = rw (==_refl i) refl;
  held = one;
  others = λ j ne. (rw (==-ne i j (λ e. ne (sym e))) refl, refl);
  same_disk = refl;
}

Taken-with_page :
    (s : Server) (i : ℕ)
    → i < maxopen
    → s.refs i ≡ 0
    → Taken s i (take_slot i (record s { refs = update s.refs i 1 })).1
Taken-with_page s i lt zero_refs = record {
  in_table = lt;
  unused = omega arith;
  new_id = rw (==_refl i) refl;
  cleared = rw (==_refl i) refl;
  same_file = rw (==_refl i) refl;
  same_mode = rw (==_refl i) refl;
  held = rw (==_refl i) refl;
  others = λ j ne. (rw (==-ne i j (λ e. ne (sym e))) refl, rw (==-ne i j (λ e. ne (sym e))) refl);
  same_disk = refl;
}

FileAlloc-with_page :
    (alloc : PageAlloc) (s : Server) (i : ℕ) (o : Option Error)
    → i < maxopen
    → s.refs i ≡ 0
    → alloc i s ≡ o
    → FileAlloc alloc s i (with_page o i s)
FileAlloc-with_page alloc s i none lt z e =
    takes (omega arith) (Taken-with_page s i lt z) (λ j a b. absurd (omega arith))
FileAlloc-with_page alloc s i (some x) lt z e = no_page z e

FileAlloc-later :
    {alloc : PageAlloc} {s : Server} {i : ℕ} {o : Reply ℕ × Server}
    → 1 < s.refs i
    → FileAlloc alloc s (i + 1) o
    → FileAlloc alloc s i o
FileAlloc-later {alloc} {s} {i} used (takes {k} le t before) = takes (omega arith) t (λ j a b.
    elim (Bool-cases (j == i)) [
      | inl same ↦ rw ((==_iff j i).0 same) used
      | inr other ↦ before j (ground arith) b
    ])
FileAlloc-later {alloc} {s} {i} used (no_page z e) = no_page z e
FileAlloc-later {alloc} {s} {i} used (all_open before) = all_open (λ j a b.
    elim (Bool-cases (j == i)) [
      | inl same ↦ rw ((==_iff j i).0 same) used
      | inr other ↦ before j (ground arith) b
    ])

openfile_from-FileAlloc :
    (alloc : PageAlloc) (s : Server) (n i : ℕ)
    → i + n ≡ maxopen
    → FileAlloc alloc s i (openfile_from alloc n i s)
unfolding openfile_from
openfile_from-FileAlloc alloc s zero i e = all_open (λ j a b. absurd (omega arith))
openfile_from-FileAlloc alloc s (suc n) i e = elim (Bool-cases (s.refs i == 0)) [
  | inl z ↦
      rw z
        (FileAlloc-with_page alloc s i (alloc i s) (omega arith) ((==_iff (s.refs i) 0).0 z) refl)
  | inr nz ↦ elim (Bool-cases (s.refs i == 1)) [
    | inl o ↦
        rw (nz, o)
          (takes (omega arith) (Taken-take_slot s i (omega arith) ((==_iff (s.refs i) 1).0 o))
            (λ j a b. absurd (omega arith)))
    | inr no_one ↦
        rw (nz, no_one)
          (FileAlloc-later (ground arith) (openfile_from-FileAlloc alloc s n (i + 1) (omega arith)))
  ]
]

-- `openfile_alloc` takes the first slot whose page at most one holds: it gives it the next id and
-- clears its page, which the server alone holds then; the file and the mode of the slot, every
-- other slot and the disk are as before. Or it changes nothing and fails, with the error of the
-- kernel for a slot that has no page, or with -E_MAX_OPEN where all slots are held by more than
-- one.
pub openfile_alloc-FileAlloc :
    (alloc : PageAlloc) (s : Server) → FileAlloc alloc s 0 (openfile_alloc alloc s)
unfolding openfile_alloc
openfile_alloc-FileAlloc alloc s = openfile_from-FileAlloc alloc s maxopen 0 (omega arith)

lookup_in :
    (s : Server) (i id n : ℕ)
    → id % maxopen ≡ i
    → openfile_lookup id (record s { refs = update s.refs i n })
      ≡ (if leb n 1 || not ((s.opentab i).o_fileid == id) then err inval else ret i)
unfolding openfile_lookup
lookup_in s i id n e = rw (e, ==_refl i) refl

IsTable-Taken : (s s' : Server) (i : ℕ) → IsTable s → Taken s i s' → IsTable s'
IsTable-Taken s s' i t k = record {
  named = λ j h. elim (Bool-cases (j == i)) [
    | inl same ↦ rw ((==_iff j i).0 same, k.new_id) (let old = t.named i k.in_table in omega arith)
    | inr other ↦ rw ((k.others j (ground arith)).0) (t.named j h)
  ];
  is_word = λ j h. elim (Bool-cases (j == i)) [
    | inl same ↦ rw ((==_iff j i).0 same, k.new_id) (omega arith)
    | inr other ↦ rw ((k.others j (ground arith)).0) (t.is_word j h)
  ];
}

-- In a table whose ids stand for their slots, after a slot was taken for a new file, the ids still
-- stand for their slots; the new id finds the slot exactly if more than one holds its page, and the
-- old id of the slot is refused, however many hold the page.
pub Taken-openfile_lookup :
    (s s' : Server) (i : ℕ)
    → IsTable s
    → Taken s i s'
    → IsTable s'
      × ((n : ℕ)
          → openfile_lookup ((s'.opentab i).o_fileid) (record s' { refs = update s'.refs i n })
            ≡ (if leb n 1 then err inval else ret i))
      × ((n : ℕ)
          → openfile_lookup ((s.opentab i).o_fileid) (record s' { refs = update s'.refs i n })
            ≡ err inval)
Taken-openfile_lookup s s' i t k = (
  IsTable-Taken s s' i t k,
  λ n.
      lookup_in s' i _ n ((IsTable-Taken s s' i t k).named i k.in_table)
      ∙ rw (==_refl (s'.opentab i).o_fileid) (ground arith),
  λ n.
      lookup_in s' i _ n (t.named i k.in_table)
      ∙ rw (k.new_id)
          (let old = t.is_word i k.in_table in let x = (s.opentab i).o_fileid in ground arith),
)
