-- ===== src/Fs/Dirs/Lookup.antt =====
-- What the search in a directory finds_one, in dir_lookup of fs/fs.c.
use yu_os.Fs.Dirs.Names.{AreNames, is_named_lem}
use yu_os.Prelude.{
  ℕ, Option, Bool, ◌<◌, ◌+◌, ◌≤◌, ◌≡◌, arith, false, Run, true, ok, Bool-cases, suc, some, none,
  ◌==◌, inl, ==_iff, refl, zero, inr, ◌*◌, ◌%◌, ◌/◌, ◌>>=◌, ◌∙◌, ap, List, ◌≢◌, ◌↔◌,
}
use yu_os.Fs.Dirs.{
  first_entry, dir_lookup, FileAt, looked_up, search_dir, blkfiles, Bytes, entry, not_found,
  is_named,
}
use yu_os.Fs.{Disk, true, false, Run, Reply, some, suc, ok, err, ret, none, pgsize, List}
use yu_os.Fs.Blocks.{FileAt, read_place, f_size}
use yu_os.Layout.{Reply, ret, err, not_found, pgsize}
use yu_os.Strings.{Bytes}
use yu_os.Fs.Files.Reads.{IsStored}
use yu_os.Strings.Text.{Holds}

-- The first entry that passes the test
data First (test : ℕ → Bool) (j stop : ℕ) : Option ℕ → Type 0 where
  is_first :
      {k : ℕ}
      → j ≤ k
      → k < stop
      → test k ≡ true
      → ((m : ℕ) → j ≤ m → m < k → test m ≡ false)
      → First test j stop (some k)
  is_none : ((m : ℕ) → j ≤ m → m < stop → test m ≡ false) → First test j stop none

First-here : (test : ℕ → Bool) (j stop : ℕ) → j < stop → test j ≡ true → First test j stop (some j)
First-here test j stop lt h = is_first (omega arith) lt h (λ m a b. absurd (omega arith))

First-later :
    {test : ℕ → Bool} {j stop : ℕ} {o : Option ℕ}
    → test j ≡ false
    → First test (suc j) stop o
    → First test j stop o
First-later {test} {j} h (is_first {k} a b t before) = is_first (omega arith) b t (λ m c e.
    elim (Bool-cases (m == j)) [
      | inl same ↦ rw ((==_iff m j).0 same) h
      | inr other ↦ before m (ground arith) e
    ])
First-later {test} {j} h (is_none before) = is_none (λ m c e. elim (Bool-cases (m == j)) [
  | inl same ↦ rw ((==_iff m j).0 same) h
  | inr other ↦ before m (ground arith) e
])

first_entry-First :
    (test : ℕ → Bool) (n j stop : ℕ) → j + n ≡ stop → First test j stop (first_entry test n j)
unfolding first_entry
first_entry-First test zero j stop e = is_none (λ m a b. absurd (omega arith))
first_entry-First test (suc n) j stop e = elim (Bool-cases (test j)) [
  | inl h ↦ rw h (First-here test j stop (omega arith) h)
  | inr h ↦
      rw h (First-later h (rw (add-one j) (first_entry-First test n (j + 1) stop (omega arith))))
]
  where
    add-one : (j : ℕ) → suc j ≡ j + 1
    add-one j = omega arith

-- The entry of a directory, whose blocks are given, that stands before all others that pass the test
data Passing (test : ℕ → ℕ → Bool) (blocks : ℕ → ℕ) (i stop : ℕ) : Option FileAt → Type 0 where
  finds_one :
      {b j : ℕ}
      → i ≤ b
      → b < stop
      → j < blkfiles
      → test (blocks b) j ≡ true
      → ((m : ℕ) → m < j → test (blocks b) m ≡ false)
      → ((c m : ℕ) → i ≤ c → c < b → m < blkfiles → test (blocks c) m ≡ false)
      → Passing test blocks i stop (some (entry (blocks b) j))
  finds_none :
      ((c m : ℕ) → i ≤ c → c < stop → m < blkfiles → test (blocks c) m ≡ false)
      → Passing test blocks i stop none

Passing-later :
    {test : ℕ → ℕ → Bool} {blocks : ℕ → ℕ} {i stop : ℕ} {o : Option FileAt}
    → ((m : ℕ) → m < blkfiles → test (blocks i) m ≡ false)
    → Passing test blocks (i + 1) stop o
    → Passing test blocks i stop o
Passing-later {test} {blocks} {i} none_here (finds_one {b} {j} low high small t before earlier) =
    finds_one (omega arith) high small t before (λ c m a e l. elim (Bool-cases (c == i)) [
      | inl same ↦ rw ((==_iff c i).0 same) (none_here m l)
      | inr other ↦ earlier c m (ground arith) e l
    ])
Passing-later {test} {blocks} {i} none_here (finds_none earlier) = finds_none (λ c m a e l.
    elim (Bool-cases (c == i)) [
      | inl same ↦ rw ((==_iff c i).0 same) (none_here m l)
      | inr other ↦ earlier c m (ground arith) e l
    ])

module _ (test : ℕ → ℕ → Disk → Bool) (dir : FileAt) (blocks : ℕ → ℕ) (d : Disk) where
  -- The search of the blocks from `i` on: what it gives, and that the disk is as before
  abbrev Searched : ℕ → ℕ → Run (Reply (Option FileAt) × Disk) → Type 0
  Searched i stop run =
      (o : Option FileAt) × (run ≡ ok (ret o, d)) × Passing (λ b j. test b j d) blocks i stop o

  search_dir_lem :
      (n i stop : ℕ)
      → i + n ≡ stop
      → IsStored dir blocks stop d
      → Searched i stop (search_dir test dir n i d)
  unfolding search_dir
  search_dir_lem zero i stop e stored = (none, refl, finds_none (λ c m a b l. absurd (omega arith)))
  search_dir_lem (suc n) i stop e stored = rw (stored i (omega arith)) (
      by_entry (first_entry (λ j. test (blocks i) j d) blkfiles 0)
        (first_entry-First (λ j. test (blocks i) j d) blkfiles 0 blkfiles refl)
        (search_dir_lem n (i + 1) stop (omega arith) stored))
    where
      by_entry :
          (o : Option ℕ)
          → First (λ j. test (blocks i) j d) 0 blkfiles o
          → Searched (i + 1) stop (search_dir test dir n (i + 1) d)
          → Searched i stop (elim o [
            | none ↦ search_dir test dir n (i + 1) d
            | some j ↦ ok (ret (some (entry (blocks i) j)), d)
          ])
      by_entry none (is_none before) (r, run, f) =
          (r, run, Passing-later (λ m l. before m (omega arith) l) f)
      by_entry (some j) (is_first a b t before) later = (
        some (entry (blocks i) j),
        refl,
        finds_one (omega arith) (omega arith) b t (λ m l. before m (omega arith) l)
            (λ c m x y l. absurd (omega arith)),
      )

abbrev pub answer : Option FileAt → Reply FileAt
answer none = err not_found
answer (some f) = ret f

looked_up-answer : (o : Option FileAt) (d : Disk) → looked_up (ret o) d ≡ ok (answer o, d)
looked_up-answer none d = refl
looked_up-answer (some f) d = refl

-- The entry that stands before all others of the name: in place `j` of block `b`, where an entry has
-- 64 words and `names b j` is its name
pub data Finds (names : ℕ → ℕ → List ℕ) (str : List ℕ) (blocks : ℕ → ℕ) (stop : ℕ)
    : Option FileAt → Type 0 where
  finds :
      {b j : ℕ}
      → b < stop
      → j < 16
      → names b j ≡ str
      → ((m : ℕ) → m < j → names b m ≢ str)
      → ((c m : ℕ) → c < b → m < 16 → names c m ≢ str)
      → Finds names str blocks stop (some (record { block = blocks b; base = 64 * j }))
  misses : ((c m : ℕ) → c < stop → m < 16 → names c m ≢ str) → Finds names str blocks stop none

module _ (blocks : ℕ → ℕ) (nblock : ℕ) (name : Bytes) (d : Disk) (names : ℕ → ℕ → List ℕ)
    (str : List ℕ) where
  abbrev Agree : Type 0
  Agree =
      (b j : ℕ) → b < nblock → j < 16 → (is_named (blocks b) j name d ≡ true) ↔ (names b j ≡ str)

  named_not :
      (b j : ℕ)
      → Agree
      → b < nblock
      → j < 16
      → is_named (blocks b) j name d ≡ false
      → names b j ≢ str
  named_not b j agree h l e same = absurd (let t = (agree b j h l).1 same in cc)

  Finds-Passing :
      (o : Option FileAt)
      → Agree
      → Passing (λ b j. is_named b j name d) blocks 0 nblock o
      → Finds names str blocks nblock o
  Finds-Passing o agree (finds_one {b} {j} low high small t before earlier) =
      finds high small ((agree b j high small).0 t)
        (λ m h. named_not b m agree high (omega arith) (before m h))
        (λ c m h l. named_not c m agree (omega arith) l (earlier c m (omega arith) h l))
  Finds-Passing o agree (finds_none earlier) =
      misses (λ c m h l. named_not c m agree h l (earlier c m (omega arith) h l))

-- In a directory of whole blocks that are allocated, in which the name of each of the 16 entries of
-- a block, at byte 256 * j of it, is a string of less than 128 bytes, `dir_lookup` of a string of
-- bytes gives the first entry whose name equals it, in the order of the blocks and of the entries
-- in them, or -E_NOT_FOUND if no entry has that name; the disk is as before.
pub dir_lookup-Finds :
    (dir : FileAt) (blocks : ℕ → ℕ) (nblock : ℕ) (name : Bytes) (d : Disk) (names : ℕ → ℕ → List ℕ)
    (str : List ℕ)
    → IsStored dir blocks nblock d
    → read_place (f_size dir) d ≡ nblock * pgsize
    → AreNames names blocks nblock d
    → ((i : ℕ) → name i < 256)
    → Holds name 0 str
    → (o : Option FileAt) × (dir_lookup dir name d ≡ ok (answer o, d))
      × Finds names str blocks nblock o
unfolding dir_lookup
dir_lookup-Finds dir blocks nblock name d names str stored size given bytes named =
    let s =
      search_dir_lem (λ b j d. is_named b j name d) dir blocks d nblock 0 nblock (omega arith)
        stored in
    (
      s.0,
      run ∙ ap (λ r. r >>= (λ (r, d). looked_up r d)) s.1 ∙ looked_up-answer s.0 d,
      Finds-Passing blocks nblock name d names str s.0
          (λ b j h l.
            is_named_lem (blocks b) j name d (names b j) str l bytes (given.held b j h l)
              (given.short b j h l) named)
          s.2,
    )
  where
    aligned : (n : ℕ) → (n * pgsize) % pgsize ≡ 0
    aligned n = omega arith

    whole : (n : ℕ) → (n * pgsize) / pgsize ≡ n
    whole n = omega arith

    run :
        dir_lookup dir name d
        ≡ (search_dir (λ b j d. is_named b j name d) dir nblock 0 d >>= (λ (r, d). looked_up r d))
    run = rw (size, aligned nblock, whole nblock) refl
