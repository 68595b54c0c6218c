-- ===== src/Env/Setup/Directory.antt =====
-- The page directory that env_setup_vm of kern/env.c makes: empty below UTOP, above it that of the
-- kernel, but for the entry at UVPT, which names the directory itself.
use yu_os.Env.Setup.{env_setup_vm, copy_entries, npdentries, self_entry}
use yu_os.Prelude.{
  ℕ, List, ◌<◌, ◌∷◌, ◌≡◌, ◌≢◌, update, none, ok, ◌/◌, ◌≤◌, ◌-◌, refl, arith, inl, inr, ◌∙◌, ==-ne,
  ==_refl, sym, ◌∉◌, ◌*◌, ◌^◌, ◌+◌,
}
use yu_os.Env.{Kernel, update, Mem, set_env}
use yu_os.Pmap.Table.Translate.{put, translate, put_ne, Words, put_self}
use yu_os.Pmap.Alloc.FreeList.{IsFreeList, page_alloc_refines, IsFreeList-ref}
use yu_os.Layout.{utop, ret, ptsize, pdx, uvpt}
use yu_os.Pmap.{Mem, set_word, page2kva-ok, page2pa}
use yu_os.Pmap.Alloc.{alloc_zero, ref_up}
use yu_os.Env.Setup.Copy.{copy_entries-keep, copy_entries-copied, copy_entries-rest}
use yu_os.Prelude.Bits.{bit_or-one, bit_or_four}

pub record NewDirectory (p : ℕ) (k : Kernel) (m' : Mem) : Type 0 where
  pub empty : (va : ℕ) → va < utop → translate m'.word p va ≡ none
  pub shared :
      (j : ℕ)
      → utop / ptsize ≤ j
      → j < npdentries
      → j ≢ 957
      → m'.word p j ≡ k.mem.word k.kern_pgdir j
  pub recursive : m'.word p 957 ≡ 4096 * p + 5
  pub elsewhere : (q j : ℕ) → q ≢ p → m'.word q j ≡ k.mem.word q j

-- What a successful `env_setup_vm` leaves
pub record SetUp (i p : ℕ) (rest : List ℕ) (k k' : Kernel) : Type 0 where
  pub directory : NewDirectory p k k'.mem
  pub pages : IsFreeList k'.mem rest
  pub refs : k'.mem.pp_ref ≡ update k.mem.pp_ref p 1
  pub envs : k'.envs ≡ update k.envs i (record (k.envs i) { env_pgdir = p })
  pub list : k'.env_free_list ≡ k.env_free_list
  pub current : k'.curenv ≡ k.curenv

self_entry_lem : (p : ℕ) → p < 2 ^ 20 → self_entry p ≡ 4096 * p + 5
self_entry_lem p h = rw (bit_or-one (page2pa p), bit_or_four (page2pa p / 2 * 2 + 1)) (omega arith)

module _ (p : ℕ) (rest : List ℕ) (k : Kernel) (ne : k.kern_pgdir ≢ p) where
  copied : Mem → Mem
  copied m = copy_entries p k.kern_pgdir (utop / ptsize) (npdentries - utop / ptsize) m

  filled : Mem → Words
  unfolding copied
  filled m = put p (pdx uvpt) (self_entry p) (copied m).word

  module _ (m : Mem) (words : m.word ≡ update k.mem.word p (λ _. 0)) where
    filled-empty : (j : ℕ) → j < utop / ptsize → filled m p j ≡ 0
    unfolding filled
    filled-empty j h =
        put_ne p (pdx uvpt) (self_entry p) p j (copied m).word (inr (omega arith))
        ∙ copy_entries-keep p k.kern_pgdir ne (utop / ptsize) (npdentries - utop / ptsize) m p j
            (inr (inl h))
        ∙ rw (words, ==_refl p)

    filled-shared :
        (j : ℕ)
        → utop / ptsize ≤ j
        → j < npdentries
        → j ≢ pdx uvpt
        → filled m p j ≡ k.mem.word k.kern_pgdir j
    unfolding filled
    filled-shared j lo hi other =
        put_ne p (pdx uvpt) (self_entry p) p j (copied m).word (inr other)
        ∙ copy_entries-copied p k.kern_pgdir ne (utop / ptsize) (npdentries - utop / ptsize) m j lo
            (omega arith)
        ∙ rw (words, ==-ne p k.kern_pgdir (λ e. ne (sym e)))

    filled-elsewhere : (q j : ℕ) → q ≢ p → filled m q j ≡ k.mem.word q j
    unfolding filled
    filled-elsewhere q j other =
        put_ne p (pdx uvpt) (self_entry p) q j (copied m).word (inl other)
        ∙ copy_entries-keep p k.kern_pgdir ne (utop / ptsize) (npdentries - utop / ptsize) m q j
            (inl other)
        ∙ rw (words, ==-ne p q (λ e. other (sym e)))

    filled-NewDirectory : (m' : Mem) → p < 2 ^ 20 → m'.word ≡ filled m → NewDirectory p k m'
    unfolding translate filled
    filled-NewDirectory m' small e = record {
      empty = λ va h. rw (e, filled-empty (pdx va) (omega arith)) refl;
      shared = λ j lo hi other. rw e (filled-shared j lo hi other);
      recursive =
          rw e (put_self p (pdx uvpt) (self_entry p) (copied m).word ∙ self_entry_lem p small);
      elsewhere = λ q j other. rw e (filled-elsewhere q j other);
    }

  copied-rest : (m : Mem) → copied m ≡ record m { word = (copied m).word }
  unfolding copied
  copied-rest m = copy_entries-rest p k.kern_pgdir (utop / ptsize) (npdentries - utop / ptsize) m

  copied_list :
      (m : Mem)
      → IsFreeList m rest
      → p ∉ rest
      → IsFreeList (set_word p (pdx uvpt) (self_entry p) (ref_up p (copied m))) rest
  copied_list m v out = rw (copied-rest m) (IsFreeList-ref {m = m} rest p _ _ _ out v)

  copied_refs :
      (m : Mem)
      → m.pp_ref ≡ k.mem.pp_ref
      → k.mem.pp_ref p ≡ 0
      → (ref_up p (copied m)).pp_ref ≡ update k.mem.pp_ref p 1
  copied_refs m same zero = rw (copied-rest m, same, zero)

  -- With a free page that is not the kernel's directory, `env_setup_vm` makes it the directory of
  -- the environment: empty below UTOP, above it that of the kernel but for the entry at UVPT, which
  -- names the directory itself. The page has one reference and leaves the free list.
  pub env_setup_vm_lem :
      (i : ℕ)
      → IsFreeList k.mem (p ∷ rest)
      → (k' : Kernel) × (env_setup_vm i k ≡ ok (ret 0, k')) × SetUp i p rest k k'
  unfolding env_setup_vm put filled
  env_setup_vm_lem i v =
      let (m1, run, a) = page_alloc_refines alloc_zero (p ∷ rest) v in
      (
        set_env i (record (k.envs i) { env_pgdir = p })
            (record k { mem = set_word p (pdx uvpt) (self_entry p) (ref_up p (copied m1)) }),
        rw run (rw (page2kva-ok p m1 (rw a.pages v.unused.0) (rw a.pages v.small)) refl),
        record {
          directory =
              filled-NewDirectory m1 a.words _
                (let x = v.unused.0 in let y = v.small in omega arith) refl;
          pages = copied_list m1 a.list v.unused.2;
          refs = copied_refs m1 a.refs v.unused.1;
          envs = refl;
          list = refl;
          current = refl;
        },
      )
