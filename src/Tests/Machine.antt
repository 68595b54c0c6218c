-- ===== src/Tests/Machine.antt =====
-- Ten pages of memory and two environments.
-- Page 1 is the kernel's directory, which is empty. Environment 0 has the directory 2 and the table
-- 3: it maps page 4 at 0x1000, to write to, and page 5 at 0x2000, to read. Environment 1 has the
-- directory 6 and the table 7, and maps page 4 at 0x1000. Pages 8 and 9 are free.
use yu_os.Prelude.{
  List, ◌∷◌, ℕ, if◌then◌else◌, [], arith, ◌==◌, some, refl, none, ◌≡◌, ◌⊎◌, ◌/◌, inl, inr, true,
  false,
}
use yu_os.Pmap.Alloc.FreeList.{IsFreeList}
use yu_os.Pmap.{Mem}
use yu_os.Pmap.Table.Translate.{translate}
use yu_os.Pmap.Table.Space.{IsSpace, InRange-space}
use yu_os.Pmap.Table.Remove.{IsHeld, InRange}
use yu_os.Env.{Kernel, Env, Status, EnvType}
use yu_os.Sched.Running.{OneRuns}
use yu_os.Pmap.Table.Inserted.{IsPage}
use yu_os.Env.Id.{Names}
use yu_os.Env.Alloc.{initial_tf}
use yu_os.Layout.{utop}

-- A page of words, all 0 but for the listed ones
abbrev pub words : List (ℕ × ℕ) → ℕ → ℕ
words [] j = 0
words ((i, v) ∷ l) j = if i == j then v else words l j

abbrev pub mem : Mem
mem = record {
  npages = 10;
  pp_ref = words ((2, 1) ∷ (3, 1) ∷ (4, 2) ∷ (5, 1) ∷ (6, 1) ∷ (7, 1) ∷ []);
  pp_link = λ p. if p == 8 then some 9 else none;
  page_free_list = some 8;
  word = λ p.
      if p == 2
      then words ((0, 0x3007) ∷ [])
      else if p == 3
      then words ((1, 0x4007) ∷ (2, 0x5005) ∷ [])
      else if p == 6
      then words ((0, 0x7007) ∷ [])
      else if p == 7
      then words ((1, 0x4007) ∷ [])
      else words [];
  invlpg = [];
}

pub mem-IsFreeList : IsFreeList mem (8 ∷ 9 ∷ [])
mem-IsFreeList = record {
  chain = (refl, (refl, refl));
  unused = ground arith;
  unlinked = λ p out. ground arith;
  small = omega arith;
}

mapped_cases : (va pte : ℕ) → translate mem.word 2 va ≡ some pte → (pte ≡ 0x4007) ⊎ (pte ≡ 0x5005)
unfolding translate
mapped_cases va pte e = ground arith

IsHeld-both : (pte : ℕ) → (pte ≡ 0x4007) ⊎ (pte ≡ 0x5005) → IsHeld mem (8 ∷ 9 ∷ []) (pte / 4096)
IsHeld-both pte (inl e) =
    rw e (record { exists = omega arith; used = refl; counted = omega arith; narrow = omega arith })
IsHeld-both pte (inr e) =
    rw e (record { exists = omega arith; used = refl; counted = omega arith; narrow = omega arith })

-- The space of environment 0
pub mem-IsSpace : IsSpace mem (8 ∷ 9 ∷ []) 2
unfolding translate
mem-IsSpace = record {
  dir_used = refl;
  tables = λ va h p. ground arith;
  apart = λ va vb ha hb p q ne. ground arith;
  held = λ va pte h e. IsHeld-both pte (mapped_cases va pte e);
}

-- Page 4, mapped twice, and page 5, mapped once
pub IsPage-four : IsPage mem (8 ∷ 9 ∷ []) 4
IsPage-four = record { exists = omega arith; used = refl; narrow = omega arith }

pub in_range : InRange mem 2 0x1000
in_range = InRange-space 0x1000 mem-IsSpace (omega arith)

-- The address spaces read as the comment above says.
pub first_page : translate mem.word 2 0x1000 ≡ some 0x4007
unfolding translate
first_page = refl

pub second_page : translate mem.word 2 0x2000 ≡ some 0x5005
unfolding translate
second_page = refl

pub third_page : translate mem.word 2 0x3000 ≡ none
unfolding translate
third_page = refl

-- An environment that has never run
abbrev pub idle : Env
idle = record {
  env_tf = initial_tf;
  env_link = none;
  env_id = 0;
  env_parent_id = 0;
  env_type = EnvType.user;
  env_status = Status.free;
  env_runs = 0;
  env_pgdir = 0;
  env_pgfault_upcall = 0;
  env_ipc_recving = false;
  env_ipc_dstva = 0;
  env_ipc_value = 0;
  env_ipc_from = 0;
  env_ipc_perm = 0;
}

-- Environment 0 runs; its child 1 waits for a message without a page; slots 2 and 3 are free.
abbrev pub kernel : Kernel
kernel = record {
  mem = mem;
  kern_pgdir = 1;
  envs = λ i.
      if i == 0
      then record idle { env_id = 0x1000; env_status = Status.running; env_pgdir = 2; env_runs = 1 }
      else if i == 1
      then record idle {
        env_id = 0x1001;
        env_parent_id = 0x1000;
        env_status = Status.not_runnable;
        env_pgdir = 6;
        env_ipc_recving = true;
        env_ipc_dstva = utop;
      }
      else if i == 2
      then record idle { env_link = some 3 }
      else idle;
  env_free_list = some 2;
  curenv = some 0;
  cr3 = 2;
}

pub child : Names kernel 0x1001 1
child = record { index = refl; used = refl; holds = refl }

pub self : Names kernel 0x1000 0
self = record { index = refl; used = refl; holds = refl }

pub kernel-OneRuns : OneRuns kernel
kernel-OneRuns = record { only = λ i h. ground arith }

-- The same machine with one free page
abbrev pub last_mem : Mem
last_mem = record mem { page_free_list = some 9; pp_link = λ p. none }

pub last_mem-IsFreeList : IsFreeList last_mem (9 ∷ [])
last_mem-IsFreeList = record {
  chain = (refl, refl);
  unused = ground arith;
  unlinked = λ p out. refl;
  small = omega arith;
}
