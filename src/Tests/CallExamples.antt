-- ===== src/Tests/CallExamples.antt =====
-- The theorems on system calls at the small machine.
use yu_os.Tests.Machine.{
  last_mem, kernel, mem-IsFreeList, self, mem, mem-IsSpace, IsPage-four, in_range, first_page,
}
use yu_os.Syscall.Ipc.{sys_ipc_try_send}
use yu_os.Env.{Kernel, set_env, Trapframe}
use yu_os.Syscall.PageCalls.{sys_page_map, sys_page_alloc}
use yu_os.Syscall.EnvCalls.{
  sys_env_set_status, sys_env_destroy, sys_env_set_trapframe, sys_env_set_pgfault_upcall,
}
use yu_os.Prelude.{◌<◌, ℕ, ◌≡◌, arith, ok, ◌%◌, refl, some, inr, ◌∷◌, inl, [], ◌/◌}
use yu_os.Syscall.Rights.{IsStranger, strangers_protected}
use yu_os.Layout.{utop, pgsize, err, ret, bad_env}
use yu_os.Syscall.{back}
use yu_os.Syscall.PageCalls.Mapping.{IsUserPage, sys_page_alloc_lem}
use yu_os.Pmap.Table.Inserted.{Inserted}
use yu_os.Pmap.Table.Translate.{translate}
use yu_os.Syscall.Ipc.Transfer.{Transferred, try_send-Transferred}
use yu_os.Syscall.PageCalls.Sharing.{sys_page_map_lem}
use yu_os.Pmap.Table.{page_entry}
use yu_os.Pmap.Table.Space.{Others, IsSpace}
use yu_os.Pmap.Table.Remove.{IsHeld}
use yu_os.Env.Id.{Names}

-- No slot has an id of generation 2.
stranger : IsStranger kernel 0 0x2001
stranger = record {
  runs = refl;
  other = omega arith;
  denied = λ i h. let e = h.0.index in let d = h.0.holds in ground arith;
}

strangers_protected_example :
    (sys_env_destroy 0x2001 kernel ≡ ok (back (err bad_env), kernel))
    × (sys_env_set_status 0x2001 2 kernel ≡ ok (back (err bad_env), kernel))
    × (sys_env_set_status 0x2001 4 kernel ≡ ok (back (err bad_env), kernel))
    × ((tf : Trapframe) → sys_env_set_trapframe 0x2001 tf kernel ≡ ok (back (err bad_env), kernel))
    × ((func : ℕ) → sys_env_set_pgfault_upcall 0x2001 func kernel ≡ ok (back (err bad_env), kernel))
strangers_protected_example = strangers_protected kernel 0 0x2001 stranger

user_page : (va : ℕ) → va < utop → va % pgsize ≡ 0 → IsUserPage va 7
user_page va h a = record {
  low = h;
  aligned = a;
  user = refl;
  present = refl;
  legal = refl;
  word = omega arith;
}

sys_page_alloc_lem_example :
    (k' : Kernel) × (sys_page_alloc 0x1000 0x400000 7 kernel ≡ ok (back (ret 0), k'))
    × (translate k'.mem.word 2 0x400000 ≡ some (page_entry 8 7))
    × Others 2 0x400000 mem.word k'.mem.word
sys_page_alloc_lem_example =
    sys_page_alloc_lem kernel 0x1000 0 0x400000 7 8 (9 ∷ []) (omega arith) self
      (user_page 0x400000 (omega arith) refl) mem-IsFreeList mem-IsSpace (inr (λ e. cc))

sys_page_map_lem_example :
    (k' : Kernel) × (sys_page_map 0x1000 0x1000 0x1000 0x3000 7 kernel ≡ ok (back (ret 0), k'))
    × Inserted 2 0x3000 4 7 mem k'.mem
sys_page_map_lem_example =
    sys_page_map_lem kernel 0x1000 0 0x1000 0x1000 0 0x3000 7 (omega arith) (omega arith) self self
      (omega arith) refl (user_page 0x3000 (omega arith) refl) in_range (8 ∷ 9 ∷ []) 0x4007
      mem-IsFreeList mem-IsSpace first_page (inl refl) IsPage-four (inl refl)

last-IsHeld : (q : ℕ) → IsHeld mem (8 ∷ 9 ∷ []) q → IsHeld last_mem (9 ∷ []) q
last-IsHeld q h = record {
  exists = h.exists;
  used = let u = h.used in ground arith;
  counted = h.counted;
  narrow = h.narrow;
}

last_mem-IsSpace : IsSpace last_mem (9 ∷ []) 2
last_mem-IsSpace = record {
  dir_used = let u = mem-IsSpace.dir_used in ground arith;
  tables = λ va h p. let t = mem-IsSpace.tables va h p in (t.0, t.1, let u = t.2 in ground arith);
  apart = mem-IsSpace.apart;
  held = λ va pte h e. last-IsHeld (pte / 4096) (mem-IsSpace.held va pte h e);
}

abbrev last : Kernel
last = record kernel { mem = last_mem }

-- Environment 1 waits for a page at 0x5000.
abbrev asking : Kernel
asking = set_env 1 (record (kernel.envs 1) { env_ipc_dstva = 0x5000 }) kernel

child_waits : Names asking 0x1001 1
child_waits = record { index = refl; used = refl; holds = refl }

shared_page : (va pte : ℕ) → translate mem.word 6 va ≡ some pte → pte ≡ 0x4007
unfolding translate
shared_page va pte e = ground arith

child-IsSpace : IsSpace mem (8 ∷ 9 ∷ []) 6
unfolding translate
child-IsSpace = record {
  dir_used = refl;
  tables = λ va h p. ground arith;
  apart = λ va vb ha hb p q ne. ground arith;
  held = λ va pte h e.
      rw (shared_page va pte e)
        (record { exists = omega arith; used = refl; counted = omega arith; narrow = omega arith });
}

try_send-Transferred_example :
    (k' : Kernel) × (sys_ipc_try_send 0x1001 42 0x1000 7 asking ≡ ok (back (ret 0), k'))
    × Transferred 0 1 42 7 0x4007 asking k'
try_send-Transferred_example =
    try_send-Transferred asking 0 0x1001 1 42 0x1000 7 refl (omega arith) child_waits refl
      (omega arith) refl (user_page 0x5000 (omega arith) refl) in_range (8 ∷ 9 ∷ []) 0x4007
      mem-IsFreeList child-IsSpace first_page (inl refl) IsPage-four (inl refl)
