-- ===== src/Syscall/Invariant.antt =====
-- What it means that a system call keeps it true that only the current environment is running.
pub mod EnvCalls
pub mod PageCalls
pub mod Ipc
pub mod Dispatch
use yu_os.Env.{Kernel, Trapframe, Status, set_env, is_running}
use yu_os.Sched.Running.{OneRuns, sched_yield-OneRuns}
use yu_os.Sched.Calls.{
  OneRuns-same, OneRuns-set_env, Left-env_destroy, OneRuns-env_alloc, Entered-sched_yield, Entered,
  Left,
}
use yu_os.Syscall.{
  Call, returns, deref, found_env, with_env, destroyed, asserted, user_mem_assert, Option, ℕ, Exit,
  envid2env, user_mem_check, Ended, back, away,
}
use yu_os.Syscall.Dispatch.{Devices, syscall}
use yu_os.Layout.{Reply, ret, err, utop, pgsize, pte_u}
use yu_os.Syscall.EnvCalls.{
  sys_env_set_trapframe, sys_env_destroy, sys_yield, sys_env_set_status, sys_cputs,
  sys_env_set_pgfault_upcall, sys_getenvid, sys_exofork, make_child, forked, told,
}
use yu_os.Prelude.{
  Option, After, ℕ, true, After-any, ends, Bool, some, After-bind, if◌then◌else◌, bit_or, ◌≡◌,
  arith, After-if, not, ◌==◌, ◌&&◌, false, none, ◌%◌, ltb, ◌||◌, refl, stopped,
}
use yu_os.Sched.{Exit, env_destroy}
use yu_os.Pmap.UserMem.{user_mem_check}
use yu_os.Env.Id.{envid2env}
use yu_os.Env.Alloc.{env_alloc}
use yu_os.Syscall.PageCalls.{
  sys_page_unmap, inserted, sys_page_alloc, map_between, sys_page_map, insert_new, alloc_in, bad_va,
  map_found, gains_write, lacks_bits, extra_bits,
}
use yu_os.Syscall.Ipc.{
  send_page, sys_ipc_recv, page_sent, deliver, sys_ipc_try_send, send_found, waiting,
}
use yu_os.Pmap.Table.{Found, page_lookup, page_insert, page_remove}
use yu_os.Pmap.Alloc.{page_free, page_alloc, alloc_zero}

-- How a call ends in a good state
abbrev pub Good : Ended → Kernel → Type 0
Good (back r) k = OneRuns k
Good (away exit) k = OneRuns k × Entered exit k

-- However the call ends, it ends in a good state.
abbrev pub Keeps : Call → Type 0
Keeps call = (k : Kernel) → OneRuns k → After (λ r. Good r.0 r.1) (call k)

pub Keeps-found_env :
    (r : Reply (Option ℕ)) (next : ℕ → Call) → ((i : ℕ) → Keeps (next i)) → Keeps (found_env r next)
Keeps-found_env (err e) next keep k one = ends one
Keeps-found_env (ret e) next keep k one = After-any (deref e) _ (λ i. keep i k one)

pub Keeps-with_env :
    (envid : ℕ) (checkperm : Bool) (next : ℕ → Call)
    → ((i : ℕ) → Keeps (next i))
    → Keeps (with_env envid checkperm next)
unfolding with_env
Keeps-with_env envid checkperm next keep k one =
    After-any (envid2env envid checkperm k) _ (λ r. Keeps-found_env r next keep k one)

pub Keeps-destroyed :
    (exit : Option Exit) (next : Call) (k : Kernel)
    → Keeps next
    → Left exit k
    → After (λ r. Good r.0 r.1) (destroyed exit next k)
Keeps-destroyed none next k keep one = keep k one
Keeps-destroyed (some exit) next k keep left = ends left

pub Keeps-asserted :
    (cur : ℕ) (failed : Option ℕ) (next : Call) → Keeps next → Keeps (asserted cur failed next)
Keeps-asserted cur none next keep k one = keep k one
Keeps-asserted cur (some addr) next keep k one =
    After-bind (env_destroy cur k) _ (Left-env_destroy cur k one)
      (λ (k', exit) kept. Keeps-destroyed exit next k' keep kept)

pub Keeps-user_mem_assert :
    (va len perm : ℕ) (next : Call) → Keeps next → Keeps (user_mem_assert va len perm next)
unfolding user_mem_assert
Keeps-user_mem_assert va len perm next keep k one = After-any (deref k.curenv) _ (λ cur.
    After-any (user_mem_check (k.envs cur).env_pgdir va len (bit_or perm pte_u) k.mem) _
      (λ failed. Keeps-asserted cur failed next keep k one))

pub Keeps-if :
    (b : Bool) {call other : Call} → Keeps call → Keeps other → Keeps (if b then call else other)
Keeps-if true h g = h
Keeps-if false h g = g
