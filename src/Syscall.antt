-- ===== src/Syscall.antt =====
-- The system calls of kern/syscall.c: what they share. The files below hold one group each.
pub mod EnvCalls
pub mod PageCalls
pub mod Ipc
pub mod Dispatch
pub mod Rights
pub mod Invariant
use yu_os.Layout.{Reply, err, ret, pte_u}
use yu_os.Prelude.{Option, ℕ, ok, Run, Bool, ◌>>=◌, panic, some, bit_or, none}
use yu_os.Env.{Kernel}
use yu_os.Sched.{Exit, env_destroy}
use yu_os.Env.Id.{envid2env}
use yu_os.Pmap.UserMem.{user_mem_check}

-- How a call ends: it returns to the trap handler with a result, or the kernel goes elsewhere.
pub data Ended : Type 0 where
  back : Reply ℕ → Ended
  away : Exit → Ended

abbrev pub Call : Type 0
Call = Kernel → Run (Ended × Kernel)

abbrev pub returns : Reply ℕ → Call
returns r k = ok (back r, k)

-- Reading through a pointer to an environment: NULL is a fault in the kernel.
abbrev pub deref : Option ℕ → Run ℕ
deref none = panic
deref (some i) = ok i

-- `if ((r = envid2env(envid, &e, checkperm)) != 0) return r;`, with the code that follows
abbrev pub found_env : Reply (Option ℕ) → (ℕ → Call) → Call
found_env (err e) next k = returns (err e) k
found_env (ret e) next k = do i ← deref e; next i k

unfoldable pub with_env : ℕ → Bool → (ℕ → Call) → Call
with_env envid checkperm next k = do r ← envid2env envid checkperm k; found_env r next k

-- What follows a call of `env_destroy`
abbrev pub destroyed : Option Exit → Call → Call
destroyed none next k = next k
destroyed (some exit) next k = ok (away exit, k)

-- What follows `user_mem_check`: on an error the current environment is destroyed.
abbrev pub asserted : ℕ → Option ℕ → Call → Call
asserted cur none next k = next k
asserted cur (some addr) next k = do (k, exit) ← env_destroy cur k; destroyed exit next k

-- `user_mem_assert(curenv, va, len, perm)` of kern/pmap.c, with the code that follows
unfoldable pub user_mem_assert : ℕ → ℕ → ℕ → Call → Call
user_mem_assert va len perm next k = do
  cur ← deref k.curenv
  failed ← user_mem_check (k.envs cur).env_pgdir va len (bit_or perm pte_u) k.mem
  asserted cur failed next k
