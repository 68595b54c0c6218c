-- ===== src/Sched.antt =====
-- sched_yield of kern/sched.c, and env_destroy of kern/env.c, which calls it.
pub mod Circle
pub mod Running
pub mod Calls
pub mod Fair
use yu_os.Prelude.{
  ℕ, Run, Option, if◌then◌else◌, ◌-◌, ◌>>=◌, suc, some, ◌+◌, ◌||◌, ◌==◌, none, ◌%◌, ok, zero,
}
use yu_os.Env.{Kernel, Env, nenv, is_runnable, envx, is_running}
use yu_os.Env.Enter.{env_run}
use yu_os.Env.Free.{env_free}

-- Where the code goes when the kernel does not return to its caller.
pub data Exit : Type 0 where
  -- user mode, in the environment that `env_run` was called with
  entered : ℕ → Exit
  -- the kernel monitor
  monitor : Exit

-- What the loop of `sched_yield` comes to
pub data Scan : Type 0 where
  picked : ℕ → Scan
  at_start : Scan
  out_of_fuel : Scan

-- `for (; i != start; i = (i + 1) % NENV)`
unfoldable pub scan_envs : ℕ → (ℕ → Env) → ℕ → ℕ → Scan
scan_envs zero envs i start = out_of_fuel
scan_envs (suc n) envs i start =
    let rest = scan_envs n envs ((i + 1) % nenv) start in
    if i == start then at_start else if is_runnable (envs i).env_status then picked i else rest

abbrev pub first_of_circle : Kernel → Option ℕ → ℕ
first_of_circle k none = 0
first_of_circle k (some cur) = (envx (k.envs cur).env_id + 1) % nenv

abbrev pub last_of_circle : Kernel → Option ℕ → ℕ
last_of_circle k none = nenv - 1
last_of_circle k (some cur) = envx (k.envs cur).env_id

-- The test after the loop
abbrev pub run_start : ℕ → Kernel → Kernel × Exit
run_start start k =
    if is_runnable (k.envs start).env_status || is_running (k.envs start).env_status
    then (env_run start k, entered start)
    else (k, monitor)

-- What follows the loop's outcome
abbrev pub after_scan : ℕ → Kernel → Scan → Kernel × Exit
after_scan start k (picked i) = (env_run i k, entered i)
after_scan start k at_start = run_start start k
after_scan start k out_of_fuel = (k, monitor)

-- NENV rounds are enough for the loop to come back to `start`.
unfoldable pub sched_yield : Kernel → Kernel × Exit
sched_yield k =
    let start = last_of_circle k k.curenv in
    after_scan start k (scan_envs nenv k.envs (first_of_circle k k.curenv) start)

-- The rest of `env_destroy`, by the current environment
abbrev pub destroy_rest : ℕ → Kernel → Option ℕ → Kernel × Option Exit
destroy_rest e k none = (k, none)
destroy_rest e k (some cur) =
    if cur == e
    then (let (k', exit) = sched_yield (record k { curenv = none }) in (k', some exit))
    else (k, none)

-- `none`: the code goes on after the call.
unfoldable pub env_destroy : ℕ → Kernel → Run (Kernel × Option Exit)
env_destroy e k = do k ← env_free e k; ok (destroy_rest e k k.curenv)
