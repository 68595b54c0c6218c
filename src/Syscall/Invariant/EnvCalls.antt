-- ===== src/Syscall/Invariant/EnvCalls.antt =====
-- The system calls on environments keep it true that only the current one is running.
use yu_os.Env.{Kernel, Trapframe, Status, set_env, is_running}
use yu_os.Sched.Running.{sched_yield-OneRuns}
use yu_os.Sched.Calls.{OneRuns-set_env, Left-env_destroy, OneRuns-env_alloc, Entered-sched_yield}
use yu_os.Syscall.{returns, deref, ℕ}
use yu_os.Layout.{Reply, ret, err}
use yu_os.Syscall.EnvCalls.{
  sys_env_set_trapframe, sys_env_destroy, sys_yield, sys_env_set_status, sys_cputs,
  sys_env_set_pgfault_upcall, sys_getenvid, sys_exofork, make_child, forked, told,
}
use yu_os.Prelude.{
  ℕ, true, After-any, ends, Bool, After-bind, if◌then◌else◌, ◌≡◌, arith, not, ◌==◌, ◌&&◌, false,
}
use yu_os.Sched.{env_destroy}
use yu_os.Env.Alloc.{env_alloc}
use yu_os.Syscall.Invariant.{
  Keeps, Keeps-with_env, Keeps-user_mem_assert, Keeps-if, Keeps-destroyed,
}

pub Keeps-sys_cputs : (s len : ℕ) → Keeps (sys_cputs s len)
unfolding sys_cputs
Keeps-sys_cputs s len = Keeps-user_mem_assert s len _ _ (λ k one. ends one)

pub Keeps-sys_getenvid : Keeps sys_getenvid
unfolding sys_getenvid
Keeps-sys_getenvid k one = After-any (deref k.curenv) _ (λ cur. ends one)

pub Keeps-sys_env_destroy : (envid : ℕ) → Keeps (sys_env_destroy envid)
unfolding sys_env_destroy
Keeps-sys_env_destroy envid = Keeps-with_env envid true _ (λ e k one.
    After-bind (env_destroy e k) _ (Left-env_destroy e k one)
      (λ (k', exit) kept. Keeps-destroyed exit (returns (ret 0)) k' (λ k one. ends one) kept))

pub Keeps-make_child : (cur : ℕ) (r : Reply ℕ) → Keeps (make_child cur r)
Keeps-make_child cur (err e) k one = ends one
Keeps-make_child cur (ret e) k one = ends (
    OneRuns-set_env cur (told (k.envs e).env_id ((child.envs) cur)) (λ h. h)
      (OneRuns-set_env e (forked (k.envs cur) (k.envs e)) (λ h. absurd (cc)) one))
  where
    child : Kernel
    child = set_env e (forked (k.envs cur) (k.envs e)) k

pub Keeps-sys_exofork : Keeps sys_exofork
unfolding sys_exofork
Keeps-sys_exofork k one = After-any (deref k.curenv) _ (λ cur.
    After-bind (env_alloc (k.envs cur).env_id k) _ (OneRuns-env_alloc (k.envs cur).env_id k one)
      (λ (r, k') kept. Keeps-make_child cur r k' kept))

pub Keeps-sys_env_set_status : (envid status : ℕ) → Keeps (sys_env_set_status envid status)
unfolding sys_env_set_status
Keeps-sys_env_set_status envid status =
    Keeps-if (not (status == 2) && not (status == 4)) (λ k one. ends one)
      (Keeps-with_env envid true _ (λ e k one.
        ends (OneRuns-set_env e _ (λ h. absurd (let c = calm (status == 2) in cc)) one)))
  where
    calm : (b : Bool) → is_running (if b then Status.runnable else Status.not_runnable) ≡ false
    calm b = ground arith

pub Keeps-sys_env_set_trapframe :
    (envid : ℕ) (tf : Trapframe) → Keeps (sys_env_set_trapframe envid tf)
unfolding sys_env_set_trapframe
Keeps-sys_env_set_trapframe envid tf =
    Keeps-with_env envid true _ (λ e k one. ends (OneRuns-set_env e _ (λ h. h) one))

pub Keeps-sys_env_set_pgfault_upcall :
    (envid func : ℕ) → Keeps (sys_env_set_pgfault_upcall envid func)
unfolding sys_env_set_pgfault_upcall
Keeps-sys_env_set_pgfault_upcall envid func =
    Keeps-with_env envid true _ (λ e k one. ends (OneRuns-set_env e _ (λ h. h) one))

pub Keeps-sys_yield : Keeps sys_yield
unfolding sys_yield
Keeps-sys_yield k one = ends (sched_yield-OneRuns k one, Entered-sched_yield k one)
