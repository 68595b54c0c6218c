-- ===== src/Syscall/EnvCalls.antt =====
-- The system calls on environments in kern/syscall.c.
use yu_os.Syscall.{Call, with_env, user_mem_assert, deref, returns, away, pte_u, destroyed}
use yu_os.Env.{Env, Trapframe, Status, set_env}
use yu_os.Prelude.{ℕ, if◌then◌else◌, ◌>>=◌, ok, not, true, bit_or, ◌==◌, ◌&&◌}
use yu_os.Sched.{sched_yield, env_destroy}
use yu_os.Layout.{pte_p, ret, err, inval, Reply}
use yu_os.Env.Alloc.{env_alloc}

-- `sys_cputs` prints by `cprintf` once the range has been checked; the text is not modelled.
unfoldable pub sys_cputs : ℕ → ℕ → Call
sys_cputs s len = user_mem_assert s len (bit_or pte_p pte_u) (returns (ret 0))

unfoldable pub sys_getenvid : Call
sys_getenvid k = do cur ← deref k.curenv; returns (ret (k.envs cur).env_id) k

unfoldable pub sys_env_destroy : ℕ → Call
sys_env_destroy envid =
    with_env envid true (λ e k. do (k, exit) ← env_destroy e k; destroyed exit (returns (ret 0)) k)

-- The environment that `sys_exofork` makes of the one from `env_alloc`
abbrev pub forked : Env → Env → Env
forked parent child = record child {
  env_tf = record (parent.env_tf) { tf_regs = record (parent.env_tf.tf_regs) { reg_eax = 0 } };
  env_status = Status.not_runnable;
  env_pgfault_upcall = parent.env_pgfault_upcall;
}

-- The parent's `reg_eax` is set to the id of the child, and read again as the result.
abbrev pub told : ℕ → Env → Env
told envid e = record e {
  env_tf = record (e.env_tf) { tf_regs = record (e.env_tf.tf_regs) { reg_eax = envid } };
}

-- What follows `env_alloc`, for the current environment `cur`
abbrev pub make_child : ℕ → Reply ℕ → Call
make_child cur (err e) k = returns (err e) k
make_child cur (ret e) k =
    let k' = set_env e (forked (k.envs cur) (k.envs e)) k in
    returns (ret (k.envs e).env_id) (set_env cur (told (k.envs e).env_id (k'.envs cur)) k')

unfoldable pub sys_exofork : Call
sys_exofork k = do
  cur ← deref k.curenv
  (r, k) ← env_alloc (k.envs cur).env_id k
  make_child cur r k

-- ENV_RUNNABLE and ENV_NOT_RUNNABLE are 2 and 4.
unfoldable pub sys_env_set_status : ℕ → ℕ → Call
sys_env_set_status envid status =
    if not (status == 2) && not (status == 4)
    then returns (err inval)
    else with_env envid true (λ e k. returns (ret 0) (
        set_env e
          (record (k.envs e) {
            env_status = if status == 2 then Status.runnable else Status.not_runnable;
          })
          k))

-- `tf` is what the user's memory holds at the given address.
unfoldable pub sys_env_set_trapframe : ℕ → Trapframe → Call
sys_env_set_trapframe envid tf =
    with_env envid true (λ e k. returns (ret 0) (set_env e (record (k.envs e) { env_tf = tf }) k))

unfoldable pub sys_env_set_pgfault_upcall : ℕ → ℕ → Call
sys_env_set_pgfault_upcall envid func =
    with_env envid true
      (λ e k. returns (ret 0) (set_env e (record (k.envs e) { env_pgfault_upcall = func }) k))

unfoldable pub sys_yield : Call
sys_yield k = let (k', exit) = sched_yield k in ok (away exit, k')
