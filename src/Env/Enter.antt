-- ===== src/Env/Enter.antt =====
-- env_run of kern/env.c.
use yu_os.Prelude.{ℕ, Option, some, if◌then◌else◌, ◌+◌, ◌%◌, none}
use yu_os.Env.{Kernel, set_env, Status, is_running}
use yu_os.Layout.{word_mod}

-- The current environment goes back from ENV_RUNNING to ENV_RUNNABLE.
abbrev pub leave : Option ℕ → Kernel → Kernel
leave none k = k
leave (some cur) k =
    if is_running (k.envs cur).env_status
    then set_env cur (record (k.envs cur) { env_status = Status.runnable }) k
    else k

-- `env_runs` is a uint32_t. `env_pop_tf` enters user mode: the kernel code does not go on.
unfoldable pub env_run : ℕ → Kernel → Kernel
env_run e k =
    let left = leave k.curenv k in
    record (set_env e
      (record (left.envs e) {
        env_status = Status.running;
        env_runs = ((left.envs e).env_runs + 1) % word_mod;
      })
      left) { curenv = some e; cr3 = (left.envs e).env_pgdir }
