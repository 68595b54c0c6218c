-- ===== src/Env/Alloc.antt =====
-- env_init and env_alloc of kern/env.c.
pub mod Init
pub mod Ids
pub mod Outcome
use yu_os.Env.{PushRegs, Trapframe, Kernel, Env, set_env, nenv, Status, Option}
use yu_os.Prelude.{
  ℕ, if◌then◌else◌, Run, ◌+◌, bit_or, suc, ◌^◌, some, ◌==◌, zero, ◌||◌, ◌%◌, leb, ◌/◌, ◌*◌, none,
  ok, ◌>>=◌, Option,
}
use yu_os.Layout.{ustacktop, Reply, word_mod, err, no_free_env, ret}
use yu_os.Env.Setup.{env_setup_vm}

-- One round of the loop of `env_init`
abbrev pub env_init_step : ℕ → Kernel → Kernel
env_init_step i k =
    record (set_env i (record (k.envs i) { env_link = k.env_free_list; env_id = 0 }) k) {
      env_free_list = some i;
    }

-- `for (i = NENV - 1; i >= 0; i--)`, with so many rounds left. `env_init_percpu` loads segment
-- registers only.
unfoldable pub env_init_loop : ℕ → Kernel → Kernel
env_init_loop zero k = k
env_init_loop (suc i) k = env_init_loop i (env_init_step i k)

unfoldable pub env_init : Kernel → Kernel
unfolding env_init_loop
env_init k = env_init_loop nenv k

-- `(e->env_id + (1 << ENVGENSHIFT)) & ~(NENV - 1)`, as a 32-bit pattern
abbrev pub next_generation : ℕ → ℕ
next_generation env_id = (env_id + 2 ^ 12) % word_mod / nenv * nenv

-- `generation <= 0`, of the pattern as an int32_t
abbrev pub generation_of : ℕ → ℕ
generation_of env_id =
    if (next_generation env_id == 0) || leb (2 ^ 31) (next_generation env_id)
    then 2 ^ 12
    else next_generation env_id

-- The id of the next environment in slot `i`
unfoldable pub new_id : ℕ → ℕ → ℕ
new_id i env_id = bit_or (generation_of env_id) i

abbrev zero_regs : PushRegs
zero_regs = record {
  reg_edi = 0;
  reg_esi = 0;
  reg_ebp = 0;
  reg_oesp = 0;
  reg_ebx = 0;
  reg_edx = 0;
  reg_ecx = 0;
  reg_eax = 0;
}

-- The registers after `memset`, the segment registers and `FL_IF`
abbrev pub initial_tf : Trapframe
initial_tf = record {
  tf_regs = zero_regs;
  tf_es = 0x23;
  tf_ds = 0x23;
  tf_trapno = 0;
  tf_err = 0;
  tf_eip = 0;
  tf_cs = 0x1B;
  tf_eflags = 0x200;
  tf_esp = ustacktop;
  tf_ss = 0x23;
}

-- The fields that `env_alloc` assigns
abbrev pub fresh_env : ℕ → ℕ → Env → Env
fresh_env i parent_id e = record e {
  env_id = new_id i e.env_id;
  env_parent_id = parent_id;
  env_status = Status.runnable;
  env_runs = 0;
  env_tf = initial_tf;
  env_pgfault_upcall = 0;
}

-- What follows `env_setup_vm`, for the slot `i`
abbrev pub start_env : ℕ → ℕ → Reply ℕ → Kernel → Reply ℕ × Kernel
start_env parent_id i (err e) k = (err e, k)
start_env parent_id i (ret _) k = (
  ret i,
  record (set_env i (fresh_env i parent_id (k.envs i)) k) { env_free_list = (k.envs i).env_link },
)

-- The slot at the head of the free list, and the rest of `env_alloc`
unfoldable pub alloc_slot : ℕ → Kernel → Option ℕ → Run (Reply ℕ × Kernel)
unfolding new_id
alloc_slot parent_id k none = ok (err no_free_env, k)
alloc_slot parent_id k (some i) = do (r, k) ← env_setup_vm i k; ok (start_env parent_id i r k)

-- The reply holds the index stored in `*newenv_store`.
unfoldable pub env_alloc : ℕ → Kernel → Run (Reply ℕ × Kernel)
unfolding alloc_slot
env_alloc parent_id k = alloc_slot parent_id k k.env_free_list
