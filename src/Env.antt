-- ===== src/Env.antt =====
-- The state of the kernel: the environments of kern/env.c and inc/env.h beside the memory of
-- kern/pmap.c. A `struct Env *` is its index in `envs`. Register values, environment ids and
-- addresses are the bit patterns of 32-bit words.
pub mod Id
pub mod Setup
pub mod Alloc
pub mod Free
pub mod Enter
use yu_os.Prelude.{ℕ, ◌%◌, ◌^◌, Bool, true, false, Option, update}
use yu_os.Pmap.{Mem}

pub record PushRegs : Type 0 where
  pub reg_edi : ℕ
  pub reg_esi : ℕ
  pub reg_ebp : ℕ
  pub reg_oesp : ℕ
  pub reg_ebx : ℕ
  pub reg_edx : ℕ
  pub reg_ecx : ℕ
  pub reg_eax : ℕ

pub record Trapframe : Type 0 where
  pub tf_regs : PushRegs
  pub tf_es : ℕ
  pub tf_ds : ℕ
  pub tf_trapno : ℕ
  pub tf_err : ℕ
  pub tf_eip : ℕ
  pub tf_cs : ℕ
  pub tf_eflags : ℕ
  pub tf_esp : ℕ
  pub tf_ss : ℕ

pub data Status : Type 0 where
  free dying runnable running not_runnable : Status

pub data EnvType : Type 0 where
  user fs : EnvType

pub record Env : Type 0 where
  pub env_tf : Trapframe
  pub env_link : Option ℕ
  pub env_id : ℕ
  pub env_parent_id : ℕ
  pub env_type : EnvType
  pub env_status : Status
  pub env_runs : ℕ
  -- the page that holds the page directory; 0 stands for NULL, since page 0 is never handed out
  pub env_pgdir : ℕ
  pub env_pgfault_upcall : ℕ
  pub env_ipc_recving : Bool
  pub env_ipc_dstva : ℕ
  pub env_ipc_value : ℕ
  pub env_ipc_from : ℕ
  pub env_ipc_perm : ℕ

pub record Kernel : Type 0 where
  pub mem : Mem
  pub kern_pgdir : ℕ
  pub envs : ℕ → Env
  pub env_free_list : Option ℕ
  pub curenv : Option ℕ
  -- the page directory that the processor uses
  pub cr3 : ℕ

abbrev pub nenv : ℕ
nenv = 1024

-- `ENVX`
abbrev pub envx : ℕ → ℕ
envx envid = envid % nenv

-- `envs[i] = e`
abbrev pub set_env : ℕ → Env → Kernel → Kernel
set_env i e k = record k { envs = update k.envs i e }

abbrev pub is_free : Status → Bool
is_free Status.free = true
is_free _ = false

abbrev pub is_runnable : Status → Bool
is_runnable Status.runnable = true
is_runnable _ = false

abbrev pub is_running : Status → Bool
is_running Status.running = true
is_running _ = false
