-- ===== src/Syscall/Dispatch.antt =====
-- The dispatcher, `syscall` of kern/syscall.c.
use yu_os.Syscall.{Call, Kernel, returns, err}
use yu_os.Prelude.{ℕ, if◌then◌else◌, ◌==◌}
use yu_os.Env.{Kernel, Trapframe}
use yu_os.Syscall.EnvCalls.{
  sys_cputs, sys_getenvid, sys_env_destroy, sys_exofork, sys_env_set_status, sys_env_set_trapframe,
  sys_yield, sys_env_set_pgfault_upcall,
}
use yu_os.Syscall.PageCalls.{sys_page_alloc, sys_page_map, sys_page_unmap}
use yu_os.Syscall.Ipc.{sys_ipc_try_send, sys_ipc_recv}
use yu_os.Layout.{err, no_sys}

-- The calls that only drive a device (console input, clock, network), and the memory read of
-- `sys_env_set_trapframe`, are arguments.
pub record Devices : Type 0 where
  pub sys_cgetc : Call
  pub sys_time_msec : Call
  pub sys_tx_pkt : ℕ → Call
  pub sys_rx_pkt : ℕ → Call
  pub read_trapframe : ℕ → Kernel → Trapframe

-- The enumeration of inc/syscall.h, in its order
unfoldable pub syscall : Devices → ℕ → ℕ → ℕ → ℕ → ℕ → ℕ → Call
syscall dev syscallno a1 a2 a3 a4 a5 k =
    if syscallno == 0
    then sys_cputs a1 a2 k
    else if syscallno == 1
    then dev.sys_cgetc k
    else if syscallno == 2
    then sys_getenvid k
    else if syscallno == 3
    then sys_env_destroy a1 k
    else if syscallno == 4
    then sys_page_alloc a1 a2 a3 k
    else if syscallno == 5
    then sys_page_map a1 a2 a3 a4 a5 k
    else if syscallno == 6
    then sys_page_unmap a1 a2 k
    else if syscallno == 7
    then sys_exofork k
    else if syscallno == 8
    then sys_env_set_status a1 a2 k
    else if syscallno == 9
    then sys_env_set_trapframe a1 (dev.read_trapframe a2 k) k
    else if syscallno == 10
    then sys_yield k
    else if syscallno == 11
    then sys_env_set_pgfault_upcall a1 a2 k
    else if syscallno == 12
    then sys_ipc_try_send a1 a2 a3 a4 k
    else if syscallno == 13
    then sys_ipc_recv a1 k
    else if syscallno == 14
    then dev.sys_time_msec k
    else if syscallno == 15
    then dev.sys_tx_pkt a1 k
    else if syscallno == 16
    then dev.sys_rx_pkt a1 k
    else returns (err no_sys) k
