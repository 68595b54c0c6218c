-- ===== src/Syscall/Invariant/Dispatch.antt =====
-- Every system call keeps it true that only the current environment is running.
use yu_os.Syscall.{ℕ, Kernel}
use yu_os.Syscall.Dispatch.{Devices, syscall}
use yu_os.Prelude.{ℕ, ends, After-if, ◌==◌, After}
use yu_os.Syscall.Invariant.{Keeps, OneRuns, Good}
use yu_os.Syscall.Invariant.EnvCalls.{
  Keeps-sys_cputs, Keeps-sys_getenvid, Keeps-sys_env_destroy, Keeps-sys_exofork,
  Keeps-sys_env_set_status, Keeps-sys_env_set_trapframe, Keeps-sys_yield,
  Keeps-sys_env_set_pgfault_upcall,
}
use yu_os.Syscall.Invariant.PageCalls.{
  Keeps-sys_page_alloc, Keeps-sys_page_map, Keeps-sys_page_unmap,
}
use yu_os.Syscall.Invariant.Ipc.{Keeps-sys_ipc_try_send, Keeps-sys_ipc_recv}
use yu_os.Env.{Kernel}
use yu_os.Sched.Running.{OneRuns}

-- The calls that drive a device keep the invariant.
pub record DevicesKeep (dev : Devices) : Type 0 where
  pub cgetc : Keeps dev.sys_cgetc
  pub time_msec : Keeps dev.sys_time_msec
  pub tx_pkt : (a : ℕ) → Keeps (dev.sys_tx_pkt a)
  pub rx_pkt : (a : ℕ) → Keeps (dev.sys_rx_pkt a)

-- If only the current environment is marked as running, and the calls on devices keep that so, then
-- every system call that does not panic keeps it so as well; where it does not return to its
-- caller, it leaves for the monitor or for an environment that is the current one, is marked as
-- running and has its address space loaded.
pub syscall-Keeps :
    (dev : Devices) (syscallno a1 a2 a3 a4 a5 : ℕ) (k : Kernel)
    → DevicesKeep dev
    → OneRuns k
    → After (λ r. Good r.0 r.1) (syscall dev syscallno a1 a2 a3 a4 a5 k)
unfolding syscall
syscall-Keeps dev nr a1 a2 a3 a4 a5 k d one = After-if (nr == 0) (Keeps-sys_cputs a1 a2 k one) (
    After-if (nr == 1) (d.cgetc k one) (
      After-if (nr == 2) (Keeps-sys_getenvid k one) (
        After-if (nr == 3) (Keeps-sys_env_destroy a1 k one) (
          After-if (nr == 4) (Keeps-sys_page_alloc a1 a2 a3 k one) (
            After-if (nr == 5) (Keeps-sys_page_map a1 a2 a3 a4 a5 k one) (
              After-if (nr == 6) (Keeps-sys_page_unmap a1 a2 k one) (
                After-if (nr == 7) (Keeps-sys_exofork k one) (
                  After-if (nr == 8) (Keeps-sys_env_set_status a1 a2 k one) (
                    After-if (nr == 9)
                      (Keeps-sys_env_set_trapframe a1 (dev.read_trapframe a2 k) k one)
                      (After-if (nr == 10) (Keeps-sys_yield k one) (
                        After-if (nr == 11) (Keeps-sys_env_set_pgfault_upcall a1 a2 k one) (
                          After-if (nr == 12) (Keeps-sys_ipc_try_send a1 a2 a3 a4 k one) (
                            After-if (nr == 13) (Keeps-sys_ipc_recv a1 k one) (
                              After-if (nr == 14) (d.time_msec k one) (
                                After-if (nr == 15) (d.tx_pkt a1 k one) (
                                  After-if (nr == 16) (d.rx_pkt a1 k one) (ends one)))))))))))))))))
