-- ===== src/Tests/TrapExamples.antt =====
-- The theorems on traps at the small machine.
use yu_os.Tests.Machine.{kernel, kernel-OneRuns}
use yu_os.Prelude.{After, arith, ends, false, ok, ◌≡◌, refl, inl}
use yu_os.Syscall.Dispatch.{Devices, syscall}
use yu_os.Env.{Trapframe, Kernel, set_env}
use yu_os.Trap.PageFault.{outside, IsUserFault, Upcalled, page_fault_handler-Upcalled}
use yu_os.Trap.{Hardware, trap, page_fault_handler, trap_dispatch, Machine}
use yu_os.Syscall.Invariant.Dispatch.{DevicesKeep, syscall-Keeps}
use yu_os.Trap.Keeps.{Gone, trap-Gone}
use yu_os.Syscall.{returns, Ended, back}
use yu_os.Env.Alloc.{initial_tf}
use yu_os.Syscall.Invariant.{Good}
use yu_os.Layout.{ret}
use yu_os.Syscall.EnvCalls.{sys_getenvid}
use yu_os.Sched.{Exit}

-- Devices without input, and a frame of zeros for every address
abbrev quiet : Devices
quiet = record {
  sys_cgetc = returns (ret 0);
  sys_time_msec = returns (ret 0);
  sys_tx_pkt = λ a. returns (ret 0);
  sys_rx_pkt = λ a. returns (ret 0);
  read_trapframe = λ a k. initial_tf;
}

quiet-DevicesKeep : DevicesKeep quiet
quiet-DevicesKeep = record {
  cgetc = λ k one. ends one;
  time_msec = λ k one. ends one;
  tx_pkt = λ a k one. ends one;
  rx_pkt = λ a k one. ends one;
}

-- A fault at 0x5000; the stores to the user's stack succeed.
abbrev hardware : Hardware
hardware = record { interruptible = false; rcr2 = 0x5000; store = λ a l k. ok k.mem }

-- `sys_exofork` from user mode
abbrev fork_frame : Trapframe
fork_frame = record initial_tf {
  tf_trapno = 48;
  tf_cs = 0x1b;
  tf_regs = record (initial_tf.tf_regs) { reg_eax = 7 };
}

syscall-Keeps_example : After (λ r. Good r.0 r.1) (syscall quiet 7 0 0 0 0 0 kernel)
syscall-Keeps_example = syscall-Keeps quiet 7 0 0 0 0 0 kernel quiet-DevicesKeep kernel-OneRuns

trap-Gone_example :
    After Gone (trap quiet hardware fork_frame (record { kernel = kernel; ticks = 0 }))
trap-Gone_example =
    trap-Gone quiet hardware fork_frame (record { kernel = kernel; ticks = 0 }) quiet-DevicesKeep
      kernel-OneRuns

-- Environment 0 with an upcall
abbrev with_handler : Kernel
with_handler = set_env 0 (record (kernel.envs 0) { env_pgfault_upcall = 0x800100 }) kernel

user_fault : IsUserFault hardware 0 with_handler
user_fault = record { runs = refl; in_user = omega arith; handled = omega arith }

page_fault_handler-Upcalled_example :
    (r : Ended × Kernel) × (page_fault_handler hardware initial_tf with_handler ≡ ok r)
    × Upcalled 0 0xEEBFFFCC kernel.mem with_handler r
page_fault_handler-Upcalled_example =
    page_fault_handler-Upcalled hardware initial_tf 0 with_handler user_fault 0xEEBFFFCC kernel.mem
      (outside (inl (omega arith))) refl

-- The key press, and the call that gives the id, do not panic.
keyboard :
    (r : Machine × Exit) × (trap quiet hardware
        (record fork_frame { tf_trapno = 33 })
        (record { kernel = kernel; ticks = 0 })
      ≡ ok r)
unfolding trap trap_dispatch
keyboard = (_, refl)

getenvid :
    (r : Ended × Kernel) × (syscall quiet 2 0 0 0 0 0 kernel ≡ ok r) × (r.0 ≡ back (ret 0x1000))
unfolding syscall sys_getenvid
getenvid = (_, refl, refl)
