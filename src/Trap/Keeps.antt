-- ===== src/Trap/Keeps.antt =====
-- A trap never returns: it ends in an environment or in the monitor, with the invariant kept.
use yu_os.Prelude.{
  ℕ, Option, After-if, After, stopped, ends, ◌==◌, leb, ◌%◌, After-bind, some, After-any,
  Bool-cases, none, inl, inr, refl,
}
use yu_os.Trap.{
  trap, trap_dispatch, page_fault_handler, Machine, upcall, Hardware, UTrapframe, Exit, resume,
  with_clock, push_frame, after_syscall, yielded, after_fault, saved_frame, in_exception_stack,
  after_dispatch, env_run, utop, set_esp, time_tick, utrapframe_words, fault_frame, told,
  reply_word, set_upcall,
}
use yu_os.Env.{Kernel, Trapframe, is_running, set_env}
use yu_os.Syscall.Dispatch.{Devices}
use yu_os.Syscall.{Ended, away, back, deref}
use yu_os.Syscall.Invariant.{Good, Keeps, Keeps-user_mem_assert}
use yu_os.Syscall.Invariant.Dispatch.{DevicesKeep, syscall-Keeps}
use yu_os.Sched.{Exit, entered, env_destroy}
use yu_os.Sched.Running.{OneRuns, sched_yield-OneRuns, env_run-OneRuns}
use yu_os.Sched.Calls.{
  Left, Entered, Entered-sched_yield, OneRuns-set_env, env_run-Entered, Left-env_destroy,
  OneRuns-same,
}
use yu_os.Env.Enter.{env_run}
use yu_os.Layout.{utop}
use yu_os.Time.{time_tick}
use yu_os.Syscall.EnvCalls.{told}

Keeps-upcall : (hw : Hardware) (u : UTrapframe) → Keeps (upcall hw u)
unfolding upcall
Keeps-upcall hw u k one = After-any (deref k.curenv) _ (λ cur.
    After-any (hw.store (k.envs cur).env_tf.tf_esp (utrapframe_words u) k) _ (λ m. ends (
      ran cur (set_env cur (set_upcall (k.envs cur)) (record k { mem = m })) (
        OneRuns-set_env cur (set_upcall (k.envs cur)) (λ h. h)
          (OneRuns-same {k = k} refl refl one)))))
  where
    ran : (e : ℕ) (k : Kernel) → OneRuns k → Good (away (entered e)) (env_run e k)
    ran e k one = ((env_run-OneRuns e k one).0, env_run-Entered e k one)

Keeps-push_frame : (hw : Hardware) (u : UTrapframe) (cur : ℕ) → Keeps (push_frame hw u cur)
Keeps-push_frame hw u cur k one =
    After-if (in_exception_stack (k.envs cur).env_tf.tf_esp)
      (Keeps-user_mem_assert _ _ _ _ (Keeps-upcall hw u) _
        (OneRuns-set_env cur (set_esp _ (k.envs cur)) (λ h. h) one))
      (Keeps-upcall hw u _ (OneRuns-set_env cur (set_esp _ (k.envs cur)) (λ h. h) one))

Keeps-page_fault_handler : (hw : Hardware) (tf : Trapframe) → Keeps (page_fault_handler hw tf)
unfolding page_fault_handler
Keeps-page_fault_handler hw tf k one = After-if (leb utop hw.rcr2) stopped (
    After-any (deref k.curenv) _ (λ cur.
      After-if ((k.envs cur).env_pgfault_upcall == 0) stopped
        (Keeps-push_frame hw (fault_frame hw.rcr2 tf) cur k one)))

-- The handler has left for a good place, or goes on in a good state.
abbrev Handled : Option Exit × Machine → Type 0
Handled r = Left r.0 r.1.kernel

Handled-after_syscall :
    (ticks : ℕ) (r : Ended) (k : Kernel) → Good r k → After Handled (after_syscall ticks r k)
Handled-after_syscall ticks (back r) k one =
    After-any (deref k.curenv) _
      (λ cur. ends (OneRuns-set_env cur (told (reply_word r) (k.envs cur)) (λ h. h) one))
Handled-after_syscall ticks (away exit) k good = ends good

Handled-after_fault :
    (ticks : ℕ) (r : Ended) (k : Kernel) → Good r k → After Handled (after_fault ticks r k)
Handled-after_fault ticks (back r) k one = ends one
Handled-after_fault ticks (away exit) k good = ends good

Handled-yielded : (ticks : ℕ) (k : Kernel) → OneRuns k → After Handled (yielded ticks k)
Handled-yielded ticks k one = ends (sched_yield-OneRuns k one, Entered-sched_yield k one)

DevicesKeep-with_clock :
    (ticks : ℕ) (dev : Devices) → DevicesKeep dev → DevicesKeep (with_clock ticks dev)
DevicesKeep-with_clock ticks dev d = record {
  cgetc = d.cgetc;
  time_msec = λ k one. ends one;
  tx_pkt = d.tx_pkt;
  rx_pkt = d.rx_pkt;
}

Handled-trap_dispatch :
    (dev : Devices) (hw : Hardware) (tf : Trapframe) (c : Machine)
    → DevicesKeep dev
    → OneRuns c.kernel
    → After Handled (trap_dispatch dev hw tf c)
unfolding trap_dispatch
Handled-trap_dispatch dev hw tf c d one =
    After-if (tf.tf_trapno == 48)
      (After-bind _ _
        (syscall-Keeps (with_clock c.ticks dev) tf.tf_regs.reg_eax tf.tf_regs.reg_edx
          tf.tf_regs.reg_ecx tf.tf_regs.reg_ebx tf.tf_regs.reg_edi tf.tf_regs.reg_esi c.kernel
          (DevicesKeep-with_clock c.ticks dev d) one)
        (λ (r, k) good. Handled-after_syscall c.ticks r k good))
      (After-if (tf.tf_trapno == 14)
        (After-bind _ _ (Keeps-page_fault_handler hw tf c.kernel one)
          (λ (r, k) good. Handled-after_fault c.ticks r k good))
        (After-if (tf.tf_trapno == 32)
          (After-any (time_tick c.ticks) _ (λ ticks. Handled-yielded ticks c.kernel one))
          (After-if (tf.tf_trapno == 33) (Handled-yielded c.ticks c.kernel one) (
            After-if (tf.tf_trapno == 36) (Handled-yielded c.ticks c.kernel one) (
              After-if (tf.tf_cs == 8) stopped (
                After-any (deref c.kernel.curenv) _ (λ cur.
                  After-bind (env_destroy cur c.kernel) _ (Left-env_destroy cur c.kernel one)
                    (λ (k, exit) kept. ends kept))))))))

OneRuns-saved_frame : (tf : Trapframe) (k : Kernel) → OneRuns k → After OneRuns (saved_frame tf k)
OneRuns-saved_frame tf k one =
    After-if (tf.tf_cs % 4 == 3)
      (After-any (deref k.curenv) _ (λ cur. ends (OneRuns-set_env cur _ (λ h. h) one))) (ends one)

-- Where the kernel goes, in a good state
abbrev pub Gone : Machine × Exit → Type 0
Gone r = OneRuns r.0.kernel × Entered r.1 r.0.kernel

Gone-resume :
    (cur : Option ℕ) (k : Kernel)
    → OneRuns k
    → OneRuns (resume cur k).0 × Entered (resume cur k).1 (resume cur k).0
Gone-resume none k one = (sched_yield-OneRuns k one, Entered-sched_yield k one)
Gone-resume (some cur) k one = elim (Bool-cases (is_running (k.envs cur).env_status)) [
  | inl h ↦ rw h ((env_run-OneRuns cur k one).0, env_run-Entered cur k one)
  | inr h ↦ rw h (sched_yield-OneRuns k one, Entered-sched_yield k one)
]

Gone-after_dispatch :
    (exit : Option Exit) (c : Machine) → Handled (exit, c) → After Gone (after_dispatch exit c)
Gone-after_dispatch none c one = ends (Gone-resume c.kernel.curenv c.kernel one)
Gone-after_dispatch (some exit) c left = ends left

-- If only the current environment is marked as running, and the calls on devices keep that so, then
-- a trap that does not panic keeps it so as well, and leaves for the monitor or for an environment
-- that is the current one, is marked as running and has its address space loaded.
pub trap-Gone :
    (dev : Devices) (hw : Hardware) (tf : Trapframe) (c : Machine)
    → DevicesKeep dev
    → OneRuns c.kernel
    → After Gone (trap dev hw tf c)
unfolding trap
trap-Gone dev hw tf c d one = After-if hw.interruptible stopped (
    After-bind (saved_frame tf c.kernel) _ (OneRuns-saved_frame tf c.kernel one) (λ k kept.
      After-bind (trap_dispatch dev hw tf (record c { kernel = k })) _
        (Handled-trap_dispatch dev hw tf (record c { kernel = k }) d kept)
        (λ (exit, c') left. Gone-after_dispatch exit c' left)))
