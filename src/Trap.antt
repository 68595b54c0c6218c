-- ===== src/Trap.antt =====
-- Traps: trap, trap_dispatch and page_fault_handler of kern/trap.c. The processor enters `trap`
-- with interrupts disabled and with the trap frame on the kernel's stack.
pub mod Keeps
pub mod PageFault
use yu_os.Layout.{
  unspecified, bad_env, inval, no_mem, no_free_env, fault, no_sys, ipc_not_recv, eof, no_disk,
  max_open, not_found, bad_path, file_exists, not_exec, not_supp, max_fd,
}
use yu_os.Prelude.{
  ℕ, ◌+◌, Bool, Option, List, if◌then◌else◌, Run, ◌∷◌, leb, ◌>>=◌, ◌%◌, ◌==◌, panic, [], ok, ◌-◌,
  none, some, ◌&&◌, ltb,
}
use yu_os.Layout.{
  Reply, utop, Error, word_mod, unspecified, ret, bad_env, pgsize, pte_w, inval, err, no_mem,
  no_free_env, fault, no_sys, ipc_not_recv, eof, no_disk, max_open, not_found, bad_path,
  file_exists, not_exec, not_supp,
}
use yu_os.Env.{PushRegs, Env, Kernel, Trapframe, set_env, is_running}
use yu_os.Syscall.{Call, Ended, returns, user_mem_assert, deref, back, away}
use yu_os.Syscall.Dispatch.{Devices, syscall}
use yu_os.Sched.{Exit, sched_yield, entered, env_destroy}
use yu_os.Time.{time_msec, time_tick}
use yu_os.Pmap.{Mem}
use yu_os.Syscall.EnvCalls.{told}
use yu_os.Env.Enter.{env_run}

-- What the handlers read of the processor, and the processor's stores through the current page
-- directory
pub record Hardware : Type 0 where
  -- `read_eflags() & FL_IF`
  pub interruptible : Bool
  pub rcr2 : ℕ
  pub store : ℕ → List ℕ → Kernel → Run Mem

-- `struct UTrapframe`
pub record UTrapframe : Type 0 where
  pub utf_fault_va : ℕ
  pub utf_err : ℕ
  pub utf_regs : PushRegs
  pub utf_eip : ℕ
  pub utf_eflags : ℕ
  pub utf_esp : ℕ

abbrev pub uxstacktop : ℕ
uxstacktop = utop

-- `sizeof(struct UTrapframe)`
abbrev pub utrapframe_size : ℕ
utrapframe_size = 52

-- The words of the frame, from its lowest address
abbrev pub utrapframe_words : UTrapframe → List ℕ
utrapframe_words u =
    u.utf_fault_va ∷ u.utf_err ∷ u.utf_regs.reg_edi ∷ u.utf_regs.reg_esi ∷ u.utf_regs.reg_ebp
    ∷ u.utf_regs.reg_oesp ∷ u.utf_regs.reg_ebx ∷ u.utf_regs.reg_edx ∷ u.utf_regs.reg_ecx
    ∷ u.utf_regs.reg_eax ∷ u.utf_eip ∷ u.utf_eflags ∷ u.utf_esp ∷ []

abbrev pub fault_frame : ℕ → Trapframe → UTrapframe
fault_frame fault_va tf = record {
  utf_fault_va = fault_va;
  utf_err = tf.tf_err;
  utf_regs = tf.tf_regs;
  utf_eip = tf.tf_eip;
  utf_eflags = tf.tf_eflags;
  utf_esp = tf.tf_esp;
}

-- `curenv->env_tf.tf_esp = esp`
abbrev pub set_esp : ℕ → Env → Env
set_esp esp e = record e { env_tf = record (e.env_tf) { tf_esp = esp } }

-- `curenv->env_tf.tf_eip = (uintptr_t)(curenv->env_pgfault_upcall)`
abbrev pub set_upcall : Env → Env
set_upcall e = record e { env_tf = record (e.env_tf) { tf_eip = e.env_pgfault_upcall } }

-- The frame is stored at the new stack pointer, and the environment goes on at its upcall.
unfoldable pub upcall : Hardware → UTrapframe → Call
upcall hw u k = do
  cur ← deref k.curenv
  m ← hw.store (k.envs cur).env_tf.tf_esp (utrapframe_words u) k
  ok (
    away (entered cur),
    env_run cur (set_env cur (set_upcall (k.envs cur)) (record k { mem = m })),
  )

abbrev pub in_exception_stack : ℕ → Bool
in_exception_stack esp = leb (uxstacktop - pgsize) esp && ltb esp uxstacktop

abbrev pub nested_esp : ℕ → ℕ
nested_esp esp = (esp + word_mod - (utrapframe_size + 4)) % word_mod

-- The frame below the current one, with a scratch word, or at the top of the exception stack
abbrev pub push_frame : Hardware → UTrapframe → ℕ → Call
push_frame hw u cur k =
    let esp = (k.envs cur).env_tf.tf_esp in
    if in_exception_stack esp
    then (user_mem_assert (nested_esp esp) (utrapframe_size + 4) pte_w (upcall hw u)
        (set_env cur (set_esp (nested_esp esp) (k.envs cur)) k))
    else upcall hw u (set_env cur (set_esp (uxstacktop - utrapframe_size) (k.envs cur)) k)

abbrev pub with_upcall : Hardware → Trapframe → ℕ → Call
with_upcall hw tf cur k =
    if (k.envs cur).env_pgfault_upcall == 0
    then panic
    else push_frame hw (fault_frame hw.rcr2 tf) cur k

-- What follows `fail` is not reached: `panic` does not return.
unfoldable pub page_fault_handler : Hardware → Trapframe → Call
page_fault_handler hw tf k =
    if leb utop hw.rcr2 then panic else (do cur ← deref k.curenv; with_upcall hw tf cur k)

-- The codes of inc/error.h
abbrev pub error_code : Error → ℕ
error_code unspecified = 1
error_code bad_env = 2
error_code inval = 3
error_code no_mem = 4
error_code no_free_env = 5
error_code fault = 6
error_code no_sys = 7
error_code ipc_not_recv = 8
error_code eof = 9
error_code no_disk = 10
error_code max_open = 11
error_code not_found = 12
error_code bad_path = 13
error_code file_exists = 14
error_code not_exec = 15
error_code not_supp = 16
error_code max_fd = 17

-- The `int32_t` result as a register
abbrev pub reply_word : Reply ℕ → ℕ
reply_word (ret v) = v % word_mod
reply_word (err e) = word_mod - error_code e

-- The kernel, with the clock
pub record Machine : Type 0 where
  pub kernel : Kernel
  pub ticks : ℕ

-- `sys_time_msec` of kern/syscall.c
abbrev pub with_clock : ℕ → Devices → Devices
with_clock ticks dev = record dev { sys_time_msec = returns (ret (time_msec ticks)) }

-- `curenv->env_tf.tf_regs.reg_eax = ret`
abbrev pub after_syscall : ℕ → Ended → Kernel → Run (Option Exit × Machine)
after_syscall ticks (back r) k = do
  cur ← deref k.curenv
  ok (none, record { kernel = set_env cur (told (reply_word r) (k.envs cur)) k; ticks = ticks })
after_syscall ticks (away exit) k = ok (some exit, record { kernel = k; ticks = ticks })

-- How a handler ended; `page_fault_handler` has no result.
abbrev pub after_fault : ℕ → Ended → Kernel → Run (Option Exit × Machine)
after_fault ticks (back r) k = ok (none, record { kernel = k; ticks = ticks })
after_fault ticks (away exit) k = ok (some exit, record { kernel = k; ticks = ticks })

-- The call of `sched_yield` that ends the handling of an interrupt
abbrev pub yielded : ℕ → Kernel → Run (Option Exit × Machine)
yielded ticks k =
    let (k', exit) = sched_yield k in ok (some exit, record { kernel = k'; ticks = ticks })

-- `kbd_intr`, `serial_intr` and `lapic_eoi` touch their devices only.
unfoldable pub trap_dispatch :
    Devices → Hardware → Trapframe → Machine → Run (Option Exit × Machine)
trap_dispatch dev hw tf c =
    if tf.tf_trapno == 48
    then (do
      (r, k) ←
          syscall (with_clock c.ticks dev) tf.tf_regs.reg_eax tf.tf_regs.reg_edx tf.tf_regs.reg_ecx
            tf.tf_regs.reg_ebx tf.tf_regs.reg_edi tf.tf_regs.reg_esi c.kernel
      after_syscall c.ticks r k)
    else if tf.tf_trapno == 14
    then (do (r, k) ← page_fault_handler hw tf c.kernel; after_fault c.ticks r k)
    else if tf.tf_trapno == 32
    then (do ticks ← time_tick c.ticks; yielded ticks c.kernel)
    else if tf.tf_trapno == 33
    then yielded c.ticks c.kernel
    else if tf.tf_trapno == 36
    then yielded c.ticks c.kernel
    else if tf.tf_cs == 8
    then panic
    else (do
      cur ← deref c.kernel.curenv
      (k, exit) ← env_destroy cur c.kernel
      ok (exit, record { kernel = k; ticks = c.ticks }))

-- The frame of a trap from user mode is copied into the current environment.
abbrev pub saved_frame : Trapframe → Kernel → Run Kernel
saved_frame tf k =
    if tf.tf_cs % 4 == 3
    then (do cur ← deref k.curenv; ok (set_env cur (record (k.envs cur) { env_tf = tf }) k))
    else ok k

-- Back to the current environment, `if (curenv && curenv->env_status == ENV_RUNNING)`
abbrev pub resume : Option ℕ → Kernel → Kernel × Exit
resume none k = sched_yield k
resume (some cur) k =
    if is_running (k.envs cur).env_status then (env_run cur k, entered cur) else sched_yield k

abbrev pub after_dispatch : Option Exit → Machine → Run (Machine × Exit)
after_dispatch none c =
    let (k, exit) = resume c.kernel.curenv c.kernel in ok (record c { kernel = k }, exit)
after_dispatch (some exit) c = ok (c, exit)

unfoldable pub trap : Devices → Hardware → Trapframe → Machine → Run (Machine × Exit)
trap dev hw tf c = if hw.interruptible then panic else (do
  k ← saved_frame tf c.kernel
  (exit, c) ← trap_dispatch dev hw tf (record c { kernel = k })
  after_dispatch exit c)
