-- ===== src/Trap/PageFault.antt =====
-- Page faults of an environment that has an upcall, in page_fault_handler of kern/trap.c.
use yu_os.Prelude.{
  ℕ, List, [], ◌∷◌, ◌≡◌, ◌≢◌, ◌⊎◌, ◌<◌, ◌≤◌, ◌-◌, some, none, ok, true, false, Bool-cases, inl, inr,
  refl, arith, ◌∙◌, ==_refl, ==-ne, lt→leb, sym, bit_or, ◌==◌, Option-cases, ap, ◌>>=◌,
}
use yu_os.Trap.{
  Hardware, upcall, UTrapframe, page_fault_handler, in_exception_stack, push_frame,
  utrapframe_words, fault_frame, set_upcall, nested_esp,
}
use yu_os.Env.{Kernel, Trapframe, set_env, is_running}
use yu_os.Env.Enter.{env_run}
use yu_os.Syscall.{Ended, Call, user_mem_assert, away, deref}
use yu_os.Sched.{entered}
use yu_os.Sched.Running.{env_tf-env_run}
use yu_os.Pmap.{Mem}
use yu_os.Pmap.UserMem.{user_mem_check}
use yu_os.Layout.{utop, pte_w, pte_u}

-- A fault of the current environment that the handler passes on to the upcall
pub record IsUserFault (hw : Hardware) (cur : ℕ) (k : Kernel) : Type 0 where
  pub runs : k.curenv ≡ some cur
  pub in_user : hw.rcr2 < utop
  pub handled : (k.envs cur).env_pgfault_upcall ≢ 0

-- Where the frame goes: 56 bytes below the stack pointer, if that is in the page below 0xEEC00000 (the
-- exception stack) and the user may write to these bytes; if it is not, 52 bytes below the top of
-- this page.
pub data FrameAt (pgdir : ℕ) (m : Mem) (esp : ℕ) : ℕ → Type 0 where
  nested :
      0xEEBFF000 ≤ esp
      → esp < 0xEEC00000
      → user_mem_check pgdir (esp - 56) 56 6 m ≡ ok none
      → FrameAt pgdir m esp (esp - 56)
  outside : (esp < 0xEEBFF000) ⊎ (0xEEC00000 ≤ esp) → FrameAt pgdir m esp 0xEEBFFFCC

-- `struct UTrapframe` as words, for a fault at `va` with the registers `tf`
abbrev pub frame_words : ℕ → Trapframe → List ℕ
frame_words va tf =
    va ∷ tf.tf_err ∷ tf.tf_regs.reg_edi ∷ tf.tf_regs.reg_esi ∷ tf.tf_regs.reg_ebp
    ∷ tf.tf_regs.reg_oesp ∷ tf.tf_regs.reg_ebx ∷ tf.tf_regs.reg_edx ∷ tf.tf_regs.reg_ecx
    ∷ tf.tf_regs.reg_eax ∷ tf.tf_eip ∷ tf.tf_eflags ∷ tf.tf_esp ∷ []

-- The kernel with another stack pointer of the environment
abbrev pub with_esp : ℕ → ℕ → Kernel → Kernel
with_esp cur esp k =
    set_env cur (record (k.envs cur) { env_tf = record ((k.envs cur).env_tf) { tf_esp = esp } }) k

-- The environment goes on at its upcall with the given stack pointer and its other registers as they
-- were, in the memory that the store of the frame has left.
pub record Upcalled (cur esp : ℕ) (m : Mem) (k : Kernel) (r : Ended × Kernel) : Type 0 where
  pub enters : r.0 ≡ away (entered cur)
  pub frame :
      (r.1.envs cur).env_tf
      ≡ record ((k.envs cur).env_tf) { tf_esp = esp; tf_eip = (k.envs cur).env_pgfault_upcall }
  pub memory : r.1.mem ≡ m
  pub current : r.1.curenv ≡ some cur
  pub others : (j : ℕ) → j ≢ cur → r.1.envs j ≡ k.envs j

env_run-mem : (e : ℕ) (k : Kernel) → (env_run e k).mem ≡ k.mem
unfolding env_run
env_run-mem e k = elim (Option-cases k.curenv) [
  | inl none_runs ↦ rw none_runs refl
  | inr (cur, runs) ↦ rw runs (ground arith)
]

env_run-others :
    (e : ℕ) (k : Kernel) → k.curenv ≡ some e → (j : ℕ) → j ≢ e → (env_run e k).envs j ≡ k.envs j
unfolding env_run
env_run-others e k runs j ne =
    let apart : (e == j) ≡ false = ==-ne e j (λ x. ne (sym x)) in
    rw (runs, apart)
      (elim (Bool-cases (is_running (k.envs e).env_status)) [
        | inl r ↦ rw (r, apart) refl
        | inr r ↦ rw r refl
      ])

upcall-run :
    (hw : Hardware) (u : UTrapframe) (cur esp : ℕ) (m : Mem) (k : Kernel)
    → k.curenv ≡ some cur
    → (k.envs cur).env_tf.tf_esp ≡ esp
    → hw.store esp (utrapframe_words u) k ≡ ok m
    → upcall hw u k
      ≡ ok (
        away (entered cur),
        env_run cur (set_env cur (set_upcall (k.envs cur)) (record k { mem = m })),
      )
unfolding upcall
upcall-run hw u cur esp m k runs at stored =
    let here : hw.store (k.envs cur).env_tf.tf_esp (utrapframe_words u) k ≡ ok m = rw at stored in
    ap
      (λ o. deref o >>= (λ cur. hw.store (k.envs cur).env_tf.tf_esp (utrapframe_words u) k >>= (λ m.
        ok (
          away (entered cur),
          env_run cur (set_env cur (set_upcall (k.envs cur)) (record k { mem = m })),
        ))))
      runs
    ∙ rw here refl

-- An access that is allowed goes on.
user_mem_assert-next :
    (va len perm cur : ℕ) (next : Call) (k : Kernel)
    → k.curenv ≡ some cur
    → user_mem_check (k.envs cur).env_pgdir va len (bit_or perm pte_u) k.mem ≡ ok none
    → user_mem_assert va len perm next k ≡ next k
unfolding user_mem_assert
user_mem_assert-next va len perm cur next k runs allowed = rw (runs, allowed) refl

nested_esp-sub : (esp : ℕ) → in_exception_stack esp ≡ true → nested_esp esp ≡ esp - 56
nested_esp-sub esp inside = ground arith

module _ (hw : Hardware) (tf : Trapframe) (cur : ℕ) (k : Kernel) (f : IsUserFault hw cur k) where
  abbrev ready : ℕ → Mem → Kernel
  ready esp m =
      set_env cur (set_upcall ((with_esp cur esp k).envs cur))
        (record (with_esp cur esp k) { mem = m })

  -- The kernel after the upcall was entered
  entered_at : ℕ → Mem → Kernel
  entered_at esp m = env_run cur (ready esp m)

  handler-push_frame : page_fault_handler hw tf k ≡ push_frame hw (fault_frame hw.rcr2 tf) cur k
  unfolding page_fault_handler
  handler-push_frame =
      let low = f.in_user in
      let set = f.handled in rw (lt→leb utop hw.rcr2 low, f.runs, ==-ne _ 0 set) refl

  upcall-entered_at :
      (esp : ℕ) (m : Mem)
      → hw.store esp (frame_words hw.rcr2 tf) (with_esp cur esp k) ≡ ok m
      → upcall hw (fault_frame hw.rcr2 tf) (with_esp cur esp k)
        ≡ ok (away (entered cur), entered_at esp m)
  unfolding entered_at
  upcall-entered_at esp m stored =
      upcall-run hw (fault_frame hw.rcr2 tf) cur esp m (with_esp cur esp k) f.runs
        (rw (==_refl cur) refl) stored

  handler-run :
      (esp : ℕ) (m : Mem)
      → FrameAt (k.envs cur).env_pgdir k.mem (k.envs cur).env_tf.tf_esp esp
      → hw.store esp (frame_words hw.rcr2 tf) (with_esp cur esp k) ≡ ok m
      → page_fault_handler hw tf k ≡ ok (away (entered cur), entered_at esp m)
  handler-run esp m (nested low high allowed) stored =
      let on : in_exception_stack (k.envs cur).env_tf.tf_esp ≡ true = ground arith in
      handler-push_frame
      ∙ rw (on, nested_esp-sub (k.envs cur).env_tf.tf_esp on)
          (user_mem_assert-next ((k.envs cur).env_tf.tf_esp - 56) 56 pte_w cur
              (upcall hw (fault_frame hw.rcr2 tf))
              (with_esp cur ((k.envs cur).env_tf.tf_esp - 56) k) f.runs (rw (==_refl cur) allowed)
            ∙ upcall-entered_at _ m stored)
  handler-run esp m (outside out) stored =
      let off : in_exception_stack (k.envs cur).env_tf.tf_esp ≡ false = ground arith in
      handler-push_frame ∙ rw off (upcall-entered_at 0xEEBFFFCC m stored)

  Upcalled-entered_at :
      (esp : ℕ) (m : Mem) → Upcalled cur esp m k (away (entered cur), entered_at esp m)
  unfolding entered_at env_run
  Upcalled-entered_at esp m = record {
    enters = refl;
    frame = env_tf-env_run cur (ready esp m) ∙ rw (==_refl cur) refl;
    memory = env_run-mem cur (ready esp m);
    current = refl;
    others = λ j ne.
        env_run-others cur (ready esp m) f.runs j ne ∙ rw (==-ne cur j (λ e. ne (sym e))) refl;
  }

  -- A fault below UTOP of a current environment that has an upcall. The frame goes 56 bytes below
  -- its stack pointer, if that is in the page below 0xEEC00000 and `user_mem_check` lets the user
  -- write to these bytes, and 52 bytes below the top of this page if the pointer is not in it. If
  -- the processor stores the 13 words of the frame (the address of the fault, its error code, the
  -- registers, the program counter, the flags and the stack pointer) there, the handler does not
  -- panic and enters the environment at its upcall, with the stack pointer at the frame and its
  -- other registers as they were; the memory is as the store left it, and the other environments
  -- are as before. For a pointer outside of the page the code does not ask whether the user may
  -- write there, contrary to the comment: a store that faults is not covered.
  pub page_fault_handler-Upcalled :
      (esp : ℕ) (m : Mem)
      → FrameAt (k.envs cur).env_pgdir k.mem (k.envs cur).env_tf.tf_esp esp
      → hw.store esp (frame_words hw.rcr2 tf) (with_esp cur esp k) ≡ ok m
      → (r : Ended × Kernel) × (page_fault_handler hw tf k ≡ ok r) × Upcalled cur esp m k r
  page_fault_handler-Upcalled esp m at stored = (
    (away (entered cur), entered_at esp m),
    handler-run esp m at stored,
    Upcalled-entered_at esp m,
  )
