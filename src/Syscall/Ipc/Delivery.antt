-- ===== src/Syscall/Ipc/Delivery.antt =====
-- How sys_ipc_recv of kern/syscall.c waits.
use yu_os.Syscall.Ipc.{utop, sys_ipc_recv, waiting}
use yu_os.Prelude.{
  ℕ, false, ◌≡◌, some, ◌≢◌, ◌≤◌, ok, ◌∙◌, ◌<◌, ◌%◌, ◌⊎◌, ==_refl, ltb, ◌&&◌, not, ◌==◌, arith,
  lt→ltb, ==-ne,
}
use yu_os.Env.{Kernel, set_env, is_runnable, is_running}
use yu_os.Layout.{utop, err, pgsize, inval}
use yu_os.Syscall.{back, Exit, away}
use yu_os.Sched.{Exit, entered, sched_yield}
use yu_os.Sched.Running.{sched_yield-blocked}

-- `sys_ipc_recv` with a good address does not return to the caller: it waits, blocked, with 0 as
-- the result of the call, and the kernel goes on elsewhere. With an address below UTOP that is not
-- page-aligned it returns -E_INVAL and changes nothing.
pub ipc_recv_lem :
    (k : Kernel) (cur dstva : ℕ)
    → k.curenv ≡ some cur
    → ((dstva < utop) → (dstva % pgsize ≢ 0) → sys_ipc_recv dstva k ≡ ok (back (err inval), k))
      × ((utop ≤ dstva) ⊎ (dstva % pgsize ≡ 0)
          → (exit : Exit) × (k' : Kernel) × (sys_ipc_recv dstva k ≡ ok (away exit, k'))
            × (k'.envs cur ≡ waiting dstva (k.envs cur))
            × (exit ≢ entered cur))
unfolding sys_ipc_recv
ipc_recv_lem k cur dstva c = (
  λ low crooked. rw (lt→ltb dstva utop low, ==-ne _ 0 crooked),
  λ good. (
    (sched_yield blocked).1,
    (sched_yield blocked).0,
    rw (accepted good, c),
    (sched_yield-blocked cur blocked asleep quiet).0 ∙ rw (==_refl cur),
    (sched_yield-blocked cur blocked asleep quiet).1,
  ),
)
  where
    blocked : Kernel
    blocked = set_env cur (waiting dstva (k.envs cur)) k

    asleep : is_runnable (blocked.envs cur).env_status ≡ false
    asleep = rw (==_refl cur)

    quiet : is_running (blocked.envs cur).env_status ≡ false
    quiet = rw (==_refl cur)

    accepted :
        (utop ≤ dstva) ⊎ (dstva % pgsize ≡ 0)
        → (ltb dstva utop && not (dstva % pgsize == 0)) ≡ false
    accepted good = ground arith
