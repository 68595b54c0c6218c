-- ===== src/Syscall/Rights.antt =====
-- Who may change whom: the permission check of the calls that change an environment.
use yu_os.Syscall.EnvCalls.{
  sys_env_set_status, sys_env_destroy, sys_env_set_trapframe, sys_env_set_pgfault_upcall,
}
use yu_os.Env.{Kernel, Trapframe, set_env, Status}
use yu_os.Syscall.{with_env, ℕ, Call, back, err}
use yu_os.Prelude.{ℕ, ◌≡◌, some, ok, ◌≢◌, true, false, if◌then◌else◌, ◌==◌, inl, inr, Bool-cases}
use yu_os.Env.Id.{Names, May, envid2env_unchecked, envid2env_checked, envid2env_total}
use yu_os.Layout.{err, bad_env, ret, inval}

-- The environment `cur` runs, and no environment that it may act on has the id `envid`.
pub record IsStranger (k : Kernel) (cur envid : ℕ) : Type 0 where
  pub runs : k.curenv ≡ some cur
  pub other : envid ≢ 0
  pub denied : (i : ℕ) → ¬ (Names k envid i × May k cur i)

pub with_env-denied :
    (k : Kernel) (cur envid : ℕ) (next : ℕ → Call)
    → IsStranger k cur envid
    → with_env envid true next k ≡ ok (back (err bad_env), k)
unfolding with_env
with_env-denied k cur envid next s = elim (envid2env_total k cur envid true s.runs) [
  | inl e ↦ rw e
  | inr (i, e) ↦ absurd (s.denied i ((envid2env_checked k cur envid i s.runs s.other).0 e))
]

-- With the permission check the code behind it runs on the environment that the id names.
pub with_env-granted :
    (k : Kernel) (cur envid i : ℕ) (next : ℕ → Call)
    → k.curenv ≡ some cur
    → envid ≢ 0
    → Names k envid i
    → May k cur i
    → with_env envid true next k ≡ next i k
unfolding with_env
with_env-granted k cur envid i next c ne n m = rw ((envid2env_checked k cur envid i c ne).1 (n, m))

pub with_env_unchecked :
    (k : Kernel) (envid i : ℕ) (next : ℕ → Call)
    → envid ≢ 0
    → Names k envid i
    → with_env envid false next k ≡ next i k
unfolding with_env
with_env_unchecked k envid i next ne n = rw ((envid2env_unchecked k envid i ne).1 n)

-- The calls that destroy an environment or set its status (to 2 or 4), its registers or its
-- page-fault handler return -E_BAD_ENV and change nothing, if the id, which is not 0, names no
-- environment that the caller may act on.
pub strangers_protected :
    (k : Kernel) (cur envid : ℕ)
    → IsStranger k cur envid
    → (sys_env_destroy envid k ≡ ok (back (err bad_env), k))
      × (sys_env_set_status envid 2 k ≡ ok (back (err bad_env), k))
      × (sys_env_set_status envid 4 k ≡ ok (back (err bad_env), k))
      × ((tf : Trapframe) → sys_env_set_trapframe envid tf k ≡ ok (back (err bad_env), k))
      × ((func : ℕ) → sys_env_set_pgfault_upcall envid func k ≡ ok (back (err bad_env), k))
unfolding sys_env_destroy sys_env_set_status sys_env_set_trapframe sys_env_set_pgfault_upcall
strangers_protected k cur envid s = (
  with_env-denied k cur envid _ s,
  with_env-denied k cur envid _ s,
  with_env-denied k cur envid _ s,
  λ tf. with_env-denied k cur envid _ s,
  λ func. with_env-denied k cur envid _ s,
)

-- For an id other than 0 that names an environment the caller may act on, `sys_env_set_status` sets
-- the status if that is ENV_RUNNABLE (2) or ENV_NOT_RUNNABLE (4), and else returns -E_INVAL and
-- changes nothing.
pub set_status_lem :
    (k : Kernel) (cur envid i status : ℕ)
    → k.curenv ≡ some cur
    → envid ≢ 0
    → Names k envid i
    → May k cur i
    → sys_env_set_status envid status k ≡ (
        if status == 2
        then ok (back (ret 0), set_env i (record (k.envs i) { env_status = Status.runnable }) k)
        else if status == 4
        then ok (back (ret 0), set_env i (record (k.envs i) { env_status = Status.not_runnable }) k)
        else ok (back (err inval), k))
unfolding sys_env_set_status
set_status_lem k cur envid i status c ne n m = elim (Bool-cases (status == 2)) [
  | inl run ↦ rw run (with_env-granted k cur envid i _ c ne n m)
  | inr other ↦ rw other (elim (Bool-cases (status == 4)) [
    | inl stop ↦ rw stop (with_env-granted k cur envid i _ c ne n m)
    | inr bad ↦ rw bad
  ])
]
