-- ===== src/Sched/Running.antt =====
-- At most one environment is marked as running, and that is the current one.
use yu_os.Env.{Kernel, is_running, Status, is_runnable}
use yu_os.Env.Enter.{env_run, leave}
use yu_os.Prelude.{
  ℕ, Option, ◌≡◌, some, true, arith, false, Bool-cases, none, ◌==◌, refl, inl, ap, inr, ==_iff,
  ==_refl, ◌≢◌, ==-ne,
}
use yu_os.Sched.{sched_yield, Exit, first_of_circle, entered}
use yu_os.Sched.Circle.{Chosen, runs, resumes, gives_up, sched_yield-Chosen}

-- What every entry into the kernel relies on: only the current environment is ENV_RUNNING.
pub record OneRuns (k : Kernel) : Type 0 where
  pub only : (i : ℕ) → is_running (k.envs i).env_status ≡ true → k.curenv ≡ some i

-- After `leave` no environment is running.
leave-none :
    (k : Kernel) (cur : Option ℕ)
    → ((i : ℕ) → is_running (k.envs i).env_status ≡ true → cur ≡ some i)
    → (i : ℕ) → is_running ((leave cur k).envs i).env_status ≡ false
leave-none k none one i = elim (Bool-cases (is_running (k.envs i).env_status)) [
  | inl r ↦ absurd (let c = one i r in ground arith)
  | inr s ↦ s
]
leave-none k (some cur) one i = elim (Bool-cases (is_running (k.envs cur).env_status)) [
  | inl r ↦ elim (Bool-cases (cur == i)) [
    | inl here ↦ rw (r, here)
    | inr other ↦
        rw (r, other)
          (elim (Bool-cases (is_running (k.envs i).env_status)) [
            | inl q ↦ absurd (let c = one i q in ground arith)
            | inr s ↦ s
          ])
  ]
  | inr s ↦ rw s (elim (Bool-cases (is_running (k.envs i).env_status)) [
    | inl q ↦ absurd (let c = one i q in ground arith)
    | inr t ↦ t
  ])
]

leave-pgdir :
    (k : Kernel) (cur : Option ℕ) (e : ℕ) → ((leave cur k).envs e).env_pgdir ≡ (k.envs e).env_pgdir
leave-pgdir k none e = refl
leave-pgdir k (some cur) e = ground arith

-- If only the current environment is marked as running, `env_run` keeps it so: the environment that
-- it enters is the current one and is marked as running, and its address space is loaded.
pub env_run-OneRuns :
    (e : ℕ) (k : Kernel)
    → OneRuns k
    → OneRuns (env_run e k)
      × ((env_run e k).curenv ≡ some e)
      × (((env_run e k).envs e).env_status ≡ Status.running)
      × ((env_run e k).cr3 ≡ (k.envs e).env_pgdir)
unfolding env_run
env_run-OneRuns e k one = (
  record {
    only = λ i r. elim (Bool-cases (e == i)) [
      | inl here ↦ ap some ((==_iff e i).0 here)
      | inr other ↦ absurd (let quiet = leave-none k k.curenv one.only i in ground arith)
    ];
  },
  refl,
  rw (==_refl e),
  leave-pgdir k k.curenv e,
)

-- Entering an environment leaves its page directory.
pub env_pgdir-env_run :
    (e : ℕ) (k : Kernel) → ((env_run e k).envs e).env_pgdir ≡ (k.envs e).env_pgdir
unfolding env_run
env_pgdir-env_run e k = rw (==_refl e) (leave-pgdir k k.curenv e)

leave-tf : (k : Kernel) (cur : Option ℕ) (e : ℕ) → ((leave cur k).envs e).env_tf ≡ (k.envs e).env_tf
leave-tf k none e = refl
leave-tf k (some cur) e = ground arith

pub env_tf-env_run : (e : ℕ) (k : Kernel) → ((env_run e k).envs e).env_tf ≡ (k.envs e).env_tf
unfolding env_run
env_tf-env_run e k = rw (==_refl e) (leave-tf k k.curenv e)

-- `sched_yield` keeps it true that only the current environment is marked as running.
pub sched_yield-OneRuns : (k : Kernel) → OneRuns k → OneRuns (sched_yield k).0
sched_yield-OneRuns k one = kept (sched_yield-Chosen k)
  where
    kept : {r : Kernel × Exit} → Chosen k (first_of_circle k k.curenv) r → OneRuns r.0
    kept (runs {j} d e h q before) = (env_run-OneRuns j k one).0
    kept (resumes {j} e q before) = (env_run-OneRuns j k one).0
    kept (gives_up s before) = one

env_run-other :
    (j r : ℕ) (k : Kernel)
    → j ≢ r
    → is_running (k.envs r).env_status ≡ false
    → (env_run j k).envs r ≡ k.envs r
unfolding env_run
env_run-other j r k ne quiet = rw (==-ne j r ne) (left k.curenv)
  where
    left : (cur : Option ℕ) → (leave cur k).envs r ≡ k.envs r
    left none = refl
    left (some cur) = elim (Bool-cases (cur == r)) [
      | inl here ↦ rw ((==_iff cur r).0 here, quiet) refl
      | inr other ↦ elim (Bool-cases (is_running (k.envs cur).env_status)) [
        | inl q ↦ rw (q, other) refl
        | inr q ↦ rw q refl
      ]
    ]

-- `sched_yield` neither changes nor enters an environment that is neither runnable nor running.
pub sched_yield-blocked :
    (r : ℕ) (k : Kernel)
    → is_runnable (k.envs r).env_status ≡ false
    → is_running (k.envs r).env_status ≡ false
    → ((sched_yield k).0.envs r ≡ k.envs r) × ((sched_yield k).1 ≢ entered r)
sched_yield-blocked r k idle quiet = by_choice (sched_yield-Chosen k)
  where
    by_choice :
        {o : Kernel × Exit}
        → Chosen k (first_of_circle k k.curenv) o
        → (o.0.envs r ≡ k.envs r) × (o.1 ≢ entered r)
    by_choice (runs {j} d e h q before) =
        let ne : j ≢ r = λ same. ground arith in (env_run-other j r k ne quiet, λ same. ne (cc))
    by_choice (resumes {j} e q before) =
        let ne : j ≢ r = λ same. ground arith in (env_run-other j r k ne quiet, λ same. ne (cc))
    by_choice (gives_up s before) = (refl, λ same. cc)
