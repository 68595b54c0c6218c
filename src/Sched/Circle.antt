-- ===== src/Sched/Circle.antt =====
-- Which environment sched_yield picks: the first in circular order that can run.
use yu_os.Prelude.{
  ℕ, ◌+◌, ◌%◌, ◌<◌, ◌≡◌, arith, true, false, suc, ==_iff, ==-ne, Bool-cases, inl, inr, zero, ◌-◌,
  Option, refl, some, none,
}
use yu_os.Sched.{
  scan_envs, Env, Scan, picked, at_start, sched_yield, Exit, first_of_circle, env_run, entered,
  monitor, after_scan, last_of_circle, run_start,
}
use yu_os.Env.{Env, is_runnable, nenv, Kernel, is_running}
use native.Mathlib.Decide.{ℕ_discrete}
use yu_os.Env.Enter.{env_run}

-- The place that the loop looks at in round `d`
abbrev pub place : ℕ → ℕ → ℕ
place i d = (i + d) % nenv

module _ (envs : ℕ → Env) where
  -- The first `d` places from `i` on hold no runnable environment.
  abbrev pub Idle : ℕ → ℕ → Type 0
  Idle i d = (c : ℕ) → c < d → is_runnable (envs (place i c)).env_status ≡ false

  -- The loop's outcome: it stops at the first place with a runnable environment, or, when none of
  -- the `steps` places before `start` has one, at `start`.
  data Outcome (i steps : ℕ) : Scan → Type 0 where
    stops :
        {j : ℕ} (d : ℕ)
        → place i d ≡ j
        → d < steps
        → is_runnable (envs j).env_status ≡ true
        → Idle i d
        → Outcome i steps (picked j)
    passes : Idle i steps → Outcome i steps at_start

  Idle-suc :
      (i d : ℕ)
      → i < nenv
      → is_runnable (envs i).env_status ≡ false
      → Idle ((i + 1) % nenv) d
      → Idle i (suc d)
  Idle-suc i d hi idle rest zero h = let e : place i 0 ≡ i = omega arith in rw e idle
  Idle-suc i d hi idle rest (suc c) h =
      let e : place i (suc c) ≡ place ((i + 1) % nenv) c = omega arith in
      rw e (rest c (omega arith))

  Outcome-suc :
      (i steps : ℕ) {s : Scan}
      → i < nenv
      → is_runnable (envs i).env_status ≡ false
      → Outcome ((i + 1) % nenv) steps s
      → Outcome i (suc steps) s
  Outcome-suc i steps hi idle (stops d e h r before) =
      stops (suc d) (omega arith) (omega arith) r (Idle-suc i d hi idle before)
  Outcome-suc i steps hi idle (passes before) = passes (Idle-suc i steps hi idle before)

  scan_envs-Outcome :
      (n steps i start : ℕ)
      → i < nenv
      → steps < nenv
      → place i steps ≡ start
      → steps < n
      → Outcome i steps (scan_envs n envs i start)
  unfolding scan_envs
  scan_envs-Outcome zero steps i start hi hs e h = absurd (omega arith)
  scan_envs-Outcome (suc n) zero i start hi hs e h =
      rw ((==_iff i start).1 (omega arith)) (passes (λ c q. absurd (omega arith)))
  scan_envs-Outcome (suc n) (suc steps) i start hi hs e h =
      rw (==-ne i start (omega arith)) (elim (Bool-cases (is_runnable (envs i).env_status)) [
        | inl r ↦ rw r (stops 0 (omega arith) (omega arith) r (λ c q. absurd (omega arith)))
        | inr idle ↦ rw idle (
            Outcome-suc i steps hi idle (
              scan_envs-Outcome n steps ((i + 1) % nenv) start (omega arith) (omega arith)
                (omega arith) (omega arith)))
      ])

-- What `sched_yield` does, from the first place `i` of the circle, the last being `place i 1023`
pub data Chosen (k : Kernel) (i : ℕ) : Kernel × Exit → Type 0 where
  -- it enters the first runnable environment,
  runs :
      {j : ℕ} (d : ℕ)
      → place i d ≡ j
      → d < nenv
      → is_runnable (k.envs j).env_status ≡ true
      → Idle k.envs i d
      → Chosen k i (env_run j k, entered j)
  -- or else the environment that was running,
  resumes :
      {j : ℕ}
      → place i (nenv - 1) ≡ j
      → is_running (k.envs j).env_status ≡ true
      → Idle k.envs i nenv
      → Chosen k i (env_run j k, entered j)
  -- or else the monitor.
  gives_up :
      is_running (k.envs (place i (nenv - 1))).env_status ≡ false
      → Idle k.envs i nenv
      → Chosen k i (k, monitor)

Idle-last :
    (envs : ℕ → Env) (i : ℕ)
    → Idle envs i (nenv - 1)
    → is_runnable (envs (place i (nenv - 1))).env_status ≡ false
    → Idle envs i nenv
Idle-last envs i before last c h = elim (ℕ_discrete c (nenv - 1)) [
  | yes e ↦ rw e last
  | no other ↦ before c (omega arith)
]

run_start-Chosen :
    (k : Kernel) (i : ℕ) → Idle k.envs i (nenv - 1) → Chosen k i (run_start (place i (nenv - 1)) k)
run_start-Chosen k i before =
    elim (Bool-cases (is_runnable (k.envs (place i (nenv - 1))).env_status)) [
      | inl r ↦ rw r (runs (nenv - 1) refl (omega arith) r before)
      | inr idle ↦
          rw idle (elim (Bool-cases (is_running (k.envs (place i (nenv - 1))).env_status)) [
            | inl r ↦ rw r (resumes refl r (Idle-last k.envs i before idle))
            | inr s ↦ rw s (gives_up s (Idle-last k.envs i before idle))
          ])
    ]

after_scan-Chosen :
    (k : Kernel) (i start : ℕ) {s : Scan}
    → place i (nenv - 1) ≡ start
    → Outcome k.envs i (nenv - 1) s
    → Chosen k i (after_scan start k s)
after_scan-Chosen k i start e (stops d p h r before) = runs d p (omega arith) r before
after_scan-Chosen k i start e (passes before) = rw (← e) (run_start-Chosen k i before)

circle_ends :
    (k : Kernel) (cur : Option ℕ)
    → (first_of_circle k cur < nenv)
      × (place (first_of_circle k cur) (nenv - 1) ≡ last_of_circle k cur)
circle_ends k none = (omega arith, refl)
circle_ends k (some cur) = (omega arith, omega arith)

-- `sched_yield` looks at every environment once, in circular order from the one after the current
-- environment (from the first, if there is none), and enters the first runnable one. Only if no
-- environment is runnable does it go on with the last one looked at, if that is running, and if not
-- it calls the monitor.
pub sched_yield-Chosen : (k : Kernel) → Chosen k (first_of_circle k k.curenv) (sched_yield k)
unfolding sched_yield
sched_yield-Chosen k =
    let ends = circle_ends k k.curenv in
    after_scan-Chosen k (first_of_circle k k.curenv) (last_of_circle k k.curenv) ends.1 (
      scan_envs-Outcome k.envs nenv (nenv - 1) (first_of_circle k k.curenv)
        (last_of_circle k k.curenv) ends.0 (omega arith) ends.1 (omega arith))
