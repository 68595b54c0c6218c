-- ===== src/Tests/EnvExamples.antt =====
-- The theorems on environments and the scheduler at the small machine.
use yu_os.Tests.Machine.{kernel, mem-IsFreeList, idle}
use yu_os.Env.{Kernel, envx, nenv, is_runnable, Status}
use yu_os.Env.Id.{envid2env, Names, May, envid2env_checked}
use yu_os.Prelude.{
  ◌≡◌, ◌<◌, none, ◌≢◌, true, ok, some, ◌↔◌, refl, arith, ◌∷◌, [], ℕ, if◌then◌else◌, suc, ◌==◌, zero,
}
use yu_os.Sched.Circle.{Chosen, sched_yield-Chosen}
use yu_os.Sched.{sched_yield, first_of_circle, entered, scan_envs}
use yu_os.Env.Alloc.{env_alloc}
use yu_os.Layout.{ret}
use yu_os.Env.Alloc.Outcome.{NewEnv, env_alloc_lem}
use yu_os.Sched.Fair.{sched_yield-enters, IsRun}
use yu_os.Env.Enter.{env_run}

env_alloc_lem_example :
    (k' : Kernel) × (env_alloc 0x1000 kernel ≡ ok (ret 2, k'))
    × NewEnv 0x1000 2 8 (9 ∷ []) kernel k'
env_alloc_lem_example =
    env_alloc_lem 0x1000 2 8 (9 ∷ []) kernel refl (omega arith) (omega arith) mem-IsFreeList
      (omega arith)

envid2env_checked_example :
    (envid2env 0x1001 true kernel ≡ ok (ret (some 1))) ↔ (Names kernel 0x1001 1 × May kernel 0 1)
envid2env_checked_example = envid2env_checked kernel 0 0x1001 1 refl (omega arith)

sched_yield-Chosen_example :
    Chosen kernel (first_of_circle kernel kernel.curenv) (sched_yield kernel)
sched_yield-Chosen_example = sched_yield-Chosen kernel

-- The kernel before the environments are set up
abbrev booting : Kernel
booting = record kernel { env_free_list = none; curenv = none }

-- Environment 1 is runnable while 0 runs; once it has been entered, it runs alone.
abbrev waits_for_turn : Kernel
waits_for_turn = record kernel {
  envs = λ i.
      if i == 0
      then record idle { env_id = 0x1000; env_status = Status.running }
      else if i == 1
      then record idle { env_id = 0x1001; env_status = Status.runnable }
      else idle;
}

abbrev runs_alone : Kernel
runs_alone = record kernel {
  curenv = some 1;
  envs = λ i. if i == 1 then record idle { env_id = 0x1001; env_status = Status.running } else idle;
}

abbrev turns : ℕ → Kernel
turns zero = waits_for_turn
turns (suc n) = runs_alone

turns_named : (n cur : ℕ) → (turns n).curenv ≡ some cur → envx ((turns n).envs cur).env_id ≡ cur
turns_named zero cur e = ground arith
turns_named (suc n) cur e = ground arith

turns_go_on : (n : ℕ) → (turns (suc n)).curenv ≡ (sched_yield (turns n)).0.curenv
unfolding sched_yield scan_envs env_run
turns_go_on zero = refl
turns_go_on (suc n) = refl

first_turn : (sched_yield (turns 0)).1 ≡ entered 1
unfolding sched_yield scan_envs
first_turn = refl

turns-IsRun : IsRun turns 1
turns-IsRun = record {
  is_slot = omega arith;
  named = turns_named;
  goes_on = turns_go_on;
  ready = ready;
}
  where
    ready :
        (n : ℕ)
        → ((m : ℕ) → m < n → (sched_yield (turns m)).1 ≢ entered 1)
        → is_runnable ((turns n).envs 1).env_status ≡ true
    ready zero before = refl
    ready (suc n) before = absurd (before 0 (omega arith) first_turn)

sched_yield-enters_example : (n : ℕ) × (n < nenv) × ((sched_yield (turns n)).1 ≡ entered 1)
sched_yield-enters_example = sched_yield-enters turns 1 turns-IsRun
