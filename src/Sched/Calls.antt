-- ===== src/Sched/Calls.antt =====
-- What the operations on environments do to the invariant that only the current one is running.
use yu_os.Env.{Kernel, Env, set_env, is_running, Status}
use yu_os.Sched.Running.{OneRuns, sched_yield-OneRuns, env_run-OneRuns, env_pgdir-env_run}
use yu_os.Env.Setup.{env_setup_vm, setup_page}
use yu_os.Env.Alloc.{env_alloc, alloc_slot, start_env, fresh_env}
use yu_os.Env.Free.{env_free, leave_space, free_tables}
use yu_os.Layout.{err, ret, pdx, utop, Reply}
use yu_os.Sched.{
  monitor, env_destroy, destroy_rest, ℕ, sched_yield, Exit, entered, first_of_circle, env_run,
}
use yu_os.Prelude.{
  ◌≡◌, ℕ, true, After, Bool-cases, ◌==◌, inl, arith, inr, Option, After-bind, update, false,
  After-any, some, ends, none, ==_refl, refl, ==_iff, sym, ◌∙◌,
}
use yu_os.Pmap.Alloc.{page_alloc, alloc_zero, page_decref}
use yu_os.Pmap.{page2kva, pa2page, page2pa, Mem}
use yu_os.Sched.Circle.{Chosen, runs, resumes, gives_up, sched_yield-Chosen}
use yu_os.Env.Enter.{env_run}

-- Only the environments and `curenv` count.
pub OneRuns-same :
    {k k' : Kernel} → k'.envs ≡ k.envs → k'.curenv ≡ k.curenv → OneRuns k → OneRuns k'
OneRuns-same envs cur one = record { only = λ i. rw (envs, cur) (one.only i) }

-- An assignment that marks nothing as running
pub OneRuns-set_env :
    (i : ℕ) (e : Env) {k : Kernel}
    → (is_running e.env_status ≡ true → is_running (k.envs i).env_status ≡ true)
    → OneRuns k
    → OneRuns (set_env i e k)
OneRuns-set_env i e {k} calm one = record {
  only = λ j h. elim (Bool-cases (i == j)) [
    | inl here ↦ one.only j (let c = calm in ground arith)
    | inr other ↦ one.only j (ground arith)
  ];
}

-- The environment that was freed does not run.
abbrev Quiet : ℕ → Kernel → Type 0
Quiet e k = OneRuns k × (is_running (k.envs e).env_status ≡ false)

Quiet-freed :
    (e : ℕ) (k k' : Kernel) (v : Env)
    → k'.curenv ≡ k.curenv
    → k'.envs ≡ update k.envs e v
    → is_running v.env_status ≡ false
    → OneRuns k
    → Quiet e k'
Quiet-freed e k k' v cur envs quiet one =
    (record { only = λ i. rw (envs, cur) (kept i) }, rw (envs, ==_refl e) quiet)
  where
    kept : (i : ℕ) → is_running (update k.envs e v i).env_status ≡ true → k.curenv ≡ some i
    kept i = elim (Bool-cases (e == i)) [
      | inl here ↦ rw (here, quiet) (λ h. absurd (cc))
      | inr other ↦ rw other (λ h. one.only i h)
    ]

leave_space_cur : (e : ℕ) (k : Kernel) (c : Option ℕ) → (leave_space e c k).curenv ≡ k.curenv
leave_space_cur e k none = refl
leave_space_cur e k (some cur) = elim (Bool-cases (e == cur)) [
  | inl h ↦ rw h refl
  | inr h ↦ rw h refl
]

abbrev freed_env : Kernel → Env → Env
freed_env k e = record e { env_pgdir = 0; env_status = Status.free; env_link = k.env_free_list }

Quiet-env_free : (e : ℕ) (k : Kernel) → OneRuns k → After (Quiet e) (env_free e k)
unfolding env_free
Quiet-env_free e k one = After-any (free_tables (k.envs e).env_pgdir 0 (pdx utop) k.mem) _ (λ m.
    After-any (pa2page (page2pa (k.envs e).env_pgdir) m) _ (λ page.
      After-any (page_decref page m) _ (λ m'.
        ends (
          Quiet-freed e k _ (freed_env k (k.envs e)) (leave_space_cur e k k.curenv) refl refl
            one))))

-- Where the kernel goes: the environment that is entered is the current one, is marked as running,
-- and its address space is in use.
abbrev pub Entered : Exit → Kernel → Type 0
Entered (entered e) k =
    (k.curenv ≡ some e) × ((k.envs e).env_status ≡ Status.running) × (k.cr3 ≡ (k.envs e).env_pgdir)
Entered monitor k = Unit {0}

-- The code goes on, or has left for a good place.
abbrev pub Left : Option Exit → Kernel → Type 0
Left none k = OneRuns k
Left (some exit) k = OneRuns k × Entered exit k

pub env_run-Entered : (e : ℕ) (k : Kernel) → OneRuns k → Entered (entered e) (env_run e k)
env_run-Entered e k one =
    let r = env_run-OneRuns e k one in (r.1, r.2, r.3 ∙ sym (env_pgdir-env_run e k))

pub Entered-sched_yield : (k : Kernel) → OneRuns k → Entered (sched_yield k).1 (sched_yield k).0
Entered-sched_yield k one = by_choice (sched_yield-Chosen k)
  where
    by_choice : {o : Kernel × Exit} → Chosen k (first_of_circle k k.curenv) o → Entered o.1 o.0
    by_choice (runs {j} d e h q before) = env_run-Entered j k one
    by_choice (resumes {j} e q before) = env_run-Entered j k one
    by_choice (gives_up s before) = tt

Left-destroy_rest :
    (e : ℕ) (k : Kernel) (cur : Option ℕ)
    → k.curenv ≡ cur
    → Quiet e k
    → Left (destroy_rest e k cur).1 (destroy_rest e k cur).0
Left-destroy_rest e k none c q = q.0
Left-destroy_rest e k (some cur) c q = elim (Bool-cases (cur == e)) [
  | inl here ↦ rw here (
    sched_yield-OneRuns (record k { curenv = none }) (alone here),
    Entered-sched_yield (record k { curenv = none }) (alone here),
  )
  | inr other ↦ rw other q.0
]
  where
    here_too : (cur == e) ≡ true → (i : ℕ) → is_running (k.envs i).env_status ≡ true → i ≡ e
    here_too here i h =
        let t : some cur ≡ some i = sym c ∙ q.0.only i h in
        let u : cur ≡ e = (==_iff cur e).0 here in cc

    alone : (cur == e) ≡ true → OneRuns (record k { curenv = none })
    alone here = record {
      only = λ i h. absurd (
          let u = q.1 in
          let w : is_running (k.envs e).env_status ≡ true = rw (← here_too here i h) h in cc);
    }

pub Left-env_destroy :
    (e : ℕ) (k : Kernel) → OneRuns k → After (λ r. Left r.1 r.0) (env_destroy e k)
unfolding env_destroy
Left-env_destroy e k one =
    After-bind (env_free e k) _ (Quiet-env_free e k one)
      (λ k' q. ends (Left-destroy_rest e k' k'.curenv refl q))

OneRuns-setup_page :
    (e : ℕ) (k : Kernel) (page : Option ℕ) (m : Mem)
    → OneRuns k
    → After (λ r. OneRuns r.1) (setup_page e k page m)
OneRuns-setup_page e k none m one = ends (OneRuns-same {k = k} refl refl one)
OneRuns-setup_page e k (some p) m one = After-any (page2kva p m) _ (λ pgdir. ends (
    OneRuns-set_env e (record (k.envs e) { env_pgdir = pgdir }) (λ h. h)
      (OneRuns-same {k = k} refl refl one)))

OneRuns-env_setup_vm :
    (e : ℕ) (k : Kernel) → OneRuns k → After (λ r. OneRuns r.1) (env_setup_vm e k)
unfolding env_setup_vm
OneRuns-env_setup_vm e k one =
    After-any (page_alloc alloc_zero k.mem) _ (λ (page, m). OneRuns-setup_page e k page m one)

OneRuns-start_env :
    (parent_id i : ℕ) (r : Reply ℕ) (k : Kernel) → OneRuns k → OneRuns (start_env parent_id i r k).1
OneRuns-start_env parent_id i (err e) k one = one
OneRuns-start_env parent_id i (ret v) k one =
    OneRuns-same {k = set_env i (fresh_env i parent_id (k.envs i)) k} refl refl
      (OneRuns-set_env i (fresh_env i parent_id (k.envs i)) (λ h. absurd (cc)) one)

OneRuns-alloc_slot :
    (parent_id : ℕ) (k : Kernel) (free : Option ℕ)
    → OneRuns k
    → After (λ r. OneRuns r.1) (alloc_slot parent_id k free)
unfolding alloc_slot
OneRuns-alloc_slot parent_id k none one = ends one
OneRuns-alloc_slot parent_id k (some i) one =
    After-bind (env_setup_vm i k) _ (OneRuns-env_setup_vm i k one)
      (λ (r, k') kept. ends (OneRuns-start_env parent_id i r k' kept))

pub OneRuns-env_alloc :
    (parent_id : ℕ) (k : Kernel) → OneRuns k → After (λ r. OneRuns r.1) (env_alloc parent_id k)
unfolding env_alloc
OneRuns-env_alloc parent_id k one = OneRuns-alloc_slot parent_id k k.env_free_list one
