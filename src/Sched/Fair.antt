-- ===== src/Sched/Fair.antt =====
-- Every runnable environment gets its turn: what the circular order of sched_yield comes to.
use yu_os.Prelude.{
  ℕ, ◌+◌, ◌<◌, ◌≡◌, ◌-◌, some, arith, ◌≢◌, true, ◌%◌, refl, suc, ◌==◌, false, Bool-cases, ltb, inl,
  ltb→lt, inr, ap, ==_iff, ◌∙◌, Option, sym, none, zero,
}
use yu_os.Env.Enter.{env_run}
use yu_os.Env.{Kernel, nenv, is_runnable, envx}
use yu_os.Sched.{Exit, entered, sched_yield, first_of_circle}
use yu_os.Sched.Circle.{place, Chosen, runs, resumes, gives_up, sched_yield-Chosen, Idle}

-- The rounds from the first place of the circle to slot `r`
abbrev pub distance : ℕ → ℕ → ℕ
distance first r = (r + nenv - first) % nenv

-- A run of the kernel, by its state at each call of `sched_yield`: between two calls anything may
-- happen, but that the environment that was entered stays the current one, with an id that stands for
-- its slot, and that slot `r` stays runnable until it is entered.
pub record IsRun (ks : ℕ → Kernel) (r : ℕ) : Type 0 where
  pub is_slot : r < nenv
  pub named : (n cur : ℕ) → (ks n).curenv ≡ some cur → envx ((ks n).envs cur).env_id ≡ cur
  pub goes_on : (n : ℕ) → (ks (suc n)).curenv ≡ (sched_yield (ks n)).0.curenv
  pub ready :
      (n : ℕ)
      → ((m : ℕ) → m < n → (sched_yield (ks m)).1 ≢ entered r)
      → is_runnable ((ks n).envs r).env_status ≡ true

curenv-env_run : (e : ℕ) (k : Kernel) → (env_run e k).curenv ≡ some e
unfolding env_run
curenv-env_run e k = refl

-- One call enters slot `r`, or a slot that stands before it in the circle.
data Turn (first r : ℕ) (o : Kernel × Exit) : Type 0 where
  its_turn : o.1 ≡ entered r → Turn first r o
  others_turn :
      {j : ℕ}
      → o.1 ≢ entered r
      → o.0.curenv ≡ some j
      → distance ((j + 1) % nenv) r < distance first r
      → Turn first r o

place_distance : (first r : ℕ) → first < nenv → r < nenv → place first (distance first r) ≡ r
place_distance first r h g = omega arith

never-Idle :
    (k : Kernel) (first r n : ℕ)
    → first < nenv
    → r < nenv
    → is_runnable (k.envs r).env_status ≡ true
    → distance first r < n
    → ¬ Idle k.envs first n
never-Idle k first r n h g ready lt idle =
    let quiet = idle (distance first r) lt in
    let here : place first (distance first r) ≡ r = place_distance first r h g in
    let u : is_runnable (k.envs r).env_status ≡ false = rw (← here) quiet in cc

Turn-Chosen :
    (k : Kernel) (first r : ℕ) {o : Kernel × Exit}
    → first < nenv
    → r < nenv
    → is_runnable (k.envs r).env_status ≡ true
    → Chosen k first o
    → Turn first r o
Turn-Chosen k first r h g ready (runs {j} d e lt run before) = elim (Bool-cases (j == r)) [
  | inl same ↦ its_turn (ap entered ((==_iff j r).0 same))
  | inr other ↦
      let ne : j ≢ r = ground arith in
      others_turn (λ eq. ne (cc)) (curenv-env_run j k) (nearer (no_later other))
]
  where
    no_later : (j == r) ≡ false → d < distance first r
    no_later other = elim (Bool-cases (ltb d (distance first r))) [
      | inl lt ↦ ltb→lt d (distance first r) lt
      | inr ge ↦ elim (Bool-cases (ltb (distance first r) d)) [
        | inl late ↦
            absurd (never-Idle k first r d h g ready (ltb→lt (distance first r) d late) before)
        | inr le ↦
            let at : d ≡ distance first r = ground arith in
            let here : place first (distance first r) ≡ r = place_distance first r h g in
            absurd (let same : j ≡ r = sym e ∙ ap (place first) at ∙ here in ground arith)
      ]
    ]

    nearer : d < distance first r → distance ((j + 1) % nenv) r < distance first r
    nearer lt = omega arith
Turn-Chosen k first r h g ready (resumes e q before) =
    absurd (never-Idle k first r nenv h g ready (omega arith) before)
Turn-Chosen k first r h g ready (gives_up s before) =
    absurd (never-Idle k first r nenv h g ready (omega arith) before)

first_lt : (k : Kernel) (cur : Option ℕ) → first_of_circle k cur < nenv
first_lt k none = omega arith
first_lt k (some cur) = omega arith

module _ (ks : ℕ → Kernel) (r : ℕ) (run : IsRun ks r) where
  abbrev first_at : ℕ → ℕ
  first_at n = first_of_circle (ks n) (ks n).curenv

  abbrev Enters : ℕ → Type 0
  Enters n = (sched_yield (ks n)).1 ≡ entered r

  next_first :
      (n j : ℕ) → (sched_yield (ks n)).0.curenv ≡ some j → first_at (suc n) ≡ (j + 1) % nenv
  next_first n j e =
      let cur : (ks (suc n)).curenv ≡ some j = run.goes_on n ∙ e in
      ap (first_of_circle (ks (suc n))) cur ∙ ap (λ i. (i + 1) % nenv) (run.named (suc n) j cur)

  Enters-within :
      (fuel n : ℕ)
      → distance (first_at n) r < fuel
      → ((m : ℕ) → m < n → ¬ Enters m)
      → (i : ℕ) × (i < n + fuel) × Enters i
  Enters-within zero n h before = absurd (omega arith)
  Enters-within (suc fuel) n h before =
      by_turn
        (Turn-Chosen (ks n) (first_at n) r (first_lt (ks n) (ks n).curenv) run.is_slot
          (run.ready n before) (sched_yield-Chosen (ks n)))
        (Enters-within fuel (suc n))
    where
      by_turn :
          Turn (first_at n) r (sched_yield (ks n))
          → (distance (first_at (suc n)) r < fuel
              → ((m : ℕ) → m < suc n → ¬ Enters m)
              → (i : ℕ) × (i < suc n + fuel) × Enters i)
          → (i : ℕ) × (i < n + suc fuel) × Enters i
      by_turn (its_turn e) rest = (n, omega arith, e)
      by_turn (others_turn {j} ne e lt) rest =
          let f = next_first n j e in
          let t = rest (rw f (omega arith)) (λ m lt. elim (Bool-cases (m == n)) [
            | inl same ↦ rw ((==_iff m n).0 same) ne
            | inr other ↦ before m (ground arith)
          ]) in
          (t.0, (let b = t.1 in omega arith), t.2)

  -- In a run in which the environment that was entered is the current one at the next call of
  -- `sched_yield`, ids stand for slots, and slot `r` stays runnable until it is entered, one of the
  -- first NENV calls enters slot `r`.
  pub sched_yield-enters : (n : ℕ) × (n < nenv) × ((sched_yield (ks n)).1 ≡ entered r)
  sched_yield-enters = Enters-within nenv 0 (omega arith) (λ m lt. absurd (omega arith))
