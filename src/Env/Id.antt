-- ===== src/Env/Id.antt =====
-- Environment ids: envid2env, and the id that env_alloc makes.
use yu_os.Prelude.{
  ℕ, ◌≡◌, Bool, Option, ◌≢◌, Run, ◌⊎◌, some, false, panic, true, ok, not, if◌then◌else◌, ◌↔◌, ◌==◌,
  ◌||◌, ◌&&◌, none, arith, ◌>>=◌,
}
use yu_os.Env.{Kernel, envx, Option, Bool, is_free, false, true}
use yu_os.Layout.{Reply, ret, err, bad_env}

-- `e != curenv && e->env_parent_id != curenv->env_id`, for the environment at index `i`. With no
-- current environment the second test reads through NULL, which is a fault in the kernel.
abbrev pub lacks_permission : ℕ → Kernel → Option ℕ → Run Bool
lacks_permission i k none = panic
lacks_permission i k (some cur) =
    ok (not (i == cur) && not ((k.envs i).env_parent_id == (k.envs cur).env_id))

-- The value stored in `*env_store`, or the error. NULL stands for a `curenv` that is NULL.
unfoldable pub envid2env : ℕ → Bool → Kernel → Run (Reply (Option ℕ))
envid2env envid checkperm k =
    if envid == 0
    then ok (ret k.curenv)
    else if is_free (k.envs (envx envid)).env_status || not ((k.envs (envx envid)).env_id == envid)
    then ok (err bad_env)
    else if not checkperm
    then ok (ret (some (envx envid)))
    else (do
      denied ← lacks_permission (envx envid) k k.curenv
      if denied then ok (err bad_env) else ok (ret (some (envx envid))))

-- An id names an environment in use: its slot is in use and holds this id.
pub record Names (k : Kernel) (envid i : ℕ) : Type 0 where
  pub index : envx envid ≡ i
  pub used : is_free (k.envs i).env_status ≡ false
  pub holds : (k.envs i).env_id ≡ envid

-- The current environment may act on itself and on its children.
abbrev pub May : Kernel → ℕ → ℕ → Type 0
May k cur i = (i ≡ cur) ⊎ ((k.envs i).env_parent_id ≡ (k.envs cur).env_id)

-- With the permission check, while an environment runs, and with an id other than 0, `envid2env`
-- stores an environment exactly if the id names it and it is the current one or a child of it.
pub envid2env_checked :
    (k : Kernel) (cur envid i : ℕ)
    → k.curenv ≡ some cur
    → envid ≢ 0
    → (envid2env envid true k ≡ ok (ret (some i))) ↔ (Names k envid i × May k cur i)
unfolding envid2env
envid2env_checked k cur envid i c ne = (λ h. ground arith, λ h. ground arith)

-- Without the permission check, and with an id other than 0, `envid2env` stores an environment
-- exactly if the id names it.
pub envid2env_unchecked :
    (k : Kernel) (envid i : ℕ)
    → envid ≢ 0
    → (envid2env envid false k ≡ ok (ret (some i))) ↔ Names k envid i
unfolding envid2env
envid2env_unchecked k envid i ne = (λ h. ground arith, λ n. ground arith)

-- While an environment runs `envid2env` does not fault: it stores an environment or returns
-- -E_BAD_ENV.
pub envid2env_total :
    (k : Kernel) (cur envid : ℕ) (checkperm : Bool)
    → k.curenv ≡ some cur
    → (envid2env envid checkperm k ≡ ok (err bad_env))
      ⊎ ((i : ℕ) × (envid2env envid checkperm k ≡ ok (ret (some i))))
unfolding envid2env
envid2env_total k cur envid checkperm c = ground arith
