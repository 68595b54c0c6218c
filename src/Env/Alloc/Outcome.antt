-- ===== src/Env/Alloc/Outcome.antt =====
-- What env_alloc of kern/env.c returns and leaves, on each of its paths.
use yu_os.Env.Setup.Directory.{NewDirectory, env_setup_vm_lem}
use yu_os.Env.Setup.{env_setup_vm}
use yu_os.Prelude.{
  ℕ, List, ◌<◌, ◌∷◌, ◌≡◌, ◌≢◌, update, none, ok, refl, inl, inr, ◌∙◌, ==-ne, ==_refl, sym, some,
  ◌==◌, [], ◌⊎◌, ap, Option-cases, ◌^◌, false, ◌%◌,
}
use yu_os.Env.Alloc.Ids.{new_id_lem}
use yu_os.Env.{Kernel, nenv, Status, Env, Trapframe, update, set_env, false}
use yu_os.Pmap.Alloc.FreeList.{IsFreeList, page_alloc_empty}
use yu_os.Layout.{ret, err, no_free_env, no_mem}
use yu_os.Pmap.Alloc.{alloc_zero}
use yu_os.Env.Alloc.{env_alloc, some, fresh_env, err, no_free_env, alloc_slot}

-- The registers of an environment that has not run: user segments with privilege level 3,
-- interrupts enabled, the stack pointer at USTACKTOP, and all others 0
abbrev pub IsUserFrame : Trapframe → Type 0
IsUserFrame tf =
    (tf.tf_ds ≡ 0x23)
    × (tf.tf_es ≡ 0x23)
    × (tf.tf_ss ≡ 0x23)
    × (tf.tf_cs ≡ 0x1B)
    × (tf.tf_esp ≡ 0xEEBFE000)
    × (tf.tf_eflags ≡ 0x200)
    × (tf.tf_eip ≡ 0)
    × (tf.tf_trapno ≡ 0)
    × (tf.tf_err ≡ 0)
    × (tf.tf_regs ≡ record {
      reg_edi = 0;
      reg_esi = 0;
      reg_ebp = 0;
      reg_oesp = 0;
      reg_ebx = 0;
      reg_edx = 0;
      reg_ecx = 0;
      reg_eax = 0;
    })

-- A new environment in slot `i`, which held `old`
pub record IsFresh (parent_id i p : ℕ) (old new : Env) : Type 0 where
  pub positive : 0 < new.env_id
  pub signed : new.env_id < 2 ^ 31
  pub slot : new.env_id % 1024 ≡ i
  pub another : new.env_id ≢ old.env_id
  pub parent : new.env_parent_id ≡ parent_id
  pub status : new.env_status ≡ Status.runnable
  pub runs : new.env_runs ≡ 0
  pub upcall : new.env_pgfault_upcall ≡ 0
  pub pgdir : new.env_pgdir ≡ p
  pub frame : IsUserFrame new.env_tf
  pub kind : new.env_type ≡ old.env_type
  pub messages :
      (new.env_ipc_recving ≡ old.env_ipc_recving)
      × (new.env_ipc_dstva ≡ old.env_ipc_dstva)
      × (new.env_ipc_value ≡ old.env_ipc_value)
      × (new.env_ipc_from ≡ old.env_ipc_from)
      × (new.env_ipc_perm ≡ old.env_ipc_perm)

-- What a successful `env_alloc` leaves: the slot holds a fresh environment with a new directory and
-- has left the free list.
pub record NewEnv (parent_id i p : ℕ) (rest : List ℕ) (k k' : Kernel) : Type 0 where
  pub directory : NewDirectory p k k'.mem
  pub pages : IsFreeList k'.mem rest
  pub refs : k'.mem.pp_ref ≡ update k.mem.pp_ref p 1
  pub fresh : IsFresh parent_id i p (k.envs i) (k'.envs i)
  pub others : (j : ℕ) → j ≢ i → k'.envs j ≡ k.envs j
  pub list : k'.env_free_list ≡ (k.envs i).env_link
  pub current : k'.curenv ≡ k.curenv

IsFresh-fresh_env :
    (parent_id i p : ℕ) (e : Env)
    → i < nenv
    → e.env_id < 2 ^ 31
    → IsFresh parent_id i p e (fresh_env i parent_id (record e { env_pgdir = p }))
IsFresh-fresh_env parent_id i p e h small =
    let id = new_id_lem i e.env_id h small in
    record {
      positive = id.0;
      signed = id.1;
      slot = id.2;
      another = id.3;
      parent = refl;
      status = refl;
      runs = refl;
      upcall = refl;
      pgdir = refl;
      frame = (refl, refl, refl, refl, refl, refl, refl, refl, refl, refl);
      kind = refl;
      messages = (refl, refl, refl, refl, refl);
    }

-- With a free slot, whose last id is not negative, and a free page that is not the kernel's
-- directory, `env_alloc` returns the first slot of the free list. The environment in it has a
-- positive id that differs from the last one and names the slot, the given parent, the status
-- runnable, no runs and no upcall, user segments, a stack at 0xEEBFE000, interrupts enabled and all
-- other registers 0; its type and the fields for messages are as the last environment left them.
-- The first free page is its directory: empty below UTOP, above it that of the kernel but for entry
-- 957, which names the directory itself, present and readable for the user. Every other environment
-- is as before.
pub env_alloc_lem :
    (parent_id i p : ℕ) (rest : List ℕ) (k : Kernel)
    → k.env_free_list ≡ some i
    → i < nenv
    → (k.envs i).env_id < 2 ^ 31
    → IsFreeList k.mem (p ∷ rest)
    → k.kern_pgdir ≢ p
    → (k' : Kernel) × (env_alloc parent_id k ≡ ok (ret i, k')) × NewEnv parent_id i p rest k k'
unfolding env_alloc
env_alloc_lem parent_id i p rest k first h small v ne =
    let (k1, run, s) = env_setup_vm_lem p rest k ne i v in
    (
      record (set_env i (fresh_env i parent_id (k1.envs i)) k1) {
        env_free_list = (k1.envs i).env_link;
      },
      ap (alloc_slot parent_id k) first ∙ rw run refl,
      record {
        directory = s.directory;
        pages = s.pages;
        refs = s.refs;
        fresh = rw (s.envs, ==_refl i) (IsFresh-fresh_env parent_id i p (k.envs i) h small);
        others = λ j other.
            let apart : (i == j) ≡ false = ==-ne i j (λ e. other (sym e)) in
            rw (s.envs, apart) refl;
        list = rw (s.envs, ==_refl i);
        current = s.current;
      },
    )

-- With no free slot `env_alloc` returns -E_NO_FREE_ENV, with a slot but no free page -E_NO_MEM;
-- nothing changes.
pub env_alloc_fails :
    (parent_id : ℕ) (k : Kernel)
    → ((k.env_free_list ≡ none) → env_alloc parent_id k ≡ ok (err no_free_env, k))
      × ((k.env_free_list ≢ none)
          → IsFreeList k.mem []
          → env_alloc parent_id k ≡ ok (err no_mem, k))
unfolding env_alloc env_setup_vm
env_alloc_fails parent_id k =
    (λ e. ap (alloc_slot parent_id k) e, λ ne v. full (Option-cases k.env_free_list) ne v)
  where
    full :
        (k.env_free_list ≡ none) ⊎ ((i : ℕ) × (k.env_free_list ≡ some i))
        → k.env_free_list ≢ none
        → IsFreeList k.mem []
        → env_alloc parent_id k ≡ ok (err no_mem, k)
    full (inl e) ne v = absurd (ne e)
    full (inr (i, e)) ne v =
        ap (alloc_slot parent_id k) e ∙ rw (page_alloc_empty alloc_zero k.mem v) refl
