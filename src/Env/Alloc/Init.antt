-- ===== src/Env/Alloc/Init.antt =====
-- The free list that env_init of kern/env.c builds.
use yu_os.Env.Alloc.{env_init, env_init_loop, env_init_step, none, suc, some}
use yu_os.Env.{Kernel, nenv, Env, ℕ, Option, update}
use mathlib.Core.Path.{fun_ext, ◌≡◌, subst, sym}
use yu_os.Prelude.{
  ℕ, ◌≡◌, Chain, none, ◌<◌, update, ◌≤◌, List, Option, suc, Bool-cases, ◌-◌, ◌∉◌, arith, [],
  update_self, ◌∷◌, ==-ne, ◌==◌, zero, Chain-update, refl, inl, inr, ◌≢◌, some, sym,
}

-- `n` slots from `a` on
abbrev pub slots : ℕ → ℕ → List ℕ
slots a zero = []
slots a (suc n) = a ∷ slots (suc a) n

slots-has : (a n i : ℕ) → i < a → i ∉ slots a n
slots-has a zero i h = refl
slots-has a (suc n) i h = rw (==-ne i a (omega arith), slots-has (suc a) n i (omega arith))

abbrev pub links : Kernel → ℕ → Option ℕ
links k i = (k.envs i).env_link

link_of_update :
    (envs : ℕ → Env) (i j : ℕ) (e : Env)
    → (update envs i e j).env_link ≡ update (λ t. (envs t).env_link) i e.env_link j
link_of_update envs i j e = elim (Bool-cases (i == j)) [ inl h ↦ rw h refl | inr h ↦ rw h refl ]

step-links : (i : ℕ) (k : Kernel) → links (env_init_step i k) ≡ update (links k) i k.env_free_list
step-links i k = fun_ext (λ j. link_of_update k.envs i j _)

step-Chain :
    (i n : ℕ) (k : Kernel)
    → Chain (links k) k.env_free_list (slots (suc i) n)
    → Chain (links (env_init_step i k)) (some i) (slots i (suc n))
step-Chain i n k c =
    subst (λ l. Chain l (some i) (slots i (suc n))) (sym (step-links i k))
      (
        refl,
        rw (update_self (links k) i k.env_free_list) (
            Chain-update (links k) k.env_free_list (slots (suc i) n) i k.env_free_list
              (slots-has (suc i) n i (omega arith)) c),
      )

-- The slots from `i` up to NENV are done.
record Done (i : ℕ) (k : Kernel) : Type 0 where
  chain : Chain (links k) k.env_free_list (slots i (nenv - i))
  ids : (j : ℕ) → i ≤ j → j < nenv → (k.envs j).env_id ≡ 0

step-Done : (i : ℕ) (k : Kernel) → i < nenv → Done (suc i) k → Done i (env_init_step i k)
step-Done i k h d = record {
  chain =
      let e : nenv - i ≡ suc (nenv - suc i) = omega arith in
      rw e (step-Chain i (nenv - suc i) k d.chain);
  ids = λ j lo hi. elim (Bool-cases (i == j)) [
    | inl here ↦ rw here refl
    | inr other ↦ rw other (d.ids j (let ne : j ≢ i = (λ q. ground arith) in omega arith) hi)
  ];
}

loop-Done : (i : ℕ) (k : Kernel) → i ≤ nenv → Done i k → Done 0 (env_init_loop i k)
unfolding env_init_loop
loop-Done zero k h d = d
loop-Done (suc i) k h d =
    loop-Done i (env_init_step i k) (omega arith) (step-Done i k (omega arith) d)

-- With no free list before, `env_init` makes the list of all NENV slots in the order of the array,
-- and sets the id of each to 0.
pub env_init_lem :
    (k : Kernel)
    → k.env_free_list ≡ none
    → Chain (links (env_init k)) (env_init k).env_free_list (slots 0 nenv)
      × ((j : ℕ) → j < nenv → ((env_init k).envs j).env_id ≡ 0)
unfolding env_init
env_init_lem k empty =
    let d =
      loop-Done nenv k (omega arith)
        (record { chain = empty; ids = λ j lo hi. absurd (omega arith) }) in
    (d.chain, λ j hi. d.ids j (omega arith) hi)
