-- ===== src/Env/Alloc/Ids.antt =====
-- The ids that env_alloc makes.
use yu_os.Prelude.{ℕ, ◌<◌, ◌≤◌, ◌^◌, ◌≡◌, ◌/◌, arith, ◌+◌, ◌*◌, ◌≢◌}
use yu_os.Env.Alloc.{new_id, generation_of, nenv}
use yu_os.Env.{nenv, envx}
use yu_os.Prelude.Bits.{bit_or-eq_add}

generation-aligned : (old : ℕ) → generation_of old ≡ generation_of old / nenv * nenv
generation-aligned old = ground arith

new_id-add : (i old : ℕ) → i < nenv → new_id i old ≡ generation_of old + i
unfolding new_id
new_id-add i old h = rw (generation-aligned old) (bit_or-eq_add 10 (generation_of old / nenv) i h)

generation_range : (old : ℕ) → (1024 ≤ generation_of old) × (generation_of old < 2 ^ 31)
generation_range old = ground arith

generation_moves : (i old : ℕ) → i < nenv → old < 2 ^ 31 → generation_of old + i ≢ old
generation_moves i old h small = ground arith

-- A new id is positive as an int32_t, its low bits are the slot's index, and it differs from the
-- last id of the slot, if the index is below NENV and the last id is not negative.
pub new_id_lem :
    (i old : ℕ)
    → i < nenv
    → old < 2 ^ 31
    → (0 < new_id i old)
      × (new_id i old < 2 ^ 31)
      × (envx (new_id i old) ≡ i)
      × (new_id i old ≢ old)
new_id_lem i old h small = rw (new_id-add i old h) (
  omega (arith, generation_range old),
  omega (arith, generation_range old, generation-aligned old),
  omega (arith, generation-aligned old),
  generation_moves i old h small,
)
