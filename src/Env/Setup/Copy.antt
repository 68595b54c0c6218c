-- ===== src/Env/Setup/Copy.antt =====
-- The loop of env_setup_vm copies a range of entries and nothing else.
use yu_os.Prelude.{ℕ, ◌≢◌, ◌≡◌, ◌⊎◌, ◌≤◌, ◌<◌, ◌+◌, arith, inl, zero, inr, ◌∙◌, refl}
use yu_os.Env.Setup.{copy_entries, Mem, suc, set_word}
use yu_os.Pmap.{Mem, set_word}
use yu_os.Pmap.Table.Translate.{put, put_ne, put_self}
use native.Mathlib.Decide.{ℕ_discrete}

pub copy_entries-rest :
    (dir kern i n : ℕ) (m : Mem)
    → copy_entries dir kern i n m ≡ record m { word = (copy_entries dir kern i n m).word }
unfolding copy_entries
copy_entries-rest dir kern i zero m = refl
copy_entries-rest dir kern i (suc n) m =
    copy_entries-rest dir kern (i + 1) n (set_word dir i (m.word kern i) m)

module _ (dir kern : ℕ) (ne : kern ≢ dir) where
  -- outside the range
  pub copy_entries-keep :
      (i n : ℕ) (m : Mem) (p j : ℕ)
      → (p ≢ dir) ⊎ ((j < i) ⊎ (i + n ≤ j))
      → (copy_entries dir kern i n m).word p j ≡ m.word p j
  unfolding copy_entries put
  copy_entries-keep i zero m p j h = refl
  copy_entries-keep i (suc n) m p j h =
      copy_entries-keep (i + 1) n (set_word dir i (m.word kern i) m) p j (weaken h)
      ∙ put_ne dir i (m.word kern i) p j m.word (apart h)
    where
      weaken : (p ≢ dir) ⊎ ((j < i) ⊎ (i + suc n ≤ j)) → (p ≢ dir) ⊎ ((j < i + 1) ⊎ (i + 1 + n ≤ j))
      weaken (inl q) = inl q
      weaken (inr (inl q)) = inr (inl (omega arith))
      weaken (inr (inr q)) = inr (inr (omega arith))

      apart : (p ≢ dir) ⊎ ((j < i) ⊎ (i + suc n ≤ j)) → (p ≢ dir) ⊎ (j ≢ i)
      apart (inl q) = inl q
      apart (inr (inl q)) = inr (omega arith)
      apart (inr (inr q)) = inr (omega arith)

  -- inside it
  pub copy_entries-copied :
      (i n : ℕ) (m : Mem) (j : ℕ)
      → i ≤ j
      → j < i + n
      → (copy_entries dir kern i n m).word dir j ≡ m.word kern j
  unfolding copy_entries put
  copy_entries-copied i zero m j lo hi = absurd (omega arith)
  copy_entries-copied i (suc n) m j lo hi = elim (ℕ_discrete i j) [
    | yes e ↦
        copy_entries-keep (i + 1) n (set_word dir i (m.word kern i) m) dir j
          (inr (inl (omega arith)))
        ∙ rw (← e) (put_self dir i (m.word kern i) m.word)
    | no other ↦
        copy_entries-copied (i + 1) n (set_word dir i (m.word kern i) m) j (omega arith)
          (omega arith)
        ∙ put_ne dir i (m.word kern i) kern j m.word (inl ne)
  ]
