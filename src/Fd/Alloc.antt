-- ===== src/Fd/Alloc.antt =====
-- What fd_alloc of lib/fd.c chooses.
use yu_os.Fd.{Fds, maxfd, index2fd, fd_alloc, fd_alloc_from, Bool}
use yu_os.Layout.{Reply, ret, err, Error}
use yu_os.Prelude.{
  ℕ, zero, suc, ◌≡◌, ◌<◌, ◌≤◌, ◌+◌, ◌==◌, is_some, true, false, arith, Bool-cases, inl, inr, ==_iff,
  Bool,
}
use mathlib.Core.Path.{subst}

-- A descriptor is in use if its page is mapped.
abbrev pub in_use : Fds → ℕ → Bool
in_use s i = is_some (s.frame i)

-- The first of the descriptors from `i` to `n` that is not in use
pub data FirstFree (s : Fds) (i n : ℕ) : Reply ℕ → Type 0 where
  free :
      {fd : ℕ}
      → i ≤ fd
      → fd < n
      → in_use s fd ≡ false
      → ((j : ℕ) → i ≤ j → j < fd → in_use s j ≡ true)
      → FirstFree s i n (ret fd)
  all_used : ((j : ℕ) → i ≤ j → j < n → in_use s j ≡ true) → FirstFree s i n (err Error.max_fd)

down :
    {s : Fds} {i n : ℕ} {r : Reply ℕ}
    → in_use s i ≡ true
    → FirstFree s (i + 1) n r
    → FirstFree s i n r
down {s} {i} u (free a b c h) = free (omega arith) b c (λ j d e. elim (Bool-cases (j == i)) [
  | inl same ↦ rw ((==_iff j i).0 same) u
  | inr other ↦ h j (ground arith) e
])
down {s} {i} u (all_used h) = all_used (λ j d e. elim (Bool-cases (j == i)) [
  | inl same ↦ rw ((==_iff j i).0 same) u
  | inr other ↦ h j (ground arith) e
])

fd_alloc_from-FirstFree :
    (n i : ℕ) (s : Fds) → i + n ≤ maxfd → FirstFree s i (i + n) (fd_alloc_from n i s)
unfolding fd_alloc_from
fd_alloc_from-FirstFree zero i s h = all_used (λ j a b. absurd (omega arith))
fd_alloc_from-FirstFree (suc n) i s h =
    let small : index2fd i ≡ i = omega arith in
    let rest = fd_alloc_from-FirstFree n (i + 1) s (omega arith) in
    let end : i + 1 + n ≡ i + suc n = omega arith in
    elim (Bool-cases (in_use s i)) [
      | inl u ↦
          rw (small, u)
            (down u (subst (λ m. FirstFree s (i + 1) m (fd_alloc_from n (i + 1) s)) end rest))
      | inr u ↦ rw (small, u) (free (omega arith) (omega arith) u (λ j a b. absurd (omega arith)))
    ]

-- x
pub fd_alloc-FirstFree : (s : Fds) → FirstFree s 0 maxfd (fd_alloc s)
unfolding fd_alloc
fd_alloc-FirstFree s = fd_alloc_from-FirstFree maxfd 0 s (omega arith)
