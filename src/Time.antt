-- ===== src/Time.antt =====
-- The clock of kern/time.c: a 32-bit count of timer interrupts, one in ten milliseconds.
use yu_os.Prelude.{
  ℕ, ◌*◌, ◌≡◌, Run, ◌%◌, if◌then◌else◌, ◌+◌, ◌<◌, ok, ltb, ◌≤◌, suc, panic, ◌>>=◌, arith,
  Bool-cases, ◌∙◌, zero, inl, ltb→lt, inr, refl, After, ◌↔◌, ends, stopped,
}
use yu_os.Layout.{word_mod}

abbrev pub time_init : ℕ
time_init = 0

unfoldable pub time_tick : ℕ → Run ℕ
time_tick ticks =
    let ticks = (ticks + 1) % word_mod in
    if ltb (ticks * 10 % word_mod) ticks then panic else ok ticks

unfoldable pub time_msec : ℕ → ℕ
time_msec ticks = ticks * 10 % word_mod

-- The clock after that many interrupts
unfoldable pub after_ticks : ℕ → Run ℕ
after_ticks zero = ok time_init
after_ticks (suc n) = do ticks ← after_ticks n; time_tick ticks

time_tick_lem :
    (n : ℕ)
    → n * 10 < word_mod
    → time_tick n ≡ (if ltb ((n + 1) * 10) word_mod then ok (n + 1) else panic)
unfolding time_tick
time_tick_lem n h = ground arith

after_ticks_lem : (n : ℕ) → after_ticks n ≡ (if ltb (n * 10) word_mod then ok n else panic)
unfolding after_ticks
after_ticks_lem zero = refl
after_ticks_lem (suc n) = elim (Bool-cases (ltb (n * 10) word_mod)) [
  | inl early ↦
      rw (after_ticks_lem n, early)
        (time_tick_lem n (ltb→lt (n * 10) word_mod early) ∙ ground arith)
  | inr late ↦ rw (after_ticks_lem n, late) (ground arith)
]

-- After any number of timer interrupts `time_msec` is ten times their number, unless the kernel has
-- panicked, which it has exactly if ten times their number is no longer a 32-bit number.
pub after_ticks-time_msec :
    (n : ℕ)
    → After (λ ticks. time_msec ticks ≡ n * 10) (after_ticks n)
      × ((after_ticks n ≡ panic) ↔ (word_mod ≤ n * 10))
unfolding time_msec
after_ticks-time_msec n = elim (Bool-cases (ltb (n * 10) word_mod)) [
  | inl early ↦
      rw (after_ticks_lem n, early)
        (
          ends (let lt = ltb→lt (n * 10) word_mod early in omega arith),
          (λ e. absurd (cc), λ h. absurd (ground arith)),
        )
  | inr late ↦ rw (after_ticks_lem n, late) (stopped, (λ e. ground arith, λ h. refl))
]
