-- ===== src/Fd/Readn.antt =====
-- readn of lib/fd.c: reads until it has all, or until there is no more.
use yu_os.Fd.{
  Fds, Dev, read, read_fd, read_found, read_device, fd_lookup, fd_at, dev_lookup, access, o_wronly,
}
use yu_os.Layout.{Reply, ret, err, Error}
use yu_os.Prelude.{
  ℕ, zero, suc, List, [], ◌∷◌, ◌++◌, Option, some, none, ◌≡◌, ◌<◌, ◌≤◌, ◌+◌, ◌-◌, ◌==◌, arith, refl,
  Bool-cases, inl, inr, if◌then◌else◌, ltb, length, ltb→lt, length-append,
}

-- What follows one call of `read`; `next` is the rest of the loop.
abbrev pub after_read :
    (List ℕ → Fds → Option (Reply (List ℕ) × Fds))
    → List ℕ
    → Reply (List ℕ) × Fds
    → Option (Reply (List ℕ) × Fds)
after_read next got (err e, s) = some (err e, s)
after_read next got (ret [], s) = some (ret got, s)
after_read next got (ret (c ∷ cs), s) = next (got ++ (c ∷ cs)) s

module _ (devtab : List Dev) (fdnum : ℕ) where
  -- The loop, with the bytes that have been read; `none` is a loop that needs more rounds than that.
  unfoldable pub readn_loop : ℕ → ℕ → List ℕ → Fds → Option (Reply (List ℕ) × Fds)
  readn_loop zero n got s = none
  readn_loop (suc fuel) n got s =
      let rest =
        after_read (λ got s. readn_loop fuel n got s) got (read devtab fdnum (n - length got) s) in
      if ltb (length got) n then rest else some (ret got, s)

  -- Each round but the last reads at least a byte.
  unfoldable pub readn : ℕ → Fds → Option (Reply (List ℕ) × Fds)
  readn n s = readn_loop (n + 1) n [] s

-- What a device promises: a read gives no more bytes than were asked for.
abbrev pub AtMost : ℕ → Reply (List ℕ) → Type 0
AtMost n (err e) = Unit
AtMost n (ret cs) = length cs ≤ n

abbrev pub GivesAtMost : Option (ℕ → ℕ → Fds → Reply (List ℕ) × Fds) → Type 0
GivesAtMost none = Unit
GivesAtMost (some dev_read) = (fd n : ℕ) (s : Fds) → AtMost n (dev_read fd n s).0

abbrev pub AllRead : List Dev → Type 0
AllRead [] = Unit
AllRead (dev ∷ devtab) = GivesAtMost dev.dev_read × AllRead devtab

AtMost-read_device :
    (devtab : List Dev) (fd n : ℕ) (s : Fds) (r : Option (ℕ → ℕ → Fds → Reply (List ℕ) × Fds))
    → GivesAtMost r
    → AtMost n (read_device devtab fd n s r).0
AtMost-read_device devtab fd n s none law = tt
AtMost-read_device devtab fd n s (some dev_read) law = law fd n s

AtMost-read_found :
    (all devtab : List Dev) (fd n dev_id : ℕ) (s : Fds)
    → AllRead devtab
    → AtMost n (read_found all fd n s (dev_lookup devtab dev_id)).0
unfolding dev_lookup
AtMost-read_found all [] fd n dev_id s laws = tt
AtMost-read_found all (dev ∷ devtab) fd n dev_id s laws = elim (Bool-cases (dev.dev_id == dev_id)) [
  | inl e ↦ elim (Bool-cases (access (fd_at s fd) == o_wronly)) [
    | inl w ↦ rw (e, w) tt
    | inr w ↦ rw (e, w) (AtMost-read_device all fd n s dev.dev_read laws.0)
  ]
  | inr e ↦ rw e (AtMost-read_found all devtab fd n dev_id s laws.1)
]

AtMost-read_fd :
    (devtab : List Dev) (n : ℕ) (s : Fds) (r : Reply ℕ)
    → AllRead devtab
    → AtMost n (read_fd devtab n s r).0
AtMost-read_fd devtab n s (err e) laws = tt
AtMost-read_fd devtab n s (ret fd) laws =
    AtMost-read_found devtab devtab fd n (fd_at s fd).fd_dev_id s laws

AtMost-read :
    (devtab : List Dev) (fdnum n : ℕ) (s : Fds)
    → AllRead devtab
    → AtMost n (read devtab fdnum n s).0
unfolding read
AtMost-read devtab fdnum n s laws = AtMost-read_fd devtab n s (fd_lookup fdnum s) laws

-- The bytes that a chain of calls of `read` gave, one after the other, each of them for what was
-- missing of `n`
pub data Gathered (devtab : List Dev) (fdnum n : ℕ) (start : Fds) : List ℕ → Fds → Type 0 where
  nothing : Gathered devtab fdnum n start [] start
  more :
      {got cs : List ℕ} {t u : Fds}
      → Gathered devtab fdnum n start got t
      → read devtab fdnum (n - length got) t ≡ (ret cs, u)
      → Gathered devtab fdnum n start (got ++ cs) u

-- How `readn` ends: with all bytes, with fewer after a `read` that gave none, or with the error of a
-- `read`
pub data Outcome (devtab : List Dev) (fdnum n : ℕ) (start : Fds)
    : Reply (List ℕ) × Fds → Type 0 where
  complete :
      {got : List ℕ} {s : Fds}
      → Gathered devtab fdnum n start got s
      → length got ≡ n
      → Outcome devtab fdnum n start (ret got, s)
  no_more :
      {got : List ℕ} {s : Fds} (before : Fds)
      → Gathered devtab fdnum n start got before
      → length got < n
      → read devtab fdnum (n - length got) before ≡ (ret [], s)
      → Outcome devtab fdnum n start (ret got, s)
  failed :
      {e : Error} {s : Fds} (got : List ℕ) (before : Fds)
      → Gathered devtab fdnum n start got before
      → read devtab fdnum (n - length got) before ≡ (err e, s)
      → Outcome devtab fdnum n start (err e, s)

module _ (devtab : List Dev) (fdnum n : ℕ) (laws : AllRead devtab) (start : Fds) where
  abbrev Ends : Option (Reply (List ℕ) × Fds) → Type 0
  Ends o = (r : Reply (List ℕ) × Fds) × (o ≡ some r) × Outcome devtab fdnum n start r

  Ends-after_read :
      (next : List ℕ → Fds → Option (Reply (List ℕ) × Fds)) (got : List ℕ) (s : Fds)
      (o : Reply (List ℕ) × Fds)
      → Gathered devtab fdnum n start got s
      → length got < n
      → read devtab fdnum (n - length got) s ≡ o
      → AtMost (n - length got) o.0
      → ((got' : List ℕ) (s' : Fds)
          → Gathered devtab fdnum n start got' s'
          → length got < length got'
          → length got' ≤ n
          → Ends (next got' s'))
      → Ends (after_read next got o)
  Ends-after_read next got s (err e, t) g lt eq most rest = ((err e, t), refl, failed got s g eq)
  Ends-after_read next got s (ret [], t) g lt eq most rest = ((ret got, t), refl, no_more s g lt eq)
  Ends-after_read next got s (ret (c ∷ cs), t) g lt eq most rest =
      let len = length-append got (c ∷ cs) in
      rest (got ++ (c ∷ cs)) t (more g eq) (omega arith) (omega arith)

  readn_loop-Ends :
      (fuel : ℕ) (got : List ℕ) (s : Fds)
      → Gathered devtab fdnum n start got s
      → length got ≤ n
      → n - length got < fuel
      → Ends (readn_loop devtab fdnum fuel n got s)
  unfolding readn_loop
  readn_loop-Ends zero got s g le h = absurd (omega arith)
  readn_loop-Ends (suc fuel) got s g le h = elim (Bool-cases (ltb (length got) n)) [
    | inl e ↦
        let lt = ltb→lt (length got) n e in
        rw e (
          Ends-after_read (λ got s. readn_loop devtab fdnum fuel n got s) got s
            (read devtab fdnum (n - length got) s) g lt refl
            (AtMost-read devtab fdnum (n - length got) s laws)
            (λ got' s' g' a b. readn_loop-Ends fuel got' s' g' b (omega arith)))
    | inr e ↦ rw e ((ret got, s), refl, complete g (ground arith))
  ]

  -- On devices that give no more than was asked for, `readn` ends, after calls of `read` for what
  -- is missing, the bytes of which are joined in order: with all bytes, with fewer if the last
  -- `read` gave none, or with the error of the last `read`.
  pub readn-Outcome :
      (r : Reply (List ℕ) × Fds) × (readn devtab fdnum n start ≡ some r)
      × Outcome devtab fdnum n start r
  unfolding readn
  readn-Outcome = readn_loop-Ends (n + 1) [] start nothing (omega arith) (omega arith)
