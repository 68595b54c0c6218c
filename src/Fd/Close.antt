-- ===== src/Fd/Close.antt =====
-- What closing a descriptor of lib/fd.c leaves.
use yu_os.Fd.{
  Fds, Dev, maxfd, index2fd, fd_lookup, fd_at, dev_lookup, unmap, close_device, close_found,
  fd_close, close,
}
use yu_os.Layout.{Reply, ret, err, Error}
use yu_os.Prelude.{
  ℕ, List, [], ◌∷◌, Option, some, none, ◌≡◌, ◌<◌, ◌+◌, ◌==◌, is_some, true, false, arith, refl,
  Bool-cases, inl, inr, ◌≢◌, ◌∙◌, update_ne, update_self, leb, sym,
}

-- `s'` is `s` but for the pages of descriptor `fd`.
pub record Others (fd : ℕ) (s s' : Fds) : Type 0 where
  pub frames : (i : ℕ) → i ≢ fd → i ≢ maxfd + fd → s'.frame i ≡ s.frame i
  pub pages : s'.page ≡ s.page

-- What a device relies on, and keeps: closing a descriptor is about its own pages.
abbrev pub Closes : Option (ℕ → Fds → Reply ℕ × Fds) → Type 0
Closes none = Unit
Closes (some dev_close) = (fd : ℕ) (s : Fds) → Others fd s (dev_close fd s).1

abbrev pub AllClose : List Dev → Type 0
AllClose [] = Unit
AllClose (dev ∷ devtab) = Closes dev.dev_close × AllClose devtab

Others-refl : (fd : ℕ) (s : Fds) → Others fd s s
Others-refl fd s = record { frames = λ i a b. refl; pages = refl }

Others-unmap : (fd : ℕ) (s t : Fds) → Others fd s t → Others fd s (unmap fd t)
Others-unmap fd s t o = record {
  frames = λ i a b. update_ne t.frame fd i none (λ e. a (sym e)) ∙ o.frames i a b;
  pages = o.pages;
}

Others-close_device :
    (fd : ℕ) (s : Fds) (c : Option (ℕ → Fds → Reply ℕ × Fds))
    → Closes c
    → Others fd s (close_device fd s c).1
Others-close_device fd s none law = Others-refl fd s
Others-close_device fd s (some dev_close) law = law fd s

Closes-dev_lookup :
    (devtab : List Dev) (dev_id fd : ℕ) (s : Fds)
    → AllClose devtab
    → Others fd s (close_found fd s (dev_lookup devtab dev_id)).1
unfolding dev_lookup
Closes-dev_lookup [] dev_id fd s laws = Others-refl fd s
Closes-dev_lookup (dev ∷ devtab) dev_id fd s laws = elim (Bool-cases (dev.dev_id == dev_id)) [
  | inl e ↦ rw e (Others-close_device fd s dev.dev_close laws.0)
  | inr e ↦ rw e (Closes-dev_lookup devtab dev_id fd s laws.1)
]

-- A descriptor that is in use
pub fd_lookup-used :
    (fd : ℕ) (s : Fds) → fd < maxfd → is_some (s.frame fd) ≡ true → fd_lookup fd s ≡ ret fd
unfolding fd_lookup
fd_lookup-used fd s h u =
    let small : index2fd fd ≡ fd = omega arith in
    let in_range : leb maxfd fd ≡ false = ground arith in rw (in_range, small, u) refl

fd_lookup-unused :
    (fd : ℕ) (s : Fds)
    → fd < maxfd
    → is_some (s.frame fd) ≡ false
    → fd_lookup fd s ≡ err Error.inval
unfolding fd_lookup
fd_lookup-unused fd s h u =
    let small : index2fd fd ≡ fd = omega arith in
    let in_range : leb maxfd fd ≡ false = ground arith in rw (in_range, small, u) refl

-- After `close` the descriptor is not in use, and the others are as before.
pub record Closed (fd : ℕ) (s s' : Fds) : Type 0 where
  pub gone : s'.frame fd ≡ none
  pub others : Others fd s s'

none_of : (o : Option ℕ) → is_some o ≡ false → o ≡ none
none_of none e = refl
none_of (some a) e = absurd (cc)

pub close-Closed :
    (devtab : List Dev) (fd : ℕ) (s : Fds)
    → AllClose devtab
    → fd < maxfd
    → Closed fd s (close devtab fd s).1
unfolding close fd_close
close-Closed devtab fd s laws h = elim (Bool-cases (is_some (s.frame fd))) [
  | inl u ↦
      let found = fd_lookup-used fd s h u in
      let t = (close_found fd s (dev_lookup devtab (fd_at s fd).fd_dev_id)).1 in
      rw (found, found)
        (record {
          gone = update_self t.frame fd none;
          others = Others-unmap fd s t (Closes-dev_lookup devtab (fd_at s fd).fd_dev_id fd s laws);
        })
  | inr u ↦
      rw (fd_lookup-unused fd s h u)
        (record { gone = none_of (s.frame fd) u; others = Others-refl fd s })
]
