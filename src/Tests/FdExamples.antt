-- ===== src/Tests/FdExamples.antt =====
-- The theorems on file descriptors: 0 and 1 are open, 0 with a page of data, on a device that gives one
-- byte at a time.
use yu_os.Fd.{Fds, Dev, dup}
use yu_os.Fd.Dup.{Duplicate, dup-Duplicate}
use yu_os.Fd.Dup.Itself.{dup-itself}
use yu_os.Fd.Readn.{AllRead, AtMost, Outcome, readn, readn-Outcome}
use yu_os.Layout.{Reply, ret, err, Error}
use yu_os.Prelude.{
  ℕ, List, [], ◌∷◌, Option, some, none, ◌≡◌, ◌==◌, if◌then◌else◌, arith, refl, Bool-cases, inl, inr,
}
use yu_os.Fd.Close.{AllClose}

abbrev one_byte : ℕ → ℕ → Fds → Reply (List ℕ) × Fds
one_byte fd n s = (if n == 0 then ret [] else ret (65 ∷ []), s)

abbrev tty : Dev
tty = record {
  dev_id = 99;
  dev_read = some one_byte;
  dev_write = none;
  dev_close = some (λ fd s. (ret 0, s));
}

tty-AllClose : AllClose (tty ∷ [])
tty-AllClose = ((λ fd s. record { frames = λ i a b. refl; pages = refl }), tt)

one_byte-AtMost : (fd n : ℕ) (s : Fds) → AtMost n (one_byte fd n s).0
one_byte-AtMost fd n s = elim (Bool-cases (n == 0)) [
  | inl e ↦ rw e (omega arith)
  | inr e ↦ rw e (ground arith)
]

tty-AllRead : AllRead (tty ∷ [])
tty-AllRead = (one_byte-AtMost, tt)

abbrev fds : Fds
fds = record {
  frame =
      λ i. if i == 0 then some 7 else if i == 32 then some 8 else if i == 1 then some 9 else none;
  page = λ f. record { fd_dev_id = 99; fd_offset = 0; fd_omode = 0; fd_file_id = 0 };
}

abbrev granted : ℕ → Option Error
granted i = none

dup-Duplicate_example :
    ((dup (tty ∷ []) granted 0 1 fds).0 ≡ ret 1)
    × Duplicate (tty ∷ []) granted 0 1 fds (dup (tty ∷ []) granted 0 1 fds).1
dup-Duplicate_example =
    dup-Duplicate (tty ∷ []) granted 0 1 7 fds tty-AllClose (omega arith) (omega arith)
      (omega arith) refl refl refl

dup-itself_example :
    (e : Error) × ((dup (tty ∷ []) granted 0 0 fds).0 ≡ err e)
    × ((dup (tty ∷ []) granted 0 0 fds).1.frame 0 ≡ none)
dup-itself_example = dup-itself (tty ∷ []) granted 0 fds tty-AllClose (omega arith) refl

readn-Outcome_example :
    (r : Reply (List ℕ) × Fds) × (readn (tty ∷ []) 0 3 fds ≡ some r) × Outcome (tty ∷ []) 0 3 fds r
readn-Outcome_example = readn-Outcome (tty ∷ []) 0 3 tty-AllRead fds
