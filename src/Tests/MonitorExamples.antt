-- ===== src/Tests/MonitorExamples.antt =====
-- The theorem on the command line: a tab, "k", a tab, "0" and a newline at address 100.
use yu_os.Monitor.{parse_args, argv}
use yu_os.Monitor.Words.{Words, word, blank}
use yu_os.Monitor.Words.Parse.{IsParsed, parse_args-IsParsed}
use yu_os.Prelude.{ℕ, List, [], ◌∷◌, ◌≡◌, some, refl, arith}
use yu_os.Strings.{Bytes}
use yu_os.Tests.Machine.{words}

abbrev line : List ℕ
line = 9 ∷ 107 ∷ 9 ∷ 48 ∷ 10 ∷ []

abbrev memory : Bytes
memory = words ((100, 9) ∷ (101, 107) ∷ (102, 9) ∷ (103, 48) ∷ (104, 10) ∷ [])

line-Words : Words line ((107 ∷ []) ∷ (48 ∷ []) ∷ [])
line-Words =
    word (9 ∷ []) 107 [] (9 ∷ 48 ∷ 10 ∷ []) refl (refl, tt) (omega arith, refl, tt) refl
      (word (9 ∷ []) 48 [] (10 ∷ []) refl (refl, tt) (omega arith, refl, tt) refl
        (blank (refl, tt)))

parse_args-IsParsed_example :
    (ps : List ℕ) × (mem' : Bytes) × (parse_args 16 16 15 100 memory ≡ some (argv ps mem'))
    × IsParsed 100 line ((107 ∷ []) ∷ (48 ∷ []) ∷ []) memory ps mem'
parse_args-IsParsed_example =
    parse_args-IsParsed 16 100 line ((107 ∷ []) ∷ (48 ∷ []) ∷ []) memory line-Words (omega arith)
      (omega arith) (omega arith) (refl, (refl, (refl, (refl, (refl, refl)))))
