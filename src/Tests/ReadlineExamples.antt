-- ===== src/Tests/ReadlineExamples.antt =====
-- The theorem on the line editor: "ab", backspace, "c" and return.
use yu_os.Readline.{readline}
use yu_os.Readline.Edit.{Matches, line, readline_refines}
use yu_os.Layout.{ret}
use yu_os.Prelude.{[], ◌∷◌, true}

readline_refines_example :
    Matches
      (λ j. 0)
      (line (99 ∷ 97 ∷ []))
      (readline true (ret 97 ∷ ret 98 ∷ ret 8 ∷ ret 99 ∷ ret 13 ∷ []) (λ j. 0))
readline_refines_example =
    readline_refines true (ret 97 ∷ ret 98 ∷ ret 8 ∷ ret 99 ∷ ret 13 ∷ []) (λ j. 0)
