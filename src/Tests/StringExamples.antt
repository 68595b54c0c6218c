-- ===== src/Tests/StringExamples.antt =====
-- The theorems on lib/string.c at a small memory, which holds "ab" at 10 and "abc" at 20.
use yu_os.Prelude.{ℕ, ◌<◌, arith, ◌≡◌, ◌∷◌, [], some, ◌↔◌, refl, List}
use yu_os.Strings.{memmove, Bytes, strcmp}
use yu_os.Strings.Text.{Holds, strcmp_lem}
use yu_os.Tests.Machine.{words}
use yu_os.Strings.Blocks.{memmove_lem}

abbrev texts : Bytes
texts = words ((10, b'a') ∷ (11, b'b') ∷ (20, b'a') ∷ (21, b'b') ∷ (22, b'c') ∷ [])

ab-Holds : Holds texts 10 (b'a' ∷ b'b' ∷ [])
ab-Holds = (refl, omega arith, (refl, omega arith, refl))

abc-Holds : Holds texts 20 (b'a' ∷ b'b' ∷ b'c' ∷ [])
abc-Holds = (refl, omega arith, (refl, omega arith, (refl, omega arith, refl)))

small : (i : ℕ) → texts i < 256
small i = ground arith

-- The ranges overlap: "abc" moves up by one byte.
memmove_lem_example : memmove 21 20 3 texts 23 ≡ b'c'
memmove_lem_example = memmove_lem 21 20 3 23 texts

strcmp_lem_example :
    (v : ℕ) × (strcmp 4 10 20 texts ≡ some v)
    × ((v ≡ 0) ↔ ◌≡◌ {A = List ℕ} (b'a' ∷ b'b' ∷ []) (b'a' ∷ b'b' ∷ b'c' ∷ []))
strcmp_lem_example =
    strcmp_lem 4 10 20 texts (b'a' ∷ b'b' ∷ []) (b'a' ∷ b'b' ∷ b'c' ∷ []) small ab-Holds abc-Holds
      (omega arith)
