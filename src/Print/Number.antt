-- ===== src/Print/Number.antt =====
-- The digits that printnum of lib/printfmt.c prints.
use yu_os.Prelude.{ℕ, if◌then◌else◌, List, leb, ◌∷◌, ◌-◌, ◌*◌, [], ◌+◌}

-- The value of a digit
abbrev pub digit_value : ℕ → ℕ
digit_value c = if leb b'a' c then c - b'a' + 10 else c - b'0'

-- The number that digits stand for, after a number that was read before
pub read_number : ℕ → ℕ → List ℕ → ℕ
read_number base n [] = n
read_number base n (c ∷ s) = read_number base (n * base + digit_value c) s
