-- ===== src/Print.antt =====
-- Formatted output: lib/printfmt.c. What a routine hands to `putch` is a list, in order. The variable
-- arguments are the 32-bit words on the stack; memory gives the bytes of the format and of texts. The
-- format ends within the given fuel, and is not overwritten while it is read. `none` is what comes of
-- too little fuel, or of fewer arguments than the format asks for.
pub mod Number
pub mod Escape
pub mod Convert
pub mod Buffer
use yu_os.Prelude.{ℕ, if◌then◌else◌, List, ◌%◌, ltb, [], ◌∷◌, ◌+◌, suc, ◌-◌, ◌/◌, zero, leb, ◌++◌}

-- "0123456789abcdef"[i]
abbrev pub digit_char : ℕ → ℕ
digit_char i = if ltb i 10 then b'0' + i else b'a' + (i - 10)

-- `while(--width > 0) putch(padc, putdat);`: a width below 1 pads no more than one of 0.
unfoldable pub pads : ℕ → ℕ → List ℕ
pads zero padc = []
pads (suc n) padc = padc ∷ pads n padc

-- `printnum`, with so many calls of itself at most; a width stops at 0, where it pads nothing.
unfoldable pub printnum : ℕ → ℕ → ℕ → ℕ → ℕ → List ℕ
printnum zero num base width padc = pads (width - 1) padc ++ (digit_char (num % base) ∷ [])
printnum (suc fuel) num base width padc =
    let before = printnum fuel (num / base) base (width - 1) padc in
    (if leb base num then before else pads (width - 1) padc) ++ (digit_char (num % base) ∷ [])
