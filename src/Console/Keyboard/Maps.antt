-- ===== src/Console/Keyboard/Maps.antt =====
-- The scan codes of kern/console.c and what they stand for, with the key codes of inc/kbdreg.h.
use yu_os.Prelude.{ℕ, zero, suc, List, [], ◌∷◌, ◌==◌, if◌then◌else◌}

abbrev pub key_home : ℕ
key_home = 0xE0

abbrev pub key_end : ℕ
key_end = 0xE1

abbrev pub key_up : ℕ
key_up = 0xE2

abbrev pub key_dn : ℕ
key_dn = 0xE3

abbrev pub key_lf : ℕ
key_lf = 0xE4

abbrev pub key_rt : ℕ
key_rt = 0xE5

abbrev pub key_pgup : ℕ
key_pgup = 0xE6

abbrev pub key_pgdn : ℕ
key_pgdn = 0xE7

abbrev pub key_ins : ℕ
key_ins = 0xE8

abbrev pub key_del : ℕ
key_del = 0xE9

abbrev pub shift_bit : ℕ
shift_bit = 1

abbrev pub ctl : ℕ
ctl = 2

abbrev pub alt : ℕ
alt = 4

abbrev pub capslock : ℕ
capslock = 8

abbrev pub numlock : ℕ
numlock = 16

abbrev pub scrolllock : ℕ
scrolllock = 32

abbrev pub e0esc : ℕ
e0esc = 64

-- An element of an initialised array: the ones given by their index, then the row from index 0 on;
-- all others are 0.
abbrev row_at : List ℕ → ℕ → ℕ
row_at [] i = 0
row_at (c ∷ row) zero = c
row_at (c ∷ row) (suc i) = row_at row i

abbrev pub array_at : List (ℕ × ℕ) → List ℕ → ℕ → ℕ
array_at [] row i = row_at row i
array_at ((j, c) ∷ given) row i = if i == j then c else array_at given row i

abbrev pub shiftcode : ℕ → ℕ
shiftcode =
    array_at
      ((0x1D, ctl)
        ∷ (0x2A, shift_bit)
        ∷ (0x36, shift_bit)
        ∷ (0x38, alt)
        ∷ (0x9D, ctl)
        ∷ (0xB8, alt)
        ∷ [])
      []

abbrev pub togglecode : ℕ → ℕ
togglecode = array_at ((0x3A, capslock) ∷ (0x45, numlock) ∷ (0x46, scrolllock) ∷ []) []

abbrev pub normalmap : ℕ → ℕ
normalmap =
    array_at
      ((0xC7, key_home)
        ∷ (0x9C, 10)
        ∷ (0xB5, 47)
        ∷ (0xC8, key_up)
        ∷ (0xC9, key_pgup)
        ∷ (0xCB, key_lf)
        ∷ (0xCD, key_rt)
        ∷ (0xCF, key_end)
        ∷ (0xD0, key_dn)
        ∷ (0xD1, key_pgdn)
        ∷ (0xD2, key_ins)
        ∷ (0xD3, key_del)
        ∷ [])
      (0 ∷ 27 ∷ 49 ∷ 50 ∷ 51 ∷ 52 ∷ 53 ∷ 54 ∷ 55 ∷ 56 ∷ 57 ∷ 48 ∷ 45 ∷ 61 ∷ 8 ∷ 9 ∷ 113 ∷ 119 ∷ 101
        ∷ 114 ∷ 116 ∷ 121 ∷ 117 ∷ 105 ∷ 111 ∷ 112 ∷ 91 ∷ 93 ∷ 10 ∷ 0 ∷ 97 ∷ 115 ∷ 100 ∷ 102 ∷ 103
        ∷ 104 ∷ 106 ∷ 107 ∷ 108 ∷ 59 ∷ 39 ∷ 96 ∷ 0 ∷ 92 ∷ 122 ∷ 120 ∷ 99 ∷ 118 ∷ 98 ∷ 110 ∷ 109 ∷ 44
        ∷ 46 ∷ 47 ∷ 0 ∷ 42 ∷ 0 ∷ 32 ∷ 0 ∷ 0 ∷ 0 ∷ 0 ∷ 0 ∷ 0 ∷ 0 ∷ 0 ∷ 0 ∷ 0 ∷ 0 ∷ 0 ∷ 0 ∷ 55 ∷ 56
        ∷ 57 ∷ 45 ∷ 52 ∷ 53 ∷ 54 ∷ 43 ∷ 49 ∷ 50 ∷ 51 ∷ 48 ∷ 46 ∷ 0 ∷ 0 ∷ 0 ∷ 0 ∷ [])

abbrev pub shiftmap : ℕ → ℕ
shiftmap =
    array_at
      ((0xC7, key_home)
        ∷ (0x9C, 10)
        ∷ (0xB5, 47)
        ∷ (0xC8, key_up)
        ∷ (0xC9, key_pgup)
        ∷ (0xCB, key_lf)
        ∷ (0xCD, key_rt)
        ∷ (0xCF, key_end)
        ∷ (0xD0, key_dn)
        ∷ (0xD1, key_pgdn)
        ∷ (0xD2, key_ins)
        ∷ (0xD3, key_del)
        ∷ [])
      (0 ∷ 27 ∷ 33 ∷ 64 ∷ 35 ∷ 36 ∷ 37 ∷ 94 ∷ 38 ∷ 42 ∷ 40 ∷ 41 ∷ 95 ∷ 43 ∷ 8 ∷ 9 ∷ 81 ∷ 87 ∷ 69
        ∷ 82 ∷ 84 ∷ 89 ∷ 85 ∷ 73 ∷ 79 ∷ 80 ∷ 123 ∷ 125 ∷ 10 ∷ 0 ∷ 65 ∷ 83 ∷ 68 ∷ 70 ∷ 71 ∷ 72 ∷ 74
        ∷ 75 ∷ 76 ∷ 58 ∷ 34 ∷ 126 ∷ 0 ∷ 124 ∷ 90 ∷ 88 ∷ 67 ∷ 86 ∷ 66 ∷ 78 ∷ 77 ∷ 60 ∷ 62 ∷ 63 ∷ 0
        ∷ 42 ∷ 0 ∷ 32 ∷ 0 ∷ 0 ∷ 0 ∷ 0 ∷ 0 ∷ 0 ∷ 0 ∷ 0 ∷ 0 ∷ 0 ∷ 0 ∷ 0 ∷ 0 ∷ 55 ∷ 56 ∷ 57 ∷ 45 ∷ 52
        ∷ 53 ∷ 54 ∷ 43 ∷ 49 ∷ 50 ∷ 51 ∷ 48 ∷ 46 ∷ 0 ∷ 0 ∷ 0 ∷ 0 ∷ [])

abbrev pub ctlmap : ℕ → ℕ
ctlmap =
    array_at
      ((0x97, key_home)
        ∷ (0xB5, 239)
        ∷ (0xC8, key_up)
        ∷ (0xC9, key_pgup)
        ∷ (0xCB, key_lf)
        ∷ (0xCD, key_rt)
        ∷ (0xCF, key_end)
        ∷ (0xD0, key_dn)
        ∷ (0xD1, key_pgdn)
        ∷ (0xD2, key_ins)
        ∷ (0xD3, key_del)
        ∷ [])
      (0 ∷ 0 ∷ 0 ∷ 0 ∷ 0 ∷ 0 ∷ 0 ∷ 0 ∷ 0 ∷ 0 ∷ 0 ∷ 0 ∷ 0 ∷ 0 ∷ 0 ∷ 0 ∷ 17 ∷ 23 ∷ 5 ∷ 18 ∷ 20 ∷ 25
        ∷ 21 ∷ 9 ∷ 15 ∷ 16 ∷ 0 ∷ 0 ∷ 13 ∷ 0 ∷ 1 ∷ 19 ∷ 4 ∷ 6 ∷ 7 ∷ 8 ∷ 10 ∷ 11 ∷ 12 ∷ 0 ∷ 0 ∷ 0 ∷ 0
        ∷ 28 ∷ 26 ∷ 24 ∷ 3 ∷ 22 ∷ 2 ∷ 14 ∷ 13 ∷ 0 ∷ 0 ∷ 239 ∷ 0 ∷ 0 ∷ [])

-- `charcode`: the map by the state of the shift and control keys
abbrev pub charcode : ℕ → ℕ → ℕ
charcode zero = normalmap
charcode (suc zero) = shiftmap
charcode _ = ctlmap
