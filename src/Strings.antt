-- ===== src/Strings.antt =====
-- The string routines of lib/string.c on a memory of bytes. A pointer is an address; a loop that
-- runs to a null byte has fuel, and `none` is what it comes to without enough of it. Addresses and
-- lengths stay below 2^31, so that no counter wraps.
pub mod Text
pub mod Blocks
use yu_os.Prelude.{
  ℕ, Option, none, some, ◌+◌, ◌-◌, ◌*◌, ◌%◌, ◌/◌, ◌^◌, zero, suc, ◌==◌, ◌&&◌, not, if◌then◌else◌,
  update, ltb, leb, Bool,
}

abbrev pub Bytes : Type 0
Bytes = ℕ → ℕ

-- The loop of `strlen`, at `s` with the count `n`
unfoldable pub strlen_loop : ℕ → Bytes → ℕ → ℕ → Option ℕ
strlen_loop zero mem s n = none
strlen_loop (suc fuel) mem s n =
    let rest = strlen_loop fuel mem (s + 1) (n + 1) in if mem s == 0 then some n else rest

unfoldable pub strlen : ℕ → Bytes → ℕ → Option ℕ
unfolding strlen_loop
strlen fuel mem s = strlen_loop fuel mem s 0

-- `size` is the number of rounds left.
unfoldable pub strnlen_loop : ℕ → Bytes → ℕ → ℕ → ℕ
strnlen_loop zero mem s n = n
strnlen_loop (suc size) mem s n =
    let rest = strnlen_loop size mem (s + 1) (n + 1) in if mem s == 0 then n else rest

unfoldable pub strnlen : Bytes → ℕ → ℕ → ℕ
unfolding strnlen_loop
strnlen mem s size = strnlen_loop size mem s 0

-- The memory after the call; the result is `dst`.
unfoldable pub strcpy : ℕ → ℕ → ℕ → Bytes → Option Bytes
strcpy zero dst src mem = none
strcpy (suc fuel) dst src mem =
    let rest = strcpy fuel (dst + 1) (src + 1) (update mem dst (mem src)) in
    if mem src == 0 then some (update mem dst (mem src)) else rest

-- `(int) ((unsigned char) *p - (unsigned char) *q)`, as a 32-bit pattern
abbrev pub byte_diff : ℕ → ℕ → ℕ
byte_diff a b = (a + 2 ^ 32 - b) % 2 ^ 32

unfoldable pub strncmp : ℕ → ℕ → ℕ → Bytes → ℕ
strncmp p q zero mem = 0
strncmp p q (suc n) mem =
    let rest = strncmp (p + 1) (q + 1) n mem in
    if not (mem p == 0) && (mem p == mem q) then rest else byte_diff (mem p) (mem q)

unfoldable pub strcmp : ℕ → ℕ → ℕ → Bytes → Option ℕ
strcmp zero p q mem = none
strcmp (suc fuel) p q mem =
    let rest = strcmp fuel (p + 1) (q + 1) mem in
    if not (mem p == 0) && (mem p == mem q) then rest else some (byte_diff (mem p) (mem q))

-- The address of the first `c`, or of the null byte
unfoldable pub strfind : ℕ → ℕ → ℕ → Bytes → Option ℕ
strfind zero s c mem = none
strfind (suc fuel) s c mem =
    let rest = strfind fuel (s + 1) c mem in
    if mem s == 0 then some s else if mem s == c then some s else rest

-- The inner `none` is NULL.
unfoldable pub strchr : ℕ → ℕ → ℕ → Bytes → Option (Option ℕ)
strchr zero s c mem = none
strchr (suc fuel) s c mem =
    let rest = strchr fuel (s + 1) c mem in
    if mem s == 0 then some none else if mem s == c then some (some s) else rest

abbrev pub append_at : ℕ → ℕ → ℕ → Bytes → Option ℕ → Option Bytes
append_at fuel dst src mem none = none
append_at fuel dst src mem (some len) = strcpy fuel (dst + len) src mem

unfoldable pub strcat : ℕ → ℕ → ℕ → Bytes → Option Bytes
strcat fuel dst src mem = append_at fuel dst src mem (strlen fuel mem dst)

-- `rep stosb` or `rep stosl`: `n` stores of `w` bytes, each of which is `c`
unfoldable pub stos : ℕ → ℕ → ℕ → ℕ → Bytes → Bytes
stos w zero v c mem = mem
stos w (suc n) v c mem = stos w n (v + w) c (λ i. if leb v i && ltb i (v + w) then c else mem i)

-- The four bytes that `stosl` stores are those of `c` times 0x01010101, which is `c` each time.
unfoldable pub memset : ℕ → ℕ → ℕ → Bytes → Bytes
memset v c n mem =
    if n == 0
    then mem
    else if (v % 4 == 0) && (n % 4 == 0)
    then stos 4 (n / 4) v (c % 256) mem
    else stos 1 n v (c % 256) mem

-- One round of `movsb` or `movsl`: `w` bytes are read from `src` and then stored at `dst`.
abbrev pub copied : ℕ → ℕ → ℕ → Bytes → Bytes
copied w dst src mem i = if leb dst i && ltb i (dst + w) then mem (src + (i - dst)) else mem i

-- `rep movsb` or `rep movsl`, upwards
unfoldable pub movs_up : ℕ → ℕ → ℕ → ℕ → Bytes → Bytes
movs_up w zero dst src mem = mem
movs_up w (suc n) dst src mem = movs_up w n (dst + w) (src + w) (copied w dst src mem)

-- The same downwards, after `std`, from the places before `dst` and `src`
unfoldable pub movs_down : ℕ → ℕ → ℕ → ℕ → Bytes → Bytes
movs_down w zero dst src mem = mem
movs_down w (suc n) dst src mem =
    movs_down w n (dst - w) (src - w) (copied w (dst - w) (src - w) mem)

abbrev pub by_words : ℕ → ℕ → ℕ → Bool
by_words dst src n = (src % 4 == 0) && (dst % 4 == 0) && (n % 4 == 0)

-- The memory after the call; the result is `dst`. Upwards both pointers keep their alignment.
unfoldable pub memmove : ℕ → ℕ → ℕ → Bytes → Bytes
memmove dst src n mem =
    if ltb src dst && ltb dst (src + n)
    then if by_words (dst + n) (src + n) n
      then movs_down 4 (n / 4) (dst + n) (src + n) mem
      else movs_down 1 n (dst + n) (src + n) mem
    else if by_words dst src n
    then movs_up 4 (n / 4) dst src mem
    else movs_up 1 n dst src mem

unfoldable pub memcpy : ℕ → ℕ → ℕ → Bytes → Bytes
memcpy dst src n mem = memmove dst src n mem

unfoldable pub memcmp : ℕ → ℕ → ℕ → Bytes → ℕ
memcmp s1 s2 zero mem = 0
memcmp s1 s2 (suc n) mem =
    let rest = memcmp (s1 + 1) (s2 + 1) n mem in
    if mem s1 == mem s2 then rest else byte_diff (mem s1) (mem s2)
