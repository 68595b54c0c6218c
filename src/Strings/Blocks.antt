-- ===== src/Strings/Blocks.antt =====
-- memset, memmove and memcmp as operations on whole blocks of memory.
use yu_os.Strings.{
  Bytes, stos, memset, copied, movs_up, movs_down, memmove, memcmp, by_words, byte_diff, ℕ,
}
use yu_os.Prelude.{
  ℕ, ◌≤◌, ◌⊎◌, ◌+◌, ◌≡◌, arith, ◌<◌, if◌then◌else◌, ◌*◌, leb, ◌↔◌, suc, ◌∙◌, ◌&&◌, ◌-◌, ltb, ap,
  zero, ◌%◌, sym, Bool-cases, true, ◌/◌, ==_iff, ◌==◌, inl, ==-ne, inr, refl,
}
use mathlib.Core.Path.{subst}
use native.Mathlib.Nat.{suc-mul}
use native.Mathlib.Decide.{ℕ_discrete}

-- Two blocks copied one after the other, upwards and downwards
copied_up :
    (w l dst src i : ℕ) (mem : Bytes)
    → (dst ≤ src) ⊎ (src + w + l ≤ dst)
    → copied l (dst + w) (src + w) (copied w dst src mem) i ≡ copied (w + l) dst src mem i
copied_up w l dst src i mem h = ground arith

copied_down :
    (w l dst src i : ℕ) (mem : Bytes)
    → src ≤ dst
    → copied l dst src (copied w (dst + l) (src + l) mem) i ≡ copied (w + l) dst src mem i
copied_down w l dst src i mem h = ground arith

suc_mul : (n w : ℕ) → suc n * w ≡ w + n * w
suc_mul n w = omega (arith, suc-mul n w)

movs_up_lem :
    (w n dst src i : ℕ) (mem : Bytes)
    → (dst ≤ src) ⊎ (src + n * w ≤ dst)
    → movs_up w n dst src mem i ≡ copied (n * w) dst src mem i
unfolding movs_up
movs_up_lem w zero dst src i mem h = ground arith
movs_up_lem w (suc n) dst src i mem h =
    let more : suc n * w ≡ w + n * w = suc_mul n w in
    movs_up_lem w n (dst + w) (src + w) i (copied w dst src mem) (omega (arith, h, more))
    ∙ copied_up w (n * w) dst src i mem (omega (arith, h, more))
    ∙ ap (λ t. copied t dst src mem i) (sym more)

movs_down_lem :
    (w n dst src i : ℕ) (mem : Bytes)
    → src ≤ dst
    → movs_down w n (dst + n * w) (src + n * w) mem i ≡ copied (n * w) dst src mem i
unfolding movs_down
movs_down_lem w zero dst src i mem h = ground arith
movs_down_lem w (suc n) dst src i mem h =
    let more : suc n * w ≡ w + n * w = suc_mul n w in
    let to : dst + suc n * w - w ≡ dst + n * w = omega (arith, more) in
    let from : src + suc n * w - w ≡ src + n * w = omega (arith, more) in
    rw (to, from, more)
      (movs_down_lem w n dst src i (copied w (dst + n * w) (src + n * w) mem) h
        ∙ copied_down w (n * w) dst src i mem h)

-- Loops of words
up_by :
    (w k n dst src i : ℕ) (mem : Bytes)
    → k * w ≡ n
    → (dst ≤ src) ⊎ (src + n ≤ dst)
    → movs_up w k dst src mem i ≡ copied n dst src mem i
up_by w k n dst src i mem e h =
    subst (λ t. movs_up w k dst src mem i ≡ copied t dst src mem i) e
      (movs_up_lem w k dst src i mem (omega (arith, h, e)))

down_by :
    (w k n dst src i : ℕ) (mem : Bytes)
    → k * w ≡ n
    → src ≤ dst
    → movs_down w k (dst + n) (src + n) mem i ≡ copied n dst src mem i
down_by w k n dst src i mem e h =
    subst (λ t. movs_down w k (dst + t) (src + t) mem i ≡ copied t dst src mem i) e
      (movs_down_lem w k dst src i mem h)

whole_words : (dst src n : ℕ) → by_words dst src n ≡ true → n / 4 * 4 ≡ n
whole_words dst src n h = ground arith

-- After `memmove` each byte of the target range is what the byte of the source range was before,
-- overlap or not, by words or by bytes; no other byte has changed.
pub memmove_lem : (dst src n i : ℕ) (mem : Bytes) → memmove dst src n mem i ≡ copied n dst src mem i
unfolding memmove
memmove_lem dst src n i mem = elim (Bool-cases (ltb src dst && ltb dst (src + n))) [
  | inl over ↦ elim (Bool-cases (by_words (dst + n) (src + n) n)) [
    | inl words ↦
        rw (over, words)
          (down_by 4 (n / 4) n dst src i mem (whole_words (dst + n) (src + n) n words)
            (ground arith))
    | inr bytes ↦ rw (over, bytes) (down_by 1 n n dst src i mem (omega arith) (ground arith))
  ]
  | inr apart ↦ elim (Bool-cases (by_words dst src n)) [
    | inl words ↦
        rw (apart, words)
          (up_by 4 (n / 4) n dst src i mem (whole_words dst src n words) (ground arith))
    | inr bytes ↦ rw (apart, bytes) (up_by 1 n n dst src i mem (omega arith) (ground arith))
  ]
]

stos_lem :
    (w n v c i : ℕ) (mem : Bytes)
    → stos w n v c mem i ≡ (if leb v i && ltb i (v + n * w) then c else mem i)
unfolding stos
stos_lem w zero v c i mem = ground arith
stos_lem w (suc n) v c i mem =
    let more : suc n * w ≡ w + n * w = suc_mul n w in
    stos_lem w n (v + w) c i _ ∙ rw more (ground arith)

pub memset_lem :
    (v c n i : ℕ) (mem : Bytes)
    → memset v c n mem i ≡ (if leb v i && ltb i (v + n) then c % 256 else mem i)
unfolding memset
memset_lem v c n i mem = elim (Bool-cases (n == 0)) [
  | inl none_at_all ↦ rw none_at_all (ground arith)
  | inr some_bytes ↦ elim (Bool-cases ((v % 4 == 0) && (n % 4 == 0))) [
    | inl words ↦
        rw (some_bytes, words)
          (let e : n / 4 * 4 ≡ n = ground arith in
            rw (stos_lem 4 (n / 4) v (c % 256) i mem, e) refl)
    | inr bytes ↦
        rw (some_bytes, bytes)
          (let e : n * 1 ≡ n = omega arith in rw (stos_lem 1 n v (c % 256) i mem, e) refl)
  ]
]

pub byte_diff_zero : (a b : ℕ) → a < 256 → b < 256 → byte_diff a b ≡ 0 → a ≡ b
byte_diff_zero a b ha hb h = omega arith

pub memcmp_lem :
    (n p q : ℕ) (mem : Bytes)
    → ((i : ℕ) → mem i < 256)
    → (memcmp p q n mem ≡ 0) ↔ ((i : ℕ) → i < n → mem (p + i) ≡ mem (q + i))
unfolding memcmp
memcmp_lem zero p q mem small = (λ h i lo. absurd (omega arith), λ h. refl)
memcmp_lem (suc n) p q mem small = elim (ℕ_discrete (mem p) (mem q)) [
  | yes e ↦ rw ((==_iff (mem p) (mem q)).1 e) (
    λ h. same_after e ((memcmp_lem n (p + 1) (q + 1) mem small).0 h),
    λ h. (memcmp_lem n (p + 1) (q + 1) mem small).1 (λ i lo. after h i lo),
  )
  | no ne ↦ rw (==-ne (mem p) (mem q) ne) (
    λ h. absurd (ne (byte_diff_zero (mem p) (mem q) (small p) (small q) h)),
    λ h. absurd (ne (ap mem (omega arith) ∙ h 0 (omega arith) ∙ ap mem (omega arith))),
  )
]
  where
    same_after :
        mem p ≡ mem q
        → ((i : ℕ) → i < n → mem (p + 1 + i) ≡ mem (q + 1 + i))
        → (i : ℕ) → i < suc n
        → mem (p + i) ≡ mem (q + i)
    same_after e h zero lo = ap mem (omega arith) ∙ e ∙ ap mem (omega arith)
    same_after e h (suc i) lo = ap mem (omega arith) ∙ h i (omega arith) ∙ ap mem (omega arith)

    after :
        ((i : ℕ) → i < suc n → mem (p + i) ≡ mem (q + i))
        → (i : ℕ) → i < n
        → mem (p + 1 + i) ≡ mem (q + 1 + i)
    after h i lo = ap mem (omega arith) ∙ h (suc i) (omega arith) ∙ ap mem (omega arith)
