-- ===== src/Strings/Text.antt =====
-- The routines on null-terminated strings as operations on lists of bytes.
use yu_os.Strings.{Bytes, strlen_loop, strlen, strcpy, strcmp, strcat, byte_diff, copied, ℕ}
use yu_os.Strings.Blocks.{byte_diff_zero}
use yu_os.Prelude.{
  false, ℕ, List, ◌≡◌, ◌<◌, length, ◌≤◌, some, ◌⊎◌, ◌+◌, ◌∷◌, ◌++◌, ◌≢◌, ◌↔◌, ap, arith, ◌∙◌, [],
  suc, ==_iff, update, ==-ne, sym, zero, refl, Bool, update_ne, if◌then◌else◌, ◌&&◌, ◌==◌, not,
  true,
}
use native.Mathlib.Decide.{ℕ_discrete}
use mathlib.Core.Path.{subst}

-- At `s` stand the bytes of the string, none of which is 0, and then a 0.
abbrev pub Holds : Bytes → ℕ → List ℕ → Type 0
Holds mem s [] = mem s ≡ 0
Holds mem s (c ∷ cs) = (mem s ≡ c) × (c ≢ 0) × Holds mem (s + 1) cs

-- The memory matters from `s` up to the 0 only.
pub Holds-same :
    (mem mem' : Bytes) (s t : ℕ) (str : List ℕ)
    → ((i : ℕ) → i ≤ length str → mem' (t + i) ≡ mem (s + i))
    → Holds mem s str
    → Holds mem' t str
Holds-same mem mem' s t [] same h =
    ap mem' (omega arith) ∙ same 0 (omega arith) ∙ ap mem (omega arith) ∙ h
Holds-same mem mem' s t (c ∷ cs) same h = (
  ap mem' (omega arith) ∙ same 0 (omega arith) ∙ ap mem (omega arith) ∙ h.0,
  h.1,
  Holds-same mem mem' (s + 1) (t + 1) cs
      (λ i lo. ap mem' (omega arith) ∙ same (suc i) (omega arith) ∙ ap mem (omega arith)) h.2,
)

strlen_loop_lem :
    (fuel s n : ℕ) (mem : Bytes) (str : List ℕ)
    → Holds mem s str
    → length str < fuel
    → strlen_loop fuel mem s n ≡ some (n + length str)
unfolding strlen_loop
strlen_loop_lem zero s n mem str h lo = absurd (omega arith)
strlen_loop_lem (suc fuel) s n mem [] h lo = rw h (ap some (omega arith))
strlen_loop_lem (suc fuel) s n mem (c ∷ cs) h lo =
    rw (==-ne (mem s) 0 (λ e. h.1 (sym h.0 ∙ e)))
      (strlen_loop_lem fuel (s + 1) (n + 1) mem cs h.2 (omega arith) ∙ ap some (omega arith))

pub strlen_lem :
    (fuel s : ℕ) (mem : Bytes) (str : List ℕ)
    → Holds mem s str
    → length str < fuel
    → strlen fuel mem s ≡ some (length str)
unfolding strlen
strlen_lem fuel s mem str h lo = strlen_loop_lem fuel s 0 mem str h lo ∙ ap some (omega arith)

-- Two strings that differ at once
strcmp_differ :
    (fuel p q : ℕ) (mem : Bytes) (a b : List ℕ)
    → ((i : ℕ) → mem i < 256)
    → mem p ≢ mem q
    → a ≢ b
    → (v : ℕ) × (strcmp (suc fuel) p q mem ≡ some v) × ((v ≡ 0) ↔ (a ≡ b))
unfolding strcmp
strcmp_differ fuel p q mem a b small ne apart = (
  byte_diff (mem p) (mem q),
  stops (not (mem p == 0)),
  (λ e. absurd (ne (byte_diff_zero (mem p) (mem q) (small p) (small q) e)), λ e. absurd (apart e)),
)
  where
    stops :
        (nonzero : Bool)
        → (if nonzero && (mem p == mem q)
            then strcmp fuel (p + 1) (q + 1) mem
            else some (byte_diff (mem p) (mem q)))
          ≡ some (byte_diff (mem p) (mem q))
    stops true = rw (==-ne (mem p) (mem q) ne) refl
    stops false = refl

-- `strcmp` of two strings in a memory of bytes ends, and its result is 0 exactly if the strings are
-- equal.
pub strcmp_lem :
    (fuel p q : ℕ) (mem : Bytes) (a b : List ℕ)
    → ((i : ℕ) → mem i < 256)
    → Holds mem p a
    → Holds mem q b
    → length a < fuel
    → (v : ℕ) × (strcmp fuel p q mem ≡ some v) × ((v ≡ 0) ↔ (a ≡ b))
unfolding strcmp
strcmp_lem zero p q mem a b small ha hb lo = absurd (omega arith)
strcmp_lem (suc fuel) p q mem [] [] small ha hb lo = (0, rw (ha, hb) refl, (λ e. refl, λ e. refl))
strcmp_lem (suc fuel) p q mem [] (d ∷ ds) small ha hb lo =
    strcmp_differ fuel p q mem [] (d ∷ ds) small (λ e. hb.1 (sym hb.0 ∙ sym e ∙ ha))
      (λ e. absurd (cc))
strcmp_lem (suc fuel) p q mem (c ∷ cs) [] small ha hb lo =
    strcmp_differ fuel p q mem (c ∷ cs) [] small (λ e. ha.1 (sym ha.0 ∙ e ∙ hb)) (λ e. absurd (cc))
strcmp_lem (suc fuel) p q mem (c ∷ cs) (d ∷ ds) small ha hb lo = elim (ℕ_discrete c d) [
  | no ne ↦
      strcmp_differ fuel p q mem (c ∷ cs) (d ∷ ds) small (λ e. ne (sym ha.0 ∙ e ∙ hb.0))
        (λ e. absurd (ne (cc)))
  | yes e ↦
      (let (v, run, zero_iff) =
          strcmp_lem fuel (p + 1) (q + 1) mem cs ds small ha.2 hb.2 (omega arith) in
        (
          v,
          rw
              (
                ==-ne (mem p) 0 (λ z. ha.1 (sym ha.0 ∙ z)),
                (==_iff (mem p) (mem q)).1 (ha.0 ∙ e ∙ sym hb.0),
              )
              run,
          (λ z. rw e (ap (λ l. d ∷ l) (zero_iff.0 z)), λ same. zero_iff.1 (cc)),
        ))
]

-- `strcpy` with room for the string, which `dst` does not cut off
strcpy_lem :
    (fuel dst src : ℕ) (mem : Bytes) (str : List ℕ)
    → Holds mem src str
    → length str < fuel
    → (dst ≤ src) ⊎ (src + length str < dst)
    → (mem' : Bytes) × (strcpy fuel dst src mem ≡ some mem')
      × ((i : ℕ) → mem' i ≡ copied (length str + 1) dst src mem i)
unfolding strcpy
strcpy_lem zero dst src mem str h lo apart = absurd (omega arith)
strcpy_lem (suc fuel) dst src mem [] h lo apart =
    (update mem dst (mem src), rw h refl, λ i. ground arith)
strcpy_lem (suc fuel) dst src mem (c ∷ cs) h lo apart =
    let (mem', run, at) =
      strcpy_lem fuel (dst + 1) (src + 1) (update mem dst (mem src)) cs
        (Holds-same mem (update mem dst (mem src)) (src + 1) (src + 1) cs
          (λ i near. update_ne mem dst (src + 1 + i) (mem src) (omega (arith, apart))) h.2)
        (omega arith) (omega (arith, apart)) in
    (mem', rw (==-ne (mem src) 0 (λ e. h.1 (sym h.0 ∙ e))) run, λ i. at i ∙ ground arith)

Holds-append :
    (mem mem' : Bytes) (dst : ℕ) (a b : List ℕ)
    → ((i : ℕ) → i < length a → mem' (dst + i) ≡ mem (dst + i))
    → Holds mem dst a
    → Holds mem' (dst + length a) b
    → Holds mem' dst (a ++ b)
Holds-append mem mem' dst [] b same ha hb = subst (λ t. Holds mem' t b) (omega arith) hb
Holds-append mem mem' dst (c ∷ cs) b same ha hb = (
  ap mem' (omega arith) ∙ same 0 (omega arith) ∙ ap mem (omega arith) ∙ ha.0,
  ha.1,
  Holds-append mem mem' (dst + 1) cs b
      (λ i lo. ap mem' (omega arith) ∙ same (suc i) (omega arith) ∙ ap mem (omega arith)) ha.2
      (subst (λ t. Holds mem' t b) (omega arith) hb),
)

-- If the source string does not overlap the place of the joined string, `strcat` ends and makes the
-- string at the target the target string followed by the source string.
pub strcat_lem :
    (fuel dst src : ℕ) (mem : Bytes) (a b : List ℕ)
    → Holds mem dst a
    → Holds mem src b
    → length a < fuel
    → length b < fuel
    → (src + length b < dst) ⊎ (dst + length a + length b < src)
    → (mem' : Bytes) × (strcat fuel dst src mem ≡ some mem') × Holds mem' dst (a ++ b)
unfolding strcat
strcat_lem fuel dst src mem a b ha hb la lb apart =
    let (mem', run, at) = strcpy_lem fuel (dst + length a) src mem b hb lb (omega (arith, apart)) in
    (
      mem',
      rw (strlen_lem fuel dst mem a ha la) run,
      Holds-append mem mem' dst a b (λ i lo. at (dst + i) ∙ ground arith) ha
          (Holds-same mem mem' src (dst + length a) b
            (λ i lo. at (dst + length a + i) ∙ ground arith) hb),
    )
