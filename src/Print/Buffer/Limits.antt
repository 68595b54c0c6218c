-- ===== src/Print/Buffer/Limits.antt =====
-- What vsnprintf of lib/printfmt.c writes, and where.
use yu_os.Prelude.{
  ℕ, List, ◌≡◌, ◌+◌, ◌<◌, ◌≢◌, ◌≤◌, update, ◌∷◌, length, ◌%◌, suc, min, ◌-◌, arith, ◌∙◌, some,
  Bool-cases, ltb, ap, ◌⊎◌, inl, inr, [], refl, ==_refl, ==-ne, zero,
}
use yu_os.Print.Buffer.{
  put_all, vsnprintf, Sprintbuf, sprintputch, Bytes, vprintfmt, ret, terminated,
}
use yu_os.Strings.{Bytes}
use yu_os.Print.Convert.{vprintfmt, text_at}
use yu_os.Layout.{ret}
use yu_os.Print.Buffer.Formats.{
  Piece, plain, written, char_arg, AreGood, text_arg, arguments, percent, shown_text, vprintfmt_lem,
}
use yu_os.Strings.Text.{Holds, Holds-same}

-- The outcome of putting the characters into a buffer that is not past its end
record Put (s : List ℕ) (b b' : Sprintbuf) : Type 0 where
  counts : b'.cnt ≡ b.cnt + length s
  stands : b'.buf ≡ min (b.buf + length s) b.ebuf
  stored : (i : ℕ) → i < length s → b.buf + i < b.ebuf → b'.mem (b.buf + i) ≡ text_at s i % 256
  kept : (a : ℕ) → (a < b.buf) ⊎ (b.ebuf ≤ a) → b'.mem a ≡ b.mem a

abbrev after_char : ℕ → Sprintbuf → Sprintbuf
after_char c b = record b { cnt = b.cnt + 1; buf = b.buf + 1; mem = update b.mem b.buf (c % 256) }

plus_zero : (n : ℕ) → n + 0 ≡ n
plus_zero n = omega arith

shift : (n i : ℕ) → n + suc i ≡ n + 1 + i
shift n i = omega arith

Put-room :
    (c : ℕ) (s : List ℕ) (b b' : Sprintbuf)
    → b.buf < b.ebuf
    → Put s (after_char c b) b'
    → Put (c ∷ s) b b'
Put-room c s b b' room p = record {
  counts = p.counts ∙ (omega arith);
  stands = p.stands ∙ (omega arith);
  stored = stored;
  kept = λ a out. p.kept a (wider a out) ∙ same a out;
}
  where
    stored :
        (i : ℕ)
        → i < suc (length s)
        → b.buf + i < b.ebuf
        → b'.mem (b.buf + i) ≡ text_at (c ∷ s) i % 256
    stored zero h g =
        ap b'.mem (plus_zero b.buf) ∙ p.kept b.buf (inl (omega arith)) ∙ rw (==_refl b.buf) refl
    stored (suc i) h g = ap b'.mem (shift b.buf i) ∙ p.stored i (omega arith) (omega arith)

    wider : (a : ℕ) → (a < b.buf) ⊎ (b.ebuf ≤ a) → (a < b.buf + 1) ⊎ (b.ebuf ≤ a)
    wider a (inl h) = inl (omega arith)
    wider a (inr h) = inr h

    same : (a : ℕ) → (a < b.buf) ⊎ (b.ebuf ≤ a) → update b.mem b.buf (c % 256) a ≡ b.mem a
    same a (inl h) = rw (==-ne b.buf a (λ e. absurd (omega arith))) refl
    same a (inr h) = rw (==-ne b.buf a (λ e. absurd (omega arith))) refl

Put-full :
    (c : ℕ) (s : List ℕ) (b b' : Sprintbuf)
    → b.buf ≡ b.ebuf
    → Put s (record b { cnt = b.cnt + 1 }) b'
    → Put (c ∷ s) b b'
Put-full c s b b' full p = record {
  counts = p.counts ∙ (omega arith);
  stands = p.stands ∙ (omega arith);
  stored = λ i h g. absurd (omega arith);
  kept = p.kept;
}

Put-put_all : (s : List ℕ) (b : Sprintbuf) → b.buf ≤ b.ebuf → Put s b (put_all s b)
unfolding put_all sprintputch
Put-put_all [] b h = record {
  counts = omega arith;
  stands = omega arith;
  stored = λ i h g. absurd (omega arith);
  kept = λ a out. refl;
}
Put-put_all (c ∷ s) b h = elim (Bool-cases (ltb b.buf b.ebuf)) [
  | inl room ↦
      rw room (Put-room c s b _ (ground arith) (Put-put_all s (after_char c b) (ground arith)))
  | inr full ↦
      rw full (Put-full c s b _ (ground arith) (Put-put_all s (record b { cnt = b.cnt + 1 }) h))
]

-- The memory after a text was printed into a buffer of `n` bytes at `buf`
pub record IsPrinted (buf n : ℕ) (s : List ℕ) (mem mem' : Bytes) : Type 0 where
  pub text : (i : ℕ) → i < length s → i < n - 1 → mem' (buf + i) ≡ text_at s i % 256
  pub null : mem' (buf + min (length s) (n - 1)) ≡ 0
  pub kept : (a : ℕ) → (a < buf) ⊎ (buf + n ≤ a) → mem' a ≡ mem a

abbrev start : ℕ → ℕ → Bytes → Sprintbuf
start buf n mem = record { buf = buf; ebuf = buf + n - 1; cnt = 0; mem = mem }

IsPrinted-Put :
    (buf n : ℕ) (s : List ℕ) (mem : Bytes) (b' : Sprintbuf)
    → n ≢ 0
    → Put s (start buf n mem) b'
    → IsPrinted buf n s mem (update b'.mem b'.buf 0)
IsPrinted-Put buf n s mem b' ne p = record {
  text = λ i h g.
      rw (==-ne b'.buf (buf + i) (λ e. absurd (let t = p.stands in omega arith)))
        (p.stored i h (omega arith));
  null = rw (here (p.stands), ==_refl b'.buf) refl;
  kept = λ a out. apart a out ∙ p.kept a (outside a out);
}
  where
    here : b'.buf ≡ min (buf + length s) (buf + n - 1) → buf + min (length s) (n - 1) ≡ b'.buf
    here e = omega arith

    outside : (a : ℕ) → (a < buf) ⊎ (buf + n ≤ a) → (a < buf) ⊎ (buf + n - 1 ≤ a)
    outside a (inl h) = inl h
    outside a (inr h) = inr (omega arith)

    apart : (a : ℕ) → (a < buf) ⊎ (buf + n ≤ a) → update b'.mem b'.buf 0 a ≡ b'.mem a
    apart a (inl h) = rw (==-ne b'.buf a (λ e. absurd (let t = p.stands in omega arith))) refl
    apart a (inr h) = rw (==-ne b'.buf a (λ e. absurd (let t = p.stands in omega arith))) refl

module _ (fuel buf n fmt : ℕ) (args : List ℕ) (mem : Bytes) (s : List ℕ) where
  -- The text that the format prints, put into the buffer
  IsPrinted-vsnprintf :
      buf ≢ 0
      → n ≢ 0
      → vprintfmt fuel mem fmt args ≡ some s
      → (mem' : Bytes) × (vsnprintf fuel buf n fmt args mem ≡ some (ret (length s), mem'))
        × IsPrinted buf n s mem mem'
  unfolding vsnprintf
  IsPrinted-vsnprintf b m run =
      let put = Put-put_all s (start buf n mem) (omega arith) in
      let end = terminated (put_all s (start buf n mem)) in
      (
        end.1,
        rw (==-ne buf 0 b, ==-ne n 0 m, run)
            (ap (λ c. some (ret c, end.1)) (put.counts ∙ omega arith)),
        IsPrinted-Put buf n s mem (put_all s (start buf n mem)) m put,
      )

-- The bytes from `p` on for a length do not overlap the buffer.
abbrev pub IsApart : ℕ → ℕ → ℕ → ℕ → Type 0
IsApart buf n p len = (p + len ≤ buf) ⊎ (buf + n ≤ p)

abbrev pub AreApart : ℕ → ℕ → List Piece → Type 0
AreApart buf n [] = Unit
AreApart buf n (plain c ∷ ps) = AreApart buf n ps
AreApart buf n (percent ∷ ps) = AreApart buf n ps
AreApart buf n (char_arg c ∷ ps) = AreApart buf n ps
AreApart buf n (text_arg p t ∷ ps) = IsApart buf n p (length t + 1) × AreApart buf n ps

-- Let a format consist of plain characters, %%, %c and %s with neither flags nor numbers, let it
-- and the texts of the arguments be strings that do not overlap the buffer, and let the fuel be
-- more than the format and each text is long. If a buffer is given and has room for at least one
-- byte, `vsnprintf` returns the length of the whole text, in which the characters and the texts
-- stand for their arguments. The buffer holds this as far as there is room before the last byte,
-- then a null byte; no byte outside the buffer has changed, and the format is still there.
pub vsnprintf_lem :
    (fuel buf n fmt : ℕ) (mem : Bytes) (ps : List Piece)
    → buf ≢ 0
    → n ≢ 0
    → Holds mem fmt (written ps)
    → length (written ps) < fuel
    → AreGood mem fuel ps
    → IsApart buf n fmt (length (written ps) + 1)
    → AreApart buf n ps
    → (mem' : Bytes) × (vsnprintf fuel buf n fmt (arguments ps) mem
        ≡ some (ret (length (shown_text ps)), mem'))
      × IsPrinted buf n (shown_text ps) mem mem'
      × Holds mem' fmt (written ps)
vsnprintf_lem fuel buf n fmt mem ps b m h lo g apart texts =
    let (mem', run, p) =
      IsPrinted-vsnprintf fuel buf n fmt (arguments ps) mem (shown_text ps) b m
        (vprintfmt_lem fuel fmt mem ps h lo g) in
    (
      mem',
      run,
      p,
      Holds-same mem mem' fmt fmt (written ps) (λ i le. p.kept (fmt + i) (outside i le apart)) h,
    )
  where
    outside :
        (i : ℕ)
        → i ≤ length (written ps)
        → IsApart buf n fmt (length (written ps) + 1)
        → (fmt + i < buf) ⊎ (buf + n ≤ fmt + i)
    outside i le (inl h) = inl (omega arith)
    outside i le (inr h) = inr (omega arith)
