-- ===== src/Tests/FaultExamples.antt =====
-- The theorem on the handler of page faults, with a kernel that always has a page: its number is one more
-- than those of all frames that are mapped.
use yu_os.Fork.Fault.{Space, Calls, frame, own_perm, pgfault}
use yu_os.Fork.Fault.Private.{Allocated, IsPaging, IsPrivate, Failed, pgfault-IsPrivate}
use yu_os.Fork.Copy.{entry_with}
use yu_os.Prelude.{
  ℕ, zero, suc, ok, ◌≡◌, ◌<◌, ◌≤◌, ◌⊎◌, ◌+◌, ◌*◌, ◌^◌, max, ◌==◌, update, update_self, update_ne,
  if◌then◌else◌, arith, refl, Bool-cases, inl, inr, ==_iff, sym, ap, panic,
}
use yu_os.Layout.{ret, pgsize}
use mathlib.Core.Path.{subst}

highest : ℕ → Space → ℕ
highest zero s = 0
highest (suc n) s = max (frame (s.uvpt n)) (highest n s)

le-highest : (n : ℕ) (s : Space) (q : ℕ) → q < n → frame (s.uvpt q) ≤ highest n s
unfolding highest
le-highest zero s q h = absurd (omega arith)
le-highest (suc n) s q h = elim (Bool-cases (q == n)) [
  | inl e ↦ rw ((==_iff q n).0 e) (omega arith)
  | inr e ↦ let r = le-highest n s q (ground arith) in omega arith
]

fresh_frame : Space → ℕ
fresh_frame s = suc (highest (2 ^ 20) s)

abbrev with_page : ℕ → ℕ → Space → Space
with_page pn perm s = record {
  uvpt = update s.uvpt pn (fresh_frame s * pgsize + perm);
  byte = update s.byte (fresh_frame s) (λ o. 0);
}

abbrev calls : Calls
calls = record {
  sys_page_alloc = λ pn perm s. (ret 0, with_page pn perm s);
  sys_page_map = λ src dst perm s.
      (ret 0, record s { uvpt = update s.uvpt dst (entry_with (s.uvpt src) perm) });
  sys_page_unmap = λ pn s. (ret 0, record s { uvpt = update s.uvpt pn 0 });
}

with_page-Allocated : (pn : ℕ) (s : Space) → Allocated pn own_perm s (with_page pn own_perm s)
unfolding fresh_frame
with_page-Allocated pn s = record {
  new = fresh_frame s;
  entry = update_self s.uvpt pn (fresh_frame s * pgsize + own_perm);
  fresh = λ q h p. let r = le-highest (2 ^ 20) s q h in omega arith;
  cleared = λ o. ap (λ b. b o) (update_self s.byte (fresh_frame s) (λ o. 0));
  entries = λ q ne. update_ne s.uvpt pn q (fresh_frame s * pgsize + own_perm) (λ e. ne (sym e));
  bytes = λ f ne. update_ne s.byte (fresh_frame s) f (λ o. 0) (λ e. ne (sym e));
}

calls-IsPaging : IsPaging calls
calls-IsPaging = record {
  allocates = λ pn s s' e.
      let same : with_page pn own_perm s ≡ s' = ap (λ r. r.1) e in
      subst (λ t. Allocated pn own_perm s t) same (with_page-Allocated pn s);
  maps = λ src dst s s' e. sym (ap (λ r. r.1) e);
  unmaps = λ pn s s' e. sym (ap (λ r. r.1) e);
}

-- Page 0x800 is mapped copy-on-write in frame 4.
abbrev space : Space
space = record { uvpt = λ q. if q == 0x800 then 0x4805 else 0; byte = λ f o. f }

pgfault-IsPrivate_example :
    ((s' : Space) × (pgfault calls 0x800123 space ≡ ok s') × IsPrivate 0x800 space s')
    ⊎ ((pgfault calls 0x800123 space ≡ panic) × Failed calls 0x800 space)
pgfault-IsPrivate_example =
    pgfault-IsPrivate calls 0x800123 space calls-IsPaging (omega arith) (omega arith) refl refl
