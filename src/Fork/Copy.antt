-- ===== src/Fork/Copy.antt =====
-- What the child's pages are after the copy of an address space by fork.
use yu_os.Fork.{
  to_self, to_child, Target, cow_perm, Spaces, PageMap, skips, pte_share, pgsize, pte_w, ret, pte_p,
  bit_and, pte_u, pte_syscall, duppage, copy_page, Bool, pte_cow,
}
use yu_os.Prelude.Bits.{bit_and-shift, bit_and-zero, bit_and_step}
use yu_os.Prelude.{
  ℕ, ◌/◌, update, ◌+◌, ◌≡◌, arith, false, true, ◌≢◌, bit_and, refl, ◌<◌, sym, Bool, Bool-cases,
  ◌||◌, ◌∙◌, inl, inr, update_self, ap,
}
use yu_os.Layout.{pte_addr, flag, pgsize, pte_w, pte_p, ret, pte_u}
use yu_os.Fork.Tried.{Tried, Tried-or_panic}

-- The entry of the frame of another entry, with the permissions
abbrev pub entry_with : ℕ → ℕ → ℕ
entry_with e perm = pte_addr e + perm

abbrev pub mapped_to : Target → ℕ → ℕ → Spaces → Spaces
mapped_to to_child pn v s = record s { child = update s.child pn v }
mapped_to to_self pn v s = record s { uvpt = update s.uvpt pn v }

-- Page `q` and the table over it are as they were.
abbrev pub Same : ℕ → Spaces → Spaces → Type 0
Same q s s' =
    (s'.uvpd (q / 1024) ≡ s.uvpd (q / 1024)) × (s'.uvpt q ≡ s.uvpt q) × (s'.child q ≡ s.child q)

-- What a call that returns 0 and the parent's page faults up to the next call leave. The pages that
-- are `written`, those that the parent writes to and PFTEMP, get new entries at a fault, of which
-- nothing is said; of the others, only the page of the call changes.
pub record Maps (written : ℕ → Bool) (t : Target) (pn perm : ℕ) (s s' : Spaces) : Type 0 where
  pub here :
      written pn ≡ false
      → (s'.uvpt pn ≡ (mapped_to t pn (entry_with (s.uvpt pn) perm) s).uvpt pn)
        × (s'.child pn ≡ (mapped_to t pn (entry_with (s.uvpt pn) perm) s).child pn)
  pub elsewhere : (q : ℕ) → q ≢ pn → written q ≡ false → Same q s s'

-- A call that returns 0 maps the page; it may fail.
pub record IsPageMap (map : PageMap) (written : ℕ → Bool) : Type 0 where
  pub maps :
      (t : Target) (pn perm : ℕ) (s s' : Spaces)
      → map t pn perm s ≡ (ret 0, s')
      → Maps written t pn perm s s'

-- How a page `e` of the parent stands in both spaces: in its frame; and unless it was shared,
-- neither may write to it.
pub record IsCopied (e own child : ℕ) : Type 0 where
  pub same_frame : (own / pgsize ≡ e / pgsize) × (child / pgsize ≡ e / pgsize)
  pub present : flag child pte_p ≡ true
  pub protected : flag e pte_share ≡ false → (flag own pte_w ≡ false) × (flag child pte_w ≡ false)

-- A page that the loop passes over stays as it is.
abbrev pub PageAfter : ℕ → Spaces → Spaces → Type 0
PageAfter pn s s' =
    (skips pn s ≡ true → (s'.uvpt pn ≡ s.uvpt pn) × (s'.child pn ≡ s.child pn))
    × (skips pn s ≡ false → IsCopied (s.uvpt pn) (s'.uvpt pn) (s'.child pn))

-- The call for page `pn` that failed in state `s`, or in the one that the call for the child left
pub data Refused (map : PageMap) (pn : ℕ) (s : Spaces) : Type 0 where
  shared :
      flag (s.uvpt pn) pte_share ≡ true
      → (map to_child pn (bit_and (s.uvpt pn) pte_syscall) s).0 ≢ ret 0
      → Refused map pn s
  read_only :
      flag (s.uvpt pn) pte_share ≡ false
      → flag (s.uvpt pn) pte_w ≡ false
      → (map to_child pn 5 s).0 ≢ ret 0
      → Refused map pn s
  for_child :
      flag (s.uvpt pn) pte_share ≡ false
      → (flag (s.uvpt pn) pte_w || flag (s.uvpt pn) pte_cow) ≡ true
      → (map to_child pn 0x805 s).0 ≢ ret 0
      → Refused map pn s
  for_parent :
      {s1 : Spaces}
      → flag (s.uvpt pn) pte_share ≡ false
      → (flag (s.uvpt pn) pte_w || flag (s.uvpt pn) pte_cow) ≡ true
      → map to_child pn 0x805 s ≡ (ret 0, s1)
      → (map to_self pn 0x805 s1).0 ≢ ret 0
      → Refused map pn s

flags-narrow : (e : ℕ) → bit_and e pte_syscall < 4096
flags-narrow e =
    let high : bit_and e pte_syscall / 4096 ≡ 0 =
      sym (bit_and-shift 12 e pte_syscall) ∙ bit_and-zero (e / 4096) in
    omega arith

IsCopied-shared :
    (e : ℕ)
    → flag e pte_share ≡ true
    → flag e pte_p ≡ true
    → IsCopied e e (entry_with e (bit_and e pte_syscall))
IsCopied-shared e share p =
    let narrow = flags-narrow e in
    let odd = bit_and_step e pte_syscall in
    record {
      same_frame = (refl, omega arith);
      present = ground arith;
      protected = λ h. absurd (cc);
    }

IsCopied-cow : (e : ℕ) → IsCopied e (entry_with e cow_perm) (entry_with e cow_perm)
IsCopied-cow e = record {
  same_frame = (omega arith, omega arith);
  present = ground arith;
  protected = λ h. (ground arith, ground arith);
}

IsCopied-read : (e : ℕ) → flag e pte_w ≡ false → IsCopied e e (entry_with e (pte_p + pte_u))
IsCopied-read e quiet = record {
  same_frame = (refl, omega arith);
  present = ground arith;
  protected = λ h. (quiet, ground arith);
}

-- What `copy_page` leaves
pub record Step (written : ℕ → Bool) (pn : ℕ) (s s' : Spaces) : Type 0 where
  pub only : (q : ℕ) → q ≢ pn → written q ≡ false → Same q s s'
  pub after : written pn ≡ false → PageAfter pn s s'

module _ (map : PageMap) (written : ℕ → Bool) (law : IsPageMap map written) (pn : ℕ)
    (s : Spaces) where
  Step-child :
      (perm : ℕ) (s' : Spaces)
      → skips pn s ≡ false
      → IsCopied (s.uvpt pn) (s.uvpt pn) (entry_with (s.uvpt pn) perm)
      → map to_child pn perm s ≡ (ret 0, s')
      → Step written pn s s'
  Step-child perm s' on c e =
      let m = law.maps to_child pn perm s s' e in
      record {
        only = m.elsewhere;
        after = λ w.
            (λ h. absurd (cc), λ h. rw ((m.here w).0, (m.here w).1 ∙ update_self s.child pn _) c);
      }

  Step-both :
      (s1 s' : Spaces)
      → skips pn s ≡ false
      → map to_child pn cow_perm s ≡ (ret 0, s1)
      → map to_self pn cow_perm s1 ≡ (ret 0, s')
      → Step written pn s s'
  Step-both s1 s' on e1 e2 =
      let m1 = law.maps to_child pn cow_perm s s1 e1 in
      let m2 = law.maps to_self pn cow_perm s1 s' e2 in
      record {
        only = λ q ne w.
            let a = m1.elsewhere q ne w in
            let b = m2.elsewhere q ne w in (b.0 ∙ a.0, b.1 ∙ a.1, b.2 ∙ a.2);
        after = λ w. (
          λ h. absurd (cc),
          λ h.
              let own : s'.uvpt pn ≡ entry_with (s.uvpt pn) cow_perm =
                (m2.here w).0
                ∙ update_self s1.uvpt pn _
                ∙ ap (λ e. entry_with e cow_perm) (m1.here w).0 in
              let child : s'.child pn ≡ entry_with (s.uvpt pn) cow_perm =
                (m2.here w).1 ∙ (m1.here w).1 ∙ update_self s.child pn _ in
              rw (own, child) (IsCopied-cow (s.uvpt pn)),
        );
      }

  Tried-duppage :
      skips pn s ≡ false
      → flag (s.uvpt pn) pte_p ≡ true
      → Tried (Step written pn s) (Refused map pn s) (duppage map pn s)
  unfolding duppage
  Tried-duppage on p = elim (Bool-cases (flag (s.uvpt pn) pte_share)) [
    | inl share ↦ rw share (
        Tried-or_panic (map to_child pn (bit_and (s.uvpt pn) pte_syscall) s) _ (shared share)
          (λ s' e. inl (s', refl, Step-child _ s' on (IsCopied-shared (s.uvpt pn) share p) e)))
    | inr own ↦ elim (Bool-cases (flag (s.uvpt pn) pte_w || flag (s.uvpt pn) pte_cow)) [
      | inl writes ↦
          rw (own, writes)
            (Tried-or_panic (map to_child pn cow_perm s) _ (for_child own writes) (λ s1 e1.
              Tried-or_panic (map to_self pn cow_perm s1) _ (for_parent own writes e1)
                (λ s2 e2. inl (s2, refl, Step-both s1 s2 on e1 e2))))
      | inr reads ↦
          let quiet = or_false (flag (s.uvpt pn) pte_w) _ reads in
          rw (own, reads)
            (Tried-or_panic (map to_child pn (pte_p + pte_u) s) _ (read_only own quiet)
              (λ s' e. inl (s', refl, Step-child _ s' on (IsCopied-read (s.uvpt pn) quiet) e)))
    ]
  ]
    where
      or_false : (a b : Bool) → (a || b) ≡ false → a ≡ false
      or_false a b h = ground arith

  pub Tried-copy_page :
      Tried (Step written pn s) ((skips pn s ≡ false) × Refused map pn s) (copy_page map pn s)
  Tried-copy_page = elim (Bool-cases (skips pn s)) [
    | inl passed ↦ rw passed (
        inl (
          s,
          refl,
          record {
            only = λ q ne w. (refl, refl, refl);
            after = λ w. (λ h. (refl, refl), λ h. absurd (cc));
          },
        ))
    | inr on ↦ rw on (elim (Tried-duppage on (is_present on)) [
      | inl done ↦ inl done
      | inr failed ↦ inr (failed.0, (refl, failed.1))
    ])
  ]
    where
      is_present : skips pn s ≡ false → flag (s.uvpt pn) pte_p ≡ true
      is_present on = elim (Bool-cases (flag (s.uvpt pn) pte_p)) [
        | inl p ↦ p
        | inr absent ↦ absurd (ground arith)
      ]
