-- ===== src/Fork/Fault/Private.antt =====
-- What the handler of lib/fork.c leaves: a page that no one else has.
use yu_os.Fork.{pte_cow, panic}
use yu_os.Fork.Fault.{Space, Calls, frame, pftemp, own_perm, copy_page_to, pgfault}
use yu_os.Fork.Copy.{entry_with}
use yu_os.Prelude.{
  ℕ, ok, ◌≡◌, ◌≢◌, ◌⊎◌, inl, ◌+◌, ◌*◌, ◌/◌, ◌<◌, update, update_self, update_ne, true, arith, refl,
  ◌∙◌, sym, ap, ◌^◌, panic,
}
use yu_os.Layout.{ret, flag, pte_p, pte_w, pgsize}
use yu_os.Fork.Tried.{Tried-or_panic}

-- A new page of zeros, whose frame is mapped nowhere else in the 2^20 pages of the address space
pub record Allocated (pn perm : ℕ) (s s' : Space) : Type 0 where
  pub new : ℕ
  pub entry : s'.uvpt pn ≡ new * pgsize + perm
  pub fresh : (q : ℕ) → q < 2 ^ 20 → flag (s.uvpt q) pte_p ≡ true → frame (s.uvpt q) ≢ new
  pub cleared : (o : ℕ) → s'.byte new o ≡ 0
  pub entries : (q : ℕ) → q ≢ pn → s'.uvpt q ≡ s.uvpt q
  pub bytes : (f : ℕ) → f ≢ new → s'.byte f ≡ s.byte f

-- What the calls do where they return 0; each may fail instead.
pub record IsPaging (calls : Calls) : Type 0 where
  pub allocates :
      (pn : ℕ) (s s' : Space)
      → calls.sys_page_alloc pn own_perm s ≡ (ret 0, s')
      → Allocated pn own_perm s s'
  pub maps :
      (src dst : ℕ) (s s' : Space)
      → calls.sys_page_map src dst own_perm s ≡ (ret 0, s')
      → s' ≡ (record s { uvpt = update s.uvpt dst (entry_with (s.uvpt src) own_perm) })
  pub unmaps :
      (pn : ℕ) (s s' : Space)
      → calls.sys_page_unmap pn s ≡ (ret 0, s')
      → s' ≡ (record s { uvpt = update s.uvpt pn 0 })

-- Page `pn` has its bytes in a frame of its own, to which it may write; the other pages are as they
-- were, and so are the bytes of every other frame, the one before included.
pub record IsPrivate (pn : ℕ) (s s' : Space) : Type 0 where
  pub present : flag (s'.uvpt pn) pte_p ≡ true
  pub writable : flag (s'.uvpt pn) pte_w ≡ true
  pub contents : s'.byte (frame (s'.uvpt pn)) ≡ s.byte (frame (s.uvpt pn))
  pub own :
      (q : ℕ) → q < 2 ^ 20 → flag (s.uvpt q) pte_p ≡ true → frame (s.uvpt q) ≢ frame (s'.uvpt pn)
  pub entries : (q : ℕ) → q ≢ pn → q ≢ pftemp → s'.uvpt q ≡ s.uvpt q
  pub bytes : (f : ℕ) → f ≢ frame (s'.uvpt pn) → s'.byte f ≡ s.byte f
  pub no_temp : s'.uvpt pftemp ≡ 0

IsPrivate-calls :
    (pn : ℕ) (s s1 s2 s3 s4 : Space)
    → pn < 2 ^ 20
    → pn ≢ pftemp
    → flag (s.uvpt pn) pte_p ≡ true
    → Allocated pftemp own_perm s s1
    → s2 ≡ (record (copy_page_to pftemp pn s1) { uvpt = update s1.uvpt pn 0 })
    → s3 ≡ (record s2 { uvpt = update s2.uvpt pn (entry_with (s2.uvpt pftemp) own_perm) })
    → s4 ≡ (record s3 { uvpt = update s3.uvpt pftemp 0 })
    → IsPrivate pn s s4
IsPrivate-calls pn s s1 s2 s3 s4 small ne there a e2 e3 e4 =
    let entry = a.entry in
    let kept : s1.uvpt pn ≡ s.uvpt pn = a.entries pn ne in
    let temp1 : frame (s1.uvpt pftemp) ≡ a.new = omega arith in
    let temp2 : s2.uvpt pftemp ≡ s1.uvpt pftemp = rw e2 (update_ne s1.uvpt pn pftemp 0 ne) in
    let u3 : s3.uvpt pn ≡ entry_with (s2.uvpt pftemp) own_perm =
      rw e3 (update_self s2.uvpt pn (entry_with (s2.uvpt pftemp) own_perm)) in
    let u4 : s4.uvpt pn ≡ s3.uvpt pn = rw e4 (update_ne s3.uvpt pftemp pn 0 (λ e. ne (sym e))) in
    let mine : s4.uvpt pn ≡ a.new * pgsize + own_perm = omega arith in
    let fr : frame (s4.uvpt pn) ≡ a.new = omega arith in
    let old : frame (s.uvpt pn) ≢ a.new = a.fresh pn small there in
    let written : s4.byte ≡ update s1.byte a.new (s1.byte (frame (s1.uvpt pn))) =
      rw (e4, e3, e2, temp1) refl in
    record {
      present = rw mine (ground arith);
      writable = rw mine (ground arith);
      contents = rw fr (
          ap (λ b. b a.new) written
          ∙ update_self s1.byte a.new (s1.byte (frame (s1.uvpt pn)))
          ∙ ap (λ e. s1.byte (frame e)) kept
          ∙ a.bytes (frame (s.uvpt pn)) old);
      own = λ q h p. rw fr (a.fresh q h p);
      entries = λ q n t.
          let v4 : s4.uvpt q ≡ s3.uvpt q = rw e4 (update_ne s3.uvpt pftemp q 0 (λ e. t (sym e))) in
          let v3 : s3.uvpt q ≡ s2.uvpt q =
            rw e3
              (update_ne s2.uvpt pn q (entry_with (s2.uvpt pftemp) own_perm) (λ e. n (sym e))) in
          let v2 : s2.uvpt q ≡ s1.uvpt q = rw e2 (update_ne s1.uvpt pn q 0 (λ e. n (sym e))) in
          v4 ∙ v3 ∙ v2 ∙ a.entries q t;
      bytes = λ f n.
          let other : f ≢ a.new = λ e. n (e ∙ sym fr) in
          ap (λ b. b f) written
          ∙ update_ne s1.byte a.new f (s1.byte (frame (s1.uvpt pn))) (λ e. other (sym e))
          ∙ a.bytes f other;
      no_temp = rw e4 (update_self s3.uvpt pftemp 0);
    }

-- The page at PFTEMP holds the bytes of page `pn`.
abbrev pub with_bytes : ℕ → Space → Space
with_bytes pn s = record s {
  byte = update s.byte (s.uvpt 0x7FF / pgsize) (s.byte (s.uvpt pn / pgsize));
}

-- The call of the handler that failed, for page `pn` in state `s`: the calls before it returned 0 and
-- left the state that it was made in. After the first one the bytes are copied to the new page.
pub data Failed (calls : Calls) (pn : ℕ) (s : Space) : Type 0 where
  no_page : (calls.sys_page_alloc pftemp own_perm s).0 ≢ ret 0 → Failed calls pn s
  no_unmap :
      {s1 : Space}
      → calls.sys_page_alloc pftemp own_perm s ≡ (ret 0, s1)
      → (calls.sys_page_unmap pn (with_bytes pn s1)).0 ≢ ret 0
      → Failed calls pn s
  no_map :
      {s1 s2 : Space}
      → calls.sys_page_alloc pftemp own_perm s ≡ (ret 0, s1)
      → calls.sys_page_unmap pn (with_bytes pn s1) ≡ (ret 0, s2)
      → (calls.sys_page_map pftemp pn own_perm s2).0 ≢ ret 0
      → Failed calls pn s
  no_temp :
      {s1 s2 s3 : Space}
      → calls.sys_page_alloc pftemp own_perm s ≡ (ret 0, s1)
      → calls.sys_page_unmap pn (with_bytes pn s1) ≡ (ret 0, s2)
      → calls.sys_page_map pftemp pn own_perm s2 ≡ (ret 0, s3)
      → (calls.sys_page_unmap pftemp s3).0 ≢ ret 0
      → Failed calls pn s

-- Let the calls to the kernel, where they return 0, do what they are asked for, and let a new page
-- be one that is mapped nowhere in the address space. On a fault in a page other than PFTEMP that
-- is present and marked as copy-on-write, either `pgfault` comes to its end, or it panics and one
-- of its calls has failed: the first, or a later one in the state that those before it left, which
-- returned 0. If it comes to its end, the page has the same bytes as before in a frame of its own,
-- to which the environment may write; the other pages but PFTEMP, which is no longer mapped, and
-- the bytes of every other frame are as before.
pub pgfault-IsPrivate :
    (calls : Calls) (fault_va : ℕ) (s : Space)
    → IsPaging calls
    → fault_va < 2 ^ 32
    → fault_va / pgsize ≢ pftemp
    → flag (s.uvpt (fault_va / pgsize)) pte_p ≡ true
    → flag (s.uvpt (fault_va / pgsize)) pte_cow ≡ true
    → ((s' : Space) × (pgfault calls fault_va s ≡ ok s') × IsPrivate (fault_va / pgsize) s s')
      ⊎ ((pgfault calls fault_va s ≡ panic) × Failed calls (fault_va / pgsize) s)
unfolding pgfault
pgfault-IsPrivate calls fault_va s law w ne there cow =
    let pn = fault_va / pgsize in
    rw (there, cow)
      (Tried-or_panic (calls.sys_page_alloc pftemp own_perm s) _ no_page (λ s1 r1.
        Tried-or_panic (calls.sys_page_unmap pn (copy_page_to pftemp pn s1)) _ (no_unmap r1)
          (λ s2 r2.
            Tried-or_panic (calls.sys_page_map pftemp pn own_perm s2) _ (no_map r1 r2) (λ s3 r3.
              Tried-or_panic (calls.sys_page_unmap pftemp s3) _ (no_temp r1 r2 r3) (λ s4 r4. inl (
                s4,
                refl,
                IsPrivate-calls pn s s1 s2 s3 s4 (omega arith) ne there
                    (law.allocates pftemp s s1 r1) (law.unmaps pn (copy_page_to pftemp pn s1) s2 r2)
                    (law.maps pftemp pn s2 s3 r3) (law.unmaps pftemp s3 s4 r4),
              ))))))
