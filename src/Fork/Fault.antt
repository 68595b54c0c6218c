-- ===== src/Fork/Fault.antt =====
-- pgfault of lib/fork.c, the handler of page faults: it gives the environment a copy of its own of a page
-- that is marked as copy-on-write.
pub mod Private
use yu_os.Fork.{or_panic, pte_cow}
use yu_os.Prelude.{ℕ, Run, panic, ok, Bool, not, if◌then◌else◌, ◌+◌, ◌-◌, ◌*◌, ◌/◌, update}
use yu_os.Layout.{Reply, flag, pte_p, pte_w, pte_u, pgsize, ptsize}

-- The entries of the environment's pages, and the bytes of the frames
pub record Space : Type 0 where
  pub uvpt : ℕ → ℕ
  pub byte : ℕ → ℕ → ℕ

-- The frame of an entry
abbrev pub frame : ℕ → ℕ
frame e = e / pgsize

-- The calls to the kernel, for the environment itself; an address is the number of its page.
pub record Calls : Type 0 where
  pub sys_page_alloc : ℕ → ℕ → Space → Reply ℕ × Space
  pub sys_page_map : ℕ → ℕ → ℕ → Space → Reply ℕ × Space
  pub sys_page_unmap : ℕ → Space → Reply ℕ × Space

-- The page at PFTEMP
abbrev pub pftemp : ℕ
pftemp = (ptsize + ptsize - pgsize) / pgsize

abbrev pub own_perm : ℕ
own_perm = pte_w + pte_u + pte_p

-- memmove(PFTEMP, addr, PGSIZE)
abbrev pub copy_page_to : ℕ → ℕ → Space → Space
copy_page_to dst src s = record s {
  byte = update s.byte (frame (s.uvpt dst)) (s.byte (frame (s.uvpt src)));
}

module _ (calls : Calls) where
  abbrev pub copy_on_write : ℕ → Space → Run Space
  copy_on_write pn s = or_panic (calls.sys_page_alloc pftemp own_perm s) (λ s.
      or_panic (calls.sys_page_unmap pn (copy_page_to pftemp pn s)) (λ s.
        or_panic (calls.sys_page_map pftemp pn own_perm s)
          (λ s. or_panic (calls.sys_page_unmap pftemp s) (λ s. ok s))))

  -- The fault is at the address `fault_va`.
  unfoldable pub pgfault : ℕ → Space → Run Space
  pgfault fault_va s =
      let pn = fault_va / pgsize in
      if not (flag (s.uvpt pn) pte_p)
      then or_panic (calls.sys_page_alloc pn own_perm s) (λ s. ok s)
      else if not (flag (s.uvpt pn) pte_cow)
      then panic
      else copy_on_write pn s
