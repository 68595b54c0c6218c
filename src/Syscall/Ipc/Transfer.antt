-- ===== src/Syscall/Ipc/Transfer.antt =====
-- A message with a page, in sys_ipc_try_send of kern/syscall.c.
use yu_os.Env.{Kernel, Env, Status, set_env}
use yu_os.Env.Id.{Names}
use yu_os.Syscall.{back}
use yu_os.Syscall.Ipc.{sys_ipc_try_send, send_page, deliver}
use yu_os.Syscall.Rights.{with_env_unchecked}
use yu_os.Syscall.PageCalls.{gains_write}
use yu_os.Syscall.PageCalls.Mapping.{IsUserPage}
use yu_os.Pmap.{Mem}
use yu_os.Pmap.Table.{load}
use yu_os.Pmap.Table.Remove.{InRange, page_lookup-translate, slot_of}
use yu_os.Pmap.Table.Translate.{translate, slot_full}
use yu_os.Pmap.Table.Space.{IsSpace, mapped-has_table}
use yu_os.Pmap.Table.Inserted.{IsPage, Inserted}
use yu_os.Pmap.Table.Insert.{page_insert_refines}
use yu_os.Pmap.Alloc.FreeList.{IsFreeList}
use yu_os.Prelude.{
  ℕ, List, [], ◌≢◌, ◌<◌, ◌≡◌, ◌⊎◌, ◌/◌, ◌%◌, ◌==◌, Bool-cases, inl, inr, some, ok, true, false,
  refl, arith, ==_iff, ==_refl, ==-ne, lt→ltb, sym, ◌∙◌,
}
use yu_os.Prelude.Bits.{lt_of_bit_and}
use yu_os.Layout.{utop, pgsize, flag, pte_w, pte_p, pdx, ret}

-- An environment after a message from `from`, with a page for which the permissions are `perm`: its
-- registers, its address space and all else are as before.
pub record IsReceived (value from perm : ℕ) (old new : Env) : Type 0 where
  pub value_set : new.env_ipc_value ≡ value
  pub from_set : new.env_ipc_from ≡ from
  pub perm_set : new.env_ipc_perm ≡ perm
  pub not_waiting : new.env_ipc_recving ≡ false
  pub can_run : new.env_status ≡ Status.runnable
  pub same_frame : new.env_tf ≡ old.env_tf
  pub same_dstva : new.env_ipc_dstva ≡ old.env_ipc_dstva
  pub same_pgdir : new.env_pgdir ≡ old.env_pgdir
  pub same_id : (new.env_id ≡ old.env_id) × (new.env_parent_id ≡ old.env_parent_id)
  pub same_upcall : new.env_pgfault_upcall ≡ old.env_pgfault_upcall
  pub same_runs : new.env_runs ≡ old.env_runs
  pub same_kind : (new.env_type ≡ old.env_type) × (new.env_link ≡ old.env_link)

pub record Transferred (cur i value perm pte : ℕ) (k k' : Kernel) : Type 0 where
  pub page : Inserted (k.envs i).env_pgdir (k.envs i).env_ipc_dstva (pte / 4096) perm k.mem k'.mem
  pub receiver : IsReceived value (k.envs cur).env_id perm (k.envs i) (k'.envs i)
  pub others : (j : ℕ) → j ≢ i → k'.envs j ≡ k.envs j
  pub current : k'.curenv ≡ k.curenv

-- The kernel with the new page and its permissions
abbrev with_perm : ℕ → ℕ → Mem → Kernel → Kernel
with_perm i perm m k = set_env i (record (k.envs i) { env_ipc_perm = perm }) (record k { mem = m })

same_sender :
    (cur i perm : ℕ) (m : Mem) (k : Kernel)
    → ((with_perm i perm m k).envs cur).env_id ≡ (k.envs cur).env_id
same_sender cur i perm m k = elim (Bool-cases (i == cur)) [
  | inl e ↦ rw (e, (==_iff i cur).0 e) refl
  | inr e ↦ rw e refl
]

-- The kernel after the message
abbrev after_message : ℕ → ℕ → ℕ → Kernel → Kernel
after_message cur i value k =
    set_env i
      (record (k.envs i) {
        env_ipc_value = value;
        env_ipc_from = (k.envs cur).env_id;
        env_ipc_recving = false;
        env_status = Status.runnable;
      })
      k

IsReceived-after_message :
    (cur i value perm : ℕ) (m : Mem) (k : Kernel)
    → IsReceived value
        (k.envs cur).env_id
        perm
        (k.envs i)
        ((after_message cur i value (with_perm i perm m k)).envs i)
IsReceived-after_message cur i value perm m k = rw (==_refl i) (record {
  value_set = refl;
  from_set = same_sender cur i perm m k;
  perm_set = refl;
  not_waiting = refl;
  can_run = refl;
  same_frame = refl;
  same_dstva = refl;
  same_pgdir = refl;
  same_id = (refl, refl);
  same_upcall = refl;
  same_runs = refl;
  same_kind = (refl, refl);
})

module _ (k : Kernel) (cur envid i value srcva perm : ℕ) (runs : k.curenv ≡ some cur)
    (ne : envid ≢ 0) (names : Names k envid i) (waits : (k.envs i).env_ipc_recving ≡ true)
    (low : srcva < utop) (aligned : srcva % pgsize ≡ 0)
    (u : IsUserPage (k.envs i).env_ipc_dstva perm)
    (r : InRange k.mem (k.envs cur).env_pgdir srcva) where
  send-checked : sys_ipc_try_send envid value srcva perm k ≡ send_page i value srcva perm k
  unfolding sys_ipc_try_send
  send-checked = with_env_unchecked k envid i _ ne names ∙ rw (waits, lt→ltb srcva utop low) refl

  -- A message with a page, from the current environment to one that exists and waits for a message
  -- with a page, by an id other than 0: let the page be mapped in the sender at the given address,
  -- a page boundary below UTOP, with write access if that is asked for, and let the permissions be
  -- legal and the target address a page boundary below UTOP. If the receiver, whose address space
  -- is sound, has a table there or a page is free, the send returns 0. Then the page is mapped in
  -- the receiver at the address it asked for, with the permissions, and its other user pages are as
  -- before. The receiver has the value, the id of the sender and the permissions, no longer waits
  -- and can run; its registers and all else of it are as before, and so is every other environment.
  pub try_send-Transferred :
      (free : List ℕ) (pte : ℕ)
      → IsFreeList k.mem free
      → IsSpace k.mem free (k.envs i).env_pgdir
      → translate k.mem.word (k.envs cur).env_pgdir srcva ≡ some pte
      → (flag pte pte_w ≡ true) ⊎ (flag perm pte_w ≡ false)
      → IsPage k.mem free (pte / 4096)
      → (flag (k.mem.word (k.envs i).env_pgdir (pdx (k.envs i).env_ipc_dstva)) pte_p ≡ true)
        ⊎ (free ≢ [])
      → (k' : Kernel) × (sys_ipc_try_send envid value srcva perm k ≡ ok (back (ret 0), k'))
        × Transferred cur i value perm pte k k'
  unfolding send_page deliver
  try_send-Transferred free pte v sp here may pg room =
      let dstva = (k.envs i).env_ipc_dstva in
      let (m', run, ins) =
        page_insert_refines free (k.envs i).env_pgdir dstva (pte / 4096) perm v sp u.low pg
          (lt_of_bit_and perm u.word u.legal) room in
      (
        after_message cur i value (with_perm i perm m' k),
        send-checked
            ∙ rw ((==_iff _ 0).1 aligned, u.user, u.present, (==_iff _ 0).1 u.legal, runs)
                (rw (page_lookup-translate k.mem (k.envs cur).env_pgdir srcva r, here)
                  (rw (allowed may, lt→ltb dstva utop u.low) (rw run refl))),
        record {
          page = ins;
          receiver = IsReceived-after_message cur i value perm m' k;
          others = λ j other. rw (==-ne i j (λ e. other (sym e))) refl;
          current = refl;
        },
      )
    where
      holds : load (slot_of k.mem.word (k.envs cur).env_pgdir srcva) k.mem ≡ pte
      holds =
          (slot_full k.mem.word (k.envs cur).env_pgdir srcva
            (mapped-has_table k.mem.word (k.envs cur).env_pgdir srcva pte here) here).0

      allowed :
          (flag pte pte_w ≡ true) ⊎ (flag perm pte_w ≡ false)
          → gains_write (slot_of k.mem.word (k.envs cur).env_pgdir srcva) perm k.mem ≡ false
      allowed may = rw holds (ground arith)
