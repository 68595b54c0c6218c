-- ===== src/Syscall/PageCalls/Sharing.antt =====
-- What sys_page_map shares between two address spaces.
use yu_os.Env.{Kernel}
use yu_os.Prelude.{
  ℕ, ◌≢◌, ◌<◌, ◌%◌, ◌≡◌, List, ==_iff, none, ◌⊎◌, some, ◌∙◌, true, false, ok, ◌/◌, [], inl, inr,
  refl, arith,
}
use yu_os.Env.Id.{Names}
use yu_os.Layout.{utop, pgsize, flag, pte_w, err, pdx, inval, pte_p, ret}
use yu_os.Syscall.PageCalls.Mapping.{IsUserPage, bad_va-ok}
use yu_os.Pmap.Table.Remove.{InRange, page_lookup-translate, slot_of}
use yu_os.Syscall.PageCalls.{map_between, sys_page_map, load, gains_write}
use yu_os.Pmap.Table.Translate.{translate, slot_full}
use yu_os.Pmap.Alloc.FreeList.{IsFreeList}
use yu_os.Syscall.Rights.{with_env_unchecked}
use yu_os.Pmap.Table.Space.{IsSpace, mapped-has_table}
use yu_os.Pmap.Table.Inserted.{IsPage, Inserted}
use yu_os.Pmap.Table.Insert.{page_insert_refines}
use yu_os.Syscall.{back}
use yu_os.Pmap.Table.{load}
use yu_os.Prelude.Bits.{lt_of_bit_and}

module _ (k : Kernel) (srcenvid i srcva dstenvid j dstva perm : ℕ) (src_ne : srcenvid ≢ 0)
    (dst_ne : dstenvid ≢ 0) (src : Names k srcenvid i) (dst : Names k dstenvid j)
    (low : srcva < utop) (aligned : srcva % pgsize ≡ 0) (u : IsUserPage dstva perm)
    (r : InRange k.mem (k.envs i).env_pgdir srcva) where
  -- The part behind the checks is reached with good arguments.
  sys_page_map-checked :
      sys_page_map srcenvid srcva dstenvid dstva perm k ≡ map_between srcva dstva perm i j k
  unfolding sys_page_map
  sys_page_map-checked =
      rw
        (
          bad_va-ok srcva low aligned,
          bad_va-ok dstva u.low u.aligned,
          u.user,
          u.present,
          (==_iff _ 0).1 u.legal,
        )
        (with_env_unchecked k srcenvid i _ src_ne src
          ∙ with_env_unchecked k dstenvid j _ dst_ne dst)

  -- With two ids that name environments, and with good addresses and permissions, `sys_page_map`
  -- fails with -E_INVAL and changes nothing if nothing is mapped at the source address, or if write
  -- access is asked for to a page that is mapped read-only there.
  pub sys_page_map_refuses :
      (translate k.mem.word (k.envs i).env_pgdir srcva ≡ none)
        ⊎ ((pte : ℕ) × (translate k.mem.word (k.envs i).env_pgdir srcva ≡ some pte)
            × (flag pte pte_w ≡ false)
            × (flag perm pte_w ≡ true))
      → sys_page_map srcenvid srcva dstenvid dstva perm k ≡ ok (back (err inval), k)
  unfolding map_between
  sys_page_map_refuses (inl gone) =
      sys_page_map-checked
      ∙ rw (page_lookup-translate k.mem (k.envs i).env_pgdir srcva r, gone) refl
  sys_page_map_refuses (inr (pte, here, readonly, wanted)) =
      sys_page_map-checked
      ∙ rw (page_lookup-translate k.mem (k.envs i).env_pgdir srcva r, here)
          (rw (holds pte here, readonly, wanted) refl)
    where
      holds :
          (pte : ℕ)
          → translate k.mem.word (k.envs i).env_pgdir srcva ≡ some pte
          → load (slot_of k.mem.word (k.envs i).env_pgdir srcva) k.mem ≡ pte
      holds pte here =
          (slot_full k.mem.word (k.envs i).env_pgdir srcva
            (mapped-has_table k.mem.word (k.envs i).env_pgdir srcva pte here) here).0

  -- With two ids other than 0 that name environments, and with good addresses and permissions,
  -- `sys_page_map` of a mapped page, for which write access is asked only if it is mapped with it,
  -- maps the page at the target address with the permissions asked for, if the target has a table
  -- there or a page is free. This holds for every caller, whether it may change the two
  -- environments or not; the comment promises -E_BAD_ENV to a caller that may not. The other user
  -- pages of the target, whose address space is sound, are mapped as before, and the page has one
  -- reference more unless it was mapped there already.
  pub sys_page_map_lem :
      (free : List ℕ) (pte : ℕ)
      → IsFreeList k.mem free
      → IsSpace k.mem free (k.envs j).env_pgdir
      → translate k.mem.word (k.envs i).env_pgdir srcva ≡ some pte
      → (flag pte pte_w ≡ true) ⊎ (flag perm pte_w ≡ false)
      → IsPage k.mem free (pte / 4096)
      → (flag (k.mem.word (k.envs j).env_pgdir (pdx dstva)) pte_p ≡ true) ⊎ (free ≢ [])
      → (k' : Kernel) × (sys_page_map srcenvid srcva dstenvid dstva perm k ≡ ok (back (ret 0), k'))
        × Inserted (k.envs j).env_pgdir dstva (pte / 4096) perm k.mem k'.mem
  unfolding map_between
  sys_page_map_lem free pte v sp here may pg room =
      let (m', run, ins) =
        page_insert_refines free (k.envs j).env_pgdir dstva (pte / 4096) perm v sp u.low pg
          (lt_of_bit_and perm u.word u.legal) room in
      (
        record k { mem = m' },
        sys_page_map-checked
            ∙ rw (page_lookup-translate k.mem (k.envs i).env_pgdir srcva r, here)
                (rw (allowed may) (rw run refl)),
        ins,
      )
    where
      holds : load (slot_of k.mem.word (k.envs i).env_pgdir srcva) k.mem ≡ pte
      holds =
          (slot_full k.mem.word (k.envs i).env_pgdir srcva
            (mapped-has_table k.mem.word (k.envs i).env_pgdir srcva pte here) here).0

      allowed :
          (flag pte pte_w ≡ true) ⊎ (flag perm pte_w ≡ false)
          → gains_write (slot_of k.mem.word (k.envs i).env_pgdir srcva) perm k.mem ≡ false
      allowed may = rw holds (ground arith)
