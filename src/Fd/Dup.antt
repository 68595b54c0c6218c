-- ===== src/Fd/Dup.antt =====
-- What dup of lib/fd.c does: two descriptors share one page.
pub mod Itself
use yu_os.Fd.{
  Fds, Dev, maxfd, index2fd, index2data, fd_lookup, fd_at, dev_lookup, unmap, close_device,
  close_found, fd_close, close, seek, map_page, dup_closed, dup,
}
use yu_os.Layout.{Reply, ret, err, Error}
use yu_os.Prelude.{
  ℕ, List, [], ◌∷◌, Option, some, none, ◌≡◌, ◌<◌, ◌+◌, ◌==◌, is_some, true, false, arith, refl,
  Bool-cases, inl, inr, ◌≢◌, ◌∙◌, update, update_ne, update_self, if◌then◌else◌, leb, sym, ap,
  Option-cases, ==_refl,
}
use yu_os.Fd.Close.{Others, fd_lookup-used, AllClose, close-Closed}

seek_lem :
    (fd f offset : ℕ) (s : Fds)
    → fd < maxfd
    → s.frame fd ≡ some f
    → (seek fd offset s).1
      ≡ (record s { page = update s.page f (record (s.page f) { fd_offset = offset }) })
unfolding seek
seek_lem fd f offset s h here =
    let used : is_some (s.frame fd) ≡ true = rw here refl in
    rw (fd_lookup-used fd s h used, here) refl

seek_shared :
    (old new f offset : ℕ) (s : Fds)
    → new < maxfd
    → s.frame new ≡ some f
    → s.frame old ≡ some f
    → let s' = (seek new offset s).1 in
      ((fd_at s' old).fd_offset ≡ offset) × (fd_at s' old ≡ fd_at s' new)
seek_shared old new f offset s h copy here =
    rw (seek_lem new f offset s h copy, copy, here, ==_refl f) (refl, refl)

module _ (devtab : List Dev) (refuses : ℕ → Option Error) where
  -- What is mapped at the data page of the copy
  abbrev pub data_of : ℕ → ℕ → Fds → ℕ → Option ℕ
  data_of old new t =
      if is_some (t.frame (maxfd + old))
      then update t.frame (maxfd + new) (t.frame (maxfd + old))
      else t.frame

  pub map_page-mapped :
      (src dst f : ℕ) (s : Fds)
      → s.frame src ≡ some f
      → refuses dst ≡ none
      → map_page refuses src dst s ≡ (ret 0, record s { frame = update s.frame dst (some f) })
  map_page-mapped src dst f s here r = rw (here, r) refl

  dup_closed_lem :
      (old new f : ℕ) (t : Fds)
      → old < maxfd
      → new < maxfd
      → t.frame old ≡ some f
      → refuses new ≡ none
      → refuses (maxfd + new) ≡ none
      → dup_closed devtab refuses new old t
        ≡ (ret new, record t { frame = update (data_of old new t) new (some f) })
  dup_closed_lem old new f t h g here r q =
      let i1 : index2fd new ≡ new = omega arith in
      let i2 : index2data new ≡ maxfd + new = omega arith in
      let i3 : index2data old ≡ maxfd + old = omega arith in
      elim (Option-cases (t.frame (maxfd + old))) [
        | inl e ↦ rw (i1, i2, i3, e, map_page-mapped old new f t here r) refl
        | inr e ↦
            let t1 = record t { frame = update t.frame (maxfd + new) (some e.0) } in
            let kept : t1.frame old ≡ some f =
              update_ne t.frame (maxfd + new) old (some e.0) (omega arith) ∙ here in
            let first = map_page-mapped (maxfd + old) (maxfd + new) e.0 t e.1 q in
            let second = map_page-mapped old new f t1 kept r in
            let u : is_some (t.frame (maxfd + old)) ≡ true = rw (e.1) refl in
            rw (i1, i2, i3, u, first, second, e.1) refl
      ]

  data_of-new :
      (old new : ℕ) (t : Fds)
      → data_of old new t (maxfd + new)
        ≡ (if is_some (t.frame (maxfd + old)) then t.frame (maxfd + old) else t.frame (maxfd + new))
  data_of-new old new t = elim (Bool-cases (is_some (t.frame (maxfd + old)))) [
    | inl e ↦ rw e (update_self t.frame (maxfd + new) (t.frame (maxfd + old)))
    | inr e ↦ rw e refl
  ]

  data_of-other : (old new i : ℕ) (t : Fds) → i ≢ maxfd + new → data_of old new t i ≡ t.frame i
  data_of-other old new i t ne = elim (Bool-cases (is_some (t.frame (maxfd + old)))) [
    | inl e ↦ rw e (update_ne t.frame (maxfd + new) i (t.frame (maxfd + old)) (λ d. ne (sym d)))
    | inr e ↦ rw e refl
  ]

  -- The state after a successful `dup`: both numbers are those of the same page, and so are the data
  -- pages, if the first descriptor has one; the rest is as before.
  pub record Duplicate (old new : ℕ) (s s' : Fds) : Type 0 where
    pub same_page : s'.frame new ≡ s.frame old
    pub data_page : s'.frame (maxfd + new) ≡ (
        if is_some (s.frame (maxfd + old))
        then s.frame (maxfd + old)
        else (close devtab new s).1.frame (maxfd + new))
    pub others : Others new s s'

  -- If closing a descriptor changes no other descriptor, its data or the contents of descriptors,
  -- then `dup` of an open descriptor to another number below MAXFD, where the kernel maps the
  -- pages, returns that number. Afterwards both numbers have the same page, the data page of the
  -- old one, if it has one, is that of the new one too, and the other descriptors are as before.
  pub dup-Duplicate :
      (old new f : ℕ) (s : Fds)
      → AllClose devtab
      → old < maxfd
      → new < maxfd
      → old ≢ new
      → s.frame old ≡ some f
      → refuses new ≡ none
      → refuses (maxfd + new) ≡ none
      → ((dup devtab refuses old new s).0 ≡ ret new)
        × Duplicate old new s (dup devtab refuses old new s).1
  unfolding dup
  dup-Duplicate old new f s laws h g ne here r q =
      let t = (close devtab new s).1 in
      let c = close-Closed devtab new s laws g in
      let kept : t.frame old ≡ some f = c.others.frames old ne (omega arith) ∙ here in
      let copied : t.frame (maxfd + old) ≡ s.frame (maxfd + old) =
        c.others.frames (maxfd + old) (omega arith) (omega arith) in
      let used : is_some (s.frame old) ≡ true = rw here refl in
      rw (fd_lookup-used old s h used, dup_closed_lem old new f t h g kept r q)
        (
          refl,
          record {
            same_page = update_self (data_of old new t) new (some f) ∙ sym here;
            data_page =
                update_ne (data_of old new t) new (maxfd + new) (some f) (omega arith)
                ∙ data_of-new old new t
                ∙ ap (λ o. if is_some o then o else t.frame (maxfd + new)) copied;
            others = record {
              frames = λ i a b.
                  update_ne (data_of old new t) new i (some f) (λ e. a (sym e))
                  ∙ data_of-other old new i t b
                  ∙ c.others.frames i a b;
              pages = c.others.pages;
            };
          },
        )

  -- x
  pub seek-dup :
      (old new f offset : ℕ) (s : Fds)
      → AllClose devtab
      → old < maxfd
      → new < maxfd
      → old ≢ new
      → s.frame old ≡ some f
      → refuses new ≡ none
      → refuses (maxfd + new) ≡ none
      → let s' = (seek new offset (dup devtab refuses old new s).1).1 in
        ((fd_at s' old).fd_offset ≡ offset) × (fd_at s' old ≡ fd_at s' new)
  seek-dup old new f offset s laws h g ne here r q =
      let d = dup-Duplicate old new f s laws h g ne here r q in
      let s1 = (dup devtab refuses old new s).1 in
      let copy : s1.frame new ≡ some f = d.1.same_page ∙ here in
      let kept : s1.frame old ≡ some f = d.1.others.frames old ne (omega arith) ∙ here in
      seek_shared old new f offset s1 g copy kept
