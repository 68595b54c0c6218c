-- ===== src/Fd/Dup/Itself.antt =====
-- dup of lib/fd.c with twice the same number.
use yu_os.Fd.{Fds, Dev, maxfd, index2fd, index2data, close, map_page, dup_closed, dup, undo}
use yu_os.Fd.Dup.{map_page-mapped, AllClose}
use yu_os.Layout.{Reply, err, Error}
use yu_os.Prelude.{
  ℕ, List, Option, some, none, ◌≡◌, ◌<◌, ◌+◌, is_some, true, arith, refl, Option-cases, inl, inr,
  update, update_ne, update_self, ◌∙◌,
}
use yu_os.Fd.Close.{AllClose, close-Closed, fd_lookup-used}

-- The call fails, and what it leaves does not have the descriptor.
record Lost (fd : ℕ) (o : Reply ℕ × Fds) : Type 0 where
  error : Error
  fails : o.0 ≡ err error
  closed : o.1.frame fd ≡ none

module _ (devtab : List Dev) (refuses : ℕ → Option Error) where
  map_page-gone :
      (src dst : ℕ) (s : Fds)
      → s.frame src ≡ none
      → map_page refuses src dst s ≡ (err Error.inval, s)
  map_page-gone src dst s here = rw here refl

  undone : (fd : ℕ) (e : Error) (s : Fds) → Lost fd (undo devtab refuses fd (maxfd + fd) (err e, s))
  undone fd e s = record {
    error = e;
    fails = refl;
    closed =
        update_ne (update s.frame fd none) (maxfd + fd) fd none (omega arith)
        ∙ update_self s.frame fd none;
  }

  Lost-dup_closed :
      (fd : ℕ) (t : Fds)
      → fd < maxfd
      → t.frame fd ≡ none
      → Lost fd (dup_closed devtab refuses fd fd t)
  Lost-dup_closed fd t h gone =
      let i1 : index2fd fd ≡ fd = omega arith in
      let i2 : index2data fd ≡ maxfd + fd = omega arith in
      elim (Option-cases (t.frame (maxfd + fd))) [
        | inl e ↦ rw (i1, i2, e, map_page-gone fd fd t gone) (undone fd Error.inval t)
        | inr e ↦
            let u : is_some (t.frame (maxfd + fd)) ≡ true = rw (e.1) refl in
            let t1 = record t { frame = update t.frame (maxfd + fd) (some e.0) } in
            let still : t1.frame fd ≡ none =
              update_ne t.frame (maxfd + fd) fd (some e.0) (omega arith) ∙ gone in
            elim (Option-cases (refuses (maxfd + fd))) [
              | inl free ↦
                  rw
                    (
                      i1,
                      i2,
                      u,
                      map_page-mapped devtab refuses (maxfd + fd) (maxfd + fd) e.0 t e.1 free,
                      map_page-gone fd fd t1 still,
                    )
                    (undone fd Error.inval t1)
              | inr bad ↦ rw (i1, i2, u, e.1, bad.1) (undone fd bad.0 t)
            ]
      ]

  -- If closing a descriptor changes no other descriptor, its data or the contents of descriptors,
  -- then `dup` of an open descriptor to its own number fails and leaves the descriptor closed.
  pub dup-itself :
      (fd : ℕ) (s : Fds)
      → AllClose devtab
      → fd < maxfd
      → is_some (s.frame fd) ≡ true
      → (e : Error) × ((dup devtab refuses fd fd s).0 ≡ err e)
        × ((dup devtab refuses fd fd s).1.frame fd ≡ none)
  unfolding dup
  dup-itself fd s laws h used =
      let c = close-Closed devtab fd s laws h in
      let l = Lost-dup_closed fd (close devtab fd s).1 h c.gone in
      rw (fd_lookup-used fd s h used) (l.error, l.fails, l.closed)
