-- ===== src/Pmap/Alloc.antt =====
-- The page allocator of kern/pmap.c: page_init, page_alloc, page_free and page_decref.
pub mod FreeList
pub mod Init
pub mod DoubleFree
use yu_os.Prelude.{◌-◌}
use yu_os.Prelude.{◌^◌}
use yu_os.Prelude.{
  ℕ, zero, suc, ◌+◌, ◌*◌, ◌/◌, ◌%◌, Bool, ◌&&◌, ◌||◌, not, Option, none, some, Run, ok, panic,
  ◌>>=◌, update, leb, ltb, ◌==◌, if◌then◌else◌,
}
use yu_os.Layout.{pgsize, iophysmem, extphysmem, flag}
use yu_os.Pmap.{Mem, clear_page, page2pa, page2kva}

abbrev pub alloc_zero : ℕ
alloc_zero = 1

unfoldable pub page_alloc : ℕ → Mem → Run (Option ℕ × Mem)
page_alloc alloc_flags m = elim m.page_free_list [
  | none ↦ ok (none, m)
  | some result ↦
      (let taken : Mem = record m {
        page_free_list = m.pp_link result;
        pp_link = update m.pp_link result none;
      } in
        if flag alloc_flags alloc_zero
        then (do page ← page2kva result taken; ok (some result, clear_page page taken))
        else ok (some result, taken))
]

unfoldable pub page_free : ℕ → Mem → Run Mem
page_free pp m = if not (m.pp_ref pp == 0) then panic else elim (m.pp_link pp) [
  | some _ ↦ panic
  | none ↦
      ok (record m { pp_link = update m.pp_link pp m.page_free_list; page_free_list = some pp })
]

-- `pp->pp_ref` is a uint16_t: the arithmetic wraps.
abbrev pub ref_up : ℕ → Mem → Mem
ref_up pp m = record m { pp_ref = update m.pp_ref pp ((m.pp_ref pp + 1) % 2 ^ 16) }

abbrev pub ref_down : ℕ → Mem → Mem
ref_down pp m = record m { pp_ref = update m.pp_ref pp ((m.pp_ref pp + (2 ^ 16 - 1)) % 2 ^ 16) }

unfoldable pub page_decref : ℕ → Mem → Run Mem
page_decref pp m =
    let down = ref_down pp m in if down.pp_ref pp == 0 then page_free pp down else ok down

-- The pages that `page_init` leaves out: page 0, the IO hole, and the kernel with what
-- `boot_alloc` has given out, up to the physical address `boot_end` (`PADDR(boot_alloc(0))`).
abbrev pub reserved : ℕ → ℕ → Bool
reserved boot_end i =
    (i == 0)
    || (leb iophysmem (page2pa i) && ltb (page2pa i) extphysmem)
    || (leb extphysmem (page2pa i) && ltb (page2pa i) boot_end)

-- One round of the loop of `page_init`.
abbrev pub page_init_step : ℕ → ℕ → Mem → Mem
page_init_step boot_end i m = if reserved boot_end i then m else record m {
  pp_ref = update m.pp_ref i 0;
  pp_link = update m.pp_link i m.page_free_list;
  page_free_list = some i;
}

-- The rounds from 0 up to `n`.
unfoldable pub page_init_loop : ℕ → ℕ → Mem → Mem
page_init_loop boot_end zero m = m
page_init_loop boot_end (suc n) m = page_init_step boot_end n (page_init_loop boot_end n m)

unfoldable pub page_init : ℕ → Mem → Mem
unfolding page_init_loop
page_init boot_end m = page_init_loop boot_end m.npages m
