-- ===== src/Tests/ForkExamples.antt =====
-- The theorem on fork with calls that always succeed, for a parent with three pages.
use yu_os.Prelude.{ℕ, ◌≡◌, ◌∷◌, ok, [], refl, Bool, ◌==◌, ◌||◌}
use yu_os.Fork.{duppage, Spaces, PageMap, to_self, to_child}
use yu_os.Fork.Copy.{mapped_to, entry_with}
use yu_os.Tests.Machine.{words}
use yu_os.Layout.{ret}

abbrev map : PageMap
map t pn perm s = (ret 0, mapped_to t pn (entry_with (s.uvpt pn) perm) s)

-- The parent writes to the page below USTACKTOP and to PFTEMP only.
abbrev stack : ℕ → Bool
stack q = (q == 0xEEBFD) || (q == 0x7FF)

-- A page to write, one to read and one that is shared
abbrev spaces : Spaces
spaces = record {
  uvpd = words ((2, 0x3007) ∷ []);
  uvpt = words ((2048, 0x4007) ∷ (2049, 0x5005) ∷ (2050, 0x6407) ∷ []);
  child = words [];
}

written_page :
    duppage map 2048 spaces
    ≡ ok (mapped_to to_self 2048 0x4805 (mapped_to to_child 2048 0x4805 spaces))
unfolding duppage
written_page = refl
