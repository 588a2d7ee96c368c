-- ===== src/Pagepool/Invariant.antt =====
-- What holds of the pool between calls.
use osm_re_exam.Prelude.{ℕ, ◌*◌, ◌≤◌, ◌<◌, ◌^◌, ◌≡◌, length}
use osm_re_exam.Prelude.Int.{pos}
use osm_re_exam.Bitmap.Digits.{bit, IsWords}
use osm_re_exam.Pagepool.{Pagepool}
use osm_re_exam.Pagepool.Count.{count_free}

-- The counter is the number of free pages, the pages that the kernel holds statically are taken,
-- page 0 among them, and the address of every page is a 32-bit number.
pub record Inv (p : Pagepool) : Type 0 where
  pub words : IsWords p.free_pages
  pub room : p.num_pages ≤ 32 * length p.free_pages
  pub addressable : p.num_pages ≤ 2 ^ 20
  pub counted : p.num_free_pages ≡ pos (count_free p.free_pages p.num_pages)
  pub static_taken : (q : ℕ) → q < p.static_end → bit p.free_pages q ≡ 1
  pub kernel : 0 < p.static_end
