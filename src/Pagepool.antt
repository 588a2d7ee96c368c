-- ===== src/Pagepool.antt =====
-- buenos/vm/pagepool.c: the pool of physical pages over a bitmap. The file's static variables are
-- the fields of `Pagepool`. Each routine holds `pagepool_slock` with interrupts off for the whole of
-- its work, so it is one step of the model.
pub mod Count
pub mod Invariant
pub mod Alloc
use osm_re_exam.Prelude.{
  ℕ, zero, suc, ◌+◌, ◌-◌, ◌*◌, ◌/◌, ◌%◌, ◌^◌, ◌<◌, ◌&&◌, List, if◌then◌else◌, replicate,
}
use osm_re_exam.Prelude.Int.{sub, ℤ, pos, negsuc, ltb_ℤ, leb_ℤ, ◌==ℤ◌, succ, prev}
use osm_re_exam.Prelude.Result.{Result, ok, ◌>>=◌, ◌>>◌, kernel_assert}
use osm_re_exam.Bitmap.{Bitmap, bitmap_sizeof, bitmap_init, bitmap_get, bitmap_set, bitmap_findnset}
use osm_re_exam.Kmalloc.{
  page_size, IoDescriptor, Kmalloc, kmalloc, kmalloc_get_numpages, kmalloc_get_reserved_pages,
}

pub record Pagepool : Type 0 where
  pub free_pages : Bitmap
  pub num_pages : ℕ
  pub num_free_pages : ℤ
  pub static_end : ℕ

-- The loop of `pagepool_init` over the reserved pages, with `n` of them left.
reserve : ℕ → Bitmap → ℕ → Result Bitmap
reserve zero bitmap i = ok bitmap
reserve (suc n) bitmap i = do
  reserved ← bitmap_set bitmap (pos i) (pos 1)
  reserve n reserved (i + 1)

-- `memory addr n` is what the `n` words from `addr` on hold, the block that `kmalloc` hands out.
unfoldable pub pagepool_init :
    List IoDescriptor → (ℕ → ℕ → Bitmap) → Kmalloc → Result (Pagepool × Kmalloc)
unfolding reserve
pagepool_init io_desc memory k = do
  num_pages ← kmalloc_get_numpages io_desc
  (addr, k') ← kmalloc k (pos (bitmap_sizeof num_pages))
  bitmap ← bitmap_init (memory addr (bitmap_sizeof num_pages / 4)) (pos num_pages)
  reserved ← reserve (kmalloc_get_reserved_pages k') bitmap 0
  ok (
    record {
      free_pages = reserved;
      num_pages = num_pages;
      num_free_pages = sub num_pages (kmalloc_get_reserved_pages k');
      static_end = kmalloc_get_reserved_pages k';
    },
    k',
  )

-- `i * PAGE_SIZE` as a `uint32_t`, for an `i` that the assertion before it admits.
page_address : ℤ → ℕ
page_address (pos i) = i * page_size % 2 ^ 32
page_address (negsuc i) = (2 ^ 32 - (i + 1) * page_size) % 2 ^ 32

unfoldable pub pagepool_get_phys_page : Pagepool → Result (ℕ × Pagepool)
unfolding page_address
pagepool_get_phys_page p =
    if ltb_ℤ (pos 0) p.num_free_pages
    then (do
      (free_pages, i) ← bitmap_findnset p.free_pages (pos p.num_pages)
      let left = prev p.num_free_pages
      kernel_assert (leb_ℤ (pos 0) i && leb_ℤ (pos 0) left)
      ok (page_address i, record p { free_pages = free_pages; num_free_pages = left }))
    else ok (0, p)

unfoldable pub pagepool_free_phys_page : Pagepool → ℕ → Result Pagepool
pagepool_free_phys_page p phys_addr = do
  let i = phys_addr / page_size
  kernel_assert (leb_ℤ (pos p.static_end) (pos i))
  b ← bitmap_get p.free_pages (pos i)
  kernel_assert (pos b ==ℤ pos 1)
  free_pages ← bitmap_set p.free_pages (pos i) (pos 0)
  ok (record p { free_pages = free_pages; num_free_pages = succ p.num_free_pages })
