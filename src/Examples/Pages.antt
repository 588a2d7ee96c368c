-- ===== src/Examples/Pages.antt =====
-- Bitmaps, the kernel allocator and the page pool.
use osm_re_exam.Prelude.{ℕ, zero, suc, ◌<◌, ◌≡◌, refl, [], ◌∷◌, arith}
use osm_re_exam.Prelude.Int.{pos, negsuc}
use osm_re_exam.Prelude.Result.{ok, read, write, Yields}
use osm_re_exam.Prelude.Bits.{digit}
use osm_re_exam.Bitmap.{
  Bitmap, full_word, bitmap_sizeof, bitmap_init, bitmap_get, bitmap_set, bitmap_findnset,
}
use osm_re_exam.Bitmap.Digits.{bit, IsWords}
use osm_re_exam.Bitmap.Find.{Search, bitmap_findnset-Search}
use osm_re_exam.Kmalloc.{Kmalloc, kmalloc}
use osm_re_exam.Kmalloc.Alloc.{kmalloc_all, AreApart, kmalloc_all-Apart}
use osm_re_exam.Pagepool.{Pagepool, pagepool_get_phys_page}
use osm_re_exam.Pagepool.Count.{count_free}
use osm_re_exam.Pagepool.Invariant.{Inv}
use osm_re_exam.Pagepool.Alloc.{Got, pagepool_get_phys_page-Got}

-- A word with its 32 bits taken, and one with bits 0 and 2 taken.
abbrev two_words : Bitmap
two_words = full_word ∷ 5 ∷ []

find_second_word : bitmap_findnset two_words (pos 40) ≡ ok (full_word ∷ 7 ∷ [], pos 33)
unfolding bitmap_findnset bitmap_sizeof bitmap_get bitmap_set read write
find_second_word = refl

find_past_end : bitmap_findnset two_words (pos 33) ≡ ok (two_words, negsuc 0)
unfolding bitmap_findnset bitmap_sizeof bitmap_get bitmap_set read write
find_past_end = refl

init_clears : bitmap_init two_words (pos 33) ≡ ok (0 ∷ 0 ∷ [])
unfolding bitmap_init write
init_clears = refl

two_words-IsWords : IsWords two_words
two_words-IsWords zero = omega arith
two_words-IsWords (suc zero) = omega arith
two_words-IsWords (suc (suc i)) = omega arith

bitmap_findnset-Search_example : Yields (Search two_words 40) (bitmap_findnset two_words (pos 40))
bitmap_findnset-Search_example = bitmap_findnset-Search two_words 40 two_words-IsWords (omega arith)

abbrev booted : Kmalloc
booted = record { free_area_start = 0x8001_0000; memory_end = 0x8040_0000 }

abbrev after_ten_bytes : Kmalloc
after_ten_bytes = record { free_area_start = 0x8001_000c; memory_end = 0x8040_0000 }

ten_bytes : kmalloc booted (pos 10) ≡ ok (0x8001_0000, after_ten_bytes)
unfolding kmalloc
ten_bytes = refl

abbrev after_both : Kmalloc
after_both = record { free_area_start = 0x8001_0014; memory_end = 0x8040_0000 }

two_requests : kmalloc_all booted (10 ∷ 5 ∷ []) ≡ ok (0x8001_0000 ∷ 0x8001_000c ∷ [], after_both)
unfolding kmalloc_all kmalloc
two_requests = refl

kmalloc_all-Apart_example :
    AreApart 0x8001_0000 0x8040_0000 (10 ∷ 5 ∷ []) (0x8001_0000 ∷ 0x8001_000c ∷ [])
kmalloc_all-Apart_example =
    kmalloc_all-Apart booted after_both (10 ∷ 5 ∷ []) (0x8001_0000 ∷ 0x8001_000c ∷ []) refl
      (omega arith) (omega arith) (omega arith, (omega arith, tt)) two_requests

-- A pool of 32 pages, of which the kernel holds the first two, and one other is taken.
abbrev pub pool : Pagepool
pool = record { free_pages = 7 ∷ []; num_pages = 32; num_free_pages = pos 29; static_end = 2 }

pub pool-Inv : Inv pool
unfolding count_free bit digit
pool-Inv = record {
  words = words;
  room = omega arith;
  addressable = omega arith;
  counted = refl;
  static_taken = static;
  kernel = omega arith;
}
  where
    words : IsWords (7 ∷ [])
    words zero = omega arith
    words (suc i) = omega arith

    static : (q : ℕ) → q < 2 → bit (7 ∷ []) q ≡ 1
    static zero h = refl
    static (suc zero) h = refl
    static (suc (suc q)) h = absurd (omega arith)

third_page :
    pagepool_get_phys_page pool
    ≡ ok (0x3000, record pool { free_pages = 15 ∷ []; num_free_pages = pos 28 })
unfolding pagepool_get_phys_page bitmap_findnset bitmap_sizeof bitmap_get bitmap_set read write
third_page = refl

pagepool_get_phys_page-Got_example :
    Yields (λ out. Got pool out × Inv out.1) (pagepool_get_phys_page pool)
pagepool_get_phys_page-Got_example = pagepool_get_phys_page-Got pool-Inv
