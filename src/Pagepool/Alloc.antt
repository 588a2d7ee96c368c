-- ===== src/Pagepool/Alloc.antt =====
-- Allocation and release of pages: the invariant, the page that is chosen, and what stays.
use osm_re_exam.Prelude.{
  ℕ, zero, suc, ◌*◌, ◌/◌, ◌^◌, ◌≤◌, ◌<◌, ◌≡◌, refl, ◌⊎◌, inl, inr, arith, ◌==◌, ltb, length,
  Bool-cases, ==→eq, ==→ne, ltb→lt, lt→ltb, ge→ltb,
}
use osm_re_exam.Prelude.Int.{ℤ, pos, succ, prev}
use osm_re_exam.Prelude.Result.{ok, panic, Yields, yields, Yields-eq, Yields-ok, Yields-mono}
use osm_re_exam.Bitmap.{Bitmap, bitmap_findnset}
use osm_re_exam.Bitmap.Digits.{
  bit, bit-lt_two, set_bit, bit-set_bit, length-set_bit, set_bit-IsWords, bitmap_get-bit,
  bitmap_set-ok,
}
use osm_re_exam.Bitmap.Find.{FirstFree, AllTaken, Search, full, taken, bitmap_findnset-Search}
use osm_re_exam.Kmalloc.{page_size}
use osm_re_exam.Pagepool.{Pagepool, pagepool_get_phys_page, pagepool_free_phys_page}
use osm_re_exam.Pagepool.Count.{
  count_free, count_free-all_taken, count_free-pos, count_free-set_bit,
}
use osm_re_exam.Pagepool.Invariant.{Inv}

-- The pool after page `n` is taken, and after it is given back.
abbrev pub take_page : Pagepool → ℕ → Pagepool
take_page p n = record p {
  free_pages = set_bit p.free_pages n 1;
  num_free_pages = prev p.num_free_pages;
}

abbrev pub give_page : Pagepool → ℕ → Pagepool
give_page p n = record p {
  free_pages = set_bit p.free_pages n 0;
  num_free_pages = succ p.num_free_pages;
}

-- The two answers of `pagepool_get_phys_page`.
pub data Got (p : Pagepool) : ℕ × Pagepool → Type 0 where
  exhausted : AllTaken p.free_pages p.num_pages → Got p (0, p)
  page :
      {n : ℕ}
      → FirstFree p.free_pages p.num_pages n
      → p.static_end ≤ n
      → Got p (n * page_size, take_page p n)

module _ {p : Pagepool} (inv : Inv p) where
  free_page_static : {n : ℕ} → bit p.free_pages n ≡ 0 → p.static_end ≤ n
  free_page_static {n} free = elim (Bool-cases (ltb n p.static_end)) [
    | inl below ↦ absurd (omega (arith, free, inv.static_taken n (ltb→lt _ _ below)))
    | inr above ↦ ground arith
  ]

  -- Taking a free page keeps the invariant.
  take_page-Inv : {n : ℕ} → FirstFree p.free_pages p.num_pages n → Inv (take_page p n)
  take_page-Inv {n} f = record {
    words = set_bit-IsWords p.free_pages n 1 inv.words;
    room = omega (arith, inv.room, length-set_bit p.free_pages n 1);
    addressable = inv.addressable;
    counted = ground (
      arith,
      inv.counted,
      f.free,
      count_free-set_bit p.free_pages p.num_pages n 1 fits (omega arith) f.within,
    );
    static_taken = λ q h.
        ground (arith, inv.static_taken q h, bit-set_bit p.free_pages n 1 q fits (omega arith));
    kernel = inv.kernel;
  }
    where
      fits : n < 32 * length p.free_pages
      fits = omega (arith, f.within, inv.room)

  give_page-Inv :
      {n : ℕ} → n < p.num_pages → p.static_end ≤ n → bit p.free_pages n ≡ 1 → Inv (give_page p n)
  give_page-Inv {n} within above held = record {
    words = set_bit-IsWords p.free_pages n 0 inv.words;
    room = omega (arith, inv.room, length-set_bit p.free_pages n 0);
    addressable = inv.addressable;
    counted = ground (
      arith,
      inv.counted,
      held,
      count_free-set_bit p.free_pages p.num_pages n 0 fits (omega arith) within,
    );
    static_taken = λ q h.
        ground (arith, inv.static_taken q h, bit-set_bit p.free_pages n 0 q fits (omega arith));
    kernel = inv.kernel;
  }
    where
      fits : n < 32 * length p.free_pages
      fits = omega (arith, inv.room)

get-none : (p : Pagepool) → p.num_free_pages ≡ pos 0 → pagepool_get_phys_page p ≡ ok (0, p)
unfolding pagepool_get_phys_page
get-none p e = ground arith

get-some :
    (p : Pagepool) (c n : ℕ) (b : Bitmap)
    → p.num_free_pages ≡ pos (suc c)
    → bitmap_findnset p.free_pages (pos p.num_pages) ≡ ok (b, pos n)
    → n < 2 ^ 20
    → pagepool_get_phys_page p
      ≡ ok (n * page_size, record p { free_pages = b; num_free_pages = prev p.num_free_pages })
unfolding pagepool_get_phys_page
get-some p c n b e f small = ground arith

module _ {p : Pagepool} (inv : Inv p) where
  get_found :
      (c : ℕ) {r : Bitmap × ℤ}
      → p.num_free_pages ≡ pos (suc c)
      → bitmap_findnset p.free_pages (pos p.num_pages) ≡ ok r
      → Search p.free_pages p.num_pages r
      → Yields (λ out. Got p out × Inv out.1) (pagepool_get_phys_page p)
  get_found c e f (full all) =
      absurd (ground (arith, inv.counted, count_free-all_taken p.free_pages p.num_pages all))
  get_found c e f (taken {p = n} first) =
      rw (get-some p c n _ e f (omega (arith, first.within, inv.addressable)))
        (yields (page first (free_page_static inv first.free), take_page-Inv inv first))

  get_counted :
      (c : ℕ)
      → p.num_free_pages ≡ pos c
      → Yields (λ out. Got p out × Inv out.1) (pagepool_get_phys_page p)
  get_counted zero e = rw (get-none p e) (yields (exhausted none_free, inv))
    where
      none_free : AllTaken p.free_pages p.num_pages
      none_free q h = elim (Bool-cases (bit p.free_pages q == 0)) [
        | inl free ↦ absurd (
            ground
              (arith, inv.counted, count_free-pos p.free_pages p.num_pages q h (==→eq _ 0 free)))
        | inr held ↦ omega (arith, bit-lt_two p.free_pages q, ==→ne _ 0 held)
      ]
  get_counted (suc c) e =
      let (r, f, s) =
        Yields-eq (bitmap_findnset-Search p.free_pages p.num_pages inv.words inv.room) in
      get_found c e f s

  -- In a pool that satisfies the invariant, `pagepool_get_phys_page` passes its assertions and
  -- keeps the invariant. It returns 0 and changes nothing if every page is taken; otherwise it
  -- returns the address of the first page whose bit was 0, a page from `static_end` on, takes that
  -- page and lowers the counter by one.
  pub pagepool_get_phys_page-Got : Yields (λ out. Got p out × Inv out.1) (pagepool_get_phys_page p)
  pagepool_get_phys_page-Got = get_counted (count_free p.free_pages p.num_pages) inv.counted

-- `pagepool_free_phys_page` gives back an allocated page: for an address in a page that is taken,
-- within the pool and not static, it passes its assertions, clears the page's bit, raises the
-- counter by one and keeps the invariant.
pagepool_free_phys_page-Inv :
    {p : Pagepool} (phys_addr : ℕ)
    → Inv p
    → phys_addr / page_size < p.num_pages
    → p.static_end ≤ phys_addr / page_size
    → bit p.free_pages (phys_addr / page_size) ≡ 1
    → Yields
        (λ q. (q ≡ give_page p (phys_addr / page_size)) × Inv q)
        (pagepool_free_phys_page p phys_addr)
unfolding pagepool_free_phys_page
pagepool_free_phys_page-Inv {p} phys_addr inv within above held =
    let fits : phys_addr / page_size < 32 * length p.free_pages = omega (arith, inv.room) in
    rw
      (
        ge→ltb (phys_addr / page_size) p.static_end above,
        bitmap_get-bit p.free_pages (phys_addr / page_size) fits,
        held,
        bitmap_set-ok p.free_pages (phys_addr / page_size) 0 fits (omega arith),
      )
      (yields (refl, give_page-Inv inv within above held))

-- `pagepool_free_phys_page` panics on a static page, and on a page of the pool whose bit is 0: no
-- page is released twice.
pub pagepool_free_phys_page-panic :
    {p : Pagepool} (phys_addr : ℕ)
    → Inv p
    → (phys_addr / page_size < p.static_end)
      ⊎ ((phys_addr / page_size < p.num_pages) × (bit p.free_pages (phys_addr / page_size) ≡ 0))
    → pagepool_free_phys_page p phys_addr ≡ panic
unfolding pagepool_free_phys_page
pagepool_free_phys_page-panic {p} phys_addr inv (inl static) = rw (lt→ltb _ _ static)
pagepool_free_phys_page-panic {p} phys_addr inv (inr (within, free)) =
    elim (Bool-cases (ltb (phys_addr / page_size) p.static_end)) [
      | inl static ↦ rw static
      | inr above ↦ rw (
        above,
        bitmap_get-bit p.free_pages (phys_addr / page_size) (omega (arith, inv.room)),
        free,
      )
    ]

-- The pool behind the two calls has the bits and the counter of the pool before them.
abbrev pub SamePages : Pagepool → Pagepool → Type 0
SamePages p q =
    ((i : ℕ) → bit q.free_pages i ≡ bit p.free_pages i) × (q.num_free_pages ≡ p.num_free_pages)

get_then_free :
    {p : Pagepool} {out : ℕ × Pagepool}
    → Inv p
    → Inv out.1
    → Got p out
    → 0 < out.0
    → Yields (SamePages p) (pagepool_free_phys_page out.1 out.0)
get_then_free inv inv' (exhausted all) h = absurd (omega arith)
get_then_free {p} inv inv' (page {n} f above) h =
    let fits : n < 32 * length p.free_pages = omega (arith, f.within, inv.room) in
    let number : n * page_size / page_size ≡ n = omega arith in
    let held : bit (set_bit p.free_pages n 1) n ≡ 1 =
      ground (arith, bit-set_bit p.free_pages n 1 n fits (omega arith)) in
    let freed =
      pagepool_free_phys_page-Inv (n * page_size) inv' (rw number f.within) (rw number above)
        (rw number held) in
    Yields-mono freed λ q (e, _).
      rw (e, number)
        (
          (λ i. ground (
            arith,
            f.free,
            bit-set_bit p.free_pages n 1 i fits (omega arith),
            bit-set_bit (set_bit p.free_pages n 1) n 0 i
                (omega (arith, length-set_bit p.free_pages n 1)) (omega arith),
          )),
          ground (arith, inv.counted, count_free-pos p.free_pages p.num_pages n f.within f.free),
        )

-- A page that `pagepool_get_phys_page` hands out can be released at once, and the pool is then as
-- it was: every bit and the counter are those of before.
pagepool_get-free :
    {p p' : Pagepool} {addr : ℕ}
    → Inv p
    → pagepool_get_phys_page p ≡ ok (addr, p')
    → 0 < addr
    → Yields (SamePages p) (pagepool_free_phys_page p' addr)
pagepool_get-free {p} inv e h =
    let (got, inv') = Yields-ok (rw e at (pagepool_get_phys_page-Got inv)) in
    get_then_free inv inv' got h
