-- ===== src/Process/Memory.antt =====
-- `process_memlimit` grows the heap by whole pages.
use osm_re_exam.Prelude.{
  ℕ, zero, suc, ◌+◌, ◌-◌, ◌*◌, ◌/◌, ◌%◌, ◌^◌, ◌<◌, ◌≤◌, ◌≡◌, refl, ◌≢◌, ◌∙◌, ◌⊎◌, inl, inr, Bool,
  true, false, none, some, ◌==◌, if◌then◌else◌, arith, Bool-cases, ==→eq, ==→ne, ne→==, ge→ltb,
}
use osm_re_exam.Prelude.Int.{pos}
use osm_re_exam.Prelude.Result.{
  ok, panic, ◌>>=◌, Yields, yields, Yields-eq, Yields-bind, Yields-mono,
}
use osm_re_exam.Bitmap.Find.{AllTaken}
use osm_re_exam.Kmalloc.{page_size}
use osm_re_exam.Pagepool.{Pagepool}
use osm_re_exam.Pagepool.Invariant.{Inv}
use osm_re_exam.Pagepool.Alloc.{Got, exhausted, page, pagepool_get_phys_page-Got}
use osm_re_exam.Vm.{Pagetable, pagetable_entries, vm_map}
use osm_re_exam.Vm.Lookup.{IsTable, translate}
use osm_re_exam.Vm.Map.{vm_map-Mapped, vm_map-panic}
use osm_re_exam.Vm.Map.Pair.{Mapped}
use osm_re_exam.Process.{Space, grow, process_memlimit}

-- What the pool and the page table satisfy, with room in the table for `n` more entries.
pub record IsSpace (s : Space) (n : ℕ) : Type 0 where
  pub inv : Inv s.pool
  pub table : IsTable s.pagetable
  pub room : s.pagetable.valid_count + n ≤ pagetable_entries

-- The page at number `k` of the address space.
abbrev pub page_at : ℕ → ℕ
page_at k = k * page_size % 2 ^ 32

-- Pages `i` to `i + n - 1` lead to writable frames, and the other addresses to where they did.
pub record Grew (i n : ℕ) (s s' : Space) : Type 0 where
  pub mapped :
      (k : ℕ) → i ≤ k → k < i + n → (pfn : ℕ) × (translate s'.pagetable (page_at k) ≡ some (pfn, 1))
  pub elsewhere :
      (va : ℕ)
      → (va / page_size < i) ⊎ (i + n ≤ va / page_size)
      → translate s'.pagetable va ≡ translate s.pagetable va
  pub inv : Inv s'.pool
  pub table : IsTable s'.pagetable
  pub heap : s'.heap_end ≡ s.heap_end

-- All `n` pages were mapped, or only some, because the pool has no free page left.
pub data Growth (i n : ℕ) (s : Space) : Bool × Space → Type 0 where
  all : {s' : Space} → Grew i n s s' → Growth i n s (true, s')
  short :
      {s' : Space} (k : ℕ)
      → k < n
      → Grew i k s s'
      → AllTaken s'.pool.free_pages s'.pool.num_pages
      → Growth i n s (false, s')

-- The addresses of different pages below 4 GB lie in different pages.
page_number : (k : ℕ) → k < 2 ^ 20 → page_at k / page_size ≡ k
page_number k h = omega arith

module _ (i : ℕ) (s : Space) (pool : Pagepool) (pt : Pagetable) (pfn : ℕ) (low : i < 2 ^ 20) where
  -- One page more in front.
  Grew-suc :
      {n : ℕ} {s' : Space}
      → Mapped s.pagetable pt pfn (page_at i) 1
      → Grew (i + 1) n (record s { pool = pool; pagetable = pt }) s'
      → Grew i (suc n) s s'
  Grew-suc {n} {s'} m g = record {
    mapped = mapped;
    elsewhere = elsewhere;
    inv = g.inv;
    table = g.table;
    heap = g.heap;
  }
    where
      mapped :
          (k : ℕ)
          → i ≤ k
          → k < i + suc n
          → (f : ℕ) × (translate s'.pagetable (page_at k) ≡ some (f, 1))
      mapped k above below = elim (Bool-cases (k == i)) [
        | inl here ↦
            let e : k ≡ i = ==→eq k i here in
            rw e (pfn, g.elsewhere (page_at i) (inl (omega (arith, page_number i low))) ∙ m.there)
        | inr later ↦ let ne = ==→ne k i later in g.mapped k (omega arith) (omega arith)
      ]

      elsewhere :
          (va : ℕ)
          → (va / page_size < i) ⊎ (i + suc n ≤ va / page_size)
          → translate s'.pagetable va ≡ translate s.pagetable va
      elsewhere va (inl before) =
          g.elsewhere va (inl (omega arith)) ∙ m.elsewhere va (omega (arith, page_number i low))
      elsewhere va (inr behind) =
          g.elsewhere va (inr (omega arith)) ∙ m.elsewhere va (omega (arith, page_number i low))

  Growth-suc :
      {n : ℕ} {r : Bool × Space}
      → Mapped s.pagetable pt pfn (page_at i) 1
      → Growth (i + 1) n (record s { pool = pool; pagetable = pt }) r
      → Growth i (suc n) s r
  Growth-suc m (all g) = all (Grew-suc m g)
  Growth-suc m (short k h g taken) = short (suc k) (omega arith) (Grew-suc m g) taken

-- None of `n` pages from page `i` on is mapped.
abbrev pub Unmapped : Space → ℕ → ℕ → Type 0
Unmapped s i n = (k : ℕ) → i ≤ k → k < i + n → translate s.pagetable (page_at k) ≡ none

-- One round of the loop, when the rounds behind it are as they should be.
grow_round :
    (n i : ℕ) (s : Space)
    → IsSpace s (suc n)
    → i + suc n ≤ 2 ^ 20
    → Unmapped s i (suc n)
    → ((s' : Space)
        → IsSpace s' n
        → Unmapped s' (i + 1) n
        → Yields (Growth (i + 1) n s') (grow n (i + 1) s'))
    → Yields (Growth i (suc n) s) (grow (suc n) i s)
unfolding grow
grow_round n i s is low free next =
    Yields-bind _ (pagepool_get_phys_page-Got is.inv) λ out got. step out got.0 got.1
  where
    mapped_first :
        (pool : Pagepool) (frame : ℕ)
        → Inv pool
        → Yields (Growth i (suc n) s) (do
          pagetable ← vm_map s.pagetable frame (page_at i) (pos 1)
          grow n (i + 1) (record s { pool = pool; pagetable = pagetable }))
    mapped_first pool frame inv =
        Yields-bind _
          (vm_map-Mapped s.pagetable frame (page_at i) 1 is.table (omega arith)
            (inr (omega (arith, is.room))) (free i (omega arith) (omega arith)))
          λ pt m.
            Yields-mono
              (next (record s { pool = pool; pagetable = pt })
                (record { inv = inv; table = m.table; room = omega (arith, is.room, m.grown) })
                λ k h h'.
                  m.elsewhere (page_at k) (omega (arith, page_number i, page_number k))
                  ∙ free k (omega arith) (omega arith))
              λ r g. Growth-suc i s pool pt (frame / 2 ^ 12) (omega arith) m g

    step :
        (out : ℕ × Pagepool)
        → Got s.pool out
        → Inv out.1
        → Yields (Growth i (suc n) s) (
            if out.0 == 0 then ok (false, record s { pool = out.1 }) else (do
              pagetable ← vm_map s.pagetable out.0 (page_at i) (pos 1)
              grow n (i + 1) (record s { pool = out.1; pagetable = pagetable })))
    step out (exhausted taken) inv = yields (
        short 0 (omega arith)
          (record {
            mapped = λ k h h'. absurd (omega arith);
            elsewhere = λ va h. refl;
            inv = inv;
            table = is.table;
            heap = refl;
          })
          taken)
    step out (page {n = f} first above) inv =
        let nonzero : (f * page_size == 0) ≡ false =
          ne→== (f * page_size) 0 (omega (arith, is.inv.kernel)) in
        rw nonzero (mapped_first _ (f * page_size) inv)

grow-Growth :
    (n i : ℕ) (s : Space)
    → IsSpace s n
    → i + n ≤ 2 ^ 20
    → Unmapped s i n
    → Yields (Growth i n s) (grow n i s)
unfolding grow
grow-Growth zero i s is low free = yields (
    all (record {
      mapped = λ k h h'. absurd (omega arith);
      elsewhere = λ va h. refl;
      inv = is.inv;
      table = is.table;
      heap = refl;
    }))
grow-Growth (suc n) i s is low free =
    grow_round n i s is low free λ s' is' free'. grow-Growth n (i + 1) s' is' (omega arith) free'

-- The number of pages that lie between the end of the heap and its new end.
abbrev pub pages_up_to : Space → ℕ → ℕ
pages_up_to s heap_end = heap_end / page_size - s.heap_end / page_size

abbrev pub first_page : Space → ℕ
first_page s = s.heap_end / page_size + 1

-- What a call that raises the end of the heap does: all the pages are mapped and the end moves, or
-- the pool runs out, and the end stays while the first pages are mapped.
pub data Raised (s : Space) (heap_end : ℕ) : ℕ × Space → Type 0 where
  moved :
      {s' : Space}
      → Grew (first_page s) (pages_up_to s heap_end) s s'
      → Raised s heap_end (heap_end, record s' { heap_end = heap_end })
  refused :
      {s' : Space} (k : ℕ)
      → k < pages_up_to s heap_end
      → Grew (first_page s) k s s'
      → AllTaken s'.pool.free_pages s'.pool.num_pages
      → Raised s heap_end (0, s')

-- For a 32-bit address that is not 0 and not below the end of the heap, with the pages up to it
-- unmapped and room for them in the page table, `process_memlimit` succeeds: either every page
-- up to the new end is mapped to a writable frame, the other addresses lead to where they did, and the
-- new end is returned, or the pool ran out of pages, the answer is 0 and the end of the heap
-- stays. Pool and page table are well-formed afterwards.
pub process_memlimit-Raised :
    (s : Space) (heap_end : ℕ)
    → heap_end ≢ 0
    → s.heap_end ≤ heap_end
    → heap_end < 2 ^ 32
    → IsSpace s (pages_up_to s heap_end)
    → Unmapped s (first_page s) (pages_up_to s heap_end)
    → Yields (Raised s heap_end) (process_memlimit s heap_end)
unfolding process_memlimit
process_memlimit-Raised s heap_end nonzero up small is free =
    rw (ne→== heap_end 0 nonzero, ge→ltb heap_end s.heap_end up)
      (Yields-bind _ (grow-Growth (pages_up_to s heap_end) (first_page s) s is (omega arith) free)
        λ r g. result r g)
  where
    result :
        (r : Bool × Space)
        → Growth (first_page s) (pages_up_to s heap_end) s r
        → Yields
            (Raised s heap_end)
            (if r.0 then ok (heap_end, record (r.1) { heap_end = heap_end }) else ok (0, r.1))
    result r (all g) = yields (moved g)
    result r (short k h g taken) = yields (refused k h g taken)

grow_mapped :
    (n : ℕ) (s : Space)
    → IsSpace s 0
    → translate s.pagetable (page_at (first_page s)) ≢ none
    → (out : ℕ × Pagepool) → Got s.pool out
    → ¬ AllTaken s.pool.free_pages s.pool.num_pages
    → (if out.0 == 0 then ok (false, record s { pool = out.1 }) else (do
      pagetable ← vm_map s.pagetable out.0 (page_at (first_page s)) (pos 1)
      grow n (first_page s + 1) (record s { pool = out.1; pagetable = pagetable })))
      ≡ panic
grow_mapped n s is used out (exhausted taken) some_free = absurd (some_free taken)
grow_mapped n s is used out (page {n = f} first above) some_free =
    let nonzero : (f * page_size == 0) ≡ false =
      ne→== (f * page_size) 0 (omega (arith, is.inv.kernel)) in
    rw (
      nonzero,
      vm_map-panic s.pagetable (f * page_size) (page_at (first_page s)) 1 is.table (omega arith)
          (inl used),
    )

-- If the first page behind the end of the heap is mapped already, as it is after a call that was
-- refused halfway, and the pool has a free page, then `process_memlimit` to an address in a later
-- page than the end of the heap panics.
process_memlimit-panic :
    (s : Space) (heap_end : ℕ)
    → s.heap_end / page_size < heap_end / page_size
    → IsSpace s 0
    → translate s.pagetable (page_at (first_page s)) ≢ none
    → ¬ AllTaken s.pool.free_pages s.pool.num_pages
    → process_memlimit s heap_end ≡ panic
unfolding process_memlimit grow
process_memlimit-panic s heap_end later is used some_free =
    let (out, at, (got, inv)) = Yields-eq (pagepool_get_phys_page-Got is.inv) in
    let pages : pages_up_to s heap_end ≡ suc (pages_up_to s heap_end - 1) = omega arith in
    rw (ne→== heap_end 0 (omega arith), ge→ltb heap_end s.heap_end (omega arith), pages, at)
      (rw (grow_mapped (pages_up_to s heap_end - 1) s is used out got some_free) refl)
