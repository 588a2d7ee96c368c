-- ===== src/UserAlloc/Heap.antt =====
-- The heap of a user program (buenos/tests/lib.c): blocks in use and free blocks never overlap.
use osm_re_exam.Prelude.{
  ℕ, ◌+◌, ◌-◌, ◌%◌, ◌^◌, ◌≤◌, ◌<◌, ◌≡◌, refl, ◌≢◌, sym, ◌∙◌, ◌⊎◌, inl, inr, List, [], ◌∷◌, Option,
  none, some, ◌==◌, arith, Bool-cases, ne→==, eq→==,
}
use osm_re_exam.Prelude.Int.{word_add}
use osm_re_exam.UserAlloc.{
  Block, UserHeap, set_header, round_size, find_block, extend_heap, malloc, free,
}
use osm_re_exam.UserAlloc.FreeList.{
  user_end, IsFree, Disjoint, Apart, total, Found, not_found, found, find_block-Found,
}
use osm_re_exam.UserAlloc.Insert.{IsBlock, insert_block-Inserted}

-- `live` says which blocks are in use.
pub record IsHeap (limit : ℕ) (h : UserHeap) (live : Block → Type 0) : Type 0 where
  pub fits : limit ≤ user_end
  pub aligned : limit % 4 ≡ 0
  pub ordered : IsFree 0 limit h.free_list
  pub held :
      (x : Block) → live x → (h.header x.address ≡ x.size) × IsBlock 0 limit x × Apart x h.free_list
  pub disjoint : (x y : Block) → live x → live y → (x ≡ y) ⊎ Disjoint x y

-- What syscall_memlimit promises: asked with NULL it answers with the end of the heap, and else it moves
-- the end to the address, which is one of a user program, or answers NULL and leaves it.
pub record IsMemlimit {K : Type 0} (memlimit : K → ℕ → ℕ × K) (heap_of : K → ℕ) : Type 0 where
  pub asks : (k : K) → memlimit k 0 ≡ (heap_of k, k)
  pub moves :
      (k : K) (e : ℕ)
      → e ≢ 0
      → (((memlimit k e).0 ≡ 0) × (heap_of (memlimit k e).1 ≡ heap_of k))
        ⊎ (((memlimit k e).0 ≡ e) × (heap_of (memlimit k e).1 ≡ e) × (e ≤ user_end))

-- How a call of `malloc` ends.
pub data Outcome {K : Type 0} (heap_of : K → ℕ) (h : UserHeap) (live : Block → Type 0) (k : K)
    (size : ℕ) : ℕ × UserHeap × K → Type 0 where
  refused : {k' : K} → heap_of k' ≡ heap_of k → Outcome heap_of h live k size (0, h, k')
  granted :
      (b : Block) {h' : UserHeap} {k' : K}
      → size + 4 ≤ b.size
      → b.address % 4 ≡ 0
      → ((x : Block) → live x → Disjoint x b)
      → IsHeap (heap_of k') h' (λ x. (x ≡ b) ⊎ live x)
      → Outcome heap_of h live k size (b.address + 4, h', k')

round_size_lem :
    (size : ℕ)
    → size ≤ 2 ^ 30
    → (8 ≤ round_size size)
      × (round_size size % 4 ≡ 0)
      × (round_size size ≤ 2 ^ 30)
      × (size ≤ round_size size)
unfolding round_size
round_size_lem size h = ground arith

Apart-behind :
    (low limit : ℕ) (x : Block) (bs : List Block)
    → limit ≤ x.address
    → IsFree low limit bs
    → Apart x bs
Apart-behind low limit x [] h f = tt
Apart-behind low limit x (b ∷ bs) h f =
    (inr (omega arith), Apart-behind (b.address + b.size + 1) limit x bs h f.5)

IsFree-limit :
    (low limit limit' : ℕ) (bs : List Block)
    → limit ≤ limit'
    → IsFree low limit bs
    → IsFree low limit' bs
IsFree-limit low limit limit' [] h f = tt
IsFree-limit low limit limit' (b ∷ bs) h f =
    (f.0, f.1, f.2, f.3, omega arith, IsFree-limit (b.address + b.size + 1) limit limit' bs h f.5)

Disjoint-address : (x b : Block) → 0 < x.size → 0 < b.size → Disjoint x b → x.address ≢ b.address
Disjoint-address x b h k (inl d) e = omega arith
Disjoint-address x b h k (inr d) e = omega arith

Disjoint-sym : (x y : Block) → Disjoint x y → Disjoint y x
Disjoint-sym x y (inl d) = inr d
Disjoint-sym x y (inr d) = inl d

module _ (limit limit' : ℕ) (h : UserHeap) (live : Block → Type 0) (heap : IsHeap limit h live)
    (b : Block) (bs' : List Block) where
  -- One block more in use.
  IsHeap-more :
      limit ≤ limit'
      → limit' ≤ user_end
      → limit' % 4 ≡ 0
      → IsFree 0 limit' bs'
      → IsBlock 0 limit' b
      → Apart b bs'
      → ((x : Block) → live x → Disjoint x b × Apart x bs')
      → IsHeap limit'
          (record { free_list = bs'; header = set_header h.header b.address b.size })
          (λ x. (x ≡ b) ⊎ live x)
  IsHeap-more le fits aligned ordered block apart others = record {
    fits = fits;
    aligned = aligned;
    ordered = ordered;
    held = held;
    disjoint = disjoint;
  }
    where
      held :
          (x : Block)
          → (x ≡ b) ⊎ live x
          → (set_header h.header b.address b.size x.address ≡ x.size)
            × IsBlock 0 limit' x
            × Apart x bs'
      held x (inl e) = rw e (rw (eq→== b.address b.address refl) refl, block, apart)
      held x (inr u) =
          let (is, i, a) = heap.held x u in
          let (d, a') = others x u in
          (
            rw (ne→== x.address b.address (Disjoint-address x b i.1 block.1 d)) is,
            (i.0, i.1, i.2, i.3, omega arith),
            a',
          )

      disjoint : (x y : Block) → (x ≡ b) ⊎ live x → (y ≡ b) ⊎ live y → (x ≡ y) ⊎ Disjoint x y
      disjoint x y (inl e) (inl f) = inl (e ∙ sym f)
      disjoint x y (inl e) (inr v) = inr (rw e (Disjoint-sym y b (others y v).0))
      disjoint x y (inr u) (inl f) = inr (rw f ((others x u).0))
      disjoint x y (inr u) (inr v) = heap.disjoint x y u v

module _ {K : Type 0} (memlimit : K → ℕ → ℕ × K) (heap_of : K → ℕ)
    (law : IsMemlimit memlimit heap_of) where
  extend_heap-Outcome :
      (h : UserHeap) (live : Block → Type 0) (k : K) (size wanted : ℕ)
      → IsHeap (heap_of k) h live
      → size ≤ wanted
      → wanted % 4 ≡ 0
      → wanted ≤ 2 ^ 30
      → Outcome heap_of h live k size (extend_heap memlimit h k wanted)
  unfolding extend_heap
  extend_heap-Outcome h live k size wanted heap s1 s2 s3 =
      let end = heap_of k in
      let fits = heap.fits in
      let aligned = heap.aligned in
      let full : (4 + wanted) % 2 ^ 32 ≡ 4 + wanted = omega arith in
      let new : (heap_of k + (4 + wanted)) % 2 ^ 32 ≡ heap_of k + (4 + wanted) = omega arith in
      let ptr : (heap_of k + 4) % 2 ^ 32 ≡ heap_of k + 4 = omega arith in
      let some_end : heap_of k + (4 + wanted) ≢ 0 = λ e. absurd (omega arith) in
      let b : Block = record { address = heap_of k; size = 4 + wanted } in
      rw (law.asks k, full, new, ptr)
        (elim (law.moves k (heap_of k + (4 + wanted)) some_end) [
          | inl stays ↦ rw stays.0 (refused stays.1)
          | inr moved ↦
              let below : heap_of k + (4 + wanted) ≤ user_end = moved.2 in
              rw (moved.0, ne→== (heap_of k + (4 + wanted)) 0 some_end)
                (granted b (omega arith) aligned (λ x u. inl (heap.held x u).1.4)
                  (rw moved.1 (
                    IsHeap-more (heap_of k) (heap_of k + (4 + wanted)) h live heap b h.free_list
                      (omega arith) below (omega arith)
                      (IsFree-limit 0 (heap_of k) (heap_of k + (4 + wanted)) h.free_list
                        (omega arith) heap.ordered)
                      (omega arith, omega arith, aligned, omega arith, omega arith)
                      (Apart-behind 0 (heap_of k) b h.free_list (omega arith) heap.ordered)
                      (λ x u. (inl (heap.held x u).1.4, (heap.held x u).2)))))
        ])

  search-Outcome :
      (h : UserHeap) (live : Block → Type 0) (k : K) (size wanted : ℕ)
      → IsHeap (heap_of k) h live
      → size ≤ wanted
      → wanted % 4 ≡ 0
      → wanted ≤ 2 ^ 30
      → (r : Option (Block × List Block)) → Found 0 (heap_of k) wanted h.free_list r
      → Outcome heap_of h live k size (elim r [
        | none ↦ extend_heap memlimit h k wanted
        | some r ↦ (
          word_add (r.0).address 4,
          record { free_list = r.1; header = set_header h.header (r.0).address (r.0).size },
          k,
        )
      ])
  search-Outcome h live k size wanted heap s1 s2 s3 _ not_found =
      extend_heap-Outcome h live k size wanted heap s1 s2 s3
  search-Outcome h live k size wanted heap s1 s2 s3 _ (found {b} {bs'} t) =
      let fits = heap.fits in
      let inside = t.inside in
      let enough = t.enough in
      let ptr : (b.address + 4) % 2 ^ 32 ≡ b.address + 4 = omega arith in
      rw ptr (
        granted b (omega arith) t.address_aligned (λ x u. (t.others x (heap.held x u).2).0)
          (IsHeap-more (heap_of k) (heap_of k) h live heap b bs' (omega arith) fits heap.aligned
            t.left (t.above, omega arith, t.address_aligned, t.size_aligned, inside) t.apart
            (λ x u. t.others x (heap.held x u).2)))

  -- For a heap in order and a size of at most 2 ^ 30 bytes, `malloc` either returns NULL and changes
  -- nothing, or returns a pointer, a multiple of 4, to a block of at least the size behind its header,
  -- which overlaps no block in use; the heap is in order with this block in use too.
  pub malloc-Outcome :
      (h : UserHeap) (live : Block → Type 0) (k : K) (size : ℕ)
      → IsHeap (heap_of k) h live
      → size ≤ 2 ^ 30
      → Outcome heap_of h live k size (malloc memlimit h k size)
  unfolding malloc
  malloc-Outcome h live k size heap small =
      let (s1, s2, s3, s4) = round_size_lem size small in
      elim (Bool-cases (size == 0)) [
        | inl nothing ↦ rw nothing (refused refl)
        | inr some_size ↦ rw some_size (
            search-Outcome h live k size (round_size size) heap s4 s2 s3
              (find_block (round_size size) h.free_list)
              (find_block-Found (round_size size) (heap_of k) s1 s2 s3 heap.fits 0 h.free_list
                heap.ordered))
      ]

-- For a heap in order and a block in use, `free` of its pointer leaves the heap in order with this block
-- no longer in use, and the free blocks have its bytes more than before.
pub free-IsHeap :
    (limit : ℕ) (h : UserHeap) (live : Block → Type 0) (b : Block)
    → IsHeap limit h live
    → live b
    → IsHeap limit (free h (b.address + 4)) (λ x. live x × (x ≢ b))
      × (total (free h (b.address + 4)).free_list ≡ b.size + total h.free_list)
unfolding free
free-IsHeap limit h live b heap used =
    let (is, i, a) = heap.held b used in
    let fits = heap.fits in
    let inside : b.address + b.size ≤ limit = i.4 in
    let back : (b.address + 4 + (2 ^ 32 - 4)) % 2 ^ 32 ≡ b.address = omega arith in
    let block_ne : b.address + 4 ≢ 0 = λ e. absurd (omega arith) in
    let r = insert_block-Inserted limit fits 0 b h.free_list heap.ordered i a in
    rw (back, is, ne→== (b.address + 4) 0 block_ne)
      (
        record {
          fits = fits;
          aligned = heap.aligned;
          ordered = r.free;
          held = λ x u.
              let (is', i', a') = heap.held x u.0 in (is', i', r.others x i'.1 (other x u) a');
          disjoint = λ x y u v. heap.disjoint x y u.0 v.0;
        },
        r.sum,
      )
  where
    other : (x : Block) → live x × (x ≢ b) → Disjoint x b
    other x u = elim (heap.disjoint x b u.0 used) [ inl e ↦ absurd (u.1 e) | inr d ↦ d ]
