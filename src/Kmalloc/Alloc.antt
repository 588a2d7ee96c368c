-- ===== src/Kmalloc/Alloc.antt =====
-- What `kmalloc` returns: fresh, aligned blocks below the end of memory.
use osm_re_exam.Prelude.{ℕ, ◌+◌, ◌%◌, ◌^◌, ◌≤◌, ◌<◌, ◌≡◌, refl, sym, List, [], ◌∷◌, arith}
use osm_re_exam.Prelude.Int.{pos}
use osm_re_exam.Prelude.Result.{Result, ok, panic, fault, ◌>>=◌}
use osm_re_exam.Prelude.Bits.{bit_and-three, bit_and-multiple_of_four}
use osm_re_exam.Kmalloc.{Kmalloc, kmalloc, align}

-- Short of the top of the address space, `align` gives the next multiple of 4.
pub align_lem : (a : ℕ) → a + 4 < 2 ^ 32 → (a ≤ align a) × (align a < a + 4) × (align a % 4 ≡ 0)
unfolding align
align_lem a h =
    ground (arith, bit_and-three a, bit_and-multiple_of_four ((a + 4) % 2 ^ 32) (omega arith))

-- When memory ends at least 4 bytes below the top of the address space and the request does not
-- wrap around, a block that `kmalloc` returns starts at the free area and lies within memory; the
-- free area then starts at a word boundary, behind the block and less than 4 bytes past its end.
pub kmalloc-block :
    (k k' : Kmalloc) (bytes res : ℕ)
    → k.memory_end + 4 < 2 ^ 32
    → k.free_area_start + bytes < 2 ^ 32
    → kmalloc k (pos bytes) ≡ ok (res, k')
    → (res ≡ k.free_area_start)
      × (res + bytes ≤ k.memory_end)
      × (res + bytes ≤ k'.free_area_start)
      × (k'.free_area_start < res + bytes + 4)
      × (k'.free_area_start % 4 ≡ 0)
      × (k'.memory_end ≡ k.memory_end)
unfolding kmalloc
kmalloc-block k k' bytes res room small e =
    ground (arith, align_lem ((k.free_area_start + bytes) % 2 ^ 32))

-- Requests one after the other; the result is the blocks.
unfoldable pub kmalloc_all : Kmalloc → List ℕ → Result (List ℕ × Kmalloc)
kmalloc_all k [] = ok ([], k)
kmalloc_all k (bytes ∷ requests) = do
  (res, k1) ← kmalloc k (pos bytes)
  (blocks, k2) ← kmalloc_all k1 requests
  ok (res ∷ blocks, k2)

-- One block for each request, from `low` on, at word boundaries, each behind the ones before, and none
-- past `high`.
abbrev pub AreApart : (low high : ℕ) → List ℕ → List ℕ → Type 0
AreApart low high [] [] = Unit
AreApart low high (bytes ∷ requests) (res ∷ blocks) =
    (low ≤ res) × (res % 4 ≡ 0) × (res + bytes ≤ high) × AreApart (res + bytes) high requests blocks
AreApart low high [] (res ∷ blocks) = ⊥
AreApart low high (bytes ∷ requests) [] = ⊥

AreApart-mono :
    (low low' high : ℕ) (requests blocks : List ℕ)
    → low ≤ low'
    → AreApart low' high requests blocks
    → AreApart low high requests blocks
AreApart-mono low low' high [] [] h a = tt
AreApart-mono low low' high (bytes ∷ requests) (res ∷ blocks) h a =
    (omega (arith, a.0), a.1, a.2, a.3)
AreApart-mono low low' high [] (res ∷ blocks) h a = a
AreApart-mono low low' high (bytes ∷ requests) [] h a = a

-- No request can wrap around.
abbrev pub AreSmall : ℕ → List ℕ → Type 0
AreSmall high [] = Unit
AreSmall high (bytes ∷ requests) = (high + bytes + 4 < 2 ^ 32) × AreSmall high requests

two_results :
    {A B : Type 0} (r : Result A) (f : A → Result B) {b : B}
    → (r >>= f) ≡ ok b
    → (a : A) × (r ≡ ok a) × (f a ≡ ok b)
two_results (ok a) f e = (a, refl, e)
two_results panic f e = cc
two_results fault f e = cc

-- From a free area that starts at a word boundary and less than 4 bytes past the end of memory at most,
-- with no request that could wrap around: the blocks of any sequence of requests that are all granted
-- start at word boundaries, lie within memory, and none overlaps another.
pub kmalloc_all-Apart :
    (k k' : Kmalloc) (requests blocks : List ℕ)
    → k.free_area_start % 4 ≡ 0
    → k.free_area_start < k.memory_end + 4
    → k.memory_end + 4 < 2 ^ 32
    → AreSmall k.memory_end requests
    → kmalloc_all k requests ≡ ok (blocks, k')
    → AreApart k.free_area_start k.memory_end requests blocks
unfolding kmalloc_all
kmalloc_all-Apart k k' [] blocks aligned near room small e =
    let none_left : [] ≡ blocks = cc in rw (sym none_left) tt
kmalloc_all-Apart k k' (bytes ∷ requests) blocks aligned near room small e =
    let ((res, k1), first, rest) = two_results (kmalloc k (pos bytes)) _ e in
    let ((more, k2), others, last) = two_results (kmalloc_all k1 requests) _ rest in
    let whole : res ∷ more ≡ blocks = cc in
    let b = kmalloc-block k k1 bytes res room (omega (arith, small.0, near)) first in
    let same = b.5 in
    let later =
      kmalloc_all-Apart k1 k2 requests more b.4 (omega (arith, b.1, b.3, same))
        (omega (arith, room, same)) (rw same small.1) others in
    rw (sym whole) (
      omega (arith, b.0),
      rw b.0 aligned,
      b.1,
      AreApart-mono (res + bytes) k1.free_area_start k.memory_end requests more b.2
          (rw (sym same) later),
    )
