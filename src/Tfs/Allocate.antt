-- ===== src/Tfs/Allocate.antt =====
-- The blocks that `tfs_create` (buenos/fs/tfs.c) takes for a new file.
use osm_re_exam.Prelude.{
  ℕ, zero, suc, ◌*◌, ◌≤◌, ◌<◌, ◌≡◌, refl, ◌≢◌, sym, ap, ◌∙◌, List, [], ◌∷◌, Option, none, some,
  arith, length, get_or, ◌==◌, eq→==, ne→==, if◌then◌else◌,
}
use osm_re_exam.Prelude.Int.{ℤ, pos}
use osm_re_exam.Prelude.Result.{Result, ok, ◌>>=◌, Yields, yields, Yields-eq}
use osm_re_exam.Bitmap.{Bitmap, bitmap_findnset}
use osm_re_exam.Bitmap.Digits.{bit, IsWords, set_bit, length-set_bit, bit-set_bit, set_bit-IsWords}
use osm_re_exam.Bitmap.Find.{FirstFree, AllTaken, Search, full, taken, bitmap_findnset-Search}
use osm_re_exam.Tfs.{allocate}

-- `n` different blocks below `l` that were free are taken, and no other bit has changed.
pub record Fresh (l n : ℕ) (bat : Bitmap) (blocks : List ℕ) (bat' : Bitmap) : Type 0 where
  pub count : length blocks ≡ n
  pub within : (i : ℕ) → i < n → get_or blocks i 0 < l
  pub free : (i : ℕ) → i < n → bit bat (get_or blocks i 0) ≡ 0
  pub taken_now : (i : ℕ) → i < n → bit bat' (get_or blocks i 0) ≡ 1
  pub distinct : (i j : ℕ) → i < n → j < n → get_or blocks i 0 ≡ get_or blocks j 0 → i ≡ j
  pub kept : (q : ℕ) → ((i : ℕ) → i < n → q ≢ get_or blocks i 0) → bit bat' q ≡ bit bat q

-- What comes of it: all the blocks, or fewer blocks, after which none of the first `l` is free.
pub data Allocated (l n : ℕ) (bat : Bitmap) : Option (List ℕ × Bitmap) → Type 0 where
  enough :
      {blocks : List ℕ} {bat' : Bitmap}
      → Fresh l n bat blocks bat'
      → Allocated l n bat (some (blocks, bat'))
  too_few :
      {m : ℕ} {blocks : List ℕ} {bat' : Bitmap}
      → m < n
      → Fresh l m bat blocks bat'
      → AllTaken bat' l
      → Allocated l n bat none

Fresh-none : (l : ℕ) (bat : Bitmap) → Fresh l 0 bat [] bat
Fresh-none l bat = record {
  count = refl;
  within = λ i h. absurd (omega arith);
  free = λ i h. absurd (omega arith);
  taken_now = λ i h. absurd (omega arith);
  distinct = λ i j h k e. absurd (omega arith);
  kept = λ q h. refl;
}

Fresh-cons :
    (l n p : ℕ) (bat : Bitmap) (blocks : List ℕ) (bat' : Bitmap)
    → l ≤ 32 * length bat
    → FirstFree bat l p
    → Fresh l n (set_bit bat p 1) blocks bat'
    → Fresh l (suc n) bat (p ∷ blocks) bat'
Fresh-cons l n p bat blocks bat' holds first rest = record {
  count = omega (arith, rest.count);
  within = within;
  free = free;
  taken_now = taken_now;
  distinct = distinct;
  kept = kept;
}
  where
    room : p < 32 * length bat
    room = let h = first.within in omega arith

    after : (q : ℕ) → bit (set_bit bat p 1) q ≡ (if q == p then 1 else bit bat q)
    after q = bit-set_bit bat p 1 q room (omega arith)

    at_p : bit (set_bit bat p 1) p ≡ 1
    at_p = rw (after p, eq→== p p refl) refl

    off_p : (q : ℕ) → q ≢ p → bit (set_bit bat p 1) q ≡ bit bat q
    off_p q n = rw (after q, ne→== q p n) refl

    other : (i : ℕ) → i < n → get_or blocks i 0 ≢ p
    other i h e =
        let z = rest.free i h in let o = ap (bit (set_bit bat p 1)) e ∙ at_p in omega arith

    within : (i : ℕ) → i < suc n → get_or (p ∷ blocks) i 0 < l
    within zero h = first.within
    within (suc i) h = rest.within i (omega arith)

    free : (i : ℕ) → i < suc n → bit bat (get_or (p ∷ blocks) i 0) ≡ 0
    free zero h = first.free
    free (suc i) h =
        sym (off_p (get_or blocks i 0) (other i (omega arith))) ∙ rest.free i (omega arith)

    taken_now : (i : ℕ) → i < suc n → bit bat' (get_or (p ∷ blocks) i 0) ≡ 1
    taken_now zero h = rest.kept p (λ i k e. other i k (sym e)) ∙ at_p
    taken_now (suc i) h = rest.taken_now i (omega arith)

    distinct :
        (i j : ℕ)
        → i < suc n
        → j < suc n
        → get_or (p ∷ blocks) i 0 ≡ get_or (p ∷ blocks) j 0
        → i ≡ j
    distinct zero zero h k e = refl
    distinct zero (suc j) h k e = absurd (other j (omega arith) (sym e))
    distinct (suc i) zero h k e = absurd (other i (omega arith) e)
    distinct (suc i) (suc j) h k e = ap suc (rest.distinct i j (omega arith) (omega arith) e)

    kept : (q : ℕ) → ((i : ℕ) → i < suc n → q ≢ get_or (p ∷ blocks) i 0) → bit bat' q ≡ bit bat q
    kept q h = rest.kept q (λ i k. h (suc i) (omega arith)) ∙ off_p q (h zero (omega arith))

module _ (n : ℕ) (bat : Bitmap) (l : ℕ) (holds : l ≤ 32 * length bat) where
  after_rest :
      (p : ℕ) {m : Result (Option (List ℕ × Bitmap))}
      → FirstFree bat l p
      → Yields (Allocated l n (set_bit bat p 1)) m
      → Yields
          (Allocated l (suc n) bat)
          (do r ← m; elim r [ none ↦ ok none | some found ↦ ok (some (p ∷ found.0, found.1)) ])
  after_rest p first (yields (enough f)) = yields (enough (Fresh-cons l n p bat _ _ holds first f))
  after_rest p first (yields (too_few {m} h f all)) =
      yields (too_few (omega arith) (Fresh-cons l m p bat _ _ holds first f) all)

  after-Search :
      (x : Bitmap × ℤ)
      → Search bat l x
      → bitmap_findnset bat (pos l) ≡ ok x
      → ((p : ℕ) → Yields (Allocated l n (set_bit bat p 1)) (allocate n (set_bit bat p 1) l))
      → Yields (Allocated l (suc n) bat) (allocate (suc n) bat l)
  unfolding allocate
  after-Search _ (full all) e rest = rw e (yields (too_few (omega arith) (Fresh-none l bat) all))
  after-Search _ (taken {p} first) e rest = rw e (after_rest p first (rest p))

-- For an allocation bitmap of 32-bit words that has a bit for each of the `l` blocks of the disk, the
-- loop of `tfs_create` that takes `n` blocks neither panics nor leaves the bitmap. It takes `n` different
-- blocks of the disk that were free, sets their bits and changes no other; or there are fewer, so
-- that after taking them the disk has no free block, and then it reports so.
pub allocate-Allocated :
    (n : ℕ) (bat : Bitmap) (l : ℕ)
    → IsWords bat
    → l ≤ 32 * length bat
    → Yields (Allocated l n bat) (allocate n bat l)
unfolding allocate
allocate-Allocated zero bat l words holds = yields (enough (Fresh-none l bat))
allocate-Allocated (suc n) bat l words holds =
    let (x, e, s) = Yields-eq (bitmap_findnset-Search bat l words holds) in
    after-Search n bat l holds x s e (λ p.
      allocate-Allocated n (set_bit bat p 1) l (set_bit-IsWords bat p 1 words)
        (omega (arith, length-set_bit bat p 1)))
