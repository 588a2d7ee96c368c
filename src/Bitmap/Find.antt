-- ===== src/Bitmap/Find.antt =====
-- `bitmap_findnset` is a first-fit search: it takes the first bit that is 0, if there is one.
use osm_re_exam.Prelude.{
  ℕ, zero, suc, ◌+◌, ◌*◌, ◌/◌, ◌%◌, ◌≤◌, ◌<◌, ◌≡◌, ◌≢◌, inl, inr, arith, ◌==◌, if◌then◌else◌, ltb,
  leb, length, get_or, Bool-cases, ==→eq, ==→ne, ltb→lt, ltb→ge, leb→le, leb→gt,
}
use osm_re_exam.Prelude.Int.{ℤ, pos, minus_one}
use osm_re_exam.Prelude.Result.{Result, ok, ◌>>=◌, Yields, yields, read-ok}
use osm_re_exam.Prelude.Bits.{all_ones, digit_of_ones}
use osm_re_exam.Bitmap.{
  Bitmap, full_word, bitmap_sizeof, bitmap_set, Found, nothing, found, find_bit, find_word,
  bitmap_findnset,
}
use osm_re_exam.Bitmap.Digits.{bit, bit-lt_two, IsWords, set_bit, bitmap_get-bit, bitmap_set-ok}

-- `p` is the first of the first `l` bits that is 0.
pub record FirstFree (bitmap : Bitmap) (l p : ℕ) : Type 0 where
  pub within : p < l
  pub free : bit bitmap p ≡ 0
  pub first : (q : ℕ) → q < p → bit bitmap q ≡ 1

abbrev pub AllTaken : Bitmap → ℕ → Type 0
AllTaken bitmap l = (q : ℕ) → q < l → bit bitmap q ≡ 1

-- What the search answers on each outcome.
pub data Search (bitmap : Bitmap) (l : ℕ) : Bitmap × ℤ → Type 0 where
  full : AllTaken bitmap l → Search bitmap l (bitmap, minus_one)
  taken : {p : ℕ} → FirstFree bitmap l p → Search bitmap l (set_bit bitmap p 1, pos p)

-- The same for the inner loop, once the bits below `p` are known to be taken.
data InWord (bitmap : Bitmap) (l stop : ℕ) : Found → Type 0 where
  none_here : AllTaken bitmap stop → InWord bitmap l stop nothing
  here : {b : Bitmap} {z : ℤ} → Search bitmap l (b, z) → InWord bitmap l stop (found b z)

module _ (bitmap : Bitmap) (l : ℕ) where
  extend : (p : ℕ) → AllTaken bitmap p → bit bitmap p ≡ 1 → AllTaken bitmap (p + 1)
  extend p below e q h = elim (Bool-cases (q == p)) [
    | inl same ↦ rw (==→eq q p same) e
    | inr other ↦ below q (omega (arith, ==→ne q p other))
  ]

  hit :
      (p : ℕ)
      → p < 32 * length bitmap
      → AllTaken bitmap p
      → bit bitmap p ≡ 0
      → (stop : ℕ)
      → Yields (InWord bitmap l stop) (
          if leb l p
          then ok (found bitmap minus_one)
          else (do bitmap' ← bitmap_set bitmap (pos p) (pos 1); ok (found bitmap' (pos p))))
  hit p fits below free stop = elim (Bool-cases (leb l p)) [
    | inl past ↦ rw past (yields (here (full λ q h. below q (omega (arith, leb→le l p past)))))
    | inr inside ↦
        let is : FirstFree bitmap l p = record {
          within = leb→gt l p inside;
          free = free;
          first = below;
        } in
        rw (inside, bitmap_set-ok bitmap p 1 fits (omega arith)) (yields (here (taken is)))
  ]

  find_bit-InWord :
      (n base j stop : ℕ)
      → base + j + n ≡ stop
      → stop ≤ 32 * length bitmap
      → AllTaken bitmap (base + j)
      → Yields (InWord bitmap l stop) (find_bit n bitmap l base j)
  unfolding find_bit
  find_bit-InWord zero base j stop e fits below =
      let e' : base + j ≡ stop = omega arith in yields (none_here (rw e' at below))
  find_bit-InWord (suc n) base j stop e fits below =
      rw (bitmap_get-bit bitmap (base + j) (omega arith))
        (elim (Bool-cases (bit bitmap (base + j) == 0)) [
          | inl free ↦ rw free (hit (base + j) (omega arith) below (==→eq _ 0 free) stop)
          | inr set ↦
              let one : bit bitmap (base + j) ≡ 1 =
                omega (arith, bit-lt_two bitmap (base + j), ==→ne _ 0 set) in
              let next : base + (j + 1) ≡ base + j + 1 = omega arith in
              rw set (
                find_bit-InWord n base (j + 1) stop (omega arith) fits
                  (rw next (extend (base + j) below one)))
        ])

  word_taken :
      (i : ℕ)
      → get_or bitmap i 0 ≡ full_word
      → AllTaken bitmap (i * 32)
      → AllTaken bitmap ((i + 1) * 32)
  unfolding bit
  word_taken i e below q h = elim (Bool-cases (ltb q (i * 32))) [
    | inl old ↦ below q (ltb→lt _ _ old)
    | inr new ↦
        let at : q / 32 ≡ i = omega (arith, ltb→ge _ _ new) in
        rw (at, e) (digit_of_ones 32 (q % 32) (omega arith))
  ]

  -- A word that is not full is left by the inner loop with a result.
  some_free :
      (i : ℕ) → IsWords bitmap → get_or bitmap i 0 ≢ full_word → ¬ AllTaken bitmap ((i + 1) * 32)
  unfolding bit
  some_free i words ne all = ne (
      all_ones 32 (get_or bitmap i 0) (words i) λ k h.
        let at : (i * 32 + k) / 32 ≡ i = omega arith in
        let off : (i * 32 + k) % 32 ≡ k = omega arith in
        rw (at, off) at (all (i * 32 + k) (omega arith)))

  after_word :
      (i : ℕ) (rest : Result (Bitmap × ℤ)) {r : Result Found}
      → ¬ AllTaken bitmap ((i + 1) * 32)
      → Yields (InWord bitmap l ((i + 1) * 32)) r
      → Yields
          (Search bitmap l)
          (do f ← r; elim f [ nothing ↦ rest | found bitmap' p ↦ ok (bitmap', p) ])
  after_word i rest free (yields (none_here all)) = absurd (free all)
  after_word i rest free (yields (here s)) = yields s

  find_word-Search :
      (n i : ℕ)
      → IsWords bitmap
      → 32 * (i + n) ≤ 32 * length bitmap
      → l ≤ 32 * (i + n)
      → AllTaken bitmap (i * 32)
      → Yields (Search bitmap l) (find_word n bitmap l i)
  unfolding find_word
  find_word-Search zero i words fits enough below = yields (full λ q h. below q (omega arith))
  find_word-Search (suc n) i words fits enough below =
      rw (read-ok bitmap i 0 (omega arith)) (elim (Bool-cases (get_or bitmap i 0 == full_word)) [
        | inl ones ↦ rw ones (
            find_word-Search n (i + 1) words (omega arith) (omega arith)
              (word_taken i (==→eq _ _ ones) below))
        | inr some ↦ rw some (
            let at : i * 32 + 0 ≡ i * 32 = omega arith in
            after_word i _ (some_free i words (==→ne _ _ some)) (
              find_bit-InWord 32 (i * 32) 0 ((i + 1) * 32) (omega arith) (omega arith)
                (rw at below)))
      ])

  -- On an array of 32-bit words that holds at least `l` bits, `bitmap_findnset` neither panics nor
  -- leaves the array; it returns -1 and the array unchanged if the first `l` bits are all 1, and
  -- otherwise the position of the first bit that is 0, with that bit set in the array.
  pub bitmap_findnset-Search :
      IsWords bitmap
      → l ≤ 32 * length bitmap
      → Yields (Search bitmap l) (bitmap_findnset bitmap (pos l))
  unfolding bitmap_findnset bitmap_sizeof
  bitmap_findnset-Search words fits =
      find_word-Search (((l + 31) / 32 * 4) / 4) 0 words (omega arith) (omega arith)
        (λ q h. absurd (omega arith))
