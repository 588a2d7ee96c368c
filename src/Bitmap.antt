-- ===== src/Bitmap.antt =====
-- buenos/lib/bitmap.c: bitmaps as arrays of 32-bit words. A `bitmap_t *` is the list of its words;
-- an access outside of the array is `fault`.
pub mod Digits
pub mod Find
use osm_re_exam.Prelude.{
  ℕ, zero, suc, ◌+◌, ◌-◌, ◌*◌, ◌/◌, ◌%◌, ◌^◌, bit_and, bit_or, List, ◌==◌, if◌then◌else◌, ltb, leb,
  ◌≡◌, refl, [], ◌∷◌,
}
use osm_re_exam.Prelude.Int.{ℤ, pos, negsuc, minus_one}
use osm_re_exam.Prelude.Result.{Result, ok, panic, ◌>>=◌, read, write}

abbrev pub Bitmap : Type 0
Bitmap = List ℕ

-- `0xffffffff`
abbrev pub full_word : ℕ
full_word = 0xffff_ffff

-- `~w` on a 32-bit word
abbrev pub complement : ℕ → ℕ
complement w = full_word - w

-- The size is asked for counts of bits that are not negative.
unfoldable pub bitmap_sizeof : ℕ → ℕ
bitmap_sizeof num_bits = (num_bits + 31) / 32 * 4

-- The loop of `bitmap_init`, with `n` words left.
clear_words : ℕ → Bitmap → ℕ → Result Bitmap
clear_words zero bitmap i = ok bitmap
clear_words (suc n) bitmap i = do cleared ← write bitmap i 0; clear_words n cleared (i + 1)

unfoldable pub bitmap_init : Bitmap → ℤ → Result Bitmap
unfolding clear_words
bitmap_init bitmap (negsuc _) = panic
bitmap_init bitmap (pos size) = clear_words ((size + 31) / 32) bitmap 0

unfoldable pub bitmap_get : Bitmap → ℤ → Result ℕ
bitmap_get bitmap (negsuc _) = panic
bitmap_get bitmap (pos p) = do w ← read bitmap (p / 32); ok (bit_and (w / 2 ^ (p % 32)) 1)

-- The word that `bitmap_set` stores for a bit value.
new_word : ℕ → ℕ → ℤ → Result ℕ
new_word w j (pos zero) = ok (bit_and w (complement (2 ^ j)))
new_word w j (pos (suc zero)) = ok (bit_or w (2 ^ j))
new_word w j _ = panic

unfoldable pub bitmap_set : Bitmap → ℤ → ℤ → Result Bitmap
unfolding new_word
bitmap_set bitmap (negsuc _) value = panic
bitmap_set bitmap (pos p) value = do
  w ← read bitmap (p / 32)
  w' ← new_word w (p % 32) value
  write bitmap (p / 32) w'

-- The inner loop of `bitmap_findnset`, with `n` of its 32 rounds left: `none` when all bits of the
-- word are taken, else the result of the function.
pub data Found : Type 0 where
  nothing : Found
  found : Bitmap → ℤ → Found

find_bit : ℕ → Bitmap → ℕ → ℕ → ℕ → Result Found
find_bit zero bitmap l base j = ok nothing
find_bit (suc n) bitmap l base j =
    let rest = find_bit n bitmap l base (j + 1) in
    let hit = if leb l (base + j) then ok (found bitmap minus_one) else (do
      bitmap' ← bitmap_set bitmap (pos (base + j)) (pos 1)
      ok (found bitmap' (pos (base + j)))) in
    do b ← bitmap_get bitmap (pos (base + j)); if b == 0 then hit else rest

-- The outer loop, with `n` words left.
find_word : ℕ → Bitmap → ℕ → ℕ → Result (Bitmap × ℤ)
unfolding find_bit
find_word zero bitmap l i = ok (bitmap, minus_one)
find_word (suc n) bitmap l i =
    let rest = find_word n bitmap l (i + 1) in
    let inner = find_bit 32 bitmap l (i * 32) 0 in
    do
      w ← read bitmap i
      if w == full_word
          then rest
          else (do r ← inner; elim r [ nothing ↦ rest | found bitmap' p ↦ ok (bitmap', p) ])

unfoldable pub bitmap_findnset : Bitmap → ℤ → Result (Bitmap × ℤ)
unfolding find_word
bitmap_findnset bitmap (negsuc _) = panic
bitmap_findnset bitmap (pos l) = find_word (bitmap_sizeof l / 4) bitmap l 0

find_example : bitmap_findnset (full_word ∷ 5 ∷ []) (pos 40) ≡ ok (full_word ∷ 7 ∷ [], pos 33)
unfolding bitmap_findnset bitmap_sizeof bitmap_get bitmap_set read write
find_example = refl
