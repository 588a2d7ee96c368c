-- ===== src/Bitmap/Digits.antt =====
-- A bitmap as the sequence of its bits: what `bitmap_get`, `bitmap_set` and `bitmap_init` do to it.
use osm_re_exam.Prelude.{
  ℕ, zero, suc, ◌*◌, ◌/◌, ◌%◌, ◌^◌, ◌≤◌, ◌<◌, bit_and, bit_or, ◌≡◌, sym, ap, ◌∙◌, inl, inr, false,
  [], ◌∷◌, arith, ◌==◌, if◌then◌else◌, length, get_or, set, length-set, get_or-set_self,
  get_or-set_ne, Bool-cases, ==→eq, ==→ne,
}
use osm_re_exam.Prelude.Int.{pos}
use osm_re_exam.Prelude.Result.{ok, Yields, yields, read-ok, write-ok}
use osm_re_exam.Prelude.Bits.{
  digit, digit-lt_two, digit-eq_shift, digit-bit_and, digit-bit_or, digit-pow, digit-complement,
  bit_and-one, bit_and-le, bit_or-lt,
}
use native.Mathlib.Nat.{pow-le-pow_right}
use osm_re_exam.Bitmap.{Bitmap, complement, bitmap_get, bitmap_set}

-- Bit number `p` of the array; bits past its end read as 0.
unfoldable pub bit : Bitmap → ℕ → ℕ
bit bitmap p = digit (get_or bitmap (p / 32) 0) (p % 32)

-- Every word fits 32 bits.
abbrev pub IsWords : Bitmap → Type 0
IsWords bitmap = (i : ℕ) → get_or bitmap i 0 < 2 ^ 32

-- The array has a word for each of the first `n` bits.
abbrev pub Holds : Bitmap → ℕ → Type 0
Holds bitmap n = n ≤ 32 * length bitmap

pub bit-lt_two : (bitmap : Bitmap) (p : ℕ) → bit bitmap p < 2
unfolding bit
bit-lt_two bitmap p = digit-lt_two (p % 32) (get_or bitmap (p / 32) 0)

pub bitmap_get-bit :
    (bitmap : Bitmap) (p : ℕ)
    → p < 32 * length bitmap
    → bitmap_get bitmap (pos p) ≡ ok (bit bitmap p)
unfolding bitmap_get bit
bitmap_get-bit bitmap p h =
    let w = get_or bitmap (p / 32) 0 in
    rw (read-ok bitmap (p / 32) 0 (omega arith))
      (ap ok (bit_and-one (w / 2 ^ (p % 32)) ∙ sym (digit-eq_shift (p % 32) w)))

-- The array after `bitmap_set` at `p`.
unfoldable pub set_bit : Bitmap → ℕ → ℕ → Bitmap
set_bit bitmap p zero =
    set bitmap (p / 32) (bit_and (get_or bitmap (p / 32) 0) (complement (2 ^ (p % 32))))
set_bit bitmap p (suc _) = set bitmap (p / 32) (bit_or (get_or bitmap (p / 32) 0) (2 ^ (p % 32)))

pub length-set_bit : (bitmap : Bitmap) (p v : ℕ) → length (set_bit bitmap p v) ≡ length bitmap
unfolding set_bit
length-set_bit bitmap p zero = length-set bitmap (p / 32) _
length-set_bit bitmap p (suc v) = length-set bitmap (p / 32) _

pub bitmap_set-ok :
    (bitmap : Bitmap) (p v : ℕ)
    → p < 32 * length bitmap
    → v < 2
    → bitmap_set bitmap (pos p) (pos v) ≡ ok (set_bit bitmap p v)
unfolding bitmap_set set_bit
bitmap_set-ok bitmap p zero h small =
    rw (read-ok bitmap (p / 32) 0 (omega arith)) (write-ok bitmap (p / 32) _ (omega arith))
bitmap_set-ok bitmap p (suc zero) h small =
    rw (read-ok bitmap (p / 32) 0 (omega arith)) (write-ok bitmap (p / 32) _ (omega arith))
bitmap_set-ok bitmap p (suc (suc v)) h small = absurd (omega arith)

power_fits : (j : ℕ) → j < 32 → 2 ^ j < 2 ^ 32
power_fits j h =
    let le : 2 ^ j ≤ 2 ^ 31 = pow-le-pow_right {n = 2} (omega arith) {j = 31} (omega arith) in
    omega arith

word_set :
    (w j k : ℕ)
    → j < 32
    → k < 32
    → (digit (bit_or w (2 ^ j)) k ≡ (if k == j then 1 else digit w k))
      × (digit (bit_and w (complement (2 ^ j))) k ≡ (if k == j then 0 else digit w k))
word_set w j k hj hk = (
  ground (arith, digit-bit_or k w (2 ^ j), digit-pow j k, digit-lt_two k w),
  ground (
    arith,
    digit-bit_and k w (complement (2 ^ j)),
    digit-complement 32 k (2 ^ j) (power_fits j hj) hk,
    digit-pow j k,
    digit-lt_two k w,
  ),
)

same_word : (p q : ℕ) → p / 32 ≡ q / 32 → (q % 32 == p % 32) ≡ (q == p)
same_word p q e = ground arith

bit-set :
    (bitmap : Bitmap) (p q w : ℕ)
    → p < 32 * length bitmap
    → bit (set bitmap (p / 32) w) q ≡ (if q / 32 == p / 32 then digit w (q % 32) else bit bitmap q)
unfolding bit
bit-set bitmap p q w h = elim (Bool-cases (q / 32 == p / 32)) [
  | inl e ↦ rw (e, ==→eq (q / 32) (p / 32) e, get_or-set_self bitmap (p / 32) w 0 (omega arith))
  | inr e ↦
      rw (e, get_or-set_ne bitmap (p / 32) (q / 32) w 0 (λ e'. ==→ne (q / 32) (p / 32) e (sym e')))
]

other_word : (p q : ℕ) → (q / 32 == p / 32) ≡ false → (q == p) ≡ false
other_word p q e = ground arith

-- The word of `p` decides: in another word `q` differs from `p`.
bit-set_word :
    (bitmap : Bitmap) (p v q w : ℕ)
    → p < 32 * length bitmap
    → ((k : ℕ)
        → k < 32
        → digit w k ≡ (if k == p % 32 then v else digit (get_or bitmap (p / 32) 0) k))
    → bit (set bitmap (p / 32) w) q ≡ (if q == p then v else bit bitmap q)
unfolding bit
bit-set_word bitmap p v q w h new = elim (Bool-cases (q / 32 == p / 32)) [
  | inl e ↦
      let e' = ==→eq (q / 32) (p / 32) e in
      bit-set bitmap p q w h ∙ rw (e, new (q % 32) (omega arith), same_word p q (sym e'), e')
  | inr e ↦ bit-set bitmap p q w h ∙ rw (e, other_word p q e)
]

-- `bitmap_set` changes the bit that it names, and no other.
pub bit-set_bit :
    (bitmap : Bitmap) (p v q : ℕ)
    → p < 32 * length bitmap
    → v < 2
    → bit (set_bit bitmap p v) q ≡ (if q == p then v else bit bitmap q)
unfolding bit set_bit
bit-set_bit bitmap p zero q h small =
    bit-set_word bitmap p 0 q _ h (λ k l. (word_set _ (p % 32) k (omega arith) l).1)
bit-set_bit bitmap p (suc zero) q h small =
    bit-set_word bitmap p 1 q _ h (λ k l. (word_set _ (p % 32) k (omega arith) l).0)
bit-set_bit bitmap p (suc (suc v)) q h small = absurd (omega arith)

get_or-set_lt :
    (bitmap : Bitmap) (i w n : ℕ)
    → w < n
    → ((j : ℕ) → get_or bitmap j 0 < n)
    → (j : ℕ) → get_or (set bitmap i w) j 0 < n
get_or-set_lt [] i w n h all j = all j
get_or-set_lt (x ∷ xs) zero w n h all zero = h
get_or-set_lt (x ∷ xs) zero w n h all (suc j) = all (suc j)
get_or-set_lt (x ∷ xs) (suc i) w n h all zero = all 0
get_or-set_lt (x ∷ xs) (suc i) w n h all (suc j) = get_or-set_lt xs i w n h (λ k. all (suc k)) j

pub set_bit-IsWords : (bitmap : Bitmap) (p v : ℕ) → IsWords bitmap → IsWords (set_bit bitmap p v)
unfolding set_bit
set_bit-IsWords bitmap p zero words =
    let w = get_or bitmap (p / 32) 0 in
    let le = bit_and-le w w (complement (2 ^ (p % 32))) (omega arith) in
    get_or-set_lt bitmap (p / 32) _ (2 ^ 32) (omega (arith, words (p / 32))) words
set_bit-IsWords bitmap p (suc v) words =
    let lt =
      bit_or-lt 32 (get_or bitmap (p / 32) 0) (2 ^ (p % 32)) (words (p / 32))
        (power_fits (p % 32) (omega arith)) in
    get_or-set_lt bitmap (p / 32) _ (2 ^ 32) lt words

-- In an array that holds bits `p` and `q`, `bitmap_set` of bit `p` to 0 or 1 succeeds and keeps
-- the length of the array; a `bitmap_get` of bit `q` then succeeds too, with the value written if
-- `q` is `p` and with the bit of before if it is not.
bitmap_set-get :
    (bitmap : Bitmap) (p q v : ℕ)
    → p < 32 * length bitmap
    → q < 32 * length bitmap
    → v < 2
    → Yields
        (λ after.
          (length after ≡ length bitmap)
          × (bitmap_get after (pos q) ≡ (if q == p then ok v else bitmap_get bitmap (pos q))))
        (bitmap_set bitmap (pos p) (pos v))
bitmap_set-get bitmap p q v hp hq small = rw (bitmap_set-ok bitmap p v hp small) (
    yields (
      length-set_bit bitmap p v,
      elim (Bool-cases (q == p)) [
        | inl same ↦ rw (got, same)
        | inr other ↦ rw (got, other, bitmap_get-bit bitmap q hq)
      ],
    ))
  where
    got : bitmap_get (set_bit bitmap p v) (pos q) ≡ ok (if q == p then v else bit bitmap q)
    got =
        bitmap_get-bit (set_bit bitmap p v) q (omega (arith, length-set_bit bitmap p v))
        ∙ ap ok (bit-set_bit bitmap p v q hp small)
