-- ===== src/Pagepool/Count.antt =====
-- The number of 0 bits among the first `n`.
use osm_re_exam.Prelude.{
  ℕ, zero, suc, ◌+◌, ◌-◌, ◌*◌, ◌≤◌, ◌<◌, ◌≡◌, refl, inl, inr, arith, ◌==◌, length, Bool-cases,
  ==→eq, ==→ne,
}
use osm_re_exam.Bitmap.{Bitmap}
use osm_re_exam.Bitmap.Digits.{bit, set_bit, bit-set_bit}

unfoldable pub count_free : Bitmap → ℕ → ℕ
count_free bitmap zero = 0
count_free bitmap (suc n) = count_free bitmap n + (1 - bit bitmap n)

module _ (bitmap : Bitmap) where
  pub count_free-all_taken :
      (n : ℕ) → ((q : ℕ) → q < n → bit bitmap q ≡ 1) → count_free bitmap n ≡ 0
  unfolding count_free
  count_free-all_taken zero h = refl
  count_free-all_taken (suc n) h =
      omega (arith, h n (omega arith), count_free-all_taken n λ q l. h q (omega arith))

  pub count_free-pos : (n p : ℕ) → p < n → bit bitmap p ≡ 0 → 0 < count_free bitmap n
  unfolding count_free
  count_free-pos zero p h free = absurd (omega arith)
  count_free-pos (suc n) p h free = elim (Bool-cases (p == n)) [
    | inl e ↦ ground (arith, ==→eq p n e)
    | inr e ↦ omega (arith, count_free-pos n p (omega (arith, ==→ne p n e)) free)
  ]

  -- Writing bit `p` moves the count by the change of that bit, if it is among the first `n`.
  pub count_free-set_bit_out :
      (n p v : ℕ)
      → p < 32 * length bitmap
      → v < 2
      → n ≤ p
      → count_free (set_bit bitmap p v) n ≡ count_free bitmap n
  unfolding count_free
  count_free-set_bit_out zero p v fits small h = refl
  count_free-set_bit_out (suc n) p v fits small h = ground (
    arith,
    bit-set_bit bitmap p v n fits small,
    count_free-set_bit_out n p v fits small (omega arith),
  )

  pub count_free-set_bit :
      (n p v : ℕ)
      → p < 32 * length bitmap
      → v < 2
      → p < n
      → count_free (set_bit bitmap p v) n + (1 - bit bitmap p) ≡ count_free bitmap n + (1 - v)
  unfolding count_free
  count_free-set_bit zero p v fits small h = absurd (omega arith)
  count_free-set_bit (suc n) p v fits small h = elim (Bool-cases (p == n)) [
    | inl e ↦ ground (
      arith,
      ==→eq p n e,
      bit-set_bit bitmap p v n fits small,
      count_free-set_bit_out n p v fits small (omega (arith, ==→eq p n e)),
    )
    | inr e ↦ ground (
      arith,
      ==→ne p n e,
      bit-set_bit bitmap p v n fits small,
      count_free-set_bit n p v fits small (omega (arith, ==→ne p n e)),
    )
  ]
