-- ===== src/Xprintf/Digits.antt =====
-- print_uint (buenos/lib/xprintf.c): the digits of a number.
use native.Mathlib.Nat.{
  pow-zero, one-mul, pow-le-pow_left, div-eq_of_lt, div-add-mod, mod-lt, mod-eq_of_lt,
  div-lt_iff_lt-mul, pow-suc,
}
use osm_re_exam.Prelude.{
  ℕ, zero, suc, ◌+◌, ◌-◌, ◌*◌, ◌/◌, ◌%◌, ◌^◌, ◌≤◌, ◌<◌, ◌≡◌, refl, sym, ap, ◌∙◌, List, [], ◌∷◌,
  length, take, reverse, Bool, ◌==◌, arith, inl, inr, Bool-cases, ==→eq, ==→ne, length-append,
}
use osm_re_exam.Xprintf.{digit, digit_loop, repeat, pad, at_most_11, print_uint}
use osm_re_exam.Xprintf.Monad.{Run, finished, ◌>>=◌}

-- The number that digits stand for, the last digit first.
abbrev pub value : ℕ → List ℕ → ℕ
value base [] = 0
value base (d ∷ ds) = d + base * value base ds

-- The characters of the digits of a number, the last one first.
pub data Digits (base : ℕ) (small : Bool) : ℕ → List ℕ → Type 0 where
  last : (n : ℕ) → n < base → Digits base small n (digit small n ∷ [])
  more :
      (n high low : ℕ) {ds : List ℕ}
      → base * high + low ≡ n
      → low < base
      → 0 < high
      → Digits base small high ds
      → Digits base small n (digit small low ∷ ds)

pub data Prints (base : ℕ) (small : Bool) (n room : ℕ) : Run (List ℕ) → Type 0 where
  prints :
      {ds : List ℕ}
      → Digits base small n ds
      → length ds ≤ room
      → Prints base small n room (finished ds)

module _ (base : ℕ) (small : Bool) (two : 2 ≤ base) where
  more-Prints :
      (n room : ℕ) {r : Run (List ℕ)}
      → 0 < n / base
      → Prints base small (n / base) room r
      → Prints base small n (suc room) (r >>= λ ds. finished (digit small (n % base) ∷ ds))
  more-Prints n room h (prints {ds} d l) =
      prints (more n (n / base) (n % base) (div-add-mod n base) (mod-lt n (omega arith)) h d)
        (omega arith)

  quotient-zero : (n : ℕ) → n / base ≡ 0 → n < base
  quotient-zero n e =
      let h : n < 1 * base =
        (div-lt_iff_lt-mul {k = base} {x = n} {y = 1} (omega arith)).0 (omega arith) in
      let one : 1 * base ≡ base = one-mul base in omega (arith, h, one)

  pub digit_loop-Prints :
      (room n : ℕ)
      → n < base ^ suc room
      → Prints base small n (suc room) (digit_loop (suc room) n base small)
  unfolding digit_loop
  digit_loop-Prints zero n h =
      let one : base ^ 0 * base ≡ base = rw (pow-zero base) (one-mul base) in
      let one : base ^ 1 ≡ base = pow-suc base 0 ∙ one in
      let small_n : n < base = omega (arith, h, one) in
      rw (div-eq_of_lt small_n, mod-eq_of_lt small_n) (prints (last n small_n) (omega arith))
  digit_loop-Prints (suc room) n h = elim (Bool-cases (n / base == 0)) [
    | inl one_digit ↦
        let small_n = quotient-zero n (==→eq (n / base) 0 one_digit) in
        rw (one_digit, mod-eq_of_lt small_n) (prints (last n small_n) (omega arith))
    | inr several ↦
        let e = ==→ne (n / base) 0 several in
        let next : n / base < base ^ suc room =
          (div-lt_iff_lt-mul {k = base} {x = n} {y = base ^ suc room} (omega arith)).1
            (rw (sym (pow-suc base (suc room))) h) in
        rw several (more-Prints n (suc room) (omega arith) (digit_loop-Prints room (n / base) next))
  ]

  Prints-eq :
      {n room : ℕ} {r : Run (List ℕ)}
      → Prints base small n room r
      → (ds : List ℕ) × Digits base small n ds × (length ds ≤ room) × (r ≡ finished ds)
  Prints-eq (prints {ds} d l) = (ds, d, l, refl)

length-repeat : (n c : ℕ) → length (repeat n c) ≡ n
unfolding repeat
length-repeat zero c = refl
length-repeat (suc n) c = ap suc (length-repeat n c)

length-pad : (n c : ℕ) (rev : List ℕ) → n ≤ 11 → length rev ≤ 11 → length (pad n c rev) ≤ 11
unfolding pad
length-pad n c rev h k =
    rw (length-append rev (repeat (n - length rev) c), length-repeat (n - length rev) c)
      (omega arith)

at_most_11-le : (w : ℕ) → at_most_11 w ≤ 11
unfolding at_most_11
at_most_11-le w = ground arith

-- For a 32-bit number and base 8, 10 or 16, `print_uint` comes to a value: with `ds` the digits of the
-- number, of which there are at most 11, it prints what they are padded to, of at most 11 characters, as
-- far as there is room.
pub print_uint-Digits :
    (size n base : ℕ) (small : Bool) (prec width : ℕ)
    → 8 ≤ base
    → n < 2 ^ 32
    → (ds : List ℕ) × Digits base small n ds
      × (length (pad (at_most_11 width) 32 (pad (at_most_11 prec) 48 ds)) ≤ 11)
      × (print_uint size n base small prec width
          ≡ finished
              (take size (reverse (pad (at_most_11 width) 32 (pad (at_most_11 prec) 48 ds)))))
unfolding print_uint
print_uint-Digits size n base small prec width h small_n =
    let enough : n < base ^ 11 = omega (arith, small_n, pow-le-pow_left h 11) in
    let (ds, d, l, e) =
      Prints-eq base small (omega arith) (digit_loop-Prints base small (omega arith) 10 n enough) in
    (
      ds,
      d,
      length-pad (at_most_11 width) 32 (pad (at_most_11 prec) 48 ds) (at_most_11-le width)
          (length-pad (at_most_11 prec) 48 ds (at_most_11-le prec) l),
      elim (Bool-cases (size == 0)) [
        | inl none_left ↦ rw (none_left, ==→eq size 0 none_left) refl
        | inr some_left ↦ rw (some_left, e) refl
      ],
    )
