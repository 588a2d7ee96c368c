-- ===== src/Xprintf/Numerals.antt =====
-- print_uint (buenos/lib/xprintf.c): what is printed, without the code's own digits and padding.
use osm_re_exam.Prelude.{
  ℕ, zero, suc, ◌+◌, ◌-◌, ◌*◌, ◌^◌, ◌≤◌, ◌<◌, ◌≡◌, refl, ap, ◌∙◌, List, [], ◌∷◌, ◌++◌, map, length,
  take, reverse, replicate, get_elem?, Bool, true, false, some, arith, inl, inr, Bool-cases, ltb,
  leb, sym, ltb→lt, ltb→ge, leb→le, leb→gt,
}
use osm_re_exam.Xprintf.{digit, repeat, pad, at_most_11, print_uint}
use osm_re_exam.Xprintf.Monad.{finished}
use osm_re_exam.Xprintf.Digits.{Digits, last, more, print_uint-Digits}

-- 0 to 9 with a to f, and with A to F.
abbrev pub characters : Bool → List ℕ
characters true =
    48 ∷ 49 ∷ 50 ∷ 51 ∷ 52 ∷ 53 ∷ 54 ∷ 55 ∷ 56 ∷ 57 ∷ 97 ∷ 98 ∷ 99 ∷ 100 ∷ 101 ∷ 102 ∷ []
characters false =
    48 ∷ 49 ∷ 50 ∷ 51 ∷ 52 ∷ 53 ∷ 54 ∷ 55 ∷ 56 ∷ 57 ∷ 65 ∷ 66 ∷ 67 ∷ 68 ∷ 69 ∷ 70 ∷ []

-- A number in a base of 16 at most, the last character first.
pub data Numeral (base : ℕ) (small : Bool) : ℕ → List ℕ → Type 0 where
  single :
      (n c : ℕ) → n < base → get_elem? (characters small) n ≡ some c → Numeral base small n (c ∷ [])
  longer :
      (n high low c : ℕ) {cs : List ℕ}
      → base * high + low ≡ n
      → low < base
      → 0 < high
      → get_elem? (characters small) low ≡ some c
      → Numeral base small high cs
      → Numeral base small n (c ∷ cs)

-- The width or precision that a word gives: none if it is negative as an int, and 11 at most.
pub data Field : ℕ → ℕ → Type 0 where
  negative : (w : ℕ) → 2 ^ 31 ≤ w → Field w 0
  given : (w : ℕ) → w ≤ 11 → Field w w
  too_large : (w : ℕ) → 11 ≤ w → w < 2 ^ 31 → Field w 11

-- Characters of which `c` are put behind `cs` until there are `n`.
abbrev pub filled : ℕ → ℕ → List ℕ → List ℕ
filled n c cs = cs ++ replicate (n - length cs) c

-- The text of a number, of at most 11 characters and no more than there is room for: blanks, zeros, and
-- then the numeral.
pub record Printed (size n base : ℕ) (small : Bool) (prec width : ℕ) (text : List ℕ) : Type 0 where
  pub numeral : List ℕ
  pub zeros : ℕ
  pub blanks : ℕ
  pub of_number : Numeral base small n numeral
  pub precision : Field prec zeros
  pub field : Field width blanks
  pub fits : length (filled blanks 32 (filled zeros 48 numeral)) ≤ 11
  pub prints : text ≡ take size (reverse (filled blanks 32 (filled zeros 48 numeral)))

upto : ℕ → ℕ → List ℕ
upto zero i = []
upto (suc n) i = i ∷ upto n (suc i)

digits-at :
    (n i d : ℕ) (small : Bool)
    → d < n
    → get_elem? (map (digit small) (upto n i)) d ≡ some (digit small (i + d))
unfolding upto
digits-at zero i d small h = absurd (omega arith)
digits-at (suc n) i zero small h =
    let z : i ≡ i + 0 = omega arith in ap (λ (k : ℕ). some (digit small k)) z
digits-at (suc n) i (suc d) small h =
    let z : suc i + d ≡ i + suc d = omega arith in
    digits-at n (suc i) d small (omega arith) ∙ ap (λ k. some (digit small k)) z

digits-characters : (small : Bool) → characters small ≡ map (digit small) (upto 16 0)
unfolding digit upto
digits-characters true = refl
digits-characters false = refl

digit-character :
    (d : ℕ) (small : Bool) → d < 16 → get_elem? (characters small) d ≡ some (digit small d)
digit-character d small h =
    let z : 0 + d ≡ d = omega arith in
    ap (λ l. get_elem? l d) (digits-characters small)
    ∙ digits-at 16 0 d small h
    ∙ ap (λ k. some (digit small k)) z

Digits-Numeral :
    (base : ℕ) (small : Bool) (n : ℕ) {ds : List ℕ}
    → base ≤ 16
    → Digits base small n ds
    → Numeral base small n ds
Digits-Numeral base small n le (last _ h) =
    single n (digit small n) h (digit-character n small (omega arith))
Digits-Numeral base small n le (more _ high low e h p d) =
    longer n high low (digit small low) e h p (digit-character low small (omega arith))
      (Digits-Numeral base small high le d)

repeat-replicate : (n c : ℕ) → repeat n c ≡ replicate n c
unfolding repeat
repeat-replicate zero c = refl
repeat-replicate (suc n) c = ap (◌∷◌ c) (repeat-replicate n c)

pad-filled : (n c : ℕ) (cs : List ℕ) → pad n c cs ≡ filled n c cs
unfolding pad
pad-filled n c cs = ap (λ l. cs ++ l) (repeat-replicate (n - length cs) c)

at_most_11-Field : (w : ℕ) → Field w (at_most_11 w)
unfolding at_most_11
at_most_11-Field w = elim (Bool-cases (leb (2 ^ 31) w)) [
  | inl large ↦ rw large (negative w (leb→le (2 ^ 31) w large))
  | inr small ↦ elim (Bool-cases (ltb w 11)) [
    | inl few ↦ rw (small, few) (given w (omega (arith, ltb→lt w 11 few)))
    | inr many ↦
        rw (small, many) (too_large w (ltb→ge w 11 many) (omega (arith, leb→gt (2 ^ 31) w small)))
  ]
]

-- For a 32-bit number and a base from 8 to 16, `print_uint` comes to a value: the numeral of the number in
-- that base and case, behind zeros up to the precision and blanks up to the width, each of 11 at most, and
-- of all this, which is at most 11 characters, as much as there is room for.
pub print_uint-Printed :
    (size n base : ℕ) (small : Bool) (prec width : ℕ)
    → 8 ≤ base
    → base ≤ 16
    → n < 2 ^ 32
    → (text : List ℕ) × Printed size n base small prec width text
      × (print_uint size n base small prec width ≡ finished text)
print_uint-Printed size n base small prec width h k small_n =
    let (ds, d, l, e) = print_uint-Digits size n base small prec width h small_n in
    let same : pad (at_most_11 width) 32 (pad (at_most_11 prec) 48 ds)
        ≡ filled (at_most_11 width) 32 (filled (at_most_11 prec) 48 ds) =
      pad-filled (at_most_11 width) 32 (pad (at_most_11 prec) 48 ds)
      ∙ ap (filled (at_most_11 width) 32) (pad-filled (at_most_11 prec) 48 ds) in
    (
      take size (reverse (pad (at_most_11 width) 32 (pad (at_most_11 prec) 48 ds))),
      record {
        numeral = ds;
        zeros = at_most_11 prec;
        blanks = at_most_11 width;
        of_number = Digits-Numeral base small n k d;
        precision = at_most_11-Field prec;
        field = at_most_11-Field width;
        fits = rw (sym same) l;
        prints = ap (λ x. take size (reverse x)) same;
      },
      e,
    )
