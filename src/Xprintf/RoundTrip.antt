-- ===== src/Xprintf/RoundTrip.antt =====
-- buenos/lib/xprintf.c with buenos/lib/libc.c: a number that was printed is read back.
use osm_re_exam.Prelude.{
  ℕ, zero, suc, ◌+◌, ◌-◌, ◌*◌, ◌%◌, ◌^◌, ◌≤◌, ◌<◌, ◌≡◌, refl, sym, ap, ◌∙◌, List, [], ◌∷◌, ◌++◌,
  length, take, reverse, reverse-cons, append_assoc, append-nil, length-append, Bool, true, false,
  ◌&&◌, ◌==◌, if◌then◌else◌, leb, arith, inl, inr, Bool-cases, leb→le, lt→ltb, ne→==,
}
use osm_re_exam.Prelude.Int.{pos, as_int, word_sub}
use osm_re_exam.Prelude.Result.{ok, ◌>>=◌}
use osm_re_exam.Libc.Number.{skip_space, read_digits, read_number, atoi}
use osm_re_exam.Xprintf.{
  Out, word, no_modifiers, digit, printc, print_all, pad, repeat, at_most_11, print_uint, next,
  modifier, modifiers, word_arg, print_int, convert, print_loop, vxnprintf, snprintf,
}
use osm_re_exam.Xprintf.Monad.{Run, finished}
use osm_re_exam.Xprintf.Digits.{Digits, last, more, print_uint-Digits}

-- A number as `read_digits` keeps it.
abbrev signed : Bool → ℕ → ℕ
signed minus n = if minus then word_sub 0 n else n

step :
    (minus : Bool) (high low n : ℕ)
    → 10 * high + low ≡ n
    → low < 10
    → n < 2 ^ 32
    → (10 * signed minus high + signed minus low) % 2 ^ 32 ≡ signed minus n
step true high low n e h k = omega arith
step false high low n e h k = omega arith

first : (minus : Bool) (n : ℕ) → n < 2 ^ 32 → (10 * 0 + signed minus n) % 2 ^ 32 ≡ signed minus n
first true n k = omega arith
first false n k = omega arith

read_digit :
    (minus : Bool) (d value : ℕ) (rest : List ℕ)
    → d < 10
    → read_digits minus (digit false d ∷ rest) value
      ≡ read_digits minus rest ((10 * value + signed minus d) % 2 ^ 32)
unfolding read_digits digit
read_digit minus d value rest h =
    let e : digit false d ≡ 48 + d = rw (lt→ltb d 10 h) refl in
    let start : 48 + d - 48 ≡ d = omega arith in
    let range : (leb 48 (48 + d) && leb (48 + d) 57) ≡ true = ground arith in
    rw (e, range, start) refl

read_digits-Digits :
    (minus : Bool) (n : ℕ) {ds : List ℕ} (rest : List ℕ)
    → Digits 10 false n ds
    → n < 2 ^ 32
    → read_digits minus (reverse ds ++ rest) 0 ≡ read_digits minus rest (signed minus n)
read_digits-Digits minus n rest (last _ h) k =
    read_digit minus n 0 rest h ∙ ap (read_digits minus rest) (first minus n k)
read_digits-Digits minus n rest (more _ high low {ds} e h p d) k =
    rw (reverse-cons (digit false low) ds, append_assoc (reverse ds) (digit false low ∷ []) rest)
      (read_digits-Digits minus high (digit false low ∷ rest) d (omega arith)
        ∙ read_digit minus low (signed minus high) rest h
        ∙ ap (read_digits minus rest) (step minus high low n e h k))

print_all-text :
    (s : List ℕ) (o : Out)
    → print_all false s o ≡ (record { text = o.text ++ s; written = o.written + length s })
unfolding print_all printc
print_all-text [] o =
    let e : o.written + 0 ≡ o.written = omega arith in rw (append-nil o.text, e) refl
print_all-text (c ∷ s) o = rw (print_all-text s (printc false c o)) (
    let e : o.written + 1 + length s ≡ o.written + suc (length s) = omega arith in
    rw (append_assoc o.text (c ∷ []) s, e) refl)

length-reverse : (s : List ℕ) → length (reverse s) ≡ length s
length-reverse [] = refl
length-reverse (c ∷ s) =
    rw (reverse-cons c s, length-append (reverse s) (c ∷ [])) (omega (arith, length-reverse s))

take_all : (n : ℕ) (s : List ℕ) → length s ≤ n → take n s ≡ s
take_all zero [] h = refl
take_all zero (c ∷ s) h = absurd (omega arith)
take_all (suc n) [] h = refl
take_all (suc n) (c ∷ s) h = ap (◌∷◌ c) (take_all n s (omega arith))

pad-zero : (c : ℕ) (s : List ℕ) → pad (at_most_11 0) c s ≡ s
unfolding pad repeat at_most_11
pad-zero c s = let e : 0 - length s ≡ 0 = omega arith in rw (e, append-nil s) refl

-- Without padding, and with enough room.
print_uint-plain :
    (size n : ℕ)
    → 11 ≤ size
    → n < 2 ^ 32
    → (ds : List ℕ) × Digits 10 false n ds
      × (length ds ≤ 11)
      × (print_uint size n 10 false 0 0 ≡ finished (reverse ds))
print_uint-plain size n h k =
    let (ds, d, l, e) = print_uint-Digits size n 10 false 0 0 (omega arith) k in
    let short : length (pad (at_most_11 0) 32 (pad (at_most_11 0) 48 ds)) ≤ 11 = l in
    let plain : pad (at_most_11 0) 32 (pad (at_most_11 0) 48 ds) ≡ ds =
      pad-zero 32 _ ∙ pad-zero 48 ds in
    let few : length ds ≤ 11 = rw (sym plain) short in
    (ds, d, few, e ∙ rw (plain, take_all size (reverse ds) (omega (arith, length-reverse ds))) refl)

-- The first character is a digit.
starts_digit :
    {n : ℕ} {ds : List ℕ}
    → Digits 10 false n ds
    → (c : ℕ) × (s : List ℕ) × (reverse ds ≡ c ∷ s) × (48 ≤ c) × (c ≤ 57)
unfolding digit
starts_digit (last n h) = (digit false n, [], refl, ground arith, ground arith)
starts_digit (more n high low {ds} e h p d) =
    let (c, s, first, a, b) = starts_digit d in
    (
      c,
      s ++ (digit false low ∷ []),
      reverse-cons (digit false low) ds ∙ ap (λ l. l ++ (digit false low ∷ [])) first,
      a,
      b,
    )

atoi-digit :
    (c : ℕ) (s : List ℕ)
    → 48 ≤ c
    → c ≤ 57
    → atoi (c ∷ s) ≡ (read_digits false (c ∷ s) 0 >>= λ v. ok (as_int v))
unfolding atoi skip_space read_number
atoi-digit c s h k =
    let ne : (x : ℕ) → (x < 48) → (c == x) ≡ false = λ x l. ne→== c x (λ e. absurd (omega arith)) in
    rw
      (
        ne 0 (omega arith),
        ne 32 (omega arith),
        ne 9 (omega arith),
        ne 13 (omega arith),
        ne 10 (omega arith),
      )
      (rw (ne 0 (omega arith), ne 45 (omega arith), ne 43 (omega arith)) refl)

-- What `%d` prints, read back.
abbrev IsReadBack : ℕ → ℕ → Run Out → Type 0
IsReadBack size n r =
    (o : Out) × (r ≡ finished o) × (o.written < size) × (atoi (o.text ++ (0 ∷ [])) ≡ ok (as_int n))

module _ (size n : ℕ) (h : 13 ≤ size) (k : n < 2 ^ 32) where
  minus-IsReadBack :
      (ds : List ℕ)
      → (leb (2 ^ 31) n) ≡ true
      → Digits 10 false (word_sub 0 n) ds
      → length ds ≤ 11
      → print_uint (size - 1) (word_sub 0 n) 10 false 0 0 ≡ finished (reverse ds)
      → IsReadBack size n (print_int false size no_modifiers n (record { text = []; written = 0 }))
  unfolding print_int printc atoi skip_space read_number read_digits
  minus-IsReadBack ds t d few e =
      let big = leb→le (2 ^ 31) n t in
      let back : word_sub 0 (word_sub 0 n) ≡ n = omega arith in
      (
        record { text = 45 ∷ reverse ds; written = 1 + length (reverse ds) },
        rw (t, e)
            (ap finished (print_all-text (reverse ds) (record { text = 45 ∷ []; written = 1 }))),
        omega (arith, length-reverse ds),
        rw (read_digits-Digits true (word_sub 0 n) (0 ∷ []) d (omega arith), back) refl,
      )

  plain-IsReadBack :
      (ds : List ℕ)
      → (leb (2 ^ 31) n) ≡ false
      → Digits 10 false n ds
      → length ds ≤ 11
      → print_uint size n 10 false 0 0 ≡ finished (reverse ds)
      → IsReadBack size n (print_int false size no_modifiers n (record { text = []; written = 0 }))
  unfolding print_int read_digits
  plain-IsReadBack ds t d few e =
      let (c, s, first, a, b) = starts_digit d in
      let whole : size - 0 ≡ size = omega arith in
      (
        record { text = reverse ds; written = 0 + length (reverse ds) },
        rw (t, whole, e)
            (ap finished (print_all-text (reverse ds) (record { text = []; written = 0 }))),
        omega (arith, length-reverse ds),
        ap (λ l. atoi (l ++ (0 ∷ []))) first
            ∙ atoi-digit c (s ++ (0 ∷ [])) a b
            ∙ ap (λ l. read_digits false (l ++ (0 ∷ [])) 0 >>= λ v. ok (as_int v)) (sym first)
            ∙ rw (read_digits-Digits false n (0 ∷ []) d k) refl,
      )

  print_int-IsReadBack :
      IsReadBack size n (print_int false size no_modifiers n (record { text = []; written = 0 }))
  print_int-IsReadBack = elim (Bool-cases (leb (2 ^ 31) n)) [
    | inl t ↦
        let (ds, d, few, e) =
          print_uint-plain (size - 1) (word_sub 0 n) (omega arith) (omega arith) in
        minus-IsReadBack ds t d few e
    | inr t ↦
        let (ds, d, few, e) = print_uint-plain size n (omega arith) k in
        plain-IsReadBack ds t d few e
  ]

-- For a buffer of at least 13 bytes, snprintf with the format %d leaves a text there that atoi reads as
-- the int that was printed.
pub snprintf-atoi :
    (size n : ℕ)
    → 13 ≤ size
    → n < 2 ^ 32
    → (o : Out) × (snprintf 4 size (37 ∷ 100 ∷ 0 ∷ []) (word n ∷ [])
        ≡ finished (pos o.written, o.text ++ (0 ∷ [])))
      × (atoi (o.text ++ (0 ∷ [])) ≡ ok (as_int n))
unfolding snprintf vxnprintf print_loop next modifiers modifier convert word_arg
snprintf-atoi size n h k =
    let (o, e, room, back) = print_int-IsReadBack size n h k in
    (
      o,
      rw
          (
            ne→== size 0 (λ z. absurd (omega arith)),
            lt→ltb 0 size (omega arith),
            e,
            lt→ltb o.written size room,
            ne→== o.written size (λ z. absurd (omega arith)),
          )
          refl,
      back,
    )
