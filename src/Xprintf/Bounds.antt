-- ===== src/Xprintf/Bounds.antt =====
-- vxnprintf (buenos/lib/xprintf.c): how far it writes.
use osm_re_exam.Prelude.{
  ℕ, zero, suc, ◌+◌, ◌-◌, ◌*◌, ◌%◌, ◌^◌, ◌≤◌, ◌<◌, ◌≡◌, refl, ◌⊎◌, inl, inr, List, [], ◌∷◌, ◌++◌,
  length, take, Bool, true, false, not, ◌&&◌, ◌||◌, ◌==◌, if◌then◌else◌, ltb, leb, arith,
  Bool-cases, ltb→lt, leb→le, ==→eq, ==→ne, length-append,
}
use osm_re_exam.Prelude.Int.{pos, minus_one, ltb_ℤ, ◌==ℤ◌, word_add, word_sub, as_int}
use osm_re_exam.Xprintf.{
  Out, Arg, word, string, Modifiers, no_modifiers, printc, print_all, print_uint, digit_loop, next,
  modifiers, word_arg, string_arg, print_int, print_unsigned, print_prefix, string_loop,
  print_string, convert, print_loop, but_last, vxnprintf, snprintf,
}
use osm_re_exam.Xprintf.Monad.{
  Run, finished, undefined, out_of_fuel, ◌>>=◌, Gives, gives, gives_undefined, gives_none,
  Gives-bind, Gives-if,
}

-- What is in the buffer is what was counted, and is at most `limit` characters.
abbrev pub IsOut : ℕ → Out → Type 0
IsOut limit o = (length o.text ≡ o.written) × (o.written ≤ limit)

-- No number of the arguments is negative, or `over` is not 0.
abbrev pub IsWithin : ℕ → List Arg → Type 0
IsWithin over [] = Unit
IsWithin over (word n ∷ args) = ((n < 2 ^ 31) ⊎ (1 ≤ over)) × IsWithin over args
IsWithin over (string s ∷ args) = IsWithin over args

IsOut-mono : (limit limit' : ℕ) (o : Out) → limit ≤ limit' → IsOut limit o → IsOut limit' o
IsOut-mono limit limit' o h i = (i.0, omega arith)

length-take-le : (n : ℕ) (s : List ℕ) → length (take n s) ≤ n
length-take-le zero s = omega arith
length-take-le (suc n) [] = omega arith
length-take-le (suc n) (c ∷ s) = omega (arith, length-take-le n s)

printc-IsOut :
    (limit c : ℕ) (o : Out) → IsOut limit o → o.written < limit → IsOut limit (printc false c o)
unfolding printc
printc-IsOut limit c o i h = rw (length-append o.text (c ∷ [])) (omega arith, omega arith)

print_all-IsOut :
    (limit : ℕ) (s : List ℕ) (o : Out)
    → IsOut limit o
    → o.written + length s ≤ limit
    → IsOut limit (print_all false s o)
unfolding print_all printc
print_all-IsOut limit [] o i h = i
print_all-IsOut limit (c ∷ s) o i h =
    let i' = printc-IsOut limit c o i (omega arith) in
    print_all-IsOut limit s (printc false c o) i' (omega arith)

any : {A : Type 0} (r : Run A) → Gives (λ _. Unit {0}) r
any (finished a) = gives tt
any undefined = gives_undefined
any out_of_fuel = gives_none

print_uint-Gives :
    (size n base : ℕ) (small : Bool) (prec width : ℕ)
    → Gives (λ s. length s ≤ size) (print_uint size n base small prec width)
unfolding print_uint
print_uint-Gives size n base small prec width =
    Gives-if (size == 0) (gives (omega arith))
      (Gives-bind _ (any (digit_loop 11 n base small)) (λ rev h. gives (length-take-le size _)))

module _ (size limit : ℕ) (within : size ≤ limit) (int : size < 2 ^ 31) where
  digits-Gives :
      (n base : ℕ) (small : Bool) (prec width : ℕ) (o : Out)
      → IsOut limit o
      → Gives (IsOut limit) (
          print_uint (size - o.written) n base small prec width >>= λ s.
          finished (print_all false s o))
  digits-Gives n base small prec width o i =
      Gives-bind _ (print_uint-Gives (size - o.written) n base small prec width)
        (λ s h. gives (print_all-IsOut limit s o i (room s h)))
    where
      room : (s : List ℕ) → length s ≤ size - o.written → o.written + length s ≤ limit
      room s h = omega arith

  print_unsigned-Gives :
      (base : ℕ) (small : Bool) (m : Modifiers) (n : ℕ) (o : Out)
      → IsOut limit o
      → Gives (IsOut limit) (print_unsigned false size base small m n o)
  unfolding print_unsigned
  print_unsigned-Gives base small m n o i = digits-Gives n base small _ m.width o i

  -- With one character to spare where the number is negative.
  print_int-Gives :
      (m : Modifiers) (n : ℕ) (o : Out)
      → IsOut size o
      → o.written < size
      → (n < 2 ^ 31) ⊎ (size < limit)
      → Gives (IsOut limit) (print_int false size m n o)
  unfolding print_int printc
  print_int-Gives m n o i h d =
      digits-Gives _ 10 false 0 0 _ (signed m.sign m.space (leb (2 ^ 31) n) refl d)
    where
      sign_IsOut :
          (sign space : Bool) (o : Out)
          → IsOut limit o
          → o.written < limit
          → IsOut limit (if sign then printc false 43 o else if space then printc false 32 o else o)
      sign_IsOut true space o i h = printc-IsOut limit 43 o i h
      sign_IsOut false true o i h = printc-IsOut limit 32 o i h
      sign_IsOut false false o i h = i

      signed :
          (sign space negative : Bool)
          → leb (2 ^ 31) n ≡ negative
          → (n < 2 ^ 31) ⊎ (size < limit)
          → IsOut limit (
              let o1 = if negative then printc false 45 o else o in
              if sign then printc false 43 o1 else if space then printc false 32 o1 else o1)
      signed sign space false t d =
          sign_IsOut sign space o (IsOut-mono size limit o within i) (omega arith)
      signed sign space true t (inl small) = absurd (ground (arith, leb→le (2 ^ 31) n t))
      signed sign space true t (inr spare) =
          sign_IsOut sign space (printc false 45 o)
            (IsOut-mono size limit _ within (printc-IsOut size 45 o i h)) (omega arith)

  print_prefix-IsOut :
      (m : Modifiers) (o : Out)
      → IsOut size o
      → o.written < size
      → IsOut limit (print_prefix false size m o).1
  unfolding print_prefix
  print_prefix-IsOut m o i h = prefix m.alt
    where
      second :
          (o : Out)
          → IsOut size o
          → IsOut limit (if ltb o.written size then printc false 120 o else o)
      second o i = elim (Bool-cases (ltb o.written size)) [
        | inl t ↦
            rw t
              (IsOut-mono size limit _ within (printc-IsOut size 120 o i (ltb→lt o.written size t)))
        | inr t ↦ rw t (IsOut-mono size limit o within i)
      ]

      prefix :
          (alt : Bool)
          → IsOut limit
              (if◌then◌else◌ {A = Modifiers × Out} alt
                (
                  record m { width = word_sub m.width 2 },
                  let o1 = printc false 48 o in
                      if ltb o1.written size then printc false 120 o1 else o1,
                )
                (m, o)).1
      prefix true = second (printc false 48 o) (printc-IsOut size 48 o i h)
      prefix false = IsOut-mono size limit o within i

  string_loop-Gives :
      (w : ℕ) (s : List ℕ) (o : Out)
      → ((a : ℕ) → ltb_ℤ (pos a) (as_int w) ≡ true → a < size)
      → IsOut size o
      → Gives (IsOut limit) (string_loop false w s o)
  unfolding string_loop
  string_loop-Gives w [] o h i =
      Gives-if (ltb_ℤ (pos o.written) (as_int w)) gives_undefined (gives (omega arith, omega arith))
  string_loop-Gives w (c ∷ s) o h i = elim (Bool-cases (ltb_ℤ (pos o.written) (as_int w))) [
    | inl t ↦ rw t (
        Gives-if (not (c == 0))
          (string_loop-Gives w s (printc false c o) h (printc-IsOut size c o i (h o.written t)))
          (gives (omega arith, omega arith)))
    | inr t ↦ rw t (gives (omega arith, omega arith))
  ]

  string_end :
      (has_prec : Bool) (end a : ℕ)
      → ltb_ℤ (pos a) (as_int (if has_prec && ltb_ℤ (as_int end) (pos size) then end else size))
        ≡ true
      → a < size
  string_end false end a t = ground arith
  string_end true end a t = ground arith

  print_string-Gives :
      (m : Modifiers) (s : List ℕ) (o : Out)
      → IsOut size o
      → Gives (IsOut limit) (print_string false size m s o)
  unfolding print_string
  print_string-Gives m s o i =
      string_loop-Gives _ s o
        (λ a. string_end (not (as_int m.prec ==ℤ minus_one)) (word_add o.written m.prec) a) i

  -- What a conversion leaves.
  number-Gives :
      (over : ℕ) (args : List Arg) (print : ℕ → Run Out)
      → IsWithin over args
      → ((n : ℕ) → (n < 2 ^ 31) ⊎ (1 ≤ over) → Gives (IsOut limit) (print n))
      → Gives {A = Out × List Arg}
          (λ r. IsOut limit r.0 × IsWithin over r.1)
          (word_arg args >>= λ r. print r.0 >>= λ o. finished (o, r.1))
  unfolding word_arg
  number-Gives over [] print a h = gives_undefined
  number-Gives over (word n ∷ args) print a h = Gives-bind _ (h n a.0) (λ o k. gives (k, a.1))
  number-Gives over (string s ∷ args) print a h = gives_undefined

  text-Gives :
      (over : ℕ) (m : Modifiers) (args : List Arg) (o : Out)
      → IsWithin over args
      → IsOut size o
      → Gives {A = Out × List Arg}
          (λ r. IsOut limit r.0 × IsWithin over r.1)
          (string_arg args >>= λ r. print_string false size m r.0 o >>= λ o. finished (o, r.1))
  unfolding string_arg
  text-Gives over m [] o a i = gives_undefined
  text-Gives over m (word n ∷ args) o a i = gives_undefined
  text-Gives over m (string s ∷ args) o a i =
      Gives-bind _ (print_string-Gives m s o i) (λ o k. gives (k, a))

  convert-Gives :
      (over ch : ℕ) (m : Modifiers) (args : List Arg) (o : Out)
      → limit ≡ size + over
      → IsWithin over args
      → IsOut size o
      → o.written < size
      → Gives (λ r. IsOut limit r.0 × IsWithin over r.1) (convert false size ch m args o)
  unfolding convert
  convert-Gives over ch m args o e a i h =
      let plain = IsOut-mono size limit o within i in
      let prefixed : (m : Modifiers) (base : ℕ) (small : Bool)
          → Gives {A = Out × List Arg} (λ r. IsOut limit r.0 × IsWithin over r.1)
              (word_arg args >>= λ r.
                print_unsigned false size base small (print_prefix false size m o).0 r.0
                  (print_prefix false size m o).1
                >>= λ o. finished (o, r.1)) =
        λ m base small.
          number-Gives over args _ a
            (λ n _. print_unsigned-Gives base small _ n _ (print_prefix-IsOut m o i h)) in
      Gives-if ((ch == 105) || (ch == 100))
        (number-Gives over args _ a (λ n d. print_int-Gives m n o i h (spare n d)))
        (Gives-if (ch == 111)
          (number-Gives over args _ a (λ n _. print_unsigned-Gives 8 false m n o plain))
          (Gives-if (ch == 117)
            (number-Gives over args _ a (λ n _. print_unsigned-Gives 10 false m n o plain))
            (Gives-if (ch == 112) (prefixed (record m { alt = true }) 16 true) (
              Gives-if (ch == 120) (prefixed m 16 true) (
                Gives-if (ch == 88) (prefixed m 16 false) (
                  Gives-if (ch == 99)
                    (number-Gives over args _ a (λ n _. gives (printed (n % 256))))
                    (Gives-if (ch == 115) (text-Gives over m args o a i)
                      (gives (printed ch, a)))))))))
    where
      spare : (n : ℕ) → (n < 2 ^ 31) ⊎ (1 ≤ over) → (n < 2 ^ 31) ⊎ (size < limit)
      spare n (inl small) = inl small
      spare n (inr big) = inr (omega arith)

      printed : (c : ℕ) → IsOut limit (printc false c o)
      printed c = IsOut-mono size limit _ within (printc-IsOut size c o i h)

  print_loop-Gives :
      (fuel over : ℕ) (fmt : List ℕ) (args : List Arg) (o : Out)
      → limit ≡ size + over
      → IsWithin over args
      → IsOut limit o
      → Gives (IsOut limit) (print_loop fuel false size fmt args o)
  unfolding print_loop
  print_loop-Gives zero over fmt args o e a i = gives_none
  print_loop-Gives (suc fuel) over fmt args o e a i = elim (Bool-cases (ltb o.written size)) [
    | inr t ↦ rw t (gives i)
    | inl t ↦
        let h = ltb→lt o.written size t in
        let below : IsOut size o = (i.0, omega arith) in
        rw t (
          Gives-bind _ (any (next fmt)) (λ r _. Gives-if (r.0 == 0) (gives i) (
            Gives-if (r.0 == 37)
              (Gives-bind _ (any (next r.1)) (λ r' _. Gives-if (r'.0 == 0) (gives i) (
                Gives-bind _ (any (modifiers fuel r'.0 r'.1 no_modifiers)) (λ s _.
                  Gives-if (s.0 == 0) (gives i) (
                    Gives-bind _ (convert-Gives over s.0 s.2 args o e a below h)
                      (λ q k. print_loop-Gives fuel over s.1 q.1 q.0 e k.1 k.0))))))
              (print_loop-Gives fuel over r.1 args (printc false r.0 o) e a
                (IsOut-mono size limit _ within (printc-IsOut size r.0 o below h))))))
  ]

length-buffer :
    (size over : ℕ) (o : Out)
    → 0 < size
    → over ≤ 1
    → IsOut (size + over) o
    → length ((if o.written == size then but_last o.text else o.text) ++ (0 ∷ [])) ≤ size + 2 * over
unfolding but_last
length-buffer size over o h one i = elim (Bool-cases (o.written == size)) [
  | inl t ↦
      let e = ==→eq o.written size t in
      let cut = length-take-le (length o.text - 1) o.text in
      rw (t, length-append (take (length o.text - 1) o.text) (0 ∷ [])) (omega arith)
  | inr t ↦ let e = ==→ne o.written size t in rw (t, length-append o.text (0 ∷ [])) (omega arith)
]

-- snprintf into a buffer of `size` bytes, less than 2 ^ 31, writes no more than these if no argument is
-- a negative number, and else at most two bytes more, whenever it comes to a value.
pub snprintf-Gives :
    (fuel size over : ℕ) (fmt : List ℕ) (args : List Arg)
    → size < 2 ^ 31
    → IsWithin over args
    → over ≤ 1
    → Gives (λ r. length r.1 ≤ size + 2 * over) (snprintf fuel size fmt args)
unfolding snprintf vxnprintf
snprintf-Gives fuel size over fmt args int a one = elim (Bool-cases (size == 0)) [
  | inl t ↦ rw t (gives (omega arith))
  | inr t ↦
      let some_room = ==→ne size 0 t in
      let start : Out = record { text = []; written = 0 } in
      rw t (
        Gives-bind _
          (print_loop-Gives size (size + over) (omega arith) int fuel over fmt args start refl a
            (refl, omega arith))
          (λ o i. gives (length-buffer size over o (omega arith) one i)))
]
