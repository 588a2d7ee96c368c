-- ===== src/Xprintf/Loop.antt =====
-- The loops of buenos/lib/xprintf.c: for which formats they end.
use osm_re_exam.Prelude.{
  ℕ, zero, suc, ◌+◌, ◌-◌, ◌*◌, ◌/◌, ◌%◌, ◌^◌, ◌≤◌, ◌<◌, ◌≡◌, ◌≢◌, refl, List, [], ◌∷◌, length, Bool,
  true, false, not, ◌&&◌, ◌||◌, Option, none, some, ◌==◌, if◌then◌else◌, ltb, leb, arith, inl, inr,
  Bool-cases, ne→==, lt→ltb,
}
use osm_re_exam.Prelude.Int.{pos, ltb_ℤ, as_int}
use osm_re_exam.Xprintf.{
  Out, Arg, word, string, Modifiers, no_modifiers, printc, print_uint, digit_loop, scan_int, next,
  modified, modifier, modifiers, word_arg, string_arg, print_int, print_unsigned, string_loop,
  print_string, convert, print_loop, vxnprintf,
}
use osm_re_exam.Xprintf.Monad.{
  Run, finished, out_of_fuel, ◌>>=◌, Ends, ends, breaks, Ends-bind, Ends-if,
}

-- No character is a 9.
abbrev pub HasNoNine : List ℕ → Type 0
HasNoNine [] = Unit
HasNoNine (c ∷ s) = (c ≢ 57) × HasNoNine s

-- A rest of a format of `n` characters.
abbrev pub IsRest : ℕ → List ℕ → Type 0
IsRest n s = (length s ≤ n) × HasNoNine s

scan_int-IsRest :
    (n : ℕ) (s : List ℕ) (value : ℕ) → IsRest n s → Ends (λ r. IsRest n r.1) (scan_int s value)
unfolding scan_int
scan_int-IsRest n [] value i = breaks
scan_int-IsRest n (c ∷ s) value i =
    Ends-if (ltb 48 c && ltb c 57)
      (scan_int-IsRest n s ((10 * value + (c - 48)) % 2 ^ 32) (omega arith, i.1.1)) (ends i)

-- A field width that starts with a digit from 1 to 8.
width-IsRest :
    (ch : ℕ) (fmt : List ℕ)
    → ch ≢ 57
    → HasNoNine fmt
    → (leb 49 ch && leb ch 57) ≡ true
    → Ends (λ r. IsRest (length fmt) r.1) (scan_int (ch ∷ fmt) 0)
unfolding scan_int
width-IsRest ch fmt h nine t =
    let digit : (ltb 48 ch && ltb ch 57) ≡ true = ground arith in
    rw digit (scan_int-IsRest (length fmt) fmt ((10 * 0 + (ch - 48)) % 2 ^ 32) (omega arith, nine))

-- What `modifier` leaves.
abbrev pub IsScanned : ℕ → Option (List ℕ × Modifiers) → Type 0
IsScanned n none = Unit
IsScanned n (some s) = IsRest n s.0

modifier-IsScanned :
    (ch : ℕ) (fmt : List ℕ) (m : Modifiers)
    → ch ≢ 57
    → HasNoNine fmt
    → Ends (IsScanned (length fmt)) (modifier ch fmt m)
unfolding modifier modified
modifier-IsScanned ch fmt m h nine =
    let i : IsRest (length fmt) fmt = (omega arith, nine) in
    Ends-if (ch == 35) (ends i) (
      Ends-if (ch == 48) (ends i) (
        Ends-if (ch == 32) (ends i) (
          Ends-if (ch == 43) (ends i) (
            Ends-if (ch == 45) (ends i) (
              Ends-if (ch == 46)
                (Ends-bind _ (scan_int-IsRest (length fmt) fmt 0 i) (λ r k. ends k))
                (elim (Bool-cases (leb 49 ch && leb ch 57)) [
                  | inl t ↦ rw t (Ends-bind _ (width-IsRest ch fmt h nine t) (λ r k. ends k))
                  | inr t ↦ rw t (ends tt)
                ]))))))

next-IsRest :
    (n : ℕ) (s : List ℕ)
    → IsRest n s
    → Ends (λ r. (r.0 ≢ 57) × (length r.1 < n) × HasNoNine r.1) (next s)
unfolding next
next-IsRest n [] i = breaks
next-IsRest n (c ∷ s) i = ends (i.1.0, omega arith, i.1.1)

modifiers-Ends :
    (fuel ch : ℕ) (fmt : List ℕ) (m : Modifiers)
    → length fmt < fuel
    → ch ≢ 57
    → HasNoNine fmt
    → Ends (λ r. IsRest (length fmt) r.1) (modifiers fuel ch fmt m)
unfolding modifiers
modifiers-Ends zero ch fmt m enough h nine = absurd (omega arith)
modifiers-Ends (suc fuel) ch fmt m enough h nine =
    Ends-bind _ (modifier-IsScanned ch fmt m h nine) (λ scanned.
      elim scanned
        as (λ scanned.
          IsScanned (length fmt) scanned
          → Ends (λ r. IsRest (length fmt) r.1)
              (elim scanned as (λ _. Run (ℕ × List ℕ × Modifiers)) [
                | none ↦ finished (ch, fmt, m)
                | some s ↦ next s.0 >>= λ r.
                    if r.0 == 0 then finished (r.0, r.1, s.1) else modifiers fuel r.0 r.1 s.1
              ])) [
                | none ↦ λ k. ends (omega arith, nine)
                | some s ↦ λ k. Ends-bind _ (next-IsRest (length fmt) s.0 k) (λ r i.
                    Ends-if (r.0 == 0) (ends (omega arith, i.2)) (
                      shorter (length fmt) r.1 (omega arith)
                        (modifiers-Ends fuel r.0 r.1 s.1 (omega arith) i.0 i.2)))
              ])
  where
    shorter :
        (n : ℕ) (s : List ℕ)
        → length s ≤ n
        → {r : Run (ℕ × List ℕ × Modifiers)} → Ends (λ r. IsRest (length s) r.1) r
        → Ends (λ r. IsRest n r.1) r
    shorter n s h (ends k) = ends (omega arith, k.1)
    shorter n s h breaks = breaks

digit_loop-Ends :
    (room n base : ℕ) (small : Bool) → Ends (λ _. Unit {0}) (digit_loop room n base small)
unfolding digit_loop
digit_loop-Ends zero n base small = breaks
digit_loop-Ends (suc room) n base small =
    Ends-if (n / base == 0) (ends tt)
      (Ends-bind _ (digit_loop-Ends room (n / base) base small) (λ digits h. ends tt))

print_uint-Ends :
    (size n base : ℕ) (small : Bool) (prec width : ℕ)
    → Ends (λ _. Unit {0}) (print_uint size n base small prec width)
unfolding print_uint
print_uint-Ends size n base small prec width =
    Ends-if (size == 0) (ends tt) (Ends-bind _ (digit_loop-Ends 11 n base small) (λ rev h. ends tt))

string_loop-Ends :
    (tty : Bool) (w : ℕ) (s : List ℕ) (o : Out) → Ends (λ _. Unit {0}) (string_loop tty w s o)
unfolding string_loop
string_loop-Ends tty w [] o = Ends-if (ltb_ℤ (pos o.written) (as_int w)) breaks (ends tt)
string_loop-Ends tty w (c ∷ s) o =
    Ends-if (ltb_ℤ (pos o.written) (as_int w) && not (c == 0))
      (string_loop-Ends tty w s (printc tty c o)) (ends tt)

-- A conversion of one number.
number-Ends :
    (args : List Arg) (print : ℕ → Run Out)
    → ((n : ℕ) → Ends (λ _. Unit {0}) (print n))
    → Ends {A = Out × List Arg}
        (λ _. Unit {0})
        (word_arg args >>= λ r. print r.0 >>= λ o. finished (o, r.1))
unfolding word_arg
number-Ends [] print h = breaks
number-Ends (word n ∷ args) print h = Ends-bind _ (h n) (λ o k. ends tt)
number-Ends (string s ∷ args) print h = breaks

print_unsigned-Ends :
    (tty : Bool) (size base : ℕ) (small : Bool) (m : Modifiers) (n : ℕ) (o : Out)
    → Ends (λ _. Unit {0}) (print_unsigned tty size base small m n o)
unfolding print_unsigned
print_unsigned-Ends tty size base small m n o =
    Ends-bind _ (print_uint-Ends (size - o.written) n base small _ m.width) (λ digits h. ends tt)

print_int-Ends :
    (tty : Bool) (size : ℕ) (m : Modifiers) (n : ℕ) (o : Out)
    → Ends (λ _. Unit {0}) (print_int tty size m n o)
unfolding print_int
print_int-Ends tty size m n o = Ends-bind _ (print_uint-Ends _ _ 10 false 0 0) (λ digits h. ends tt)

text-Ends :
    (tty : Bool) (size : ℕ) (m : Modifiers) (args : List Arg) (o : Out)
    → Ends {A = Out × List Arg}
        (λ _. Unit {0})
        (string_arg args >>= λ r. print_string tty size m r.0 o >>= λ o. finished (o, r.1))
unfolding string_arg print_string
text-Ends tty size m [] o = breaks
text-Ends tty size m (word n ∷ args) o = breaks
text-Ends tty size m (string s ∷ args) o = Ends-bind _ (string_loop-Ends tty _ s o) (λ o k. ends tt)

convert-Ends :
    (tty : Bool) (size ch : ℕ) (m : Modifiers) (args : List Arg) (o : Out)
    → Ends (λ _. Unit {0}) (convert tty size ch m args o)
unfolding convert
convert-Ends tty size ch m args o =
    let unsigned : (base : ℕ) (small : Bool) (m : Modifiers) (o : Out)
        → Ends {A = Out × List Arg} (λ _. Unit {0})
            (word_arg args >>= λ r.
              print_unsigned tty size base small m r.0 o >>= λ o. finished (o, r.1)) =
      λ base small m o. number-Ends args _ (λ n. print_unsigned-Ends tty size base small m n o) in
    Ends-if ((ch == 105) || (ch == 100)) (number-Ends args _ (λ n. print_int-Ends tty size m n o)) (
      Ends-if (ch == 111) (unsigned 8 false m o) (
        Ends-if (ch == 117) (unsigned 10 false m o) (
          Ends-if (ch == 112) (unsigned 16 true _ _) (
            Ends-if (ch == 120) (unsigned 16 true _ _) (
              Ends-if (ch == 88) (unsigned 16 false _ _) (
                Ends-if (ch == 99) (number-Ends args _ (λ n. ends tt))
                  (Ends-if (ch == 115) (text-Ends tty size m args o) (ends tt))))))))

print_loop-Ends :
    (fuel : ℕ) (tty : Bool) (size : ℕ) (fmt : List ℕ) (args : List Arg) (o : Out)
    → length fmt < fuel
    → HasNoNine fmt
    → Ends (λ _. Unit {0}) (print_loop fuel tty size fmt args o)
unfolding print_loop
print_loop-Ends zero tty size fmt args o enough nine = absurd (omega arith)
print_loop-Ends (suc fuel) tty size fmt args o enough nine =
    Ends-if (ltb o.written size)
      (Ends-bind _ (next-IsRest (length fmt) fmt (omega arith, nine)) (λ r i.
        Ends-if (r.0 == 0) (ends tt) (
          Ends-if (r.0 == 37)
            (Ends-bind _ (next-IsRest (length r.1) r.1 (omega arith, i.2)) (λ r' i'.
              Ends-if (r'.0 == 0) (ends tt) (
                Ends-bind _ (modifiers-Ends fuel r'.0 r'.1 no_modifiers (omega arith) i'.0 i'.2)
                  (λ s j. Ends-if (s.0 == 0) (ends tt) (
                    Ends-bind _ (convert-Ends tty size s.0 s.2 args o)
                      (λ q _. print_loop-Ends fuel tty size s.1 q.1 q.0 (omega arith) j.1))))))
            (print_loop-Ends fuel tty size r.1 args (printc tty r.0 o) (omega arith) i.2))))
      (ends tt)

-- The loops of `vxnprintf` end for every format without the digit 9: fuel of one more than the length
-- of the format is enough.
pub vxnprintf-Ends :
    (fuel : ℕ) (tty : Bool) (size : ℕ) (fmt : List ℕ) (args : List Arg)
    → length fmt < fuel
    → HasNoNine fmt
    → Ends (λ _. Unit {0}) (vxnprintf fuel tty size fmt args)
unfolding vxnprintf
vxnprintf-Ends fuel tty size fmt args enough nine =
    Ends-if (size == 0) (ends tt)
      (Ends-bind _ (print_loop-Ends fuel tty size fmt args _ enough nine) (λ o h. ends tt))

nine_modifiers : (fuel : ℕ) (fmt : List ℕ) (m : Modifiers) → modifiers fuel 57 fmt m ≡ out_of_fuel
unfolding modifiers modifier modified scan_int next
nine_modifiers zero fmt m = refl
nine_modifiers (suc fuel) fmt m = nine_modifiers fuel fmt _

-- A format that starts with a field width of 9 never ends, however much fuel there is: `scan_int` does
-- not take the 9, and the loop over the modifiers comes back to it.
pub vxnprintf-hangs :
    (fuel : ℕ) (tty : Bool) (size : ℕ) (fmt : List ℕ) (args : List Arg)
    → 0 < size
    → vxnprintf fuel tty size (37 ∷ 57 ∷ fmt) args ≡ out_of_fuel
unfolding vxnprintf print_loop next
vxnprintf-hangs zero tty size fmt args h = rw (ne→== size 0 (λ e. absurd (omega arith))) refl
vxnprintf-hangs (suc fuel) tty size fmt args h =
    rw
      (
        ne→== size 0 (λ e. absurd (omega arith)),
        lt→ltb 0 size h,
        nine_modifiers fuel fmt no_modifiers,
      )
      refl
