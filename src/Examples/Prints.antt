-- ===== src/Examples/Prints.antt =====
-- Formats that are printed, and numbers that are read.
use osm_re_exam.Prelude.{
  ℕ, ◌+◌, ◌-◌, ◌*◌, ◌^◌, ◌≡◌, ◌≤◌, refl, inr, List, [], ◌∷◌, ◌++◌, length, true, false, arith,
}
use osm_re_exam.Prelude.Int.{pos, minus_one, as_int}
use osm_re_exam.Prelude.Result.{ok}
use osm_re_exam.Libc.Number.{atoi}
use osm_re_exam.Xprintf.{
  Out, word, printc, print_all, digit, digit_loop, repeat, pad, at_most_11, print_uint, scan_int,
  next, modified, modifier, modifiers, word_arg, print_int, convert, print_loop, but_last,
  vxnprintf, snprintf,
}
use osm_re_exam.Xprintf.Monad.{finished, out_of_fuel, Ends, Gives}
use osm_re_exam.Xprintf.Numerals.{Printed, print_uint-Printed}
use osm_re_exam.Xprintf.Loop.{vxnprintf-Ends, vxnprintf-hangs}
use osm_re_exam.Xprintf.Bounds.{snprintf-Gives}
use osm_re_exam.Xprintf.RoundTrip.{snprintf-atoi}

-- A text that is cut off.
text_cut : snprintf 4 3 (97 ∷ 98 ∷ 99 ∷ 0 ∷ []) [] ≡ finished (minus_one, 97 ∷ 98 ∷ 0 ∷ [])
unfolding snprintf vxnprintf print_loop next printc but_last
text_cut = refl

-- The sign of -5 under a plus: 3 bytes into a buffer of 1.
sign_overruns :
    snprintf 5 1 (37 ∷ 43 ∷ 100 ∷ 0 ∷ []) (word (2 ^ 32 - 5) ∷ [])
    ≡ finished (pos 2, 45 ∷ 43 ∷ 0 ∷ [])
unfolding snprintf vxnprintf print_loop next printc but_last modifiers modifier modified scan_int
    convert word_arg print_int print_uint print_all digit_loop digit pad at_most_11 repeat
sign_overruns = refl

print_uint-Printed_example :
    (text : List ℕ) × Printed 20 255 16 true 4 0 text
    × (print_uint 20 255 16 true 4 0 ≡ finished text)
print_uint-Printed_example =
    print_uint-Printed 20 255 16 true 4 0 (omega arith) (omega arith) (omega arith)

vxnprintf-Ends_example :
    Ends (λ _. Unit {0}) (vxnprintf 5 false 20 (97 ∷ 37 ∷ 100 ∷ 0 ∷ []) (word 7 ∷ []))
vxnprintf-Ends_example =
    vxnprintf-Ends 5 false 20 (97 ∷ 37 ∷ 100 ∷ 0 ∷ []) (word 7 ∷ []) (omega arith)
      (omega arith, (omega arith, (omega arith, (omega arith, tt))))

vxnprintf-hangs_example :
    vxnprintf 1000 true 80 (37 ∷ 57 ∷ 100 ∷ 0 ∷ []) (word 7 ∷ []) ≡ out_of_fuel
vxnprintf-hangs_example = vxnprintf-hangs 1000 true 80 (100 ∷ 0 ∷ []) (word 7 ∷ []) (omega arith)

snprintf-Gives_example :
    Gives
      (λ r. length r.1 ≤ 2 + 2 * 1)
      (snprintf 5 2 (37 ∷ 43 ∷ 100 ∷ 0 ∷ []) (word (2 ^ 32 - 5) ∷ []))
snprintf-Gives_example =
    snprintf-Gives 5 2 1 (37 ∷ 43 ∷ 100 ∷ 0 ∷ []) (word (2 ^ 32 - 5) ∷ []) (omega arith)
      (inr (omega arith), tt) (omega arith)

snprintf-atoi_example :
    (o : Out) × (snprintf 4 16 (37 ∷ 100 ∷ 0 ∷ []) (word (2 ^ 32 - 42) ∷ [])
      ≡ finished (pos o.written, o.text ++ (0 ∷ [])))
    × (atoi (o.text ++ (0 ∷ [])) ≡ ok (as_int (2 ^ 32 - 42)))
snprintf-atoi_example = snprintf-atoi 16 (2 ^ 32 - 42) (omega arith) (omega arith)
