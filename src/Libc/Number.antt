-- ===== src/Libc/Number.antt =====
-- buenos/lib/libc.c: `atoi`. The value is kept as a word, as the machine does, and read as an int.
use osm_re_exam.Prelude.{
  ℕ, ◌+◌, ◌-◌, ◌*◌, ◌%◌, ◌^◌, List, [], ◌∷◌, Bool, true, false, not, ◌&&◌, ◌||◌, ◌==◌,
  if◌then◌else◌, leb,
}
use osm_re_exam.Prelude.Int.{ℤ, pos, as_int, word_sub}
use osm_re_exam.Prelude.Result.{Result, ok, fault, ◌>>=◌}

-- The loop over the leading whitespace.
unfoldable pub skip_space : List ℕ → Result (List ℕ)
skip_space [] = fault
skip_space (c ∷ s) =
    let rest = skip_space s in
    if not (c == 0) && ((c == 32) || ((c == 9) || ((c == 13) || (c == 10))))
    then rest
    else ok (c ∷ s)

-- The loop over the digits, behind a minus or not.
unfoldable pub read_digits : Bool → List ℕ → ℕ → Result ℕ
read_digits minus [] value = fault
read_digits minus (c ∷ s) value =
    let digit = if minus then word_sub 0 (c - 48) else c - 48 in
    let rest = read_digits minus s ((10 * value + digit) % 2 ^ 32) in
    if leb 48 c && leb c 57 then rest else ok value

-- From the switch over the sign on.
unfoldable pub read_number : List ℕ → Result ℤ
read_number [] = fault
read_number (c ∷ s) =
    let value : Bool → List ℕ → Result ℤ =
      λ minus s. (do v ← read_digits minus s 0; ok (as_int v)) in
    if c == 0
    then ok (pos 0)
    else if c == 45
    then value true s
    else if c == 43
    then value false s
    else value false (c ∷ s)

unfoldable pub atoi : List ℕ → Result ℤ
atoi s = do number ← skip_space s; read_number number
