-- ===== src/Libc.antt =====
-- buenos/lib/libc.c: the routines on strings and memory. A char array is the list of its bytes from
-- the pointer on, and an access behind its end is a fault.
pub mod Text
pub mod Copy
pub mod Number
use osm_re_exam.Prelude.{
  ℕ, zero, suc, ◌+◌, ◌-◌, ◌*◌, ◌/◌, ◌%◌, List, [], ◌∷◌, ◌++◌, take, drop, Bool, true, false, not,
  ◌&&◌, ◌||◌, ◌==◌, if◌then◌else◌, leb,
}
use osm_re_exam.Prelude.Int.{ℤ, pos, negsuc, sub}
use osm_re_exam.Prelude.Result.{Result, ok, fault, ◌>>=◌}

-- The value is the difference of two bytes; the callers test it against 0.
unfoldable pub stringcmp : List ℕ → List ℕ → Result ℤ
stringcmp [] str2 = fault
stringcmp (c ∷ str1) [] = fault
stringcmp (c ∷ str1) (d ∷ str2) =
    let rest = stringcmp str1 str2 in
    if (c == 0) && (d == 0)
    then ok (pos 0)
    else if (c == 0) || ((d == 0) || not (c == d))
    then ok (sub c d)
    else rest

-- The loop of `stringcopy`, with `n` rounds left, and the write behind it. The inner loop writes the
-- same null to the same place.
unfoldable pub copy_loop : ℕ → List ℕ → List ℕ → Result (List ℕ)
copy_loop n [] source = fault
copy_loop zero (t ∷ target) source = ok (0 ∷ target)
copy_loop (suc n) (t ∷ target) [] = fault
copy_loop (suc n) (t ∷ target) (c ∷ source) =
    let rest = (do copied ← copy_loop n target source; ok (c ∷ copied)) in
    if c == 0 then ok (c ∷ target) else rest

-- The target afterwards.
unfoldable pub stringcopy : List ℕ → List ℕ → ℤ → Result (List ℕ)
stringcopy target source (pos (suc n)) = copy_loop n target source
stringcopy target source _ = copy_loop 0 target source

unfoldable pub strlen : List ℕ → Result ℕ
strlen [] = fault
strlen (c ∷ str) = let rest = (do l ← strlen str; ok (l + 1)) in if c == 0 then ok 0 else rest

-- The loops that copy `n` bytes, or words, from one array to another.
unfoldable pub memcopy_loop : ℕ → List ℕ → List ℕ → Result (List ℕ)
memcopy_loop zero target source = ok target
memcopy_loop (suc n) [] source = fault
memcopy_loop (suc n) (t ∷ target) [] = fault
memcopy_loop (suc n) (t ∷ target) (s ∷ source) = do
  copied ← memcopy_loop n target source
  ok (s ∷ copied)

-- The loop that copies `n` words; a word is the four bytes at its address.
unfoldable pub words_loop : ℕ → List ℕ → List ℕ → Result (List ℕ)
words_loop zero target source = ok target
words_loop (suc n) target source = do
  word ← memcopy_loop 4 target source
  rest ← words_loop n (drop 4 target) (drop 4 source)
  ok (take 4 word ++ rest)

-- The target afterwards. `aligned` says whether both addresses are multiples of 4.
unfoldable pub memcopy : (aligned : Bool) → ℤ → List ℕ → List ℕ → Result (List ℕ)
memcopy aligned (negsuc _) target source = ok target
memcopy false (pos buflen) target source = memcopy_loop buflen target source
memcopy true (pos buflen) target source = do
  copied ← words_loop (buflen / 4) target source
  let past = buflen / 4 * 4
  rest ← memcopy_loop (buflen % 4) (drop past copied) (drop past source)
  ok (take past copied ++ rest)

unfoldable pub memoryset_loop : ℕ → List ℕ → ℕ → Result (List ℕ)
memoryset_loop zero target value = ok target
memoryset_loop (suc n) [] value = fault
memoryset_loop (suc n) (t ∷ target) value = do
  rest ← memoryset_loop n target value
  ok (value ∷ rest)

unfoldable pub memoryset : List ℕ → ℕ → ℤ → Result (List ℕ)
memoryset target value (negsuc _) = ok target
memoryset target value (pos size) = memoryset_loop size target value
