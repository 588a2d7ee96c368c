-- ===== src/Xprintf.antt =====
-- buenos/lib/xprintf.c: formatted output. A string is the list of its bytes with the terminating zero.
-- What is printed is kept as the text that reached the buffer or the TTY with the count `written`.
-- `va_arg` of the wrong kind, or of an argument that is not there, is undefined.
pub mod Monad
pub mod Digits
pub mod Numerals
pub mod Loop
pub mod Bounds
pub mod RoundTrip
use osm_re_exam.Prelude.{
  ℕ, zero, suc, ◌+◌, ◌-◌, ◌*◌, ◌/◌, ◌%◌, ◌^◌, List, [], ◌∷◌, ◌++◌, length, take, Bool, true, false,
  not, ◌&&◌, ◌||◌, Option, none, some, ◌==◌, if◌then◌else◌, ltb, leb, reverse,
}
use osm_re_exam.Prelude.Int.{ℤ, pos, minus_one, ltb_ℤ, ◌==ℤ◌, word_add, word_sub, as_int}
use osm_re_exam.Xprintf.Monad.{Run, finished, undefined, out_of_fuel, ◌>>=◌}

pub record Out : Type 0 where
  pub text : List ℕ
  pub written : ℕ

-- An argument of a format: a number or a pointer, as a word, or a string.
pub data Arg : Type 0 where
  word : ℕ → Arg
  string : List ℕ → Arg

-- The flags and modifiers of one conversion; `width` and `prec` are words that are read as an int.
pub record Modifiers : Type 0 where
  pub alt : Bool
  pub zeropad : Bool
  pub left : Bool
  pub space : Bool
  pub sign : Bool
  pub width : ℕ
  pub prec : ℕ

abbrev pub no_modifiers : Modifiers
no_modifiers = record {
  alt = false;
  zeropad = false;
  left = false;
  space = false;
  sign = false;
  width = 2 ^ 32 - 1;
  prec = 2 ^ 32 - 1;
}

-- `printc(buf++, c, flags)` and `written++`; `tty` is FLAG_TTY.
unfoldable pub printc : Bool → ℕ → Out → Out
printc tty c o = record {
  text = if tty && (c == 0) then o.text else o.text ++ (c ∷ []);
  written = o.written + 1;
}

unfoldable pub print_all : Bool → List ℕ → Out → Out
print_all tty [] o = o
print_all tty (c ∷ cs) o = print_all tty cs (printc tty c o)

-- The table of digits, in capitals or not.
unfoldable pub digit : Bool → ℕ → ℕ
digit small d = if ltb d 10 then 48 + d else if small then 87 + d else 55 + d

-- The first loop of `print_uint`, with `room` bytes of `rev` left: the digits, the last one first.
unfoldable pub digit_loop : ℕ → ℕ → ℕ → Bool → Run (List ℕ)
digit_loop zero n base small = undefined
digit_loop (suc room) n base small =
    let rest = (do
      digits ← digit_loop room (n / base) base small
      finished (digit small (n % base) ∷ digits)) in
    if n / base == 0 then finished (digit small (n % base) ∷ []) else rest

unfoldable pub repeat : ℕ → ℕ → List ℕ
repeat zero c = []
repeat (suc n) c = c ∷ repeat n c

-- A loop that puts `c` behind `rev` until it has `n` characters.
unfoldable pub pad : ℕ → ℕ → List ℕ → List ℕ
pad n c rev = rev ++ repeat (n - length rev) c

-- `MIN(w, 11)`, with 0 for a negative number.
unfoldable pub at_most_11 : ℕ → ℕ
at_most_11 w = if leb (2 ^ 31) w then 0 else if ltb w 11 then w else 11

-- The characters that are printed; `size` is 0 for one that is not positive.
unfoldable pub print_uint : ℕ → ℕ → ℕ → Bool → ℕ → ℕ → Run (List ℕ)
print_uint size n base small prec width =
    let print = (do
      rev ← digit_loop 11 n base small
      finished (take size (reverse (pad (at_most_11 width) 32 (pad (at_most_11 prec) 48 rev))))) in
    if size == 0 then finished [] else print

-- `scan_int`, with the value so far: the value and what follows.
unfoldable pub scan_int : List ℕ → ℕ → Run (ℕ × List ℕ)
scan_int [] value = undefined
scan_int (c ∷ s) value =
    let rest = scan_int s ((10 * value + (c - 48)) % 2 ^ 32) in
    if ltb 48 c && ltb c 57 then rest else finished (value, c ∷ s)

-- `*s++`
unfoldable pub next : List ℕ → Run (ℕ × List ℕ)
next [] = undefined
next (c ∷ s) = finished (c, s)

unfoldable pub modified : List ℕ → Modifiers → Run (Option (List ℕ × Modifiers))
modified fmt m = finished (some (fmt, m))

-- The switch over one modifier `ch` with `fmt` behind it; nothing for a character that is none.
unfoldable pub modifier : ℕ → List ℕ → Modifiers → Run (Option (List ℕ × Modifiers))
modifier ch fmt m =
    let precision = (do
      (value, rest) ← scan_int fmt 0
      modified rest (record m { prec = value })) in
    let field_width = (do
      (value, rest) ← scan_int (ch ∷ fmt) 0
      modified rest (record m { width = value })) in
    if ch == 35
    then modified fmt (record m { alt = true })
    else if ch == 48
    then modified fmt (record m { zeropad = true })
    else if ch == 32
    then modified fmt (record m { space = true })
    else if ch == 43
    then modified fmt (record m { sign = true })
    else if ch == 45
    then modified fmt (record m { left = true })
    else if ch == 46
    then precision
    else if leb 49 ch && leb ch 57
    then field_width
    else finished none

-- The loop over the modifiers: the character that is none, or 0, with what follows.
unfoldable pub modifiers : ℕ → ℕ → List ℕ → Modifiers → Run (ℕ × List ℕ × Modifiers)
modifiers zero ch fmt m = out_of_fuel
modifiers (suc fuel) ch fmt m = do
  scanned ← modifier ch fmt m
  elim scanned as (λ _. Run (ℕ × List ℕ × Modifiers)) [
    | none ↦ finished (ch, fmt, m)
    | some s ↦ (do
      (c, rest) ← next s.0
      let further = modifiers fuel c rest s.1
      if c == 0 then finished (c, rest, s.1) else further)
  ]

-- `va_arg` of a number and of a string.
unfoldable pub word_arg : List Arg → Run (ℕ × List Arg)
word_arg (word n ∷ args) = finished (n, args)
word_arg _ = undefined

unfoldable pub string_arg : List Arg → Run (List ℕ × List Arg)
string_arg (string s ∷ args) = finished (s, args)
string_arg _ = undefined

-- The conversions `i` and `d`.
unfoldable pub print_int : Bool → ℕ → Modifiers → ℕ → Out → Run Out
print_int tty size m arg o =
    let negative = leb (2 ^ 31) arg in
    let o1 = if negative then printc tty 45 o else o in
    let magnitude = if negative then word_sub 0 arg else arg in
    let o2 = if m.sign then printc tty 43 o1 else if m.space then printc tty 32 o1 else o1 in
    do
      digits ← print_uint (size - o2.written) magnitude 10 false 0 0
      finished (print_all tty digits o2)

-- The conversions `o`, `u`, `p`, `x` and `X`, from the zero padding on.
unfoldable pub print_unsigned : Bool → ℕ → ℕ → Bool → Modifiers → ℕ → Out → Run Out
print_unsigned tty size base small m n o =
    let prec = if ltb_ℤ (as_int m.prec) (as_int m.width) && m.zeropad then m.width else m.prec in
    do
      digits ← print_uint (size - o.written) n base small prec m.width
      finished (print_all tty digits o)

-- The start of the conversions `p`, `x` and `X`.
unfoldable pub print_prefix : Bool → ℕ → Modifiers → Out → Modifiers × Out
print_prefix tty size m o =
    let o1 = printc tty 48 o in
    let o2 = if ltb o1.written size then printc tty 120 o1 else o1 in
    if m.alt then (record m { width = word_sub m.width 2 }, o2) else (m, o)

-- The loop of the conversion `s`.
unfoldable pub string_loop : Bool → ℕ → List ℕ → Out → Run Out
string_loop tty w [] o = if ltb_ℤ (pos o.written) (as_int w) then undefined else finished o
string_loop tty w (c ∷ s) o =
    let rest = string_loop tty w s (printc tty c o) in
    if ltb_ℤ (pos o.written) (as_int w) && not (c == 0) then rest else finished o

unfoldable pub print_string : Bool → ℕ → Modifiers → List ℕ → Out → Run Out
print_string tty size m s o =
    let end = word_add o.written m.prec in
    let w =
      if not (as_int m.prec ==ℤ minus_one) && ltb_ℤ (as_int end) (pos size) then end else size in
    string_loop tty w s o

-- The switch over the type of the argument.
unfoldable pub convert : Bool → ℕ → ℕ → Modifiers → List Arg → Out → Run (Out × List Arg)
convert tty size ch m args o =
    let number : (ℕ → Run Out) → Run (Out × List Arg) =
      λ print. (do (n, rest) ← word_arg args; o' ← print n; finished (o', rest)) in
    let text = (do
      (s, rest) ← string_arg args
      o' ← print_string tty size m s o
      finished (o', rest)) in
    let pointer = print_prefix tty size (record m { alt = true }) o in
    let hex = print_prefix tty size m o in
    if (ch == 105) || (ch == 100)
    then number (λ n. print_int tty size m n o)
    else if ch == 111
    then number (λ n. print_unsigned tty size 8 false m n o)
    else if ch == 117
    then number (λ n. print_unsigned tty size 10 false m n o)
    else if ch == 112
    then number (λ n. print_unsigned tty size 16 true pointer.0 n pointer.1)
    else if ch == 120
    then number (λ n. print_unsigned tty size 16 true hex.0 n hex.1)
    else if ch == 88
    then number (λ n. print_unsigned tty size 16 false hex.0 n hex.1)
    else if ch == 99
    then number (λ n. finished (printc tty (n % 256) o))
    else if ch == 115
    then text
    else finished (printc tty ch o, args)

-- The loop of `vxnprintf` over the format.
unfoldable pub print_loop : ℕ → Bool → ℕ → List ℕ → List Arg → Out → Run Out
print_loop zero tty size fmt args o = out_of_fuel
print_loop (suc fuel) tty size fmt args o =
    let conversion : List ℕ → Run Out = λ fmt. (do
      (c, fmt1) ← next fmt
      let modified = (do
        (ch, fmt2, m) ← modifiers fuel c fmt1 no_modifiers
        let converted = (do
          (o', rest) ← convert tty size ch m args o
          print_loop fuel tty size fmt2 rest o')
        if ch == 0 then finished o else converted)
      if c == 0 then finished o else modified) in
    let step = (do
      (ch, fmt1) ← next fmt
      let further = print_loop fuel tty size fmt1 args (printc tty ch o)
      if ch == 0 then finished o else if ch == 37 then conversion fmt1 else further) in
    if ltb o.written size then step else finished o

-- The text without its last character.
unfoldable pub but_last : List ℕ → List ℕ
but_last s = take (length s - 1) s

-- `vxnprintf`: the value returned, and what was printed or the buffer afterwards.
unfoldable pub vxnprintf : ℕ → Bool → ℕ → List ℕ → List Arg → Run (ℤ × List ℕ)
vxnprintf fuel tty size fmt args =
    let print = (do
      o ← print_loop fuel tty size fmt args (record { text = []; written = 0 })
      let text =
          if tty
          then o.text
          else (if o.written == size then but_last o.text else o.text) ++ (0 ∷ [])
      finished (if o.written == size then minus_one else pos o.written, text)) in
    if size == 0 then finished (pos 0, []) else print

-- `kprintf` and `kvprintf`, between taking and releasing the lock, and `snprintf` and `vsnprintf`.
unfoldable pub kprintf : ℕ → List ℕ → List Arg → Run (ℤ × List ℕ)
kprintf fuel fmt args = vxnprintf fuel true (2 ^ 31 - 1) fmt args

unfoldable pub snprintf : ℕ → ℕ → List ℕ → List Arg → Run (ℤ × List ℕ)
snprintf fuel size fmt args = vxnprintf fuel false size fmt args
