-- ===== src/Libc/Copy.antt =====
-- Copies of strings and of memory.
use osm_re_exam.Prelude.{
  ℕ, zero, suc, ◌+◌, ◌*◌, ◌/◌, ◌%◌, ◌≤◌, ◌≡◌, refl, sym, ap, ◌∙◌, List, [], ◌∷◌, ◌++◌, Bool, true,
  false, arith, length, take, drop, length-take, length-drop, take_add, drop-drop, append_assoc,
  take-append, drop-append,
}
use osm_re_exam.Prelude.Int.{pos}
use osm_re_exam.Prelude.Result.{ok}
use osm_re_exam.Libc.{memcopy_loop, words_loop, memcopy}

-- The target with its first `n` bytes replaced by those of the source.
abbrev pub over : ℕ → List ℕ → List ℕ → List ℕ
over n target source = take n source ++ drop n target

pub memcopy_loop-over :
    (n : ℕ) (target source : List ℕ)
    → n ≤ length target
    → n ≤ length source
    → memcopy_loop n target source ≡ ok (over n target source)
unfolding memcopy_loop
memcopy_loop-over zero target source h k = refl
memcopy_loop-over (suc n) [] source h k = absurd (omega arith)
memcopy_loop-over (suc n) (t ∷ target) [] h k = absurd (omega arith)
memcopy_loop-over (suc n) (t ∷ target) (s ∷ source) h k =
    rw (memcopy_loop-over n target source (omega arith) (omega arith)) refl

take-over :
    (n : ℕ) (target source : List ℕ)
    → n ≤ length source
    → take n (over n target source) ≡ take n source
take-over n target source k =
    ap (λ m. take m (over n target source)) (sym (length-take n source k))
    ∙ take-append (take n source) (drop n target)

drop-over :
    (n : ℕ) (target source : List ℕ)
    → n ≤ length source
    → drop n (over n target source) ≡ drop n target
drop-over n target source k =
    ap (λ m. drop m (over n target source)) (sym (length-take n source k))
    ∙ drop-append (take n source) (drop n target)

-- One copy behind another is one copy.
over_add :
    (m n : ℕ) (target source : List ℕ)
    → take m source ++ over n (drop m target) (drop m source) ≡ over (m + n) target source
over_add m n target source =
    rw (drop-drop n m target, take_add m n source)
      (sym (append_assoc (take m source) (take n (drop m source)) (drop (m + n) target)))

words_loop-over :
    (n : ℕ) (target source : List ℕ)
    → 4 * n ≤ length target
    → 4 * n ≤ length source
    → words_loop n target source ≡ ok (over (4 * n) target source)
unfolding words_loop
words_loop-over zero target source h k = refl
words_loop-over (suc n) target source h k =
    let e : 4 * suc n ≡ 4 + 4 * n = omega arith in
    rw
      (
        memcopy_loop-over 4 target source (omega arith) (omega arith),
        take-over 4 target source (omega arith),
        words_loop-over n (drop 4 target) (drop 4 source) (omega (arith, length-drop 4 target))
            (omega (arith, length-drop 4 source)),
        over_add 4 (4 * n) target source,
        e,
      )
      refl

-- For a target and a source of at least `n` bytes, `memcopy` of `n` bytes succeeds, and replaces the
-- first `n` bytes of the target by those of the source and no others, whether it copies words and
-- then the last bytes, for aligned addresses, or bytes only.
pub memcopy-over :
    (aligned : Bool) (n : ℕ) (target source : List ℕ)
    → n ≤ length target
    → n ≤ length source
    → memcopy aligned (pos n) target source ≡ ok (over n target source)
unfolding memcopy
memcopy-over false n target source h k = memcopy_loop-over n target source h k
memcopy-over true n target source h k =
    let e : n / 4 * 4 ≡ 4 * (n / 4) = omega arith in
    let f : 4 * (n / 4) + n % 4 ≡ n = omega arith in
    rw
      (
        words_loop-over (n / 4) target source (omega arith) (omega arith),
        e,
        drop-over (4 * (n / 4)) target source (omega arith),
        take-over (4 * (n / 4)) target source (omega arith),
        memcopy_loop-over (n % 4) (drop (4 * (n / 4)) target) (drop (4 * (n / 4)) source)
            (omega (arith, length-drop (4 * (n / 4)) target))
            (omega (arith, length-drop (4 * (n / 4)) source)),
        over_add (4 * (n / 4)) (n % 4) target source,
        f,
      )
      refl
