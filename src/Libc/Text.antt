-- ===== src/Libc/Text.antt =====
-- Strings: the characters before the first null.
use osm_re_exam.Prelude.{
  ℕ, zero, suc, ◌+◌, ◌<◌, ◌≡◌, refl, ◌≢◌, sym, ap, ◌∙◌, ◌↔◌, ◌⊎◌, inl, inr, List, [], ◌∷◌, ◌++◌,
  arith, length, take, drop, ◌==◌, if◌then◌else◌, Bool-cases, ==→eq, ==→ne,
}
use osm_re_exam.Prelude.Int.{pos, sub_zero}
use osm_re_exam.Prelude.Result.{ok, Yields, yields, Yields-bind, Yields-mono}
use osm_re_exam.Libc.{stringcmp, copy_loop, stringcopy, strlen}

abbrev pub text : List ℕ → List ℕ
text [] = []
text (c ∷ s) = if c == 0 then [] else c ∷ text s

-- The array has a null.
abbrev pub IsString : List ℕ → Type 0
IsString [] = ⊥
IsString (c ∷ s) = (c ≡ 0) ⊎ IsString s

-- An array of the characters `cs`, a null, and whatever follows.
pub text-append : (cs rest : List ℕ) → text (cs ++ (0 ∷ rest)) ≡ text cs
text-append [] rest = refl
text-append (c ∷ cs) rest = elim (Bool-cases (c == 0)) [
  | inl null ↦ rw null refl
  | inr proper ↦ rw proper (ap (◌∷◌ c) (text-append cs rest))
]

head_ne : (c d : ℕ) (s t : List ℕ) → c ≢ d → (c ∷ s) ≢ (d ∷ t)
head_ne c d s t ne e = let q : c ≡ d = cc in ne q

pub past : (c : ℕ) (s : List ℕ) → IsString (c ∷ s) → c ≢ 0 → IsString s
past c s (inl null) ne = absurd (ne null)
past c s (inr more) ne = more

-- `stringcmp` of two strings succeeds, and its result is 0 exactly if their texts are equal.
pub stringcmp-text :
    (a b : List ℕ)
    → IsString a
    → IsString b
    → Yields (λ r. (r ≡ pos 0) ↔ (text a ≡ text b)) (stringcmp a b)
unfolding stringcmp
stringcmp-text [] b h k = absurd h
stringcmp-text (c ∷ a) [] h k = absurd k
stringcmp-text (c ∷ a) (d ∷ b) h k = elim (Bool-cases (c == 0)) [
  | inl c0 ↦ elim (Bool-cases (d == 0)) [
    | inl d0 ↦ rw (c0, d0) (yields ((λ e. refl), (λ e. refl)))
    | inr d1 ↦
        rw (c0, d1)
          (yields ((λ e. absurd (==→ne d 0 d1 (sym (sub_zero c d e) ∙ ==→eq c 0 c0))), (λ e. cc)))
  ]
  | inr c1 ↦ elim (Bool-cases (d == 0)) [
    | inl d0 ↦
        rw (c1, d0)
          (yields ((λ e. absurd (==→ne c 0 c1 (sub_zero c d e ∙ ==→eq d 0 d0))), (λ e. cc)))
    | inr d1 ↦ elim (Bool-cases (c == d)) [
      | inr apart ↦
          rw (c1, d1, apart)
            (yields (
              (λ e. absurd (==→ne c d apart (sub_zero c d e))),
              (λ e. absurd (head_ne c d (text a) (text b) (==→ne c d apart) e)),
            ))
      | inl same ↦
          rw (c1, d1, same)
            (Yields-mono
              (stringcmp-text a b (past c a h (==→ne c 0 c1)) (past d b k (==→ne d 0 d1)))
              λ r iff. (
                (λ e. ap (◌∷◌ c) (iff.0 e) ∙ ap (λ x. x ∷ text b) (==→eq c d same)),
                (λ e. iff.1 cc),
              ))
    ]
  ]
]

-- What `stringcopy` leaves in the target: the characters that fit, a null, and the old rest.
pub record Copied (target source target' : List ℕ) (room : ℕ) : Type 0 where
  pub content : text target' ≡ take room (text source)
  pub ends : IsString target'
  pub size : length target' ≡ length target
  pub rest : drop (suc room) target' ≡ drop (suc room) target

copy_loop-Copied :
    (n : ℕ) (target source : List ℕ)
    → n < length target
    → IsString source
    → Yields (λ target'. Copied target source target' n) (copy_loop n target source)
unfolding copy_loop
copy_loop-Copied n [] source h k = absurd (omega arith)
copy_loop-Copied zero (t ∷ target) source h k =
    yields (record { content = refl; ends = inl refl; size = refl; rest = refl })
copy_loop-Copied (suc n) (t ∷ target) [] h k = absurd k
copy_loop-Copied (suc n) (t ∷ target) (c ∷ source) h k = elim (Bool-cases (c == 0)) [
  | inl null ↦ rw null (
      yields
        (record { content = rw null refl; ends = inl (==→eq c 0 null); size = refl; rest = refl }))
  | inr proper ↦ rw proper (
      Yields-bind _
        (copy_loop-Copied n target source (omega arith) (past c source k (==→ne c 0 proper)))
        λ target' done. yields (record {
          content = rw proper (ap (◌∷◌ c) done.content);
          ends = inr done.ends;
          size = ap suc done.size;
          rest = done.rest;
        }))
]

-- For a string as source and a buffer of at least `n + 1` bytes, `stringcopy` with a length of `n + 1`
-- succeeds. The target is then a string of the first `n` characters of the source, or of all of
-- them if they are fewer, and its bytes from place `n + 1` on are as before.
pub stringcopy-Copied :
    (target source : List ℕ) (n : ℕ)
    → n < length target
    → IsString source
    → Yields (λ target'. Copied target source target' n) (stringcopy target source (pos (suc n)))
unfolding stringcopy
stringcopy-Copied target source n h k = copy_loop-Copied n target source h k

pub strlen-text : (s : List ℕ) → IsString s → strlen s ≡ ok (length (text s))
unfolding strlen
strlen-text [] h = absurd h
strlen-text (c ∷ s) h = elim (Bool-cases (c == 0)) [
  | inl null ↦ rw null refl
  | inr proper ↦
      let e : length (text s) + 1 ≡ suc (length (text s)) = omega arith in
      rw (proper, strlen-text s (past c s h (==→ne c 0 proper)), e) refl
]
