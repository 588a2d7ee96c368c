-- ===== src/Examples/Strings.antt =====
-- Strings and copies of memory.
use osm_re_exam.Prelude.{ℕ, ◌≡◌, refl, ◌↔◌, inl, inr, List, [], ◌∷◌, true, leb→le}
use osm_re_exam.Prelude.Int.{pos}
use osm_re_exam.Prelude.Result.{ok, Yields}
use osm_re_exam.Libc.{stringcmp, stringcopy, copy_loop, strlen, memcopy, memoryset, memoryset_loop}
use osm_re_exam.Libc.Text.{text, stringcmp-text}
use osm_re_exam.Libc.Copy.{over, memcopy-over}

-- "disk" and "dish", each before other bytes.
abbrev disk : List ℕ
disk = 100 ∷ 105 ∷ 115 ∷ 107 ∷ 0 ∷ 1 ∷ []

abbrev dish : List ℕ
dish = 100 ∷ 105 ∷ 115 ∷ 104 ∷ 0 ∷ []

stringcmp-text_example : Yields (λ r. (r ≡ pos 0) ↔ (text disk ≡ text dish)) (stringcmp disk dish)
stringcmp-text_example =
    stringcmp-text disk dish (inr (inr (inr (inr (inl refl))))) (inr (inr (inr (inr (inl refl)))))

difference : stringcmp disk dish ≡ ok (pos 3)
unfolding stringcmp
difference = refl

cuts_off : stringcopy disk dish (pos 3) ≡ ok (100 ∷ 105 ∷ 0 ∷ 107 ∷ 0 ∷ 1 ∷ [])
unfolding stringcopy copy_loop
cuts_off = refl

length_disk : strlen disk ≡ ok 4
unfolding strlen
length_disk = refl

fills : memoryset disk 9 (pos 2) ≡ ok (9 ∷ 9 ∷ 115 ∷ 107 ∷ 0 ∷ 1 ∷ [])
unfolding memoryset memoryset_loop
fills = refl

memcopy-over_example : memcopy true (pos 5) disk dish ≡ ok (over 5 disk dish)
memcopy-over_example = memcopy-over true 5 disk dish (leb→le 5 6 refl) (leb→le 5 5 refl)
