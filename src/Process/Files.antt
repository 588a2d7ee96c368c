-- ===== src/Process/Files.antt =====
-- The files of a process: what is added is there, and removing it restores the array.
use osm_re_exam.Prelude.{
  ◌≡◌, refl, ap, ◌⊎◌, inl, inr, List, [], ◌∷◌, true, false, arith, Bool-cases,
}
use osm_re_exam.Prelude.Int.{ℤ, minus_one, ◌==ℤ◌, ==ℤ_refl, ==ℤ→eq}
use osm_re_exam.Process.{process_add_file, process_remove_file, process_has_open_file}

-- `process_add_file` succeeds exactly if the array has a slot that holds -1, and the file is then
-- an open one; without such a slot it leaves the array as it was.
pub process_add_file-has :
    (files : List ℤ) (file : ℤ)
    → ((process_add_file files file).1 ≡ process_has_open_file files minus_one)
      × (((process_add_file files file).1 ≡ true)
            × (process_has_open_file (process_add_file files file).0 file ≡ true)
          ⊎ ((process_add_file files file).1 ≡ false) × ((process_add_file files file).0 ≡ files))
unfolding process_add_file process_has_open_file
process_add_file-has [] file = (refl, inr (refl, refl))
process_add_file-has (f ∷ fs) file = elim (Bool-cases (f ==ℤ minus_one)) [
  | inl empty ↦ rw empty (refl, inl (refl, rw (==ℤ_refl file)))
  | inr used ↦
      let (e, outcome) = process_add_file-has fs file in
      rw used (
        e,
        elim outcome [ inl (t, h) ↦ inl (t, ground arith) | inr (t, h) ↦ inr (t, ap (◌∷◌ f) h) ],
      )
]

-- For a file that is not in the array, and is not the -1 of an empty slot, removing it right after
-- it was added gives the array of before, and the removal reports what the addition did.
process_add_file-remove :
    (files : List ℤ) (file : ℤ)
    → process_has_open_file files file ≡ false
    → process_remove_file (process_add_file files file).0 file
      ≡ (files, (process_add_file files file).1)
unfolding process_add_file process_remove_file process_has_open_file
process_add_file-remove [] file h = refl
process_add_file-remove (f ∷ fs) file h = elim (Bool-cases (f ==ℤ minus_one)) [
  | inl empty ↦ rw (empty, ==ℤ_refl file, ==ℤ→eq f minus_one empty)
  | inr used ↦
      let other : (f ==ℤ file) ≡ false = ground arith in
      let tail : process_has_open_file fs file ≡ false = ground arith in
      rw (used, other, process_add_file-remove fs file tail)
]
