-- ===== src/Vfs/Path.antt =====
-- Path names of the form `[volume]file`.
use osm_re_exam.Prelude.{
  ℕ, zero, suc, ◌≤◌, ◌<◌, ◌≡◌, refl, ◌≢◌, List, [], ◌∷◌, ◌++◌, true, false, some, arith, length,
  ne→==,
}
use osm_re_exam.Prelude.Result.{ok}
use osm_re_exam.Vfs.{
  vfs_invalid_params, bad, names, parse_filename, bad_volume, volume, add_char, parse_volume,
  parse_rest, vfs_parse_pathname, name_length,
}

-- The character `c` is not in the text.
abbrev pub Avoids : ℕ → List ℕ → Type 0
Avoids c [] = Unit
Avoids c (x ∷ s) = (x ≢ c) × Avoids c s

abbrev pub open_bracket : ℕ
open_bracket = 91

abbrev pub close_bracket : ℕ
close_bracket = 93

parse_volume-close :
    (n : ℕ) (v path : List ℕ)
    → length v < n
    → Avoids 0 v
    → Avoids close_bracket v
    → parse_volume n (v ++ (close_bracket ∷ path)) ≡ ok (volume (v ++ (0 ∷ [])) path)
unfolding parse_volume add_char
parse_volume-close zero v path h a b = absurd (omega arith)
parse_volume-close (suc n) [] path h a b = refl
parse_volume-close (suc n) (c ∷ v) path h a b =
    rw (ne→== c 0 a.0, ne→== c 93 b.0, parse_volume-close n v path (omega arith) a.1 b.1) refl

parse_volume_long :
    (n : ℕ) (v path : List ℕ)
    → n ≤ length v
    → Avoids 0 v
    → Avoids close_bracket v
    → parse_volume n (v ++ path) ≡ ok (bad_volume vfs_invalid_params)
unfolding parse_volume add_char
parse_volume_long zero v path h a b = refl
parse_volume_long (suc n) [] path h a b = absurd (omega arith)
parse_volume_long (suc n) (c ∷ v) path h a b =
    rw (ne→== c 0 a.0, ne→== c 93 b.0, parse_volume_long n v path (omega arith) a.1 b.1) refl

parse_filename-end :
    (n : ℕ) (f rest : List ℕ)
    → length f < n
    → Avoids 0 f
    → parse_filename n false (f ++ (0 ∷ rest)) ≡ ok (some (f ++ (0 ∷ [])))
unfolding parse_filename
parse_filename-end zero f rest h a = absurd (omega arith)
parse_filename-end (suc n) [] rest h a = refl
parse_filename-end (suc n) (c ∷ f) rest h a =
    rw (ne→== c 0 a.0, parse_filename-end n f rest (omega arith) a.1) refl

-- The first character of the name of a file cannot be the end.
filename_lem :
    (f rest : List ℕ)
    → 0 < length f
    → length f < name_length
    → Avoids 0 f
    → parse_filename name_length true (f ++ (0 ∷ rest)) ≡ ok (some (f ++ (0 ∷ [])))
unfolding parse_filename
filename_lem [] rest p h a = absurd (omega arith)
filename_lem (c ∷ f) rest p h a =
    rw (ne→== c 0 a.0, parse_filename-end 15 f rest (omega arith) a.1) refl

-- `vfs_parse_pathname` reads back a path that is written as `[volume]file` and a null: for a volume
-- name of at most 14 characters other than `]`, which may be empty, and a file name of 1 to 15
-- characters, it succeeds and the buffers hold the two names.
pub vfs_parse_pathname-names :
    (v f rest : List ℕ)
    → length v < 15
    → Avoids 0 v
    → Avoids close_bracket v
    → 0 < length f
    → length f < name_length
    → Avoids 0 f
    → vfs_parse_pathname (open_bracket ∷ (v ++ (close_bracket ∷ (f ++ (0 ∷ rest)))))
      ≡ ok (names (v ++ (0 ∷ [])) (f ++ (0 ∷ [])))
unfolding vfs_parse_pathname parse_rest
vfs_parse_pathname-names v f rest hv a b p hf c =
    rw (parse_volume-close 15 v (f ++ (0 ∷ rest)) hv a b, filename_lem f rest p hf c) refl

-- A volume name of 15 or more characters is refused, whatever follows it, although a name of 15
-- characters and its null fit into the VFS_NAME_LENGTH bytes of a mountpoint.
pub vfs_parse_pathname_long :
    (v rest : List ℕ)
    → 15 ≤ length v
    → Avoids 0 v
    → Avoids close_bracket v
    → vfs_parse_pathname (open_bracket ∷ (v ++ rest)) ≡ ok (bad vfs_invalid_params)
unfolding vfs_parse_pathname
vfs_parse_pathname_long v rest h a b = rw (parse_volume_long 15 v rest h a b) refl
