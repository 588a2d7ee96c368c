-- ===== src/Vfs.antt =====
-- buenos/fs/vfs.c and buenos/fs/vfs.h: the virtual file system. The file system drivers are reached
-- through the function pointers of `fs_t`, so they are an interface here, over a state `W` of
-- their own. The binary semaphores of the two tables are released again on every path; a call is one
-- step. What the operations print is left out.
pub mod Calls
pub mod Path
pub mod Count
pub mod Files
pub mod Mount
pub mod Transfer
pub mod Unusable
use osm_re_exam.Prelude.{
  ℕ, zero, suc, ◌+◌, List, [], ◌∷◌, Bool, true, false, not, ◌&&◌, Option, none, some, ◌==◌,
  if◌then◌else◌, leb, map, get_or, replicate,
}
use osm_re_exam.Prelude.Int.{ℤ, pos, negsuc, minus_one, ◌==ℤ◌, ltb_ℤ, leb_ℤ, succ, prev}
use osm_re_exam.Prelude.Result.{Result, ok, panic, fault, ◌>>=◌, ◌>>◌, kernel_assert, read, write}
use osm_re_exam.Libc.{stringcmp, stringcopy}

abbrev pub max_filesystems : ℕ
max_filesystems = 8

abbrev pub max_open_files : ℕ
max_open_files = 512

-- `VFS_NAME_LENGTH`
abbrev pub name_length : ℕ
name_length = 16

abbrev pub vfs_ok : ℤ
vfs_ok = pos 0

abbrev pub vfs_error : ℤ
vfs_error = negsuc 1

abbrev pub vfs_invalid_params : ℤ
vfs_invalid_params = negsuc 2

abbrev pub vfs_not_open : ℤ
vfs_not_open = negsuc 3

abbrev pub vfs_not_found : ℤ
vfs_not_found = negsuc 4

abbrev pub vfs_no_such_fs : ℤ
vfs_no_such_fs = negsuc 5

abbrev pub vfs_limit : ℤ
vfs_limit = negsuc 6

abbrev pub vfs_in_use : ℤ
vfs_in_use = negsuc 7

abbrev pub vfs_unusable : ℤ
vfs_unusable = negsuc 8

-- `vfs_entry_t` and `openfile_entry_t`. A file system is the address of its `fs_t`, 0 for NULL.
pub record VfsEntry : Type 0 where
  pub filesystem : ℕ
  pub mountpoint : List ℕ

pub record OpenFile : Type 0 where
  pub filesystem : ℕ
  pub fileid : ℤ
  pub seek_position : ℤ

-- The static variables. `unmount_sem` counts the wake-ups of the pending unmount.
pub record Vfs : Type 0 where
  pub filesystems : List VfsEntry
  pub files : List OpenFile
  pub vfs_ops : ℤ
  pub vfs_usable : Bool
  pub unmount_sem : ℕ

-- The `fs_t` of one file system: the effect of each function on the drivers' state. What `read` puts
-- into the buffer is its second result.
pub record Fs (W : Type 0) : Type 0 where
  pub volume_name : List ℕ
  pub unmount : W → Result (ℤ × W)
  pub open_file : W → List ℕ → Result (ℤ × W)
  pub close : W → ℤ → Result (ℤ × W)
  pub read_file : W → ℤ → ℤ → ℤ → Result (ℤ × List ℕ × W)
  pub write_file : W → ℤ → List ℕ → ℤ → ℤ → Result (ℤ × W)
  pub create : W → List ℕ → ℤ → Result (ℤ × W)
  pub remove : W → List ℕ → Result (ℤ × W)
  pub getfree : W → Result (ℤ × W)

-- The tables are what memory holds at start; the four semaphores are taken to be created.
unfoldable pub vfs_init : List VfsEntry → List OpenFile → Vfs
vfs_init filesystems files = record {
  filesystems = map clear_entry filesystems;
  files = map clear_file files;
  vfs_ops = pos 0;
  vfs_usable = true;
  unmount_sem = 0;
}
  where
    clear_entry : VfsEntry → VfsEntry
    clear_entry e = record e { filesystem = 0 }

    clear_file : OpenFile → OpenFile
    clear_file f = record f { filesystem = 0 }

-- The loop of `vfs_get_filesystem`.
unfoldable pub vfs_get_filesystem : List VfsEntry → List ℕ → Result ℕ
vfs_get_filesystem [] mountpoint = ok 0
vfs_get_filesystem (e ∷ es) mountpoint =
    let rest = vfs_get_filesystem es mountpoint in
    do r ← stringcmp e.mountpoint mountpoint; if r ==ℤ pos 0 then ok e.filesystem else rest

-- `vfs_parse_pathname`: an error code, or what it leaves in the two buffers.
pub data Parsed : Type 0 where
  bad : ℤ → Parsed
  names : (vol filename : List ℕ) → Parsed

-- The second loop, with `n` rounds left; `first` in the round of `i == 0`.
unfoldable pub parse_filename : ℕ → (first : Bool) → List ℕ → Result (Option (List ℕ))
parse_filename zero first path = ok none
parse_filename (suc n) first [] = fault
parse_filename (suc n) first (c ∷ path) =
    let rest = parse_filename n false path in
    let more = (do
      r ← rest
      elim r [ none ↦ ok none | some filename ↦ ok (some (c ∷ filename)) ]) in
    if c == 0 then ok (if first then none else some (0 ∷ [])) else more

-- How the first loop ends: at the `]`, before the rest of the path, or with an error.
pub data Volume : Type 0 where
  bad_volume : ℤ → Volume
  volume : List ℕ → List ℕ → Volume

unfoldable pub add_char : ℕ → Volume → Volume
add_char c (bad_volume e) = bad_volume e
add_char c (volume v path) = volume (c ∷ v) path

unfoldable pub parse_volume : ℕ → List ℕ → Result Volume
parse_volume zero path = ok (bad_volume vfs_invalid_params)
parse_volume (suc n) [] = fault
parse_volume (suc n) (c ∷ path) =
    let rest = (do v ← parse_volume n path; ok (add_char c v)) in
    if c == 0
    then ok (bad_volume vfs_error)
    else if c == 93
    then ok (volume (0 ∷ []) path)
    else rest

unfoldable pub parse_rest : List ℕ → List ℕ → Result Parsed
parse_rest vol path = do
  r ← parse_filename name_length true path
  elim r [ none ↦ ok (bad vfs_invalid_params) | some filename ↦ ok (names vol filename) ]

unfoldable pub vfs_parse_pathname : List ℕ → Result Parsed
vfs_parse_pathname [] = fault
vfs_parse_pathname (c ∷ path) =
    let with_volume = (do
      v ← parse_volume 15 path
      elim v [ bad_volume e ↦ ok (bad e) | volume vol rest ↦ parse_rest vol rest ]) in
    if c == 91 then with_volume else parse_rest (0 ∷ []) (c ∷ path)

unfoldable pub vfs_start_op : Vfs → ℤ × Vfs
vfs_start_op v =
    if v.vfs_usable then (vfs_ok, record v { vfs_ops = succ v.vfs_ops }) else (vfs_unusable, v)

unfoldable pub vfs_end_op : Vfs → Result Vfs
vfs_end_op v = do
  let left = prev v.vfs_ops
  kernel_assert (leb_ℤ (pos 0) left)
  let woken = if not v.vfs_usable && (left ==ℤ pos 0) then v.unmount_sem + 1 else v.unmount_sem
  ok (record v { vfs_ops = left; unmount_sem = woken })

-- The end of an operation that returns `r`.
abbrev pub end_with : {W : Type 0} → ℤ → Vfs → W → Result (ℤ × Vfs × W)
end_with r v w = do v' ← vfs_end_op v; ok (r, v', w)

-- The first row whose file system is NULL; the number of rows if there is none.
unfoldable pub free_row : List VfsEntry → ℕ
free_row [] = 0
free_row (e ∷ es) = let rest = suc (free_row es) in if e.filesystem == 0 then 0 else rest

unfoldable pub free_file : List OpenFile → ℕ
free_file [] = 0
free_file (f ∷ fs) = let rest = suc (free_file fs) in if f.filesystem == 0 then 0 else rest

unfoldable pub name_taken : List VfsEntry → List ℕ → Result Bool
name_taken [] name = ok false
name_taken (e ∷ es) name =
    let rest = name_taken es name in
    do r ← stringcmp e.mountpoint name; if r ==ℤ pos 0 then ok true else rest

-- The row of a mountpoint.
unfoldable pub find_row : List VfsEntry → List ℕ → Result (Option ℕ)
find_row [] name = ok none
find_row (e ∷ es) name =
    let rest = (do r ← find_row es name; elim r [ none ↦ ok none | some i ↦ ok (some (suc i)) ]) in
    do r ← stringcmp e.mountpoint name; if r ==ℤ pos 0 then ok (some 0) else rest

unfoldable pub has_open : List OpenFile → ℕ → Bool
has_open [] fs = false
has_open (f ∷ files) fs = let rest = has_open files fs in if f.filesystem == fs then true else rest

unfoldable pub vfs_verify_open : List OpenFile → ℤ → Result (Option (ℕ × OpenFile))
vfs_verify_open files (negsuc _) = ok none
vfs_verify_open files (pos file) =
    if leb max_open_files file
    then ok none
    else (do f ← read files file; ok (if f.filesystem == 0 then none else some (file, f)))
