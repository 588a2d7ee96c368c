-- ===== src/Vfs/Files.antt =====
-- Handles of open files.
use osm_re_exam.Prelude.{
  ℕ, zero, suc, ◌<◌, ◌≡◌, refl, ◌≢◌, sym, ◌∙◌, List, [], ◌∷◌, true, some, arith, inl, inr, ◌==◌,
  length, get_or, set, ==→eq, ==→ne, Bool-cases, get_or-set_self, get_or-set_ne, length-set,
}
use osm_re_exam.Prelude.Int.{pos}
use osm_re_exam.Prelude.Result.{ok, read-ok, write-ok, Yields, yields}
use osm_re_exam.Vfs.{
  vfs_ok, OpenFile, Vfs, Fs, names, vfs_parse_pathname, vfs_get_filesystem, vfs_start_op,
  vfs_end_op, vfs_verify_open, free_file, max_open_files,
}
use osm_re_exam.Vfs.Calls.{
  set_file, open_reserved, open_names, vfs_open, on_open, seek_entry, vfs_seek, tell_entry,
  vfs_tell,
}

abbrev pub no_file : OpenFile
no_file = record { filesystem = 0; fileid = pos 0; seek_position = pos 0 }

abbrev pub file_at : List OpenFile → ℕ → OpenFile
file_at files i = get_or files i no_file

-- The first entry that is free.
pub record FirstFree (files : List OpenFile) (i : ℕ) : Type 0 where
  pub within : i < length files
  pub free : (file_at files i).filesystem ≡ 0
  pub first : (q : ℕ) → q < i → (file_at files q).filesystem ≢ 0

free_file-FirstFree :
    (files : List OpenFile) → free_file files < length files → FirstFree files (free_file files)
unfolding free_file
free_file-FirstFree [] h = absurd (omega arith)
free_file-FirstFree (f ∷ fs) h = elim (Bool-cases (f.filesystem == 0)) [
  | inl free ↦
      rw free (record {
        within = omega arith;
        free = ==→eq _ 0 free;
        first = λ q l. absurd (omega arith);
      })
  | inr used ↦
      let h' = rw used at h in
      rw used (step (free_file-FirstFree fs (omega arith)) (==→ne _ 0 used))
]
  where
    step : FirstFree fs (free_file fs) → f.filesystem ≢ 0 → FirstFree (f ∷ fs) (suc (free_file fs))
    step r used = record { within = omega (arith, r.within); free = r.free; first = before }
      where
        before : (q : ℕ) → q < suc (free_file fs) → (file_at (f ∷ fs) q).filesystem ≢ 0
        before zero l = used
        before (suc q) l = r.first q (omega arith)

-- A file that was opened: its entry, the first free one before, is at the start of the file, and the
-- rest of the state is as it was.
pub record Opened (v : Vfs) (fs : ℕ) (fileid : ℕ) (file : ℕ) (v' : Vfs) : Type 0 where
  pub first : FirstFree v.files file
  pub entry :
      file_at v'.files file ≡ record { filesystem = fs; fileid = pos fileid; seek_position = pos 0 }
  pub others : (q : ℕ) → q ≢ file → file_at v'.files q ≡ file_at v.files q
  pub mounts : v'.filesystems ≡ v.filesystems
  pub count : v'.vfs_ops ≡ v.vfs_ops

set_file-ok :
    (files : List OpenFile) (i fs : ℕ)
    → i < length files
    → set_file files i fs ≡ ok (set files i (record (file_at files i) { filesystem = fs }))
unfolding set_file
set_file-ok files i fs h = rw (read-ok files i no_file h, write-ok files i _ h)

-- In a usable virtual file system with a free entry, for a path that names a file of a mounted volume
-- whose driver opens it, `vfs_open` returns the number of the first free entry; that entry then holds
-- the file system and the id of the driver, at position 0, and no other entry has changed.
vfs_open-Opened :
    {W : Type 0} (driver : ℕ → Fs W) (v : Vfs) (w w' : W) (path volume filename : List ℕ)
    (n fs fileid : ℕ)
    → v.vfs_usable ≡ true
    → v.vfs_ops ≡ pos n
    → length v.files ≡ max_open_files
    → free_file v.files < max_open_files
    → vfs_parse_pathname path ≡ ok (names volume filename)
    → vfs_get_filesystem v.filesystems volume ≡ ok fs
    → fs ≢ 0
    → (driver fs).open_file w filename ≡ ok (pos fileid, w')
    → Yields
        (λ out.
          (out.0 ≡ pos (free_file v.files))
          × Opened v fs fileid (free_file v.files) out.1
          × (out.2 ≡ w'))
        (vfs_open driver v w path)
unfolding vfs_open vfs_start_op vfs_end_op open_names open_reserved
vfs_open-Opened driver v w w' path volume filename n fs fileid usable count size room parsed mounted
      real opened =
    let i = free_file v.files in
    let h : i < length v.files = omega arith in
    let reserved = record (file_at v.files i) { filesystem = fs } in
    let h' : i < length (set v.files i reserved) = omega (arith, length-set v.files i reserved) in
    let entry : OpenFile = record { filesystem = fs; fileid = pos fileid; seek_position = pos 0 } in
    let first = free_file-FirstFree v.files h in
    let v' : Vfs = record v { files = set (set v.files i reserved) i entry } in
    let done : vfs_open driver v w path ≡ ok (pos i, v', w') = ground (
      arith,
      set_file-ok v.files i fs h,
      read-ok (set v.files i reserved) i no_file h',
      get_or-set_self v.files i reserved no_file h,
      write-ok (set v.files i reserved) i entry h',
    ) in
    rw done (
      yields (
        refl,
        record {
          first = first;
          entry = get_or-set_self (set v.files i reserved) i entry no_file h';
          others = λ q ne.
              get_or-set_ne (set v.files i reserved) i q entry no_file (λ e. ne (sym e))
              ∙ get_or-set_ne v.files i q reserved no_file (λ e. ne (sym e));
          mounts = refl;
          count = refl;
        },
        refl,
      ))

pub verify_open-moved :
    (files : List OpenFile) (i position : ℕ) (f : OpenFile)
    → i < length files
    → vfs_verify_open files (pos i) ≡ ok (some (i, f))
    → vfs_verify_open (set files i (record f { seek_position = pos position })) (pos i)
      ≡ ok (some (i, record f { seek_position = pos position }))
unfolding vfs_verify_open
verify_open-moved files i position f h found =
    let moved : OpenFile = record f { seek_position = pos position } in
    let h' : i < length (set files i moved) = omega (arith, length-set files i moved) in
    ground (
      arith,
      read-ok files i no_file h,
      read-ok (set files i moved) i no_file h',
      get_or-set_self files i moved no_file h,
    )

-- After a seek to a position on an open handle, the tell of this handle returns that position.
pub vfs_seek-tell :
    {W : Type 0} (driver : ℕ → Fs W) (v : Vfs) (w : W) (i n position : ℕ) (f : OpenFile)
    → v.vfs_usable ≡ true
    → v.vfs_ops ≡ pos n
    → vfs_verify_open v.files (pos i) ≡ ok (some (i, f))
    → i < length v.files
    → (v' : Vfs) × (vfs_seek driver v w (pos i) (pos position) ≡ ok (vfs_ok, v', w))
      × (vfs_tell driver v' w (pos i) ≡ ok (pos position, v', w))
unfolding vfs_seek vfs_tell on_open seek_entry tell_entry vfs_start_op vfs_end_op
vfs_seek-tell driver v w i n position f usable count found h =
    let moved : OpenFile = record f { seek_position = pos position } in
    let v' : Vfs = record v { files = set v.files i moved } in
    (
      v',
      ground (arith, write-ok v.files i moved h),
      ground (arith, verify_open-moved v.files i position f h found),
    )
