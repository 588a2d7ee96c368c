-- ===== src/Vfs/Mount.antt =====
-- Mounting and unmounting of volumes.
use osm_re_exam.Prelude.{
  ℕ, zero, suc, ◌≤◌, ◌<◌, ◌≡◌, refl, ◌≢◌, List, [], ◌∷◌, true, Option, none, some, arith, length,
  get_or, set,
}
use osm_re_exam.Prelude.Int.{pos}
use osm_re_exam.Prelude.Result.{Result, ok, panic, fault, read, read-ok, write-ok}
use osm_re_exam.Vfs.{
  vfs_ok, vfs_error, VfsEntry, Vfs, Fs, vfs_start_op, vfs_end_op, free_row, name_taken, find_row,
  max_filesystems,
}
use osm_re_exam.Vfs.Calls.{set_row, unmount_row, vfs_mount, vfs_unmount}

abbrev pub no_entry : VfsEntry
no_entry = record { filesystem = 0; mountpoint = [] }

abbrev pub row_at : List VfsEntry → ℕ → VfsEntry
row_at es i = get_or es i no_entry

-- The rows with row `i` free; its mountpoint stays.
abbrev pub freed : List VfsEntry → ℕ → List VfsEntry
freed es i = set es i (record (row_at es i) { filesystem = 0 })

find_row_lt :
    (es : List VfsEntry) (name : List ℕ) (i : ℕ) → find_row es name ≡ ok (some i) → i < length es
unfolding find_row
find_row_lt [] name i e = ground arith
find_row_lt (r ∷ es) name zero e = omega arith
find_row_lt (r ∷ es) name (suc i) e = ground (arith, find_row_lt es name i)

name_taken-freed :
    (es : List VfsEntry) (name : List ℕ) (i : ℕ)
    → find_row es name ≡ ok (some i)
    → name_taken (freed es i) name ≡ ok true
unfolding find_row name_taken
name_taken-freed [] name i e = ground arith
name_taken-freed (r ∷ es) name zero e = ground arith
name_taken-freed (r ∷ es) name (suc i) e = ground (arith, name_taken-freed es name i)

free_row-freed : (es : List VfsEntry) (i : ℕ) → i < length es → free_row (freed es i) ≤ i
unfolding free_row
free_row-freed [] i h = absurd (omega arith)
free_row-freed (r ∷ es) zero h = omega arith
free_row-freed (r ∷ es) (suc i) h = ground (arith, free_row-freed es i)

module _ {W : Type 0} (driver : ℕ → Fs W) (v v' : Vfs) (w w' : W) (name : List ℕ) (n : ℕ) where
  -- What a successful unmount has done.
  record Unmounted (i : ℕ) : Type 0 where
    found : find_row v.filesystems name ≡ ok (some i)
    rows : v'.filesystems ≡ freed v.filesystems i
    usable : v'.vfs_usable ≡ true
    count : v'.vfs_ops ≡ pos n

  set_row-ok : (es : List VfsEntry) (i : ℕ) → i < length es → set_row es i 0 ≡ ok (freed es i)
  unfolding set_row
  set_row-ok es i h = rw (read-ok es i no_entry h, write-ok es i _ h)

  unmount-Unmounted :
      v.vfs_ops ≡ pos n → vfs_unmount driver v w name ≡ ok (vfs_ok, v', w') → (i : ℕ) × Unmounted i
  unfolding vfs_unmount unmount_row vfs_start_op vfs_end_op
  unmount-Unmounted count e = cases (find_row v.filesystems name) refl
    where
      cases : (r : Result (Option ℕ)) → find_row v.filesystems name ≡ r → (i : ℕ) × Unmounted i
      cases panic at = ground arith
      cases fault at = ground arith
      cases (ok none) at = ground arith
      cases (ok (some i)) at =
          let set_ok = set_row-ok v.filesystems i (find_row_lt v.filesystems name i at) in
          (
            i,
            record { found = at; rows = ground arith; usable = ground arith; count = ground arith },
          )

  -- Once a volume was unmounted, a mount of any file system under its name fails with VFS_ERROR and
  -- changes nothing, since the mountpoint stays in the row that was freed. The name is not empty and
  -- the table has CONFIG_MAX_FILESYSTEMS rows.
  pub vfs_unmount-mount :
      (c fs : ℕ) (w'' : W)
      → length v.filesystems ≡ max_filesystems
      → v.vfs_ops ≡ pos n
      → read name 0 ≡ ok c
      → c ≢ 0
      → vfs_unmount driver v w name ≡ ok (vfs_ok, v', w')
      → vfs_mount driver v' w'' fs name ≡ ok (vfs_error, v', w'')
  unfolding vfs_mount vfs_start_op vfs_end_op
  vfs_unmount-mount c fs w'' size count first proper e =
      let (i, u) = unmount-Unmounted count e in
      let h = find_row_lt v.filesystems name i u.found in
      let taken : name_taken v'.filesystems name ≡ ok true =
        rw u.rows (name_taken-freed v.filesystems name i u.found) in
      let free : free_row v'.filesystems ≤ i = rw u.rows (free_row-freed v.filesystems i h) in
      ground (arith, u.usable, u.count)
