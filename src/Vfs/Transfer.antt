-- ===== src/Vfs/Transfer.antt =====
-- Reads and writes on an open file (buenos/fs/vfs.c), for a driver that transfers some bytes.
use osm_re_exam.Prelude.{ℕ, suc, ◌<◌, ◌≡◌, List, true, false, some, arith, length, set}
use osm_re_exam.Prelude.Int.{ℤ, pos}
use osm_re_exam.Prelude.Result.{ok, read-ok, write-ok}
use osm_re_exam.Vfs.{vfs_ok, OpenFile, Vfs, Fs, vfs_start_op, vfs_end_op, vfs_verify_open}
use osm_re_exam.Vfs.Files.{no_file, file_at}
use osm_re_exam.Vfs.Calls.{
  add, on_open, seek_entry, vfs_seek, advance, read_entry, vfs_read, write_entry, vfs_write,
}

-- The state with the position of handle `i` changed.
abbrev pub at_position : Vfs → ℕ → OpenFile → ℤ → Vfs
at_position v i f position = record v {
  files = set v.files i (record f { seek_position = position });
}

pub verify_open-file_at :
    (files : List OpenFile) (i : ℕ) (f : OpenFile)
    → i < length files
    → vfs_verify_open files (pos i) ≡ ok (some (i, f))
    → file_at files i ≡ f
unfolding vfs_verify_open
verify_open-file_at files i f h found = ground (arith, read-ok files i no_file h)

module _ {W : Type 0} (driver : ℕ → Fs W) (v : Vfs) (w w' : W) (i n m : ℕ) (f : OpenFile)
    (usable : v.vfs_usable ≡ true) (count : v.vfs_ops ≡ pos n) (h : i < length v.files)
    (found : vfs_verify_open v.files (pos i) ≡ ok (some (i, f))) where
  pub vfs_write_lem :
      (bytes : List ℕ) (size : ℕ)
      → (driver f.filesystem).write_file w f.fileid bytes (pos size) f.seek_position
        ≡ ok (pos (suc m), w')
      → vfs_write driver v w (pos i) false bytes (pos size)
        ≡ ok (pos (suc m), at_position v i f (add f.seek_position (suc m)), w')
  unfolding vfs_write on_open write_entry advance vfs_start_op vfs_end_op
  vfs_write_lem bytes size e =
      let same = verify_open-file_at v.files i f h found in
      let moved : OpenFile = record f { seek_position = add f.seek_position (suc m) } in
      ground (arith, read-ok v.files i no_file h, write-ok v.files i moved h)

  pub vfs_read_lem :
      (bytes : List ℕ) (size : ℕ)
      → (driver f.filesystem).read_file w f.fileid (pos size) f.seek_position
        ≡ ok (pos (suc m), bytes, w')
      → vfs_read driver v w (pos i) false (pos size)
        ≡ ok ((pos (suc m), at_position v i f (add f.seek_position (suc m)), w'), bytes)
  unfolding vfs_read read_entry advance vfs_start_op vfs_end_op
  vfs_read_lem bytes size e =
      let same = verify_open-file_at v.files i f h found in
      let moved : OpenFile = record f { seek_position = add f.seek_position (suc m) } in
      ground (arith, read-ok v.files i no_file h, write-ok v.files i moved h)

  pub vfs_seek_lem :
      (position : ℕ)
      → vfs_seek driver v w (pos i) (pos position)
        ≡ ok (vfs_ok, at_position v i f (pos position), w)
  unfolding vfs_seek on_open seek_entry vfs_start_op vfs_end_op
  vfs_seek_lem position =
      let moved : OpenFile = record f { seek_position = pos position } in
      ground (arith, write-ok v.files i moved h)
