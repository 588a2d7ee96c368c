-- ===== src/Vfs/Unusable.antt =====
-- Calls of the virtual file system once the shutdown has begun (buenos/fs/vfs.c).
use osm_re_exam.Prelude.{◌≡◌, ap, ◌∙◌, false, arith, ℕ, List, [], ◌∷◌}
use osm_re_exam.Prelude.Int.{ℤ}
use osm_re_exam.Prelude.Result.{ok}
use osm_re_exam.Vfs.{Vfs, Fs, vfs_start_op}
use osm_re_exam.Vfs.Calls.{
  vfs_mount, vfs_unmount, vfs_open, vfs_close, vfs_seek, vfs_tell, vfs_read, vfs_write, vfs_create,
  vfs_remove, vfs_getfree,
}
use osm_re_exam.Vfs.Count.{
  Call, mount, unmount, open_path, close_file, seek_file, tell_file, read_file, write_file,
  create_path, remove_path, free_space, run, run_all, run_all-first,
}

module _ {W : Type 0} (driver : ℕ → Fs W) where
  -- Calls that return leave an unusable virtual file system as it is.
  pub run-unusable :
      (v : Vfs) (w : W) (c : Call) {out : ℤ × Vfs × W}
      → v.vfs_usable ≡ false
      → run driver v w c ≡ ok out
      → (out.1 ≡ v) × (out.2 ≡ w)
  unfolding run vfs_start_op vfs_mount vfs_unmount vfs_open vfs_close vfs_seek vfs_tell vfs_read
      vfs_write vfs_create vfs_remove vfs_getfree
  run-unusable v w (mount fs name) u e = ground arith
  run-unusable v w (unmount name) u e = ground arith
  run-unusable v w (open_path path) u e = ground arith
  run-unusable v w (close_file file) u e = ground arith
  run-unusable v w (seek_file file position) u e = ground arith
  run-unusable v w (tell_file file) u e = ground arith
  run-unusable v w (read_file file no_buffer size) u e = ground arith
  run-unusable v w (write_file file no_buffer bytes size) u e = ground arith
  run-unusable v w (create_path path size) u e = ground arith
  run-unusable v w (remove_path path) u e = ground arith
  run-unusable v w (free_space volume) u e = ground arith

  pub run_all-unusable :
      (v : Vfs) (w : W) (cs : List Call) {out : Vfs × W}
      → v.vfs_usable ≡ false
      → run_all driver v w cs ≡ ok out
      → (out.0 ≡ v) × (out.1 ≡ w)
  unfolding run_all
  run_all-unusable v w [] {out} u e = ground arith
  run_all-unusable v w (c ∷ cs) {out} u e =
      let (x, at, next) = run_all-first driver (run driver v w c) cs e in
      let (same, same_w) = run-unusable v w c u at in
      let (rest, rest_w) = run_all-unusable (x.1) (x.2) cs (ap (λ y. y.vfs_usable) same ∙ u) next in
      (rest ∙ same, rest_w ∙ same_w)
