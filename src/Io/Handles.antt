-- ===== src/Io/Handles.antt =====
-- Handles of a process and the shutdown (buenos/proc/io.c).
use osm_re_exam.Prelude.{
  ℕ, suc, ◌≡◌, refl, List, true, false, Option, some, arith, ◌⊎◌, inl, inr, Bool-cases,
}
use osm_re_exam.Prelude.Int.{ℤ, pos, minus_one}
use osm_re_exam.Prelude.Result.{Result, ok, panic, fault}
use osm_re_exam.Process.{process_remove_file, process_has_open_file}
use osm_re_exam.Vfs.{vfs_not_open, OpenFile, Vfs, Fs, vfs_verify_open}
use osm_re_exam.Vfs.Calls.{vfs_close, deinit_start}
use osm_re_exam.Vfs.Count.{
  Call, close_file, run, run_all, Done, Leaked, run-Counted, vfs_close-deinit_waits,
}
use osm_re_exam.Vfs.Unusable.{run_all-unusable}
use osm_re_exam.Io.{Gcd, io_close}

module _ {W : Type 0} (driver : ℕ → Fs W) (tty : Option (Gcd W)) (files : List ℤ) (v : Vfs)
    (w : W) where
  -- Any process that has a free entry for a file can close the handle 2, in a usable virtual file system
  -- with no operation running: the call returns VFS_NOT_OPEN, and whatever calls return after it,
  -- `vfs_deinit` finds a running operation and waits for it; and whatever calls return during that wait
  -- leave the virtual file system as it is, so that none of them wakes the shutdown.
  pub io_close-deinit_waits :
      v.vfs_usable ≡ true
      → v.vfs_ops ≡ pos 0
      → process_has_open_file files minus_one ≡ true
      → (files' : List ℤ) × (v' : Vfs) × (io_close driver tty files v w (pos 2)
          ≡ ok (vfs_not_open, files', v', w))
        × ((cs : List Call) (out : Vfs × W)
            → run_all driver v' w cs ≡ ok out
            → ((deinit_start (out.0)).0 ≡ true)
              × ((later : List Call) (end : Vfs × W)
                  → run_all driver ((deinit_start (out.0)).1) (out.1) later ≡ ok end
                  → end.0 ≡ (deinit_start (out.0)).1))
  unfolding io_close vfs_verify_open deinit_start
  io_close-deinit_waits usable idle free =
      let (v', e, waits) = vfs_close-deinit_waits driver v w minus_one usable idle refl in
      (
        (process_remove_file files minus_one).0,
        v',
        rw (free, e) refl,
        λ cs out q. (
          waits cs out q,
          λ later end r.
              (run_all-unusable driver (record (out.0) { vfs_usable = false }) (out.1) later refl
                r).0,
        ),
      )

  -- The open files of the process are open in the virtual file system.
  abbrev pub Owned : Type 0
  Owned =
      (h : ℕ)
      → process_has_open_file files (pos h) ≡ true
      → (e : ℕ × OpenFile) × (vfs_verify_open v.files (pos h) ≡ ok (some e))

  -- For a process whose files are open in the virtual file system, a close of any handle from 3 on that
  -- returns leaves the count of running operations as it was.
  pub io_close-Done :
      (n h : ℕ) {out : ℤ × List ℤ × Vfs × W}
      → Owned
      → v.vfs_ops ≡ pos n
      → io_close driver tty files v w (pos (suc (suc (suc h)))) ≡ ok out
      → (out.2.vfs_ops ≡ pos n) × (out.2.vfs_usable ≡ v.vfs_usable)
  unfolding io_close run
  io_close-Done n h {out} owned count e = elim (Bool-cases (process_has_open_file files (pos h))) [
    | inr other ↦ closed_elsewhere other
    | inl own ↦ closed own (vfs_close driver v w (pos h)) refl
  ]
    where
      closed_elsewhere :
          process_has_open_file files (pos h) ≡ false
          → (out.2.vfs_ops ≡ pos n) × (out.2.vfs_usable ≡ v.vfs_usable)
      closed_elsewhere other = ground arith

      balanced :
          (x : ℤ × Vfs × W)
          → process_has_open_file files (pos h) ≡ true
          → Done driver v n w x ⊎ Leaked driver v n w (some (pos h)) x
          → Done driver v n w x
      balanced x own (inl done) = done
      balanced x own (inr l) =
          let (entry, is) = owned h own in let (f, same, none_open, _, _) = l in cc

      closed :
          process_has_open_file files (pos h) ≡ true
          → (r : Result (ℤ × Vfs × W)) → vfs_close driver v w (pos h) ≡ r
          → (out.2.vfs_ops ≡ pos n) × (out.2.vfs_usable ≡ v.vfs_usable)
      closed own panic at = ground arith
      closed own fault at = ground arith
      closed own (ok x) at =
          let done = balanced x own (run-Counted driver v n w (close_file (pos h)) count at) in
          ground arith
