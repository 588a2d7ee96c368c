-- ===== src/Vfs/Count.antt =====
-- The count of running operations, which the shutdown waits for.
use osm_re_exam.Prelude.{
  ℕ, suc, ◌≤◌, ◌≡◌, refl, sym, ap, ◌∙◌, ◌⊎◌, inl, inr, List, [], ◌∷◌, Bool, true, Option, none,
  some, arith, lt→ltb,
}
use osm_re_exam.Prelude.Int.{ℤ, pos, ltb_ℤ}
use osm_re_exam.Prelude.Result.{Result, ok, panic, fault, ◌>>=◌}
use osm_re_exam.Vfs.{vfs_not_open, Vfs, Fs, vfs_start_op, vfs_end_op, vfs_verify_open}
use osm_re_exam.Vfs.Calls.{
  vfs_mount, unmount_row, vfs_unmount, open_reserved, open_names, vfs_open, on_open, close_entry,
  vfs_close, seek_entry, vfs_seek, tell_entry, vfs_tell, advance, read_entry, vfs_read, write_entry,
  vfs_write, on_volume, vfs_create, vfs_remove, vfs_getfree, deinit_start,
}

-- The calls of the other parts of the kernel.
pub data Call : Type 0 where
  mount : ℕ → List ℕ → Call
  unmount : List ℕ → Call
  open_path : List ℕ → Call
  close_file : ℤ → Call
  seek_file : ℤ → ℤ → Call
  tell_file : ℤ → Call
  read_file : ℤ → Bool → ℤ → Call
  write_file : ℤ → Bool → List ℕ → ℤ → Call
  create_path : List ℕ → ℤ → Call
  remove_path : List ℕ → Call
  free_space : List ℕ → Call

-- The handle that a call works on.
abbrev pub handle : Call → Option ℤ
handle (close_file file) = some file
handle (seek_file file _) = some file
handle (tell_file file) = some file
handle (read_file file _ _) = some file
handle (write_file file _ _ _) = some file
handle (mount _ _) = none
handle (unmount _) = none
handle (open_path _) = none
handle (create_path _ _) = none
handle (remove_path _) = none
handle (free_space _) = none

unfoldable pub run : {W : Type 0} → (ℕ → Fs W) → Vfs → W → Call → Result (ℤ × Vfs × W)
run driver v w (mount fs name) = vfs_mount driver v w fs name
run driver v w (unmount name) = vfs_unmount driver v w name
run driver v w (open_path path) = vfs_open driver v w path
run driver v w (close_file file) = vfs_close driver v w file
run driver v w (seek_file file position) = vfs_seek driver v w file position
run driver v w (tell_file file) = vfs_tell driver v w file
run driver v w (read_file file no_buffer size) = do
  (out, bytes) ← vfs_read driver v w file no_buffer size
  ok out
run driver v w (write_file file no_buffer bytes size) =
    vfs_write driver v w file no_buffer bytes size
run driver v w (create_path path size) = vfs_create driver v w path size
run driver v w (remove_path path) = vfs_remove driver v w path
run driver v w (free_space volume) = vfs_getfree driver v w volume

module _ {W : Type 0} (driver : ℕ → Fs W) (v : Vfs) (n : ℕ) (w : W) where
  -- The operation has started, and has ended.
  abbrev Running : Vfs → Type 0
  Running v1 = (v1.vfs_ops ≡ pos (suc n)) × (v1.vfs_usable ≡ v.vfs_usable)

  abbrev pub Done : ℤ × Vfs × W → Type 0
  Done out = (out.1.vfs_ops ≡ pos n) × (out.1.vfs_usable ≡ v.vfs_usable)

  mount-Done :
      (fs : ℕ) (name : List ℕ) {out : ℤ × Vfs × W}
      → v.vfs_ops ≡ pos n
      → vfs_mount driver v w fs name ≡ ok out
      → Done out
  unfolding vfs_mount vfs_start_op vfs_end_op
  mount-Done fs name s e = ground arith

  unmount_row-Done :
      (v1 : Vfs) (row : Option ℕ) {out : ℤ × Vfs × W}
      → Running v1
      → unmount_row driver v1 w row ≡ ok out
      → Done out
  unfolding unmount_row vfs_end_op
  unmount_row-Done v1 row s e = ground arith

  unmount-Done :
      (name : List ℕ) {out : ℤ × Vfs × W}
      → v.vfs_ops ≡ pos n
      → vfs_unmount driver v w name ≡ ok out
      → Done out
  unfolding vfs_unmount vfs_start_op unmount_row vfs_end_op
  unmount-Done name s e = ground arith

  open_reserved-Done :
      (v1 : Vfs) (fs file : ℕ) (filename : List ℕ) {out : ℤ × Vfs × W}
      → Running v1
      → open_reserved driver v1 w fs file filename ≡ ok out
      → Done out
  unfolding open_reserved vfs_end_op
  open_reserved-Done v1 fs file filename s e = ground arith

  open_names-Done :
      (v1 : Vfs) (volume filename : List ℕ) {out : ℤ × Vfs × W}
      → Running v1
      → open_names driver v1 w volume filename ≡ ok out
      → Done out
  unfolding open_names open_reserved vfs_end_op
  open_names-Done v1 volume filename s e = ground arith

  open-Done :
      (path : List ℕ) {out : ℤ × Vfs × W}
      → v.vfs_ops ≡ pos n
      → vfs_open driver v w path ≡ ok out
      → Done out
  unfolding vfs_open vfs_start_op vfs_end_op open_names open_reserved
  open-Done path s e = ground arith

  create-Done :
      (path : List ℕ) (size : ℤ) {out : ℤ × Vfs × W}
      → v.vfs_ops ≡ pos n
      → vfs_create driver v w path size ≡ ok out
      → Done out
  unfolding vfs_create on_volume vfs_start_op vfs_end_op
  create-Done path size s e = ground arith

  remove-Done :
      (path : List ℕ) {out : ℤ × Vfs × W}
      → v.vfs_ops ≡ pos n
      → vfs_remove driver v w path ≡ ok out
      → Done out
  unfolding vfs_remove on_volume vfs_start_op vfs_end_op
  remove-Done path s e = ground arith

  getfree-Done :
      (volume : List ℕ) {out : ℤ × Vfs × W}
      → v.vfs_ops ≡ pos n
      → vfs_getfree driver v w volume ≡ ok out
      → Done out
  unfolding vfs_getfree on_volume vfs_start_op vfs_end_op
  getfree-Done volume s e = ground arith

  close-Counted :
      (file : ℤ) {out : ℤ × Vfs × W}
      → v.vfs_ops ≡ pos n
      → vfs_close driver v w file ≡ ok out
      → Done out
        ⊎ ((vfs_verify_open v.files file ≡ ok none) × (out.0 ≡ vfs_not_open) × Running out.1)
  unfolding vfs_close on_open close_entry vfs_start_op vfs_end_op
  close-Counted file s e = ground arith

  seek-Counted :
      (file position : ℤ) {out : ℤ × Vfs × W}
      → v.vfs_ops ≡ pos n
      → vfs_seek driver v w file position ≡ ok out
      → Done out
        ⊎ ((vfs_verify_open v.files file ≡ ok none) × (out.0 ≡ vfs_not_open) × Running out.1)
  unfolding vfs_seek on_open seek_entry vfs_start_op vfs_end_op
  seek-Counted file position s e = ground arith

  tell-Counted :
      (file : ℤ) {out : ℤ × Vfs × W}
      → v.vfs_ops ≡ pos n
      → vfs_tell driver v w file ≡ ok out
      → Done out
        ⊎ ((vfs_verify_open v.files file ≡ ok none) × (out.0 ≡ vfs_not_open) × Running out.1)
  unfolding vfs_tell on_open tell_entry vfs_start_op vfs_end_op
  tell-Counted file s e = ground arith

  read-Counted :
      (file : ℤ) (no_buffer : Bool) (size : ℤ) {out : (ℤ × Vfs × W) × List ℕ}
      → v.vfs_ops ≡ pos n
      → vfs_read driver v w file no_buffer size ≡ ok out
      → Done out.0
        ⊎ ((vfs_verify_open v.files file ≡ ok none) × (out.0.0 ≡ vfs_not_open) × Running out.0.1)
  unfolding vfs_read read_entry advance vfs_start_op vfs_end_op
  read-Counted file no_buffer size s e = ground arith

  write-Counted :
      (file : ℤ) (no_buffer : Bool) (bytes : List ℕ) (size : ℤ) {out : ℤ × Vfs × W}
      → v.vfs_ops ≡ pos n
      → vfs_write driver v w file no_buffer bytes size ≡ ok out
      → Done out
        ⊎ ((vfs_verify_open v.files file ≡ ok none) × (out.0 ≡ vfs_not_open) × Running out.1)
  unfolding vfs_write on_open write_entry advance vfs_start_op vfs_end_op
  write-Counted file no_buffer bytes size s e = ground arith

  -- The handle is not open, and the operation ends without being counted back.
  abbrev pub Leaked : Option ℤ → ℤ × Vfs × W → Type 0
  Leaked h out =
      (file : ℤ) × (h ≡ some file)
      × (vfs_verify_open v.files file ≡ ok none)
      × (out.0 ≡ vfs_not_open)
      × Running out.1

  leak :
      {h : Option ℤ} (out : ℤ × Vfs × W) (file : ℤ)
      → h ≡ some file
      → Done out
        ⊎ ((vfs_verify_open v.files file ≡ ok none) × (out.0 ≡ vfs_not_open) × Running out.1)
      → Done out ⊎ Leaked h out
  leak out file e (inl done) = inl done
  leak out file e (inr l) = inr (file, e, l.0, l.1, l.2)

  read_out :
      (r : Result ((ℤ × Vfs × W) × List ℕ)) {out : ℤ × Vfs × W}
      → (do (o, bytes) ← r; ok o) ≡ ok out
      → (x : (ℤ × Vfs × W) × List ℕ) × (r ≡ ok x) × (x.0 ≡ out)
  read_out (ok x) e = (x, refl, cc)
  read_out panic e = cc
  read_out fault e = cc

  -- Any call of the virtual file system that returns leaves `vfs_usable` as it was, and leaves the count
  -- of running operations as it was, unless it is given a handle that is not open: then it
  -- returns VFS_NOT_OPEN, and the count is one more.
  pub run-Counted :
      (c : Call) {out : ℤ × Vfs × W}
      → v.vfs_ops ≡ pos n
      → run driver v w c ≡ ok out
      → Done out ⊎ Leaked (handle c) out
  unfolding run
  run-Counted (mount fs name) s e = inl (mount-Done fs name s e)
  run-Counted (unmount name) s e = inl (unmount-Done name s e)
  run-Counted (open_path path) s e = inl (open-Done path s e)
  run-Counted (close_file file) {out} s e = leak out file refl (close-Counted file s e)
  run-Counted (seek_file file position) {out} s e =
      leak out file refl (seek-Counted file position s e)
  run-Counted (tell_file file) {out} s e = leak out file refl (tell-Counted file s e)
  run-Counted (read_file file no_buffer size) {out} s e =
      let (x, at, is) = read_out (vfs_read driver v w file no_buffer size) e in
      leak out file refl (rw is at (read-Counted file no_buffer size s at))
  run-Counted (write_file file no_buffer bytes size) {out} s e =
      leak out file refl (write-Counted file no_buffer bytes size s e)
  run-Counted (create_path path size) s e = inl (create-Done path size s e)
  run-Counted (remove_path path) s e = inl (remove-Done path s e)
  run-Counted (free_space volume) s e = inl (getfree-Done volume s e)

-- Calls one after the other.
unfoldable pub run_all : {W : Type 0} → (ℕ → Fs W) → Vfs → W → List Call → Result (Vfs × W)
run_all driver v w [] = ok (v, w)
run_all driver v w (c ∷ cs) = do (ret, v', w') ← run driver v w c; run_all driver v' w' cs

pub run_all-first :
    {W : Type 0} (driver : ℕ → Fs W) (r : Result (ℤ × Vfs × W)) (cs : List Call) {out : Vfs × W}
    → (do (ret, v', w') ← r; run_all driver v' w' cs) ≡ ok out
    → (x : ℤ × Vfs × W) × (r ≡ ok x) × (run_all driver x.1 x.2 cs ≡ ok out)
run_all-first driver (ok x) cs e = (x, refl, e)
run_all-first driver panic cs e = cc
run_all-first driver fault cs e = cc

-- No sequence of calls that return makes the count smaller.
run_all_count :
    {W : Type 0} (driver : ℕ → Fs W) (v : Vfs) (n : ℕ) (w : W) (cs : List Call) {out : Vfs × W}
    → v.vfs_ops ≡ pos n
    → run_all driver v w cs ≡ ok out
    → (m : ℕ) × (out.0.vfs_ops ≡ pos m) × (n ≤ m)
unfolding run_all
run_all_count driver v n w [] {out} s e =
    let same : v ≡ out.0 = cc in (n, sym (ap (λ x. x.vfs_ops) same) ∙ s, omega arith)
run_all_count driver v n w (c ∷ cs) s e =
    let (x, at, next) = run_all-first driver (run driver v w c) cs e in
    elim (run-Counted driver v n w c s at) [
      | inl done ↦ run_all_count driver (x.1) n (x.2) cs done.0 next
      | inr l ↦
          let (m, is, le) = run_all_count driver (x.1) (suc n) (x.2) cs l.4.0 next in
          (m, is, omega arith)
    ]

-- Closing a handle that is not open, in a usable virtual file system with no operation running, returns
-- VFS_NOT_OPEN; and whatever calls return after it, `vfs_deinit` finds a running operation and
-- waits for it.
pub vfs_close-deinit_waits :
    {W : Type 0} (driver : ℕ → Fs W) (v : Vfs) (w : W) (file : ℤ)
    → v.vfs_usable ≡ true
    → v.vfs_ops ≡ pos 0
    → vfs_verify_open v.files file ≡ ok none
    → (v' : Vfs) × (vfs_close driver v w file ≡ ok (vfs_not_open, v', w))
      × ((cs : List Call) (out : Vfs × W)
          → run_all driver v' w cs ≡ ok out
          → (deinit_start (out.0)).0 ≡ true)
unfolding vfs_close on_open vfs_start_op deinit_start
vfs_close-deinit_waits {W} driver v w file usable idle closed =
    (record v { vfs_ops = pos 1 }, ground arith, λ cs out e. waits cs out e)
  where
    waits :
        (cs : List Call) (out : Vfs × W)
        → run_all driver (record v { vfs_ops = pos 1 }) w cs ≡ ok out
        → ltb_ℤ (pos 0) out.0.vfs_ops ≡ true
    waits cs out e =
        let (m, is, le) = run_all_count driver (record v { vfs_ops = pos 1 }) 1 w cs refl e in
        rw is (lt→ltb 0 m le)
