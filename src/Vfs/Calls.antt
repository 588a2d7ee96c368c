-- ===== src/Vfs/Calls.antt =====
-- buenos/fs/vfs.c: the operations that the rest of the kernel calls. Each returns its value, the tables
-- and the state of the drivers.
use osm_re_exam.Prelude.{
  ℕ, zero, suc, ◌+◌, ◌-◌, List, [], ◌∷◌, Bool, false, not, ◌||◌, Option, none, some, ◌==◌,
  if◌then◌else◌, leb,
}
use osm_re_exam.Prelude.Int.{ℤ, pos, negsuc, ◌==ℤ◌, ltb_ℤ, leb_ℤ}
use osm_re_exam.Prelude.Result.{Result, ok, ◌>>=◌, ◌>>◌, kernel_assert, read, write}
use osm_re_exam.Libc.{stringcopy}
use osm_re_exam.Vfs.{
  max_filesystems, max_open_files, vfs_ok, vfs_error, vfs_invalid_params, vfs_not_open,
  vfs_not_found, vfs_no_such_fs, vfs_limit, vfs_in_use, vfs_unusable, VfsEntry, OpenFile, Vfs, Fs,
  vfs_get_filesystem, bad, names, vfs_parse_pathname, vfs_start_op, end_with, free_row, free_file,
  name_taken, find_row, has_open, vfs_verify_open, name_length,
}

-- The sum of two int values.
abbrev pub add : ℤ → ℕ → ℤ
add (pos a) b = pos (a + b)
add (negsuc a) zero = negsuc a
add (negsuc zero) (suc b) = pos b
add (negsuc (suc a)) (suc b) = add (negsuc a) b

-- A list of rows with the file system of row `i` changed.
unfoldable pub set_row : List VfsEntry → ℕ → ℕ → Result (List VfsEntry)
set_row es i fs = do e ← read es i; write es i (record e { filesystem = fs })

unfoldable pub set_file : List OpenFile → ℕ → ℕ → Result (List OpenFile)
set_file files i fs = do f ← read files i; write files i (record f { filesystem = fs })

-- `vfs_deinit` up to the wait: the flag says whether it waits for `vfs_unmount_sem`.
unfoldable pub deinit_start : Vfs → Bool × Vfs
deinit_start v = (ltb_ℤ (pos 0) v.vfs_ops, record v { vfs_usable = false })

module _ {W : Type 0} (driver : ℕ → Fs W) where
  -- `vfs_mount`, whose name is a string that is not empty.
  unfoldable pub vfs_mount : Vfs → W → ℕ → List ℕ → Result (ℤ × Vfs × W)
  vfs_mount v w fs name = do
    c ← read name 0
    kernel_assert (not (c == 0))
    let (ret, v1) = vfs_start_op v
    let row = free_row v1.filesystems
    let mount = do
      taken ← name_taken v1.filesystems name
      let new = do
        e ← read v1.filesystems row
        mountpoint ← stringcopy e.mountpoint name (pos name_length)
        filesystems ← write v1.filesystems row (record { filesystem = fs; mountpoint = mountpoint })
        end_with vfs_ok (record v1 { filesystems = filesystems }) w
      if taken then end_with vfs_error v1 w else new
    let limited = if leb max_filesystems row then end_with vfs_limit v1 w else mount
    if not (ret ==ℤ vfs_ok) then ok (vfs_unusable, v1, w) else limited

  -- `vfs_unmount` on the row that it found.
  unfoldable pub unmount_row : Vfs → W → Option ℕ → Result (ℤ × Vfs × W)
  unmount_row v w none = end_with vfs_not_found v w
  unmount_row v w (some row) = do
    e ← read v.filesystems row
    let release = do
      (ret, w') ← (driver e.filesystem).unmount w
      filesystems ← set_row v.filesystems row 0
      end_with vfs_ok (record v { filesystems = filesystems }) w'
    if e.filesystem == 0
        then end_with vfs_not_found v w
        else if has_open v.files e.filesystem
        then end_with vfs_in_use v w
        else release

  unfoldable pub vfs_unmount : Vfs → W → List ℕ → Result (ℤ × Vfs × W)
  vfs_unmount v w name = do
    let (ret, v1) = vfs_start_op v
    let found = do row ← find_row v1.filesystems name; unmount_row v1 w row
    if not (ret ==ℤ vfs_ok) then ok (vfs_unusable, v1, w) else found

  -- The part of `vfs_open` from the call of the driver on, for the reserved entry `file`.
  unfoldable pub open_reserved : Vfs → W → ℕ → ℕ → List ℕ → Result (ℤ × Vfs × W)
  open_reserved v w fs file filename = do
    (fileid, w') ← (driver fs).open_file w filename
    let failed = do files ← set_file v.files file 0; end_with fileid (record v { files = files }) w'
    let opened = do
      f ← read v.files file
      files ← write v.files file (record f { fileid = fileid; seek_position = pos 0 })
      end_with (pos file) (record v { files = files }) w'
    if ltb_ℤ fileid (pos 0) then failed else opened

  -- `vfs_open` once the names are known.
  unfoldable pub open_names : Vfs → W → List ℕ → List ℕ → Result (ℤ × Vfs × W)
  open_names v w volume filename = do
    let file = free_file v.files
    let reserve = do
      fs ← vfs_get_filesystem v.filesystems volume
      let go_on = do
        files ← set_file v.files file fs
        open_reserved (record v { files = files }) w fs file filename
      if fs == 0 then end_with vfs_no_such_fs v w else go_on
    if leb max_open_files file then end_with vfs_limit v w else reserve

  unfoldable pub vfs_open : Vfs → W → List ℕ → Result (ℤ × Vfs × W)
  vfs_open v w pathname = do
    let (ret, v1) = vfs_start_op v
    let parsed = do
      p ← vfs_parse_pathname pathname
      elim p [
        | bad e ↦ end_with vfs_invalid_params v1 w
        | names volume filename ↦ open_names v1 w volume filename
      ]
    if not (ret ==ℤ vfs_ok) then ok (vfs_unusable, v1, w) else parsed

  -- The operations on an open file: `act` is what the operation does with the entry. They return
  -- at once, without `vfs_end_op`, if the file is not open.
  unfoldable pub on_open :
      Vfs → W → ℤ → (Vfs → ℕ → OpenFile → Result (ℤ × Vfs × W)) → Result (ℤ × Vfs × W)
  on_open v w file act = do
    o ← vfs_verify_open v.files file
    elim o [ none ↦ ok (vfs_not_open, v, w) | some entry ↦ act v (entry.0) (entry.1) ]

  unfoldable pub close_entry : W → Vfs → ℕ → OpenFile → Result (ℤ × Vfs × W)
  close_entry w v i f = do
    (ret, w') ← (driver f.filesystem).close w f.fileid
    files ← set_file v.files i 0
    end_with ret (record v { files = files }) w'

  unfoldable pub vfs_close : Vfs → W → ℤ → Result (ℤ × Vfs × W)
  vfs_close v w file =
      let (ret, v1) = vfs_start_op v in
      if not (ret ==ℤ vfs_ok) then ok (vfs_unusable, v1, w) else on_open v1 w file (close_entry w)

  unfoldable pub seek_entry : W → ℤ → Vfs → ℕ → OpenFile → Result (ℤ × Vfs × W)
  seek_entry w seek_position v i f = do
    files ← write v.files i (record f { seek_position = seek_position })
    end_with vfs_ok (record v { files = files }) w

  unfoldable pub vfs_seek : Vfs → W → ℤ → ℤ → Result (ℤ × Vfs × W)
  vfs_seek v w file seek_position =
      let (ret, v1) = vfs_start_op v in
      let started = (do
        kernel_assert (leb_ℤ (pos 0) seek_position)
        on_open v1 w file (seek_entry w seek_position)) in
      if not (ret ==ℤ vfs_ok) then ok (vfs_unusable, v1, w) else started

  unfoldable pub tell_entry : W → Vfs → ℕ → OpenFile → Result (ℤ × Vfs × W)
  tell_entry w v i f = end_with f.seek_position v w

  unfoldable pub vfs_tell : Vfs → W → ℤ → Result (ℤ × Vfs × W)
  vfs_tell v w file =
      let (ret, v1) = vfs_start_op v in
      if not (ret ==ℤ vfs_ok) then ok (vfs_unusable, v1, w) else on_open v1 w file (tell_entry w)

  -- `openfile->seek_position += ret`, for a positive `ret`.
  unfoldable pub advance : Vfs → ℕ → ℤ → Result Vfs
  advance v i (negsuc _) = ok v
  advance v i (pos zero) = ok v
  advance v i (pos (suc n)) = do
    f ← read v.files i
    files ← write v.files i (record f { seek_position = add f.seek_position (suc n) })
    ok (record v { files = files })

  unfoldable pub read_entry : W → ℤ → Vfs → ℕ → OpenFile → Result ((ℤ × Vfs × W) × List ℕ)
  read_entry w bufsize v i f = do
    (ret, bytes, w') ← (driver f.filesystem).read_file w f.fileid bufsize f.seek_position
    moved ← advance v i ret
    out ← end_with ret moved w'
    ok (out, bytes)

  -- `no_buffer` says that the buffer is NULL. The second result is what was put into the buffer.
  unfoldable pub vfs_read : Vfs → W → ℤ → (no_buffer : Bool) → ℤ → Result ((ℤ × Vfs × W) × List ℕ)
  vfs_read v w file no_buffer bufsize =
      let (ret, v1) = vfs_start_op v in
      let started = (do
        o ← vfs_verify_open v1.files file
        elim o [
          | none ↦ ok ((vfs_not_open, v1, w), [])
          | some entry ↦ read_entry w bufsize v1 (entry.0) (entry.1)
        ]) in
      if ltb_ℤ bufsize (pos 0) || no_buffer
      then ok ((vfs_invalid_params, v, w), [])
      else if not (ret ==ℤ vfs_ok)
      then ok ((vfs_unusable, v1, w), [])
      else started

  unfoldable pub write_entry : W → List ℕ → ℤ → Vfs → ℕ → OpenFile → Result (ℤ × Vfs × W)
  write_entry w bytes datasize v i f = do
    (ret, w') ← (driver f.filesystem).write_file w f.fileid bytes datasize f.seek_position
    moved ← advance v i ret
    end_with ret moved w'

  unfoldable pub vfs_write : Vfs → W → ℤ → (no_buffer : Bool) → List ℕ → ℤ → Result (ℤ × Vfs × W)
  vfs_write v w file no_buffer bytes datasize =
      let (ret, v1) = vfs_start_op v in
      if ltb_ℤ datasize (pos 0) || no_buffer
      then ok (vfs_invalid_params, v, w)
      else if not (ret ==ℤ vfs_ok)
      then ok (vfs_unusable, v1, w)
      else on_open v1 w file (write_entry w bytes datasize)

  -- The operations on a named volume: `act` is the call of its driver.
  unfoldable pub on_volume : Vfs → W → List ℕ → (ℕ → Result (ℤ × W)) → Result (ℤ × Vfs × W)
  on_volume v w volume act = do
    fs ← vfs_get_filesystem v.filesystems volume
    let found = do (ret, w') ← act fs; end_with ret v w'
    if fs == 0 then end_with vfs_no_such_fs v w else found

  unfoldable pub vfs_create : Vfs → W → List ℕ → ℤ → Result (ℤ × Vfs × W)
  vfs_create v w pathname size = do
    kernel_assert (leb_ℤ (pos 0) size)
    let (ret, v1) = vfs_start_op v
    let parsed = do
      p ← vfs_parse_pathname pathname
      elim p [
        | bad e ↦ end_with vfs_invalid_params v1 w
        | names volume filename ↦ on_volume v1 w volume (λ fs. (driver fs).create w filename size)
      ]
    if not (ret ==ℤ vfs_ok) then ok (vfs_unusable, v1, w) else parsed

  unfoldable pub vfs_remove : Vfs → W → List ℕ → Result (ℤ × Vfs × W)
  vfs_remove v w pathname = do
    let (ret, v1) = vfs_start_op v
    let parsed = do
      p ← vfs_parse_pathname pathname
      elim p [
        | bad e ↦ end_with vfs_invalid_params v1 w
        | names volume filename ↦ on_volume v1 w volume (λ fs. (driver fs).remove w filename)
      ]
    if not (ret ==ℤ vfs_ok) then ok (vfs_unusable, v1, w) else parsed

  unfoldable pub vfs_getfree : Vfs → W → List ℕ → Result (ℤ × Vfs × W)
  vfs_getfree v w filesystem =
      let (ret, v1) = vfs_start_op v in
      if not (ret ==ℤ vfs_ok)
      then ok (vfs_unusable, v1, w)
      else on_volume v1 w filesystem (λ fs. (driver fs).getfree w)

  -- `vfs_mount_fs` for the result of `filesystems_try_all`, which is 0 if no driver knows the disk.
  -- Without a volume name of the caller the one of the file system is taken.
  unfoldable pub vfs_mount_fs : Vfs → W → (found : ℕ) → Option (List ℕ) → Result (ℤ × Vfs × W)
  vfs_mount_fs v w found volumename = do
    let name : List ℕ = elim volumename [ none ↦ (driver found).volume_name | some n ↦ n ]
    let known = do
      c ← read name 0
      let nameless = do (ret, w') ← (driver found).unmount w; ok (vfs_invalid_params, v, w')
      let named = do
        (ret, v', w') ← vfs_mount v w found name
        let failed = do (ret', w'') ← (driver found).unmount w'; ok (ret, v', w'')
        if ret ==ℤ vfs_ok then ok (ret, v', w') else failed
      if c == 0 then nameless else named
    if found == 0 then ok (vfs_no_such_fs, v, w) else known

  -- The forced unmount of all rows.
  unfoldable pub unmount_all : W → List VfsEntry → Result (List VfsEntry × W)
  unmount_all w [] = ok ([], w)
  unmount_all w (e ∷ es) = do
    let unmounted = do
      (ret, w') ← (driver e.filesystem).unmount w
      ok (record e { filesystem = 0 }, w')
    (e', w') ← if e.filesystem == 0 then ok (e, w) else unmounted
    (es', w'') ← unmount_all w' es
    ok (e' ∷ es', w'')

  -- `vfs_deinit` from there on; `waited` says that it has waited.
  unfoldable pub deinit_finish : (waited : Bool) → Vfs → W → Result (Vfs × W)
  deinit_finish waited v w = do
    kernel_assert (not waited || (v.vfs_ops ==ℤ pos 0))
    let v1 = if waited then record v { unmount_sem = v.unmount_sem - 1 } else v
    (filesystems, w') ← unmount_all w v1.filesystems
    ok (record v1 { filesystems = filesystems }, w')
