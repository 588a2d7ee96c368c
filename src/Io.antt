-- ===== src/Io.antt =====
-- buenos/proc/io.c: the input and output of user programs. Handles 0, 1 and 2 are the console, and
-- handle `h + 3` is the open file `h` of the virtual file system. `tty` is what `get_tty` finds in the
-- device table, and `files` the open files of the current process.
pub mod Handles
use osm_re_exam.Prelude.{
  ℕ, List, [], ◌∷◌, Bool, true, false, not, Option, none, some, if◌then◌else◌,
}
use osm_re_exam.Prelude.Int.{ℤ, pos, negsuc, ◌==ℤ◌, ltb_ℤ, succ, prev}
use osm_re_exam.Prelude.Result.{Result, ok, ◌>>=◌}
use osm_re_exam.Process.{process_add_file, process_remove_file, process_has_open_file}
use osm_re_exam.Vfs.{vfs_ok, vfs_error, vfs_invalid_params, Vfs, Fs}
use osm_re_exam.Vfs.Calls.{
  vfs_open, vfs_close, vfs_seek, vfs_tell, vfs_read, vfs_write, vfs_create, vfs_remove,
}

abbrev pub vfs_not_open_in_process : ℤ
vfs_not_open_in_process = negsuc 9

-- `gcd_t`: the effect of its functions. What `read` puts into the buffer is its second result.
pub record Gcd (W : Type 0) : Type 0 where
  pub read_chars : W → ℤ → Result (ℤ × List ℕ × W)
  pub write_chars : W → List ℕ → ℤ → Result (ℤ × W)

-- `file - 3` and `file + 3`
abbrev pub lower : ℤ → ℤ
lower file = prev (prev (prev file))

abbrev pub raise : ℤ → ℤ
raise file = succ (succ (succ file))

module _ {W : Type 0} (driver : ℕ → Fs W) (tty : Option (Gcd W)) where
  unfoldable pub tty_read : W → ℤ → Result (ℤ × List ℕ × W)
  tty_read w length = elim tty [ none ↦ ok (vfs_error, [], w) | some gcd ↦ gcd.read_chars w length ]

  unfoldable pub tty_write_stdout : W → List ℕ → ℤ → Result (ℤ × W)
  tty_write_stdout w buffer length = elim tty [
    | none ↦ ok (vfs_error, w)
    | some gcd ↦ gcd.write_chars w buffer length
  ]

  -- The escape sequences "\x1b[31;1m" and "\x1b[0m"
  unfoldable pub tty_set_red : Gcd W → W → Result (ℤ × W)
  tty_set_red gcd w = do
    (n, w') ← gcd.write_chars w (27 ∷ 91 ∷ 51 ∷ 49 ∷ 59 ∷ 49 ∷ 109 ∷ []) (pos 7)
    ok (if n ==ℤ pos 7 then vfs_ok else vfs_error, w')

  unfoldable pub tty_reset_red : Gcd W → W → Result (ℤ × W)
  tty_reset_red gcd w = do
    (n, w') ← gcd.write_chars w (27 ∷ 91 ∷ 48 ∷ 109 ∷ []) (pos 4)
    ok (if n ==ℤ pos 4 then vfs_ok else vfs_error, w')

  unfoldable pub tty_write_stderr : W → List ℕ → ℤ → Result (ℤ × W)
  tty_write_stderr w buffer length = elim tty [
    | none ↦ ok (vfs_error, w)
    | some gcd ↦ do
      (red, w1) ← tty_set_red gcd w
      let rest = do
        (res, w2) ← gcd.write_chars w1 buffer length
        (reset, w3) ← tty_reset_red gcd w2
        ok (if reset ==ℤ vfs_ok then res else vfs_error, w3)
      if red ==ℤ vfs_ok then rest else ok (vfs_error, w1)
  ]

  -- The second result is what was put into the buffer.
  unfoldable pub io_read :
      List ℤ → Vfs → W → ℤ → (no_buffer : Bool) → ℤ → Result ((ℤ × Vfs × W) × List ℕ)
  io_read files v w file no_buffer length =
      let console = (do (res, chars, w') ← tty_read w length; ok ((res, v, w'), chars)) in
      let in_file = vfs_read driver v w (lower file) no_buffer length in
      if file ==ℤ pos 0
      then console
      else if file ==ℤ pos 1
      then ok ((vfs_invalid_params, v, w), [])
      else if file ==ℤ pos 2
      then ok ((vfs_invalid_params, v, w), [])
      else if not (process_has_open_file files (lower file))
      then ok ((vfs_not_open_in_process, v, w), [])
      else in_file

  unfoldable pub io_write :
      List ℤ → Vfs → W → ℤ → (no_buffer : Bool) → List ℕ → ℤ → Result (ℤ × Vfs × W)
  io_write files v w file no_buffer buffer length =
      let out = (do (res, w') ← tty_write_stdout w buffer length; ok (res, v, w')) in
      let err = (do (res, w') ← tty_write_stderr w buffer length; ok (res, v, w')) in
      let in_file = vfs_write driver v w (lower file) no_buffer buffer length in
      if file ==ℤ pos 0
      then ok (vfs_invalid_params, v, w)
      else if file ==ℤ pos 1
      then out
      else if file ==ℤ pos 2
      then err
      else if not (process_has_open_file files (lower file))
      then ok (vfs_not_open_in_process, v, w)
      else in_file

  -- The result of `process_add_file` is not looked at.
  unfoldable pub io_open : List ℤ → Vfs → W → List ℕ → Result (ℤ × List ℤ × Vfs × W)
  io_open files v w pathname = do
    (file, v', w') ← vfs_open driver v w pathname
    let added = (process_add_file files file).0
    ok (if ltb_ℤ file (pos 0) then (file, files, v', w') else (raise file, added, v', w'))

  unfoldable pub io_close : List ℤ → Vfs → W → ℤ → Result (ℤ × List ℤ × Vfs × W)
  io_close files v w file =
      let close = (do
        (res, v', w') ← vfs_close driver v w (lower file)
        ok (res, (process_remove_file files (lower file)).0, v', w')) in
      if not (process_has_open_file files (lower file))
      then ok (vfs_not_open_in_process, files, v, w)
      else close

  unfoldable pub io_seek : List ℤ → Vfs → W → ℤ → ℤ → Result (ℤ × Vfs × W)
  io_seek files v w file offset =
      let seek = vfs_seek driver v w (lower file) offset in
      if not (process_has_open_file files (lower file))
      then ok (vfs_not_open_in_process, v, w)
      else seek

  unfoldable pub io_tell : List ℤ → Vfs → W → ℤ → Result (ℤ × Vfs × W)
  io_tell files v w file =
      let tell = vfs_tell driver v w (lower file) in
      if not (process_has_open_file files (lower file))
      then ok (vfs_not_open_in_process, v, w)
      else tell

  unfoldable pub io_create : Vfs → W → List ℕ → ℤ → Result (ℤ × Vfs × W)
  io_create v w pathname size = vfs_create driver v w pathname size

  unfoldable pub io_remove : Vfs → W → List ℕ → Result (ℤ × Vfs × W)
  io_remove v w pathname = vfs_remove driver v w pathname
