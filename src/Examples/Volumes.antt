-- ===== src/Examples/Volumes.antt =====
-- The virtual file system with one volume, whose driver answers every call with 7.
use osm_re_exam.Prelude.{
  ℕ, ◌≡◌, refl, ◌<◌, ◌⊎◌, List, [], ◌∷◌, true, none, arith, leb→le, replicate, ltb→lt, zero, suc,
}
use osm_re_exam.Prelude.Int.{ℤ, pos, minus_one}
use osm_re_exam.Prelude.Result.{ok, read, write}
use osm_re_exam.Libc.{stringcmp}
use osm_re_exam.Vfs.{
  vfs_ok, vfs_error, vfs_not_open, Vfs, Fs, names, vfs_parse_pathname, parse_volume, parse_filename,
  parse_rest, add_char, vfs_get_filesystem, vfs_start_op, vfs_end_op, free_file, find_row, has_open,
  vfs_verify_open,
}
use osm_re_exam.Vfs.Calls.{
  set_row, unmount_row, vfs_mount, vfs_unmount, on_open, vfs_close, deinit_start, close_entry,
  set_file,
}
use osm_re_exam.Process.{process_has_open_file, process_remove_file}
use osm_re_exam.Io.{io_close}
use osm_re_exam.Io.Handles.{io_close-deinit_waits, Owned, io_close-Done}
use osm_re_exam.Vfs.Path.{vfs_parse_pathname-names}
use osm_re_exam.Vfs.Files.{no_file}
use osm_re_exam.Vfs.Count.{Call, close_file, handle, run, run_all, Done, Leaked, run-Counted}
use osm_re_exam.Vfs.Mount.{freed, vfs_unmount-mount}

abbrev always : Fs ℕ
always = record {
  volume_name = 0 ∷ [];
  unmount = λ w. ok (vfs_ok, w);
  open_file = λ w name. ok (pos 7, w);
  close = λ w fileid. ok (pos 7, w);
  read_file = λ w fileid size position. ok (pos 7, [], w);
  write_file = λ w fileid bytes size position. ok (pos 7, w);
  create = λ w name size. ok (pos 7, w);
  remove = λ w name. ok (pos 7, w);
  getfree = λ w. ok (pos 7, w);
}

-- "[d]f", "d" and "f"
abbrev path : List ℕ
path = 91 ∷ 100 ∷ 93 ∷ 102 ∷ 0 ∷ []

abbrev volume : List ℕ
volume = 100 ∷ 0 ∷ []

abbrev file : List ℕ
file = 102 ∷ 0 ∷ []

abbrev mounted : Vfs
mounted = record {
  filesystems =
      record { filesystem = 5; mountpoint = 100 ∷ 0 ∷ replicate 14 0 }
      ∷ replicate 7 (record { filesystem = 0; mountpoint = replicate 16 0 });
  files = replicate 512 no_file;
  vfs_ops = pos 0;
  vfs_usable = true;
  unmount_sem = 0;
}

abbrev unmounted : Vfs
unmounted = record mounted { filesystems = freed mounted.filesystems 0 }

abbrev drivers : ℕ → Fs ℕ
drivers fs = always

parsed : vfs_parse_pathname path ≡ ok (names volume file)
unfolding vfs_parse_pathname parse_rest parse_filename parse_volume add_char
parsed = refl

found : vfs_get_filesystem mounted.filesystems volume ≡ ok 5
unfolding vfs_get_filesystem stringcmp
found = refl

vfs_parse_pathname-names_example : vfs_parse_pathname path ≡ ok (names volume file)
vfs_parse_pathname-names_example =
    vfs_parse_pathname-names (100 ∷ []) (102 ∷ []) [] (leb→le 2 15 refl) ((λ e. omega arith), tt)
      ((λ e. omega arith), tt) (leb→le 1 1 refl) (leb→le 2 16 refl) ((λ e. omega arith), tt)

first_free : free_file mounted.files < 512
unfolding free_file
first_free = ltb→lt 0 512 refl

closed : vfs_verify_open mounted.files (pos 3) ≡ ok none
unfolding vfs_verify_open read
closed = refl

abbrev after_close : Vfs
after_close = record mounted { vfs_ops = pos 1 }

leaks : run drivers mounted 1 (close_file (pos 3)) ≡ ok (vfs_not_open, after_close, 1)
unfolding run vfs_close on_open vfs_start_op vfs_verify_open read
leaks = refl

run-Counted_example :
    Done drivers mounted 0 1 (vfs_not_open, after_close, 1)
    ⊎ Leaked drivers mounted 0 1 (handle (close_file (pos 3))) (vfs_not_open, after_close, 1)
run-Counted_example = run-Counted drivers mounted 0 1 (close_file (pos 3)) refl leaks

-- A process with the file 0 and free entries.
abbrev files : List ℤ
files = pos 0 ∷ minus_one ∷ []

free_entry : process_has_open_file files minus_one ≡ true
unfolding process_has_open_file
free_entry = refl

io_close-deinit_waits_example :
    (files' : List ℤ) × (v' : Vfs) × (io_close drivers none files mounted 1 (pos 2)
      ≡ ok (vfs_not_open, files', v', 1))
    × ((cs : List Call) (out : Vfs × ℕ)
        → run_all drivers v' 1 cs ≡ ok out
        → ((deinit_start (out.0)).0 ≡ true)
          × ((later : List Call) (end : Vfs × ℕ)
              → run_all drivers ((deinit_start (out.0)).1) (out.1) later ≡ ok end
              → end.0 ≡ (deinit_start (out.0)).1))
io_close-deinit_waits_example =
    io_close-deinit_waits drivers none files mounted 1 refl refl free_entry

abbrev with_file : Vfs
with_file = record mounted { files = record no_file { filesystem = 5 } ∷ replicate 511 no_file }

only_file : (h : ℕ) → process_has_open_file files (pos (suc h)) ≡ true → ⊥
unfolding process_has_open_file
only_file h e = ground arith

owned : Owned drivers none files with_file 1
unfolding process_has_open_file vfs_verify_open read
owned zero e = ((0, record no_file { filesystem = 5 }), refl)
owned (suc h) e = absurd (only_file h e)

abbrev after_io_close : Vfs
after_io_close = record mounted { files = replicate 512 no_file }

closes :
    io_close drivers none files with_file 1 (pos 3)
    ≡ ok (pos 7, minus_one ∷ minus_one ∷ [], after_io_close, 1)
unfolding io_close process_has_open_file process_remove_file vfs_close on_open close_entry set_file
    vfs_start_op vfs_end_op vfs_verify_open read write
closes = refl

io_close-Done_example :
    (after_io_close.vfs_ops ≡ pos 0) × (after_io_close.vfs_usable ≡ with_file.vfs_usable)
io_close-Done_example = io_close-Done drivers none files with_file 1 0 0 owned refl closes

unmounts : vfs_unmount drivers mounted 1 volume ≡ ok (vfs_ok, unmounted, 1)
unfolding vfs_unmount vfs_start_op vfs_end_op find_row stringcmp unmount_row has_open set_row read
    write
unmounts = refl

first_char : read volume 0 ≡ ok 100
unfolding read
first_char = refl

vfs_unmount-mount_example : vfs_mount drivers unmounted 1 9 volume ≡ ok (vfs_error, unmounted, 1)
vfs_unmount-mount_example =
    vfs_unmount-mount drivers mounted unmounted 1 1 volume 0 100 9 1 refl refl first_char
      (λ e. omega arith) unmounts
