-- ===== src/Tfs/Driver.antt =====
-- The trivial file system as a driver of the virtual file system: the function pointers that `tfs_init`
-- (buenos/fs/tfs.c) sets, for the virtual file system of buenos/fs/vfs.c.
use osm_re_exam.Prelude.{
  ℕ, suc, ◌+◌, ◌-◌, ◌*◌, ◌^◌, ◌≤◌, ◌<◌, ◌≡◌, refl, ◌≢◌, List, Bool, true, false, some, arith,
  length, get_or, length-set,
}
use osm_re_exam.Prelude.Int.{ℤ, pos, negsuc}
use osm_re_exam.Prelude.Result.{Result, ok, fault, ◌>>=◌}
use osm_re_exam.Vfs.{vfs_ok, OpenFile, Vfs, Fs, vfs_verify_open}
use osm_re_exam.Vfs.Calls.{vfs_seek, vfs_read, vfs_write}
use osm_re_exam.Vfs.Files.{verify_open-moved}
use osm_re_exam.Vfs.Transfer.{at_position, vfs_write_lem, vfs_read_lem, vfs_seek_lem}
use osm_re_exam.Tfs.{block_size, Gbd, Inode, inode_of}
use osm_re_exam.Tfs.Files.{tfs_open, tfs_close, tfs_create, tfs_remove, tfs_getfree}
use osm_re_exam.Tfs.Transfer.{min, tfs_read, tfs_write}
use osm_re_exam.Tfs.Block.{IsDisk, block_at, IsFile}
use osm_re_exam.Tfs.Written.{Distinct}
use osm_re_exam.Tfs.RoundTrip.{tfs_read-tfs_write}

-- The file system over a disk of `totalblocks` blocks. `unread` is what the buffer of the driver holds
-- before a write, and `buffer` what the buffer of the caller holds before a read. The virtual file system
-- passes no negative sizes. `tfs_unmount` releases the memory of the driver, and is an argument.
unfoldable pub tfs_driver :
    {D : Type 0}
    → Gbd D
    → (totalblocks : ℕ) (aligned : ℕ → Bool) (volume_name unread buffer : List ℕ)
    → (D → Result (ℤ × D))
    → Fs D
tfs_driver {D} gbd totalblocks aligned volume_name unread buffer tfs_unmount = record {
  volume_name = volume_name;
  unmount = tfs_unmount;
  open_file = λ d filename. (do fileid ← tfs_open gbd totalblocks d filename; ok (fileid, d));
  close = λ d fileid. ok (tfs_close gbd totalblocks fileid, d);
  read_file = read_file;
  write_file = write_file;
  create = create;
  remove = λ d filename. (do (d', r) ← tfs_remove gbd totalblocks d filename; ok (r, d'));
  getfree = λ d. (do r ← tfs_getfree gbd totalblocks d; ok (r, d));
}
  where
    read_file : D → ℤ → ℤ → ℤ → Result (ℤ × List ℕ × D)
    read_file d fileid (negsuc _) offset = fault
    read_file d fileid (pos size) offset = do
      (r, bytes) ← tfs_read gbd totalblocks aligned d fileid buffer size offset
      ok (r, bytes, d)

    write_file : D → ℤ → List ℕ → ℤ → ℤ → Result (ℤ × D)
    write_file d fileid bytes (negsuc _) offset = fault
    write_file d fileid bytes (pos size) offset = do
      (d', r) ← tfs_write gbd totalblocks aligned d fileid unread bytes size offset
      ok (r, d')

    create : D → List ℕ → ℤ → Result (ℤ × D)
    create d filename (negsuc _) = fault
    create d filename (pos size) = do
      (d', r) ← tfs_create gbd totalblocks d filename size
      ok (r, d')

module _ {D : Type 0} (gbd : Gbd D) (totalblocks : ℕ) (aligned : ℕ → Bool)
    (volume_name unread buffer : List ℕ) (tfs_unmount : D → Result (ℤ × D)) (driver : ℕ → Fs D)
    (fs : ℕ)
    (mounted : driver fs ≡ tfs_driver gbd totalblocks aligned volume_name unread buffer tfs_unmount)
    (v : Vfs) (d : D) (i n fileid start : ℕ) (usable : v.vfs_usable ≡ true)
    (count : v.vfs_ops ≡ pos n) (h : i < length v.files)
    (found : vfs_verify_open v.files (pos i)
      ≡ ok (
          some
            (i, record { filesystem = fs; fileid = pos fileid; seek_position = pos start }))) where
  -- From the functions of the driver to the calls of the virtual file system.
  transfer :
      (d' : D) (datasize m : ℕ) (source r : List ℕ)
      → tfs_write gbd totalblocks aligned d (pos fileid) unread source datasize (pos start)
        ≡ ok (d', pos (suc m))
      → tfs_read gbd totalblocks aligned d' (pos fileid) buffer datasize (pos start)
        ≡ ok (pos (suc m), r)
      → (v1 v2 v3 : Vfs) × (vfs_write driver v d (pos i) false source (pos datasize)
          ≡ ok (pos (suc m), v1, d'))
        × (vfs_seek driver v1 d' (pos i) (pos start) ≡ ok (vfs_ok, v2, d'))
        × (vfs_read driver v2 d' (pos i) false (pos datasize) ≡ ok ((pos (suc m), v3, d'), r))
  unfolding tfs_driver
  transfer d' datasize m source r wrote reads =
      let f0 : OpenFile = record {
        filesystem = fs;
        fileid = pos fileid;
        seek_position = pos start;
      } in
      let f1 : OpenFile = record f0 { seek_position = pos (start + suc m) } in
      let v1 : Vfs = at_position v i f0 (pos (start + suc m)) in
      let h1 : i < length v1.files = omega (arith, length-set v.files i f1) in
      let found1 = verify_open-moved v.files i (start + suc m) f0 h found in
      let v2 : Vfs = at_position v1 i f1 (pos start) in
      let h2 : i < length v2.files = omega (arith, length-set v1.files i f0) in
      let found2 = verify_open-moved v1.files i start f1 h1 found1 in
      (
        v1,
        v2,
        at_position v2 i f0 (pos (start + suc m)),
        vfs_write_lem driver v d d' i n m f0 usable count h found source datasize
            (rw (mounted, wrote) refl),
        vfs_seek_lem driver v1 d' d' i n m f1 usable count h1 found1 start,
        vfs_read_lem driver v2 d' d' i n m f0 usable count h2 found2 r datasize
            (rw (mounted, reads) refl),
      )

  -- For a handle that is open on a file as in `tfs_read-tfs_write`, on a volume whose driver is the
  -- trivial file system, in a usable virtual file system: a `vfs_write` that has something to write,
  -- a `vfs_seek` back to its start and a `vfs_read` of the same size with room for it in the buffer all
  -- succeed and transfer the same number of bytes, and the bytes read are those that were written.
  pub vfs_read-vfs_write :
      (content : D → ℕ → List ℕ) (limit : ℕ) (disk : IsDisk gbd content limit) (inode : Inode)
      (k : ℕ) (file : IsFile inode limit k) (distinct : Distinct inode k) (datasize m : ℕ)
      (source : List ℕ)
      → length unread ≡ block_size
      → 2 ≤ fileid
      → fileid ≤ totalblocks
      → fileid < limit
      → inode_of (content d fileid) ≡ ok inode
      → ((j : ℕ) → j < k → fileid ≢ block_at inode j)
      → inode.filesize ≤ k * block_size
      → inode.filesize < 2 ^ 31
      → start ≤ inode.filesize
      → min datasize (inode.filesize - start) ≡ suc m
      → suc m ≤ length source
      → suc m ≤ length buffer
      → (d' : D) × (r : List ℕ) × (v1 v2 v3 : Vfs) × (vfs_write driver v d
            (pos i)
            false
            source
            (pos datasize)
          ≡ ok (pos (suc m), v1, d'))
        × (vfs_seek driver v1 d' (pos i) (pos start) ≡ ok (vfs_ok, v2, d'))
        × (vfs_read driver v2 d' (pos i) false (pos datasize) ≡ ok ((pos (suc m), v3, d'), r))
        × ((j : ℕ) → j < suc m → get_or r j 0 ≡ get_or source j 0)
  vfs_read-vfs_write content limit disk inode k file distinct datasize m source room h1 h2 h3 load
        apart h4 h5 h6 size h7 h8 =
      let (d', r, wrote, reads, same) =
        tfs_read-tfs_write gbd content limit disk totalblocks aligned inode k file distinct unread
          room d fileid datasize start source buffer h1 h2 h3 load apart h4 h5 h6 (omega arith)
          (omega arith) in
      let (v1, v2, v3, a, b, c) =
        transfer d' datasize m source r (rw size at wrote) (rw size at reads) in
      (d', r, v1, v2, v3, a, b, c, λ j q. same j (omega arith))
