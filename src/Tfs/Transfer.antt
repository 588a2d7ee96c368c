-- ===== src/Tfs/Transfer.antt =====
-- buenos/fs/tfs.c: reading from a file and writing to it. `vfs_read` and `vfs_write` refuse negative
-- sizes, so a size is a natural number here. `aligned` says of each copy, by the number of
-- bytes that are still to be copied, whether its two addresses are multiples of 4.
use osm_re_exam.Prelude.{
  ℕ, zero, suc, ◌+◌, ◌-◌, ◌/◌, ◌%◌, List, ◌++◌, Bool, true, false, Option, none, some, ◌==◌, ◌||◌,
  if◌then◌else◌, ltb, take, drop,
}
use osm_re_exam.Prelude.Int.{ℤ, pos, negsuc, ltb_ℤ}
use osm_re_exam.Prelude.Result.{Result, ok, ◌>>=◌, read}
use osm_re_exam.Libc.{memcopy}
use osm_re_exam.Vfs.{vfs_error}
use osm_re_exam.Tfs.{block_size, Gbd, Inode, inode_of, to_int}

abbrev pub min : ℕ → ℕ → ℕ
min a b = if ltb a b then a else b

module _ {D : Type 0} (gbd : Gbd D) (totalblocks : ℕ) (aligned : ℕ → Bool) where
  -- The loop of `tfs_read`, with `n` rounds left from block `b1` on and `left` bytes to copy: whether the
  -- disk made no error, and the buffer from its current position on.
  unfoldable pub read_rest : ℕ → D → Inode → ℕ → ℕ → List ℕ → Result (Bool × List ℕ)
  read_rest zero d inode b1 left buffer = ok (true, buffer)
  read_rest (suc n) d inode b1 left buffer = do
    b ← read inode.block b1
    elim (gbd.read_block d b) [
      | none ↦ ok (false, buffer)
      | some bat ↦ do
        let last = do copied ← memcopy (aligned left) (pos left) buffer bat; ok (true, copied)
        let whole = do
          copied ← memcopy (aligned left) (pos block_size) buffer bat
          (fine, r) ← read_rest n d inode (b1 + 1) (left - block_size) (drop block_size copied)
          ok (fine, take block_size copied ++ r)
        if n == 0 then last else whole
    ]

  -- The transfer of `size` bytes from `offset` on, a size that is not 0 and within the file.
  unfoldable pub read_blocks : D → Inode → List ℕ → ℕ → ℕ → Result (ℤ × List ℕ)
  read_blocks d inode buffer size offset = do
    let b1 = offset / block_size
    let b2 = (offset + size - 1) / block_size
    let first = min (block_size - offset % block_size) size
    b ← read inode.block b1
    elim (gbd.read_block d b) [
      | none ↦ ok (vfs_error, buffer)
      | some bat ↦ do
        copied ← memcopy (aligned size) (pos first) buffer (drop (offset % block_size) bat)
        (fine, r) ← read_rest (b2 - b1) d inode (b1 + 1) (size - first) (drop first copied)
        ok (if fine then pos size else vfs_error, take first copied ++ r)
    ]

  -- The start of the transfer; `none` is an offset that is refused.
  unfoldable pub in_file : Inode → ℤ → Option ℕ
  in_file inode (negsuc _) = none
  in_file inode (pos offset) =
      if ltb_ℤ (to_int inode.filesize) (pos offset) then none else some offset

  abbrev pub bad_fileid : ℤ → Bool
  bad_fileid fileid = ltb_ℤ fileid (pos 2) || ltb_ℤ (pos totalblocks) fileid

  -- `tfs_read` once the inode is loaded. The result is the return value and the buffer.
  unfoldable pub read_loaded : D → Inode → List ℕ → ℕ → ℤ → Result (ℤ × List ℕ)
  read_loaded d inode buffer bufsize offset = elim (in_file inode offset) [
    | none ↦ ok (vfs_error, buffer)
    | some start ↦
        let size = min bufsize (inode.filesize - start) in
        let some_bytes = read_blocks d inode buffer size start in
        if size == 0 then ok (pos 0, buffer) else some_bytes
  ]

  unfoldable pub tfs_read : D → ℤ → List ℕ → ℕ → ℤ → Result (ℤ × List ℕ)
  tfs_read d (negsuc _) buffer bufsize offset = ok (vfs_error, buffer)
  tfs_read d (pos fileid) buffer bufsize offset =
      let proper = elim (gbd.read_block d fileid) as (λ _. Result (ℤ × List ℕ)) [
        | none ↦ ok (vfs_error, buffer)
        | some loaded ↦ do inode ← inode_of loaded; read_loaded d inode buffer bufsize offset
      ] in
      if bad_fileid (pos fileid) then ok (vfs_error, buffer) else proper

  -- One block of `tfs_write`: `count` bytes of the source go to place `at` of block number `b1`, which is
  -- read first unless all of it is written. `none` is an error of the disk.
  unfoldable pub write_one : D → Inode → (b1 at count : ℕ) → List ℕ → List ℕ → Result (D × Bool)
  write_one d inode b1 at count unread source = do
    b ← read inode.block b1
    let store = λ (bat : List ℕ). (do
      copied ← memcopy (aligned count) (pos count) (drop at bat) source
      elim (gbd.write_block d b (take at bat ++ copied)) [
        | none ↦ ok (d, false)
        | some d' ↦ ok (d', true)
      ])
    let loaded = elim (gbd.read_block d b) as (λ _. Result (D × Bool)) [
      | none ↦ ok (d, false)
      | some bat ↦ store bat
    ]
    if ltb count block_size then loaded else store unread

  -- The loop of `tfs_write`, with `n` rounds left from block `b1` on and `left` bytes to write. `unread` is
  -- what the buffer holds when a whole block is written.
  unfoldable pub write_rest : ℕ → D → Inode → (b1 left : ℕ) → List ℕ → List ℕ → Result (D × Bool)
  write_rest zero d inode b1 left unread source = ok (d, true)
  write_rest (suc n) d inode b1 left unread source = do
    let count = if n == 0 then left else block_size
    (d', fine) ← write_one d inode b1 0 count unread source
    let rest = write_rest n d' inode (b1 + 1) (left - count) unread (drop count source)
    if fine then rest else ok (d', false)

  unfoldable pub write_blocks : D → Inode → List ℕ → List ℕ → ℕ → ℕ → Result (D × ℤ)
  write_blocks d inode unread source size offset = do
    let b1 = offset / block_size
    let b2 = (offset + size - 1) / block_size
    let first = min (block_size - offset % block_size) size
    (d1, fine) ← write_one d inode b1 (offset % block_size) first unread source
    let more = do
      (d2, fine') ← write_rest (b2 - b1) d1 inode (b1 + 1) (size - first) unread (drop first source)
      ok (d2, if fine' then pos size else vfs_error)
    if fine then more else ok (d1, vfs_error)

  -- `tfs_write` once the inode is loaded.
  unfoldable pub write_loaded : D → Inode → (unread source : List ℕ) → ℕ → ℤ → Result (D × ℤ)
  write_loaded d inode unread source datasize offset = elim (in_file inode offset) [
    | none ↦ ok (d, vfs_error)
    | some start ↦
        let size = min datasize (inode.filesize - start) in
        let some_bytes = write_blocks d inode unread source size start in
        if size == 0 then ok (d, pos 0) else some_bytes
  ]

  unfoldable pub tfs_write : D → ℤ → (unread source : List ℕ) → ℕ → ℤ → Result (D × ℤ)
  tfs_write d (negsuc _) unread source datasize offset = ok (d, vfs_error)
  tfs_write d (pos fileid) unread source datasize offset =
      let proper = elim (gbd.read_block d fileid) as (λ _. Result (D × ℤ)) [
        | none ↦ ok (d, vfs_error)
        | some loaded ↦ do
          inode ← inode_of loaded
          write_loaded d inode unread source datasize offset
      ] in
      if bad_fileid (pos fileid) then ok (d, vfs_error) else proper
