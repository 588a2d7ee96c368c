-- ===== src/Tfs/Files.antt =====
-- buenos/fs/tfs.c: the operations on the files of the directory. Each loads the blocks that it needs,
-- and writes back those that it changed.
use osm_re_exam.Prelude.{
  ℕ, ◌+◌, ◌-◌, ◌*◌, ◌/◌, List, [], ◌∷◌, ◌++◌, none, some, if◌then◌else◌, ltb, drop, set, replicate,
  length,
}
use osm_re_exam.Prelude.Int.{ℤ, pos, negsuc}
use osm_re_exam.Prelude.Result.{Result, ok, ◌>>=◌, read, write}
use osm_re_exam.Libc.{stringcopy}
use osm_re_exam.Bitmap.{bitmap_set, bitmap_findnset}
use osm_re_exam.Vfs.{vfs_ok, vfs_error, vfs_not_found}
use osm_re_exam.Tfs.{
  block_size, blocks_max, max_files, filename_max, allocation_block, directory_block, Gbd, words,
  bytes, Inode, inode_of, inode_block, Direntry, entries_of, entries_block, to_int, find_name,
  find_slot, allocate, release, count_allocated,
}

module _ {D : Type 0} (gbd : Gbd D) (totalblocks : ℕ) where
  unfoldable pub tfs_open : D → List ℕ → Result ℤ
  tfs_open d filename = elim (gbd.read_block d directory_block) [
    | none ↦ ok vfs_error
    | some buffer ↦ do
      entries ← entries_of max_files buffer
      r ← find_name 0 entries filename
      elim r [ none ↦ ok vfs_not_found | some found ↦ ok (to_int (found.1)) ]
  ]

  unfoldable pub tfs_close : ℤ → ℤ
  tfs_close fileid = vfs_ok

  -- The loop of `tfs_create` that clears the new blocks.
  unfoldable pub clear_blocks : D → List ℕ → D × ℤ
  clear_blocks d [] = (d, vfs_ok)
  clear_blocks d (b ∷ bs) = elim (gbd.write_block d b (replicate block_size 0)) [
    | none ↦ (d, vfs_error)
    | some d' ↦ clear_blocks d' bs
  ]

  -- The writes of `tfs_create`: the allocation block, the directory, the inode, and zeros.
  unfoldable pub create_writes : D → (bat directory : List ℕ) → (b : ℕ) → Inode → List ℕ → D × ℤ
  create_writes d bat directory b inode new =
      elim (gbd.write_block d allocation_block (bytes bat)) [
        | none ↦ (d, vfs_error)
        | some d1 ↦ elim (gbd.write_block d1 directory_block directory) [
          | none ↦ (d1, vfs_error)
          | some d2 ↦ elim (gbd.write_block d2 b (inode_block inode)) [
            | none ↦ (d2, vfs_error)
            | some d3 ↦ clear_blocks d3 new
          ]
        ]
      ]

  -- The rest of `tfs_create` once the directory has a free entry `index`.
  unfoldable pub create_at : D → List Direntry → List ℕ → ℕ → List ℕ → ℕ → Result (D × ℤ)
  create_at d entries tail index filename size = do
    e ← read entries index
    name ← stringcopy e.name filename (pos filename_max)
    elim (gbd.read_block d allocation_block) [
      | none ↦ ok (d, vfs_error)
      | some buffer ↦ do
        (bat, b) ← bitmap_findnset (words buffer) (pos totalblocks)
        elim b [
          | negsuc _ ↦ ok (d, vfs_error)
          | pos inode ↦ do
            r ← allocate ((size + block_size - 1) / block_size) bat totalblocks
            elim r [
              | none ↦ ok (d, vfs_error)
              | some found ↦ do
                entries' ← write entries index (record { inode = inode; name = name })
                ok (
                    create_writes d (found.1) (entries_block entries' tail) inode
                      (record {
                        filesize = size;
                        block = found.0 ++ replicate (blocks_max - length (found.0)) 0;
                      })
                      (found.0))
            ]
        ]
    ]

  -- `vfs_create` refuses negative sizes, so the size is a natural number.
  unfoldable pub tfs_create : D → List ℕ → ℕ → Result (D × ℤ)
  tfs_create d filename size =
      let proper = elim (gbd.read_block d directory_block) as (λ _. Result (D × ℤ)) [
        | none ↦ ok (d, vfs_error)
        | some buffer ↦ do
          entries ← entries_of max_files buffer
          slot ← find_slot 0 entries filename none
          elim slot [
            | none ↦ ok (d, vfs_error)
            | some none ↦ ok (d, vfs_error)
            | some (some index) ↦ create_at d entries (drop 500 buffer) index filename size
          ]
      ] in
      if ltb blocks_max ((size + block_size - 1) / block_size) then ok (d, vfs_error) else proper

  -- `tfs_remove` on the entry `index`, with the inode block `b`.
  unfoldable pub remove_at : D → List Direntry → List ℕ → ℕ → ℕ → Result (D × ℤ)
  remove_at d entries tail index b = elim (gbd.read_block d allocation_block) [
    | none ↦ ok (d, vfs_error)
    | some allocation ↦ elim (gbd.read_block d b) [
      | none ↦ ok (d, vfs_error)
      | some buffer ↦ do
        inode ← inode_of buffer
        bat ← bitmap_set (words allocation) (pos b) (pos 0)
        bat' ← release bat inode.block
        e ← read entries index
        entries' ← write entries index (record { inode = 0; name = set e.name 0 0 })
        elim (gbd.write_block d allocation_block (bytes bat')) [
          | none ↦ ok (d, vfs_error)
          | some d1 ↦ elim (gbd.write_block d1 directory_block (entries_block entries' tail)) [
            | none ↦ ok (d1, vfs_error)
            | some d2 ↦ ok (d2, vfs_ok)
          ]
        ]
    ]
  ]

  unfoldable pub tfs_remove : D → List ℕ → Result (D × ℤ)
  tfs_remove d filename = elim (gbd.read_block d directory_block) [
    | none ↦ ok (d, vfs_error)
    | some buffer ↦ do
      entries ← entries_of max_files buffer
      r ← find_name 0 entries filename
      elim r [
        | none ↦ ok (d, vfs_not_found)
        | some found ↦ remove_at d entries (drop 500 buffer) (found.0) (found.1)
      ]
  ]

  unfoldable pub tfs_getfree : D → Result ℤ
  tfs_getfree d = elim (gbd.read_block d allocation_block) [
    | none ↦ ok vfs_error
    | some buffer ↦ do
      allocated ← count_allocated totalblocks 0 (words buffer)
      ok (pos ((totalblocks - allocated) * block_size))
  ]
