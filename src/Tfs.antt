-- ===== src/Tfs.antt =====
-- buenos/fs/tfs.c and buenos/fs/tfs.h: the trivial file system. The disk is reached through the
-- functions of `gbd_t`, an interface here over its state `D`. Each operation holds the lock of the file
-- system, so it is one step, and its buffers are loaded anew in each operation.
pub mod Block
pub mod Files
pub mod Transfer
pub mod Rounds
pub mod Read
pub mod Written
pub mod Write
pub mod RoundTrip
pub mod Allocate
pub mod Driver
use osm_re_exam.Prelude.{
  ℕ, zero, suc, ◌+◌, ◌-◌, ◌*◌, ◌/◌, ◌%◌, ◌^◌, List, [], ◌∷◌, ◌++◌, Bool, true, false, not, ◌&&◌,
  ◌||◌, Option, none, some, ◌==◌, if◌then◌else◌, leb, ltb, take, drop, set, replicate, length,
}
use osm_re_exam.Prelude.Int.{ℤ, pos, negsuc, minus_one, ◌==ℤ◌, ltb_ℤ, leb_ℤ, sub}
use osm_re_exam.Prelude.Result.{Result, ok, panic, fault, ◌>>=◌, read, write}
use osm_re_exam.Libc.{stringcmp, stringcopy, memcopy}
use osm_re_exam.Bitmap.{bitmap_get, bitmap_set, bitmap_findnset}
use osm_re_exam.Vfs.{vfs_ok, vfs_error, vfs_not_found}

abbrev pub block_size : ℕ
block_size = 512

-- `TFS_BLOCKS_MAX`
abbrev pub blocks_max : ℕ
blocks_max = 127

-- `TFS_MAX_FILES`
abbrev pub max_files : ℕ
max_files = 25

abbrev pub filename_max : ℕ
filename_max = 16

abbrev pub allocation_block : ℕ
allocation_block = 1

abbrev pub directory_block : ℕ
directory_block = 2

-- The functions of a `gbd_t`, without the request's semaphore: `none` is the return value 0.
pub record Gbd (D : Type 0) : Type 0 where
  pub read_block : D → ℕ → Option (List ℕ)
  pub write_block : D → ℕ → List ℕ → Option D

-- A block as 32-bit words, with the most significant byte first, as the machine reads it, and back.
unfoldable pub words : List ℕ → List ℕ
words (a ∷ b ∷ c ∷ d ∷ rest) = (((a * 256 + b) * 256 + c) * 256 + d) ∷ words rest
words _ = []

unfoldable pub bytes : List ℕ → List ℕ
bytes [] = []
bytes (w ∷ ws) = (w / 2 ^ 24 % 256) ∷ (w / 2 ^ 16 % 256) ∷ (w / 2 ^ 8 % 256) ∷ (w % 256) ∷ bytes ws

-- `tfs_inode_t`
pub record Inode : Type 0 where
  pub filesize : ℕ
  pub block : List ℕ

unfoldable pub inode_of : List ℕ → Result Inode
inode_of buffer = do
  filesize ← read (words buffer) 0
  ok (record { filesize = filesize; block = drop 1 (words buffer) })

unfoldable pub inode_block : Inode → List ℕ
inode_block inode = bytes (inode.filesize ∷ inode.block)

-- `tfs_direntry_t`
pub record Direntry : Type 0 where
  pub inode : ℕ
  pub name : List ℕ

-- The first `n` entries of a block, and the block of some entries and the bytes behind them.
unfoldable pub entries_of : ℕ → List ℕ → Result (List Direntry)
entries_of zero buffer = ok []
entries_of (suc n) buffer = do
  inode ← read (words (take 4 buffer)) 0
  rest ← entries_of n (drop 20 buffer)
  ok (record { inode = inode; name = take 16 (drop 4 buffer) } ∷ rest)

unfoldable pub entries_block : List Direntry → List ℕ → List ℕ
entries_block [] tail = tail
entries_block (e ∷ es) tail = bytes (e.inode ∷ []) ++ (e.name ++ entries_block es tail)

-- A `uint32_t` as an `int`.
abbrev pub to_int : ℕ → ℤ
to_int w = if ltb w (2 ^ 31) then pos w else negsuc (2 ^ 32 - w - 1)

-- The loop of `tfs_open` and `tfs_remove` over the directory, from entry `i` on.
unfoldable pub find_name : ℕ → List Direntry → List ℕ → Result (Option (ℕ × ℕ))
find_name i [] filename = ok none
find_name i (e ∷ es) filename =
    let rest = find_name (i + 1) es filename in
    do r ← stringcmp e.name filename; if r ==ℤ pos 0 then ok (some (i, e.inode)) else rest

-- The loop of `tfs_create` over the directory: `none` if the name is there, else the last free entry.
unfoldable pub find_slot : ℕ → List Direntry → List ℕ → Option ℕ → Result (Option (Option ℕ))
find_slot i [] filename index = ok (some index)
find_slot i (e ∷ es) filename index =
    let rest = find_slot (i + 1) es filename (if e.inode == 0 then some i else index) in
    do r ← stringcmp e.name filename; if r ==ℤ pos 0 then ok none else rest

-- The loop of `tfs_create` that allocates `n` blocks: `none` if the disk is full.
unfoldable pub allocate : ℕ → List ℕ → (totalblocks : ℕ) → Result (Option (List ℕ × List ℕ))
allocate zero bat totalblocks = ok (some ([], bat))
allocate (suc n) bat totalblocks = do
  (bat', b) ← bitmap_findnset bat (pos totalblocks)
  elim b [
    | negsuc _ ↦ ok none
    | pos block ↦ do
      r ← allocate n bat' totalblocks
      elim r [ none ↦ ok none | some (found) ↦ ok (some (block ∷ found.0, found.1)) ]
  ]

-- The loop of `tfs_remove` over the blocks of the inode, with a bound on its rounds.
unfoldable pub release : List ℕ → List ℕ → Result (List ℕ)
release bat [] = ok bat
release bat (b ∷ bs) =
    let more = (do bat' ← bitmap_set bat (pos b) (pos 0); release bat' bs) in
    if b == 0 then ok bat else more

-- The loop of `tfs_getfree`, with `n` blocks left from block `i` on.
unfoldable pub count_allocated : ℕ → ℕ → List ℕ → Result ℕ
count_allocated zero i bat = ok 0
count_allocated (suc n) i bat = do
  b ← bitmap_get bat (pos i)
  rest ← count_allocated n (i + 1) bat
  ok (b + rest)
