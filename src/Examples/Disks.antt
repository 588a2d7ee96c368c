-- ===== src/Examples/Disks.antt =====
-- A disk in memory, with a file of 600 bytes in blocks 4 and 5 and its inode in block 3.
use osm_re_exam.Prelude.{
  ℕ, zero, suc, ◌+◌, ◌%◌, ◌^◌, ◌≤◌, ◌<◌, ◌≡◌, refl, ◌≢◌, sym, ap, ◌∙◌, List, [], ◌∷◌, ◌++◌, Bool,
  some, arith, length, get_or, take, drop, replicate, length-take, length-append, length-replicate,
  take-append, ◌==◌, if◌then◌else◌, leb→le, ltb→lt, eq→==, ne→==, true, false,
}
use osm_re_exam.Prelude.Int.{ℤ, pos}
use osm_re_exam.Prelude.Result.{ok, read, Yields, Result, ◌>>=◌, write}
use osm_re_exam.Vfs.{vfs_ok, Vfs, Fs, vfs_verify_open}
use osm_re_exam.Vfs.Calls.{vfs_seek, vfs_read, vfs_write}
use osm_re_exam.Tfs.Driver.{tfs_driver, vfs_read-vfs_write}
use osm_re_exam.Tfs.Files.{
  create_at, create_writes, clear_blocks, remove_at, tfs_create, tfs_open, tfs_remove, tfs_getfree,
}
use osm_re_exam.Libc.{stringcmp, stringcopy, copy_loop}
use osm_re_exam.Bitmap.{Bitmap, bitmap_findnset, bitmap_sizeof, bitmap_get, bitmap_set}
use osm_re_exam.Bitmap.Digits.{IsWords}
use osm_re_exam.Tfs.{
  Gbd, Inode, words, bytes, inode_of, allocate, entries_of, entries_block, find_slot, find_name,
  inode_block, release, count_allocated,
}
use osm_re_exam.Tfs.Transfer.{tfs_read, tfs_write}
use osm_re_exam.Tfs.Block.{IsDisk, block_at, IsFile, byte, Filled}
use osm_re_exam.Tfs.Read.{tfs_read-Filled}
use osm_re_exam.Tfs.Written.{Distinct, Written}
use osm_re_exam.Tfs.Write.{tfs_write-Written}
use osm_re_exam.Tfs.RoundTrip.{tfs_read-tfs_write}
use osm_re_exam.Tfs.Allocate.{Allocated, allocate-Allocated}

abbrev Disk : Type 0
Disk = ℕ → List ℕ

-- A block is filled up with zeros.
abbrev content : Disk → ℕ → List ℕ
content d b = take 512 (d b ++ replicate 512 0)

abbrev store : Disk → ℕ → List ℕ → Disk
store d b x c = if c == b then x else d c

abbrev memory : Gbd Disk
memory = record {
  read_block = λ d b. some (content d b);
  write_block = λ d b x. some (store d b x);
}

length-content : (d : Disk) (b : ℕ) → length (content d b) ≡ 512
length-content d b =
    length-take 512 (d b ++ replicate 512 0)
      (omega (arith, length-append (d b) (replicate {A = ℕ} 512 0), length-replicate {A = ℕ} 512 0))

content_here : (d : Disk) (b : ℕ) (x : List ℕ) → length x ≡ 512 → content (store d b x) b ≡ x
content_here d b x h =
    rw (eq→== b b refl)
      (ap (λ n. take n (x ++ replicate 512 0)) (sym h) ∙ take-append x (replicate 512 0))

content_elsewhere :
    (d : Disk) (b c : ℕ) (x : List ℕ) → c ≢ b → content (store d b x) c ≡ content d c
content_elsewhere d b c x ne = rw (ne→== c b ne) refl

memory-IsDisk : IsDisk memory content 100
memory-IsDisk = record {
  size = length-content;
  reads = λ d b h. refl;
  writes =
      λ d b x h l. (store d b x, refl, content_here d b x l, λ c ne. content_elsewhere d b c x ne);
}

abbrev disk : Disk
disk b = if b == 3 then bytes (600 ∷ 4 ∷ 5 ∷ []) else []

abbrev file : Inode
file = record { filesize = 600; block = drop 1 (words (content disk 3)) }

loads : inode_of (content disk 3) ≡ ok file
unfolding inode_of words bytes read
loads = refl

blocks_listed : 2 ≤ length file.block
unfolding words bytes
blocks_listed = leb→le 2 (length file.block) refl

block_number : (i : ℕ) → i < 2 → block_at file i ≡ i + 4
unfolding words bytes
block_number zero h = refl
block_number (suc zero) h = refl
block_number (suc (suc i)) h = absurd (omega arith)

file-IsFile : IsFile file 100 2
file-IsFile = record { listed = blocks_listed; on_disk = λ i h. omega (arith, block_number i h) }

file-Distinct : Distinct file 2
file-Distinct i j h k e = omega (arith, block_number i h, block_number j k)

apart : (i : ℕ) → i < 2 → 3 ≢ block_at file i
apart i h e = omega (arith, block_number i h)

abbrev aligned : ℕ → Bool
aligned n = n % 4 == 0

abbrev sevens : List ℕ
sevens = replicate 50 7

abbrev zeros : List ℕ
zeros = replicate 50 0

tfs_read-Filled_example :
    (r : List ℕ) × (tfs_read memory 90 aligned disk (pos 3) sevens 50 (pos 500) ≡ ok (pos 50, r))
    × Filled (byte content disk file) 500 50 sevens r
tfs_read-Filled_example =
    tfs_read-Filled memory content 100 memory-IsDisk 90 aligned disk file 2 file-IsFile 3 50 500
      sevens (leb→le 2 3 refl) (leb→le 3 90 refl) (ltb→lt 3 100 refl) loads (leb→le 600 1024 refl)
      (ltb→lt 600 (2 ^ 31) refl) (leb→le 500 600 refl) (leb→le 50 50 refl)

tfs_write-Written_example :
    (d' : Disk) × (tfs_write memory 90 aligned disk (pos 3) (content disk 0) sevens 50 (pos 500)
      ≡ ok (d', pos 50))
    × Written content file 2 500 50 sevens disk d'
tfs_write-Written_example =
    tfs_write-Written memory content 100 memory-IsDisk 90 aligned file 2 file-IsFile file-Distinct
      (content disk 0) (length-content disk 0) disk 3 50 500 sevens (leb→le 2 3 refl)
      (leb→le 3 90 refl) (ltb→lt 3 100 refl) loads (leb→le 600 1024 refl) (ltb→lt 600 (2 ^ 31) refl)
      (leb→le 500 600 refl) (leb→le 50 50 refl)

tfs_read-tfs_write_example :
    (d' : Disk) × (r : List ℕ) × (tfs_write memory 90 aligned disk
        (pos 3)
        (content disk 0)
        sevens
        50
        (pos 500)
      ≡ ok (d', pos 50))
    × (tfs_read memory 90 aligned d' (pos 3) zeros 50 (pos 500) ≡ ok (pos 50, r))
    × ((j : ℕ) → j < 50 → get_or r j 0 ≡ get_or sevens j 0)
tfs_read-tfs_write_example =
    tfs_read-tfs_write memory content 100 memory-IsDisk 90 aligned file 2 file-IsFile file-Distinct
      (content disk 0) (length-content disk 0) disk 3 50 500 sevens zeros (leb→le 2 3 refl)
      (leb→le 3 90 refl) (ltb→lt 3 100 refl) loads apart (leb→le 600 1024 refl)
      (ltb→lt 600 (2 ^ 31) refl) (leb→le 500 600 refl) (leb→le 50 50 refl) (leb→le 50 50 refl)

-- Blocks 0, 1 and 2 are taken.
abbrev allocation : Bitmap
allocation = 7 ∷ []

allocation-IsWords : IsWords allocation
allocation-IsWords zero = ltb→lt 7 (2 ^ 32) refl
allocation-IsWords (suc i) = ltb→lt 0 (2 ^ 32) refl

allocate-Allocated_example : Yields (Allocated 20 2 allocation) (allocate 2 allocation 20)
allocate-Allocated_example =
    allocate-Allocated 2 allocation 20 allocation-IsWords (leb→le 20 32 refl)

-- The disk as volume 5, with handle 0 open on the file at position 500.
abbrev volume : Fs Disk
volume = tfs_driver memory 90 aligned [] (content disk 0) zeros (λ d. ok (vfs_ok, d))

abbrev opened : Vfs
opened = record {
  filesystems = [];
  files = record { filesystem = 5; fileid = pos 3; seek_position = pos 500 } ∷ [];
  vfs_ops = pos 0;
  vfs_usable = true;
  unmount_sem = 0;
}

handle_open :
    vfs_verify_open opened.files (pos 0)
    ≡ ok (some (0, record { filesystem = 5; fileid = pos 3; seek_position = pos 500 }))
unfolding vfs_verify_open read
handle_open = refl

vfs_read-vfs_write_example :
    (d' : Disk) × (r : List ℕ) × (v1 v2 v3 : Vfs) × (vfs_write
        (λ fs. volume)
        opened
        disk
        (pos 0)
        false
        sevens
        (pos 50)
      ≡ ok (pos 50, v1, d'))
    × (vfs_seek (λ fs. volume) v1 d' (pos 0) (pos 500) ≡ ok (vfs_ok, v2, d'))
    × (vfs_read (λ fs. volume) v2 d' (pos 0) false (pos 50) ≡ ok ((pos 50, v3, d'), r))
    × ((j : ℕ) → j < 50 → get_or r j 0 ≡ get_or sevens j 0)
vfs_read-vfs_write_example =
    vfs_read-vfs_write memory 90 aligned [] (content disk 0) zeros (λ d. ok (vfs_ok, d))
      (λ fs. volume) 5 refl opened disk 0 0 3 500 refl refl (ltb→lt 0 1 refl) handle_open content
      100 memory-IsDisk file 2 file-IsFile file-Distinct 50 49 sevens (length-content disk 0)
      (leb→le 2 3 refl) (leb→le 3 90 refl) (ltb→lt 3 100 refl) loads apart (leb→le 600 1024 refl)
      (ltb→lt 600 (2 ^ 31) refl) (leb→le 500 600 refl) refl (leb→le 50 50 refl) (leb→le 50 50 refl)

-- A file is created on an empty disk, opened and removed.
abbrev empty : Disk
empty b = if b == 1 then bytes (7 ∷ []) else []

abbrev name : List ℕ
name = 102 ∷ 0 ∷ []

abbrev created : Result (Disk × ℤ)
created = tfs_create memory 20 empty name 600

-- The inode of the new file is in block 3.
opens_created : (do (d, r) ← created; tfs_open memory 20 d name) ≡ ok (pos 3)
unfolding tfs_create tfs_open create_at create_writes clear_blocks entries_of entries_block
    find_slot find_name allocate words bytes inode_block stringcmp stringcopy copy_loop
    bitmap_findnset bitmap_sizeof bitmap_get bitmap_set read write
opens_created = refl

-- The inode and two blocks are taken, and given back.
free_after_create : (do (d, r) ← created; tfs_getfree memory 20 d) ≡ ok (pos 7168)
unfolding tfs_create tfs_getfree count_allocated create_at create_writes clear_blocks entries_of
    entries_block find_slot allocate words bytes inode_block stringcmp stringcopy copy_loop
    bitmap_findnset bitmap_sizeof bitmap_get bitmap_set read write
free_after_create = refl

free_after_remove :
    (do (d, r) ← created; (d', r') ← tfs_remove memory 20 d name; tfs_getfree memory 20 d')
    ≡ ok (pos 8704)
unfolding tfs_create tfs_remove remove_at release inode_of find_name tfs_getfree count_allocated
    create_at create_writes clear_blocks entries_of entries_block find_slot allocate words bytes
    inode_block stringcmp stringcopy copy_loop bitmap_findnset bitmap_sizeof bitmap_get bitmap_set
    read write
free_after_remove = refl
