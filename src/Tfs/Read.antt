-- ===== src/Tfs/Read.antt =====
-- What `tfs_read` (buenos/fs/tfs.c) puts into the buffer of its caller.
use osm_re_exam.Prelude.{
  ℕ, zero, suc, ◌+◌, ◌-◌, ◌*◌, ◌/◌, ◌%◌, ◌≤◌, ◌<◌, ◌≡◌, refl, ◌≢◌, sym, ap, ◌∙◌, List, ◌++◌, Bool,
  true, arith, length, get_or, take, drop, length-drop, get_or-drop, inl, inr, Bool-cases, ne→==,
  ge→ltb, ◌==◌, ==→eq, ==→ne, ◌^◌,
}
use osm_re_exam.Prelude.Int.{pos}
use osm_re_exam.Prelude.Result.{ok, read-ok}
use osm_re_exam.Libc.Copy.{over, memcopy-over}
use osm_re_exam.Tfs.{block_size, Gbd, Inode, inode_of}
use osm_re_exam.Tfs.Transfer.{min, read_rest, read_blocks, read_loaded, tfs_read}
use osm_re_exam.Tfs.Rounds.{min_le, rounds_le, rounds_lt, rounds_inside, next_block, in_file_lem}
use osm_re_exam.Tfs.Block.{
  IsDisk, block_at, IsFile, byte, Filled, length-over, over-inside, over-outside, Filled-append,
  Filled-start,
}

module _ {D : Type 0} (gbd : Gbd D) (content : D → ℕ → List ℕ) (limit : ℕ)
    (disk : IsDisk gbd content limit) where
  -- The bytes of one block of the file.
  byte-block :
      (d : D) (inode : Inode) (p j : ℕ)
      → p % block_size + j < block_size
      → get_or (drop (p % block_size) (content d (block_at inode (p / block_size)))) j 0
        ≡ byte content d inode (p + j)
  byte-block d inode p j h =
      let e : (p + j) / block_size ≡ p / block_size = omega arith in
      let f : (p + j) % block_size ≡ p % block_size + j = omega arith in
      get_or-drop (p % block_size) j (content d (block_at inode (p / block_size))) 0
      ∙ ap (λ i. get_or (content d (block_at inode (p / block_size))) i 0) (sym f)
      ∙ ap (λ i. get_or (content d (block_at inode i)) ((p + j) % block_size) 0) (sym e)

  byte-start :
      (d : D) (inode : Inode) (b1 j : ℕ)
      → j < block_size
      → get_or (content d (block_at inode b1)) j 0 ≡ byte content d inode (b1 * block_size + j)
  byte-start d inode b1 j h =
      let e : (b1 * block_size + j) / block_size ≡ b1 = omega arith in
      let f : (b1 * block_size + j) % block_size ≡ j = omega arith in
      ap (λ i. get_or (content d (block_at inode b1)) i 0) (sym f)
      ∙ ap (λ i. get_or (content d (block_at inode i)) ((b1 * block_size + j) % block_size) 0)
          (sym e)

  module _ (totalblocks : ℕ) (aligned : ℕ → Bool) (d : D) (inode : Inode) (k : ℕ)
      (file : IsFile inode limit k) where
    read_rest-Filled :
        (n b1 left : ℕ) (buffer : List ℕ)
        → b1 + n ≤ k
        → left ≤ n * block_size
        → n * block_size < left + block_size
        → left ≤ length buffer
        → (r : List ℕ) × (read_rest gbd totalblocks aligned n d inode b1 left buffer ≡ ok (true, r))
          × Filled (byte content d inode) (b1 * block_size) left buffer r
    unfolding read_rest
    read_rest-Filled zero b1 left buffer h l g s = (
      buffer,
      refl,
      record { size = refl; inside = λ j q. absurd (omega arith); outside = λ j q. refl },
    )
    read_rest-Filled (suc zero) b1 left buffer h l g s =
        let c : List ℕ = content d (block_at inode b1) in
        let long : left ≤ length c = omega (arith, disk.size d (block_at inode b1)) in
        (
          over left buffer c,
          rw
              (
                read-ok inode.block b1 0 (omega (arith, file.listed)),
                disk.reads d (block_at inode b1) (file.on_disk b1 (omega arith)),
                memcopy-over (aligned left) left buffer c s long,
              )
              refl,
          record {
            size = length-over left buffer c s long;
            inside =
                λ j q. over-inside left j buffer c long q ∙ byte-start d inode b1 j (omega arith);
            outside = λ j q. over-outside left j buffer c long q;
          },
        )
    read_rest-Filled (suc (suc n)) b1 left buffer h l g s =
        let c : List ℕ = content d (block_at inode b1) in
        let long : block_size ≤ length c = omega (arith, disk.size d (block_at inode b1)) in
        let copied : List ℕ = over block_size buffer c in
        let (r, e, f) =
          read_rest-Filled (suc n) (b1 + 1) (left - block_size) (drop block_size copied)
            (omega arith) (omega arith) (omega arith)
            (omega (
              arith,
              length-drop block_size copied,
              length-over block_size buffer c (omega arith) long,
            )) in
        let next : (b1 + 1) * block_size ≡ b1 * block_size + block_size = omega arith in
        (
          take block_size copied ++ r,
          rw
              (
                read-ok inode.block b1 0 (omega (arith, file.listed)),
                disk.reads d (block_at inode b1) (file.on_disk b1 (omega arith)),
                memcopy-over (aligned left) block_size buffer c (omega arith) long,
                ne→== (suc n) 0 (λ e. omega arith),
                e,
              )
              refl,
          Filled-append (byte content d inode) (b1 * block_size) block_size left buffer c r
              (omega arith) (omega arith) long (λ j q. byte-start d inode b1 j q) (rw next at f),
        )

    read_blocks-Filled :
        (size offset : ℕ) (buffer : List ℕ)
        → 1 ≤ size
        → offset + size ≤ k * block_size
        → size ≤ length buffer
        → (r : List ℕ) × (read_blocks gbd totalblocks aligned d inode buffer size offset
            ≡ ok (pos size, r))
          × Filled (byte content d inode) offset size buffer r
    unfolding read_blocks
    read_blocks-Filled size offset buffer p h s =
        let o : ℕ = offset % block_size in
        let b1 : ℕ = offset / block_size in
        let n : ℕ = (offset + size - 1) / block_size - b1 in
        let first : ℕ = min (block_size - o) size in
        let c : List ℕ = drop o (content d (block_at inode b1)) in
        let copied : List ℕ = over first buffer c in
        let (m1, m2, m3) = min_le (block_size - o) size in
        let lc : length c ≡ block_size - o =
          omega (
            arith,
            length-drop o (content d (block_at inode b1)),
            disk.size d (block_at inode b1),
          ) in
        let long : first ≤ length c = omega (arith, lc) in
        let (r, e, f) =
          read_rest-Filled n (b1 + 1) (size - first) (drop first copied)
            (rounds_inside size offset first k p m1 m2 m3 h)
            (rounds_le size offset first k p m1 m2 m3 h)
            (rounds_lt size offset first k p m1 m2 m3 h)
            (omega
              (arith, length-drop first copied, length-over first buffer c (omega arith) long)) in
        (
          take first copied ++ r,
          rw
              (
                read-ok inode.block b1 0 (omega (arith, file.listed)),
                disk.reads d (block_at inode b1) (file.on_disk b1 (omega arith)),
                memcopy-over (aligned size) first buffer c (omega arith) long,
                e,
              )
              refl,
          Filled-append (byte content d inode) offset first size buffer c r m2 (omega arith) long
              (λ j q. byte-block d inode offset j (omega arith))
              (Filled-start (byte content d inode) _ _ _ _ _
                (next_block size offset first k p m1 m2 m3 h) f),
        )

module _ {D : Type 0} (gbd : Gbd D) (content : D → ℕ → List ℕ) (limit : ℕ)
    (disk : IsDisk gbd content limit) (totalblocks : ℕ) (aligned : ℕ → Bool) where
  read_loaded-Filled :
      (d : D) (inode : Inode) (k : ℕ) (file : IsFile inode limit k) (bufsize start : ℕ)
      (buffer : List ℕ)
      → inode.filesize ≤ k * block_size
      → inode.filesize < 2 ^ 31
      → start ≤ inode.filesize
      → min bufsize (inode.filesize - start) ≤ length buffer
      → (r : List ℕ) × (read_loaded gbd totalblocks aligned d inode buffer bufsize (pos start)
          ≡ ok (pos (min bufsize (inode.filesize - start)), r))
        × Filled (byte content d inode) start (min bufsize (inode.filesize - start)) buffer r
  unfolding read_loaded
  read_loaded-Filled d inode k file bufsize start buffer h4 h5 h6 h7 =
      let size : ℕ = min bufsize (inode.filesize - start) in
      let (m1, m2, m3) = min_le bufsize (inode.filesize - start) in
      let inner = in_file_lem gbd totalblocks aligned inode start h5 h6 in
      elim (Bool-cases (size == 0)) [
        | inl e ↦
            let z : size ≡ 0 = ==→eq size 0 e in
            (
              buffer,
              rw (read_loaded, inner, e, z) refl,
              record { size = refl; inside = λ j q. absurd (omega arith); outside = λ j q. refl },
            )
        | inr e ↦
            let z : size ≢ 0 = ==→ne size 0 e in
            let (r, g, f) =
              read_blocks-Filled gbd content limit disk totalblocks aligned d inode k file size
                start buffer (omega arith) (omega arith) h7 in
            (r, rw (read_loaded, inner, e, g) refl, f)
      ]

-- On a disk that makes no error, for an inode whose blocks are on the disk and cover the file, and a
-- start within the file, `tfs_read` reads as much as is asked for and left in the file,
-- returns its size, puts exactly those bytes of the file at the front of the buffer and leaves the rest.
pub tfs_read-Filled :
    {D : Type 0} (gbd : Gbd D) (content : D → ℕ → List ℕ) (limit : ℕ)
    (disk : IsDisk gbd content limit) (totalblocks : ℕ) (aligned : ℕ → Bool) (d : D) (inode : Inode)
    (k : ℕ) (file : IsFile inode limit k) (fileid bufsize start : ℕ) (buffer : List ℕ)
    → 2 ≤ fileid
    → fileid ≤ totalblocks
    → fileid < limit
    → inode_of (content d fileid) ≡ ok inode
    → inode.filesize ≤ k * block_size
    → inode.filesize < 2 ^ 31
    → start ≤ inode.filesize
    → min bufsize (inode.filesize - start) ≤ length buffer
    → (r : List ℕ) × (tfs_read gbd totalblocks aligned d (pos fileid) buffer bufsize (pos start)
        ≡ ok (pos (min bufsize (inode.filesize - start)), r))
      × Filled (byte content d inode) start (min bufsize (inode.filesize - start)) buffer r
unfolding tfs_read
tfs_read-Filled gbd content limit disk totalblocks aligned d inode k file fileid bufsize start
      buffer h1 h2 h3 load h4 h5 h6 h7 =
    let (r, e, f) =
      read_loaded-Filled gbd content limit disk totalblocks aligned d inode k file bufsize start
        buffer h4 h5 h6 h7 in
    (
      r,
      rw (disk.reads d fileid h3, load, ge→ltb fileid 2 h1, ge→ltb totalblocks fileid h2, e) refl,
      f,
    )
