-- ===== src/Tfs/Write.antt =====
-- What `tfs_write` (buenos/fs/tfs.c) changes on the disk.
use osm_re_exam.Prelude.{
  ℕ, zero, suc, ◌+◌, ◌-◌, ◌*◌, ◌/◌, ◌%◌, ◌^◌, ◌≤◌, ◌<◌, ◌≡◌, refl, ◌≢◌, sym, ap, ◌∙◌, List, ◌++◌,
  Bool, true, some, arith, length, get_or, take, drop, length-drop, length-take, length-append,
  get_or-drop, get_or-take, get_or-append_left, get_or-append_right, inl, inr, Bool-cases, ltb,
  ltb→ge, ge→ltb, ◌==◌, ==→eq, ==→ne, ne→==,
}
use osm_re_exam.Prelude.Int.{pos}
use osm_re_exam.Prelude.Result.{ok, read-ok}
use osm_re_exam.Libc.Copy.{over, memcopy-over}
use osm_re_exam.Tfs.{block_size, Gbd, Inode, inode_of}
use osm_re_exam.Tfs.Transfer.{min, write_one, write_rest, write_blocks, write_loaded, tfs_write}
use osm_re_exam.Tfs.Rounds.{min_le, rounds_le, rounds_lt, rounds_inside, next_block, in_file_lem}
use osm_re_exam.Tfs.Block.{IsDisk, block_at, IsFile, length-over, over-inside, over-outside}
use osm_re_exam.Tfs.Written.{
  Written, Distinct, Written-none, Written-append, Written-start, Written-block,
}

module _ {D : Type 0} (gbd : Gbd D) (content : D → ℕ → List ℕ) (limit : ℕ)
    (disk : IsDisk gbd content limit) where
  module _ (totalblocks : ℕ) (aligned : ℕ → Bool) (inode : Inode) (k : ℕ)
      (file : IsFile inode limit k) (distinct : Distinct inode k) (unread : List ℕ)
      (room : length unread ≡ block_size) where
    -- The write of a block that was `c` before, as far as it is not written.
    store-Written :
        (d : D) (b1 at count : ℕ) (c source : List ℕ)
        → b1 < k
        → at + count ≤ block_size
        → count ≤ length source
        → length c ≡ block_size
        → ((j : ℕ) → j < at → get_or c j 0 ≡ get_or (content d (block_at inode b1)) j 0)
        → ((j : ℕ)
            → at + count ≤ j
            → j < block_size
            → get_or c j 0 ≡ get_or (content d (block_at inode b1)) j 0)
        → (d' : D) × (gbd.write_block d
              (block_at inode b1)
              (take at c ++ over count (drop at c) source)
            ≡ some d')
          × Written content inode k (b1 * block_size + at) count source d d'
    store-Written d b1 at count c source hb fits enough long front back =
        let x : List ℕ = take at c ++ over count (drop at c) source in
        let lt : length (take at c) ≡ at = length-take at c (omega arith) in
        let ld = length-drop at c in
        let lo = length-over count (drop at c) source (omega arith) enough in
        let (d', e, new, same) =
          disk.writes d (block_at inode b1) x (file.on_disk b1 hb)
            (omega (arith, length-append (take at c) (over count (drop at c) source))) in
        let tail : (j : ℕ) → get_or x (at + j) 0 ≡ get_or (over count (drop at c) source) j 0 = λ j.
          ap (λ i. get_or x (i + j) 0) (sym lt)
          ∙ get_or-append_right (take at c) (over count (drop at c) source) j 0 in
        (
          d',
          e,
          Written-block content inode k b1 at count source x d d' distinct hb fits new same
              (λ j q. tail j ∙ over-inside count j (drop at c) source enough q)
              (λ j q.
                get_or-append_left (take at c) (over count (drop at c) source) j 0 (omega arith)
                ∙ get_or-take at j c 0 q
                ∙ front j q)
              (λ j q h.
                let f : at + (j - at) ≡ j = omega arith in
                ap (λ i. get_or x i 0) (sym f)
                ∙ tail (j - at)
                ∙ over-outside count (j - at) (drop at c) source enough (omega arith)
                ∙ get_or-drop at (j - at) c 0
                ∙ ap (λ i. get_or c i 0) f
                ∙ back j q h),
        )

    write_one-Written :
        (d : D) (b1 at count : ℕ) (source : List ℕ)
        → b1 < k
        → at + count ≤ block_size
        → count ≤ length source
        → (d' : D) × (write_one gbd totalblocks aligned d inode b1 at count unread source
            ≡ ok (d', true))
          × Written content inode k (b1 * block_size + at) count source d d'
    unfolding write_one
    write_one-Written d b1 at count source hb fits enough =
        elim (Bool-cases (ltb count block_size)) [
          | inl e ↦
              let c : List ℕ = content d (block_at inode b1) in
              let long = disk.size d (block_at inode b1) in
              let (d', w, f) =
                store-Written d b1 at count c source hb fits enough long (λ j q. refl)
                  (λ j q h. refl) in
              (
                d',
                rw
                    (
                      read-ok inode.block b1 0 (omega (arith, file.listed)),
                      e,
                      disk.reads d (block_at inode b1) (file.on_disk b1 hb),
                      memcopy-over (aligned count) count (drop at c) source
                          (omega (arith, length-drop at c)) enough,
                      w,
                    )
                    refl,
                f,
              )
          | inr e ↦
              let whole = ltb→ge count block_size e in
              let (d', w, f) =
                store-Written d b1 at count unread source hb fits enough room
                  (λ j q. absurd (omega arith)) (λ j q h. absurd (omega arith)) in
              (
                d',
                rw
                    (
                      read-ok inode.block b1 0 (omega (arith, file.listed)),
                      e,
                      memcopy-over (aligned count) count (drop at unread) source
                          (omega (arith, length-drop at unread)) enough,
                      w,
                    )
                    refl,
                f,
              )
        ]

    write_rest-Written :
        (n b1 left : ℕ) (d : D) (source : List ℕ)
        → b1 + n ≤ k
        → left ≤ n * block_size
        → n * block_size < left + block_size
        → left ≤ length source
        → (d' : D) × (write_rest gbd totalblocks aligned n d inode b1 left unread source
            ≡ ok (d', true))
          × Written content inode k (b1 * block_size) left source d d'
    unfolding write_rest
    write_rest-Written zero b1 left d source h l g s =
        let e : left ≡ 0 = omega arith in
        (d, refl, rw e (Written-none content inode k (b1 * block_size) source d))
    write_rest-Written (suc zero) b1 left d source h l g s =
        let (d', w, f) = write_one-Written d b1 0 left source (omega arith) (omega arith) s in
        let e : b1 * block_size + 0 ≡ b1 * block_size = omega arith in (d', rw w refl, rw e at f)
    write_rest-Written (suc (suc n)) b1 left d source h l g s =
        let (d1, w, f) =
          write_one-Written d b1 0 block_size source (omega arith) (omega arith) (omega arith) in
        let (d2, v, q) =
          write_rest-Written (suc n) (b1 + 1) (left - block_size) d1 (drop block_size source)
            (omega arith) (omega arith) (omega arith)
            (omega (arith, length-drop block_size source)) in
        let e : b1 * block_size + 0 ≡ b1 * block_size = omega arith in
        let next : (b1 + 1) * block_size ≡ b1 * block_size + block_size = omega arith in
        let all : block_size + (left - block_size) ≡ left = omega arith in
        let both =
          Written-append content inode k (b1 * block_size) block_size (left - block_size) source d
            d1 d2 (omega arith) (rw e at f) (rw next at q) in
        (d2, rw (ne→== (suc n) 0 (λ z. omega arith), w, v) refl, rw all at both)

    write_blocks-Written :
        (size offset : ℕ) (d : D) (source : List ℕ)
        → 1 ≤ size
        → offset + size ≤ k * block_size
        → size ≤ length source
        → (d' : D) × (write_blocks gbd totalblocks aligned d inode unread source size offset
            ≡ ok (d', pos size))
          × Written content inode k offset size source d d'
    unfolding write_blocks
    write_blocks-Written size offset d source p h s =
        let b1 : ℕ = offset / block_size in
        let n : ℕ = (offset + size - 1) / block_size - b1 in
        let first : ℕ = min (block_size - offset % block_size) size in
        let (m1, m2, m3) = min_le (block_size - offset % block_size) size in
        let (d1, w, f) =
          write_one-Written d b1 (offset % block_size) first source (omega arith) (omega arith)
            (omega arith) in
        let (d2, v, q) =
          write_rest-Written n (b1 + 1) (size - first) d1 (drop first source)
            (rounds_inside size offset first k p m1 m2 m3 h)
            (rounds_le size offset first k p m1 m2 m3 h)
            (rounds_lt size offset first k p m1 m2 m3 h)
            (omega (arith, length-drop first source)) in
        let e : b1 * block_size + offset % block_size ≡ offset = omega arith in
        let all : first + (size - first) ≡ size = omega arith in
        let both =
          Written-append content inode k offset first (size - first) source d d1 d2 (omega arith)
            (rw e at f)
            (Written-start content inode k _ _ _ _ _ _ (next_block size offset first k p m1 m2 m3 h)
              (omega arith) q) in
        (d2, rw (w, v) refl, rw all at both)

    write_loaded-Written :
        (d : D) (datasize start : ℕ) (source : List ℕ)
        → inode.filesize ≤ k * block_size
        → inode.filesize < 2 ^ 31
        → start ≤ inode.filesize
        → min datasize (inode.filesize - start) ≤ length source
        → (d' : D) × (write_loaded gbd totalblocks aligned d inode unread source datasize
              (pos start)
            ≡ ok (d', pos (min datasize (inode.filesize - start))))
          × Written content inode k start (min datasize (inode.filesize - start)) source d d'
    unfolding write_loaded
    write_loaded-Written d datasize start source h4 h5 h6 h7 =
        let size : ℕ = min datasize (inode.filesize - start) in
        let (m1, m2, m3) = min_le datasize (inode.filesize - start) in
        let inner = in_file_lem gbd totalblocks aligned inode start h5 h6 in
        elim (Bool-cases (size == 0)) [
          | inl e ↦
              let z : size ≡ 0 = ==→eq size 0 e in
              (
                d,
                rw (write_loaded, inner, e, z) refl,
                rw z (Written-none content inode k start source d),
              )
          | inr e ↦
              let z : size ≢ 0 = ==→ne size 0 e in
              let (d', g, f) =
                write_blocks-Written size start d source (omega arith) (omega arith) h7 in
              (d', rw (write_loaded, inner, e, g) refl, f)
        ]

-- On a disk that makes no error, for an inode whose blocks are different ones, are on the disk and cover
-- the file, and a start within the file, `tfs_write` writes as much as is asked for and left in the file
-- and returns its size. Those bytes of the file are then the bytes of the source, the others are what
-- they were, and no block outside of the file has changed.
pub tfs_write-Written :
    {D : Type 0} (gbd : Gbd D) (content : D → ℕ → List ℕ) (limit : ℕ)
    (disk : IsDisk gbd content limit) (totalblocks : ℕ) (aligned : ℕ → Bool) (inode : Inode) (k : ℕ)
    (file : IsFile inode limit k) (distinct : Distinct inode k) (unread : List ℕ)
    (room : length unread ≡ block_size) (d : D) (fileid datasize start : ℕ) (source : List ℕ)
    → 2 ≤ fileid
    → fileid ≤ totalblocks
    → fileid < limit
    → inode_of (content d fileid) ≡ ok inode
    → inode.filesize ≤ k * block_size
    → inode.filesize < 2 ^ 31
    → start ≤ inode.filesize
    → min datasize (inode.filesize - start) ≤ length source
    → (d' : D) × (tfs_write gbd totalblocks aligned d
          (pos fileid)
          unread
          source
          datasize
          (pos start)
        ≡ ok (d', pos (min datasize (inode.filesize - start))))
      × Written content inode k start (min datasize (inode.filesize - start)) source d d'
unfolding tfs_write
tfs_write-Written gbd content limit disk totalblocks aligned inode k file distinct unread room d
      fileid datasize start source h1 h2 h3 load h4 h5 h6 h7 =
    let (d', e, f) =
      write_loaded-Written gbd content limit disk totalblocks aligned inode k file distinct unread
        room d datasize start source h4 h5 h6 h7 in
    (
      d',
      rw (disk.reads d fileid h3, load, ge→ltb fileid 2 h1, ge→ltb totalblocks fileid h2, e) refl,
      f,
    )
