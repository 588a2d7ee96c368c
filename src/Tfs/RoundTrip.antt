-- ===== src/Tfs/RoundTrip.antt =====
-- A file that is written and then read (buenos/fs/tfs.c).
use osm_re_exam.Prelude.{ℕ, ◌-◌, ◌*◌, ◌^◌, ◌≤◌, ◌<◌, ◌≡◌, ◌≢◌, ap, ◌∙◌, List, Bool, length, get_or}
use osm_re_exam.Prelude.Int.{pos}
use osm_re_exam.Prelude.Result.{ok}
use osm_re_exam.Tfs.{block_size, Gbd, Inode, inode_of}
use osm_re_exam.Tfs.Transfer.{min, tfs_read, tfs_write}
use osm_re_exam.Tfs.Block.{IsDisk, block_at, IsFile}
use osm_re_exam.Tfs.Read.{tfs_read-Filled}
use osm_re_exam.Tfs.Written.{Distinct}
use osm_re_exam.Tfs.Write.{tfs_write-Written}

-- For a file as in `tfs_write-Written` whose inode is none of its own blocks, a `tfs_read` at the
-- place and of the size of a `tfs_write`, after it and with a buffer of the size, returns that size and
-- a buffer whose bytes are those that were written.
pub tfs_read-tfs_write :
    {D : Type 0} (gbd : Gbd D) (content : D → ℕ → List ℕ) (limit : ℕ)
    (disk : IsDisk gbd content limit) (totalblocks : ℕ) (aligned : ℕ → Bool) (inode : Inode) (k : ℕ)
    (file : IsFile inode limit k) (distinct : Distinct inode k) (unread : List ℕ)
    (room : length unread ≡ block_size) (d : D) (fileid datasize start : ℕ) (source buffer : List ℕ)
    → 2 ≤ fileid
    → fileid ≤ totalblocks
    → fileid < limit
    → inode_of (content d fileid) ≡ ok inode
    → ((i : ℕ) → i < k → fileid ≢ block_at inode i)
    → inode.filesize ≤ k * block_size
    → inode.filesize < 2 ^ 31
    → start ≤ inode.filesize
    → min datasize (inode.filesize - start) ≤ length source
    → min datasize (inode.filesize - start) ≤ length buffer
    → (d' : D) × (r : List ℕ) × (tfs_write gbd totalblocks aligned d
          (pos fileid)
          unread
          source
          datasize
          (pos start)
        ≡ ok (d', pos (min datasize (inode.filesize - start))))
      × (tfs_read gbd totalblocks aligned d' (pos fileid) buffer datasize (pos start)
          ≡ ok (pos (min datasize (inode.filesize - start)), r))
      × ((j : ℕ) → j < min datasize (inode.filesize - start) → get_or r j 0 ≡ get_or source j 0)
tfs_read-tfs_write gbd content limit disk totalblocks aligned inode k file distinct unread room d
      fileid datasize start source buffer h1 h2 h3 load apart h4 h5 h6 h7 h8 =
    let (d', e, w) =
      tfs_write-Written gbd content limit disk totalblocks aligned inode k file distinct unread room
        d fileid datasize start source h1 h2 h3 load h4 h5 h6 h7 in
    let load' : inode_of (content d' fileid) ≡ ok inode =
      ap inode_of (w.others fileid apart) ∙ load in
    let (r, g, f) =
      tfs_read-Filled gbd content limit disk totalblocks aligned d' inode k file fileid datasize
        start buffer h1 h2 h3 load' h4 h5 h6 h8 in
    (d', r, e, g, λ j q. f.inside j q ∙ w.inside j q)
