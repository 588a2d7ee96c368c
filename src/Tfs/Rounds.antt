-- ===== src/Tfs/Rounds.antt =====
-- The blocks that a transfer of `tfs_read` or `tfs_write` (buenos/fs/tfs.c) goes through.
use osm_re_exam.Prelude.{
  ℕ, ◌+◌, ◌-◌, ◌*◌, ◌/◌, ◌%◌, ◌^◌, ◌≤◌, ◌<◌, ◌≡◌, refl, Bool, some, arith, inl, inr, Bool-cases,
  ltb, ltb→lt, ltb→ge, lt→ltb, ge→ltb,
}
use osm_re_exam.Prelude.Int.{pos}
use osm_re_exam.Tfs.{block_size, Gbd, Inode}
use osm_re_exam.Tfs.Transfer.{min, in_file}

pub min_le : (a b : ℕ) → (min a b ≤ a) × (min a b ≤ b) × (min a b < b → min a b ≡ a)
min_le a b = elim (Bool-cases (ltb a b)) [
  | inl e ↦ let h : a < b = ltb→lt a b e in rw e (omega arith, omega arith, λ _. refl)
  | inr e ↦ let h : b ≤ a = ltb→ge a b e in rw e (h, omega arith, λ q. absurd (omega arith))
]

-- The rounds of the loop, where the first block takes `first` bytes.
module _ (size offset first k : ℕ) (some_bytes : 1 ≤ size)
    (in_block : first ≤ block_size - offset % block_size) (few : first ≤ size)
    (full : first < size → first ≡ block_size - offset % block_size)
    (inside : offset + size ≤ k * block_size) where
  pub rounds_le :
      size - first ≤ ((offset + size - 1) / block_size - offset / block_size) * block_size
  rounds_le = elim (Bool-cases (ltb first size)) [
    | inl e ↦ let h = full (ltb→lt first size e) in omega arith
    | inr e ↦ let h = ltb→ge first size e in omega arith
  ]

  pub rounds_lt :
      ((offset + size - 1) / block_size - offset / block_size) * block_size
      < size - first + block_size
  rounds_lt = elim (Bool-cases (ltb first size)) [
    | inl e ↦ let h = full (ltb→lt first size e) in omega arith
    | inr e ↦ let h = ltb→ge first size e in omega arith
  ]

  pub rounds_inside :
      offset / block_size + 1 + ((offset + size - 1) / block_size - offset / block_size) ≤ k
  rounds_inside = omega arith

  pub next_block : 1 ≤ size - first → (offset / block_size + 1) * block_size ≡ offset + first
  next_block h = let e = full (omega arith) in omega arith

pub in_file_lem :
    {D : Type 0} (gbd : Gbd D) (totalblocks : ℕ) (aligned : ℕ → Bool) (inode : Inode) (start : ℕ)
    → inode.filesize < 2 ^ 31
    → start ≤ inode.filesize
    → in_file gbd totalblocks aligned inode (pos start) ≡ some start
unfolding in_file
in_file_lem gbd totalblocks aligned inode start h k =
    rw (lt→ltb inode.filesize (2 ^ 31) h, ge→ltb inode.filesize start k) refl
