-- ===== src/Heap/Shape.antt =====
-- `heap_insert` fills the tree level by level, from the left: spot number k of the tree, counted
-- from 1 at the root, is reached along the binary digits of k below the leading one.
use native.Mathlib.Nat.{
  div-le_self, pow-le-pow_right, one-le-pow, div-div-eq-div-mul, mul_comm, pow-suc,
}
use osm_re_exam.Prelude.{
  ℕ, zero, suc, ◌+◌, ◌/◌, ◌^◌, ◌≤◌, ◌<◌, ◌≡◌, ◌≢◌, refl, ◌∙◌, Bool, true, false, ◌&&◌, ◌||◌, inl,
  inr, bit_and, ltb, leb, ◌==◌, if◌then◌else◌, arith, Bool-cases, ==→eq, ==→ne,
}
use osm_re_exam.Prelude.Bits.{digit, digit-lt_two, digit-eq_shift, bit_and-pow, two-pow-suc}
use osm_re_exam.Heap.{
  Node, leaf, node, Heap, merge_on_path, insert_below, insert_on_path, heap_insert,
}

-- Is there a node at depth `d` along the low `d` digits of `k`, the highest first?
unfoldable pub occupied : {T : Type 0} → Node T → ℕ → ℕ → Bool
occupied leaf d k = false
occupied (node l r v) zero k = true
occupied (node l r v) (suc d) k = if digit k d == 1 then occupied r d k else occupied l d k

-- The spots of the tree are numbers 1 to `n`.
abbrev pub IsComplete : {T : Type 0} → Node T → ℕ → Type 0
IsComplete t n = (d k : ℕ) → 2 ^ d ≤ k → k < 2 ^ suc d → occupied t d k ≡ leb k n

-- The low `d` digits of `p` and `q` agree.
same : ℕ → ℕ → ℕ → Bool
same zero p q = true
same (suc d) p q = (digit p d == digit q d) && same d p q

-- The spot at depth `d` along `p` is the first free one on its path.
abbrev Free : {T : Type 0} → Node T → ℕ → ℕ → Type 0
Free leaf zero p = Unit {0}
Free leaf (suc d) p = ⊥
Free (node l r v) zero p = ⊥
Free (node l r v) (suc d) p = Free (if digit p d == 1 then r else l) d p

-- The test of the code for the direction.
goes_right : (d p : ℕ) → ltb 0 (bit_and p (2 ^ d)) ≡ (digit p d == 1)
goes_right d p = grind (arith, bit_and-pow d p, digit-lt_two d p, one-le-pow d 2)

half_mask : (d : ℕ) → 2 ^ suc d / 2 ≡ 2 ^ d
half_mask d = omega (arith, two-pow-suc d)

-- What the tree gains when spot (`d`, `p`) is filled.
abbrev Gains : {T : Type 0} → Node T → Node T → ℕ → ℕ → Type 0
Gains t t' d p = (e q : ℕ) → occupied t' e q ≡ (occupied t e q || ((e == d) && same d p q))

div-two-pow-suc : (x k : ℕ) → x / 2 ^ suc k ≡ x / 2 / 2 ^ k
div-two-pow-suc x k = rw (div-div-eq-div-mul, pow-suc 2 k, mul_comm (2 ^ k) 2)

digit-shift : (k x e : ℕ) → digit (x / 2 ^ k) e ≡ digit x (e + k)
unfolding digit
digit-shift zero x e =
    let same_x : x / 2 ^ 0 ≡ x = omega arith in
    let same_e : e + 0 ≡ e = omega arith in rw (same_x, same_e)
digit-shift (suc k) x e =
    let next : e + suc k ≡ suc (e + k) = omega arith in
    rw (div-two-pow-suc x k, next) (digit-shift k (x / 2) e)

-- The range of a number after its `k` lowest digits are dropped.
shift_range :
    (k e x : ℕ)
    → 2 ^ (e + k) ≤ x
    → x < 2 ^ suc (e + k)
    → (2 ^ e ≤ x / 2 ^ k) × (x / 2 ^ k < 2 ^ suc e) × (x / 2 ^ k ≤ x)
shift_range zero e x lo hi =
    let same_x : x / 2 ^ 0 ≡ x = omega arith in
    let same_e : e + 0 ≡ e = omega arith in
    (rw same_x (rw same_e at lo), rw same_x (rw same_e at hi), omega arith)
shift_range (suc k) e x lo hi =
    let next : e + suc k ≡ suc (e + k) = omega arith in
    let lo' : 2 ^ suc (e + k) ≤ x = rw next at lo in
    let hi' : x < 2 ^ suc (suc (e + k)) = rw next at hi in
    let (a, b, c) =
      shift_range k e (x / 2) (omega (arith, two-pow-suc (e + k)))
        (omega (arith, two-pow-suc (suc (e + k)))) in
    rw (div-two-pow-suc x k) (a, b, omega arith)

module _ {T : Type 0} where
  -- A subtree that gains a spot, seen from its parent.
  Gains-right :
      (l r r' : Node T) (v v' : T) (d p : ℕ)
      → (digit p d == 1) ≡ true
      → Gains r r' d p
      → Gains (node l r v) (node l r' v') (suc d) p
  unfolding occupied same
  Gains-right l r r' v v' d p right g zero q = refl
  Gains-right l r r' v v' d p right g (suc e) q = ground (arith, g e q, digit-lt_two d q)

  Gains-left :
      (l l' r : Node T) (v v' : T) (d p : ℕ)
      → (digit p d == 1) ≡ false
      → Gains l l' d p
      → Gains (node l r v) (node l' r v') (suc d) p
  unfolding occupied same
  Gains-left l l' r v v' d p left g zero q = refl
  Gains-left l l' r v v' d p left g (suc e) q =
      ground (arith, g e q, digit-lt_two d p, digit-lt_two d q)

  merge-Gains :
      (t : Node T) (v : T) (d p : ℕ) → Free t d p → Gains t (merge_on_path t v p (2 ^ d)) d p
  unfolding merge_on_path occupied same
  merge-Gains leaf v zero p f zero q = refl
  merge-Gains leaf v zero p f (suc e) q = ground arith
  merge-Gains leaf v (suc d) p f e q = elim f [ ]
  merge-Gains (node l r w) v zero p f e q = elim f [ ]
  merge-Gains (node l r w) v (suc d) p f e q = elim (Bool-cases (digit p d == 1)) [
    | inl right ↦
        rw (half_mask d, goes_right d p, right)
          (Gains-right l r _ w v d p right (merge-Gains r w d p (rw (right, Free) at f)) e q)
    | inr left ↦
        rw (half_mask d, goes_right d p, left)
          (Gains-left l _ r w v d p left (merge-Gains l w d p (rw (left, Free) at f)) e q)
  ]

  insert-Gains :
      (less : T → T → Bool) (t : Node T) (v : T) (d p : ℕ)
      → Free t d p
      → Gains t (insert_below less t v p (2 ^ d)) d p
  unfolding insert_below
  insert-Gains less leaf v d p f = merge-Gains leaf v d p f
  insert-Gains less (node l r w) v zero p f = elim f [ ]
  insert-Gains less (node l r w) v (suc d) p f = elim (Bool-cases (less v w)) [
    | inr stop ↦ rw stop (merge-Gains (node l r w) v (suc d) p f)
    | inl down ↦ rw down (elim (Bool-cases (digit p d == 1)) [
      | inl right ↦
          rw (half_mask d, goes_right d p, right)
            (Gains-right l r _ w w d p right (insert-Gains less r v d p (rw (right, Free) at f)))
      | inr left ↦
          rw (half_mask d, goes_right d p, left)
            (Gains-left l _ r w w d p left (insert-Gains less l v d p (rw (left, Free) at f)))
    ])
  ]

  -- If the spots above (`d`, `p`) are filled and that one is not, it is the first free one.
  Free-occupied :
      (t : Node T) (d p : ℕ)
      → ((e k : ℕ) → e + suc k ≡ d → occupied t e (p / 2 ^ suc k) ≡ true)
      → occupied t d p ≡ false
      → Free t d p
  unfolding occupied
  Free-occupied leaf zero p above free = tt
  Free-occupied leaf (suc d) p above free = cc (above 0 d (omega arith))
  Free-occupied (node l r v) zero p above free = cc
  Free-occupied (node l r v) (suc d) p above free = elim (Bool-cases (digit p d == 1)) [
    | inl right ↦
        rw (right, Free)
          (Free-occupied r d p
            (λ e k h. ground (arith, above (suc e) k (omega arith), digit-shift (suc k) p e))
            (rw right at free))
    | inr left ↦
        rw (left, Free)
          (Free-occupied l d p
            (λ e k h. ground (arith, above (suc e) k (omega arith), digit-shift (suc k) p e))
            (rw left at free))
  ]

same_refl : (d p : ℕ) → same d p p ≡ true
unfolding same
same_refl zero p = refl
same_refl (suc d) p = ground (arith, same_refl d p)

-- Numbers that agree above digit `d` and in the digits below it are the same.
eq_of_same : (d p q : ℕ) → p / 2 ^ d ≡ q / 2 ^ d → same d p q ≡ true → p ≡ q
unfolding same
eq_of_same zero p q above h = omega arith
eq_of_same (suc d) p q above h =
    eq_of_same d p q
      (ground
        (arith, div-two-pow-suc' p, div-two-pow-suc' q, digit-eq_shift d p, digit-eq_shift d q))
      (ground arith)
  where
    div-two-pow-suc' : (x : ℕ) → x / 2 ^ suc d ≡ x / 2 ^ d / 2
    div-two-pow-suc' x = rw (div-div-eq-div-mul, pow-suc 2 d)

same-eq :
    (d p q : ℕ) → 2 ^ d ≤ p → p < 2 ^ suc d → 2 ^ d ≤ q → q < 2 ^ suc d → same d p q ≡ (p == q)
same-eq d p q lp hp lq hq = elim (Bool-cases (p == q)) [
  | inl e ↦ rw (==→eq p q e) (same_refl d q ∙ ground arith)
  | inr e ↦
      rw e (ground (arith, eq_of_same d p q (omega (arith, one p lp hp, one q lq hq)), ==→ne p q e))
]
  where
    one : (x : ℕ) → 2 ^ d ≤ x → x < 2 ^ suc d → x / 2 ^ d ≡ 1
    one x lo hi =
        let start : 0 + d ≡ d = omega arith in
        let (a, b, c) = shift_range d 0 x (rw start lo) (rw start hi) in omega arith

log_unique : (a b x : ℕ) → 2 ^ a ≤ x → x < 2 ^ suc b → a ≤ b
log_unique a b x lo hi = elim (Bool-cases (leb a b)) [
  | inl le ↦ ground arith
  | inr gt ↦
      let up : 2 ^ suc b ≤ 2 ^ a = pow-le-pow_right {n = 2} (omega arith) {j = a} (ground arith) in
      absurd (omega arith)
]

module _ {T : Type 0} where
  -- In a complete tree of `n` nodes spot `n + 1` is the first free one on its path.
  Free-of_IsComplete :
      (t : Node T) (n d : ℕ) → IsComplete t n → 2 ^ d ≤ n + 1 → n + 1 < 2 ^ suc d → Free t d (n + 1)
  Free-of_IsComplete t n d complete lo hi =
      Free-occupied t d (n + 1) above (complete d (n + 1) lo hi ∙ ground arith)
    where
      above : (e k : ℕ) → e + suc k ≡ d → occupied t e ((n + 1) / 2 ^ suc k) ≡ true
      above e k h =
          let (a, b, c) = shift_range (suc k) e (n + 1) (rw h lo) (rw h hi) in
          complete e ((n + 1) / 2 ^ suc k) a b
          ∙ ground (arith, div-two-pow-suc (n + 1) k, div-le_self ((n + 1) / 2) (2 ^ k))

-- Behaviour of `ilogb` on the sizes for which `1 << ilogb(path)` is an `int`.
abbrev pub IsLog : (ℕ → ℕ) → Type 0
IsLog ilogb = (x : ℕ) → 0 < x → x < 2 ^ 31 → (2 ^ ilogb x ≤ x) × (x < 2 ^ suc (ilogb x))

-- With a correct `ilogb` and fewer than 2^31 - 1 nodes, `heap_insert` turns a tree that fills the
-- spots 1 to `n` level by level into one that fills the spots 1 to `n + 1`, whatever the order of
-- the values.
pub heap_insert-IsComplete :
    {T : Type 0} (less : T → T → Bool) (ilogb : ℕ → ℕ) (heap : Heap T) (v : T)
    → IsLog ilogb
    → heap.n_nodes + 1 < 2 ^ 31
    → IsComplete heap.root heap.n_nodes
    → IsComplete (heap_insert less ilogb true heap v).0.root (heap.n_nodes + 1)
unfolding heap_insert insert_on_path
heap_insert-IsComplete less ilogb heap v log small complete e k lo hi =
    let n = heap.n_nodes in
    let d = ilogb (n + 1) in
    let (below, over) = log (n + 1) (omega arith) small in
    let free = Free-of_IsComplete heap.root n d complete below over in
    insert-Gains less heap.root v d (n + 1) free e k ∙ (elim (Bool-cases (e == d)) [
      | inl level ↦
          let is = ==→eq e d level in
          let lo' : 2 ^ d ≤ k = rw (← is) lo in
          let hi' : k < 2 ^ suc d = rw (← is) hi in
          ground (arith, complete e k lo hi, same-eq d (n + 1) k below over lo' hi')
      | inr off ↦
          let other : k ≢ n + 1 = λ is. ==→ne e d off (
            omega (
              arith,
              log_unique e d (n + 1) (rw (← is) lo) over,
              log_unique d e (n + 1) below (rw (← is) hi),
            )) in
          ground (arith, complete e k lo hi)
    ])
