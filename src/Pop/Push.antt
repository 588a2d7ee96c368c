-- ===== src/Pop/Push.antt =====
-- pop_push_frame (buenos/net/pop.c): which slot a received frame takes.
use osm_re_exam.Prelude.{
  ℕ, zero, suc, ◌+◌, ◌≤◌, ◌<◌, ◌≡◌, ◌≢◌, refl, sym, ◌∙◌, List, [], ◌∷◌, get_elem?, inl, inr, Bool,
  true, false, not, ◌&&◌, Option, none, some, if◌then◌else◌, ltb, arith, Bool-cases, ltb→lt, ltb→ge,
  lt→ltb, length,
}
use osm_re_exam.Pop.{Frame, Entry, find_free_slot, find_oldest}

-- No entry is free, and all are busy.
abbrev pub AreFull : List Entry → Type 0
AreFull [] = Unit
AreFull (e ∷ es) = (e.frame ≢ none) × AreFull es

abbrev pub AreBusy : List Entry → Type 0
AreBusy [] = Unit
AreBusy (e ∷ es) = (e.busy ≡ true) × AreBusy es

-- No entry that is not busy is older than `t`.
abbrev pub AreSince : ℕ → List Entry → Type 0
AreSince t [] = Unit
AreSince t (e ∷ es) = (e.busy ≡ false → t ≤ e.timestamp) × AreSince t es

AreSince-mono : (t t' : ℕ) (es : List Entry) → t ≤ t' → AreSince t' es → AreSince t es
AreSince-mono t t' [] h a = tt
AreSince-mono t t' (e ∷ es) h a = (λ b. omega (arith, h, a.0 b), AreSince-mono t t' es h a.1)

-- The first free slot, in a list whose entries are at `At` from place `i` on.
pub data Free (At : ℕ → Entry → Type 0) (es : List Entry) : Option ℕ → Type 0 where
  full : AreFull es → Free At es none
  free : (j : ℕ) (e : Entry) → At j e → e.frame ≡ none → Free At es (some j)

pub data Oldest (At : ℕ → Entry → Type 0) (es : List Entry) : Option (ℕ × Entry) → Type 0 where
  busy : AreBusy es → Oldest At es none
  oldest :
      (j : ℕ) (e : Entry)
      → At j e
      → e.busy ≡ false
      → AreSince e.timestamp es
      → Oldest At es (some (j, e))

some_not_none : (f : Frame) → some f ≢ none
some_not_none f z = cc

true_not_false : true ≢ false
true_not_false z = cc

data Better (At : ℕ → Entry → Type 0) (t : ℕ) (es : List Entry) : Option (ℕ × Entry) → Type 0 where
  better :
      (j : ℕ) (e : Entry)
      → At j e
      → e.busy ≡ false
      → AreSince e.timestamp es
      → e.timestamp ≤ t
      → Better At t es (some (j, e))

module _ (At : ℕ → Entry → Type 0) where
  abbrev Stands : ℕ → List Entry → Type 0
  Stands i [] = Unit
  Stands i (e ∷ es) = At i e × Stands (i + 1) es

  find_free_slot-some : (es : List Entry) (i j : ℕ) → find_free_slot es i (some j) ≡ some j
  unfolding find_free_slot
  find_free_slot-some [] i j = refl
  find_free_slot-some (e ∷ es) i j = find_free_slot-some es (i + 1) j

  pub find_free_slot-Free :
      (es : List Entry) (i : ℕ) → Stands i es → Free At es (find_free_slot es i none)
  unfolding find_free_slot
  find_free_slot-Free [] i s = full tt
  find_free_slot-Free (e ∷ es) i s = go e.frame refl (find_free_slot-Free es (i + 1) s.1)
    where
      behind : {r : Option ℕ} → e.frame ≢ none → Free At es r → Free At (e ∷ es) r
      behind h (full a) = full (h, a)
      behind h (free j e' at empty) = free j e' at empty

      go :
          (o : Option Frame)
          → e.frame ≡ o
          → Free At es (find_free_slot es (i + 1) none)
          → Free At (e ∷ es) (find_free_slot es (i + 1) (elim o [ none ↦ some i | some f ↦ none ]))
      go none q rest = rw (find_free_slot-some es (i + 1) i) (free i e s.0 q)
      go (some f) q rest = behind (λ z. absurd (some_not_none f (sym q ∙ z))) rest

  find_oldest-Better :
      (es : List Entry) (i j : ℕ) (o : Entry)
      → At j o
      → o.busy ≡ false
      → Stands i es
      → Better At o.timestamp es (find_oldest es i (some (j, o)))
  unfolding find_oldest
  find_oldest-Better [] i j o at idle s = better j o at idle tt (omega arith)
  find_oldest-Better (e ∷ es) i j o at idle s =
      go e.busy refl (find_oldest-Better es (i + 1) j o at idle s.1)
        (λ q. find_oldest-Better es (i + 1) i e s.0 q s.1)
    where
      kept :
          {r : Option (ℕ × Entry)}
          → (e.busy ≡ false → o.timestamp ≤ e.timestamp)
          → Better At o.timestamp es r
          → Better At o.timestamp (e ∷ es) r
      kept h (better k q at' idle' since le) =
          better k q at' idle' ((λ b. omega (arith, le, h b)), since) le

      taken :
          {r : Option (ℕ × Entry)}
          → e.timestamp < o.timestamp
          → Better At e.timestamp es r
          → Better At o.timestamp (e ∷ es) r
      taken h (better k q at' idle' since le) =
          better k q at' idle' ((λ b. le), since) (omega arith)

      go :
          (b : Bool)
          → e.busy ≡ b
          → Better At o.timestamp es (find_oldest es (i + 1) (some (j, o)))
          → (e.busy ≡ false → Better At e.timestamp es (find_oldest es (i + 1) (some (i, e))))
          → Better At o.timestamp (e ∷ es) (
              find_oldest es
                (i + 1)
                (if not b && ltb e.timestamp o.timestamp then some (i, e) else some (j, o)))
      go true q rest new = kept (λ b. absurd (true_not_false (sym q ∙ b))) rest
      go false q rest new = elim (Bool-cases (ltb e.timestamp o.timestamp)) [
        | inl t ↦ rw t (taken (ltb→lt e.timestamp o.timestamp t) (new q))
        | inr t ↦ rw t (kept (λ b. ltb→ge e.timestamp o.timestamp t) rest)
      ]

  pub find_oldest-Oldest :
      (es : List Entry) (i : ℕ) → Stands i es → Oldest At es (find_oldest es i none)
  unfolding find_oldest
  find_oldest-Oldest [] i s = busy tt
  find_oldest-Oldest (e ∷ es) i s =
      go e.busy refl (find_oldest-Oldest es (i + 1) s.1)
        (λ q. find_oldest-Better es (i + 1) i e s.0 q s.1)
    where
      behind : {r : Option (ℕ × Entry)} → e.busy ≡ true → Oldest At es r → Oldest At (e ∷ es) r
      behind q (busy a) = busy (q, a)
      behind q (oldest j x at idle since) =
          oldest j x at idle ((λ b. absurd (true_not_false (sym q ∙ b))), since)

      first : {r : Option (ℕ × Entry)} → Better At e.timestamp es r → Oldest At (e ∷ es) r
      first (better j x at idle since le) = oldest j x at idle ((λ b. le), since)

      go :
          (b : Bool)
          → e.busy ≡ b
          → Oldest At es (find_oldest es (i + 1) none)
          → (e.busy ≡ false → Better At e.timestamp es (find_oldest es (i + 1) (some (i, e))))
          → Oldest At (e ∷ es) (find_oldest es (i + 1) (if b then none else some (i, e)))
      go true q rest new = behind q rest
      go false q rest new = first (new q)

abbrev pub IsAt : List Entry → ℕ → Entry → Type 0
IsAt queue i e = get_elem? queue i ≡ some e

moved : (At : ℕ → Entry → Type 0) (e : Entry) (m n : ℕ) → m ≡ n → At m e → At n e
moved At e m n q a = rw (sym q) a

pub within :
    (queue : List Entry) (i : ℕ) (e : Entry)
    → get_elem? queue i ≡ some e
    → ltb i (length queue) ≡ true
within [] i e q = cc
within (x ∷ xs) zero e q = lt→ltb 0 (suc (length xs)) (omega arith)
within (x ∷ xs) (suc i) e q =
    lt→ltb (suc i) (suc (length xs)) (omega (arith, ltb→lt i (length xs) (within xs i e q)))

pub Stands-all :
    (At : ℕ → Entry → Type 0) (es : List Entry) (i : ℕ)
    → ((k : ℕ) (e : Entry) → get_elem? es k ≡ some e → At (i + k) e)
    → Stands At i es
Stands-all At [] i h = tt
Stands-all At (e ∷ es) i h =
    (shift (h 0 e refl), Stands-all At es (i + 1) (λ k x q. further k x (h (suc k) x q)))
  where
    shift : At (i + 0) e → At i e
    shift a = let z : i + 0 ≡ i = omega arith in moved At e (i + 0) i z a

    further : (k : ℕ) (x : Entry) → At (i + suc k) x → At (i + 1 + k) x
    further k x a =
        let z : i + suc k ≡ i + 1 + k = omega arith in moved At x (i + suc k) (i + 1 + k) z a
