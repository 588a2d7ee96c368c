-- ===== src/Pop/Choice.antt =====
-- pop_service_thread (buenos/net/pop.c): the choice of a round, over the queue.
use osm_re_exam.Prelude.{
  ℕ, suc, ◌+◌, ◌≡◌, refl, sym, ap, ◌∙◌, List, [], ◌∷◌, map, get_elem?, Option, none, some, arith,
}
use osm_re_exam.Prelude.Result.{Result, ok, ◌>>=◌, Yields, yields, Yields-bind}
use osm_re_exam.Pop.{
  Frame, Entry, Socket, Action, pop_action_none, pop_action_discard, pop_action_transfer,
  choose_entry, recipient, choose,
}
use osm_re_exam.Pop.Service.{
  AreBound, IsWaited, Unwanted, Rests, empty, AreResting, One, one_none, one_discard, one_transfer,
  choose_entry-One, recipient-bound, recipient-none,
}

-- What is chosen for a queue that starts at slot `i`.
pub data Chosen (sockets : List Socket) (i : ℕ) (es : List Entry)
    : Action × List Entry → Type 0 where
  nothing :
      {es' : List Entry}
      → AreResting sockets es'
      → map (λ e. e.frame) es' ≡ map (λ e. e.frame) es
      → Chosen sockets i es (pop_action_none, es')
  discards :
      (k : ℕ) (f : Frame) (e : Entry) {es' : List Entry}
      → get_elem? es' k ≡ some e
      → e.frame ≡ some f
      → Unwanted sockets e f
      → map (λ e. e.frame) es' ≡ map (λ e. e.frame) es
      → Chosen sockets i es (pop_action_discard (i + k) f, es')
  transfers :
      (k : ℕ) (f : Frame) (e : Entry) {es' : List Entry}
      → get_elem? es' k ≡ some e
      → e.frame ≡ some f
      → IsWaited sockets e f
      → map (λ e. e.frame) es' ≡ map (λ e. e.frame) es
      → Chosen sockets i es (pop_action_transfer (i + k) f, es')

Chosen-cast :
    (sockets : List Socket) (i : ℕ) (es es' : List Entry) (a a' : Action)
    → a ≡ a'
    → Chosen sockets i es (a, es')
    → Chosen sockets i es (a', es')
Chosen-cast sockets i es es' a a' q c = rw (sym q) c

same_frames :
    (e e1 : Entry) (es es' : List Entry)
    → e1.frame ≡ e.frame
    → map (λ e. e.frame) es' ≡ map (λ e. e.frame) es
    → map (λ e. e.frame) (e1 ∷ es') ≡ map (λ e. e.frame) (e ∷ es)
same_frames e e1 es es' q m = ap (λ o. o ∷ map (λ e. e.frame) es') q ∙ ap (◌∷◌ e.frame) m

further-Chosen :
    (sockets : List Socket) (i : ℕ) (e e1 : Entry) (es : List Entry) (p : Action × List Entry)
    → e1.frame ≡ e.frame
    → Rests sockets e1
    → Chosen sockets (i + 1) es p
    → Chosen sockets i (e ∷ es) (p.0, e1 ∷ p.1)
further-Chosen sockets i e e1 es _ q h (nothing {es'} a m) =
    nothing (h, a) (same_frames e e1 es es' q m)
further-Chosen sockets i e e1 es _ q h (discards k f x {es'} at g w m) =
    let z : i + suc k ≡ i + 1 + k = omega arith in
    Chosen-cast sockets i (e ∷ es) (e1 ∷ es') (pop_action_discard (i + suc k) f)
      (pop_action_discard (i + 1 + k) f) (ap (λ n. pop_action_discard n f) z)
      (discards (suc k) f x at g w (same_frames e e1 es es' q m))
further-Chosen sockets i e e1 es _ q h (transfers k f x {es'} at g w m) =
    let z : i + suc k ≡ i + 1 + k = omega arith in
    Chosen-cast sockets i (e ∷ es) (e1 ∷ es') (pop_action_transfer (i + suc k) f)
      (pop_action_transfer (i + 1 + k) f) (ap (λ n. pop_action_transfer n f) z)
      (transfers (suc k) f x at g w (same_frames e e1 es es' q m))

-- From what is chosen for the first entry, `rest` for the others.
first-Chosen :
    (sockets : List Socket) (i : ℕ) (e : Entry) (f : Frame) (es : List Entry)
    (rest : Result (Action × List Entry)) (p : Action × Entry)
    → e.frame ≡ some f
    → Yields (Chosen sockets (i + 1) es) rest
    → One sockets i f p
    → Yields (Chosen sockets i (e ∷ es)) (elim p.0 as (λ _. Result (Action × List Entry)) [
      | pop_action_none ↦ rest >>= λ r. ok (r.0, p.1 ∷ r.1)
      | pop_action_discard slot g ↦ ok (p.0, p.1 ∷ es)
      | pop_action_transfer slot g ↦ ok (p.0, p.1 ∷ es)
    ])
first-Chosen sockets i e f es rest _ q y (one_none {e = e1} g h) =
    Yields-bind _ y (λ r c. yields (further-Chosen sockets i e e1 es r (g ∙ sym q) h c))
first-Chosen sockets i e f es rest _ q y (one_discard {e = e1} g w) =
    let z : i + 0 ≡ i = omega arith in
    yields (
      Chosen-cast sockets i (e ∷ es) (e1 ∷ es) (pop_action_discard (i + 0) f)
        (pop_action_discard i f) (ap (λ n. pop_action_discard n f) z)
        (discards 0 f e1 refl g w (same_frames e e1 es es (g ∙ sym q) refl)))
first-Chosen sockets i e f es rest _ q y (one_transfer {e = e1} g w) =
    let z : i + 0 ≡ i = omega arith in
    yields (
      Chosen-cast sockets i (e ∷ es) (e1 ∷ es) (pop_action_transfer (i + 0) f)
        (pop_action_transfer i f) (ap (λ n. pop_action_transfer n f) z)
        (transfers 0 f e1 refl g w (same_frames e e1 es es (g ∙ sym q) refl)))

pub choose-Chosen :
    (sockets : List Socket) (es : List Entry) (i : ℕ)
    → AreBound sockets es
    → Yields (Chosen sockets i es) (choose sockets es i)
unfolding choose
choose-Chosen sockets [] i b = yields (nothing tt refl)
choose-Chosen sockets (e ∷ es) i b = go e.frame refl (choose-Chosen sockets es (i + 1) b.1)
  where
    go :
        (o : Option Frame)
        → e.frame ≡ o
        → Yields (Chosen sockets (i + 1) es) (choose sockets es (i + 1))
        → Yields (Chosen sockets i (e ∷ es)) (elim o [
          | none ↦ choose sockets es (i + 1) >>= λ r. ok (r.0, e ∷ r.1)
          | some f ↦ choose_entry sockets i e f (recipient sockets e f) >>= λ p.
              elim p.0 as (λ _. Result (Action × List Entry)) [
                | pop_action_none ↦ choose sockets es (i + 1) >>= λ r. ok (r.0, p.1 ∷ r.1)
                | pop_action_discard slot g ↦ ok (p.0, p.1 ∷ es)
                | pop_action_transfer slot g ↦ ok (p.0, p.1 ∷ es)
              ]
        ])
    go none q y =
        Yields-bind _ y (λ r c. yields (further-Chosen sockets i e e es r refl (empty q) c))
    go (some f) q y =
        Yields-bind _
          (choose_entry-One sockets i e f (recipient sockets e f) q
            (recipient-bound sockets e f b.0) (recipient-none sockets e f))
          (λ p one. first-Chosen sockets i e f es (choose sockets es (i + 1)) p q y one)
