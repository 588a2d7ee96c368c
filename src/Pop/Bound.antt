-- ===== src/Pop/Bound.antt =====
-- pop_service_thread (buenos/net/pop.c): the sockets of the entries stay in the table.
use osm_re_exam.Prelude.{
  ℕ, zero, suc, ◌+◌, ◌<◌, ◌≡◌, refl, ap, ◌∙◌, List, [], ◌∷◌, length, set, get_elem?, Bool, true,
  false, Option, none, some, if◌then◌else◌, arith,
}
use osm_re_exam.Prelude.Result.{Result, ok, ◌>>=◌, Yields, yields, Yields-bind}
use osm_re_exam.Pop.{
  Frame, Entry, Socket, Action, pop_action_none, pop_action_discard, pop_action_transfer,
  choose_entry, recipient, choose,
}
use osm_re_exam.Pop.Service.{IsBound, AreBound, element, read-at, recipient-bound}

pub AreBound-at :
    (sockets : List Socket) (es : List Entry) (i : ℕ) (e : Entry)
    → get_elem? es i ≡ some e
    → AreBound sockets es
    → IsBound sockets e
AreBound-at sockets [] i e at b = cc
AreBound-at sockets (x ∷ es) zero e at b =
    let same : x ≡ e = ap (λ o. elim o [ none ↦ x | some y ↦ y ]) at in
    λ j q. b.0 j (ap (λ (y : Entry). y.socket) same ∙ q)
AreBound-at sockets (x ∷ es) (suc i) e at b = AreBound-at sockets es i e at b.1

pub AreBound-set :
    (sockets : List Socket) (es : List Entry) (i : ℕ) (e : Entry)
    → AreBound sockets es
    → IsBound sockets e
    → AreBound sockets (set es i e)
AreBound-set sockets [] i e b h = b
AreBound-set sockets (x ∷ es) zero e b h = (h, b.1)
AreBound-set sockets (x ∷ es) (suc i) e b h = (b.0, AreBound-set sockets es i e b.1 h)

pub AreBound-length :
    (sockets sockets' : List Socket) (es : List Entry)
    → length sockets ≡ length sockets'
    → AreBound sockets es
    → AreBound sockets' es
AreBound-length sockets sockets' [] q b = tt
AreBound-length sockets sockets' (e ∷ es) q b =
    (λ j h. omega (arith, q, b.0 j h), AreBound-length sockets sockets' es q b.1)

choose_entry-IsBound :
    (sockets : List Socket) (i : ℕ) (e : Entry) (f : Frame) (o : Option ℕ)
    → ((j : ℕ) → o ≡ some j → j < length sockets)
    → Yields (λ (r : Action × Entry). IsBound sockets r.1) (choose_entry sockets i e f o)
unfolding choose_entry
choose_entry-IsBound sockets i e f none b = yields (λ j q. cc)
choose_entry-IsBound sockets i e f (some j) b =
    let (s, at) = element sockets j (b j refl) in
    rw (read-at sockets j s at) (yields (kept s.is_pop s.rbuf))
  where
    kept :
        (t : Bool) (o : Option ℕ)
        → IsBound sockets (
            let e1 : Entry = record e { socket = some j } in
            let waited = elim o as (λ _. Action × Entry) [
              | none ↦ (pop_action_none, e1)
              | some rbuf ↦ (pop_action_transfer i f, record e1 { busy = true })
            ] in
            (if t then waited else (pop_action_discard i f, e1)).1)
    kept false o = b
    kept true none = b
    kept true (some rbuf) = b

after_first :
    (sockets : List Socket) (es : List Entry) (rest : Result (Action × List Entry))
    (p : Action × Entry) (a : Action)
    → AreBound sockets es
    → Yields (λ (r : Action × List Entry). AreBound sockets r.1) rest
    → IsBound sockets p.1
    → Yields
        (λ (r : Action × List Entry). AreBound sockets r.1)
        (elim a as (λ _. Result (Action × List Entry)) [
          | pop_action_none ↦ rest >>= λ r. ok (r.0, p.1 ∷ r.1)
          | pop_action_discard slot g ↦ ok (p.0, p.1 ∷ es)
          | pop_action_transfer slot g ↦ ok (p.0, p.1 ∷ es)
        ])
after_first sockets es rest p pop_action_none b y h = Yields-bind _ y (λ r c. yields (h, c))
after_first sockets es rest p (pop_action_discard slot g) b y h = yields (h, b)
after_first sockets es rest p (pop_action_transfer slot g) b y h = yields (h, b)

pub choose-AreBound :
    (sockets : List Socket) (es : List Entry) (i : ℕ)
    → AreBound sockets es
    → Yields (λ (r : Action × List Entry). AreBound sockets r.1) (choose sockets es i)
unfolding choose
choose-AreBound sockets [] i b = yields tt
choose-AreBound sockets (e ∷ es) i b = go e.frame (choose-AreBound sockets es (i + 1) b.1)
  where
    go :
        (o : Option Frame)
        → Yields (λ (r : Action × List Entry). AreBound sockets r.1) (choose sockets es (i + 1))
        → Yields
            (λ (r : Action × List Entry). AreBound sockets r.1)
            (elim o [
              | none ↦ choose sockets es (i + 1) >>= λ r. ok (r.0, e ∷ r.1)
              | some f ↦ choose_entry sockets i e f (recipient sockets e f) >>= λ p.
                  elim p.0 as (λ _. Result (Action × List Entry)) [
                    | pop_action_none ↦ choose sockets es (i + 1) >>= λ r. ok (r.0, p.1 ∷ r.1)
                    | pop_action_discard slot g ↦ ok (p.0, p.1 ∷ es)
                    | pop_action_transfer slot g ↦ ok (p.0, p.1 ∷ es)
                  ]
            ])
    go none y = Yields-bind _ y (λ r c. yields (b.0, c))
    go (some f) y =
        Yields-bind _
          (choose_entry-IsBound sockets i e f (recipient sockets e f)
            (recipient-bound sockets e f b.0))
          (λ p one. after_first sockets es (choose sockets es (i + 1)) p p.0 b.1 y one)
