-- ===== src/Pop/Handover.antt =====
-- pop_service_thread (buenos/net/pop.c): what the action of a round does.
use osm_re_exam.Prelude.{
  ℕ, zero, suc, ◌≤◌, ◌<◌, ◌≡◌, refl, sym, ap, List, [], ◌∷◌, ◌++◌, length, take, map, set,
  get_elem?, Option, none, some, ltb, arith, Bool-cases, ◌⊎◌, inl, inr, true, ltb→lt, ltb→ge,
  le→leb, length-take,
}
use osm_re_exam.Prelude.Result.{ok, write-ok}
use osm_re_exam.Pop.{
  Frame, Entry, Socket, Received, Pop, Action, pop_action_none, pop_action_discard,
  pop_action_transfer, transfer_frame, empty_slot,
}
use osm_re_exam.Pop.Service.{Unwanted, AreResting, read-at}

abbrev pub frames : List Entry → List (Option Frame)
frames queue = map (λ e. e.frame) queue

-- The size in the header of a frame is at most what follows the header.
abbrev pub AreSized : List (Option Frame) → Type 0
AreSized [] = Unit
AreSized (none ∷ fs) = AreSized fs
AreSized (some f ∷ fs) = (f.size ≤ length f.payload) × AreSized fs

-- What the caller of `socket_recvfrom` gets from a frame: its sender and its port, and of its payload as
-- much as the header says and the buffer holds.
pub record HandedOver (e : Entry) (f : Frame) (s : Socket) (r : Received) : Type 0 where
  pub sender : r.addr ≡ e.sender
  pub port : r.sport ≡ f.source_port
  pub fits : length r.copied ≤ s.bufsize
  pub sized : length r.copied ≤ f.size
  pub whole : (length r.copied ≡ f.size) ⊎ (length r.copied ≡ s.bufsize)
  pub start : r.copied ≡ take (length r.copied) f.payload

-- What a round does.
pub data Served (p : Pop) : Action × Pop → Type 0 where
  idle :
      {queue : List Entry}
      → AreResting p.sockets queue
      → frames queue ≡ frames p.queue
      → Served p (pop_action_none, record p { queue = queue })
  discarded :
      (slot : ℕ) (f : Frame) (e : Entry) {queue : List Entry}
      → get_elem? (frames p.queue) slot ≡ some (some f)
      → frames queue ≡ set (frames p.queue) slot none
      → get_elem? queue slot ≡ some (record e { frame = none })
      → Unwanted p.sockets e f
      → Served p
          (pop_action_discard slot f, record p { queue = queue; freed = p.freed ++ (f ∷ []) })
  transferred :
      (slot number : ℕ) (f : Frame) (e : Entry) (s : Socket) (r : Received) {queue : List Entry}
      → get_elem? (frames p.queue) slot ≡ some (some f)
      → frames queue ≡ set (frames p.queue) slot none
      → get_elem? queue slot ≡ some (record e { frame = none })
      → e.socket ≡ some number
      → get_elem? p.sockets number ≡ some s
      → s.is_pop ≡ true
      → s.rbuf ≡ some r.rbuf
      → HandedOver e f s r
      → Served p (
        pop_action_transfer slot f,
        record p {
          queue = queue;
          sockets = set p.sockets number (record s { rbuf = none; bufsize = 0 });
          freed = p.freed ++ (f ∷ []);
          received = p.received ++ (r ∷ []);
        },
      )

pub place-lt : {A : Type 0} (xs : List A) (i : ℕ) (x : A) → get_elem? xs i ≡ some x → i < length xs
place-lt [] i x q = cc
place-lt (y ∷ xs) zero x q = omega arith
place-lt (y ∷ xs) (suc i) x q = omega (arith, place-lt xs i x q)

pub get-set :
    {A : Type 0} (xs : List A) (i : ℕ) (x : A) → i < length xs → get_elem? (set xs i x) i ≡ some x
get-set [] i x h = absurd (omega arith)
get-set (y ∷ xs) zero x h = refl
get-set (y ∷ xs) (suc i) x h = get-set xs i x (omega arith)

module _ {A B : Type 0} where
  pub get-map :
      (g : A → B) (xs : List A) (i : ℕ) (x : A)
      → get_elem? xs i ≡ some x
      → get_elem? (map g xs) i ≡ some (g x)
  get-map g [] i x q = cc
  get-map g (y ∷ xs) zero x q = ap (λ o. elim o [ none ↦ some (g x) | some z ↦ some (g z) ]) q
  get-map g (y ∷ xs) (suc i) x q = get-map g xs i x q

  pub map-set :
      (g : A → B) (xs : List A) (i : ℕ) (x : A) → map g (set xs i x) ≡ set (map g xs) i (g x)
  map-set g [] i x = refl
  map-set g (y ∷ xs) zero x = refl
  map-set g (y ∷ xs) (suc i) x = ap (◌∷◌ (g y)) (map-set g xs i x)

pub sized-at :
    (fs : List (Option Frame)) (i : ℕ) (f : Frame)
    → get_elem? fs i ≡ some (some f)
    → AreSized fs
    → f.size ≤ length f.payload
sized-at [] i f q a = cc
sized-at (none ∷ fs) zero f q a = cc
sized-at (some g ∷ fs) zero f q a =
    let same : g ≡ f =
      ap (λ o. elim o [ none ↦ g | some x ↦ elim x [ none ↦ g | some y ↦ y ] ]) q in
    rw (sym same) a.0
sized-at (none ∷ fs) (suc i) f q a = sized-at fs i f q a
sized-at (some g ∷ fs) (suc i) f q a = sized-at fs i f q a.1

pub empty_slot-ok :
    (slot : ℕ) (queue : List Entry) (e : Entry)
    → get_elem? queue slot ≡ some e
    → empty_slot slot queue ≡ ok (set queue slot (record e { frame = none }))
unfolding empty_slot
empty_slot-ok slot queue e at =
    rw
      (
        read-at queue slot e at,
        write-ok queue slot (record e { frame = none }) (place-lt queue slot e at),
      )
      refl

-- What a transfer hands over.
pub transfer_frame-ok :
    (e : Entry) (f : Frame) (s : Socket) (rbuf : ℕ)
    → s.rbuf ≡ some rbuf
    → f.size ≤ length f.payload
    → (r : Received) × (transfer_frame e f s ≡ ok (r, record s { rbuf = none; bufsize = 0 }))
      × (r.rbuf ≡ rbuf)
      × HandedOver e f s r
unfolding transfer_frame
transfer_frame-ok e f s rbuf w sized = elim (Bool-cases (ltb f.size s.bufsize)) [
  | inl t ↦
      let l = length-take f.size f.payload sized in
      let less = ltb→lt f.size s.bufsize t in
      (
        record {
          rbuf = rbuf;
          addr = e.sender;
          sport = f.source_port;
          copied = take f.size f.payload;
        },
        rw (w, t, le→leb f.size (length f.payload) sized) refl,
        refl,
        record {
          sender = refl;
          port = refl;
          fits = omega (arith, l, less);
          sized = omega (arith, l);
          whole = inl l;
          start = ap (λ n. take n f.payload) (sym l);
        },
      )
  | inr t ↦
      let less = ltb→ge f.size s.bufsize t in
      let l : length (take s.bufsize f.payload) ≡ s.bufsize =
        length-take s.bufsize f.payload (omega arith) in
      (
        record {
          rbuf = rbuf;
          addr = e.sender;
          sport = f.source_port;
          copied = take s.bufsize f.payload;
        },
        rw (w, t, le→leb s.bufsize (length f.payload) (omega arith)) refl,
        refl,
        record {
          sender = refl;
          port = refl;
          fits = omega (arith, l);
          sized = omega (arith, l, less);
          whole = inr l;
          start = ap (λ n. take n f.payload) (sym l);
        },
      )
]
