-- ===== src/Pop/Service.antt =====
-- pop_service_thread (buenos/net/pop.c): the choice for one entry.
use osm_re_exam.Prelude.{
  ℕ, zero, suc, ◌+◌, ◌<◌, ◌≡◌, ◌≢◌, refl, sym, ap, eq→==, ◌∙◌, List, [], ◌∷◌, length, get_elem?,
  Bool, true, false, ◌&&◌, Option, none, some, ◌==◌, if◌then◌else◌, arith,
}
use osm_re_exam.Prelude.Result.{ok, Yields, yields, read}
use osm_re_exam.Pop.{
  Frame, Entry, Socket, Action, pop_action_none, pop_action_discard, pop_action_transfer,
  find_socket, choose_entry, recipient,
}

-- Sockets of entries are in the table.
abbrev pub IsBound : List Socket → Entry → Type 0
IsBound sockets e = (j : ℕ) → e.socket ≡ some j → j < length sockets

abbrev pub AreBound : List Socket → List Entry → Type 0
AreBound sockets [] = Unit
AreBound sockets (e ∷ es) = IsBound sockets e × AreBound sockets es

-- An entry whose frame can go to the caller of `socket_recvfrom`.
pub record IsWaited (sockets : List Socket) (e : Entry) (f : Frame) : Type 0 where
  pub number : ℕ
  pub rbuf : ℕ
  pub socket : Socket
  pub of_entry : e.socket ≡ some number
  pub stands : get_elem? sockets number ≡ some socket
  pub is_pop : socket.is_pop ≡ true
  pub waits : socket.rbuf ≡ some rbuf
  pub held : e.busy ≡ true

-- No socket of the protocol has a port.
abbrev pub NoListener : List Socket → ℕ → Type 0
NoListener sockets port =
    (j : ℕ) (s : Socket) → get_elem? sockets j ≡ some s → s.is_pop ≡ true → s.port ≢ port

-- A frame that nobody can receive: no socket has its port, or the socket of its entry is closed.
pub data Unwanted (sockets : List Socket) (e : Entry) (f : Frame) : Type 0 where
  no_listener : e.socket ≡ none → NoListener sockets f.dest_port → Unwanted sockets e f
  closed :
      (j : ℕ) (s : Socket)
      → e.socket ≡ some j
      → get_elem? sockets j ≡ some s
      → s.is_pop ≡ false
      → Unwanted sockets e f

-- An entry for which there is nothing to do: it has no frame, or nobody waits at its socket.
pub data Rests (sockets : List Socket) (e : Entry) : Type 0 where
  empty : e.frame ≡ none → Rests sockets e
  unread :
      (j : ℕ) (s : Socket)
      → e.socket ≡ some j
      → get_elem? sockets j ≡ some s
      → s.is_pop ≡ true
      → s.rbuf ≡ none
      → Rests sockets e

abbrev pub AreResting : List Socket → List Entry → Type 0
AreResting sockets [] = Unit
AreResting sockets (e ∷ es) = Rests sockets e × AreResting sockets es

find_socket-lt :
    (sockets : List Socket) (port i j : ℕ)
    → find_socket sockets port i ≡ some j
    → j < i + length sockets
unfolding find_socket
find_socket-lt [] port i j q = cc
find_socket-lt (s ∷ ss) port i j q =
    go (s.is_pop && (s.port == port)) q (find_socket-lt ss port (i + 1) j)
  where
    go :
        (t : Bool)
        → (if t then some i else find_socket ss port (i + 1)) ≡ some j
        → (find_socket ss port (i + 1) ≡ some j → j < i + 1 + length ss)
        → j < i + suc (length ss)
    go true q rest = let same : i ≡ j = ap (λ o. elim o [ none ↦ 0 | some x ↦ x ]) q in omega arith
    go false q rest = omega (arith, rest q)

true_not_false : true ≢ false
true_not_false z = cc

find_socket-none :
    (sockets : List Socket) (port i : ℕ)
    → find_socket sockets port i ≡ none
    → NoListener sockets port
unfolding find_socket
find_socket-none [] port i q j s at p same = cc
find_socket-none (x ∷ sockets) port i q j s at p same =
    go j at (x.is_pop && (x.port == port)) refl q (find_socket-none sockets port (i + 1))
  where
    go :
        (j : ℕ)
        → get_elem? (x ∷ sockets) j ≡ some s
        → (t : Bool) → (x.is_pop && (x.port == port)) ≡ t
        → (if t then some i else find_socket sockets port (i + 1)) ≡ none
        → (find_socket sockets port (i + 1) ≡ none → NoListener sockets port)
        → ⊥
    go j at true u q rest = cc
    go (suc j) at false u q rest = rest q j s at p same
    go zero at false u q rest =
        let is : x ≡ s = ap (λ o. elim o [ none ↦ x | some y ↦ y ]) at in
        let pop : x.is_pop ≡ true = ap (λ (y : Socket). y.is_pop) is ∙ p in
        let here : x.port ≡ port = ap (λ (y : Socket). y.port) is ∙ same in
        let met : (x.is_pop && (x.port == port)) ≡ true = rw (pop, here) (eq→== port port refl) in
        true_not_false (sym met ∙ u)

pub element :
    {A : Type 0} (xs : List A) (i : ℕ) → i < length xs → (x : A) × (get_elem? xs i ≡ some x)
element [] i h = absurd (omega arith)
element (x ∷ xs) zero h = (x, refl)
element (x ∷ xs) (suc i) h = element xs i (omega arith)

pub read-at :
    {A : Type 0} (xs : List A) (i : ℕ) (x : A) → get_elem? xs i ≡ some x → read xs i ≡ ok x
unfolding read
read-at xs i x at = rw (read, at) refl

-- What is chosen for one entry.
pub data One (sockets : List Socket) (i : ℕ) (f : Frame) : Action × Entry → Type 0 where
  one_none : {e : Entry} → e.frame ≡ some f → Rests sockets e → One sockets i f (pop_action_none, e)
  one_discard :
      {e : Entry}
      → e.frame ≡ some f
      → Unwanted sockets e f
      → One sockets i f (pop_action_discard i f, e)
  one_transfer :
      {e : Entry}
      → e.frame ≡ some f
      → IsWaited sockets e f
      → One sockets i f (pop_action_transfer i f, e)

pub recipient-bound :
    (sockets : List Socket) (e : Entry) (f : Frame)
    → IsBound sockets e
    → (j : ℕ) → recipient sockets e f ≡ some j
    → j < length sockets
unfolding recipient
recipient-bound sockets e f b j r = bound e.socket b r
  where
    bound :
        (o : Option ℕ)
        → ((j : ℕ) → o ≡ some j → j < length sockets)
        → elim o [ none ↦ find_socket sockets f.dest_port 0 | some j ↦ some j ] ≡ some j
        → j < length sockets
    bound none b r = omega (arith, find_socket-lt sockets f.dest_port 0 j r)
    bound (some k) b r = b j r

pub recipient-none :
    (sockets : List Socket) (e : Entry) (f : Frame)
    → recipient sockets e f ≡ none
    → NoListener sockets f.dest_port
unfolding recipient
recipient-none sockets e f q = unheard e.socket q
  where
    unheard :
        (o : Option ℕ)
        → elim o [ none ↦ find_socket sockets f.dest_port 0 | some j ↦ some j ] ≡ none
        → NoListener sockets f.dest_port
    unheard none q = find_socket-none sockets f.dest_port 0 q
    unheard (some j) q = cc

pub choose_entry-One :
    (sockets : List Socket) (i : ℕ) (e : Entry) (f : Frame) (o : Option ℕ)
    → e.frame ≡ some f
    → ((j : ℕ) → o ≡ some j → j < length sockets)
    → (o ≡ none → NoListener sockets f.dest_port)
    → Yields (One sockets i f) (choose_entry sockets i e f o)
unfolding choose_entry
choose_entry-One sockets i e f none q b n = yields (one_discard q (no_listener refl (n refl)))
choose_entry-One sockets i e f (some j) q b n =
    let (s, at) = element sockets j (b j refl) in
    rw (read-at sockets j s at) (yields (waiting s at s.is_pop refl s.rbuf refl))
  where
    waiting :
        (s : Socket)
        → get_elem? sockets j ≡ some s
        → (t : Bool) → s.is_pop ≡ t
        → (o : Option ℕ) → s.rbuf ≡ o
        → One sockets i f (
            let e1 : Entry = record e { socket = some j } in
            let waited = elim o as (λ _. Action × Entry) [
              | none ↦ (pop_action_none, e1)
              | some rbuf ↦ (pop_action_transfer i f, record e1 { busy = true })
            ] in
            if t then waited else (pop_action_discard i f, e1))
    waiting s at false u o v = one_discard q (closed j s refl at u)
    waiting s at true u none v = one_none q (unread j s refl at u v)
    waiting s at true u (some rbuf) v = one_transfer q (record {
      number = j;
      rbuf = rbuf;
      socket = s;
      of_entry = refl;
      stands = at;
      is_pop = u;
      waits = v;
      held = refl;
    })
