-- ===== src/Pop.antt =====
-- buenos/net/pop.c: the queue of received frames of the packet oriented protocol. A frame is its address
-- with its header and payload. The sockets are those of buenos/net/socket.c; what `socket_recvfrom` gets
-- and the frames given back to the network are kept in lists. The clock is an argument.
pub mod Push
pub mod Place
pub mod Service
pub mod Bound
pub mod Choice
pub mod Handover
pub mod Rounds
use osm_re_exam.Prelude.{
  ℕ, zero, suc, ◌+◌, ◌-◌, ◌%◌, List, [], ◌∷◌, ◌++◌, length, take, Bool, true, false, not, ◌&&◌,
  Option, none, some, ◌==◌, if◌then◌else◌, ltb, leb,
}
use osm_re_exam.Prelude.Int.{word_sub}
use osm_re_exam.Prelude.Result.{Result, ok, fault, ◌>>=◌, read, write}

pub record Frame : Type 0 where
  pub address : ℕ
  pub source_port : ℕ
  pub dest_port : ℕ
  pub size : ℕ
  pub payload : List ℕ

-- `pop_queue_t`; a socket of -1 is none.
pub record Entry : Type 0 where
  pub frame : Option Frame
  pub socket : Option ℕ
  pub timestamp : ℕ
  pub sender : ℕ
  pub busy : Bool

-- `socket_descriptor_t`; `is_pop` says whether its protocol is PROTOCOL_POP.
pub record Socket : Type 0 where
  pub is_pop : Bool
  pub port : ℕ
  pub rbuf : Option ℕ
  pub bufsize : ℕ

-- What the caller of `socket_recvfrom` gets.
pub record Received : Type 0 where
  pub rbuf : ℕ
  pub addr : ℕ
  pub sport : ℕ
  pub copied : List ℕ

pub record Pop : Type 0 where
  pub queue : List Entry
  pub sockets : List Socket
  pub freed : List Frame
  pub received : List Received

-- The loop of `pop_push_frame` makes two searches: for the first free slot, and for the oldest one that is
-- not busy.
unfoldable pub find_free_slot : List Entry → ℕ → Option ℕ → Option ℕ
find_free_slot [] i free = free
find_free_slot (e ∷ es) i free =
    find_free_slot es (i + 1)
      (elim free [ some j ↦ some j | none ↦ elim e.frame [ none ↦ some i | some f ↦ none ] ])

unfoldable pub find_oldest : List Entry → ℕ → Option (ℕ × Entry) → Option (ℕ × Entry)
find_oldest [] i oldest = oldest
find_oldest (e ∷ es) i oldest = find_oldest es (i + 1) (elim oldest [
  | none ↦ if e.busy then none else some (i, e)
  | some o ↦ if not e.busy && ltb e.timestamp (o.1).timestamp then some (i, e) else some o
])

-- The frame of an entry, to be given back.
abbrev pub frame_list : Option Frame → List Frame
frame_list none = []
frame_list (some f) = f ∷ []

-- The slot is taken for the frame, at the time `later`.
unfoldable pub take_slot : (later fromaddr : ℕ) → Frame → ℕ → Pop → Result (ℕ × Pop)
take_slot later fromaddr frame i p = do
  e ← read p.queue i
  queue ← write p.queue i (record {
    frame = some frame;
    socket = none;
    timestamp = later;
    sender = fromaddr;
    busy = false;
  })
  ok (1, record p { queue = queue; freed = p.freed ++ frame_list e.frame })

-- `min_age` is CONFIG_POP_QUEUE_MIN_AGE; the clock says `now` and then `later`.
unfoldable pub pop_push_frame : (min_age now later fromaddr : ℕ) → Frame → Pop → Result (ℕ × Pop)
pop_push_frame min_age now later fromaddr frame p = elim (find_free_slot p.queue 0 none) [
  | some i ↦ take_slot later fromaddr frame i p
  | none ↦ elim (find_oldest p.queue 0 none) [
    | none ↦ ok (0, p)
    | some o ↦
        let evict = take_slot later fromaddr frame o.0 p in
        if ltb (word_sub now (o.1).timestamp) min_age then ok (0, p) else evict
  ]
]

-- The action of the service thread, with the slot and the frame.
pub data Action : Type 0 where
  pop_action_none : Action
  pop_action_discard : ℕ → Frame → Action
  pop_action_transfer : ℕ → Frame → Action

unfoldable pub find_socket : List Socket → ℕ → ℕ → Option ℕ
find_socket [] port j = none
find_socket (s ∷ ss) port j =
    let rest = find_socket ss port (j + 1) in if s.is_pop && (s.port == port) then some j else rest

-- What is to be done for one entry with a frame and its socket, and the entry afterwards.
unfoldable pub choose_entry : List Socket → ℕ → Entry → Frame → Option ℕ → Result (Action × Entry)
choose_entry sockets i e f none = ok (pop_action_discard i f, record e { socket = none })
choose_entry sockets i e f (some j) = do
  let e1 = record e { socket = some j }
  s ← read sockets j
  let waited = elim s.rbuf as (λ _. Action × Entry) [
    | none ↦ (pop_action_none, e1)
    | some rbuf ↦ (pop_action_transfer i f, record e1 { busy = true })
  ]
  ok (if s.is_pop then waited else (pop_action_discard i f, e1))

-- The recipient of a frame, looked up if the entry has none yet.
unfoldable pub recipient : List Socket → Entry → Frame → Option ℕ
recipient sockets e f = elim e.socket [ none ↦ find_socket sockets f.dest_port 0 | some j ↦ some j ]

-- The loop of `pop_service_thread` over the queue, under both locks.
unfoldable pub choose : List Socket → List Entry → ℕ → Result (Action × List Entry)
choose sockets [] i = ok (pop_action_none, [])
choose sockets (e ∷ es) i =
    let further : Entry → Result (Action × List Entry) =
      λ e1. do (action, rest) ← choose sockets es (i + 1); ok (action, e1 ∷ rest)
    in elim e.frame [
      | none ↦ further e
      | some f ↦ do
        (action, e1) ← choose_entry sockets i e f (recipient sockets e f)
        elim action as (λ _. Result (Action × List Entry)) [
          | pop_action_none ↦ further e1
          | pop_action_discard slot g ↦ ok (action, e1 ∷ es)
          | pop_action_transfer slot g ↦ ok (action, e1 ∷ es)
        ]
    ]

-- The frame of a slot becomes NULL.
unfoldable pub empty_slot : ℕ → List Entry → Result (List Entry)
empty_slot slot queue = do e ← read queue slot; write queue slot (record e { frame = none })

-- The copy of the payload to the buffer of a socket, of the bytes that fit.
unfoldable pub transfer_frame : Entry → Frame → Socket → Result (Received × Socket)
transfer_frame e f s = elim s.rbuf [
  | none ↦ fault
  | some rbuf ↦
      let copied = if ltb f.size s.bufsize then f.size else s.bufsize in
      if leb copied (length f.payload)
      then ok (
        record {
          rbuf = rbuf;
          addr = e.sender;
          sport = f.source_port;
          copied = take copied f.payload;
        },
        record s { rbuf = none; bufsize = 0 },
      )
      else fault
]

-- The action itself, without locks.
unfoldable pub act : Action → Pop → Result Pop
act pop_action_none p = ok p
act (pop_action_discard slot f) p = do
  queue ← empty_slot slot p.queue
  ok (record p { queue = queue; freed = p.freed ++ (f ∷ []) })
act (pop_action_transfer slot f) p = do
  e ← read p.queue slot
  elim e.socket as (λ _. Result Pop) [
    | none ↦ fault
    | some j ↦ do
      s ← read p.sockets j
      (received, s1) ← transfer_frame e f s
      sockets ← write p.sockets j s1
      queue ← empty_slot slot p.queue
      ok (record p {
        queue = queue;
        sockets = sockets;
        freed = p.freed ++ (f ∷ []);
        received = p.received ++ (received ∷ []);
      })
  ]

-- One round of `pop_service_thread`.
unfoldable pub pop_service_round : Pop → Result (Action × Pop)
pop_service_round p = do
  (action, queue) ← choose p.sockets p.queue 0
  p1 ← act action (record p { queue = queue })
  ok (action, p1)
