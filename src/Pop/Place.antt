-- ===== src/Pop/Place.antt =====
-- pop_push_frame (buenos/net/pop.c): where a received frame is put.
use osm_re_exam.Prelude.{
  ℕ, ◌+◌, ◌≤◌, ◌<◌, ◌≡◌, ◌++◌, set, [], ◌∷◌, ◌-◌, ◌%◌, ◌^◌, get_elem?, false, none, some,
}
use osm_re_exam.Pop.{Frame, Entry, Pop}
use osm_re_exam.Pop.Push.{AreFull, AreBusy, AreSince, busy}

-- How long an entry has been in the queue, on a clock of 32 bits.
abbrev pub age : ℕ → Entry → ℕ
age now e = (now + (2 ^ 32 - e.timestamp)) % 2 ^ 32

-- The entry for a frame from `fromaddr` at the time `later`.
abbrev pub entry_for : (later fromaddr : ℕ) → Frame → Entry
entry_for later fromaddr frame = record {
  frame = some frame;
  socket = none;
  timestamp = later;
  sender = fromaddr;
  busy = false;
}

-- How a frame is taken.
pub data Pushed (min_age now later fromaddr : ℕ) (frame : Frame) (p : Pop) : ℕ × Pop → Type 0 where
  all_busy : AreFull p.queue → AreBusy p.queue → Pushed min_age now later fromaddr frame p (0, p)
  too_young :
      (i : ℕ) (e : Entry)
      → get_elem? p.queue i ≡ some e
      → AreFull p.queue
      → e.busy ≡ false
      → AreSince e.timestamp p.queue
      → age now e < min_age
      → Pushed min_age now later fromaddr frame p (0, p)
  placed :
      (i : ℕ) (e : Entry)
      → get_elem? p.queue i ≡ some e
      → e.frame ≡ none
      → Pushed min_age now later fromaddr frame p
          (1, record p { queue = set p.queue i (entry_for later fromaddr frame) })
  evicted :
      (i : ℕ) (e : Entry) (f : Frame)
      → get_elem? p.queue i ≡ some e
      → e.frame ≡ some f
      → AreFull p.queue
      → e.busy ≡ false
      → AreSince e.timestamp p.queue
      → min_age ≤ age now e
      → Pushed min_age now later fromaddr frame p (
        1,
        record p {
          queue = set p.queue i (entry_for later fromaddr frame);
          freed = p.freed ++ (f ∷ []);
        },
      )
