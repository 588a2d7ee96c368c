-- ===== src/Examples/Frames.antt =====
-- The queue of received frames with one slot.
use osm_re_exam.Prelude.{◌≡◌, refl, [], ◌∷◌, true, false, none, some}
use osm_re_exam.Prelude.Result.{ok, ◌>>=◌, read, write}
use osm_re_exam.Pop.{
  Frame, Pop, find_free_slot, find_oldest, take_slot, pop_push_frame, choose, empty_slot, act,
  choose_entry, recipient, find_socket,
}

abbrev first_frame : Frame
first_frame = record {
  address = 1;
  source_port = 7;
  dest_port = 80;
  size = 2;
  payload = 10 ∷ 11 ∷ [];
}

abbrev second_frame : Frame
second_frame = record {
  address = 2;
  source_port = 7;
  dest_port = 80;
  size = 2;
  payload = 12 ∷ 13 ∷ [];
}

abbrev one_slot : Pop
one_slot = record {
  queue =
      record { frame = some first_frame; socket = none; timestamp = 0; sender = 5; busy = false }
      ∷ [];
  sockets = record { is_pop = true; port = 80; rbuf = some 4096; bufsize = 1 } ∷ [];
  freed = [];
  received = [];
}

-- The same queue, where nobody listens at the port.
abbrev not_listened : Pop
not_listened = record one_slot { sockets = [] }

-- A frame that is pushed between the choice to discard and the discarding: the old frame is given back
-- twice, and the new one is lost.
discard_races :
    (do
      (action, queue) ← choose [] not_listened.queue 0
      (taken, p) ←
          pop_push_frame 2000 5000 5000 5 second_frame (record not_listened { queue = queue })
      p1 ← act action p
      ok p1)
    ≡ ok (record {
      queue =
          record { frame = none; socket = none; timestamp = 5000; sender = 5; busy = false } ∷ [];
      sockets = [];
      freed = first_frame ∷ first_frame ∷ [];
      received = [];
    })
unfolding choose recipient find_socket choose_entry pop_push_frame find_free_slot find_oldest
    take_slot read write act empty_slot
discard_races = refl
