-- ===== src/Pop/Rounds.antt =====
-- pop_service_thread (buenos/net/pop.c): one round, its action included.
use osm_re_exam.Pop.{Pop, Action}
use osm_re_exam.Pop.Handover.{frames, AreSized, Served}
use osm_re_exam.Pop.Service.{AreBound}

-- What the code relies on: sockets of entries are in the table, and frames are as long as their headers
-- say.
pub record IsSafe (p : Pop) : Type 0 where
  pub bound : AreBound p.sockets p.queue
  pub sized : AreSized (frames p.queue)

abbrev Kept : Pop → Action × Pop → Type 0
Kept p out = Served p out × IsSafe out.1
