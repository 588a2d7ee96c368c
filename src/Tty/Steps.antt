-- ===== src/Tty/Steps.antt =====
-- Sequences of calls and interrupts of buenos/drivers/tty.c, of any number of readers and writers.
use mathlib.Core.List.{append_cancel_right}
use osm_re_exam.Prelude.{
  ℕ, ◌+◌, ◌≤◌, ◌≡◌, ◌≢◌, refl, sym, ap, ◌∙◌, List, [], ◌++◌, length, append_assoc, ◌⊎◌, inl, inr,
  Bool, true, false, not, ◌&&◌, none, some,
}
use osm_re_exam.Prelude.Result.{ok, Yields-at}
use osm_re_exam.Tty.{
  Tty, tty_buf_size, TtyStatus, Handled, tty_interrupt_handle, write_round, tty_read,
}
use osm_re_exam.Tty.Queue.{contents}
use osm_re_exam.Tty.Calls.{
  IsTty, arrived, Interrupted, tty_interrupt_handle-Yields, Round, sleeps, writes,
  write_round-Yields, Reading, reads, tty_read-Yields,
}

-- The driver with what it has done: the characters taken from the writers and those sent, those that
-- arrived and those given to readers, and whether a writer or a reader sleeps.
pub record World : Type 0 where
  pub tty : Tty
  pub taken : List ℕ
  pub sent : List ℕ
  pub typed : List ℕ
  pub given : List ℕ
  pub writer_sleeps : Bool
  pub reader_sleeps : Bool

-- An interrupt, a round of a writer with the characters `new ++ rest` left, and a call of a reader.
pub data Step : World → World → Type 0 where
  interrupt :
      {w : World} (s : TtyStatus) {h : Handled} {tty' : Tty}
      → s.error ≡ false
      → w.tty.read_ring.count + length (arrived s) ≤ tty_buf_size
      → tty_interrupt_handle s w.tty ≡ ok (h, tty')
      → Step w (record w {
        tty = tty';
        sent = w.sent ++ h.sent;
        typed = w.typed ++ arrived s;
        writer_sleeps = w.writer_sleeps && not h.wakes_writers;
        reader_sleeps = w.reader_sleeps && not h.wakes_readers;
      })
  round :
      {w : World} (busy : Bool) (new rest : List ℕ) {sent : List ℕ} {tty' : Tty}
      → new ++ rest ≢ []
      → write_round busy w.tty (new ++ rest) ≡ ok (some (sent, tty', rest))
      → Step w (record w { tty = tty'; sent = w.sent ++ sent; taken = w.taken ++ new })
  round_sleeps :
      {w : World} (busy : Bool) (cs : List ℕ)
      → cs ≢ []
      → write_round busy w.tty cs ≡ ok none
      → Step w (record w { writer_sleeps = true })
  reading :
      {w : World} (len : ℕ) {cs : List ℕ} {tty' : Tty}
      → tty_read w.tty len ≡ ok (some (cs, tty'))
      → Step w (record w { tty = tty'; given = w.given ++ cs })
  reading_sleeps :
      {w : World} (len : ℕ)
      → tty_read w.tty len ≡ ok none
      → Step w (record w { reader_sleeps = true })

pub data Steps : World → World → Type 0 where
  done : {w : World} → Steps w w
  then_step : {w w' w'' : World} → Steps w w' → Step w' w'' → Steps w w''

pub record IsWorld (w : World) : Type 0 where
  pub whole : IsTty w.tty
  pub output : w.taken ≡ w.sent ++ contents w.tty.write_ring
  pub input : w.typed ≡ w.given ++ contents w.tty.read_ring
  pub writers : w.writer_sleeps ≡ true → w.tty.write_ring.count ≢ 0
  pub readers : w.reader_sleeps ≡ true → w.tty.read_ring.count ≡ 0

-- A queue with `new` behind it, of which `out` is taken.
through :
    {all : List ℕ} (before queue out queue' new : List ℕ)
    → all ≡ before ++ queue
    → queue ++ new ≡ out ++ queue'
    → all ++ new ≡ (before ++ out) ++ queue'
through before queue out queue' new e f =
    ap (λ l. l ++ new) e
    ∙ append_assoc before queue new
    ∙ ap (λ l. before ++ l) f
    ∙ sym (append_assoc before out queue')

-- A sleeper that is not woken was asleep before.
still : (asleep wakes : Bool) → (asleep && not wakes) ≡ true → (asleep ≡ true) × (wakes ≡ false)
still true false t = (refl, refl)
still true true t = cc
still false wakes t = cc

interrupt-IsWorld :
    (w : World) (s : TtyStatus) (h : Handled) (tty' : Tty)
    → Interrupted s w.tty h tty'
    → IsWorld w
    → IsWorld (record w {
      tty = tty';
      sent = w.sent ++ h.sent;
      typed = w.typed ++ arrived s;
      writer_sleeps = w.writer_sleeps && not h.wakes_writers;
      reader_sleeps = w.reader_sleeps && not h.wakes_readers;
    })
interrupt-IsWorld w s h tty' q i = record {
  whole = q.whole;
  output =
      i.output
      ∙ ap (λ l. w.sent ++ l) q.output
      ∙ sym (append_assoc w.sent h.sent (contents tty'.write_ring));
  input =
      ap (λ l. l ++ arrived s) i.input
      ∙ append_assoc w.given (contents w.tty.read_ring) (arrived s)
      ∙ ap (λ l. w.given ++ l) (sym q.input);
  writers = λ t.
      let (asleep, not_woken) = still w.writer_sleeps h.wakes_writers t in
      writers asleep not_woken q.writers;
  readers = λ t.
      let (asleep, not_woken) = still w.reader_sleeps h.wakes_readers t in
      readers asleep not_woken q.readers;
}
  where
    writers :
        w.writer_sleeps ≡ true
        → h.wakes_writers ≡ false
        → (tty'.write_ring.count ≢ 0) ⊎ ((h.wakes_writers ≡ true) ⊎ (w.tty.write_ring.count ≡ 0))
        → tty'.write_ring.count ≢ 0
    writers asleep not_woken (inl some_left) = some_left
    writers asleep not_woken (inr (inl woken)) = cc
    writers asleep not_woken (inr (inr empty)) = absurd (i.writers asleep empty)

    readers :
        w.reader_sleeps ≡ true
        → h.wakes_readers ≡ false
        → (h.wakes_readers ≡ true) ⊎ (tty'.read_ring ≡ w.tty.read_ring)
        → tty'.read_ring.count ≡ 0
    readers asleep not_woken (inl woken) = cc
    readers asleep not_woken (inr same) = ap (λ r. r.count) same ∙ i.readers asleep

Round-IsWorld :
    (w : World) (new rest sent : List ℕ) (tty' : Tty)
    → Round w.tty (new ++ rest) (some (sent, tty', rest))
    → IsWorld w
    → IsWorld (record w { tty = tty'; sent = w.sent ++ sent; taken = w.taken ++ new })
Round-IsWorld w new rest sent tty' (writes new' idle whole same split shorter flow) i =
    let e : new ≡ new' = append_cancel_right new new' rest split in
    record {
      whole = whole;
      output =
          through w.sent (contents w.tty.write_ring) sent (contents tty'.write_ring) new i.output
            (ap (λ l. contents w.tty.write_ring ++ l) e ∙ flow);
      input = i.input ∙ ap (λ r. w.given ++ contents r) (sym same);
      writers = λ t. absurd (i.writers t idle);
      readers = λ t. ap (λ r. r.count) same ∙ i.readers t;
    }

Reading-IsWorld :
    (w : World) (len : ℕ) (cs : List ℕ) (tty' : Tty)
    → Reading w.tty len (some (cs, tty'))
    → IsWorld w
    → IsWorld (record w { tty = tty'; given = w.given ++ cs })
Reading-IsWorld w len cs tty' (reads whole same some_left all flow) i = record {
  whole = whole;
  output = i.output ∙ ap (λ r. w.sent ++ contents r) (sym same);
  input =
      i.input
      ∙ ap (λ l. w.given ++ l) flow
      ∙ sym (append_assoc w.given cs (contents tty'.read_ring));
  writers = λ t e. i.writers t (sym (ap (λ r. r.count) same) ∙ e);
  readers = λ t. absurd (some_left (i.readers t));
}

Step-IsWorld : {w w' : World} → Step w w' → IsWorld w → IsWorld w'
Step-IsWorld (interrupt {w} s {h} {tty'} no_error fits e) i =
    interrupt-IsWorld w s h tty'
      (Yields-at (tty_interrupt_handle s w.tty)
        (tty_interrupt_handle-Yields s w.tty i.whole no_error fits) e)
      i
Step-IsWorld (round {w} busy new rest {sent} {tty'} some_left e) i =
    Round-IsWorld w new rest sent tty'
      (Yields-at (write_round busy w.tty (new ++ rest))
        (write_round-Yields busy w.tty (new ++ rest) i.whole some_left) e)
      i
Step-IsWorld (round_sleeps {w} busy cs some_left e) i =
    elim (Yields-at (write_round busy w.tty cs) (write_round-Yields busy w.tty cs i.whole some_left)
      e) [
        | sleeps pending ↦ record {
          whole = i.whole;
          output = i.output;
          input = i.input;
          writers = λ t. pending;
          readers = i.readers;
        }
      ]
Step-IsWorld (reading {w} len {cs} {tty'} e) i =
    Reading-IsWorld w len cs tty'
      (Yields-at (tty_read w.tty len) (tty_read-Yields w.tty len i.whole) e) i
Step-IsWorld (reading_sleeps {w} len e) i =
    elim (Yields-at (tty_read w.tty len) (tty_read-Yields w.tty len i.whole) e) [
      | sleeps empty ↦ record {
        whole = i.whole;
        output = i.output;
        input = i.input;
        writers = i.writers;
        readers = λ t. empty;
      }
    ]

-- Over any sequence of steps in which the typed characters fit into the buffer: the characters sent are,
-- in order and without loss, those taken from the writers but for the ones still in the buffer; those
-- given to readers are likewise the ones that arrived; a writer sleeps only while the buffer holds
-- something to send, and a reader only while there is nothing to read, so no wakeup is lost.
pub Steps-IsWorld : {w w' : World} → Steps w w' → IsWorld w → IsWorld w'
Steps-IsWorld done i = i
Steps-IsWorld (then_step before step) i = Step-IsWorld step (Steps-IsWorld before i)
