-- ===== src/Disk/Calls.antt =====
-- The calls of the disk driver (buenos/drivers/disk.c): requests are served in the order they came.
use osm_re_exam.Prelude.{
  ℕ, ◌≡◌, ◌≢◌, refl, sym, ap, ◌∙◌, List, [], ◌∷◌, ◌++◌, map, append_assoc, append-nil, true, false,
  Option, none, some, ◌==◌, if◌then◌else◌, eq→==,
}
use osm_re_exam.Prelude.Int.{pos}
use osm_re_exam.Prelude.Result.{Result, ok, panic, Yields, yields, Yields-mono}
use osm_re_exam.Disk.{
  Operation, read_operation, write_operation, unknown_operation, Request, Command, transfer,
  disk_command_wirq, disk_command_rirq, DiskDriver, DiskStatus, disksched_schedule, start, is_idle,
  disk_next_request, signal_waiter, disk_interrupt_handle, disk_submit_end,
}

abbrev pub in_service : Option Request → List Request
in_service none = []
in_service (some r) = r ∷ []

-- A request that the driver can serve.
pub record IsRequest (r : Request) : Type 0 where
  pub known : r.operation ≢ unknown_operation
  pub waiter : ℕ
  pub signals : r.sem ≡ some waiter

abbrev pub AreRequests : List Request → Type 0
AreRequests [] = Unit
AreRequests (r ∷ rs) = IsRequest r × AreRequests rs

-- What the device is told to start a request.
abbrev pub command_of : Request → Command
command_of r = transfer r.block r.buf (elim r.operation [
  | read_operation ↦ true
  | write_operation ↦ false
  | unknown_operation ↦ false
])

-- What it is told for requests from the start to the acknowledged interrupt.
abbrev pub exchanges : List Request → List Command
exchanges [] = []
exchanges (r ∷ rs) = command_of r ∷ disk_command_wirq ∷ disk_command_rirq ∷ exchanges rs

-- The requests `completed`, of all that were taken.
pub record IsDisk (all completed : List Request) (d : DiskDriver) : Type 0 where
  pub order : all ≡ completed ++ (in_service d.request_served ++ d.request_queue)
  pub working : is_idle d ≡ true → d.request_queue ≡ []
  pub told : d.commands ≡ exchanges completed ++ map command_of (in_service d.request_served)
  pub signalled : map some d.raised ≡ map (λ r. r.sem) completed
  pub good : AreRequests (in_service d.request_served ++ d.request_queue)

pub disksched_schedule-append :
    (queue : List Request) (r : Request) → disksched_schedule queue r ≡ queue ++ (r ∷ [])
unfolding disksched_schedule
disksched_schedule-append [] r = refl
disksched_schedule-append (q ∷ queue) r = ap (◌∷◌ q) (disksched_schedule-append queue r)

pub AreRequests-append :
    (rs : List Request) (r : Request) → AreRequests rs → IsRequest r → AreRequests (rs ++ (r ∷ []))
AreRequests-append [] r a i = (i, tt)
AreRequests-append (q ∷ rs) r a i = (a.0, AreRequests-append rs r a.1 i)

start-command : (r : Request) → r.operation ≢ unknown_operation → start r ≡ ok (command_of r)
unfolding start
start-command r known = go r.operation known
  where
    go :
        (o : Operation)
        → o ≢ unknown_operation
        → elim o as (λ _. Result Command) [
          | read_operation ↦ ok (transfer r.block r.buf true)
          | write_operation ↦ ok (transfer r.block r.buf false)
          | unknown_operation ↦ panic
        ]
          ≡ ok (
              transfer r.block r.buf (elim o [
                | read_operation ↦ true
                | write_operation ↦ false
                | unknown_operation ↦ false
              ]))
    go read_operation known = refl
    go write_operation known = refl
    go unknown_operation known = absurd (known refl)

map-append : {A B : Type 0} (f : A → B) (xs ys : List A) → map f (xs ++ ys) ≡ map f xs ++ map f ys
map-append f [] ys = refl
map-append f (x ∷ xs) ys = ap (◌∷◌ (f x)) (map-append f xs ys)

-- The device is not at work and reports no error.
pub record IsReady (s : DiskStatus) : Type 0 where
  pub free : s.busy ≡ false
  pub sound : s.errors ≡ false

-- An idle driver takes the next request, if there is one.
pub disk_next_request-Yields :
    (all completed : List Request) (s : DiskStatus) (queue : List Request) (d : DiskDriver)
    → IsReady s
    → all ≡ completed ++ queue
    → d.commands ≡ exchanges completed
    → map some d.raised ≡ map (λ r. r.sem) completed
    → AreRequests queue
    → Yields
        (λ d'. IsDisk all completed d' × (d'.return_value ≡ d.return_value))
        (disk_next_request s (record d { request_queue = queue; request_served = none }))
unfolding disk_next_request
disk_next_request-Yields all completed s [] d ready order told signalled good = rw ready.free (
    yields (
      record {
        order = order;
        working = λ t. refl;
        told = told ∙ sym (append-nil (exchanges completed));
        signalled = signalled;
        good = good;
      },
      refl,
    ))
disk_next_request-Yields all completed s (r ∷ queue) d ready order told signalled good =
    rw (ready.free, ready.sound, start-command r good.0.known)
      (yields (
        record {
          order = order;
          working = λ t. cc;
          told = ap (λ l. l ++ (command_of r ∷ [])) told;
          signalled = signalled;
          good = good;
        },
        refl,
      ))

exchanges-append :
    (rs : List Request) (r : Request)
    → exchanges (rs ++ (r ∷ [])) ≡ exchanges rs ++ exchanges (r ∷ [])
exchanges-append [] r = refl
exchanges-append (q ∷ rs) r =
    ap (λ l. command_of q ∷ disk_command_wirq ∷ disk_command_rirq ∷ l) (exchanges-append rs r)

signal_waiter-ok :
    (sem : Option ℕ) (w : ℕ) (raised : List ℕ)
    → sem ≡ some w
    → signal_waiter sem raised ≡ ok (raised ++ (w ∷ []))
unfolding signal_waiter
signal_waiter-ok sem w raised e = rw e refl

pub AreRequests-cast : (rs rs' : List Request) → rs ≡ rs' → AreRequests rs → AreRequests rs'
AreRequests-cast rs rs' e a = rw (sym e) a

-- An interrupt of the device for a driver in order that serves a request completes this request: the
-- interrupt is acknowledged, the semaphore of the request is raised, its return value is 0, and the driver
-- is in order again, at work on the next request if there is one.
pub disk_interrupt_handle-Yields :
    (all completed : List Request) (s : DiskStatus) (d : DiskDriver) (r : Request)
    → IsReady s
    → s.irq ≡ true
    → d.request_served ≡ some r
    → IsDisk all completed d
    → Yields
        (λ d'. IsDisk all (completed ++ (r ∷ [])) d' × (disk_submit_end d' r ≡ 1))
        (disk_interrupt_handle s d)
unfolding disk_interrupt_handle disk_submit_end
disk_interrupt_handle-Yields all completed s d r ready irq serves i =
    let service = ap (λ o. in_service o) serves in
    let order : all ≡ (completed ++ (r ∷ [])) ++ d.request_queue =
      i.order
      ∙ ap (λ l. completed ++ (l ++ d.request_queue)) service
      ∙ sym (append_assoc completed (r ∷ []) d.request_queue) in
    let resets = disk_command_wirq ∷ disk_command_rirq ∷ [] in
    let told : d.commands ++ resets ≡ exchanges (completed ++ (r ∷ [])) =
      ap (λ l. l ++ resets) (i.told ∙ ap (λ l. exchanges completed ++ map command_of l) service)
      ∙ append_assoc (exchanges completed) (command_of r ∷ []) resets
      ∙ sym (exchanges-append completed r) in
    let good : AreRequests (r ∷ d.request_queue) =
      AreRequests-cast _ _ (ap (λ l. l ++ d.request_queue) service) i.good in
    let w = good.0.waiter in
    let signals : r.sem ≡ some w = good.0.signals in
    let signalled : map some (d.raised ++ (w ∷ [])) ≡ map (λ q. q.sem) (completed ++ (r ∷ [])) =
      map-append some d.raised (w ∷ [])
      ∙ ap (λ l. l ++ (some w ∷ [])) i.signalled
      ∙ ap (λ o. map (λ q. q.sem) completed ++ (o ∷ [])) (sym signals)
      ∙ sym (map-append (λ q. q.sem) completed (r ∷ [])) in
    let d1 : DiskDriver = record d {
      request_served = none;
      return_value = λ a. if a == r.address then pos 0 else d.return_value a;
      raised = d.raised ++ (w ∷ []);
      commands = d.commands ++ (disk_command_wirq ∷ disk_command_rirq ∷ []);
    } in
    simp (irq, serves, signal_waiter-ok r.sem w d.raised signals)
      (Yields-mono
        (disk_next_request-Yields all (completed ++ (r ∷ [])) s d.request_queue d1 ready order told
          signalled good.1)
        (λ d' k.
          let value : d'.return_value r.address ≡ pos 0 =
            ap (λ f. f r.address) k.1 ∙ rw (eq→== r.address r.address refl) refl in
          (k.0, rw value refl)))
