-- ===== src/Disk/Submit.antt =====
-- The submission of a request to the disk driver (buenos/drivers/disk.c).
use osm_re_exam.Prelude.{
  ℕ, ◌≡◌, ◌≢◌, refl, sym, ap, ◌∙◌, List, [], ◌∷◌, ◌++◌, map, append_assoc, append-nil, true, false,
  Option, none, some, ◌==◌, if◌then◌else◌,
}
use osm_re_exam.Prelude.Int.{minus_one}
use osm_re_exam.Prelude.Result.{ok, ◌>>=◌, Yields, yields, Yields-bind}
use osm_re_exam.Disk.{
  unknown_operation, Request, DiskDriver, DiskStatus, disksched_schedule, is_idle,
  disk_next_request, disk_submit_start,
}
use osm_re_exam.Disk.Calls.{
  in_service, IsRequest, AreRequests, command_of, exchanges, IsDisk, disksched_schedule-append,
  AreRequests-append, IsReady, disk_next_request-Yields, AreRequests-cast,
}

-- How a request is taken.
pub data Submitted (all completed : List Request) (created : Option ℕ) (request : Request)
    : Option Request × DiskDriver → Type 0 where
  refused :
      {d' : DiskDriver}
      → request.sem ≡ none
      → created ≡ none
      → IsDisk all completed d'
      → Submitted all completed created request (none, d')
  accepted :
      (sem : ℕ) {d' : DiskDriver}
      → IsDisk (all ++ (record request { sem = some sem } ∷ [])) completed d'
      → Submitted all completed created request (some (record request { sem = some sem }), d')

abbrev new_value : DiskDriver → ℕ → DiskDriver
new_value d x = record d { return_value = λ a. if a == x then minus_one else d.return_value a }

still_IsDisk :
    {all completed : List Request} {d : DiskDriver} (x : ℕ)
    → IsDisk all completed d
    → IsDisk all completed (new_value d x)
still_IsDisk x i = record {
  order = i.order;
  working = i.working;
  told = i.told;
  signalled = i.signalled;
  good = i.good;
}

-- Putting a request with a semaphore behind the others, with `o` in service.
schedule-Yields :
    (all completed : List Request) (created : Option ℕ) (s : DiskStatus) (d : DiskDriver)
    (request : Request) (sem : ℕ) (o : Option Request)
    → (elim o [ none ↦ true | some r ↦ false ] ≡ true → IsReady s)
    → request.operation ≢ unknown_operation
    → IsDisk all completed (record d { request_served = o })
    → Yields (Submitted all completed created request) (
        let r : Request = record request { sem = some sem } in
        let d2 : DiskDriver = record d {
          request_served = o;
          request_queue = disksched_schedule d.request_queue r;
        } in
        (if elim o [ none ↦ true | some r ↦ false ] then disk_next_request s d2 else ok d2)
        >>= λ d3. ok (some r, d3))
schedule-Yields all completed created s d request sem o ready known i =
    let r : Request = record request { sem = some sem } in
    let is_request : IsRequest r = record { known = known; waiter = sem; signals = refl } in
    let behind = sym (disksched_schedule-append d.request_queue r) in
    let order : all ++ (r ∷ [])
        ≡ completed ++ (in_service o ++ disksched_schedule d.request_queue r) =
      ap (λ l. l ++ (r ∷ [])) i.order
      ∙ append_assoc completed (in_service o ++ d.request_queue) (r ∷ [])
      ∙ ap (λ l. completed ++ l)
          (append_assoc (in_service o) d.request_queue (r ∷ [])
            ∙ ap (λ l. in_service o ++ l) behind) in
    let good : AreRequests (in_service o ++ disksched_schedule d.request_queue r) =
      AreRequests-cast _ _
        (append_assoc (in_service o) d.request_queue (r ∷ []) ∙ ap (λ l. in_service o ++ l) behind)
        (AreRequests-append (in_service o ++ d.request_queue) r i.good is_request) in
    go o ready i.told order good
  where
    go :
        (o : Option Request)
        → (elim o [ none ↦ true | some r ↦ false ] ≡ true → IsReady s)
        → d.commands ≡ exchanges completed ++ map command_of (in_service o)
        → all ++ (record request { sem = some sem } ∷ [])
          ≡ completed
            ++ (in_service o
                ++ disksched_schedule d.request_queue (record request { sem = some sem }))
        → AreRequests
            (in_service o ++ disksched_schedule d.request_queue (record request { sem = some sem }))
        → Yields (Submitted all completed created request) (
            let r : Request = record request { sem = some sem } in
            let d2 : DiskDriver = record d {
              request_served = o;
              request_queue = disksched_schedule d.request_queue r;
            } in
            (if elim o [ none ↦ true | some r ↦ false ] then disk_next_request s d2 else ok d2)
            >>= λ d3. ok (some r, d3))
    go none ready told order good =
        let r : Request = record request { sem = some sem } in
        Yields-bind _
          (disk_next_request-Yields (all ++ (r ∷ [])) completed s
            (disksched_schedule d.request_queue r) d (ready refl) order
            (told ∙ append-nil (exchanges completed)) i.signalled good)
          (λ d3 k. yields (accepted sem k.0))
    go (some q) ready told order good = yields (
        accepted sem (record {
          order = order;
          working = λ t. cc;
          told = told;
          signalled = i.signalled;
          good = good;
        }))

submit-Yields :
    (all completed : List Request) (created : Option ℕ) (s : DiskStatus) (d : DiskDriver)
    (request : Request) (sem : Option ℕ)
    → (is_idle d ≡ true → IsReady s)
    → request.operation ≢ unknown_operation
    → IsDisk all completed d
    → Yields
        (Submitted all completed created (record request { sem = sem }))
        (disk_submit_start created s d (record request { sem = sem }))
unfolding disk_submit_start
submit-Yields all completed created s d request (some sem) ready known i =
    schedule-Yields all completed created s (new_value d request.address)
      (record request { sem = some sem }) sem d.request_served ready known
      (still_IsDisk request.address i)
submit-Yields all completed none s d request none ready known i =
    yields (refused refl refl (still_IsDisk request.address i))
submit-Yields all completed (some sem) s d request none ready known i =
    schedule-Yields all completed (some sem) s (new_value d request.address)
      (record request { sem = none }) sem d.request_served ready known
      (still_IsDisk request.address i)

-- A request to read or write, submitted to a driver in order: it is refused, and nothing is queued, only
-- if it has no semaphore and none could be created. Else it goes behind all requests before it, the driver
-- is in order with it, and an idle driver has started it. An idle device must be ready.
pub disk_submit_start-Yields :
    (all completed : List Request) (created : Option ℕ) (s : DiskStatus) (d : DiskDriver)
    (request : Request)
    → (is_idle d ≡ true → IsReady s)
    → request.operation ≢ unknown_operation
    → IsDisk all completed d
    → Yields (Submitted all completed created request) (disk_submit_start created s d request)
unfolding disk_submit_start
disk_submit_start-Yields all completed created s d request ready known i =
    submit-Yields all completed created s d request request.sem ready known i
