-- ===== src/Disk.antt =====
-- buenos/drivers/disk.c and buenos/drivers/disksched.c: the disk driver and its queue of requests. The
-- list of requests stands for the links between them. The status of the device is an argument, and what
-- is written to its ports is kept in a list; so are the semaphores that the driver raises.
pub mod Calls
pub mod Submit
use osm_re_exam.Prelude.{
  ℕ, List, [], ◌∷◌, ◌++◌, Bool, true, false, not, ◌||◌, Option, none, some, ◌==◌, if◌then◌else◌,
}
use osm_re_exam.Prelude.Int.{ℤ, pos, minus_one, ◌==ℤ◌}
use osm_re_exam.Prelude.Result.{Result, ok, panic, fault, ◌>>=◌, ◌>>◌, kernel_assert}

-- `gbd_operation_t`, with the values that are none of the two.
pub data Operation : Type 0 where
  read_operation : Operation
  write_operation : Operation
  unknown_operation : Operation

-- `gbd_request_t` at an address; `return_value` of the driver's state is its field of this name.
pub record Request : Type 0 where
  pub address : ℕ
  pub block : ℕ
  pub buf : ℕ
  pub sem : Option ℕ
  pub operation : Operation

-- What is written to the ports: the start of a request, with its sector and address, and the two that
-- acknowledge an interrupt.
pub data Command : Type 0 where
  transfer : (tsector dmaaddr : ℕ) → (is_read : Bool) → Command
  disk_command_wirq : Command
  disk_command_rirq : Command

pub record DiskDriver : Type 0 where
  pub request_queue : List Request
  pub request_served : Option Request
  pub return_value : ℕ → ℤ
  pub commands : List Command
  pub raised : List ℕ

-- The device when it is looked at: it works, it asks for an interrupt, it reports an error.
pub record DiskStatus : Type 0 where
  pub busy : Bool
  pub irq : Bool
  pub errors : Bool

unfoldable pub disksched_schedule : List Request → Request → List Request
disksched_schedule [] request = request ∷ []
disksched_schedule (q ∷ queue) request = q ∷ disksched_schedule queue request

-- The write of the command port.
unfoldable pub start : Request → Result Command
start req =
    let command : Bool → Result Command = λ is_read. ok (transfer req.block req.buf is_read) in
    elim req.operation [
      | read_operation ↦ command true
      | write_operation ↦ command false
      | unknown_operation ↦ panic
    ]

abbrev pub is_idle : DiskDriver → Bool
is_idle d = elim d.request_served [ none ↦ true | some r ↦ false ]

unfoldable pub disk_next_request : DiskStatus → DiskDriver → Result DiskDriver
disk_next_request s d =
    let next : Result DiskDriver = elim d.request_queue [
      | [] ↦ ok d
      | req ∷ queue ↦ do
        command ← start req
        let started = record d {
          request_queue = queue;
          request_served = some req;
          commands = d.commands ++ (command ∷ []);
        }
        if s.errors then panic else ok started
    ] in
    kernel_assert (not s.busy) >> (kernel_assert (is_idle d) >> next)

-- `semaphore_V(request->sem)`
unfoldable pub signal_waiter : Option ℕ → List ℕ → Result (List ℕ)
signal_waiter none raised = fault
signal_waiter (some sem) raised = ok (raised ++ (sem ∷ []))

unfoldable pub disk_interrupt_handle : DiskStatus → DiskDriver → Result DiskDriver
disk_interrupt_handle s d =
    let served : Result DiskDriver = elim d.request_served [
      | none ↦ panic
      | some req ↦ do
        raised ← signal_waiter req.sem d.raised
        disk_next_request s (record d {
          request_served = none;
          return_value = λ a. if a == req.address then pos 0 else d.return_value a;
          raised = raised;
          commands = d.commands ++ (disk_command_wirq ∷ disk_command_rirq ∷ []);
        })
    ] in
    if s.irq then served else ok d

-- `disk_submit_request` up to the wait. `created` is what semaphore_create returns where it is called. A
-- request that is not taken is the first outcome.
unfoldable pub disk_submit_start :
    Option ℕ → DiskStatus → DiskDriver → Request → Result (Option Request × DiskDriver)
disk_submit_start created s d request =
    let d1 = record d {
      return_value = λ a. if a == request.address then minus_one else d.return_value a;
    } in
    let schedule : Request → Result (Option Request × DiskDriver) = λ request. do
      let d2 = record d1 { request_queue = disksched_schedule d1.request_queue request }
      let start_next = disk_next_request s d2
      d3 ← if is_idle d2 then start_next else ok d2
      ok (some request, d3)
    in elim request.sem [
      | some sem ↦ schedule request
      | none ↦ elim created [
        | none ↦ ok (none, d1)
        | some sem ↦ schedule (record request { sem = some sem })
      ]
    ]

-- The end of a synchronous call, when its semaphore was raised.
unfoldable pub disk_submit_end : DiskDriver → Request → ℕ
disk_submit_end d request = if d.return_value request.address ==ℤ pos 0 then 1 else 0

unfoldable pub disk_read_block :
    Option ℕ → DiskStatus → DiskDriver → Request → Result (Option Request × DiskDriver)
disk_read_block created s d request =
    disk_submit_start created s d (record request { operation = read_operation })

unfoldable pub disk_write_block :
    Option ℕ → DiskStatus → DiskDriver → Request → Result (Option Request × DiskDriver)
disk_write_block created s d request =
    disk_submit_start created s d (record request { operation = write_operation })
