-- ===== src/Examples/Requests.antt =====
-- The disk driver with two requests.
use osm_re_exam.Prelude.{◌≡◌, refl, [], ◌∷◌, ◌++◌, true, false, none, some}
use osm_re_exam.Prelude.Int.{minus_one}
use osm_re_exam.Prelude.Result.{Yields}
use osm_re_exam.Disk.{
  read_operation, write_operation, Request, transfer, DiskDriver, DiskStatus, disk_interrupt_handle,
  disk_submit_start, disk_submit_end,
}
use osm_re_exam.Disk.Calls.{IsRequest, IsDisk, disk_interrupt_handle-Yields}
use osm_re_exam.Disk.Submit.{Submitted, disk_submit_start-Yields}

abbrev first_request : Request
first_request = record {
  address = 100;
  block = 3;
  buf = 4096;
  sem = some 1;
  operation = read_operation;
}

abbrev second_request : Request
second_request = record {
  address = 200;
  block = 4;
  buf = 8192;
  sem = none;
  operation = write_operation;
}

first_request-IsRequest : IsRequest first_request
first_request-IsRequest = record { known = λ e. cc; waiter = 1; signals = refl }

-- The driver at work on the first request.
abbrev at_work : DiskDriver
at_work = record {
  request_queue = [];
  request_served = some first_request;
  return_value = λ a. minus_one;
  commands = transfer 3 4096 true ∷ [];
  raised = [];
}

at_work-IsDisk : IsDisk (first_request ∷ []) [] at_work
at_work-IsDisk = record {
  order = refl;
  working = λ t. refl;
  told = refl;
  signalled = refl;
  good = (first_request-IsRequest, tt);
}

abbrev ready_status : DiskStatus
ready_status = record { busy = false; irq = true; errors = false }

disk_interrupt_handle-Yields_example :
    Yields
      (λ d.
        IsDisk (first_request ∷ []) ([] ++ (first_request ∷ [])) d
        × (disk_submit_end d first_request ≡ 1))
      (disk_interrupt_handle ready_status at_work)
disk_interrupt_handle-Yields_example =
    disk_interrupt_handle-Yields (first_request ∷ []) [] ready_status at_work first_request
      (record { free = refl; sound = refl }) refl refl at_work-IsDisk

disk_submit_start-Yields_example :
    Yields
      (Submitted (first_request ∷ []) [] (some 2) second_request)
      (disk_submit_start (some 2) ready_status at_work second_request)
disk_submit_start-Yields_example =
    disk_submit_start-Yields (first_request ∷ []) [] (some 2) ready_status at_work second_request
      (λ t. record { free = refl; sound = refl }) (λ e. cc) at_work-IsDisk
