-- ===== src/RwLock/PageFaultTests.antt =====
-- A writer that waits for a reader, while another reader sleeps.
use u_depot.Base.{◌+◌, ◌≡◌, refl, true, arith}
use u_depot.RwLock.{Lock, new_lock, fetch_sub, take, locks_nr, rd_try_lock}
use u_depot.RwLock.PageFault.{
  PageFaultLock, new_page_fault_lock, idle, entering, checking, put_lock, read, sleep, begin,
  begin_check, Endings, here, turn, Used,
}
use u_depot.RwLock.Alone.{checked-alone}
use u_depot.RwLock.Drain.{all_endings, write_wait_readers-ends, idle-rd_try_lock}
use u_depot.RwLock.Progress.{enter_all, Used-ends}

abbrev first_reader : Lock
first_reader = record new_lock { word = fetch_sub new_lock.word 1; readers = new_lock.readers + 1 }

abbrev one_reads : PageFaultLock
one_reads = record new_page_fault_lock { locks = put_lock new_page_fault_lock.locks 0 first_reader }

one_reads-Used : Used one_reads
one_reads-Used =
    turn here (read new_page_fault_lock 0 (omega arith) (take new_lock (omega arith) refl) refl)

abbrev one_waits : PageFaultLock
one_waits = record one_reads { write_in_progress = true; phase = entering 0; waiting = 1 }

one_waits-Used : Used one_waits
one_waits-Used =
    turn (turn one_reads-Used (begin one_reads refl))
      (sleep (record one_reads { write_in_progress = true; phase = entering 0 }) refl)

Used-ends_example : (t : PageFaultLock) × Endings one_waits t × (t.phase ≡ idle) × (t.waiting ≡ 0)
Used-ends_example = Used-ends one_waits one_waits-Used

all_entered : (t : PageFaultLock) × Endings one_waits t × (t.phase ≡ entering locks_nr)
all_entered = enter_all locks_nr 0 one_waits refl refl

abbrev to_check : PageFaultLock
to_check = record all_entered.0 { phase = checking 0 }

to_check-Used : Used to_check
to_check-Used =
    turn (all_endings one_waits-Used all_entered.1) (begin_check all_entered.0 all_entered.2)

all_checked : (t : PageFaultLock) × Endings to_check t × (t.phase ≡ checking locks_nr)
all_checked = write_wait_readers-ends to_check 0 to_check-Used refl (omega arith)

checked-alone_example :
    ((all_checked.0.locks 0).readers ≡ 0) × ((all_checked.0.locks 0).writer ≡ true)
checked-alone_example =
    checked-alone all_checked.0 0 (all_endings to_check-Used all_checked.1) all_checked.2
      (omega arith)

idle-rd_try_lock_example :
    (one_reads.waiting ≡ 0) × ((rd_try_lock (one_reads.locks 0).word).0 ≡ true)
idle-rd_try_lock_example =
    idle-rd_try_lock one_reads 0 one_reads-Used refl (omega arith) (omega arith)
