-- ===== src/Cover/State.antt =====
-- The state of `CoverScheduler` (src/handlers/coverScheduler.ts) and the private methods that write
-- the queue, the status and the timer. A callback of an observer is a notice, the latest first.
use p2party_js.Base.{
  ℕ, ◌+◌, ◌-◌, Bool, true, false, ◌||◌, Option, none, some, List, [], ◌∷◌, ◌++◌, get_elem?, set,
  ltb, ◌==◌, if◌then◌else◌,
}
use p2party_js.Int.{ℤ}
use p2party_js.Maps.{map_get, map_delete, string_key}
use p2party_js.Cover.Schedule.{CoverSchedule, CoverSlot, max_timer_delay_ms}
use p2party_js.Cover.Jobs.{
  CoverJobKind, JobRuntime, queued, terminal, sort_jobs, remove_job, includes,
}
use Prim.Native.String.{String}

pub data Status : Type 0 where
  starting active degraded suspended stopped : Status

pub data Reason : Type 0 where
  backpressure cell_production_failed lane_open_failed missed_deadline send_failed : Reason
  on_suspend timer_drift boundary_handler_failed lane_close_failed : Reason

pub data JobOutcome : Type 0 where
  completed cancelled_before_admission cancelled capacity_exhausted failed_by_stop : JobOutcome

pub data CloseReason : Type 0 where
  boundary late_cleanup : CloseReason

pub data CellSource : Type 0 where
  from_job : CoverJobKind → CellSource
  from_cancel from_dummy : CellSource

pub record CoverSendRequest : Type 0 where
  pub cell : List ℕ
  pub source : CellSource
  pub slot : CoverSlot
  pub job_id : Option String
  pub job_cell_index : Option ℕ

-- What reaches the observers and the lanes. A result names the runtime that it settles, too.
pub data Notice : Type 0 where
  status_changed : Status → Status → Option Reason → Notice
  job_result : ℕ → String → JobOutcome → Notice
  job_interrupted : String → Reason → Notice
  lane_opening : ℕ → Option ℕ → Notice
  lane_closing : ℕ → CloseReason → Notice
  cell_sent : CoverSendRequest → Notice

pub record LaneRuntime : Type 0 where
  pub lane_index : ℕ
  pub job : Option ℕ

-- `serial` is the identity of the object.
pub record CycleRuntime : Type 0 where
  pub serial : ℕ
  pub index : ℤ
  pub start_ms : ℕ
  pub end_ms : ℕ
  pub lanes : List LaneRuntime
  pub next_slot_ordinal : ℕ

pub data TimerKind : Type 0 where
  open_boundary cycle_boundary : TimerKind
  slot_due : CoverSlot → TimerKind

-- The closure that `arm` gives to `setTimeout`, and its delay.
pub record Timer : Type 0 where
  pub generation : ℕ
  pub deadline_ms : ℕ
  pub kind : TimerKind
  pub delay_ms : ℕ

pub record CoverJobSlot : Type 0 where
  pub slot : CoverSlot
  pub job_id : String
  pub job_kind : CoverJobKind
  pub job_cell_index : ℕ

-- What a call of `sendSlot` awaits: `cancelCell` or `nextCell` of a runtime, `makeDummy`, its turn
-- with a request at hand, or the lane's answer to a request.
pub data Awaited : Type 0 where
  cancel_cell next_cell : ℕ → CoverJobSlot → Awaited
  make_dummy : Option ℕ → Awaited
  turn sending : CoverSendRequest → Awaited

-- A call of `sendSlot` at an `await`. Its lane is that of the slot in the cycle `serial`.
pub record InFlight : Type 0 where
  pub slot : CoverSlot
  pub generation : ℕ
  pub serial : ℕ
  pub awaited : Awaited

pub record CoverScheduler : Type 0 where
  pub schedule : CoverSchedule
  pub max_timer_drift_ms : ℕ
  pub status : Status
  pub running : Bool
  pub sequence : ℕ
  pub generation : ℕ
  pub timer : Option Timer
  pub cycle : Option CycleRuntime
  pub cycles_opened : ℕ
  pub queued : List ℕ
  pub jobs : List (String × ℕ)
  pub runtimes : List JobRuntime
  pub in_flight : List InFlight
  pub notices : List Notice

-- What a call meets outside: the clock's reading, and for which lanes `laneFactory` gives a lane and
-- `close` returns.
pub record Outside : Type 0 where
  pub now : ℕ
  pub opens : ℕ → Bool
  pub closes : ℕ → Bool

abbrev pub same_status : Status → Status → Bool
same_status starting starting = true
same_status active active = true
same_status degraded degraded = true
same_status suspended suspended = true
same_status stopped stopped = true
same_status _ _ = false

abbrev pub notify : Notice → CoverScheduler → CoverScheduler
notify n s = record s { notices = n ∷ s.notices }

abbrev pub write_runtime : ℕ → JobRuntime → CoverScheduler → CoverScheduler
write_runtime a r s = record s { runtimes = set s.runtimes a r }

unfoldable pub sort_queue : CoverScheduler → CoverScheduler
sort_queue s = record s { queued = sort_jobs s.runtimes s.queued }

unfoldable pub remove_queued : ℕ → CoverScheduler → CoverScheduler
remove_queued a s = record s { queued = remove_job a s.queued }

unfoldable pub dequeue : CoverScheduler → Option ℕ × CoverScheduler
unfolding sort_queue
dequeue s = elim (sort_queue s).queued [
  | [] ↦ (none, sort_queue s)
  | a ∷ rest ↦ (some a, record s { queued = rest })
]

unfoldable pub push_queued : ℕ → List ℕ → List ℕ
push_queued a queue = if includes a queue then queue else queue ++ a ∷ []

unfoldable pub requeue : Reason → ℕ → CoverScheduler → CoverScheduler
unfolding sort_queue push_queued
requeue reason a s = elim (get_elem? s.runtimes a) [
  | none ↦ s
  | some r ↦
      if r.settled || (r.completed || r.cancel_sent)
      then s
      else notify (job_interrupted r.job.id reason) (
          sort_queue (record (write_runtime a (record r { state = queued }) s) {
            queued = push_queued a s.queued;
          }))
]

-- `if (this.jobs.get(id) === runtime) this.jobs.delete(id)`.
unfoldable pub forget_job : String → ℕ → List (String × ℕ) → List (String × ℕ)
forget_job id a jobs = elim (map_get id jobs) [
  | none ↦ jobs
  | some b ↦ if b == a then map_delete id jobs else jobs
]

unfoldable pub settle : JobOutcome → ℕ → CoverScheduler → CoverScheduler
unfolding remove_queued forget_job
settle outcome a s = elim (get_elem? s.runtimes a) [
  | none ↦ s
  | some r ↦
      if r.settled
      then s
      else notify (job_result a r.job.id outcome)
          (record (remove_queued a
            (write_runtime a (record r { settled = true; state = terminal }) s)) {
              jobs = forget_job r.job.id a s.jobs;
            })
]

unfoldable pub set_status : Status → Option Reason → CoverScheduler → CoverScheduler
set_status status reason s =
    if same_status s.status status
    then s
    else notify (status_changed s.status status reason) (record s { status = status })

unfoldable pub disarm : CoverScheduler → CoverScheduler
disarm s = record s { generation = s.generation + 1; timer = none }

-- `Math.min(MAX_TIMER_DELAY_MS, Math.max(0, deadlineMs - now))`: `-` stops at 0.
abbrev pub timer_delay : ℕ → ℕ → ℕ
timer_delay deadline now =
    if ltb max_timer_delay_ms (deadline - now) then max_timer_delay_ms else deadline - now

unfoldable pub arm : ℕ → TimerKind → ℕ → CoverScheduler → CoverScheduler
unfolding disarm
arm deadline kind now s =
    let s' = disarm s in
    record s' {
      timer = some (record {
        generation = s'.generation;
        deadline_ms = deadline;
        kind = kind;
        delay_ms = timer_delay deadline now;
      });
    }
