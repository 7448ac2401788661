-- ===== src/Cover/Control.antt =====
-- The public methods of `CoverScheduler` and its timer callback (src/handlers/coverScheduler.ts), and
-- runs of them all in any order.
use p2party_js.Base.{
  ℕ, suc, ◌+◌, Bool, true, false, not, ◌||◌, Option, none, some, List, [], ◌∷◌, ◌++◌, length,
  get_elem?, take, drop, ltb, ◌==◌, if◌then◌else◌, Result, ok, err, ◌>>◌, fail_if,
}
use p2party_js.Int.{ℤ, pos_part, neg_part}
use p2party_js.Maps.{map_get, map_set, string_key}
use p2party_js.Cover.Schedule.{
  CoverSchedule, CoverError, is_safe_integer, slots_per_lane, below_slot_spacing, timer_drift,
  empty_job_id, duplicate_job_id, job_capacity, unsafe_integer, cancel_cell_missing,
  validate_cover_schedule,
}
use p2party_js.Cover.Jobs.{CoverJob, new_runtime}
use p2party_js.Cover.State.{
  Reason, missed_deadline, completed, cancelled_before_admission, failed_by_stop, late_cleanup,
  Status, starting, suspended, stopped, same_status, TimerKind, open_boundary, cycle_boundary,
  slot_due, Timer, CoverScheduler, Outside, write_runtime, timer_delay, sort_queue, remove_queued,
  settle, set_status, disarm, InFlight, on_suspend,
}
use p2party_js.Cover.State
use p2party_js.Cover.Cycle.{
  interrupt_cycle, close_current_cycle, arm_cycle_boundary, arm_next_boundary, suspend, degrade,
  open_cycle_or_suspend, handle_cycle_boundary, clear_jobs, await_cycle_end,
}
use p2party_js.Cover.Sending.{
  Production, Answer, send_slot, produced, produced_for, answered, answered_for,
}
use Prim.Native.String.{String}

-- The fields of a new scheduler.
abbrev pub initial : CoverSchedule → ℕ → CoverScheduler
initial schedule max_timer_drift_ms = record {
  schedule = schedule;
  max_timer_drift_ms = max_timer_drift_ms;
  status = stopped;
  running = false;
  sequence = 0;
  generation = 0;
  timer = none;
  cycle = none;
  cycles_opened = 0;
  queued = [];
  jobs = [];
  runtimes = [];
  in_flight = [];
  notices = [];
}

-- The constructor: the drift is less than a slot.
unfoldable pub new_scheduler : CoverSchedule → ℕ → Result CoverError CoverScheduler
unfolding validate_cover_schedule
new_scheduler schedule max_timer_drift_ms = do
  validate_cover_schedule schedule
  fail_if (not (below_slot_spacing schedule max_timer_drift_ms)) timer_drift
  ok (initial schedule max_timer_drift_ms)

abbrev unsafe_priority : Option ℤ → Bool
unsafe_priority none = false
unsafe_priority (some p) = not (is_safe_integer (pos_part p + neg_part p))

abbrev pub has_job : String → CoverScheduler → Bool
has_job id s = elim (map_get id s.jobs) [ none ↦ false | some _ ↦ true ]

-- The guards of `enqueue`.
unfoldable pub check_job : CoverJob → CoverScheduler → Result CoverError (Unit {0})
check_job job s = do
  fail_if (string_key.same job.id "") empty_job_id
  fail_if (has_job job.id s) duplicate_job_id
  fail_if (not (is_safe_integer job.declared_cell_count)) unsafe_integer
  fail_if (ltb job.declared_cell_count 1 || ltb (slots_per_lane s.schedule) job.declared_cell_count)
      job_capacity
  fail_if (unsafe_priority job.priority) unsafe_integer

-- The new runtime is the next place of the list of all.
unfoldable pub register : CoverJob → CoverScheduler → CoverScheduler
unfolding sort_queue
register job s = sort_queue (record s {
  sequence = s.sequence + 1;
  jobs = map_set job.id (length s.runtimes) s.jobs;
  queued = s.queued ++ length s.runtimes ∷ [];
  runtimes = s.runtimes ++ new_runtime job s.sequence ∷ [];
})

unfoldable pub enqueue : CoverJob → CoverScheduler → Result CoverError CoverScheduler
unfolding check_job register
enqueue job s = do check_job job s; ok (register job s)

pub data CancelResult : Type 0 where
  not_found before_admission cancel_pending : CancelResult

unfoldable pub cancel : String → CoverScheduler → Result CoverError (CoverScheduler × CancelResult)
unfolding remove_queued settle sort_queue
cancel job_id s = elim (map_get job_id s.jobs) [
  | none ↦ ok (s, not_found)
  | some a ↦ elim (get_elem? s.runtimes a) [
    | none ↦ ok (s, not_found)
    | some r ↦
        if r.settled
        then ok (s, not_found)
        else if not r.ever_admitted
        then ok (settle cancelled_before_admission a (remove_queued a s), before_admission)
        else if not r.job.has_cancel_cell
        then err cancel_cell_missing
        else ok (
          sort_queue (write_runtime a (record r { cancel_requested = true; completed = false }) s),
          cancel_pending,
        )
  ]
]

unfoldable pub complete : String → CoverScheduler → CoverScheduler × Bool
unfolding remove_queued settle
complete job_id s = elim (map_get job_id s.jobs) [
  | none ↦ (s, false)
  | some a ↦ elim (get_elem? s.runtimes a) [
    | none ↦ (s, false)
    | some r ↦ if r.settled then (s, false) else (
      settle completed a (
          write_runtime a (record r { completed = true; pending_cell = none }) (remove_queued a s)),
      true,
    )
  ]
]

-- The last lines of `start` and `resume`.
unfoldable pub reopen : Bool → Outside → CoverScheduler → CoverScheduler × Result CoverError Bool
unfolding arm_next_boundary
reopen inclusive o s =
    let (s', result) = arm_next_boundary inclusive o s in
    elim result [ ok _ ↦ (s', ok true) | err e ↦ (s', err e) ]

-- What is thrown is thrown after the status has changed.
unfoldable pub start : Outside → CoverScheduler → CoverScheduler × Result CoverError Bool
unfolding set_status arm_cycle_boundary reopen
start o s =
    if not (same_status s.status stopped)
    then (s, ok false)
    else let s' = set_status starting none (record s { running = true }) in
      elim s'.cycle [
        | some c ↦ (arm_cycle_boundary c.end_ms o s', ok true)
        | none ↦ reopen true o s'
      ]

unfoldable pub resume : Outside → CoverScheduler → CoverScheduler × Result CoverError Bool
unfolding set_status disarm arm_cycle_boundary reopen close_current_cycle
resume o s =
    if not (same_status s.status suspended)
    then (s, ok false)
    else let s' = set_status starting none (disarm (record s { running = true })) in
      elim s'.cycle [
        | none ↦ reopen false o s'
        | some c ↦
            if ltb o.now c.end_ms
            then (arm_cycle_boundary c.end_ms o s', ok true)
            else reopen false o (close_current_cycle late_cleanup o s').0
      ]

-- The registered jobs fail, in the order of their registration.
unfoldable pub fail_jobs : List (String × ℕ) → CoverScheduler → CoverScheduler
unfolding remove_queued settle
fail_jobs [] s = s
fail_jobs ((id, a) ∷ rest) s = fail_jobs rest (settle failed_by_stop a (remove_queued a s))

-- `stop` up to the loop over the lanes.
unfoldable pub halt : CoverScheduler → CoverScheduler
unfolding set_status disarm fail_jobs
halt s = fail_jobs s.jobs (set_status stopped none (disarm (record s { running = false })))

unfoldable pub stop : Outside → CoverScheduler → CoverScheduler × Bool
unfolding halt await_cycle_end
stop o s = elim s.cycle [
  | none ↦ if same_status s.status stopped then (s, false) else (halt s, true)
  | some c ↦ (await_cycle_end c o (clear_jobs (halt s)), true)
]

-- `handleLateTimer`.
unfoldable pub handle_late_timer : TimerKind → Outside → CoverScheduler → CoverScheduler
unfolding degrade interrupt_cycle close_current_cycle set_status
handle_late_timer (slot_due _) o s = (degrade missed_deadline o s).0
handle_late_timer _ o s =
    let t : CoverScheduler = elim s.cycle [
      | none ↦ s
      | some _ ↦ (close_current_cycle late_cleanup o (interrupt_cycle on_suspend s)).0
    ] in
    if same_status t.status stopped then t else set_status suspended (some State.timer_drift) t

-- The handlers that the three methods give to `arm`.
unfoldable pub handle_timer : Timer → Outside → CoverScheduler → CoverScheduler
unfolding open_cycle_or_suspend handle_cycle_boundary send_slot
handle_timer t o s = elim t.kind [
  | open_boundary ↦ open_cycle_or_suspend t.deadline_ms t.generation o s
  | cycle_boundary ↦ handle_cycle_boundary t.deadline_ms o s
  | slot_due slot ↦ send_slot slot t.generation o s
]

-- The callback of the timer that is set.
unfoldable pub timer_fired : Outside → CoverScheduler → CoverScheduler
unfolding handle_late_timer handle_timer
timer_fired o s = elim s.timer [
  | none ↦ s
  | some t ↦
      if not (t.generation == s.generation)
      then s
      else if ltb o.now t.deadline_ms
      then record s { timer = some (record t { delay_ms = timer_delay t.deadline_ms o.now }) }
      else if ltb (t.deadline_ms + s.max_timer_drift_ms) o.now
      then handle_late_timer t.kind o (record s { timer = none })
      else handle_timer t o (record s { timer = none })
]

-- A call of a method, the timer, or the end of an `await` of the n-th call of `sendSlot` in flight.
pub data Event : Type 0 where
  enqueues : CoverJob → Event
  cancels completes : String → Event
  starts suspends resumes stops fires : Outside → Event
  produces : ℕ → Production → Outside → Event
  answers : ℕ → Answer → Outside → Event

-- The call leaves the list, and goes on.
unfoldable pub continue_with :
    (InFlight → CoverScheduler → CoverScheduler) → ℕ → CoverScheduler → CoverScheduler
continue_with f n s = elim (get_elem? s.in_flight n) [
  | none ↦ s
  | some call ↦ f call (record s { in_flight = take n s.in_flight ++ drop (suc n) s.in_flight })
]

unfoldable pub step : CoverScheduler → Event → CoverScheduler
unfolding enqueue cancel complete start suspend resume stop timer_fired produced_for answered_for
    continue_with
step s (enqueues job) = elim (enqueue job s) [ ok s' ↦ s' | err _ ↦ s ]
step s (cancels id) = elim (cancel id s) [ ok (s', _) ↦ s' | err _ ↦ s ]
step s (completes id) = (complete id s).0
step s (starts o) = (start o s).0
step s (suspends o) = (suspend on_suspend o s).0
step s (resumes o) = (resume o s).0
step s (stops o) = (stop o s).0
step s (fires o) = timer_fired o s
step s (produces n p o) = continue_with (λ f t. produced p f o t) n s
step s (answers n a o) = continue_with (λ f t. answered a f o t) n s

unfoldable pub run : List Event → CoverScheduler → CoverScheduler
unfolding step
run [] s = s
run (e ∷ events) s = run events (step s e)
