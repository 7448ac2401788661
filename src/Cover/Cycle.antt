-- ===== src/Cover/Cycle.antt =====
-- Cycles of `CoverScheduler` (src/handlers/coverScheduler.ts): opening, interruption and closing.
use p2party_js.Base.{
  ℕ, zero, suc, ◌+◌, Bool, true, false, not, ◌&&◌, ◌||◌, Option, none, some, List, [], ◌∷◌,
  get_elem?, set, leb, ◌==◌, if◌then◌else◌, Result, ok, err, ◌>>=◌, ◌>>◌, fail_if,
}
use p2party_js.Int.{ℤ}
use p2party_js.Cover.Schedule.{
  CoverError, is_safe_integer, cycle_duration_ms, next_cycle_boundary, cycle_index_at_boundary,
  slot_at, cycle_end_range,
}
use p2party_js.Cover.Jobs.{JobRuntime, admitted}
use p2party_js.Cover.State.{
  active, degraded, suspended, stopped, same_status, Reason, on_suspend, missed_deadline,
  lane_open_failed, lane_close_failed, boundary_handler_failed, capacity_exhausted, CloseReason,
  boundary, late_cleanup, Notice, lane_opening, lane_closing, LaneRuntime, CycleRuntime,
  open_boundary, cycle_boundary, slot_due, CoverScheduler, Outside, dequeue, requeue, settle,
  set_status, disarm, arm,
}

-- The jobs of lanes, where they have one.
abbrev pub lane_jobs : List LaneRuntime → List ℕ
lane_jobs [] = []
lane_jobs (lane ∷ lanes) = elim lane.job [ none ↦ lane_jobs lanes | some a ↦ a ∷ lane_jobs lanes ]

abbrev pub cycle_jobs : Option CycleRuntime → List ℕ
cycle_jobs none = []
cycle_jobs (some c) = lane_jobs c.lanes

-- `lane.job = undefined` for each lane.
abbrev pub clear_lanes : List LaneRuntime → List LaneRuntime
clear_lanes [] = []
clear_lanes (lane ∷ lanes) = record lane { job = none } ∷ clear_lanes lanes

abbrev pub clear_cycle : CycleRuntime → CycleRuntime
clear_cycle c = record c { lanes = clear_lanes c.lanes }

abbrev pub clear_jobs : CoverScheduler → CoverScheduler
clear_jobs s = record s { cycle = elim s.cycle [ none ↦ none | some c ↦ some (clear_cycle c) ] }

unfoldable pub requeue_all : Reason → List ℕ → CoverScheduler → CoverScheduler
requeue_all reason [] s = s
requeue_all reason (a ∷ rest) s = requeue_all reason rest (requeue reason a s)

-- The lanes let go of their jobs, which go back to the queue in the order of the lanes.
unfoldable pub interrupt_cycle : Reason → CoverScheduler → CoverScheduler
unfolding requeue_all
interrupt_cycle reason s = requeue_all reason (cycle_jobs s.cycle) (clear_jobs s)

unfoldable pub finalize_job : ℕ → CoverScheduler → CoverScheduler
finalize_job a s = elim (get_elem? s.runtimes a) [
  | none ↦ s
  | some r ↦
      if r.settled
      then s
      else if r.cancel_requested && not r.cancel_sent
      then requeue missed_deadline a s
      else settle capacity_exhausted a s
]

unfoldable pub finalize_all : List ℕ → CoverScheduler → CoverScheduler
unfolding finalize_job
finalize_all [] s = s
finalize_all (a ∷ rest) s = finalize_all rest (finalize_job a s)

unfoldable pub finalize_cycle_jobs : CoverScheduler → CoverScheduler
unfolding finalize_all
finalize_cycle_jobs s = finalize_all (cycle_jobs s.cycle) (clear_jobs s)

-- The calls of `close`, in the order of the lanes, and whether all returned.
abbrev pub close_notices : CloseReason → List LaneRuntime → List Notice → List Notice
close_notices reason [] notices = notices
close_notices reason (lane ∷ lanes) notices =
    close_notices reason lanes (lane_closing lane.lane_index reason ∷ notices)

abbrev pub all_close : Outside → List LaneRuntime → Bool
all_close o [] = true
all_close o (lane ∷ lanes) = o.closes lane.lane_index && all_close o lanes

-- The lanes of a cycle stand in the order of their indices, so that the sort changes nothing.
unfoldable pub close_current_cycle : CloseReason → Outside → CoverScheduler → CoverScheduler × Bool
close_current_cycle reason o s = elim s.cycle [
  | none ↦ (s, true)
  | some c ↦ (
    record s { cycle = none; notices = close_notices reason c.lanes s.notices },
    all_close o c.lanes,
  )
]

unfoldable pub arm_open_boundary : ℕ → Outside → CoverScheduler → CoverScheduler
arm_open_boundary deadline o s = arm deadline open_boundary o.now s

unfoldable pub arm_cycle_boundary : ℕ → Outside → CoverScheduler → CoverScheduler
arm_cycle_boundary deadline o s = arm deadline cycle_boundary o.now s

-- `armOpenBoundary(nextCycleBoundary(now, inclusive))`, which may throw.
unfoldable pub arm_next_boundary :
    Bool → Outside → CoverScheduler → CoverScheduler × Result CoverError (Unit {0})
unfolding arm_open_boundary
arm_next_boundary inclusive o s = elim (next_cycle_boundary s.schedule o.now inclusive) [
  | err e ↦ (s, err e)
  | ok deadline ↦ (arm_open_boundary deadline o s, ok tt)
]

unfoldable pub arm_slot : CycleRuntime → Outside → CoverScheduler → CoverScheduler
arm_slot c o s =
    let slot = slot_at s.schedule c.index c.start_ms c.end_ms c.next_slot_ordinal in
    arm slot.deadline_ms (slot_due slot) o.now s

-- The end of `suspend`, `stop` and `degrade` for an open cycle: its close waits for the boundary.
unfoldable pub await_cycle_end : CycleRuntime → Outside → CoverScheduler → CoverScheduler
unfolding arm_cycle_boundary close_current_cycle
await_cycle_end c o s =
    if leb o.now c.end_ms
    then arm_cycle_boundary c.end_ms o s
    else (close_current_cycle late_cleanup o s).0

unfoldable pub suspend : Reason → Outside → CoverScheduler → CoverScheduler × Bool
unfolding await_cycle_end interrupt_cycle
suspend reason o s =
    if same_status s.status stopped || same_status s.status suspended
    then (s, false)
    else let s' = set_status suspended (some reason) (disarm s) in
      elim s'.cycle [
        | none ↦ (s', true)
        | some c ↦ (await_cycle_end c o (interrupt_cycle on_suspend s'), true)
      ]

unfoldable pub degrade :
    Reason → Outside → CoverScheduler → CoverScheduler × Result CoverError (Unit {0})
unfolding await_cycle_end interrupt_cycle arm_next_boundary
degrade reason o s =
    if same_status s.status stopped || same_status s.status suspended
    then (s, ok tt)
    else let s' = set_status degraded (some reason) (disarm s) in
      elim s'.cycle [
        | none ↦ if s'.running then arm_next_boundary false o s' else (s', ok tt)
        | some c ↦
            let s'' = interrupt_cycle reason s' in
            if leb o.now c.end_ms
            then (arm_cycle_boundary c.end_ms o s'', ok tt)
            else let closed = (close_current_cycle late_cleanup o s'').0 in
              if closed.running then arm_next_boundary false o closed else (closed, ok tt)
      ]

-- `selected.push(this.dequeue())` for each lane that is left.
unfoldable pub select : ℕ → CoverScheduler → List (Option ℕ) × CoverScheduler
select zero s = ([], s)
select (suc n) s = let (job, s') = dequeue s in let (jobs, s'') = select n s' in (job ∷ jobs, s'')

-- The jobs among the selected.
abbrev pub chosen : List (Option ℕ) → List ℕ
chosen [] = []
chosen (none ∷ rest) = chosen rest
chosen (some a ∷ rest) = a ∷ chosen rest

unfoldable pub admit : ℕ → List JobRuntime → List JobRuntime
admit a heap = elim (get_elem? heap a) [
  | none ↦ heap
  | some r ↦ set heap a (record r { state = admitted; ever_admitted = true })
]

unfoldable pub admit_all : List ℕ → List JobRuntime → List JobRuntime
unfolding admit
admit_all [] heap = heap
admit_all (a ∷ rest) heap = admit_all rest (admit a heap)

-- The lanes that `laneFactory` gave, from an index on.
unfoldable pub open_lanes : Outside → ℕ → List (Option ℕ) → List LaneRuntime
open_lanes o i [] = []
open_lanes o i (job ∷ rest) =
    if o.opens i
    then record { lane_index = i; job = job } ∷ open_lanes o (i + 1) rest
    else open_lanes o (i + 1) rest

unfoldable pub open_failed : Outside → ℕ → List (Option ℕ) → Bool
open_failed o i [] = false
open_failed o i (job ∷ rest) = not (o.opens i) || open_failed o (i + 1) rest

abbrev pub open_notices : ℕ → List (Option ℕ) → List Notice → List Notice
open_notices i [] notices = notices
open_notices i (job ∷ rest) notices = open_notices (i + 1) rest (lane_opening i job ∷ notices)

-- `openCycle` behind its guards and range checks.
unfoldable pub open_lanes_of_cycle : ℤ → ℕ → ℕ → Outside → CoverScheduler → CoverScheduler
unfolding open_lanes open_failed admit_all requeue_all arm_cycle_boundary arm_slot select
open_lanes_of_cycle index start_ms end_ms o s =
    let (selected, s') = select s.schedule.cover_lanes s in
    let c : CycleRuntime = record {
      serial = s'.cycles_opened;
      index = index;
      start_ms = start_ms;
      end_ms = end_ms;
      lanes = open_lanes o 0 selected;
      next_slot_ordinal = 0;
    } in
    let opened : CoverScheduler = record s' {
      runtimes = admit_all (chosen selected) s'.runtimes;
      notices = open_notices 0 selected s'.notices;
      cycle = some c;
      cycles_opened = s'.cycles_opened + 1;
    } in
    if open_failed o 0 selected
    then arm_cycle_boundary end_ms o (
        requeue_all lane_open_failed (chosen selected)
          (clear_jobs (set_status degraded (some lane_open_failed) opened)))
    else arm_slot c o (set_status active none opened)

-- What is thrown is thrown before anything is written.
unfoldable pub open_cycle : ℕ → ℕ → Outside → CoverScheduler → Result CoverError CoverScheduler
unfolding open_lanes_of_cycle
open_cycle boundary_ms generation o s =
    if not (generation == s.generation)
      || (not s.running || (same_status s.status stopped || same_status s.status suspended))
    then ok s
    else do
      index ← cycle_index_at_boundary s.schedule boundary_ms
      fail_if (not (is_safe_integer (boundary_ms + cycle_duration_ms s.schedule))) cycle_end_range
      ok (open_lanes_of_cycle index boundary_ms (boundary_ms + cycle_duration_ms s.schedule) o s)

-- A rejection of `openCycle` suspends.
unfoldable pub open_cycle_or_suspend : ℕ → ℕ → Outside → CoverScheduler → CoverScheduler
unfolding open_cycle suspend
open_cycle_or_suspend boundary_ms generation o s = elim (open_cycle boundary_ms generation o s) [
  | ok s' ↦ s'
  | err e ↦ (suspend boundary_handler_failed o s).0
]

-- What follows the close at a boundary.
unfoldable pub after_close : ℕ → Bool → Outside → CoverScheduler → CoverScheduler
unfolding arm_next_boundary open_cycle_or_suspend
after_close boundary_ms false o s =
    let s' =
      if same_status s.status stopped then s else set_status degraded (some lane_close_failed) s in
    if s'.running then (arm_next_boundary false o s').0 else s'
after_close boundary_ms true o s =
    if not s.running || (same_status s.status stopped || same_status s.status suspended)
    then s
    else open_cycle_or_suspend boundary_ms s.generation o s

unfoldable pub handle_cycle_boundary : ℕ → Outside → CoverScheduler → CoverScheduler
unfolding finalize_cycle_jobs close_current_cycle after_close
handle_cycle_boundary boundary_ms o s = elim s.cycle [
  | none ↦ s
  | some c ↦
      if not (c.end_ms == boundary_ms)
      then s
      else let (s', clean) = close_current_cycle boundary o (finalize_cycle_jobs s) in
        after_close boundary_ms clean o s'
]
