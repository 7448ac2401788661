-- ===== src/Cover/Sending.antt =====
-- `sendSlot` and `requestForSlot` of `CoverScheduler` (src/handlers/coverScheduler.ts), in the parts
-- between their `await`s. What an `await` gives is an argument of the part behind it.
use p2party_js.Base.{
  ℕ, ◌+◌, true, not, ◌&&◌, Option, none, some, List, [], ◌∷◌, ◌++◌, get_elem?, ltb, ◌==◌,
  if◌then◌else◌, ok, err,
}
use p2party_js.Maps.{map_get, string_key}
use p2party_js.Cover.Schedule.{CoverSlot, total_cycle_slots}
use p2party_js.Cover.Jobs.{JobRuntime}
use p2party_js.Cover.State.{
  active, same_status, Reason, cell_production_failed, lane_open_failed, missed_deadline,
  send_failed, backpressure, completed, cancelled, CellSource, from_job, from_cancel, from_dummy,
  CoverSendRequest, cell_sent, LaneRuntime, CycleRuntime, CoverJobSlot, Awaited, cancel_cell,
  next_cell, make_dummy, turn, sending, InFlight, CoverScheduler, Outside, notify, write_runtime,
  settle,
}
use p2party_js.Cover.Cycle.{degrade, arm_slot, arm_cycle_boundary}
use Prim.Native.String.{String}

-- What `cancelCell`, `nextCell` or `makeDummy` gives: bytes, `null`, or a rejection or another value.
pub data Production : Type 0 where
  cell : List ℕ → Production
  no_cell not_a_cell : Production

-- What the lane answers: `false` for backpressure.
pub data Answer : Type 0 where
  accepted refused broken : Answer

-- The lane of an index, where it was opened.
abbrev pub find_lane : ℕ → List LaneRuntime → Option LaneRuntime
find_lane i [] = none
find_lane i (lane ∷ lanes) = if lane.lane_index == i then some lane else find_lane i lanes

-- The job of the lane of a slot in the cycle `serial`. A closed cycle has taken the jobs from its lanes.
unfoldable pub lane_job : ℕ → CoverSlot → CoverScheduler → Option ℕ
lane_job serial slot s = elim s.cycle [
  | none ↦ none
  | some c ↦
      if c.serial == serial
      then elim (find_lane slot.lane_index c.lanes) [ none ↦ none | some lane ↦ lane.job ]
      else none
]

-- The runtime of a reference.
abbrev pub runtime_of : Option ℕ → CoverScheduler → Option JobRuntime
runtime_of none s = none
runtime_of (some a) s = get_elem? s.runtimes a

unfoldable pub job_slot : JobRuntime → CoverSlot → CoverJobSlot
job_slot r slot = record {
  slot = slot;
  job_id = r.job.id;
  job_kind = r.job.kind;
  job_cell_index = r.sent_cells;
}

unfoldable pub job_request : CellSource → JobRuntime → CoverSlot → List ℕ → CoverSendRequest
job_request source r slot bytes = record {
  cell = bytes;
  source = source;
  slot = slot;
  job_id = some r.job.id;
  job_cell_index = some r.sent_cells;
}

unfoldable pub dummy_request : Option ℕ → CoverSlot → List ℕ → CoverScheduler → CoverSendRequest
dummy_request job slot bytes s = record {
  cell = bytes;
  source = from_dummy;
  slot = slot;
  job_id = elim (runtime_of job s) [ none ↦ none | some r ↦ some r.job.id ];
  job_cell_index = none;
}

-- `requestForSlot` up to its first `await`.
unfoldable pub request_for_slot : Option ℕ → CoverSlot → CoverScheduler → Awaited
unfolding job_slot job_request
request_for_slot none slot s = make_dummy none
request_for_slot (some a) slot s = elim (get_elem? s.runtimes a) [
  | none ↦ make_dummy none
  | some r ↦
      if r.settled
      then make_dummy (some a)
      else if r.cancel_requested && not r.cancel_sent
      then elim r.pending_cancel_cell [
        | some bytes ↦ turn (job_request from_cancel r slot bytes)
        | none ↦ cancel_cell a (job_slot r slot)
      ]
      else if not r.completed && ltb r.sent_cells r.job.declared_cell_count
      then elim r.pending_cell [
        | some bytes ↦ turn (job_request (from_job r.job.kind) r slot bytes)
        | none ↦ next_cell a (job_slot r slot)
      ]
      else make_dummy (some a)
]

-- `this.degrade(reason)` in `sendSlot`: what it throws rejects `sendSlot`, whose `catch` degrades.
unfoldable pub degrade_slot : Reason → Outside → CoverScheduler → CoverScheduler
unfolding degrade
degrade_slot reason o s =
    let (s', result) = degrade reason o s in
    elim result [ ok _ ↦ s' | err _ ↦ (degrade cell_production_failed o s').0 ]

abbrev pub await_on : InFlight → CoverScheduler → CoverScheduler
await_on f s = record s { in_flight = s.in_flight ++ f ∷ [] }

-- `sendSlot` up to its first `await`.
unfoldable pub send_slot : CoverSlot → ℕ → Outside → CoverScheduler → CoverScheduler
unfolding degrade_slot request_for_slot
send_slot slot generation o s = if not (generation == s.generation) then s else elim s.cycle [
  | none ↦ s
  | some c ↦
      if not (same_status s.status active) then s else elim (find_lane slot.lane_index c.lanes) [
        | none ↦ degrade_slot lane_open_failed o s
        | some lane ↦
            await_on
              (record {
                slot = slot;
                generation = generation;
                serial = c.serial;
                awaited = request_for_slot lane.job slot s;
              })
              s
      ]
]

-- The runtime of a request: the job of its id, if registered, or else that of the lane.
unfoldable pub request_runtime : Option String → Option ℕ → CoverScheduler → Option ℕ
request_runtime none lane s = lane
request_runtime (some id) lane s = elim (map_get id s.jobs) [ none ↦ lane | some a ↦ some a ]

abbrev pub cache_cell : CellSource → List ℕ → JobRuntime → JobRuntime
cache_cell from_cancel bytes r = record r { pending_cancel_cell = some bytes }
cache_cell (from_job _) bytes r = record r { pending_cell = some bytes }
cache_cell from_dummy bytes r = r

abbrev pub cache_in : CoverSendRequest → Option ℕ → CoverScheduler → CoverScheduler
cache_in request none s = s
cache_in request (some a) s = elim (get_elem? s.runtimes a) [
  | none ↦ s
  | some r ↦ if r.settled then s else write_runtime a (cache_cell request.source request.cell r) s
]

unfoldable pub cache_unsent : InFlight → CoverSendRequest → CoverScheduler → CoverScheduler
unfolding lane_job request_runtime
cache_unsent f request s =
    cache_in request (request_runtime request.job_id (lane_job f.serial f.slot s) s) s

-- `acceptSent` for an unsettled runtime.
unfoldable pub accept_for : CellSource → ℕ → JobRuntime → CoverScheduler → CoverScheduler
unfolding settle
accept_for from_cancel a r s =
    settle cancelled a
      (write_runtime a (record r { pending_cancel_cell = none; cancel_sent = true }) s)
accept_for from_dummy a r s = s
accept_for (from_job _) a r s =
    if r.sent_cells + 1 == r.job.declared_cell_count
    then settle completed a (
        write_runtime a
          (record r { pending_cell = none; sent_cells = r.sent_cells + 1; completed = true }) s)
    else write_runtime a (record r { pending_cell = none; sent_cells = r.sent_cells + 1 }) s

unfoldable pub accept_sent : InFlight → CoverSendRequest → CoverScheduler → CoverScheduler
unfolding lane_job accept_for
accept_sent f request s = elim (lane_job f.serial f.slot s) [
  | none ↦ s
  | some a ↦ elim (get_elem? s.runtimes a) [
    | none ↦ s
    | some r ↦ if r.settled then s else accept_for request.source a r s
  ]
]

-- `sendSlot` with its request at hand, up to the `await` of the lane's answer.
unfoldable pub try_send : InFlight → CoverSendRequest → Outside → CoverScheduler → CoverScheduler
unfolding cache_unsent degrade_slot
try_send f request o s =
    if not (f.generation == s.generation)
    then cache_unsent f request s
    else if ltb (f.slot.deadline_ms + s.max_timer_drift_ms) o.now
    then degrade_slot missed_deadline o (cache_unsent f request s)
    else notify (cell_sent request) (await_on (record f { awaited = sending request }) s)

unfoldable pub send_as :
    CellSource → InFlight → ℕ → List ℕ → Outside → CoverScheduler → CoverScheduler
unfolding try_send job_request degrade_slot
send_as source f a bytes o s = elim (get_elem? s.runtimes a) [
  | none ↦ degrade_slot cell_production_failed o s
  | some r ↦ try_send f (job_request source r f.slot bytes) o s
]

-- `sendSlot` behind an `await` of `requestForSlot`: the request of a cached cell needs nothing more.
unfoldable pub produced_for :
    Awaited → Production → InFlight → Outside → CoverScheduler → CoverScheduler
unfolding try_send send_as dummy_request degrade_slot
produced_for (turn request) _ f o s = try_send f request o s
produced_for (cancel_cell a _) (cell bytes) f o s = send_as from_cancel f a bytes o s
produced_for (cancel_cell _ _) _ f o s = degrade_slot cell_production_failed o s
produced_for (next_cell a js) (cell bytes) f o s = send_as (from_job js.job_kind) f a bytes o s
produced_for (next_cell a _) no_cell f o s = await_on (record f { awaited = make_dummy (some a) }) s
produced_for (next_cell _ _) not_a_cell f o s = degrade_slot cell_production_failed o s
produced_for (make_dummy job) (cell bytes) f o s = try_send f (dummy_request job f.slot bytes s) o s
produced_for (make_dummy _) _ f o s = degrade_slot cell_production_failed o s
produced_for (sending _) _ f o s = await_on f s

abbrev pub produced : Production → InFlight → Outside → CoverScheduler → CoverScheduler
produced p f o s = produced_for f.awaited p f o s

-- The next slot of the cycle, or its end.
unfoldable pub next_ordinal : InFlight → Outside → CoverScheduler → CoverScheduler
unfolding arm_slot arm_cycle_boundary
next_ordinal f o s = if not (f.generation == s.generation) then s else elim s.cycle [
  | none ↦ s
  | some c ↦
      if not (c.serial == f.serial)
      then s
      else let c' : CycleRuntime = record c { next_slot_ordinal = c.next_slot_ordinal + 1 } in
        let s' : CoverScheduler = record s { cycle = some c' } in
        if ltb c'.next_slot_ordinal (total_cycle_slots s.schedule)
        then arm_slot c' o s'
        else arm_cycle_boundary c.end_ms o s'
]

-- `sendSlot` behind the lane's answer.
unfoldable pub answered_for :
    Awaited → Answer → InFlight → Outside → CoverScheduler → CoverScheduler
unfolding cache_unsent degrade_slot next_ordinal accept_sent
answered_for (sending request) accepted f o s = next_ordinal f o (accept_sent f request s)
answered_for (sending request) refused f o s =
    degrade_slot backpressure o (cache_unsent f request s)
answered_for (sending request) broken f o s = degrade_slot send_failed o (cache_unsent f request s)
answered_for _ _ f o s = await_on f s

abbrev pub answered : Answer → InFlight → Outside → CoverScheduler → CoverScheduler
answered answer f o s = answered_for f.awaited answer f o s
