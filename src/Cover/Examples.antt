-- ===== src/Cover/Examples.antt =====
-- A timetable of two lanes and two epochs, and a run with a job of two cells.
use p2party_js.Base.{ℕ, ◌+◌, ◌*◌, ◌≡◌, ◌≤◌, ◌<◌, refl, true, false, none, List, [], ◌∷◌, arith}
use p2party_js.Int.{pos}
use p2party_js.Maps.{map_get}
use p2party_js.Double.{round_double, floor_quotient, bits}
use p2party_js.Cover.Schedule.{
  CoverSchedule, validate_cover_schedule, next_cycle_boundary, cycle_index_at_boundary, slot_at,
}
use p2party_js.Cover.Jobs.{CoverJob, real, sort_jobs}
use p2party_js.Cover.State.{Outside, arm, dequeue}
use p2party_js.Cover.Sending.{cell, accepted}
use p2party_js.Cover.Control.{
  initial, Event, enqueues, starts, fires, produces, answers, run, new_scheduler,
}
use p2party_js.Cover.Books.{results}
use p2party_js.Cover.Holding.{IsSound}
use p2party_js.Cover.Soundness.{run-IsSound}
use p2party_js.Cover.Slots.{slot_at-timetable}

abbrev two_lanes : CoverSchedule
two_lanes = record {
  phase_offset_ms = 40;
  cover_cadence_ms = 100;
  cover_lanes = 2;
  cover_frames_per_cell = 1;
  cover_duration_epochs = 2;
}

abbrev short_job : CoverJob
short_job = record {
  id = "job";
  kind = real;
  declared_cell_count = 2;
  priority = none;
  has_cancel_cell = false;
}

-- All lanes open and close.
abbrev at : ℕ → Outside
at now = record { now = now; opens = λ _. true; closes = λ _. true }

-- A cycle of four slots. The second lane has no job; the job ends in the second epoch.
abbrev one_cycle : List Event
one_cycle =
    enqueues short_job
    ∷ starts (at 10)
    ∷ fires (at 40)
    ∷ fires (at 65)
    ∷ produces 0 (cell (1 ∷ [])) (at 65)
    ∷ answers 0 accepted (at 66)
    ∷ fires (at 115)
    ∷ produces 0 (cell (0 ∷ [])) (at 115)
    ∷ answers 0 accepted (at 116)
    ∷ fires (at 165)
    ∷ produces 0 (cell (2 ∷ [])) (at 165)
    ∷ answers 0 accepted (at 166)
    ∷ []

one_cycle_result : results 0 (run one_cycle (initial two_lanes 5)).notices ≡ 1
unfolding run map_get next_cycle_boundary arm cycle_index_at_boundary dequeue sort_jobs slot_at
    round_double floor_quotient bits
one_cycle_result = refl

run-IsSound_example : IsSound (run one_cycle (initial two_lanes 5))
unfolding new_scheduler
run-IsSound_example = run-IsSound two_lanes 5 (initial two_lanes 5) one_cycle refl

slot_at-timetable_example :
    ((slot_at two_lanes (pos 0) 40 240 3).lane_index < 2)
    × ((slot_at two_lanes (pos 0) 40 240 3).lane_slot_index < 2)
    × (40 ≤ (slot_at two_lanes (pos 0) 40 240 3).deadline_ms)
    × ((slot_at two_lanes (pos 0) 40 240 3).deadline_ms < 240)
    × ((slot_at two_lanes (pos 0) 40 240 3).lane_slot_index * 2
          + (slot_at two_lanes (pos 0) 40 240 3).lane_index
        ≡ 3)
    × ((slot_at two_lanes (pos 0) 40 240 3).deadline_ms + 25
        ≤ (slot_at two_lanes (pos 0) 40 240 4).deadline_ms)
unfolding validate_cover_schedule
slot_at-timetable_example =
    slot_at-timetable two_lanes (pos 0) 40 240 3 refl (omega arith) (omega arith) (omega arith)

-- A schedule that passes its validation, whose numerators are rounded.
abbrev long_epoch : CoverSchedule
long_epoch = record {
  phase_offset_ms = 0;
  cover_cadence_ms = 267195278795;
  cover_lanes = 9;
  cover_frames_per_cell = 1187534572;
  cover_duration_epochs = 1;
}

rounded_deadline : (slot_at long_epoch (pos 0) 0 267195278795 5118899023).deadline_ms ≡ 127972475633
unfolding slot_at round_double floor_quotient bits
rounded_deadline = refl

next_rounded_deadline :
    (slot_at long_epoch (pos 0) 0 267195278795 5118899024).deadline_ms ≡ 127972475657
unfolding slot_at round_double floor_quotient bits
next_rounded_deadline = refl
