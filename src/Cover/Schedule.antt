-- ===== src/Cover/Schedule.antt =====
-- Timetables of src/handlers/coverScheduler.ts: `CoverSchedule`, `validateCoverSchedule`, the
-- boundaries of cycles and `slotAt`. Times are whole milliseconds from zero on; the index of a cycle
-- that ends before the phase is negative.
use p2party_js.Base.{
  ℕ, ◌+◌, ◌-◌, ◌*◌, ◌/◌, ◌%◌, ◌^◌, Bool, ◌&&◌, ◌||◌, not, ltb, leb, if◌then◌else◌, Result, ok, err,
  ◌>>◌, fail_if,
}
use p2party_js.Double.{round_double, floor_quotient}
use p2party_js.Int.{ℤ, pos, neg, mul_add, pos_part, neg_part}

pub record CoverSchedule : Type 0 where
  pub phase_offset_ms : ℕ
  pub cover_cadence_ms : ℕ
  pub cover_lanes : ℕ
  pub cover_frames_per_cell : ℕ
  pub cover_duration_epochs : ℕ

pub record CoverSlot : Type 0 where
  pub deadline_ms : ℕ
  pub cycle_index : ℤ
  pub cycle_start_ms : ℕ
  pub cycle_end_ms : ℕ
  pub epoch_index : ℤ
  pub epoch_in_cycle : ℕ
  pub lane_index : ℕ
  pub frame_index : ℕ
  pub lane_slot_index : ℕ

-- What the scheduler throws.
pub data CoverError : Type 0 where
  unsafe_integer cadence_range lanes_range frames_range duration_range geometry_range : CoverError
  slot_spacing timer_drift : CoverError
  empty_job_id duplicate_job_id job_capacity : CoverError
  cancel_cell_missing boundary_range cycle_index_range cycle_end_range : CoverError

abbrev pub max_cover_lanes : ℕ
max_cover_lanes = 16

abbrev pub min_cover_slot_ms : ℕ
min_cover_slot_ms = 25

abbrev pub max_timer_delay_ms : ℕ
max_timer_delay_ms = 0x7fffffff

-- `Number.isSafeInteger`.
abbrev pub is_safe_integer : ℕ → Bool
is_safe_integer n = ltb n (2 ^ 53)

abbrev pub slots_per_epoch : CoverSchedule → ℕ
slots_per_epoch c = c.cover_lanes * c.cover_frames_per_cell

abbrev pub slots_per_lane : CoverSchedule → ℕ
slots_per_lane c = c.cover_frames_per_cell * c.cover_duration_epochs

abbrev pub cycle_duration_ms : CoverSchedule → ℕ
cycle_duration_ms c = c.cover_cadence_ms * c.cover_duration_epochs

abbrev pub total_cycle_slots : CoverSchedule → ℕ
total_cycle_slots c = slots_per_epoch c * c.cover_duration_epochs

-- `ms < coverSlotSpacingMs(schedule)`, with the quotient multiplied out.
abbrev pub below_slot_spacing : CoverSchedule → ℕ → Bool
below_slot_spacing c ms = ltb (ms * slots_per_epoch c) c.cover_cadence_ms

abbrev pub unsafe_geometry : CoverSchedule → Bool
unsafe_geometry c =
    not (is_safe_integer (slots_per_epoch c))
    || (not (is_safe_integer (slots_per_lane c)) || not (is_safe_integer (cycle_duration_ms c)))

unfoldable pub validate_cover_schedule : CoverSchedule → Result CoverError (Unit {0})
validate_cover_schedule c = do
  fail_if (not (is_safe_integer c.phase_offset_ms)) unsafe_integer
  fail_if (not (is_safe_integer c.cover_cadence_ms)) unsafe_integer
  fail_if (not (is_safe_integer c.cover_lanes)) unsafe_integer
  fail_if (not (is_safe_integer c.cover_frames_per_cell)) unsafe_integer
  fail_if (not (is_safe_integer c.cover_duration_epochs)) unsafe_integer
  fail_if (ltb c.cover_cadence_ms 1) cadence_range
  fail_if (ltb c.cover_lanes 1 || ltb max_cover_lanes c.cover_lanes) lanes_range
  fail_if (ltb c.cover_frames_per_cell 1) frames_range
  fail_if (ltb c.cover_duration_epochs 1) duration_range
  fail_if (unsafe_geometry c) geometry_range
  fail_if (ltb c.cover_cadence_ms (min_cover_slot_ms * slots_per_epoch c)) slot_spacing

-- `phaseOffsetMs + Math.ceil((now - phaseOffsetMs) / cycleDurationMs) * cycleDurationMs`.
unfoldable pub ceil_boundary : CoverSchedule → ℕ → ℕ
ceil_boundary c now =
    if leb c.phase_offset_ms now
    then c.phase_offset_ms
      + (now - c.phase_offset_ms + cycle_duration_ms c - 1)
        / cycle_duration_ms c
        * cycle_duration_ms c
    else c.phase_offset_ms - (c.phase_offset_ms - now) / cycle_duration_ms c * cycle_duration_ms c

unfoldable pub next_cycle_boundary : CoverSchedule → ℕ → Bool → Result CoverError ℕ
unfolding ceil_boundary
next_cycle_boundary c now inclusive =
    let first = ceil_boundary c now in
    let boundary = if not inclusive && leb first now then first + cycle_duration_ms c else first in
    if not (is_safe_integer boundary) then err boundary_range else ok boundary

-- `Math.round((boundaryMs - phaseOffsetMs) / cycleDurationMs)`: halves round up.
unfoldable pub round_cycle_index : CoverSchedule → ℕ → ℤ
round_cycle_index c boundary =
    let d = cycle_duration_ms c in
    if leb c.phase_offset_ms boundary
    then pos ((2 * (boundary - c.phase_offset_ms) + d) / (2 * d))
    else neg ((2 * (c.phase_offset_ms - boundary) - d + (2 * d - 1)) / (2 * d))

unfoldable pub cycle_index_at_boundary : CoverSchedule → ℕ → Result CoverError ℤ
unfolding round_cycle_index
cycle_index_at_boundary c boundary =
    let index = round_cycle_index c boundary in
    if is_safe_integer (pos_part index + neg_part index) then ok index else err cycle_index_range

-- The slot of an ordinal in a cycle with this index, start and end. Of a valid schedule, all numbers
-- are below 2^53 but the numerator and the times, which are rounded as the source's doubles are.
unfoldable pub slot_at : CoverSchedule → ℤ → ℕ → ℕ → ℕ → CoverSlot
slot_at c index start_ms end_ms ordinal =
    let epoch_in_cycle = ordinal / slots_per_epoch c in
    let within_epoch = ordinal % slots_per_epoch c in
    let frame_index = within_epoch / c.cover_lanes in
    let epoch_start_ms = round_double (start_ms + epoch_in_cycle * c.cover_cadence_ms) in
    let numerator = round_double ((2 * within_epoch + 1) * c.cover_cadence_ms) in
    record {
      deadline_ms =
          round_double (epoch_start_ms + floor_quotient numerator (2 * slots_per_epoch c));
      cycle_index = index;
      cycle_start_ms = start_ms;
      cycle_end_ms = end_ms;
      epoch_index = mul_add index c.cover_duration_epochs epoch_in_cycle;
      epoch_in_cycle = epoch_in_cycle;
      lane_index = within_epoch % c.cover_lanes;
      frame_index = frame_index;
      lane_slot_index = epoch_in_cycle * c.cover_frames_per_cell + frame_index;
    }
