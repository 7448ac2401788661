-- ===== src/Cover/Slots.antt =====
-- The timetable of src/handlers/coverScheduler.ts: where the slots of a cycle stand.
use p2party_js.Base.{
  ℕ, suc, ◌+◌, ◌*◌, ◌/◌, ◌%◌, ◌^◌, ◌≤◌, ◌<◌, ◌≡◌, refl, ap, Bool, true, false, arith, ok, ltb, ◌||◌,
  not, ◌⊎◌, inl, inr, Bool-cases, ◌==◌, ==_iff, ne_of_==, past_guard, fail_if, le_of_ltb, neither,
}
use p2party_js.Double.{round_double-eq, floor_quotient-eq}
use p2party_js.Int.{ℤ}
use p2party_js.Cover.Schedule.{
  CoverSchedule, CoverError, validate_cover_schedule, slot_at, slots_per_epoch, slots_per_lane,
  total_cycle_slots, cycle_duration_ms, max_cover_lanes, unsafe_geometry, is_safe_integer,
  unsafe_integer, cadence_range, lanes_range, frames_range, duration_range, geometry_range,
  slot_spacing,
}

div_low : (a b : ℕ) → 0 < b → a / b * b ≤ a
div_low a b h = omega arith

div_high : (a b : ℕ) → 0 < b → a < (a / b + 1) * b
div_high a b h = omega arith

mod_high : (a b : ℕ) → 0 < b → a % b < b
mod_high a b h = omega arith

split : (a b : ℕ) → 0 < b → a ≡ a / b * b + a % b
split a b h = omega arith

lt_of_mul : (a b c : ℕ) → a * c < b * c → a < b
lt_of_mul a b c h = grind arith

mul_lt : (a b c : ℕ) → 0 < c → a < b → a * c < b * c
mul_lt a b c p h = grind arith

mul_le : (a b c : ℕ) → a ≤ b → a * c ≤ b * c
mul_le a b c h = grind arith

div_unique : (a q t r : ℕ) → a ≡ q * t + r → r < t → a / t ≡ q
div_unique a q t r e h = omega (
  arith,
  lt_of_mul (a / t) (q + 1) t (omega (arith, div_low a t (omega arith))),
  lt_of_mul q (a / t + 1) t (omega (arith, div_high a t (omega arith))),
)

mod_unique : (a q t r : ℕ) → a ≡ q * t + r → r < t → a % t ≡ r
mod_unique a q t r e h =
    omega (arith, split a t (omega arith), ap (λ (n : ℕ). n * t) (div_unique a q t r e h))

-- The next number, within the block of its length or at the start of the next.
div_suc :
    (k t : ℕ)
    → 0 < t
    → ((suc k / t ≡ k / t) × (suc k % t ≡ suc (k % t)))
      ⊎ ((suc (k % t) ≡ t) × (suc k / t ≡ suc (k / t)) × (suc k % t ≡ 0))
div_suc k t h = elim (Bool-cases (suc (k % t) == t)) [
  | inl last ↦
      let e : suc (k % t) ≡ t = (==_iff (suc (k % t)) t).0 last in
      let whole : suc k ≡ suc (k / t) * t + 0 = omega (arith, split k t h) in
      inr (
        e,
        div_unique (suc k) (suc (k / t)) t 0 whole h,
        mod_unique (suc k) (suc (k / t)) t 0 whole h,
      )
  | inr more ↦
      let room : suc (k % t) < t = omega (arith, mod_high k t h, ne_of_== (suc (k % t)) t more) in
      let whole : suc k ≡ k / t * t + suc (k % t) = omega (arith, split k t h) in
      inl (
        div_unique (suc k) (k / t) t (suc (k % t)) whole room,
        mod_unique (suc k) (k / t) t (suc (k % t)) whole room,
      )
]

div_step : (t c a : ℕ) → 0 < t → 25 * t ≤ 2 * c → a / t + 25 ≤ (a + 2 * c) / t
div_step t c a h k = omega (
  arith,
  lt_of_mul (a / t + 25) ((a + 2 * c) / t + 1) t
      (omega (arith, div_low a t h, div_high (a + 2 * c) t h)),
)

div_wrap : (t c a : ℕ) → 0 < t → 25 * t ≤ 2 * c → a + c ≡ c * t → a / t + 25 ≤ c + c / t
div_wrap t c a h k e =
    omega (
      arith,
      lt_of_mul (a / t + 25) (c + c / t + 1) t (omega (arith, div_low a t h, div_high c t h)),
    )

last_guard : (b : Bool) (e : CoverError) {u : Unit {0}} → fail_if b e ≡ ok u → b ≡ false
last_guard true e h = cc
last_guard false e h = refl

-- What a schedule that passes its validation satisfies.
pub record IsValid (c : CoverSchedule) : Type 0 where
  pub lanes_positive : 0 < c.cover_lanes
  pub frames_positive : 0 < c.cover_frames_per_cell
  pub duration_positive : 0 < c.cover_duration_epochs
  pub spaced : 25 * slots_per_epoch c ≤ c.cover_cadence_ms

pub validate-IsValid :
    (c : CoverSchedule) {u : Unit {0}} → validate_cover_schedule c ≡ ok u → IsValid c
unfolding validate_cover_schedule
validate-IsValid c h =
    let (_, h1) = past_guard (not (is_safe_integer c.phase_offset_ms)) unsafe_integer h in
    let (_, h2) = past_guard (not (is_safe_integer c.cover_cadence_ms)) unsafe_integer h1 in
    let (_, h3) = past_guard (not (is_safe_integer c.cover_lanes)) unsafe_integer h2 in
    let (_, h4) = past_guard (not (is_safe_integer c.cover_frames_per_cell)) unsafe_integer h3 in
    let (_, h5) = past_guard (not (is_safe_integer c.cover_duration_epochs)) unsafe_integer h4 in
    let (_, h6) = past_guard (ltb c.cover_cadence_ms 1) cadence_range h5 in
    let (lanes, h7) =
      past_guard (ltb c.cover_lanes 1 || ltb max_cover_lanes c.cover_lanes) lanes_range h6 in
    let (frames, h8) = past_guard (ltb c.cover_frames_per_cell 1) frames_range h7 in
    let (duration, h9) = past_guard (ltb c.cover_duration_epochs 1) duration_range h8 in
    let (_, h10) = past_guard (unsafe_geometry c) geometry_range h9 in
    record {
      lanes_positive =
          le_of_ltb c.cover_lanes 1
            (neither (ltb c.cover_lanes 1) (ltb max_cover_lanes c.cover_lanes) lanes).0;
      frames_positive = le_of_ltb c.cover_frames_per_cell 1 frames;
      duration_positive = le_of_ltb c.cover_duration_epochs 1 duration;
      spaced =
          le_of_ltb c.cover_cadence_ms (25 * slots_per_epoch c)
            (last_guard (ltb c.cover_cadence_ms (25 * slots_per_epoch c)) slot_spacing h10);
    }

module _ (c : CoverSchedule) (valid : IsValid c) where
  epoch_positive : 0 < slots_per_epoch c
  epoch_positive = omega (
    arith,
    mul_le 1 c.cover_lanes c.cover_frames_per_cell valid.lanes_positive,
    valid.frames_positive,
  )

  within_high : (k : ℕ) → k % slots_per_epoch c < slots_per_epoch c
  within_high k = mod_high k (slots_per_epoch c) epoch_positive

  epoch_high : (k : ℕ) → k < total_cycle_slots c → k / slots_per_epoch c < c.cover_duration_epochs
  epoch_high k h =
      lt_of_mul (k / slots_per_epoch c) c.cover_duration_epochs (slots_per_epoch c)
        (omega (arith, div_low k (slots_per_epoch c) epoch_positive))

  frame_high : (k : ℕ) → k % slots_per_epoch c / c.cover_lanes < c.cover_frames_per_cell
  frame_high k = lt_of_mul _ c.cover_frames_per_cell c.cover_lanes (
      omega
        (arith, div_low (k % slots_per_epoch c) c.cover_lanes valid.lanes_positive, within_high k))

  -- A slot is the one of its lane and its place on that lane.
  slot_at-place :
      (index : ℤ) (start_ms end_ms k : ℕ)
      → (slot_at c index start_ms end_ms k).lane_slot_index * c.cover_lanes
          + (slot_at c index start_ms end_ms k).lane_index
        ≡ k
  unfolding slot_at
  slot_at-place index start_ms end_ms k = omega (
    arith,
    split k (slots_per_epoch c) epoch_positive,
    split (k % slots_per_epoch c) c.cover_lanes valid.lanes_positive,
  )

  -- The milliseconds of a slot within its epoch.
  abbrev offset : ℕ → ℕ
  offset w = (2 * w + 1) * c.cover_cadence_ms / (2 * slots_per_epoch c)

  offset_high : (w : ℕ) → w < slots_per_epoch c → offset w < c.cover_cadence_ms
  offset_high w h = lt_of_mul (offset w) c.cover_cadence_ms (2 * slots_per_epoch c) (
      omega (
        arith,
        div_low ((2 * w + 1) * c.cover_cadence_ms) (2 * slots_per_epoch c)
            (omega (arith, epoch_positive)),
        mul_lt (2 * w + 1) (2 * slots_per_epoch c) c.cover_cadence_ms
            (omega (arith, valid.spaced, epoch_positive)) (omega arith),
      ))

  abbrev numerator : ℕ → ℕ
  numerator w = (2 * w + 1) * c.cover_cadence_ms

  -- Small enough a cycle, nothing is rounded.
  slot_at-deadline :
      (index : ℤ) (start_ms end_ms k : ℕ)
      → 2 * slots_per_epoch c * c.cover_cadence_ms ≤ 2 ^ 53
      → start_ms + cycle_duration_ms c + c.cover_cadence_ms ≤ 2 ^ 53
      → k ≤ total_cycle_slots c
      → (slot_at c index start_ms end_ms k).deadline_ms
        ≡ start_ms + k / slots_per_epoch c * c.cover_cadence_ms + offset (k % slots_per_epoch c)
  unfolding slot_at
  slot_at-deadline index start_ms end_ms k small fits h = rw (
    round_double-eq (start_ms + k / slots_per_epoch c * c.cover_cadence_ms) (omega (arith, before)),
    round_double-eq (numerator (k % slots_per_epoch c)) (omega (arith, numerator_high)),
    floor_quotient-eq (numerator (k % slots_per_epoch c)) (2 * slots_per_epoch c)
        (omega (arith, epoch_positive)) (omega (arith, numerator_high)),
    round_double-eq
        (start_ms + k / slots_per_epoch c * c.cover_cadence_ms + offset (k % slots_per_epoch c))
        (omega (arith, before, offset_high (k % slots_per_epoch c) (within_high k))),
  )
    where
      numerator_high :
          numerator (k % slots_per_epoch c) < 2 * slots_per_epoch c * c.cover_cadence_ms
      numerator_high =
          mul_lt (2 * (k % slots_per_epoch c) + 1) (2 * slots_per_epoch c) c.cover_cadence_ms
            (omega (arith, valid.spaced, epoch_positive)) (omega (arith, within_high k))

      epoch : k / slots_per_epoch c < suc c.cover_duration_epochs
      epoch =
          lt_of_mul (k / slots_per_epoch c) (suc c.cover_duration_epochs) (slots_per_epoch c)
            (omega (arith, div_low k (slots_per_epoch c) epoch_positive, epoch_positive))

      before :
          (k / slots_per_epoch c * c.cover_cadence_ms ≤ cycle_duration_ms c)
          × (0 < c.cover_cadence_ms)
      before = (
        omega (
          arith,
          mul_le (k / slots_per_epoch c) c.cover_duration_epochs c.cover_cadence_ms
              (omega (arith, epoch)),
        ),
        omega (arith, valid.spaced, epoch_positive),
      )

  -- A slot lies on a lane of the cycle, at a place that the lane has, within the cycle.
  slot_at-inside :
      (index : ℤ) (start_ms end_ms k : ℕ)
      → 2 * slots_per_epoch c * c.cover_cadence_ms ≤ 2 ^ 53
      → start_ms + cycle_duration_ms c + c.cover_cadence_ms ≤ 2 ^ 53
      → k < total_cycle_slots c
      → ((slot_at c index start_ms end_ms k).lane_index < c.cover_lanes)
        × ((slot_at c index start_ms end_ms k).lane_slot_index < slots_per_lane c)
        × (start_ms ≤ (slot_at c index start_ms end_ms k).deadline_ms)
        × ((slot_at c index start_ms end_ms k).deadline_ms < start_ms + cycle_duration_ms c)
  unfolding slot_at
  slot_at-inside index start_ms end_ms k small fits h =
      let due = slot_at-deadline index start_ms end_ms k small fits (omega (arith, h)) in
      let epoch = epoch_high k h in
      (
        mod_high (k % slots_per_epoch c) c.cover_lanes valid.lanes_positive,
        omega (
          arith,
          frame_high k,
          mul_le (suc (k / slots_per_epoch c)) c.cover_duration_epochs c.cover_frames_per_cell
              epoch,
        ),
        omega (arith, due),
        omega (
          arith,
          due,
          offset_high (k % slots_per_epoch c) (within_high k),
          mul_le (suc (k / slots_per_epoch c)) c.cover_duration_epochs c.cover_cadence_ms epoch,
        ),
      )

  -- Within an epoch, a slot is due at least 25 ms before the next.
  offset_step : (w : ℕ) → offset w + 25 ≤ offset (suc w)
  offset_step w = omega (
    arith,
    div_step (2 * slots_per_epoch c) c.cover_cadence_ms ((2 * w + 1) * c.cover_cadence_ms)
        (omega (arith, epoch_positive)) (omega (arith, valid.spaced)),
    ap (λ n. n / (2 * slots_per_epoch c)) next_numerator,
  )
    where
      next_numerator :
          (2 * w + 1) * c.cover_cadence_ms + 2 * c.cover_cadence_ms
          ≡ (2 * suc w + 1) * c.cover_cadence_ms
      next_numerator = omega arith

  -- So is the last of an epoch before the first of the next.
  offset_wrap : (w : ℕ) → suc w ≡ slots_per_epoch c → offset w + 25 ≤ c.cover_cadence_ms + offset 0
  offset_wrap w e = omega (
    arith,
    div_wrap (2 * slots_per_epoch c) c.cover_cadence_ms ((2 * w + 1) * c.cover_cadence_ms)
        (omega (arith, epoch_positive)) (omega (arith, valid.spaced)) last_numerator,
    ap (λ n. n / (2 * slots_per_epoch c)) first_numerator,
  )
    where
      first_numerator : (2 * 0 + 1) * c.cover_cadence_ms ≡ c.cover_cadence_ms
      first_numerator = omega arith

      last_numerator :
          (2 * w + 1) * c.cover_cadence_ms + c.cover_cadence_ms
          ≡ c.cover_cadence_ms * (2 * slots_per_epoch c)
      last_numerator = omega (arith, ap (λ (n : ℕ). c.cover_cadence_ms * (2 * n)) e)

  slot_at-step :
      (index : ℤ) (start_ms end_ms k : ℕ)
      → 2 * slots_per_epoch c * c.cover_cadence_ms ≤ 2 ^ 53
      → start_ms + cycle_duration_ms c + c.cover_cadence_ms ≤ 2 ^ 53
      → k < total_cycle_slots c
      → (slot_at c index start_ms end_ms k).deadline_ms + 25
        ≤ (slot_at c index start_ms end_ms (suc k)).deadline_ms
  slot_at-step index start_ms end_ms k small fits h =
      let due = slot_at-deadline index start_ms end_ms k small fits (omega (arith, h)) in
      let due' = slot_at-deadline index start_ms end_ms (suc k) small fits h in
      rw (due, due')
        (elim (div_suc k (slots_per_epoch c) epoch_positive) [
          | inl (same_epoch, next) ↦
              rw (same_epoch, next) (omega (arith, offset_step (k % slots_per_epoch c)))
          | inr (last, next_epoch, first) ↦
              rw (next_epoch, first) (omega (arith, offset_wrap (k % slots_per_epoch c) last))
        ])

-- Let a schedule pass its validation, let its cadence times twice the slots of an epoch not pass 2^53,
-- so that the numerators are exact doubles, and let no time of the cycle and of the epoch after it pass
-- 2^53. Every slot of a cycle lies on one of the lanes, at a place below frames times epochs, and is due
-- from the start of the cycle on and before its end; its place times the number of lanes, plus its
-- lane, is its number, so that no two slots share a lane and a place; and the next slot is due at least
-- 25 milliseconds later.
pub slot_at-timetable :
    (c : CoverSchedule) (index : ℤ) (start_ms end_ms k : ℕ)
    → validate_cover_schedule c ≡ ok tt
    → 2 * slots_per_epoch c * c.cover_cadence_ms ≤ 2 ^ 53
    → start_ms + cycle_duration_ms c + c.cover_cadence_ms ≤ 2 ^ 53
    → k < total_cycle_slots c
    → ((slot_at c index start_ms end_ms k).lane_index < c.cover_lanes)
      × ((slot_at c index start_ms end_ms k).lane_slot_index < slots_per_lane c)
      × (start_ms ≤ (slot_at c index start_ms end_ms k).deadline_ms)
      × ((slot_at c index start_ms end_ms k).deadline_ms < start_ms + cycle_duration_ms c)
      × ((slot_at c index start_ms end_ms k).lane_slot_index * c.cover_lanes
            + (slot_at c index start_ms end_ms k).lane_index
          ≡ k)
      × ((slot_at c index start_ms end_ms k).deadline_ms + 25
          ≤ (slot_at c index start_ms end_ms (suc k)).deadline_ms)
slot_at-timetable c index start_ms end_ms k h small fits room =
    let valid = validate-IsValid c h in
    let (lane, place, early, late) =
      slot_at-inside c valid index start_ms end_ms k small fits room in
    (
      lane,
      place,
      early,
      late,
      slot_at-place c valid index start_ms end_ms k,
      slot_at-step c valid index start_ms end_ms k small fits room,
    )
