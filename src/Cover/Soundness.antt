-- ===== src/Cover/Soundness.antt =====
-- Runs of src/handlers/coverScheduler.ts: every event keeps the books.
use mathlib.Core.Path.{subst}
use p2party_js.Base.{
  ℕ, ◌+◌, ◌≡◌, refl, ◌∙◌, inl, inr, Option, none, some, Option-cases, List, [], ◌∷◌, ◌==◌,
  get_elem?, if◌then◌else◌, not, ltb, Result, ok, err, past_guard, >>=-eq_ok, ok-injective,
}
use p2party_js.Maps.{map_get, string_key, IsUnique}
use p2party_js.Cover.Jobs.{JobRuntime}
use p2party_js.Cover.Schedule.{CoverSchedule, CoverError, validate_cover_schedule}
use p2party_js.Cover.State.{
  suspended, stopped, same_status, on_suspend, missed_deadline, late_cleanup, timer_drift, Timer,
  TimerKind, open_boundary, cycle_boundary, slot_due, InFlight, CoverScheduler, Outside, set_status,
}
use p2party_js.Cover.Cycle.{interrupt_cycle, close_current_cycle}
use p2party_js.Cover.Control.{
  initial, new_scheduler, enqueue, cancel, CancelResult, handle_late_timer, handle_timer,
  timer_fired, Event, enqueues, cancels, completes, starts, suspends, resumes, stops, fires,
  produces, answers, continue_with, step, run,
}
use p2party_js.Cover.Sending.{produced, answered}
use p2party_js.Cover.Books.{Books}
use p2party_js.Cover.Holding.{
  IsSound, KindFits, Frame-IsSound, closed-IsSound, interrupt-IsFree, set_status-cycle,
  set_status-Books,
}
use p2party_js.Cover.Boundaries.{
  if-IsSound, close-Books, degrade-IsSound, suspend-IsSound, open_cycle_or_suspend-IsSound,
  handle_cycle_boundary-IsSound,
}
use p2party_js.Cover.Sends.{send_slot-IsSound, produced-IsSound, answered-IsSound}
use p2party_js.Cover.Methods.{enqueue-IsSound, cancel-IsSound, complete-IsSound, OkSoundWith}
use p2party_js.Cover.Restarts.{start-IsSound, resume-IsSound, stop-IsSound}

late_boundary-IsSound :
    (o : Outside) (s : CoverScheduler)
    → IsSound s
    → IsSound (handle_late_timer open_boundary o s) × IsSound (handle_late_timer cycle_boundary o s)
unfolding handle_late_timer
late_boundary-IsSound o s h = (late, late)
  where
    ended :
        (t : CoverScheduler)
        → Books [] t
        → t.cycle ≡ none
        → IsSound
            (if same_status t.status stopped then t else set_status suspended (some timer_drift) t)
    ended t books closed =
        if-IsSound (same_status t.status stopped) t (set_status suspended (some timer_drift) t)
          (closed-IsSound t books closed)
          (closed-IsSound (set_status suspended (some timer_drift) t)
            (set_status-Books suspended (some timer_drift) t books)
            ((set_status-cycle suspended (some timer_drift) t).0 ∙ closed))

    late : IsSound (handle_late_timer open_boundary o s)
    late = elim (Option-cases s.cycle) [
      | inl e ↦ rw (e, handle_late_timer) (ended s (rw e at h.books) e)
      | inr (c, e) ↦
          let shut =
            close-Books late_cleanup o (interrupt_cycle on_suspend s)
              (interrupt-IsFree on_suspend s h.books).0 in
          rw (e, handle_late_timer)
            (ended (close_current_cycle late_cleanup o (interrupt_cycle on_suspend s)).0 shut.0
              shut.1)
    ]

handle_late_timer-IsSound :
    (kind : TimerKind) (o : Outside) (s : CoverScheduler)
    → IsSound s
    → IsSound (handle_late_timer kind o s)
unfolding handle_late_timer
handle_late_timer-IsSound (slot_due slot) o s h = degrade-IsSound missed_deadline o s h
handle_late_timer-IsSound open_boundary o s h = (late_boundary-IsSound o s h).0
handle_late_timer-IsSound cycle_boundary o s h = (late_boundary-IsSound o s h).1

-- The timer that opens a cycle fires while there is none.
handle_timer-IsSound :
    (t : Timer) (o : Outside) (s : CoverScheduler)
    → KindFits t.kind s.cycle
    → IsSound s
    → IsSound (handle_timer t o s)
unfolding handle_timer
handle_timer-IsSound t o s fits h = handled t.kind refl fits
  where
    handled : (k : TimerKind) → t.kind ≡ k → KindFits k s.cycle → IsSound (handle_timer t o s)
    handled open_boundary e none_open =
        rw (e, handle_timer)
          (open_cycle_or_suspend-IsSound t.deadline_ms t.generation o s (rw none_open at h.books) h)
    handled cycle_boundary e _ =
        rw (e, handle_timer) (handle_cycle_boundary-IsSound t.deadline_ms o s h)
    handled (slot_due slot) e _ = rw (e, handle_timer) (send_slot-IsSound slot t.generation o s h)

timer_fired-IsSound : (o : Outside) (s : CoverScheduler) → IsSound s → IsSound (timer_fired o s)
unfolding timer_fired
timer_fired-IsSound o s h = elim (Option-cases s.timer) [
  | inl e ↦ rw (e, timer_fired) h
  | inr (t, e) ↦
      rw (e, timer_fired)
        (if-IsSound (not (t.generation == s.generation)) _ _ h (
          if-IsSound (ltb o.now t.deadline_ms) _ _
            (record { books = h.books; calm = h.calm; timer_fits = rw e at h.timer_fits })
            (if-IsSound (ltb (t.deadline_ms + s.max_timer_drift_ms) o.now) _ _
              (handle_late_timer-IsSound t.kind o (record s { timer = none }) unset)
              (handle_timer-IsSound t o (record s { timer = none }) (rw e at h.timer_fits) unset))))
]
  where
    unset : IsSound (record s { timer = none })
    unset = record { books = h.books; calm = h.calm; timer_fits = tt }

continue-IsSound :
    (f : InFlight → CoverScheduler → CoverScheduler) (n : ℕ) (s : CoverScheduler)
    → ((call : InFlight) (t : CoverScheduler) → IsSound t → IsSound (f call t))
    → IsSound s
    → IsSound (continue_with f n s)
unfolding continue_with
continue-IsSound f n s keep h = elim (Option-cases (get_elem? s.in_flight n)) [
  | inl e ↦ rw (e, continue_with) h
  | inr (call, e) ↦
      rw (e, continue_with) (keep call _ (Frame-IsSound s _ (refl, refl, refl) h.books h))
]

step-IsSound : (s : CoverScheduler) (e : Event) → IsSound s → IsSound (step s e)
unfolding step
step-IsSound s (enqueues job) h = enqueued (enqueue job s) refl
  where
    enqueued :
        (r : Result CoverError CoverScheduler)
        → enqueue job s ≡ r
        → IsSound (elim r [ ok s' ↦ s' | err _ ↦ s ])
    enqueued (ok s') e = enqueue-IsSound job s s' h e
    enqueued (err _) e = h
step-IsSound s (cancels id) h = cancelled (cancel id s) (cancel-IsSound id s h)
  where
    cancelled :
        (r : Result CoverError (CoverScheduler × CancelResult))
        → OkSoundWith r
        → IsSound (elim r [ ok (s', _) ↦ s' | err _ ↦ s ])
    cancelled (ok x) p = p
    cancelled (err _) p = h
step-IsSound s (completes id) h = complete-IsSound id s h
step-IsSound s (starts o) h = start-IsSound o s h
step-IsSound s (suspends o) h = suspend-IsSound on_suspend o s h
step-IsSound s (resumes o) h = resume-IsSound o s h
step-IsSound s (stops o) h = stop-IsSound o s h
step-IsSound s (fires o) h = timer_fired-IsSound o s h
step-IsSound s (produces n p o) h =
    continue-IsSound (λ f t. produced p f o t) n s (λ f t. produced-IsSound f.awaited p f o t) h
step-IsSound s (answers n a o) h =
    continue-IsSound (λ f t. answered a f o t) n s (λ f t. answered-IsSound f.awaited a f o t) h

run-keeps : (events : List Event) (s : CoverScheduler) → IsSound s → IsSound (run events s)
unfolding run
run-keeps [] s h = h
run-keeps (e ∷ events) s h = run-keeps events (step s e) (step-IsSound s e h)

initial-IsSound : (schedule : CoverSchedule) (drift : ℕ) → IsSound (initial schedule drift)
unfolding IsUnique
initial-IsSound schedule drift = record {
  books = record {
    placed = λ a. (refl, refl, refl);
    registered = λ a r e live. nothing a r e;
    unique = tt;
  };
  calm = λ _. refl;
  timer_fits = tt;
}
  where
    nothing :
        (a : ℕ) (r : JobRuntime)
        → ◌≡◌ {A = Option JobRuntime} none (some r)
        → map_get r.job.id (initial schedule drift).jobs ≡ some a
    nothing a r e = cc

-- Whatever methods are called, timers fire and awaited calls return on a new scheduler, in any order:
-- a job that was taken is settled, with one result reported and out of the queue, or it has no result,
-- is registered under its id, has cells left to send and stands in one place, the queue or one lane of
-- the open cycle. While the scheduler is suspended no lane holds a job, and the timer that opens a
-- cycle is set only while none is open.
pub run-IsSound :
    (schedule : CoverSchedule) (drift : ℕ) (s : CoverScheduler) (events : List Event)
    → new_scheduler schedule drift ≡ ok s
    → IsSound (run events s)
unfolding new_scheduler
run-IsSound schedule drift s events e =
    let (_, _, e1) = >>=-eq_ok (validate_cover_schedule schedule) _ e in
    let (_, e2) = past_guard _ _ e1 in
    run-keeps events s (
      subst IsSound {x = initial schedule drift} (ok-injective e2) (initial-IsSound schedule drift))
