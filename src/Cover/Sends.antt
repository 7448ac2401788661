-- ===== src/Cover/Sends.antt =====
-- The books of src/handlers/coverScheduler.ts over the parts of `sendSlot`.
use p2party_js.Base.{
  ℕ, ◌+◌, ◌≡◌, refl, true, false, Bool-cases, inl, inr, Option, none, some, Option-cases, List,
  ◌==◌, arith, get_elem?, not, ltb, Result, ok, err, get_elem?-set_self, ne_of_==,
}
use p2party_js.Cover.Schedule.{CoverError, CoverSlot, total_cycle_slots}
use p2party_js.Cover.Jobs.{JobRuntime}
use p2party_js.Cover.State.{
  active, same_status, Reason, cell_production_failed, lane_open_failed, missed_deadline,
  send_failed, backpressure, completed, cancelled, JobOutcome, CellSource, from_job, from_cancel,
  from_dummy, CoverSendRequest, CycleRuntime, Awaited, cancel_cell, next_cell, make_dummy, turn,
  sending, InFlight, CoverScheduler, Outside, write_runtime, settle, arm, disarm,
}
use p2party_js.Cover.Cycle.{degrade, arm_slot, arm_cycle_boundary, cycle_jobs}
use p2party_js.Cover.Sending.{
  Production, cell, no_cell, not_a_cell, Answer, accepted, refused, broken, find_lane, lane_job,
  degrade_slot, send_slot, request_for_slot, request_runtime, cache_cell, cache_in, cache_unsent,
  accept_for, accept_sent, try_send, send_as, produced_for, next_ordinal, answered_for, await_on,
  job_request, dummy_request,
}
use p2party_js.Cover.Books.{BooksBut, Books-but, write-Books, write-BooksBut, PlaceOf, results}
use p2party_js.Cover.Counts.{count}
use p2party_js.Cover.Moves.{settle-Books}
use p2party_js.Cover.Holding.{IsSound, Frame-IsSound, settle-Frame}
use p2party_js.Cover.Boundaries.{if-IsSound, if-IsSound_test, degrade-IsSound}

pub await-IsSound : (f : InFlight) (s : CoverScheduler) → IsSound s → IsSound (await_on f s)
await-IsSound f s h = Frame-IsSound s (await_on f s) (refl, refl, refl) h.books h

degrade_slot-IsSound :
    (reason : Reason) (o : Outside) (s : CoverScheduler)
    → IsSound s
    → IsSound (degrade_slot reason o s)
unfolding degrade_slot
degrade_slot-IsSound reason o s h = caught (degrade reason o s).1
  where
    caught :
        (r : Result CoverError (Unit {0}))
        → IsSound (elim r [
          | ok _ ↦ (degrade reason o s).0
          | err _ ↦ (degrade cell_production_failed o (degrade reason o s).0).0
        ])
    caught (ok _) = degrade-IsSound reason o s h
    caught (err _) =
        degrade-IsSound cell_production_failed o (degrade reason o s).0
          (degrade-IsSound reason o s h)

cache_in-IsSound :
    (request : CoverSendRequest) (job : Option ℕ) (s : CoverScheduler)
    → IsSound s
    → IsSound (cache_in request job s)
cache_in-IsSound request none s h = h
cache_in-IsSound request (some a) s h = elim (Option-cases (get_elem? s.runtimes a)) [
  | inl e ↦ rw (e, cache_in) h
  | inr (r, e) ↦ rw (e, cache_in) (if-IsSound r.settled s _ h (cached r e request.source))
]
  where
    cached :
        (r : JobRuntime)
        → get_elem? s.runtimes a ≡ some r
        → (source : CellSource) → IsSound (write_runtime a (cache_cell source request.cell r) s)
    cached r e from_cancel =
        Frame-IsSound s _ (refl, refl, refl) (write-Books a r _ s e refl refl (λ p. p) h.books) h
    cached r e from_dummy =
        Frame-IsSound s _ (refl, refl, refl) (write-Books a r _ s e refl refl (λ p. p) h.books) h
    cached r e (from_job _) =
        Frame-IsSound s _ (refl, refl, refl) (write-Books a r _ s e refl refl (λ p. p) h.books) h

cache_unsent-IsSound :
    (f : InFlight) (request : CoverSendRequest) (s : CoverScheduler)
    → IsSound s
    → IsSound (cache_unsent f request s)
unfolding cache_unsent
cache_unsent-IsSound f request s h =
    cache_in-IsSound request (request_runtime request.job_id (lane_job f.serial f.slot s) s) s h

-- A runtime is settled behind a write that completes or cancels it.
pub settle_written-IsSound :
    (outcome : JobOutcome) (a : ℕ) (r r' : JobRuntime) (s : CoverScheduler)
    → get_elem? s.runtimes a ≡ some r
    → r'.settled ≡ r.settled
    → r'.job ≡ r.job
    → BooksBut a (cycle_jobs s.cycle) s
    → IsSound s
    → IsSound (settle outcome a (write_runtime a r' s))
settle_written-IsSound outcome a r r' s e same same_job but h =
    Frame-IsSound s (settle outcome a (write_runtime a r' s))
      (settle-Frame outcome a (write_runtime a r' s))
      (settle-Books outcome a r' (write_runtime a r' s) (get_elem?-set_self s.runtimes a r' e)
        (write-BooksBut a r r' s e same same_job but))
      h

accept_for-IsSound :
    (source : CellSource) (a : ℕ) (r : JobRuntime) (s : CoverScheduler)
    → get_elem? s.runtimes a ≡ some r
    → r.settled ≡ false
    → IsSound s
    → IsSound (accept_for source a r s)
unfolding accept_for
accept_for-IsSound from_cancel a r s e live h =
    settle_written-IsSound cancelled a r
      (record r { pending_cancel_cell = none; cancel_sent = true }) s e refl refl
      (Books-but a s h.books) h
accept_for-IsSound from_dummy a r s e live h = h
accept_for-IsSound (from_job _) a r s e live h =
    elim (Bool-cases (r.sent_cells + 1 == r.job.declared_cell_count)) [
      | inl last ↦ rw last (
          settle_written-IsSound completed a r
            (record r { pending_cell = none; sent_cells = r.sent_cells + 1; completed = true }) s e
            refl refl (Books-but a s h.books) h)
      | inr more ↦ rw more (
          Frame-IsSound s _ (refl, refl, refl)
            (write-Books a r (record r { pending_cell = none; sent_cells = r.sent_cells + 1 }) s e
              refl refl (λ p. rw live (kept more (rw live at p))) h.books)
            h)
    ]
  where
    kept :
        (r.sent_cells + 1 == r.job.declared_cell_count) ≡ false
        → PlaceOf (count a s.queued) (count a (cycle_jobs s.cycle)) (results a s.notices) r false
        → PlaceOf
            (count a s.queued)
            (count a (cycle_jobs s.cycle))
            (results a s.notices)
            (record r { pending_cell = none; sent_cells = r.sent_cells + 1 })
            false
    kept more p = (
      p.0,
      p.1,
      p.2,
      p.3,
      omega (arith, p.4, ne_of_== (r.sent_cells + 1) r.job.declared_cell_count more),
    )

accept_sent-IsSound :
    (f : InFlight) (request : CoverSendRequest) (s : CoverScheduler)
    → IsSound s
    → IsSound (accept_sent f request s)
unfolding accept_sent
accept_sent-IsSound f request s h = elim (Option-cases (lane_job f.serial f.slot s)) [
  | inl e ↦ rw (e, accept_sent) h
  | inr (a, at) ↦ elim (Option-cases (get_elem? s.runtimes a)) [
    | inl e ↦ rw (at, accept_sent) (rw (e, accept_sent) h)
    | inr (r, e) ↦
        rw (at, accept_sent)
          (rw (e, accept_sent)
            (if-IsSound_test r.settled s (accept_for request.source a r s) (λ _. h)
              (λ live. accept_for-IsSound request.source a r s e live h)))
  ]
]

try_send-IsSound :
    (f : InFlight) (request : CoverSendRequest) (o : Outside) (s : CoverScheduler)
    → IsSound s
    → IsSound (try_send f request o s)
unfolding try_send
try_send-IsSound f request o s h = if-IsSound (not (f.generation == s.generation)) _ _ cached (
    if-IsSound (ltb (f.slot.deadline_ms + s.max_timer_drift_ms) o.now) _ _
      (degrade_slot-IsSound missed_deadline o (cache_unsent f request s) cached)
      (Frame-IsSound s _ (refl, refl, refl) h.books h))
  where
    cached : IsSound (cache_unsent f request s)
    cached = cache_unsent-IsSound f request s h

send_as-IsSound :
    (source : CellSource) (f : InFlight) (a : ℕ) (bytes : List ℕ) (o : Outside) (s : CoverScheduler)
    → IsSound s
    → IsSound (send_as source f a bytes o s)
unfolding send_as
send_as-IsSound source f a bytes o s h = elim (Option-cases (get_elem? s.runtimes a)) [
  | inl e ↦ rw (e, send_as) (degrade_slot-IsSound cell_production_failed o s h)
  | inr (r, e) ↦ rw (e, send_as) (try_send-IsSound f (job_request source r f.slot bytes) o s h)
]

pub produced-IsSound :
    (w : Awaited) (p : Production) (f : InFlight) (o : Outside) (s : CoverScheduler)
    → IsSound s
    → IsSound (produced_for w p f o s)
unfolding produced_for
produced-IsSound (turn request) _ f o s h = try_send-IsSound f request o s h
produced-IsSound (cancel_cell a _) (cell bytes) f o s h =
    send_as-IsSound from_cancel f a bytes o s h
produced-IsSound (cancel_cell _ _) no_cell f o s h =
    degrade_slot-IsSound cell_production_failed o s h
produced-IsSound (cancel_cell _ _) not_a_cell f o s h =
    degrade_slot-IsSound cell_production_failed o s h
produced-IsSound (next_cell a js) (cell bytes) f o s h =
    send_as-IsSound (from_job js.job_kind) f a bytes o s h
produced-IsSound (next_cell a _) no_cell f o s h = await-IsSound _ s h
produced-IsSound (next_cell _ _) not_a_cell f o s h =
    degrade_slot-IsSound cell_production_failed o s h
produced-IsSound (make_dummy job) (cell bytes) f o s h =
    try_send-IsSound f (dummy_request job f.slot bytes s) o s h
produced-IsSound (make_dummy _) no_cell f o s h = degrade_slot-IsSound cell_production_failed o s h
produced-IsSound (make_dummy _) not_a_cell f o s h =
    degrade_slot-IsSound cell_production_failed o s h
produced-IsSound (sending _) _ f o s h = await-IsSound f s h

next_ordinal-IsSound :
    (f : InFlight) (o : Outside) (s : CoverScheduler) → IsSound s → IsSound (next_ordinal f o s)
unfolding next_ordinal arm_slot arm_cycle_boundary arm disarm
next_ordinal-IsSound f o s h =
    if-IsSound (not (f.generation == s.generation)) s _ h (elim (Option-cases s.cycle) [
      | inl e ↦ rw (e, next_ordinal) h
      | inr (c, e) ↦
          rw (e, next_ordinal)
            (if-IsSound (not (c.serial == f.serial)) s _ h (
              if-IsSound (ltb (c.next_slot_ordinal + 1) (total_cycle_slots s.schedule)) _ _
                (record { books = rw e at h.books; calm = rw e at h.calm; timer_fits = tt })
                (record { books = rw e at h.books; calm = rw e at h.calm; timer_fits = tt })))
    ])

pub answered-IsSound :
    (w : Awaited) (answer : Answer) (f : InFlight) (o : Outside) (s : CoverScheduler)
    → IsSound s
    → IsSound (answered_for w answer f o s)
unfolding answered_for
answered-IsSound (sending request) accepted f o s h =
    next_ordinal-IsSound f o (accept_sent f request s) (accept_sent-IsSound f request s h)
answered-IsSound (sending request) refused f o s h =
    degrade_slot-IsSound backpressure o (cache_unsent f request s)
      (cache_unsent-IsSound f request s h)
answered-IsSound (sending request) broken f o s h =
    degrade_slot-IsSound send_failed o (cache_unsent f request s)
      (cache_unsent-IsSound f request s h)
answered-IsSound (cancel_cell _ _) _ f o s h = await-IsSound f s h
answered-IsSound (next_cell _ _) _ f o s h = await-IsSound f s h
answered-IsSound (make_dummy _) _ f o s h = await-IsSound f s h
answered-IsSound (turn _) _ f o s h = await-IsSound f s h

pub send_slot-IsSound :
    (slot : CoverSlot) (generation : ℕ) (o : Outside) (s : CoverScheduler)
    → IsSound s
    → IsSound (send_slot slot generation o s)
unfolding send_slot
send_slot-IsSound slot generation o s h =
    if-IsSound (not (generation == s.generation)) s _ h (elim (Option-cases s.cycle) [
      | inl e ↦ rw (e, send_slot) h
      | inr (c, e) ↦
          rw (e, send_slot) (if-IsSound (not (same_status s.status active)) s _ h (with_lane c))
    ])
  where
    with_lane :
        (c : CycleRuntime)
        → IsSound (elim (find_lane slot.lane_index c.lanes) [
          | none ↦ degrade_slot lane_open_failed o s
          | some lane ↦
              await_on
                (record {
                  slot = slot;
                  generation = generation;
                  serial = c.serial;
                  awaited = request_for_slot lane.job slot s;
                })
                s
        ])
    with_lane c = elim (Option-cases (find_lane slot.lane_index c.lanes)) [
      | inl e ↦ rw e (degrade_slot-IsSound lane_open_failed o s h)
      | inr (lane, e) ↦ rw e (await-IsSound _ s h)
    ]
