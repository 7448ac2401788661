-- ===== src/Cover/Holding.antt =====
-- The jobs that the lanes of an open cycle hold (src/handlers/coverScheduler.ts), and what a state owes
-- between two calls.
use p2party_js.Base.{
  ℕ, ◌≡◌, refl, sym, ap, ◌∙◌, true, Bool-cases, ◌⊎◌, inl, inr, Option, none, some, Option-cases,
  List, [], ◌∷◌, arith, get_elem?, ◌&&◌, not,
}
use p2party_js.Cover.Jobs.{JobRuntime}
use p2party_js.Cover.State.{
  Status, suspended, Reason, JobOutcome, LaneRuntime, CycleRuntime, TimerKind, open_boundary,
  cycle_boundary, slot_due, Timer, CoverScheduler, same_status, set_status, requeue, settle,
  sort_queue, remove_queued, capacity_exhausted, missed_deadline,
}
use p2party_js.Cover.Cycle.{
  lane_jobs, cycle_jobs, clear_lanes, clear_jobs, requeue_all, interrupt_cycle, finalize_job,
  finalize_all, finalize_cycle_jobs,
}
use p2party_js.Cover.Counts.{count}
use p2party_js.Cover.Books.{Books, Books-but_held}
use p2party_js.Cover.Moves.{settle-Books, requeue-Books}

-- A suspended scheduler has no job in a lane.
abbrev pub Calm : Status → Option CycleRuntime → Type 0
Calm status cycle = status ≡ suspended → cycle_jobs cycle ≡ []

-- The timer that opens a cycle is set while there is none.
abbrev pub KindFits : TimerKind → Option CycleRuntime → Type 0
KindFits open_boundary cycle = cycle ≡ none
KindFits cycle_boundary cycle = Unit
KindFits (slot_due _) cycle = Unit

abbrev pub TimerFits : Option Timer → Option CycleRuntime → Type 0
TimerFits none cycle = Unit
TimerFits (some t) cycle = KindFits t.kind cycle

pub record IsSound (s : CoverScheduler) : Type 0 where
  pub books : Books (cycle_jobs s.cycle) s
  pub calm : Calm s.status s.cycle
  pub timer_fits : TimerFits s.timer s.cycle

-- Nothing is held.
abbrev pub IsFree : CoverScheduler → Type 0
IsFree s = Books [] s × (cycle_jobs s.cycle ≡ [])

-- What calls on jobs leave alone.
abbrev pub Frame : CoverScheduler → CoverScheduler → Type 0
Frame s t = (t.cycle ≡ s.cycle) × (t.status ≡ s.status) × (t.timer ≡ s.timer)

pub Frame-trans : (s t u : CoverScheduler) → Frame s t → Frame t u → Frame s u
Frame-trans s t u p q = (q.0 ∙ p.0, q.1 ∙ p.1, q.2 ∙ p.2)

pub Frame-IsSound :
    (s t : CoverScheduler) → Frame s t → Books (cycle_jobs s.cycle) t → IsSound s → IsSound t
Frame-IsSound s t f books h = record {
  books = rw f.0 books;
  calm = rw (f.0, f.1) h.calm;
  timer_fits = rw (f.0, f.2) h.timer_fits;
}

pub IsFree-IsSound : (s : CoverScheduler) → IsFree s → TimerFits s.timer s.cycle → IsSound s
IsFree-IsSound s h fits = record { books = rw h.1 h.0; calm = λ _. h.1; timer_fits = fits }

TimerFits-none : (t : Option Timer) (c : Option CycleRuntime) → c ≡ none → TimerFits t c
TimerFits-none none c e = tt
TimerFits-none (some t) c e = kind t.kind
  where
    kind : (k : TimerKind) → KindFits k c
    kind open_boundary = e
    kind cycle_boundary = tt
    kind (slot_due _) = tt

pub closed-IsSound : (s : CoverScheduler) → Books [] s → s.cycle ≡ none → IsSound s
closed-IsSound s h e = IsFree-IsSound s (h, ap cycle_jobs e) (TimerFits-none s.timer s.cycle e)

pub requeue-Frame : (reason : Reason) (a : ℕ) (s : CoverScheduler) → Frame s (requeue reason a s)
unfolding requeue sort_queue
requeue-Frame reason a s = ground arith

pub settle-Frame :
    (outcome : JobOutcome) (a : ℕ) (s : CoverScheduler) → Frame s (settle outcome a s)
unfolding settle remove_queued
settle-Frame outcome a s = ground arith

pub same_status-eq : (a b : Status) → same_status a b ≡ true → a ≡ b
same_status-eq a b h = ground arith

pub set_status-cycle :
    (status : Status) (reason : Option Reason) (s : CoverScheduler)
    → ((set_status status reason s).cycle ≡ s.cycle)
      × ((set_status status reason s).timer ≡ s.timer)
unfolding set_status
set_status-cycle status reason s = ground arith

pub set_status-heap :
    (status : Status) (reason : Option Reason) (s : CoverScheduler)
    → (set_status status reason s).runtimes ≡ s.runtimes
unfolding set_status
set_status-heap status reason s = ground arith

pub set_status-status :
    (status : Status) (reason : Option Reason) (s : CoverScheduler)
    → (set_status status reason s).status ≡ status
unfolding set_status
set_status-status status reason s = ground (arith, same_status-eq s.status status)

pub set_status-Books :
    {held : List ℕ} (status : Status) (reason : Option Reason) (s : CoverScheduler)
    → Books held s
    → Books held (set_status status reason s)
unfolding set_status
set_status-Books status reason s h = elim (Bool-cases (same_status s.status status)) [
  | inl e ↦ rw (set_status, e) h
  | inr e ↦ rw (set_status, e) h
]

lane_jobs-clear_lanes : (lanes : List LaneRuntime) → lane_jobs (clear_lanes lanes) ≡ []
lane_jobs-clear_lanes [] = refl
lane_jobs-clear_lanes (lane ∷ lanes) = lane_jobs-clear_lanes lanes

pub cycle_jobs-clear_jobs : (s : CoverScheduler) → cycle_jobs (clear_jobs s).cycle ≡ []
cycle_jobs-clear_jobs s = elim (Option-cases s.cycle) [
  | inl e ↦ rw e
  | inr (c, e) ↦ rw e (lane_jobs-clear_lanes c.lanes)
]

requeue_all-Books :
    (reason : Reason) (l : List ℕ) (s : CoverScheduler)
    → Books l s
    → Books [] (requeue_all reason l s)
unfolding requeue_all
requeue_all-Books reason [] s h = h
requeue_all-Books reason (a ∷ l) s h =
    requeue_all-Books reason l (requeue reason a s) (requeue-Books reason a s h)

requeue_all-Frame :
    (reason : Reason) (l : List ℕ) (s : CoverScheduler) → Frame s (requeue_all reason l s)
unfolding requeue_all
requeue_all-Frame reason [] s = (refl, refl, refl)
requeue_all-Frame reason (a ∷ l) s =
    Frame-trans s (requeue reason a s) (requeue_all reason l (requeue reason a s))
      (requeue-Frame reason a s) (requeue_all-Frame reason l (requeue reason a s))

pub requeue_all-IsFree :
    (reason : Reason) (l : List ℕ) (s : CoverScheduler)
    → Books l s
    → cycle_jobs s.cycle ≡ []
    → IsFree (requeue_all reason l s)
requeue_all-IsFree reason l s h e =
    (requeue_all-Books reason l s h, ap cycle_jobs (requeue_all-Frame reason l s).0 ∙ e)

pub interrupt-IsFree :
    (reason : Reason) (s : CoverScheduler)
    → Books (cycle_jobs s.cycle) s
    → IsFree (interrupt_cycle reason s)
unfolding interrupt_cycle
interrupt-IsFree reason s h =
    requeue_all-IsFree reason (cycle_jobs s.cycle) (clear_jobs s) h (cycle_jobs-clear_jobs s)

-- A job at the end of its cycle is treated as `requeue` does, or settled.
finalize_job-cases :
    (a : ℕ) (s : CoverScheduler)
    → (finalize_job a s ≡ requeue missed_deadline a s)
      ⊎ ((r : JobRuntime) × (get_elem? s.runtimes a ≡ some r)
          × (finalize_job a s ≡ settle capacity_exhausted a s))
unfolding finalize_job requeue
finalize_job-cases a s = elim (Option-cases (get_elem? s.runtimes a)) [
  | inl e ↦ inl (rw (e, finalize_job, requeue))
  | inr (r, e) ↦ elim (Bool-cases r.settled) [
    | inl done ↦ inl (rw (e, finalize_job, requeue) (rw done))
    | inr live ↦ elim (Bool-cases (r.cancel_requested && not r.cancel_sent)) [
      | inl c ↦ inl (rw (e, finalize_job) (rw live (rw c (rw (e, requeue) (rw live)))))
      | inr c ↦ inr (r, e, rw (e, finalize_job) (rw live (rw c)))
    ]
  ]
]

finalize_job-Books :
    {held : List ℕ} (a : ℕ) (s : CoverScheduler)
    → Books (a ∷ held) s
    → Books held (finalize_job a s)
finalize_job-Books {held} a s h = elim (finalize_job-cases a s) [
  | inl e ↦ rw e (requeue-Books missed_deadline a s h)
  | inr (r, at, e) ↦ rw e (settle-Books capacity_exhausted a r s at (Books-but_held a s h))
]

finalize_job-Frame : (a : ℕ) (s : CoverScheduler) → Frame s (finalize_job a s)
finalize_job-Frame a s = elim (finalize_job-cases a s) [
  | inl e ↦ rw e (requeue-Frame missed_deadline a s)
  | inr (r, at, e) ↦ rw e (settle-Frame capacity_exhausted a s)
]

finalize_all-IsFree :
    (l : List ℕ) (s : CoverScheduler)
    → Books l s
    → cycle_jobs s.cycle ≡ []
    → IsFree (finalize_all l s)
unfolding finalize_all
finalize_all-IsFree [] s h e = (h, e)
finalize_all-IsFree (a ∷ l) s h e =
    finalize_all-IsFree l (finalize_job a s) (finalize_job-Books a s h)
      (ap cycle_jobs (finalize_job-Frame a s).0 ∙ e)

pub finalize-IsFree :
    (s : CoverScheduler) → Books (cycle_jobs s.cycle) s → IsFree (finalize_cycle_jobs s)
unfolding finalize_cycle_jobs
finalize-IsFree s h =
    finalize_all-IsFree (cycle_jobs s.cycle) (clear_jobs s) h (cycle_jobs-clear_jobs s)

-- The order in which jobs are held does not matter.
pub hold-Books :
    (held held' : List ℕ) (s : CoverScheduler)
    → ((a : ℕ) → count a held ≡ count a held')
    → Books held s
    → Books held' s
hold-Books held held' s same h = record {
  placed = λ a. rw (sym (same a)) (h.placed a);
  registered = h.registered;
  unique = h.unique;
}
