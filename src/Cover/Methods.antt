-- ===== src/Cover/Methods.antt =====
-- The books of src/handlers/coverScheduler.ts over the public methods.
use mathlib.Core.Path.{subst}
use p2party_js.Base.{
  ℕ, ◌≤◌, ◌≡◌, refl, Bool, true, false, inl, inr, Option, none, some, Option-cases, List, arith,
  get_elem?, if◌then◌else◌, not, ltb, le_of_ltb, Result, ok, err, get_elem?-set_self, past_guard,
  neither, >>=-eq_ok, ok-injective,
}
use p2party_js.Maps.{map_get, string_key}
use p2party_js.Cover.Schedule.{CoverError, slots_per_lane}
use p2party_js.Cover.Jobs.{CoverJob, JobRuntime}
use p2party_js.Cover.State.{
  JobOutcome, completed, cancelled_before_admission, CoverScheduler, write_runtime, sort_queue,
  remove_queued, settle,
}
use p2party_js.Cover.Control.{check_job, register, enqueue, CancelResult, cancel, complete}
use p2party_js.Cover.Counts.{count-remove_job, count-remove_job_ne}
use p2party_js.Cover.Books.{
  Books, Books-but, remove-BooksBut, write-BooksBut, write-Books, sort-Books, same_or_other,
}
use p2party_js.Cover.Moves.{settle-Books, settle_of_none}
use p2party_js.Cover.Arrivals.{register-Books, no_place}
use p2party_js.Cover.Holding.{IsSound, Frame, Frame-IsSound, settle-Frame}
use p2party_js.Cover.Boundaries.{if-IsSound_pair}
use Prim.Native.String.{String}

-- A job that passes the guards of `enqueue` has a new id and a cell.
check_job-fits :
    (job : CoverJob) (s : CoverScheduler) {u : Unit {0}}
    → check_job job s ≡ ok u
    → (map_get job.id s.jobs ≡ none) × (1 ≤ job.declared_cell_count)
unfolding check_job
check_job-fits job s h =
    let (_, h1) = past_guard _ _ h in
    let (fresh, h2) = past_guard _ _ h1 in
    let (_, h3) = past_guard _ _ h2 in
    let (fits, _) = past_guard _ _ h3 in
    (
      unused (map_get job.id s.jobs) fresh,
      le_of_ltb job.declared_cell_count 1
          (neither (ltb job.declared_cell_count 1)
            (ltb (slots_per_lane s.schedule) job.declared_cell_count) fits).0,
    )
  where
    unused :
        (o : Option ℕ) → ◌≡◌ {A = Bool} (elim o [ none ↦ false | some _ ↦ true ]) false → o ≡ none
    unused none e = refl
    unused (some _) e = cc

register-Frame : (job : CoverJob) (s : CoverScheduler) → Frame s (register job s)
unfolding register sort_queue
register-Frame job s = (refl, refl, refl)

pub enqueue-IsSound :
    (job : CoverJob) (s s' : CoverScheduler) → IsSound s → enqueue job s ≡ ok s' → IsSound s'
unfolding enqueue
enqueue-IsSound job s s' h e =
    let (_, at, q) = >>=-eq_ok (check_job job s) (λ _. ok (register job s)) e in
    let (fresh, fits) = check_job-fits job s at in
    subst IsSound (ok-injective q) (
      Frame-IsSound s (register job s) (register-Frame job s)
        (register-Books job s fresh fits h.books) h)

-- A runtime that leaves the queue and is settled.
pub settle_removed-Books :
    {held : List ℕ} (outcome : JobOutcome) (a : ℕ) (s : CoverScheduler)
    → Books held s
    → Books held (settle outcome a (remove_queued a s))
unfolding remove_queued
settle_removed-Books {held} outcome a s h = elim (Option-cases (get_elem? s.runtimes a)) [
  | inl e ↦
      let nowhere = no_place _ _ _ _ e (h.placed a) in
      rw (settle_of_none outcome a (remove_queued a s) e) (record {
        placed = λ b. elim (same_or_other a b) [
          | inl p ↦ rw (p, e) (count-remove_job a s.queued (omega arith), nowhere.1, nowhere.2)
          | inr p ↦ rw (count-remove_job_ne a b s.queued p) (h.placed b)
        ];
        registered = h.registered;
        unique = h.unique;
      })
  | inr (r, e) ↦
      settle-Books outcome a r (remove_queued a s) e (remove-BooksBut a s (Books-but a s h))
]

pub settle_removed-Frame :
    (outcome : JobOutcome) (a : ℕ) (s : CoverScheduler)
    → Frame s (settle outcome a (remove_queued a s))
unfolding remove_queued
settle_removed-Frame outcome a s = settle-Frame outcome a (remove_queued a s)

abbrev pub OkSoundWith : Result CoverError (CoverScheduler × CancelResult) → Type 0
OkSoundWith (ok r) = IsSound r.0
OkSoundWith (err _) = Unit

if-OkSoundWith :
    (b : Bool) (x y : Result CoverError (CoverScheduler × CancelResult))
    → (b ≡ true → OkSoundWith x)
    → (b ≡ false → OkSoundWith y)
    → OkSoundWith (if b then x else y)
if-OkSoundWith true x y p q = p refl
if-OkSoundWith false x y p q = q refl

pub cancel-IsSound : (id : String) (s : CoverScheduler) → IsSound s → OkSoundWith (cancel id s)
unfolding cancel
cancel-IsSound id s h = elim (Option-cases (map_get id s.jobs)) [
  | inl e ↦ rw (e, cancel) h
  | inr (a, at) ↦ elim (Option-cases (get_elem? s.runtimes a)) [
    | inl e ↦ rw (at, cancel) (rw (e, cancel) h)
    | inr (r, e) ↦
        rw (at, cancel)
          (rw (e, cancel)
            (if-OkSoundWith r.settled _ _ (λ _. h)
              (λ live.
                if-OkSoundWith (not r.ever_admitted) _ _ (λ _. settled_at a)
                  (λ _.
                    if-OkSoundWith (not r.job.has_cancel_cell) _ _ (λ _. tt)
                      (λ _. pending a r e live)))))
  ]
]
  where
    settled_at : (a : ℕ) → IsSound (settle cancelled_before_admission a (remove_queued a s))
    settled_at a =
        Frame-IsSound s _ (settle_removed-Frame cancelled_before_admission a s)
          (settle_removed-Books cancelled_before_admission a s h.books) h

    pending :
        (a : ℕ) (r : JobRuntime)
        → get_elem? s.runtimes a ≡ some r
        → r.settled ≡ false
        → IsSound (
            sort_queue
              (write_runtime a (record r { cancel_requested = true; completed = false }) s))
    pending a r e live =
        Frame-IsSound s
          (sort_queue (write_runtime a (record r { cancel_requested = true; completed = false }) s))
          ((unfold sort_queue in refl), (unfold sort_queue in refl), (unfold sort_queue in refl))
          (sort-Books (write_runtime a (record r { cancel_requested = true; completed = false }) s)
            (write-Books a r (record r { cancel_requested = true; completed = false }) s e refl refl
              (λ p. rw live (ground arith)) h.books))
          h

pub complete-IsSound : (id : String) (s : CoverScheduler) → IsSound s → IsSound (complete id s).0
unfolding complete
complete-IsSound id s h = elim (Option-cases (map_get id s.jobs)) [
  | inl e ↦ rw (e, complete) h
  | inr (a, at) ↦ elim (Option-cases (get_elem? s.runtimes a)) [
    | inl e ↦ rw (at, complete) (rw (e, complete) h)
    | inr (r, e) ↦
        rw (at, complete) (rw (e, complete) (if-IsSound_pair r.settled _ _ h (settled_at a r e)))
  ]
]
  where
    settled_at :
        (a : ℕ) (r : JobRuntime)
        → get_elem? s.runtimes a ≡ some r
        → IsSound (
            settle completed a (
              write_runtime a
                (record r { completed = true; pending_cell = none })
                (remove_queued a s)))
    settled_at a r e =
        let r' : JobRuntime = record r { completed = true; pending_cell = none } in
        let t : CoverScheduler = write_runtime a r' (remove_queued a s) in
        Frame-IsSound s (settle completed a t) (settle-Frame completed a t)
          (settle-Books completed a r' t (get_elem?-set_self s.runtimes a r' e) (
            write-BooksBut a r r' (remove_queued a s) e refl refl
              (remove-BooksBut a s (Books-but a s h.books))))
          h
