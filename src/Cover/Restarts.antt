-- ===== src/Cover/Restarts.antt =====
-- The books of src/handlers/coverScheduler.ts over `start`, `resume` and `stop`.
use p2party_js.Base.{
  ℕ, ◌≡◌, ◌≢◌, refl, sym, ap, ◌∙◌, Bool, true, false, Bool-cases, inl, inr, Option, none, some,
  Option-cases, List, [], ◌∷◌, arith, get_elem?, if◌then◌else◌, not, ltb, Result, ok, err,
  get_elem?-set_self, get_elem?-set_ne, of_not,
}
use p2party_js.Maps.{map_get, string_key}
use p2party_js.Cover.Schedule.{CoverError}
use p2party_js.Cover.Jobs.{JobRuntime}
use p2party_js.Cover.State.{
  starting, suspended, stopped, same_status, JobOutcome, failed_by_stop, late_cleanup, CycleRuntime,
  CoverScheduler, Outside, remove_queued, settle, set_status, disarm, arm,
}
use p2party_js.Cover.Cycle.{
  cycle_jobs, clear_jobs, arm_cycle_boundary, arm_next_boundary, close_current_cycle,
}
use p2party_js.Cover.Control.{reopen, start, resume, fail_jobs, halt, stop}
use p2party_js.Cover.Methods.{settle_removed-Books, settle_removed-Frame}
use p2party_js.Cover.Counts.{count}
use p2party_js.Cover.Books.{Books, Place, Registered, results, same_or_other}
use p2party_js.Cover.Moves.{settle_of_none, settle_of_settled, settle_of_live, settled_now}
use p2party_js.Cover.Holding.{
  IsSound, Frame, Frame-trans, closed-IsSound, set_status-cycle, set_status-heap, set_status-status,
  same_status-eq, set_status-Books, cycle_jobs-clear_jobs,
}
use p2party_js.Cover.Boundaries.{
  if-IsSound_pair, if-IsSound_pair_test, close-Books, arm_next-IsSound, await_cycle_end-IsSound,
  status-Books,
}
use Prim.Native.String.{String}

reopen-IsSound :
    (inclusive : Bool) (o : Outside) (s : CoverScheduler)
    → Books [] s
    → s.cycle ≡ none
    → IsSound (reopen inclusive o s).0
unfolding reopen
reopen-IsSound inclusive o s h e = told (arm_next_boundary inclusive o s).1
  where
    told :
        (r : Result CoverError (Unit {0}))
        → IsSound
            (elim r as (λ _. CoverScheduler × Result CoverError Bool) [
              | ok _ ↦ ((arm_next_boundary inclusive o s).0, ok true)
              | err w ↦ ((arm_next_boundary inclusive o s).0, err w)
            ]).0
    told (ok _) = arm_next-IsSound inclusive o s h e
    told (err w) = arm_next-IsSound inclusive o s h e

-- The boundary timer, in a state that is not suspended.
arm_held-IsSound :
    (deadline : ℕ) (o : Outside) (s : CoverScheduler)
    → Books (cycle_jobs s.cycle) s
    → s.status ≡ starting
    → IsSound (arm_cycle_boundary deadline o s)
unfolding arm_cycle_boundary arm disarm
arm_held-IsSound deadline o s h e = record {
  books = h;
  calm = λ p. absurd (differ (sym e ∙ p));
  timer_fits = tt;
}
  where
    differ : ¬ (starting ≡ suspended)
    differ p = cc

pub start-IsSound : (o : Outside) (s : CoverScheduler) → IsSound s → IsSound (start o s).0
unfolding start
start-IsSound o s h =
    if-IsSound_pair (not (same_status s.status stopped)) _ _ h (started s'.cycle refl)
  where
    s' : CoverScheduler
    s' = set_status starting none (record s { running = true })

    books : Books (cycle_jobs s'.cycle) s'
    books = status-Books starting none (record s { running = true }) h.books

    started :
        (c : Option CycleRuntime)
        → s'.cycle ≡ c
        → IsSound
            (elim c as (λ _. CoverScheduler × Result CoverError Bool) [
              | some c ↦ (arm_cycle_boundary c.end_ms o s', ok true)
              | none ↦ reopen true o s'
            ]).0
    started none e = reopen-IsSound true o s' (rw e at books) e
    started (some c) e =
        arm_held-IsSound c.end_ms o s' books
          (set_status-status starting none (record s { running = true }))

pub resume-IsSound : (o : Outside) (s : CoverScheduler) → IsSound s → IsSound (resume o s).0
unfolding resume disarm
resume-IsSound o s h =
    if-IsSound_pair_test (not (same_status s.status suspended)) _ _ (λ _. h)
      (λ was. resumed (same_status-eq s.status suspended (of_not _ was)) s'.cycle refl)
  where
    s' : CoverScheduler
    s' = set_status starting none (disarm (record s { running = true }))

    books : Books (cycle_jobs s'.cycle) s'
    books = status-Books starting none (disarm (record s { running = true })) h.books

    kept : s'.cycle ≡ s.cycle
    kept = (set_status-cycle starting none (disarm (record s { running = true }))).0

    -- The lanes of a suspended scheduler hold nothing.
    nothing_held : s.status ≡ suspended → Books [] s'
    nothing_held was = rw (ap cycle_jobs kept ∙ h.calm was) at books

    closed_first :
        s.status ≡ suspended → IsSound (reopen false o (close_current_cycle late_cleanup o s').0).0
    closed_first was =
        let (closed_books, closed) = close-Books late_cleanup o s' (nothing_held was) in
        reopen-IsSound false o (close_current_cycle late_cleanup o s').0 closed_books closed

    resumed :
        s.status ≡ suspended
        → (c : Option CycleRuntime) → s'.cycle ≡ c
        → IsSound
            (elim c as (λ _. CoverScheduler × Result CoverError Bool) [
              | none ↦ reopen false o s'
              | some c ↦
                  if ltb o.now c.end_ms
                  then (arm_cycle_boundary c.end_ms o s', ok true)
                  else reopen false o (close_current_cycle late_cleanup o s').0
            ]).0
    resumed was none e = reopen-IsSound false o s' (rw e at books) e
    resumed was (some c) e =
        if-IsSound_pair (ltb o.now c.end_ms) _ _
          (arm_held-IsSound c.end_ms o s' books
            (set_status-status starting none (disarm (record s { running = true }))))
          (closed_first was)

settle-runtimes_ne :
    (outcome : JobOutcome) (a b : ℕ) (s : CoverScheduler)
    → a ≢ b
    → get_elem? (settle outcome a s).runtimes b ≡ get_elem? s.runtimes b
unfolding remove_queued
settle-runtimes_ne outcome a b s ne = elim (Option-cases (get_elem? s.runtimes a)) [
  | inl e ↦ rw (settle_of_none outcome a s e)
  | inr (r, e) ↦ elim (Bool-cases r.settled) [
    | inl done ↦ rw (settle_of_settled outcome a r s e done)
    | inr live ↦
        rw (settle_of_live outcome a r s e live)
          (get_elem?-set_ne s.runtimes a b (settled_now r) ne)
  ]
]

settle-settled :
    (outcome : JobOutcome) (a : ℕ) (t : JobRuntime) (s : CoverScheduler)
    → get_elem? (settle outcome a s).runtimes a ≡ some t
    → t.settled ≡ true
unfolding remove_queued
settle-settled outcome a t s at = elim (Option-cases (get_elem? s.runtimes a)) [
  | inl e ↦
      let none_there : ◌≡◌ {A = Option JobRuntime} none (some t) =
        sym e ∙ (rw (settle_of_none outcome a s e) at at) in
      absurd (ground arith)
  | inr (r, e) ↦ elim (Bool-cases r.settled) [
    | inl done ↦
        let there : some r ≡ some t = sym e ∙ (rw (settle_of_settled outcome a r s e done) at at) in
        ground arith
    | inr live ↦
        let there : some (settled_now r) ≡ some t =
          sym (get_elem?-set_self s.runtimes a (settled_now r) e)
          ∙ (rw (settle_of_live outcome a r s e live) at at) in
        ground arith
  ]
]

-- Once the first is settled, the rest still lists every unsettled job.
settle-Registered :
    (outcome : JobOutcome) (id : String) (a : ℕ) (l : List (String × ℕ)) (s : CoverScheduler)
    → Registered s.runtimes ((id, a) ∷ l)
    → Registered (settle outcome a (remove_queued a s)).runtimes l
unfolding map_get remove_queued
settle-Registered outcome id a l s h b t at live = elim (same_or_other a b) [
  | inl p ↦
      let done : t.settled ≡ true = settle-settled outcome a t (remove_queued a s) (rw p at at) in
      cc
  | inr p ↦
      listed
        (h b t (sym (settle-runtimes_ne outcome a b (remove_queued a s) (λ q. p (sym q))) ∙ at)
          live)
        p
]
  where
    same_job : some a ≡ some b → b ≡ a
    same_job q = ground arith

    listed :
        (if string_key.same id t.job.id then some a else map_get t.job.id l) ≡ some b
        → b ≢ a
        → map_get t.job.id l ≡ some b
    listed e ne = elim (Bool-cases (string_key.same id t.job.id)) [
      | inl same ↦ absurd (ne (same_job (rw same at e)))
      | inr other ↦ rw other at e
    ]

fail_jobs-Books :
    {held : List ℕ} (l : List (String × ℕ)) (s : CoverScheduler)
    → Books held s
    → Books held (fail_jobs l s)
unfolding fail_jobs
fail_jobs-Books [] s h = h
fail_jobs-Books ((id, a) ∷ l) s h =
    fail_jobs-Books l (settle failed_by_stop a (remove_queued a s))
      (settle_removed-Books failed_by_stop a s h)

fail_jobs-Registered :
    (l : List (String × ℕ)) (s : CoverScheduler)
    → Registered s.runtimes l
    → Registered (fail_jobs l s).runtimes []
unfolding fail_jobs
fail_jobs-Registered [] s h = h
fail_jobs-Registered ((id, a) ∷ l) s h =
    fail_jobs-Registered l (settle failed_by_stop a (remove_queued a s))
      (settle-Registered failed_by_stop id a l s h)

fail_jobs-Frame : (l : List (String × ℕ)) (s : CoverScheduler) → Frame s (fail_jobs l s)
unfolding fail_jobs
fail_jobs-Frame [] s = (refl, refl, refl)
fail_jobs-Frame ((id, a) ∷ l) s =
    Frame-trans s (settle failed_by_stop a (remove_queued a s))
      (fail_jobs l (settle failed_by_stop a (remove_queued a s)))
      (settle_removed-Frame failed_by_stop a s)
      (fail_jobs-Frame l (settle failed_by_stop a (remove_queued a s)))

-- With every job settled, what lanes hold is no longer owed.
release-Books :
    (held : List ℕ) (s : CoverScheduler) → Registered s.runtimes [] → Books held s → Books [] s
unfolding map_get
release-Books held s over h = record {
  placed = λ a. released a (get_elem? s.runtimes a) refl (h.placed a);
  registered = h.registered;
  unique = h.unique;
}
  where
    none_is_some : {a : ℕ} → ◌≡◌ {A = Option ℕ} none (some a) → ⊥
    none_is_some e = cc

    released :
        (a : ℕ) (o : Option JobRuntime)
        → get_elem? s.runtimes a ≡ o
        → Place (count a s.queued) (count a held) (results a s.notices) o
        → Place (count a s.queued) 0 (results a s.notices) o
    released a none e p = (p.0, refl, p.2)
    released a (some r) e p = elim (Bool-cases r.settled) [
      | inl done ↦ rw done (rw done at p)
      | inr live ↦ absurd (none_is_some (over a r e live))
    ]

halt-Books : (s : CoverScheduler) → IsSound s → Books [] (halt s) × ((halt s).cycle ≡ s.cycle)
unfolding halt disarm
halt-Books s h = (
  release-Books (cycle_jobs s.cycle) (halt s) (fail_jobs-Registered s.jobs t registered)
      (fail_jobs-Books s.jobs t books),
  (fail_jobs-Frame s.jobs t).0
      ∙ (set_status-cycle stopped none (disarm (record s { running = false }))).0,
)
  where
    t : CoverScheduler
    t = set_status stopped none (disarm (record s { running = false }))

    books : Books (cycle_jobs s.cycle) t
    books = set_status-Books stopped none (disarm (record s { running = false })) h.books

    registered : Registered t.runtimes s.jobs
    registered =
        rw (set_status-heap stopped none (disarm (record s { running = false }))) h.books.registered

pub stop-IsSound : (o : Outside) (s : CoverScheduler) → IsSound s → IsSound (stop o s).0
unfolding stop
stop-IsSound o s h = elim (Option-cases s.cycle) [
  | inl e ↦
      rw (e, stop)
        (if-IsSound_pair (same_status s.status stopped) _ _ h
          (closed-IsSound (halt s) (halt-Books s h).0 ((halt-Books s h).1 ∙ e)))
  | inr (c, e) ↦
      rw (e, stop)
        (await_cycle_end-IsSound c o (clear_jobs (halt s))
          ((halt-Books s h).0, cycle_jobs-clear_jobs (halt s)))
]
