-- ===== src/Cover/Moves.antt =====
-- The books of src/handlers/coverScheduler.ts behind `settle` and `requeue`.
use mathlib.Core.Path.{subst}
use p2party_js.Base.{
  ℕ, suc, ◌≡◌, ◌≢◌, refl, sym, ◌∙◌, ap, true, false, Bool-cases, inl, inr, none, some, Option-cases,
  List, [], ◌∷◌, ◌==◌, ◌||◌, arith, ==_refl, ==_of_ne, get_elem?, set, get_elem?-set_self,
  get_elem?-set_ne,
}
use p2party_js.Maps.{map_get, string_key, IsUnique}
use p2party_js.Maps.Laws.{map_get-map_delete_ne, map_delete-IsUnique}
use p2party_js.Cover.Jobs.{JobRuntime, queued, terminal}
use p2party_js.Cover.State.{
  Reason, JobOutcome, job_result, job_interrupted, CoverScheduler, write_runtime, sort_queue,
  remove_queued, push_queued, requeue, forget_job, settle, notify,
}
use p2party_js.Cover.Jobs.{remove_job}
use p2party_js.Cover.Counts.{
  count, count_self, count_ne, count-append, count-sort_jobs, count-remove_job, count-remove_job_ne,
  includes-count,
}
use p2party_js.Cover.Books.{
  results, Place, PlaceOf, Books, BooksBut, OwnPlace, same_or_other, write-Books,
}
use Prim.Native.String.{String}

forget_job-IsUnique :
    (id : String) (a : ℕ) (jobs : List (String × ℕ))
    → IsUnique jobs
    → IsUnique (forget_job id a jobs)
unfolding forget_job
forget_job-IsUnique id a jobs u = elim (Option-cases (map_get id jobs)) [
  | inl e ↦ rw (e, forget_job) u
  | inr (b, e) ↦ elim (Bool-cases (b == a)) [
    | inl same ↦ rw (e, same, forget_job) (map_delete-IsUnique id jobs u)
    | inr other ↦ rw (e, other, forget_job) u
  ]
]

-- Another runtime stays registered.
forget_job-get :
    (id id' : String) (a b : ℕ) (jobs : List (String × ℕ))
    → b ≢ a
    → map_get id jobs ≡ some a
    → map_get id' jobs ≡ some b
    → map_get id' (forget_job id a jobs) ≡ some b
unfolding forget_job
forget_job-get id id' a b jobs ne at there =
    rw (at, ==_refl a, forget_job) (map_get-map_delete_ne id id' jobs differ ∙ there)
  where
    some_ne : ¬ (some a ≡ some b)
    some_ne q = ne (sym (ground arith))

    differ : id ≢ id'
    differ p = some_ne (sym at ∙ ap (λ k. map_get k jobs) p ∙ there)

at_each : (P : ℕ → Type 0) (a : ℕ) → P a → ((b : ℕ) → b ≢ a → P b) → (b : ℕ) → P b
at_each P a here other b = elim (same_or_other a b) [
  | inl p ↦ subst P (sym p) here
  | inr p ↦ other b p
]

abbrev pub settled_now : JobRuntime → JobRuntime
settled_now r = record r { settled = true; state = terminal }

pub settle_of_none :
    (outcome : JobOutcome) (a : ℕ) (s : CoverScheduler)
    → get_elem? s.runtimes a ≡ none
    → settle outcome a s ≡ s
unfolding settle
settle_of_none outcome a s e = rw (e, settle)

pub settle_of_settled :
    (outcome : JobOutcome) (a : ℕ) (r : JobRuntime) (s : CoverScheduler)
    → get_elem? s.runtimes a ≡ some r
    → r.settled ≡ true
    → settle outcome a s ≡ s
unfolding settle
settle_of_settled outcome a r s e done = rw (e, settle) (rw done)

abbrev pub settle_live : JobOutcome → ℕ → JobRuntime → CoverScheduler → CoverScheduler
settle_live outcome a r s =
    notify (job_result a r.job.id outcome)
      (record (remove_queued a (write_runtime a (settled_now r) s)) {
        jobs = forget_job r.job.id a s.jobs;
      })

pub settle_of_live :
    (outcome : JobOutcome) (a : ℕ) (r : JobRuntime) (s : CoverScheduler)
    → get_elem? s.runtimes a ≡ some r
    → r.settled ≡ false
    → settle outcome a s ≡ settle_live outcome a r s
unfolding settle
settle_of_live outcome a r s e live = rw (e, settle) (rw live)

settle-live_Books :
    {held : List ℕ} (outcome : JobOutcome) (a : ℕ) (r : JobRuntime) (s : CoverScheduler)
    → get_elem? s.runtimes a ≡ some r
    → r.settled ≡ false
    → BooksBut a held s
    → Books held (settle_live outcome a r s)
unfolding remove_queued
settle-live_Books {held} outcome a r s e live h = record {
  placed =
      at_each
        (λ b.
          Place (count b (remove_job a s.queued)) (count b held)
            (results b (job_result a r.job.id outcome ∷ s.notices))
            (get_elem? (set s.runtimes a (settled_now r)) b))
        a (rw (get_elem?-set_self s.runtimes a (settled_now r) e, ==_refl a) own)
        λ b p.
          rw
            (
              get_elem?-set_ne s.runtimes a b (settled_now r) (λ q. p (sym q)),
              count-remove_job_ne a b s.queued p,
              ==_of_ne a b (λ q. p (sym q)),
            )
            (h.others b p);
  registered = λ b t eb lt. elim (same_or_other a b) [
    | inl p ↦
        let found : some (settled_now r) ≡ some t =
          sym (get_elem?-set_self s.runtimes a (settled_now r) e) ∙ (rw p at eb) in
        absurd (ground arith)
    | inr p ↦ forget_job-get r.job.id t.job.id a b s.jobs p (h.registered a r e live) (
        h.registered b t
          (sym (get_elem?-set_ne s.runtimes a b (settled_now r) (λ q. p (sym q))) ∙ eb) lt)
  ];
  unique = forget_job-IsUnique r.job.id a s.jobs h.unique;
}
  where
    stood : OwnPlace (count a s.queued) (results a s.notices) false
    stood = rw live at (h.own r e)

    own : (count a (remove_job a s.queued) ≡ 0) × (suc (results a s.notices) ≡ 1)
    own = (count-remove_job a s.queued stood.0, ap suc stood.1)

-- `settle` leaves the runtime settled, not queued and with one result, wherever it stood.
pub settle-Books :
    {held : List ℕ} (outcome : JobOutcome) (a : ℕ) (r : JobRuntime) (s : CoverScheduler)
    → get_elem? s.runtimes a ≡ some r
    → BooksBut a held s
    → Books held (settle outcome a s)
settle-Books {held} outcome a r s e h = elim (Bool-cases r.settled) [
  | inl done ↦ rw (settle_of_settled outcome a r s e done) (record {
    placed = λ b. elim (same_or_other a b) [
      | inl p ↦ rw (p, e, done) (rw done at (h.own r e))
      | inr p ↦ h.others b p
    ];
    registered = h.registered;
    unique = h.unique;
  })
  | inr live ↦ rw (settle_of_live outcome a r s e live) (settle-live_Books outcome a r s e live h)
]

push_count : (a b : ℕ) (l : List ℕ) → count a l ≡ 0 → count b (push_queued a l) ≡ count b (a ∷ l)
unfolding push_queued
push_count a b l h = rw (includes-count a l h) (ground (arith, count-append b l (a ∷ [])))

abbrev requeued : JobRuntime → JobRuntime
requeued r = record r { state = queued }

abbrev requeue_live : Reason → ℕ → JobRuntime → CoverScheduler → CoverScheduler
requeue_live reason a r s =
    notify (job_interrupted r.job.id reason)
      (sort_queue (record (write_runtime a (requeued r) s) { queued = push_queued a s.queued }))

requeue_of_live :
    (reason : Reason) (a : ℕ) (r : JobRuntime) (s : CoverScheduler)
    → get_elem? s.runtimes a ≡ some r
    → (r.settled || (r.completed || r.cancel_sent)) ≡ false
    → requeue reason a s ≡ requeue_live reason a r s
unfolding requeue
requeue_of_live reason a r s e live = rw (e, requeue) (rw live)

requeue_of_settled :
    (reason : Reason) (a : ℕ) (r : JobRuntime) (s : CoverScheduler)
    → get_elem? s.runtimes a ≡ some r
    → r.settled ≡ true
    → requeue reason a s ≡ s
unfolding requeue
requeue_of_settled reason a r s e done = rw (e, requeue) (rw done)

requeue-live_Books :
    {held : List ℕ} (reason : Reason) (a : ℕ) (r : JobRuntime) (s : CoverScheduler)
    → get_elem? s.runtimes a ≡ some r
    → r.settled ≡ false
    → Books (a ∷ held) s
    → Books held (requeue_live reason a r s)
unfolding sort_queue
requeue-live_Books {held} reason a r s e live h = record {
  placed = λ b.
      rw (count-sort_jobs (set s.runtimes a (requeued r)) b (push_queued a s.queued), pushed b)
        (at_each
          (λ c.
            Place (count c (a ∷ s.queued)) (count c held) (results c s.notices)
              (get_elem? (set s.runtimes a (requeued r)) c))
          a
          (rw (get_elem?-set_self s.runtimes a (requeued r) e, live, ==_refl a)
            (omega (arith, own.0), own.1, own.2, own.3, own.4))
          (λ c p.
            rw
              (
                get_elem?-set_ne s.runtimes a c (requeued r) (λ q. p (sym q)),
                ==_of_ne a c (λ q. p (sym q)),
              )
              (rw (count_ne a c held p) at (h.placed c)))
          b);
  registered = (write-Books {held = a ∷ held} a r (requeued r) s e refl refl (λ p. p) h).registered;
  unique = h.unique;
}
  where
    own : PlaceOf (count a s.queued) (suc (count a held)) (results a s.notices) r false
    own = rw (count_self a held) at (rw live at (rw e at (h.placed a)))

    pushed : (b : ℕ) → count b (push_queued a s.queued) ≡ count b (a ∷ s.queued)
    pushed b = push_count a b s.queued (omega (arith, own.0))

-- A job that a lane lets go of goes back to the queue.
pub requeue-Books :
    {held : List ℕ} (reason : Reason) (a : ℕ) (s : CoverScheduler)
    → Books (a ∷ held) s
    → Books held (requeue reason a s)
requeue-Books {held} reason a s h = elim (Option-cases (get_elem? s.runtimes a)) [
  | inl e ↦ absurd (lost (rw e at (h.placed a)))
  | inr (r, e) ↦ elim (Bool-cases r.settled) [
    | inl done ↦ rw (requeue_of_settled reason a r s e done) (record {
      placed = λ b. elim (same_or_other a b) [
        | inl p ↦ rw (p, e, done) (rw done at (rw e at (h.placed a)))
        | inr p ↦ rw (count_ne a b held p) at (h.placed b)
      ];
      registered = h.registered;
      unique = h.unique;
    })
    | inr live ↦
        rw (requeue_of_live reason a r s e (movable r live (rw live at (rw e at (h.placed a)))))
          (requeue-live_Books reason a r s e live h)
  ]
]
  where
    lost : Place (count a s.queued) (count a (a ∷ held)) (results a s.notices) none → ⊥
    lost p = omega (arith, count_self a held)

    movable :
        (r : JobRuntime)
        → r.settled ≡ false
        → PlaceOf (count a s.queued) (count a (a ∷ held)) (results a s.notices) r false
        → (r.settled || (r.completed || r.cancel_sent)) ≡ false
    movable r live p = ground arith
