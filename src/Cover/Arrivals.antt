-- ===== src/Cover/Arrivals.antt =====
-- The books of a cover scheduler (src/handlers/coverScheduler.ts) when a job leaves the queue for a
-- lane, and when a new one is registered.
use p2party_js.Base.{
  ℕ, ◌+◌, ◌≤◌, ◌≡◌, ◌≢◌, refl, sym, ◌∙◌, ap, false, Bool-cases, inl, inr, Option, none, some, List,
  [], ◌∷◌, ◌++◌, arith, get_elem?, length, get_elem?-snoc, get_elem?-snoc_ne, get_elem?-length,
}
use p2party_js.Maps.{map_get, map_set, string_key}
use p2party_js.Maps.Laws.{map_get-map_set, map_get-map_set_ne, map_set-IsUnique}
use p2party_js.Cover.Jobs.{CoverJob, JobRuntime, new_runtime}
use p2party_js.Cover.State.{CoverScheduler, sort_queue, dequeue}
use p2party_js.Cover.Counts.{count, count_self, count_ne, count-append}
use p2party_js.Cover.Control.{register}
use p2party_js.Cover.Books.{results, Place, Books, same_or_other, sort-Books}

-- What a lane that takes the result of `dequeue` holds.
abbrev pub with_job : Option ℕ → List ℕ → List ℕ
with_job none held = held
with_job (some a) held = a ∷ held

dequeued :
    {held : List ℕ} (a : ℕ) (rest : List ℕ) (s : CoverScheduler)
    → s.queued ≡ a ∷ rest
    → Books held s
    → Books (a ∷ held) (record s { queued = rest })
dequeued {held} a rest s e h = record {
  placed = λ b. moved b (get_elem? s.runtimes b) (h.placed b);
  registered = h.registered;
  unique = h.unique;
}
  where
    moved :
        (b : ℕ) (o : Option JobRuntime)
        → Place (count b s.queued) (count b held) (results b s.notices) o
        → Place (count b rest) (count b (a ∷ held)) (results b s.notices) o
    moved b none p = ground (arith, ap (count b) e)
    moved b (some r) p = elim (Bool-cases r.settled) [
      | inl done ↦ rw done (ground (arith, ap (count b) e))
      | inr live ↦ rw live (ground (arith, ap (count b) e))
    ]

pub dequeue-Books :
    {held : List ℕ} (s : CoverScheduler)
    → Books held s
    → Books (with_job (dequeue s).0 held) (dequeue s).1
unfolding dequeue
dequeue-Books {held} s h = split (sort_queue s).queued refl
  where
    sorted : Books held (sort_queue s)
    sorted = sort-Books s h

    split :
        (l : List ℕ) → (sort_queue s).queued ≡ l → Books (with_job (dequeue s).0 held) (dequeue s).1
    split [] e = rw (e, dequeue) sorted
    split (a ∷ rest) e = rw (e, dequeue) (dequeued a rest (sort_queue s) e sorted)

pub no_place :
    (q h n : ℕ) (o : Option JobRuntime) → o ≡ none → Place q h n o → (q ≡ 0) × (h ≡ 0) × (n ≡ 0)
no_place q h n none e p = p
no_place q h n (some r) e p = cc

-- A new job is queued and registered.
pub register-Books :
    {held : List ℕ} (job : CoverJob) (s : CoverScheduler)
    → map_get job.id s.jobs ≡ none
    → 1 ≤ job.declared_cell_count
    → Books held s
    → Books held (register job s)
unfolding register
register-Books {held} job s free some_cells h = sort-Books pushed record_of
  where
    new : ℕ
    new = length s.runtimes

    pushed : CoverScheduler
    pushed = record s {
      sequence = s.sequence + 1;
      jobs = map_set job.id (length s.runtimes) s.jobs;
      queued = s.queued ++ length s.runtimes ∷ [];
      runtimes = s.runtimes ++ new_runtime job s.sequence ∷ [];
    }

    nowhere : (count new s.queued ≡ 0) × (count new held ≡ 0) × (results new s.notices ≡ 0)
    nowhere = no_place _ _ _ _ (get_elem?-length s.runtimes) (h.placed new)

    here : count new (s.queued ++ new ∷ []) + count new held ≡ 1
    here =
        omega (arith, count-append new s.queued (new ∷ []), count_self new [], nowhere.0, nowhere.1)

    elsewhere : (b : ℕ) → b ≢ new → count b (s.queued ++ new ∷ []) ≡ count b s.queued
    elsewhere b ne = omega (arith, count-append b s.queued (new ∷ []), count_ne new b [] ne)

    distinct :
        (b : ℕ) (t : JobRuntime)
        → get_elem? s.runtimes b ≡ some t
        → t.settled ≡ false
        → job.id ≢ t.job.id
    distinct b t e live p =
        let found : ◌≡◌ {A = Option ℕ} none (some b) =
          sym free ∙ ap (λ k. map_get k s.jobs) p ∙ h.registered b t e live in
        cc

    record_of : Books held pushed
    record_of = record {
      placed = λ b. elim (same_or_other new b) [
        | inl p ↦
            rw (p, get_elem?-snoc s.runtimes (new_runtime job s.sequence))
              (here, nowhere.2, refl, refl, some_cells)
        | inr p ↦
            rw
              (
                elsewhere b p,
                get_elem?-snoc_ne s.runtimes (new_runtime job s.sequence) b (λ q. p (sym q)),
              )
              (h.placed b)
      ];
      registered = λ b t e live. elim (same_or_other new b) [
        | inl p ↦
            let found : some (new_runtime job s.sequence) ≡ some t =
              sym (get_elem?-snoc s.runtimes (new_runtime job s.sequence)) ∙ (rw p at e) in
            let same : job.id ≡ t.job.id = ground arith in
            rw (← same, p) (map_get-map_set job.id new s.jobs)
        | inr p ↦
            let e' : get_elem? s.runtimes b ≡ some t =
              sym (get_elem?-snoc_ne s.runtimes (new_runtime job s.sequence) b (λ q. p (sym q)))
              ∙ e in
            map_get-map_set_ne job.id t.job.id new s.jobs (distinct b t e' live)
            ∙ h.registered b t e' live
      ];
      unique = map_set-IsUnique job.id new s.jobs h.unique;
    }
