-- ===== src/Cover/Counts.antt =====
-- How often a job stands in the queue of src/handlers/coverScheduler.ts, behind each operation on it.
use p2party_js.Base.{
  ℕ, suc, ◌+◌, ◌≤◌, ◌≡◌, ◌≢◌, refl, ap, false, Bool-cases, inl, inr, List, [], ◌∷◌, ◌++◌, ◌==◌,
  if◌then◌else◌, arith, ==_refl, ==_of_ne, sym, ◌∙◌,
}
use p2party_js.Cover.Jobs.{JobRuntime, before_at, insert_job, sort_jobs, remove_job, includes}

abbrev pub count : ℕ → List ℕ → ℕ
count a [] = 0
count a (b ∷ l) = if b == a then suc (count a l) else count a l

pub count_self : (a : ℕ) (l : List ℕ) → count a (a ∷ l) ≡ suc (count a l)
count_self a l = rw (==_refl a)

pub count_ne : (a b : ℕ) (l : List ℕ) → b ≢ a → count b (a ∷ l) ≡ count b l
count_ne a b l h = rw (==_of_ne a b (λ e. h (sym e)))

pub count-append : (a : ℕ) (l m : List ℕ) → count a (l ++ m) ≡ count a l + count a m
count-append a [] m = omega arith
count-append a (b ∷ l) m = ground (arith, count-append a l m)

pub count-insert_job :
    (heap : List JobRuntime) (a b : ℕ) (l : List ℕ)
    → count a (insert_job heap b l) ≡ count a (b ∷ l)
unfolding insert_job
count-insert_job heap a b [] = refl
count-insert_job heap a b (c ∷ l) = elim (Bool-cases (before_at heap c b)) [
  | inl e ↦ rw e (swapped (count-insert_job heap a b l))
  | inr e ↦ rw e
]
  where
    swapped :
        count a (insert_job heap b l) ≡ count a (b ∷ l)
        → count a (c ∷ insert_job heap b l) ≡ count a (b ∷ c ∷ l)
    swapped ih = ground (arith, ih)

pub count-sort_jobs :
    (heap : List JobRuntime) (a : ℕ) (l : List ℕ) → count a (sort_jobs heap l) ≡ count a l
unfolding sort_jobs
count-sort_jobs heap a [] = refl
count-sort_jobs heap a (b ∷ l) =
    count-insert_job heap a b (sort_jobs heap l)
    ∙ ap (λ n. if b == a then suc n else n) (count-sort_jobs heap a l)

pub count-remove_job : (a : ℕ) (l : List ℕ) → count a l ≤ 1 → count a (remove_job a l) ≡ 0
unfolding remove_job
count-remove_job a [] h = refl
count-remove_job a (b ∷ l) h = ground (arith, count-remove_job a l)

pub count-remove_job_ne : (a b : ℕ) (l : List ℕ) → b ≢ a → count b (remove_job a l) ≡ count b l
unfolding remove_job
count-remove_job_ne a b [] h = refl
count-remove_job_ne a b (c ∷ l) h = ground (arith, count-remove_job_ne a b l)

pub includes-count : (a : ℕ) (l : List ℕ) → count a l ≡ 0 → includes a l ≡ false
unfolding includes
includes-count a [] h = refl
includes-count a (b ∷ l) h = ground (arith, includes-count a l)
