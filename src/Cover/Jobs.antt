-- ===== src/Cover/Jobs.antt =====
-- Jobs of src/handlers/coverScheduler.ts: `CoverJob`, `JobRuntime` and the order of the queue. A job's
-- producers are outside; what they return enters with the events of the run.
use p2party_js.Base.{
  ℕ, Bool, true, false, Option, none, some, List, [], ◌∷◌, ltb, ◌==◌, get_elem?, if◌then◌else◌,
}
use p2party_js.Int.{ℤ, pos, ltb_int}
use Prim.Native.String.{String}

pub data CoverJobKind : Type 0 where
  real control : CoverJobKind

pub record CoverJob : Type 0 where
  pub id : String
  pub kind : CoverJobKind
  pub declared_cell_count : ℕ
  pub priority : Option ℤ
  pub has_cancel_cell : Bool

pub data JobState : Type 0 where
  queued admitted terminal : JobState

pub record JobRuntime : Type 0 where
  pub job : CoverJob
  pub sequence : ℕ
  pub state : JobState
  pub ever_admitted : Bool
  pub sent_cells : ℕ
  pub cancel_requested : Bool
  pub cancel_sent : Bool
  pub completed : Bool
  pub settled : Bool
  pub pending_cell : Option (List ℕ)
  pub pending_cancel_cell : Option (List ℕ)

abbrev pub new_runtime : CoverJob → ℕ → JobRuntime
new_runtime job sequence = record {
  job = job;
  sequence = sequence;
  state = queued;
  ever_admitted = false;
  sent_cells = 0;
  cancel_requested = false;
  cancel_sent = false;
  completed = false;
  settled = false;
  pending_cell = none;
  pending_cancel_cell = none;
}

abbrev pub kind_tier : CoverJobKind → ℕ
kind_tier control = 1
kind_tier real = 2

abbrev pub job_tier : JobRuntime → ℕ
job_tier r = if r.cancel_requested then 0 else kind_tier r.job.kind

abbrev pub job_priority : JobRuntime → ℤ
job_priority r = Option-priority r.job.priority
  where
    Option-priority : Option ℤ → ℤ
    Option-priority none = pos 0
    Option-priority (some p) = p

-- `compareQueuedJobs(left, right) < 0`.
unfoldable pub comes_before : JobRuntime → JobRuntime → Bool
comes_before left right =
    if ltb (job_tier left) (job_tier right)
    then true
    else if ltb (job_tier right) (job_tier left)
    then false
    else if ltb_int (job_priority right) (job_priority left)
    then true
    else if ltb_int (job_priority left) (job_priority right)
    then false
    else ltb left.sequence right.sequence

-- The queue, the jobs and the lanes refer to shared `JobRuntime` objects: an object is a place in the
-- list of all that were made. A reference always points to one.
abbrev pub before_at : List JobRuntime → ℕ → ℕ → Bool
before_at heap a b = elim (get_elem? heap a) [
  | none ↦ false
  | some left ↦ elim (get_elem? heap b) [ none ↦ false | some right ↦ comes_before left right ]
]

-- `Array.prototype.sort`, which is stable, by insertion.
unfoldable pub insert_job : List JobRuntime → ℕ → List ℕ → List ℕ
unfolding comes_before
insert_job heap a [] = a ∷ []
insert_job heap a (b ∷ queue) =
    if before_at heap b a then b ∷ insert_job heap a queue else a ∷ b ∷ queue

unfoldable pub sort_jobs : List JobRuntime → List ℕ → List ℕ
unfolding insert_job
sort_jobs heap [] = []
sort_jobs heap (a ∷ queue) = insert_job heap a (sort_jobs heap queue)

-- `queued.splice(queued.indexOf(runtime), 1)`, if it is there.
unfoldable pub remove_job : ℕ → List ℕ → List ℕ
remove_job a [] = []
remove_job a (b ∷ queue) = if b == a then queue else b ∷ remove_job a queue

-- `queued.includes(runtime)`.
unfoldable pub includes : ℕ → List ℕ → Bool
includes a [] = false
includes a (b ∷ queue) = if b == a then true else includes a queue
