-- ===== src/Cover/Books.antt =====
-- Where the jobs of src/handlers/coverScheduler.ts are: in the queue, held by a lane, or settled. The
-- methods of the state keep these books.
use p2party_js.Base.{
  ℕ, suc, ◌+◌, ◌≤◌, ◌<◌, ◌≡◌, ◌≢◌, sym, ◌∙◌, Bool, true, false, Bool-cases, ◌⊎◌, inl, inr, Option,
  none, some, List, [], ◌∷◌, ◌==◌, if◌then◌else◌, arith, ==_iff, ne_of_==, get_elem?, set,
  get_elem?-set_self, get_elem?-set_ne,
}
use p2party_js.Maps.{map_get, string_key, IsUnique}
use p2party_js.Cover.Jobs.{JobRuntime}
use p2party_js.Cover.State.{
  Notice, status_changed, job_result, job_interrupted, lane_opening, lane_closing, cell_sent,
  CoverScheduler, write_runtime, sort_queue, remove_queued,
}
use p2party_js.Cover.Counts.{
  count, count_ne, count-sort_jobs, count-remove_job, count-remove_job_ne,
}
use Prim.Native.String.{String}

-- The results that were reported for a runtime.
abbrev pub results : ℕ → List Notice → ℕ
results a [] = 0
results a (job_result b id outcome ∷ notices) =
    if b == a then suc (results a notices) else results a notices
results a (status_changed _ _ _ ∷ notices) = results a notices
results a (job_interrupted _ _ ∷ notices) = results a notices
results a (lane_opening _ _ ∷ notices) = results a notices
results a (lane_closing _ _ ∷ notices) = results a notices
results a (cell_sent _ ∷ notices) = results a notices

-- A settled job is not queued and has one result. Another stands in one place, has no result, and has
-- cells left to send.
abbrev pub PlaceOf : ℕ → ℕ → ℕ → JobRuntime → Bool → Type 0
PlaceOf q h n r true = (q ≡ 0) × (n ≡ 1)
PlaceOf q h n r false =
    (q + h ≡ 1)
    × (n ≡ 0)
    × (r.completed ≡ false)
    × (r.cancel_sent ≡ false)
    × (r.sent_cells < r.job.declared_cell_count)

abbrev pub Place : ℕ → ℕ → ℕ → Option JobRuntime → Type 0
Place q h n none = (q ≡ 0) × (h ≡ 0) × (n ≡ 0)
Place q h n (some r) = PlaceOf q h n r r.settled

-- An unsettled job is registered under its id.
abbrev pub Registered : List JobRuntime → List (String × ℕ) → Type 0
Registered heap jobs =
    (a : ℕ) (r : JobRuntime)
    → get_elem? heap a ≡ some r
    → r.settled ≡ false
    → map_get r.job.id jobs ≡ some a

pub record Accounted (held queue : List ℕ) (heap : List JobRuntime) (jobs : List (String × ℕ))
    (told : ℕ → ℕ) : Type 0 where
  pub placed : (a : ℕ) → Place (count a queue) (count a held) (told a) (get_elem? heap a)
  pub registered : Registered heap jobs
  pub unique : IsUnique jobs

abbrev pub Books : List ℕ → CoverScheduler → Type 0
Books held s = Accounted held s.queued s.runtimes s.jobs (λ a. results a s.notices)

-- The books but for one runtime, which is about to be settled.
abbrev pub OwnPlace : ℕ → ℕ → Bool → Type 0
OwnPlace q n true = (q ≡ 0) × (n ≡ 1)
OwnPlace q n false = (q ≤ 1) × (n ≡ 0)

pub record AccountedBut (a : ℕ) (held queue : List ℕ) (heap : List JobRuntime)
    (jobs : List (String × ℕ)) (told : ℕ → ℕ) : Type 0 where
  pub others : (b : ℕ) → b ≢ a → Place (count b queue) (count b held) (told b) (get_elem? heap b)
  pub own :
      (r : JobRuntime) → get_elem? heap a ≡ some r → OwnPlace (count a queue) (told a) r.settled
  pub registered : Registered heap jobs
  pub unique : IsUnique jobs

abbrev pub BooksBut : ℕ → List ℕ → CoverScheduler → Type 0
BooksBut a held s = AccountedBut a held s.queued s.runtimes s.jobs (λ b. results b s.notices)

own_place : (q h n : ℕ) (r : JobRuntime) (b : Bool) → PlaceOf q h n r b → OwnPlace q n b
own_place q h n r true p = p
own_place q h n r false p = omega arith

pub same_or_other : (a b : ℕ) → (b ≡ a) ⊎ (b ≢ a)
same_or_other a b = elim (Bool-cases (b == a)) [
  | inl e ↦ inl ((==_iff b a).0 e)
  | inr e ↦ inr (ne_of_== b a e)
]

-- The runtime may also be one that a lane lets go of.
pub Books-but : {held : List ℕ} (a : ℕ) (s : CoverScheduler) → Books held s → BooksBut a held s
Books-but {held} a s h = record {
  others = λ b ne. h.placed b;
  own = λ r e.
      own_place (count a s.queued) (count a held) (results a s.notices) r r.settled
        (rw e at (h.placed a));
  registered = h.registered;
  unique = h.unique;
}

pub Books-but_held :
    {held : List ℕ} (a : ℕ) (s : CoverScheduler) → Books (a ∷ held) s → BooksBut a held s
Books-but_held {held} a s h =
    let but : BooksBut a (a ∷ held) s = Books-but a s h in
    record {
      others = λ b ne. rw (count_ne a b held ne) at (h.placed b);
      own = but.own;
      registered = but.registered;
      unique = but.unique;
    }

-- A write that leaves alone whether the runtime is settled, and which job it has.
write-Registered :
    (a : ℕ) (r r' : JobRuntime) (heap : List JobRuntime) (jobs : List (String × ℕ))
    → get_elem? heap a ≡ some r
    → r'.settled ≡ r.settled
    → r'.job ≡ r.job
    → Registered heap jobs
    → Registered (set heap a r') jobs
write-Registered a r r' heap jobs e same same_job h b t eb live = elim (same_or_other a b) [
  | inl p ↦
      let found : some r' ≡ some t = sym (get_elem?-set_self heap a r' e) ∙ (rw p at eb) in
      ground (arith, h a r e)
  | inr p ↦ h b t (sym (get_elem?-set_ne heap a b r' (λ q. p (sym q))) ∙ eb) live
]

pub write-BooksBut :
    {held : List ℕ} (a : ℕ) (r r' : JobRuntime) (s : CoverScheduler)
    → get_elem? s.runtimes a ≡ some r
    → r'.settled ≡ r.settled
    → r'.job ≡ r.job
    → BooksBut a held s
    → BooksBut a held (write_runtime a r' s)
write-BooksBut {held} a r r' s e same same_job h = record {
  others = λ b ne. rw (get_elem?-set_ne s.runtimes a b r' (λ q. ne (sym q))) (h.others b ne);
  own = λ t et. ground (arith, h.own r e, get_elem?-set_self s.runtimes a r' e);
  registered = write-Registered a r r' s.runtimes s.jobs e same same_job h.registered;
  unique = h.unique;
}

pub write-Books :
    {held : List ℕ} (a : ℕ) (r r' : JobRuntime) (s : CoverScheduler)
    → get_elem? s.runtimes a ≡ some r
    → r'.settled ≡ r.settled
    → r'.job ≡ r.job
    → (PlaceOf (count a s.queued) (count a held) (results a s.notices) r r.settled
        → PlaceOf (count a s.queued) (count a held) (results a s.notices) r' r'.settled)
    → Books held s
    → Books held (write_runtime a r' s)
write-Books {held} a r r' s e same same_job keep h = record {
  placed = λ b. elim (same_or_other a b) [
    | inl p ↦ rw (p, get_elem?-set_self s.runtimes a r' e) (keep (rw e at (h.placed a)))
    | inr p ↦ rw (get_elem?-set_ne s.runtimes a b r' (λ q. p (sym q))) (h.placed b)
  ];
  registered = write-Registered a r r' s.runtimes s.jobs e same same_job h.registered;
  unique = h.unique;
}

pub remove-BooksBut :
    {held : List ℕ} (a : ℕ) (s : CoverScheduler)
    → BooksBut a held s
    → BooksBut a held (remove_queued a s)
unfolding remove_queued
remove-BooksBut {held} a s h = record {
  others = λ b ne. rw (count-remove_job_ne a b s.queued ne) (h.others b ne);
  own = λ r e. removed r (h.own r e);
  registered = h.registered;
  unique = h.unique;
}
  where
    removed :
        (r : JobRuntime)
        → OwnPlace (count a s.queued) (results a s.notices) r.settled
        → OwnPlace (count a (remove_queued a s).queued) (results a s.notices) r.settled
    removed r p = ground (arith, count-remove_job a s.queued)

pub sort-Books : {held : List ℕ} (s : CoverScheduler) → Books held s → Books held (sort_queue s)
unfolding sort_queue
sort-Books s h = record {
  placed = λ a. rw (count-sort_jobs s.runtimes a s.queued) (h.placed a);
  registered = h.registered;
  unique = h.unique;
}
