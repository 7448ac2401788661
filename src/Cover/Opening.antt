-- ===== src/Cover/Opening.antt =====
-- The books of src/handlers/coverScheduler.ts when a cycle opens.
use p2party_js.Base.{
  ℕ, zero, suc, ◌+◌, ◌≡◌, refl, sym, ap, ◌∙◌, true, false, Bool-cases, inl, inr, Option, none, some,
  Option-cases, List, [], ◌∷◌, ◌++◌, arith, get_elem?, not, neither, of_not,
}
use p2party_js.Int.{ℤ}
use p2party_js.Cover.Jobs.{admitted}
use p2party_js.Cover.State.{
  Notice, lane_opening, degraded, suspended, active, lane_open_failed, LaneRuntime, CycleRuntime,
  CoverScheduler, Outside, set_status, disarm, arm, dequeue, sort_queue,
}
use p2party_js.Cover.Cycle.{
  lane_jobs, clear_jobs, select, chosen, admit, admit_all, open_lanes, open_failed, open_notices,
  open_lanes_of_cycle, arm_cycle_boundary, arm_slot,
}
use p2party_js.Cover.Counts.{count, count-append}
use p2party_js.Cover.Books.{Books, results, write-Books}
use p2party_js.Cover.Arrivals.{dequeue-Books, with_job}
use p2party_js.Cover.Holding.{
  IsSound, IsFree-IsSound, hold-Books, requeue_all-IsFree, cycle_jobs-clear_jobs, set_status-Books,
  set_status-cycle, set_status-status,
}

pub dequeue-cycle : (s : CoverScheduler) → (dequeue s).1.cycle ≡ s.cycle
unfolding dequeue sort_queue
dequeue-cycle s = ground arith

pub select-Books :
    (n : ℕ) (held : List ℕ) (s : CoverScheduler)
    → Books held s
    → Books (chosen (select n s).0 ++ held) (select n s).1
unfolding select
select-Books zero held s h = h
select-Books (suc n) held s h =
    hold-Books (chosen rest ++ with_job job held) (chosen (job ∷ rest) ++ held)
      (select n (dequeue s).1).1 (same job)
      (select-Books n (with_job job held) (dequeue s).1 (dequeue-Books s h))
  where
    job : Option ℕ
    job = (dequeue s).0

    rest : List (Option ℕ)
    rest = (select n (dequeue s).1).0

    same :
        (o : Option ℕ) (a : ℕ)
        → count a (chosen rest ++ with_job o held) ≡ count a (chosen (o ∷ rest) ++ held)
    same none a = refl
    same (some b) a =
        ground (arith, count-append a (chosen rest) (b ∷ held), count-append a (chosen rest) held)

admit_all-Books :
    {held : List ℕ} (l : List ℕ) (s : CoverScheduler)
    → Books held s
    → Books held (record s { runtimes = admit_all l s.runtimes })
unfolding admit_all
admit_all-Books [] s h = h
admit_all-Books {held} (a ∷ l) s h =
    admit_all-Books l (record s { runtimes = admit a s.runtimes }) admitted_one
  where
    admitted_one : Books held (record s { runtimes = admit a s.runtimes })
    admitted_one = elim (Option-cases (get_elem? s.runtimes a)) [
      | inl e ↦ unfold admit in rw (e, admit) h
      | inr (r, e) ↦
          unfold admit in
          rw (e, admit)
            (write-Books a r (record r { state = admitted; ever_admitted = true }) s e refl refl
              (λ p. p) h)
    ]

lane_jobs-cons :
    (i : ℕ) (job : Option ℕ) (lanes : List LaneRuntime) (l : List (Option ℕ))
    → lane_jobs lanes ≡ chosen l
    → lane_jobs (record { lane_index = i; job = job } ∷ lanes) ≡ chosen (job ∷ l)
lane_jobs-cons i none lanes l h = h
lane_jobs-cons i (some a) lanes l h = ap (◌∷◌ a) h

-- The lanes of a cycle that opens hold what was selected for it, once all of them open.
lane_jobs-open_lanes :
    (o : Outside) (i : ℕ) (l : List (Option ℕ))
    → open_failed o i l ≡ false
    → lane_jobs (open_lanes o i l) ≡ chosen l
unfolding open_lanes open_failed
lane_jobs-open_lanes o i [] h = refl
lane_jobs-open_lanes o i (job ∷ l) h =
    let (opens, rest) = neither (not (o.opens i)) (open_failed o (i + 1) l) h in
    rw (of_not (o.opens i) opens)
      (lane_jobs-cons i job (open_lanes o (i + 1) l) l (lane_jobs-open_lanes o (i + 1) l rest))

results-open_notices :
    (a i : ℕ) (l : List (Option ℕ)) (notices : List Notice)
    → results a (open_notices i l notices) ≡ results a notices
results-open_notices a i [] notices = refl
results-open_notices a i (job ∷ l) notices =
    results-open_notices a (i + 1) l (lane_opening i job ∷ notices)

-- Notices that report no result.
pub told-Books :
    {held : List ℕ} (notices notices' : List Notice) (s : CoverScheduler)
    → ((a : ℕ) → results a notices' ≡ results a notices)
    → Books held (record s { notices = notices })
    → Books held (record s { notices = notices' })
told-Books notices notices' s same h = record {
  placed = λ a. rw (same a) (h.placed a);
  registered = h.registered;
  unique = h.unique;
}

-- The lanes that open take what they selected; if one fails, all goes back to the queue.
pub open-IsSound :
    (index : ℤ) (start_ms end_ms : ℕ) (o : Outside) (s : CoverScheduler)
    → Books [] s
    → IsSound (open_lanes_of_cycle index start_ms end_ms o s)
unfolding open_lanes_of_cycle arm_cycle_boundary arm_slot arm disarm
open-IsSound index start_ms end_ms o s h = elim (Bool-cases (open_failed o 0 selected)) [
  | inl failed ↦ rw failed (
      IsFree-IsSound _
        (requeue_all-IsFree lane_open_failed (chosen selected) (clear_jobs t)
          (set_status-Books degraded (some lane_open_failed) opened chosen_books)
          (cycle_jobs-clear_jobs t))
        tt)
  | inr fine ↦ rw fine (record {
    books = rw (set_status-cycle active none opened).0 (
        rw (lane_jobs-open_lanes o 0 selected fine)
          (set_status-Books active none opened chosen_books));
    calm = λ p. absurd (is_active (sym (set_status-status active none opened) ∙ p));
    timer_fits = tt;
  })
]
  where
    selected : List (Option ℕ)
    selected = (select s.schedule.cover_lanes s).0

    s' : CoverScheduler
    s' = (select s.schedule.cover_lanes s).1

    c : CycleRuntime
    c = record {
      serial = s'.cycles_opened;
      index = index;
      start_ms = start_ms;
      end_ms = end_ms;
      lanes = open_lanes o 0 selected;
      next_slot_ordinal = 0;
    }

    opened : CoverScheduler
    opened = record s' {
      runtimes = admit_all (chosen selected) s'.runtimes;
      notices = open_notices 0 selected s'.notices;
      cycle = some c;
      cycles_opened = s'.cycles_opened + 1;
    }

    t : CoverScheduler
    t = set_status degraded (some lane_open_failed) opened

    admitted_now : CoverScheduler
    admitted_now = record s' { runtimes = admit_all (chosen selected) s'.runtimes }

    chosen_books : Books (chosen selected) opened
    chosen_books =
        told-Books s'.notices (open_notices 0 selected s'.notices) admitted_now
          (λ a. results-open_notices a 0 selected s'.notices)
          (admit_all-Books (chosen selected) s' (
            hold-Books (chosen selected ++ []) (chosen selected) s'
              (λ a. omega (arith, count-append a (chosen selected) []))
              (select-Books s.schedule.cover_lanes [] s h)))

    is_active : ¬ (active ≡ suspended)
    is_active p = cc
