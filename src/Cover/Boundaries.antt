-- ===== src/Cover/Boundaries.antt =====
-- The books of src/handlers/coverScheduler.ts when a cycle is interrupted, closes or gives way to the
-- next.
use p2party_js.Base.{
  ℕ, ◌+◌, ◌≡◌, refl, ◌∙◌, Bool, true, false, Bool-cases, inl, inr, Option, none, some, Option-cases,
  List, [], ◌∷◌, if◌then◌else◌, ◌||◌, not, leb, ◌==◌, Result, ok, err, Result-cases, ◌>>=◌, ◌>>◌,
  fail_if,
}
use p2party_js.Int.{ℤ}
use p2party_js.Cover.Schedule.{
  CoverError, cycle_end_range, is_safe_integer, cycle_duration_ms, next_cycle_boundary,
  cycle_index_at_boundary,
}
use p2party_js.Cover.State.{
  Notice, lane_closing, Status, stopped, suspended, degraded, Reason, on_suspend, CloseReason,
  late_cleanup, boundary, boundary_handler_failed, lane_close_failed, LaneRuntime, CycleRuntime,
  CoverScheduler, Outside, same_status, set_status, disarm, arm,
}
use p2party_js.Cover.Cycle.{
  cycle_jobs, close_current_cycle, close_notices, await_cycle_end, arm_cycle_boundary,
  arm_open_boundary, arm_next_boundary, suspend, degrade, interrupt_cycle, open_cycle,
  open_cycle_or_suspend, open_lanes_of_cycle, after_close, handle_cycle_boundary,
  finalize_cycle_jobs,
}
use p2party_js.Cover.Books.{Books, results}
use p2party_js.Cover.Holding.{
  IsSound, IsFree, IsFree-IsSound, closed-IsSound, interrupt-IsFree, finalize-IsFree,
  set_status-Books, set_status-cycle,
}
use p2party_js.Cover.Opening.{told-Books, open-IsSound}

pub if-IsSound :
    (b : Bool) (s t : CoverScheduler) → IsSound s → IsSound t → IsSound (if b then s else t)
if-IsSound true s t p q = p
if-IsSound false s t p q = q

-- The same, where a branch needs the test.
pub if-IsSound_test :
    (b : Bool) (s t : CoverScheduler)
    → (b ≡ true → IsSound s)
    → (b ≡ false → IsSound t)
    → IsSound (if b then s else t)
if-IsSound_test true s t p q = p refl
if-IsSound_test false s t p q = q refl

pub if-IsSound_pair {ℓ} :
    {R : Type ℓ} (b : Bool) (x y : CoverScheduler × R)
    → IsSound x.0
    → IsSound y.0
    → IsSound (if b then x else y).0
if-IsSound_pair true x y p q = p
if-IsSound_pair false x y p q = q

pub if-IsSound_pair_test {ℓ} :
    {R : Type ℓ} (b : Bool) (x y : CoverScheduler × R)
    → (b ≡ true → IsSound x.0)
    → (b ≡ false → IsSound y.0)
    → IsSound (if b then x else y).0
if-IsSound_pair_test true x y p q = p refl
if-IsSound_pair_test false x y p q = q refl

results-close_notices :
    (a : ℕ) (reason : CloseReason) (lanes : List LaneRuntime) (notices : List Notice)
    → results a (close_notices reason lanes notices) ≡ results a notices
results-close_notices a reason [] notices = refl
results-close_notices a reason (lane ∷ lanes) notices =
    results-close_notices a reason lanes (lane_closing lane.lane_index reason ∷ notices)

-- A cycle whose lanes hold nothing closes.
pub close-Books :
    (reason : CloseReason) (o : Outside) (s : CoverScheduler)
    → Books [] s
    → Books [] (close_current_cycle reason o s).0
      × ((close_current_cycle reason o s).0.cycle ≡ none)
unfolding close_current_cycle
close-Books reason o s h = elim (Option-cases s.cycle) [
  | inl e ↦ rw (e, close_current_cycle) (h, e)
  | inr (c, e) ↦
      rw (e, close_current_cycle)
        (
          told-Books s.notices (close_notices reason c.lanes s.notices) (record s { cycle = none })
              (λ a. results-close_notices a reason c.lanes s.notices) h,
          refl,
        )
]

pub close-IsSound :
    (reason : CloseReason) (o : Outside) (s : CoverScheduler)
    → Books [] s
    → IsSound (close_current_cycle reason o s).0
close-IsSound reason o s h =
    let (books, none_open) = close-Books reason o s h in
    closed-IsSound (close_current_cycle reason o s).0 books none_open

pub arm_cycle-IsSound :
    (deadline : ℕ) (o : Outside) (s : CoverScheduler)
    → IsFree s
    → IsSound (arm_cycle_boundary deadline o s)
unfolding arm_cycle_boundary arm
arm_cycle-IsSound deadline o s h = IsFree-IsSound (arm_cycle_boundary deadline o s) h tt

pub await_cycle_end-IsSound :
    (c : CycleRuntime) (o : Outside) (s : CoverScheduler)
    → IsFree s
    → IsSound (await_cycle_end c o s)
unfolding await_cycle_end
await_cycle_end-IsSound c o s h = elim (Bool-cases (leb o.now c.end_ms)) [
  | inl e ↦ rw (await_cycle_end, e) (arm_cycle-IsSound c.end_ms o s h)
  | inr e ↦ rw (await_cycle_end, e) (close-IsSound late_cleanup o s h.0)
]

pub arm_next-IsSound :
    (inclusive : Bool) (o : Outside) (s : CoverScheduler)
    → Books [] s
    → s.cycle ≡ none
    → IsSound (arm_next_boundary inclusive o s).0
unfolding arm_next_boundary arm_open_boundary arm
arm_next-IsSound inclusive o s h e =
    elim (Result-cases (next_cycle_boundary s.schedule o.now inclusive)) [
      | inl (deadline, at) ↦
          rw (at, arm_next_boundary) (closed-IsSound (arm_open_boundary deadline o s) h e)
      | inr (why, at) ↦ rw (at, arm_next_boundary) (closed-IsSound s h e)
    ]

-- A change of status keeps the books, by the lanes as they then are.
pub status-Books :
    (status : Status) (reason : Option Reason) (s : CoverScheduler)
    → Books (cycle_jobs s.cycle) s
    → Books (cycle_jobs (set_status status reason s).cycle) (set_status status reason s)
status-Books status reason s h =
    rw (set_status-cycle status reason s).0 (set_status-Books status reason s h)

pub suspend-IsSound :
    (reason : Reason) (o : Outside) (s : CoverScheduler)
    → IsSound s
    → IsSound (suspend reason o s).0
unfolding suspend disarm
suspend-IsSound reason o s h =
    elim (Bool-cases (same_status s.status stopped || same_status s.status suspended)) [
      | inl e ↦ rw (suspend, e) h
      | inr e ↦
          rw (suspend, e)
            (elim (Option-cases s'.cycle) [
              | inl closed ↦ rw (closed, suspend) (closed-IsSound s' (rw closed at books) closed)
              | inr (c, there) ↦
                  rw (there, suspend)
                    (await_cycle_end-IsSound c o (interrupt_cycle on_suspend s')
                      (interrupt-IsFree on_suspend s' books))
            ])
    ]
  where
    s' : CoverScheduler
    s' = set_status suspended (some reason) (disarm s)

    books : Books (cycle_jobs s'.cycle) s'
    books = status-Books suspended (some reason) (disarm s) h.books

-- The end of `degrade`.
reopen-IsSound :
    (o : Outside) (s : CoverScheduler)
    → Books [] s
    → s.cycle ≡ none
    → IsSound (if s.running then arm_next_boundary false o s else (s, ok tt)).0
reopen-IsSound o s h e =
    if-IsSound_pair s.running (arm_next_boundary false o s) (s, ok tt)
      (arm_next-IsSound false o s h e) (closed-IsSound s h e)

pub degrade-IsSound :
    (reason : Reason) (o : Outside) (s : CoverScheduler)
    → IsSound s
    → IsSound (degrade reason o s).0
unfolding degrade disarm
degrade-IsSound reason o s h =
    elim (Bool-cases (same_status s.status stopped || same_status s.status suspended)) [
      | inl e ↦ rw (degrade, e) h
      | inr e ↦
          rw (degrade, e)
            (elim (Option-cases s'.cycle) [
              | inl closed ↦ rw (closed, degrade) (reopen-IsSound o s' (rw closed at books) closed)
              | inr (c, there) ↦ elim (Bool-cases (leb o.now c.end_ms)) [
                | inl early ↦
                    rw (there, degrade) (rw early (arm_cycle-IsSound c.end_ms o interrupted free))
                | inr late ↦
                    let (closed_books, closed) = close-Books late_cleanup o interrupted free.0 in
                    rw (there, degrade)
                      (rw late (
                        reopen-IsSound o (close_current_cycle late_cleanup o interrupted).0
                          closed_books closed))
              ]
            ])
    ]
  where
    s' : CoverScheduler
    s' = set_status degraded (some reason) (disarm s)

    books : Books (cycle_jobs s'.cycle) s'
    books = status-Books degraded (some reason) (disarm s) h.books

    interrupted : CoverScheduler
    interrupted = interrupt_cycle reason s'

    free : IsFree interrupted
    free = interrupt-IsFree reason s' books

abbrev OkSound : Result CoverError CoverScheduler → Type 0
OkSound (ok s) = IsSound s
OkSound (err _) = Unit

open_cycle-OkSound :
    (boundary_ms generation : ℕ) (o : Outside) (s : CoverScheduler)
    → Books [] s
    → IsSound s
    → OkSound (open_cycle boundary_ms generation o s)
unfolding open_cycle
open_cycle-OkSound boundary_ms generation o s books h = if-OkSound closed (ok s) rest h (
    checked (cycle_index_at_boundary s.schedule boundary_ms)
      (not (is_safe_integer (boundary_ms + cycle_duration_ms s.schedule))))
  where
    closed : Bool
    closed =
        not (generation == s.generation)
        || (not s.running || (same_status s.status stopped || same_status s.status suspended))

    opened : Result CoverError ℤ → Bool → Result CoverError CoverScheduler
    opened index unsafe = do
      i ← index
      fail_if unsafe cycle_end_range
      ok (open_lanes_of_cycle i boundary_ms (boundary_ms + cycle_duration_ms s.schedule) o s)

    rest : Result CoverError CoverScheduler
    rest =
        opened (cycle_index_at_boundary s.schedule boundary_ms)
          (not (is_safe_integer (boundary_ms + cycle_duration_ms s.schedule)))

    checked : (index : Result CoverError ℤ) (unsafe : Bool) → OkSound (opened index unsafe)
    checked (ok i) false = open-IsSound i boundary_ms _ o s books
    checked (ok i) true = tt
    checked (err e) unsafe = tt

    if-OkSound :
        (b : Bool) (x y : Result CoverError CoverScheduler)
        → OkSound x
        → OkSound y
        → OkSound (if b then x else y)
    if-OkSound true x y p q = p
    if-OkSound false x y p q = q

pub open_cycle_or_suspend-IsSound :
    (boundary_ms generation : ℕ) (o : Outside) (s : CoverScheduler)
    → Books [] s
    → IsSound s
    → IsSound (open_cycle_or_suspend boundary_ms generation o s)
unfolding open_cycle_or_suspend
open_cycle_or_suspend-IsSound boundary_ms generation o s books h =
    caught (open_cycle boundary_ms generation o s)
      (open_cycle-OkSound boundary_ms generation o s books h)
  where
    caught :
        (r : Result CoverError CoverScheduler)
        → OkSound r
        → IsSound (elim r [ ok s' ↦ s' | err e ↦ (suspend boundary_handler_failed o s).0 ])
    caught (ok s') p = p
    caught (err e) p = suspend-IsSound boundary_handler_failed o s h

after_close-IsSound :
    (boundary_ms : ℕ) (clean : Bool) (o : Outside) (s : CoverScheduler)
    → Books [] s
    → s.cycle ≡ none
    → IsSound (after_close boundary_ms clean o s)
unfolding after_close
after_close-IsSound boundary_ms false o s h e =
    if-IsSound s'.running (arm_next_boundary false o s').0 s'
      (arm_next-IsSound false o s' books closed) (closed-IsSound s' books closed)
  where
    s' : CoverScheduler
    s' = if same_status s.status stopped then s else set_status degraded (some lane_close_failed) s

    still :
        (b : Bool)
        → Books [] (if b then s else set_status degraded (some lane_close_failed) s)
          × ((if b then s else set_status degraded (some lane_close_failed) s).cycle ≡ none)
    still true = (h, e)
    still false = (
      set_status-Books degraded (some lane_close_failed) s h,
      (set_status-cycle degraded (some lane_close_failed) s).0 ∙ e,
    )

    books : Books [] s'
    books = (still (same_status s.status stopped)).0

    closed : s'.cycle ≡ none
    closed = (still (same_status s.status stopped)).1
after_close-IsSound boundary_ms true o s h e =
    if-IsSound (not s.running || (same_status s.status stopped || same_status s.status suspended)) s
      (open_cycle_or_suspend boundary_ms s.generation o s) (closed-IsSound s h e)
      (open_cycle_or_suspend-IsSound boundary_ms s.generation o s h (closed-IsSound s h e))

pub handle_cycle_boundary-IsSound :
    (boundary_ms : ℕ) (o : Outside) (s : CoverScheduler)
    → IsSound s
    → IsSound (handle_cycle_boundary boundary_ms o s)
unfolding handle_cycle_boundary
handle_cycle_boundary-IsSound boundary_ms o s h = elim (Option-cases s.cycle) [
  | inl e ↦ rw (e, handle_cycle_boundary) h
  | inr (c, e) ↦ elim (Bool-cases (not (c.end_ms == boundary_ms))) [
    | inl other ↦ rw (e, handle_cycle_boundary) (rw other h)
    | inr due ↦
        let shut = close_current_cycle boundary o (finalize_cycle_jobs s) in
        let (books, closed) =
          close-Books boundary o (finalize_cycle_jobs s) (finalize-IsFree s h.books).0 in
        rw (e, handle_cycle_boundary)
          (rw due (after_close-IsSound boundary_ms shut.1 o shut.0 books closed))
  ]
]
