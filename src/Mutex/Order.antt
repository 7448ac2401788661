-- ===== src/Mutex/Order.antt =====
-- Mutual exclusion and order of the mutex of src/utils/mutex.ts, over calls of any number of clients.
use mathlib.Core.Path.{subst}
use mathlib.Core.List.{append-nil, append_assoc}
use p2party_js.Base.{
  ℕ, ◌+◌, ◌≡◌, refl, sym, ap, ◌∙◌, ◌⊎◌, inl, inr, Bool, true, false, Option-cases, Option, none,
  some, List, [], ◌∷◌, ◌++◌, length, if◌then◌else◌, arith, length-append,
}
use p2party_js.Mutex.{AsyncMutex, new_mutex, acquire, release, is_idle, when_idle}

pub data Event : Type 0 where
  acquires : ℕ → Event
  releases : Event
  waits : ℕ → Event

-- The mutex and the history of a run: who asked for the lock, to whom it was granted, how often it
-- was released, and who waited for idleness and was told of it.
pub record Run : Type 0 where
  pub mutex : AsyncMutex
  pub requested : List ℕ
  pub granted : List ℕ
  pub released : ℕ
  pub waiting : List ℕ
  pub told : List ℕ

abbrev pub begin : Run
begin = record {
  mutex = new_mutex;
  requested = [];
  granted = [];
  released = 0;
  waiting = [];
  told = [];
}

-- `next` is the resolver of an `acquire`; without one, those told are the waiters for idleness.
unfoldable pub released_by : Run → Run
unfolding release
released_by r =
    let (m, resolved) = release r.mutex in
    record r {
      mutex = m;
      granted = if m.locked then r.granted ++ resolved else r.granted;
      told = if m.locked then r.told else r.told ++ resolved;
      released = r.released + 1;
    }

-- A client releases the lock that it holds, as `runExclusive` does: a release of a free lock is no
-- step.
unfoldable pub step : Event → Run → Option Run
unfolding acquire released_by when_idle
step (acquires w) r =
    let (m, resolved) = acquire w r.mutex in
    some
      (record r { mutex = m; requested = r.requested ++ w ∷ []; granted = r.granted ++ resolved })
step releases r = elim r.mutex.locked [ false ↦ none | true ↦ some (released_by r) ]
step (waits w) r =
    let (m, resolved) = when_idle w r.mutex in
    some (record r { mutex = m; waiting = r.waiting ++ w ∷ []; told = r.told ++ resolved })

some-injective : {a b : Run} → ◌≡◌ {A = Option Run} (some a) (some b) → a ≡ b
some-injective e = cc

unfoldable pub run : List Event → Run → Option Run
unfolding step
run [] r = some r
run (e ∷ events) r = elim (step e r) [ none ↦ none | some r' ↦ run events r' ]

-- The lock was granted in the order of the requests, those that are not granted wait; there is one
-- grant more than there are releases while the lock is held, and none more otherwise; everyone who
-- waited for idleness was told or waits; and nobody waits for a free lock.
pub record IsFair (r : Run) : Type 0 where
  pub in_order : r.granted ++ r.mutex.queue ≡ r.requested
  pub exclusive : length r.granted ≡ r.released + (if r.mutex.locked then 1 else 0)
  pub all_told : r.told ++ r.mutex.idle_waiters ≡ r.waiting
  pub none_stranded : (r.mutex.locked ≡ true) ⊎ (r.mutex.queue ≡ []) × (r.mutex.idle_waiters ≡ [])

-- A run by its parts.
abbrev parts : List ℕ → Bool → List ℕ → List ℕ → List ℕ → ℕ → List ℕ → List ℕ → Run
parts queue locked idle requested granted released waiting told = record {
  mutex = record { queue = queue; locked = locked; idle_waiters = idle };
  requested = requested;
  granted = granted;
  released = released;
  waiting = waiting;
  told = told;
}

module _ (idle requested granted : List ℕ) (released : ℕ) (waiting told : List ℕ) where
  -- Nobody waits for a free lock.
  nobody :
      {queue : List ℕ}
      → IsFair (parts queue false idle requested granted released waiting told)
      → (queue ≡ []) × (idle ≡ [])
  nobody f = elim f.none_stranded [ inl held ↦ cc | inr free ↦ free ]

  acquires-IsFair :
      (queue : List ℕ) (locked : Bool) (w : ℕ) (r' : Run)
      → IsFair (parts queue locked idle requested granted released waiting told)
      → step (acquires w) (parts queue locked idle requested granted released waiting told)
        ≡ some r'
      → IsFair r'
  unfolding step acquire
  acquires-IsFair queue true w r' f e = subst IsFair (some-injective e) (record {
    in_order =
        ap (λ t. t ++ (queue ++ w ∷ [])) (append-nil granted)
        ∙ sym (append_assoc granted queue (w ∷ []))
        ∙ ap (λ t. t ++ w ∷ []) f.in_order;
    exclusive = omega (arith, ap length (append-nil granted), f.exclusive);
    all_told = f.all_told;
    none_stranded = inl refl;
  })
  acquires-IsFair queue false w r' f e = subst IsFair (some-injective e) (record {
    in_order =
        ap (◌++◌ (granted ++ w ∷ [])) (nobody f).0
        ∙ append-nil (granted ++ w ∷ [])
        ∙ ap (λ t. t ++ w ∷ [])
            (sym (append-nil granted) ∙ ap (◌++◌ granted) (sym (nobody f).0) ∙ f.in_order);
    exclusive = omega (arith, length-append granted (w ∷ []), f.exclusive);
    all_told = f.all_told;
    none_stranded = inl refl;
  })

  releases-IsFair :
      (queue : List ℕ) (locked : Bool) (r' : Run)
      → IsFair (parts queue locked idle requested granted released waiting told)
      → step releases (parts queue locked idle requested granted released waiting told) ≡ some r'
      → IsFair r'
  unfolding step released_by release
  releases-IsFair queue false r' f e = cc
  releases-IsFair [] true r' f e = subst IsFair (some-injective e) (record {
    in_order = f.in_order;
    exclusive = omega (arith, f.exclusive);
    all_told = append-nil (told ++ idle) ∙ f.all_told;
    none_stranded = inr (refl, refl);
  })
  releases-IsFair (next ∷ queue) true r' f e = subst IsFair (some-injective e) (record {
    in_order = append_assoc granted (next ∷ []) queue ∙ f.in_order;
    exclusive = omega (arith, length-append granted (next ∷ []), f.exclusive);
    all_told = f.all_told;
    none_stranded = inl refl;
  })

  waits-IsFair :
      (queue : List ℕ) (locked : Bool) (w : ℕ) (r' : Run)
      → IsFair (parts queue locked idle requested granted released waiting told)
      → step (waits w) (parts queue locked idle requested granted released waiting told) ≡ some r'
      → IsFair r'
  unfolding step when_idle is_idle
  waits-IsFair queue true w r' f e = subst IsFair (some-injective e) (record {
    in_order = f.in_order;
    exclusive = f.exclusive;
    all_told =
        ap (λ t. t ++ (idle ++ w ∷ [])) (append-nil told)
        ∙ sym (append_assoc told idle (w ∷ []))
        ∙ ap (λ t. t ++ w ∷ []) f.all_told;
    none_stranded = inl refl;
  })
  waits-IsFair [] false w r' f e = subst IsFair (some-injective e) (record {
    in_order = f.in_order;
    exclusive = f.exclusive;
    all_told =
        ap (◌++◌ (told ++ w ∷ [])) (nobody f).1
        ∙ append-nil (told ++ w ∷ [])
        ∙ ap (λ t. t ++ w ∷ [])
            (sym (append-nil told) ∙ ap (◌++◌ told) (sym (nobody f).1) ∙ f.all_told);
    none_stranded = inr (refl, (nobody f).1);
  })
  waits-IsFair (q ∷ queue) false w r' f e = absurd (cons_is_not-nil (nobody f).0)
    where
      cons_is_not-nil : ¬ (q ∷ queue ≡ [])
      cons_is_not-nil h = cc

-- Each step keeps the history fair.
step-IsFair : (e : Event) (r r' : Run) → IsFair r → step e r ≡ some r' → IsFair r'
step-IsFair (acquires w) r r' f e =
    acquires-IsFair r.mutex.idle_waiters r.requested r.granted r.released r.waiting r.told
      r.mutex.queue r.mutex.locked w r' f e
step-IsFair releases r r' f e =
    releases-IsFair r.mutex.idle_waiters r.requested r.granted r.released r.waiting r.told
      r.mutex.queue r.mutex.locked r' f e
step-IsFair (waits w) r r' f e =
    waits-IsFair r.mutex.idle_waiters r.requested r.granted r.released r.waiting r.told
      r.mutex.queue r.mutex.locked w r' f e

run-IsFair_from : (events : List Event) (r r' : Run) → IsFair r → run events r ≡ some r' → IsFair r'
unfolding run
run-IsFair_from [] r r' f e = subst IsFair (some-injective e) f
run-IsFair_from (event ∷ events) r r' f e = elim (Option-cases (step event r)) [
  | inl stuck ↦ absurd (none_is_not-some (rw (stuck, run) at e))
  | inr (r1, went) ↦
      run-IsFair_from events r1 r' (step-IsFair event r r1 f went) (rw (went, run) at e)
]
  where
    none_is_not-some : ¬ (◌≡◌ {A = Option Run} none (some r'))
    none_is_not-some h = cc

-- Whatever calls of `acquire`, `release` and `whenIdle` follow on a new mutex, in any order, if the
-- lock is released only while it is held: the lock was granted in the order of the requests, and the
-- others wait; there is one grant more than there are releases while the lock is held, and none more
-- otherwise; everyone who waited for idleness was told, in that order, or waits; and nobody waits for
-- a free lock.
pub run-IsFair : (events : List Event) (r : Run) → run events begin ≡ some r → IsFair r
run-IsFair events r e = run-IsFair_from events begin r begin-IsFair e
  where
    begin-IsFair : IsFair begin
    begin-IsFair = record {
      in_order = refl;
      exclusive = refl;
      all_told = refl;
      none_stranded = inr (refl, refl);
    }
