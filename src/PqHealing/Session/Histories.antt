-- ===== src/PqHealing/Session/Histories.antt =====
-- Histories of machines of src/cryptography/pqHealing.ts: calls and replies, clones, and adoption of
-- one machine by another, in any order.
use mathlib.Core.Path.{subst}
use p2party_js.Base.{
  ℕ, ◌+◌, ◌≡◌, ◌⊎◌, refl, sym, ap, ◌∙◌, true, false, not, ◌||◌, ◌==◌, inl, inr, arith, ok, err,
  >>=-eq_ok, ok-injective, neither, of_not, Result-cases,
}
use p2party_js.Bytes.{bytes_equal}
use p2party_js.Bytes.Laws.{bytes_equal_iff}
use p2party_js.LibCrypto.{LibCrypto}
use p2party_js.PqHealing.Record.{Healing, PqHealingError, invalid_state}
use p2party_js.PqHealing.Machine.{Machine, MachineOptions, new_machine}
use p2party_js.PqHealing.Snapshot.{clone, snapshot}
use p2party_js.PqHealing.Ownership.{adopt, check_adopt, successor, consumed}
use p2party_js.PqHealing.Session.{Session, Event, nothing, step}
use p2party_js.PqHealing.Session.Invariant.{IsSound, IsHeld}
use p2party_js.PqHealing.Session.Calls.{quiet}
use p2party_js.PqHealing.Session.Guards.{fail_if-past, assert_synchronous-past}
use p2party_js.PqHealing.Session.Birth.{new_machine-IsCalm}
use p2party_js.PqHealing.Session.Soundness.{step-IsSound}
use p2party_js.PqHealing.Session.Checkpoints.{clone-eq}
use p2party_js.PqHealing.Session.Adoption.{adopt-IsCalm}
use p2party_js.PqHealing.Session.Lockstep.{IsAhead, step-IsMove, step-destroyed, move-IsAhead}

-- A machine that awaits nothing, as its constructor returns it.
pub data IsNew : Session → Type 0 where
  constructed :
      {m : Machine} (options : MachineOptions)
      → new_machine options ≡ ok m
      → IsNew (record { machine = m; pending = nothing })

-- The sessions that come about from those that `Begins` admits, each with the machine with which the
-- history of its state began: of an adopted machine, the one from which its successor comes.
pub data Reached (c : LibCrypto) (Begins : Session → Type 0) : Machine → Session → Type 0 where
  begun : {s : Session} → Begins s → Reached c Begins s.machine s
  called :
      {origin : Machine} {s : Session}
      → Reached c Begins origin s
      → (e : Event) → Reached c Begins origin (step c e s)
  cloned :
      {origin m : Machine} {s : Session}
      → Reached c Begins origin s
      → clone s.machine ≡ ok m
      → Reached c Begins origin (record { machine = m; pending = nothing })
  adopted :
      {origin origin' : Machine} {live next : Session}
      → Reached c Begins origin live
      → Reached c Begins origin' next
      → live.machine.suite ≡ next.machine.suite
      → (adopt false live.machine next.machine).2 ≡ ok tt
      → Reached c Begins origin'
          (record live { machine = (adopt false live.machine next.machine).0 })
  refused :
      {origin origin' : Machine} {live next : Session} {e : PqHealingError}
      → Reached c Begins origin live
      → Reached c Begins origin' next
      → (adopt false live.machine next.machine).2 ≡ err e
      → Reached c Begins origin
          (record live { machine = (adopt false live.machine next.machine).0 })
  given_up :
      {origin origin' : Machine} {live next : Session}
      → Reached c Begins origin live
      → Reached c Begins origin' next
      → Reached c Begins origin'
          (record next { machine = (adopt false live.machine next.machine).1 })

abbrev Adoption : Type 0
Adoption = Machine × Machine × Healing (Unit {0})

-- Sound, and destroyed or so many exchanges ahead.
abbrev IsFine : Machine → Session → Type 0
IsFine origin s =
    IsSound s × ((s.machine.is_destroyed ≡ true) ⊎ ((n : ℕ) × IsAhead n origin s.machine))

begun-IsFine : (s : Session) → IsSound s → IsFine s.machine s
begun-IsFine s sound = (sound, inr (0, (omega arith, omega arith, omega arith)))

step-IsFine :
    (c : LibCrypto) (origin : Machine) (s : Session) (e : Event)
    → IsFine origin s
    → IsFine origin (step c e s)
step-IsFine c origin s e (sound, inl gone) =
    (step-IsSound c e s sound, inl (step-destroyed c e s sound gone))
step-IsFine c origin s e (sound, inr (n, here)) = (
  step-IsSound c e s sound,
  elim (step-IsMove c e s sound) [
    | inl gone ↦ inl gone
    | inr move ↦
        let (k, there) = move-IsAhead s.machine (step c e s).machine move in
        inr (
          n + k,
          (
            omega (arith, here.0, there.0),
            omega (arith, here.1, there.1),
            omega (arith, here.2, there.2),
          ),
        )
  ],
)

-- Only a machine that awaits nothing and is not destroyed has a clone: the same machine.
clone-IsFine :
    (origin m : Machine) (s : Session)
    → IsFine origin s
    → clone s.machine ≡ ok m
    → IsFine origin (record { machine = m; pending = nothing })
unfolding clone snapshot
clone-IsFine origin m s (sound, ahead) e =
    let (value, taken, restored) = >>=-eq_ok (snapshot s.machine) _ e in
    let (active, idle, rest) = assert_synchronous-past s.machine taken in
    let calm = (quiet s.machine s.pending sound active idle).0 in
    let same : s.machine ≡ m = ok-injective (sym (clone-eq s.machine calm) ∙ e) in
    subst (λ x. IsFine origin (record { machine = x; pending = nothing })) same
      (inr (record { active = active; valid = calm.2; held = idle }), ahead)

-- Both machines are active and await nothing, and they are of one edge.
check_adopt-past :
    (live next : Machine)
    → check_adopt false live next ≡ ok tt
    → (live.is_destroyed ≡ false)
      × (live.busy ≡ false)
      × (next.is_destroyed ≡ false)
      × (next.busy ≡ false)
      × (live.binding ≡ next.binding)
unfolding check_adopt
check_adopt-past live next e =
    let (active, idle, e1) = assert_synchronous-past live e in
    let (active', idle', e2) = assert_synchronous-past next e1 in
    let differ =
      fail_if-past
        (not (live.suite.parameter_set == next.suite.parameter_set)
          || not (bytes_equal live.binding next.binding))
        invalid_state e2 in
    let (_, edge) =
      neither (not (live.suite.parameter_set == next.suite.parameter_set))
        (not (bytes_equal live.binding next.binding)) differ.0 in
    (
      active,
      idle,
      active',
      idle',
      (bytes_equal_iff live.binding next.binding).0
          (of_not (bytes_equal live.binding next.binding) edge),
    )

-- An adoption that is refused changes nothing; one that is not passed the check.
adopt-cases :
    (live next : Machine)
    → ((check_adopt false live next ≡ ok tt)
        × (adopt false live next ≡ (successor live next, consumed next, ok tt)))
      ⊎ ((e : PqHealingError) × (adopt false live next ≡ (live, next, err e)))
unfolding adopt
adopt-cases live next = elim (Result-cases (check_adopt false live next)) [
  | inl (_, h) ↦ inl (h, rw (h, adopt) refl)
  | inr (e, h) ↦ inr (e, rw (h, adopt) refl)
]

refused-IsFine :
    (origin : Machine) (live next : Session) (e : PqHealingError)
    → IsFine origin live
    → (adopt false live.machine next.machine).2 ≡ err e
    → IsFine origin (record live { machine = (adopt false live.machine next.machine).0 })
refused-IsFine origin live next e fine refusal = elim (adopt-cases live.machine next.machine) [
  | inl (_, h) ↦ let success = sym (ap (λ (r : Adoption). r.2) h) ∙ refusal in cc
  | inr (_, h) ↦
      subst (λ x. IsFine origin (record live { machine = x })) (sym (ap (λ (r : Adoption). r.0) h))
        fine
]

given_up-IsFine :
    (origin : Machine) (live next : Session)
    → IsFine origin next
    → IsFine origin (record next { machine = (adopt false live.machine next.machine).1 })
unfolding consumed
given_up-IsFine origin live next fine = elim (adopt-cases live.machine next.machine) [
  | inl (_, h) ↦ let gone = ap (λ (r : Adoption). r.1.is_destroyed) h in (inl gone, inl gone)
  | inr (_, h) ↦
      subst (λ x. IsFine origin (record next { machine = x })) (sym (ap (λ (r : Adoption). r.1) h))
        fine
]

adopted-IsFine :
    (origin origin' : Machine) (live next : Session)
    → IsFine origin live
    → IsFine origin' next
    → live.machine.suite ≡ next.machine.suite
    → (adopt false live.machine next.machine).2 ≡ ok tt
    → IsFine origin' (record live { machine = (adopt false live.machine next.machine).0 })
adopted-IsFine origin origin' live next (sound, _) (sound', ahead) same success =
    elim (adopt-cases live.machine next.machine) [
      | inr (_, h) ↦ let refusal = sym (ap (λ (r : Adoption). r.2) h) ∙ success in cc
      | inl (passed, _) ↦
          let (active, idle, active', idle', edge) =
            check_adopt-past live.machine next.machine passed in
          let (calm, quietly) = quiet live.machine live.pending sound active idle in
          let (calm', _) = quiet next.machine next.pending sound' active' idle' in
          let (h, _, _) = adopt-IsCalm live.machine next.machine calm calm' same edge in
          subst (λ x. IsFine origin' (record live { machine = x }))
            (sym (ap (λ (r : Adoption). r.0) h))
            (
              inr (record {
                active = active';
                valid = calm'.2;
                held = subst (IsHeld next.machine) (sym quietly) idle';
              }),
              ahead,
            )
    ]

Reached-IsFine :
    (c : LibCrypto) (Begins : Session → Type 0) {origin : Machine} {s : Session}
    → ((s : Session) → Begins s → IsSound s)
    → Reached c Begins origin s
    → IsFine origin s
Reached-IsFine c Begins begins (begun {s = s} b) = begun-IsFine s (begins s b)
Reached-IsFine c Begins begins (called {origin = o} {s = s} r e) =
    step-IsFine c o s e (Reached-IsFine c Begins begins r)
Reached-IsFine c Begins begins (cloned {origin = o} {m = m} {s = s} r e) =
    clone-IsFine o m s (Reached-IsFine c Begins begins r) e
Reached-IsFine c Begins begins
      (adopted {origin = o} {origin' = o'} {live = l} {next = n} r r' same e) =
    adopted-IsFine o o' l n (Reached-IsFine c Begins begins r) (Reached-IsFine c Begins begins r')
      same e
Reached-IsFine c Begins begins (refused {origin = o} {live = l} {next = n} {e = e} r r' refusal) =
    refused-IsFine o l n e (Reached-IsFine c Begins begins r) refusal
Reached-IsFine c Begins begins (given_up {origin' = o'} {live = l} {next = n} r r') =
    given_up-IsFine o' l n (Reached-IsFine c Begins begins r')

IsNew-IsSound : (s : Session) → IsNew s → IsSound s
IsNew-IsSound _ (constructed {m = m} options e) =
    let (active, idle, valid) = new_machine-IsCalm options m e in
    inr (record { active = active; valid = valid; held = idle })

-- Whatever calls, replies, clones and adoptions among such machines follow the construction of new
-- machines, none of which is restored from a stored checkpoint, in whatever order, each session is
-- sound: unless it is destroyed, binding and root are 32 bytes, the counters fit 64 bits, the
-- records of its phase decode under its edge and carry its epoch and counters on the right turn,
-- the last inbound records were consumed, and the machine is busy just when a promise is awaited
-- whose captured values still match the phase. A machine adopts only one that has its suite
-- descriptor.
pub Reached-IsSound :
    (c : LibCrypto) (origin : Machine) (s : Session) → Reached c IsNew origin s → IsSound s
Reached-IsSound c origin s r = (Reached-IsFine c IsNew IsNew-IsSound r).0

-- However calls, replies, clones and adoptions of machines with one suite descriptor interleave from
-- sound sessions, a machine that is not destroyed at the end is some number of whole exchanges ahead
-- of the one with which the history of its state began, which after an adoption is that of its
-- successor: its epoch and both its counters have grown by that number.
pub Reached-IsAhead :
    (c : LibCrypto) (origin : Machine) (s : Session)
    → Reached c IsSound origin s
    → (s.machine.is_destroyed ≡ true) ⊎ ((n : ℕ) × IsAhead n origin s.machine)
Reached-IsAhead c origin s r = (Reached-IsFine c IsSound (λ _ h. h) r).1
