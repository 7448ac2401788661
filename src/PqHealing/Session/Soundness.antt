-- ===== src/PqHealing/Session/Soundness.antt =====
-- The invariant of a session over the events of src/cryptography/pqHealing.ts.
use p2party_js.Base.{ℕ, ◌≡◌, inl, inr, true, Option, List, Bool-cases}
use p2party_js.LibCrypto.{LibCrypto}
use p2party_js.PqHealing.Machine.{Machine, Encapsulation}
use p2party_js.PqHealing.Ownership.{destroy}
use p2party_js.PqHealing.Session.{
  Session, Pending, Event, nothing, offering, answering, accepting, step, reply_generated,
  reply_encapsulated, reply_decapsulated,
}
use p2party_js.PqHealing.Session.Invariant.{IsSound}
use p2party_js.PqHealing.Session.Calls.{session}
use p2party_js.PqHealing.Session.Calls.{
  mark_offer_dispatched-IsSound, abort_unsent_offer-IsSound, accept_authenticated_offer-IsSound,
  accept_authenticated_advance_acknowledgement-IsSound,
  mark_advance_acknowledgement_dispatched-IsSound,
}
use p2party_js.PqHealing.Session.Commits.{
  commit_prepared_advance-IsSound, commit_accepted_advance-IsSound,
}
use p2party_js.PqHealing.Session.Awaits.{
  prepare_offer_begin-IsSound, prepare_advance_begin-IsSound,
  accept_authenticated_advance_begin-IsSound, prepare_offer_resume-IsSound,
  prepare_advance_resume-IsSound, accept_authenticated_advance_resume-IsSound,
}

destroy-is_destroyed : (m : Machine) → (destroy m).is_destroyed ≡ true
unfolding destroy
destroy-is_destroyed m = elim (Bool-cases m.is_destroyed) [
  | inl gone ↦ rw gone
  | inr active ↦ rw active
]

reply_generated-IsSound :
    (r : Option (List ℕ × List ℕ)) (p : Pending) (m : Machine)
    → IsSound (session m p)
    → IsSound (reply_generated r p m)
unfolding reply_generated
reply_generated-IsSound r nothing m h = h
reply_generated-IsSound r offering m h = prepare_offer_resume-IsSound r m h
reply_generated-IsSound r (answering o) m h = h
reply_generated-IsSound r (accepting held) m h = h

reply_encapsulated-IsSound :
    (c : LibCrypto) (r : Option Encapsulation) (p : Pending) (m : Machine)
    → IsSound (session m p)
    → IsSound (reply_encapsulated c r p m)
unfolding reply_encapsulated
reply_encapsulated-IsSound c r nothing m h = h
reply_encapsulated-IsSound c r offering m h = h
reply_encapsulated-IsSound c r (answering o) m h = prepare_advance_resume-IsSound c o r m h
reply_encapsulated-IsSound c r (accepting held) m h = h

reply_decapsulated-IsSound :
    (c : LibCrypto) (r : Option (List ℕ)) (p : Pending) (m : Machine)
    → IsSound (session m p)
    → IsSound (reply_decapsulated c r p m)
unfolding reply_decapsulated
reply_decapsulated-IsSound c r nothing m h = h
reply_decapsulated-IsSound c r offering m h = h
reply_decapsulated-IsSound c r (answering o) m h = h
reply_decapsulated-IsSound c r (accepting held) m h =
    accept_authenticated_advance_resume-IsSound c held r m h

-- Whatever call or reply comes next, a sound session stays sound: unless it is destroyed, the
-- machine keeps its 32-byte binding and root, 64-bit counters, a phase whose records decode under
-- this edge and carry the machine's epoch and counters on the right turn, consumed last records,
-- and is busy just when a promise is awaited whose captured values still match the phase.
pub step-IsSound : (c : LibCrypto) (e : Event) (s : Session) → IsSound s → IsSound (step c e s)
unfolding step
step-IsSound c Event.prepares_offer s h = prepare_offer_begin-IsSound s.machine s.pending h
step-IsSound c Event.marks_offer s h = mark_offer_dispatched-IsSound s.machine s.pending h
step-IsSound c Event.aborts_offer s h = abort_unsent_offer-IsSound s.machine s.pending h
step-IsSound c Event.prepares_advance s h = prepare_advance_begin-IsSound s.machine s.pending h
step-IsSound c Event.commits_prepared s h = commit_prepared_advance-IsSound s.machine s.pending h
step-IsSound c Event.commits_accepted s h = commit_accepted_advance-IsSound s.machine s.pending h
step-IsSound c Event.destroys s h = inl (destroy-is_destroyed s.machine)
step-IsSound c (Event.accepts_offer rec) s h =
    accept_authenticated_offer-IsSound rec s.machine s.pending h
step-IsSound c (Event.accepts_advance rec) s h =
    accept_authenticated_advance_begin-IsSound rec s.machine s.pending h
step-IsSound c (Event.accepts_ack ack) s h =
    accept_authenticated_advance_acknowledgement-IsSound ack s.machine s.pending h
step-IsSound c (Event.marks_ack ack) s h =
    mark_advance_acknowledgement_dispatched-IsSound ack s.machine s.pending h
step-IsSound c (Event.generated r) s h = reply_generated-IsSound r s.pending s.machine h
step-IsSound c (Event.encapsulated r) s h = reply_encapsulated-IsSound c r s.pending s.machine h
step-IsSound c (Event.decapsulated r) s h = reply_decapsulated-IsSound c r s.pending s.machine h
