-- ===== src/PqHealing/Session.antt =====
-- A machine together with the promises that it awaits: every call that moves the exchange, `destroy`
-- and every reply of the ML-KEM backend, as events. A call made while another is in flight finds the
-- machine busy; `destroy` may come at any time. `clone` and `adopt`, which concern two machines, join
-- the events in Histories.
pub mod Invariant
pub mod Guards
pub mod Calls
pub mod Commits
pub mod Awaits
pub mod Soundness
pub mod Birth
pub mod Histories
pub mod Chain
pub mod Lockstep
pub mod Refusals
pub mod Acceptance
pub mod Agreement
pub mod Adoption
pub mod Checkpoints
use p2party_js.Base.{ℕ, Bool, Option, none, some, List, [], ◌∷◌, Result, ok, err}
use p2party_js.LibCrypto.{LibCrypto}
use p2party_js.PqHealing.Codec.{Acknowledgement, DecodedOffer}
use p2party_js.PqHealing.Machine.{Machine, Encapsulation, Outcome}
use p2party_js.PqHealing.Offering.{
  AcceptedAdvance, prepare_offer_begin, prepare_offer_resume, mark_offer_dispatched,
  abort_unsent_offer, accept_authenticated_advance_begin, accept_authenticated_advance_resume,
  commit_accepted_advance, mark_advance_acknowledgement_dispatched,
}
use p2party_js.PqHealing.Answering.{
  accept_authenticated_offer, prepare_advance_begin, prepare_advance_resume,
  commit_prepared_advance, accept_authenticated_advance_acknowledgement,
}
use p2party_js.PqHealing.Ownership.{destroy}

-- The `async` method in flight, with what it holds across its `await`.
pub data Pending : Type 0 where
  nothing offering : Pending
  answering : DecodedOffer → Pending
  accepting : AcceptedAdvance → Pending

pub record Session : Type 0 where
  pub machine : Machine
  pub pending : Pending

pub data Event : Type 0 where
  prepares_offer marks_offer aborts_offer prepares_advance commits_prepared commits_accepted : Event
  destroys : Event
  accepts_offer accepts_advance : List ℕ → Event
  accepts_ack marks_ack : Acknowledgement → Event
  generated : Option (List ℕ × List ℕ) → Event
  encapsulated : Option Encapsulation → Event
  decapsulated : Option (List ℕ) → Event

-- The machine of a call without an `await`.
abbrev pub after : {A : Type 0} → Pending → Outcome A → Session
after pending (m, r) = record { machine = m; pending = pending }

-- The session after the first part of an `async` method: in flight unless it threw.
abbrev pub launch : {A : Type 0} → Pending → (A → Pending) → Outcome A → Session
launch pending held (m, ok a) = record { machine = m; pending = held a }
launch pending held (m, err e) = record { machine = m; pending = pending }

-- A reply that is not awaited does not come.
unfoldable pub reply_generated : Option (List ℕ × List ℕ) → Pending → Machine → Session
reply_generated r offering m = after nothing (prepare_offer_resume r m)
reply_generated r pending m = record { machine = m; pending = pending }

unfoldable pub reply_encapsulated : LibCrypto → Option Encapsulation → Pending → Machine → Session
reply_encapsulated c r (answering offer) m = after nothing (prepare_advance_resume c offer r m)
reply_encapsulated c r pending m = record { machine = m; pending = pending }

unfoldable pub reply_decapsulated : LibCrypto → Option (List ℕ) → Pending → Machine → Session
reply_decapsulated c r (accepting held) m =
    after nothing (accept_authenticated_advance_resume c held r m)
reply_decapsulated c r pending m = record { machine = m; pending = pending }

unfoldable pub step : LibCrypto → Event → Session → Session
unfolding reply_generated reply_encapsulated reply_decapsulated
step c prepares_offer s = launch s.pending (λ _. offering) (prepare_offer_begin s.machine)
step c marks_offer s = after s.pending (mark_offer_dispatched s.machine)
step c aborts_offer s = after s.pending (abort_unsent_offer s.machine)
step c prepares_advance s = launch s.pending answering (prepare_advance_begin s.machine)
step c commits_prepared s = after s.pending (commit_prepared_advance s.machine)
step c commits_accepted s = after s.pending (commit_accepted_advance s.machine)
step c destroys s = record s { machine = destroy s.machine }
step c (accepts_offer rec) s = after s.pending (accept_authenticated_offer rec s.machine)
step c (accepts_advance rec) s =
    launch s.pending accepting (accept_authenticated_advance_begin rec s.machine)
step c (accepts_ack ack) s =
    after s.pending (accept_authenticated_advance_acknowledgement ack s.machine)
step c (marks_ack ack) s = after s.pending (mark_advance_acknowledgement_dispatched ack s.machine)
step c (generated r) s = reply_generated r s.pending s.machine
step c (encapsulated r) s = reply_encapsulated c r s.pending s.machine
step c (decapsulated r) s = reply_decapsulated c r s.pending s.machine
