-- ===== src/PqHealing/Examples/Histories.antt =====
-- A machine, its clone, and the adoption of the clone, before an OFFER is prepared.
use p2party_js.Base.{ℕ, ◌≡◌, ◌⊎◌, refl, true, false, ap, ok}
use p2party_js.PqHealing.Ownership.{adopt}
use p2party_js.PqHealing.Session.{Session, Event, step}
use p2party_js.PqHealing.Session.Invariant.{IsSound}
use p2party_js.PqHealing.Session.Adoption.{adopt-IsCalm}
use p2party_js.PqHealing.Session.Checkpoints.{clone-eq}
use p2party_js.PqHealing.Session.Lockstep.{IsAhead}
use p2party_js.PqHealing.Session.Histories.{
  IsNew, constructed, Reached, begun, called, cloned, adopted, Reached-IsSound, Reached-IsAhead,
}
use p2party_js.PqHealing.Examples.Sessions.{toy_crypto, options, fresh, fresh_is_new}
use p2party_js.PqHealing.Examples.Phases.{start, start-IsSound, fresh-IsCalm}

-- The session that adopted its clone.
abbrev renewed : Session
renewed = record start { machine = (adopt false fresh fresh).0 }

adopts : (adopt false fresh fresh).2 ≡ ok tt
adopts = ap (λ r. r.2) (adopt-IsCalm fresh fresh fresh-IsCalm fresh-IsCalm refl refl).0

story :
    (Begins : Session → Type 0)
    → Begins start
    → Reached toy_crypto Begins fresh (step toy_crypto Event.prepares_offer renewed)
story Begins new =
    called (adopted (begun new) (cloned (begun new) (clone-eq fresh fresh-IsCalm)) refl adopts)
      Event.prepares_offer

Reached-IsSound_example : IsSound (step toy_crypto Event.prepares_offer renewed)
Reached-IsSound_example =
    Reached-IsSound toy_crypto fresh (step toy_crypto Event.prepares_offer renewed)
      (story IsNew (constructed options fresh_is_new))

Reached-IsAhead_example :
    ((step toy_crypto Event.prepares_offer renewed).machine.is_destroyed ≡ true)
    ⊎ ((n : ℕ) × IsAhead n fresh (step toy_crypto Event.prepares_offer renewed).machine)
Reached-IsAhead_example =
    Reached-IsAhead toy_crypto fresh (step toy_crypto Event.prepares_offer renewed)
      (story IsSound start-IsSound)
