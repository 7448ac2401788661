-- ===== src/PqHealing/Examples/Phases.antt =====
-- Machines of the edge in several phases.
use p2party_js.Base.{◌≢◌, some, ◌≡◌, ◌⊎◌, refl, inr, true, false, replicate, arith, ok, err}
use p2party_js.PqHealing.Record.{PqHealingError, replay, fork, invalid_state}
use p2party_js.PqHealing.Machine.{Machine, Phase, KeyPair}
use p2party_js.PqHealing.Offering.{accept_authenticated_advance_begin}
use p2party_js.PqHealing.Answering.{accept_authenticated_offer}
use p2party_js.PqHealing.Snapshot.{clone}
use p2party_js.PqHealing.Session.{Session, Event, nothing, step}
use p2party_js.PqHealing.Session.Invariant.{IsSound}
use p2party_js.PqHealing.Session.Calls.{IsCalm, rephased}
use p2party_js.PqHealing.Session.Birth.{new_machine-IsCalm}
use p2party_js.PqHealing.Session.Chain.{IsMove}
use p2party_js.PqHealing.Session.Lockstep.{step-IsMove}
use p2party_js.PqHealing.Ownership.{adopt, consumed}
use p2party_js.PqHealing.Session.Adoption.{adopt-IsCalm}
use p2party_js.PqHealing.Session.Checkpoints.{clone-eq}
use p2party_js.PqHealing.Session.Refusals.{
  committed, acknowledged, Refuses, destroyed-Refuses, busy-Refuses,
  accept_authenticated_offer-known, accept_authenticated_advance_begin-known,
}
use p2party_js.PqHealing.Examples.Records.{
  offer_bytes, sample_offer, offer_decodes, advance_bytes, sample_advance, advance_decodes,
}
use p2party_js.PqHealing.Examples.Sessions.{toy_crypto, options, fresh, fresh_is_new}

pub fresh-IsCalm : IsCalm fresh
fresh-IsCalm = new_machine-IsCalm options fresh fresh_is_new

abbrev pub start : Session
start = record { machine = fresh; pending = nothing }

pub start-IsSound : IsSound start
start-IsSound = inr (record { active = refl; valid = fresh-IsCalm.2; held = refl })

abbrev pub key_pair : KeyPair
key_pair = record { public_key = replicate 800 9; secret_key = replicate 1632 3; wiped = false }

-- The offerer behind the dispatch of its OFFER.
abbrev pub offered : Machine
offered = record fresh { phase = Phase.outbound_offer true sample_offer key_pair }

pub offered-IsCalm : IsCalm offered
offered-IsCalm =
    rephased fresh (Phase.outbound_offer true sample_offer key_pair) fresh-IsCalm
      (offer_decodes, (refl, refl, refl), refl, refl, refl, (omega arith, omega arith, omega arith))

step-IsMove_example :
    ((step toy_crypto Event.prepares_offer start).machine.is_destroyed ≡ true)
    ⊎ IsMove fresh (step toy_crypto Event.prepares_offer start).machine
step-IsMove_example = step-IsMove toy_crypto Event.prepares_offer start start-IsSound

clone-eq_example : clone offered ≡ ok offered
clone-eq_example = clone-eq offered offered-IsCalm

-- The answerer that waits for the acknowledgement of its ADVANCE.
abbrev awaiting : Machine
awaiting = record fresh {
  phase = Phase.outbound_advance_awaiting_ack sample_offer sample_advance;
  last_inbound_offer = some sample_offer;
}

accept_authenticated_offer-known_example :
    ((offer_bytes ≡ offer_bytes)
      × (accept_authenticated_offer offer_bytes awaiting ≡ (awaiting, err replay)))
    ⊎ ((offer_bytes ≢ offer_bytes)
        × (accept_authenticated_offer offer_bytes awaiting ≡ (awaiting, err fork)))
accept_authenticated_offer-known_example =
    accept_authenticated_offer-known awaiting offer_bytes sample_offer sample_offer refl refl
      offer_decodes committed refl refl refl

abbrev acknowledging : Machine
acknowledging = record fresh { phase = Phase.inbound_advance_awaiting_ack_dispatch sample_advance }

accept_authenticated_advance_begin-known_example :
    ((advance_bytes ≡ advance_bytes)
      × (accept_authenticated_advance_begin advance_bytes acknowledging
          ≡ (acknowledging, err replay)))
    ⊎ ((advance_bytes ≢ advance_bytes)
        × (accept_authenticated_advance_begin advance_bytes acknowledging
            ≡ (acknowledging, err fork)))
accept_authenticated_advance_begin-known_example =
    accept_authenticated_advance_begin-known acknowledging advance_bytes sample_advance
      sample_advance refl refl advance_decodes acknowledged refl refl refl

destroyed-Refuses_example : Refuses (record fresh { is_destroyed = true }) PqHealingError.destroyed
destroyed-Refuses_example = destroyed-Refuses (record fresh { is_destroyed = true }) refl

busy-Refuses_example : Refuses (record fresh { busy = true }) invalid_state
busy-Refuses_example = busy-Refuses (record fresh { busy = true }) refl refl

adopt-IsCalm_example :
    (adopt false fresh offered ≡ (offered, consumed offered, ok tt))
    × IsCalm (adopt false fresh offered).0
    × ((adopt false fresh offered).1.is_destroyed ≡ true)
adopt-IsCalm_example = adopt-IsCalm fresh offered fresh-IsCalm offered-IsCalm refl refl
