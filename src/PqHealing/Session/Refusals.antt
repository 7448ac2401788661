-- ===== src/PqHealing/Session/Refusals.antt =====
-- src/cryptography/pqHealing.ts: refusals of the machine's methods and their errors.
use p2party_js.Base.{
  ◌≢◌, ◌⊎◌, refl, sym, ◌∙◌, Bool, Option, ℕ, ◌≡◌, inl, inr, true, false, some, List, ok, err,
  ==_refl, Bool-cases,
}
use p2party_js.Bytes.{bytes_equal}
use p2party_js.Bytes.Laws.{bytes_equal_iff}
use p2party_js.PqHealing.Record.{PqHealingError, replay, fork, invalid_state}
use p2party_js.PqHealing.Codec.{
  Acknowledgement, DecodedOffer, DecodedAdvance, decode_offer, decode_advance,
}
use p2party_js.PqHealing.Codec.Offer.{decode_offer-OfferFacts}
use p2party_js.PqHealing.Codec.Advance.{decode_advance-AdvanceFacts}
use p2party_js.PqHealing.Machine.{
  Machine, Phase, KeyPair, assert_synchronous, assert_active, same_offer_slot, same_advance_slot,
  known_offer, known_advance, reject_offer, reject_advance, reject_known_offer_replay_or_fork,
  reject_known_advance_replay_or_fork,
}
use p2party_js.PqHealing.Offering.{
  prepare_offer_begin, mark_offer_dispatched, abort_unsent_offer,
  accept_authenticated_advance_begin, commit_accepted_advance,
  mark_advance_acknowledgement_dispatched,
}
use p2party_js.PqHealing.Snapshot.{snapshot, clone}
use p2party_js.PqHealing.Answering.{
  accept_authenticated_offer, prepare_advance_begin, commit_prepared_advance,
  copy_pending_outbound_record, accept_authenticated_advance_acknowledgement,
}

-- The OFFER that a machine answers or has answered: that of its phase where the phase is the answer to
-- one, and else the last one it consumed.
pub data HasOffer : Phase → Option DecodedOffer → DecodedOffer → Type 0 where
  received :
      {o : DecodedOffer} {last : Option DecodedOffer} → HasOffer (Phase.inbound_offer o) last o
  answered :
      {o : DecodedOffer} {a : DecodedAdvance} {root : List ℕ} {last : Option DecodedOffer}
      → HasOffer (Phase.outbound_advance_prepared o a root) last o
  committed :
      {o : DecodedOffer} {a : DecodedAdvance} {last : Option DecodedOffer}
      → HasOffer (Phase.outbound_advance_awaiting_ack o a) last o
  last_when_idle : {o : DecodedOffer} → HasOffer Phase.idle (some o) o
  last_when_offering :
      {o own : DecodedOffer} {sent : Bool} {kp : KeyPair}
      → HasOffer (Phase.outbound_offer sent own kp) (some o) o
  last_when_accepting :
      {o own : DecodedOffer} {a : DecodedAdvance} {kp : KeyPair} {root : List ℕ}
      → HasOffer (Phase.inbound_advance_prepared own a kp root) (some o) o
  last_when_acknowledging :
      {o : DecodedOffer} {a : DecodedAdvance}
      → HasOffer (Phase.inbound_advance_awaiting_ack_dispatch a) (some o) o

-- The ADVANCE that a machine accepts or has accepted.
pub data HasAdvance : Phase → Option DecodedAdvance → DecodedAdvance → Type 0 where
  accepted :
      {o : DecodedOffer} {a : DecodedAdvance} {kp : KeyPair} {root : List ℕ}
      {last : Option DecodedAdvance}
      → HasAdvance (Phase.inbound_advance_prepared o a kp root) last a
  acknowledged :
      {a : DecodedAdvance} {last : Option DecodedAdvance}
      → HasAdvance (Phase.inbound_advance_awaiting_ack_dispatch a) last a
  last_when_idle : {a : DecodedAdvance} → HasAdvance Phase.idle (some a) a
  last_when_offering :
      {a : DecodedAdvance} {o : DecodedOffer} {sent : Bool} {kp : KeyPair}
      → HasAdvance (Phase.outbound_offer sent o kp) (some a) a
  last_when_received :
      {a : DecodedAdvance} {o : DecodedOffer} → HasAdvance (Phase.inbound_offer o) (some a) a
  last_when_answered :
      {a own : DecodedAdvance} {o : DecodedOffer} {root : List ℕ}
      → HasAdvance (Phase.outbound_advance_prepared o own root) (some a) a
  last_when_committed :
      {a own : DecodedAdvance} {o : DecodedOffer}
      → HasAdvance (Phase.outbound_advance_awaiting_ack o own) (some a) a

known_offer-HasOffer :
    {phase : Phase} {last : Option DecodedOffer} {o : DecodedOffer}
    → HasOffer phase last o
    → known_offer phase last ≡ some o
unfolding known_offer
known_offer-HasOffer received = refl
known_offer-HasOffer answered = refl
known_offer-HasOffer committed = refl
known_offer-HasOffer HasOffer.last_when_idle = refl
known_offer-HasOffer HasOffer.last_when_offering = refl
known_offer-HasOffer last_when_accepting = refl
known_offer-HasOffer last_when_acknowledging = refl

known_advance-HasAdvance :
    {phase : Phase} {last : Option DecodedAdvance} {a : DecodedAdvance}
    → HasAdvance phase last a
    → known_advance phase last ≡ some a
unfolding known_advance
known_advance-HasAdvance accepted = refl
known_advance-HasAdvance acknowledged = refl
known_advance-HasAdvance HasAdvance.last_when_idle = refl
known_advance-HasAdvance HasAdvance.last_when_offering = refl
known_advance-HasAdvance last_when_received = refl
known_advance-HasAdvance last_when_answered = refl
known_advance-HasAdvance last_when_committed = refl

false_is_not-true : ¬ (false ≡ true)
false_is_not-true h = cc

-- An active machine that awaits nothing refuses an OFFER of its edge, and does not change, when the
-- OFFER that it answers, in whichever phase of the answer, or else the last one that it consumed, has
-- the same counter and epochs: the same bytes are a `replay`, other bytes a `fork`.
pub accept_authenticated_offer-known :
    (m : Machine) (rec : List ℕ) (offer known : DecodedOffer)
    → m.is_destroyed ≡ false
    → m.busy ≡ false
    → decode_offer rec m.suite (some m.binding) ≡ ok offer
    → HasOffer m.phase m.last_inbound_offer known
    → offer.sender_counter ≡ known.sender_counter
    → offer.from_epoch ≡ known.from_epoch
    → offer.to_epoch ≡ known.to_epoch
    → ((rec ≡ known.bytes) × (accept_authenticated_offer rec m ≡ (m, err replay)))
      ⊎ ((rec ≢ known.bytes) × (accept_authenticated_offer rec m ≡ (m, err fork)))
unfolding accept_authenticated_offer reject_known_offer_replay_or_fork reject_offer same_offer_slot
    assert_synchronous assert_active
accept_authenticated_offer-known m rec offer known active idle decoded has hc hf ht =
    let bytes = (decode_offer-OfferFacts rec m.suite (some m.binding) offer decoded).own in
    let is_known = known_offer-HasOffer has in
    elim (Bool-cases (bytes_equal rec known.bytes)) [
      | inl same ↦ inl (
        (bytes_equal_iff rec known.bytes).0 same,
        rw (
          active,
          idle,
          decoded,
          is_known,
          hc,
          hf,
          ht,
          ==_refl known.sender_counter,
          ==_refl known.from_epoch,
          ==_refl known.to_epoch,
          bytes,
          same,
        ),
      )
      | inr differ ↦ inr (
        λ p. false_is_not-true (sym differ ∙ (bytes_equal_iff rec known.bytes).1 p),
        rw (
          active,
          idle,
          decoded,
          is_known,
          hc,
          hf,
          ht,
          ==_refl known.sender_counter,
          ==_refl known.from_epoch,
          ==_refl known.to_epoch,
          bytes,
          differ,
        ),
      )
    ]

-- An active machine that awaits nothing refuses an ADVANCE of its edge, and does not change, when the
-- ADVANCE that it accepts, prepared or committed, or else the last one that it consumed, has the same
-- counter and epochs: the same bytes are a `replay`, other bytes a `fork`.
pub accept_authenticated_advance_begin-known :
    (m : Machine) (rec : List ℕ) (advance known : DecodedAdvance)
    → m.is_destroyed ≡ false
    → m.busy ≡ false
    → decode_advance rec m.suite (some m.binding) ≡ ok advance
    → HasAdvance m.phase m.last_inbound_advance known
    → advance.sender_counter ≡ known.sender_counter
    → advance.from_epoch ≡ known.from_epoch
    → advance.to_epoch ≡ known.to_epoch
    → ((rec ≡ known.bytes) × (accept_authenticated_advance_begin rec m ≡ (m, err replay)))
      ⊎ ((rec ≢ known.bytes) × (accept_authenticated_advance_begin rec m ≡ (m, err fork)))
unfolding accept_authenticated_advance_begin reject_known_advance_replay_or_fork reject_advance
    same_advance_slot assert_synchronous assert_active
accept_authenticated_advance_begin-known m rec advance known active idle decoded has hc hf ht =
    let bytes = (decode_advance-AdvanceFacts rec m.suite (some m.binding) advance decoded).own in
    let is_known = known_advance-HasAdvance has in
    elim (Bool-cases (bytes_equal rec known.bytes)) [
      | inl same ↦ inl (
        (bytes_equal_iff rec known.bytes).0 same,
        rw (
          active,
          idle,
          decoded,
          is_known,
          hc,
          hf,
          ht,
          ==_refl known.sender_counter,
          ==_refl known.from_epoch,
          ==_refl known.to_epoch,
          bytes,
          same,
        ),
      )
      | inr differ ↦ inr (
        λ p. false_is_not-true (sym differ ∙ (bytes_equal_iff rec known.bytes).1 p),
        rw (
          active,
          idle,
          decoded,
          is_known,
          hc,
          hf,
          ht,
          ==_refl known.sender_counter,
          ==_refl known.from_epoch,
          ==_refl known.to_epoch,
          bytes,
          differ,
        ),
      )
    ]

-- All calls that begin with the test of `#assertSynchronous` refuse with one error.
abbrev pub Refuses : Machine → PqHealingError → Type 0
Refuses m e =
    (prepare_offer_begin m ≡ (m, err e))
    × (mark_offer_dispatched m ≡ (m, err e))
    × (abort_unsent_offer m ≡ (m, err e))
    × ((rec : List ℕ) → accept_authenticated_offer rec m ≡ (m, err e))
    × (prepare_advance_begin m ≡ (m, err e))
    × (commit_prepared_advance m ≡ (m, err e))
    × ((ack : Acknowledgement) → accept_authenticated_advance_acknowledgement ack m ≡ (m, err e))
    × ((rec : List ℕ) → accept_authenticated_advance_begin rec m ≡ (m, err e))
    × (commit_accepted_advance m ≡ (m, err e))
    × ((ack : Acknowledgement) → mark_advance_acknowledgement_dispatched ack m ≡ (m, err e))
    × (copy_pending_outbound_record m ≡ err e)
    × (snapshot m ≡ err e)
    × (clone m ≡ err e)

refused : (m : Machine) (e : PqHealingError) → assert_synchronous m ≡ err e → Refuses m e
unfolding prepare_offer_begin mark_offer_dispatched abort_unsent_offer accept_authenticated_offer
    prepare_advance_begin commit_prepared_advance accept_authenticated_advance_acknowledgement
    accept_authenticated_advance_begin commit_accepted_advance
    mark_advance_acknowledgement_dispatched copy_pending_outbound_record snapshot clone
refused m e h = (
  rw h,
  rw h,
  rw h,
  λ rec. rw h,
  rw h,
  rw h,
  λ ack. rw h,
  λ rec. rw h,
  rw (commit_accepted_advance, h),
  λ ack. rw h,
  rw h,
  rw h,
  rw h,
)

-- A destroyed machine refuses every call that moves the exchange, copyPendingOutboundRecord,
-- snapshot and clone with `destroyed`, and these calls leave it as it is.
pub destroyed-Refuses : (m : Machine) → m.is_destroyed ≡ true → Refuses m PqHealingError.destroyed
unfolding assert_synchronous assert_active
destroyed-Refuses m gone = refused m PqHealingError.destroyed (rw gone)

-- A machine that awaits the ML-KEM backend and is not destroyed refuses every call that moves the
-- exchange, copyPendingOutboundRecord, snapshot and clone with `invalid_state`, and these calls
-- leave it as it is.
pub busy-Refuses : (m : Machine) → m.is_destroyed ≡ false → m.busy ≡ true → Refuses m invalid_state
unfolding assert_synchronous assert_active
busy-Refuses m active busy = refused m invalid_state (rw (active, busy))
