-- ===== src/PqHealing/Session/Acceptance.antt =====
-- src/cryptography/pqHealing.ts: the methods that accept records, on records of an honest peer.
use p2party_js.Base.{
  ℕ, ◌<◌, ◌≡◌, refl, true, Option, none, some, List, arith, length, ok, not-==, ==_of_ne, ltb_of_le,
}
use p2party_js.Bytes.Laws.{bytes_equal_refl}
use p2party_js.LibCrypto.{LibCrypto}
use p2party_js.PqHealing.Record.{max_u64, require_bytes, require_u64, require_incrementable_u64}
use p2party_js.PqHealing.Codec.{
  DecodedOffer, DecodedAdvance, decode_offer, decode_advance, derive_next_root,
}
use p2party_js.PqHealing.Machine.{
  Machine, Phase, KeyPair, remote, assert_synchronous, assert_active, assert_can_start_exchange,
  same_offer_slot, same_advance_slot, known_offer, known_advance, reject_offer, reject_advance,
  reject_known_offer_replay_or_fork, reject_known_advance_replay_or_fork, require_expected_counter,
  require_expected_epoch,
}
use p2party_js.PqHealing.Offering.{
  accept_authenticated_advance_begin, accept_authenticated_advance_resume,
}
use p2party_js.PqHealing.Answering.{accept_authenticated_offer}
use p2party_js.PqHealing.Session.Invariant.{
  Frame, frame_of, IsIncrementable, IsLastOffer, IsLastAdvance,
}
use p2party_js.PqHealing.Session.Calls.{IsCalm}

-- A record with the expected counter is in no slot that was consumed.
fresh_offer :
    (F : Frame) (last : Option DecodedOffer) (o : DecodedOffer)
    → IsLastOffer F last
    → o.sender_counter ≡ F.remote_counter
    → reject_offer o last ≡ ok tt
unfolding reject_offer same_offer_slot
fresh_offer F none o h counter = refl
fresh_offer F (some known) o h counter =
    rw (==_of_ne o.sender_counter known.sender_counter (λ e. omega (arith, h.2, counter, e)))

fresh_advance :
    (F : Frame) (last : Option DecodedAdvance) (a : DecodedAdvance)
    → IsLastAdvance F last
    → a.sender_counter ≡ F.remote_counter
    → reject_advance a last ≡ ok tt
unfolding reject_advance same_advance_slot
fresh_advance F none a h counter = refl
fresh_advance F (some known) a h counter =
    rw (==_of_ne a.sender_counter known.sender_counter (λ e. omega (arith, h.2, counter, e)))

expected_counter :
    (n : ℕ) (m : Machine) → n ≡ m.remote_counter → require_expected_counter n m ≡ ok tt
unfolding require_expected_counter
expected_counter n m h = rw (
  ltb_of_le n m.remote_counter (omega (arith, h)),
  ltb_of_le m.remote_counter n (omega (arith, h)),
)

expected_epoch : (n : ℕ) (m : Machine) → n ≡ m.epoch → require_expected_epoch n m ≡ ok tt
unfolding require_expected_epoch
expected_epoch n m h =
    rw (ltb_of_le n m.epoch (omega (arith, h)), ltb_of_le m.epoch n (omega (arith, h)))

pub incrementable : (n : ℕ) → n < max_u64 → require_incrementable_u64 n ≡ ok tt
unfolding require_incrementable_u64 require_u64
incrementable n h =
    rw (ltb_of_le max_u64 n (omega (arith, h)), ==_of_ne n max_u64 (λ e. omega (arith, h, e)))

-- An idle valid machine on the remote turn, with room for an exchange, accepts every OFFER of its
-- edge that carries the expected counter and epoch, and changes nothing but its phase.
pub accept_authenticated_offer-accepts :
    (m : Machine) (rec : List ℕ) (o : DecodedOffer)
    → IsCalm m
    → m.phase ≡ Phase.idle
    → m.next_offerer ≡ remote
    → IsIncrementable (frame_of m)
    → decode_offer rec m.suite (some m.binding) ≡ ok o
    → o.sender_counter ≡ m.remote_counter
    → o.from_epoch ≡ m.epoch
    → accept_authenticated_offer rec m ≡ (record m { phase = Phase.inbound_offer o }, ok tt)
unfolding accept_authenticated_offer assert_synchronous assert_active
    reject_known_offer_replay_or_fork known_offer assert_can_start_exchange
accept_authenticated_offer-accepts m rec o (active, idle, valid) here turn room decoded counter
      epoch =
    rw (
      active,
      idle,
      decoded,
      here,
      fresh_offer (frame_of m) m.last_inbound_offer o valid.last_offer counter,
      turn,
      expected_counter o.sender_counter m counter,
      expected_epoch o.from_epoch m epoch,
      incrementable m.epoch room.0,
      incrementable m.local_counter room.1,
      incrementable m.remote_counter room.2,
    )

-- A valid machine that dispatched an OFFER accepts every ADVANCE of its edge that answers this
-- OFFER and carries the expected counter and epoch; then, on a decapsulated secret of the right
-- length whose derivation succeeds, it is prepared to commit the derived root, and changes nothing
-- but its phase.
pub accept_authenticated_advance-accepts :
    (c : LibCrypto) (m : Machine) (rec secret root : List ℕ) (a : DecodedAdvance) (kp : KeyPair)
    → IsCalm m
    → m.phase ≡ Phase.outbound_offer true a.offer kp
    → decode_advance rec m.suite (some m.binding) ≡ ok a
    → a.bytes ≡ rec
    → a.sender_counter ≡ m.remote_counter
    → a.from_epoch ≡ m.epoch
    → length secret ≡ m.suite.shared_secret_bytes
    → derive_next_root m.root_key secret rec c ≡ ok root
    → (accept_authenticated_advance_begin rec m
        ≡ (record m { busy = true }, ok (record { advance = a; offer = a.offer; key_pair = kp })))
      × (accept_authenticated_advance_resume c
            (record { advance = a; offer = a.offer; key_pair = kp })
            (some secret)
            (record m { busy = true })
          ≡ (record m { phase = Phase.inbound_advance_prepared a.offer a kp root }, ok tt))
unfolding accept_authenticated_advance_begin accept_authenticated_advance_resume assert_synchronous
    assert_active reject_known_advance_replay_or_fork known_advance require_bytes
accept_authenticated_advance-accepts c m rec secret root a kp (active, idle, valid) here decoded own
      counter epoch long derived =
    (
      rw (
        active,
        idle,
        decoded,
        here,
        fresh_advance (frame_of m) m.last_inbound_advance a valid.last_advance counter,
        expected_counter a.sender_counter m counter,
        expected_epoch a.from_epoch m epoch,
        bytes_equal_refl a.offer.bytes,
      ),
      rw (active, not-== _ _ long, own, derived, idle),
    )
