-- ===== src/PqHealing/Session/Checkpoints.antt =====
-- src/cryptography/pqHealing.ts: `snapshot`, `restore` and `clone` of valid machines.
use p2party_js.Base.{
  ℕ, ◌+◌, ◌≤◌, ◌<◌, ◌≡◌, refl, sym, true, false, Option, none, some, arith, length, leb, ltb, ◌==◌,
  ok, not-==, ==_iff, ltb_of_le, ==_refl,
}
use p2party_js.Bytes.Laws.{bytes_equal_refl}
use p2party_js.MlKem.{MlKemSuiteDescriptor, IsCanonical}
use p2party_js.MlKem.Canonical.{assert_canonical_suite_iff}
use p2party_js.PqHealing.Record.{
  max_u64, require_bytes, require_u64, assert_same_suite, offer_length, advance_length,
}
use p2party_js.PqHealing.Codec.{DecodedOffer, DecodedAdvance}
use p2party_js.PqHealing.Codec.Offer.{decode_offer-OfferFacts}
use p2party_js.PqHealing.Codec.Advance.{decode_advance-AdvanceFacts}
use p2party_js.PqHealing.Machine.{
  Machine, Phase, KeyPair, make_owned_key_pair, assert_synchronous, assert_active, new_machine,
}
use p2party_js.PqHealing.Snapshot.{
  ValidatedSnapshot, snapshot_phase, snapshot, snapshot_offer, snapshot_advance,
  decode_snapshot_phase, validate_last_offer, validate_last_advance, validate_phase,
  validate_snapshot_state, decode_last_offer, decode_last_advance, decode_pq_healing_snapshot,
  restore, clone, offer_bytes_of, advance_bytes_of,
}
use p2party_js.PqHealing.Session.Invariant.{
  Frame, frame_of, IsOffer, IsAdvance, IsKeyFor, IsPhase, IsLastOffer, IsLastAdvance, IsValid,
}
use p2party_js.PqHealing.Session.Calls.{IsCalm}

snapshot_offer-eq :
    (F : Frame) (o : DecodedOffer) → IsOffer F o → snapshot_offer o.bytes F.suite F.binding ≡ ok o
unfolding snapshot_offer require_bytes offer_length
snapshot_offer-eq F o h =
    let facts = decode_offer-OfferFacts o.bytes F.suite (some F.binding) o h in
    rw (not-== (length o.bytes) (64 + F.suite.public_key_bytes) facts.long, h)

snapshot_advance-eq :
    (F : Frame) (a : DecodedAdvance)
    → IsAdvance F a
    → snapshot_advance a.bytes F.suite F.binding ≡ ok a
unfolding snapshot_advance require_bytes advance_length offer_length
snapshot_advance-eq F a h =
    let facts = decode_advance-AdvanceFacts a.bytes F.suite (some F.binding) a h in
    rw (not-== (length a.bytes) _ facts.long, h)

owned_again :
    (F : Frame) (o : DecodedOffer) (kp : KeyPair)
    → IsKeyFor F o kp
    → make_owned_key_pair o.public_key kp.secret_key ≡ kp
unfolding make_owned_key_pair
owned_again F o kp (key, long, live) =
    λ i. record { public_key = sym key i; secret_key = kp.secret_key; wiped = sym live i }

decode-snapshot_phase :
    (F : Frame) (p : Phase)
    → IsPhase F p
    → decode_snapshot_phase (snapshot_phase p) F.suite F.binding ≡ ok p
unfolding decode_snapshot_phase snapshot_phase require_bytes
decode-snapshot_phase F Phase.idle h = refl
decode-snapshot_phase F (Phase.outbound_offer true o kp) h =
    rw (snapshot_offer-eq F o h.0, not-== _ _ h.1.1, owned_again F o kp h.1)
decode-snapshot_phase F (Phase.outbound_offer false o kp) h =
    rw (snapshot_offer-eq F o h.0, not-== _ _ h.1.1, owned_again F o kp h.1)
decode-snapshot_phase F (Phase.inbound_offer o) h = rw (snapshot_offer-eq F o h.0)
decode-snapshot_phase F (Phase.outbound_advance_prepared o a root) h =
    rw (snapshot_advance-eq F a h.0, not-== _ _ h.6, h.1)
decode-snapshot_phase F (Phase.outbound_advance_awaiting_ack o a) h =
    rw (snapshot_advance-eq F a h.0, h.1)
decode-snapshot_phase F (Phase.inbound_advance_prepared o a kp root) h =
    rw (snapshot_advance-eq F a h.0, not-== _ _ h.1.1, not-== _ _ h.7, h.2, owned_again F o kp h.1)
decode-snapshot_phase F (Phase.inbound_advance_awaiting_ack_dispatch a) h =
    rw (snapshot_advance-eq F a h.0)

decode-offer_bytes_of :
    (F : Frame) (last : Option DecodedOffer)
    → IsLastOffer F last
    → decode_last_offer (offer_bytes_of last) F.suite F.binding ≡ ok last
unfolding decode_last_offer
decode-offer_bytes_of F none h = refl
decode-offer_bytes_of F (some o) h = rw (snapshot_offer-eq F o h.0)

decode-advance_bytes_of :
    (F : Frame) (last : Option DecodedAdvance)
    → IsLastAdvance F last
    → decode_last_advance (advance_bytes_of last) F.suite F.binding ≡ ok last
unfolding decode_last_advance
decode-advance_bytes_of F none h = refl
decode-advance_bytes_of F (some a) h = rw (snapshot_advance-eq F a h.0)

-- What a snapshot of the machine decodes to.
abbrev state_of : Machine → ValidatedSnapshot
state_of m = record {
  root_key = m.root_key;
  epoch = m.epoch;
  local_counter = m.local_counter;
  remote_counter = m.remote_counter;
  next_offerer = m.next_offerer;
  phase = m.phase;
  last_inbound_offer = m.last_inbound_offer;
  last_inbound_advance = m.last_inbound_advance;
}

leb_of_le : (a b : ℕ) → a ≤ b → leb a b ≡ true
leb_of_le a b h = ground arith

ltb_of_lt : (a b : ℕ) → a < b → ltb a b ≡ true
ltb_of_lt a b h = ground arith

==_of_eq : (a b : ℕ) → a ≡ b → (a == b) ≡ true
==_of_eq a b h = (==_iff a b).1 h

validate_last_offer-passes :
    (F : Frame) (last : Option DecodedOffer)
    → IsLastOffer F last
    → validate_last_offer last F.epoch F.remote_counter ≡ ok tt
unfolding validate_last_offer
validate_last_offer-passes F none h = refl
validate_last_offer-passes F (some o) h =
    rw (leb_of_le o.to_epoch F.epoch h.1, ltb_of_lt o.sender_counter F.remote_counter h.2)

validate_last_advance-passes :
    (F : Frame) (last : Option DecodedAdvance)
    → IsLastAdvance F last
    → validate_last_advance last F.epoch F.remote_counter ≡ ok tt
unfolding validate_last_advance
validate_last_advance-passes F none h = refl
validate_last_advance-passes F (some a) h =
    rw (leb_of_le a.to_epoch F.epoch h.1, ltb_of_lt a.sender_counter F.remote_counter h.2)

validate_phase-passes :
    (m : Machine) (p : Phase) → IsPhase (frame_of m) p → validate_phase p (state_of m) ≡ ok tt
unfolding validate_phase
validate_phase-passes m Phase.idle h = refl
validate_phase-passes m (Phase.outbound_offer d o kp) (decodes, key, turn, counter, epoch, room) =
    rw (turn, ==_of_eq _ _ counter, ==_of_eq _ _ epoch)
validate_phase-passes m (Phase.inbound_offer o) (decodes, turn, counter, epoch, room) =
    rw (turn, ==_of_eq _ _ counter, ==_of_eq _ _ epoch)
validate_phase-passes m (Phase.outbound_advance_prepared o a root)
      (decodes, same, turn, counter, counter', epoch, long, room) =
    rw (turn, ==_of_eq _ _ counter, ==_of_eq _ _ counter', ==_of_eq _ _ epoch)
validate_phase-passes m (Phase.outbound_advance_awaiting_ack o a)
      (decodes, same, turn, counter, counter', epoch, last) =
    rw (
      turn,
      ==_of_eq _ _ counter,
      ==_of_eq _ _ counter',
      ==_of_eq _ _ epoch,
      last,
      bytes_equal_refl o.bytes,
    )
validate_phase-passes m (Phase.inbound_advance_prepared o a kp root)
      (decodes, key, same, turn, counter, counter', epoch, long, room) =
    rw (turn, ==_of_eq _ _ counter, ==_of_eq _ _ counter', ==_of_eq _ _ epoch)
validate_phase-passes m (Phase.inbound_advance_awaiting_ack_dispatch a)
      (decodes, turn, counter, counter', epoch, last) =
    rw (
      turn,
      ==_of_eq _ _ counter,
      ==_of_eq _ _ counter',
      ==_of_eq _ _ epoch,
      last,
      bytes_equal_refl a.bytes,
    )

validate_snapshot_state-passes :
    (m : Machine) → IsValid m → validate_snapshot_state (state_of m) ≡ ok tt
unfolding validate_snapshot_state
validate_snapshot_state-passes m valid = rw (
  validate_last_offer-passes (frame_of m) m.last_inbound_offer valid.last_offer,
  validate_last_advance-passes (frame_of m) m.last_inbound_advance valid.last_advance,
  validate_phase-passes m m.phase valid.in_phase,
)

assert_same_suite_self :
    (suite : MlKemSuiteDescriptor) → IsCanonical suite → assert_same_suite suite suite ≡ ok tt
unfolding assert_same_suite
assert_same_suite_self suite h = rw (
  (assert_canonical_suite_iff suite).1 h,
  ==_refl suite.parameter_set,
  ==_refl suite.public_key_bytes,
  ==_refl suite.secret_key_bytes,
  ==_refl suite.ciphertext_bytes,
)

-- A valid machine that awaits nothing, in whatever phase, is the machine that restoring its own
-- snapshot gives: a clone differs in nothing, and `snapshot` loses nothing.
pub clone-eq : (m : Machine) → IsCalm m → clone m ≡ ok m
unfolding clone snapshot restore decode_pq_healing_snapshot new_machine require_bytes require_u64
    assert_synchronous assert_active
clone-eq m (active, idle, valid) = rw (
  active,
  idle,
  assert_same_suite_self m.suite valid.canonical,
  not-== _ _ valid.bound,
  ==_refl m.suite.parameter_set,
  bytes_equal_refl m.binding,
  not-== _ _ valid.rooted,
  ltb_of_le max_u64 m.epoch valid.epoch_fits,
  ltb_of_le max_u64 m.local_counter valid.local_fits,
  ltb_of_le max_u64 m.remote_counter valid.remote_fits,
  decode-snapshot_phase (frame_of m) m.phase valid.in_phase,
  decode-offer_bytes_of (frame_of m) m.last_inbound_offer valid.last_offer,
  decode-advance_bytes_of (frame_of m) m.last_inbound_advance valid.last_advance,
  validate_snapshot_state-passes m valid,
  not-== _ _ valid.rooted,
  ltb_of_le max_u64 m.epoch valid.epoch_fits,
  ltb_of_le max_u64 m.local_counter valid.local_fits,
  ltb_of_le max_u64 m.remote_counter valid.remote_fits,
)
