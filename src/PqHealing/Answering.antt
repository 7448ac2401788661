-- ===== src/PqHealing/Answering.antt =====
-- src/cryptography/pqHealing.ts: the answerer's half of an exchange, and the record to retransmit.
use p2party_js.Base.{
  ℕ, ◌+◌, true, not, ◌||◌, Option, some, List, ◌==◌, ok, err, ◌>>=◌, ◌>>◌, fail_if,
}
use p2party_js.LibCrypto.{LibCrypto}
use p2party_js.PqHealing.Record.{
  Healing, invalid_record, invalid_state, wrong_turn, require_bytes, require_incrementable_u64,
}
use p2party_js.PqHealing.Codec.{
  Acknowledgement, DecodedOffer, DecodedAdvance, decode_offer, decode_advance, encode_advance,
  derive_next_root, require_acknowledgement,
}
use p2party_js.PqHealing.Machine.{
  Machine, Phase, Encapsulation, Outcome, local, settle, end_async_operation, awaited, is_local,
  is_idle, assert_active, assert_synchronous, assert_can_start_exchange, require_expected_counter,
  require_expected_epoch, reject_known_offer_replay_or_fork, commit_root,
}

unfoldable pub accept_authenticated_offer : List ℕ → Machine → Outcome (Unit {0})
unfolding assert_synchronous reject_known_offer_replay_or_fork require_expected_counter
    require_expected_epoch assert_can_start_exchange
accept_authenticated_offer rec m = settle m do
  assert_synchronous m
  offer ← decode_offer rec m.suite (some m.binding)
  reject_known_offer_replay_or_fork offer m
  fail_if (not (is_idle m.phase)) invalid_state
  fail_if (is_local m.next_offerer) wrong_turn
  require_expected_counter offer.sender_counter m
  require_expected_epoch offer.from_epoch m
  assert_can_start_exchange m
  ok (record m { phase = Phase.inbound_offer offer }, tt)

abbrev pub inbound_offer_of : Phase → Healing DecodedOffer
inbound_offer_of (Phase.inbound_offer offer) = ok offer
inbound_offer_of _ = err invalid_state

-- `prepareAdvance`, up to the encapsulation; it holds the OFFER of the phase across its `await`.
unfoldable pub prepare_advance_begin : Machine → Outcome DecodedOffer
unfolding assert_synchronous require_incrementable_u64
prepare_advance_begin m = settle m do
  assert_synchronous m
  offer ← inbound_offer_of m.phase
  require_incrementable_u64 m.local_counter
  ok (record m { busy = true }, offer)

-- `prepareAdvance`, from there; it returns the bytes of the ADVANCE.
unfoldable pub prepare_advance_resume :
    LibCrypto → DecodedOffer → Option Encapsulation → Machine → Outcome (List ℕ)
unfolding assert_active require_bytes
prepare_advance_resume c offer encapsulated m = end_async_operation (
    settle m do
      encapsulation ← awaited encapsulated
      assert_active m
      require_bytes encapsulation.ciphertext m.suite.ciphertext_bytes
      require_bytes encapsulation.shared_secret m.suite.shared_secret_bytes
      bytes ← encode_advance m.suite m.binding m.local_counter offer encapsulation.ciphertext
      advance ← decode_advance bytes m.suite (some m.binding)
      next_root ← derive_next_root m.root_key encapsulation.shared_secret bytes c
      ok (record m { phase = Phase.outbound_advance_prepared offer advance next_root }, bytes))

abbrev pub outbound_advance_prepared_of : Phase → Healing (DecodedOffer × DecodedAdvance × List ℕ)
outbound_advance_prepared_of (Phase.outbound_advance_prepared offer advance next_root) =
    ok (offer, advance, next_root)
outbound_advance_prepared_of _ = err invalid_state

unfoldable pub commit_prepared_advance : Machine → Outcome (List ℕ)
unfolding assert_synchronous commit_root
commit_prepared_advance m = settle m do
  assert_synchronous m
  (offer, advance, next_root) ← outbound_advance_prepared_of m.phase
  m' ← commit_root next_root m
  ok (
    record m' {
      epoch = advance.to_epoch;
      local_counter = m.local_counter + 1;
      remote_counter = m.remote_counter + 1;
      next_offerer = local;
      last_inbound_offer = some offer;
      phase = Phase.outbound_advance_awaiting_ack offer advance;
    },
    advance.bytes,
  )

abbrev pub outbound_advance_awaiting_of : Phase → Healing DecodedAdvance
outbound_advance_awaiting_of (Phase.outbound_advance_awaiting_ack offer advance) = ok advance
outbound_advance_awaiting_of _ = err invalid_state

unfoldable pub accept_authenticated_advance_acknowledgement :
    Acknowledgement → Machine → Outcome (Unit {0})
unfolding assert_synchronous require_acknowledgement
accept_authenticated_advance_acknowledgement acknowledgement m = settle m do
  assert_synchronous m
  ack ← require_acknowledgement acknowledgement
  advance ← outbound_advance_awaiting_of m.phase
  fail_if (not (ack.epoch == m.epoch) || not (ack.advance_counter == advance.sender_counter))
      invalid_record
  ok (record m { phase = Phase.idle }, tt)

-- The record of a phase that may be sent again.
abbrev pub pending_record_of : Phase → Healing (List ℕ)
pending_record_of (Phase.outbound_offer dispatched offer key_pair) = ok offer.bytes
pending_record_of (Phase.outbound_advance_prepared offer advance next_root) = ok advance.bytes
pending_record_of (Phase.outbound_advance_awaiting_ack offer advance) = ok advance.bytes
pending_record_of _ = err invalid_state

unfoldable pub copy_pending_outbound_record : Machine → Healing (List ℕ)
unfolding assert_synchronous
copy_pending_outbound_record m = do assert_synchronous m; pending_record_of m.phase
