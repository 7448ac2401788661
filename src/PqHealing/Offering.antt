-- ===== src/PqHealing/Offering.antt =====
-- src/cryptography/pqHealing.ts: the offerer's half of an exchange. An `async` method is two
-- functions, up to its `await` and from there: between them the machine is busy.
use p2party_js.Base.{
  ℕ, ◌+◌, Bool, true, false, not, ◌||◌, Option, some, List, ◌==◌, ok, err, ◌>>=◌, ◌>>◌, fail_if,
}
use p2party_js.Bytes.{bytes_equal}
use p2party_js.LibCrypto.{LibCrypto}
use p2party_js.PqHealing.Record.{
  Healing, fork, invalid_record, invalid_state, wrong_turn, require_bytes,
}
use p2party_js.PqHealing.Codec.{
  Acknowledgement, DecodedOffer, DecodedAdvance, decode_offer, decode_advance, encode_offer,
  derive_next_root, require_acknowledgement,
}
use p2party_js.PqHealing.Machine.{
  Machine, Phase, KeyPair, Outcome, remote, settle, end_async_operation, awaited, is_local, is_idle,
  make_owned_key_pair, destroy_key_pair, assert_active, assert_synchronous,
  assert_can_start_exchange, require_expected_counter, require_expected_epoch,
  reject_known_advance_replay_or_fork, commit_root,
}

-- `prepareOffer`, up to the generation of the key pair.
unfoldable pub prepare_offer_begin : Machine → Outcome (Unit {0})
unfolding assert_synchronous assert_can_start_exchange
prepare_offer_begin m = settle m do
  assert_synchronous m
  fail_if (not (is_idle m.phase)) invalid_state
  fail_if (not (is_local m.next_offerer)) wrong_turn
  assert_can_start_exchange m
  ok (record m { busy = true }, tt)

-- `prepareOffer`, from there, on the generated public and secret key; it returns the bytes of the
-- OFFER.
unfoldable pub prepare_offer_resume : Option (List ℕ × List ℕ) → Machine → Outcome (List ℕ)
unfolding assert_active require_bytes make_owned_key_pair
prepare_offer_resume generated m = end_async_operation (
    settle m do
      (public_key, secret_key) ← awaited generated
      let key_pair = make_owned_key_pair public_key secret_key
      assert_active m
      require_bytes key_pair.public_key m.suite.public_key_bytes
      require_bytes key_pair.secret_key m.suite.secret_key_bytes
      bytes ← encode_offer m.suite m.binding m.local_counter m.epoch key_pair.public_key
      offer ← decode_offer bytes m.suite (some m.binding)
      ok (record m { phase = Phase.outbound_offer false offer key_pair }, bytes))

-- The phase that `kind === "outbound-offer"` tests for, with its fields.
abbrev pub outbound_offer_of : Phase → Healing (Bool × DecodedOffer × KeyPair)
outbound_offer_of (Phase.outbound_offer dispatched offer key_pair) =
    ok (dispatched, offer, key_pair)
outbound_offer_of _ = err invalid_state

unfoldable pub mark_offer_dispatched : Machine → Outcome (Unit {0})
unfolding assert_synchronous
mark_offer_dispatched m = settle m do
  assert_synchronous m
  (dispatched, offer, key_pair) ← outbound_offer_of m.phase
  fail_if dispatched invalid_state
  ok (record m { phase = Phase.outbound_offer true offer key_pair }, tt)

unfoldable pub abort_unsent_offer : Machine → Outcome (Unit {0})
unfolding assert_synchronous
abort_unsent_offer m = settle m do
  assert_synchronous m
  (dispatched, offer, key_pair) ← outbound_offer_of m.phase
  fail_if dispatched invalid_state
  ok (record m { phase = Phase.idle }, tt)

-- What `acceptAuthenticatedAdvance` holds across its `await`.
pub record AcceptedAdvance : Type 0 where
  pub advance : DecodedAdvance
  pub offer : DecodedOffer
  pub key_pair : KeyPair

-- `acceptAuthenticatedAdvance`, up to the decapsulation.
unfoldable pub accept_authenticated_advance_begin : List ℕ → Machine → Outcome AcceptedAdvance
unfolding assert_synchronous reject_known_advance_replay_or_fork require_expected_counter
    require_expected_epoch
accept_authenticated_advance_begin rec m = settle m do
  assert_synchronous m
  advance ← decode_advance rec m.suite (some m.binding)
  reject_known_advance_replay_or_fork advance m
  (dispatched, offer, key_pair) ← outbound_offer_of m.phase
  fail_if (not dispatched) invalid_state
  require_expected_counter advance.sender_counter m
  require_expected_epoch advance.from_epoch m
  fail_if (not (bytes_equal advance.offer.bytes offer.bytes)) fork
  ok (record m { busy = true }, record { advance = advance; offer = offer; key_pair = key_pair })

-- `acceptAuthenticatedAdvance`, from there, on the decapsulated secret.
unfoldable pub accept_authenticated_advance_resume :
    LibCrypto → AcceptedAdvance → Option (List ℕ) → Machine → Outcome (Unit {0})
unfolding assert_active require_bytes
accept_authenticated_advance_resume c held decapsulated m = end_async_operation (
    settle m do
      shared_secret ← awaited decapsulated
      assert_active m
      require_bytes shared_secret m.suite.shared_secret_bytes
      next_root ← derive_next_root m.root_key shared_secret held.advance.bytes c
      ok (
        record m {
          phase = Phase.inbound_advance_prepared held.offer held.advance held.key_pair next_root;
        },
        tt,
      ))

abbrev pub inbound_advance_prepared_of :
    Phase → Healing (DecodedOffer × DecodedAdvance × KeyPair × List ℕ)
inbound_advance_prepared_of (Phase.inbound_advance_prepared offer advance key_pair next_root) =
    ok (offer, advance, key_pair, next_root)
inbound_advance_prepared_of _ = err invalid_state

-- The writes of `commitAcceptedAdvance` behind the wiping of the key pair.
unfoldable pub commit_accepted : DecodedAdvance → List ℕ → Machine → Outcome Acknowledgement
unfolding commit_root
commit_accepted advance next_root m = settle m do
  m' ← commit_root next_root m
  ok (
    record m' {
      epoch = advance.to_epoch;
      local_counter = m.local_counter + 1;
      remote_counter = m.remote_counter + 1;
      next_offerer = remote;
      last_inbound_advance = some advance;
      phase = Phase.inbound_advance_awaiting_ack_dispatch advance;
    },
    record { epoch = advance.to_epoch; advance_counter = advance.sender_counter },
  )

unfoldable pub commit_accepted_advance : Machine → Outcome Acknowledgement
unfolding assert_synchronous commit_accepted destroy_key_pair
commit_accepted_advance m = elim (assert_synchronous m >> inbound_advance_prepared_of m.phase) [
  | err e ↦ (m, err e)
  | ok (offer, advance, key_pair, next_root) ↦ commit_accepted advance next_root (record m {
    phase = Phase.inbound_advance_prepared offer advance (destroy_key_pair key_pair) next_root;
  })
]

abbrev pub inbound_advance_awaiting_of : Phase → Healing DecodedAdvance
inbound_advance_awaiting_of (Phase.inbound_advance_awaiting_ack_dispatch advance) = ok advance
inbound_advance_awaiting_of _ = err invalid_state

unfoldable pub mark_advance_acknowledgement_dispatched :
    Acknowledgement → Machine → Outcome (Unit {0})
unfolding assert_synchronous require_acknowledgement
mark_advance_acknowledgement_dispatched acknowledgement m = settle m do
  assert_synchronous m
  ack ← require_acknowledgement acknowledgement
  advance ← inbound_advance_awaiting_of m.phase
  fail_if (not (ack.epoch == m.epoch) || not (ack.advance_counter == advance.sender_counter))
      invalid_record
  ok (record m { phase = Phase.idle }, tt)
