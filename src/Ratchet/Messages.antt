-- ===== src/Ratchet/Messages.antt =====
-- src/cryptography/ratchet.ts: the start of an edge, and the calls for each message. `fresh` is the
-- pair that `x25519Keypair` draws.
use p2party_js.Base.{
  ℕ, ◌+◌, Bool, true, false, not, ◌||◌, ◌==◌, Option, none, some, List, [], length, ltb, Result, ok,
  err, if◌then◌else◌,
}
use p2party_js.Bytes.{bytes_equal}
use p2party_js.LibCrypto.{LibCrypto}
use p2party_js.Ratchet.Kdf.{
  RatchetError, initiator_requires_remote_dh_pub, no_sending_chain, invalid_initiator_dh_public_key,
  requires_pristine_state, message_key_already_consumed, null_key, ChainStep, kdf_ck,
}
use p2party_js.Ratchet.State.{
  RatchetRootSuite, RatchetState, RatchetHeader, DhKeyPair, Call, ◌>>=◌, ◌>>◌, return, get, modify,
  lift,
}
use p2party_js.Ratchet.Skipping.{
  require, try_skipped, skip_message_keys, advance_chain, open_sending, root_step, dh_ratchet,
}

abbrev pub ratchet_dh_pub_len : ℕ
ratchet_dh_pub_len = 32

-- The state that is there before the initiator's step.
unfoldable pub blank_ratchet : RatchetRootSuite → List ℕ → DhKeyPair → RatchetState
blank_ratchet suite root_seed fresh = record {
  root_suite = suite;
  root_key = root_seed;
  sending_chain_key = none;
  receiving_chain_key = none;
  dh_self_pub = fresh.public_key;
  dh_self_sec = fresh.secret_key;
  dh_remote_pub = none;
  ns = 0;
  nr = 0;
  pn = 0;
  skipped = [];
}

abbrev pub know_remote : List ℕ → RatchetState → RatchetState
know_remote remote s = record s { dh_remote_pub = some remote }

-- `initRatchet` of the initiator, on the blank state.
unfoldable pub start_initiator : Option (List ℕ) → LibCrypto → Call (Unit {0})
unfolding root_step open_sending
start_initiator remote_dh_pub m = do
  remote ← require initiator_requires_remote_dh_pub remote_dh_pub
  modify (know_remote remote)
  rk ← root_step remote m
  modify (open_sending rk)

abbrev pub built : RatchetState × Result RatchetError (Unit {0}) → Result RatchetError RatchetState
built (s, ok _) = ok s
built (s, err e) = err e

unfoldable pub init_ratchet :
    List ℕ
    → Bool
    → Option (List ℕ)
    → LibCrypto
    → RatchetRootSuite
    → DhKeyPair
    → Result RatchetError RatchetState
unfolding blank_ratchet start_initiator
init_ratchet root_seed am_initiator remote_dh_pub m root_suite fresh =
    let s = blank_ratchet root_suite root_seed fresh in
    if am_initiator then built (start_initiator remote_dh_pub m s) else ok s

unfoldable pub advance_sending : ChainStep → RatchetState → RatchetState
advance_sending step s = record s { sending_chain_key = some step.chain_key; ns = s.ns + 1 }

pub record Sealed : Type 0 where
  pub message_key : List ℕ
  pub header : RatchetHeader

unfoldable pub ratchet_encrypt : LibCrypto → Call Sealed
unfolding advance_sending
ratchet_encrypt m = do
  s ← get
  chain_key ← require no_sending_chain s.sending_chain_key
  step ← lift (kdf_ck chain_key m)
  modify (advance_sending step)
  return (record {
    message_key = step.message_key;
    header = record { dh_pub = s.dh_self_pub; n = s.ns; pn = s.pn };
  })

abbrev pub is_some : {A : Type 0} → Option A → Bool
is_some none = false
is_some (some a) = true

-- The guard of `primeResponderRatchet`.
unfoldable pub is_used : RatchetState → Bool
is_used s =
    is_some s.sending_chain_key
    || is_some s.receiving_chain_key
    || is_some s.dh_remote_pub
    || not (s.ns == 0)
    || not (s.nr == 0)
    || not (s.pn == 0)
    || not (length s.skipped == 0)

unfoldable pub prime_responder_ratchet : List ℕ → DhKeyPair → LibCrypto → Call (Unit {0})
unfolding is_used dh_ratchet
prime_responder_ratchet initiator_dh_pub fresh m s =
    if not (length initiator_dh_pub == ratchet_dh_pub_len)
    then (s, err invalid_initiator_dh_public_key)
    else if is_used s
    then (s, err requires_pristine_state)
    else dh_ratchet (record { dh_pub = initiator_dh_pub; n = 0; pn = 0 }) fresh m s

-- `isNewDh`.
unfoldable pub is_new_dh : RatchetHeader → RatchetState → Bool
is_new_dh header s = elim s.dh_remote_pub [
  | none ↦ true
  | some remote ↦ not (bytes_equal header.dh_pub remote)
]

-- The tail of the old chain, then the step.
unfoldable pub step_if_new : RatchetHeader → DhKeyPair → LibCrypto → Call (Unit {0})
unfolding is_new_dh skip_message_keys dh_ratchet
step_if_new header fresh m s =
    if is_new_dh header s
    then (do skip_message_keys header.pn m; dh_ratchet header fresh m) s
    else (s, ok tt)

abbrev pub count_received : RatchetState → RatchetState
count_received s = record s { nr = s.nr + 1 }

-- The key of the next message of the chain.
unfoldable pub take_next : LibCrypto → Call (List ℕ)
unfolding advance_chain
take_next m = do
  s ← get
  chain_key ← require null_key s.receiving_chain_key
  step ← lift (kdf_ck chain_key m)
  modify (advance_chain step)
  modify count_received
  return step.message_key

abbrev pub fail_if_consumed : RatchetHeader → Call (Unit {0})
fail_if_consumed header s =
    if ltb header.n s.nr then (s, err message_key_already_consumed) else (s, ok tt)

-- Past the stored keys.
unfoldable pub decrypt_unstored : RatchetHeader → DhKeyPair → LibCrypto → Call (List ℕ)
unfolding step_if_new skip_message_keys take_next
decrypt_unstored header fresh m = do
  step_if_new header fresh m
  fail_if_consumed header
  skip_message_keys header.n m
  take_next m

abbrev pub or_derive : Call (List ℕ) → Option (List ℕ) → Call (List ℕ)
or_derive derive (some message_key) = return message_key
or_derive derive none = derive

-- A header whose numbers are no natural numbers is refused before; such a header is none here.
unfoldable pub ratchet_decrypt : RatchetHeader → DhKeyPair → LibCrypto → Call (List ℕ)
unfolding try_skipped decrypt_unstored
ratchet_decrypt header fresh m = do
  stored ← try_skipped header
  or_derive (decrypt_unstored header fresh m) stored
