-- ===== src/Ratchet/Skipping.antt =====
-- src/cryptography/ratchet.ts: the message keys that out-of-order delivery skips, and the step to a
-- new key of the peer.
use p2party_js.Base.{
  ℕ, zero, suc, ◌+◌, ◌-◌, Option, none, some, List, length, drop, ltb, map_err, if◌then◌else◌, ok,
  err,
}
use p2party_js.LibCrypto.{LibCrypto, x25519_dh_of}
use p2party_js.Maps.{map_get, map_set, map_delete}
use p2party_js.Ratchet.Kdf.{
  RatchetError, dh_failed, max_skip_exceeded, null_key, ChainStep, RootStep, kdf_rk, kdf_ck,
}
use p2party_js.Ratchet.State.{
  Slot, slot_key, RatchetState, RatchetHeader, DhKeyPair, Call, ◌>>=◌, ◌>>◌, return, throw, get,
  modify, lift,
}

-- `MAX_SKIP` and `MAX_SKIP_SESSION` of utils/constants.ts.
abbrev pub max_skip : ℕ
max_skip = 512

abbrev pub max_skip_session : ℕ
max_skip_session = 2000

abbrev pub require : {A : Type 0} → RatchetError → Option A → Call A
require e none = throw e
require e (some a) = return a

abbrev pub delete_skipped : Slot → RatchetState → RatchetState
delete_skipped slot s = record s { skipped = map_delete slot s.skipped }

unfoldable pub try_skipped : RatchetHeader → Call (Option (List ℕ))
try_skipped header s = elim (map_get (header.dh_pub, header.n) s.skipped) [
  | some message_key ↦ (delete_skipped (header.dh_pub, header.n) s, ok (some message_key))
  | none ↦ (s, ok none)
]

unfoldable pub advance_chain : ChainStep → RatchetState → RatchetState
advance_chain step s = record s { receiving_chain_key = some step.chain_key }

unfoldable pub stash : List ℕ → List ℕ → RatchetState → RatchetState
stash remote message_key s = record s {
  skipped = map_set (remote, s.nr) message_key s.skipped;
  nr = s.nr + 1;
}

-- The rounds left are `until - Nr`.
unfoldable pub skip_rounds : LibCrypto → ℕ → Call (Unit {0})
unfolding advance_chain stash
skip_rounds m zero = return tt
skip_rounds m (suc rounds) = do
  s ← get
  chain_key ← require null_key s.receiving_chain_key
  step ← lift (kdf_ck chain_key m)
  modify (advance_chain step)
  remote ← require null_key s.dh_remote_pub
  modify (stash remote step.message_key)
  skip_rounds m rounds

-- The oldest entries go first: the map keeps the order of insertion.
unfoldable pub evict : RatchetState → RatchetState
evict s = record s { skipped = drop (length s.skipped - max_skip_session) s.skipped }

unfoldable pub skip_message_keys : ℕ → LibCrypto → Call (Unit {0})
unfolding skip_rounds evict
skip_message_keys until m s =
    if ltb (s.nr + max_skip) until then (s, err max_skip_exceeded) else elim s.receiving_chain_key [
      | none ↦ (s, ok tt)
      | some chain_key ↦ (do skip_rounds m (until - s.nr); modify evict) s
    ]

-- `header.dhPub` is all that the step reads of the header, and `fresh` is the pair that
-- `x25519Keypair` draws.
unfoldable pub move_to : List ℕ → RatchetState → RatchetState
move_to dh_pub s = record s { pn = s.ns; ns = 0; nr = 0; dh_remote_pub = some dh_pub }

unfoldable pub open_receiving : RootStep → RatchetState → RatchetState
open_receiving rk s = record s { root_key = rk.root_key; receiving_chain_key = some rk.chain_key }

unfoldable pub rotate_self : DhKeyPair → RatchetState → RatchetState
rotate_self fresh s = record s { dh_self_pub = fresh.public_key; dh_self_sec = fresh.secret_key }

unfoldable pub open_sending : RootStep → RatchetState → RatchetState
open_sending rk s = record s { root_key = rk.root_key; sending_chain_key = some rk.chain_key }

-- The step of the root by an exchange with a key of the peer.
unfoldable pub root_step : List ℕ → LibCrypto → Call RootStep
root_step remote m = do
  s ← get
  dh_out ← lift (map_err dh_failed (x25519_dh_of s.dh_self_sec remote m))
  lift (kdf_rk s.root_key dh_out m)

unfoldable pub dh_ratchet : RatchetHeader → DhKeyPair → LibCrypto → Call (Unit {0})
unfolding move_to open_receiving rotate_self open_sending root_step
dh_ratchet header fresh m = do
  modify (move_to header.dh_pub)
  rk ← root_step header.dh_pub m
  modify (open_receiving rk)
  modify (rotate_self fresh)
  rk' ← root_step header.dh_pub m
  modify (open_sending rk')
