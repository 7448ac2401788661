-- ===== src/Ratchet/Examples.antt =====
-- The theorems on src/cryptography/ratchet.ts at concrete states, with a crypto that computes.
use p2party_js.Base.{
  ℕ, ◌+◌, ◌≡◌, ◌≢◌, refl, sym, ap, ◌∙◌, List, [], ◌∷◌, Option, some, none, arith, ok, err,
  replicate, length,
}
use p2party_js.Bytes.{bytes_equal}
use p2party_js.Bytes.Laws.{length-zeros}
use p2party_js.LibCrypto.{LibCrypto, hkdf_extract, hkdf_expand, x25519_dh_of}
use p2party_js.Maps.{map_get, map_set, IsUnique}
use p2party_js.Ratchet.Kdf.{kdf_rk, kdf_ck, mk_info, ck_info, message_key_already_consumed}
use p2party_js.Ratchet.State.{Slot, slot_key, RatchetState, RatchetHeader, DhKeyPair, mlkem768}
use p2party_js.Ratchet.Skipping.{skip_rounds, skip_message_keys}
use p2party_js.Ratchet.Messages.{
  Sealed, ratchet_decrypt, init_ratchet, prime_responder_ratchet, step_if_new,
}
use p2party_js.Ratchet.Checkpoint.{clone_ratchet}
use p2party_js.Ratchet.Exchange.{Listens, seal_all, open_all, keys_of, open_all-seal_all}
use p2party_js.Ratchet.Bounds.{Bounded, ratchet_decrypt-Bounded}
use p2party_js.Ratchet.Bootstrap.{init-agrees, step_if_new-agrees}
use p2party_js.Ratchet.Copies.{clone_ratchet-eq}
use p2party_js.Ratchet.Replay.{ratchet_decrypt-replay}

some-injective : {xs ys : List ℕ} → ◌≡◌ {A = Option (List ℕ)} (some xs) (some ys) → xs ≡ ys
some-injective h = cc

abbrev first_byte : List ℕ → ℕ
first_byte [] = 0
first_byte (b ∷ bytes) = b

-- The exchange of two keys is the sum of their first bytes.
abbrev toy : LibCrypto
toy = record {
  hkdf_sha512_extract = λ salt ikm. some ((first_byte salt + 1) ∷ ikm);
  hkdf_sha512_expand = λ prk info n. some (replicate n 0);
  x25519_dh = λ secret_key public_key. some ((first_byte secret_key + first_byte public_key) ∷ []);
  length-expand = λ prk info n out e. ap length (some-injective (sym e)) ∙ length-zeros n;
}

abbrev pair : ℕ → DhKeyPair
pair n = record { public_key = replicate 32 n; secret_key = replicate 32 n }

abbrev state :
    Option (List ℕ) → Option (List ℕ) → ℕ → ℕ → ℕ → ℕ → List (Slot × List ℕ) → RatchetState
state sending receiving self remote ns nr skipped = record {
  root_suite = mlkem768;
  root_key = replicate 32 0;
  sending_chain_key = sending;
  receiving_chain_key = receiving;
  dh_self_pub = replicate 32 self;
  dh_self_sec = replicate 32 self;
  dh_remote_pub = some (replicate 32 remote);
  ns = ns;
  nr = nr;
  pn = 0;
  skipped = skipped;
}

abbrev chain : List ℕ
chain = replicate 32 0

-- The initiator with the pair of 1, and the responder with those of 2 and 3.
abbrev initiator : RatchetState
initiator = state (some chain) none 1 2 0 0 []

abbrev blank : RatchetState
blank = record (state none none 2 2 0 0 []) { root_key = replicate 32 5; dh_remote_pub = none }

abbrev responder : RatchetState
responder = state (some chain) (some chain) 3 1 0 0 []

init-agrees_example :
    (first : List ℕ) × (initiator.sending_chain_key ≡ some first)
    × (initiator.ns ≡ 0)
    × Listens first initiator.dh_self_pub responder
unfolding init_ratchet prime_responder_ratchet kdf_rk hkdf_extract hkdf_expand x25519_dh_of
init-agrees_example =
    init-agrees toy (replicate 32 5) mlkem768 (pair 1) (pair 2) (pair 3) initiator blank responder
      refl refl refl refl

differ : (i j : ℕ) → i ≢ j → replicate 32 i ≢ replicate 32 j
differ i j h p = h (ap first_byte p)

abbrev to : ℕ → ℕ → RatchetHeader
to self n = record { dh_pub = replicate 32 self; n = n; pn = 0 }

step_if_new-agrees_example :
    (first : List ℕ) × (responder.sending_chain_key ≡ some first)
    × (responder.ns ≡ 0)
    × Listens first responder.dh_self_pub (state (some chain) (some chain) 4 3 0 0 [])
unfolding bytes_equal init_ratchet prime_responder_ratchet step_if_new skip_message_keys kdf_rk
    hkdf_extract hkdf_expand x25519_dh_of
step_if_new-agrees_example =
    step_if_new-agrees toy (replicate 32 5) mlkem768 (pair 1) (pair 2) (pair 3) initiator blank
      responder refl refl refl refl (to 3 0) (pair 4) (state (some chain) (some chain) 4 3 0 0 [])
      refl (differ 3 2 (omega arith)) refl refl

-- The first two messages of the initiator, and what they leave.
abbrev message : ℕ → Sealed
message n = record { message_key = (n + 1) ∷ mk_info; header = to 1 n }

abbrev held : List (Slot × List ℕ)
held = ((replicate 32 1, 0), 1 ∷ mk_info) ∷ []

abbrev behind : RatchetState
behind = state (some chain) (some (2 ∷ ck_info)) 3 1 0 2 held

responder-Listens : Listens chain (replicate 32 1) responder
unfolding map_get IsUnique
responder-Listens = record {
  remote_is = refl;
  held = refl;
  none_received = refl;
  none_stored = λ i. refl;
  unique = tt;
  room = omega arith;
}

-- The second message comes first.
open_all-seal_all_example :
    (s' : RatchetState) × (open_all (pair 4) toy (message 1 ∷ message 0 ∷ []) responder
      ≡ (s', ok (keys_of (message 1 ∷ message 0 ∷ []))))
unfolding seal_all kdf_ck hkdf_extract
open_all-seal_all_example =
    open_all-seal_all toy chain (pair 4) 2 initiator (state (some (2 ∷ ck_info)) none 1 2 2 0 [])
      responder (message 0 ∷ message 1 ∷ []) (message 1 ∷ message 0 ∷ []) (λ salt ikm. (_, refl))
      refl refl responder-Listens (omega arith) refl (refl, (refl, tt))
      ((omega arith, tt), (tt, tt))

behind-IsUnique : IsUnique behind.skipped
unfolding IsUnique map_get
behind-IsUnique = (refl, tt)

ratchet_decrypt-Bounded_example : Bounded (ratchet_decrypt (to 1 5) (pair 4) toy behind)
ratchet_decrypt-Bounded_example =
    ratchet_decrypt-Bounded toy (to 1 5) (pair 4) behind
      (record { unique = behind-IsUnique; small = omega arith })

clone_ratchet-eq_example : clone_ratchet behind ≡ behind
clone_ratchet-eq_example = clone_ratchet-eq behind behind-IsUnique

ratchet_decrypt-replay_example :
    ratchet_decrypt (to 1 1) (pair 5) toy behind ≡ (behind, err message_key_already_consumed)
unfolding bytes_equal ratchet_decrypt skip_rounds kdf_ck hkdf_extract IsUnique map_get map_set
ratchet_decrypt-replay_example =
    ratchet_decrypt-replay toy (to 1 1) (pair 4) (pair 5) responder behind (2 ∷ mk_info) tt
      (λ stored e. cc) refl refl
