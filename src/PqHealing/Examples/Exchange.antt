-- ===== src/PqHealing/Examples/Exchange.antt =====
-- An exchange of the edge, from the accepted OFFER to the acknowledgement.
use p2party_js.Base.{◌≡◌, refl, some, none, true, false, replicate, arith, ok}
use p2party_js.LibCrypto.{hkdf_extract, hkdf_expand}
use p2party_js.MlKem.{ml_kem_512_suite, get_ml_kem_suite, same_descriptor}
use p2party_js.PqHealing.Record.{
  assert_canonical_suite, assert_same_suite, require_bytes, require_u64,
}
use p2party_js.PqHealing.Codec.{derive_next_root}
use p2party_js.PqHealing.Machine.{
  Machine, MachineOptions, Phase, Encapsulation, remote, new_machine,
}
use p2party_js.PqHealing.Offering.{
  accept_authenticated_advance_begin, accept_authenticated_advance_resume,
}
use p2party_js.PqHealing.Answering.{accept_authenticated_offer}
use p2party_js.PqHealing.Session.Calls.{IsCalm, rephased}
use p2party_js.PqHealing.Session.Birth.{new_machine-IsCalm}
use p2party_js.PqHealing.Session.Commits.{answered, accepted}
use p2party_js.PqHealing.Session.Acceptance.{
  accept_authenticated_offer-accepts, accept_authenticated_advance-accepts,
}
use p2party_js.PqHealing.Session.Agreement.{Answers, Accepts, exchange-agrees}
use p2party_js.PqHealing.Examples.Records.{
  edge, offer_bytes, sample_offer, offer_decodes, advance_bytes, sample_advance, advance_encoded,
  advance_decodes,
}
use p2party_js.PqHealing.Examples.Sessions.{toy_crypto, options}
use p2party_js.PqHealing.Examples.Phases.{key_pair, offered, offered-IsCalm}

abbrev answerer_options : MachineOptions
answerer_options = record options {
  next_offerer = remote;
  local_counter = some 8;
  remote_counter = some 3;
}

-- The other end of the edge, before and after the OFFER.
abbrev waiting : Machine
waiting = record {
  suite = ml_kem_512_suite;
  binding = edge;
  root_key = replicate 32 1;
  epoch = 5;
  local_counter = 8;
  remote_counter = 3;
  next_offerer = remote;
  phase = Phase.idle;
  last_inbound_offer = none;
  last_inbound_advance = none;
  busy = false;
  is_destroyed = false;
}

waiting_is_new : new_machine answerer_options ≡ ok waiting
unfolding new_machine assert_same_suite assert_canonical_suite get_ml_kem_suite same_descriptor
    require_bytes require_u64
waiting_is_new = refl

waiting-IsCalm : IsCalm waiting
waiting-IsCalm = new_machine-IsCalm answerer_options waiting waiting_is_new

abbrev engaged : Machine
engaged = record waiting { phase = Phase.inbound_offer sample_offer }

engaged-IsCalm : IsCalm engaged
engaged-IsCalm =
    rephased waiting (Phase.inbound_offer sample_offer) waiting-IsCalm
      (offer_decodes, refl, refl, refl, (omega arith, omega arith, omega arith))

abbrev encapsulation : Encapsulation
encapsulation = record { ciphertext = replicate 768 4; shared_secret = replicate 32 2 }

derived :
    derive_next_root (replicate 32 1) (replicate 32 2) advance_bytes toy_crypto
    ≡ ok (replicate 32 0)
unfolding derive_next_root hkdf_extract hkdf_expand toy_crypto require_bytes
derived = refl

accept_authenticated_offer-accepts_example :
    accept_authenticated_offer offer_bytes waiting ≡ (engaged, ok tt)
accept_authenticated_offer-accepts_example =
    accept_authenticated_offer-accepts waiting offer_bytes sample_offer waiting-IsCalm refl refl
      (omega arith, omega arith, omega arith) offer_decodes refl refl

accept_authenticated_advance-accepts_example :
    (accept_authenticated_advance_begin advance_bytes offered ≡ (
      record offered { busy = true },
      ok (record { advance = sample_advance; offer = sample_offer; key_pair = key_pair }),
    ))
    × (accept_authenticated_advance_resume toy_crypto
          (record { advance = sample_advance; offer = sample_offer; key_pair = key_pair })
          (some (replicate 32 2))
          (record offered { busy = true })
        ≡ (
          record offered {
            phase =
                Phase.inbound_advance_prepared sample_offer sample_advance key_pair
                  (replicate 32 0);
          },
          ok tt,
        ))
accept_authenticated_advance-accepts_example =
    accept_authenticated_advance-accepts toy_crypto offered advance_bytes (replicate 32 2)
      (replicate 32 0) sample_advance key_pair offered-IsCalm refl advance_decodes refl refl refl
      refl derived

exchange-agrees_example :
    Answers toy_crypto engaged sample_offer encapsulation advance_bytes (replicate 32 0)
    × Accepts toy_crypto offered sample_advance key_pair (replicate 32 2) (replicate 32 0)
    × ((accepted offered sample_advance (replicate 32 0)).root_key
        ≡ (answered engaged sample_offer sample_advance (replicate 32 0)).root_key)
    × ((accepted offered sample_advance (replicate 32 0)).epoch
        ≡ (answered engaged sample_offer sample_advance (replicate 32 0)).epoch)
    × ((accepted offered sample_advance (replicate 32 0)).local_counter
        ≡ (answered engaged sample_offer sample_advance (replicate 32 0)).remote_counter)
    × ((accepted offered sample_advance (replicate 32 0)).remote_counter
        ≡ (answered engaged sample_offer sample_advance (replicate 32 0)).local_counter)
exchange-agrees_example =
    exchange-agrees toy_crypto offered engaged sample_offer key_pair encapsulation advance_bytes
      (replicate 32 0) offered-IsCalm engaged-IsCalm refl refl refl refl refl refl refl refl refl
      advance_encoded derived
