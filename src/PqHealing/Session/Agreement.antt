-- ===== src/PqHealing/Session/Agreement.antt =====
-- The second half of an exchange, at both ends of an edge.
use mathlib.Core.Path.{subst}
use p2party_js.Base.{
  ℕ, ◌+◌, ◌≡◌, refl, ap, sym, ◌∙◌, true, false, some, List, arith, length, ok, err, ◌>>◌, not-==,
  ltb_of_le, ==_refl,
}
use p2party_js.LibCrypto.{LibCrypto}
use p2party_js.PqHealing.Record.{Healing, max_u64, require_bytes, require_u64}
use p2party_js.PqHealing.Codec.{
  Acknowledgement, DecodedOffer, DecodedAdvance, decode_advance, encode_advance, derive_next_root,
  require_acknowledgement,
}
use p2party_js.PqHealing.Codec.Offer.{decode_offer-OfferFacts}
use p2party_js.PqHealing.Codec.Advance.{decode_advance-encode_advance}
use p2party_js.PqHealing.Machine.{
  Machine, Phase, KeyPair, Encapsulation, Outcome, assert_synchronous, assert_active, commit_root,
  destroy_key_pair,
}
use p2party_js.PqHealing.Offering.{
  accept_authenticated_advance_begin, accept_authenticated_advance_resume, commit_accepted_advance,
  commit_accepted, inbound_advance_prepared_of, mark_advance_acknowledgement_dispatched,
}
use p2party_js.PqHealing.Answering.{
  prepare_advance_begin, prepare_advance_resume, commit_prepared_advance,
  accept_authenticated_advance_acknowledgement,
}
use p2party_js.PqHealing.Session.Invariant.{frame_of, IsPhase}
use p2party_js.PqHealing.Session.Calls.{IsCalm}
use p2party_js.PqHealing.Session.Guards.{length-derive_next_root}
use p2party_js.PqHealing.Session.Commits.{answered, accepted, commit_accepted-eq}
use p2party_js.PqHealing.Session.Acceptance.{accept_authenticated_advance-accepts, incrementable}

-- The ADVANCE that a machine makes.
abbrev pub advance_of : Machine → DecodedOffer → Encapsulation → List ℕ → DecodedAdvance
advance_of m o x bytes = record {
  sender_counter = m.local_counter;
  from_epoch = o.from_epoch;
  to_epoch = o.to_epoch;
  bytes = bytes;
  offer = o;
  ciphertext = x.ciphertext;
}

abbrev pub ack_of : DecodedAdvance → Acknowledgement
ack_of a = record { epoch = a.to_epoch; advance_counter = a.sender_counter }

-- The calls of the answerer: prepareAdvance, commitPreparedAdvance and, in the end,
-- acceptAuthenticatedAdvanceAcknowledgement.
pub record Answers (c : LibCrypto) (m : Machine) (o : DecodedOffer) (x : Encapsulation)
    (bytes root : List ℕ) : Type 0 where
  pub begins : prepare_advance_begin m ≡ (record m { busy = true }, ok o)
  pub prepares : prepare_advance_resume c o (some x) (record m { busy = true }) ≡ (
    record m { phase = Phase.outbound_advance_prepared o (advance_of m o x bytes) root },
    ok bytes,
  )
  pub commits :
      commit_prepared_advance
        (record m { phase = Phase.outbound_advance_prepared o (advance_of m o x bytes) root })
      ≡ (answered m o (advance_of m o x bytes) root, ok bytes)
  pub ends :
      accept_authenticated_advance_acknowledgement
        (ack_of (advance_of m o x bytes))
        (answered m o (advance_of m o x bytes) root)
      ≡ (record (answered m o (advance_of m o x bytes) root) { phase = Phase.idle }, ok tt)

-- An answerer whose encapsulation has the right lengths and whose encoding and derivation succeed
-- gets through all its calls, up to the acknowledgement of its own ADVANCE.
pub prepare_advance-Answers :
    (c : LibCrypto) (m : Machine) (o : DecodedOffer) (x : Encapsulation) (bytes root : List ℕ)
    → IsCalm m
    → m.phase ≡ Phase.inbound_offer o
    → length x.ciphertext ≡ m.suite.ciphertext_bytes
    → length x.shared_secret ≡ m.suite.shared_secret_bytes
    → encode_advance m.suite m.binding m.local_counter o x.ciphertext ≡ ok bytes
    → derive_next_root m.root_key x.shared_secret bytes c ≡ ok root
    → Answers c m o x bytes root
unfolding prepare_advance_begin prepare_advance_resume commit_prepared_advance commit_root
    accept_authenticated_advance_acknowledgement require_acknowledgement assert_synchronous
    assert_active require_bytes require_u64
prepare_advance-Answers c m o x bytes root (active, idle, valid) here hc hs encoded derived =
    let (decodes, turn, counter, epoch, room) = subst (IsPhase (frame_of m)) here valid.in_phase in
    let decoded =
      decode_advance-encode_advance m.suite m.binding m.local_counter o x.ciphertext bytes decodes
        encoded in
    let one =
      (decode_offer-OfferFacts o.bytes m.suite (some m.binding) o decodes).header.one_epoch in
    let long = length-derive_next_root c m.root_key x.shared_secret bytes root derived in
    record {
      begins = rw (active, idle, here, incrementable m.local_counter room.1);
      prepares = rw (active, not-== _ _ hc, not-== _ _ hs, encoded, decoded, derived, idle);
      commits = rw (active, idle, not-== _ _ long);
      ends = rw (
        active,
        idle,
        ltb_of_le max_u64 o.to_epoch (omega (arith, one, epoch, room.0)),
        ltb_of_le max_u64 m.local_counter valid.local_fits,
        ==_refl o.to_epoch,
        ==_refl m.local_counter,
      );
    }

-- The calls of the offerer on that ADVANCE: acceptAuthenticatedAdvance on either side of its
-- `await`, commitAcceptedAdvance and markAdvanceAcknowledgementDispatched.
pub record Accepts (c : LibCrypto) (m : Machine) (a : DecodedAdvance) (kp : KeyPair)
    (secret root : List ℕ) : Type 0 where
  pub begins :
      accept_authenticated_advance_begin a.bytes m
      ≡ (record m { busy = true }, ok (record { advance = a; offer = a.offer; key_pair = kp }))
  pub prepares :
      accept_authenticated_advance_resume c
        (record { advance = a; offer = a.offer; key_pair = kp })
        (some secret)
        (record m { busy = true })
      ≡ (record m { phase = Phase.inbound_advance_prepared a.offer a kp root }, ok tt)
  pub commits :
      commit_accepted_advance
        (record m { phase = Phase.inbound_advance_prepared a.offer a kp root })
      ≡ (accepted m a root, ok (ack_of a))
  pub ends :
      mark_advance_acknowledgement_dispatched (ack_of a) (accepted m a root)
      ≡ (record (accepted m a root) { phase = Phase.idle }, ok tt)

abbrev committing :
    Machine → Healing (DecodedOffer × DecodedAdvance × KeyPair × List ℕ) → Outcome Acknowledgement
committing m r = elim r [
  | err e ↦ (m, err e)
  | ok (o, a, kp, root) ↦
      commit_accepted a root
        (record m { phase = Phase.inbound_advance_prepared o a (destroy_key_pair kp) root })
]

commit_accepted_advance-commits :
    (m : Machine) (a : DecodedAdvance) (kp : KeyPair) (root : List ℕ)
    → m.is_destroyed ≡ false
    → m.busy ≡ false
    → length root ≡ 32
    → commit_accepted_advance
        (record m { phase = Phase.inbound_advance_prepared a.offer a kp root })
      ≡ (accepted m a root, ok (ack_of a))
unfolding commit_accepted_advance assert_synchronous assert_active
commit_accepted_advance-commits m a kp root active idle long =
    let prepared = record m { phase = Phase.inbound_advance_prepared a.offer a kp root } in
    let found : (assert_synchronous prepared >> inbound_advance_prepared_of prepared.phase)
        ≡ ok (a.offer, a, kp, root) =
      rw (active, idle) in
    ap (committing prepared) found
    ∙ commit_accepted-eq a root
        (record m { phase = Phase.inbound_advance_prepared a.offer a (destroy_key_pair kp) root })
        long

-- Take the two machines of one edge, with the same suite, binding and root and crossed counters,
-- one with a dispatched OFFER and the other with that OFFER accepted. If the encapsulated secret is
-- also what the offerer decapsulates, has the right lengths, and encoding and derivation succeed,
-- then every remaining call of both peers succeeds, the acknowledgement included, and both end
-- with the same root key and epoch and crossed counters.
pub exchange-agrees :
    (c : LibCrypto) (offerer answerer : Machine) (o : DecodedOffer) (kp : KeyPair)
    (x : Encapsulation) (bytes root : List ℕ)
    → IsCalm offerer
    → IsCalm answerer
    → offerer.phase ≡ Phase.outbound_offer true o kp
    → answerer.phase ≡ Phase.inbound_offer o
    → offerer.suite ≡ answerer.suite
    → offerer.binding ≡ answerer.binding
    → offerer.root_key ≡ answerer.root_key
    → offerer.remote_counter ≡ answerer.local_counter
    → offerer.local_counter ≡ answerer.remote_counter
    → length x.ciphertext ≡ answerer.suite.ciphertext_bytes
    → length x.shared_secret ≡ answerer.suite.shared_secret_bytes
    → encode_advance answerer.suite answerer.binding answerer.local_counter o x.ciphertext
      ≡ ok bytes
    → derive_next_root answerer.root_key x.shared_secret bytes c ≡ ok root
    → let a = advance_of answerer o x bytes in
      Answers c answerer o x bytes root
      × Accepts c offerer a kp x.shared_secret root
      × ((accepted offerer a root).root_key ≡ (answered answerer o a root).root_key)
      × ((accepted offerer a root).epoch ≡ (answered answerer o a root).epoch)
      × ((accepted offerer a root).local_counter ≡ (answered answerer o a root).remote_counter)
      × ((accepted offerer a root).remote_counter ≡ (answered answerer o a root).local_counter)
unfolding commit_accepted_advance mark_advance_acknowledgement_dispatched require_acknowledgement
    assert_synchronous assert_active require_u64
exchange-agrees c m m' o kp x bytes root calm calm' here here' suite bound rooted crossed crossed'
      hc hs encoded derived =
    let a = advance_of m' o x bytes in
    let (active, idle, valid) = calm in
    let (decodes, key, turn, counter, epoch, room) =
      subst (IsPhase (frame_of m)) here valid.in_phase in
    let (decodes', turn', counter', epoch', room') =
      subst (IsPhase (frame_of m')) here' calm'.2.in_phase in
    let decoded' =
      decode_advance-encode_advance m'.suite m'.binding m'.local_counter o x.ciphertext bytes
        decodes' encoded in
    let decoded : decode_advance bytes m.suite (some m.binding) ≡ ok a =
      rw (suite, bound) decoded' in
    let derived_here : derive_next_root m.root_key x.shared_secret bytes c ≡ ok root =
      rw rooted derived in
    let long_secret : length x.shared_secret ≡ m.suite.shared_secret_bytes = rw suite hs in
    let (begins, prepares) =
      accept_authenticated_advance-accepts c m bytes x.shared_secret root a kp calm here decoded
        refl (sym crossed) epoch long_secret derived_here in
    let one =
      (decode_offer-OfferFacts o.bytes m.suite (some m.binding) o decodes).header.one_epoch in
    let long = length-derive_next_root c m'.root_key x.shared_secret bytes root derived in
    (
      prepare_advance-Answers c m' o x bytes root calm' here' hc hs encoded derived,
      record {
        begins = begins;
        prepares = prepares;
        commits = commit_accepted_advance-commits m a kp root active idle long;
        ends = rw (
          active,
          idle,
          ltb_of_le max_u64 o.to_epoch (omega (arith, one, epoch, room.0)),
          ltb_of_le max_u64 m'.local_counter calm'.2.local_fits,
          ==_refl o.to_epoch,
          ==_refl m'.local_counter,
        );
      },
      refl,
      refl,
      ap (λ n. n + 1) crossed',
      ap (λ n. n + 1) crossed,
    )
