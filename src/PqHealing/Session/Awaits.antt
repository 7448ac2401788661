-- ===== src/PqHealing/Session/Awaits.antt =====
-- The invariant of a session over the `async` methods of src/cryptography/pqHealing.ts.
use mathlib.Core.Path.{subst}
use p2party_js.Base.{
  ℕ, ◌≡◌, refl, sym, ap, ◌∙◌, inl, inr, Bool, true, false, not, Option, some, List, ok, err, ◌>>=◌,
  ◌>>◌, past_guard, >>=-eq_ok, ok-injective, of_not,
}
use p2party_js.Bytes.{bytes_equal}
use p2party_js.Bytes.Laws.{bytes_equal_iff}
use p2party_js.LibCrypto.{LibCrypto}
use p2party_js.PqHealing.Record.{
  Healing, invalid_state, fork, wrong_turn, require_incrementable_u64,
}
use p2party_js.PqHealing.Codec.{
  DecodedOffer, DecodedAdvance, decode_offer, decode_advance, encode_offer, encode_advance,
  derive_next_root,
}
use p2party_js.PqHealing.Codec.Offer.{decode_offer-encode_offer}
use p2party_js.PqHealing.Codec.Advance.{decode_advance-encode_advance}
use p2party_js.PqHealing.Machine.{
  Machine, Phase, Encapsulation, settle, end_async_operation, awaited, is_local, is_idle,
  make_owned_key_pair, assert_active, reject_known_advance_replay_or_fork,
}
use p2party_js.PqHealing.Offering.{
  AcceptedAdvance, prepare_offer_begin, prepare_offer_resume, outbound_offer_of,
  accept_authenticated_advance_begin, accept_authenticated_advance_resume,
}
use p2party_js.PqHealing.Answering.{prepare_advance_begin, prepare_advance_resume, inbound_offer_of}
use p2party_js.PqHealing.Session.{
  Session, Pending, nothing, offering, answering, accepting, after, launch,
}
use p2party_js.PqHealing.Session.Invariant.{frame_of, IsPhase, IsValid, IsHeld, IsLive, IsSound}
use p2party_js.PqHealing.Session.Guards.{
  assert_active-past, require_bytes-past, is_local-eq_true, is_idle-eq_true,
  assert_can_start_exchange-past, require_expected_counter-past, require_expected_epoch-past,
  outbound_offer_of-eq_ok, inbound_offer_of-eq_ok, length-derive_next_root,
}
use p2party_js.PqHealing.Session.Calls.{
  session, IsCalm, launched, machine_of, IsOffer-own, IsAdvance-own, advance_parts,
}

-- A write of the busy flag alone.
rebusied : (m : Machine) (busy : Bool) → IsValid m → IsValid (record m { busy = busy })
rebusied m busy valid = record {
  canonical = valid.canonical;
  bound = valid.bound;
  rooted = valid.rooted;
  epoch_fits = valid.epoch_fits;
  local_fits = valid.local_fits;
  remote_fits = valid.remote_fits;
  in_phase = valid.in_phase;
  last_offer = valid.last_offer;
  last_advance = valid.last_advance;
}

begun :
    (m : Machine) (p : Pending)
    → IsCalm m
    → IsHeld (record m { busy = true }) p
    → IsLive (session (record m { busy = true }) p)
begun m p (active, idle, valid) held = record {
  active = active;
  valid = rebusied m true valid;
  held = held;
}

pub prepare_offer_begin-IsSound :
    (m : Machine) (p : Pending)
    → IsSound (session m p)
    → IsSound (launch p (λ _. offering) (prepare_offer_begin m))
unfolding prepare_offer_begin
prepare_offer_begin-IsSound m p sound = launched m p _ _ sound λ calm m' u e.
    let (g1, e1) = past_guard (not (is_idle m.phase)) invalid_state e in
    let (g2, e2) = past_guard (not (is_local m.next_offerer)) wrong_turn e1 in
    let (room, e3) = assert_can_start_exchange-past m e2 in
    let idle = is_idle-eq_true m.phase (of_not (is_idle m.phase) g1) in
    let turn = is_local-eq_true m.next_offerer (of_not (is_local m.next_offerer) g2) in
    subst (λ w. IsLive (session w offering)) (machine_of e3)
      (begun m offering calm (refl, idle, turn, room))

pub prepare_advance_begin-IsSound :
    (m : Machine) (p : Pending)
    → IsSound (session m p)
    → IsSound (launch p answering (prepare_advance_begin m))
unfolding prepare_advance_begin
prepare_advance_begin-IsSound m p sound = launched m p _ _ sound λ calm m' o e.
    let (o', found, e1) = >>=-eq_ok (inbound_offer_of m.phase) _ e in
    let (u, room, e2) = >>=-eq_ok (require_incrementable_u64 m.local_counter) _ e1 in
    let here = inbound_offer_of-eq_ok m.phase o' found in
    let same = ap (λ w. session w.0 (answering w.1)) (ok-injective e2) in
    subst IsLive same (begun m (answering o') calm (refl, here))

pub accept_authenticated_advance_begin-IsSound :
    (rec : List ℕ) (m : Machine) (p : Pending)
    → IsSound (session m p)
    → IsSound (launch p accepting (accept_authenticated_advance_begin rec m))
unfolding accept_authenticated_advance_begin
accept_authenticated_advance_begin-IsSound rec m p sound = launched m p _ _ sound λ calm m' held e.
    let (a, decoded, e1) = >>=-eq_ok (decode_advance rec m.suite (some m.binding)) _ e in
    let (u, fresh, e2) = >>=-eq_ok (reject_known_advance_replay_or_fork a m) _ e1 in
    let ((d, o, kp), found, e3) = >>=-eq_ok (outbound_offer_of m.phase) _ e2 in
    let (g4, e4) = past_guard (not d) invalid_state e3 in
    let (counter, e5) = require_expected_counter-past a.sender_counter m e4 in
    let (epoch, e6) = require_expected_epoch-past a.from_epoch m e5 in
    let (g7, e7) = past_guard (not (bytes_equal a.offer.bytes o.bytes)) fork e6 in
    let here = outbound_offer_of-eq_ok m.phase d o kp found in
    let dispatched = here ∙ ap (λ b. Phase.outbound_offer b o kp) (of_not d g4) in
    let in_phase = subst (IsPhase (frame_of m)) here calm.2.in_phase in
    let decodes = IsAdvance-own (frame_of m) rec a decoded in
    let same_bytes = (bytes_equal_iff a.offer.bytes o.bytes).0 (of_not _ g7) in
    let (answered, one, to) = advance_parts (frame_of m) a decodes in
    let same_offer =
      ok-injective (
        sym answered ∙ ap (λ b. decode_offer b m.suite (some m.binding)) same_bytes ∙ in_phase.0) in
    let same = ap (λ w. session w.0 (accepting w.1)) (ok-injective e7) in
    subst IsLive same (
      begun m (accepting (record { advance = a; offer = o; key_pair = kp })) calm
        (refl, dispatched, decodes, same_offer, counter, epoch))

IsLive-of : (s : Session) → IsSound s → s.machine.is_destroyed ≡ false → IsLive s
IsLive-of s (inl gone) active = cc
IsLive-of s (inr live) active = live

resume-elim :
    {A : Type 0} (m : Machine) (p : Pending) (r : Healing (Machine × A))
    → IsSound (session m p)
    → ((m' : Machine) (a : A) → r ≡ ok (m', a) → IsValid m' × (m'.is_destroyed ≡ false))
    → IsSound (after nothing (end_async_operation (settle m r)))
resume-elim m p (err e) (inl gone) writes = inl gone
resume-elim m p (err e) (inr live) writes =
    inr (record { active = live.active; valid = rebusied m false live.valid; held = refl })
resume-elim m p (ok (m', a)) sound writes =
    let (valid, active) = writes m' a refl in
    inr (record { active = active; valid = rebusied m' false valid; held = refl })

-- The second part: a destroyed machine refuses, and the busy flag is cleared in every case.
resumed :
    {A B : Type 0} (m : Machine) (p : Pending) (reply : Healing B) (k : B → Healing (Machine × A))
    → IsSound (session m p)
    → ((b : B) (m' : Machine) (a : A)
        → IsLive (session m p)
        → k b ≡ ok (m', a)
        → IsValid m' × (m'.is_destroyed ≡ false))
    → IsSound
        (after nothing (end_async_operation (settle m (reply >>= λ b. assert_active m >> k b))))
resumed m p reply k sound writes = resume-elim m p _ sound λ m' a e.
    let (b, got, e1) = >>=-eq_ok reply (λ x. assert_active m >> k x) e in
    let (active, e2) = assert_active-past m e1 in
    writes b m' a (IsLive-of (session m p) sound active) e2

prepared :
    (m : Machine) (p : Pending) (phase : Phase)
    → IsLive (session m p)
    → IsPhase (frame_of m) phase
    → IsValid (record m { phase = phase }) × (m.is_destroyed ≡ false)
prepared m p phase live in_phase = (
  record {
    canonical = live.valid.canonical;
    bound = live.valid.bound;
    rooted = live.valid.rooted;
    epoch_fits = live.valid.epoch_fits;
    local_fits = live.valid.local_fits;
    remote_fits = live.valid.remote_fits;
    in_phase = in_phase;
    last_offer = live.valid.last_offer;
    last_advance = live.valid.last_advance;
  },
  live.active,
)

abbrev IsAwake : Machine → Type 0
IsAwake m = IsValid m × (m.is_destroyed ≡ false)

pub prepare_offer_resume-IsSound :
    (r : Option (List ℕ × List ℕ)) (m : Machine)
    → IsSound (session m offering)
    → IsSound (after nothing (prepare_offer_resume r m))
unfolding prepare_offer_resume make_owned_key_pair
prepare_offer_resume-IsSound r m sound = resumed m offering (awaited r) _ sound λ b m' a live e.
    let (pk, e1) = require_bytes-past b.0 m.suite.public_key_bytes e in
    let (sk, e2) = require_bytes-past b.1 m.suite.secret_key_bytes e1 in
    let (bytes, encoded, e3) =
      >>=-eq_ok (encode_offer m.suite m.binding m.local_counter m.epoch b.0) _ e2 in
    let (o, decoded, e4) = >>=-eq_ok (decode_offer bytes m.suite (some m.binding)) _ e3 in
    let expected =
      decode_offer-encode_offer m.suite m.binding m.local_counter m.epoch b.0 bytes encoded in
    let same = ok-injective (sym expected ∙ decoded) in
    let key = ap (λ (x : DecodedOffer). x.public_key) same in
    let counter = ap (λ (x : DecodedOffer). x.sender_counter) (sym same) in
    let epoch = ap (λ (x : DecodedOffer). x.from_epoch) (sym same) in
    let (busy, idle, turn, room) = live.held in
    let kp = make_owned_key_pair b.0 b.1 in
    subst IsAwake (machine_of e4) (
      prepared m offering (Phase.outbound_offer false o kp) live
        (IsOffer-own (frame_of m) bytes o decoded, (key, sk, refl), turn, counter, epoch, room))

pub prepare_advance_resume-IsSound :
    (c : LibCrypto) (o : DecodedOffer) (r : Option Encapsulation) (m : Machine)
    → IsSound (session m (answering o))
    → IsSound (after nothing (prepare_advance_resume c o r m))
unfolding prepare_advance_resume
prepare_advance_resume-IsSound c o r m sound =
    resumed m (answering o) (awaited r) _ sound λ x m' u live e.
      let (ct, e1) = require_bytes-past x.ciphertext m.suite.ciphertext_bytes e in
      let (ss, e2) = require_bytes-past x.shared_secret m.suite.shared_secret_bytes e1 in
      let (bytes, encoded, e3) =
        >>=-eq_ok (encode_advance m.suite m.binding m.local_counter o x.ciphertext) _ e2 in
      let (a, decoded, e4) = >>=-eq_ok (decode_advance bytes m.suite (some m.binding)) _ e3 in
      let (root, derived, e5) =
        >>=-eq_ok (derive_next_root m.root_key x.shared_secret bytes c) _ e4 in
      let (decodes, turn, counter', epoch, room) =
        subst (IsPhase (frame_of m)) live.held.1 live.valid.in_phase in
      let expected =
        decode_advance-encode_advance m.suite m.binding m.local_counter o x.ciphertext bytes decodes
          encoded in
      let same = ok-injective (sym decoded ∙ expected) in
      let answers = ap (λ (y : DecodedAdvance). y.offer) same in
      let counter = ap (λ (y : DecodedAdvance). y.sender_counter) same in
      let from = ap (λ (y : DecodedAdvance). y.from_epoch) same in
      let long = length-derive_next_root c m.root_key x.shared_secret bytes root derived in
      subst IsAwake (machine_of e5) (
        prepared m (answering o) (Phase.outbound_advance_prepared o a root) live (
          IsAdvance-own (frame_of m) bytes a decoded,
          answers,
          turn,
          counter,
          counter',
          from ∙ epoch,
          long,
          room,
        ))

pub accept_authenticated_advance_resume-IsSound :
    (c : LibCrypto) (held : AcceptedAdvance) (r : Option (List ℕ)) (m : Machine)
    → IsSound (session m (accepting held))
    → IsSound (after nothing (accept_authenticated_advance_resume c held r m))
unfolding accept_authenticated_advance_resume
accept_authenticated_advance_resume-IsSound c h r m sound =
    resumed m (accepting h) (awaited r) _ sound λ secret m' u live e.
      let (ss, e1) = require_bytes-past secret m.suite.shared_secret_bytes e in
      let (root, derived, e2) =
        >>=-eq_ok (derive_next_root m.root_key secret h.advance.bytes c) _ e1 in
      let (busy, here, decodes, answers, counter, epoch) = live.held in
      let (decodes', key, turn, counter', epoch', room) =
        subst (IsPhase (frame_of m)) here live.valid.in_phase in
      let long = length-derive_next_root c m.root_key secret h.advance.bytes root derived in
      subst IsAwake (machine_of e2) (
        prepared m (accepting h) (Phase.inbound_advance_prepared h.offer h.advance h.key_pair root)
          live (decodes, key, answers, turn, counter, counter', epoch, long, room))
