-- ===== src/PqHealing/Session/Commits.antt =====
-- The invariant of a session over commitPreparedAdvance and commitAcceptedAdvance.
use mathlib.Core.Path.{subst}
use p2party_js.Base.{
  ℕ, ◌+◌, ◌≡◌, refl, sym, ap, ◌∙◌, inr, Option, some, List, arith, length, ok, err, ◌>>◌, >>=-eq_ok,
  ok-injective, not-==,
}
use p2party_js.PqHealing.Record.{Healing, require_bytes}
use p2party_js.PqHealing.Codec.{DecodedOffer, DecodedAdvance}
use p2party_js.PqHealing.Machine.{
  Machine, Phase, KeyPair, Turn, local, remote, destroy_key_pair, assert_synchronous, commit_root,
}
use p2party_js.PqHealing.Offering.{
  commit_accepted, commit_accepted_advance, inbound_advance_prepared_of,
}
use p2party_js.PqHealing.Answering.{commit_prepared_advance, outbound_advance_prepared_of}
use p2party_js.PqHealing.Session.{Pending, after}
use p2party_js.PqHealing.Session.Invariant.{
  frame_of, IsIncrementable, IsOffer, IsPhase, IsLastOffer, IsLastAdvance, IsHeld, IsSound,
}
use p2party_js.PqHealing.Session.Guards.{
  assert_synchronous-past, require_bytes-past, outbound_advance_prepared_of-eq_ok,
  inbound_advance_prepared_of-eq_ok,
}
use p2party_js.PqHealing.Session.Calls.{
  session, IsCalm, quiet, settled, machine_of, advance_parts, later_offer, later_advance,
}

abbrev pub advanced :
    Machine
    → DecodedAdvance
    → List ℕ
    → Turn
    → Option DecodedOffer
    → Option DecodedAdvance
    → Phase
    → Machine
advanced m a root turn last_offer last_advance phase = record m {
  root_key = root;
  epoch = a.to_epoch;
  local_counter = m.local_counter + 1;
  remote_counter = m.remote_counter + 1;
  next_offerer = turn;
  last_inbound_offer = last_offer;
  last_inbound_advance = last_advance;
  phase = phase;
}

-- A commit of one exchange.
advanced-IsCalm :
    (m : Machine) (a : DecodedAdvance) (root : List ℕ) (turn : Turn) (lo : Option DecodedOffer)
    (la : Option DecodedAdvance) (phase : Phase)
    → IsCalm m
    → IsIncrementable (frame_of m)
    → length root ≡ 32
    → a.to_epoch ≡ m.epoch + 1
    → IsPhase (frame_of (advanced m a root turn lo la phase)) phase
    → IsLastOffer (frame_of (advanced m a root turn lo la phase)) lo
    → IsLastAdvance (frame_of (advanced m a root turn lo la phase)) la
    → IsCalm (advanced m a root turn lo la phase)
advanced-IsCalm m a root turn lo la phase (active, idle, valid) (re, rl, rr) long next in_phase hlo
      hla =
    (
      active,
      idle,
      record {
        canonical = valid.canonical;
        bound = valid.bound;
        rooted = long;
        epoch_fits = omega (arith, next, re);
        local_fits = omega (arith, rl);
        remote_fits = omega (arith, rr);
        in_phase = in_phase;
        last_offer = hlo;
        last_advance = hla;
      },
    )

abbrev pub answered : Machine → DecodedOffer → DecodedAdvance → List ℕ → Machine
answered m o a root =
    advanced m a root local (some o) m.last_inbound_advance
      (Phase.outbound_advance_awaiting_ack o a)

answered-IsCalm :
    (m : Machine) (o : DecodedOffer) (a : DecodedAdvance) (root : List ℕ)
    → IsCalm m
    → IsPhase (frame_of m) (Phase.outbound_advance_prepared o a root)
    → IsCalm (answered m o a root)
answered-IsCalm m o a root calm (decodes, same, turn, counter, counter', epoch, long, room) =
    let (decodes', one, to) = advance_parts (frame_of m) a decodes in
    let to' = ap (λ (x : DecodedOffer). x.to_epoch) same in
    let F' = frame_of (answered m o a root) in
    advanced-IsCalm m a root local (some o) m.last_inbound_advance
      (Phase.outbound_advance_awaiting_ack o a) calm room long (omega (arith, one, epoch))
      (decodes, same, refl, omega (arith, counter), omega (arith, counter'), refl, refl)
      (subst (IsOffer (frame_of m)) same decodes', omega (arith, to, to'), omega (arith, counter'))
      (later_advance (frame_of m) F' m.last_inbound_advance refl refl (omega (arith, one, epoch))
        (omega arith) calm.2.last_advance)

pub commit_prepared_advance-IsSound :
    (m : Machine) (p : Pending)
    → IsSound (session m p)
    → IsSound (after p (commit_prepared_advance m))
unfolding commit_prepared_advance commit_root
commit_prepared_advance-IsSound m p sound = settled m p _ sound λ calm m' u e.
    let ((o, a, root), found, e1) = >>=-eq_ok (outbound_advance_prepared_of m.phase) _ e in
    let in_phase =
      subst (IsPhase (frame_of m)) (outbound_advance_prepared_of-eq_ok m.phase o a root found)
        calm.2.in_phase in
    let (m1, rooted, e2) = >>=-eq_ok (commit_root root m) _ e1 in
    let (long, e3) = require_bytes-past root 32 rooted in
    let committed =
      ap
        (λ (x : Machine). record x {
          epoch = a.to_epoch;
          local_counter = m.local_counter + 1;
          remote_counter = m.remote_counter + 1;
          next_offerer = local;
          last_inbound_offer = some o;
          phase = Phase.outbound_advance_awaiting_ack o a;
        })
        (ok-injective e3) in
    subst IsCalm (committed ∙ machine_of e2) (answered-IsCalm m o a root calm in_phase)

abbrev pub accepted : Machine → DecodedAdvance → List ℕ → Machine
accepted m a root =
    advanced m a root remote m.last_inbound_offer (some a)
      (Phase.inbound_advance_awaiting_ack_dispatch a)

accepted-IsCalm :
    (m : Machine) (o : DecodedOffer) (a : DecodedAdvance) (kp : KeyPair) (root : List ℕ)
    → IsCalm m
    → IsPhase (frame_of m) (Phase.inbound_advance_prepared o a kp root)
    → IsCalm (accepted m a root)
accepted-IsCalm m o a kp root calm
      (decodes, key, same, turn, counter, counter', epoch, long, room) =
    let (decodes', one, to) = advance_parts (frame_of m) a decodes in
    let own = ap (λ (x : DecodedOffer). x.sender_counter) same in
    let F' = frame_of (accepted m a root) in
    advanced-IsCalm m a root remote m.last_inbound_offer (some a)
      (Phase.inbound_advance_awaiting_ack_dispatch a) calm room long (omega (arith, one, epoch))
      (decodes, refl, omega (arith, counter), omega (arith, own, counter'), refl, refl)
      (later_offer (frame_of m) F' m.last_inbound_offer refl refl (omega (arith, one, epoch))
        (omega arith) calm.2.last_offer)
      (decodes, omega arith, omega (arith, counter))

-- The commit of a next root of 32 bytes does not fail, and does not read the phase it leaves.
pub commit_accepted-eq :
    (a : DecodedAdvance) (root : List ℕ) (m : Machine)
    → length root ≡ 32
    → commit_accepted a root m
      ≡ (accepted m a root, ok (record { epoch = a.to_epoch; advance_counter = a.sender_counter }))
unfolding commit_accepted commit_root require_bytes
commit_accepted-eq a root m long = rw (not-== (length root) 32 long)

commit_accepted_advance-cases :
    (m : Machine) (p : Pending) (r : Healing (DecodedOffer × DecodedAdvance × KeyPair × List ℕ))
    → IsSound (session m p)
    → (assert_synchronous m >> inbound_advance_prepared_of m.phase) ≡ r
    → IsSound (
        after p (elim r [
          | err e ↦ (m, err e)
          | ok (offer, advance, key_pair, next_root) ↦ commit_accepted advance next_root (record m {
            phase =
                Phase.inbound_advance_prepared offer advance (destroy_key_pair key_pair) next_root;
          })
        ]))
commit_accepted_advance-cases m p (err e) sound h = sound
commit_accepted_advance-cases m p (ok (o, a, kp, root)) sound h =
    let (active, idle, found) = assert_synchronous-past m h in
    let (calm, rest) = quiet m p sound active idle in
    let here = inbound_advance_prepared_of-eq_ok m.phase o a kp root found in
    let in_phase = subst (IsPhase (frame_of m)) here calm.2.in_phase in
    let (active', idle', valid) = accepted-IsCalm m o a kp root calm in_phase in
    let committed =
      commit_accepted-eq a root
        (record m { phase = Phase.inbound_advance_prepared o a (destroy_key_pair kp) root })
        in_phase.7 in
    subst (λ w. IsSound (after p w)) (sym committed)
      (inr (record {
        active = active';
        valid = valid;
        held = subst (IsHeld (accepted m a root)) (sym rest) idle';
      }))

pub commit_accepted_advance-IsSound :
    (m : Machine) (p : Pending)
    → IsSound (session m p)
    → IsSound (after p (commit_accepted_advance m))
unfolding commit_accepted_advance
commit_accepted_advance-IsSound m p sound = commit_accepted_advance-cases m p _ sound refl
