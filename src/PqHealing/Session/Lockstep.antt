-- ===== src/PqHealing/Session/Lockstep.antt =====
-- The key chain of an edge over the steps of src/cryptography/pqHealing.ts.
use mathlib.Core.Path.{subst}
use p2party_js.Base.{
  ℕ, ◌+◌, ◌≡◌, refl, ap, sym, ◌∙◌, ◌⊎◌, inl, inr, true, Option, some, List, arith, length, ok, err,
  ◌>>◌, >>=-eq_ok, ok-injective, Bool-cases,
}
use p2party_js.LibCrypto.{LibCrypto}
use p2party_js.PqHealing.Record.{Healing}
use p2party_js.PqHealing.Codec.{Acknowledgement, DecodedOffer, DecodedAdvance}
use p2party_js.PqHealing.Machine.{
  Machine, Phase, KeyPair, Encapsulation, Outcome, local, settle, destroy_key_pair, commit_root,
  assert_synchronous,
}
use p2party_js.PqHealing.Offering.{
  prepare_offer_begin, accept_authenticated_advance_begin, commit_accepted, commit_accepted_advance,
  inbound_advance_prepared_of,
}
use p2party_js.PqHealing.Answering.{
  prepare_advance_begin, commit_prepared_advance, outbound_advance_prepared_of,
}
use p2party_js.PqHealing.Ownership.{destroy}
use p2party_js.PqHealing.Session.{
  Session, Pending, Event, nothing, offering, answering, accepting, step, reply_generated,
  reply_encapsulated, reply_decapsulated,
}
use p2party_js.PqHealing.Session.Invariant.{frame_of, IsPhase, IsSound}
use p2party_js.PqHealing.Session.Guards.{
  assert_synchronous-past, require_bytes-past, outbound_advance_prepared_of-eq_ok,
  inbound_advance_prepared_of-eq_ok,
}
use p2party_js.PqHealing.Session.Calls.{session, quiet, advance_parts, machine_of}
use p2party_js.PqHealing.Session.Commits.{commit_accepted-eq}
use p2party_js.PqHealing.Session.Chain.{
  Chain, chain_of, other, IsKept, IsMove, launch-IsKept, prepare_offer_begin-Holds,
  mark_offer_dispatched-Holds, abort_unsent_offer-Holds, accept_authenticated_offer-Holds,
  prepare_advance_begin-Holds, accept_authenticated_advance_begin-Holds,
  accept_authenticated_advance_acknowledgement-Holds, mark_advance_acknowledgement_dispatched-Holds,
  prepare_offer_resume-Holds, prepare_advance_resume-Holds,
  accept_authenticated_advance_resume-Holds,
}

record Moves {A : Type 0} (m : Machine) (o : Outcome A) : Type 0 where
  moved : IsMove m o.0

settle-Moves :
    {A : Type 0} (m : Machine) (k : Healing (Machine × A))
    → ((m' : Machine) (a : A) → (assert_synchronous m >> k) ≡ ok (m', a) → IsMove m m')
    → Moves m (settle m (assert_synchronous m >> k))
settle-Moves m k writes = by_cases (assert_synchronous m >> k) writes
  where
    by_cases :
        {A : Type 0} (r : Healing (Machine × A))
        → ((m' : Machine) (a : A) → r ≡ ok (m', a) → IsMove m m')
        → Moves m (settle m r)
    by_cases (err e) writes = record { moved = inl (record { same = refl; alive = refl }) }
    by_cases (ok (m', a)) writes = record { moved = writes m' a refl }

commit_prepared_advance-Moves :
    (m : Machine) (p : Pending) → IsSound (session m p) → Moves m (commit_prepared_advance m)
unfolding commit_prepared_advance commit_root
commit_prepared_advance-Moves m p sound = settle-Moves m _ λ m' u e.
    let (active, idle, e0) = assert_synchronous-past m e in
    let valid = (quiet m p sound active idle).0.2 in
    let ((o, a, root), found, e1) = >>=-eq_ok (outbound_advance_prepared_of m.phase) _ e0 in
    let (decodes, same, turn, counter, counter', epoch, long, room) =
      subst (IsPhase (frame_of m)) (outbound_advance_prepared_of-eq_ok m.phase o a root found)
        valid.in_phase in
    let (decodes', one, to) = advance_parts (frame_of m) a decodes in
    let (m1, rooted, e2) = >>=-eq_ok (commit_root root m) _ e1 in
    let (long', e3) = require_bytes-past root 32 rooted in
    let root_of = ap (λ (x : Machine). x.root_key) (ok-injective e3) in
    let now : ◌≡◌ {A = Machine}
        (record m1 {
          epoch = a.to_epoch;
          local_counter = m.local_counter + 1;
          remote_counter = m.remote_counter + 1;
          next_offerer = local;
          last_inbound_offer = some o;
          phase = Phase.outbound_advance_awaiting_ack o a;
        })
        m' =
      machine_of e2 in
    let written : ◌≡◌ {A = Chain}
        (record {
          root_key = m1.root_key;
          epoch = a.to_epoch;
          local_counter = m.local_counter + 1;
          remote_counter = m.remote_counter + 1;
          next_offerer = local;
        })
        (chain_of m') =
      λ i. chain_of (now i) in
    let epochs = ap (λ (k : Chain). k.epoch) written in
    let locals = ap (λ (k : Chain). k.local_counter) written in
    let remotes = ap (λ (k : Chain). k.remote_counter) written in
    let turns = ap (λ (k : Chain). k.next_offerer) written in
    let roots = ap (λ (k : Chain). k.root_key) written in
    let alive =
      ap (λ (x : Machine). x.is_destroyed) (ok-injective e3) ∙ (λ i. (now i).is_destroyed) in
    inr (
      (
        omega (arith, epochs, one, epoch),
        sym locals,
        sym remotes,
        sym turns ∙ sym (ap other turn),
        ap length (sym (root_of ∙ roots)) ∙ long,
      ),
      alive,
    )

commit_accepted_advance-Moves_cases :
    (m : Machine) (p : Pending) (r : Healing (DecodedOffer × DecodedAdvance × KeyPair × List ℕ))
    → IsSound (session m p)
    → (assert_synchronous m >> inbound_advance_prepared_of m.phase) ≡ r
    → Moves {A = Acknowledgement} m (elim r [
      | err e ↦ (m, err e)
      | ok (offer, advance, key_pair, next_root) ↦ commit_accepted advance next_root (record m {
        phase = Phase.inbound_advance_prepared offer advance (destroy_key_pair key_pair) next_root;
      })
    ])
commit_accepted_advance-Moves_cases m p (err e) sound h = record {
  moved = inl (record { same = refl; alive = refl });
}
commit_accepted_advance-Moves_cases m p (ok (o, a, kp, root)) sound h =
    let (active, idle, found) = assert_synchronous-past m h in
    let valid = (quiet m p sound active idle).0.2 in
    let here = inbound_advance_prepared_of-eq_ok m.phase o a kp root found in
    let (decodes, key, same, turn, counter, counter', epoch, long, room) =
      subst (IsPhase (frame_of m)) here valid.in_phase in
    let (decodes', one, to) = advance_parts (frame_of m) a decodes in
    let committed =
      commit_accepted-eq a root
        (record m { phase = Phase.inbound_advance_prepared o a (destroy_key_pair kp) root }) long in
    subst (Moves m) (sym committed) (record {
      moved = inr ((omega (arith, one, epoch), refl, refl, sym (ap other turn), long), refl);
    })

commit_accepted_advance-Moves :
    (m : Machine) (p : Pending) → IsSound (session m p) → Moves m (commit_accepted_advance m)
unfolding commit_accepted_advance
commit_accepted_advance-Moves m p sound = commit_accepted_advance-Moves_cases m p _ sound refl

pub destroy-is_destroyed : (m : Machine) → (destroy m).is_destroyed ≡ true
unfolding destroy
destroy-is_destroyed m = elim (Bool-cases m.is_destroyed) [
  | inl gone ↦ rw gone
  | inr active ↦ rw active
]

reply_generated-IsKept :
    (r : Option (List ℕ × List ℕ)) (p : Pending) (m : Machine)
    → IsKept m (reply_generated r p m).machine
unfolding reply_generated
reply_generated-IsKept r nothing m = record { same = refl; alive = refl }
reply_generated-IsKept r offering m = (prepare_offer_resume-Holds r m).kept
reply_generated-IsKept r (answering o) m = record { same = refl; alive = refl }
reply_generated-IsKept r (accepting held) m = record { same = refl; alive = refl }

reply_encapsulated-IsKept :
    (c : LibCrypto) (r : Option Encapsulation) (p : Pending) (m : Machine)
    → IsKept m (reply_encapsulated c r p m).machine
unfolding reply_encapsulated
reply_encapsulated-IsKept c r nothing m = record { same = refl; alive = refl }
reply_encapsulated-IsKept c r offering m = record { same = refl; alive = refl }
reply_encapsulated-IsKept c r (answering o) m = (prepare_advance_resume-Holds c o r m).kept
reply_encapsulated-IsKept c r (accepting held) m = record { same = refl; alive = refl }

reply_decapsulated-IsKept :
    (c : LibCrypto) (r : Option (List ℕ)) (p : Pending) (m : Machine)
    → IsKept m (reply_decapsulated c r p m).machine
unfolding reply_decapsulated
reply_decapsulated-IsKept c r nothing m = record { same = refl; alive = refl }
reply_decapsulated-IsKept c r offering m = record { same = refl; alive = refl }
reply_decapsulated-IsKept c r (answering o) m = record { same = refl; alive = refl }
reply_decapsulated-IsKept c r (accepting held) m =
    (accept_authenticated_advance_resume-Holds c held r m).kept

-- A step of a sound session destroys the machine, or leaves its root key, epoch, counters and turn
-- as they are, or commits one exchange: then the epoch and both counters grow by one, the turn
-- passes over and the new root has 32 bytes.
pub step-IsMove :
    (c : LibCrypto) (e : Event) (s : Session)
    → IsSound s
    → ((step c e s).machine.is_destroyed ≡ true) ⊎ IsMove s.machine (step c e s).machine
unfolding step
step-IsMove c Event.prepares_offer s h = inr (
    inl (
      launch-IsKept s.machine s.pending _ (prepare_offer_begin s.machine)
        (prepare_offer_begin-Holds s.machine)))
step-IsMove c Event.marks_offer s h = inr (inl (mark_offer_dispatched-Holds s.machine).kept)
step-IsMove c Event.aborts_offer s h = inr (inl (abort_unsent_offer-Holds s.machine).kept)
step-IsMove c Event.prepares_advance s h = inr (
    inl (
      launch-IsKept s.machine s.pending _ (prepare_advance_begin s.machine)
        (prepare_advance_begin-Holds s.machine)))
step-IsMove c Event.commits_prepared s h =
    inr (commit_prepared_advance-Moves s.machine s.pending h).moved
step-IsMove c Event.commits_accepted s h =
    inr (commit_accepted_advance-Moves s.machine s.pending h).moved
step-IsMove c Event.destroys s h = inl (destroy-is_destroyed s.machine)
step-IsMove c (Event.accepts_offer rec) s h =
    inr (inl (accept_authenticated_offer-Holds rec s.machine).kept)
step-IsMove c (Event.accepts_advance rec) s h = inr (
    inl (
      launch-IsKept s.machine s.pending _ (accept_authenticated_advance_begin rec s.machine)
        (accept_authenticated_advance_begin-Holds rec s.machine)))
step-IsMove c (Event.accepts_ack ack) s h =
    inr (inl (accept_authenticated_advance_acknowledgement-Holds ack s.machine).kept)
step-IsMove c (Event.marks_ack ack) s h =
    inr (inl (mark_advance_acknowledgement_dispatched-Holds ack s.machine).kept)
step-IsMove c (Event.generated r) s h = inr (inl (reply_generated-IsKept r s.pending s.machine))
step-IsMove c (Event.encapsulated r) s h =
    inr (inl (reply_encapsulated-IsKept c r s.pending s.machine))
step-IsMove c (Event.decapsulated r) s h =
    inr (inl (reply_decapsulated-IsKept c r s.pending s.machine))

-- A destroyed machine stays destroyed.
pub step-destroyed :
    (c : LibCrypto) (e : Event) (s : Session)
    → IsSound s
    → s.machine.is_destroyed ≡ true
    → (step c e s).machine.is_destroyed ≡ true
step-destroyed c e s sound gone = elim (step-IsMove c e s sound) [
  | inl now ↦ now
  | inr (inl kept) ↦ sym kept.alive ∙ gone
  | inr (inr commit) ↦ sym commit.1 ∙ gone
]

-- So many exchanges later.
abbrev pub IsAhead : ℕ → Machine → Machine → Type 0
IsAhead n m m' =
    (m'.epoch ≡ m.epoch + n)
    × (m'.local_counter ≡ m.local_counter + n)
    × (m'.remote_counter ≡ m.remote_counter + n)

pub move-IsAhead : (m m' : Machine) → IsMove m m' → (n : ℕ) × IsAhead n m m'
move-IsAhead m m' (inl kept) =
    let epoch = ap (λ (k : Chain). k.epoch) kept.same in
    let own = ap (λ (k : Chain). k.local_counter) kept.same in
    let other_counter = ap (λ (k : Chain). k.remote_counter) kept.same in
    (0, (omega (arith, epoch), omega (arith, own), omega (arith, other_counter)))
move-IsAhead m m' (inr ((epoch, own, other_counter, turn, long), alive)) =
    (1, (epoch, own, other_counter))
