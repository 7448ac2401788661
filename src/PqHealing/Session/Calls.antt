-- ===== src/PqHealing/Session/Calls.antt =====
-- The invariant of a session over the synchronous methods, commits aside.
use mathlib.Core.Path.{subst}
use p2party_js.Base.{
  ℕ, ◌+◌, ◌≤◌, ◌≡◌, refl, sym, ap, ◌∙◌, inl, inr, true, false, not, Option, none, some, List, arith,
  ok, err, ◌>>◌, past_guard, >>=-eq_ok, ok-injective,
}
use p2party_js.PqHealing.Record.{Healing, invalid_record, invalid_state, wrong_turn}
use p2party_js.PqHealing.Codec.{
  Acknowledgement, DecodedOffer, DecodedAdvance, decode_offer, decode_advance,
  require_acknowledgement,
}
use p2party_js.PqHealing.Codec.Offer.{decode_offer-OfferFacts}
use p2party_js.PqHealing.Codec.Advance.{decode_advance-AdvanceFacts, offer_of_AdvanceFacts}
use p2party_js.PqHealing.Machine.{
  Machine, Phase, settle, is_local, is_idle, assert_synchronous, reject_known_offer_replay_or_fork,
}
use p2party_js.PqHealing.Offering.{
  mark_offer_dispatched, outbound_offer_of, abort_unsent_offer,
  mark_advance_acknowledgement_dispatched, inbound_advance_awaiting_of,
}
use p2party_js.PqHealing.Answering.{
  accept_authenticated_offer, accept_authenticated_advance_acknowledgement,
  outbound_advance_awaiting_of,
}
use p2party_js.PqHealing.Session.{
  Session, Pending, nothing, offering, answering, accepting, after, launch,
}
use p2party_js.PqHealing.Session.Invariant.{
  Frame, frame_of, IsOffer, IsAdvance, IsPhase, IsLastOffer, IsLastAdvance, IsValid, IsHeld, IsLive,
  IsSound,
}
use p2party_js.PqHealing.Session.Guards.{
  assert_synchronous-past, is_local-eq_false, assert_can_start_exchange-past,
  require_expected_counter-past, require_expected_epoch-past, outbound_offer_of-eq_ok,
}

abbrev pub session : Machine → Pending → Session
session m p = record { machine = m; pending = p }

-- A valid machine that awaits nothing.
abbrev pub IsCalm : Machine → Type 0
IsCalm m = (m.is_destroyed ≡ false) × (m.busy ≡ false) × IsValid m

-- A machine that takes a call awaits nothing.
pub quiet :
    (m : Machine) (p : Pending)
    → IsSound (session m p)
    → m.is_destroyed ≡ false
    → m.busy ≡ false
    → IsCalm m × (p ≡ nothing)
quiet m p (inl gone) active idle = cc
quiet m nothing (inr live) active idle = ((active, idle, live.valid), refl)
quiet m offering (inr live) active idle = let busy = live.held.0 in cc
quiet m (answering o) (inr live) active idle = let busy = live.held.0 in cc
quiet m (accepting held) (inr live) active idle = let busy = live.held.0 in cc

pub settle-elim :
    {A : Type 0} (m : Machine) (p : Pending) (r : Healing (Machine × A))
    → IsSound (session m p)
    → ((m' : Machine) (a : A) → r ≡ ok (m', a) → IsSound (session m' p))
    → IsSound (after p (settle m r))
settle-elim m p (err e) sound writes = sound
settle-elim m p (ok (m', a)) sound writes = writes m' a refl

launch-elim :
    {A : Type 0} (m : Machine) (p : Pending) (held : A → Pending) (r : Healing (Machine × A))
    → IsSound (session m p)
    → ((m' : Machine) (a : A) → r ≡ ok (m', a) → IsSound (session m' (held a)))
    → IsSound (launch p held (settle m r))
launch-elim m p held (err e) sound writes = sound
launch-elim m p held (ok (m', a)) sound writes = writes m' a refl

-- A call without an `await`: it is enough that what it writes is valid.
pub settled :
    {A : Type 0} (m : Machine) (p : Pending) (k : Healing (Machine × A))
    → IsSound (session m p)
    → (IsCalm m → (m' : Machine) (a : A) → k ≡ ok (m', a) → IsCalm m')
    → IsSound (after p (settle m (assert_synchronous m >> k)))
settled m p k sound writes = settle-elim m p _ sound λ m' a e.
    let (active, idle, e') = assert_synchronous-past m e in
    let (calm, rest) = quiet m p sound active idle in
    let (active', idle', valid) = writes calm m' a e' in
    inr (record { active = active'; valid = valid; held = subst (IsHeld m') (sym rest) idle' })

-- The first part of an `async` call.
pub launched :
    {A : Type 0} (m : Machine) (p : Pending) (held : A → Pending) (k : Healing (Machine × A))
    → IsSound (session m p)
    → (IsCalm m → (m' : Machine) (a : A) → k ≡ ok (m', a) → IsLive (session m' (held a)))
    → IsSound (launch p held (settle m (assert_synchronous m >> k)))
launched m p held k sound writes = launch-elim m p held _ sound λ m' a e.
    let (active, idle, e') = assert_synchronous-past m e in
    inr (writes (quiet m p sound active idle).0 m' a e')

-- A write of the phase alone.
pub rephased :
    (m : Machine) (phase : Phase)
    → IsCalm m
    → IsPhase (frame_of m) phase
    → IsCalm (record m { phase = phase })
rephased m phase (active, idle, valid) in_phase = (
  active,
  idle,
  record {
    canonical = valid.canonical;
    bound = valid.bound;
    rooted = valid.rooted;
    epoch_fits = valid.epoch_fits;
    local_fits = valid.local_fits;
    remote_fits = valid.remote_fits;
    in_phase = in_phase;
    last_offer = valid.last_offer;
    last_advance = valid.last_advance;
  },
)

-- The machine of a result.
pub machine_of :
    {A : Type 0} {m m' : Machine} {x a : A}
    → ◌≡◌ {A = Healing (Machine × A)} (ok (m, x)) (ok (m', a))
    → m ≡ m'
machine_of e = ap (λ w. w.0) (ok-injective e)

pub mark_offer_dispatched-IsSound :
    (m : Machine) (p : Pending)
    → IsSound (session m p)
    → IsSound (after p (mark_offer_dispatched m))
unfolding mark_offer_dispatched
mark_offer_dispatched-IsSound m p sound = settled m p _ sound λ calm m' a e.
    let ((d, o, kp), found, e1) = >>=-eq_ok (outbound_offer_of m.phase) _ e in
    let in_phase =
      subst (IsPhase (frame_of m)) (outbound_offer_of-eq_ok m.phase d o kp found) calm.2.in_phase in
    let (g, e2) = past_guard d invalid_state e1 in
    subst IsCalm (machine_of e2) (rephased m (Phase.outbound_offer true o kp) calm in_phase)

pub abort_unsent_offer-IsSound :
    (m : Machine) (p : Pending) → IsSound (session m p) → IsSound (after p (abort_unsent_offer m))
unfolding abort_unsent_offer
abort_unsent_offer-IsSound m p sound = settled m p _ sound λ calm m' a e.
    let ((d, o, kp), found, e1) = >>=-eq_ok (outbound_offer_of m.phase) _ e in
    let (g, e2) = past_guard d invalid_state e1 in
    subst IsCalm (machine_of e2) (rephased m Phase.idle calm tt)

-- The facts that a decoded record brings into a phase.
pub IsOffer-own :
    (F : Frame) (rec : List ℕ) (o : DecodedOffer)
    → decode_offer rec F.suite (some F.binding) ≡ ok o
    → IsOffer F o
IsOffer-own F rec o e =
    let facts = decode_offer-OfferFacts rec F.suite (some F.binding) o e in
    ap (λ b. decode_offer b F.suite (some F.binding)) facts.own ∙ e

pub IsAdvance-own :
    (F : Frame) (rec : List ℕ) (a : DecodedAdvance)
    → decode_advance rec F.suite (some F.binding) ≡ ok a
    → IsAdvance F a
IsAdvance-own F rec a e =
    let facts = decode_advance-AdvanceFacts rec F.suite (some F.binding) a e in
    ap (λ b. decode_advance b F.suite (some F.binding)) facts.own ∙ e

pub advance_parts :
    (F : Frame) (a : DecodedAdvance)
    → IsAdvance F a
    → IsOffer F a.offer × (a.to_epoch ≡ a.from_epoch + 1) × (a.offer.to_epoch ≡ a.to_epoch)
advance_parts F a e =
    let facts = decode_advance-AdvanceFacts a.bytes F.suite (some F.binding) a e in
    let (own, decodes) = offer_of_AdvanceFacts a.bytes F.suite (some F.binding) a facts in
    (decodes, facts.header.one_epoch, facts.same_to)

pub accept_authenticated_offer-IsSound :
    (rec : List ℕ) (m : Machine) (p : Pending)
    → IsSound (session m p)
    → IsSound (after p (accept_authenticated_offer rec m))
unfolding accept_authenticated_offer
accept_authenticated_offer-IsSound rec m p sound = settled m p _ sound λ calm m' a e.
    let (o, decoded, e1) = >>=-eq_ok (decode_offer rec m.suite (some m.binding)) _ e in
    let (u, fresh, e2) = >>=-eq_ok (reject_known_offer_replay_or_fork o m) _ e1 in
    let (g3, e3) = past_guard (not (is_idle m.phase)) invalid_state e2 in
    let (g4, e4) = past_guard (is_local m.next_offerer) wrong_turn e3 in
    let (counter, e5) = require_expected_counter-past o.sender_counter m e4 in
    let (epoch, e6) = require_expected_epoch-past o.from_epoch m e5 in
    let (room, e7) = assert_can_start_exchange-past m e6 in
    subst IsCalm (machine_of e7) (
      rephased m (Phase.inbound_offer o) calm (
        IsOffer-own (frame_of m) rec o decoded,
        is_local-eq_false m.next_offerer g4,
        counter,
        epoch,
        room,
      ))

pub accept_authenticated_advance_acknowledgement-IsSound :
    (ack : Acknowledgement) (m : Machine) (p : Pending)
    → IsSound (session m p)
    → IsSound (after p (accept_authenticated_advance_acknowledgement ack m))
unfolding accept_authenticated_advance_acknowledgement
accept_authenticated_advance_acknowledgement-IsSound ack m p sound =
    settled m p _ sound λ calm m' u e.
      let (ack', checked, e1) = >>=-eq_ok (require_acknowledgement ack) _ e in
      let (a, found, e2) = >>=-eq_ok (outbound_advance_awaiting_of m.phase) _ e1 in
      let (g3, e3) = past_guard _ invalid_record e2 in
      subst IsCalm (machine_of e3) (rephased m Phase.idle calm tt)

pub mark_advance_acknowledgement_dispatched-IsSound :
    (ack : Acknowledgement) (m : Machine) (p : Pending)
    → IsSound (session m p)
    → IsSound (after p (mark_advance_acknowledgement_dispatched ack m))
unfolding mark_advance_acknowledgement_dispatched
mark_advance_acknowledgement_dispatched-IsSound ack m p sound = settled m p _ sound λ calm m' u e.
    let (ack', checked, e1) = >>=-eq_ok (require_acknowledgement ack) _ e in
    let (a, found, e2) = >>=-eq_ok (inbound_advance_awaiting_of m.phase) _ e1 in
    let (g3, e3) = past_guard _ invalid_record e2 in
    subst IsCalm (machine_of e3) (rephased m Phase.idle calm tt)

-- Records consumed before a commit stay consumed behind it.
pub later_offer :
    (F F' : Frame) (last : Option DecodedOffer)
    → F.suite ≡ F'.suite
    → F.binding ≡ F'.binding
    → F.epoch ≤ F'.epoch
    → F.remote_counter ≤ F'.remote_counter
    → IsLastOffer F last
    → IsLastOffer F' last
later_offer F F' none hs hb he hr h = tt
later_offer F F' (some o) hs hb he hr (decodes, epoch, counter) =
    (cc, omega (arith, epoch, he), omega (arith, counter, hr))

pub later_advance :
    (F F' : Frame) (last : Option DecodedAdvance)
    → F.suite ≡ F'.suite
    → F.binding ≡ F'.binding
    → F.epoch ≤ F'.epoch
    → F.remote_counter ≤ F'.remote_counter
    → IsLastAdvance F last
    → IsLastAdvance F' last
later_advance F F' none hs hb he hr h = tt
later_advance F F' (some a) hs hb he hr (decodes, epoch, counter) =
    (cc, omega (arith, epoch, he), omega (arith, counter, hr))
