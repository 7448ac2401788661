-- ===== src/PqHealing/Session/Chain.antt =====
-- The key chain of an edge, and the calls that leave it as it is.
use p2party_js.Base.{ℕ, ◌+◌, ◌≡◌, refl, ◌⊎◌, Option, List, length, ok, err, ◌>>=◌}
use p2party_js.LibCrypto.{LibCrypto}
use p2party_js.PqHealing.Record.{Healing, PqHealingError}
use p2party_js.PqHealing.Codec.{Acknowledgement, DecodedOffer}
use p2party_js.PqHealing.Machine.{
  Machine, Encapsulation, Outcome, Turn, local, remote, settle, end_async_operation,
  assert_synchronous, awaited,
}
use p2party_js.PqHealing.Offering.{
  AcceptedAdvance, prepare_offer_begin, prepare_offer_resume, mark_offer_dispatched,
  abort_unsent_offer, accept_authenticated_advance_begin, accept_authenticated_advance_resume,
  mark_advance_acknowledgement_dispatched,
}
use p2party_js.PqHealing.Answering.{
  accept_authenticated_offer, prepare_advance_begin, prepare_advance_resume,
  accept_authenticated_advance_acknowledgement,
}
use p2party_js.PqHealing.Session.{Pending, launch}

pub record Chain : Type 0 where
  pub root_key : List ℕ
  pub epoch : ℕ
  pub local_counter : ℕ
  pub remote_counter : ℕ
  pub next_offerer : Turn

abbrev pub chain_of : Machine → Chain
chain_of m = record {
  root_key = m.root_key;
  epoch = m.epoch;
  local_counter = m.local_counter;
  remote_counter = m.remote_counter;
  next_offerer = m.next_offerer;
}

abbrev pub other : Turn → Turn
other local = remote
other remote = local

-- One exchange was committed: one epoch, one record of each direction, and the turn passes over.
abbrev pub IsCommit : Chain → Chain → Type 0
IsCommit k k' =
    (k'.epoch ≡ k.epoch + 1)
    × (k'.local_counter ≡ k.local_counter + 1)
    × (k'.remote_counter ≡ k.remote_counter + 1)
    × (k'.next_offerer ≡ other k.next_offerer)
    × (length k'.root_key ≡ 32)

pub record IsKept (m m' : Machine) : Type 0 where
  pub same : chain_of m ≡ chain_of m'
  pub alive : m.is_destroyed ≡ m'.is_destroyed

abbrev pub IsMove : Machine → Machine → Type 0
IsMove m m' =
    IsKept m m' ⊎ (IsCommit (chain_of m) (chain_of m') × (m.is_destroyed ≡ m'.is_destroyed))

-- A call that leaves the chain as it is.
pub record Holds {A : Type 0} (m : Machine) (o : Outcome A) : Type 0 where
  pub kept : IsKept m o.0

-- A body that leaves the chain as it is, if it writes at all.
data Keeps {A : Type 0} (m : Machine) : Healing (Machine × A) → Type 0 where
  wrote : (m' : Machine) (a : A) → IsKept m m' → Keeps m (ok (m', a))
  threw : (e : PqHealingError) → Keeps m (err e)

settle-Keeps :
    {A : Type 0} (m : Machine) (r : Healing (Machine × A)) → Keeps m r → Holds m (settle m r)
settle-Keeps m _ (wrote m' a h) = record { kept = h }
settle-Keeps m _ (threw e) = record { kept = record { same = refl; alive = refl } }

end_async_operation-Keeps :
    {A : Type 0} (m : Machine) (r : Healing (Machine × A))
    → Keeps m r
    → Holds m (end_async_operation (settle m r))
end_async_operation-Keeps m _ (wrote m' a h) = record {
  kept = record { same = h.same; alive = h.alive };
}
end_async_operation-Keeps m _ (threw e) = record { kept = record { same = refl; alive = refl } }

pub launch-IsKept :
    {A : Type 0} (m : Machine) (p : Pending) (held : A → Pending) (o : Outcome A)
    → Holds m o
    → IsKept m (launch p held o).machine
launch-IsKept m p held (m', ok a) h = h.kept
launch-IsKept m p held (m', err e) h = h.kept

bind :
    {A B : Type 0} (m : Machine) (r : Healing B) (f : B → Healing (Machine × A))
    → ((b : B) → Keeps m (f b))
    → Keeps m (r >>= f)
bind m (ok b) f h = h b
bind m (err e) f h = threw e

first :
    {A B : Type 0} (m : Machine) (r : Healing B) (f : B → Healing (Machine × A))
    → ((b : B) → Keeps m (f b))
    → Holds m (settle m (r >>= f))
first m r f h = settle-Keeps m (r >>= f) (bind m r f h)

second :
    {A B : Type 0} (m : Machine) (r : Healing B) (f : B → Healing (Machine × A))
    → ((b : B) → Keeps m (f b))
    → Holds m (end_async_operation (settle m (r >>= f)))
second m r f h = end_async_operation-Keeps m (r >>= f) (bind m r f h)

pub prepare_offer_begin-Holds : (m : Machine) → Holds m (prepare_offer_begin m)
unfolding prepare_offer_begin
prepare_offer_begin-Holds m = first m (assert_synchronous m) _ λ _. search (bind, wrote) depth 12

pub mark_offer_dispatched-Holds : (m : Machine) → Holds m (mark_offer_dispatched m)
unfolding mark_offer_dispatched
mark_offer_dispatched-Holds m = first m (assert_synchronous m) _ λ _. search (bind, wrote) depth 12

pub abort_unsent_offer-Holds : (m : Machine) → Holds m (abort_unsent_offer m)
unfolding abort_unsent_offer
abort_unsent_offer-Holds m = first m (assert_synchronous m) _ λ _. search (bind, wrote) depth 12

pub accept_authenticated_offer-Holds :
    (rec : List ℕ) (m : Machine) → Holds m (accept_authenticated_offer rec m)
unfolding accept_authenticated_offer
accept_authenticated_offer-Holds rec m =
    first m (assert_synchronous m) _ λ _. search (bind, wrote) depth 12

pub prepare_advance_begin-Holds : (m : Machine) → Holds m (prepare_advance_begin m)
unfolding prepare_advance_begin
prepare_advance_begin-Holds m = first m (assert_synchronous m) _ λ _. search (bind, wrote) depth 12

pub accept_authenticated_advance_begin-Holds :
    (rec : List ℕ) (m : Machine) → Holds m (accept_authenticated_advance_begin rec m)
unfolding accept_authenticated_advance_begin
accept_authenticated_advance_begin-Holds rec m =
    first m (assert_synchronous m) _ λ _. search (bind, wrote) depth 12

pub accept_authenticated_advance_acknowledgement-Holds :
    (ack : Acknowledgement) (m : Machine)
    → Holds m (accept_authenticated_advance_acknowledgement ack m)
unfolding accept_authenticated_advance_acknowledgement
accept_authenticated_advance_acknowledgement-Holds ack m =
    first m (assert_synchronous m) _ λ _. search (bind, wrote) depth 12

pub mark_advance_acknowledgement_dispatched-Holds :
    (ack : Acknowledgement) (m : Machine) → Holds m (mark_advance_acknowledgement_dispatched ack m)
unfolding mark_advance_acknowledgement_dispatched
mark_advance_acknowledgement_dispatched-Holds ack m =
    first m (assert_synchronous m) _ λ _. search (bind, wrote) depth 12

pub prepare_offer_resume-Holds :
    (r : Option (List ℕ × List ℕ)) (m : Machine) → Holds m (prepare_offer_resume r m)
unfolding prepare_offer_resume
prepare_offer_resume-Holds r m = second m (awaited r) _ λ _. search (bind, wrote) depth 12

pub prepare_advance_resume-Holds :
    (c : LibCrypto) (o : DecodedOffer) (r : Option Encapsulation) (m : Machine)
    → Holds m (prepare_advance_resume c o r m)
unfolding prepare_advance_resume
prepare_advance_resume-Holds c o r m = second m (awaited r) _ λ _. search (bind, wrote) depth 12

pub accept_authenticated_advance_resume-Holds :
    (c : LibCrypto) (held : AcceptedAdvance) (r : Option (List ℕ)) (m : Machine)
    → Holds m (accept_authenticated_advance_resume c held r m)
unfolding accept_authenticated_advance_resume
accept_authenticated_advance_resume-Holds c held r m =
    second m (awaited r) _ λ _. search (bind, wrote) depth 12
