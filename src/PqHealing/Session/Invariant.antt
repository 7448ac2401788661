-- ===== src/PqHealing/Session/Invariant.antt =====
-- What holds of a machine, and of the promise that it awaits, between two events.
use p2party_js.Base.{ℕ, ◌+◌, ◌≤◌, ◌<◌, ◌≡◌, ◌⊎◌, true, false, Option, none, some, List, length, ok}
use p2party_js.MlKem.{MlKemSuiteDescriptor, IsCanonical}
use p2party_js.PqHealing.Record.{max_u64}
use p2party_js.PqHealing.Codec.{DecodedOffer, DecodedAdvance, decode_offer, decode_advance}
use p2party_js.PqHealing.Machine.{Machine, Phase, Turn, KeyPair, local, remote}
use p2party_js.PqHealing.Session.{Session, Pending, nothing, offering, answering, accepting}

-- The fields of a machine that its phase is measured against.
pub record Frame : Type 0 where
  pub suite : MlKemSuiteDescriptor
  pub binding : List ℕ
  pub epoch : ℕ
  pub local_counter : ℕ
  pub remote_counter : ℕ
  pub next_offerer : Turn
  pub last_inbound_offer : Option DecodedOffer
  pub last_inbound_advance : Option DecodedAdvance

abbrev pub frame_of : Machine → Frame
frame_of m = record {
  suite = m.suite;
  binding = m.binding;
  epoch = m.epoch;
  local_counter = m.local_counter;
  remote_counter = m.remote_counter;
  next_offerer = m.next_offerer;
  last_inbound_offer = m.last_inbound_offer;
  last_inbound_advance = m.last_inbound_advance;
}

-- Another exchange fits the 64-bit counters.
abbrev pub IsIncrementable : Frame → Type 0
IsIncrementable m = (m.epoch < max_u64) × (m.local_counter < max_u64) × (m.remote_counter < max_u64)

-- A record of this edge that is what its bytes decode to.
abbrev pub IsOffer : Frame → DecodedOffer → Type 0
IsOffer m o = decode_offer o.bytes m.suite (some m.binding) ≡ ok o

abbrev pub IsAdvance : Frame → DecodedAdvance → Type 0
IsAdvance m a = decode_advance a.bytes m.suite (some m.binding) ≡ ok a

-- A live key pair for the OFFER that carries its public key.
abbrev pub IsKeyFor : Frame → DecodedOffer → KeyPair → Type 0
IsKeyFor m o kp =
    (kp.public_key ≡ o.public_key)
    × (length kp.secret_key ≡ m.suite.secret_key_bytes)
    × (kp.wiped ≡ false)

abbrev pub IsPhase : Frame → Phase → Type 0
IsPhase m Phase.idle = Unit
IsPhase m (Phase.outbound_offer dispatched o kp) =
    IsOffer m o
    × IsKeyFor m o kp
    × (m.next_offerer ≡ local)
    × (o.sender_counter ≡ m.local_counter)
    × (o.from_epoch ≡ m.epoch)
    × IsIncrementable m
IsPhase m (Phase.inbound_offer o) =
    IsOffer m o
    × (m.next_offerer ≡ remote)
    × (o.sender_counter ≡ m.remote_counter)
    × (o.from_epoch ≡ m.epoch)
    × IsIncrementable m
IsPhase m (Phase.outbound_advance_prepared o a root) =
    IsAdvance m a
    × (a.offer ≡ o)
    × (m.next_offerer ≡ remote)
    × (a.sender_counter ≡ m.local_counter)
    × (o.sender_counter ≡ m.remote_counter)
    × (a.from_epoch ≡ m.epoch)
    × (length root ≡ 32)
    × IsIncrementable m
IsPhase m (Phase.outbound_advance_awaiting_ack o a) =
    IsAdvance m a
    × (a.offer ≡ o)
    × (m.next_offerer ≡ local)
    × (a.sender_counter + 1 ≡ m.local_counter)
    × (o.sender_counter + 1 ≡ m.remote_counter)
    × (a.to_epoch ≡ m.epoch)
    × (m.last_inbound_offer ≡ some o)
IsPhase m (Phase.inbound_advance_prepared o a kp root) =
    IsAdvance m a
    × IsKeyFor m o kp
    × (a.offer ≡ o)
    × (m.next_offerer ≡ local)
    × (a.sender_counter ≡ m.remote_counter)
    × (o.sender_counter ≡ m.local_counter)
    × (a.from_epoch ≡ m.epoch)
    × (length root ≡ 32)
    × IsIncrementable m
IsPhase m (Phase.inbound_advance_awaiting_ack_dispatch a) =
    IsAdvance m a
    × (m.next_offerer ≡ remote)
    × (a.sender_counter + 1 ≡ m.remote_counter)
    × (a.offer.sender_counter + 1 ≡ m.local_counter)
    × (a.to_epoch ≡ m.epoch)
    × (m.last_inbound_advance ≡ some a)

-- The last inbound records were consumed.
abbrev pub IsLastOffer : Frame → Option DecodedOffer → Type 0
IsLastOffer m none = Unit
IsLastOffer m (some o) =
    IsOffer m o × (o.to_epoch ≤ m.epoch) × (o.sender_counter < m.remote_counter)

abbrev pub IsLastAdvance : Frame → Option DecodedAdvance → Type 0
IsLastAdvance m none = Unit
IsLastAdvance m (some a) =
    IsAdvance m a × (a.to_epoch ≤ m.epoch) × (a.sender_counter < m.remote_counter)

-- A machine that is not destroyed.
pub record IsValid (m : Machine) : Type 0 where
  pub canonical : IsCanonical m.suite
  pub bound : length m.binding ≡ 32
  pub rooted : length m.root_key ≡ 32
  pub epoch_fits : m.epoch ≤ max_u64
  pub local_fits : m.local_counter ≤ max_u64
  pub remote_fits : m.remote_counter ≤ max_u64
  pub in_phase : IsPhase (frame_of m) m.phase
  pub last_offer : IsLastOffer (frame_of m) m.last_inbound_offer
  pub last_advance : IsLastAdvance (frame_of m) m.last_inbound_advance

-- The machine is busy just when a promise is awaited, and what is held across the `await` is
-- still what the phase says.
abbrev pub IsHeld : Machine → Pending → Type 0
IsHeld m nothing = m.busy ≡ false
IsHeld m offering =
    (m.busy ≡ true)
    × (m.phase ≡ Phase.idle)
    × (m.next_offerer ≡ local)
    × IsIncrementable (frame_of m)
IsHeld m (answering o) = (m.busy ≡ true) × (m.phase ≡ Phase.inbound_offer o)
IsHeld m (accepting held) =
    (m.busy ≡ true)
    × (m.phase ≡ Phase.outbound_offer true held.offer held.key_pair)
    × IsAdvance (frame_of m) held.advance
    × (held.advance.offer ≡ held.offer)
    × (held.advance.sender_counter ≡ m.remote_counter)
    × (held.advance.from_epoch ≡ m.epoch)

-- A live session: neither destroyed nor incoherent.
pub record IsLive (s : Session) : Type 0 where
  pub active : s.machine.is_destroyed ≡ false
  pub valid : IsValid s.machine
  pub held : IsHeld s.machine s.pending

abbrev pub IsSound : Session → Type 0
IsSound s = (s.machine.is_destroyed ≡ true) ⊎ IsLive s
