-- ===== src/Ratchet/Checkpoint.antt =====
-- src/cryptography/ratchet.ts: the projection that is stored, and the copies of a live state.
use p2party_js.Base.{
  ℕ, not, Option, none, some, List, [], ◌∷◌, length, replicate, ok, err, if◌then◌else◌,
}
use p2party_js.Maps.{bytes_key, map_set}
use p2party_js.Ratchet.Kdf.{different_root_suite}
use p2party_js.Ratchet.SlotKeys.{skipped_key, read_key}
use p2party_js.Ratchet.State.{Slot, RatchetRootSuite, RatchetState, same_suite, Call}

pub record SkippedMessageKey : Type 0 where
  pub dh_pub : List ℕ
  pub n : ℕ
  pub message_key : List ℕ

pub record RatchetSessionSecrets : Type 0 where
  pub root_suite : RatchetRootSuite
  pub root_key : List ℕ
  pub sending_chain_key : Option (List ℕ)
  pub receiving_chain_key : Option (List ℕ)
  pub dh_self_pub : List ℕ
  pub dh_self_sec : List ℕ
  pub dh_remote_pub : Option (List ℕ)
  pub ns : ℕ
  pub nr : ℕ
  pub pn : ℕ
  pub skipped_message_keys : List SkippedMessageKey

-- The entries of the map as the source holds them, with a string for the slot.
unfoldable pub keyed : List (Slot × List ℕ) → List (List ℕ × List ℕ)
unfolding skipped_key
keyed [] = []
keyed ((slot, message_key) ∷ m) = (skipped_key slot, message_key) ∷ keyed m

unfoldable pub flatten : List (List ℕ × List ℕ) → List SkippedMessageKey
unfolding read_key
flatten [] = []
flatten ((key, message_key) ∷ m) =
    record { dh_pub = (read_key key).0; n = (read_key key).1; message_key = message_key }
    ∷ flatten m

unfoldable pub serialize_ratchet : RatchetState → RatchetSessionSecrets
unfolding flatten keyed
serialize_ratchet s = record {
  root_suite = s.root_suite;
  root_key = s.root_key;
  sending_chain_key = s.sending_chain_key;
  receiving_chain_key = s.receiving_chain_key;
  dh_self_pub = s.dh_self_pub;
  dh_self_sec = s.dh_self_sec;
  dh_remote_pub = s.dh_remote_pub;
  ns = s.ns;
  nr = s.nr;
  pn = s.pn;
  skipped_message_keys = flatten (keyed s.skipped);
}

-- The loop, from the entries written so far.
unfoldable pub rebuild : List (List ℕ × List ℕ) → List SkippedMessageKey → List (List ℕ × List ℕ)
unfolding skipped_key
rebuild skipped [] = skipped
rebuild skipped (e ∷ rest) =
    rebuild (map_set (skipped_key (e.dh_pub, e.n)) e.message_key skipped) rest

-- The entries with the slots that their strings tell.
unfoldable pub slotted : List (List ℕ × List ℕ) → List (Slot × List ℕ)
unfolding read_key
slotted [] = []
slotted ((key, message_key) ∷ m) = (read_key key, message_key) ∷ slotted m

unfoldable pub deserialize_ratchet : RatchetSessionSecrets → RatchetState
unfolding rebuild slotted
deserialize_ratchet s = record {
  root_suite = s.root_suite;
  root_key = s.root_key;
  sending_chain_key = s.sending_chain_key;
  receiving_chain_key = s.receiving_chain_key;
  dh_self_pub = s.dh_self_pub;
  dh_self_sec = s.dh_self_sec;
  dh_remote_pub = s.dh_remote_pub;
  ns = s.ns;
  nr = s.nr;
  pn = s.pn;
  skipped = slotted (rebuild [] s.skipped_message_keys);
}

unfoldable pub clone_ratchet : RatchetState → RatchetState
unfolding serialize_ratchet deserialize_ratchet
clone_ratchet s = deserialize_ratchet (serialize_ratchet s)

-- `fill(0)`.
abbrev pub zeroed : List ℕ → List ℕ
zeroed key = replicate (length key) 0

abbrev pub zeroed? : Option (List ℕ) → Option (List ℕ)
zeroed? none = none
zeroed? (some key) = some (zeroed key)

unfoldable pub wipe_values : List (Slot × List ℕ) → List (Slot × List ℕ)
wipe_values [] = []
wipe_values ((slot, message_key) ∷ m) = (slot, zeroed message_key) ∷ wipe_values m

unfoldable pub wipe_ratchet : RatchetState → RatchetState
unfolding wipe_values
wipe_ratchet s = record s {
  root_key = zeroed s.root_key;
  sending_chain_key = zeroed? s.sending_chain_key;
  receiving_chain_key = zeroed? s.receiving_chain_key;
  dh_self_sec = zeroed s.dh_self_sec;
  skipped = wipe_values s.skipped;
}

-- The two states are distinct objects, so the wipe does not reach `next`.
unfoldable pub adopt_ratchet : RatchetState → Call (Unit {0})
unfolding wipe_ratchet
adopt_ratchet next live =
    if not (same_suite live.root_suite next.root_suite) then (live, err different_root_suite) else (
      record (wipe_ratchet live) {
        root_suite = next.root_suite;
        root_key = next.root_key;
        sending_chain_key = next.sending_chain_key;
        receiving_chain_key = next.receiving_chain_key;
        dh_self_pub = next.dh_self_pub;
        dh_self_sec = next.dh_self_sec;
        dh_remote_pub = next.dh_remote_pub;
        ns = next.ns;
        nr = next.nr;
        pn = next.pn;
        skipped = next.skipped;
      },
      ok tt,
    )
