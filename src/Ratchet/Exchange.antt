-- ===== src/Ratchet/Exchange.antt =====
-- The two ends of a chain of src/cryptography/ratchet.ts together: what one seals the other opens.
use mathlib.Core.Path.{subst}
use p2party_js.Base.{
  ℕ, zero, suc, ◌+◌, ◌≤◌, ◌<◌, ◌≡◌, ◌≢◌, refl, sym, ap, ◌∙◌, inl, List, [], ◌∷◌, Option, some, none,
  arith, ok, length, get_elem?, Result,
}
use p2party_js.LibCrypto.{LibCrypto}
use p2party_js.Maps.{map_get, IsUnique}
use p2party_js.Ratchet.Kdf.{RatchetError, ChainStep, kdf_ck}
use p2party_js.Ratchet.State.{slot_key, RatchetState, RatchetHeader, DhKeyPair, Call, return, ◌>>=◌}
use p2party_js.Ratchet.Skipping.{max_skip, max_skip_session}
use p2party_js.Ratchet.Messages.{Sealed, ratchet_encrypt, ratchet_decrypt, advance_sending}
use p2party_js.Ratchet.Keys.{ChainAt, start, next, KeyAt, key, Extracts, kdf_ck-total, key_unique}
use p2party_js.Ratchet.Tracking.{Tracks, IsOpen}
use p2party_js.Ratchet.Delivery.{numbered}
use p2party_js.Ratchet.AnyOrder.{ratchet_decrypt-Delivers}

-- `k` messages in a row.
unfoldable pub seal_all : LibCrypto → ℕ → Call (List Sealed)
unfolding ratchet_encrypt
seal_all m zero = return []
seal_all m (suc k) = do sealed ← ratchet_encrypt m; rest ← seal_all m k; return (sealed ∷ rest)

abbrev pub header_of : Sealed → RatchetHeader
header_of sealed = sealed.header

-- The headers of `order`, one after the other.
unfoldable pub open_all : DhKeyPair → LibCrypto → List Sealed → Call (List (List ℕ))
unfolding ratchet_decrypt
open_all fresh m [] = return []
open_all fresh m (sealed ∷ order) = do
  message_key ← ratchet_decrypt sealed.header fresh m
  rest ← open_all fresh m order
  return (message_key ∷ rest)

abbrev pub keys_of : List Sealed → List (List ℕ)
keys_of [] = []
keys_of (sealed ∷ order) = sealed.message_key ∷ keys_of order

abbrev pub All : (Sealed → Type 0) → List Sealed → Type 0
All P [] = Unit
All P (sealed ∷ order) = P sealed × All P order

-- No message twice.
abbrev pub IsDistinct : List Sealed → Type 0
IsDistinct [] = Unit
IsDistinct (sealed ∷ order) =
    All (λ other. sealed.header.n ≢ other.header.n) order × IsDistinct order

-- A message of the chain, within reach.
record IsSealed (m : LibCrypto) (first remote : List ℕ) (sealed : Sealed) : Type 0 where
  on : sealed.header.dh_pub ≡ remote
  near : sealed.header.n ≤ max_skip
  its_key : KeyAt m first sealed.header.n sealed.message_key

-- The sender is on the chain.
pub record Sends (m : LibCrypto) (first : List ℕ) (s : RatchetState) : Type 0 where
  pub chain_key : List ℕ
  pub held : s.sending_chain_key ≡ some chain_key
  pub at : ChainAt m first s.ns chain_key

-- What a call of `ratchet_encrypt` returns.
seal_with : RatchetState → ChainStep → Sealed
seal_with s step = record {
  message_key = step.message_key;
  header = record { dh_pub = s.dh_self_pub; n = s.ns; pn = s.pn };
}

ratchet_encrypt-ok :
    (m : LibCrypto) (s : RatchetState) (ck : List ℕ) (step : ChainStep)
    → s.sending_chain_key ≡ some ck
    → kdf_ck ck m ≡ ok step
    → ratchet_encrypt m s ≡ (advance_sending step s, ok (seal_with s step))
unfolding ratchet_encrypt seal_with
ratchet_encrypt-ok m s ck step e f = simp (e, f)

seal_all-suc :
    (m : LibCrypto) (k : ℕ) (s s1 s2 : RatchetState) (x : Sealed) (seals : List Sealed)
    → ratchet_encrypt m s ≡ (s1, ok x)
    → seal_all m k s1 ≡ (s2, ok seals)
    → seal_all m (suc k) s ≡ (s2, ok (x ∷ seals))
unfolding seal_all
seal_all-suc m k s s1 s2 x seals e f = simp (e, f)

open_all-cons :
    (fresh : DhKeyPair) (m : LibCrypto) (x : Sealed) (order : List Sealed) (s s1 s2 : RatchetState)
    (k : List ℕ) (keys : List (List ℕ))
    → ratchet_decrypt x.header fresh m s ≡ (s1, ok k)
    → open_all fresh m order s1 ≡ (s2, ok keys)
    → open_all fresh m (x ∷ order) s ≡ (s2, ok (k ∷ keys))
unfolding open_all
open_all-cons fresh m x order s s1 s2 k keys e f = simp (e, f)

seal-injective : {x y : Sealed} → ◌≡◌ {A = Option Sealed} (some x) (some y) → x ≡ y
seal-injective e = cc

seal-none : {x : Sealed} → ¬ (◌≡◌ {A = Option Sealed} none (some x))
seal-none e = cc

module _ (m : LibCrypto) (first : List ℕ) where
  -- The messages of a run from the index `from`.
  Seals : List ℕ → ℕ → List Sealed → Type 0
  Seals remote from seals =
      (i : ℕ) (x : Sealed)
      → get_elem? seals i ≡ some x
      → (x.header.dh_pub ≡ remote)
        × (x.header.n ≡ from + i)
        × KeyAt m first (from + i) x.message_key

  Seals-cons :
      (remote : List ℕ) (from : ℕ) (x : Sealed) (seals : List Sealed)
      → x.header.dh_pub ≡ remote
      → x.header.n ≡ from
      → KeyAt m first from x.message_key
      → Seals remote (from + 1) seals
      → Seals remote from (x ∷ seals)
  unfolding Seals
  Seals-cons remote from x seals d n k rest zero y e =
      subst
        (λ z.
          (z.header.dh_pub ≡ remote)
          × (z.header.n ≡ from + 0)
          × KeyAt m first (from + 0) z.message_key)
        (seal-injective e)
        (d, omega (arith, n), subst (λ j. KeyAt m first j x.message_key) (omega arith) k)
  Seals-cons remote from x seals d n k rest (suc i) y e =
      let (d', n', k') = rest i y e in
      (d', omega (arith, n'), subst (λ j. KeyAt m first j y.message_key) (omega arith) k')

  advance_sending-Sends :
      (s : RatchetState) (step : ChainStep) (t : Sends m first s)
      → kdf_ck t.chain_key m ≡ ok step
      → Sends m first (advance_sending step s)
  unfolding advance_sending
  advance_sending-Sends s step t f = record {
    chain_key = step.chain_key;
    held = refl;
    at = subst (λ n. ChainAt m first n step.chain_key) (omega arith) (next step t.at f);
  }

  seal_all-Seals :
      Extracts m
      → (k : ℕ) (s : RatchetState) → Sends m first s
      → (s' : RatchetState) × (seals : List Sealed) × (seal_all m k s ≡ (s', ok seals))
        × Seals s.dh_self_pub s.ns seals
        × (length seals ≡ k)
  unfolding seal_all Seals seal_with advance_sending
  seal_all-Seals extracts zero s t = (s, [], refl, λ i x e. absurd (seal-none e), refl)
  seal_all-Seals extracts (suc k) s t =
      let (step, f) = kdf_ck-total m extracts t.chain_key in
      let (s', seals, ran, w, count) =
        seal_all-Seals extracts k (advance_sending step s) (advance_sending-Sends s step t f) in
      (
        s',
        seal_with s step ∷ seals,
        seal_all-suc m k s (advance_sending step s) s' (seal_with s step) seals
            (ratchet_encrypt-ok m s t.chain_key step t.held f) ran,
        Seals-cons s.dh_self_pub s.ns (seal_with s step) seals refl refl (key step t.at f) w,
        omega (arith, count),
      )

  module _ (remote : List ℕ) (base : ℕ) (fresh : DhKeyPair) where
    delivery_keeps_rest :
        (n : ℕ) (s s1 : RatchetState)
        → ((j : ℕ) → n ≢ j → IsOpen remote j s → IsOpen remote j s1)
        → (order : List Sealed) → All (λ other. n ≢ other.header.n) order
        → All (λ x. IsOpen remote x.header.n s) order
        → All (λ x. IsOpen remote x.header.n s1) order
    delivery_keeps_rest n s s1 keeps [] ne open' = tt
    delivery_keeps_rest n s s1 keeps (x ∷ order) (other, ne) (o, open') =
        (keeps x.header.n other o, delivery_keeps_rest n s s1 keeps order ne open')

    open_all-keys :
        Extracts m
        → base + max_skip ≤ max_skip_session
        → (order : List Sealed) (s : RatchetState) → All (IsSealed m first remote) order
        → IsDistinct order
        → Tracks m first remote base s
        → All (λ x. IsOpen remote x.header.n s) order
        → (s' : RatchetState) × (open_all fresh m order s ≡ (s', ok (keys_of order)))
    unfolding open_all
    open_all-keys extracts room [] s sealed distinct t open' = (s, refl)
    open_all-keys extracts room (x ∷ order) s (its, sealed) (ne, distinct) t (o, open') =
        let (s1, k, ran, w) =
          ratchet_decrypt-Delivers m first remote base extracts room fresh x.header.n x.header.pn s
            t its.near o in
        let (s2, rest) =
          open_all-keys extracts room order s1 sealed distinct w.tracks
            (delivery_keeps_rest x.header.n s s1 w.keeps order ne open') in
        let same : k ≡ x.message_key = key_unique w.its_key its.its_key in
        let opened : ratchet_decrypt x.header fresh m s ≡ (s1, ok k) =
          subst (λ r. ratchet_decrypt (numbered r x.header.n x.header.pn) fresh m s ≡ (s1, ok k))
            (sym its.on) ran in
        (
          s2,
          open_all-cons fresh m x order s s1 s2 k (keys_of order) opened rest
              ∙ ap (λ j. (s2, ok (j ∷ keys_of order))) same,
        )

-- The receiver at the start of the chain, with room for the keys of a gap.
pub record Listens (first remote : List ℕ) (s : RatchetState) : Type 0 where
  pub remote_is : s.dh_remote_pub ≡ some remote
  pub held : s.receiving_chain_key ≡ some first
  pub none_received : s.nr ≡ 0
  pub none_stored : (i : ℕ) → map_get (remote, i) s.skipped ≡ none
  pub unique : IsUnique s.skipped
  pub room : length s.skipped + max_skip ≤ max_skip_session

Listens-Tracks :
    (m : LibCrypto) (first remote : List ℕ) (s : RatchetState)
    → Listens first remote s
    → Tracks m first remote (length s.skipped) s
Listens-Tracks m first remote s l = record {
  remote_is = l.remote_is;
  chain_is = (first, l.held, subst (λ n. ChainAt m first n first) (sym l.none_received) start);
  stored_below = λ i k stored. absurd (key-none (sym (l.none_stored i) ∙ stored));
  unique = l.unique;
  small = omega arith;
}
  where
    key-none : {k : List ℕ} → ¬ (◌≡◌ {A = Option (List ℕ)} none (some k))
    key-none e = cc

get_elem?-lt :
    (seals : List Sealed) (i : ℕ) {x : Sealed} → get_elem? seals i ≡ some x → i < length seals
get_elem?-lt [] i e = absurd (seal-none e)
get_elem?-lt (y ∷ seals) zero e = omega arith
get_elem?-lt (y ∷ seals) (suc i) e = omega (arith, get_elem?-lt seals i e)

-- The run hands out each message under its number.
abbrev pub IsFrom : List Sealed → Sealed → Type 0
IsFrom seals x = get_elem? seals x.header.n ≡ some x

from_run :
    (m : LibCrypto) (first remote : List ℕ) (seals : List Sealed)
    → Seals m first remote 0 seals
    → length seals ≤ max_skip + 1
    → (order : List Sealed) → All (IsFrom seals) order
    → All (IsSealed m first remote) order
unfolding Seals
from_run m first remote seals w few [] from = tt
from_run m first remote seals w few (x ∷ order) (e, from) =
    let (d, n, k) = w x.header.n x e in
    (
      record {
        on = d;
        near = omega (arith, get_elem?-lt seals x.header.n e);
        its_key = subst (λ j. KeyAt m first j x.message_key) (sym n) k;
      },
      from_run m first remote seals w few order from,
    )

ahead_of_start :
    (remote : List ℕ) (s : RatchetState) (order : List Sealed)
    → s.nr ≡ 0
    → All (λ x. IsOpen remote x.header.n s) order
ahead_of_start remote s [] e = tt
ahead_of_start remote s (x ∷ order) e = (inl (omega arith), ahead_of_start remote s order e)

-- Let a sender seal at most 513 messages in a row from the start of a chain, and let the receiver be
-- at the start of that chain under the sender's key, with no key stored under it, one stored key for
-- each slot and room for 512 more. If the extraction never fails, the receiver opens any of the
-- messages in any order, each at most once, and the keys that it gets are those of the seals.
pub open_all-seal_all :
    (m : LibCrypto) (first : List ℕ) (fresh : DhKeyPair) (k : ℕ) (t t' s : RatchetState)
    (seals order : List Sealed)
    → Extracts m
    → t.sending_chain_key ≡ some first
    → t.ns ≡ 0
    → Listens first t.dh_self_pub s
    → k ≤ max_skip + 1
    → seal_all m k t ≡ (t', ok seals)
    → All (IsFrom seals) order
    → IsDistinct order
    → (s' : RatchetState) × (open_all fresh m order s ≡ (s', ok (keys_of order)))
open_all-seal_all m first fresh k t t' s seals order extracts held ns l few sealed from distinct =
    let sends : Sends m first t = record {
      chain_key = first;
      held = held;
      at = subst (λ n. ChainAt m first n first) (sym ns) start;
    } in
    let (t1, seals', ran, w, count) = seal_all-Seals m first extracts k t sends in
    let same : seals' ≡ seals = pair-injective (sym ran ∙ sealed) in
    let run : Seals m first t.dh_self_pub 0 seals =
      subst (Seals m first t.dh_self_pub 0) same
        (subst (λ n. Seals m first t.dh_self_pub n seals') ns w) in
    open_all-keys m first t.dh_self_pub (length s.skipped) fresh extracts l.room order s
      (from_run m first t.dh_self_pub seals run (omega (arith, ap length same, count)) order from)
      distinct (Listens-Tracks m first t.dh_self_pub s l)
      (ahead_of_start t.dh_self_pub s order l.none_received)
  where
    pair-injective :
        {a b : RatchetState} {x y : List Sealed}
        → ◌≡◌ {A = RatchetState × Result RatchetError (List Sealed)} (a, ok x) (b, ok y)
        → x ≡ y
    pair-injective e = cc
