-- ===== src/PqHealing/Session/Guards.antt =====
-- What the guards of the machine's methods say when they let a call through.
use p2party_js.Base.{
  ℕ, ◌<◌, ◌≡◌, refl, Bool, true, false, not, Option, none, some, List, ◌++◌, arith, length, ltb,
  ◌==◌, Result, ok, err, ◌>>◌, fail_if, past_guard, >>=-eq_ok, ne_of_==, le_of_ltb, eq_of_not,
  map_err,
}
use p2party_js.LibCrypto.{
  LibCrypto, HkdfError, hkdf_sha512_expand_failed, hkdf_extract, hkdf_expand,
}
use p2party_js.PqHealing.Record.{
  Healing, PqHealingError, invalid_record, invalid_state, overflow, replay, counter_gap, epoch_gap,
  max_u64, hkdf_failed, require_bytes, require_u64, require_incrementable_u64,
}
use p2party_js.PqHealing.Codec.{DecodedOffer, DecodedAdvance, derive_next_root, kdf_domain}
use p2party_js.PqHealing.Machine.{
  Machine, Phase, KeyPair, Turn, local, remote, is_local, is_idle, assert_active,
  assert_synchronous, assert_can_start_exchange, require_expected_counter, require_expected_epoch,
}
use p2party_js.PqHealing.Offering.{
  outbound_offer_of, inbound_advance_prepared_of, inbound_advance_awaiting_of,
}
use p2party_js.PqHealing.Answering.{
  inbound_offer_of, outbound_advance_prepared_of, outbound_advance_awaiting_of,
}
use p2party_js.PqHealing.Session.Invariant.{frame_of, IsIncrementable}

pub fail_if-past :
    (b : Bool) (e : PqHealingError) {u : Unit {0}}
    → fail_if b e ≡ ok u
    → (b ≡ false) × (fail_if b e ≡ ok u)
fail_if-past true e h = cc
fail_if-past false e h = (refl, h)

pub assert_synchronous-past :
    {A : Type 0} (m : Machine) {k : Healing A} {a : A}
    → (assert_synchronous m >> k) ≡ ok a
    → (m.is_destroyed ≡ false) × (m.busy ≡ false) × (k ≡ ok a)
unfolding assert_synchronous assert_active
assert_synchronous-past m e =
    let (u, e1, e2) = >>=-eq_ok (assert_synchronous m) _ e in
    let (active, e3) = past_guard m.is_destroyed PqHealingError.destroyed e1 in
    let (idle, e4) = fail_if-past m.busy invalid_state e3 in (active, idle, e2)

pub assert_active-past :
    {A : Type 0} (m : Machine) {k : Healing A} {a : A}
    → (assert_active m >> k) ≡ ok a
    → (m.is_destroyed ≡ false) × (k ≡ ok a)
unfolding assert_active
assert_active-past m e = past_guard m.is_destroyed PqHealingError.destroyed e

pub require_bytes-past :
    {A : Type 0} (bytes : List ℕ) (n : ℕ) {k : Healing A} {a : A}
    → (require_bytes bytes n >> k) ≡ ok a
    → (length bytes ≡ n) × (k ≡ ok a)
unfolding require_bytes
require_bytes-past bytes n e =
    let (g, e') = past_guard (not (length bytes == n)) invalid_record e in
    (eq_of_not (length bytes) n g, e')

incrementable-past :
    {A : Type 0} (n : ℕ) {k : Healing A} {a : A}
    → (require_incrementable_u64 n >> k) ≡ ok a
    → (n < max_u64) × (k ≡ ok a)
unfolding require_incrementable_u64 require_u64
incrementable-past n e =
    let (u, e1, e2) = >>=-eq_ok (require_incrementable_u64 n) _ e in
    let (g1, e3) = past_guard (ltb max_u64 n) overflow e1 in
    let (g2, e4) = fail_if-past (n == max_u64) overflow e3 in
    let below = le_of_ltb max_u64 n g1 in
    let distinct = ne_of_== n max_u64 g2 in (omega (arith, below, distinct), e2)

pub is_local-eq_true : (t : Turn) → is_local t ≡ true → t ≡ local
is_local-eq_true local h = refl
is_local-eq_true remote h = cc

pub is_local-eq_false : (t : Turn) → is_local t ≡ false → t ≡ remote
is_local-eq_false local h = cc
is_local-eq_false remote h = refl

pub is_idle-eq_true : (p : Phase) → is_idle p ≡ true → p ≡ Phase.idle
is_idle-eq_true Phase.idle h = refl
is_idle-eq_true (Phase.outbound_offer d o kp) h = cc
is_idle-eq_true (Phase.inbound_offer o) h = cc
is_idle-eq_true (Phase.outbound_advance_prepared o a root) h = cc
is_idle-eq_true (Phase.outbound_advance_awaiting_ack o a) h = cc
is_idle-eq_true (Phase.inbound_advance_prepared o a kp root) h = cc
is_idle-eq_true (Phase.inbound_advance_awaiting_ack_dispatch a) h = cc

right_unit : (r : Healing (Unit {0})) {u : Unit {0}} → r ≡ ok u → (r >> ok u) ≡ ok u
right_unit (ok a) h = refl
right_unit (err e) h = cc

pub assert_can_start_exchange-past :
    {A : Type 0} (m : Machine) {k : Healing A} {a : A}
    → (assert_can_start_exchange m >> k) ≡ ok a
    → IsIncrementable (frame_of m) × (k ≡ ok a)
unfolding assert_can_start_exchange
assert_can_start_exchange-past m e =
    let (u, e1, rest) = >>=-eq_ok (assert_can_start_exchange m) _ e in
    let (epoch, e2) = incrementable-past m.epoch e1 in
    let (own, e3) = incrementable-past m.local_counter e2 in
    let (other, e4) = incrementable-past m.remote_counter (right_unit _ e3) in
    ((epoch, own, other), rest)

pub require_expected_counter-past :
    {A : Type 0} (counter : ℕ) (m : Machine) {k : Healing A} {a : A}
    → (require_expected_counter counter m >> k) ≡ ok a
    → (counter ≡ m.remote_counter) × (k ≡ ok a)
unfolding require_expected_counter
require_expected_counter-past counter m e =
    let (u, e1, rest) = >>=-eq_ok (require_expected_counter counter m) _ e in
    let (g1, e2) = past_guard (ltb counter m.remote_counter) replay e1 in
    let (g2, e3) = fail_if-past (ltb m.remote_counter counter) counter_gap e2 in
    let above = le_of_ltb counter m.remote_counter g1 in
    let below = le_of_ltb m.remote_counter counter g2 in (omega (arith, above, below), rest)

pub require_expected_epoch-past :
    {A : Type 0} (from_epoch : ℕ) (m : Machine) {k : Healing A} {a : A}
    → (require_expected_epoch from_epoch m >> k) ≡ ok a
    → (from_epoch ≡ m.epoch) × (k ≡ ok a)
unfolding require_expected_epoch
require_expected_epoch-past from_epoch m e =
    let (u, e1, rest) = >>=-eq_ok (require_expected_epoch from_epoch m) _ e in
    let (g1, e2) = past_guard (ltb from_epoch m.epoch) replay e1 in
    let (g2, e3) = fail_if-past (ltb m.epoch from_epoch) epoch_gap e2 in
    let above = le_of_ltb from_epoch m.epoch g1 in
    let below = le_of_ltb m.epoch from_epoch g2 in (omega (arith, above, below), rest)

-- The phase that a method's test of `kind` has found.
pub outbound_offer_of-eq_ok :
    (p : Phase) (d : Bool) (o : DecodedOffer) (kp : KeyPair)
    → outbound_offer_of p ≡ ok (d, o, kp)
    → p ≡ Phase.outbound_offer d o kp
outbound_offer_of-eq_ok (Phase.outbound_offer d' o' kp') d o kp h = cc
outbound_offer_of-eq_ok Phase.idle d o kp h = cc
outbound_offer_of-eq_ok (Phase.inbound_offer _) d o kp h = cc
outbound_offer_of-eq_ok (Phase.outbound_advance_prepared _ _ _) d o kp h = cc
outbound_offer_of-eq_ok (Phase.outbound_advance_awaiting_ack _ _) d o kp h = cc
outbound_offer_of-eq_ok (Phase.inbound_advance_prepared _ _ _ _) d o kp h = cc
outbound_offer_of-eq_ok (Phase.inbound_advance_awaiting_ack_dispatch _) d o kp h = cc

pub inbound_offer_of-eq_ok :
    (p : Phase) (o : DecodedOffer) → inbound_offer_of p ≡ ok o → p ≡ Phase.inbound_offer o
inbound_offer_of-eq_ok Phase.idle o h = cc
inbound_offer_of-eq_ok (Phase.outbound_offer _ _ _) o h = cc
inbound_offer_of-eq_ok (Phase.inbound_offer _) o h = cc
inbound_offer_of-eq_ok (Phase.outbound_advance_prepared _ _ _) o h = cc
inbound_offer_of-eq_ok (Phase.outbound_advance_awaiting_ack _ _) o h = cc
inbound_offer_of-eq_ok (Phase.inbound_advance_prepared _ _ _ _) o h = cc
inbound_offer_of-eq_ok (Phase.inbound_advance_awaiting_ack_dispatch _) o h = cc

pub outbound_advance_prepared_of-eq_ok :
    (p : Phase) (o : DecodedOffer) (a : DecodedAdvance) (root : List ℕ)
    → outbound_advance_prepared_of p ≡ ok (o, a, root)
    → p ≡ Phase.outbound_advance_prepared o a root
outbound_advance_prepared_of-eq_ok Phase.idle o a root h = cc
outbound_advance_prepared_of-eq_ok (Phase.outbound_offer _ _ _) o a root h = cc
outbound_advance_prepared_of-eq_ok (Phase.inbound_offer _) o a root h = cc
outbound_advance_prepared_of-eq_ok (Phase.outbound_advance_prepared _ _ _) o a root h = cc
outbound_advance_prepared_of-eq_ok (Phase.outbound_advance_awaiting_ack _ _) o a root h = cc
outbound_advance_prepared_of-eq_ok (Phase.inbound_advance_prepared _ _ _ _) o a root h = cc
outbound_advance_prepared_of-eq_ok (Phase.inbound_advance_awaiting_ack_dispatch _) o a root h = cc

pub inbound_advance_prepared_of-eq_ok :
    (p : Phase) (o : DecodedOffer) (a : DecodedAdvance) (kp : KeyPair) (root : List ℕ)
    → inbound_advance_prepared_of p ≡ ok (o, a, kp, root)
    → p ≡ Phase.inbound_advance_prepared o a kp root
inbound_advance_prepared_of-eq_ok Phase.idle o a kp root h = cc
inbound_advance_prepared_of-eq_ok (Phase.outbound_offer _ _ _) o a kp root h = cc
inbound_advance_prepared_of-eq_ok (Phase.inbound_offer _) o a kp root h = cc
inbound_advance_prepared_of-eq_ok (Phase.outbound_advance_prepared _ _ _) o a kp root h = cc
inbound_advance_prepared_of-eq_ok (Phase.outbound_advance_awaiting_ack _ _) o a kp root h = cc
inbound_advance_prepared_of-eq_ok (Phase.inbound_advance_prepared _ _ _ _) o a kp root h = cc
inbound_advance_prepared_of-eq_ok (Phase.inbound_advance_awaiting_ack_dispatch _) o a kp root h = cc

pub inbound_advance_awaiting_of-eq_ok :
    (p : Phase) (a : DecodedAdvance)
    → inbound_advance_awaiting_of p ≡ ok a
    → p ≡ Phase.inbound_advance_awaiting_ack_dispatch a
inbound_advance_awaiting_of-eq_ok Phase.idle a h = cc
inbound_advance_awaiting_of-eq_ok (Phase.outbound_offer _ _ _) a h = cc
inbound_advance_awaiting_of-eq_ok (Phase.inbound_offer _) a h = cc
inbound_advance_awaiting_of-eq_ok (Phase.outbound_advance_prepared _ _ _) a h = cc
inbound_advance_awaiting_of-eq_ok (Phase.outbound_advance_awaiting_ack _ _) a h = cc
inbound_advance_awaiting_of-eq_ok (Phase.inbound_advance_prepared _ _ _ _) a h = cc
inbound_advance_awaiting_of-eq_ok (Phase.inbound_advance_awaiting_ack_dispatch _) a h = cc

-- The acknowledged ADVANCE is the one of the phase; its OFFER is not returned.
pub outbound_advance_awaiting_of-eq_ok :
    (p : Phase) (a : DecodedAdvance)
    → outbound_advance_awaiting_of p ≡ ok a
    → (o : DecodedOffer) × (p ≡ Phase.outbound_advance_awaiting_ack o a)
outbound_advance_awaiting_of-eq_ok (Phase.outbound_advance_awaiting_ack o _) a h = (o, cc)
outbound_advance_awaiting_of-eq_ok Phase.idle a h = cc
outbound_advance_awaiting_of-eq_ok (Phase.outbound_offer _ _ _) a h = cc
outbound_advance_awaiting_of-eq_ok (Phase.inbound_offer _) a h = cc
outbound_advance_awaiting_of-eq_ok (Phase.outbound_advance_prepared _ _ _) a h = cc
outbound_advance_awaiting_of-eq_ok (Phase.inbound_advance_prepared _ _ _ _) a h = cc
outbound_advance_awaiting_of-eq_ok (Phase.inbound_advance_awaiting_ack_dispatch _) a h = cc

expanded :
    (r : Option (List ℕ)) (okm : List ℕ)
    → elim r [ none ↦ err hkdf_sha512_expand_failed | some x ↦ ok x ] ≡ ok okm
    → r ≡ some okm
expanded none okm h = cc
expanded (some x) okm h = cc

map_err-eq_ok :
    (r : Result HkdfError (List ℕ)) (okm : List ℕ) → map_err hkdf_failed r ≡ ok okm → r ≡ ok okm
map_err-eq_ok (ok x) okm h = cc
map_err-eq_ok (err e) okm h = cc

pub length-derive_next_root :
    (c : LibCrypto) (root secret advance next_root : List ℕ)
    → derive_next_root root secret advance c ≡ ok next_root
    → length next_root ≡ 32
unfolding derive_next_root hkdf_expand
length-derive_next_root c root secret advance next_root e =
    let (long, e1) = require_bytes-past root 32 e in
    let (prk, extracted, e2) = >>=-eq_ok (map_err hkdf_failed (hkdf_extract root secret c)) _ e1 in
    let info = kdf_domain ++ advance in
    let e3 = map_err-eq_ok (hkdf_expand prk info 32 c) next_root e2 in
    c.length-expand prk info 32 next_root (expanded (c.hkdf_sha512_expand prk info 32) next_root e3)
