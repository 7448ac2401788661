-- ===== src/Cells/PqControl/Inspection.antt =====
-- `inspectControlRecord` of src/cryptography/pqHealingFrame.ts reads a counter of 64 bits.
use p2party_js.Base.{
  ℕ, ◌≤◌, ◌≡◌, sym, ap, ◌∙◌, not, ◌==◌, ltb, none, inl, inr, Bool-cases, List, arith, length,
  Result, ok, err, map_err, past_guard, >>=-eq_ok, ok-injective, le_of_ltb,
}
use p2party_js.Bytes.{get_u64, bytes_equal, IsBytes}
use p2party_js.MlKem.{MlKemSuiteDescriptor}
use p2party_js.PqHealing.Record.{
  max_u64, invalid_record, offer_type, advance_type, byte_at, is_byte, assert_canonical_suite,
}
use p2party_js.PqHealing.Codec.{
  PqHealingRecord, decode_pq_healing_ack, inspect_pq_healing_record, decode_offer, decode_advance,
  offer_record, advance_record,
}
use p2party_js.PqHealing.Codec.Header.{word_bound}
use p2party_js.PqHealing.Codec.Offer.{decode_offer-OfferFacts}
use p2party_js.PqHealing.Codec.Advance.{decode_advance-AdvanceFacts}
use p2party_js.PqHealing.Codec.Ack.{decode_ack-AckFacts}
use p2party_js.Cells.PqControl.{
  binding_mismatch, healing_failed, InspectedControlRecord, binding_of, inspected_of,
  inspect_control_record,
}

map_err-ok : {E F A : Type 0} (f : E → F) (r : Result E A) {a : A} → map_err f r ≡ ok a → r ≡ ok a
map_err-ok f (ok a) h = ap ok (ok-injective h)
map_err-ok f (err e) h = cc

-- The counter of a record is its word at 40.
inspect_pq_healing_record-counter :
    (rec : List ℕ) (suite : MlKemSuiteDescriptor) (r : PqHealingRecord)
    → inspect_pq_healing_record rec suite ≡ ok r
    → ((inspected_of r).counter ≡ get_u64 40 rec) × (64 ≤ length rec)
unfolding inspect_pq_healing_record offer_record advance_record
inspect_pq_healing_record-counter rec suite r e =
    let (_, _, e1) = >>=-eq_ok (assert_canonical_suite suite) _ e in
    let (short, e2) = past_guard (ltb (length rec) 64) invalid_record e1 in
    elim (Bool-cases (is_byte (byte_at rec 5) offer_type)) [
      | inl h ↦
          let (o, decoded, e3) = >>=-eq_ok (decode_offer rec suite none) _ (rw h at e2) in
          (
            ap (λ x. (inspected_of x).counter) (sym (ok-injective e3))
                ∙ (decode_offer-OfferFacts rec suite none o decoded).header.counter,
            le_of_ltb (length rec) 64 short,
          )
      | inr h ↦ elim (Bool-cases (is_byte (byte_at rec 5) advance_type)) [
        | inl h' ↦
            let (a, decoded, e3) = >>=-eq_ok (decode_advance rec suite none) _ (rw (h, h') at e2) in
            (
              ap (λ x. (inspected_of x).counter) (sym (ok-injective e3))
                  ∙ (decode_advance-AdvanceFacts rec suite none a decoded).header.counter,
              le_of_ltb (length rec) 64 short,
            )
        | inr h' ↦ let refused = rw (h, h') at e2 in cc
      ]
    ]

-- A record of bytes that passes the inspection has a counter of 64 bits.
pub inspect_control_record-bound :
    (rec : List ℕ) (suite : MlKemSuiteDescriptor) (binding : List ℕ) (i : InspectedControlRecord)
    → IsBytes rec
    → inspect_control_record rec suite binding ≡ ok i
    → (i.counter ≤ max_u64) × (64 ≤ length rec)
unfolding inspect_control_record
inspect_control_record-bound rec suite binding i bytes e = elim (Bool-cases (length rec == 64)) [
  | inl h ↦
      let (ack, decoded, e1) =
        >>=-eq_ok (map_err healing_failed (decode_pq_healing_ack rec suite binding)) _
          (rw h at e) in
      let facts = decode_ack-AckFacts rec suite binding ack (map_err-ok healing_failed _ decoded) in
      let long : 64 ≤ length rec = omega (arith, facts.long) in
      (
        word_bound 40 rec bytes long (omega arith) (
            ap (λ (x : InspectedControlRecord). x.counter) (sym (ok-injective e1)) ∙ facts.counter),
        long,
      )
  | inr h ↦
      let (r, inspected, e1) =
        >>=-eq_ok (map_err healing_failed (inspect_pq_healing_record rec suite)) _ (rw h at e) in
      let (_, e2) = past_guard (not (bytes_equal (binding_of r) binding)) binding_mismatch e1 in
      let (word, long) =
        inspect_pq_healing_record-counter rec suite r (map_err-ok healing_failed _ inspected) in
      (
        word_bound 40 rec bytes long (omega arith)
            (ap (λ (x : InspectedControlRecord). x.counter) (sym (ok-injective e2)) ∙ word),
        long,
      )
]
