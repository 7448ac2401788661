-- ===== src/Cells/PqControl/RoundTrip.antt =====
-- A record of PQ healing that src/cryptography/pqHealingFrame.ts seals opens to the same bytes.
use p2party_js.Base.{
  ℕ, ◌+◌, ◌-◌, ◌≤◌, ◌≡◌, refl, sym, ap, ◌∙◌, not, ◌==◌, ltb, some, take, drop, List, [], arith,
  length, ok, past_guard, >>=-eq_ok, ok-injective, eq_of_not, le_of_ltb, ltb_of_le, ==_refl,
  ==_of_ne,
}
use p2party_js.Bytes.{slice, get_u64, IsBytes}
use p2party_js.Bytes.Laws.{bytes_equal_refl}
use p2party_js.LibCrypto.{LibCrypto, Aead}
use p2party_js.PqHealing.Record.{max_u64}
use p2party_js.Cells.{plaintext_bytes, blank, cell_header, cell_frame, seal_or}
use p2party_js.Cells.Layout.{cell_frame-Reads, is_type-take}
use p2party_js.Cells.Payload.{
  body, body-zeros, body-Reads, length-body, nonzero_padding-zeros, seal_or-some, open_or-some,
}
use p2party_js.Cells.PqControl.Inspection.{inspect_control_record-bound}
use p2party_js.Cells.PqControl.{
  invalid_frame, authentication_failed, epoch_mismatch, require_bytes, require_u64,
  derive_frame_key, InspectedControlRecord, inspect_control_record, SealPqControlFrameOptions,
  OpenPqControlFrameOptions, control_plaintext, seal_pq_control_frame, read_control,
  open_pq_control_frame,
}

control_plaintext-eq :
    (n k : ℕ) (rec : List ℕ) → n ≡ 4 + length rec + k → control_plaintext n rec ≡ body rec k
unfolding control_plaintext blank
control_plaintext-eq n k rec h = body-zeros [] rec 0 4 n k refl refl h

length-control_plaintext :
    (n k : ℕ) (rec : List ℕ) → n ≡ 4 + length rec + k → length (control_plaintext n rec) ≡ n
length-control_plaintext n k rec h =
    ap length (control_plaintext-eq n k rec h) ∙ omega (arith, h, length-body rec k)

-- What a call of sealPqControlFrame that returns has tested and made.
record Sealed (m : LibCrypto) (aead : Aead) (o : SealPqControlFrameOptions) (nonce frame : List ℕ)
    : Type 0 where
  inspected : InspectedControlRecord
  key : List ℕ
  ciphertext : List ℕ
  bound : length o.binding ≡ 32
  epoch_fits : o.key_epoch ≤ max_u64
  accepted : inspect_control_record o.control_record o.suite o.binding ≡ ok inspected
  same_epoch : inspected.key_epoch ≡ o.key_epoch
  fits : length o.control_record ≤ 65401
  keyed : derive_frame_key m o.suite o.root_key o.binding o.direction o.key_epoch ≡ ok key
  sealed :
      aead.seal key nonce
        (control_plaintext plaintext_bytes o.control_record)
        (cell_header 5 o.binding inspected.counter o.key_epoch nonce)
      ≡ some ciphertext
  framed :
      frame ≡ cell_frame (cell_header 5 o.binding inspected.counter o.key_epoch nonce) ciphertext

seal_pq_control_frame-Sealed :
    (m : LibCrypto) (aead : Aead) (o : SealPqControlFrameOptions) (nonce frame : List ℕ)
    → seal_pq_control_frame m aead o nonce ≡ ok frame
    → Sealed m aead o nonce frame
unfolding seal_pq_control_frame require_bytes require_u64
seal_pq_control_frame-Sealed m aead o nonce frame e =
    let (g1, e1) = past_guard (not (length o.binding == 32)) invalid_frame e in
    let (g2, e2) = past_guard (ltb max_u64 o.key_epoch) invalid_frame e1 in
    let (i, accepted, e3) =
      >>=-eq_ok (inspect_control_record o.control_record o.suite o.binding) _ e2 in
    let (g4, e4) = past_guard (not (i.key_epoch == o.key_epoch)) epoch_mismatch e3 in
    let (g5, e5) = past_guard (ltb 65401 (length o.control_record)) invalid_frame e4 in
    let (key, keyed, e6) =
      >>=-eq_ok (derive_frame_key m o.suite o.root_key o.binding o.direction o.key_epoch) _ e5 in
    let (ciphertext, sealed, e7) = >>=-eq_ok (seal_or invalid_frame aead key nonce _ _) _ e6 in
    record {
      inspected = i;
      key = key;
      ciphertext = ciphertext;
      bound = eq_of_not (length o.binding) 32 g1;
      epoch_fits = le_of_ltb max_u64 o.key_epoch g2;
      accepted = accepted;
      same_epoch = eq_of_not i.key_epoch o.key_epoch g4;
      fits = le_of_ltb 65401 (length o.control_record) g5;
      keyed = keyed;
      sealed = seal_or-some invalid_frame aead key nonce _ _ ciphertext sealed;
      framed = sym (ok-injective e7);
    }

-- The options that open what these options seal.
abbrev pub opening : SealPqControlFrameOptions → List ℕ → OpenPqControlFrameOptions
opening o frame = record {
  suite = o.suite;
  root_key = o.root_key;
  binding = o.binding;
  direction = o.direction;
  key_epoch = o.key_epoch;
  frame = frame;
}

-- The plaintext of an inspected record is read back under the counter of the header.
read_control-body :
    (k : ℕ) (rec : List ℕ) (o : OpenPqControlFrameOptions) (i : InspectedControlRecord)
    → 64 ≤ length rec
    → length rec ≤ 65401
    → inspect_control_record rec o.suite o.binding ≡ ok i
    → i.key_epoch ≡ o.key_epoch
    → read_control (body rec k) i.counter o ≡ ok rec
unfolding read_control
read_control-body k rec o i long fits accepted same_epoch =
    let (size, behind, inside) =
      body-Reads [] rec 0 4 (4 + length rec) k refl refl refl (omega (arith, fits)) in
    rw
      (
        size,
        ==_of_ne (length rec) 0 (λ h. absurd (omega (arith, h, long))),
        ltb_of_le 65401 (length rec) fits,
        behind,
        nonzero_padding-zeros k,
        inside,
        accepted,
        same_epoch,
        ==_refl o.key_epoch,
        ==_refl i.counter,
      )
      refl

-- A record of bytes that is sealed with a nonce of 12 bytes opens, under the same suite, root, binding,
-- direction and epoch, to the record itself.
pub open_pq_control_frame-seal :
    (m : LibCrypto) (aead : Aead) (o : SealPqControlFrameOptions) (nonce frame : List ℕ)
    → IsBytes o.control_record
    → length nonce ≡ 12
    → seal_pq_control_frame m aead o nonce ≡ ok frame
    → open_pq_control_frame m aead (opening o frame) ≡ ok o.control_record
unfolding open_pq_control_frame require_bytes require_u64
open_pq_control_frame-seal m aead o nonce frame bytes hn e =
    let s = seal_pq_control_frame-Sealed m aead o nonce frame e in
    let (counter_fits, long) =
      inspect_control_record-bound o.control_record o.suite o.binding s.inspected bytes
        s.accepted in
    let k = 65401 - length o.control_record in
    let fills : 65405 ≡ 4 + length o.control_record + k = omega (arith, s.fits) in
    let reads =
      cell_frame-Reads 5 o.binding s.inspected.counter o.key_epoch nonce s.ciphertext s.bound hn
        (omega (arith, counter_fits)) (omega (arith, s.epoch_fits))
        (aead.length-seal s.key nonce _ _ s.ciphertext s.sealed
          ∙ omega (arith, length-control_plaintext 65405 k o.control_record fills)) in
    let opened =
      open_or-some authentication_failed aead s.key nonce s.ciphertext _ _
        (aead.open-seal s.key nonce _ _ s.ciphertext s.sealed) in
    let back =
      ap (λ p. read_control p s.inspected.counter (opening o frame))
        (control_plaintext-eq 65405 k o.control_record fills)
      ∙ read_control-body k o.control_record (opening o frame) s.inspected long s.fits s.accepted
          s.same_epoch in
    rw
      (
        ap length s.framed ∙ reads.long,
        s.bound,
        ltb_of_le max_u64 o.key_epoch s.epoch_fits,
        is_type-take 5 frame (ap (take 1) s.framed ∙ reads.tag),
        ap (slice 1 33) s.framed ∙ reads.edge,
        bytes_equal_refl o.binding,
        ap (get_u64 41) s.framed ∙ reads.reserved,
        ap (get_u64 49) s.framed ∙ reads.epoch,
        ==_refl o.key_epoch,
        ap (get_u64 33) s.framed ∙ reads.number,
        s.keyed,
        ap (slice 57 69) s.framed ∙ reads.fresh,
        ap (drop 69) s.framed ∙ reads.sealed,
        ap (slice 0 69) s.framed ∙ reads.clear,
        opened,
      )
      back
