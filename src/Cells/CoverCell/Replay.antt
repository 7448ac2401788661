-- ===== src/Cells/CoverCell/Replay.antt =====
-- A cell of src/cryptography/coverCell.ts that was accepted is refused when it comes again.
use p2party_js.Base.{
  ℕ, ◌≤◌, ◌≡◌, refl, some, true, false, not, ◌==◌, ltb, leb, length, arith, ok, err, past_guard,
  >>=-eq_ok, ok-injective, ap, sym, ltb_of_le,
}
use p2party_js.Bytes.{slice, get_u64, bytes_equal}
use p2party_js.LibCrypto.{LibCrypto, Aead}
use p2party_js.Cells.{is_type}
use p2party_js.Cells.CoverCell.{
  max_u64, invalid_cell, binding_mismatch, epoch_mismatch, replayed_counter, require_bytes,
  require_u64, derive_cell_key, aead_open, OpenCoverCellOptions, OpenedCoverCell, is_type,
  check_newer, read_plaintext, open_cover_cell,
}

-- The header of a frame that was opened.
record Accepted (o : OpenCoverCellOptions) (opened : OpenedCoverCell) : Type 0 where
  long : not (length o.frame == 65490) ≡ false
  bound : not (length o.binding == 32) ≡ false
  fits : ltb max_u64 o.key_epoch ≡ false
  typed : not (is_type 4 o.frame) ≡ false
  edge : not (bytes_equal (slice 1 33 o.frame) o.binding) ≡ false
  reserved : not (get_u64 41 o.frame == 0) ≡ false
  epoch : not (get_u64 49 o.frame == o.key_epoch) ≡ false
  number : opened.counter ≡ get_u64 33 o.frame

open_cover_cell-Accepted :
    (m : LibCrypto) (aead : Aead) (o : OpenCoverCellOptions) (opened : OpenedCoverCell)
    → open_cover_cell m aead o ≡ ok opened
    → Accepted o opened
unfolding open_cover_cell require_bytes require_u64
open_cover_cell-Accepted m aead o opened e =
    let (g1, e1) = past_guard (not (length o.frame == 65490)) invalid_cell e in
    let (g2, e2) = past_guard (not (length o.binding == 32)) invalid_cell e1 in
    let (g3, e3) = past_guard (ltb max_u64 o.key_epoch) invalid_cell e2 in
    let (g4, e4) = past_guard (not (is_type 4 o.frame)) invalid_cell e3 in
    let (g5, e5) =
      past_guard (not (bytes_equal (slice 1 33 o.frame) o.binding)) binding_mismatch e4 in
    let (g6, e6) = past_guard (not (get_u64 41 o.frame == 0)) invalid_cell e5 in
    let (g7, e7) = past_guard (not (get_u64 49 o.frame == o.key_epoch)) epoch_mismatch e6 in
    let (_, _, e8) = >>=-eq_ok (check_newer (get_u64 33 o.frame) o.counter_above) _ e7 in
    let (_, _, e9) =
      >>=-eq_ok (derive_cell_key m o.root_suite o.root_key o.binding o.direction o.key_epoch) _
        e8 in
    let (plaintext, _, e10) = >>=-eq_ok (aead_open aead _ _ _ _) _ e9 in
    let (_, _, e11) = >>=-eq_ok (read_plaintext plaintext) _ e10 in
    record {
      long = g1;
      bound = g2;
      fits = g3;
      typed = g4;
      edge = g5;
      reserved = g6;
      epoch = g7;
      number = sym (ap (λ (c : OpenedCoverCell). c.counter) (ok-injective e11));
    }

leb_of_le : (a b : ℕ) → a ≤ b → leb a b ≡ true
leb_of_le a b h = ground arith

check_newer-replayed :
    (counter above : ℕ)
    → counter ≤ above
    → above ≤ max_u64
    → check_newer counter (some above) ≡ err replayed_counter
unfolding check_newer require_u64
check_newer-replayed counter above h fits =
    rw (ltb_of_le max_u64 above fits, leb_of_le counter above h) refl

-- A cell that opened is refused as replayed by every later call with the same options whose highest
-- accepted counter, of 64 bits, is at least the counter of the cell.
pub open_cover_cell-replay :
    (m : LibCrypto) (aead : Aead) (o : OpenCoverCellOptions) (opened : OpenedCoverCell) (above : ℕ)
    → open_cover_cell m aead o ≡ ok opened
    → opened.counter ≤ above
    → above ≤ max_u64
    → open_cover_cell m aead (record o { counter_above = some above }) ≡ err replayed_counter
unfolding open_cover_cell require_bytes require_u64
open_cover_cell-replay m aead o opened above e h fits =
    let a = open_cover_cell-Accepted m aead o opened e in
    let late = check_newer-replayed (get_u64 33 o.frame) above (rw a.number at h) fits in
    rw (a.long, a.bound, a.fits, a.typed, a.edge, a.reserved, a.epoch, late) refl
