-- ===== src/PqHealing/Codec/Ack.antt =====
-- src/cryptography/pqHealing.ts: ACK records, `encodePqHealingAck` and `decodePqHealingAck`.
use p2party_js.Base.{
  ℕ, ◌≤◌, ◌≡◌, refl, sym, ap, ◌∙◌, not, true, List, [], ◌∷◌, ◌++◌, arith, length, length-append,
  take, drop, ltb, ◌==◌, ok, past_guard, >>=-eq_ok, ok-injective, eq_of_not, of_not, le_of_ltb,
  ltb_of_le, ==_refl, drop-drop, take-append-drop, take-append_of_length, length-drop,
}
use p2party_js.Bytes.{zeros, slice, set_u64, get_u64, be_bytes, IsBytes, bytes_equal}
use p2party_js.Bytes.Laws.{bytes_equal_iff, bytes_equal_refl}
use p2party_js.MlKem.{MlKemSuiteDescriptor}
use p2party_js.PqHealing.Record.{
  invalid_record, suite_mismatch, binding_mismatch, overflow, max_u64, ack_type, magic,
  require_bytes, require_u64, byte_at, is_byte, parameter_set_to_tag, tag_to_parameter_set,
  assert_canonical_suite, write_prefix,
}
use p2party_js.PqHealing.Record.Header.{prefix, write_prefix-zeros, get_words, words-get}
use p2party_js.Bytes.Fields.{words, set_u64-zeros, set_u64-skip, length-words}
use p2party_js.Bytes.Words.{length-be_bytes}
use p2party_js.PqHealing.Codec.{
  Acknowledgement, require_acknowledgement, encode_pq_healing_ack, decode_pq_healing_ack,
}
use p2party_js.PqHealing.Codec.Header.{
  tag_to_parameter_set-tag, parameter_set_to_tag-of_tag, front_bytes, word_bound,
}

ack_layout :
    (tag c e : ℕ) (binding : List ℕ)
    → length binding ≡ 32
    → set_u64 48 e (set_u64 40 c (write_prefix ack_type tag binding (zeros 64)))
      ≡ prefix ack_type tag binding ++ words c e 0 []
ack_layout tag c e binding h =
    ap (λ b. set_u64 48 e (set_u64 40 c b)) (write_prefix-zeros ack_type tag 0 binding h)
    ∙ ap (set_u64 48 e) (set_u64-zeros 40 c (prefix ack_type tag binding) (zeros 16) (omega arith))
    ∙ set_u64-skip 48 8 e (prefix ack_type tag binding) _ _ (omega arith)
        (set_u64-zeros 8 e (be_bytes 8 c) (zeros 8) (length-be_bytes 8 c))
    ∙ ap (λ z. prefix ack_type tag binding ++ (be_bytes 8 c ++ (be_bytes 8 e ++ z))) reserved
  where
    reserved : zeros 8 ≡ be_bytes 8 0 ++ []
    reserved = unfold be_bytes in refl

-- What a decoded acknowledgement says of its bytes.
pub record AckFacts (rec : List ℕ) (suite : MlKemSuiteDescriptor) (binding : List ℕ)
    (ack : Acknowledgement) : Type 0 where
  pub canonical : assert_canonical_suite suite ≡ ok tt
  pub bound : length binding ≡ 32
  pub long : length rec ≡ 64
  pub has_magic : bytes_equal (take 4 rec) magic ≡ true
  pub has_version : is_byte (byte_at rec 4) 1 ≡ true
  pub has_type : is_byte (byte_at rec 5) ack_type ≡ true
  pub has_flags : is_byte (byte_at rec 7) 0 ≡ true
  pub has_suite : tag_to_parameter_set (byte_at rec 6) ≡ ok suite.parameter_set
  pub same_binding : bytes_equal (slice 8 40 rec) binding ≡ true
  pub reserved : get_u64 56 rec ≡ 0
  pub acknowledged : ack.epoch ≡ get_u64 48 rec
  pub counter : ack.advance_counter ≡ get_u64 40 rec

pub decode_ack-AckFacts :
    (rec : List ℕ) (suite : MlKemSuiteDescriptor) (binding : List ℕ) (ack : Acknowledgement)
    → decode_pq_healing_ack rec suite binding ≡ ok ack
    → AckFacts rec suite binding ack
unfolding decode_pq_healing_ack require_bytes
decode_ack-AckFacts rec suite binding ack e =
    let (u, canonical, e1) = >>=-eq_ok (assert_canonical_suite suite) _ e in
    let (g1, e2) = past_guard (not (length binding == 32)) invalid_record e1 in
    let (g2, e3) = past_guard (not (length rec == 64)) invalid_record e2 in
    let (g3, e4) = past_guard (not (bytes_equal (take 4 rec) magic)) invalid_record e3 in
    let (g4, e5) = past_guard (not (is_byte (byte_at rec 4) 1)) invalid_record e4 in
    let (g5, e6) = past_guard (not (is_byte (byte_at rec 5) ack_type)) invalid_record e5 in
    let (g6, e7) = past_guard (not (is_byte (byte_at rec 7) 0)) invalid_record e6 in
    let (p, t, e8) = >>=-eq_ok (tag_to_parameter_set (byte_at rec 6)) _ e7 in
    let (g7, e9) = past_guard (not (p == suite.parameter_set)) suite_mismatch e8 in
    let (g8, e10) = past_guard (not (bytes_equal (slice 8 40 rec) binding)) binding_mismatch e9 in
    let (g9, e11) = past_guard (not (get_u64 56 rec == 0)) invalid_record e10 in
    let same = ok-injective e11 in
    record {
      canonical = canonical;
      bound = eq_of_not (length binding) 32 g1;
      long = eq_of_not (length rec) 64 g2;
      has_magic = of_not _ g3;
      has_version = of_not _ g4;
      has_type = of_not _ g5;
      has_flags = of_not _ g6;
      has_suite = t ∙ ap ok (eq_of_not p suite.parameter_set g7);
      same_binding = of_not _ g8;
      reserved = eq_of_not (get_u64 56 rec) 0 g9;
      acknowledged = ap (λ (x : Acknowledgement). x.epoch) (sym same);
      counter = ap (λ (x : Acknowledgement). x.advance_counter) (sym same);
    }

decode_ack-of_AckFacts :
    (rec : List ℕ) (suite : MlKemSuiteDescriptor) (binding : List ℕ) (ack : Acknowledgement)
    → AckFacts rec suite binding ack
    → decode_pq_healing_ack rec suite binding ≡ ok ack
unfolding decode_pq_healing_ack require_bytes
decode_ack-of_AckFacts rec suite binding ack facts = rw (
  facts.canonical,
  facts.bound,
  facts.long,
  facts.has_magic,
  facts.has_version,
  facts.has_type,
  facts.has_flags,
  facts.has_suite,
  ==_refl suite.parameter_set,
  facts.same_binding,
  facts.reserved,
  ← facts.acknowledged,
  ← facts.counter,
)

-- What the encoder has tested.
record AckEncodable (ack : Acknowledgement) (suite : MlKemSuiteDescriptor) (binding : List ℕ)
    (tag : ℕ) : Type 0 where
  canonical : assert_canonical_suite suite ≡ ok tt
  bound : length binding ≡ 32
  fits : ack.epoch ≤ max_u64
  fits_counter : ack.advance_counter ≤ max_u64
  tagged : parameter_set_to_tag suite.parameter_set ≡ ok tag

encode_ack-AckEncodable :
    (ack : Acknowledgement) (suite : MlKemSuiteDescriptor) (binding rec : List ℕ)
    → encode_pq_healing_ack ack suite binding ≡ ok rec
    → (tag : ℕ) × AckEncodable ack suite binding tag
      × (rec ≡ prefix ack_type tag binding ++ words ack.advance_counter ack.epoch 0 [])
unfolding encode_pq_healing_ack require_bytes require_acknowledgement require_u64
encode_ack-AckEncodable ack suite binding rec e =
    let (u, canonical, e1) = >>=-eq_ok (assert_canonical_suite suite) _ e in
    let (g1, e2) = past_guard (not (length binding == 32)) invalid_record e1 in
    let (a, accepted, e3) = >>=-eq_ok (require_acknowledgement ack) _ e2 in
    let (g2, f1) = past_guard (ltb max_u64 ack.epoch) overflow accepted in
    let (g3, f2) = past_guard (ltb max_u64 ack.advance_counter) overflow f1 in
    let (tag, tagged, e4) = >>=-eq_ok (parameter_set_to_tag suite.parameter_set) _ e3 in
    let same = ok-injective f2 in
    let bound = eq_of_not (length binding) 32 g1 in
    (
      tag,
      record {
        canonical = canonical;
        bound = bound;
        fits = le_of_ltb max_u64 ack.epoch g2;
        fits_counter = le_of_ltb max_u64 ack.advance_counter g3;
        tagged = tagged;
      },
      sym (ok-injective e4)
          ∙ ap
              (λ (x : Acknowledgement).
                set_u64 48 x.epoch
                  (set_u64 40 x.advance_counter (write_prefix ack_type tag binding (zeros 64))))
              (sym same)
          ∙ ack_layout tag ack.advance_counter ack.epoch binding bound,
    )

encode_ack-of_AckEncodable :
    (ack : Acknowledgement) (suite : MlKemSuiteDescriptor) (binding : List ℕ) (tag : ℕ)
    → AckEncodable ack suite binding tag
    → encode_pq_healing_ack ack suite binding
      ≡ ok (prefix ack_type tag binding ++ words ack.advance_counter ack.epoch 0 [])
unfolding encode_pq_healing_ack require_bytes require_acknowledgement require_u64
encode_ack-of_AckEncodable ack suite binding tag h =
    rw
      (
        h.canonical,
        h.bound,
        ltb_of_le max_u64 ack.epoch h.fits,
        ltb_of_le max_u64 ack.advance_counter h.fits_counter,
        h.tagged,
      )
      (ap ok (ack_layout tag ack.advance_counter ack.epoch binding h.bound))

-- An acknowledgement that encodes is read back under the same suite and binding.
pub decode_pq_healing_ack-encode :
    (ack : Acknowledgement) (suite : MlKemSuiteDescriptor) (binding rec : List ℕ)
    → encode_pq_healing_ack ack suite binding ≡ ok rec
    → decode_pq_healing_ack rec suite binding ≡ ok ack
decode_pq_healing_ack-encode ack suite binding rec e =
    let (tag, h, layout) = encode_ack-AckEncodable ack suite binding rec e in
    let front = prefix ack_type tag binding in
    let c = ack.advance_counter in
    let (wc, we, wz) =
      get_words front c ack.epoch 0 [] (omega (arith, h.bound)) (omega (arith, h.fits_counter))
        (omega (arith, h.fits)) (omega arith) in
    let laid_out =
      decode_ack-of_AckFacts (front ++ words c ack.epoch 0 []) suite binding ack (record {
        canonical = h.canonical;
        bound = h.bound;
        long = omega (
          arith,
          h.bound,
          length-append binding (words c ack.epoch 0 []),
          length-words c ack.epoch 0 [],
        );
        has_magic = bytes_equal_refl magic;
        has_version = refl;
        has_type = refl;
        has_flags = refl;
        has_suite = tag_to_parameter_set-tag suite.parameter_set tag h.tagged;
        same_binding =
            ap (λ b. bytes_equal b binding)
              (take-append_of_length binding (words c ack.epoch 0 []) 32 h.bound)
            ∙ bytes_equal_refl binding;
        reserved = wz;
        acknowledged = sym we;
        counter = sym wc;
      }) in
    ap (λ r. decode_pq_healing_ack r suite binding) layout ∙ laid_out

-- Bytes that decode as an acknowledgement are its one encoding.
pub encode-decode_pq_healing_ack :
    (suite : MlKemSuiteDescriptor) (binding rec : List ℕ) (ack : Acknowledgement)
    → IsBytes rec
    → decode_pq_healing_ack rec suite binding ≡ ok ack
    → encode_pq_healing_ack ack suite binding ≡ ok rec
encode-decode_pq_healing_ack suite binding rec ack bytes e =
    let facts = decode_ack-AckFacts rec suite binding ack e in
    let long : 64 ≤ length rec = omega (arith, facts.long) in
    let (tag, at_six, tagged) =
      parameter_set_to_tag-of_tag (byte_at rec 6) suite.parameter_set facts.has_suite in
    let bound = (bytes_equal_iff (slice 8 40 rec) binding).0 facts.same_binding in
    let layout =
      front_bytes rec ack_type tag facts.has_magic facts.has_version facts.has_type at_six
        facts.has_flags
      ∙ ap (prefix ack_type tag) (
          sym (take-append-drop 32 (drop 8 rec))
          ∙ ap (◌++◌ (slice 8 40 rec)) (drop-drop 8 32 40 rec refl ∙ words-get rec long bytes)) in
    let nothing : drop 64 rec ≡ [] =
      nil_of_length (drop 64 rec) (length-drop 64 rec ∙ omega (arith, facts.long)) in
    encode_ack-of_AckEncodable ack suite binding tag (record {
      canonical = facts.canonical;
      bound = facts.bound;
      fits = word_bound 48 rec bytes long (omega arith) facts.acknowledged;
      fits_counter = word_bound 40 rec bytes long (omega arith) facts.counter;
      tagged = tagged;
    })
    ∙ ap ok (
        sym (
          layout ∙ λ i.
          prefix ack_type tag (bound i)
          ++ words (sym facts.counter i) (sym facts.acknowledged i) (facts.reserved i) (nothing i)))
  where
    nil_of_length : (xs : List ℕ) → length xs ≡ 0 → xs ≡ []
    nil_of_length [] h = refl
    nil_of_length (x ∷ xs) h = absurd (omega arith)
