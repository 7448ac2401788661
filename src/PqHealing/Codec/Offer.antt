-- ===== src/PqHealing/Codec/Offer.antt =====
-- src/cryptography/pqHealing.ts: OFFER records, `encodeOffer` and `decodeOffer`.
use mathlib.Core.List.{append-nil}
use p2party_js.Base.{
  ℕ, ◌+◌, ◌^◌, ◌<◌, ◌≤◌, ◌≡◌, refl, sym, ap, ◌∙◌, ◌||◌, not, Option, some, List, ◌++◌, arith,
  length, length-append, drop, ltb, ◌==◌, ok, past_guard, >>=-eq_ok, ok-injective, eq_of_not,
  ne_of_==, le_of_ltb, ltb_of_le, neither, ==_refl, ==_of_ne, length-drop,
}
use p2party_js.Bytes.{zeros, slice, set_at, IsBytes}
use p2party_js.Bytes.Laws.{set_at-zeros}
use p2party_js.MlKem.{MlKemSuiteDescriptor}
use p2party_js.PqHealing.Record.{
  DecodedHeader, invalid_record, overflow, max_u64, offer_type, require_bytes, parameter_set_to_tag,
  encode_header, decode_header, offer_length, write_prefix, write_words,
}
use p2party_js.PqHealing.Record.Header.{
  prefix, write_prefix-zeros, write_words-zeros, set_at-words, drop-words,
}
use p2party_js.Bytes.Fields.{words, length-words}
use p2party_js.PqHealing.Codec.{DecodedOffer, encode_offer, decode_offer}
use p2party_js.PqHealing.Codec.Header.{
  length-slice, word_bound, epoch_bound, differs_from_self, eq_of_differs_from, Facts,
  decode_header-Facts, layout_of_Facts, decode_header-layout,
}

-- What the header encoder has tested.
pub record Encodable (suite : MlKemSuiteDescriptor) (binding : List ℕ) (c f t : ℕ) (tag : ℕ)
    : Type 0 where
  pub bound : length binding ≡ 32
  pub counter : c ≤ max_u64
  pub incrementable : f < max_u64
  pub one_epoch : t ≡ f + 1
  pub tagged : parameter_set_to_tag suite.parameter_set ≡ ok tag

pub encode_header-Encodable :
    (type : ℕ) (suite : MlKemSuiteDescriptor) (binding : List ℕ) (c f t total : ℕ) (rec : List ℕ)
    → encode_header type suite binding c f t total ≡ ok rec
    → (tag : ℕ) × Encodable suite binding c f t tag
      × (rec ≡ write_words c f t (write_prefix type tag binding (zeros total)))
unfolding encode_header
encode_header-Encodable type suite binding c f t total rec e =
    let (g1, e1) = past_guard (not (length binding == 32)) invalid_record e in
    let (g2, e2) = past_guard (ltb max_u64 c) overflow e1 in
    let (g3, e3) = past_guard (ltb max_u64 f) overflow e2 in
    let (g4, e4) = past_guard (ltb max_u64 t) overflow e3 in
    let (g5, e5) = past_guard (f == max_u64 || not (t == f + 1)) invalid_record e4 in
    let (tag, tagged, e6) = >>=-eq_ok (parameter_set_to_tag suite.parameter_set) _ e5 in
    let (g6, g7) = neither (f == max_u64) _ g5 in
    let distinct = ne_of_== f max_u64 g6 in
    let below = le_of_ltb max_u64 f g3 in
    (
      tag,
      record {
        bound = eq_of_not (length binding) 32 g1;
        counter = le_of_ltb max_u64 c g2;
        incrementable = omega (arith, distinct, below);
        one_epoch = eq_of_not t (f + 1) g7;
        tagged = tagged;
      },
      sym (ok-injective e6),
    )

pub encode_header-of_Encodable :
    (type : ℕ) (suite : MlKemSuiteDescriptor) (binding : List ℕ) (c f t total tag : ℕ)
    → Encodable suite binding c f t tag
    → encode_header type suite binding c f t total
      ≡ ok (write_words c f t (write_prefix type tag binding (zeros total)))
unfolding encode_header
encode_header-of_Encodable type suite binding c f t total tag h = rw (
  h.bound,
  h.one_epoch,
  ltb_of_le max_u64 c h.counter,
  ltb_of_le max_u64 f (omega arith),
  ltb_of_le max_u64 (f + 1) (omega arith),
  ==_of_ne f max_u64 (λ e. absurd (omega arith)),
  ==_refl (f + 1),
  h.tagged,
)

-- The header with an area of zeros behind it.
pub header_zeros :
    (type tag k : ℕ) (binding : List ℕ) (c f t : ℕ)
    → length binding ≡ 32
    → write_words c f t (write_prefix type tag binding (zeros (64 + k)))
      ≡ prefix type tag binding ++ words c f t (zeros k)
header_zeros type tag k binding c f t h =
    ap (write_words c f t) (write_prefix-zeros type tag k binding h)
    ∙ write_words-zeros (prefix type tag binding) c f t (zeros k) (omega arith)

offer_layout :
    (suite : MlKemSuiteDescriptor) (tag : ℕ) (binding : List ℕ) (c f t : ℕ) (key : List ℕ)
    → length binding ≡ 32
    → length key ≡ suite.public_key_bytes
    → set_at 64 key
        (write_words c f t (write_prefix offer_type tag binding (zeros (offer_length suite))))
      ≡ prefix offer_type tag binding ++ words c f t key
unfolding offer_length
offer_layout suite tag binding c f t key hb hk =
    ap (set_at 64 key) (header_zeros offer_type tag suite.public_key_bytes binding c f t hb)
    ∙ set_at-words 64 0 (prefix offer_type tag binding) c f t key (zeros suite.public_key_bytes)
        (omega arith) refl
    ∙ ap (λ r. prefix offer_type tag binding ++ words c f t r)
        (set_at-zeros key suite.public_key_bytes 0 (omega arith) ∙ append-nil key)

-- What `encodeOffer` writes.
pub encode_offer-layout :
    (suite : MlKemSuiteDescriptor) (binding : List ℕ) (c f : ℕ) (key bytes : List ℕ)
    → encode_offer suite binding c f key ≡ ok bytes
    → (tag : ℕ) × Encodable suite binding c f (f + 1) tag
      × (length key ≡ suite.public_key_bytes)
      × (bytes ≡ prefix offer_type tag binding ++ words c f (f + 1) key)
unfolding encode_offer require_bytes
encode_offer-layout suite binding c f key bytes e =
    let (g1, e1) = past_guard (not (length key == suite.public_key_bytes)) invalid_record e in
    let (rec, encoded, e2) =
      >>=-eq_ok (encode_header offer_type suite binding c f (f + 1) (offer_length suite)) _ e1 in
    let (tag, encodable, written) =
      encode_header-Encodable offer_type suite binding c f (f + 1) (offer_length suite) rec
        encoded in
    let key_length = eq_of_not (length key) suite.public_key_bytes g1 in
    (
      tag,
      encodable,
      key_length,
      sym (ok-injective e2)
          ∙ ap (set_at 64 key) written
          ∙ offer_layout suite tag binding c f (f + 1) key encodable.bound key_length,
    )

-- Every OFFER that is encoded decodes to what was encoded, under its own binding.
pub decode_offer-encode_offer :
    (suite : MlKemSuiteDescriptor) (binding : List ℕ) (c f : ℕ) (key bytes : List ℕ)
    → encode_offer suite binding c f key ≡ ok bytes
    → decode_offer bytes suite (some binding)
      ≡ ok (record {
        sender_counter = c;
        from_epoch = f;
        to_epoch = f + 1;
        bytes = bytes;
        public_key = key;
      })
unfolding decode_offer offer_length
decode_offer-encode_offer suite binding c f key bytes e =
    let (tag, h, key_length, layout) = encode_offer-layout suite binding c f key bytes e in
    let long : length bytes ≡ 64 + suite.public_key_bytes =
      ap length layout
      ∙ omega (
        arith,
        h.bound,
        key_length,
        length-append binding (words c f (f + 1) key),
        length-words c f (f + 1) key,
      ) in
    let fits : c < 2 ^ 64 = omega (arith, h.counter) in
    let header =
      ap (λ b. decode_header b offer_type suite (some binding)) layout
      ∙ decode_header-layout offer_type tag suite binding c f (f + 1) key (some binding) h.bound
          h.tagged (differs_from_self binding) fits h.incrementable refl in
    let behind =
      ap (drop 64) layout
      ∙ drop-words (prefix offer_type tag binding) c f (f + 1) key (omega (arith, h.bound)) in
    rw (header, long, ==_refl (64 + suite.public_key_bytes), behind)

abbrev pub header_of : DecodedOffer → DecodedHeader
header_of o = record {
  sender_counter = o.sender_counter;
  from_epoch = o.from_epoch;
  to_epoch = o.to_epoch;
}

-- What a decoded OFFER is.
pub record OfferFacts (rec : List ℕ) (suite : MlKemSuiteDescriptor) (check : Option (List ℕ))
    (o : DecodedOffer) : Type 0 where
  pub header : Facts rec offer_type suite check (header_of o)
  pub long : length rec ≡ 64 + suite.public_key_bytes
  pub own : o.bytes ≡ rec
  pub key : o.public_key ≡ drop 64 rec

pub decode_offer-OfferFacts :
    (rec : List ℕ) (suite : MlKemSuiteDescriptor) (check : Option (List ℕ)) (o : DecodedOffer)
    → decode_offer rec suite check ≡ ok o
    → OfferFacts rec suite check o
unfolding decode_offer offer_length
decode_offer-OfferFacts rec suite check o e =
    let (h, decoded, e1) = >>=-eq_ok (decode_header rec offer_type suite check) _ e in
    let (g1, e2) = past_guard (not (length rec == 64 + suite.public_key_bytes)) invalid_record e1 in
    let same = ok-injective e2 in
    record {
      header =
          decode_header-Facts rec offer_type suite check (header_of o)
            (decoded ∙ ap (λ (x : DecodedOffer). ok (header_of x)) same);
      long = eq_of_not (length rec) (64 + suite.public_key_bytes) g1;
      own = ap (λ (x : DecodedOffer). x.bytes) (sym same);
      key = ap (λ (x : DecodedOffer). x.public_key) (sym same);
    }

-- An OFFER that decodes is, byte for byte, the one encoding of the fields that it decodes to.
pub encode_offer-decode_offer :
    (suite : MlKemSuiteDescriptor) (binding rec : List ℕ) (o : DecodedOffer)
    → IsBytes rec
    → decode_offer rec suite (some binding) ≡ ok o
    → encode_offer suite binding o.sender_counter o.from_epoch o.public_key ≡ ok rec
unfolding encode_offer require_bytes
encode_offer-decode_offer suite binding rec o bytes e =
    let facts = decode_offer-OfferFacts rec suite (some binding) o e in
    let head = facts.header in
    let (tag, tagged, layout) =
      layout_of_Facts rec offer_type suite (some binding) (header_of o) head bytes in
    let bound = eq_of_differs_from (slice 8 40 rec) binding head.has_binding in
    let key_length : length o.public_key ≡ suite.public_key_bytes =
      ap length facts.key ∙ length-drop 64 rec ∙ omega (arith, facts.long) in
    let encodable : Encodable suite binding o.sender_counter o.from_epoch (o.from_epoch + 1) tag =
      record {
        bound = ap length (sym bound) ∙ length-slice rec head.long;
        counter = word_bound 40 rec bytes head.long (omega arith) head.counter;
        incrementable =
            epoch_bound 48 rec bytes head.long (omega arith) head.from head.incrementable;
        one_epoch = refl;
        tagged = tagged;
      } in
    rw
      (
        key_length,
        ==_refl suite.public_key_bytes,
        encode_header-of_Encodable offer_type suite binding o.sender_counter o.from_epoch
            (o.from_epoch + 1) (offer_length suite) tag encodable,
        offer_layout suite tag binding o.sender_counter o.from_epoch (o.from_epoch + 1) o.public_key
            encodable.bound key_length,
      )
      (ap ok (
        sym (
          layout ∙ λ i.
          prefix offer_type tag (bound i)
          ++ words o.sender_counter o.from_epoch (head.one_epoch i) (sym facts.key i))))
