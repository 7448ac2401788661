-- ===== src/PqHealing/Codec/Advance.antt =====
-- src/cryptography/pqHealing.ts: ADVANCE records, `encodeAdvance` and `decodeAdvance`.
use mathlib.Core.List.{append-nil}
use p2party_js.Base.{
  ℕ, ◌+◌, ◌-◌, ◌^◌, ◌<◌, ◌≡◌, refl, sym, ap, ◌∙◌, ◌||◌, not, Option, some, List, [], ◌++◌, arith,
  length, length-append, take, drop, ◌==◌, ok, past_guard, >>=-eq_ok, ok-injective, eq_of_not,
  neither, ==_refl, length-drop, drop-drop, take-append-drop, drop-append_of_length,
  take-append_of_length,
}
use p2party_js.Bytes.{zeros, slice, set_at, IsBytes}
use p2party_js.Bytes.Laws.{set_at-zeros, set_at_block, length-zeros}
use p2party_js.MlKem.{MlKemSuiteDescriptor}
use p2party_js.PqHealing.Record.{
  invalid_record, fork, advance_type, require_bytes, encode_header, decode_header, offer_length,
  advance_length, write_prefix, write_words,
}
use p2party_js.PqHealing.Record.Header.{prefix, set_at-words, drop-words}
use p2party_js.Bytes.Fields.{words, length-words}
use p2party_js.PqHealing.Codec.{
  DecodedOffer, DecodedAdvance, decode_offer, encode_advance, decode_advance,
}
use p2party_js.PqHealing.Codec.Header.{
  length-slice, word_bound, epoch_bound, differs_from_self, eq_of_differs_from, Facts,
  decode_header-Facts, layout_of_Facts, decode_header-layout,
}
use p2party_js.PqHealing.Codec.Offer.{
  Encodable, encode_header-Encodable, encode_header-of_Encodable, header_zeros,
  decode_offer-OfferFacts,
}

-- The two writes behind the header of an ADVANCE fill its area of zeros.
advance_layout :
    (suite : MlKemSuiteDescriptor) (tag : ℕ) (binding : List ℕ) (c f t : ℕ)
    (offer_bytes ciphertext : List ℕ)
    → length binding ≡ 32
    → length offer_bytes ≡ 64 + suite.public_key_bytes
    → length ciphertext ≡ suite.ciphertext_bytes
    → set_at (64 + length offer_bytes) ciphertext (
        set_at 64 offer_bytes (
          write_words c f t (write_prefix advance_type tag binding (zeros (advance_length suite)))))
      ≡ prefix advance_type tag binding ++ words c f t (offer_bytes ++ ciphertext)
unfolding advance_length offer_length
advance_layout suite tag binding c f t offer_bytes ciphertext hb ho hc =
    ap (λ b. set_at (64 + length offer_bytes) ciphertext (set_at 64 offer_bytes b))
      (ap (λ n. write_words c f t (write_prefix advance_type tag binding (zeros n))) total
        ∙ header_zeros advance_type tag area binding c f t hb)
    ∙ ap (set_at (64 + length offer_bytes) ciphertext) (
        set_at-words 64 0 front c f t offer_bytes (zeros area) (omega arith) refl
        ∙ ap (λ r. front ++ words c f t r)
            (set_at-zeros offer_bytes area suite.ciphertext_bytes (omega arith)))
    ∙ set_at-words (64 + length offer_bytes) (length offer_bytes) front c f t ciphertext _
        (omega arith) refl
    ∙ ap (λ r. front ++ words c f t r) second
  where
    area : ℕ
    area = length offer_bytes + suite.ciphertext_bytes

    front : List ℕ
    front = prefix advance_type tag binding

    total : 64 + (64 + suite.public_key_bytes) + suite.ciphertext_bytes ≡ 64 + area
    total = omega arith

    second :
        set_at (length offer_bytes) ciphertext (offer_bytes ++ zeros suite.ciphertext_bytes)
        ≡ offer_bytes ++ ciphertext
    second =
        ap (λ z. set_at (length offer_bytes) ciphertext (offer_bytes ++ z))
          (sym (append-nil (zeros suite.ciphertext_bytes)))
        ∙ set_at_block (length offer_bytes) offer_bytes ciphertext (zeros suite.ciphertext_bytes) []
            refl (length-zeros suite.ciphertext_bytes ∙ sym hc)
        ∙ ap (◌++◌ offer_bytes) (append-nil ciphertext)

-- What `encodeAdvance` writes.
pub encode_advance-layout :
    (suite : MlKemSuiteDescriptor) (binding : List ℕ) (c : ℕ) (o : DecodedOffer)
    (ciphertext bytes : List ℕ)
    → length o.bytes ≡ 64 + suite.public_key_bytes
    → encode_advance suite binding c o ciphertext ≡ ok bytes
    → (tag : ℕ) × Encodable suite binding c o.from_epoch o.to_epoch tag
      × (length ciphertext ≡ suite.ciphertext_bytes)
      × (bytes
          ≡ prefix advance_type tag binding
            ++ words c o.from_epoch o.to_epoch (o.bytes ++ ciphertext))
unfolding encode_advance require_bytes
encode_advance-layout suite binding c o ciphertext bytes ho e =
    let (g1, e1) =
      past_guard (not (length ciphertext == suite.ciphertext_bytes)) invalid_record e in
    let (rec, encoded, e2) =
      >>=-eq_ok
        (encode_header advance_type suite binding c o.from_epoch o.to_epoch (advance_length suite))
        _ e1 in
    let (tag, encodable, written) =
      encode_header-Encodable advance_type suite binding c o.from_epoch o.to_epoch
        (advance_length suite) rec encoded in
    let hc = eq_of_not (length ciphertext) suite.ciphertext_bytes g1 in
    (
      tag,
      encodable,
      hc,
      sym (ok-injective e2)
          ∙ ap (λ b. set_at (64 + length o.bytes) ciphertext (set_at 64 o.bytes b)) written
          ∙ advance_layout suite tag binding c o.from_epoch o.to_epoch o.bytes ciphertext
              encodable.bound ho hc,
    )

-- What a decoded ADVANCE is.
pub record AdvanceFacts (rec : List ℕ) (suite : MlKemSuiteDescriptor) (check : Option (List ℕ))
    (a : DecodedAdvance) : Type 0 where
  pub header : Facts rec advance_type suite check (record {
    sender_counter = a.sender_counter;
    from_epoch = a.from_epoch;
    to_epoch = a.to_epoch;
  })
  pub long : length rec ≡ 64 + (64 + suite.public_key_bytes) + suite.ciphertext_bytes
  pub answered :
      decode_offer (slice 64 (64 + (64 + suite.public_key_bytes)) rec) suite check ≡ ok a.offer
  pub same_from : a.offer.from_epoch ≡ a.from_epoch
  pub same_to : a.offer.to_epoch ≡ a.to_epoch
  pub own : a.bytes ≡ rec
  pub cipher : a.ciphertext ≡ drop (64 + (64 + suite.public_key_bytes)) rec

pub decode_advance-AdvanceFacts :
    (rec : List ℕ) (suite : MlKemSuiteDescriptor) (check : Option (List ℕ)) (a : DecodedAdvance)
    → decode_advance rec suite check ≡ ok a
    → AdvanceFacts rec suite check a
unfolding decode_advance advance_length offer_length
decode_advance-AdvanceFacts rec suite check a e =
    let (h, decoded, e1) = >>=-eq_ok (decode_header rec advance_type suite check) _ e in
    let (g1, e2) =
      past_guard (not (length rec == 64 + (64 + suite.public_key_bytes) + suite.ciphertext_bytes))
        invalid_record e1 in
    let (o, answered, e3) =
      >>=-eq_ok (decode_offer (slice 64 (64 + (64 + suite.public_key_bytes)) rec) suite check) _
        e2 in
    let (g2, e4) =
      past_guard (not (o.from_epoch == h.from_epoch) || not (o.to_epoch == h.to_epoch)) fork e3 in
    let (g3, g4) = neither (not (o.from_epoch == h.from_epoch)) _ g2 in
    let same = ok-injective e4 in
    record {
      header = decode_header-Facts rec advance_type suite check _ (
          decoded
          ∙ ap
              (λ (x : DecodedAdvance). ok (record {
                sender_counter = x.sender_counter;
                from_epoch = x.from_epoch;
                to_epoch = x.to_epoch;
              }))
              same);
      long = eq_of_not (length rec) _ g1;
      answered = answered ∙ ap (λ (x : DecodedAdvance). ok x.offer) same;
      same_from =
          ap (λ (x : DecodedAdvance). x.offer.from_epoch) (sym same)
          ∙ eq_of_not o.from_epoch h.from_epoch g3
          ∙ ap (λ (x : DecodedAdvance). x.from_epoch) same;
      same_to =
          ap (λ (x : DecodedAdvance). x.offer.to_epoch) (sym same)
          ∙ eq_of_not o.to_epoch h.to_epoch g4
          ∙ ap (λ (x : DecodedAdvance). x.to_epoch) same;
      own = ap (λ (x : DecodedAdvance). x.bytes) (sym same);
      cipher = ap (λ (x : DecodedAdvance). x.ciphertext) (sym same);
    }

-- The OFFER inside a decoded ADVANCE is itself a decoded OFFER.
pub offer_of_AdvanceFacts :
    (rec : List ℕ) (suite : MlKemSuiteDescriptor) (check : Option (List ℕ)) (a : DecodedAdvance)
    → AdvanceFacts rec suite check a
    → (a.offer.bytes ≡ slice 64 (64 + (64 + suite.public_key_bytes)) rec)
      × (decode_offer a.offer.bytes suite check ≡ ok a.offer)
offer_of_AdvanceFacts rec suite check a facts =
    let inner = decode_offer-OfferFacts _ suite check a.offer facts.answered in
    (inner.own, ap (λ b. decode_offer b suite check) inner.own ∙ facts.answered)

-- Every ADVANCE that is encoded decodes to what was encoded, the OFFER included.
pub decode_advance-encode_advance :
    (suite : MlKemSuiteDescriptor) (binding : List ℕ) (c : ℕ) (o : DecodedOffer)
    (ciphertext bytes : List ℕ)
    → decode_offer o.bytes suite (some binding) ≡ ok o
    → encode_advance suite binding c o ciphertext ≡ ok bytes
    → decode_advance bytes suite (some binding)
      ≡ ok (record {
        sender_counter = c;
        from_epoch = o.from_epoch;
        to_epoch = o.to_epoch;
        bytes = bytes;
        offer = o;
        ciphertext = ciphertext;
      })
unfolding decode_advance advance_length offer_length
decode_advance-encode_advance suite binding c o ciphertext bytes decodes e =
    let ho = (decode_offer-OfferFacts o.bytes suite (some binding) o decodes).long in
    let (tag, h, hc, layout) = encode_advance-layout suite binding c o ciphertext bytes ho e in
    let f = o.from_epoch in
    let t = o.to_epoch in
    let payload = o.bytes ++ ciphertext in
    let front = prefix advance_type tag binding in
    let hp : length payload ≡ 64 + suite.public_key_bytes + suite.ciphertext_bytes =
      omega (arith, length-append o.bytes ciphertext, ho, hc) in
    let long : length bytes ≡ 64 + (64 + suite.public_key_bytes) + suite.ciphertext_bytes =
      ap length layout
      ∙ omega (
        arith,
        h.bound,
        hp,
        length-append binding (words c f t payload),
        length-words c f t payload,
      ) in
    let fits : c < 2 ^ 64 = omega (arith, h.counter) in
    let header =
      ap (λ b. decode_header b advance_type suite (some binding)) layout
      ∙ decode_header-layout advance_type tag suite binding c f t payload (some binding) h.bound
          h.tagged (differs_from_self binding) fits h.incrementable h.one_epoch in
    let behind : drop 64 bytes ≡ payload =
      ap (drop 64) layout ∙ drop-words front c f t payload (omega (arith, h.bound)) in
    let nested : take (64 + (64 + suite.public_key_bytes) - 64) (drop 64 bytes) ≡ o.bytes =
      ap (take (64 + (64 + suite.public_key_bytes) - 64)) behind
      ∙ take-append_of_length o.bytes ciphertext _ (omega (arith, ho)) in
    let last : drop (64 + (64 + suite.public_key_bytes)) bytes ≡ ciphertext =
      sym (drop-drop 64 (64 + suite.public_key_bytes) _ bytes refl)
      ∙ ap (drop (64 + suite.public_key_bytes)) behind
      ∙ drop-append_of_length o.bytes ciphertext _ ho in
    rw (
      header,
      long,
      ==_refl (64 + (64 + suite.public_key_bytes) + suite.ciphertext_bytes),
      nested,
      decodes,
      ==_refl f,
      ==_refl t,
      last,
    )

-- An ADVANCE that decodes is, byte for byte, the one encoding of its counter, its OFFER and its
-- ciphertext.
pub encode_advance-decode_advance :
    (suite : MlKemSuiteDescriptor) (binding rec : List ℕ) (a : DecodedAdvance)
    → IsBytes rec
    → decode_advance rec suite (some binding) ≡ ok a
    → encode_advance suite binding a.sender_counter a.offer a.ciphertext ≡ ok rec
unfolding encode_advance require_bytes
encode_advance-decode_advance suite binding rec a bytes e =
    let facts = decode_advance-AdvanceFacts rec suite (some binding) a e in
    let head = facts.header in
    let (tag, tagged, layout) =
      layout_of_Facts rec advance_type suite (some binding) _ head bytes in
    let (own, decodes) = offer_of_AdvanceFacts rec suite (some binding) a facts in
    let ho = (decode_offer-OfferFacts a.offer.bytes suite (some binding) a.offer decodes).long in
    let bound = eq_of_differs_from (slice 8 40 rec) binding head.has_binding in
    let hc : length a.ciphertext ≡ suite.ciphertext_bytes =
      ap length facts.cipher
      ∙ length-drop (64 + (64 + suite.public_key_bytes)) rec
      ∙ omega (arith, facts.long) in
    let encodable : Encodable suite binding a.sender_counter a.offer.from_epoch a.offer.to_epoch
        tag =
      record {
        bound = ap length (sym bound) ∙ length-slice rec head.long;
        counter = word_bound 40 rec bytes head.long (omega arith) head.counter;
        incrementable =
            epoch_bound 48 rec bytes head.long (omega arith) (facts.same_from ∙ head.from)
              (λ x. head.incrementable (sym facts.same_from ∙ x));
        one_epoch = facts.same_to ∙ head.one_epoch ∙ ap (λ n. n + 1) (sym facts.same_from);
        tagged = tagged;
      } in
    let payload : drop 64 rec ≡ a.offer.bytes ++ a.ciphertext =
      sym (take-append-drop (64 + suite.public_key_bytes) (drop 64 rec))
      ∙ ap (λ b. b ++ drop (64 + suite.public_key_bytes) (drop 64 rec))
          (ap (λ n. take n (drop 64 rec)) (omega arith) ∙ sym own)
      ∙ ap (◌++◌ a.offer.bytes)
          (drop-drop 64 (64 + suite.public_key_bytes) _ rec refl ∙ sym facts.cipher) in
    rw
      (
        hc,
        ==_refl suite.ciphertext_bytes,
        encode_header-of_Encodable advance_type suite binding a.sender_counter a.offer.from_epoch
            a.offer.to_epoch (advance_length suite) tag encodable,
        advance_layout suite tag binding a.sender_counter a.offer.from_epoch a.offer.to_epoch
            a.offer.bytes a.ciphertext encodable.bound ho hc,
      )
      (ap ok (
        sym (
          layout ∙ λ i.
          prefix advance_type tag (bound i)
          ++ words a.sender_counter (sym facts.same_from i) (sym facts.same_to i) (payload i))))
