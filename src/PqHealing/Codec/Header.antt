-- ===== src/PqHealing/Codec/Header.antt =====
-- src/cryptography/pqHealing.ts: `encodeHeader` and `decodeHeader` on a header's layout.
use p2party_js.Base.{
  drop_of_get, drop-drop, neither, eq_of_not, of_not, ne_of_==, le_of_ltb, ltb_of_le, ==_of_ne,
  ok-injective, ◌||◌, past_guard, >>=-eq_ok, ℕ, ◌+◌, ◌^◌, ◌<◌, ◌≤◌, ◌≡◌, refl, sym, ap, ◌∙◌, ◌≢◌,
  true, false, not, Option, none, some, List, ◌∷◌, ◌++◌, arith, length, length-append, take, drop,
  ltb, ◌==◌, ok, ==_iff, ==_refl, take-append-drop, take-append_of_length, length-take, length-drop,
}
use p2party_js.Bytes.{slice, get_u64, bytes_equal, IsBytes}
use p2party_js.Bytes.Laws.{bytes_equal_iff, bytes_equal_refl, IsBytes-take, IsBytes-drop}
use p2party_js.Bytes.Words.{be_from-lt}
use p2party_js.MlKem.{MlKemSuiteDescriptor}
use p2party_js.PqHealing.Record.{
  invalid_record, suite_mismatch, binding_mismatch, DecodedHeader, max_u64, magic,
  parameter_set_to_tag, tag_to_parameter_set, decode_header, differs_from, byte_at, is_byte,
}
use p2party_js.PqHealing.Record.Header.{prefix, words-get, get_words}
use p2party_js.Bytes.Fields.{words, length-words}

-- The tag of a supported parameter set is read back.
pub tag_to_parameter_set-tag :
    (parameter_set tag : ℕ)
    → parameter_set_to_tag parameter_set ≡ ok tag
    → tag_to_parameter_set (some tag) ≡ ok parameter_set
unfolding parameter_set_to_tag tag_to_parameter_set
tag_to_parameter_set-tag parameter_set tag h = ground arith

pub parameter_set_to_tag-of_tag :
    (tag : Option ℕ) (parameter_set : ℕ)
    → tag_to_parameter_set tag ≡ ok parameter_set
    → (t : ℕ) × (tag ≡ some t) × (parameter_set_to_tag parameter_set ≡ ok t)
unfolding parameter_set_to_tag tag_to_parameter_set
parameter_set_to_tag-of_tag none parameter_set h = cc
parameter_set_to_tag-of_tag (some t) parameter_set h = (t, refl, ground arith)

-- What a successful decoding has tested.
pub record Facts (rec : List ℕ) (type : ℕ) (suite : MlKemSuiteDescriptor)
    (binding : Option (List ℕ)) (h : DecodedHeader) : Type 0 where
  pub long : 64 ≤ length rec
  pub has_magic : bytes_equal (take 4 rec) magic ≡ true
  pub has_version : is_byte (byte_at rec 4) 1 ≡ true
  pub has_type : is_byte (byte_at rec 5) type ≡ true
  pub has_flags : is_byte (byte_at rec 7) 0 ≡ true
  pub has_suite : tag_to_parameter_set (byte_at rec 6) ≡ ok suite.parameter_set
  pub has_binding : differs_from (slice 8 40 rec) binding ≡ false
  pub counter : h.sender_counter ≡ get_u64 40 rec
  pub from : h.from_epoch ≡ get_u64 48 rec
  pub to : h.to_epoch ≡ get_u64 56 rec
  pub incrementable : h.from_epoch ≢ max_u64
  pub one_epoch : h.to_epoch ≡ h.from_epoch + 1

pub decode_header-Facts :
    (rec : List ℕ) (type : ℕ) (suite : MlKemSuiteDescriptor) (binding : Option (List ℕ))
    (h : DecodedHeader)
    → decode_header rec type suite binding ≡ ok h
    → Facts rec type suite binding h
unfolding decode_header
decode_header-Facts rec type suite binding h e =
    let (g1, e1) = past_guard (ltb (length rec) 64) invalid_record e in
    let (g2, e2) = past_guard (not (bytes_equal (take 4 rec) magic)) invalid_record e1 in
    let (g3, e3) = past_guard (not (is_byte (byte_at rec 4) 1)) invalid_record e2 in
    let (g4, e4) = past_guard (not (is_byte (byte_at rec 5) type)) invalid_record e3 in
    let (g5, e5) = past_guard (not (is_byte (byte_at rec 7) 0)) invalid_record e4 in
    let (p, t, e6) = >>=-eq_ok (tag_to_parameter_set (byte_at rec 6)) _ e5 in
    let (g7, e7) = past_guard (not (p == suite.parameter_set)) suite_mismatch e6 in
    let (g8, e8) = past_guard (differs_from (slice 8 40 rec) binding) binding_mismatch e7 in
    let (g9, e9) =
      past_guard (get_u64 48 rec == max_u64 || not (get_u64 56 rec == get_u64 48 rec + 1))
        invalid_record e8 in
    let (g10, g11) = neither (get_u64 48 rec == max_u64) _ g9 in
    let header = ok-injective e9 in
    let one = eq_of_not (get_u64 56 rec) (get_u64 48 rec + 1) g11 in
    record {
      long = le_of_ltb _ _ g1;
      has_magic = of_not _ g2;
      has_version = of_not _ g3;
      has_type = of_not _ g4;
      has_flags = of_not _ g5;
      has_suite = t ∙ ap ok (eq_of_not p suite.parameter_set g7);
      has_binding = g8;
      counter = ap (λ (x : DecodedHeader). x.sender_counter) (sym header);
      from = ap (λ (x : DecodedHeader). x.from_epoch) (sym header);
      to = ap (λ (x : DecodedHeader). x.to_epoch) (sym header);
      incrementable = rw (← header) (ne_of_== (get_u64 48 rec) max_u64 g10);
      one_epoch = rw (← header) one;
    }

pub some_of_is_byte : (o : Option ℕ) (v : ℕ) → is_byte o v ≡ true → o ≡ some v
some_of_is_byte none v h = cc
some_of_is_byte (some b) v h = ap some ((==_iff b v).0 h)

pub differs_from_self : (b : List ℕ) → differs_from b (some b) ≡ false
unfolding differs_from
differs_from_self b = rw (bytes_equal_refl b)

pub eq_of_differs_from : (b c : List ℕ) → differs_from b (some c) ≡ false → b ≡ c
unfolding differs_from
eq_of_differs_from b c h = (bytes_equal_iff b c).0 (of_not (bytes_equal b c) h)

pub length-slice : (rec : List ℕ) → 64 ≤ length rec → length (slice 8 40 rec) ≡ 32
length-slice rec long = length-take 32 (drop 8 rec) (omega (arith, length-drop 8 rec))

-- Words read from bytes are unsigned 64-bit numbers.
pub word_bound :
    (offset : ℕ) (rec : List ℕ) {w : ℕ}
    → IsBytes rec
    → 64 ≤ length rec
    → offset ≤ 56
    → w ≡ get_u64 offset rec
    → w ≤ max_u64
word_bound offset rec bytes long h e =
    let eight = length-take 8 (drop offset rec) (omega (arith, length-drop offset rec)) in
    let below =
      be_from-lt (take 8 (drop offset rec)) (IsBytes-take 8 _ (IsBytes-drop offset rec bytes)) in
    let fits : get_u64 offset rec < 256 ^ 8 = rw eight at below in omega arith

pub epoch_bound :
    (offset : ℕ) (rec : List ℕ) {w : ℕ}
    → IsBytes rec
    → 64 ≤ length rec
    → offset ≤ 56
    → w ≡ get_u64 offset rec
    → w ≢ max_u64
    → w < max_u64
epoch_bound offset rec bytes long h e ne = omega (arith, word_bound offset rec bytes long h e)

-- The eight bytes in front of the binding.
pub front_bytes :
    (rec : List ℕ) (type tag : ℕ)
    → bytes_equal (take 4 rec) magic ≡ true
    → is_byte (byte_at rec 4) 1 ≡ true
    → is_byte (byte_at rec 5) type ≡ true
    → byte_at rec 6 ≡ some tag
    → is_byte (byte_at rec 7) 0 ≡ true
    → rec ≡ prefix type tag (drop 8 rec)
front_bytes rec type tag m v t s f =
    sym (take-append-drop 4 rec)
    ∙ ap (λ b. b ++ drop 4 rec) ((bytes_equal_iff (take 4 rec) magic).0 m)
    ∙ ap (◌++◌ magic) (
        drop_of_get rec 4 (some_of_is_byte _ 1 v)
        ∙ ap (◌∷◌ 1) (
            drop_of_get rec 5 (some_of_is_byte _ type t)
            ∙ ap (◌∷◌ type)
                (drop_of_get rec 6 s ∙ ap (◌∷◌ tag) (drop_of_get rec 7 (some_of_is_byte _ 0 f)))))

-- A header that decodes is laid out in the one canonical way.
pub layout_of_Facts :
    (rec : List ℕ) (type : ℕ) (suite : MlKemSuiteDescriptor) (binding : Option (List ℕ))
    (h : DecodedHeader)
    → Facts rec type suite binding h
    → IsBytes rec
    → (tag : ℕ) × (parameter_set_to_tag suite.parameter_set ≡ ok tag)
      × (rec
          ≡ prefix type tag (slice 8 40 rec)
            ++ words h.sender_counter h.from_epoch h.to_epoch (drop 64 rec))
layout_of_Facts rec type suite binding h facts bytes =
    let (tag, at_six, encodes) =
      parameter_set_to_tag-of_tag (byte_at rec 6) suite.parameter_set facts.has_suite in
    (tag, encodes, laid_out tag at_six)
  where
    words_of : drop 40 rec ≡ words h.sender_counter h.from_epoch h.to_epoch (drop 64 rec)
    words_of = words-get rec facts.long bytes ∙ λ i.
        words (sym facts.counter i) (sym facts.from i) (sym facts.to i) (drop 64 rec)

    behind : drop 8 rec ≡ slice 8 40 rec ++ drop 40 rec
    behind =
        sym (take-append-drop 32 (drop 8 rec))
        ∙ ap (◌++◌ (slice 8 40 rec)) (drop-drop 8 32 40 rec refl)

    laid_out :
        (tag : ℕ)
        → byte_at rec 6 ≡ some tag
        → rec
          ≡ prefix type tag (slice 8 40 rec)
            ++ words h.sender_counter h.from_epoch h.to_epoch (drop 64 rec)
    laid_out tag at_six =
        front_bytes rec type tag facts.has_magic facts.has_version facts.has_type at_six
          facts.has_flags
        ∙ ap (prefix type tag) (behind ∙ ap (◌++◌ (slice 8 40 rec)) words_of)

-- Conversely, the tests that hold make the decoding succeed.
pub decode_header-of_Facts :
    (rec : List ℕ) (type : ℕ) (suite : MlKemSuiteDescriptor) (binding : Option (List ℕ))
    (h : DecodedHeader)
    → Facts rec type suite binding h
    → decode_header rec type suite binding ≡ ok h
unfolding decode_header
decode_header-of_Facts rec type suite binding h facts = rw (
  ltb_of_le (length rec) 64 facts.long,
  facts.has_magic,
  facts.has_version,
  facts.has_type,
  facts.has_flags,
  facts.has_suite,
  ==_refl suite.parameter_set,
  facts.has_binding,
  ← facts.from,
  ← facts.to,
  ← facts.counter,
  ==_of_ne h.from_epoch max_u64 facts.incrementable,
  facts.one_epoch,
  ==_refl (h.from_epoch + 1),
)

-- A laid out header decodes to its fields.
pub decode_header-layout :
    (type tag : ℕ) (suite : MlKemSuiteDescriptor) (binding : List ℕ) (c f t : ℕ) (rest : List ℕ)
    (check : Option (List ℕ))
    → length binding ≡ 32
    → parameter_set_to_tag suite.parameter_set ≡ ok tag
    → differs_from binding check ≡ false
    → c < 2 ^ 64
    → f < max_u64
    → t ≡ f + 1
    → decode_header (prefix type tag binding ++ words c f t rest) type suite check
      ≡ ok (record { sender_counter = c; from_epoch = f; to_epoch = t })
decode_header-layout type tag suite binding c f t rest check hb ht hd hc hf e =
    let (wc, wf, wt) =
      get_words (prefix type tag binding) c f t rest (omega arith) hc (omega arith) (omega arith) in
    decode_header-of_Facts (prefix type tag binding ++ words c f t rest) type suite check _
      (record {
        long = omega (arith, length-append binding (words c f t rest), length-words c f t rest);
        has_magic = bytes_equal_refl magic;
        has_version = refl;
        has_type = ==_refl type;
        has_flags = refl;
        has_suite = tag_to_parameter_set-tag suite.parameter_set tag ht;
        has_binding =
            ap (λ b. differs_from b check) (take-append_of_length binding (words c f t rest) 32 hb)
            ∙ hd;
        counter = sym wc;
        from = sym wf;
        to = sym wt;
        incrementable = λ x. absurd (omega arith);
        one_epoch = e;
      })
