-- ===== src/MlKem/Canonical.antt =====
-- src/cryptography/pqHealing.ts: `assertCanonicalSuite` against the table of src/cryptography/mlkem.ts.
use text.Mathlib.TextEquality.{eq_iff as string_eq_iff}
use p2party_js.Base.{
  ℕ, ◌≡◌, refl, sym, ap, ◌∙◌, inl, inr, Bool, true, false, ◌&&◌, Option, none, some, ◌==◌, ==_iff,
  Bool-cases, ok, err, fail_if, not, ◌↔◌,
}
use mathlib.Core.Path.{subst}
use p2party_js.PqHealing.Record.{
  PqHealingError, range_error, suite_mismatch, assert_canonical_suite,
}
use p2party_js.MlKem.{
  WasmExports, MlKemSuiteDescriptor, ml_kem_512_suite, ml_kem_768_suite, ml_kem_1024_suite,
  get_ml_kem_suite, same_descriptor, IsCanonical, canonical_512, canonical_768, canonical_1024,
}

abbrev parameter_set_of : MlKemSuiteDescriptor → ℕ
parameter_set_of s = s.parameter_set

of_fail_if : (b : Bool) (x : PqHealingError) {u : Unit {0}} → fail_if (not b) x ≡ ok u → b ≡ true
of_fail_if true x h = refl
of_fail_if false x h = cc

some-injective :
    {a b : MlKemSuiteDescriptor} → ◌≡◌ {A = Option MlKemSuiteDescriptor} (some a) (some b) → a ≡ b
some-injective h = cc

none_is_not-some :
    (a : MlKemSuiteDescriptor) → ¬ (◌≡◌ {A = Option MlKemSuiteDescriptor} none (some a))
none_is_not-some a h = cc

both : (a b : Bool) → (a && b) ≡ true → (a ≡ true) × (b ≡ true)
both true b h = (refl, h)
both false b h = cc

pub same_descriptor-eq :
    (s c : MlKemSuiteDescriptor)
    → s.parameter_set ≡ c.parameter_set
    → same_descriptor s c ≡ true
    → s ≡ record c { wasm_exports = s.wasm_exports }
unfolding same_descriptor
same_descriptor-eq s c h e =
    let (r6, b7) = both _ (s.encaps_random_bytes == c.encaps_random_bytes) e in
    let (r5, b6) = both _ (s.key_pair_random_bytes == c.key_pair_random_bytes) r6 in
    let (r4, b5) = both _ (s.shared_secret_bytes == c.shared_secret_bytes) r5 in
    let (r3, b4) = both _ (s.ciphertext_bytes == c.ciphertext_bytes) r4 in
    let (r2, b3) = both _ (s.secret_key_bytes == c.secret_key_bytes) r3 in
    let (b1, b2) = both _ (s.public_key_bytes == c.public_key_bytes) r2 in
    let h1 = (string_eq_iff s.standard_name c.standard_name).0 b1 in
    let h2 = (==_iff s.public_key_bytes c.public_key_bytes).0 b2 in
    let h3 = (==_iff s.secret_key_bytes c.secret_key_bytes).0 b3 in
    let h4 = (==_iff s.ciphertext_bytes c.ciphertext_bytes).0 b4 in
    let h5 = (==_iff s.shared_secret_bytes c.shared_secret_bytes).0 b5 in
    let h6 = (==_iff s.key_pair_random_bytes c.key_pair_random_bytes).0 b6 in
    let h7 = (==_iff s.encaps_random_bytes c.encaps_random_bytes).0 b7 in
    λ i. record {
      parameter_set = h i;
      standard_name = h1 i;
      public_key_bytes = h2 i;
      secret_key_bytes = h3 i;
      ciphertext_bytes = h4 i;
      shared_secret_bytes = h5 i;
      key_pair_random_bytes = h6 i;
      encaps_random_bytes = h7 i;
      wasm_exports = s.wasm_exports;
    }

any_exports :
    (c : MlKemSuiteDescriptor) (w : WasmExports)
    → IsCanonical c
    → IsCanonical (record c { wasm_exports = w })
any_exports _ w (canonical_512 v) = canonical_512 w
any_exports _ w (canonical_768 v) = canonical_768 w
any_exports _ w (canonical_1024 v) = canonical_1024 w

-- What the table has is canonical.
get_ml_kem_suite-IsCanonical :
    (n : ℕ) (canonical : MlKemSuiteDescriptor)
    → get_ml_kem_suite n ≡ some canonical
    → IsCanonical canonical × (n ≡ canonical.parameter_set)
unfolding get_ml_kem_suite
get_ml_kem_suite-IsCanonical n canonical e = elim (Bool-cases (n == 512)) [
  | inl h1 ↦
      let same = some-injective (sym (rw h1) ∙ e) in
      (
        subst IsCanonical same (canonical_512 ml_kem_512_suite.wasm_exports),
        (==_iff n 512).0 h1 ∙ ap parameter_set_of same,
      )
  | inr h1 ↦ elim (Bool-cases (n == 768)) [
    | inl h2 ↦
        let same = some-injective (sym (rw (h1, h2)) ∙ e) in
        (
          subst IsCanonical same (canonical_768 ml_kem_768_suite.wasm_exports),
          (==_iff n 768).0 h2 ∙ ap parameter_set_of same,
        )
    | inr h2 ↦ elim (Bool-cases (n == 1024)) [
      | inl h3 ↦
          let same = some-injective (sym (rw (h1, h2, h3)) ∙ e) in
          (
            subst IsCanonical same (canonical_1024 ml_kem_1024_suite.wasm_exports),
            (==_iff n 1024).0 h3 ∙ ap parameter_set_of same,
          )
      | inr h3 ↦
          let nothing : get_ml_kem_suite n ≡ none = rw (h1, h2, h3) in
          absurd (none_is_not-some canonical (sym nothing ∙ e))
    ]
  ]
]

checked :
    (suite : MlKemSuiteDescriptor) (r : Option MlKemSuiteDescriptor)
    → get_ml_kem_suite suite.parameter_set ≡ r
    → elim r [
      | none ↦ err range_error
      | some canonical ↦ fail_if (not (same_descriptor suite canonical)) suite_mismatch
    ]
      ≡ ok tt
    → IsCanonical suite
checked suite none found e = cc
checked suite (some canonical) found e =
    let (known, same) = get_ml_kem_suite-IsCanonical suite.parameter_set canonical found in
    let equal = of_fail_if (same_descriptor suite canonical) suite_mismatch e in
    subst IsCanonical (sym (same_descriptor-eq suite canonical same equal))
      (any_exports canonical suite.wasm_exports known)

IsCanonical-checked :
    (suite : MlKemSuiteDescriptor) → IsCanonical suite → assert_canonical_suite suite ≡ ok tt
unfolding assert_canonical_suite get_ml_kem_suite same_descriptor
IsCanonical-checked _ (canonical_512 w) = refl
IsCanonical-checked _ (canonical_768 w) = refl
IsCanonical-checked _ (canonical_1024 w) = refl

-- A suite passes the check exactly when it is one of the three descriptors of the table in all but
-- the names of its entry points, which may be any.
pub assert_canonical_suite_iff :
    (suite : MlKemSuiteDescriptor) → (assert_canonical_suite suite ≡ ok tt) ↔ IsCanonical suite
unfolding assert_canonical_suite
assert_canonical_suite_iff suite =
    (checked suite (get_ml_kem_suite suite.parameter_set) refl, IsCanonical-checked suite)
