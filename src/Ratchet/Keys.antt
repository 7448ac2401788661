-- ===== src/Ratchet/Keys.antt =====
-- The keys of a symmetric chain of src/cryptography/ratchet.ts, by their index: what both ends of an
-- edge derive, whatever the order of delivery.
use p2party_js.Base.{ℕ, zero, suc, ◌≡◌, refl, sym, ap, ◌∙◌, List, ok, some, ok-injective}
use p2party_js.Bytes.{slice}
use p2party_js.LibCrypto.{LibCrypto, hkdf_extract}
use p2party_js.Ratchet.Kdf.{ChainStep, kdf_ck, mk_info, ck_info}

-- The chain key before message `i`.
pub data ChainAt (m : LibCrypto) (first : List ℕ) : ℕ → List ℕ → Type 0 where
  start : ChainAt m first zero first
  next :
      {i : ℕ} {ck : List ℕ} (step : ChainStep)
      → ChainAt m first i ck
      → kdf_ck ck m ≡ ok step
      → ChainAt m first (suc i) step.chain_key

-- The key of message `i`.
pub data KeyAt (m : LibCrypto) (first : List ℕ) (i : ℕ) : List ℕ → Type 0 where
  key :
      {ck : List ℕ} (step : ChainStep)
      → ChainAt m first i ck
      → kdf_ck ck m ≡ ok step
      → KeyAt m first i step.message_key

-- The library documents no failure of an extraction but that of an allocation.
abbrev pub Extracts : LibCrypto → Type 0
Extracts m = (salt ikm : List ℕ) → (out : List ℕ) × (m.hkdf_sha512_extract salt ikm ≡ some out)

hkdf_extract-total :
    (m : LibCrypto)
    → Extracts m
    → (salt ikm : List ℕ) → (out : List ℕ) × (hkdf_extract salt ikm m ≡ ok out)
unfolding hkdf_extract
hkdf_extract-total m extracts salt ikm =
    let (out, e) = extracts salt ikm in (out, rw (e, hkdf_extract))

pub kdf_ck-total :
    (m : LibCrypto) → Extracts m → (ck : List ℕ) → (step : ChainStep) × (kdf_ck ck m ≡ ok step)
unfolding kdf_ck
kdf_ck-total m extracts ck =
    let (mk_full, e) = hkdf_extract-total m extracts ck mk_info in
    let (ck_full, f) = hkdf_extract-total m extracts ck ck_info in
    (record { chain_key = slice 0 32 ck_full; message_key = slice 0 32 mk_full }, rw (e, f))

module _ {m : LibCrypto} where
  chain_unique :
      {first : List ℕ} {i : ℕ} {a b : List ℕ} → ChainAt m first i a → ChainAt m first i b → a ≡ b
  chain_unique start start = refl
  chain_unique (next step c e) (next step' c' e') =
      ap (λ s. s.chain_key) (ok-injective (sym e ∙ ap (λ ck. kdf_ck ck m) (chain_unique c c') ∙ e'))

  -- A message has one key.
  pub key_unique :
      {first : List ℕ} {i : ℕ} {a b : List ℕ} → KeyAt m first i a → KeyAt m first i b → a ≡ b
  key_unique (key step c e) (key step' c' e') =
      ap (λ s. s.message_key)
        (ok-injective (sym e ∙ ap (λ ck. kdf_ck ck m) (chain_unique c c') ∙ e'))
