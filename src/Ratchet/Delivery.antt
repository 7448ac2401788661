-- ===== src/Ratchet/Delivery.antt =====
-- Delivery out of order on one chain of src/cryptography/ratchet.ts.
use p2party_js.Base.{
  ℕ, zero, suc, ◌+◌, ◌-◌, ◌≤◌, ◌≡◌, refl, ap, ◌∙◌, List, some, none, arith, ok, length, Result,
  ltb_of_le, not, false,
}
use p2party_js.Bytes.Laws.{bytes_equal_iff}
use p2party_js.LibCrypto.{LibCrypto}
use p2party_js.Maps.{map_get}
use p2party_js.Ratchet.Kdf.{RatchetError, ChainStep, kdf_ck}
use p2party_js.Ratchet.State.{
  slot_key, RatchetState, RatchetHeader, DhKeyPair, ◌>>◌, modify, continue,
}
use p2party_js.Ratchet.Skipping.{
  try_skipped, delete_skipped, advance_chain, stash, skip_rounds, evict, skip_message_keys,
  max_skip, max_skip_session,
}
use p2party_js.Ratchet.Messages.{
  ratchet_decrypt, decrypt_unstored, step_if_new, is_new_dh, take_next, count_received,
}
use p2party_js.Ratchet.Keys.{Extracts, kdf_ck-total}
use p2party_js.Ratchet.Tracking.{Tracks, IsOpen, stashed, stashed-Tracks, stashed-IsOpen}

evict_small : (s : RatchetState) → length s.skipped ≤ max_skip_session → evict s ≡ s
unfolding evict
evict_small s h = simp (all_kept)
  where
    all_kept : length s.skipped - max_skip_session ≡ 0
    all_kept = omega arith

pub skip_message_keys-open :
    (m : LibCrypto) (n : ℕ) (s : RatchetState) (ck : List ℕ)
    → n ≤ s.nr + max_skip
    → s.receiving_chain_key ≡ some ck
    → skip_message_keys n m s ≡ (skip_rounds m (n - s.nr) >> modify evict) s
unfolding skip_message_keys
skip_message_keys-open m n s ck near e = simp (ltb_of_le (s.nr + max_skip) n near, e)

-- One round.
pub skip_rounds-suc :
    (m : LibCrypto) (remote : List ℕ) (r : ℕ) (s : RatchetState) (ck : List ℕ) (step : ChainStep)
    → s.receiving_chain_key ≡ some ck
    → s.dh_remote_pub ≡ some remote
    → kdf_ck ck m ≡ ok step
    → skip_rounds m (suc r) s ≡ skip_rounds m r (stashed remote step s)
unfolding skip_rounds stashed stash advance_chain
skip_rounds-suc m remote r s ck step e d f = simp (e, f, d)

module _ (m : LibCrypto) (first remote : List ℕ) (base : ℕ) where
  -- What `rounds` rounds leave.
  pub record Skipped (rounds : ℕ) (s s' : RatchetState) : Type 0 where
    pub tracks : Tracks m first remote base s'
    pub far : s'.nr ≡ s.nr + rounds
    pub keeps : (i : ℕ) → IsOpen remote i s → IsOpen remote i s'

  skip_rounds-Skipped :
      Extracts m
      → (r : ℕ) (s : RatchetState) → Tracks m first remote base s
      → (s' : RatchetState) × (skip_rounds m r s ≡ (s', ok tt)) × Skipped r s s'
  unfolding skip_rounds stashed stash advance_chain
  skip_rounds-Skipped extracts zero s t =
      (s, refl, record { tracks = t; far = omega arith; keeps = λ i o. o })
  skip_rounds-Skipped extracts (suc r) s t =
      let (ck, e, at) = t.chain_is in
      let (step, f) = kdf_ck-total m extracts ck in
      let (s', ran, w) =
        skip_rounds-Skipped extracts r (stashed remote step s)
          (stashed-Tracks m first remote base s ck step t e f) in
      (
        s',
        skip_rounds-suc m remote r s ck step e t.remote_is f ∙ ran,
        record {
          tracks = w.tracks;
          far = omega (arith, w.far);
          keeps = λ i o. w.keeps i (stashed-IsOpen remote s step i o);
        },
      )

  pub skip_message_keys-Skipped :
      Extracts m
      → (n : ℕ) (s : RatchetState) → Tracks m first remote base s
      → s.nr ≤ n
      → n ≤ s.nr + max_skip
      → base + n ≤ max_skip_session
      → (s' : RatchetState) × (skip_message_keys n m s ≡ (s', ok tt)) × Skipped (n - s.nr) s s'
  unfolding skip_message_keys
  skip_message_keys-Skipped extracts n s t ahead near small =
      let (ck, e, at) = t.chain_is in
      let (s', ran, w) = skip_rounds-Skipped extracts (n - s.nr) s t in
      let kept : length s'.skipped ≤ max_skip_session = omega (arith, w.tracks.small, w.far) in
      let evicts : ◌≡◌ {A = RatchetState × Result RatchetError (Unit {0})} (evict s', ok tt)
          (s', ok tt) =
        ap (λ s. (s, ok tt)) (evict_small s' kept) in
      (
        s',
        skip_message_keys-open m n s ck near e ∙ ap (continue (λ _. modify evict)) ran ∙ evicts,
        w,
      )

-- The header of message `n` on the chain.
abbrev pub numbered : List ℕ → ℕ → ℕ → RatchetHeader
numbered remote n pn = record { dh_pub = remote; n = n; pn = pn }

pub ratchet_decrypt-stored :
    (m : LibCrypto) (h : RatchetHeader) (fresh : DhKeyPair) (s : RatchetState) (k : List ℕ)
    → map_get (h.dh_pub, h.n) s.skipped ≡ some k
    → ratchet_decrypt h fresh m s ≡ (delete_skipped (h.dh_pub, h.n) s, ok k)
unfolding ratchet_decrypt try_skipped
ratchet_decrypt-stored m h fresh s k e = rw (e, try_skipped)

pub ratchet_decrypt-unstored :
    (m : LibCrypto) (h : RatchetHeader) (fresh : DhKeyPair) (s : RatchetState)
    → map_get (h.dh_pub, h.n) s.skipped ≡ none
    → ratchet_decrypt h fresh m s ≡ decrypt_unstored h fresh m s
unfolding ratchet_decrypt try_skipped
ratchet_decrypt-unstored m h fresh s e = rw (e, try_skipped)

pub is_new_dh-same :
    (h : RatchetHeader) (s : RatchetState) → s.dh_remote_pub ≡ some h.dh_pub → is_new_dh h s ≡ false
unfolding is_new_dh
is_new_dh-same h s e = rw (e, is_new_dh) (ap not ((bytes_equal_iff h.dh_pub h.dh_pub).1 refl))

pub step_if_new-same :
    (m : LibCrypto) (h : RatchetHeader) (fresh : DhKeyPair) (s : RatchetState)
    → s.dh_remote_pub ≡ some h.dh_pub
    → step_if_new h fresh m s ≡ (s, ok tt)
unfolding step_if_new
step_if_new-same m h fresh s e = rw (is_new_dh-same h s e)

-- The state after the derivation of the next key.
unfoldable pub taken : ChainStep → RatchetState → RatchetState
taken step s = count_received (advance_chain step s)

pub take_next-ok :
    (m : LibCrypto) (s : RatchetState) (ck : List ℕ) (step : ChainStep)
    → s.receiving_chain_key ≡ some ck
    → kdf_ck ck m ≡ ok step
    → take_next m s ≡ (taken step s, ok step.message_key)
unfolding take_next taken
take_next-ok m s ck step e f = simp (e, f)

-- On the current chain: past the guards, the gap is skipped and the next key is taken.
pub decrypt_unstored-same :
    (m : LibCrypto) (h : RatchetHeader) (fresh : DhKeyPair) (s : RatchetState)
    → s.dh_remote_pub ≡ some h.dh_pub
    → s.nr ≤ h.n
    → decrypt_unstored h fresh m s ≡ (skip_message_keys h.n m >> take_next m) s
unfolding decrypt_unstored
decrypt_unstored-same m h fresh s e ahead =
    simp (step_if_new-same m h fresh s e, ltb_of_le h.n s.nr ahead)
