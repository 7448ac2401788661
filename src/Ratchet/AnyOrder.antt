-- ===== src/Ratchet/AnyOrder.antt =====
-- Every message of a chain of src/cryptography/ratchet.ts is delivered once, whatever the order.
use mathlib.Core.Path.{subst}
use p2party_js.Base.{
  ℕ, ◌+◌, ◌≤◌, ◌≡◌, ◌≢◌, refl, sym, ap, ◌∙◌, inl, inr, List, Option, some, none, arith, ok,
  Option-cases,
}
use p2party_js.LibCrypto.{LibCrypto}
use p2party_js.Maps.{map_get, map_delete}
use p2party_js.Maps.Laws.{
  map_get-map_delete, map_get-map_delete_ne, map_delete-IsUnique, length-map_delete,
}
use p2party_js.Ratchet.Kdf.{ChainStep, kdf_ck}
use p2party_js.Ratchet.State.{slot_key, RatchetState, DhKeyPair, continue}
use p2party_js.Ratchet.Skipping.{delete_skipped, advance_chain, max_skip, max_skip_session}
use p2party_js.Ratchet.Messages.{ratchet_decrypt, take_next}
use p2party_js.Ratchet.Keys.{ChainAt, next, KeyAt, key, Extracts, kdf_ck-total}
use p2party_js.Ratchet.Tracking.{Tracks, IsOpen, here_or_not, other_slot}
use p2party_js.Ratchet.Delivery.{
  numbered, taken, ratchet_decrypt-stored, ratchet_decrypt-unstored, take_next-ok,
  decrypt_unstored-same, skip_message_keys-Skipped,
}

none_is_not-some : {k : List ℕ} → ¬ (◌≡◌ {A = Option (List ℕ)} none (some k))
none_is_not-some h = cc

module _ (m : LibCrypto) (first remote : List ℕ) (base : ℕ) where
  taken-Tracks :
      (s : RatchetState) (ck : List ℕ) (step : ChainStep)
      → Tracks m first remote base s
      → s.receiving_chain_key ≡ some ck
      → kdf_ck ck m ≡ ok step
      → KeyAt m first s.nr step.message_key × Tracks m first remote base (taken step s)
  unfolding taken advance_chain
  taken-Tracks s ck step t e f =
      let (ck', e', at') = t.chain_is in
      let at : ChainAt m first s.nr ck = subst (ChainAt m first s.nr) (cc) at' in
      (
        key step at f,
        record {
          remote_is = t.remote_is;
          chain_is = (
            step.chain_key,
            refl,
            subst (λ n. ChainAt m first n step.chain_key) (omega arith) (next step at f),
          );
          stored_below =
              λ i k stored. let old = t.stored_below i k stored in (omega (arith, old.0), old.1);
          unique = t.unique;
          small = omega (arith, t.small);
        },
      )

  deleted-Tracks :
      (s : RatchetState) (n : ℕ)
      → Tracks m first remote base s
      → Tracks m first remote base (delete_skipped (remote, n) s)
  deleted-Tracks s n t = record {
    remote_is = t.remote_is;
    chain_is = t.chain_is;
    stored_below = λ i k stored. elim (here_or_not i n) [
      | inl p ↦ absurd (
          none_is_not-some (
            sym (map_get-map_delete (remote, n) s.skipped t.unique)
            ∙ subst (λ j. map_get (remote, j) (map_delete (remote, n) s.skipped) ≡ some k) p
                stored))
      | inr p ↦ t.stored_below i k (
          sym (map_get-map_delete_ne (remote, n) (remote, i) s.skipped (other_slot remote n i p))
          ∙ stored)
    ];
    unique = map_delete-IsUnique (remote, n) s.skipped t.unique;
    small = omega (arith, length-map_delete (remote, n) s.skipped, t.small);
  }

  taken-IsOpen :
      (s : RatchetState) (step : ChainStep) (n j : ℕ)
      → s.nr ≡ n
      → n ≢ j
      → IsOpen remote j s
      → IsOpen remote j (taken step s)
  unfolding taken advance_chain
  taken-IsOpen s step n j e ne (inl ahead) = inl (omega arith)
  taken-IsOpen s step n j e ne (inr stored) = inr stored

  -- What a delivery leaves.
  pub record Delivers (n : ℕ) (k : List ℕ) (s s' : RatchetState) : Type 0 where
    pub its_key : KeyAt m first n k
    pub tracks : Tracks m first remote base s'
    pub keeps : (j : ℕ) → n ≢ j → IsOpen remote j s → IsOpen remote j s'

  module _ (extracts : Extracts m) (room : base + max_skip ≤ max_skip_session)
      (fresh : DhKeyPair) where
    ratchet_decrypt-ahead :
        (n pn : ℕ) (s : RatchetState)
        → Tracks m first remote base s
        → s.nr ≤ n
        → n ≤ max_skip
        → map_get (remote, n) s.skipped ≡ none
        → (s' : RatchetState) × (k : List ℕ) × (ratchet_decrypt (numbered remote n pn) fresh m s
            ≡ (s', ok k))
          × Delivers n k s s'
    ratchet_decrypt-ahead n pn s t ahead near e =
        let (s1, ran, w) =
          skip_message_keys-Skipped m first remote base extracts n s t ahead (omega arith)
            (omega arith) in
        let (ck, e1, at) = w.tracks.chain_is in
        let (step, f) = kdf_ck-total m extracts ck in
        let (its_key, tracks) = taken-Tracks s1 ck step w.tracks e1 f in
        let at_n : s1.nr ≡ n = omega (arith, w.far) in
        (
          taken step s1,
          step.message_key,
          ratchet_decrypt-unstored m (numbered remote n pn) fresh s e
              ∙ decrypt_unstored-same m (numbered remote n pn) fresh s t.remote_is ahead
              ∙ ap (continue (λ _. take_next m)) ran
              ∙ take_next-ok m s1 ck step e1 f,
          record {
            its_key = subst (λ i. KeyAt m first i step.message_key) at_n its_key;
            tracks = tracks;
            keeps = λ j ne o. taken-IsOpen s1 step n j at_n ne (w.keeps j o);
          },
        )

    ratchet_decrypt-behind :
        (n pn : ℕ) (s : RatchetState) (k : List ℕ)
        → Tracks m first remote base s
        → map_get (remote, n) s.skipped ≡ some k
        → (s' : RatchetState) × (k : List ℕ) × (ratchet_decrypt (numbered remote n pn) fresh m s
            ≡ (s', ok k))
          × Delivers n k s s'
    ratchet_decrypt-behind n pn s k t e = (
      delete_skipped (remote, n) s,
      k,
      ratchet_decrypt-stored m (numbered remote n pn) fresh s k e,
      record {
        its_key = (t.stored_below n k e).1;
        tracks = deleted-Tracks s n t;
        keeps = λ j ne o. elim o [
          | inl ahead ↦ inl ahead
          | inr (k', stored) ↦ inr (
            k',
            map_get-map_delete_ne (remote, n) (remote, j) s.skipped (other_slot remote n j ne)
                ∙ stored,
          )
        ];
      },
    )

    -- An open message within reach is delivered.
    pub ratchet_decrypt-Delivers :
        (n pn : ℕ) (s : RatchetState)
        → Tracks m first remote base s
        → n ≤ max_skip
        → IsOpen remote n s
        → (s' : RatchetState) × (k : List ℕ) × (ratchet_decrypt (numbered remote n pn) fresh m s
            ≡ (s', ok k))
          × Delivers n k s s'
    ratchet_decrypt-Delivers n pn s t near o = elim (Option-cases (map_get (remote, n) s.skipped)) [
      | inr (k, e) ↦ ratchet_decrypt-behind n pn s k t e
      | inl e ↦ ratchet_decrypt-ahead n pn s t (ahead e o) near e
    ]
      where
        ahead : map_get (remote, n) s.skipped ≡ none → IsOpen remote n s → s.nr ≤ n
        ahead e (inl a) = a
        ahead e (inr (k, e')) = absurd (none_is_not-some (sym e ∙ e'))
