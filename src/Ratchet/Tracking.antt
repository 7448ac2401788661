-- ===== src/Ratchet/Tracking.antt =====
-- What a receiver on one chain of src/cryptography/ratchet.ts holds, and that skipping keeps it.
use mathlib.Core.Path.{subst}
use p2party_js.Base.{
  ◌==◌, ==_iff, Bool-cases, ne_of_==, ℕ, ◌+◌, ◌≤◌, ◌<◌, ◌≡◌, ◌≢◌, refl, sym, ap, ◌∙◌, ◌⊎◌, inl, inr,
  List, Option, some, arith, ok, length,
}
use p2party_js.LibCrypto.{LibCrypto}
use p2party_js.Maps.{map_get, map_set, IsUnique}
use p2party_js.Maps.Laws.{map_get-map_set, map_get-map_set_ne, map_set-IsUnique, length-map_set}
use p2party_js.Ratchet.Kdf.{ChainStep, kdf_ck}
use p2party_js.Ratchet.State.{Slot, slot_key, RatchetState}
use p2party_js.Ratchet.Skipping.{advance_chain, stash}
use p2party_js.Ratchet.Keys.{ChainAt, next, KeyAt, key}

-- The receiver is on the chain that starts with `first`, under the key `remote` of the peer: its
-- chain key is the one of the index `nr`, and what is stored under `remote` are keys of the chain
-- below it. The entries beyond `nr` are at most `base`.
pub record Tracks (m : LibCrypto) (first remote : List ℕ) (base : ℕ) (s : RatchetState)
    : Type 0 where
  pub remote_is : s.dh_remote_pub ≡ some remote
  pub chain_is : (ck : List ℕ) × (s.receiving_chain_key ≡ some ck) × ChainAt m first s.nr ck
  pub stored_below :
      (i : ℕ) (k : List ℕ) → map_get (remote, i) s.skipped ≡ some k → (i < s.nr) × KeyAt m first i k
  pub unique : IsUnique s.skipped
  pub small : length s.skipped ≤ base + s.nr

-- Message `i` is not delivered yet: its key is ahead, or stored.
abbrev pub IsOpen : List ℕ → ℕ → RatchetState → Type 0
IsOpen remote i s = (s.nr ≤ i) ⊎ ((k : List ℕ) × (map_get (remote, i) s.skipped ≡ some k))

unfoldable pub stashed : List ℕ → ChainStep → RatchetState → RatchetState
stashed remote step s = stash remote step.message_key (advance_chain step s)

some-injective : {a b : List ℕ} → ◌≡◌ {A = Option (List ℕ)} (some a) (some b) → a ≡ b
some-injective h = cc

-- Is `i` the index of the round?
pub here_or_not : (i n : ℕ) → (i ≡ n) ⊎ (n ≢ i)
here_or_not i n = elim (Bool-cases (i == n)) [
  | inl e ↦ inl ((==_iff i n).0 e)
  | inr e ↦ inr (λ p. ne_of_== i n e (sym p))
]

pub other_slot : (remote : List ℕ) (n i : ℕ) → n ≢ i → ◌≢◌ {A = Slot} (remote, n) (remote, i)
other_slot remote n i h p = h (ap (λ slot. slot.1) p)

module _ (m : LibCrypto) (first remote : List ℕ) (base : ℕ) where
  -- The chain key that is held, and the step of its derivation.
  pub stashed-Tracks :
      (s : RatchetState) (ck : List ℕ) (step : ChainStep)
      → Tracks m first remote base s
      → s.receiving_chain_key ≡ some ck
      → kdf_ck ck m ≡ ok step
      → Tracks m first remote base (stashed remote step s)
  unfolding stashed stash advance_chain
  stashed-Tracks s ck step t e f =
      let (ck', e', at') = t.chain_is in
      let at : ChainAt m first s.nr ck = subst (ChainAt m first s.nr) (cc) at' in
      record {
        remote_is = t.remote_is;
        chain_is = (
          step.chain_key,
          refl,
          subst (λ n. ChainAt m first n step.chain_key) (omega arith) (next step at f),
        );
        stored_below = λ i k stored. elim (here_or_not i s.nr) [
          | inl p ↦ (
            omega arith,
            subst (KeyAt m first i)
                (some-injective (
                  sym (map_get-map_set (remote, s.nr) step.message_key s.skipped)
                  ∙ subst
                      (λ j.
                        map_get (remote, j) (map_set (remote, s.nr) step.message_key s.skipped)
                        ≡ some k)
                      p stored))
                (subst (λ j. KeyAt m first j step.message_key) (sym p) (key step at f)),
          )
          | inr p ↦
              let old = t.stored_below i k (
                sym (
                  map_get-map_set_ne (remote, s.nr) (remote, i) step.message_key s.skipped
                    (other_slot remote s.nr i p))
                ∙ stored) in
              (omega (arith, old.0), old.1)
        ];
        unique = map_set-IsUnique (remote, s.nr) step.message_key s.skipped t.unique;
        small = omega (arith, length-map_set (remote, s.nr) step.message_key s.skipped, t.small);
      }

pub stashed-IsOpen :
    (remote : List ℕ) (s : RatchetState) (step : ChainStep) (i : ℕ)
    → IsOpen remote i s
    → IsOpen remote i (stashed remote step s)
unfolding stashed stash advance_chain
stashed-IsOpen remote s step i o = elim (here_or_not i s.nr) [
  | inl p ↦ inr (step.message_key, rw p (map_get-map_set (remote, s.nr) step.message_key s.skipped))
  | inr p ↦ elim o [
    | inl ahead ↦ inl (omega arith)
    | inr (k, stored) ↦ inr (
      k,
      map_get-map_set_ne (remote, s.nr) (remote, i) step.message_key s.skipped
            (other_slot remote s.nr i p)
          ∙ stored,
    )
  ]
]
