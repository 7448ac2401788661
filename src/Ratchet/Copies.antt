-- ===== src/Ratchet/Copies.antt =====
-- The copies of a state of src/cryptography/ratchet.ts: what is stored gives the state back.
use mathlib.Core.List.{append-nil, append_assoc}
use mathlib.Core.Path.{subst}
use p2party_js.Base.{
  ℕ, ◌≡◌, refl, sym, ap, ◌∙◌, inl, inr, Bool-cases, List, [], ◌∷◌, ◌++◌, Option, some, none,
}
use p2party_js.Maps.{Key, bytes_key, map_get, map_set, IsUnique}
use p2party_js.Maps.Laws.{same_refl, same_of_ne, differ}
use p2party_js.Ratchet.SlotKeys.{skipped_key, read_key-skipped_key, skipped_key-injective}
use p2party_js.Ratchet.State.{Slot, slot_key, RatchetState}
use p2party_js.Ratchet.Checkpoint.{
  keyed, flatten, rebuild, slotted, clone_ratchet, serialize_ratchet, deserialize_ratchet,
}

module _ {K V : Type 0} ⦃k : Key K⦄ where
  -- A new key goes last.
  map_set-append :
      (a : K) (v : V) (m : List (K × V)) → map_get a m ≡ none → map_set a v m ≡ m ++ (a, v) ∷ []
  unfolding map_get map_set
  map_set-append a v [] h = refl
  map_set-append a v ((b, w) ∷ m) h = elim (Bool-cases (k.same b a)) [
    | inl e ↦ absurd (some_is_not-none (rw e at h))
    | inr e ↦ rw e (ap (◌∷◌ (b, w)) (map_set-append a v m (rw e at h)))
  ]
    where
      some_is_not-none : ¬ (◌≡◌ {A = Option V} (some w) none)
      some_is_not-none p = cc

  there : (a : K) (v : V) (m n : List (K × V)) → ¬ (map_get a (m ++ (a, v) ∷ n) ≡ none)
  unfolding map_get
  there a v [] n h = some_is_not-none (rw (same_refl a) at h)
    where
      some_is_not-none : ¬ (◌≡◌ {A = Option V} (some v) none)
      some_is_not-none p = cc
  there a v ((b, w) ∷ m) n h = elim (Bool-cases (k.same b a)) [
    | inl e ↦ some_is_not-none (rw e at h)
    | inr e ↦ there a v m n (rw e at h)
  ]
    where
      some_is_not-none : ¬ (◌≡◌ {A = Option V} (some w) none)
      some_is_not-none p = cc

  -- In a map with one entry for each key, a key is not also further ahead.
  not_ahead :
      (m : List (K × V)) (a : K) (v : V) (n : List (K × V))
      → IsUnique (m ++ (a, v) ∷ n)
      → map_get a m ≡ none
  unfolding map_get IsUnique
  not_ahead [] a v n u = refl
  not_ahead ((b, w) ∷ m) a v n u = elim (Bool-cases (k.same b a)) [
    | inl e ↦
        absurd (
          there a v m n
            (subst (λ c. map_get c (m ++ (a, v) ∷ n) ≡ none) ((k.same_iff b a).0 e) u.0))
    | inr e ↦ rw e (not_ahead m a v n u.1)
  ]

-- Different slots have different strings.
absent-keyed :
    (slot : Slot) (m : List (Slot × List ℕ))
    → map_get slot m ≡ none
    → map_get (skipped_key slot) (keyed m) ≡ none
unfolding map_get keyed
absent-keyed slot [] h = refl
absent-keyed slot ((other, v) ∷ m) h = elim (Bool-cases (slot_key.same other slot)) [
  | inl e ↦ absurd (some_is_not-none (rw e at h))
  | inr e ↦
      let apart =
        same_of_ne (skipped_key other) (skipped_key slot)
          (λ p. differ e (skipped_key-injective other slot p)) in
      rw (apart, absent-keyed slot m (rw e at h))
]
  where
    some_is_not-none : ¬ (◌≡◌ {A = Option (List ℕ)} (some v) none)
    some_is_not-none p = cc

keyed-IsUnique : (m : List (Slot × List ℕ)) → IsUnique m → IsUnique (keyed m)
unfolding IsUnique keyed
keyed-IsUnique [] u = tt
keyed-IsUnique ((slot, v) ∷ m) u = (absent-keyed slot m u.0, keyed-IsUnique m u.1)

rebuild-flatten :
    (m : List (List ℕ × List ℕ)) (n : List (Slot × List ℕ))
    → IsUnique (m ++ keyed n)
    → rebuild m (flatten (keyed n)) ≡ m ++ keyed n
unfolding rebuild flatten keyed
rebuild-flatten m [] u = sym (append-nil m)
rebuild-flatten m ((slot, v) ∷ n) u =
    let key = skipped_key slot in
    let moved : (m ++ (key, v) ∷ []) ++ keyed n ≡ m ++ (key, v) ∷ keyed n =
      append_assoc m ((key, v) ∷ []) (keyed n) in
    ap (λ (read : Slot). rebuild (map_set (skipped_key read) v m) (flatten (keyed n)))
      (read_key-skipped_key slot)
    ∙ ap (λ acc. rebuild acc (flatten (keyed n)))
        (map_set-append key v m (not_ahead m key v (keyed n) u))
    ∙ rebuild-flatten (m ++ (key, v) ∷ []) n (subst IsUnique (sym moved) u)
    ∙ moved

slotted-keyed : (m : List (Slot × List ℕ)) → slotted (keyed m) ≡ m
unfolding slotted keyed
slotted-keyed [] = refl
slotted-keyed ((slot, v) ∷ m) = rw (read_key-skipped_key slot, slotted-keyed m)

-- A clone of a state with one skipped key for each slot is the state: the strings that hold the slots
-- are read back as the slots that were printed.
pub clone_ratchet-eq : (s : RatchetState) → IsUnique s.skipped → clone_ratchet s ≡ s
unfolding clone_ratchet serialize_ratchet deserialize_ratchet
clone_ratchet-eq s u =
    ap (λ m. record s { skipped = m })
      (ap slotted (rebuild-flatten [] s.skipped (keyed-IsUnique s.skipped u))
        ∙ slotted-keyed s.skipped)
