-- ===== src/Maps/Laws.antt =====
-- Lookups behind writes and deletions of a `Map`.
use p2party_js.Base.{
  ℕ, ◌+◌, ◌≤◌, ◌≡◌, ◌≢◌, refl, sym, ◌∙◌, true, false, Option, none, some, List, [], ◌∷◌, arith,
  length, drop, zero, suc, Bool-cases, inl, inr,
}
use p2party_js.Maps.{Key, map_get, map_set, map_delete, IsUnique}

module _ {K : Type 0} ⦃k : Key K⦄ where
  pub same_refl : (a : K) → k.same a a ≡ true
  same_refl a = (k.same_iff a a).1 refl

  pub same_of_ne : (a b : K) → a ≢ b → k.same a b ≡ false
  same_of_ne a b h = elim (Bool-cases (k.same a b)) [
    | inl e ↦ absurd (h ((k.same_iff a b).0 e))
    | inr e ↦ e
  ]

  -- Keys that the test tells apart differ.
  pub differ : {a b : K} → k.same b a ≡ false → b ≢ a
  differ {a} {b} e p = false_is_not-true (sym e ∙ (k.same_iff b a).1 p)
    where
      false_is_not-true : ¬ (false ≡ true)
      false_is_not-true q = cc

module _ {K V : Type 0} ⦃k : Key K⦄ where
  pub map_get-map_set : (a : K) (v : V) (m : List (K × V)) → map_get a (map_set a v m) ≡ some v
  unfolding map_get map_set
  map_get-map_set a v [] = rw (same_refl a)
  map_get-map_set a v ((b, w) ∷ m) = elim (Bool-cases (k.same b a)) [
    | inl e ↦ rw (e, e)
    | inr e ↦ rw (e, e, map_get-map_set a v m)
  ]

  pub map_get-map_set_ne :
      (a b : K) (v : V) (m : List (K × V)) → a ≢ b → map_get b (map_set a v m) ≡ map_get b m
  unfolding map_get map_set
  map_get-map_set_ne a b v [] h = rw (same_of_ne a b h)
  map_get-map_set_ne a b v ((c, w) ∷ m) h = elim (Bool-cases (k.same c a)) [
    | inl e ↦
        let other : k.same c b ≡ false = same_of_ne c b (λ p. h (sym ((k.same_iff c a).0 e) ∙ p)) in
        rw (e, other)
    | inr e ↦ elim (Bool-cases (k.same c b)) [
      | inl f ↦ rw (e, f)
      | inr f ↦ rw (e, f, map_get-map_set_ne a b v m h)
    ]
  ]

  pub map_get-map_delete :
      (a : K) (m : List (K × V)) → IsUnique m → map_get a (map_delete a m) ≡ none
  unfolding map_get map_delete IsUnique
  map_get-map_delete a [] u = refl
  map_get-map_delete a ((b, w) ∷ m) u = elim (Bool-cases (k.same b a)) [
    | inl e ↦ rw (e, ← ((k.same_iff b a).0 e)) u.0
    | inr e ↦ rw (e, e, map_get-map_delete a m u.1)
  ]

  pub map_get-map_delete_ne :
      (a b : K) (m : List (K × V)) → a ≢ b → map_get b (map_delete a m) ≡ map_get b m
  unfolding map_get map_delete
  map_get-map_delete_ne a b [] h = refl
  map_get-map_delete_ne a b ((c, w) ∷ m) h = elim (Bool-cases (k.same c a)) [
    | inl e ↦ rw (e, same_of_ne c b (λ p. h (sym ((k.same_iff c a).0 e) ∙ p)))
    | inr e ↦ elim (Bool-cases (k.same c b)) [
      | inl f ↦ rw (e, f)
      | inr f ↦ rw (e, f, map_get-map_delete_ne a b m h)
    ]
  ]

  -- A deletion makes no entry.
  absent_stays_absent :
      (a b : K) (m : List (K × V)) → map_get b m ≡ none → map_get b (map_delete a m) ≡ none
  unfolding map_get map_delete
  absent_stays_absent a b [] h = refl
  absent_stays_absent a b ((c, w) ∷ m) h = elim (Bool-cases (k.same c b)) [
    | inl f ↦ absurd (some_is_not-none w (sym (rw f) ∙ h))
    | inr f ↦
        let rest : map_get b m ≡ none = sym (rw f) ∙ h in
        elim (Bool-cases (k.same c a)) [
          | inl e ↦ rw (e, rest)
          | inr e ↦ rw (e, f, absent_stays_absent a b m rest)
        ]
  ]
    where
      some_is_not-none : (v : V) → ¬ (◌≡◌ {A = Option V} (some v) none)
      some_is_not-none v p = cc

  pub map_set-IsUnique : (a : K) (v : V) (m : List (K × V)) → IsUnique m → IsUnique (map_set a v m)
  unfolding IsUnique map_set map_get
  map_set-IsUnique a v [] u = (refl, tt)
  map_set-IsUnique a v ((b, w) ∷ m) u = elim (Bool-cases (k.same b a)) [
    | inl e ↦ rw e u
    | inr e ↦
        rw e (map_get-map_set_ne a b v m (λ p. differ e (sym p)) ∙ u.0, map_set-IsUnique a v m u.1)
  ]

  pub map_delete-IsUnique : (a : K) (m : List (K × V)) → IsUnique m → IsUnique (map_delete a m)
  unfolding IsUnique map_delete
  map_delete-IsUnique a [] u = tt
  map_delete-IsUnique a ((b, w) ∷ m) u = elim (Bool-cases (k.same b a)) [
    | inl e ↦ rw e u.1
    | inr e ↦ rw e (absent_stays_absent a b m u.0, map_delete-IsUnique a m u.1)
  ]

  -- What is not there is not among the last entries.
  pub map_get-drop :
      (a : K) (n : ℕ) (m : List (K × V)) → map_get a m ≡ none → map_get a (drop n m) ≡ none
  unfolding map_get
  map_get-drop a zero m h = h
  map_get-drop a (suc n) [] h = refl
  map_get-drop a (suc n) ((b, w) ∷ m) h = elim (Bool-cases (k.same b a)) [
    | inl e ↦ absurd (some_is_not-none (rw e at h))
    | inr e ↦ map_get-drop a n m (rw e at h)
  ]
    where
      some_is_not-none : ¬ (◌≡◌ {A = Option V} (some w) none)
      some_is_not-none p = cc

  pub drop-IsUnique : (n : ℕ) (m : List (K × V)) → IsUnique m → IsUnique (drop n m)
  unfolding IsUnique
  drop-IsUnique zero m u = u
  drop-IsUnique (suc n) [] u = tt
  drop-IsUnique (suc n) (e ∷ m) u = drop-IsUnique n m u.1

  pub length-map_set : (a : K) (v : V) (m : List (K × V)) → length (map_set a v m) ≤ length m + 1
  unfolding map_set
  length-map_set a v [] = omega arith
  length-map_set a v ((b, w) ∷ m) = elim (Bool-cases (k.same b a)) [
    | inl e ↦ rw e (omega arith)
    | inr e ↦ rw e (omega (arith, length-map_set a v m))
  ]

  pub length-map_delete : (a : K) (m : List (K × V)) → length (map_delete a m) ≤ length m
  unfolding map_delete
  length-map_delete a [] = omega arith
  length-map_delete a ((b, w) ∷ m) = elim (Bool-cases (k.same b a)) [
    | inl e ↦ rw e (omega arith)
    | inr e ↦ rw e (omega (arith, length-map_delete a m))
  ]
