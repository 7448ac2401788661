-- ===== src/Base/Lists.antt =====
-- Lists measured and indexed by native numbers, under the library's names.
use Prim.Native.Nat.{ℕ, zero, suc, ◌+◌, ◌-◌, ◌≤◌}
use mathlib.Core.Path.{◌≡◌, refl, ap}
use mathlib.Core.Logic.{◌≢◌}
use mathlib.Core.List.{List, [], ◌∷◌, ◌++◌}
use mathlib.Core.Option.{Option, none, some}
use native.Mathlib.Omega.{arith}

module _ {ℓ} {A : Type ℓ} where
  abbrev pub length : List A → ℕ
  length [] = 0
  length (x ∷ xs) = suc (length xs)

  abbrev pub get_elem? : List A → ℕ → Option A
  get_elem? [] i = none
  get_elem? (x ∷ xs) zero = some x
  get_elem? (x ∷ xs) (suc i) = get_elem? xs i

  -- A write out of bounds changes nothing.
  abbrev pub set : List A → ℕ → A → List A
  set [] i v = []
  set (x ∷ xs) zero v = v ∷ xs
  set (x ∷ xs) (suc i) v = x ∷ set xs i v

  abbrev pub take : ℕ → List A → List A
  take zero xs = []
  take (suc n) [] = []
  take (suc n) (x ∷ xs) = x ∷ take n xs

  abbrev pub drop : ℕ → List A → List A
  drop zero xs = xs
  drop (suc n) [] = []
  drop (suc n) (x ∷ xs) = drop n xs

  abbrev pub replicate : ℕ → A → List A
  replicate zero a = []
  replicate (suc n) a = a ∷ replicate n a

module _ {ℓ} {A : Type ℓ} where
  pub length-append : (xs ys : List A) → length (xs ++ ys) ≡ length xs + length ys
  length-append [] ys = omega arith
  length-append (x ∷ xs) ys = omega (arith, length-append xs ys)

  pub take-append-drop : (n : ℕ) (xs : List A) → take n xs ++ drop n xs ≡ xs
  take-append-drop zero xs = refl
  take-append-drop (suc n) [] = refl
  take-append-drop (suc n) (x ∷ xs) = rw (take-append-drop n xs)

  pub length-take : (n : ℕ) (xs : List A) → n ≤ length xs → length (take n xs) ≡ n
  length-take zero xs h = refl
  length-take (suc n) [] h = absurd (omega arith)
  length-take (suc n) (x ∷ xs) h = omega (arith, length-take n xs)

  pub length-drop : (n : ℕ) (xs : List A) → length (drop n xs) ≡ length xs - n
  length-drop zero xs = omega arith
  length-drop (suc n) [] = omega arith
  length-drop (suc n) (x ∷ xs) = omega (arith, length-drop n xs)

  pub length-replicate : (n : ℕ) (a : A) → length (replicate n a) ≡ n
  length-replicate zero a = refl
  length-replicate (suc n) a = ap suc (length-replicate n a)

  pub replicate-add : (m n : ℕ) (a : A) → replicate (m + n) a ≡ replicate m a ++ replicate n a
  replicate-add zero n a = rw zero_add
    where
      zero_add : zero + n ≡ n
      zero_add = omega arith
  replicate-add (suc m) n a = rw suc_add (ap (◌∷◌ a) (replicate-add m n a))
    where
      suc_add : suc m + n ≡ suc (m + n)
      suc_add = omega arith

  -- A prefix of known length is taken whole, and dropped whole.
  pub take-append_of_length : (xs ys : List A) (n : ℕ) → length xs ≡ n → take n (xs ++ ys) ≡ xs
  take-append_of_length [] ys zero h = refl
  take-append_of_length [] ys (suc n) h = absurd (omega arith)
  take-append_of_length (x ∷ xs) ys zero h = absurd (omega arith)
  take-append_of_length (x ∷ xs) ys (suc n) h =
      ap (◌∷◌ x) (take-append_of_length xs ys n (omega arith))

  pub drop-append_of_length : (xs ys : List A) (n : ℕ) → length xs ≡ n → drop n (xs ++ ys) ≡ ys
  drop-append_of_length [] ys zero h = refl
  drop-append_of_length [] ys (suc n) h = absurd (omega arith)
  drop-append_of_length (x ∷ xs) ys zero h = absurd (omega arith)
  drop-append_of_length (x ∷ xs) ys (suc n) h = drop-append_of_length xs ys n (omega arith)

  -- A cut behind a prefix is a cut of the rest.
  pub take-append_add :
      (xs ys : List A) (m k : ℕ) → m ≡ length xs + k → take m (xs ++ ys) ≡ xs ++ take k ys
  take-append_add [] ys m k h = ap (λ j. take j ys) (omega arith)
  take-append_add (x ∷ xs) ys zero k h = absurd (omega arith)
  take-append_add (x ∷ xs) ys (suc m) k h = ap (◌∷◌ x) (take-append_add xs ys m k (omega arith))

  pub drop-append_add :
      (xs ys : List A) (m k : ℕ) → m ≡ length xs + k → drop m (xs ++ ys) ≡ drop k ys
  drop-append_add [] ys m k h = ap (λ j. drop j ys) (omega arith)
  drop-append_add (x ∷ xs) ys zero k h = absurd (omega arith)
  drop-append_add (x ∷ xs) ys (suc m) k h = drop-append_add xs ys m k (omega arith)

  drop-nil : (n : ℕ) → drop {A = A} n [] ≡ []
  drop-nil zero = refl
  drop-nil (suc n) = refl

  pub drop-drop : (m n k : ℕ) (xs : List A) → k ≡ m + n → drop n (drop m xs) ≡ drop k xs
  drop-drop zero n k xs h = ap (λ j. drop j xs) (omega arith)
  drop-drop (suc m) n zero xs h = absurd (omega arith)
  drop-drop (suc m) n (suc k) [] h = drop-nil n
  drop-drop (suc m) n (suc k) (x ∷ xs) h = drop-drop m n k xs (omega arith)

  -- Two lists that split at the same length are equal in both parts.
  pub append-injective :
      (xs ys us vs : List A) → length xs ≡ length us → xs ++ ys ≡ us ++ vs → (xs ≡ us) × (ys ≡ vs)
  append-injective [] ys [] vs h e = (refl, e)
  append-injective [] ys (u ∷ us) vs h e = absurd (omega arith)
  append-injective (x ∷ xs) ys [] vs h e = absurd (omega arith)
  append-injective (x ∷ xs) ys (u ∷ us) vs h e =
      let rest = append-injective xs ys us vs (omega arith) (ground arith) in
      (ground (arith, rest), rest.1)

  pub drop_of_get :
      (xs : List A) (i : ℕ) {a : A} → get_elem? xs i ≡ some a → drop i xs ≡ a ∷ drop (suc i) xs
  drop_of_get [] i h = cc
  drop_of_get (x ∷ xs) zero h = ground arith
  drop_of_get (x ∷ xs) (suc i) h = drop_of_get xs i h

  pub get_elem?-set_self :
      (xs : List A) (i : ℕ) (v : A) {a : A}
      → get_elem? xs i ≡ some a
      → get_elem? (set xs i v) i ≡ some v
  get_elem?-set_self [] i v h = cc
  get_elem?-set_self (x ∷ xs) zero v h = refl
  get_elem?-set_self (x ∷ xs) (suc i) v h = get_elem?-set_self xs i v h

  pub get_elem?-set_ne :
      (xs : List A) (i j : ℕ) (v : A) → i ≢ j → get_elem? (set xs i v) j ≡ get_elem? xs j
  get_elem?-set_ne [] i j v h = refl
  get_elem?-set_ne (x ∷ xs) zero zero v h = absurd (h refl)
  get_elem?-set_ne (x ∷ xs) zero (suc j) v h = refl
  get_elem?-set_ne (x ∷ xs) (suc i) zero v h = refl
  get_elem?-set_ne (x ∷ xs) (suc i) (suc j) v h = get_elem?-set_ne xs i j v (λ e. h (ap suc e))

  pub get_elem?-snoc : (xs : List A) (v : A) → get_elem? (xs ++ v ∷ []) (length xs) ≡ some v
  get_elem?-snoc [] v = refl
  get_elem?-snoc (x ∷ xs) v = get_elem?-snoc xs v

  pub get_elem?-snoc_ne :
      (xs : List A) (v : A) (i : ℕ) → length xs ≢ i → get_elem? (xs ++ v ∷ []) i ≡ get_elem? xs i
  get_elem?-snoc_ne [] v zero h = absurd (h refl)
  get_elem?-snoc_ne [] v (suc i) h = refl
  get_elem?-snoc_ne (x ∷ xs) v zero h = refl
  get_elem?-snoc_ne (x ∷ xs) v (suc i) h = get_elem?-snoc_ne xs v i (λ e. h (ap suc e))

  pub get_elem?-length : (xs : List A) → get_elem? xs (length xs) ≡ none
  get_elem?-length [] = refl
  get_elem?-length (x ∷ xs) = get_elem?-length xs
