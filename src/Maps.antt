-- ===== src/Maps.antt =====
-- JavaScript's `Map`: entries in the order of insertion, one for each key.
pub mod Laws
use p2party_js.Base.{ℕ, ◌≡◌, ◌↔◌, Bool, true, Option, none, some, List, [], ◌∷◌, if◌then◌else◌}
use p2party_js.Bytes.{bytes_equal}
use p2party_js.Bytes.Laws.{bytes_equal_iff}
use text.Mathlib.Text.{◌==◌ as ◌==ₛ◌}
use text.Mathlib.TextEquality.{eq_iff as string_eq_iff}
use Prim.Native.String.{String}

-- A type whose values can be keys.
pub record Key (K : Type 0) : Type 1 where
  pub same : K → K → Bool
  pub same_iff : (a b : K) → (same a b ≡ true) ↔ (a ≡ b)

instance abbrev pub bytes_key : Key (List ℕ)
bytes_key = record { same = bytes_equal; same_iff = bytes_equal_iff }

instance abbrev pub string_key : Key String
string_key = record { same = λ a b. a ==ₛ b; same_iff = string_eq_iff }

module _ {K V : Type 0} ⦃k : Key K⦄ where
  unfoldable pub map_get : K → List (K × V) → Option V
  map_get key [] = none
  map_get key ((key', value) ∷ m) = if k.same key' key then some value else map_get key m

  -- A key that is there keeps its place.
  unfoldable pub map_set : K → V → List (K × V) → List (K × V)
  map_set key value [] = (key, value) ∷ []
  map_set key value ((key', value') ∷ m) =
      if k.same key' key then (key', value) ∷ m else (key', value') ∷ map_set key value m

  unfoldable pub map_delete : K → List (K × V) → List (K × V)
  map_delete key [] = []
  map_delete key ((key', value) ∷ m) =
      if k.same key' key then m else (key', value) ∷ map_delete key m

  -- One entry for each key.
  unfoldable pub IsUnique : List (K × V) → Type 0
  IsUnique [] = Unit
  IsUnique ((key, value) ∷ m) = (map_get key m ≡ none) × IsUnique m
