-- ===== src/RatchetGate/Settling.antt =====
-- The promises of src/handlers/ratchetGate.ts over all runs of its calls.
use Prim.Native.String.{String}
use p2party_js.Base.{
  ℕ, ◌+◌, ◌<◌, ◌≤◌, ◌≡◌, ◌≢◌, ◌⊎◌, refl, sym, ap, ◌∙◌, Bool, true, false, ◌==◌, none, some, List,
  [], ◌∷◌, ◌++◌, inl, inr, arith, Bool-cases, if◌then◌else◌, ==_iff, ==_refl, ==_of_ne,
}
use p2party_js.Maps.{map_get, map_set, map_delete, IsUnique, string_key}
use p2party_js.Maps.Laws.{
  map_get-map_set, map_get-map_set_ne, map_get-map_delete, map_get-map_delete_ne, map_set-IsUnique,
  map_delete-IsUnique, differ,
}
use p2party_js.RatchetGate.{Outcome, Gate, Gates, new_gate, settle_gate}

-- How often a promise was settled.
abbrev pub settlements_of : ℕ → List (ℕ × Outcome) → ℕ
settlements_of a [] = 0
settlements_of a ((b, _) ∷ log) = (if a == b then 1 else 0) + settlements_of a log

settlements_of-snoc :
    (a b : ℕ) (outcome : Outcome) (log : List (ℕ × Outcome))
    → settlements_of a (log ++ (b, outcome) ∷ []) ≡ settlements_of a log + (if a == b then 1 else 0)
settlements_of-snoc a b outcome [] = omega arith
settlements_of-snoc a b outcome ((c, _) ∷ log) = omega (arith, settlements_of-snoc a b outcome log)

abbrev pub times : Bool → ℕ
times true = 1
times false = 0

-- Gates of different edges have different promises, numbered below the next one; a promise was
-- settled once if its gate is settled, never if it is pending or not yet made, and at most once.
pub record IsSound (s : Gates) : Type 0 where
  pub unique : IsUnique s.gates
  pub below : (edge : String) (g : Gate) → map_get edge s.gates ≡ some g → g.lease < s.next
  pub apart :
      (edge edge' : String) (g g' : Gate)
      → map_get edge s.gates ≡ some g
      → map_get edge' s.gates ≡ some g'
      → g.lease ≡ g'.lease
      → edge ≡ edge'
  pub counted :
      (edge : String) (g : Gate)
      → map_get edge s.gates ≡ some g
      → settlements_of g.lease s.settlements ≡ times g.settled
  pub once : (a : ℕ) → settlements_of a s.settlements ≤ 1
  pub fresh : (a : ℕ) → s.next ≤ a → settlements_of a s.settlements ≡ 0

some_injective : {x y : Gate} → some x ≡ some y → x ≡ y
some_injective h = cc

looked_up :
    (edge edge' : String) (v g : Gate) (m : List (String × Gate))
    → map_get edge' (map_set edge v m) ≡ some g
    → ((edge ≡ edge') × (v ≡ g)) ⊎ ((edge ≢ edge') × (map_get edge' m ≡ some g))
looked_up edge edge' v g m h = elim (Bool-cases (string_key.same edge edge')) [
  | inl e ↦
      let p = (string_key.same_iff edge edge').0 e in
      inl (
        p,
        some_injective
            (sym (ap (λ k. map_get k (map_set edge v m)) (sym p) ∙ map_get-map_set edge v m) ∙ h),
      )
  | inr e ↦ inr (differ e, sym (map_get-map_set_ne edge edge' v m (differ e)) ∙ h)
]

-- A pending gate that is settled.
pub settle_gate-IsSound :
    (edge : String) (g : Gate) (outcome : Outcome) (s : Gates)
    → map_get edge s.gates ≡ some g
    → g.settled ≡ false
    → IsSound s
    → IsSound (settle_gate edge g outcome s)
unfolding settle_gate
settle_gate-IsSound edge g outcome s here open_yet i = record {
  unique = map_set-IsUnique edge _ s.gates i.unique;
  below = λ e h at. elim (looked_up edge e _ h s.gates at) [
    | inl (_, p) ↦ rw (← p) (i.below edge g here)
    | inr (_, q) ↦ i.below e h q
  ];
  apart = λ e f h k at_e at_f same. elim (looked_up edge e _ h s.gates at_e) [
    | inl (p, ph) ↦ elim (looked_up edge f _ k s.gates at_f) [
      | inl (q, _) ↦ sym p ∙ q
      | inr (_, q) ↦ sym p ∙ i.apart edge f g k here q (ap (λ (x : Gate). x.lease) ph ∙ same)
    ]
    | inr (_, p) ↦ elim (looked_up edge f _ k s.gates at_f) [
      | inl (q, qk) ↦ i.apart e edge h g p here (same ∙ sym (ap (λ (x : Gate). x.lease) qk)) ∙ q
      | inr (_, q) ↦ i.apart e f h k p q same
    ]
  ];
  counted = λ e h at. elim (looked_up edge e _ h s.gates at) [
    | inl (_, p) ↦
        rw
          (
            ← p,
            settlements_of-snoc g.lease g.lease outcome s.settlements,
            none_yet,
            ==_refl g.lease,
          )
          refl
    | inr (other, q) ↦
        rw
          (
            settlements_of-snoc h.lease g.lease outcome s.settlements,
            ==_of_ne h.lease g.lease (λ p. other (sym (i.apart e edge h g q here p))),
          )
          (omega (arith, i.counted e h q))
  ];
  once = λ a. elim (Bool-cases (a == g.lease)) [
    | inl p ↦
        rw (settlements_of-snoc a g.lease outcome s.settlements, p)
          (omega
            (arith, ap (λ n. settlements_of n s.settlements) ((==_iff a g.lease).0 p), none_yet))
    | inr p ↦ rw (settlements_of-snoc a g.lease outcome s.settlements, p) (omega (arith, i.once a))
  ];
  fresh = λ a h.
      rw
        (
          settlements_of-snoc a g.lease outcome s.settlements,
          ==_of_ne a g.lease (λ p. absurd (omega (arith, p, h, i.below edge g here))),
        )
        (omega (arith, i.fresh a h));
}
  where
    none_yet : settlements_of g.lease s.settlements ≡ 0
    none_yet = i.counted edge g here ∙ ap times open_yet

-- A gate that is made.
pub made-IsSound :
    (edge : String) (s : Gates)
    → map_get edge s.gates ≡ none
    → IsSound s
    → IsSound (record s { gates = map_set edge (new_gate s.next) s.gates; next = s.next + 1 })
made-IsSound edge s absent i = record {
  unique = map_set-IsUnique edge _ s.gates i.unique;
  below = λ e h at. elim (looked_up edge e _ h s.gates at) [
    | inl (_, p) ↦ rw (← p) (omega arith)
    | inr (_, q) ↦ omega (arith, i.below e h q)
  ];
  apart = λ e f h k at_e at_f same. elim (looked_up edge e _ h s.gates at_e) [
    | inl (p, ph) ↦ elim (looked_up edge f _ k s.gates at_f) [
      | inl (q, _) ↦ sym p ∙ q
      | inr (_, q) ↦ absurd (omega (arith, ap (λ (x : Gate). x.lease) ph, same, i.below f k q))
    ]
    | inr (_, p) ↦ elim (looked_up edge f _ k s.gates at_f) [
      | inl (q, qk) ↦ absurd (omega (arith, ap (λ (x : Gate). x.lease) qk, same, i.below e h p))
      | inr (_, q) ↦ i.apart e f h k p q same
    ]
  ];
  counted = λ e h at. elim (looked_up edge e _ h s.gates at) [
    | inl (_, p) ↦ rw (← p) (i.fresh s.next (omega arith))
    | inr (_, q) ↦ i.counted e h q
  ];
  once = i.once;
  fresh = λ a h. i.fresh a (omega (arith, h));
}

-- A gate that is deleted.
pub deleted-IsSound :
    (edge : String) (s : Gates) → IsSound s → IsSound (record s { gates = map_delete edge s.gates })
deleted-IsSound edge s i = record {
  unique = map_delete-IsUnique edge s.gates i.unique;
  below = λ e h at. i.below e h (still e h at);
  apart = λ e f h k at_e at_f same. i.apart e f h k (still e h at_e) (still f k at_f) same;
  counted = λ e h at. i.counted e h (still e h at);
  once = i.once;
  fresh = i.fresh;
}
  where
    still :
        (e : String) (h : Gate)
        → map_get e (map_delete edge s.gates) ≡ some h
        → map_get e s.gates ≡ some h
    still e h at = elim (Bool-cases (string_key.same edge e)) [
      | inl p ↦
          let gone =
            ap (λ k. map_get k (map_delete edge s.gates)) (sym ((string_key.same_iff edge e).0 p))
            ∙ map_get-map_delete edge s.gates i.unique in
          cc
      | inr p ↦ sym (map_get-map_delete_ne edge e s.gates (differ p)) ∙ at
    ]
