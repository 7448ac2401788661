-- ===== src/RatchetGate/Runs.antt =====
-- Runs of the calls of src/handlers/ratchetGate.ts.
use Prim.Native.String.{String}
use p2party_js.Base.{
  ℕ, ◌≡◌, refl, not, ◌||◌, ◌==◌, Option, none, some, List, [], ◌∷◌, inl, inr, arith, Option-cases,
  Bool-cases, neither,
}
use p2party_js.Maps.{map_get, string_key, IsUnique}
use p2party_js.Maps.Laws.{map_get-map_set}
use p2party_js.RatchetGate.{
  Gate, Gates, opened, rejected, ensure, claim_ratchet_gate, get_ratchet_gate, may_pass,
  open_ratchet_gate, reject_ratchet_gate, reject_pending, reset_ratchet_gate,
}
use p2party_js.RatchetGate.Settling.{IsSound, settle_gate-IsSound, made-IsSound, deleted-IsSound}

abbrev pub no_gates : Gates
no_gates = record { gates = []; next = 0; settlements = [] }

-- The calls that change the gates.
pub data Call : Type 0 where
  gets claims resets : String → Call
  opens : String → ℕ → Call
  rejects : String → Option ℕ → Call

abbrev pub perform : Call → Gates → Gates
perform (gets edge) s = (get_ratchet_gate edge s).0
perform (claims edge) s = (claim_ratchet_gate edge s).0
perform (resets edge) s = (reset_ratchet_gate edge s).0
perform (opens edge lease) s = (open_ratchet_gate edge lease s).0
perform (rejects edge lease) s = (reject_ratchet_gate edge lease s).0

unfoldable pub perform_all : List Call → Gates → Gates
perform_all [] s = s
perform_all (call ∷ calls) s = perform_all calls (perform call s)

no_gates-IsSound : IsSound no_gates
unfolding map_get IsUnique
no_gates-IsSound = record {
  unique = tt;
  below = λ e g h. absurd (nothing g h);
  apart = λ e f g k h h' same. absurd (nothing g h);
  counted = λ e g h. absurd (nothing g h);
  once = λ a. omega arith;
  fresh = λ a h. refl;
}
  where
    nothing : (g : Gate) → ¬ (◌≡◌ {A = Option Gate} none (some g))
    nothing g h = cc

ensure-IsSound :
    (edge : String) (s : Gates)
    → IsSound s
    → IsSound (ensure edge s).0 × (map_get edge (ensure edge s).0.gates ≡ some (ensure edge s).1)
unfolding ensure
ensure-IsSound edge s i = elim (Option-cases (map_get edge s.gates)) [
  | inl h ↦ rw (h, ensure) (made-IsSound edge s h i, map_get-map_set edge _ s.gates)
  | inr (g, h) ↦ rw (h, ensure) (i, h)
]

open-IsSound :
    (edge : String) (lease : ℕ) (s : Gates) → IsSound s → IsSound (open_ratchet_gate edge lease s).0
unfolding open_ratchet_gate
open-IsSound edge lease s i =
    let (i', here) = ensure-IsSound edge s i in
    let (s', gate) = ensure edge s in
    elim (Bool-cases (not (gate.lease == lease) || gate.settled)) [
      | inl e ↦ rw e i'
      | inr e ↦ rw e (settle_gate-IsSound edge gate opened s' here (neither _ gate.settled e).1 i')
    ]

reject-IsSound :
    (edge : String) (lease : Option ℕ) (s : Gates)
    → IsSound s
    → IsSound (reject_ratchet_gate edge lease s).0
unfolding reject_ratchet_gate
reject-IsSound edge lease s i =
    let (i', here) = ensure-IsSound edge s i in
    let (s', gate) = ensure edge s in
    elim (Bool-cases (not (may_pass lease gate))) [
      | inl e ↦ rw e i'
      | inr e ↦ elim (Bool-cases gate.settled) [
        | inl f ↦ rw (e, f) i'
        | inr f ↦ rw (e, f) (settle_gate-IsSound edge gate rejected s' here f i')
      ]
    ]

reject_pending-IsSound : (edge : String) (s : Gates) → IsSound s → IsSound (reject_pending edge s)
unfolding reject_pending
reject_pending-IsSound edge s i = elim (Option-cases (map_get edge s.gates)) [
  | inl h ↦ rw (h, reject_pending) i
  | inr (gate, h) ↦ elim (Bool-cases gate.settled) [
    | inl e ↦ rw (h, e, reject_pending) i
    | inr e ↦ rw (h, e, reject_pending) (settle_gate-IsSound edge gate rejected s h e i)
  ]
]

perform-IsSound : (call : Call) (s : Gates) → IsSound s → IsSound (perform call s)
unfolding get_ratchet_gate claim_ratchet_gate reset_ratchet_gate
perform-IsSound (gets edge) s i = (ensure-IsSound edge s i).0
perform-IsSound (claims edge) s i = (ensure-IsSound edge s i).0
perform-IsSound (resets edge) s i =
    (ensure-IsSound edge _
      (deleted-IsSound edge (reject_pending edge s) (reject_pending-IsSound edge s i))).0
perform-IsSound (opens edge lease) s i = open-IsSound edge lease s i
perform-IsSound (rejects edge lease) s i = reject-IsSound edge lease s i

perform_all-keeps : (calls : List Call) (s : Gates) → IsSound s → IsSound (perform_all calls s)
unfolding perform_all
perform_all-keeps [] s i = i
perform_all-keeps (call ∷ calls) s i =
    perform_all-keeps calls (perform call s) (perform-IsSound call s i)

-- Whatever calls follow on no gates, in any order: there is one gate for each edge, gates of different
-- edges have different promises, a promise is settled at most once, it was settled exactly once if its
-- gate is settled, and never if its gate is pending.
pub perform_all-IsSound : (calls : List Call) → IsSound (perform_all calls no_gates)
perform_all-IsSound calls = perform_all-keeps calls no_gates no_gates-IsSound
