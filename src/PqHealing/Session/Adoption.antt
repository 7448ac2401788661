-- ===== src/PqHealing/Session/Adoption.antt =====
-- src/cryptography/pqHealing.ts: `adopt` of a valid successor.
use mathlib.Core.Path.{subst}
use p2party_js.Base.{◌≡◌, ap, sym, ◌∙◌, true, false, ok, err, ==_refl}
use p2party_js.Bytes.Laws.{bytes_equal_refl}
use p2party_js.PqHealing.Record.{Healing}
use p2party_js.PqHealing.Machine.{Machine, assert_synchronous, assert_active}
use p2party_js.PqHealing.Ownership.{adopt, check_adopt, successor, consumed}
use p2party_js.PqHealing.Session.Calls.{IsCalm}

-- The live machine with everything of its successor.
moved :
    (live next : Machine)
    → live.suite ≡ next.suite
    → live.binding ≡ next.binding
    → live.busy ≡ next.busy
    → live.is_destroyed ≡ next.is_destroyed
    → next ≡ successor live next
unfolding successor
moved live next hs hb hy hd = λ i. record next {
  suite = sym hs i;
  binding = sym hb i;
  busy = sym hy i;
  is_destroyed = sym hd i;
}

abbrev adopting : Machine → Machine → Healing (Unit {0}) → Machine × Machine × Healing (Unit {0})
adopting live next r = elim r [
  | err e ↦ (live, next, err e)
  | ok _ ↦ (successor live next, consumed next, ok tt)
]

check_adopt-passes :
    (live next : Machine)
    → IsCalm live
    → IsCalm next
    → live.suite ≡ next.suite
    → live.binding ≡ next.binding
    → check_adopt false live next ≡ ok tt
unfolding check_adopt assert_synchronous assert_active
check_adopt-passes live next (active, idle, valid) (active', idle', valid') hs hb = rw (
  active,
  idle,
  active',
  idle',
  hs,
  hb,
  ==_refl next.suite.parameter_set,
  bytes_equal_refl next.binding,
)

-- A machine adopts a valid successor of its own suite and edge when neither awaits anything: the
-- result is valid and is the successor in every field, and the successor itself is destroyed.
pub adopt-IsCalm :
    (live next : Machine)
    → IsCalm live
    → IsCalm next
    → live.suite ≡ next.suite
    → live.binding ≡ next.binding
    → (adopt false live next ≡ (next, consumed next, ok tt))
      × IsCalm (adopt false live next).0
      × ((adopt false live next).1.is_destroyed ≡ true)
unfolding adopt consumed
adopt-IsCalm live next (active, idle, valid) (active', idle', valid') hs hb =
    let same = moved live next hs hb (idle ∙ sym idle') (active ∙ sym active') in
    let adopted : adopt false live next ≡ (next, consumed next, ok tt) =
      ap (adopting live next)
        (check_adopt-passes live next (active, idle, valid) (active', idle', valid') hs hb)
      ∙ (λ i. (sym same i, consumed next, ok tt)) in
    (
      adopted,
      subst (λ w. IsCalm w.0) (sym adopted) (active', idle', valid'),
      ap (λ w. w.1.is_destroyed) adopted,
    )
