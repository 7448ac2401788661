-- ===== src/PqHealing/Session/Birth.antt =====
-- A machine from the constructor of src/cryptography/pqHealing.ts on is calm.
use mathlib.Core.Path.{subst}
use p2party_js.Base.{◌≡◌, refl, ltb, ok, past_guard, >>=-eq_ok, ok-injective, le_of_ltb}
use p2party_js.MlKem.{MlKemSuiteDescriptor, IsCanonical}
use p2party_js.MlKem.Canonical.{assert_canonical_suite_iff}
use p2party_js.PqHealing.Record.{
  overflow, max_u64, assert_canonical_suite, assert_same_suite, require_u64,
}
use p2party_js.PqHealing.Machine.{Machine, MachineOptions, new_machine, or_zero}
use p2party_js.PqHealing.Session.Calls.{IsCalm}
use p2party_js.PqHealing.Session.Guards.{require_bytes-past}

pub assert_same_suite-IsCanonical :
    (selected backend : MlKemSuiteDescriptor)
    → assert_same_suite selected backend ≡ ok tt
    → IsCanonical selected
unfolding assert_same_suite
assert_same_suite-IsCanonical selected backend e =
    let (u, checked, rest) = >>=-eq_ok (assert_canonical_suite selected) _ e in
    (assert_canonical_suite_iff selected).0 checked

pub new_machine-IsCalm :
    (options : MachineOptions) (m : Machine) → new_machine options ≡ ok m → IsCalm m
unfolding new_machine require_u64
new_machine-IsCalm options m e =
    let (u, same, e1) = >>=-eq_ok (assert_same_suite options.suite options.backend_suite) _ e in
    let (bound, e2) = require_bytes-past options.binding 32 e1 in
    let (rooted, e3) = require_bytes-past options.root_key 32 e2 in
    let (g4, e4) = past_guard (ltb max_u64 (or_zero options.epoch)) overflow e3 in
    let (g5, e5) = past_guard (ltb max_u64 (or_zero options.local_counter)) overflow e4 in
    let (g6, e6) = past_guard (ltb max_u64 (or_zero options.remote_counter)) overflow e5 in
    subst IsCalm (ok-injective e6) (
      refl,
      refl,
      record {
        canonical = assert_same_suite-IsCanonical options.suite options.backend_suite same;
        bound = bound;
        rooted = rooted;
        epoch_fits = le_of_ltb max_u64 _ g4;
        local_fits = le_of_ltb max_u64 _ g5;
        remote_fits = le_of_ltb max_u64 _ g6;
        in_phase = tt;
        last_offer = tt;
        last_advance = tt;
      },
    )
