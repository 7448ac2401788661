-- ===== src/Ratchet/Replay.antt =====
-- A message that was delivered is refused when it comes again: src/cryptography/ratchet.ts.
use mathlib.Core.Path.{subst}
use p2party_js.Base.{
  ℕ, zero, suc, ◌+◌, ◌-◌, ◌≤◌, ◌<◌, ◌≡◌, ◌≢◌, refl, sym, ap, ◌∙◌, ◌⊎◌, inl, inr, true, false, ltb,
  Bool-cases, Option-cases, Result-cases, le_of_ltb, of_not, List, Option, some, none, arith, ok,
  err, Result,
}
use p2party_js.Bytes.{bytes_equal}
use p2party_js.Bytes.Laws.{bytes_equal_iff}
use p2party_js.LibCrypto.{LibCrypto}
use p2party_js.Maps.{map_get, map_set, IsUnique}
use p2party_js.Maps.Laws.{map_get-map_set_ne, map_get-map_delete, map_get-drop}
use p2party_js.Ratchet.Kdf.{RatchetError, ChainStep, kdf_ck, message_key_already_consumed}
use p2party_js.Ratchet.State.{
  Slot, slot_key, RatchetState, RatchetHeader, DhKeyPair, ◌>>◌, modify, continue-eq_ok,
}
use p2party_js.Ratchet.Skipping.{
  max_skip, advance_chain, stash, skip_rounds, evict, skip_message_keys, dh_ratchet, delete_skipped,
}
use p2party_js.Ratchet.Messages.{
  ratchet_decrypt, decrypt_unstored, step_if_new, is_new_dh, take_next, fail_if_consumed,
}
use p2party_js.Ratchet.Bootstrap.{dh_ratchet-moves}
use p2party_js.Ratchet.Tracking.{stashed}
use p2party_js.Ratchet.Delivery.{
  taken, skip_rounds-suc, skip_message_keys-open, step_if_new-same, is_new_dh-same,
  ratchet_decrypt-stored, ratchet_decrypt-unstored,
}

-- A call that throws does not return.
thrown :
    {A : Type 0} {s s' : RatchetState} {x : RatchetError} {a : A}
    → ¬ (◌≡◌ {A = RatchetState × Result RatchetError A} (s, err x) (s', ok a))
thrown h = cc

-- The rounds from `nr` on do not store a key for the slot.
abbrev Misses : Slot → ℕ → RatchetState → Type 0
Misses slot rounds s =
    (i : ℕ) (remote : List ℕ)
    → s.nr ≤ i
    → i < s.nr + rounds
    → s.dh_remote_pub ≡ some remote
    → ◌≢◌ {A = Slot} (remote, i) slot

record Ran (slot : Slot) (rounds : ℕ) (s s' : RatchetState) : Type 0 where
  same_remote : s'.dh_remote_pub ≡ s.dh_remote_pub
  far : s'.nr ≡ s.nr + rounds
  absent : map_get slot s'.skipped ≡ none

skip_rounds-Ran :
    (m : LibCrypto) (slot : Slot) (r : ℕ) (s s' : RatchetState) (u : Unit {0})
    → Misses slot r s
    → map_get slot s.skipped ≡ none
    → skip_rounds m r s ≡ (s', ok u)
    → Ran slot r s s'
unfolding skip_rounds stashed stash advance_chain
skip_rounds-Ran m slot zero s s' u misses h e =
    subst (Ran slot zero s) (ap (λ o. o.0) e)
      (record { same_remote = refl; far = omega arith; absent = h })
skip_rounds-Ran m slot (suc r) s s' u misses h e = elim (Option-cases s.receiving_chain_key) [
  | inl c ↦ absurd (thrown (simp c at e))
  | inr (ck, c) ↦ elim (Result-cases (kdf_ck ck m)) [
    | inr (x, f) ↦ absurd (thrown (simp (c, f) at e))
    | inl (step, f) ↦ elim (Option-cases s.dh_remote_pub) [
      | inl d ↦ absurd (thrown (simp (c, f, d) at e))
      | inr (remote, d) ↦
          let other : map_get slot (map_set (remote, s.nr) step.message_key s.skipped) ≡ none =
            map_get-map_set_ne (remote, s.nr) slot step.message_key s.skipped
              (misses s.nr remote (omega arith) (omega arith) d)
            ∙ h in
          let w =
            skip_rounds-Ran m slot r (stashed remote step s) s' u
              (λ i q low high. misses i q (omega (arith, low)) (omega (arith, high))) other
              (sym (skip_rounds-suc m remote r s ck step c d f) ∙ e) in
          record { same_remote = w.same_remote; far = omega (arith, w.far); absent = w.absent }
    ]
  ]
]

skip_message_keys-Ran :
    (m : LibCrypto) (slot : Slot) (n : ℕ) (s s' : RatchetState) (u : Unit {0})
    → Misses slot (n - s.nr) s
    → map_get slot s.skipped ≡ none
    → skip_message_keys n m s ≡ (s', ok u)
    → ((s.receiving_chain_key ≡ none) × (s ≡ s')) ⊎ Ran slot (n - s.nr) s s'
unfolding skip_message_keys evict
skip_message_keys-Ran m slot n s s' u misses h e = elim (Bool-cases (ltb (s.nr + max_skip) n)) [
  | inl far ↦ absurd (thrown (simp far at e))
  | inr near ↦ elim (Option-cases s.receiving_chain_key) [
    | inl closed ↦ inl (closed, ap (λ o. o.0) (simp (near, closed) at e))
    | inr (ck, held) ↦
        let ran = sym (skip_message_keys-open m n s ck (le_of_ltb _ n near) held) ∙ e in
        let (s1, u1, e1, f1) =
          continue-eq_ok (λ _. modify evict) (skip_rounds m (n - s.nr) s) s' u ran in
        let w = skip_rounds-Ran m slot (n - s.nr) s s1 u1 misses h e1 in
        inr (
          subst (Ran slot (n - s.nr) s) (ap (λ o. o.0) f1) (record {
            same_remote = w.same_remote;
            far = w.far;
            absent = map_get-drop slot _ s1.skipped w.absent;
          }))
  ]
]

-- A header of the current chain, and one of another.
is_new_dh-eq_false :
    (h : RatchetHeader) (s : RatchetState) → is_new_dh h s ≡ false → s.dh_remote_pub ≡ some h.dh_pub
unfolding is_new_dh
is_new_dh-eq_false h s e = elim (Option-cases s.dh_remote_pub) [
  | inl d ↦ absurd (true_is_not-false (rw (d, is_new_dh) at e))
  | inr (remote, d) ↦
      let same : bytes_equal h.dh_pub remote ≡ true = of_not _ (rw (d, is_new_dh) at e) in
      d ∙ ap some (sym ((bytes_equal_iff h.dh_pub remote).0 same))
]
  where
    true_is_not-false : ¬ (true ≡ false)
    true_is_not-false p = cc

is_new_dh-eq_true :
    (h : RatchetHeader) (s : RatchetState) (remote : List ℕ)
    → is_new_dh h s ≡ true
    → s.dh_remote_pub ≡ some remote
    → remote ≢ h.dh_pub
is_new_dh-eq_true h s remote e d p = cc (is_new_dh-same h s (d ∙ ap some p))

-- On the chain of the header, and the header's slot is empty.
record On (h : RatchetHeader) (s : RatchetState) : Type 0 where
  here : s.dh_remote_pub ≡ some h.dh_pub
  absent : map_get (h.dh_pub, h.n) s.skipped ≡ none

step_if_new-On :
    (m : LibCrypto) (h : RatchetHeader) (fresh : DhKeyPair) (s s' : RatchetState) (u : Unit {0})
    → map_get (h.dh_pub, h.n) s.skipped ≡ none
    → step_if_new h fresh m s ≡ (s', ok u)
    → On h s'
unfolding step_if_new
step_if_new-On m h fresh s s' u none' e = elim (Bool-cases (is_new_dh h s)) [
  | inr old ↦
      subst (On h) (ap (λ o. o.0) (rw old at e))
        (record { here = is_new_dh-eq_false h s old; absent = none' })
  | inl new ↦
      let (s1, u1, e1, f1) =
        continue-eq_ok (λ _. dh_ratchet h fresh m) (skip_message_keys h.pn m s) s' u
          (rw new at e) in
      let (here, kept) = dh_ratchet-moves h fresh m s1 s' u f1 in
      let misses =
        λ (i : ℕ) (remote : List ℕ) (low : s.nr ≤ i) (high : i < s.nr + (h.pn - s.nr))
            (d : s.dh_remote_pub ≡ some remote) (p : ◌≡◌ {A = Slot} (remote, i) (h.dh_pub, h.n)).
          is_new_dh-eq_true h s remote new d (ap (λ slot. slot.0) p) in
      let absent : map_get (h.dh_pub, h.n) s1.skipped ≡ none =
        elim (skip_message_keys-Ran m (h.dh_pub, h.n) h.pn s s1 u1 misses none' e1) [
          | inl (closed, same) ↦ subst (λ z. map_get (h.dh_pub, h.n) z.skipped ≡ none) same none'
          | inr w ↦ w.absent
        ] in
      record { here = here; absent = ap (map_get (h.dh_pub, h.n)) kept ∙ absent }
]

-- The call on a state that is past the header.
past_is_refused :
    (m : LibCrypto) (h : RatchetHeader) (fresh : DhKeyPair) (s : RatchetState)
    → On h s
    → h.n < s.nr
    → ratchet_decrypt h fresh m s ≡ (s, err message_key_already_consumed)
unfolding decrypt_unstored
past_is_refused m h fresh s on late =
    ratchet_decrypt-unstored m h fresh s on.absent
    ∙ simp (step_if_new-same m h fresh s on.here, ltb_of_lt)
  where
    ltb_of_lt : ltb h.n s.nr ≡ true
    ltb_of_lt = ground arith

take_next-eq_ok :
    (m : LibCrypto) (s s' : RatchetState) (k : List ℕ)
    → take_next m s ≡ (s', ok k)
    → (ck : List ℕ) × (step : ChainStep) × (s.receiving_chain_key ≡ some ck) × (taken step s ≡ s')
unfolding take_next taken
take_next-eq_ok m s s' k e = elim (Option-cases s.receiving_chain_key) [
  | inl c ↦ absurd (thrown (simp c at e))
  | inr (ck, c) ↦ elim (Result-cases (kdf_ck ck m)) [
    | inr (x, f) ↦ absurd (thrown (simp (c, f) at e))
    | inl (step, f) ↦ (ck, step, c, ap (λ o. o.0) (simp (c, f) at e))
  ]
]

fail_if_consumed-eq_ok :
    (h : RatchetHeader) (s s' : RatchetState) (u : Unit {0})
    → fail_if_consumed h s ≡ (s', ok u)
    → (s.nr ≤ h.n) × (s ≡ s')
fail_if_consumed-eq_ok h s s' u e = elim (Bool-cases (ltb h.n s.nr)) [
  | inl late ↦ absurd (thrown (simp late at e))
  | inr early ↦ (le_of_ltb h.n s.nr early, ap (λ o. o.0) (simp early at e))
]

-- Behind a call that derived a key, the state is past the header.
decrypt_unstored-On :
    (m : LibCrypto) (h : RatchetHeader) (fresh : DhKeyPair) (s s' : RatchetState) (k : List ℕ)
    → map_get (h.dh_pub, h.n) s.skipped ≡ none
    → decrypt_unstored h fresh m s ≡ (s', ok k)
    → On h s' × (h.n < s'.nr)
unfolding decrypt_unstored taken advance_chain
decrypt_unstored-On m h fresh s s' k absent e =
    let (s1, u1, e1, f1) =
      continue-eq_ok (λ _. fail_if_consumed h >> (skip_message_keys h.n m >> take_next m))
        (step_if_new h fresh m s) s' k e in
    let on = step_if_new-On m h fresh s s1 u1 absent e1 in
    let (s2, u2, e2, f2) =
      continue-eq_ok (λ _. skip_message_keys h.n m >> take_next m) (fail_if_consumed h s1) s' k
        f1 in
    let (early, same) = fail_if_consumed-eq_ok h s1 s2 u2 e2 in
    let (s3, u3, e3, f3) =
      continue-eq_ok (λ _. take_next m) (skip_message_keys h.n m s1) s' k
        (subst (λ z. (skip_message_keys h.n m >> take_next m) z ≡ (s', ok k)) (sym same) f2) in
    let (ck, step, held, is_s') = take_next-eq_ok m s3 s' k f3 in
    let misses =
      λ (i : ℕ) (remote : List ℕ) (low : s1.nr ≤ i) (high : i < s1.nr + (h.n - s1.nr))
          (d : s1.dh_remote_pub ≡ some remote) (p : ◌≡◌ {A = Slot} (remote, i) (h.dh_pub, h.n)).
        let q : i ≡ h.n = ap (λ slot. slot.1) p in absurd (omega arith) in
    elim (skip_message_keys-Ran m (h.dh_pub, h.n) h.n s1 s3 u3 misses on.absent e3) [
      | inl (closed, stays) ↦
          absurd (none_is_not-some (sym closed ∙ ap (λ z. z.receiving_chain_key) stays ∙ held))
      | inr w ↦
          subst (λ z. On h z × (h.n < z.nr)) is_s'
            (record { here = w.same_remote ∙ on.here; absent = w.absent }, omega (arith, w.far))
    ]
  where
    none_is_not-some : {ck : List ℕ} → ¬ (◌≡◌ {A = Option (List ℕ)} none (some ck))
    none_is_not-some p = cc

-- A header for which `ratchetDecrypt` returned a key is refused as consumed when it comes again
-- while the state is still on the header's chain, and nothing is written. The state before has one
-- stored key for each slot, and if the header's slot is stored then its index lies below the count
-- of received messages.
pub ratchet_decrypt-replay :
    (m : LibCrypto) (h : RatchetHeader) (fresh fresh' : DhKeyPair) (s s' : RatchetState)
    (k : List ℕ)
    → IsUnique s.skipped
    → ((stored : List ℕ) → map_get (h.dh_pub, h.n) s.skipped ≡ some stored → h.n < s.nr)
    → s'.dh_remote_pub ≡ some h.dh_pub
    → ratchet_decrypt h fresh m s ≡ (s', ok k)
    → ratchet_decrypt h fresh' m s' ≡ (s', err message_key_already_consumed)
ratchet_decrypt-replay m h fresh fresh' s s' k unique behind here e =
    elim (Option-cases (map_get (h.dh_pub, h.n) s.skipped)) [
      | inl absent ↦
          let (on, late) =
            decrypt_unstored-On m h fresh s s' k absent
              (sym (ratchet_decrypt-unstored m h fresh s absent) ∙ e) in
          past_is_refused m h fresh' s' on late
      | inr (stored, found) ↦
          let is_s' : delete_skipped (h.dh_pub, h.n) s ≡ s' =
            ap (λ o. o.0) (sym (ratchet_decrypt-stored m h fresh s stored found) ∙ e) in
          past_is_refused m h fresh' s'
            (record {
              here = here;
              absent =
                  subst (λ z. map_get (h.dh_pub, h.n) z.skipped ≡ none) is_s'
                    (map_get-map_delete (h.dh_pub, h.n) s.skipped unique);
            })
            (subst (λ z. h.n < z.nr) is_s' (behind stored found))
    ]
