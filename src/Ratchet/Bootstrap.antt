-- ===== src/Ratchet/Bootstrap.antt =====
-- The start of an edge in src/cryptography/ratchet.ts: the two ends open the same chains.
use mathlib.Core.Path.{subst}
use p2party_js.Base.{
  ℕ, ◌+◌, ◌≡◌, ◌≢◌, refl, sym, ap, ◌∙◌, inl, inr, true, false, List, some, none, arith, ok, err,
  length, Result, ◌>>=◌ as ◌>>=ᵣ◌, map_err, Result-cases, Bool-cases, not, ltb, ◌==◌, ok-injective,
}
use p2party_js.LibCrypto.{LibCrypto, x25519_dh_of}
use p2party_js.Maps.{map_get, IsUnique, bytes_key}
use p2party_js.Maps.Laws.{same_of_ne}
use p2party_js.Ratchet.Kdf.{RatchetError, RootStep, kdf_rk, dh_failed}
use p2party_js.Ratchet.State.{
  slot_key, RatchetRootSuite, RatchetState, RatchetHeader, DhKeyPair, Call, ◌>>=◌, ◌>>◌, modify,
  continue-eq_ok,
}
use p2party_js.Ratchet.Skipping.{
  move_to, open_receiving, rotate_self, open_sending, root_step, dh_ratchet, max_skip,
  skip_message_keys,
}
use p2party_js.Ratchet.Messages.{
  init_ratchet, blank_ratchet, start_initiator, prime_responder_ratchet, ratchet_dh_pub_len,
  is_used, step_if_new, is_new_dh, built, know_remote,
}
use p2party_js.Ratchet.Exchange.{Listens}

-- The step of the root by itself.
derive : List ℕ → List ℕ → List ℕ → LibCrypto → Result RatchetError RootStep
derive secret root remote m =
    map_err dh_failed (x25519_dh_of secret remote m) >>=ᵣ λ dh_out. kdf_rk root dh_out m

root_step-derive :
    (remote : List ℕ) (m : LibCrypto) (s : RatchetState)
    → root_step remote m s ≡ (s, derive s.dh_self_sec s.root_key remote m)
unfolding root_step derive
root_step-derive remote m s =
    elim (Result-cases (map_err dh_failed (x25519_dh_of s.dh_self_sec remote m))) [
      | inl (dh_out, e) ↦ simp e
      | inr (x, e) ↦ simp e
    ]

root_step-eq_ok :
    (remote : List ℕ) (m : LibCrypto) (s s' : RatchetState) (rk : RootStep)
    → root_step remote m s ≡ (s', ok rk)
    → (s ≡ s') × (derive s.dh_self_sec s.root_key remote m ≡ ok rk)
root_step-eq_ok remote m s s' rk e =
    let f = sym (root_step-derive remote m s) ∙ e in (ap (λ o. o.0) f, ap (λ o. o.1) f)

dh_agrees :
    (m : LibCrypto) (a b a_pub b_pub : List ℕ)
    → m.x25519_dh a b_pub ≡ m.x25519_dh b a_pub
    → x25519_dh_of a b_pub m ≡ x25519_dh_of b a_pub m
unfolding x25519_dh_of
dh_agrees m a b a_pub b_pub e = rw (e, x25519_dh_of)

-- Two ends that exchange keys derive the same step.
derive_agrees :
    (m : LibCrypto) (a b root : List ℕ) (a_pub b_pub : List ℕ)
    → m.x25519_dh a b_pub ≡ m.x25519_dh b a_pub
    → derive a root b_pub m ≡ derive b root a_pub m
unfolding derive
derive_agrees m a b root a_pub b_pub e =
    ap (λ r. map_err dh_failed r >>=ᵣ λ dh_out. kdf_rk root dh_out m)
      (dh_agrees m a b a_pub b_pub e)

-- The writes of a step to a new key of the peer.
stepped : RatchetHeader → DhKeyPair → RootStep → RootStep → RatchetState → RatchetState
stepped h fresh rk rk' s =
    open_sending rk' (rotate_self fresh (open_receiving rk (move_to h.dh_pub s)))

-- The rest of the call, once the receiving chain is derived.
abbrev behind_receiving : RatchetHeader → DhKeyPair → LibCrypto → RootStep → Call (Unit {0})
behind_receiving h fresh m rk = do
  modify (open_receiving rk)
  modify (rotate_self fresh)
  rk' ← root_step h.dh_pub m
  modify (open_sending rk')

dh_ratchet-eq_ok :
    (h : RatchetHeader) (fresh : DhKeyPair) (m : LibCrypto) (s s' : RatchetState) (u : Unit {0})
    → dh_ratchet h fresh m s ≡ (s', ok u)
    → (rk : RootStep) × (rk' : RootStep) × (derive s.dh_self_sec s.root_key h.dh_pub m ≡ ok rk)
      × (derive fresh.secret_key rk.root_key h.dh_pub m ≡ ok rk')
      × (stepped h fresh rk rk' s ≡ s')
unfolding dh_ratchet stepped move_to open_receiving rotate_self
dh_ratchet-eq_ok h fresh m s s' u e =
    let (s1, rk, e1, f1) =
      continue-eq_ok (behind_receiving h fresh m) (root_step h.dh_pub m (move_to h.dh_pub s)) s' u
        e in
    let (p1, d1) = root_step-eq_ok h.dh_pub m (move_to h.dh_pub s) s1 rk e1 in
    let (s2, rk', e2, f2) =
      continue-eq_ok (λ rk'. modify (open_sending rk'))
        (root_step h.dh_pub m (rotate_self fresh (open_receiving rk s1))) s' u f1 in
    let (p2, d2) =
      root_step-eq_ok h.dh_pub m (rotate_self fresh (open_receiving rk s1)) s2 rk' e2 in
    (
      rk,
      rk',
      d1,
      d2,
      ap (λ z. open_sending rk' (rotate_self fresh (open_receiving rk z))) p1
          ∙ ap (open_sending rk') p2
          ∙ ap (λ o. o.0) f2,
    )

is_new_dh-new :
    (h : RatchetHeader) (s : RatchetState) (remote : List ℕ)
    → s.dh_remote_pub ≡ some remote
    → h.dh_pub ≢ remote
    → is_new_dh h s ≡ true
unfolding is_new_dh
is_new_dh-new h s remote d ne = rw (d, is_new_dh) (ap not (same_of_ne h.dh_pub remote ne))

skip_message_keys-none :
    (n : ℕ) (m : LibCrypto) (s s' : RatchetState) (u : Unit {0})
    → s.receiving_chain_key ≡ none
    → skip_message_keys n m s ≡ (s', ok u)
    → s ≡ s'
unfolding skip_message_keys
skip_message_keys-none n m s s' u closed e = elim (Bool-cases (ltb (s.nr + max_skip) n)) [
  | inl far ↦ absurd (thrown (rw far at e))
  | inr near ↦ ap (λ o. o.0) (simp (near, closed) at e)
]
  where
    thrown :
        {x : RatchetError}
        → ¬ (◌≡◌ {A = RatchetState × Result RatchetError (Unit {0})} (s, err x) (s', ok u))
    thrown h = cc

-- Behind the step the peer's key is the header's, and the stored keys are what they were.
pub dh_ratchet-moves :
    (h : RatchetHeader) (fresh : DhKeyPair) (m : LibCrypto) (s s' : RatchetState) (u : Unit {0})
    → dh_ratchet h fresh m s ≡ (s', ok u)
    → (s'.dh_remote_pub ≡ some h.dh_pub) × (s'.skipped ≡ s.skipped)
unfolding stepped move_to open_receiving rotate_self open_sending
dh_ratchet-moves h fresh m s s' u e =
    let (rk, rk', d, d', is_s') = dh_ratchet-eq_ok h fresh m s s' u e in
    (ap (λ z. z.dh_remote_pub) (sym is_s'), ap (λ z. z.skipped) (sym is_s'))

-- An end with no receiving chain has no tail to skip.
step_if_new-none :
    (h : RatchetHeader) (fresh : DhKeyPair) (m : LibCrypto) (s s' : RatchetState) (remote : List ℕ)
    → s.dh_remote_pub ≡ some remote
    → s.receiving_chain_key ≡ none
    → h.dh_pub ≢ remote
    → step_if_new h fresh m s ≡ (s', ok tt)
    → dh_ratchet h fresh m s ≡ (s', ok tt)
unfolding step_if_new
step_if_new-none h fresh m s s' remote d closed ne e =
    let (s1, u, e1, f1) =
      continue-eq_ok (λ _. dh_ratchet h fresh m) (skip_message_keys h.pn m s) s' tt
        (rw (is_new_dh-new h s remote d ne) at e) in
    ap (dh_ratchet h fresh m) (skip_message_keys-none h.pn m s s1 u closed e1) ∙ f1

built-eq_ok :
    (o : RatchetState × Result RatchetError (Unit {0})) (a : RatchetState)
    → built o ≡ ok a
    → (u : Unit {0}) × (o ≡ (a, ok u))
built-eq_ok (s, ok u) a e = (u, cc)
built-eq_ok (s, err x) a e = cc

-- The edge whose two ends start from `seed`, the initiator with the pair `i`, and the responder
-- with `r` and then `r'`.
module _ (m : LibCrypto) (seed : List ℕ) (suite : RatchetRootSuite) (i r r' : DhKeyPair) where
  initiator : RootStep → RatchetState
  initiator rk = open_sending rk (know_remote r.public_key (blank_ratchet suite seed i))

  initiator-eq :
      (a : RatchetState)
      → init_ratchet seed true (some r.public_key) m suite i ≡ ok a
      → (rk : RootStep) × (derive i.secret_key seed r.public_key m ≡ ok rk) × (initiator rk ≡ a)
  unfolding init_ratchet start_initiator initiator blank_ratchet
  initiator-eq a e =
      let s = know_remote r.public_key (blank_ratchet suite seed i) in
      let (u, f) =
        built-eq_ok (start_initiator (some r.public_key) m (blank_ratchet suite seed i)) a e in
      let (s1, rk, e1, f1) =
        continue-eq_ok (λ rk. modify (open_sending rk)) (root_step r.public_key m s) a u f in
      let (p, d) = root_step-eq_ok r.public_key m s s1 rk e1 in
      (rk, d, ap (open_sending rk) p ∙ ap (λ o. o.0) f1)

  responder : RootStep → RootStep → RatchetState
  responder rk rk' =
      stepped (record { dh_pub = i.public_key; n = 0; pn = 0 }) r' rk rk'
        (blank_ratchet suite seed r)

  prime-blank :
      (b' : RatchetState)
      → prime_responder_ratchet i.public_key r' m (blank_ratchet suite seed r) ≡ (b', ok tt)
      → dh_ratchet
          (record { dh_pub = i.public_key; n = 0; pn = 0 })
          r'
          m
          (blank_ratchet suite seed r)
        ≡ (b', ok tt)
  unfolding blank_ratchet prime_responder_ratchet is_used
  prime-blank b' e = elim (Bool-cases (not (length i.public_key == ratchet_dh_pub_len))) [
    | inl long ↦ absurd (thrown (rw long at e))
    | inr fits ↦ rw fits at e
  ]
    where
      thrown :
          {s s' : RatchetState} {x : RatchetError}
          → ¬ (◌≡◌ {A = RatchetState × Result RatchetError (Unit {0})} (s, err x) (s', ok tt))
      thrown h = cc

  responder-eq :
      (b b' : RatchetState)
      → init_ratchet seed false none m suite r ≡ ok b
      → prime_responder_ratchet i.public_key r' m b ≡ (b', ok tt)
      → (rk : RootStep) × (rk' : RootStep) × (derive r.secret_key seed i.public_key m ≡ ok rk)
        × (derive r'.secret_key rk.root_key i.public_key m ≡ ok rk')
        × (responder rk rk' ≡ b')
  unfolding init_ratchet responder blank_ratchet
  responder-eq b b' e f =
      let same : blank_ratchet suite seed r ≡ b = ok-injective e in
      let primed =
        prime-blank b'
          (subst (λ z. prime_responder_ratchet i.public_key r' m z ≡ (b', ok tt)) (sym same) f) in
      dh_ratchet-eq_ok (record { dh_pub = i.public_key; n = 0; pn = 0 }) r' m
        (blank_ratchet suite seed r) b' tt primed

  -- The two ends as they are made.
  module _ (a b b' : RatchetState)
      (exchange : m.x25519_dh i.secret_key r.public_key ≡ m.x25519_dh r.secret_key i.public_key)
      (made_a : init_ratchet seed true (some r.public_key) m suite i ≡ ok a)
      (made_b : init_ratchet seed false none m suite r ≡ ok b)
      (primed : prime_responder_ratchet i.public_key r' m b ≡ (b', ok tt)) where
    -- If the initiator starts with the responder's key and the responder, started from the same seed,
    -- is primed with the initiator's key, and the exchange of these two pairs gives both the same
    -- secret, then the chain that the initiator sends on, with no message sent, is the one that the
    -- responder listens on under the initiator's key, with nothing received or stored.
    pub init-agrees :
        (first : List ℕ) × (a.sending_chain_key ≡ some first)
        × (a.ns ≡ 0)
        × Listens first a.dh_self_pub b'
    unfolding initiator responder stepped open_sending rotate_self open_receiving move_to
        blank_ratchet map_get IsUnique
    init-agrees =
        let (rk, d, is_a) = initiator-eq a made_a in
        let (rk1, rk2, d1, d2, is_b) = responder-eq b b' made_b primed in
        let same : rk ≡ rk1 = ok-injective (
          sym d
          ∙ derive_agrees m i.secret_key r.secret_key seed i.public_key r.public_key exchange
          ∙ d1) in
        (
          rk.chain_key,
          ap (λ z. z.sending_chain_key) (sym is_a),
          ap (λ z. z.ns) (sym is_a),
          subst (λ z. Listens rk.chain_key z.dh_self_pub b') is_a
              (subst (Listens rk.chain_key i.public_key) is_b (record {
                remote_is = refl;
                held = ap (λ z. some z.chain_key) (sym same);
                none_received = refl;
                none_stored = λ j. refl;
                unique = tt;
                room = omega arith;
              })),
        )

    -- A step of the initiator to the responder's new key.
    module _ (h : RatchetHeader) (fresh : DhKeyPair) (a' : RatchetState)
        (exchange' : m.x25519_dh i.secret_key r'.public_key
          ≡ m.x25519_dh r'.secret_key i.public_key)
        (rotated : r'.public_key ≢ r.public_key) (from : h.dh_pub ≡ b'.dh_self_pub)
        (moved : step_if_new h fresh m a ≡ (a', ok tt)) where
      -- On two ends that started as in `init-agrees`, a header under the key to which the responder
      -- rotated, a new one, if the initiator's step to it succeeds and the exchange with that key agrees,
      -- moves the initiator to the chain that the responder sends on, with no message sent, and none
      -- received or stored.
      pub step_if_new-agrees :
          (first : List ℕ) × (b'.sending_chain_key ≡ some first)
          × (b'.ns ≡ 0)
          × Listens first b'.dh_self_pub a'
      unfolding initiator responder stepped open_sending rotate_self open_receiving move_to
          blank_ratchet map_get IsUnique
      step_if_new-agrees =
          let (rk, d, is_a) = initiator-eq a made_a in
          let (rk1, rk2, d1, d2, is_b) = responder-eq b b' made_b primed in
          let same : rk ≡ rk1 = ok-injective (
            sym d
            ∙ derive_agrees m i.secret_key r.secret_key seed i.public_key r.public_key exchange
            ∙ d1) in
          let on : h.dh_pub ≡ r'.public_key = from ∙ ap (λ z. z.dh_self_pub) (sym is_b) in
          let stepped_a =
            step_if_new-none h fresh m (initiator rk) a' r.public_key refl refl
              (λ p. rotated (sym on ∙ p))
              (subst (λ z. step_if_new h fresh m z ≡ (a', ok tt)) (sym is_a) moved) in
          let (rk3, rk4, d3, d4, is_a') =
            dh_ratchet-eq_ok h fresh m (initiator rk) a' tt stepped_a in
          let moves : derive i.secret_key rk.root_key h.dh_pub m
              ≡ derive i.secret_key rk1.root_key r'.public_key m =
            λ j. derive i.secret_key ((same j).root_key) (on j) m in
          let same' : rk2 ≡ rk3 = ok-injective (
            sym d2
            ∙ sym (
                derive_agrees m i.secret_key r'.secret_key rk1.root_key i.public_key r'.public_key
                  exchange')
            ∙ sym moves
            ∙ d3) in
          (
            rk2.chain_key,
            ap (λ z. z.sending_chain_key) (sym is_b),
            ap (λ z. z.ns) (sym is_b),
            subst (λ z. Listens rk2.chain_key z.dh_self_pub a') is_b
                (subst (Listens rk2.chain_key r'.public_key) is_a' (record {
                  remote_is = ap some on;
                  held = ap (λ z. some z.chain_key) (sym same');
                  none_received = refl;
                  none_stored = λ j. refl;
                  unique = tt;
                  room = omega arith;
                })),
          )
