-- ===== src/Ratchet/Bounds.antt =====
-- How many skipped keys a call of src/cryptography/ratchet.ts may leave behind.
use mathlib.Core.Path.{subst}
use p2party_js.Base.{
  ℕ, zero, suc, ◌+◌, ◌-◌, ◌≤◌, ◌≡◌, refl, inl, inr, map_err, le_of_ltb, Bool-cases, Option-cases,
  List, Option, some, none, arith, ok, err, length, length-drop, ltb, Result,
}
use p2party_js.LibCrypto.{LibCrypto, x25519_dh_of}
use p2party_js.Maps.{map_get, IsUnique}
use p2party_js.Maps.Laws.{
  map_set-IsUnique, map_delete-IsUnique, drop-IsUnique, length-map_set, length-map_delete,
}
use p2party_js.Ratchet.Kdf.{
  RatchetError, null_key, max_skip_exceeded, message_key_already_consumed, dh_failed, kdf_rk,
  kdf_ck,
}
use p2party_js.Ratchet.State.{
  slot_key, RatchetState, RatchetHeader, DhKeyPair, Call, modify, continue,
}
use p2party_js.Ratchet.Skipping.{
  require, max_skip, max_skip_session, try_skipped, delete_skipped, advance_chain, stash,
  skip_rounds, evict, skip_message_keys, move_to, open_receiving, rotate_self, open_sending,
  root_step, dh_ratchet,
}
use p2party_js.Ratchet.Messages.{
  ratchet_decrypt, decrypt_unstored, step_if_new, is_new_dh, take_next, count_received,
  fail_if_consumed,
}

-- Behind a call that returned at most `MAX_SKIP_SESSION` keys are stored; one that threw may leave
-- those of its gap.
abbrev pub limit : {A : Type 0} → Result RatchetError A → ℕ
limit (ok a) = max_skip_session
limit (err e) = max_skip_session + max_skip

pub record Within (n : ℕ) (s : RatchetState) : Type 0 where
  pub unique : IsUnique s.skipped
  pub small : length s.skipped ≤ n

abbrev pub IsStore : RatchetState → Type 0
IsStore = Within max_skip_session

pub record Bounded {A : Type 0} (o : RatchetState × Result RatchetError A) : Type 0 where
  pub within : Within (limit o.1) o.0

more : (n k : ℕ) (s : RatchetState) → n ≤ k → Within n s → Within k s
more n k s h w = record { unique = w.unique; small = omega (arith, w.small) }

-- However the call ends.
record Ends {A : Type 0} (n : ℕ) (o : RatchetState × Result RatchetError A) : Type 0 where
  within : Within n o.0

-- A call that throws in its first part stops there.
bind_upto :
    {A B : Type 0} (n k : ℕ) (o : RatchetState × Result RatchetError A) (f : A → Call B)
    → n ≤ k
    → Ends n o
    → ((a : A) (s : RatchetState) → Within n s → Ends k (f a s))
    → Ends k (continue f o)
bind_upto n k (s, ok a) f h e rest = rest a s e.within
bind_upto n k (s, err x) f h e rest = record { within = more n k s h e.within }

bind :
    {A B : Type 0} (o : RatchetState × Result RatchetError A) (f : A → Call B)
    → Bounded o
    → ((a : A) (s : RatchetState) → IsStore s → Bounded (f a s))
    → Bounded (continue f o)
bind (s, ok a) f b rest = rest a s b.within
bind (s, err e) f b rest = record { within = b.within }

require-Ends :
    {A : Type 0} (n : ℕ) (e : RatchetError) (o : Option A) (s : RatchetState)
    → Within n s
    → Ends n (require e o s)
require-Ends n e none s w = record { within = w }
require-Ends n e (some a) s w = record { within = w }

-- A part that leaves the map alone.
unchanged : (n : ℕ) (s s' : RatchetState) → s'.skipped ≡ s.skipped → Within n s → Within n s'
unchanged n s s' e w = record { unique = rw e w.unique; small = rw e w.small }

store-Bounded :
    {A : Type 0} (s : RatchetState) (r : Result RatchetError A) → IsStore s → Bounded (s, r)
store-Bounded s (ok a) w = record { within = w }
store-Bounded s (err e) w = record { within = more _ _ s (omega arith) w }

stash-Within :
    (n : ℕ) (remote k : List ℕ) (s : RatchetState) → Within n s → Within (n + 1) (stash remote k s)
unfolding stash
stash-Within n remote k s w = record {
  unique = map_set-IsUnique (remote, s.nr) k s.skipped w.unique;
  small = omega (arith, length-map_set (remote, s.nr) k s.skipped, w.small);
}

require-Bounded :
    {A : Type 0} (e : RatchetError) (o : Option A) (s : RatchetState)
    → IsStore s
    → Bounded (require e o s)
require-Bounded e none s w = store-Bounded s (err e) w
require-Bounded e (some a) s w = store-Bounded s (ok a) w

-- However the rounds end.
skip_rounds-Ends :
    (m : LibCrypto) (r n : ℕ) (s : RatchetState) → Within n s → Ends (n + r) (skip_rounds m r s)
unfolding skip_rounds
skip_rounds-Ends m zero n s w = record { within = more n (n + zero) s (omega arith) w }
skip_rounds-Ends m (suc r) n s w =
    bind_upto n (n + suc r) _ _ (omega arith) (require-Ends n null_key s.receiving_chain_key s w)
      λ ck s1 w1.
        bind_upto n (n + suc r) (s1, kdf_ck ck m) _ (omega arith) (record { within = w1 })
          λ step s2 w2.
            let w3 : Within n (advance_chain step s2) = unchanged n s2 _ refl w2 in
            bind_upto n (n + suc r) _ _ (omega arith)
              (require-Ends n null_key s.dh_remote_pub (advance_chain step s2) w3)
              λ remote s4 w4.
                subst (λ j. Ends j (skip_rounds m r (stash remote step.message_key s4)))
                  (omega arith)
                  (skip_rounds-Ends m r (n + 1) (stash remote step.message_key s4)
                    (stash-Within n remote step.message_key s4 w4))

evict-IsStore : (n : ℕ) (s : RatchetState) → Within n s → IsStore (evict s)
unfolding evict
evict-IsStore n s w = record {
  unique = drop-IsUnique (length s.skipped - max_skip_session) s.skipped w.unique;
  small = omega (arith, length-drop (length s.skipped - max_skip_session) s.skipped);
}

evicted :
    (n : ℕ) (o : RatchetState × Result RatchetError (Unit {0}))
    → n ≤ max_skip_session + max_skip
    → Ends n o
    → Bounded (continue (λ _. modify evict) o)
evicted n (s, ok _) h e = record { within = evict-IsStore n s e.within }
evicted n (s, err x) h e = record { within = more n _ s h e.within }

skip_message_keys-Bounded :
    (m : LibCrypto) (n : ℕ) (s : RatchetState) → IsStore s → Bounded (skip_message_keys n m s)
unfolding skip_message_keys
skip_message_keys-Bounded m n s w = elim (Bool-cases (ltb (s.nr + max_skip) n)) [
  | inl e ↦ simp e (store-Bounded s (err max_skip_exceeded) w)
  | inr e ↦ elim (Option-cases s.receiving_chain_key) [
    | inl d ↦ simp (e, d) (store-Bounded s (ok tt) w)
    | inr (ck, d) ↦
        simp (e, d)
          (evicted (max_skip_session + (n - s.nr)) (skip_rounds m (n - s.nr) s)
            (omega (arith, le_of_ltb (s.nr + max_skip) n e))
            (skip_rounds-Ends m (n - s.nr) max_skip_session s w))
  ]
]

root_step-Bounded :
    (m : LibCrypto) (remote : List ℕ) (s : RatchetState)
    → IsStore s
    → Bounded (root_step remote m s)
unfolding root_step
root_step-Bounded m remote s w =
    bind (s, map_err dh_failed (x25519_dh_of s.dh_self_sec remote m)) _ (store-Bounded s _ w)
      λ dh_out s1 w1. store-Bounded s1 (kdf_rk s.root_key dh_out m) w1

dh_ratchet-Bounded :
    (m : LibCrypto) (h : RatchetHeader) (fresh : DhKeyPair) (s : RatchetState)
    → IsStore s
    → Bounded (dh_ratchet h fresh m s)
unfolding dh_ratchet
dh_ratchet-Bounded m h fresh s w =
    bind _ _ (root_step-Bounded m h.dh_pub (move_to h.dh_pub s) (unchanged _ s _ refl w))
      λ rk s1 w1.
        bind _ _
          (root_step-Bounded m h.dh_pub (rotate_self fresh (open_receiving rk s1))
            (unchanged _ s1 _ refl w1))
          λ rk' s2 w2. store-Bounded (open_sending rk' s2) (ok tt) (unchanged _ s2 _ refl w2)

step_if_new-Bounded :
    (m : LibCrypto) (h : RatchetHeader) (fresh : DhKeyPair) (s : RatchetState)
    → IsStore s
    → Bounded (step_if_new h fresh m s)
unfolding step_if_new
step_if_new-Bounded m h fresh s w = elim (Bool-cases (is_new_dh h s)) [
  | inl e ↦ simp e (
      bind _ _ (skip_message_keys-Bounded m h.pn s w) λ u s1 w1. dh_ratchet-Bounded m h fresh s1 w1)
  | inr e ↦ simp e (store-Bounded s (ok tt) w)
]

take_next-Bounded : (m : LibCrypto) (s : RatchetState) → IsStore s → Bounded (take_next m s)
unfolding take_next
take_next-Bounded m s w = bind _ _ (require-Bounded null_key s.receiving_chain_key s w) λ ck s1 w1.
    bind (s1, kdf_ck ck m) _ (store-Bounded s1 _ w1)
      λ step s2 w2.
        store-Bounded (count_received (advance_chain step s2)) (ok step.message_key)
          (unchanged _ s2 _ refl w2)

fail_if_consumed-Bounded :
    (h : RatchetHeader) (s : RatchetState) → IsStore s → Bounded (fail_if_consumed h s)
fail_if_consumed-Bounded h s w = elim (Bool-cases (ltb h.n s.nr)) [
  | inl e ↦ simp e (store-Bounded s (err message_key_already_consumed) w)
  | inr e ↦ simp e (store-Bounded s (ok tt) w)
]

decrypt_unstored-Bounded :
    (m : LibCrypto) (h : RatchetHeader) (fresh : DhKeyPair) (s : RatchetState)
    → IsStore s
    → Bounded (decrypt_unstored h fresh m s)
unfolding decrypt_unstored
decrypt_unstored-Bounded m h fresh s w = bind _ _ (step_if_new-Bounded m h fresh s w) λ u s1 w1.
    bind _ _ (fail_if_consumed-Bounded h s1 w1) λ u s2 w2.
      bind _ _ (skip_message_keys-Bounded m h.n s2 w2) λ u s3 w3. take_next-Bounded m s3 w3

-- Behind every call of `ratchetDecrypt` on a state with at most 2000 skipped keys, one for each
-- slot, there is one for each slot, and there are at most 2000 if the call returned, and at most
-- 2512 if it threw.
pub ratchet_decrypt-Bounded :
    (m : LibCrypto) (h : RatchetHeader) (fresh : DhKeyPair) (s : RatchetState)
    → IsStore s
    → Bounded (ratchet_decrypt h fresh m s)
unfolding ratchet_decrypt try_skipped
ratchet_decrypt-Bounded m h fresh s w = elim (Option-cases (map_get (h.dh_pub, h.n) s.skipped)) [
  | inl e ↦ rw (e, try_skipped) (decrypt_unstored-Bounded m h fresh s w)
  | inr (k, e) ↦ rw (e, try_skipped) (store-Bounded _ (ok k) (deleted s w))
]
  where
    deleted : (s : RatchetState) → IsStore s → IsStore (delete_skipped (h.dh_pub, h.n) s)
    deleted s w = record {
      unique = map_delete-IsUnique (h.dh_pub, h.n) s.skipped w.unique;
      small = omega (arith, length-map_delete (h.dh_pub, h.n) s.skipped, w.small);
    }
