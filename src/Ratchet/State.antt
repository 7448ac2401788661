-- ===== src/Ratchet/State.antt =====
-- src/cryptography/ratchet.ts: the live state, and calls that write it. A call that throws leaves
-- the writes it has made. A key of the `skipped` map is the pair of which the source makes a string:
-- the bytes in hexadecimal and the index, told apart by a colon (SlotKeys).
use p2party_js.Base.{
  ℕ, ◌≡◌, ◌↔◌, Bool, true, false, ◌&&◌, Option, List, ◌==◌, ==_iff, Result, ok, err, refl, arith,
}
use p2party_js.Bytes.{bytes_equal}
use p2party_js.Bytes.Laws.{bytes_equal_iff}
use p2party_js.Maps.{Key}
use p2party_js.Ratchet.Kdf.{RatchetError}

-- `RatchetRootSuite`.
pub data RatchetRootSuite : Type 0 where
  mlkem512 mlkem768 mlkem1024 : RatchetRootSuite

abbrev pub same_suite : RatchetRootSuite → RatchetRootSuite → Bool
same_suite mlkem512 mlkem512 = true
same_suite mlkem768 mlkem768 = true
same_suite mlkem1024 mlkem1024 = true
same_suite _ _ = false

abbrev pub Slot : Type 0
Slot = List ℕ × ℕ

abbrev pub same_slot : Slot → Slot → Bool
same_slot (dh_pub, n) (dh_pub', n') = bytes_equal dh_pub dh_pub' && n == n'

pub same_slot_iff : (a b : Slot) → (same_slot a b ≡ true) ↔ (a ≡ b)
same_slot_iff (p, n) (q, m) = ground (arith, bytes_equal_iff p q, ==_iff n m)

instance abbrev pub slot_key : Key Slot
slot_key = record { same = same_slot; same_iff = same_slot_iff }

pub record RatchetState : Type 0 where
  pub root_suite : RatchetRootSuite
  pub root_key : List ℕ
  pub sending_chain_key : Option (List ℕ)
  pub receiving_chain_key : Option (List ℕ)
  pub dh_self_pub : List ℕ
  pub dh_self_sec : List ℕ
  pub dh_remote_pub : Option (List ℕ)
  pub ns : ℕ
  pub nr : ℕ
  pub pn : ℕ
  pub skipped : List (Slot × List ℕ)

pub record RatchetHeader : Type 0 where
  pub dh_pub : List ℕ
  pub n : ℕ
  pub pn : ℕ

-- What `x25519Keypair` returns.
pub record DhKeyPair : Type 0 where
  pub public_key : List ℕ
  pub secret_key : List ℕ

-- A call on a live state: the state afterwards, and what is returned or thrown.
abbrev pub Call : Type 0 → Type 0
Call A = RatchetState → RatchetState × Result RatchetError A

abbrev pub continue :
    {A B : Type 0}
    → (A → Call B)
    → RatchetState × Result RatchetError A
    → RatchetState × Result RatchetError B
continue f (s, ok a) = f a s
continue f (s, err e) = (s, err e)

infixl 5 ◌>>=◌ ◌>>◌
abbrev pub ◌>>=◌ : {A B : Type 0} → Call A → (A → Call B) → Call B
(m >>= f) s = continue f (m s)

abbrev pub ◌>>◌ : {B : Type 0} → Call (Unit {0}) → Call B → Call B
m >> k = m >>= λ _. k

abbrev pub return : {A : Type 0} → A → Call A
return a s = (s, ok a)

abbrev pub throw : {A : Type 0} → RatchetError → Call A
throw e s = (s, err e)

abbrev pub get : Call RatchetState
get s = (s, ok s)

abbrev pub modify : (RatchetState → RatchetState) → Call (Unit {0})
modify f s = (f s, ok tt)

abbrev pub lift : {A : Type 0} → Result RatchetError A → Call A
lift r s = (s, r)

-- A call that returned: so did its parts.
pub continue-eq_ok :
    {A B : Type 0} (f : A → Call B) (o : RatchetState × Result RatchetError A) (s' : RatchetState)
    (b : B)
    → continue f o ≡ (s', ok b)
    → (s : RatchetState) × (a : A) × (o ≡ (s, ok a)) × (f a s ≡ (s', ok b))
continue-eq_ok f (s, ok a) s' b h = (s, a, refl, h)
continue-eq_ok f (s, err e) s' b h = cc
