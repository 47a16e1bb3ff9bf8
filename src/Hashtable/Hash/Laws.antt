-- ===== src/Hashtable/Hash/Laws.antt =====
-- The default hash and compare functions fit together.
use zfstest.Prelude.{ℕ, zero, suc, ◌*◌, ◌%◌, ◌^◌, ◌<◌, ◌≡◌, refl, [], ◌∷◌, arith, ap}
use native.Mathlib.Nat.{mod-lt}
use Prim.Native.Nat.{bit_xor}
use zfstest.Hashtable.Data.{Key}
use zfstest.Hashtable.Hash.{hash_loop, hash_bytes, bcmp, evaluate_threshold_default}

hash_loop-bcmp :
    (a b : Key) (keysize hash_value : ℕ)
    → bcmp a b keysize ≡ 0
    → hash_loop keysize a hash_value ≡ hash_loop keysize b hash_value
unfolding hash_loop bcmp
hash_loop-bcmp a b zero h same = refl
hash_loop-bcmp [] [] (suc n) h same = refl
hash_loop-bcmp [] (y ∷ ys) (suc n) h same = absurd (omega arith)
hash_loop-bcmp (x ∷ xs) [] (suc n) h same = absurd (omega arith)
hash_loop-bcmp (x ∷ xs) (y ∷ ys) (suc n) h same =
    let e : x ≡ y = ground arith in
    let rest : bcmp xs ys n ≡ 0 = ground arith in
    rw e (hash_loop-bcmp xs ys n (bit_xor (h * 2 % 2 ^ 64) y) rest)

pub bcmp_refl : (a : Key) (keysize : ℕ) → bcmp a a keysize ≡ 0
unfolding bcmp
bcmp_refl a zero = refl
bcmp_refl [] (suc n) = refl
bcmp_refl (x ∷ xs) (suc n) = ground (arith, bcmp_refl xs n)

pub hash_bytes-bound :
    (key : Key) (keysize : ℕ) {table_size : ℕ}
    → 0 < table_size
    → hash_bytes key keysize table_size < table_size
unfolding hash_bytes
hash_bytes-bound key keysize some_slots = mod-lt (hash_loop keysize key 0) some_slots

module _ (a b : Key) (keysize table_size : ℕ) where
  -- `ht_hash_bytes` gives keys that `bcmp` takes for equal the same slot, and the slot is below
  -- the size of the table, if that is not 0.
  pub hash_bytes-bcmp :
      0 < table_size
      → bcmp a b keysize ≡ 0
      → (hash_bytes a keysize table_size ≡ hash_bytes b keysize table_size)
        × (hash_bytes a keysize table_size < table_size)
  unfolding hash_bytes
  hash_bytes-bcmp some_slots same = (
    ap (λ h. h % table_size) (hash_loop-bcmp a b keysize 0 same),
    hash_bytes-bound a keysize some_slots,
  )

-- The default threshold function never asks for a resize.
pub evaluate_threshold_default-zero :
    (numents depthcount depthsum searchcount searchsum : ℕ)
    → evaluate_threshold_default numents depthcount depthsum searchcount searchsum ≡ 0
unfolding evaluate_threshold_default
evaluate_threshold_default-zero numents depthcount depthsum searchcount searchsum = ground arith
