-- ===== src/Hashtable/Hash.antt =====
-- `ht_hash_bytes`, `bcmp` and the default threshold function.
pub mod Laws
use Prim.Native.Nat.{bit_xor}
use zfstest.Prelude.{ℕ, zero, suc, ◌*◌, ◌%◌, ◌^◌, ◌==◌, if◌then◌else◌, [], ◌∷◌, not, ◌&&◌}
use zfstest.Hashtable.Data.{Key}

-- The loop over the bytes of the key. `size_t` has 64 bits.
unfoldable pub hash_loop : ℕ → Key → ℕ → ℕ
hash_loop zero sample hash_value = hash_value
hash_loop (suc keysize) [] hash_value = hash_value
hash_loop (suc keysize) (byte ∷ sample) hash_value =
    hash_loop keysize sample (bit_xor (hash_value * 2 % 2 ^ 64) byte)

unfoldable pub hash_bytes : Key → ℕ → ℕ → ℕ
hash_bytes key keysize table_size = hash_loop keysize key 0 % table_size

-- `bcmp` of the C library: 0 if the first `keysize` bytes agree.
unfoldable pub bcmp : Key → Key → ℕ → ℕ
bcmp a b zero = 0
bcmp [] [] (suc n) = 0
bcmp [] (y ∷ ys) (suc n) = 1
bcmp (x ∷ xs) [] (suc n) = 1
bcmp (x ∷ xs) (y ∷ ys) (suc n) = if x == y then bcmp xs ys n else 1

-- `ht_evaluate_threshold_default`: both branches return 0.
unfoldable pub evaluate_threshold_default : ℕ → ℕ → ℕ → ℕ → ℕ → ℕ
evaluate_threshold_default numents depthcount depthsum searchcount searchsum =
    if not (numents == 0)
      && not (depthcount == 0)
      && not (depthsum == 0)
      && not (searchcount == 0)
      && not (searchsum == 0)
    then (if 0 == 1 then 1 else 0)
    else (if 1 == 0 then 1 else 0)
