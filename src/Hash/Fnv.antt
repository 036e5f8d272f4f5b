-- ===== src/Hash/Fnv.antt =====
-- dict_generic_hash_function of utils/ut_dict.c is the hash FNV-1a of 32 bits, with its multiplication
-- by the prime written as shifts.
use Prim.Native.Nat.{bit_xor}
use viabtc_exchange_server.Base.{ℕ, ◌+◌, ◌*◌, ◌^◌, ◌%◌, ◌≡◌, refl, ap, ◌∙◌, List, [], ◌∷◌, arith}
use viabtc_exchange_server.Hash.{u32, fnv_step, fnv_loop, dict_generic_hash_function}

-- The published definition, with its offset and its prime 2^24 + 2^8 + 0x93.
abbrev pub fnv1a : ℕ → List ℕ → ℕ
fnv1a h [] = h
fnv1a h (byte ∷ bytes) = fnv1a ((bit_xor h byte * 16777619) % 2 ^ 32) bytes

shifts :
    (x : ℕ)
    → u32 (
        x
        + u32
            (u32 (x * 2) + u32 (x * 2 ^ 4) + u32 (x * 2 ^ 7) + u32 (x * 2 ^ 8) + u32 (x * 2 ^ 24)))
      ≡ (x * 16777619) % 2 ^ 32
shifts x = omega arith

fnv_loop-fnv1a : (h : ℕ) (bytes : List ℕ) → fnv_loop h bytes ≡ fnv1a h bytes
unfolding fnv_loop fnv_step
fnv_loop-fnv1a h [] = refl
fnv_loop-fnv1a h (byte ∷ bytes) =
    ap (λ i. fnv_loop i bytes) (shifts (bit_xor h byte))
    ∙ fnv_loop-fnv1a ((bit_xor h byte * 16777619) % 2 ^ 32) bytes

-- dict_generic_hash_function, with its shifts and its 32-bit sums, is the hash FNV-1a with its
-- offset and its prime.
pub dict_generic_hash_function-fnv1a :
    (bytes : List ℕ) → dict_generic_hash_function bytes ≡ fnv1a 2166136261 bytes
dict_generic_hash_function-fnv1a bytes = fnv_loop-fnv1a 2166136261 bytes
