-- ===== src/Vocab/Key.antt =====
-- Keys of `src/def.h` and their comparison and hash (`src/utils.c`). A `Key` is a pointer into the
-- mapped file with a `u8` length; it is modelled by the bytes that it covers, at most 255 of them.
use tinyllama_c.Prelude.{
  ℕ, ◌*◌, ◌%◌, ◌^◌, bit_xor, ◌≡◌, ◌↔◌, Bool, true, false, ◌&&◌, List, [], ◌∷◌, arith, ◌==◌, take,
}

abbrev pub Key : Type 0
Key = List ℕ

-- `{.content = text, .len = (u8) len}`: the length is cut to eight bits.
unfoldable pub make_key : List ℕ → ℕ → Key
make_key text len = take (len % 2 ^ 8) text

-- `k1.len == k2.len && memcmp(k1.content, k2.content, k1.len) == 0`
unfoldable pub key_eq : Key → Key → Bool
key_eq [] [] = true
key_eq (a ∷ k) (b ∷ l) = a == b && key_eq k l
key_eq _ _ = false

hash_from : ℕ → List ℕ → ℕ
hash_from h [] = h
hash_from h (b ∷ bs) = hash_from (bit_xor h b * 1099511628211 % 2 ^ 64) bs

-- FNV-1a over 64-bit words.
unfoldable pub hash_bytes : List ℕ → ℕ
unfolding hash_from
hash_bytes bs = hash_from 1469598103934665603 bs

pub key_eq_iff : (k l : Key) → (key_eq k l ≡ true) ↔ (k ≡ l)
unfolding key_eq
key_eq_iff [] [] = ground arith
key_eq_iff [] (b ∷ l) = ground arith
key_eq_iff (a ∷ k) [] = ground arith
key_eq_iff (a ∷ k) (b ∷ l) = ground (arith, key_eq_iff k l)
