-- ===== src/Settings/StringId.antt =====
-- common/stringid.h: the hashes by which texts are told apart.
use Prim.Native.Nat.{bit_xor}
use ps4_hen_plugins.Base.{
  ℕ, ◌+◌, ◌-◌, ◌*◌, ◌%◌, ◌^◌, ◌<◌, [], ◌∷◌, ◌≡◌, refl, arith, ltb, if◌then◌else◌, Bytes, All,
}

-- `base ^ *str` reads a `char`, which is signed, as 64 bits.
abbrev pub char_bits : ℕ → ℕ
char_bits c = if ltb c 128 then c else c + (2 ^ 64 - 256)

unfoldable pub string_id_from : (ℕ → ℕ) → ℕ → Bytes → ℕ
string_id_from bits base [] = base
string_id_from bits base (c ∷ s) =
    string_id_from bits (0x100000001B3 * bit_xor base (bits c) % 2 ^ 64) s

-- `ToStringId64A` and `ToStringId64W`
unfoldable pub to_string_id64_a : Bytes → ℕ
unfolding string_id_from
to_string_id64_a s = string_id_from char_bits 0xCBF29CE484222325 s

unfoldable pub to_string_id64_w : Bytes → ℕ
unfolding string_id_from
to_string_id64_w s = string_id_from (λ c. c) 0xCBF29CE484222325 s

string_id_from-same :
    (base : ℕ) (s : Bytes)
    → All (λ c. c < 128) s
    → string_id_from char_bits base s ≡ string_id_from (λ c. c) base s
unfolding string_id_from
string_id_from-same base [] h = refl
string_id_from-same base (c ∷ s) h =
    let e : char_bits c ≡ c = ground (arith, h.0) in
    rw e (string_id_from-same (0x100000001B3 * bit_xor base c % 2 ^ 64) s h.1)

-- For a text in ASCII the hash of its bytes is that of its wide characters.
pub to_string_id64_a-to_string_id64_w :
    (s : Bytes) → All (λ c. c < 128) s → to_string_id64_a s ≡ to_string_id64_w s
unfolding to_string_id64_a to_string_id64_w
to_string_id64_a-to_string_id64_w s h = string_id_from-same 0xCBF29CE484222325 s h
