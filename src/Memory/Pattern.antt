-- ===== src/Memory/Pattern.antt =====
-- common/memory.c: scanning a module for a pattern of bytes.
use ps4_hen_plugins.Base.{
  ℕ, zero, suc, ◌+◌, ◌-◌, ◌*◌, ◌%◌, ◌^◌, Bool, true, false, not, ◌&&◌, ◌||◌, Option, none, some, [],
  ◌∷◌, leb, ◌==◌, if◌then◌else◌, Bytes, length, drop,
}
use ps4_hen_plugins.Ini.Text.{skip_spaces}
use ps4_hen_plugins.Memory.{Memory}

-- The value of a hexadecimal digit.
unfoldable pub hex_digit : ℕ → Option ℕ
hex_digit c =
    if leb b'0' c && leb c b'9'
    then some (c - b'0')
    else if leb b'a' c && leb c b'f'
    then some (c - b'a' + 10)
    else if leb b'A' c && leb c b'F'
    then some (c - b'A' + 10)
    else none

-- The digits of a number, added to what is read, and what is left of the text.
unfoldable pub read_hex : ℕ → Bytes → ℕ × Bytes
unfolding hex_digit
read_hex n [] = (n, [])
read_hex n (c ∷ cs) = elim (hex_digit c) [ none ↦ (n, c ∷ cs) | some d ↦ read_hex (n * 16 + d) cs ]

-- A `0x` with a digit behind it is passed over.
unfoldable pub skip_prefix : Bytes → Bytes
unfolding hex_digit
skip_prefix (zero_digit ∷ x ∷ c ∷ cs) =
    if zero_digit == b'0' && (x == b'x' || x == b'X')
    then elim (hex_digit c) [ none ↦ zero_digit ∷ x ∷ c ∷ cs | some d ↦ c ∷ cs ]
    else zero_digit ∷ x ∷ c ∷ cs
skip_prefix cs = cs

-- The digits behind a sign; nothing is read of a text without a digit. Above the largest value the
-- result is that value.
unfoldable pub hex_number : Bool → Bytes → Bytes → ℕ × Bytes
unfolding skip_prefix hex_digit read_hex
hex_number negative whole [] = (0, whole)
hex_number negative whole (c ∷ cs) = elim (hex_digit c) [
  | none ↦ (0, whole)
  | some _ ↦
      let (n, rest) = read_hex 0 (skip_prefix (c ∷ cs)) in
      (if leb (2 ^ 64) n then 2 ^ 64 - 1 else if negative then (2 ^ 64 - n) % 2 ^ 64 else n, rest)
]

unfoldable pub hex_signed : Bytes → Bytes → ℕ × Bytes
unfolding hex_number
hex_signed whole [] = (0, whole)
hex_signed whole (c ∷ cs) =
    if c == b'-'
    then hex_number true whole cs
    else if c == b'+'
    then hex_number false whole cs
    else hex_number false whole (c ∷ cs)

-- `strtoull(s, &end, 16)`: the number and `end`.
unfoldable pub strtoull : Bytes → ℕ × Bytes
unfolding hex_signed skip_spaces
strtoull s = hex_signed s (skip_spaces s)

-- Behind the `?` of a wildcard: a second one belongs to it.
unfoldable pub skip_mark : Bytes → Bytes
skip_mark [] = []
skip_mark (c ∷ cs) = if c == b'?' then cs else c ∷ cs

-- The loop of `pattern_to_byte`, with fuel for each byte of the text, since each turn passes at
-- least the one of `++current`. A wildcard is the byte 255. The array is not checked there.
unfoldable pub pattern_bytes : ℕ → Bytes → Bytes
unfolding strtoull skip_mark
pattern_bytes zero s = []
pattern_bytes (suc fuel) [] = []
pattern_bytes (suc fuel) (c ∷ cs) =
    let wild = pattern_bytes fuel (drop 1 (skip_mark cs)) in
    let (n, rest) = strtoull (c ∷ cs) in
    let byte = pattern_bytes fuel (drop 1 rest) in
    if c == b'?' then 255 ∷ wild else (n % 256) ∷ byte

unfoldable pub pattern_to_byte : Bytes → Bytes
unfolding pattern_bytes
pattern_to_byte pattern = pattern_bytes (length pattern) pattern

-- The inner loop of `PatternScan`.
unfoldable pub match_at : Memory → ℕ → Bytes → Bool
match_at memory addr [] = true
match_at memory addr (b ∷ bs) =
    let rest = match_at memory (addr + 1) bs in
    if not (memory addr == b) && not (b == 0xff) then false else rest

-- The outer loop, with the number of positions that are left.
unfoldable pub scan_from : Memory → ℕ → Bytes → ℕ → ℕ → Option ℕ
unfolding match_at
scan_from memory base pattern i zero = none
scan_from memory base pattern i (suc left) =
    let rest = scan_from memory base pattern (suc i) left in
    if match_at memory (base + i) pattern then some i else rest

unfoldable pub scan_result : ℕ → ℕ → Option ℕ → ℕ
scan_result base offset none = 0
scan_result base offset (some i) = (base + i + offset) % 2 ^ 64

-- `PatternScan`.
unfoldable pub pattern_scan : Memory → ℕ → ℕ → Bytes → ℕ → ℕ
unfolding pattern_to_byte scan_from scan_result
pattern_scan memory module_base module_size signature offset =
    let pattern = pattern_to_byte signature in
    if module_base == 0 || module_size == 0
    then 0
    else if length pattern == 0 || leb 512 (length pattern)
    then 0
    else scan_result module_base offset (scan_from memory module_base pattern 0 module_size)
