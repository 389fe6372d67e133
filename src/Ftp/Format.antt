-- ===== src/Ftp/Format.antt =====
-- plugin_server/source/ftp/cmd.c: numbers and paths as text, and the text of a file mode.
use ps4_hen_plugins.Base.{
  ℕ, zero, suc, ◌+◌, ◌-◌, ◌*◌, ◌/◌, ◌%◌, ◌^◌, Bool, true, false, not, ◌&&◌, Option, none, some,
  List, [], ◌∷◌, ◌++◌, leb, ltb, ◌==◌, if◌then◌else◌, Bytes, take, ℤ, pos, negsuc,
}
use ps4_hen_plugins.Ini.Text.{skip_spaces}

-- `%u` and `%lu`, for numbers below 2 ^ 64, which have at most 20 digits.
unfoldable pub decimal_digits : ℕ → ℕ → Bytes → Bytes
decimal_digits zero n acc = acc
decimal_digits (suc fuel) n acc =
    let digit = (n % 10 + b'0') ∷ acc in
    let more = decimal_digits fuel (n / 10) digit in if n / 10 == 0 then digit else more

unfoldable pub decimal : ℕ → Bytes
decimal n = decimal_digits 20 n []

unfoldable pub is_digit : ℕ → ℕ → Bool
is_digit base c = leb b'0' c && ltb c (b'0' + base)

-- The digits of a number in a base up to ten, added to what is read, and what is left of the text.
unfoldable pub read_digits : ℕ → ℕ → Bytes → ℕ × Bytes
unfolding is_digit
read_digits base n [] = (n, [])
read_digits base n (c ∷ cs) =
    let more = read_digits base (n * base + (c - b'0')) cs in
    if is_digit base c then more else (n, c ∷ cs)

-- `strtol(s, 0, base)`: spaces, a sign, digits; kept within a `long`.
unfoldable pub signed : Bool → ℕ → ℤ
signed false n = if ltb n (2 ^ 63) then pos n else pos (2 ^ 63 - 1)
signed true zero = pos 0
signed true (suc n) = if ltb n (2 ^ 63) then negsuc n else negsuc (2 ^ 63 - 1)

unfoldable pub read_signed : ℕ → Bytes → ℤ
unfolding read_digits signed
read_signed base [] = pos 0
read_signed base (c ∷ cs) =
    if c == b'-'
    then signed true (read_digits base 0 cs).0
    else if c == b'+'
    then signed false (read_digits base 0 cs).0
    else signed false (read_digits base 0 (c ∷ cs)).0

unfoldable pub strtol : ℕ → Bytes → ℤ
unfolding read_signed skip_spaces
strtol base s = read_signed base (skip_spaces s)

-- `%hhu` of `sscanf`: spaces, a sign, at least one digit; the value in a byte.
unfoldable pub to_byte : Bool → ℕ → ℕ
to_byte negative n =
    if leb (2 ^ 64) n then 255 else if negative then (256 - n % 256) % 256 else n % 256

unfoldable pub scan_digits : Bool → Bytes → Option (ℕ × Bytes)
unfolding is_digit read_digits to_byte
scan_digits negative [] = none
scan_digits negative (c ∷ cs) =
    let (n, rest) = read_digits 10 0 (c ∷ cs) in
    if is_digit 10 c then some (to_byte negative n, rest) else none

unfoldable pub scan_sign : Bytes → Option (ℕ × Bytes)
unfolding scan_digits
scan_sign [] = none
scan_sign (c ∷ cs) =
    if c == b'-'
    then scan_digits true cs
    else if c == b'+'
    then scan_digits false cs
    else scan_digits false (c ∷ cs)

unfoldable pub scan_byte : Bytes → Option (ℕ × Bytes)
unfolding scan_sign skip_spaces
scan_byte s = scan_sign (skip_spaces s)

-- The comma of the format, in front of the next number.
unfoldable pub scan_comma : Bytes → Option Bytes
scan_comma [] = none
scan_comma (c ∷ cs) = if c == b',' then some cs else none

-- So many numbers with commas between them; whatever follows the last is not looked at.
unfoldable pub scan_bytes : ℕ → Bytes → Option (List ℕ)
unfolding scan_byte scan_comma
scan_bytes zero s = some []
scan_bytes (suc zero) s = elim (scan_byte s) [ none ↦ none | some (n, _) ↦ some (n ∷ []) ]
scan_bytes (suc (suc more)) s = elim (scan_byte s) [
  | none ↦ none
  | some (n, rest) ↦ elim (scan_comma rest) [
    | none ↦ none
    | some rest' ↦ elim (scan_bytes (suc more) rest') [ none ↦ none | some ns ↦ some (n ∷ ns) ]
  ]
]

-- `ftp_abspath`. An array that is filled to its last byte has no NUL; here the path ends with it.
unfoldable pub ftp_abspath : ℕ → Bytes → Bytes → Bytes
ftp_abspath path_max cwd [] = take path_max (take path_max (cwd ++ b'/' ∷ []))
ftp_abspath path_max cwd (c ∷ cs) =
    if not (c == b'/')
    then take path_max (take path_max (cwd ++ b'/' ∷ c ∷ cs))
    else take path_max (c ∷ cs)

-- `mode & (1 << i)`
unfoldable pub mode_bit : ℕ → ℕ → Bool
mode_bit mode i = (mode / 2 ^ i) % 2 == 1

-- `"xwr"[i % 3]`
abbrev pub access_letter : ℕ → ℕ
access_letter i = if i % 3 == 0 then b'x' else if i % 3 == 1 then b'w' else b'r'

-- `"tss"[i / 3]`, in upper case where the execute bit is not set.
abbrev pub special_letter : ℕ → Bool → ℕ
special_letter d execute =
    let letter : ℕ = if d == 0 then b't' else b's' in if execute then letter else letter - 32

unfoldable pub mode_char : ℕ → ℕ → ℕ
unfolding mode_bit
mode_char mode i =
    if i % 3 == 0 && mode_bit mode (i / 3 + 9)
    then special_letter (i / 3) (mode_bit mode i)
    else if mode_bit mode i
    then access_letter i
    else b'-'

-- `S_ISDIR` and its like compare the bits above the lowest twelve.
unfoldable pub file_type : ℕ → ℕ
file_type mode = (mode / 2 ^ 12) % 16

unfoldable pub is_dir : ℕ → Bool
unfolding file_type
is_dir mode = file_type mode == 4

unfoldable pub type_char : ℕ → ℕ
unfolding file_type is_dir
type_char mode =
    if is_dir mode
    then b'd'
    else if file_type mode == 6
    then b'b'
    else if file_type mode == 2
    then b'c'
    else if file_type mode == 10
    then b'l'
    else if file_type mode == 1
    then b'p'
    else if file_type mode == 12
    then b's'
    else b'-'

-- `buf[9 - i] = c` for i from 0 to 8: the letter for the highest bit stands first.
unfoldable pub mode_chars : ℕ → ℕ → Bytes → Bytes
unfolding mode_char
mode_chars mode zero acc = acc
mode_chars mode (suc left) acc = mode_chars mode left (mode_char mode (8 - left) ∷ acc)

unfoldable pub ftp_mode_string : ℕ → Bytes
unfolding type_char mode_chars
ftp_mode_string mode = type_char mode ∷ mode_chars mode 9 []
