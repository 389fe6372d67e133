-- ===== src/Ftp/Digits.antt =====
-- plugin_server/source/ftp/cmd.c: the numbers that replies print are read back by commands.
use ps4_hen_plugins.Base.{
  ℕ, zero, suc, ◌+◌, ◌-◌, ◌*◌, ◌/◌, ◌%◌, ◌^◌, ◌<◌, Bool, true, false, some, List, [], ◌∷◌, ◌++◌,
  ◌≡◌, refl, ap, ◌∙◌, inl, inr, arith, ◌==◌, if◌then◌else◌, Bytes, length, get_or, All, ==_iff,
  Bool-cases,
}
use mathlib.Core.Path.{subst}
use native.Mathlib.Omega.{pow_step}
use ps4_hen_plugins.Ini.Text.{skip_spaces, isspace}
use ps4_hen_plugins.Ftp.Format.{
  decimal_digits, decimal, is_digit, read_digits, to_byte, scan_digits, scan_sign, scan_byte,
  scan_comma, scan_bytes,
}

-- Nothing of the text continues a number.
unfoldable pub EndsNumber : Bytes → Type 0
unfolding is_digit
EndsNumber [] = Unit
EndsNumber (c ∷ cs) = is_digit 10 c ≡ false

module _ {n : ℕ} (below : n < 10) where
  is_digit-below : is_digit 10 (n + b'0') ≡ true
  unfolding is_digit
  is_digit-below = ground arith

read_digits-stop : (n : ℕ) (rest : Bytes) → EndsNumber rest → read_digits 10 n rest ≡ (n, rest)
unfolding read_digits EndsNumber
read_digits-stop n [] e = refl
read_digits-stop n (c ∷ cs) e = simp e

read_digits-digit :
    (m d : ℕ) (rest : Bytes)
    → d < 10
    → read_digits 10 m ((d + b'0') ∷ rest) ≡ read_digits 10 (m * 10 + d) rest
unfolding read_digits
read_digits-digit m d rest below =
    let back : d + b'0' - b'0' ≡ d = omega arith in rw (is_digit-below below, back) refl

decimal_digits-last :
    (fuel n : ℕ) (acc : Bytes)
    → n / 10 == 0 ≡ true
    → decimal_digits (suc fuel) n acc ≡ (n % 10 + b'0') ∷ acc
unfolding decimal_digits
decimal_digits-last fuel n acc e = rw e refl

decimal_digits-more :
    (fuel n : ℕ) (acc : Bytes)
    → n / 10 == 0 ≡ false
    → decimal_digits (suc fuel) n acc ≡ decimal_digits fuel (n / 10) ((n % 10 + b'0') ∷ acc)
unfolding decimal_digits
decimal_digits-more fuel n acc e = rw e refl

pub decimal_digits-append :
    (fuel n : ℕ) (acc rest : Bytes)
    → decimal_digits fuel n acc ++ rest ≡ decimal_digits fuel n (acc ++ rest)
unfolding decimal_digits
decimal_digits-append zero n acc rest = refl
decimal_digits-append (suc fuel) n acc rest = elim (Bool-cases (n / 10 == 0)) [
  | inl e ↦ simp e
  | inr e ↦ simp (e, decimal_digits-append fuel (n / 10) ((n % 10 + b'0') ∷ acc) rest)
]

read_digits-last :
    (fuel n : ℕ) (acc : Bytes)
    → n / 10 ≡ 0
    → read_digits 10 0 (decimal_digits (suc fuel) n acc) ≡ read_digits 10 n acc
read_digits-last fuel n acc small =
    ap (read_digits 10 0) (decimal_digits-last fuel n acc ((==_iff (n / 10) 0).1 small))
    ∙ read_digits-digit 0 (n % 10) acc (omega arith)
    ∙ ap (λ x. read_digits 10 x acc) (omega arith)

tenth : (n x : ℕ) → n < 10 * x → n / 10 < x
tenth n x below = omega arith

divided : (fuel n : ℕ) → n < 10 ^ suc (suc fuel) → n / 10 < 10 ^ suc fuel
divided fuel n below = tenth n (10 ^ suc fuel) (subst (λ x. n < x) (pow_step 10 (suc fuel)) below)

-- The digits of a number read back are the number, in front of what is read after them.
read_digits-decimal_digits :
    (fuel n : ℕ) (acc : Bytes)
    → n < 10 ^ suc fuel
    → read_digits 10 0 (decimal_digits (suc fuel) n acc) ≡ read_digits 10 n acc
read_digits-decimal_digits zero n acc below = read_digits-last zero n acc (omega arith)
read_digits-decimal_digits (suc fuel) n acc below = elim (Bool-cases (n / 10 == 0)) [
  | inl e ↦ read_digits-last (suc fuel) n acc ((==_iff (n / 10) 0).0 e)
  | inr e ↦
      ap (read_digits 10 0) (decimal_digits-more (suc fuel) n acc e)
      ∙ read_digits-decimal_digits fuel (n / 10) ((n % 10 + b'0') ∷ acc) (divided fuel n below)
      ∙ read_digits-digit (n / 10) (n % 10) acc (omega arith)
      ∙ ap (λ x. read_digits 10 x acc) (omega arith)
]

-- A number printed with `%u` is read back whole, up to what follows it.
pub read_digits-decimal :
    (n : ℕ) (rest : Bytes)
    → n < 2 ^ 64
    → EndsNumber rest
    → read_digits 10 0 (decimal n ++ rest) ≡ (n, rest)
unfolding decimal
read_digits-decimal n rest below e =
    ap (read_digits 10 0) (decimal_digits-append 20 n [] rest)
    ∙ read_digits-decimal_digits 19 n rest (omega arith)
    ∙ read_digits-stop n rest e

-- The text starts with a digit.
pub StartsDigit : Bytes → Type 0
unfolding is_digit
StartsDigit s = is_digit 10 (get_or s 0 0) ≡ true

if-StartsDigit :
    (b : Bool) (s t : Bytes) → StartsDigit s → StartsDigit t → StartsDigit (if b then s else t)
if-StartsDigit true s t hs ht = hs
if-StartsDigit false s t hs ht = ht

digit-StartsDigit : (d : ℕ) (s : Bytes) → d < 10 → StartsDigit ((d + b'0') ∷ s)
unfolding StartsDigit
digit-StartsDigit d s below = is_digit-below below

decimal_digits-StartsDigit :
    (fuel n : ℕ) (acc : Bytes) → StartsDigit acc → StartsDigit (decimal_digits fuel n acc)
unfolding decimal_digits
decimal_digits-StartsDigit zero n acc h = h
decimal_digits-StartsDigit (suc fuel) n acc h =
    if-StartsDigit (n / 10 == 0) _ _ (digit-StartsDigit (n % 10) acc (omega arith))
      (decimal_digits-StartsDigit fuel (n / 10) _ (digit-StartsDigit (n % 10) acc (omega arith)))

decimal_digits-first : (fuel n : ℕ) (rest : Bytes) → StartsDigit (decimal_digits (suc fuel) n rest)
unfolding decimal_digits
decimal_digits-first fuel n rest =
    if-StartsDigit (n / 10 == 0) _ _ (digit-StartsDigit (n % 10) rest (omega arith))
      (decimal_digits-StartsDigit fuel (n / 10) _ (digit-StartsDigit (n % 10) rest (omega arith)))

decimal-StartsDigit : (n : ℕ) (rest : Bytes) → StartsDigit (decimal n ++ rest)
unfolding decimal
decimal-StartsDigit n rest =
    rw (decimal_digits-append 20 n [] rest) (decimal_digits-first 19 n rest)

not_special :
    (c : ℕ)
    → is_digit 10 c ≡ true
    → (isspace c ≡ false) × (((c == b'-') ≡ false) × ((c == b'+') ≡ false))
unfolding isspace is_digit
not_special c e = (ground arith, (ground arith, ground arith))

scan_byte-StartsDigit :
    (s : Bytes)
    → StartsDigit s
    → scan_byte s ≡ some (to_byte false (read_digits 10 0 s).0, (read_digits 10 0 s).1)
unfolding scan_byte scan_sign scan_digits skip_spaces StartsDigit
scan_byte-StartsDigit [] e = ground arith
scan_byte-StartsDigit (c ∷ cs) e =
    let facts = not_special c e in rw (facts.0, facts.1.0, facts.1.1, e) refl

to_byte-small : (n : ℕ) → n < 256 → to_byte false n ≡ n
unfolding to_byte
to_byte-small n below = ground arith

-- A byte printed with `%d` is read back by `%hhu`, up to what follows it.
pub scan_byte-decimal :
    (n : ℕ) (rest : Bytes)
    → n < 256
    → EndsNumber rest
    → scan_byte (decimal n ++ rest) ≡ some (n, rest)
scan_byte-decimal n rest below e =
    scan_byte-StartsDigit (decimal n ++ rest) (decimal-StartsDigit n rest)
    ∙ ap (λ (r : ℕ × Bytes). some (to_byte false r.0, r.1))
        (read_digits-decimal n rest (omega arith) e)
    ∙ ap (λ x. some (x, rest)) (to_byte-small n below)

-- The texts of numbers with commas between them, and what follows the last.
unfoldable pub listed : List ℕ → Bytes → Bytes
listed [] rest = rest
listed (n ∷ []) rest = decimal n ++ rest
listed (n ∷ m ∷ ns) rest = decimal n ++ (b',' ∷ listed (m ∷ ns) rest)

pub scan_bytes-listed :
    (n : ℕ) (ns : List ℕ) (rest : Bytes)
    → All (λ x. x < 256) (n ∷ ns)
    → EndsNumber rest
    → scan_bytes (suc (length ns)) (listed (n ∷ ns) rest) ≡ some (n ∷ ns)
unfolding scan_bytes scan_comma listed EndsNumber is_digit
scan_bytes-listed n [] rest below e = rw (scan_byte-decimal n rest below.0 e, scan_bytes) refl
scan_bytes-listed n (m ∷ ns) rest below e =
    rw
      (
        scan_byte-decimal n (b',' ∷ listed (m ∷ ns) rest) below.0 refl,
        scan_bytes-listed m ns rest below.1 e,
        scan_bytes,
      )
      refl
