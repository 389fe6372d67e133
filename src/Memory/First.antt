-- ===== src/Memory/First.antt =====
-- common/memory.c: `PatternScan` finds the first place that the pattern fits.
use mathlib.Core.Path.{subst}
use ps4_hen_plugins.Base.{
  ℕ, zero, suc, ◌+◌, ◌≤◌, ◌<◌, Bool, true, false, not, ◌&&◌, Option, none, some, [], ◌∷◌, ◌≡◌, refl,
  sym, ◌∙◌, ◌⊎◌, ◌↔◌, inl, inr, arith, leb, ◌==◌, if◌then◌else◌, Bytes, length, get_or, Bool-cases,
}
use ps4_hen_plugins.Memory.{Memory}
use ps4_hen_plugins.Memory.Pattern.{match_at, scan_from, scan_result, pattern_scan, pattern_to_byte}

-- At this address stand the bytes of the pattern, but for its wildcards.
pub record IsMatch (memory : Memory) (addr : ℕ) (pattern : Bytes) : Type 0 where
  pub byte_fits :
      (i : ℕ)
      → i < length pattern
      → (memory (addr + i) ≡ get_or pattern i 0) ⊎ (get_or pattern i 0 ≡ 0xff)

head_fits :
    (x b : ℕ) (rest : Bool)
    → ((if not (x == b) && not (b == 0xff) then false else rest) ≡ true)
      ↔ (((x ≡ b) ⊎ (b ≡ 0xff)) × (rest ≡ true))
head_fits x b rest = ground arith

add_zero : (n : ℕ) → n + 0 ≡ n
add_zero n = omega arith

add_suc : (n i : ℕ) → n + suc i ≡ n + 1 + i
add_suc n i = omega arith

IsMatch-cons :
    (memory : Memory) (addr b : ℕ) (bs : Bytes)
    → (memory addr ≡ b) ⊎ (b ≡ 0xff)
    → IsMatch memory (addr + 1) bs
    → IsMatch memory addr (b ∷ bs)
IsMatch-cons memory addr b bs first rest = record { byte_fits = fits }
  where
    fits :
        (i : ℕ)
        → i < suc (length bs)
        → (memory (addr + i) ≡ get_or (b ∷ bs) i 0) ⊎ (get_or (b ∷ bs) i 0 ≡ 0xff)
    fits zero below = rw (add_zero addr) first
    fits (suc i) below = rw (add_suc addr i) (rest.byte_fits i (omega arith))

IsMatch-rest :
    (memory : Memory) (addr b : ℕ) (bs : Bytes)
    → IsMatch memory addr (b ∷ bs)
    → IsMatch memory (addr + 1) bs
IsMatch-rest memory addr b bs h = record {
  byte_fits = λ i below. rw (← add_suc addr i) (h.byte_fits (suc i) (omega arith));
}

IsMatch-first :
    (memory : Memory) (addr b : ℕ) (bs : Bytes)
    → IsMatch memory addr (b ∷ bs)
    → (memory addr ≡ b) ⊎ (b ≡ 0xff)
IsMatch-first memory addr b bs h = rw (add_zero addr) at (h.byte_fits 0 (omega arith))

-- The inner loop decides whether the pattern fits.
match_at_iff :
    (memory : Memory) (addr : ℕ) (pattern : Bytes)
    → (match_at memory addr pattern ≡ true) ↔ IsMatch memory addr pattern
unfolding match_at
match_at_iff memory addr [] = (λ h. record { byte_fits = λ i below. ground arith }, λ h. refl)
match_at_iff memory addr (b ∷ bs) =
    let rest = match_at_iff memory (addr + 1) bs in
    let head = head_fits (memory addr) b (match_at memory (addr + 1) bs) in
    (
      λ h. IsMatch-cons memory addr b bs (head.0 h).0 (rest.0 (head.0 h).1),
      λ h. head.1 (IsMatch-first memory addr b bs h, rest.1 (IsMatch-rest memory addr b bs h)),
    )

-- What a scan of so many positions from `i` on gives: nothing where the pattern fits nowhere, or
-- the first position where it does.
unfoldable pub IsFirstMatch : Memory → ℕ → Bytes → ℕ → ℕ → Option ℕ → Type 0
IsFirstMatch memory base pattern i size none =
    (j : ℕ) → i ≤ j → j < i + size → ¬ IsMatch memory (base + j) pattern
IsFirstMatch memory base pattern i size (some p) =
    (i ≤ p)
    × ((p < i + size)
        × (IsMatch memory (base + p) pattern
            × ((j : ℕ) → i ≤ j → j < p → ¬ IsMatch memory (base + j) pattern)))

truth_clash : false ≡ true → ⊥
truth_clash e = absurd (ground arith)

here_or_later : (i j : ℕ) → i ≤ j → (i ≡ j) ⊎ (suc i ≤ j)
here_or_later i j low = omega arith

-- Where the pattern does not fit at `i`, the first match from there is the first one behind it.
none_before :
    (memory : Memory) (base : ℕ) (pattern : Bytes) (i end : ℕ)
    → ¬ IsMatch memory (base + i) pattern
    → ((j : ℕ) → suc i ≤ j → j < end → ¬ IsMatch memory (base + j) pattern)
    → (j : ℕ) → i ≤ j
    → j < end
    → ¬ IsMatch memory (base + j) pattern
none_before memory base pattern i end misses later j low high m = elim (here_or_later i j low) [
  | inl same ↦ misses (subst (λ n. IsMatch memory (base + n) pattern) (sym same) m)
  | inr more ↦ later j more high m
]

IsFirstMatch-later :
    (memory : Memory) (base : ℕ) (pattern : Bytes) (i left : ℕ) (o : Option ℕ)
    → ¬ IsMatch memory (base + i) pattern
    → IsFirstMatch memory base pattern (suc i) left o
    → IsFirstMatch memory base pattern i (suc left) o
unfolding IsFirstMatch
IsFirstMatch-later memory base pattern i left none misses h =
    none_before memory base pattern i (i + suc left) misses (λ j low high. h j low (omega arith))
IsFirstMatch-later memory base pattern i left (some p) misses h = (
  omega (arith, h.0),
  (omega (arith, h.1.0), (h.1.1.0, none_before memory base pattern i p misses h.1.1.1)),
)

scan_from-IsFirstMatch :
    (memory : Memory) (base : ℕ) (pattern : Bytes) (i left : ℕ)
    → IsFirstMatch memory base pattern i left (scan_from memory base pattern i left)
unfolding scan_from IsFirstMatch
scan_from-IsFirstMatch memory base pattern i zero = λ j low high. absurd (omega arith)
scan_from-IsFirstMatch memory base pattern i (suc left) =
    elim (Bool-cases (match_at memory (base + i) pattern)) [
      | inl e ↦ rw e (
        omega arith,
        (
          omega arith,
          ((match_at_iff memory (base + i) pattern).0 e, λ j low high. absurd (omega arith)),
        ),
      )
      | inr e ↦ rw e (
          IsFirstMatch-later memory base pattern i left (scan_from memory base pattern (suc i) left)
            (λ m. truth_clash ((sym e) ∙ (match_at_iff memory (base + i) pattern).1 m))
            (scan_from-IsFirstMatch memory base pattern (suc i) left))
    ]

-- The scan gives the first address in the module at which the pattern that the signature stands for
-- fits, with the offset added, and 0 where it fits nowhere, if the base and the size are not 0 and
-- the pattern has at least one byte and less than 512. The sum is taken modulo 2 ^ 64.
pub pattern_scan-IsFirstMatch :
    (memory : Memory) (base size offset : ℕ) (signature : Bytes)
    → (base == 0) ≡ false
    → (size == 0) ≡ false
    → 0 < length (pattern_to_byte signature)
    → length (pattern_to_byte signature) < 512
    → (first : Option ℕ) × (IsFirstMatch memory base (pattern_to_byte signature) 0 size first
        × (pattern_scan memory base size signature offset ≡ scan_result base offset first))
unfolding pattern_scan
pattern_scan-IsFirstMatch memory base size offset signature eb es some_bytes few_bytes =
    let pattern = pattern_to_byte signature in
    let enough : (length pattern == 0) ≡ false = ground arith in
    let fits : leb 512 (length pattern) ≡ false = ground arith in
    (
      scan_from memory base pattern 0 size,
      (scan_from-IsFirstMatch memory base pattern 0 size, rw (eb, es, enough, fits) refl),
    )
