-- ===== src/Memory/Place.antt =====
-- common/memory.c: what the scans of a module for bytes find.
use ps4_hen_plugins.Base.{
  ℕ, zero, suc, ◌+◌, ◌^◌, ◌≤◌, ◌<◌, Bool, true, false, Option, none, some, [], ◌∷◌, ◌≡◌, refl, sym,
  ap, ◌∙◌, ◌⊎◌, ◌↔◌, inl, inr, arith, ◌==◌, Bytes, length, get_or, Bool-cases,
}
use ps4_hen_plugins.Memory.{Memory}
use ps4_hen_plugins.Memory.Search.{memcmp_at, first_position, positions, mem_scan}

-- These bytes stand at this address.
pub record Stands (memory : Memory) (addr : ℕ) (value : Bytes) : Type 0 where
  pub each : (i : ℕ) → i < length value → memory (addr + i) ≡ get_or value i 0

add_zero : (n : ℕ) → n + 0 ≡ n
add_zero n = omega arith

add_suc : (n i : ℕ) → n + suc i ≡ n + 1 + i
add_suc n i = omega arith

Stands-cons :
    (memory : Memory) (addr b : ℕ) (bs : Bytes)
    → memory addr ≡ b
    → Stands memory (addr + 1) bs
    → Stands memory addr (b ∷ bs)
Stands-cons memory addr b bs first rest = record { each = each }
  where
    each : (i : ℕ) → i < suc (length bs) → memory (addr + i) ≡ get_or (b ∷ bs) i 0
    each zero below = rw (add_zero addr) first
    each (suc i) below = rw (add_suc addr i) (rest.each i (omega arith))

Stands-first :
    (memory : Memory) (addr b : ℕ) (bs : Bytes) → Stands memory addr (b ∷ bs) → memory addr ≡ b
Stands-first memory addr b bs h = rw (add_zero addr) at (h.each 0 (omega arith))

Stands-rest :
    (memory : Memory) (addr b : ℕ) (bs : Bytes)
    → Stands memory addr (b ∷ bs)
    → Stands memory (addr + 1) bs
Stands-rest memory addr b bs h = record {
  each = λ i below. rw (← add_suc addr i) (h.each (suc i) (omega arith));
}

truth_clash : false ≡ true → ⊥
truth_clash e = absurd (ground arith)

pub memcmp_at_iff :
    (memory : Memory) (addr : ℕ) (value : Bytes)
    → (memcmp_at memory addr value ≡ true) ↔ Stands memory addr value
unfolding memcmp_at
memcmp_at_iff memory addr [] = (λ e. record { each = λ i below. absurd (omega arith) }, λ h. refl)
memcmp_at_iff memory addr (b ∷ bs) =
    let rest = memcmp_at_iff memory (addr + 1) bs in
    elim (Bool-cases (memory addr == b)) [
      | inl e ↦ rw e (
        λ t. Stands-cons memory addr b bs (ground arith) (rest.0 t),
        λ h. rest.1 (Stands-rest memory addr b bs h),
      )
      | inr e ↦ rw e (
        λ t. absurd (truth_clash t),
        λ h. let same = Stands-first memory addr b bs h in ground arith,
      )
    ]

-- The first position from `i` on, of so many, that passes a test, or that there is none.
unfoldable pub IsFirstPosition : (ℕ → Bool) → ℕ → ℕ → Option ℕ → Type 0
IsFirstPosition test i left none = (j : ℕ) → i ≤ j → j < i + left → test j ≡ false
IsFirstPosition test i left (some p) =
    (i ≤ p) × ((p < i + left) × ((test p ≡ true) × ((j : ℕ) → i ≤ j → j < p → test j ≡ false)))

here_or_later : (i j : ℕ) → i ≤ j → (i ≡ j) ⊎ (suc i ≤ j)
here_or_later i j low = omega arith

none_before :
    (test : ℕ → Bool) (i end : ℕ)
    → test i ≡ false
    → ((j : ℕ) → suc i ≤ j → j < end → test j ≡ false)
    → (j : ℕ) → i ≤ j
    → j < end
    → test j ≡ false
none_before test i end misses later j low high = elim (here_or_later i j low) [
  | inl same ↦ (ap test (sym same)) ∙ misses
  | inr more ↦ later j more high
]

IsFirstPosition-later :
    (test : ℕ → Bool) (i left : ℕ) (o : Option ℕ)
    → test i ≡ false
    → IsFirstPosition test (suc i) left o
    → IsFirstPosition test i (suc left) o
unfolding IsFirstPosition
IsFirstPosition-later test i left none misses h =
    none_before test i (i + suc left) misses (λ j low high. h j low (omega arith))
IsFirstPosition-later test i left (some p) misses h =
    (omega (arith, h.0), (omega (arith, h.1.0), (h.1.1.0, none_before test i p misses h.1.1.1)))

pub first_position-IsFirstPosition :
    (test : ℕ → Bool) (i left : ℕ) → IsFirstPosition test i left (first_position test i left)
unfolding first_position IsFirstPosition
first_position-IsFirstPosition test i zero = λ j low high. absurd (omega arith)
first_position-IsFirstPosition test i (suc left) = elim (Bool-cases (test i)) [
  | inl e ↦ rw e (omega arith, (omega arith, (e, λ j low high. absurd (omega arith))))
  | inr e ↦ rw e (
      IsFirstPosition-later test i left (first_position test (suc i) left) e
        (first_position-IsFirstPosition test (suc i) left))
]

-- The first place in a module at which the bytes stand and end before its last byte, or that there
-- is no such place.
unfoldable pub IsFirstPlace : Memory → ℕ → ℕ → Bytes → Option ℕ → Type 0
IsFirstPlace memory base size value none =
    (j : ℕ) → j + length value < size → ¬ Stands memory (base + j) value
IsFirstPlace memory base size value (some p) =
    (p + length value < size)
    × (Stands memory (base + p) value × ((j : ℕ) → j < p → ¬ Stands memory (base + j) value))

misses :
    (memory : Memory) (addr : ℕ) (value : Bytes)
    → memcmp_at memory addr value ≡ false
    → ¬ Stands memory addr value
misses memory addr value e h = truth_clash ((sym e) ∙ (memcmp_at_iff memory addr value).1 h)

IsFirstPosition-IsFirstPlace :
    (memory : Memory) (base size count : ℕ) (value : Bytes) (o : Option ℕ)
    → count + length value ≡ size
    → IsFirstPosition (λ i. memcmp_at memory (base + i) value) 0 count o
    → IsFirstPlace memory base size value o
unfolding IsFirstPosition IsFirstPlace
IsFirstPosition-IsFirstPlace memory base size count value none e h =
    λ j fits. misses memory (base + j) value (h j (omega arith) (omega arith))
IsFirstPosition-IsFirstPlace memory base size count value (some p) e h = (
  omega (arith, h.1.0),
  (
    (memcmp_at_iff memory (base + p) value).0 h.1.1.0,
    λ j before. misses memory (base + j) value (h.1.1.1 j (omega arith) before),
  ),
)

-- In a module that is not smaller than the bytes the scan gives the first place at which they stand,
-- of those that end before the last byte of the module, and nothing where there is none.
pub mem_scan-IsFirstPlace :
    (memory : Memory) (base size : ℕ) (value : Bytes)
    → length value ≤ size
    → size < 2 ^ 64
    → IsFirstPlace memory base size value (mem_scan memory base size value)
unfolding mem_scan
mem_scan-IsFirstPlace memory base size value fits small =
    let count : positions size (length value) + length value ≡ size = omega arith in
    IsFirstPosition-IsFirstPlace memory base size (positions size (length value)) value
      (first_position (λ i. memcmp_at memory (base + i) value) 0 (positions size (length value)))
      count
      (first_position-IsFirstPosition (λ i. memcmp_at memory (base + i) value) 0
        (positions size (length value)))
