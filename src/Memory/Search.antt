-- ===== src/Memory/Search.antt =====
-- common/memory.c: the scans of a module for a value, and in the chunks of another process.
use ps4_hen_plugins.Base.{
  ℕ, zero, suc, ◌+◌, ◌-◌, ◌*◌, ◌/◌, ◌%◌, ◌^◌, ◌<◌, Bool, true, false, Option, none, some, [], ◌∷◌,
  ◌≡◌, refl, ap, ◌∙◌, arith, ◌==◌, if◌then◌else◌, Bytes, length, Lacks,
}
use ps4_hen_plugins.Memory.{Memory, little_endian, read_number}

-- `memcmp(v, value, value_sz) == 0`
unfoldable pub memcmp_at : Memory → ℕ → Bytes → Bool
memcmp_at memory addr [] = true
memcmp_at memory addr (b ∷ bs) =
    let rest = memcmp_at memory (addr + 1) bs in if memory addr == b then rest else false

-- `strncmp(currentValue, value, strlen(value)) == 0`, which stops where both texts end.
unfoldable pub strncmp_at : Memory → ℕ → Bytes → Bool
strncmp_at memory addr [] = true
strncmp_at memory addr (b ∷ bs) =
    let rest = strncmp_at memory (addr + 1) bs in
    if memory addr == b then if b == 0 then true else rest else false

-- The loop of the scans, with the number of positions that are left: the first that passes the test.
unfoldable pub first_position : (ℕ → Bool) → ℕ → ℕ → Option ℕ
first_position test i zero = none
first_position test i (suc left) =
    let rest = first_position test (suc i) left in if test i then some i else rest

-- `i < sizeOfImage - size`, on a `size_t`, which wraps round where the module is smaller.
abbrev pub positions : ℕ → ℕ → ℕ
positions size_of_image size = (size_of_image + (2 ^ 64 - size)) % 2 ^ 64

-- The scans give the position in the module, in place of its address.
unfoldable pub u64_scan : Memory → ℕ → ℕ → ℕ → Option ℕ
unfolding first_position read_number
u64_scan memory base size_of_image value =
    first_position (λ i. read_number memory (base + i) 8 == value) 0 (positions size_of_image 8)

unfoldable pub mem_scan : Memory → ℕ → ℕ → Bytes → Option ℕ
unfolding first_position memcmp_at
mem_scan memory base size_of_image value =
    first_position (λ i. memcmp_at memory (base + i) value) 0
      (positions size_of_image (length value))

unfoldable pub char_scan : Memory → ℕ → ℕ → Bytes → Option ℕ
unfolding first_position strncmp_at
char_scan memory base size_of_image value =
    first_position (λ i. strncmp_at memory (base + i) value) 0
      (positions size_of_image (length value))

-- The same test at each position gives the same result.
first_position-same :
    (p q : ℕ → Bool) (i left : ℕ)
    → ((j : ℕ) → p j ≡ q j)
    → first_position p i left ≡ first_position q i left
unfolding first_position
first_position-same p q i zero h = refl
first_position-same p q i (suc left) h = rw (h i, first_position-same p q (suc i) left h) refl

-- The bytes of a number, the lowest first, stand where it is read.
number_test :
    (m r v : ℕ) → m < 256 → ((m + 256 * r) == v) ≡ (if m == v % 256 then r == v / 256 else false)
number_test m r v h = ground arith

-- What is left of a number without its lowest bytes.
abbrev shifted : ℕ → ℕ → ℕ
shifted zero v = v
shifted (suc n) v = shifted n (v / 256)

read_number-memcmp_at :
    (memory : Memory) (n addr v : ℕ)
    → ((a : ℕ) → memory a < 256)
    → shifted n v ≡ 0
    → (read_number memory addr n == v) ≡ memcmp_at memory addr (little_endian n v)
unfolding read_number memcmp_at little_endian
read_number-memcmp_at memory zero addr v h small = ground arith
read_number-memcmp_at memory (suc n) addr v h small =
    number_test (memory addr) (read_number memory (addr + 1) n) v (h addr)
    ∙ ap (λ t. if memory addr == v % 256 then t else false)
        (read_number-memcmp_at memory n (addr + 1) (v / 256) h small)

length-little_endian : (n v : ℕ) → length (little_endian n v) ≡ n
unfolding little_endian
length-little_endian zero v = refl
length-little_endian (suc n) v = ap suc (length-little_endian n (v / 256))

-- On memory of bytes the scan for a number of 64 bits finds what the scan for its eight bytes, the
-- lowest first, finds.
pub u64_scan-mem_scan :
    (memory : Memory) (base size_of_image value : ℕ)
    → ((a : ℕ) → memory a < 256)
    → value < 2 ^ 64
    → u64_scan memory base size_of_image value
      ≡ mem_scan memory base size_of_image (little_endian 8 value)
unfolding u64_scan mem_scan
u64_scan-mem_scan memory base size_of_image value h small = rw (length-little_endian 8 value) (
    first_position-same (λ i. read_number memory (base + i) 8 == value)
      (λ i. memcmp_at memory (base + i) (little_endian 8 value)) 0 (positions size_of_image 8)
      (λ i. read_number-memcmp_at memory 8 (base + i) value h (omega arith)))

strncmp_at-memcmp_at :
    (memory : Memory) (addr : ℕ) (value : Bytes)
    → Lacks 0 value
    → strncmp_at memory addr value ≡ memcmp_at memory addr value
unfolding strncmp_at memcmp_at
strncmp_at-memcmp_at memory addr [] h = refl
strncmp_at-memcmp_at memory addr (b ∷ bs) h =
    let e : (b == 0) ≡ false = ground (arith, h.0) in
    rw (e, strncmp_at-memcmp_at memory (addr + 1) bs h.1) refl

-- The scan for a text finds what the scan for its bytes finds.
pub char_scan-mem_scan :
    (memory : Memory) (base size_of_image : ℕ) (value : Bytes)
    → Lacks 0 value
    → char_scan memory base size_of_image value ≡ mem_scan memory base size_of_image value
unfolding char_scan mem_scan
char_scan-mem_scan memory base size_of_image value h =
    first_position-same (λ i. strncmp_at memory (base + i) value)
      (λ i. memcmp_at memory (base + i) value) 0 (positions size_of_image (length value))
      (λ i. strncmp_at-memcmp_at memory (base + i) value h)
