-- ===== src/Memory.antt =====
-- common/memory.c: bytes of memory by address, and numbers in little-endian order.
pub mod Pattern
pub mod Jump
pub mod First
pub mod Landing
pub mod Search
pub mod Place
pub mod Hook
pub mod Code
pub mod Trampoline
pub mod Hooks
mod Scans
mod Tests
use ps4_hen_plugins.Base.{
  ℕ, zero, suc, ◌+◌, ◌-◌, ◌*◌, ◌/◌, ◌%◌, ◌≡◌, [], ◌∷◌, arith, ltb, Bytes, if◌then◌else◌, get_or,
  false, refl,
}

-- The byte at each address.
abbrev pub Memory : Type 0
Memory = ℕ → ℕ

-- The memory with these bytes from an address on.
unfoldable pub write_at : Memory → ℕ → Bytes → Memory
write_at memory addr bytes x = if ltb x addr then memory x else get_or bytes (x - addr) (memory x)

-- The lowest bytes of a number, the lowest first, and the number that stands in memory so.
unfoldable pub little_endian : ℕ → ℕ → Bytes
little_endian zero x = []
little_endian (suc n) x = (x % 256) ∷ little_endian n (x / 256)

unfoldable pub read_number : Memory → ℕ → ℕ → ℕ
read_number memory addr zero = 0
read_number memory addr (suc n) = memory addr + 256 * read_number memory (addr + 1) n

pub write_at_inside :
    (memory : Memory) (addr i : ℕ) (bytes : Bytes)
    → write_at memory addr bytes (addr + i) ≡ get_or bytes i (memory (addr + i))
unfolding write_at
write_at_inside memory addr i bytes =
    let behind : ltb (addr + i) addr ≡ false = ground arith in
    let index : addr + i - addr ≡ i = omega arith in rw (behind, index) refl
