-- ===== src/Memory/Scans.antt =====
-- common/memory.c: the theorems on scans and hooks at small inputs.
use ps4_hen_plugins.Base.{
  ℕ, ◌%◌, ◌<◌, Bool, true, false, some, [], ◌∷◌, ◌≡◌, refl, arith, Bytes, ℤ, pos,
}
use ps4_hen_plugins.Memory.{Memory, write_at, little_endian}
use ps4_hen_plugins.Memory.Search.{memcmp_at, first_position, u64_scan, mem_scan, u64_scan-mem_scan}
use ps4_hen_plugins.Memory.Place.{IsFirstPlace, mem_scan-IsFirstPlace}
use ps4_hen_plugins.Memory.Hook.{Caves, write_cave}
use ps4_hen_plugins.Memory.Trampoline.{Trampoline}

-- A module of bytes that repeat.
abbrev cycle : Memory
cycle a = a % 7

cycle_byte : (a : ℕ) → cycle a < 256
cycle_byte a = omega arith

bytes_found : mem_scan cycle 0 20 (3 ∷ 4 ∷ []) ≡ some 3
unfolding mem_scan first_position memcmp_at
bytes_found = refl

u64_scan-mem_scan_example :
    u64_scan cycle 0 20 0x0605040302010003
    ≡ mem_scan cycle 0 20 (little_endian 8 0x0605040302010003)
u64_scan-mem_scan_example = u64_scan-mem_scan cycle 0 20 0x0605040302010003 cycle_byte (omega arith)

mem_scan-IsFirstPlace_example :
    IsFirstPlace cycle 0 20 (3 ∷ 4 ∷ []) (mem_scan cycle 0 20 (3 ∷ 4 ∷ []))
mem_scan-IsFirstPlace_example =
    mem_scan-IsFirstPlace cycle 0 20 (3 ∷ 4 ∷ []) (omega arith) (omega arith)

-- A disassembler of a machine whose instructions have three bytes.
abbrev three_bytes : Memory → ℕ → ℕ × Bool
three_bytes memory addr = (3, false)

abbrev plain_rw : ℕ → ℕ → Bytes → Memory → Memory × ℤ
plain_rw pid addr bytes memory = (write_at memory addr bytes, pos 0)

-- The cave is at 1000, of 64 bytes, and is set up.
abbrev fresh : Caves
fresh = record { memory = cycle; cave_inst_size = 0; once = true }

abbrev hooked : Caves
hooked = record {
  memory = write_cave plain_rw 7 1000 64 100 6 1000 cycle;
  cave_inst_size = 20;
  once = true;
}

abbrev hooked_again : Caves
hooked_again = record {
  memory = write_cave plain_rw 7 1000 64 200 6 1020 hooked.memory;
  cave_inst_size = 40;
  once = true;
}
