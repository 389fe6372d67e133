-- ===== src/Memory/Tests.antt =====
-- common/memory.c: the theorems at small memories.
use ps4_hen_plugins.Base.{
  ℕ, [], ◌∷◌, ◌≡◌, refl, arith, Bytes, codes, get_or, ℤ, pos, true, Option, ◌-◌,
}
use ps4_hen_plugins.Memory.{Memory, write_at}
use ps4_hen_plugins.Memory.Pattern.{pattern_to_byte, pattern_scan, scan_result}
use ps4_hen_plugins.Memory.First.{IsFirstMatch, pattern_scan-IsFirstMatch}
use ps4_hen_plugins.Memory.Jump.{read_lea32, write_jump32_pid}
use ps4_hen_plugins.Memory.Landing.{read_lea32-write_jump32_pid}

-- A module of six bytes at address 16.
abbrev code_bytes : Memory
code_bytes x = get_or (0x55 ∷ 0x0f ∷ 0x10 ∷ 0x0f ∷ 0x20 ∷ 0x90 ∷ []) (x - 16) 0

pattern_bytes_example : pattern_to_byte (codes "0f ?? 90") ≡ 0x0f ∷ 0xff ∷ 0x90 ∷ []
unfolding pattern_to_byte
pattern_bytes_example = refl

pattern_scan_example : pattern_scan code_bytes 16 6 (codes "0f ?? 90") 2 ≡ 21
unfolding pattern_scan
pattern_scan_example = refl

pattern_scan-IsFirstMatch_example :
    (first : Option ℕ) × (IsFirstMatch code_bytes 16 (pattern_to_byte (codes "0f ? 90")) 0 6 first
      × (pattern_scan code_bytes 16 6 (codes "0f ? 90") 2 ≡ scan_result 16 2 first))
unfolding pattern_to_byte
pattern_scan-IsFirstMatch_example =
    pattern_scan-IsFirstMatch code_bytes 16 6 2 (codes "0f ? 90") refl refl (omega arith)
      (omega arith)

abbrev proc_rw : ℕ → ℕ → Bytes → Memory → Memory × ℤ
proc_rw pid addr bytes memory = (write_at memory addr bytes, pos 0)

read_lea32-write_jump32_pid_example :
    read_lea32 (write_jump32_pid proc_rw 7 0x400010 0x400000 6 true code_bytes) 0x400010 0 1 5
    ≡ 0x400000
read_lea32-write_jump32_pid_example =
    read_lea32-write_jump32_pid proc_rw (λ _ _ _ _ _. refl) 7 0x400010 0x400000 6 true code_bytes
      refl refl refl (omega arith) (omega arith) (omega arith) (omega arith)
