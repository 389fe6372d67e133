-- ===== src/Memory/Hooks.antt =====
-- common/memory.c: the trampolines of hooks that follow each other, and the size of instructions.
use ps4_hen_plugins.Base.{ℕ, ◌+◌, ◌≤◌, Bool, false, ◌≡◌, ◌≢◌, Bytes, ℤ}
use ps4_hen_plugins.Memory.{Memory, write_at}
use ps4_hen_plugins.Memory.Hook.{Caves}
use ps4_hen_plugins.Memory.Trampoline.{Trampoline, Advances, Hooks}

-- The disassembler passes 1 to 15 bytes where it finds no error.
pub record Passes (hde64_disasm : Memory → ℕ → ℕ × Bool) : Type 0 where
  pub at_least :
      (memory : Memory) (addr : ℕ)
      → (hde64_disasm memory addr).1 ≡ false
      → 1 ≤ (hde64_disasm memory addr).0
  pub at_most :
      (memory : Memory) (addr : ℕ)
      → (hde64_disasm memory addr).1 ≡ false
      → (hde64_disasm memory addr).0 ≤ 15

-- Whole instructions of at least the size asked for, with at most 14 bytes more, or nothing.
pub data IsSize (min_size : ℕ) : ℕ → Type 0 where
  refused : IsSize min_size 0
  covers : {n : ℕ} → min_size ≤ n → n ≤ min_size + 14 → IsSize min_size n

module _ (proc_rw : ℕ → ℕ → Bytes → Memory → Memory × ℤ) (pid cave_pad max_cave_size : ℕ)
    (writes : (pid' addr : ℕ) (bytes : Bytes) (memory : Memory) (at : ℕ)
      → (proc_rw pid' addr bytes memory).0 at ≡ write_at memory addr bytes at)
    (hde64_disasm : Memory → ℕ → ℕ × Bool) where
  -- The caves advance, and a hook that is given has some size.
  record Found (address : ℕ) (caves : Caves) (r : ℕ × Caves) : Type 0 where
    advances : Advances proc_rw pid cave_pad max_cave_size writes caves r.1
    hooks :
        r.0 ≢ 0
        → (int_size : ℕ) × Hooks proc_rw pid cave_pad max_cave_size writes address int_size caves
            r.0 r.1
