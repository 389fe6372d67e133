-- ===== src/Memory/Hook.antt =====
-- common/memory.c: hooks of functions by copies of their first instructions in a cave.
use ps4_hen_plugins.Base.{
  ℕ, zero, suc, ◌+◌, ◌%◌, ◌^◌, Bool, true, ◌||◌, Option, none, some, List, [], ◌∷◌, ltb, ◌==◌,
  if◌then◌else◌, Bytes, ℤ, pos, negsuc, length,
}
use ps4_hen_plugins.Memory.{Memory, little_endian}
use ps4_hen_plugins.Memory.Jump.{sys_proc_memset}

-- The bytes in memory from an address on.
unfoldable pub bytes_at : Memory → ℕ → ℕ → Bytes
bytes_at memory addr zero = []
bytes_at memory addr (suc n) = memory addr ∷ bytes_at memory (addr + 1) n

-- `jmp qword ptr [$+6]`
abbrev pub jmp_stub : Bytes
jmp_stub = 0xff ∷ 0x25 ∷ 0 ∷ 0 ∷ 0 ∷ 0 ∷ []

-- The disassembler, whose result is a length, and whether its flags have an error.
module _ (hde64_disasm : Memory → ℕ → ℕ × Bool) where
  -- The loop, with the turns that the fuel allows; `none` where it does not end by then.
  unfoldable pub instruction_loop : Memory → ℕ → ℕ → ℕ → ℕ → Option ℕ
  instruction_loop memory address min_size zero size = if ltb size min_size then none else some size
  instruction_loop memory address min_size (suc fuel) size =
      let (temp, error) = hde64_disasm memory (address + size) in
      let rest = instruction_loop memory address min_size fuel (size + temp) in
      if ltb size min_size then if error then some 0 else rest else some size

  -- `GetInstructionSize`: each turn passes at least a byte, if the disassembler does.
  unfoldable pub get_instruction_size : Memory → ℕ → ℕ → Option ℕ
  unfolding instruction_loop
  get_instruction_size memory address min_size =
      if address == 0 then some 0 else instruction_loop memory address min_size min_size 0

-- The memory of the process, `caveInstSize`, and `once` of `CaveBlockInit`.
pub record Caves : Type 0 where
  pub memory : Memory
  pub cave_inst_size : ℕ
  pub once : Bool

-- `min_instruction_size`, where it is not less than 5.
unfoldable pub large_enough : ℤ → Option ℕ
large_enough (pos n) = if ltb n 5 then none else some n
large_enough (negsuc n) = none

-- `!validnateBlockSize(...)`
unfoldable pub is_too_large : ℕ → ℕ → Bool
is_too_large cave_pad_size new_size = ltb cave_pad_size new_size

-- `cavePadFunc` and `MAX_CAVE_SIZE` come from the build; `proc_rw` is as for the jumps.
module _ (proc_rw : ℕ → ℕ → Bytes → Memory → Memory × ℤ) (pid cave_pad max_cave_size : ℕ) where
  unfoldable pub cave_block_init : Caves → Caves
  unfolding sys_proc_memset
  cave_block_init caves =
      let tried = (proc_rw pid cave_pad (0xb8 ∷ 1 ∷ 0 ∷ 0 ∷ 0 ∷ 0xc3 ∷ []) caves.memory).0 in
      if caves.once then caves else record caves {
        memory = (sys_proc_memset proc_rw pid cave_pad 0xcc max_cave_size tried).0;
        once = true;
      }

  -- The instructions, the jump, and the address that it reads.
  unfoldable pub write_cave : ℕ → ℕ → ℕ → Memory → Memory
  unfolding bytes_at little_endian
  write_cave address int_size cave memory =
      let copied = (proc_rw pid cave (bytes_at memory address int_size) memory).0 in
      let jumped = (proc_rw pid (cave + int_size) jmp_stub copied).0 in
      (proc_rw pid (cave + int_size + length jmp_stub)
        (little_endian 8 ((address + int_size) % 2 ^ 64)) jumped).0

  -- Behind the size of the instructions.
  unfoldable pub hook_sized : ℕ → ℕ → Caves → ℕ × Caves
  unfolding is_too_large write_cave
  hook_sized address int_size caves =
      let cave = cave_pad + caves.cave_inst_size in
      if int_size == 0
        || is_too_large max_cave_size (caves.cave_inst_size + int_size + length jmp_stub)
      then (0, caves)
      else (
        cave,
        record caves {
          memory = write_cave address int_size cave caves.memory;
          cave_inst_size = caves.cave_inst_size + (int_size + (length jmp_stub + 8));
        },
      )

  module _ (hde64_disasm : Memory → ℕ → ℕ × Bool) where
    unfoldable pub hook_measured : ℕ → Caves → Option ℕ → Option (ℕ × Caves)
    unfolding hook_sized
    hook_measured address caves none = none
    hook_measured address caves (some int_size) = some (hook_sized address int_size caves)

    unfoldable pub hook_found : ℕ → Caves → Option ℕ → Option (ℕ × Caves)
    unfolding get_instruction_size hook_measured
    hook_found address caves none = some (0, caves)
    hook_found address caves (some min_size) =
        if address == 0
        then some (0, caves)
        else hook_measured address caves
            (get_instruction_size hde64_disasm caves.memory address min_size)

    -- `CreatePrologueHook`; `none` only where the disassembler does not pass the instructions.
    unfoldable pub create_prologue_hook : ℕ → ℤ → Caves → Option (ℕ × Caves)
    unfolding cave_block_init hook_found large_enough
    create_prologue_hook address min_instruction_size caves =
        hook_found address (cave_block_init caves) (large_enough min_instruction_size)

    -- Hooks that follow each other.
    unfoldable pub create_hooks : List (ℕ × ℤ) → Caves → Option Caves
    unfolding create_prologue_hook
    create_hooks [] caves = some caves
    create_hooks ((address, min_size) ∷ hooks) caves =
        elim (create_prologue_hook address min_size caves) [
          | none ↦ none
          | some (_, next) ↦ create_hooks hooks next
        ]
