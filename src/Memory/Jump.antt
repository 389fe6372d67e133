-- ===== src/Memory/Jump.antt =====
-- common/memory.c: writing jumps into the code of a process, and reading where they lead.
use ps4_hen_plugins.Base.{
  ℕ, zero, suc, ◌+◌, ◌-◌, ◌*◌, ◌%◌, ◌^◌, Bool, not, ◌||◌, ℤ, negsuc, [], ◌∷◌, ltb, ◌==◌,
  if◌then◌else◌, Bytes,
}
use ps4_hen_plugins.Memory.{Memory, little_endian, read_number}

-- So many bytes of one value.
unfoldable pub filled : ℕ → ℕ → Bytes
filled c zero = []
filled c (suc n) = c ∷ filled c n

-- The bits of an `int32_t` as those of a `uintptr_t`.
abbrev pub sign_extend : ℕ → ℕ
sign_extend x = if ltb x (2 ^ 31) then x else x + (2 ^ 64 - 2 ^ 32)

-- `ReadLEA32`.
unfoldable pub read_lea32 : Memory → ℕ → ℕ → ℕ → ℕ → ℕ
unfolding read_number
read_lea32 memory address offset lea_size lea_opcode_size =
    if not (address == 0)
    then ((if not (offset == 0) then offset + address else address)
        + sign_extend (read_number memory (lea_size + address) 4)
        + lea_opcode_size)
      % 2 ^ 64
    else 0

-- `((uintptr_t)dst - (uintptr_t)src) - jmpcallbytes`, cut to 32 bits.
abbrev pub relative_address : ℕ → ℕ → ℕ
relative_address src dst = (dst + (2 ^ 64 - src) + (2 ^ 64 - 5)) % 2 ^ 32

-- `proc_rw` is what the system call of `sys_proc_rw` does to the memory of a process, and returns.
module _ (proc_rw : ℕ → ℕ → Bytes → Memory → Memory × ℤ) where
  unfoldable pub sys_proc_memset : ℕ → ℕ → ℕ → ℕ → Memory → Memory × ℤ
  unfolding filled
  sys_proc_memset pid src c len memory =
      if ltb (8 * 1024) len
      then (memory, negsuc 0)
      else proc_rw pid src (filled (c % 256) len) memory

  -- The padding and the operation.
  unfoldable pub write_operation : ℕ → ℕ → ℕ → Bool → Memory → Memory
  unfolding sys_proc_memset
  write_operation pid src len call memory =
      let padded = if not (len == 5) then (sys_proc_memset pid src 0x90 len memory).0 else memory in
      (proc_rw pid src ((if call then 0xe8 else 0xe9) ∷ []) padded).0

  unfoldable pub write_jump32_pid : ℕ → ℕ → ℕ → ℕ → Bool → Memory → Memory
  unfolding write_operation little_endian
  write_jump32_pid pid src dst len call memory =
      if src == 0 || dst == 0 || ltb len 5
      then memory
      else (proc_rw pid (src + 1) (little_endian 4 (relative_address src dst))
          (write_operation pid src len call memory)).0

  unfoldable pub write_jump64_pid : ℕ → ℕ → ℕ → Memory → Memory
  unfolding little_endian
  write_jump64_pid pid src dst memory =
      let stubbed = (proc_rw pid src (0xff ∷ 0x25 ∷ 0 ∷ 0 ∷ 0 ∷ 0 ∷ []) memory).0 in
      (proc_rw pid (src + 6) (little_endian 8 dst) stubbed).0
