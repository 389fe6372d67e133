-- ===== src/Memory/Landing.antt =====
-- common/memory.c: the target of a jump that `WriteJump32` wrote is what `ReadLEA32` reads there.
use ps4_hen_plugins.Base.{
  ℕ, ◌+◌, ◌*◌, ◌/◌, ◌%◌, ◌^◌, ◌≤◌, ◌<◌, Bool, false, ℤ, ◌≡◌, refl, ap, ◌∙◌, arith, ltb, ◌==◌, Bytes,
  get_or,
}
use ps4_hen_plugins.Memory.{Memory, write_at, little_endian, read_number, write_at_inside}
use ps4_hen_plugins.Memory.Jump.{
  sign_extend, read_lea32, relative_address, write_operation, write_jump32_pid,
}

four_bytes :
    (x a b c d : ℕ)
    → x < 2 ^ 32
    → a ≡ x % 256
    → b ≡ x / 256 % 256
    → c ≡ x / 256 / 256 % 256
    → d ≡ x / 256 / 256 / 256 % 256
    → a + 256 * (b + 256 * (c + 256 * (d + 256 * 0))) ≡ x
four_bytes x a b c d below ea eb ec ed = omega arith

read_number-little_endian :
    (memory other : Memory) (addr x : ℕ)
    → x < 2 ^ 32
    → ((at : ℕ) → memory at ≡ write_at other addr (little_endian 4 x) at)
    → read_number memory addr 4 ≡ x
unfolding read_number little_endian
read_number-little_endian memory other addr x below e =
    let known : (i a : ℕ)
        → a ≡ addr + i
        → memory a ≡ get_or (little_endian 4 x) i (other (addr + i)) =
      λ i a same.
        ap memory same ∙ e (addr + i) ∙ write_at_inside other addr i (little_endian 4 x) in
    four_bytes x _ _ _ _ below (known 0 _ (omega arith)) (known 1 _ refl) (known 2 _ (omega arith))
      (known 3 _ (omega arith))

displaced :
    (src dst : ℕ)
    → src < 2 ^ 64
    → dst < 2 ^ 64
    → src + 5 ≤ dst + 2 ^ 31
    → dst < src + 5 + 2 ^ 31
    → (src + sign_extend (relative_address src dst) + 5) % 2 ^ 64 ≡ dst
displaced src dst bs bd back ahead = ground arith

read_lea32-displaced :
    (memory : Memory) (src dst : ℕ)
    → (src == 0) ≡ false
    → src < 2 ^ 64
    → dst < 2 ^ 64
    → src + 5 ≤ dst + 2 ^ 31
    → dst < src + 5 + 2 ^ 31
    → read_number memory (1 + src) 4 ≡ relative_address src dst
    → read_lea32 memory src 0 1 5 ≡ dst
unfolding read_lea32
read_lea32-displaced memory src dst es bs bd back ahead e =
    rw (es, e) (displaced src dst bs bd back ahead)

module _ (proc_rw : ℕ → ℕ → Bytes → Memory → Memory × ℤ)
    (writes : (pid addr : ℕ) (bytes : Bytes) (memory : Memory) (at : ℕ)
      → (proc_rw pid addr bytes memory).0 at ≡ write_at memory addr bytes at) where
  -- The last call of the system puts the displacement behind the operation.
  write_jump32_pid-last :
      (pid src dst len : ℕ) (call : Bool) (memory : Memory)
      → (src == 0) ≡ false
      → (dst == 0) ≡ false
      → ltb len 5 ≡ false
      → write_jump32_pid proc_rw pid src dst len call memory
        ≡ (proc_rw pid
            (src + 1)
            (little_endian 4 (relative_address src dst))
            (write_operation proc_rw pid src len call memory)).0
  unfolding write_jump32_pid
  write_jump32_pid-last pid src dst len call memory es ed el = rw (es, ed, el) refl

  -- A jump or a call that `WriteJump32_pid` writes leads to its target: `ReadLEA32` with the
  -- arguments of `Make32to64Jmp` reads the target back from the code, if the system call writes what
  -- it is given, the addresses are not 0, there is room for the five bytes, and the target is at
  -- most 2 ^ 31 bytes before, and less than that behind, the end of the instruction.
  pub read_lea32-write_jump32_pid :
      (pid src dst len : ℕ) (call : Bool) (memory : Memory)
      → (src == 0) ≡ false
      → (dst == 0) ≡ false
      → ltb len 5 ≡ false
      → src < 2 ^ 64
      → dst < 2 ^ 64
      → src + 5 ≤ dst + 2 ^ 31
      → dst < src + 5 + 2 ^ 31
      → read_lea32 (write_jump32_pid proc_rw pid src dst len call memory) src 0 1 5 ≡ dst
  read_lea32-write_jump32_pid pid src dst len call memory es ed el bs bd back ahead =
      let opened = write_operation proc_rw pid src len call memory in
      let last = write_jump32_pid-last pid src dst len call memory es ed el in
      let behind : src + 1 ≡ 1 + src = omega arith in
      read_lea32-displaced _ src dst es bs bd back ahead (
        read_number-little_endian _ opened (1 + src) (relative_address src dst) (omega arith) (λ at.
          ap (λ m. m at) last
          ∙ writes pid (src + 1) _ opened at
          ∙ ap (λ a. write_at opened a (little_endian 4 (relative_address src dst)) at) behind))
