-- ===== src/Memory/Trampoline.antt =====
-- common/memory.c: a hook leaves a trampoline that later hooks keep.
use ps4_hen_plugins.Base.{
  ℕ, zero, suc, ◌+◌, ◌-◌, ◌/◌, ◌%◌, ◌^◌, ◌≤◌, ◌<◌, true, false, ◌||◌, [], ◌∷◌, ◌≡◌, ◌≢◌, refl, ap,
  ◌∙◌, inl, inr, arith, ltb, ◌==◌, Bytes, ℤ, length, get_or, Bool-cases,
}
use ps4_hen_plugins.Memory.{Memory, write_at, little_endian, write_at_inside}
use ps4_hen_plugins.Memory.Hook.{bytes_at, jmp_stub, Caves, is_too_large, write_cave, hook_sized}

get_or-short : (s : Bytes) (i d e : ℕ) → i < length s → get_or s i d ≡ get_or s i e
get_or-short [] i d e h = elim h [ ]
get_or-short (x ∷ s) zero d e h = refl
get_or-short (x ∷ s) (suc i) d e h = get_or-short s i d e (omega arith)

get_or-behind : (s : Bytes) (i d : ℕ) → length s ≤ i → get_or s i d ≡ d
get_or-behind [] i d h = refl
get_or-behind (x ∷ s) zero d h = elim h [ ]
get_or-behind (x ∷ s) (suc i) d h = get_or-behind s i d (omega arith)

write_at_before :
    (memory : Memory) (addr at : ℕ) (bytes : Bytes)
    → at < addr
    → write_at memory addr bytes at ≡ memory at
unfolding write_at
write_at_before memory addr at bytes h = let e : ltb at addr ≡ true = ground arith in rw e refl

write_at_behind :
    (memory : Memory) (addr at : ℕ) (bytes : Bytes)
    → addr + length bytes ≤ at
    → write_at memory addr bytes at ≡ memory at
unfolding write_at
write_at_behind memory addr at bytes h =
    let e : ltb at addr ≡ false = ground arith in
    rw e (get_or-behind bytes (at - addr) (memory at) (omega arith))

pub length-bytes_at : (memory : Memory) (addr n : ℕ) → length (bytes_at memory addr n) ≡ n
unfolding bytes_at
length-bytes_at memory addr zero = refl
length-bytes_at memory addr (suc n) = ap suc (length-bytes_at memory (addr + 1) n)

length-little_endian : (n v : ℕ) → length (little_endian n v) ≡ n
unfolding little_endian
length-little_endian zero v = refl
length-little_endian (suc n) v = ap suc (length-little_endian n (v / 256))

-- These bytes stand in memory.
pub record HasBytes (memory : Memory) (addr : ℕ) (bytes : Bytes) : Type 0 where
  pub each : (i : ℕ) → i < length bytes → memory (addr + i) ≡ get_or bytes i 0

-- A copy of instructions with a jump behind it to this address.
pub record Trampoline (memory : Memory) (cave : ℕ) (instructions : Bytes) (target : ℕ)
    : Type 0 where
  pub copied : HasBytes memory cave instructions
  pub jumps : HasBytes memory (cave + length instructions) jmp_stub
  pub lands : HasBytes memory (cave + length instructions + 6) (little_endian 8 target)

HasBytes-kept :
    (memory memory' : Memory) (addr end : ℕ) (bytes : Bytes)
    → ((at : ℕ) → at < end → memory' at ≡ memory at)
    → addr + length bytes ≤ end
    → HasBytes memory addr bytes
    → HasBytes memory' addr bytes
HasBytes-kept memory memory' addr end bytes same within h = record {
  each = λ i below. same (addr + i) (omega arith) ∙ h.each i below;
}

-- A trampoline below an address up to which the memory is the same.
pub Trampoline-kept :
    (memory memory' : Memory) (cave end : ℕ) (instructions : Bytes) (target : ℕ)
    → ((at : ℕ) → at < end → memory' at ≡ memory at)
    → cave + length instructions + 14 ≤ end
    → Trampoline memory cave instructions target
    → Trampoline memory' cave instructions target
Trampoline-kept memory memory' cave end instructions target same within h = record {
  copied = HasBytes-kept memory memory' cave end instructions same (omega arith) h.copied;
  jumps =
      HasBytes-kept memory memory' (cave + length instructions) end jmp_stub same (omega arith)
        h.jumps;
  lands =
      HasBytes-kept memory memory' (cave + length instructions + 6) end (little_endian 8 target)
        same (omega (arith, length-little_endian 8 target)) h.lands;
}

module _ (proc_rw : ℕ → ℕ → Bytes → Memory → Memory × ℤ) (pid cave_pad max_cave_size : ℕ)
    (writes : (pid' addr : ℕ) (bytes : Bytes) (memory : Memory) (at : ℕ)
      → (proc_rw pid' addr bytes memory).0 at ≡ write_at memory addr bytes at) where
  wrote :
      (addr i : ℕ) (bytes : Bytes) (memory : Memory)
      → i < length bytes
      → (proc_rw pid addr bytes memory).0 (addr + i) ≡ get_or bytes i 0
  wrote addr i bytes memory h =
      writes pid addr bytes memory (addr + i)
      ∙ write_at_inside memory addr i bytes
      ∙ get_or-short bytes i (memory (addr + i)) 0 h

  kept_before :
      (addr at : ℕ) (bytes : Bytes) (memory : Memory)
      → at < addr
      → (proc_rw pid addr bytes memory).0 at ≡ memory at
  kept_before addr at bytes memory h =
      writes pid addr bytes memory at ∙ write_at_before memory addr at bytes h

  HasBytes-proc_rw :
      (addr : ℕ) (bytes : Bytes) (memory : Memory)
      → HasBytes (proc_rw pid addr bytes memory).0 addr bytes
  HasBytes-proc_rw addr bytes memory = record { each = λ i h. wrote addr i bytes memory h }

  HasBytes-later :
      (addr next : ℕ) (bytes more : Bytes) (memory : Memory)
      → addr + length bytes ≤ next
      → HasBytes memory addr bytes
      → HasBytes (proc_rw pid next more memory).0 addr bytes
  HasBytes-later addr next bytes more memory h k =
      HasBytes-kept memory (proc_rw pid next more memory).0 addr next bytes
        (λ at below. kept_before next at more memory below) h k

  write_cave-Trampoline :
      (address int_size cave : ℕ) (memory : Memory)
      → Trampoline
          (write_cave proc_rw pid cave_pad max_cave_size address int_size cave memory)
          cave
          (bytes_at memory address int_size)
          ((address + int_size) % 2 ^ 64)
  unfolding write_cave
  write_cave-Trampoline address int_size cave memory =
      let code = bytes_at memory address int_size in
      let e = length-bytes_at memory address int_size in
      let copied = (proc_rw pid cave code memory).0 in
      let jumped = (proc_rw pid (cave + int_size) jmp_stub copied).0 in
      let target = little_endian 8 ((address + int_size) % 2 ^ 64) in
      record {
        copied = HasBytes-later cave (cave + int_size + 6) code target jumped (omega (arith, e)) (
            HasBytes-later cave (cave + int_size) code jmp_stub copied (omega (arith, e))
              (HasBytes-proc_rw cave code memory));
        jumps = rw e (
            HasBytes-later (cave + int_size) (cave + int_size + 6) jmp_stub target jumped
              (omega arith) (HasBytes-proc_rw (cave + int_size) jmp_stub copied));
        lands = rw e (HasBytes-proc_rw (cave + int_size + 6) target jumped);
      }

  -- What happens to the caves: the memory in front of what is free stays, and that only grows.
  pub record Advances (caves next : Caves) : Type 0 where
    pub kept : (at : ℕ) → at < cave_pad + caves.cave_inst_size → next.memory at ≡ caves.memory at
    pub grows : caves.cave_inst_size ≤ next.cave_inst_size
    pub stays : caves.once ≡ true → next.once ≡ true

  pub Advances-refl : (caves : Caves) → Advances caves caves
  Advances-refl caves = record { kept = λ at h. refl; grows = omega arith; stays = λ e. e }

  pub Advances-trans : (a b c : Caves) → Advances a b → Advances b c → Advances a c
  Advances-trans a b c h k = record {
    kept = λ at below. k.kept at (omega (arith, h.grows)) ∙ h.kept at below;
    grows = omega (arith, h.grows, k.grows);
    stays = λ e. k.stays (h.stays e);
  }

  write_cave_before :
      (address int_size cave at : ℕ) (memory : Memory)
      → at < cave
      → write_cave proc_rw pid cave_pad max_cave_size address int_size cave memory at ≡ memory at
  unfolding write_cave
  write_cave_before address int_size cave at memory h =
      kept_before (cave + int_size + 6) at (little_endian 8 ((address + int_size) % 2 ^ 64)) _
        (omega arith)
      ∙ kept_before (cave + int_size) at jmp_stub _ (omega arith)
      ∙ kept_before cave at (bytes_at memory address int_size) memory h

  -- What a hook leaves, at the address that it gives.
  pub record Hooks (address int_size : ℕ) (caves : Caves) (cave : ℕ) (next : Caves) : Type 0 where
    pub placed : cave ≡ cave_pad + caves.cave_inst_size
    pub counted : next.cave_inst_size ≡ caves.cave_inst_size + (int_size + 14)
    pub bounded : next.cave_inst_size ≤ max_cave_size + 8
    pub trampoline :
        Trampoline next.memory cave
          (bytes_at caves.memory address int_size)
          ((address + int_size) % 2 ^ 64)

  -- A refused hook changes nothing.
  pub record Sized (address int_size : ℕ) (caves : Caves) (r : ℕ × Caves) : Type 0 where
    pub advances : Advances caves r.1
    pub hooks : r.0 ≢ 0 → Hooks address int_size caves r.0 r.1

  pub hook_sized-Sized :
      (address int_size : ℕ) (caves : Caves)
      → Sized address int_size caves
          (hook_sized proc_rw pid cave_pad max_cave_size address int_size caves)
  unfolding hook_sized is_too_large
  hook_sized-Sized address int_size caves =
      elim (Bool-cases
        (int_size == 0 || is_too_large max_cave_size (caves.cave_inst_size + int_size + 6))) [
          | inl e ↦ rw e (record { advances = Advances-refl caves; hooks = λ h. absurd (h refl) })
          | inr e ↦ rw e (record {
            advances = record {
              kept = λ at below.
                  write_cave_before address int_size (cave_pad + caves.cave_inst_size) at
                    caves.memory below;
              grows = omega arith;
              stays = λ o. o;
            };
            hooks = λ h. record {
              placed = refl;
              counted = refl;
              bounded = ground arith;
              trampoline =
                  write_cave-Trampoline address int_size (cave_pad + caves.cave_inst_size)
                    caves.memory;
            };
          })
        ]
