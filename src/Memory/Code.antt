-- ===== src/Memory/Code.antt =====
-- common/memory.c: the pages of a process, and the patches that are found by scans.
use ps4_hen_plugins.Base.{
  ℕ, zero, suc, ◌+◌, ◌-◌, ◌*◌, ◌/◌, ◌%◌, ◌^◌, Bool, true, false, not, ◌&&◌, ◌||◌, Option, none,
  some, List, [], ◌∷◌, ◌==◌, if◌then◌else◌, Bytes, ℤ, pos, negsuc, codes,
}
use ps4_hen_plugins.Memory.{Memory, write_at, little_endian, read_number}
use ps4_hen_plugins.Memory.Pattern.{pattern_scan}
use ps4_hen_plugins.Memory.Jump.{read_lea32, write_jump32_pid, write_jump64_pid}
use ps4_hen_plugins.Memory.Search.{u64_scan, char_scan}

-- The fields that are read of an entry that `sysctl` gives.
pub record VmEntry : Type 0 where
  pub type : ℕ
  pub start_addr : ℕ
  pub end_addr : ℕ
  pub prot : ℕ

-- The variables of the loop.
pub record CodeSearch : Type 0 where
  pub valid : Bool
  pub idx : ℕ
  pub first_addr : ℕ

-- The entry that starts at `addrstart` starts the count.
unfoldable pub at_entry : ℕ → CodeSearch → VmEntry → CodeSearch
at_entry addrstart s e =
    if not (addrstart == 0) && e.start_addr == addrstart
    then record { valid = true; idx = 0; first_addr = e.start_addr }
    else s

-- `goto next`, or the test of the entry.
unfoldable pub is_wanted : ℕ → ℕ → CodeSearch → VmEntry → Bool
is_wanted addrstart page_idx s e =
    if s.first_addr == 0 && not (addrstart == 0)
    then false
    else s.valid && s.idx == page_idx
      || page_idx == 0 && (e.type == 9 && (e.prot == 4 || e.prot == 5))

unfoldable pub code_loop : ℕ → ℕ → CodeSearch → List VmEntry → Option (ℕ × ℕ)
unfolding at_entry is_wanted
code_loop addrstart page_idx s [] = none
code_loop addrstart page_idx s (e ∷ es) =
    let here = at_entry addrstart s e in
    let rest = code_loop addrstart page_idx (record here { idx = (here.idx + 1) % 2 ^ 32 }) es in
    if is_wanted addrstart page_idx here e
    then some (e.start_addr, (e.end_addr + (2 ^ 64 - e.start_addr)) % 2 ^ 64)
    else rest

abbrev pub code_start : CodeSearch
code_start = record { valid = false; idx = 0; first_addr = 0 }

-- What `sysctl` gives: the size, where it is asked for that, and the entries; and `malloc`.
pub record VmInfo : Type 0 where
  pub size : Option ℕ
  pub malloc : Bool
  pub entries : Option (List VmEntry)

unfoldable pub code_result : Option (ℕ × ℕ) → ℤ × Option (ℕ × ℕ)
code_result none = (negsuc 4, none)
code_result (some page) = (pos 0, some page)

unfoldable pub code_entries : ℕ → ℕ → Option (List VmEntry) → ℤ × Option (ℕ × ℕ)
unfolding code_loop code_result
code_entries addrstart page_idx none = (negsuc 3, none)
code_entries addrstart page_idx (some entries) =
    code_result (code_loop addrstart page_idx code_start entries)

-- `get_code_info`: its result, and the address and size of the page.
unfoldable pub get_code_info : VmInfo → ℕ → ℕ → ℤ × Option (ℕ × ℕ)
unfolding code_entries
get_code_info info addrstart page_idx = elim info.size [
  | none ↦ (negsuc 0, none)
  | some size ↦
      if size == 0
      then (negsuc 1, none)
      else if not info.malloc
      then (negsuc 2, none)
      else code_entries addrstart page_idx info.entries
]

-- The chunks of another process: `read` is what the system call gives of its memory, and the buffer
-- stands at `mem` in the memory of this one.
module _ (read : ℕ → ℕ → Bytes) (mem : ℕ) where
  -- The address in the other process of what is found in the chunk.
  unfoldable pub chunk_found : ℕ → ℕ → Bytes → ℕ → Memory → ℕ
  unfolding pattern_scan write_at
  chunk_found mem_start i pattern pattern_offset memory =
      let chunk_start = (mem_start + i) % 2 ^ 64 in
      let filled = write_at memory mem (read chunk_start (8 * 1024)) in
      let found_pattern = pattern_scan filled mem (8 * 1024) pattern pattern_offset in
      if found_pattern == 0 then 0 else (chunk_start + (found_pattern + (2 ^ 64 - mem))) % 2 ^ 64

  -- The loop, with the number of chunks that are left.
  unfoldable pub chunk_loop : ℕ → ℕ → ℕ → Bytes → ℕ → Memory → ℕ
  unfolding chunk_found
  chunk_loop zero mem_start i pattern pattern_offset memory = 0
  chunk_loop (suc left) mem_start i pattern pattern_offset memory =
      let found = chunk_found mem_start i pattern pattern_offset memory in
      let rest = chunk_loop left mem_start (i + 8 * 1024) pattern pattern_offset memory in
      if not (found == 0) then found else rest

  -- `pid_chunk_scan`: the loop goes on while `i < mem_sz - chunk_size`, which wraps round.
  unfoldable pub pid_chunk_scan : ℕ → ℕ → Bytes → ℕ → Memory → ℕ
  unfolding chunk_loop
  pid_chunk_scan mem_start mem_sz pattern pattern_offset memory =
      let limit = (mem_sz + (2 ^ 64 - 8 * 1024)) % 2 ^ 64 in
      chunk_loop ((limit + (8 * 1024 - 1)) / (8 * 1024)) mem_start 0 pattern pattern_offset memory

-- The places where code is patched, in the memory of this process.
module _ (proc_rw : ℕ → ℕ → Bytes → Memory → Memory × ℤ) (pid : ℕ) where
  -- Room for a jump of 64 bits between the functions of a module.
  unfoldable pub jump_area : ℕ → ℕ → Memory → ℕ
  unfolding pattern_scan
  jump_area textbase textsz memory =
      let first =
        pattern_scan memory textbase textsz
          (codes "0f 0b 90 90 90 90 90 90 90 90 90 90 90 90 90 90") 2 in
      if not (first == 0)
      then first
      else pattern_scan memory textbase textsz
          (codes "c3 66 66 66 66 66 66 2e 0f 1f 84 00 00 00 00 00") 1

  -- `Make32to64Jmp`, and the target that was there, where it is asked for.
  unfoldable pub make32to64_jmp : ℕ → ℕ → ℕ → ℕ → ℕ → Bool → Bool → Memory → Memory × Option ℕ
  unfolding jump_area read_lea32 write_jump32_pid write_jump64_pid
  make32to64_jmp textbase textsz src dst srclen call want memory =
      let jmparea = jump_area textbase textsz memory in
      let jumped = write_jump32_pid proc_rw pid src jmparea srclen call memory in
      if jmparea == 0 then (memory, none) else (
        write_jump64_pid proc_rw pid jmparea dst jumped,
        if want then some (read_lea32 memory src 0 1 5) else none,
      )

  -- `PatchCall_Internal`, on the first segment of a module.
  unfoldable pub patch_call_internal : ℕ → ℕ → Bytes → ℕ → ℕ → Bool → Memory → Memory × Option ℕ
  unfolding pattern_scan make32to64_jmp
  patch_call_internal start_addr start_size p offset target want memory =
      let call = pattern_scan memory start_addr start_size p offset in
      if call == 0
      then (memory, none)
      else make32to64_jmp start_addr start_size call target 5 true want memory

  -- The entry of the table behind the pointer to the name.
  unfoldable pub patch_entry : ℕ → ℕ → Option ℕ → Memory → Memory × Option ℕ
  unfolding little_endian read_number
  patch_entry p_page dest_call none memory = (memory, none)
  patch_entry p_page dest_call (some i) memory = (
    (proc_rw pid (p_page + i + 8) (little_endian 8 dest_call) memory).0,
    some (read_number memory (p_page + i + 8) 8),
  )

  unfoldable pub patch_page : ℕ → ℕ → ℤ × Option (ℕ × ℕ) → Memory → Memory × Option ℕ
  unfolding patch_entry u64_scan
  patch_page mono_sym dest_call (_, none) memory = (memory, none)
  patch_page mono_sym dest_call (_, some (p_page, p_size)) memory =
      patch_entry p_page dest_call (u64_scan memory p_page p_size mono_sym) memory

  -- `PatchInternalCallList`: the memory, and the target that the call had.
  unfoldable pub patch_internal_call_list : VmInfo → ℕ → ℕ → Bytes → ℕ → Memory → Memory × Option ℕ
  unfolding char_scan get_code_info patch_page
  patch_internal_call_list info textbase textsz target_symbol dest_call memory =
      elim (char_scan memory textbase textsz target_symbol) [
        | none ↦ (memory, none)
        | some i ↦ patch_page (textbase + i) dest_call (get_code_info info textbase 1) memory
      ]
