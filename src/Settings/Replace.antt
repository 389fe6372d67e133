-- ===== src/Settings/Replace.antt =====
-- plugin_mono/source/shellui_patch/settings_menu.c: `str_replace`, and the patched root page.
use ps4_hen_plugins.Base.{
  ℕ, zero, suc, ◌+◌, ◌-◌, ◌%◌, ◌^◌, Bool, true, false, Option, none, some, [], ◌∷◌, ◌++◌, leb, ltb,
  ◌==◌, if◌then◌else◌, Bytes, length, take, drop,
}

-- `ReplaceMode`
pub data ReplaceMode : Type 0 where
  replace_match : ReplaceMode
  add_before : ReplaceMode
  add_after : ReplaceMode
  replace_line : ReplaceMode

-- `strncmp(pos, search, strlen(search)) == 0`
unfoldable pub starts_with : Bytes → Bytes → Bool
starts_with [] pos = true
starts_with (c ∷ search) [] = false
starts_with (c ∷ search) (x ∷ pos) =
    let rest = starts_with search pos in if x == c then rest else false

-- The text from `line_end` on.
unfoldable pub line_rest : Bytes → Bytes
line_rest [] = []
line_rest (c ∷ pos) = let rest = line_rest pos in if c == b'\n' then c ∷ pos else rest

-- Behind the line the loop goes on after its newline, if it has one.
unfoldable pub replaced_line : Bytes → Bytes → Bytes × Bytes
replaced_line out [] = (out, [])
replaced_line out (c ∷ rest) = (out ++ c ∷ [], rest)

-- The loop, with `output_size - 1` as `limit`, which leaves it where there is no room.
module _ (search replacement : Bytes) (limit : ℕ) (mode : ReplaceMode) where
  -- The cases of the `switch`: the output and `pos` behind a match, or `goto done`.
  unfoldable pub replace_at : ReplaceMode → Bytes → Bytes → Option (Bytes × Bytes)
  unfolding line_rest replaced_line
  replace_at replace_match out pos =
      if leb limit (length out + length replacement)
      then none
      else some (out ++ replacement, drop (length search) pos)
  replace_at add_before out pos =
      if leb limit (length out + length replacement + length search)
      then none
      else some ((out ++ replacement) ++ take (length search) pos, drop (length search) pos)
  replace_at add_after out pos =
      if leb limit (length out + length search + length replacement)
      then none
      else some ((out ++ take (length search) pos) ++ replacement, drop (length search) pos)
  replace_at replace_line out pos =
      if leb limit (length out + length replacement + 1)
      then none
      else some (replaced_line (out ++ replacement) (line_rest pos))

  -- A turn of the loop at a byte that is not the end.
  unfoldable pub replace_step : Bytes → ℕ → Bytes → Option (Bytes × Bytes)
  unfolding replace_at starts_with
  replace_step out c pos =
      if ltb (length out) limit
      then if starts_with search (c ∷ pos)
        then replace_at mode out (c ∷ pos)
        else some (out ++ c ∷ [], pos)
      else none

  -- The turns that the fuel allows; `none` where it does not end by then.
  unfoldable pub replace_loop : ℕ → Bytes → Bytes → Option Bytes
  unfolding replace_step
  replace_loop fuel out [] = some out
  replace_loop zero out (c ∷ pos) = none
  replace_loop (suc fuel) out (c ∷ pos) = elim (replace_step out c pos) [
    | none ↦ some out
    | some (out', pos') ↦ replace_loop fuel out' pos'
  ]

-- `str_replace`: each turn passes at least a byte, if what is searched for has one.
unfoldable pub str_replace : Bytes → Bytes → Bytes → ℕ → ReplaceMode → Option Bytes
unfolding replace_loop
str_replace input search replacement output_size mode =
    replace_loop search replacement ((output_size + (2 ^ 64 - 1)) % 2 ^ 64) mode (length input) []
      input
