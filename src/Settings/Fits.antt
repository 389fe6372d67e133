-- ===== src/Settings/Fits.antt =====
-- plugin_mono/source/shellui_patch/settings_menu.c: `str_replace` keeps within its output.
use ps4_hen_plugins.Base.{ℕ, ◌≤◌, Option, none, some, ◌≡◌, Bytes, length}
use ps4_hen_plugins.Settings.Replace.{ReplaceMode, replace_loop}

module _ (search replacement : Bytes) (limit : ℕ) (mode : ReplaceMode) where
  -- What a turn leaves fits, and is shorter by a byte.
  abbrev Fits : ℕ → Option (Bytes × Bytes) → Type 0
  Fits left none = Unit
  Fits left (some (out, pos)) = (length out ≤ limit) × (length pos ≤ left)

  -- The loop ends with a text that fits.
  abbrev Ends : ℕ → Bytes → Bytes → Type 0
  Ends fuel out text =
      (r : Bytes) × ((replace_loop search replacement limit mode fuel out text ≡ some r)
        × (length r ≤ limit))
