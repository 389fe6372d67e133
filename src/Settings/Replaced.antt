-- ===== src/Settings/Replaced.antt =====
-- plugin_mono/source/shellui_patch/settings_menu.c: what `str_replace` writes, and that it ends.
use ps4_hen_plugins.Base.{ℕ, ◌+◌, ◌<◌, some, ◌++◌, ◌≡◌, Bytes, length}
use ps4_hen_plugins.Settings.Replace.{ReplaceMode, replace_loop}
use ps4_hen_plugins.Settings.Matches.{Replaced}

module _ (search replacement : Bytes) (limit : ℕ) (mode : ReplaceMode) where
  -- What the loop makes of the rest of the text, given that it has the fuel and the room.
  pub record Writes (fuel : ℕ) (out text : Bytes) : Type 0 where
    pub all : Bytes
    pub replaced : Replaced search replacement mode text all
    pub written :
        length out + length all + 1 < limit
        → replace_loop search replacement limit mode fuel out text ≡ some (out ++ all)
