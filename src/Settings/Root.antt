-- ===== src/Settings/Root.antt =====
-- plugin_mono/source/shellui_patch/settings_menu.c: `SetupSettingsRoot`.
use ps4_hen_plugins.Base.{
  ℕ, ◌*◌, Option, none, some, [], ◌∷◌, ◌++◌, ◌==◌, if◌then◌else◌, get_or, Bytes, codes,
}
use ps4_hen_plugins.Settings.Replace.{add_before, replace_line, str_replace}

abbrev pub max_buf : ℕ
max_buf = 8 * 1024

abbrev pub bom_header : Bytes
bom_header = 0xEF ∷ 0xBB ∷ 0xBF ∷ []

abbrev pub sandbox_link : Bytes
sandbox_link =
    codes "\t\t<link id=\"sandbox\" title=\"Sandbox\" file=\"Sandbox/sandbox.xml\" />\r\n"

-- The star is three bytes.
abbrev pub hen_link : Bytes
hen_link =
    codes "\t\t<link id=\"hen_settings\" title=\""
    ++ ((0xE2 ∷ 0x98 ∷ 0x85 ∷ [])
        ++ codes
            " HEN Settings\" file=\"hen_settings.xml\" icon=\"file:///data/hen/shellui_data/icons/hen_settings_icon.png\" />\r\n")

-- What `buf_fixed` holds afterwards, `none` only where `str_replace` does not end.
unfoldable pub setup_settings_root : Bytes → Option Bytes
unfolding str_replace
setup_settings_root xml = elim (str_replace xml sandbox_link hen_link max_buf add_before) [
  | none ↦ none
  | some buf ↦
      elim (str_replace buf (codes "initial_focus_to=\"psn\">\r\n")
        (codes "initial_focus_to=\"hen_settings\">\r\n") max_buf replace_line) [
          | none ↦ none
          | some buf2 ↦ some (bom_header ++ buf2)
        ]
]

-- In `ReadResourceStream`: the page is built once, by the first byte of `buf_fixed`.
unfoldable pub root_page : Bytes → Bytes → Option Bytes
unfolding setup_settings_root
root_page buf_fixed xml =
    if get_or buf_fixed 0 0 == 0xEF then some buf_fixed else setup_settings_root xml
