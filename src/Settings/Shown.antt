-- ===== src/Settings/Shown.antt =====
-- plugin_mono/source/shellui_patch/settings_menu.c: a setting that is changed is shown again.
use ps4_hen_plugins.Base.{Option, none, some, ◌≡◌, refl, Bytes}
use ps4_hen_plugins.Settings.Local.{System}
use ps4_hen_plugins.Settings.Handlers.{Element, Menu, put_file, stored_setting}

stored_setting-page_id :
    (sys : System) (menu : Menu) (element : Element) (o : Option (Bytes × Bytes))
    → (stored_setting sys menu element o).page_id ≡ menu.page_id
unfolding stored_setting put_file
stored_setting-page_id sys menu element none = refl
stored_setting-page_id sys menu element (some (path, section)) = refl
