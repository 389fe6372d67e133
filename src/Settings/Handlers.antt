-- ===== src/Settings/Handlers.antt =====
-- plugin_mono/source/shellui_patch/settings_menu.c: the handlers of the settings pages.
use ps4_hen_plugins.Base.{
  ℕ, Bool, false, not, ◌&&◌, ◌||◌, Option, none, some, List, [], ◌∷◌, ◌++◌, ◌==◌, if◌then◌else◌,
  get_or, Bytes, codes, matches,
}
use ps4_hen_plugins.Settings.StringId.{to_string_id64_a, to_string_id64_w}
use ps4_hen_plugins.Settings.Local.{System, write_setting, read_setting}

-- `ShellUIElementType`
abbrev pub button_type : ℕ
button_type = 2

abbrev pub list_type : ℕ
list_type = 5

abbrev pub toggle_switch_type : ℕ
toggle_switch_type = 8

abbrev pub message_type : ℕ
message_type = 21

-- The properties of a `SettingElement` that the handlers get.
pub record Element : Type 0 where
  pub id : Bytes
  pub value : Bytes
  pub type : ℕ

-- `g_PageID`, and the contents of the files by their paths.
pub record Menu : Type 0 where
  pub page_id : ℕ
  pub files : Bytes → Option Bytes

unfoldable pub is_valid_element_type : ℕ → Bool
is_valid_element_type type = type == list_type || type == toggle_switch_type

-- `case SID("..."):` and `case wSID(L"..."):`
unfoldable pub is_sid : Bytes → Bytes → Bool
unfolding to_string_id64_a
is_sid id text = to_string_id64_a id == to_string_id64_a text

unfoldable pub is_page : ℕ → Bytes → Bool
unfolding to_string_id64_w
is_page page_id text = page_id == to_string_id64_w text

-- The file and the section of the settings on a page.
unfoldable pub page_settings : ℕ → Option (Bytes × Bytes)
unfolding is_page
page_settings page_id =
    if is_page page_id (codes "payload_options")
    then some (codes "/data/hen/hen.ini", codes "HEN")
    else if is_page page_id (codes "id_plugin_manager")
    then some (codes "/data/hen/plugins.ini", codes "all")
    else none

-- The settings of an element, where its type has any.
unfoldable pub element_settings : Menu → Element → Option (Bytes × Bytes)
unfolding is_valid_element_type page_settings
element_settings menu element =
    if is_valid_element_type element.type then page_settings menu.page_id else none

unfoldable pub put_file : Bytes → Option Bytes → Menu → Menu
put_file path contents menu = record menu {
  files = λ p. if matches p path then contents else menu.files p;
}

-- What else a handler does: end the shell, and call the function that it replaces.
pub data Call : Type 0 where
  killed : Call
  original : Call

unfoldable pub stored_setting : System → Menu → Element → Option (Bytes × Bytes) → Menu
unfolding write_setting put_file
stored_setting sys menu element none = menu
stored_setting sys menu element (some (path, section)) =
    put_file path (write_setting sys path section element.id element.value (menu.files path)) menu

-- `NewOnPress`
unfoldable pub new_on_press : System → Menu → Element → Menu × List Call
unfolding element_settings stored_setting is_sid
new_on_press sys menu element = (
  stored_setting sys menu element (element_settings menu element),
  (if element.type == button_type && is_sid element.id (codes "id_restart_shellui")
        then killed ∷ []
        else [])
      ++ original ∷ [],
)

-- The text in `buf`, of 128 bytes, and the file behind the reading.
unfoldable pub loaded_setting : System → Menu → Element → Option (Bytes × Bytes) → Bytes × Menu
unfolding read_setting put_file
loaded_setting sys menu element none = ([], menu)
loaded_setting sys menu element (some (path, section)) =
    let (buf, file) = read_setting sys path section element.id 128 (menu.files path) in
    (buf, put_file path file menu)

-- Plugins that cannot be switched off.
unfoldable pub is_builtin : Bytes → Bool
unfolding is_sid
is_builtin id =
    is_sid id (codes "/data/hen/plugins/plugin_bootloader.prx")
    || (is_sid id (codes "/data/hen/plugins/plugin_loader.prx")
        || (is_sid id (codes "/data/hen/plugins/plugin_mono.prx")
            || (is_sid id (codes "/data/hen/plugins/plugin_server.prx")
                || is_sid id (codes "/data/hen/plugins/plugin_shellcore.prx"))))

-- The properties that a handler sets.
pub data Property : Type 0 where
  value_set : Bytes → Property
  disabled : Property
  hidden : Property
  not_busy : Property
  title_set : Bytes → Property

unfoldable pub shown_value : Bytes → List Property
shown_value [] = []
shown_value (c ∷ buf) = value_set (c ∷ buf) ∷ []

-- `NewOnPreCreate`
unfoldable pub new_on_pre_create : System → Menu → Element → Menu × List Property
unfolding element_settings loaded_setting shown_value is_builtin
new_on_pre_create sys menu element =
    let (buf, next) = loaded_setting sys menu element (element_settings menu element) in
    (next, shown_value buf ++ (if is_builtin element.id then disabled ∷ [] else []))

-- `NewOnPageActivating`: the kind of the transition and the page; `true` where the list of plugins
-- is built.
unfoldable pub new_on_page_activating : ℕ → Bytes → Menu → Menu × Bool
unfolding is_page to_string_id64_w
new_on_page_activating push id menu =
    let local_pageid = to_string_id64_w id in
    if push == 1 || push == 2
    then (
      record menu { page_id = local_pageid },
      push == 1 && is_page local_pageid (codes "id_plugin_manager"),
    )
    else (menu, false)

-- `NewOnPageDeactivating`, with `g_PluginsRunThread`; the thread that is ended, if any.
unfoldable pub new_on_page_deactivating : Bytes → Menu → ℕ → Menu × (ℕ × Option ℕ)
unfolding is_page to_string_id64_w
new_on_page_deactivating id menu thread =
    let closed = record menu { page_id = 0 } in
    if is_page (to_string_id64_w id) (codes "id_plugin_manager") && not (thread == 0)
    then (closed, (0, some thread))
    else (closed, (thread, none))

-- `NewOnConfirm`: what `skip_confirm` is, by the first byte of the value; `present` says whether
-- there is one.
unfoldable pub skip_confirm : Bool → Element → Bool
unfolding is_sid
skip_confirm present element =
    let first = get_or element.value 0 0 in
    if present && first == b'1'
    then is_sid element.id (codes "enable_plugins") || is_sid element.id (codes "block_updates")
    else if present && first == b'0'
    then is_sid element.id (codes "skip_patches")
    else false

pub data Confirmed : Type 0 where
  on_pressed : Confirmed
  on_confirm : Confirmed

unfoldable pub new_on_confirm : Bool → Bool → Element → Confirmed
unfolding skip_confirm
new_on_confirm present resolved element =
    if skip_confirm present element && resolved then on_pressed else on_confirm

unfoldable pub wait_message : Bytes → List Property
wait_message [] = hidden ∷ []
wait_message (c ∷ msg) = not_busy ∷ (title_set (c ∷ msg) ∷ [])

-- `NewOnCheckVisible`, with `g_PluginsFoundMsg`.
unfoldable pub new_on_check_visible : Bytes → Element → List Property
unfolding wait_message is_page to_string_id64_w
new_on_check_visible msg element =
    let id = to_string_id64_w element.id in
    if is_page id (codes "id_loading")
    then (if element.type == message_type then wait_message msg else [])
    else if is_page id (codes "id_restart_shellui")
    then hidden ∷ []
    else []
