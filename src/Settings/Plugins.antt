-- ===== src/Settings/Plugins.antt =====
-- plugin_mono/source/shellui_patch/settings_menu.c: the list of plugins; common/file.c: `endsWith`.
use ps4_hen_plugins.Base.{
  ℕ, ◌+◌, ◌-◌, Bool, true, false, ◌||◌, Option, none, some, List, [], ◌∷◌, ◌++◌, ltb, leb, ◌&&◌,
  ◌==◌, if◌then◌else◌, length, drop, take, Bytes, codes, ℤ, is_positive,
}

-- `toupper`
unfoldable pub to_upper : ℕ → ℕ
to_upper c = if leb b'a' c && leb c b'z' then c - 32 else c

-- The loop of `endsWith`, on texts of the same length.
unfoldable pub same_upper : Bytes → Bytes → Bool
unfolding to_upper
same_upper [] b = true
same_upper (x ∷ a) [] = false
same_upper (x ∷ a) (y ∷ b) =
    let rest = same_upper a b in if to_upper x == to_upper y then rest else false

-- `endsWith`: whether it gives a position.
unfoldable pub ends_with : Bytes → Bytes → Bool
unfolding same_upper
ends_with a b =
    if ltb (length a) (length b) then false else same_upper (drop (length a - length b) a) b

-- A module that was loaded, with the texts behind its symbols, `none` where there is no symbol.
pub record Prx : Type 0 where
  pub mod_id : ℤ
  pub g_plugin_name : Option Bytes
  pub g_plugin_desc : Option Bytes
  pub g_plugin_auth : Option Bytes
  pub g_plugin_version : Option Bytes

pub record Item : Type 0 where
  pub item_id : Bytes
  pub item_title : Bytes
  pub item_desc : Bytes

-- The calls so far: the modules that were loaded and unloaded, and the items that were added; and
-- `nPrx`.
pub record Build : Type 0 where
  pub loaded : List ℤ
  pub unloaded : List ℤ
  pub items : List Item
  pub n_prx : ℕ

abbrev pub user_plugin_path : Bytes
user_plugin_path = codes "/data/hen/plugins"

-- `snprintf` into 260 bytes, of which it is given 259.
unfoldable pub prx_path : Bytes → Bytes
prx_path filename = take 258 (user_plugin_path ++ b'/' ∷ filename)

-- `snprintf` into 4096 bytes, of which it is given 4095.
unfoldable pub plugin_item : Bytes → Bytes → Bytes → Bytes → Item
plugin_item path name description auth = record {
  item_id = path;
  item_title = name;
  item_desc = take 4094 (
      codes "Path: "
      ++ (path ++ (codes "\nAuthor: " ++ (auth ++ (codes "\nDescription: " ++ description)))));
}

-- The item of a module with all four symbols.
unfoldable pub described : Bytes → Prx → Option Item
unfolding plugin_item
described path prx = elim prx.g_plugin_name [
  | none ↦ none
  | some name ↦ elim prx.g_plugin_desc [
    | none ↦ none
    | some description ↦ elim prx.g_plugin_auth [
      | none ↦ none
      | some auth ↦ elim prx.g_plugin_version [
        | none ↦ none
        | some version ↦ some (plugin_item path name description auth)
      ]
    ]
  ]
]

abbrev pub unable : Bytes
unable = codes "Unable to open `/data/hen/plugins`."

abbrev pub no_plugins : Bytes
no_plugins = codes "No plugins found."

abbrev pub nothing_built : Build
nothing_built = record { loaded = []; unloaded = []; items = []; n_prx = 0 }

-- Whether the shell makes an element of an item.
module _ (new_element_data : Item → Bool) where
  unfoldable pub add_item : Option Item → Build → Build
  add_item none build = build
  add_item (some item) build =
      if new_element_data item
      then record build { items = build.items ++ item ∷ []; n_prx = build.n_prx + 1 }
      else build

  unfoldable pub with_module : Bytes → Option Prx → Build → Build
  unfolding add_item described
  with_module path none build = build
  with_module path (some prx) build =
      let shown =
        add_item (described path prx) (record build { loaded = build.loaded ++ prx.mod_id ∷ [] }) in
      if is_positive prx.mod_id
      then record shown { unloaded = shown.unloaded ++ prx.mod_id ∷ [] }
      else build

  -- What the loader gives for a path, `none` where it fails.
  module _ (load_prx : Bytes → Option Prx) where
    unfoldable pub with_entry : Bytes → Build → Build
    unfolding with_module ends_with prx_path
    with_entry filename build =
        if ends_with filename (codes ".prx") || ends_with filename (codes ".sprx")
        then with_module (prx_path filename) (load_prx (prx_path filename)) build
        else build

    -- `while ((entry = readdir(dp)))`
    unfoldable pub with_entries : List Bytes → Build → Build
    unfolding with_entry
    with_entries [] build = build
    with_entries (filename ∷ names) build = with_entries names (with_entry filename build)

    -- `RunPluginsBuild`, on the names in the directory, `none` where it cannot be opened: the calls
    -- and `g_PluginsFoundMsg`.
    unfoldable pub run_plugins_build : Option (List Bytes) → Build × Bytes
    unfolding with_entries
    run_plugins_build none = (nothing_built, unable)
    run_plugins_build (some names) =
        let build = with_entries names nothing_built in
        (build, if build.n_prx == 0 then no_plugins else [])
