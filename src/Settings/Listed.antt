-- ===== src/Settings/Listed.antt =====
-- plugin_mono/source/shellui_patch/settings_menu.c: what the list of plugins shows.
use ps4_hen_plugins.Base.{
  ◌+◌, Bool, ◌||◌, Option, none, some, List, [], ◌∷◌, ◌++◌, append-nil, ◌≡◌, sym, ◌↔◌, arith, Bytes,
  length, codes, is_positive, if◌then◌else◌,
}
use ps4_hen_plugins.Settings.Plugins.{ends_with, Prx, Item, Build, prx_path, described, no_plugins}

-- Whether a name is that of a plugin.
abbrev pub is_plugin_name : Bytes → Bool
is_plugin_name name = ends_with name (codes ".prx") || ends_with name (codes ".sprx")

module _ (new_element_data : Item → Bool) where
  abbrev pub made : Option Item → List Item
  made none = []
  made (some item) = if new_element_data item then item ∷ [] else []

  abbrev pub of_module : Bytes → Option Prx → List Item
  of_module path none = []
  of_module path (some prx) = if is_positive prx.mod_id then made (described path prx) else []

  -- From one state of the build to a later one.
  record Adds (b c : Build) (more : List Item) : Type 0 where
    loads : c.loaded ≡ b.loaded
    unloads : c.unloaded ≡ b.unloaded
    adds : c.items ≡ b.items ++ more
    counts : c.n_prx ≡ b.n_prx + length more

  record Follows (b c : Build) (more : List Item) : Type 0 where
    unloads : b.unloaded ≡ b.loaded → c.unloaded ≡ c.loaded
    adds : c.items ≡ b.items ++ more
    counts : c.n_prx ≡ b.n_prx + length more

  same : (b : Build) → Follows b b []
  same b = record { unloads = λ e. e; adds = sym (append-nil b.items); counts = omega arith }

  module _ (load_prx : Bytes → Option Prx) where
    -- The items of the plugins, in the order of the directory.
    abbrev pub of_name : Bytes → List Item
    of_name name =
        if is_plugin_name name then of_module (prx_path name) (load_prx (prx_path name)) else []

    abbrev pub listed : List Bytes → List Item
    listed [] = []
    listed (name ∷ names) = of_name name ++ listed names

    -- The modules are unloaded, the items are those of the plugins, and the notice tells of an empty list.
    pub record IsListed (names : List Bytes) (result : Build × Bytes) : Type 0 where
      pub unloads : result.0.unloaded ≡ result.0.loaded
      pub shows : result.0.items ≡ listed names
      pub notice : (result.1 ≡ no_plugins) ↔ (listed names ≡ [])
