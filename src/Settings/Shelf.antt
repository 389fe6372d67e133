-- ===== src/Settings/Shelf.antt =====
-- plugin_mono/source/shellui_patch/settings_menu.c: the list of plugins of a small directory.
use ps4_hen_plugins.Base.{
  true, Option, none, some, List, [], ◌∷◌, ◌≡◌, refl, if◌then◌else◌, length, Bytes, codes, matches,
  pos,
}
use ps4_hen_plugins.Settings.Plugins.{
  to_upper, same_upper, ends_with, Prx, described, plugin_item, prx_path, add_item, with_module,
  with_entry, with_entries, run_plugins_build,
}

-- Only the module of this path has all four symbols.
abbrev loader : Bytes → Option Prx
loader path = some (record {
  mod_id = pos (length path);
  g_plugin_name = some (codes "Hello");
  g_plugin_desc = some (codes "Greets");
  g_plugin_auth =
      if matches path (codes "/data/hen/plugins/a.PRX") then some (codes "Me") else none;
  g_plugin_version = some (codes "1");
})

abbrev names : List Bytes
names = codes "." ∷ codes "a.PRX" ∷ codes "b.sprx" ∷ codes "c.txt" ∷ []

two_unloaded : (run_plugins_build (λ _. true) loader (some names)).0.unloaded ≡ pos 23 ∷ pos 24 ∷ []
unfolding run_plugins_build with_entries with_entry with_module add_item described ends_with
    same_upper to_upper prx_path plugin_item matches
two_unloaded = refl
