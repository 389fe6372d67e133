-- ===== src/Settings.antt =====
-- plugin_mono/source/shellui_patch/settings_menu.c: the settings of the shell.
pub mod Replace
pub mod Matches
pub mod Replaced
pub mod Fits
pub mod StringId
pub mod Local
pub mod Root
pub mod Handlers
pub mod Shown
pub mod Plugins
pub mod Listed
mod Shelf
pub mod Tests
