-- ===== src/Pkg.antt =====
-- plugin_mono/source/pkg_broswer.c: the browser for packages on USB drives.
pub mod Names
pub mod Titles
pub mod Escape
pub mod Scan
pub mod Extends
pub mod Turns
pub mod Found
pub mod Regular
pub mod Directories
pub mod Page
pub mod Attributes
pub mod Install
pub mod Browser
pub mod Tests
