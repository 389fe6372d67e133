-- ===== src/Pkg/Browser.antt =====
-- plugin_mono/source/pkg_broswer.c: the entry points, on the list that the last scan left.
use ps4_hen_plugins.Base.{
  ℕ, Bool, true, Option, List, ◌++◌, ◌≡◌, ap, ◌∙◌, if◌then◌else◌, min, Bytes, length, length-take,
}
use ps4_hen_plugins.Pkg.Scan.{PkgList, Stat, scan_all_usb, drive_numbers}
use ps4_hen_plugins.Pkg.Found.{found_roots, drive_roots, scan_all_usb-found}
use ps4_hen_plugins.Pkg.Page.{Written, write_page, page_directories}

-- `g_last_scan` and `g_has_scanned`.
pub record Browser : Type 0 where
  pub last_scan : PkgList
  pub has_scanned : Bool

-- `PkgBrowser_GetLastCount`
unfoldable pub get_last_count : Browser → ℕ
get_last_count b = if b.has_scanned then b.last_scan.count else 0

module _ (stat : Bytes → Option Stat) (read_dir : Bytes → Option (List Bytes))
    (format_float : ℕ → ℕ → ℕ → Bytes) where
  -- `PkgBrowser_Refresh`, where the page can be opened or not.
  unfoldable pub refresh : Bool → Browser → Browser × Written
  unfolding scan_all_usb write_page
  refresh opened b =
      let list = scan_all_usb stat read_dir in
      (record { last_scan = list; has_scanned = true }, write_page format_float opened list)

  -- `PkgBrowser_Init`, with all the directories that it makes.
  unfoldable pub init : Bool → Browser → Browser × Written
  unfolding refresh page_directories
  init opened b =
      let (next, written) = refresh opened b in
      (next, record written { directories = page_directories ++ written.directories })

  -- After a scan the count is that of the packages on the drives, or 1024 if there are more.
  pub get_last_count-refresh :
      (opened : Bool) (b : Browser)
      → get_last_count (refresh opened b).0
        ≡ min 1024 (length (found_roots stat read_dir (drive_roots drive_numbers)))
  unfolding get_last_count refresh
  get_last_count-refresh opened b =
      let found = scan_all_usb-found stat read_dir in
      found.1.0
      ∙ (ap length found.0
          ∙ length-take 1024 (found_roots stat read_dir (drive_roots drive_numbers)))
