-- ===== src/Pkg/Tests.antt =====
-- plugin_mono/source/pkg_broswer.c: the theorems at small inputs.
use ps4_hen_plugins.Base.{
  ℕ, ◌/◌, true, false, Option, none, some, List, [], ◌∷◌, ◌++◌, ◌≡◌, ◌≢◌, ◌↔◌, ◌⊎◌, refl, arith,
  if◌then◌else◌, Bytes, codes, matches, All, ℤ, pos,
}
use ps4_hen_plugins.Ftp.Format.{decimal, decimal_digits}
use ps4_hen_plugins.Pkg.Names.{
  has_pkg_ext, is_alnum, all_alnum, is_title_id, title_from, extract_title_id,
}
use ps4_hen_plugins.Pkg.Titles.{
  IsFirstTitleId, title_of, extract_title_id-IsFirstTitleId, extract_title_id-nine,
}
use ps4_hen_plugins.Pkg.Escape.{escaped, escape_from, xml_escape}
use ps4_hen_plugins.Pkg.Scan.{
  PkgEntry, directory, regular, Stat, scan_all_usb, is_skipped, full_path, add_entry, scan_file,
  scan_entry, scan_entries, scan_dir, scan_dir_recursive, scan_if_directory, scan_root, scan_alts,
  scan_drives, usb_root, usb_alt,
}
use ps4_hen_plugins.Pkg.Regular.{IsRegular, scan_all_usb-IsRegular}
use ps4_hen_plugins.Pkg.Directories.{mkdir_p, mkdir_parents, mkdir_from, cut_slash}
use ps4_hen_plugins.Pkg.Install.{
  Resolver, resolve_installer, is_regular, install_by_path, install_by_path-result,
}

abbrev game : Bytes
game = codes "game_CUSA000012.pkg"

title_found : extract_title_id game 16 ≡ codes "CUSA000012"
unfolding extract_title_id title_from is_title_id is_alnum all_alnum
title_found = refl

title_of_ten : extract_title_id (codes "x-CUSA000012.PKG") 16 ≡ codes "CUSA000012"
unfolding extract_title_id title_from is_title_id is_alnum all_alnum
title_of_ten = refl

pkg_name : has_pkg_ext (codes "x.Pkg") ≡ true
unfolding has_pkg_ext
pkg_name = refl

escaped_text : xml_escape (codes "a&b") 100 ≡ codes "a&amp;b"
unfolding xml_escape escape_from escaped
escaped_text = refl

made :
    mkdir_p (codes "/data/hen/x/")
    ≡ codes "/data" ∷ (codes "/data/hen" ∷ (codes "/data/hen/x" ∷ []))
unfolding mkdir_p mkdir_parents mkdir_from cut_slash
made = refl

extract_title_id-IsFirstTitleId_example :
    (first : Option ℕ) × (IsFirstTitleId 0 game first
      × (extract_title_id game 16 ≡ title_of game first))
extract_title_id-IsFirstTitleId_example = extract_title_id-IsFirstTitleId game

extract_title_id-nine_example : extract_title_id (codes "CUSA00001" ++ codes ".pkg") 16 ≡ []
extract_title_id-nine_example = extract_title_id-nine (codes "CUSA00001") (omega arith)

-- A drive with one package on it.
abbrev drive : Bytes
drive = codes "/mnt/usb0"

abbrev small_stat : Bytes → Option Stat
small_stat path =
    if matches path drive
    then some (record { kind = directory; size = 0 })
    else if matches path (codes "/mnt/usb0/a.pkg")
    then some (record { kind = regular; size = 5 })
    else none

abbrev small_dir : Bytes → Option (List Bytes)
small_dir path = if matches path drive then some (codes "." ∷ (codes "a.pkg" ∷ [])) else none

one_found : (scan_all_usb small_stat small_dir).count ≡ 1
unfolding scan_all_usb scan_drives scan_alts scan_root scan_if_directory scan_dir_recursive scan_dir
    scan_entries scan_entry scan_file add_entry has_pkg_ext is_skipped full_path matches usb_root
    usb_alt decimal decimal_digits
one_found = refl

scan_all_usb-IsRegular_example :
    All (IsRegular small_stat small_dir) (scan_all_usb small_stat small_dir).entries
scan_all_usb-IsRegular_example = scan_all_usb-IsRegular small_stat small_dir

-- A file system as the list of its directories.
Among : Bytes → List Bytes → Type 0
Among path [] = ⊥
Among path (d ∷ ds) = (path ≡ d) ⊎ Among path ds

abbrev add_directory : Bytes → List Bytes → List Bytes
add_directory path w = path ∷ w

abbrev small_float : ℕ → ℕ → ℕ → Bytes
small_float digits bytes unit = decimal (bytes / unit)

abbrev small_entry : PkgEntry
small_entry = record { path = codes "/mnt/usb0/a\"&.pkg"; title_id = []; size = 5000 }

abbrev small_dlsym : ℕ → Bytes → ℤ × ℕ
small_dlsym handle symbol = (pos 0, 77)

abbrev small_install : ℕ → Bytes → ℤ
small_install fn path = pos 0

abbrev untried : Resolver
untried = record { cached = 0; tried = false }

install_by_path-result_example :
    ((install_by_path small_dlsym small_stat small_install (codes "/mnt/usb0/a.pkg") untried).result
      ≡ pos 0)
    ↔ ((codes "/mnt/usb0/a.pkg" ≢ [])
        × ((is_regular small_stat (codes "/mnt/usb0/a.pkg") ≡ true)
            × (((resolve_installer small_dlsym untried).0 ≢ 0)
                × (small_install (resolve_installer small_dlsym untried).0 (codes "/mnt/usb0/a.pkg")
                    ≡ pos 0))))
install_by_path-result_example =
    install_by_path-result small_dlsym small_stat small_install (codes "/mnt/usb0/a.pkg") untried
