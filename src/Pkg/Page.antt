-- ===== src/Pkg/Page.antt =====
-- plugin_mono/source/pkg_broswer.c: the page that lists the packages.
use ps4_hen_plugins.Base.{
  ℕ, ◌+◌, ◌-◌, ◌*◌, ◌/◌, Bool, Option, none, some, List, [], ◌∷◌, ◌++◌, leb, ◌==◌, if◌then◌else◌,
  Bytes, take, codes, ℤ, pos, negsuc,
}
use ps4_hen_plugins.Ftp.Format.{decimal}
use ps4_hen_plugins.Pkg.Scan.{max_results, PkgEntry, PkgList}
use ps4_hen_plugins.Pkg.Escape.{xml_escape}
use ps4_hen_plugins.Pkg.Directories.{mkdir_p}

abbrev pub shellui_data_path : Bytes
shellui_data_path = codes "/data/hen/shellui_data"

abbrev pub pkg_page_dir : Bytes
pkg_page_dir = codes "/data/hen/shellui_data/PkgInstaller/data"

-- `if (e->title_id[0]) snprintf(title, ...)`
unfoldable pub title_text : ℕ → Bytes → Bytes
unfolding decimal
title_text i [] = take 63 (codes "PKG #" ++ decimal (i + 1))
title_text i (c ∷ title_id) = take 63 (b'[' ∷ ((c ∷ title_id) ++ codes "]"))

unfoldable pub description : Bytes → Bytes → Bytes
description path_esc size_str =
    take 3199 (codes "Install package from " ++ (path_esc ++ (codes "&#xa;Size: " ++ size_str)))

-- A quote, by its own name since the text has many.
abbrev pub quote : ℕ
quote = b'"'

unfoldable pub button_text : ℕ → Bytes → Bytes → Bytes → Bytes
unfolding decimal
button_text i title_esc desc path_esc =
    codes "    <button id="
    ++ (quote
        ∷ ((codes "pkg_" ++ decimal i)
            ++ (quote
                ∷ (codes " title="
                    ++ (quote
                        ∷ (title_esc
                            ++ (quote
                                ∷ (codes " description="
                                    ++ (quote
                                        ∷ (desc
                                            ++ (quote
                                                ∷ (codes " file="
                                                    ++ (quote
                                                        ∷ ((codes "pkg:" ++ path_esc)
                                                            ++ (quote ∷ codes "/>\n")))))))))))))))

unfoldable pub no_packages : Bytes
no_packages =
    codes
      "    <button id=\"pkg_none\" title=\"No PKGs found\" description=\"Insert a USB drive with .pkg files and reopen this page.\"/>\n"

unfoldable pub overflow_button : Bytes
unfolding decimal
overflow_button =
    codes "    <button id=\"pkg_overflow\" title=\"List truncated\" description=\"More than "
    ++ (decimal max_results
        ++ (codes " PKGs found; only the first "
            ++ (decimal max_results ++ codes " are shown.\"/>\n")))

-- `write_page`: the directories that are made, what is written where the page can be opened, and
-- the value that is returned.
pub record Written : Type 0 where
  pub directories : List Bytes
  pub contents : Option Bytes
  pub result : ℤ

unfoldable pub page_directories : List Bytes
unfolding mkdir_p
page_directories =
    mkdir_p shellui_data_path
    ++ (mkdir_p (shellui_data_path ++ codes "/PkgInstaller") ++ mkdir_p pkg_page_dir)

-- The text of a number of bytes, divided by a unit, with so many digits behind the point.
module _ (format_float : ℕ → ℕ → ℕ → Bytes) where
  -- `format_size`
  unfoldable pub format_size : ℕ → ℕ → Bytes
  unfolding decimal
  format_size bytes out_sz = take (out_sz - 1) (
      if leb (1024 * 1024 * 1024) bytes
      then format_float 2 bytes (1024 * 1024 * 1024) ++ codes " GB"
      else if leb (1024 * 1024) bytes
      then format_float 1 bytes (1024 * 1024) ++ codes " MB"
      else decimal (bytes / 1024) ++ codes " KB")

  -- A turn of the loop over the entries.
  unfoldable pub button : ℕ → PkgEntry → Bytes
  unfolding button_text title_text description format_size xml_escape
  button i e =
      let path_esc = xml_escape e.path 3072 in
      button_text i (xml_escape (title_text i e.title_id) 384)
        (description path_esc (format_size e.size 24)) path_esc

  unfoldable pub buttons : ℕ → List PkgEntry → Bytes
  unfolding button
  buttons i [] = []
  buttons i (e ∷ es) = button i e ++ buttons (i + 1) es

  unfoldable pub page_body : PkgList → Bytes
  unfolding buttons no_packages overflow_button
  page_body list =
      if list.count == 0
      then no_packages
      else buttons 0 (take list.count list.entries)
        ++ (if list.overflow then overflow_button else [])

  -- The bytes written to the page.
  unfoldable pub page : PkgList → Bytes
  unfolding page_body decimal
  page list =
      codes "<?xml version=\"1.0\" encoding=\"utf-8\" ?>\n"
      ++ (codes "<system_settings version=\"1.0\" plugin=\"settings_root_plugin\">\n"
          ++ (codes "  <setting_list id=\"pkginstaller_all_usb\" title=\""
              ++ ((226 ∷ 152 ∷ 133 ∷ [])
                  ++ (codes " USB PKGs Found ("
                      ++ (decimal list.count
                          ++ (codes ")\">\n"
                              ++ (page_body list
                                  ++ (codes "  </setting_list>\n"
                                      ++ codes "</system_settings>\n"))))))))

  unfoldable pub write_page : Bool → PkgList → Written
  unfolding page page_directories
  write_page opened list =
      if opened
      then record { directories = page_directories; contents = some (page list); result = pos 0 }
      else record { directories = page_directories; contents = none; result = negsuc 0 }
