-- ===== src/Pkg/Scan.antt =====
-- plugin_mono/source/pkg_broswer.c: the scan of the USB drives for packages.
use ps4_hen_plugins.Base.{
  ℕ, zero, suc, ◌+◌, ◌-◌, Bool, true, false, ◌||◌, Option, none, some, List, [], ◌∷◌, ◌++◌, leb,
  if◌then◌else◌, Bytes, take, codes, matches,
}
use ps4_hen_plugins.Ftp.Format.{decimal}
use ps4_hen_plugins.Pkg.Names.{has_pkg_ext, extract_title_id}

abbrev pub max_results : ℕ
max_results = 1024

abbrev pub max_path_len : ℕ
max_path_len = 512

abbrev pub max_depth : ℕ
max_depth = 12

-- `pkg_entry_t`
pub record PkgEntry : Type 0 where
  pub path : Bytes
  pub title_id : Bytes
  pub size : ℕ

-- `pkg_list_t`, with the entries up to `count`.
pub record PkgList : Type 0 where
  pub entries : List PkgEntry
  pub count : ℕ
  pub overflow : Bool

-- What `S_ISDIR` and `S_ISREG` tell of a file.
pub data FileKind : Type 0 where
  directory : FileKind
  regular : FileKind
  special : FileKind

pub record Stat : Type 0 where
  pub kind : FileKind
  pub size : ℕ

abbrev pub empty_list : PkgList
empty_list = record { entries = []; count = 0; overflow = false }

unfoldable pub is_skipped : Bytes → Bool
is_skipped name =
    matches name (codes ".")
    || (matches name (codes "..")
        || (matches name (codes ".git") || matches name (codes "node_modules")))

unfoldable pub full_path : Bytes → Bytes → Bytes
full_path dir name = take (max_path_len - 1) (dir ++ b'/' ∷ name)

unfoldable pub new_entry : Bytes → Bytes → ℕ → PkgEntry
unfolding extract_title_id
new_entry full name size = record {
  path = take (max_path_len - 1) full;
  title_id = extract_title_id name 16;
  size = size;
}

-- The entries of a directory that is being read; `true` where the loop is left.
unfoldable pub add_entry : Bytes → Bytes → ℕ → PkgList → PkgList × Bool
unfolding new_entry
add_entry full name size list =
    if leb max_results list.count then (record list { overflow = true }, true) else (
      record list {
        entries = list.entries ++ new_entry full name size ∷ [];
        count = list.count + 1;
      },
      false,
    )

-- What the loop does with a file of this kind and size.
unfoldable pub scan_file :
    (Bytes → PkgList → PkgList) → Bytes → Bytes → FileKind → ℕ → PkgList → PkgList × Bool
unfolding has_pkg_ext add_entry
scan_file deeper full name directory size list = (deeper full list, false)
scan_file deeper full name regular size list =
    if has_pkg_ext name then add_entry full name size list else (list, false)
scan_file deeper full name special size list = (list, false)

-- `for (int i = 0; i <= 7; i++)`
abbrev pub drive_numbers : List ℕ
drive_numbers = 0 ∷ 1 ∷ 2 ∷ 3 ∷ 4 ∷ 5 ∷ 6 ∷ 7 ∷ []

unfoldable pub usb_root : ℕ → Bytes
unfolding decimal
usb_root i = codes "/mnt/usb" ++ decimal i

unfoldable pub usb_alt : ℕ → ℕ → Bytes
unfolding usb_root decimal
usb_alt i j = usb_root i ++ b'.' ∷ decimal j

-- The calls of `stat`, and of `opendir` with `readdir` to the end, on the drives.
module _ (stat : Bytes → Option Stat) (read_dir : Bytes → Option (List Bytes)) where
  unfoldable pub scan_entry : (Bytes → PkgList → PkgList) → Bytes → Bytes → PkgList → PkgList × Bool
  unfolding scan_file is_skipped full_path
  scan_entry deeper dir name list =
      if is_skipped name then (list, false) else elim (stat (full_path dir name)) [
        | none ↦ (list, false)
        | some st ↦ scan_file deeper (full_path dir name) name st.kind st.size list
      ]

  unfoldable pub scan_entries : (Bytes → PkgList → PkgList) → Bytes → List Bytes → PkgList → PkgList
  unfolding scan_entry
  scan_entries deeper dir [] list = list
  scan_entries deeper dir (name ∷ names) list =
      let (next, stop) = scan_entry deeper dir name list in
      let rest = scan_entries deeper dir names next in if stop then next else rest

  -- `scan_dir_recursive`, with so many levels left from `depth` to the deepest, which bound it.
  unfoldable pub scan_dir : ℕ → Bytes → PkgList → PkgList
  unfolding scan_entries
  scan_dir zero dir list = list
  scan_dir (suc left) dir list =
      if leb max_results list.count then record list { overflow = true } else elim (read_dir dir) [
        | none ↦ list
        | some names ↦ scan_entries (scan_dir left) dir names list
      ]

  unfoldable pub scan_dir_recursive : Bytes → PkgList → ℕ → PkgList
  unfolding scan_dir
  scan_dir_recursive dir list depth = scan_dir (max_depth + 1 - depth) dir list

  unfoldable pub scan_if_directory : Bytes → FileKind → PkgList → PkgList
  unfolding scan_dir_recursive
  scan_if_directory root directory list = scan_dir_recursive root list 0
  scan_if_directory root regular list = list
  scan_if_directory root special list = list

  unfoldable pub scan_root : Bytes → PkgList → PkgList
  unfolding scan_if_directory
  scan_root root list = elim (stat root) [
    | none ↦ list
    | some st ↦ scan_if_directory root st.kind list
  ]

  unfoldable pub scan_alts : ℕ → List ℕ → PkgList → PkgList
  unfolding scan_root usb_alt
  scan_alts i [] list = list
  scan_alts i (j ∷ js) list = scan_alts i js (scan_root (usb_alt i j) list)

  unfoldable pub scan_drives : List ℕ → PkgList → PkgList
  unfolding scan_alts scan_root usb_root
  scan_drives [] list = list
  scan_drives (i ∷ is) list =
      scan_drives is (scan_alts i drive_numbers (scan_root (usb_root i) list))

  -- `scan_all_usb`
  unfoldable pub scan_all_usb : PkgList
  unfolding scan_drives
  scan_all_usb = scan_drives drive_numbers empty_list
