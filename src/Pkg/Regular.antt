-- ===== src/Pkg/Regular.antt =====
-- plugin_mono/source/pkg_broswer.c: the scan lists regular files, with their sizes.
use ps4_hen_plugins.Base.{
  ℕ, zero, suc, ◌≤◌, Option, some, List, [], ◌∷◌, ◌++◌, ◌≡◌, inl, inr, arith, length-take, take_all,
  Bool-cases, Option-cases, Bytes, length, All, All-append, All-take,
}
use ps4_hen_plugins.Pkg.Names.{has_pkg_ext}
use ps4_hen_plugins.Pkg.Scan.{
  PkgEntry, FileKind, directory, regular, special, Stat, is_skipped, full_path, new_entry,
  drive_numbers, scan_all_usb,
}
use ps4_hen_plugins.Pkg.Turns.{found_file}
use ps4_hen_plugins.Pkg.Found.{
  found_entry, found_entries, found_dir, found_if_directory, found_root, found_roots, drive_roots,
  scan_all_usb-found,
}

module _ (stat : Bytes → Option Stat) (read_dir : Bytes → Option (List Bytes)) where
  -- The path of the entry is one of a regular file of this size.
  pub record IsRegular (e : PkgEntry) : Type 0 where
    pub found : stat e.path ≡ some (record { kind = regular; size = e.size })

  found_file-IsRegular :
      (below : Bytes → List PkgEntry) (full name : Bytes) (kind : FileKind) (size : ℕ)
      → ((dir : Bytes) → All IsRegular (below dir))
      → length full ≤ 511
      → stat full ≡ some (record { kind = kind; size = size })
      → All IsRegular (found_file below full name kind size)
  unfolding found_file
  found_file-IsRegular below full name directory size h fits e = h full
  found_file-IsRegular below full name regular size h fits e =
      elim (Bool-cases (has_pkg_ext name)) [
        | inl x ↦ rw x (record { found = unfold new_entry in rw (take_all 511 full fits) e }, tt)
        | inr x ↦ rw x tt
      ]
  found_file-IsRegular below full name special size h fits e = tt

  length-full_path : (dir name : Bytes) → length (full_path dir name) ≤ 511
  unfolding full_path
  length-full_path dir name = omega (arith, length-take 511 (dir ++ b'/' ∷ name))

  found_entry-IsRegular :
      (below : Bytes → List PkgEntry) (dir name : Bytes)
      → ((dir' : Bytes) → All IsRegular (below dir'))
      → All IsRegular (found_entry stat read_dir below dir name)
  unfolding found_entry
  found_entry-IsRegular below dir name h = elim (Bool-cases (is_skipped name)) [
    | inl x ↦ rw x tt
    | inr x ↦ elim (Option-cases (stat (full_path dir name))) [
      | inl n ↦ rw (x, n, found_entry) tt
      | inr (st, n) ↦
          rw (x, n, found_entry)
            (found_file-IsRegular below (full_path dir name) name st.kind st.size h
              (length-full_path dir name) n)
    ]
  ]

  found_entries-IsRegular :
      (below : Bytes → List PkgEntry) (dir : Bytes) (names : List Bytes)
      → ((dir' : Bytes) → All IsRegular (below dir'))
      → All IsRegular (found_entries stat read_dir below dir names)
  unfolding found_entries
  found_entries-IsRegular below dir [] h = tt
  found_entries-IsRegular below dir (name ∷ names) h =
      All-append IsRegular (found_entry stat read_dir below dir name)
        (found_entries stat read_dir below dir names) (found_entry-IsRegular below dir name h)
        (found_entries-IsRegular below dir names h)

  found_dir-IsRegular : (left : ℕ) (dir : Bytes) → All IsRegular (found_dir stat read_dir left dir)
  unfolding found_dir
  found_dir-IsRegular zero dir = tt
  found_dir-IsRegular (suc left) dir = elim (Option-cases (read_dir dir)) [
    | inl n ↦ rw (n, found_dir) tt
    | inr (names, n) ↦
        rw (n, found_dir)
          (found_entries-IsRegular (found_dir stat read_dir left) dir names
            (found_dir-IsRegular left))
  ]

  found_if_directory-IsRegular :
      (root : Bytes) (kind : FileKind) → All IsRegular (found_if_directory stat read_dir root kind)
  unfolding found_if_directory
  found_if_directory-IsRegular root directory = found_dir-IsRegular 13 root
  found_if_directory-IsRegular root regular = tt
  found_if_directory-IsRegular root special = tt

  found_root-IsRegular : (root : Bytes) → All IsRegular (found_root stat read_dir root)
  unfolding found_root
  found_root-IsRegular root = elim (Option-cases (stat root)) [
    | inl n ↦ rw (n, found_root) tt
    | inr (st, n) ↦ rw (n, found_root) (found_if_directory-IsRegular root st.kind)
  ]

  found_roots-IsRegular : (roots : List Bytes) → All IsRegular (found_roots stat read_dir roots)
  unfolding found_roots
  found_roots-IsRegular [] = tt
  found_roots-IsRegular (root ∷ roots) =
      All-append IsRegular (found_root stat read_dir root) (found_roots stat read_dir roots)
        (found_root-IsRegular root) (found_roots-IsRegular roots)

  -- Every entry that the scan lists is the path of a regular file, with the size of that file.
  pub scan_all_usb-IsRegular : All IsRegular (scan_all_usb stat read_dir).entries
  scan_all_usb-IsRegular =
      let found = scan_all_usb-found stat read_dir in
      rw found.0 (
        All-take IsRegular 1024 (found_roots stat read_dir (drive_roots drive_numbers))
          (found_roots-IsRegular (drive_roots drive_numbers)))
