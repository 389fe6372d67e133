-- ===== src/Pkg/Found.antt =====
-- plugin_mono/source/pkg_broswer.c: the scan keeps the first 1024 of the packages on the drives.
use ps4_hen_plugins.Base.{
  ℕ, zero, suc, ◌+◌, ◌<◌, true, Option, none, some, List, [], ◌∷◌, ◌++◌, ◌≡◌, refl, sym, ap, inl,
  inr, arith, append_assoc, Bool-cases, Option-cases, leb, if◌then◌else◌, Bytes, length, take,
}
use ps4_hen_plugins.Pkg.Scan.{
  max_depth, PkgEntry, PkgList, FileKind, directory, regular, special, Stat, empty_list, is_skipped,
  full_path, scan_entry, scan_entries, scan_dir, scan_dir_recursive, scan_if_directory, scan_root,
  drive_numbers, usb_root, usb_alt, scan_alts, scan_drives, scan_all_usb,
}
use ps4_hen_plugins.Pkg.Extends.{
  IsValid, Extends, Adds, Extends-IsValid, Extends-none, Extends-append, Extends-full,
}
use ps4_hen_plugins.Pkg.Turns.{Turns, Turns-on, found_file, scan_file-Turns}

-- The roots that are looked at, in their order.
unfoldable pub alt_roots : ℕ → List ℕ → List Bytes
unfolding usb_alt
alt_roots i [] = []
alt_roots i (j ∷ js) = usb_alt i j ∷ alt_roots i js

unfoldable pub drive_roots : List ℕ → List Bytes
unfolding alt_roots usb_root
drive_roots [] = []
drive_roots (i ∷ is) = usb_root i ∷ (alt_roots i drive_numbers ++ drive_roots is)

module _ (stat : Bytes → Option Stat) (read_dir : Bytes → Option (List Bytes)) where
  unfoldable pub found_entry : (Bytes → List PkgEntry) → Bytes → Bytes → List PkgEntry
  unfolding found_file
  found_entry below dir name = if is_skipped name then [] else elim (stat (full_path dir name)) [
    | none ↦ []
    | some st ↦ found_file below (full_path dir name) name st.kind st.size
  ]

  unfoldable pub found_entries : (Bytes → List PkgEntry) → Bytes → List Bytes → List PkgEntry
  unfolding found_entry
  found_entries below dir [] = []
  found_entries below dir (name ∷ names) =
      found_entry below dir name ++ found_entries below dir names

  -- The packages below a directory, as deep as the scan goes, in the order of the directories.
  unfoldable pub found_dir : ℕ → Bytes → List PkgEntry
  unfolding found_entries
  found_dir zero dir = []
  found_dir (suc left) dir = elim (read_dir dir) [
    | none ↦ []
    | some names ↦ found_entries (found_dir left) dir names
  ]

  scan_entry-Turns :
      (deeper : Bytes → PkgList → PkgList) (below : Bytes → List PkgEntry) (dir name : Bytes)
      (list : PkgList)
      → ((dir' : Bytes) → Adds (deeper dir') (below dir'))
      → IsValid list
      → Turns list (found_entry below dir name) (scan_entry stat read_dir deeper dir name list)
  unfolding scan_entry found_entry
  scan_entry-Turns deeper below dir name list adds h = elim (Bool-cases (is_skipped name)) [
    | inl e ↦ rw e (Turns-on list [] list (Extends-none list h))
    | inr e ↦ elim (Option-cases (stat (full_path dir name))) [
      | inl n ↦ rw (e, n) (Turns-on list [] list (Extends-none list h))
      | inr (st, n) ↦
          rw (e, n)
            (scan_file-Turns deeper below (full_path dir name) name st.kind st.size list adds h)
    ]
  ]

  scan_entries-Extends :
      (deeper : Bytes → PkgList → PkgList) (below : Bytes → List PkgEntry) (dir : Bytes)
      (names : List Bytes) (list : PkgList)
      → ((dir' : Bytes) → Adds (deeper dir') (below dir'))
      → IsValid list
      → Extends list
          (found_entries below dir names)
          (scan_entries stat read_dir deeper dir names list)
  unfolding scan_entries found_entries
  scan_entries-Extends deeper below dir [] list adds h = Extends-none list h
  scan_entries-Extends deeper below dir (name ∷ names) list adds h =
      let r = scan_entry stat read_dir deeper dir name list in
      let turn = scan_entry-Turns deeper below dir name list adds h in
      let rest =
        scan_entries-Extends deeper below dir names r.0 adds
          (Extends-IsValid list (found_entry below dir name) r.0 turn.extends) in
      elim (Bool-cases r.1) [
        | inl e ↦ rw e (turn.stops e (found_entry below dir name ++ found_entries below dir names))
        | inr e ↦ rw e (
            Extends-append list r.0 (scan_entries stat read_dir deeper dir names r.0)
              (found_entry below dir name) (found_entries below dir names) turn.extends rest)
      ]

  scan_dir-Extends :
      (left : ℕ) (dir : Bytes) (list : PkgList)
      → ((dir' : Bytes) → Adds (scan_dir stat read_dir left dir') (found_dir left dir'))
      → IsValid list
      → Extends list (found_dir (suc left) dir) (scan_dir stat read_dir (suc left) dir list)
  unfolding scan_dir found_dir
  scan_dir-Extends left dir list adds h = elim (Bool-cases (leb 1024 list.count)) [
    | inl e ↦ rw e (Extends-full list (found_dir (suc left) dir) h (ground arith))
    | inr e ↦ elim (Option-cases (read_dir dir)) [
      | inl n ↦ rw (e, n, found_dir) (Extends-none list h)
      | inr (names, n) ↦
          rw (e, n, found_dir)
            (scan_entries-Extends (scan_dir stat read_dir left) (found_dir left) dir names list adds
              h)
    ]
  ]

  scan_dir-Adds :
      (left : ℕ) (dir : Bytes) → Adds (scan_dir stat read_dir left dir) (found_dir left dir)
  scan_dir-Adds zero dir = record {
    extends = λ list h. unfold scan_dir found_dir in Extends-none list h;
  }
  scan_dir-Adds (suc left) dir = record {
    extends = λ list h. scan_dir-Extends left dir list (scan_dir-Adds left) h;
  }

  unfoldable pub found_if_directory : Bytes → FileKind → List PkgEntry
  unfolding found_dir
  found_if_directory root directory = found_dir (max_depth + 1) root
  found_if_directory root regular = []
  found_if_directory root special = []

  -- The packages on a drive.
  unfoldable pub found_root : Bytes → List PkgEntry
  unfolding found_if_directory
  found_root root = elim (stat root) [ none ↦ [] | some st ↦ found_if_directory root st.kind ]

  scan_if_directory-Extends :
      (root : Bytes) (kind : FileKind) (list : PkgList)
      → IsValid list
      → Extends list (found_if_directory root kind) (scan_if_directory stat read_dir root kind list)
  unfolding scan_if_directory scan_dir_recursive found_if_directory
  scan_if_directory-Extends root directory list h = (scan_dir-Adds 13 root).extends list h
  scan_if_directory-Extends root regular list h = Extends-none list h
  scan_if_directory-Extends root special list h = Extends-none list h

  scan_root-Extends :
      (root : Bytes) (list : PkgList)
      → IsValid list
      → Extends list (found_root root) (scan_root stat read_dir root list)
  unfolding scan_root found_root
  scan_root-Extends root list h = elim (Option-cases (stat root)) [
    | inl n ↦ rw (n, scan_root, found_root) (Extends-none list h)
    | inr (st, n) ↦ rw (n, scan_root, found_root) (scan_if_directory-Extends root st.kind list h)
  ]

  unfoldable pub found_roots : List Bytes → List PkgEntry
  unfolding found_root
  found_roots [] = []
  found_roots (root ∷ roots) = found_root root ++ found_roots roots

  found_roots-append :
      (xs ys : List Bytes) → found_roots (xs ++ ys) ≡ found_roots xs ++ found_roots ys
  unfolding found_roots
  found_roots-append [] ys = refl
  found_roots-append (x ∷ xs) ys =
      rw (found_roots-append xs ys)
        (sym (append_assoc (found_root x) (found_roots xs) (found_roots ys)))

  scan_alts-Extends :
      (i : ℕ) (js : List ℕ) (list : PkgList)
      → IsValid list
      → Extends list (found_roots (alt_roots i js)) (scan_alts stat read_dir i js list)
  unfolding scan_alts alt_roots found_roots
  scan_alts-Extends i [] list h = Extends-none list h
  scan_alts-Extends i (j ∷ js) list h =
      let next = scan_root stat read_dir (usb_alt i j) list in
      let first = scan_root-Extends (usb_alt i j) list h in
      Extends-append list next (scan_alts stat read_dir i js next) (found_root (usb_alt i j))
        (found_roots (alt_roots i js)) first
        (scan_alts-Extends i js next (Extends-IsValid list (found_root (usb_alt i j)) next first))

  scan_drives-Extends :
      (is : List ℕ) (list : PkgList)
      → IsValid list
      → Extends list (found_roots (drive_roots is)) (scan_drives stat read_dir is list)
  unfolding scan_drives drive_roots
  scan_drives-Extends [] list h = unfold found_roots in Extends-none list h
  scan_drives-Extends (i ∷ is) list h =
      let a = scan_root stat read_dir (usb_root i) list in
      let fa = found_root (usb_root i) in
      let ha = scan_root-Extends (usb_root i) list h in
      let b = scan_alts stat read_dir i drive_numbers a in
      let fb = found_roots (alt_roots i drive_numbers) in
      let hb = scan_alts-Extends i drive_numbers a (Extends-IsValid list fa a ha) in
      let c = scan_drives stat read_dir is b in
      let fc = found_roots (drive_roots is) in
      let hc = scan_drives-Extends is b (Extends-IsValid a fb b hb) in
      let e : found_roots (usb_root i ∷ (alt_roots i drive_numbers ++ drive_roots is))
          ≡ fa ++ (fb ++ fc) =
        unfold found_roots in
        ap (λ t. fa ++ t) (found_roots-append (alt_roots i drive_numbers) (drive_roots is)) in
      rw e (Extends-append list a c fa (fb ++ fc) ha (Extends-append a b c fb fc hb hc))

  pub scan_all_usb-found :
      ((scan_all_usb stat read_dir).entries ≡ take 1024 (found_roots (drive_roots drive_numbers)))
      × (((scan_all_usb stat read_dir).count ≡ length (scan_all_usb stat read_dir).entries)
          × (1024 < length (found_roots (drive_roots drive_numbers))
              → (scan_all_usb stat read_dir).overflow ≡ true))
  unfolding scan_all_usb
  scan_all_usb-found =
      let h =
        scan_drives-Extends drive_numbers empty_list
          (record { counted = refl; bounded = omega arith }) in
      (h.entries, (h.counted, λ more. h.overflowed (omega arith)))
