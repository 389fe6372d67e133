-- ===== src/Pkg/Turns.antt =====
-- plugin_mono/source/pkg_broswer.c: a turn of the loop over a directory extends the list.
use ps4_hen_plugins.Base.{
  ℕ, ◌+◌, Bool, true, false, List, [], ◌∷◌, ◌++◌, ◌≡◌, inl, inr, arith, Bool-cases, leb,
  if◌then◌else◌, Bytes,
}
use ps4_hen_plugins.Pkg.Names.{has_pkg_ext}
use ps4_hen_plugins.Pkg.Scan.{
  PkgEntry, PkgList, FileKind, directory, regular, special, new_entry, add_entry, scan_file,
}
use ps4_hen_plugins.Pkg.Extends.{IsValid, Extends, Adds, Extends-none, Extends-full, Extends-entry}

-- What a turn of the loop gives: where it leaves the loop, the list is extended by anything.
pub record Turns (list : PkgList) (found : List PkgEntry) (r : PkgList × Bool) : Type 0 where
  pub extends : Extends list found r.0
  pub stops : r.1 ≡ true → (more : List PkgEntry) → Extends list more r.0

pub Turns-on :
    (list : PkgList) (found : List PkgEntry) (list' : PkgList)
    → Extends list found list'
    → Turns list found (list', false)
Turns-on list found list' h = record { extends = h; stops = λ e. absurd (ground arith) }

add_entry-Turns :
    (full name : Bytes) (size : ℕ) (list : PkgList)
    → IsValid list
    → Turns list (new_entry full name size ∷ []) (add_entry full name size list)
unfolding add_entry
add_entry-Turns full name size list h = elim (Bool-cases (leb 1024 list.count)) [
  | inl e ↦ rw e (record {
    extends = Extends-full list (new_entry full name size ∷ []) h (ground arith);
    stops = λ t more. Extends-full list more h (ground arith);
  })
  | inr e ↦ rw e (
      Turns-on list (new_entry full name size ∷ [])
        (record list {
          entries = list.entries ++ new_entry full name size ∷ [];
          count = list.count + 1;
        })
        (Extends-entry list (new_entry full name size) h (ground arith)))
]

-- The package that a file is, or those below a directory.
unfoldable pub found_file : (Bytes → List PkgEntry) → Bytes → Bytes → FileKind → ℕ → List PkgEntry
found_file below full name directory size = below full
found_file below full name regular size =
    if has_pkg_ext name then new_entry full name size ∷ [] else []
found_file below full name special size = []

pub scan_file-Turns :
    (deeper : Bytes → PkgList → PkgList) (below : Bytes → List PkgEntry) (full name : Bytes)
    (kind : FileKind) (size : ℕ) (list : PkgList)
    → ((dir : Bytes) → Adds (deeper dir) (below dir))
    → IsValid list
    → Turns list (found_file below full name kind size) (scan_file deeper full name kind size list)
unfolding scan_file found_file
scan_file-Turns deeper below full name directory size list adds h =
    Turns-on list (below full) (deeper full list) ((adds full).extends list h)
scan_file-Turns deeper below full name regular size list adds h =
    elim (Bool-cases (has_pkg_ext name)) [
      | inl e ↦ rw e (add_entry-Turns full name size list h)
      | inr e ↦ rw e (Turns-on list [] list (Extends-none list h))
    ]
scan_file-Turns deeper below full name special size list adds h =
    Turns-on list [] list (Extends-none list h)
