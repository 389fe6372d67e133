-- ===== src/Settings/Local.antt =====
-- plugin_mono/source/shellui_patch/settings_menu.c: `ReadWriteLocalSettings`, on the INI library.
use ps4_hen_plugins.Base.{
  ℕ, ◌-◌, Bool, true, Option, none, some, [], ◌≡◌, sym, ap, ◌∙◌, ltb, if◌then◌else◌, Bytes, length,
  take, codes, some_inj,
}
use ps4_hen_plugins.Ini.{IniFile}
use ps4_hen_plugins.Ini.Load.{ini_load}
use ps4_hen_plugins.Ini.Store.{Allocs, ini_get, ini_set, ini_set_with_comment}
use ps4_hen_plugins.Ini.Save.{ini_save, save_named, print_file}
use ps4_hen_plugins.Ini.Filename.{ini_load-filename, set_value-filename}

-- What `malloc` answers, and whether the file can be opened for writing.
pub record System : Type 0 where
  pub malloc : ℕ → Bool
  pub allocs : Allocs
  pub opened : Bool

-- `memcpy(data_out, v2, sv2 > size ? size - 1 : sv2)`, onto zeros.
unfoldable pub copied_value : ℕ → Bytes → Bytes
copied_value size v2 = if ltb size (length v2) then take (size - 1) v2 else v2

unfoldable pub or_empty : Option Bytes → Bytes
or_empty none = []
or_empty (some v) = v

-- The contents of the file after `ini_save`.
unfoldable pub saved : System → Option IniFile → Option Bytes → Option Bytes
unfolding ini_save
saved sys ini file = elim (ini_save sys.opened ini).written [
  | none ↦ file
  | some bytes ↦ some bytes
]

-- `ini_set` and `ini_save`
unfoldable pub save_setting : System → IniFile → Bytes → Bytes → Bytes → Option Bytes → Option Bytes
unfolding saved ini_set
save_setting sys ini section id value file =
    saved sys (ini_set sys.allocs (some ini) (some section) (some id) (some value)).0 file

-- The function, for writing: the contents of the file behind it.
unfoldable pub write_setting : System → Bytes → Bytes → Bytes → Bytes → Option Bytes → Option Bytes
unfolding ini_load save_setting
write_setting sys path section id value file = elim (ini_load sys.malloc path file) [
  | none ↦ file
  | some ini ↦ save_setting sys ini section id value file
]

unfoldable pub read_loaded :
    System → IniFile → Bytes → Bytes → ℕ → Option Bytes → Option Bytes → Bytes × Option Bytes
unfolding copied_value or_empty save_setting
read_loaded sys ini section id size file none =
    (copied_value size (or_empty none), save_setting sys ini section id (codes "0") file)
read_loaded sys ini section id size file (some v) = (copied_value size (or_empty (some v)), file)

-- The function, for reading: the text in `data_out`, and the contents of the file.
unfoldable pub read_setting :
    System → Bytes → Bytes → Bytes → ℕ → Option Bytes → Bytes × Option Bytes
unfolding ini_load ini_get read_loaded
read_setting sys path section id size file = elim (ini_load sys.malloc path file) [
  | none ↦ ([], file)
  | some ini ↦ read_loaded sys ini section id size file (ini_get (some ini) section id)
]

-- Nothing fails.
abbrev pub works : System
works = record {
  malloc = λ _. true;
  allocs = record { for_section = true; for_key = true };
  opened = true;
}

-- The structure that is written.
abbrev pub written_structure : Bytes → Bytes → Bytes → Bytes → Option Bytes → Option IniFile
written_structure path section id value file =
    (ini_set works.allocs (ini_load works.malloc path file) (some section) (some id) (some value)).0

saved_named :
    (ini : IniFile) (path : Bytes) (file : Option Bytes)
    → ini.filename ≡ some path
    → saved works (some ini) file ≡ some (print_file ini)
unfolding saved ini_save save_named
saved_named ini path file e =
    ap (λ o. elim (save_named true ini o).written [ none ↦ file | some bytes ↦ some bytes ]) e

saved_structure :
    (path section id value : Bytes) (file : Option Bytes) (old ini : IniFile)
    → old.filename ≡ some path
    → (ini_set works.allocs (some old) (some section) (some id) (some value)).0 ≡ some ini
    → save_setting works old section id value file ≡ some (print_file ini)
unfolding save_setting ini_set ini_set_with_comment
saved_structure path section id value file old ini name s =
    let named : ini.filename ≡ some path =
      (sym (ap (λ i. i.filename) (some_inj s)))
      ∙ set_value-filename works.allocs old section id value none
      ∙ name in
    rw s (saved_named ini path file named)

module _ (path section id value : Bytes) (file : Option Bytes) (ini : IniFile)
    (structure : written_structure path section id value file ≡ some ini) where
  -- The structure comes from the one loaded, and keeps its name.
  set_loaded :
      (old : IniFile)
      → ini_load (λ _. true) path file ≡ some old
      → (ini_set works.allocs (some old) (some section) (some id) (some value)).0 ≡ some ini
  set_loaded old loaded =
      ap (λ o. (ini_set works.allocs o (some section) (some id) (some value)).0) (sym loaded)
      ∙ structure

  written : write_setting works path section id value file ≡ some (print_file ini)
  unfolding write_setting
  written =
      let (old, (loaded, name)) = ini_load-filename path file in
      ap (λ o. elim o [ none ↦ file | some l ↦ save_setting works l section id value file ]) loaded
      ∙ saved_structure path section id value file old ini name (set_loaded old loaded)
