-- ===== src/Ini/Filename.antt =====
-- common/ini.c: the structure keeps its file name, and the operations succeed where `malloc` does.
use ps4_hen_plugins.Base.{
  ℕ, suc, Bool, true, false, ◌||◌, Option, none, some, List, [], ◌∷◌, ◌≡◌, refl, ◌∙◌, inl, inr,
  ◌==◌, if◌then◌else◌, Bytes, length, drop, strchr, Bool-cases, Option-cases,
}
use ps4_hen_plugins.Ini.{Comment, Section, IniFile, Focus}
use ps4_hen_plugins.Ini.Load.{
  Loader, set_pending, add_pending, load_section, load_header, load_named, load_pair, add_key,
  load_current, load_key, load_trimmed, load_line, load_lines, start, ini_load, read_lines,
  split_comment, cut_line,
}
use ps4_hen_plugins.Ini.Text.{trim_whitespace}
use ps4_hen_plugins.Ini.Store.{
  create_section, create_key, Allocs, get_section, get_key, find_section, find_key, store_key,
  set_in_section, store_section, set_value,
}

abbrev name_of : Loader → Option Bytes
name_of l = l.ini.filename

set_pending-filename : (l : Loader) (cs : List Comment) → (set_pending l cs).filename ≡ name_of l
set_pending-filename l cs = elim (Bool-cases l.pending_in_section) [
  | inl e ↦ rw e refl
  | inr e ↦ rw e refl
]

add_pending-filename : (m : Bool) (l : Loader) (t : Bytes) → name_of (add_pending m l t) ≡ name_of l
unfolding add_pending
add_pending-filename m l t = set_pending-filename l _

load_section-filename :
    (m : Bool) (l : Loader) (name : Bytes) (c : Option Bytes)
    → name_of (load_section m l name c) ≡ name_of l
unfolding load_section
load_section-filename m l name c = elim (Option-cases (create_section m l.ini.sections name)) [
  | inl e ↦ rw (e, load_section) refl
  | inr (f, e) ↦ rw (e, load_section) (set_pending-filename l [])
]

load_named-filename :
    (m : Bool) (l : Loader) (c : Option Bytes) (o : Option (Bytes × Bytes))
    → name_of (load_named m l c o) ≡ name_of l
unfolding load_named
load_named-filename m l c none = refl
load_named-filename m l c (some (b, a)) = load_section-filename m l (trim_whitespace (drop 1 b)) c

add_key-filename :
    (m : Bool) (l : Loader) (name value : Bytes) (c : Option Bytes) (s : Section)
    → name_of (add_key m l name value c s) ≡ name_of l
unfolding add_key
add_key-filename m l name value c s = elim (Option-cases (create_key m s.keys name)) [
  | inl e ↦ rw (e, add_key) refl
  | inr (f, e) ↦ rw (e, add_key) (set_pending-filename l [])
]

either_name :
    (b : Bool) (x y : Loader) (n : Option Bytes)
    → name_of x ≡ n
    → name_of y ≡ n
    → name_of (if b then x else y) ≡ n
either_name true x y n h k = h
either_name false x y n h k = k

load_current-filename :
    (m : Bool) (l : Loader) (name value : Bytes) (c : Option Bytes) (ss : List Section)
    → name_of (load_current m l name value c ss) ≡ name_of l
unfolding load_current
load_current-filename m l name value c [] = refl
load_current-filename m l name value c (s ∷ ss) =
    either_name l.has_section (add_key m l name value c s) l (name_of l)
      (add_key-filename m l name value c s) refl

load_pair-filename :
    (m : Bool) (l : Loader) (c : Option Bytes) (o : Option (Bytes × Bytes))
    → name_of (load_pair m l c o) ≡ name_of l
unfolding load_pair
load_pair-filename m l c none = refl
load_pair-filename m l c (some (b, a)) =
    load_current-filename m l (trim_whitespace b) (trim_whitespace a) c l.ini.sections

load_key-filename : (m : Bool) (l : Loader) (t : Bytes) → name_of (load_key m l t) ≡ name_of l
unfolding load_key
load_key-filename m l t = elim (Option-cases (strchr b'=' t)) [
  | inl e ↦ rw (e, load_key) refl
  | inr (f, e) ↦
      rw (e, load_key)
        (load_pair-filename m l (split_comment t).1 (strchr b'=' (split_comment t).0))
]

load_header-filename : (m : Bool) (l : Loader) (t : Bytes) → name_of (load_header m l t) ≡ name_of l
unfolding load_header
load_header-filename m l t =
    load_named-filename m l (split_comment t).1 (strchr b']' (split_comment t).0)

load_trimmed-filename :
    (m : Bool) (l : Loader) (t s : Bytes) → name_of (load_trimmed m l t s) ≡ name_of l
unfolding load_trimmed
load_trimmed-filename m l t [] = add_pending-filename m l []
load_trimmed-filename m l t (c ∷ cs) = elim (Bool-cases (c == b';' || c == b'#')) [
  | inl e ↦ rw e (add_pending-filename m l (trim_whitespace cs))
  | inr e ↦ elim (Bool-cases (c == b'[')) [
    | inl f ↦ rw (e, f) (load_header-filename m l t)
    | inr f ↦ rw (e, f) (load_key-filename m l t)
  ]
]

load_lines-filename :
    (malloc : ℕ → Bool) (n : ℕ) (l : Loader) (lines : List Bytes)
    → name_of (load_lines malloc n l lines) ≡ name_of l
unfolding load_lines load_line
load_lines-filename malloc n l [] = refl
load_lines-filename malloc n l (line ∷ lines) =
    load_lines-filename malloc (suc n) (load_line (malloc n) l line) lines
    ∙ load_trimmed-filename (malloc n) l (cut_line line) (trim_whitespace (cut_line line))

-- Where `malloc` does not fail `ini_load` gives a structure, with the name of the file.
pub ini_load-filename :
    (filename : Bytes) (file : Option Bytes)
    → (ini : IniFile) × ((ini_load (λ _. true) filename file ≡ some ini)
        × (ini.filename ≡ some filename))
unfolding ini_load
ini_load-filename filename none = (_, (refl, refl))
ini_load-filename filename (some file) =
    (_, (refl, load_lines-filename (λ _. true) 1 (start filename) (read_lines (length file) file)))

store_section-filename :
    (m : Bool) (ini : IniFile) (k v : Bytes) (c : Option Bytes) (o : Option (Focus Section))
    → (store_section m ini k v c o).0.filename ≡ ini.filename
unfolding store_section
store_section-filename m ini k v c none = refl
store_section-filename m ini k v c (some f) = refl

pub set_value-filename :
    (allocs : Allocs) (ini : IniFile) (s k v : Bytes) (c : Option Bytes)
    → (set_value allocs ini s k v c).0.filename ≡ ini.filename
unfolding set_value
set_value-filename allocs ini s k v c =
    store_section-filename allocs.for_key ini k v c (get_section allocs.for_section ini.sections s)

set_in_section-done :
    (s : Section) (k v : Bytes) (c : Option Bytes) → (set_in_section true s k v c).1 ≡ true
unfolding set_in_section get_key create_key store_key
set_in_section-done s k v c = elim (Option-cases (find_key s.keys k)) [
  | inl e ↦ rw (e, get_key) refl
  | inr (f, e) ↦ rw (e, get_key) refl
]

-- Where `malloc` does not fail a value is stored.
pub set_value-done :
    (ini : IniFile) (s k v : Bytes) (c : Option Bytes)
    → (set_value (record { for_section = true; for_key = true }) ini s k v c).1 ≡ true
unfolding set_value store_section get_section create_section
set_value-done ini s k v c = elim (Option-cases (find_section ini.sections s)) [
  | inl e ↦ rw (e, get_section) (set_in_section-done _ k v c)
  | inr ((b, x, a), e) ↦ rw (e, get_section) (set_in_section-done x k v c)
]
