-- ===== src/Ini/RoundTrip/Values.antt =====
-- common/ini.c: saving and loading keeps what `ini_get` returns.
use ps4_hen_plugins.Base.{
  true, false, Option, none, some, List, [], ◌∷◌, ◌≡◌, refl, ap, ◌∙◌, inl, inr, arith,
  if◌then◌else◌, Bytes, All, matches, matches_iff, Bool-cases, rev_onto,
}
use mathlib.Core.List.{map}
use mathlib.Core.Path.{subst}
use ps4_hen_plugins.Ini.{Section, IniFile, find}
use ps4_hen_plugins.Ini.Find.{node, named, look, find-none}
use ps4_hen_plugins.Ini.Get.{value_of, value_in, ini_get-value_in}
use ps4_hen_plugins.Ini.Delete.{IsDistinct, HasDistinctNames}
use ps4_hen_plugins.Ini.Load.{on_first, ini_load}
use ps4_hen_plugins.Ini.Save.{print_file}
use ps4_hen_plugins.Ini.Store.{ini_get, find_section, find_key}
use ps4_hen_plugins.Ini.Printable.{IsPrintable}
use ps4_hen_plugins.Ini.RoundTrip.Reread.{
  reread_section, reread_sections, with_blank, ini_load-print_file,
}

abbrev or_else : {A : Type 0} → Option A → Option A → Option A
or_else none b = b
or_else (some a) b = some a

or_else-none : {A : Type 0} (a : Option A) → or_else a none ≡ a
or_else-none none = refl
or_else-none (some a) = refl

module _ {A : Type 0} (name_of : A → Bytes) where
  look_cons :
      (x : A) (xs : List A) (n : Bytes)
      → look name_of (x ∷ xs) n ≡ (if matches (name_of x) n then some x else look name_of xs n)
  unfolding find
  look_cons x xs n = ground arith

  same_name_absent :
      (x : A) (xs : List A) (n : Bytes)
      → All (λ y. matches (name_of y) (name_of x) ≡ false) xs
      → matches (name_of x) n ≡ true
      → look name_of xs n ≡ none
  same_name_absent x xs n h e = ap node (
      subst (λ m. find (named name_of m) xs ≡ none) ((matches_iff (name_of x) n).0 e)
        (find-none (named name_of (name_of x)) xs h))

  -- With distinct names the order of the list does not matter to the search.
  look-rev_onto :
      (xs acc : List A) (n : Bytes)
      → IsDistinct name_of xs
      → look name_of (rev_onto xs acc) n ≡ or_else (look name_of xs n) (look name_of acc n)
  unfolding find
  look-rev_onto [] acc n d = refl
  look-rev_onto (x ∷ xs) acc n d =
      look-rev_onto xs (x ∷ acc) n d.1 ∙ elim (Bool-cases (matches (name_of x) n)) [
        | inl e ↦ rw (look_cons x xs n, look_cons x acc n, e, same_name_absent x xs n d.0 e)
        | inr e ↦ rw (look_cons x xs n, look_cons x acc n, e)
      ]

keys_reread :
    (s : Section) (key : Bytes)
    → IsDistinct (λ k. k.key) s.keys
    → value_in (some (reread_section s)) key ≡ value_in (some s) key
unfolding find_key find
keys_reread s key d =
    ap value_of
      (look-rev_onto (λ k. k.key) s.keys [] key d ∙ or_else-none (look (λ k. k.key) s.keys key))

-- The value under a key of the section of that name.
abbrev value_at : List Section → Bytes → Bytes → Option Bytes
value_at ss section key = value_in (look (λ s. s.name) ss section) key

value_at-map :
    (ss : List Section) (section key : Bytes)
    → All (λ s. IsDistinct (λ k. k.key) s.keys) ss
    → value_at (map reread_section ss) section key ≡ value_at ss section key
value_at-map [] section key d = refl
value_at-map (s ∷ ss) section key d = elim (Bool-cases (matches s.name section)) [
  | inl e ↦
      rw
        (
          look_cons (λ s. s.name) (reread_section s) (map reread_section ss) section,
          look_cons (λ s. s.name) s ss section,
          e,
        )
        (keys_reread s key d.0)
  | inr e ↦
      rw
        (
          look_cons (λ s. s.name) (reread_section s) (map reread_section ss) section,
          look_cons (λ s. s.name) s ss section,
          e,
        )
        (value_at-map ss section key d.1)
]

value_at-blank :
    (ss : List Section) (section key : Bytes)
    → value_at (on_first with_blank ss) section key ≡ value_at ss section key
value_at-blank [] section key = refl
value_at-blank (s ∷ ss) section key = elim (Bool-cases (matches s.name section)) [
  | inl e ↦
      rw
        (look_cons (λ s. s.name) (with_blank s) ss section, look_cons (λ s. s.name) s ss section, e)
  | inr e ↦
      rw
        (look_cons (λ s. s.name) (with_blank s) ss section, look_cons (λ s. s.name) s ss section, e)
]

All-named :
    (name : Bytes) (ss : List Section)
    → All (λ y. matches y.name name ≡ false) ss
    → All (λ y. matches y.name name ≡ false) (map reread_section ss)
All-named name [] h = tt
All-named name (s ∷ ss) h = (h.0, All-named name ss h.1)

map-IsDistinct :
    (ss : List Section)
    → IsDistinct (λ s. s.name) ss
    → IsDistinct (λ s. s.name) (map reread_section ss)
map-IsDistinct [] d = tt
map-IsDistinct (s ∷ ss) d = (All-named s.name ss d.0, map-IsDistinct ss d.1)

value_at-reread :
    (ss : List Section) (section key : Bytes)
    → IsDistinct (λ s. s.name) ss
    → All (λ s. IsDistinct (λ k. k.key) s.keys) ss
    → value_at (reread_sections ss) section key ≡ value_at ss section key
unfolding find
value_at-reread ss section key d keys =
    value_at-blank (rev_onto (map reread_section ss) []) section key
    ∙ ap (λ o. value_in o key)
        (look-rev_onto (λ s. s.name) (map reread_section ss) [] section (map-IsDistinct ss d)
          ∙ or_else-none (look (λ s. s.name) (map reread_section ss) section))
    ∙ value_at-map ss section key keys

-- For a structure of printable parts with distinct names, `ini_get` returns from the saved and
-- loaded file, where `malloc` does not fail, what it returns from the structure, for every section
-- and key.
pub ini_get-ini_load-print_file :
    (filename : Bytes) (ini : IniFile) (section key : Bytes)
    → IsPrintable ini
    → HasDistinctNames ini
    → ini_get (ini_load (λ _. true) filename (some (print_file ini))) section key
      ≡ ini_get (some ini) section key
ini_get-ini_load-print_file filename ini section key p d =
    rw (ini_load-print_file filename ini p, ini_get-value_in, ini_get-value_in)
      (unfold find_section in value_at-reread ini.sections section key d.section_names d.key_names)
