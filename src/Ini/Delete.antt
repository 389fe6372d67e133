-- ===== src/Ini/Delete.antt =====
-- common/ini.c: what `ini_get` returns after `ini_delete_key` and `ini_delete_section`.
use ps4_hen_plugins.Base.{
  Bool, true, false, ◌&&◌, none, some, List, [], ◌∷◌, ◌++◌, ◌≡◌, refl, sym, ap, ◌∙◌, inl, inr,
  arith, if◌then◌else◌, Bytes, All, matches, matches_iff, Bool-cases, Option-cases,
}
use mathlib.Core.Path.{subst}
use ps4_hen_plugins.Ini.{KeyValue, Section, IniFile, Focus, plug}
use ps4_hen_plugins.Ini.Find.{node, named, look, IsFirst, look-found, find-none, node-find_skip}
use ps4_hen_plugins.Ini.Get.{value_in, ini_get-value_in, found_section}
use ps4_hen_plugins.Ini.Store.{find_section, find_key, ini_get, ini_delete_key, ini_delete_section}

-- No two nodes of the list have one name.
abbrev pub IsDistinct : {A : Type 0} → (A → Bytes) → List A → Type 0
IsDistinct name_of [] = Unit
IsDistinct name_of (x ∷ xs) =
    All (λ y. matches (name_of y) (name_of x) ≡ false) xs × IsDistinct name_of xs

module _ {A : Type 0} (name_of : A → Bytes) where
  All-append : (P : A → Type 0) (xs ys : List A) → All P xs → All P ys → All P (xs ++ ys)
  All-append P [] ys h k = k
  All-append P (x ∷ xs) ys h k = (h.0, All-append P xs ys h.1 k)

  later_differ :
      (before after : List A) (x : A) (name : Bytes)
      → name_of x ≡ name
      → IsDistinct name_of (plug before x after)
      → All (λ y. named name_of name y ≡ false) after
  later_differ [] after x name e h = rw e at h.0
  later_differ (y ∷ before) after x name e h = later_differ before after x name e h.1

  -- Without the node that a name leads to, the name leads nowhere, and the others where they did.
  pub look_removed :
      (xs : List A) (name other : Bytes) (f : Focus A)
      → IsFirst (named name_of name) xs (some f)
      → IsDistinct name_of xs
      → look name_of (f.0 ++ f.2) other
        ≡ (if matches name other then none else look name_of xs other)
  look_removed xs name other (before, x, after) (split, fits, earlier) distinct =
      let x_name : name_of x ≡ name = (matches_iff (name_of x) name).0 fits in
      let parts : IsDistinct name_of (plug before x after) = rw split at distinct in
      let later = later_differ before after x name x_name parts in
      let absent : look name_of (before ++ after) name ≡ none = ap node (
        find-none (named name_of name) (before ++ after)
          (All-append (λ y. named name_of name y ≡ false) before after earlier later)) in
      elim (Bool-cases (matches name other)) [
        | inl h ↦ rw h (
            subst (λ n. look name_of (before ++ after) n ≡ none) ((matches_iff name other).0 h)
              absent)
        | inr h ↦
            rw (h, split) (sym (node-find_skip (named name_of other) before after x (rw x_name h)))
      ]

-- The names of the sections are distinct, and so are those of the keys within each section.
pub record HasDistinctNames (ini : IniFile) : Type 0 where
  pub section_names : IsDistinct (λ s. s.name) ini.sections
  pub key_names : All (λ s. IsDistinct (λ k. k.key) s.keys) ini.sections

All-focus :
    {A : Type 0} (P : A → Type 0) (before after : List A) (x : A)
    → All P (plug before x after)
    → P x
All-focus P [] after x h = h.0
All-focus P (y ∷ before) after x h = All-focus P before after x h.1

key_removed :
    (s : Section) (name other : Bytes) (f : Focus KeyValue)
    → find_key s.keys name ≡ some f
    → IsDistinct (λ k. k.key) s.keys
    → value_in (some (record s { keys = f.0 ++ f.2 })) other
      ≡ (if matches name other then none else value_in (some s) other)
unfolding find_key
key_removed s name other f found distinct =
    let removed =
      look_removed (λ k. k.key) s.keys name other f (look-found (λ k. k.key) s.keys name f found)
        distinct in
    elim (Bool-cases (matches name other)) [
      | inl h ↦ rw (h, removed, h)
      | inr h ↦ rw (h, removed, h)
    ]

nothing_there :
    (ini : IniFile) (section_name key_name section key : Bytes)
    → ini_get (some ini) section_name key_name ≡ none
    → ini_get (some ini) section key ≡ (
        if matches section_name section && matches key_name key
        then none
        else ini_get (some ini) section key)
nothing_there ini section_name key_name section key absent =
    ground (arith, matches_iff section_name section, matches_iff key_name key)

no_section :
    (ini : IniFile) (section_name key_name : Bytes)
    → find_section ini.sections section_name ≡ none
    → ini_get (some ini) section_name key_name ≡ none
no_section ini section_name key_name e = rw (ini_get-value_in, e)

in_section :
    (ini : IniFile) (section_name key_name : Bytes) {f : Focus Section}
    → find_section ini.sections section_name ≡ some f
    → ini_get (some ini) section_name key_name ≡ value_in (some f.1) key_name
in_section ini section_name key_name e = rw (ini_get-value_in, e)

section_replaced :
    (sections : List Section) (section_name key_name section key : Bytes) (f : Focus Section)
    (s' : Section)
    → find_section sections section_name ≡ some f
    → s'.name ≡ f.1.name
    → value_in (some s') key ≡ (if matches key_name key then none else value_in (some f.1) key)
    → value_in (node (find_section (plug f.0 s' f.2) section)) key ≡ (
        if matches section_name section && matches key_name key
        then none
        else value_in (node (find_section sections section)) key)
unfolding find_section
section_replaced sections section_name key_name section key f s' found named_as inner =
    let (f_name, values, slot) = found_section sections section_name f found in
    let seen = slot s' section (named_as ∙ f_name) in
    elim (Bool-cases (matches section_name section)) [
      | inl h ↦
          let kept : value_in (some f.1) key ≡ value_in (node (find_section sections section)) key =
            subst (λ n. value_in (some f.1) key ≡ value_in (node (find_section sections n)) key)
              ((matches_iff section_name section).0 h) (values key) in
          rw (h, seen, h, ← kept) inner
      | inr h ↦ rw (h, seen, h)
    ]

-- After `ini_delete_key`, where names are distinct, the key is gone from its section and every
-- other value is as before; nothing changes where the section or the key is not found.
pub ini_get-ini_delete_key :
    (ini : IniFile) (section_name key_name section key : Bytes)
    → HasDistinctNames ini
    → ini_get (ini_delete_key (some ini) section_name key_name).0 section key ≡ (
        if matches section_name section && matches key_name key
        then none
        else ini_get (some ini) section key)
unfolding ini_delete_key
ini_get-ini_delete_key ini section_name key_name section key distinct =
    elim (Option-cases (find_section ini.sections section_name)) [
      | inl absent ↦
          rw (absent, ini_delete_key)
            (nothing_there ini section_name key_name section key
              (no_section ini section_name key_name absent))
      | inr (f, found) ↦
          let split =
            look-found (λ s. s.name) ini.sections section_name f (unfold find_section in found) in
          let keys =
            All-focus (λ s. IsDistinct (λ k. k.key) s.keys) f.0 f.2 f.1
              (rw split.0 at distinct.key_names) in
          elim (Option-cases (find_key f.1.keys key_name)) [
            | inl absent ↦
                rw (found, ini_delete_key, absent)
                  (nothing_there ini section_name key_name section key
                    (in_section ini section_name key_name found ∙ rw absent))
            | inr (g, found_key) ↦
                rw (found, ini_delete_key, found_key, ini_get-value_in, ini_get-value_in)
                  (section_replaced ini.sections section_name key_name section key f
                    (record (f.1) { keys = g.0 ++ g.2 }) found refl
                    (key_removed f.1 key_name key g found_key keys))
          ]
    ]

no_values :
    (ini : IniFile) (section_name section key : Bytes)
    → find_section ini.sections section_name ≡ none
    → ini_get (some ini) section key
      ≡ (if matches section_name section then none else ini_get (some ini) section key)
no_values ini section_name section key absent =
    ground (arith, matches_iff section_name section, no_section ini section_name key absent)

section_gone :
    (old new : List Section) (same : Bool) (section key : Bytes)
    → look (λ s. s.name) new section ≡ (if same then none else look (λ s. s.name) old section)
    → value_in (node (find_section new section)) key
      ≡ (if same then none else value_in (node (find_section old section)) key)
unfolding find_section
section_gone old new true section key h = rw h
section_gone old new false section key h = rw h

-- After `ini_delete_section`, where names are distinct, the section has no values, and those of
-- every other section are as before.
pub ini_get-ini_delete_section :
    (ini : IniFile) (section_name section key : Bytes)
    → HasDistinctNames ini
    → ini_get (ini_delete_section (some ini) section_name).0 section key
      ≡ (if matches section_name section then none else ini_get (some ini) section key)
unfolding ini_delete_section
ini_get-ini_delete_section ini section_name section key distinct =
    elim (Option-cases (find_section ini.sections section_name)) [
      | inl absent ↦ rw (absent, ini_delete_section) (no_values ini section_name section key absent)
      | inr (f, found) ↦
          let gone =
            look_removed (λ s. s.name) ini.sections section_name section f
              (look-found (λ s. s.name) ini.sections section_name f (unfold find_section in found))
              distinct.section_names in
          rw (found, ini_delete_section, ini_get-value_in, ini_get-value_in)
            (section_gone ini.sections (f.0 ++ f.2) (matches section_name section) section key gone)
    ]
