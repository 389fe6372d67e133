-- ===== src/Ini/Get.antt =====
-- common/ini.c: what `ini_get` returns after `ini_set_with_comment`.
use ps4_hen_plugins.Base.{
  ◌≤◌, Bool, true, false, ◌&&◌, Option, none, some, List, ◌≡◌, refl, ap, ◌∙◌, inl, inr, arith,
  if◌then◌else◌, Bytes, length, take, matches, matches_iff, Bool-cases, Option-cases, take_all,
  some_inj, none-ne-some,
}
use ps4_hen_plugins.Ini.{KeyValue, Section, IniFile, Focus, find}
use ps4_hen_plugins.Ini.Find.{node, IsSlot, look-found, found-IsSlot, fresh-IsSlot}
use mathlib.Core.Path.{subst}
use ps4_hen_plugins.Ini.Store.{
  bounded_copy, find_section, create_section, find_key, create_key, ini_get, Allocs, get_section,
  get_key, write_key, store_key, store_section, new_section, new_key, set_in_section, set_value,
  ini_set_with_comment,
}

-- `ini_get` in terms of the nodes found.
abbrev pub value_of : Option KeyValue → Option Bytes
value_of none = none
value_of (some k) = some k.value

abbrev pub value_in : Option Section → Bytes → Option Bytes
value_in none name = none
value_in (some s) name = value_of (node (find_key s.keys name))

pub ini_get-value_in :
    (ini : IniFile) (section_name key_name : Bytes)
    → ini_get (some ini) section_name key_name
      ≡ value_in (node (find_section ini.sections section_name)) key_name
unfolding ini_get
ini_get-value_in ini section_name key_name = ground arith

-- Names that fit their fields.
abbrev pub Fits : Bytes → Type 0
Fits name = length name ≤ 255

-- What the node that a lookup or an allocation gives for a name is to the list.
abbrev pub SectionSlot : List Section → Bytes → Focus Section → Type 0
SectionSlot sections name f =
    (f.1.name ≡ name)
    × ((key : Bytes) → value_in (some f.1) key ≡ value_in (node (find_section sections name)) key)
    × IsSlot (λ s. s.name) sections name f

abbrev pub KeySlot : List KeyValue → Bytes → Focus KeyValue → Type 0
KeySlot keys name f = (f.1.key ≡ name) × IsSlot (λ k. k.key) keys name f

pub found_section :
    (sections : List Section) (name : Bytes) (f : Focus Section)
    → find_section sections name ≡ some f
    → SectionSlot sections name f
unfolding find_section
found_section sections name f e =
    let first = look-found (λ s. s.name) sections name f e in
    (
      (matches_iff f.1.name name).0 first.1,
      (λ key. rw e),
      found-IsSlot (λ s. s.name) sections name f first,
    )

fresh_section :
    (sections : List Section) (name : Bytes) (f : Focus Section)
    → Fits name
    → find_section sections name ≡ none
    → create_section true sections name ≡ some f
    → SectionSlot sections name f
unfolding find_section create_section find_key find
fresh_section sections name f fits absent e = subst (SectionSlot sections name) (some_inj e) (
  take_all 255 name fits,
  (λ key. rw absent),
  fresh-IsSlot (λ s. s.name) sections name (new_section name),
)

created_section :
    (malloc : Bool) (sections : List Section) (name : Bytes) (f : Focus Section)
    → Fits name
    → find_section sections name ≡ none
    → create_section malloc sections name ≡ some f
    → SectionSlot sections name f
unfolding create_section
created_section true sections name f fits absent e = fresh_section sections name f fits absent e
created_section false sections name f fits absent e = absurd (none-ne-some e)

pub get_section-SectionSlot :
    (malloc : Bool) (sections : List Section) (name : Bytes) (f : Focus Section)
    → Fits name
    → get_section malloc sections name ≡ some f
    → SectionSlot sections name f
unfolding get_section
get_section-SectionSlot malloc sections name f fits e =
    elim (Option-cases (find_section sections name)) [
      | inl absent ↦
          created_section malloc sections name f fits absent (rw (absent, get_section) at e)
      | inr (g, found) ↦ found_section sections name f (found ∙ (rw (found, get_section) at e))
    ]

found_key :
    (keys : List KeyValue) (name : Bytes) (f : Focus KeyValue)
    → find_key keys name ≡ some f
    → KeySlot keys name f
unfolding find_key
found_key keys name f e =
    let first = look-found (λ k. k.key) keys name f e in
    ((matches_iff f.1.key name).0 first.1, found-IsSlot (λ k. k.key) keys name f first)

created_key :
    (malloc : Bool) (keys : List KeyValue) (name : Bytes) (f : Focus KeyValue)
    → Fits name
    → create_key malloc keys name ≡ some f
    → KeySlot keys name f
unfolding create_key
created_key true keys name f fits e =
    subst (KeySlot keys name) (some_inj e)
      (take_all 255 name fits, fresh-IsSlot (λ k. k.key) keys name (new_key name))
created_key false keys name f fits e = absurd (none-ne-some e)

pub get_key-KeySlot :
    (malloc : Bool) (keys : List KeyValue) (name : Bytes) (f : Focus KeyValue)
    → Fits name
    → get_key malloc keys name ≡ some f
    → KeySlot keys name f
unfolding get_key
get_key-KeySlot malloc keys name f fits e = elim (Option-cases (find_key keys name)) [
  | inl absent ↦ created_key malloc keys name f fits (rw (absent, get_key) at e)
  | inr (g, found) ↦ found_key keys name f (found ∙ (rw (found, get_key) at e))
]

write_key-key :
    (k : KeyValue) (value : Bytes) (c : Option Bytes) → (write_key k value c).key ≡ k.key
unfolding write_key
write_key-key k value none = refl
write_key-key k value (some c) = refl

write_key-value :
    (k : KeyValue) (value : Bytes) (c : Option Bytes)
    → (write_key k value c).value ≡ bounded_copy 512 value
unfolding write_key
write_key-value k value none = refl
write_key-value k value (some c) = refl

stored_value :
    (s : Section) (name value : Bytes) (comment : Option Bytes) (other : Bytes)
    (o : Option (Focus KeyValue))
    → ((f : Focus KeyValue) → o ≡ some f → KeySlot s.keys name f)
    → value_in (some (store_key s value comment o).0) other ≡ (
        if (store_key s value comment o).1 && matches name other
        then some (bounded_copy 512 value)
        else value_in (some s) other)
unfolding store_key find_key
stored_value s name value comment other none slots = refl
stored_value s name value comment other (some f) slots =
    let (k_name, slot) = slots f refl in
    let k' = write_key f.1 value comment in
    let replaced = slot k' other (write_key-key f.1 value comment ∙ k_name) in
    elim (Bool-cases (matches name other)) [
      | inl h ↦ rw (h, replaced, h) (ap some (write_key-value f.1 value comment))
      | inr h ↦ rw (h, replaced, h)
    ]

-- The value under a key of the section, after a store into it.
value_in-set_in_section :
    (malloc : Bool) (s : Section) (name value : Bytes) (comment : Option Bytes) (other : Bytes)
    → Fits name
    → value_in (some (set_in_section malloc s name value comment).0) other ≡ (
        if (set_in_section malloc s name value comment).1 && matches name other
        then some (bounded_copy 512 value)
        else value_in (some s) other)
unfolding set_in_section
value_in-set_in_section malloc s name value comment other fits =
    stored_value s name value comment other (get_key malloc s.keys name)
      (λ f. get_key-KeySlot malloc s.keys name f fits)

store_key-name :
    (s : Section) (value : Bytes) (comment : Option Bytes) (o : Option (Focus KeyValue))
    → (store_key s value comment o).0.name ≡ s.name
unfolding store_key
store_key-name s value comment none = refl
store_key-name s value comment (some f) = refl

set_in_section-name :
    (malloc : Bool) (s : Section) (name value : Bytes) (comment : Option Bytes)
    → (set_in_section malloc s name value comment).0.name ≡ s.name
unfolding set_in_section
set_in_section-name malloc s name value comment =
    store_key-name s value comment (get_key malloc s.keys name)

and_false : {A : Type 0} (b : Bool) (x y : A) → y ≡ (if b && false then x else y)
and_false true x y = refl
and_false false x y = refl

module _ (ini : IniFile) (malloc : Bool) (section_name key_name value : Bytes)
    (comment : Option Bytes) (fits : Fits key_name) where
  stored_section :
      (o : Option (Focus Section)) (section key : Bytes)
      → ((f : Focus Section) → o ≡ some f → SectionSlot ini.sections section_name f)
      → let (ini', done) = store_section malloc ini key_name value comment o in
        value_in (node (find_section ini'.sections section)) key ≡ (
          if done && (matches section_name section && matches key_name key)
          then some (bounded_copy 512 value)
          else value_in (node (find_section ini.sections section)) key)
  unfolding store_section find_section
  stored_section none section key slots = refl
  stored_section (some f) section key slots =
      let (s_name, values, slot) = slots f refl in
      let s' = (set_in_section malloc f.1 key_name value comment).0 in
      let done = (set_in_section malloc f.1 key_name value comment).1 in
      let replaced =
        slot s' section (set_in_section-name malloc f.1 key_name value comment ∙ s_name) in
      elim (Bool-cases (matches section_name section)) [
        | inl h ↦
            let same : section_name ≡ section = (matches_iff section_name section).0 h in
            let kept : value_in (some f.1) key
                ≡ value_in (node (find_section ini.sections section)) key =
              subst
                (λ n. value_in (some f.1) key ≡ value_in (node (find_section ini.sections n)) key)
                same (values key) in
            rw (h, replaced, h, ← kept)
              (value_in-set_in_section malloc f.1 key_name value comment key fits)
        | inr h ↦ rw (h, replaced, h) (and_false done _ _)
      ]

-- What `ini_get` returns after `ini_set_with_comment` stored, or failed to store, a value under
-- names that fit their fields: the value, cut to its field, where the call returned true and both
-- names are the ones given, and what it returned before in every other case.
pub ini_get-ini_set_with_comment :
    (allocs : Allocs) (ini : IniFile) (section_name key_name value : Bytes) (comment : Option Bytes)
    (section key : Bytes)
    → length section_name ≤ 255
    → length key_name ≤ 255
    → let (ini', done) =
        ini_set_with_comment allocs
          (some ini)
          (some section_name)
          (some key_name)
          (some value)
          comment in
      ini_get ini' section key ≡ (
        if done && (matches section_name section && matches key_name key)
        then some (take 511 value)
        else ini_get (some ini) section key)
unfolding ini_set_with_comment set_value
ini_get-ini_set_with_comment allocs ini section_name key_name value comment section key fits fits' =
    let o = get_section allocs.for_section ini.sections section_name in
    rw (ini_get-value_in, ini_get-value_in)
      (stored_section ini allocs.for_key section_name key_name value comment fits' o section key
        (λ f. get_section-SectionSlot allocs.for_section ini.sections section_name f fits))
