-- ===== src/Ini/Store.antt =====
-- common/ini.c: the operations on an INI file in memory.
use ps4_hen_plugins.Base.{
  ℕ, ◌-◌, Bool, true, false, Option, none, some, List, [], ◌∷◌, ◌++◌, if◌then◌else◌, Bytes, take,
  matches,
}
use ps4_hen_plugins.Ini.{
  Comment, KeyValue, Section, IniFile, Focus, plug, find, max_key_length, max_value_length,
  max_section_length, max_comment_length,
}

-- `strncpy(dst, src, size - 1); dst[size - 1] = '\0';`
abbrev pub bounded_copy : ℕ → Bytes → Bytes
bounded_copy size src = take (size - 1) src

-- The answer of `malloc` comes first in each function that allocates: false where it returns NULL.
unfoldable pub create_comment : Bool → Bytes → Option Comment
create_comment malloc text = if malloc then some (bounded_copy max_comment_length text) else none

unfoldable pub add_comment_to_list : Bool → List Comment → Bytes → List Comment
unfolding create_comment
add_comment_to_list malloc list text = elim (create_comment malloc text) [
  | none ↦ list
  | some c ↦ list ++ c ∷ []
]

unfoldable pub find_section : List Section → Bytes → Option (Focus Section)
find_section sections name = find (λ s. matches s.name name) sections

abbrev pub new_section : Bytes → Section
new_section name = record {
  name = bounded_copy max_section_length name;
  comment = [];
  comments_before = [];
  keys = [];
}

abbrev pub new_key : Bytes → KeyValue
new_key name = record {
  key = bounded_copy max_key_length name;
  value = [];
  comment = [];
  comments_before = [];
}

unfoldable pub create_section : Bool → List Section → Bytes → Option (Focus Section)
create_section malloc sections name = if malloc then some ([], new_section name, sections) else none

unfoldable pub find_key : List KeyValue → Bytes → Option (Focus KeyValue)
find_key keys name = find (λ k. matches k.key name) keys

unfoldable pub create_key : Bool → List KeyValue → Bytes → Option (Focus KeyValue)
create_key malloc keys name = if malloc then some ([], new_key name, keys) else none

-- Each operation takes NULL pointers as `none`.
unfoldable pub ini_get : Option IniFile → Bytes → Bytes → Option Bytes
unfolding find_section find_key
ini_get none section_name key_name = none
ini_get (some ini) section_name key_name = elim (find_section ini.sections section_name) [
  | none ↦ none
  | some (_, section, _) ↦ elim (find_key section.keys key_name) [
    | none ↦ none
    | some (_, key, _) ↦ some key.value
  ]
]

-- What `malloc` answers for a section and for a key.
pub record Allocs : Type 0 where
  pub for_section : Bool
  pub for_key : Bool

-- `find_section`, and `create_section` where that finds none; the same for keys.
unfoldable pub get_section : Bool → List Section → Bytes → Option (Focus Section)
unfolding find_section create_section
get_section malloc sections name = elim (find_section sections name) [
  | none ↦ create_section malloc sections name
  | some f ↦ some f
]

unfoldable pub get_key : Bool → List KeyValue → Bytes → Option (Focus KeyValue)
unfolding find_key create_key
get_key malloc keys name = elim (find_key keys name) [
  | none ↦ create_key malloc keys name
  | some f ↦ some f
]

unfoldable pub write_key : KeyValue → Bytes → Option Bytes → KeyValue
write_key k value none = record k { value = bounded_copy max_value_length value }
write_key k value (some comment) = record k {
  value = bounded_copy max_value_length value;
  comment = bounded_copy max_comment_length comment;
}

-- The section with the value stored at the key, or as it was where there is no key.
unfoldable pub store_key : Section → Bytes → Option Bytes → Option (Focus KeyValue) → Section × Bool
unfolding write_key
store_key s value comment none = (s, false)
store_key s value comment (some (before, k, after)) =
    (record s { keys = plug before (write_key k value comment) after }, true)

unfoldable pub set_in_section : Bool → Section → Bytes → Bytes → Option Bytes → Section × Bool
unfolding get_key store_key
set_in_section malloc s key_name value comment =
    store_key s value comment (get_key malloc s.keys key_name)

unfoldable pub store_section :
    Bool → IniFile → Bytes → Bytes → Option Bytes → Option (Focus Section) → IniFile × Bool
unfolding set_in_section
store_section malloc ini key_name value comment none = (ini, false)
store_section malloc ini key_name value comment (some (before, s, after)) =
    let (s', done) = set_in_section malloc s key_name value comment in
    (
      record ini {
        sections = plug before s' after;
        modified = if done then true else ini.modified;
      },
      done,
    )

unfoldable pub set_value : Allocs → IniFile → Bytes → Bytes → Bytes → Option Bytes → IniFile × Bool
unfolding get_section store_section
set_value allocs ini section_name key_name value comment =
    store_section allocs.for_key ini key_name value comment
      (get_section allocs.for_section ini.sections section_name)

abbrev pub returns : IniFile × Bool → Option IniFile × Bool
returns (ini, result) = (some ini, result)

unfoldable pub ini_set_with_comment :
    Allocs
    → Option IniFile
    → Option Bytes
    → Option Bytes
    → Option Bytes
    → Option Bytes
    → Option IniFile × Bool
unfolding set_value
ini_set_with_comment allocs (some ini) (some section_name) (some key_name) (some value) comment =
    returns (set_value allocs ini section_name key_name value comment)
ini_set_with_comment allocs ini _ _ _ _ = (ini, false)

unfoldable pub ini_set :
    Allocs → Option IniFile → Option Bytes → Option Bytes → Option Bytes → Option IniFile × Bool
unfolding ini_set_with_comment
ini_set allocs ini section_name key_name value =
    ini_set_with_comment allocs ini section_name key_name value none

unfoldable pub ini_add_comment :
    Bool → Option IniFile → Option Bytes → Option Bytes → Option IniFile × Bool
unfolding add_comment_to_list find_section
ini_add_comment malloc (some ini) none (some text) = (
  some (record ini {
    header_comments = add_comment_to_list malloc ini.header_comments text;
    modified = true;
  }),
  true,
)
ini_add_comment malloc (some ini) (some section_name) (some text) =
    elim (find_section ini.sections section_name) [
      | none ↦ (some ini, false)
      | some (before, s, after) ↦
          let s' = record s {
            comments_before = add_comment_to_list malloc s.comments_before text;
          } in
          (some (record ini { sections = plug before s' after; modified = true }), true)
    ]
ini_add_comment malloc ini _ _ = (ini, false)

unfoldable pub ini_add_section_comment :
    Option IniFile → Option Bytes → Option Bytes → Option IniFile × Bool
unfolding find_section
ini_add_section_comment (some ini) (some section_name) (some text) =
    elim (find_section ini.sections section_name) [
      | none ↦ (some ini, false)
      | some (before, s, after) ↦
          let s' = record s { comment = bounded_copy max_comment_length text } in
          (some (record ini { sections = plug before s' after; modified = true }), true)
    ]
ini_add_section_comment ini _ _ = (ini, false)

unfoldable pub ini_delete_key : Option IniFile → Bytes → Bytes → Option IniFile × Bool
unfolding find_section find_key
ini_delete_key none section_name key_name = (none, false)
ini_delete_key (some ini) section_name key_name = elim (find_section ini.sections section_name) [
  | none ↦ (some ini, false)
  | some (before, s, after) ↦ elim (find_key s.keys key_name) [
    | none ↦ (some ini, false)
    | some (keys_before, _, keys_after) ↦
        let s' = record s { keys = keys_before ++ keys_after } in
        (some (record ini { sections = plug before s' after; modified = true }), true)
  ]
]

unfoldable pub ini_delete_section : Option IniFile → Bytes → Option IniFile × Bool
unfolding find_section
ini_delete_section none section_name = (none, false)
ini_delete_section (some ini) section_name = elim (find_section ini.sections section_name) [
  | none ↦ (some ini, false)
  | some (before, _, after) ↦
      (some (record ini { sections = before ++ after; modified = true }), true)
]
