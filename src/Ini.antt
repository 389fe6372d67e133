-- ===== src/Ini.antt =====
-- common/ini.h and common/ini.c: the structures of an INI file, and the lists that link them.
pub mod Text
pub mod Store
pub mod Load
pub mod Save
pub mod Find
pub mod Get
pub mod Trim
pub mod Lines
pub mod Printable
pub mod RoundTrip
pub mod Bounded
pub mod Filename
pub mod Delete
mod Tests
use ps4_hen_plugins.Base.{
  ℕ, Bool, true, false, Option, none, some, List, [], ◌∷◌, ◌++◌, Bytes, if◌then◌else◌,
}

-- The sizes of the fields, each with the terminating NUL.
abbrev pub max_line_length : ℕ
max_line_length = 1024

abbrev pub max_key_length : ℕ
max_key_length = 256

abbrev pub max_value_length : ℕ
max_value_length = 512

abbrev pub max_section_length : ℕ
max_section_length = 256

abbrev pub max_comment_length : ℕ
max_comment_length = 512

-- A `Comment` is its text; the links `next` are the list that holds it, here and below.
abbrev pub Comment : Type 0
Comment = Bytes

pub record KeyValue : Type 0 where
  pub key : Bytes
  pub value : Bytes
  pub comment : Bytes
  pub comments_before : List Comment

pub record Section : Type 0 where
  pub name : Bytes
  pub comment : Bytes
  pub comments_before : List Comment
  pub keys : List KeyValue

pub record IniFile : Type 0 where
  pub sections : List Section
  pub header_comments : List Comment
  pub filename : Option Bytes
  pub modified : Bool

-- A pointer into a linked list: the node, between the nodes before it and those after it.
abbrev pub Focus {ℓ} : Type ℓ → Type ℓ
Focus A = List A × A × List A

module _ {ℓ} {A : Type ℓ} where
  -- The list with the node replaced.
  abbrev pub plug : List A → A → List A → List A
  plug before x after = before ++ x ∷ after

  -- The loop `while (current) { if (...) return current; current = current->next; }`.
  unfoldable pub find : (A → Bool) → List A → Option (Focus A)
  find p [] = none
  find p (x ∷ xs) =
      if p x
      then some ([], x, xs)
      else elim (find p xs) [ none ↦ none | some (before, y, after) ↦ some (x ∷ before, y, after) ]
