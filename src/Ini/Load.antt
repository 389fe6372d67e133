-- ===== src/Ini/Load.antt =====
-- common/ini.c: `ini_load`, from the bytes of the file to the structures.
use ps4_hen_plugins.Base.{
  ℕ, zero, suc, ◌-◌, Bool, true, false, ◌||◌, Option, none, some, List, [], ◌∷◌, ◌==◌,
  if◌then◌else◌, Bytes, length, drop, strchr,
}
use ps4_hen_plugins.Ini.{
  Comment, KeyValue, Section, IniFile, max_line_length, max_value_length, max_comment_length,
}
use ps4_hen_plugins.Ini.Text.{trim_whitespace, extract_comment}
use ps4_hen_plugins.Ini.Store.{bounded_copy, add_comment_to_list, create_section, create_key}

-- `fgets` with room for so many bytes: the line with its newline, and what is left of the file.
unfoldable pub fgets : ℕ → Bytes → Bytes × Bytes
fgets zero s = ([], s)
fgets (suc room) [] = ([], [])
fgets (suc room) (c ∷ cs) =
    let more = fgets room cs in if c == b'\n' then (c ∷ [], cs) else (c ∷ more.0, more.1)

-- The lines that the loop reads; each takes at least one byte, so the file's length is fuel enough.
unfoldable pub read_lines : ℕ → Bytes → List Bytes
unfolding fgets
read_lines zero s = []
read_lines (suc fuel) [] = []
read_lines (suc fuel) (c ∷ cs) =
    let (line, rest) = fgets (max_line_length - 1) (c ∷ cs) in line ∷ read_lines fuel rest

-- `line[strcspn(line, "\r\n")] = '\0'`, read as a C string.
unfoldable pub cut_line : Bytes → Bytes
cut_line [] = []
cut_line (c ∷ cs) = if c == 0 || c == b'\r' || c == b'\n' then [] else c ∷ cut_line cs

-- The local state of `ini_load`. The current section is the first of the list, if there is one.
-- `pending_comments` points to its `comments_before`, or to the header comments.
pub record Loader : Type 0 where
  pub ini : IniFile
  pub has_section : Bool
  pub pending_in_section : Bool

abbrev pub on_first {ℓ} : {A : Type ℓ} → (A → A) → List A → List A
on_first f [] = []
on_first f (x ∷ xs) = f x ∷ xs

abbrev pub first_comments : List Section → List Comment
first_comments [] = []
first_comments (s ∷ _) = s.comments_before

-- `*pending_comments`
abbrev pub pending : Loader → List Comment
pending l = if l.pending_in_section then first_comments l.ini.sections else l.ini.header_comments

-- `*pending_comments = comments`
abbrev pub set_pending : Loader → List Comment → IniFile
set_pending l comments =
    if l.pending_in_section
    then record (l.ini) {
      sections = on_first (λ s. record s { comments_before = comments }) l.ini.sections;
    }
    else record (l.ini) { header_comments = comments }

unfoldable pub add_pending : Bool → Loader → Bytes → Loader
unfolding add_comment_to_list
add_pending malloc l text = record l {
  ini = set_pending l (add_comment_to_list malloc (pending l) text);
}

-- `if (!comment) comment = extract_comment(line_copy, '#');`
unfoldable pub retry_comment : Bytes × Option Bytes → Bytes × Option Bytes
unfolding extract_comment
retry_comment (line, some comment) = (line, some comment)
retry_comment (line, none) = extract_comment line b'#'

-- The copy of the line up to its comment, and the comment: `;` is tried before `#`.
unfoldable pub split_comment : Bytes → Bytes × Option Bytes
unfolding retry_comment
split_comment line = retry_comment (extract_comment line b';')

-- `if (comment && *comment) strncpy(...)`, on a field that was empty.
unfoldable pub comment_field : Option Bytes → Bytes
comment_field none = []
comment_field (some []) = []
comment_field (some (c ∷ cs)) = bounded_copy max_comment_length (c ∷ cs)

unfoldable pub load_section : Bool → Loader → Bytes → Option Bytes → Loader
unfolding create_section comment_field
load_section malloc l name comment = elim (create_section malloc l.ini.sections name) [
  | none ↦ record l { has_section = false }
  | some (_, new, _) ↦
      let taken = record new { comments_before = pending l } in
      let emptied = set_pending l [] in
      let commented = record taken { comment = comment_field comment } in
      let current = record commented { comments_before = [] } in
      record {
        ini = record emptied { sections = current ∷ emptied.sections };
        has_section = true;
        pending_in_section = true;
      }
]

-- Where the line has a `]`, the name is what stands before it, less the first byte.
unfoldable pub load_named : Bool → Loader → Option Bytes → Option (Bytes × Bytes) → Loader
unfolding load_section
load_named malloc l comment none = l
load_named malloc l comment (some (before, _)) =
    load_section malloc l (trim_whitespace (drop 1 before)) comment

unfoldable pub load_header : Bool → Loader → Bytes → Loader
unfolding split_comment load_named
load_header malloc l original =
    let (copy, comment) = split_comment original in load_named malloc l comment (strchr b']' copy)

unfoldable pub add_key : Bool → Loader → Bytes → Bytes → Option Bytes → Section → Loader
unfolding create_key comment_field
add_key malloc l name value comment s = elim (create_key malloc s.keys name) [
  | none ↦ l
  | some (_, new, _) ↦
      let kv : KeyValue = record {
        key = new.key;
        value = bounded_copy max_value_length value;
        comment = comment_field comment;
        comments_before = pending l;
      } in
      let emptied = set_pending l [] in
      record l {
        ini = record emptied {
          sections = on_first (λ t. record t { keys = kv ∷ t.keys }) emptied.sections;
        };
      }
]

-- The key goes to the current section; without one the line is skipped.
unfoldable pub load_current : Bool → Loader → Bytes → Bytes → Option Bytes → List Section → Loader
unfolding add_key
load_current malloc l name value comment [] = l
load_current malloc l name value comment (s ∷ _) =
    if l.has_section then add_key malloc l name value comment s else l

unfoldable pub load_pair : Bool → Loader → Option Bytes → Option (Bytes × Bytes) → Loader
unfolding load_current
load_pair malloc l comment none = l
load_pair malloc l comment (some (before, after)) =
    load_current malloc l (trim_whitespace before) (trim_whitespace after) comment l.ini.sections

unfoldable pub load_key : Bool → Loader → Bytes → Loader
unfolding split_comment load_pair
load_key malloc l original = elim (strchr b'=' original) [
  | none ↦ l
  | some _ ↦
      let (copy, comment) = split_comment original in load_pair malloc l comment (strchr b'=' copy)
]

-- The cases of the loop's body, by the first byte of the trimmed line.
unfoldable pub load_trimmed : Bool → Loader → Bytes → Bytes → Loader
unfolding add_pending load_header load_key
load_trimmed malloc l original [] = add_pending malloc l []
load_trimmed malloc l original (c ∷ cs) =
    if c == b';' || c == b'#'
    then add_pending malloc l (trim_whitespace cs)
    else if c == b'['
    then load_header malloc l original
    else load_key malloc l original

unfoldable pub load_line : Bool → Loader → Bytes → Loader
unfolding load_trimmed cut_line
load_line malloc l line =
    let original = cut_line line in load_trimmed malloc l original (trim_whitespace original)

-- `malloc n` is the answer to the allocation that line number `n` makes.
unfoldable pub load_lines : (ℕ → Bool) → ℕ → Loader → List Bytes → Loader
unfolding load_line
load_lines malloc n l [] = l
load_lines malloc n l (line ∷ lines) = load_lines malloc (suc n) (load_line (malloc n) l line) lines

abbrev pub empty_file : Bytes → IniFile
empty_file filename = record {
  sections = [];
  header_comments = [];
  filename = some filename;
  modified = false;
}

abbrev pub start : Bytes → Loader
start filename = record {
  ini = empty_file filename;
  has_section = false;
  pending_in_section = false;
}

-- The file is `none` where `fopen` fails; `malloc 0` is the answer for the structure itself.
unfoldable pub ini_load : (ℕ → Bool) → Bytes → Option Bytes → Option IniFile
unfolding load_lines read_lines
ini_load malloc filename none = if malloc 0 then some (empty_file filename) else none
ini_load malloc filename (some file) =
    let loaded = load_lines malloc 1 (start filename) (read_lines (length file) file) in
    if malloc 0 then some loaded.ini else none
