-- ===== src/Ini/Save.antt =====
-- common/ini.c: `ini_save` and `ini_print`, as the bytes that they write.
use ps4_hen_plugins.Base.{
  Bool, true, false, Option, none, some, List, [], ◌∷◌, ◌++◌, if◌then◌else◌, Bytes, codes,
}
use ps4_hen_plugins.Ini.{Comment, KeyValue, Section, IniFile}

-- `if (strlen(text) == 0) "\n" else "; %s\n"`
unfoldable pub print_comment : Comment → Bytes
print_comment [] = b'\n' ∷ []
print_comment (c ∷ cs) = b';' ∷ b' ' ∷ ((c ∷ cs) ++ b'\n' ∷ [])

unfoldable pub print_comments : List Comment → Bytes
unfolding print_comment
print_comments [] = []
print_comments (c ∷ cs) = print_comment c ++ print_comments cs

-- What stands behind the line's content: `" ; %s\n"` or `"\n"`.
unfoldable pub print_line_end : Bytes → Bytes
print_line_end [] = b'\n' ∷ []
print_line_end (c ∷ cs) = b' ' ∷ b';' ∷ b' ' ∷ ((c ∷ cs) ++ b'\n' ∷ [])

unfoldable pub print_header : Section → Bytes
unfolding print_line_end
print_header s = b'[' ∷ (s.name ++ (b']' ∷ print_line_end s.comment))

unfoldable pub print_key : KeyValue → Bytes
unfolding print_line_end
print_key k = k.key ++ (b' ' ∷ b'=' ∷ b' ' ∷ (k.value ++ print_line_end k.comment))

unfoldable pub print_keys : List KeyValue → Bytes
unfolding print_comments print_key
print_keys [] = []
print_keys (k ∷ ks) = print_comments k.comments_before ++ (print_key k ++ print_keys ks)

unfoldable pub print_section : Section → Bytes
unfolding print_comments print_header print_keys
print_section s =
    print_comments s.comments_before ++ (print_header s ++ (print_keys s.keys ++ b'\n' ∷ []))

unfoldable pub print_sections : List Section → Bytes
unfolding print_section
print_sections [] = []
print_sections (s ∷ ss) = print_section s ++ print_sections ss

unfoldable pub print_file : IniFile → Bytes
unfolding print_comments print_sections
print_file ini = print_comments ini.header_comments ++ print_sections ini.sections

-- The structure, the result, and the contents of the file if it was opened.
pub record Saved : Type 0 where
  pub ini : Option IniFile
  pub result : Bool
  pub written : Option Bytes

unfoldable pub save_named : Bool → IniFile → Option Bytes → Saved
unfolding print_file
save_named fopen ini none = record { ini = some ini; result = false; written = none }
save_named fopen ini (some filename) =
    if fopen
    then record {
      ini = some (record ini { modified = false });
      result = true;
      written = some (print_file ini);
    }
    else record { ini = some ini; result = false; written = none }

-- `fopen` says whether the file could be opened for writing.
unfoldable pub ini_save : Bool → Option IniFile → Saved
unfolding save_named
ini_save fopen none = record { ini = none; result = false; written = none }
ini_save fopen (some ini) = save_named fopen ini ini.filename

-- `ini_print`: two lines about the structure, and then what `ini_save` writes.
unfoldable pub ini_print : Option IniFile → Bytes
unfolding print_file
ini_print none = []
ini_print (some ini) =
    let name : Bytes = elim ini.filename [ none ↦ codes "(null)" | some n ↦ n ] in
    let modified = codes (if ini.modified then "Yes" else "No") in
    codes "INI File: "
    ++ (name ++ (codes "\nModified: " ++ (modified ++ (codes "\n\n" ++ print_file ini))))
