-- ===== src/Ini/Lines.antt =====
-- common/ini.c: what `ini_save` writes, line by line, and how `ini_load` reads the lines back.
use ps4_hen_plugins.Base.{
  ℕ, zero, suc, ◌≤◌, List, [], ◌∷◌, ◌++◌, ◌≡◌, refl, ap, ◌∙◌, arith, Bytes, length, All, Lacks,
  append_assoc, length-append,
}
use ps4_hen_plugins.Ini.{Comment, KeyValue, Section, IniFile}
use ps4_hen_plugins.Ini.Load.{fgets, read_lines, cut_line}
use ps4_hen_plugins.Ini.Save.{
  print_comment, print_comments, print_line_end, print_header, print_key, print_keys, print_section,
  print_sections, print_file,
}

-- Lines with their newlines, one after the other.
abbrev pub unlines : List Bytes → Bytes
unlines [] = []
unlines (l ∷ ls) = l ++ b'\n' ∷ unlines ls

abbrev pub newlined : List Bytes → List Bytes
newlined [] = []
newlined (l ∷ ls) = (l ++ b'\n' ∷ []) ∷ newlined ls

-- A line that `fgets` reads whole, with no byte at which it would be cut.
pub record IsLine (l : Bytes) : Type 0 where
  pub no_nul : Lacks 0 l
  pub no_newline : Lacks b'\n' l
  pub no_return : Lacks b'\r' l
  pub fits : length l ≤ 1022

fgets_line :
    (room : ℕ) (l rest : Bytes)
    → length l ≤ room
    → Lacks b'\n' l
    → fgets (suc room) (l ++ b'\n' ∷ rest) ≡ (l ++ b'\n' ∷ [], rest)
unfolding fgets
fgets_line room [] rest h k = refl
fgets_line zero (c ∷ l) rest h k = elim h [ ]
fgets_line (suc room) (c ∷ l) rest h k = ground (arith, fgets_line room l rest (omega arith) k.1)

pub cut_line_newline :
    (l : Bytes) → Lacks 0 l → Lacks b'\n' l → Lacks b'\r' l → cut_line (l ++ b'\n' ∷ []) ≡ l
unfolding cut_line
cut_line_newline [] z n r = refl
cut_line_newline (c ∷ l) z n r = ground (arith, cut_line_newline l z.1 n.1 r.1)

read_line :
    (fuel : ℕ) (l rest : Bytes)
    → IsLine l
    → read_lines (suc fuel) (l ++ b'\n' ∷ rest) ≡ (l ++ b'\n' ∷ []) ∷ read_lines fuel rest
unfolding read_lines
read_line fuel [] rest h = refl
read_line fuel (c ∷ l) rest h = rw (fgets_line 1022 (c ∷ l) rest h.fits h.no_newline)

pub read_lines-unlines :
    (fuel : ℕ) (ls : List Bytes)
    → All IsLine ls
    → length ls ≤ fuel
    → read_lines fuel (unlines ls) ≡ newlined ls
unfolding read_lines
read_lines-unlines zero [] h k = refl
read_lines-unlines (suc fuel) [] h k = refl
read_lines-unlines zero (l ∷ ls) h k = elim k [ ]
read_lines-unlines (suc fuel) (l ∷ ls) h k =
    read_line fuel l (unlines ls) h.0
    ∙ ap (λ t. (l ++ b'\n' ∷ []) ∷ t) (read_lines-unlines fuel ls h.1 (omega arith))

pub length-le-unlines : (ls : List Bytes) → length ls ≤ length (unlines ls)
length-le-unlines [] = omega arith
length-le-unlines (l ∷ ls) =
    omega (arith, length-append l (b'\n' ∷ unlines ls), length-le-unlines ls)

-- The lines of each part.
abbrev pub comment_line : Comment → Bytes
comment_line [] = []
comment_line (c ∷ cs) = b';' ∷ b' ' ∷ c ∷ cs

abbrev pub line_end : Bytes → Bytes
line_end [] = []
line_end (c ∷ cs) = b' ' ∷ b';' ∷ b' ' ∷ c ∷ cs

abbrev pub header_line : Section → Bytes
header_line s = b'[' ∷ (s.name ++ (b']' ∷ line_end s.comment))

abbrev pub key_line : KeyValue → Bytes
key_line k = k.key ++ (b' ' ∷ b'=' ∷ b' ' ∷ (k.value ++ line_end k.comment))

abbrev pub comment_lines : List Comment → List Bytes
comment_lines [] = []
comment_lines (c ∷ cs) = comment_line c ∷ comment_lines cs

abbrev pub key_lines : List KeyValue → List Bytes
key_lines [] = []
key_lines (k ∷ ks) = comment_lines k.comments_before ++ (key_line k ∷ key_lines ks)

abbrev pub section_lines : List Section → List Bytes
section_lines [] = []
section_lines (s ∷ ss) =
    comment_lines s.comments_before
    ++ (header_line s ∷ (key_lines s.keys ++ ([] ∷ section_lines ss)))

unlines-append : (a b : List Bytes) → unlines (a ++ b) ≡ unlines a ++ unlines b
unlines-append [] b = refl
unlines-append (l ∷ a) b = simp (unlines-append a b, append_assoc)

print_comments-unlines : (cs : List Comment) → print_comments cs ≡ unlines (comment_lines cs)
unfolding print_comments print_comment
print_comments-unlines [] = refl
print_comments-unlines ([] ∷ cs) = simp (print_comments-unlines cs)
print_comments-unlines ((c ∷ t) ∷ cs) = simp (print_comments-unlines cs, append_assoc)

line_end_lem : (c : Bytes) → print_line_end c ≡ line_end c ++ b'\n' ∷ []
unfolding print_line_end
line_end_lem [] = refl
line_end_lem (c ∷ cs) = refl

print_keys-unlines : (ks : List KeyValue) → print_keys ks ≡ unlines (key_lines ks)
unfolding print_keys print_key
print_keys-unlines [] = refl
print_keys-unlines (k ∷ ks) =
    simp (print_keys-unlines ks, print_comments-unlines, line_end_lem, unlines-append, append_assoc)

print_sections-unlines : (ss : List Section) → print_sections ss ≡ unlines (section_lines ss)
unfolding print_sections print_section print_header
print_sections-unlines [] = refl
print_sections-unlines (s ∷ ss) = simp (
  print_sections-unlines ss,
  print_keys-unlines,
  print_comments-unlines,
  line_end_lem,
  unlines-append,
  append_assoc,
)

abbrev pub file_lines : IniFile → List Bytes
file_lines ini = comment_lines ini.header_comments ++ section_lines ini.sections

pub print_file-unlines : (ini : IniFile) → print_file ini ≡ unlines (file_lines ini)
unfolding print_file
print_file-unlines ini = simp (print_sections-unlines, print_comments-unlines, unlines-append)
