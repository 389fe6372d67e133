-- ===== src/Ini/RoundTrip/Reread.antt =====
-- common/ini.c: loading what was saved, and the values that it holds.
use ps4_hen_plugins.Base.{
  true, false, some, List, [], ◌∷◌, ◌++◌, ◌≡◌, refl, ap, ◌∙◌, Bytes, length, All, append-nil,
  append_assoc, rev_onto,
}
use mathlib.Core.List.{map}
use ps4_hen_plugins.Ini.{Comment, KeyValue, Section, IniFile}
use ps4_hen_plugins.Ini.Lines.{
  unlines, read_lines-unlines, length-le-unlines, comment_lines, header_line, key_line, key_lines,
  section_lines, file_lines, print_file-unlines,
}
use ps4_hen_plugins.Ini.Load.{Loader, on_first, ini_load, start, load_lines, read_lines}
use ps4_hen_plugins.Ini.Save.{print_file}
use ps4_hen_plugins.Ini.Printable.{
  IsPrintableComment, IsPrintableKey, IsPrintableSection, IsPrintable,
}
use ps4_hen_plugins.Ini.RoundTrip.{
  load_content, load_contents, within, load_comment, load_key_line, load_header_line, load_blank,
}
use ps4_hen_plugins.Ini.RoundTrip.Lines.{file_lines-IsLine, load_lines-newlined}

-- A section as it is read back: the keys in the other order, the comments before it gone.
abbrev pub reread_section : Section → Section
reread_section s = record s { comments_before = []; keys = rev_onto s.keys [] }

-- The section read last keeps the empty line behind it as a comment.
abbrev pub with_blank : Section → Section
with_blank s = record s { comments_before = [] ∷ [] }

abbrev pub reread_sections : List Section → List Section
reread_sections ss = on_first with_blank (rev_onto (map reread_section ss) [])

abbrev pub reread_header : List Section → List Comment → List Comment
reread_header [] comments = comments
reread_header (s ∷ ss) comments = []

-- The structure that a load of the saved file gives.
abbrev pub reread : Bytes → IniFile → IniFile
reread filename ini = record {
  sections = reread_sections ini.sections;
  header_comments = reread_header ini.sections ini.header_comments;
  filename = some filename;
  modified = false;
}

load_contents-append :
    (l : Loader) (a b : List Bytes) → load_contents l (a ++ b) ≡ load_contents (load_contents l a) b
load_contents-append l [] b = refl
load_contents-append l (t ∷ a) b = load_contents-append (load_content l t) a b

-- The loader before the first section.
abbrev outside : IniFile → Loader
outside ini = record { ini = ini; has_section = false; pending_in_section = false }

comments_outside :
    (ini : IniFile) (cs : List Comment)
    → All IsPrintableComment cs
    → load_contents (outside ini) (comment_lines cs)
      ≡ outside (record ini { header_comments = ini.header_comments ++ cs })
comments_outside ini [] h = rw append-nil
comments_outside ini (c ∷ cs) h =
    ap (λ l. load_contents l (comment_lines cs)) (load_comment (outside ini) c h.0)
    ∙ comments_outside (record ini { header_comments = ini.header_comments ++ c ∷ [] }) cs h.1
    ∙ rw append_assoc

comments_within :
    (ini : IniFile) (s : Section) (ss : List Section) (cs : List Comment)
    → All IsPrintableComment cs
    → load_contents (within ini s ss) (comment_lines cs)
      ≡ within ini (record s { comments_before = s.comments_before ++ cs }) ss
comments_within ini s ss [] h = rw append-nil
comments_within ini s ss (c ∷ cs) h =
    ap (λ l. load_contents l (comment_lines cs)) (load_comment (within ini s ss) c h.0)
    ∙ comments_within ini (record s { comments_before = s.comments_before ++ c ∷ [] }) ss cs h.1
    ∙ rw append_assoc

keys_within :
    (ini : IniFile) (s : Section) (ss : List Section) (ks : List KeyValue)
    → All IsPrintableKey ks
    → load_contents (within ini (record s { comments_before = [] }) ss) (key_lines ks)
      ≡ within ini (record s { comments_before = []; keys = rev_onto ks s.keys }) ss
keys_within ini s ss [] h = refl
keys_within ini s ss (k ∷ ks) h =
    load_contents-append _ (comment_lines k.comments_before) (key_line k ∷ key_lines ks)
    ∙ ap (λ l. load_contents l (key_line k ∷ key_lines ks))
        (comments_within ini (record s { comments_before = [] }) ss k.comments_before
          h.0.comments_printable)
    ∙ ap (λ l. load_contents l (key_lines ks))
        (load_key_line ini (record s { comments_before = k.comments_before }) ss k h.0)
    ∙ keys_within ini (record s { keys = k ∷ s.keys }) ss ks h.1

-- The loader when all of these sections, the last one first, are read.
abbrev behind : IniFile → List Section → Loader
behind ini ss = record {
  ini = record ini { sections = on_first with_blank ss };
  has_section = true;
  pending_in_section = true;
}

-- From the header line of a section to the empty line behind it.
section_body :
    (ini : IniFile) (s : Section) (ss : List Section) (rest : List Bytes)
    → All IsPrintableKey s.keys
    → load_contents
        (within ini (record s { comments_before = []; keys = [] }) ss)
        (key_lines s.keys ++ [] ∷ rest)
      ≡ load_contents (behind ini (reread_section s ∷ ss)) rest
section_body ini s ss rest h =
    load_contents-append _ (key_lines s.keys) ([] ∷ rest)
    ∙ ap (λ l. load_contents l ([] ∷ rest)) (keys_within ini (record s { keys = [] }) ss s.keys h)
    ∙ ap (λ l. load_contents l rest) (load_blank (within ini (reread_section s) ss))

sections_behind :
    (ini : IniFile) (n : Section) (ss : List Section) (rest : List Section)
    → All IsPrintableSection rest
    → load_contents (behind ini (record n { comments_before = [] } ∷ ss)) (section_lines rest)
      ≡ behind ini (rev_onto (map reread_section rest) (record n { comments_before = [] } ∷ ss))
sections_behind ini n ss [] h = refl
sections_behind ini n ss (s ∷ rest) h =
    load_contents-append _ (comment_lines s.comments_before) _
    ∙ ap (λ l. load_contents l (header_line s ∷ (key_lines s.keys ++ [] ∷ section_lines rest)))
        (comments_within ini (with_blank n) ss s.comments_before h.0.comments_printable)
    ∙ ap (λ l. load_contents l (key_lines s.keys ++ [] ∷ section_lines rest))
        (load_header_line (within ini _ ss) s h.0)
    ∙ section_body ini s (record n { comments_before = [] } ∷ ss) (section_lines rest)
        h.0.keys_printable
    ∙ sections_behind ini (reread_section s) (record n { comments_before = [] } ∷ ss) rest h.1

first_section :
    (ini : IniFile) (s : Section) (rest : List Section)
    → All IsPrintableSection (s ∷ rest)
    → ini.sections ≡ []
    → load_contents (outside ini) (section_lines (s ∷ rest))
      ≡ behind
          (record ini { header_comments = [] })
          (rev_onto (map reread_section rest) (reread_section s ∷ []))
first_section ini s rest h e =
    load_contents-append _ (comment_lines s.comments_before) _
    ∙ ap (λ l. load_contents l (header_line s ∷ (key_lines s.keys ++ [] ∷ section_lines rest)))
        (comments_outside ini s.comments_before h.0.comments_printable)
    ∙ ap (λ l. load_contents l (key_lines s.keys ++ [] ∷ section_lines rest))
        (load_header_line (outside _) s h.0)
    ∙ ap
        (λ ss.
          load_contents
            (within (record ini { header_comments = [] })
              (record s { comments_before = []; keys = [] }) ss)
            (key_lines s.keys ++ [] ∷ section_lines rest))
        e
    ∙ section_body (record ini { header_comments = [] }) s [] (section_lines rest)
        h.0.keys_printable
    ∙ sections_behind (record ini { header_comments = [] }) (reread_section s) [] rest h.1

contents_reread :
    (filename : Bytes) (header : List Comment) (ss : List Section)
    → All IsPrintableComment header
    → All IsPrintableSection ss
    → (load_contents (start filename) (comment_lines header ++ section_lines ss)).ini ≡ record {
      sections = reread_sections ss;
      header_comments = reread_header ss header;
      filename = some filename;
      modified = false;
    }
contents_reread filename header [] h k =
    rw (append-nil (comment_lines header))
      (ap (λ l. l.ini) (comments_outside (start filename).ini header h))
contents_reread filename header (s ∷ ss) h k =
    ap (λ l. l.ini)
      (load_contents-append (start filename) (comment_lines header) (section_lines (s ∷ ss))
        ∙ ap (λ l. load_contents l (section_lines (s ∷ ss)))
            (comments_outside (start filename).ini header h)
        ∙ first_section (record ((start filename).ini) { header_comments = header }) s ss k refl)

-- Loading, where `malloc` does not fail, the bytes that `ini_save` writes for a structure of
-- printable parts gives the same
-- sections, names, keys, values and comments of keys and section lines, but with the order of the
-- sections and of the keys in each section turned round, and with the comments before every
-- section, and the header comments if there is a section, lost. The section that was last
-- keeps an empty comment.
pub ini_load-print_file :
    (filename : Bytes) (ini : IniFile)
    → IsPrintable ini
    → ini_load (λ _. true) filename (some (print_file ini)) ≡ some (reread filename ini)
unfolding ini_load
ini_load-print_file filename ini h =
    let lines = file_lines-IsLine ini h in
    ap (λ t. some (load_lines (λ _. true) 1 (start filename) (read_lines (length t) t)).ini)
      (print_file-unlines ini)
    ∙ ap (λ ls. some (load_lines (λ _. true) 1 (start filename) ls).ini)
        (read_lines-unlines (length (unlines (file_lines ini))) (file_lines ini) lines
          (length-le-unlines (file_lines ini)))
    ∙ ap (λ l. some l.ini) (load_lines-newlined 1 (start filename) (file_lines ini) lines)
    ∙ ap some (
        contents_reread filename ini.header_comments ini.sections h.header_printable
          h.sections_printable)
