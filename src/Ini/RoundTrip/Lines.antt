-- ===== src/Ini/RoundTrip/Lines.antt =====
-- common/ini.c: the lines of a printable file are within what `fgets` reads at once.
use ps4_hen_plugins.Base.{
  ℕ, suc, ◌≤◌, true, false, List, [], ◌∷◌, ◌++◌, ◌≡◌, refl, sym, ap, ◌∙◌, arith, Bytes, length, All,
  append_assoc, length-append,
}
use mathlib.Core.Path.{subst}
use ps4_hen_plugins.Ini.{Comment, KeyValue, Section, IniFile}
use ps4_hen_plugins.Ini.Lines.{
  IsLine, newlined, cut_line_newline, comment_line, line_end, header_line, key_line, comment_lines,
  key_lines, section_lines, file_lines,
}
use ps4_hen_plugins.Ini.Load.{Loader, load_line, load_lines}
use ps4_hen_plugins.Ini.Printable.{
  Avoids, ends_line, is_special, Avoids-Lacks, Avoids-weaken, Avoids-append, IsPrintableComment,
  IsPrintableKey, IsPrintableSection, IsPrintable,
}
use ps4_hen_plugins.Ini.RoundTrip.{
  key_body, key_body-Avoids, key_line_body, header_body, header_body-Avoids, load_content,
  load_contents,
}

Avoids-IsLine : (l : Bytes) → Avoids ends_line l → length l ≤ 1022 → IsLine l
Avoids-IsLine l h k = record {
  no_nul = Avoids-Lacks ends_line 0 l refl h;
  no_newline = Avoids-Lacks ends_line b'\n' l refl h;
  no_return = Avoids-Lacks ends_line b'\r' l refl h;
  fits = k;
}

special_ends : (c : ℕ) → is_special c ≡ false → ends_line c ≡ false
special_ends c h = ground arith

comment_line-IsLine : (c : Comment) → IsPrintableComment c → IsLine (comment_line c)
comment_line-IsLine [] h = Avoids-IsLine [] tt (omega arith)
comment_line-IsLine (c ∷ cs) h =
    Avoids-IsLine (b';' ∷ b' ' ∷ c ∷ cs) (refl, (refl, h.one_line)) (omega (arith, h.fits))

line_end-Avoids : (c : Bytes) → Avoids ends_line c → Avoids ends_line (line_end c)
line_end-Avoids [] h = tt
line_end-Avoids (c ∷ cs) h = (refl, (refl, (refl, h)))

length-line_end : (c : Bytes) → length c ≤ 511 → length (line_end c) ≤ 514
length-line_end [] h = omega arith
length-line_end (c ∷ cs) h = omega arith

key_line-IsLine : (k : KeyValue) → IsPrintableKey k → IsLine (key_line k)
key_line-IsLine k h =
    Avoids-IsLine (key_line k)
      (rw (key_line_body k) (
        Avoids-append ends_line (key_body k) (line_end k.comment)
          (Avoids-weaken is_special ends_line (key_body k) special_ends (key_body-Avoids k h))
          (line_end-Avoids k.comment h.comment_printable.one_line)))
      h.line_fits

header_line_body : (s : Section) → header_line s ≡ header_body s ++ line_end s.comment
header_line_body s = simp append_assoc

header_line-IsLine : (s : Section) → IsPrintableSection s → IsLine (header_line s)
header_line-IsLine s h =
    Avoids-IsLine (header_line s)
      (subst (Avoids ends_line) (sym (header_line_body s)) (
        Avoids-append ends_line (header_body s) (line_end s.comment)
          (Avoids-weaken is_special ends_line (header_body s) special_ends (header_body-Avoids s h))
          (line_end-Avoids s.comment h.comment_printable.one_line)))
      (omega (
        arith,
        length-append s.name (b']' ∷ line_end s.comment),
        length-line_end s.comment h.comment_printable.fits,
        h.name_fits,
      ))

All-join : (xs ys : List Bytes) → All IsLine xs → All IsLine ys → All IsLine (xs ++ ys)
All-join [] ys h k = k
All-join (x ∷ xs) ys h k = (h.0, All-join xs ys h.1 k)

comment_lines-IsLine :
    (cs : List Comment) → All IsPrintableComment cs → All IsLine (comment_lines cs)
comment_lines-IsLine [] h = tt
comment_lines-IsLine (c ∷ cs) h = (comment_line-IsLine c h.0, comment_lines-IsLine cs h.1)

key_lines-IsLine : (ks : List KeyValue) → All IsPrintableKey ks → All IsLine (key_lines ks)
key_lines-IsLine [] h = tt
key_lines-IsLine (k ∷ ks) h =
    All-join (comment_lines k.comments_before) _
      (comment_lines-IsLine k.comments_before h.0.comments_printable)
      (key_line-IsLine k h.0, key_lines-IsLine ks h.1)

section_lines-IsLine :
    (ss : List Section) → All IsPrintableSection ss → All IsLine (section_lines ss)
section_lines-IsLine [] h = tt
section_lines-IsLine (s ∷ ss) h =
    All-join (comment_lines s.comments_before) _
      (comment_lines-IsLine s.comments_before h.0.comments_printable)
      (
        header_line-IsLine s h.0,
        All-join (key_lines s.keys) _ (key_lines-IsLine s.keys h.0.keys_printable)
            (Avoids-IsLine [] tt (omega arith), section_lines-IsLine ss h.1),
      )

pub file_lines-IsLine : (ini : IniFile) → IsPrintable ini → All IsLine (file_lines ini)
file_lines-IsLine ini h =
    All-join (comment_lines ini.header_comments) _
      (comment_lines-IsLine ini.header_comments h.header_printable)
      (section_lines-IsLine ini.sections h.sections_printable)

-- The loop over lines with newlines is the loop over their contents.
pub load_lines-newlined :
    (n : ℕ) (l : Loader) (ls : List Bytes)
    → All IsLine ls
    → load_lines (λ _. true) n l (newlined ls) ≡ load_contents l ls
unfolding load_lines load_line load_content
load_lines-newlined n l [] h = refl
load_lines-newlined n l (t ∷ ls) h =
    ap (λ c. load_lines (λ _. true) (suc n) (load_content l c) (newlined ls))
      (cut_line_newline t h.0.no_nul h.0.no_newline h.0.no_return)
    ∙ load_lines-newlined (suc n) (load_content l t) ls h.1
