-- ===== src/Ini/RoundTrip.antt =====
-- common/ini.c: `ini_load` reads back what `ini_save` writes.
pub mod Lines
pub mod Reread
pub mod Values
use ps4_hen_plugins.Base.{
  ℕ, zero, suc, ◌+◌, ◌-◌, ◌*◌, ◌/◌, ◌%◌, ◌^◌, ◌≤◌, ◌<◌, min, Bool, true, false, not, ◌&&◌, ◌||◌,
  Option, none, some, List, [], ◌∷◌, ◌++◌, ◌≡◌, refl, sym, ap, ◌∙◌, ◌⊎◌, ◌≢◌, ◌↔◌, inl, inr, arith,
  leb, ltb, ◌==◌, if◌then◌else◌, Bytes, length, take, drop, get_or, strchr, All, Lacks, matches,
  matches_iff, matches_refl, codes, Bool-cases, Option-cases, append-nil, append_assoc, rev_onto,
  length-append, length-take, take_all, take-append, get_or-last, some_inj, none-ne-some,
  get_or-append, get_or-append_right, strchr-append, strchr-Lacks, Lacks-append,
}
use mathlib.Core.List.{map}
use ps4_hen_plugins.Ini.{Comment, KeyValue, Section, IniFile}
use ps4_hen_plugins.Ini.Text.{isspace, is_quote, trim_whitespace, in_quotes, extract_comment}
use ps4_hen_plugins.Ini.Trim.{
  IsTrimmed, trim-IsTrimmed, trim_space_before, trim_space_after, trim_first, in_quotes_plain,
}
use ps4_hen_plugins.Ini.Lines.{
  IsLine, unlines, newlined, cut_line_newline, read_lines-unlines, length-le-unlines, comment_line,
  line_end, header_line, key_line, comment_lines, key_lines, section_lines, file_lines,
  print_file-unlines,
}
use ps4_hen_plugins.Ini.Load.{
  Loader, pending, set_pending, add_pending, comment_field, load_section, load_header, load_named,
  load_pair, add_key, load_current, load_key, load_trimmed, load_line, load_lines, start, ini_load,
  on_first, first_comments, read_lines, split_comment, retry_comment, cut_line,
}
use ps4_hen_plugins.Ini.Save.{print_file}
use ps4_hen_plugins.Ini.Store.{create_section, create_key, add_comment_to_list}
use ps4_hen_plugins.Ini.Printable.{
  comment_field_kept, ends_line, is_special, Avoids, IsPrintableComment, IsPrintableKey,
  IsPrintableSection, IsPrintable, Avoids-Lacks, Avoids-weaken, Avoids-append, body_kept,
  comment_kept, split_comment-line_end,
}

-- One step of the loop on a line whose newline is cut off already.
unfoldable pub load_content : Loader → Bytes → Loader
load_content l line = load_trimmed true l line (trim_whitespace line)

abbrev pub load_contents : Loader → List Bytes → Loader
load_contents l [] = l
load_contents l (line ∷ lines) = load_contents (load_content l line) lines

-- The loader inside a section, the first of the list.
abbrev pub within : IniFile → Section → List Section → Loader
within ini s ss = record {
  ini = record ini { sections = s ∷ ss };
  has_section = true;
  pending_in_section = true;
}

pub load_comment :
    (l : Loader) (c : Comment)
    → IsPrintableComment c
    → load_content l (comment_line c) ≡ record l { ini = set_pending l (pending l ++ c ∷ []) }
unfolding load_content load_trimmed add_pending add_comment_to_list
load_comment l [] h = refl
load_comment l (c ∷ cs) h = rw (trim-IsTrimmed (b';' ∷ b' ' ∷ c ∷ cs) (refl, h.trimmed.1)) (
    rw (trim_space_before (c ∷ cs), trim-IsTrimmed (c ∷ cs) h.trimmed)
      (ap (λ t. record l { ini = set_pending l (pending l ++ t ∷ []) })
        (take_all 511 (c ∷ cs) h.fits)))

-- What stands on a key's line in front of its comment.
abbrev pub key_body : KeyValue → Bytes
key_body k = k.key ++ (b' ' ∷ b'=' ∷ b' ' ∷ k.value)

pub key_line_body : (k : KeyValue) → key_line k ≡ key_body k ++ line_end k.comment
key_line_body k = sym (append_assoc k.key (b' ' ∷ b'=' ∷ b' ' ∷ k.value) (line_end k.comment))

key_or_special : (c : ℕ) → (is_special c || c == b'=') ≡ false → is_special c ≡ false
key_or_special c h = ground arith

pub key_body-Avoids : (k : KeyValue) → IsPrintableKey k → Avoids is_special (key_body k)
unfolding is_quote
key_body-Avoids k h =
    Avoids-append is_special k.key (b' ' ∷ b'=' ∷ b' ' ∷ k.value)
      (Avoids-weaken (λ c. is_special c || c == b'=') is_special k.key key_or_special h.key_plain)
      (refl, (refl, (refl, h.value_plain)))

-- The first `=` of a string that begins with a printable key is the one behind the key.
split_at_equals :
    (k : KeyValue) (rest : Bytes)
    → IsPrintableKey k
    → strchr b'=' (k.key ++ (b' ' ∷ b'=' ∷ rest)) ≡ some (k.key ++ b' ' ∷ [], rest)
unfolding is_quote
split_at_equals k rest h = rw (← append_assoc k.key (b' ' ∷ []) (b'=' ∷ rest)) (
    strchr-append b'=' (k.key ++ b' ' ∷ []) rest (
      Avoids-Lacks (λ c. is_special c || c == b'=') b'=' (k.key ++ b' ' ∷ []) refl
        (Avoids-append (λ c. is_special c || c == b'=') k.key (b' ' ∷ []) h.key_plain (refl, tt))))

-- The value, as it stands on the line with or without a comment.
abbrev pub value_kept : KeyValue → Bytes
value_kept k = body_kept k.value k.comment

trim_value_kept : (v c : Bytes) → IsTrimmed v → trim_whitespace (b' ' ∷ body_kept v c) ≡ v
trim_value_kept v [] h = trim_space_before v ∙ trim-IsTrimmed v h
trim_value_kept v (x ∷ c) h = trim_space_before (v ++ b' ' ∷ []) ∙ trim_space_after v h

body_kept-append : (a v c : Bytes) → body_kept (a ++ v) c ≡ a ++ body_kept v c
body_kept-append a v [] = refl
body_kept-append a v (x ∷ c) = append_assoc a v (b' ' ∷ [])

body_kept-cons : (x : ℕ) (v c : Bytes) → body_kept (x ∷ v) c ≡ x ∷ body_kept v c
body_kept-cons x v [] = refl
body_kept-cons x v (y ∷ c) = refl

key_body_kept :
    (k : KeyValue)
    → body_kept (key_body k) k.comment ≡ k.key ++ (b' ' ∷ b'=' ∷ b' ' ∷ body_kept k.value k.comment)
key_body_kept k =
    body_kept-append k.key (b' ' ∷ b'=' ∷ b' ' ∷ k.value) k.comment
    ∙ ap (λ t. k.key ++ t) (simp body_kept-cons)

load_key-key_line :
    (l : Loader) (k : KeyValue)
    → IsPrintableKey k
    → load_key true l (key_line k)
      ≡ load_current true l k.key k.value (comment_kept k.comment) l.ini.sections
unfolding load_key
load_key-key_line l k h =
    rw (split_at_equals k (b' ' ∷ (k.value ++ line_end k.comment)) h, load_key)
      (ap (λ r. load_pair true l r.1 (strchr b'=' r.0))
          (ap split_comment (key_line_body k)
            ∙ split_comment-line_end (key_body k) k.comment (key_body-Avoids k h)
                h.comment_printable.trimmed)
        ∙ ap (load_pair true l (comment_kept k.comment)) (
            ap (strchr b'=') (key_body_kept k)
            ∙ split_at_equals k (b' ' ∷ body_kept k.value k.comment) h)
        ∙ rw (
          trim_space_after k.key h.key_trimmed,
          trim_value_kept k.value k.comment h.value_trimmed,
        ))

key_begins :
    (l : Loader) (key rest : Bytes)
    → (get_or key 0 b'[' == b'[') ≡ false
    → IsTrimmed key
    → Avoids (λ c. is_special c || c == b'=') key
    → load_content l (key ++ rest) ≡ load_key true l (key ++ rest)
unfolding load_content load_trimmed
key_begins l [] rest b t p = cc
key_begins l (c ∷ cs) rest b t p =
    let (trimmed, eq) = trim_first c (cs ++ rest) t.0 in rw (eq, sign_free c p.0, b)
  where
    sign_free : (c : ℕ) → (is_special c || c == b'=') ≡ false → (c == b';' || c == b'#') ≡ false
    sign_free c h = ground arith

pub load_key_line :
    (ini : IniFile) (s : Section) (ss : List Section) (k : KeyValue)
    → IsPrintableKey k
    → load_content (within ini s ss) (key_line k)
      ≡ within ini
          (record s {
            comments_before = [];
            keys = record k { comments_before = s.comments_before } ∷ s.keys;
          })
          ss
unfolding load_current add_key create_key
load_key_line ini s ss k h =
    key_begins (within ini s ss) k.key _ h.key_begins h.key_trimmed h.key_plain
    ∙ load_key-key_line (within ini s ss) k h
    ∙ rw (
      take_all 255 k.key h.key_fits,
      take_all 511 k.value h.value_fits,
      comment_field_kept k.comment h.comment_printable.fits,
    )

header_begins :
    (l : Loader) (rest : Bytes) → load_content l (b'[' ∷ rest) ≡ load_header true l (b'[' ∷ rest)
unfolding load_content load_trimmed
header_begins l rest = let (trimmed, eq) = trim_first b'[' rest (unfold isspace in refl) in rw eq

abbrev pub header_body : Section → Bytes
header_body s = b'[' ∷ (s.name ++ b']' ∷ [])

pub header_body-Avoids : (s : Section) → IsPrintableSection s → Avoids is_special (header_body s)
unfolding is_quote
header_body-Avoids s h = (
  refl,
  Avoids-append is_special s.name (b']' ∷ [])
      (Avoids-weaken (λ c. is_special c || c == b']') is_special s.name (λ c e. name_plain c e)
        h.name_plain)
      (refl, tt),
)
  where
    name_plain : (c : ℕ) → (is_special c || c == b']') ≡ false → is_special c ≡ false
    name_plain c e = ground arith

header_body_kept :
    (s : Section)
    → body_kept (header_body s) s.comment ≡ b'[' ∷ (s.name ++ b']' ∷ body_kept [] s.comment)
header_body_kept s = go s.comment
  where
    go : (c : Bytes) → body_kept (header_body s) c ≡ b'[' ∷ (s.name ++ b']' ∷ body_kept [] c)
    go [] = refl
    go (x ∷ c) = simp append_assoc

pub load_header-header_line :
    (l : Loader) (s : Section)
    → IsPrintableSection s
    → load_header true l (header_line s) ≡ load_section true l s.name (comment_kept s.comment)
unfolding load_header
load_header-header_line l s h =
    ap (λ r. load_named true l r.1 (strchr b']' r.0))
      (ap split_comment (simp append_assoc)
        ∙ split_comment-line_end (header_body s) s.comment (header_body-Avoids s h)
            h.comment_printable.trimmed)
    ∙ ap (load_named true l (comment_kept s.comment)) (
        ap (strchr b']') (header_body_kept s)
        ∙ strchr-append b']' (b'[' ∷ s.name) (body_kept [] s.comment) (
            Avoids-Lacks (λ c. is_special c || c == b']') b']' (b'[' ∷ s.name)
              (unfold is_quote in refl) (unfold is_quote in refl, h.name_plain)))
    ∙ rw (trim-IsTrimmed s.name h.name_trimmed)

pub load_header_line :
    (l : Loader) (s : Section)
    → IsPrintableSection s
    → load_content l (header_line s)
      ≡ within
          (set_pending l [])
          (record s { comments_before = []; keys = [] })
          (set_pending l []).sections
unfolding load_section create_section
load_header_line l s h =
    header_begins l _
    ∙ load_header-header_line l s h
    ∙ rw (take_all 255 s.name h.name_fits, comment_field_kept s.comment h.comment_printable.fits)

pub load_blank :
    (l : Loader) → load_content l [] ≡ record l { ini = set_pending l (pending l ++ [] ∷ []) }
load_blank l = load_comment l [] (record { one_line = tt; trimmed = tt; fits = omega arith })
