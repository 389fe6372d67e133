-- ===== src/Ini/Printable.antt =====
-- common/ini.c: what `ini_save` can write so that `ini_load` finds the parts of each line again.
use ps4_hen_plugins.Base.{
  ℕ, ◌≤◌, Bool, true, false, ◌||◌, Option, none, some, [], ◌∷◌, ◌++◌, ◌≡◌, refl, ap, ◌∙◌, arith,
  ◌==◌, Bytes, length, get_or, All, Lacks, append-nil, append_assoc, take_all, strchr-append,
  strchr-Lacks,
}
use ps4_hen_plugins.Ini.{Comment, KeyValue, Section, IniFile}
use ps4_hen_plugins.Ini.Text.{is_quote, trim_whitespace, extract_comment}
use ps4_hen_plugins.Ini.Trim.{IsTrimmed, trim-IsTrimmed, trim_space_before, in_quotes_plain}
use ps4_hen_plugins.Ini.Lines.{line_end, key_line}
use ps4_hen_plugins.Ini.Load.{comment_field, split_comment, retry_comment}

-- Bytes at which a line is cut.
abbrev pub ends_line : ℕ → Bool
ends_line c = c == 0 || c == b'\n' || c == b'\r'

-- Bytes that start a comment, or hide one.
abbrev pub is_special : ℕ → Bool
is_special c = ends_line c || c == b';' || c == b'#' || is_quote c

abbrev pub Avoids : (ℕ → Bool) → Bytes → Type 0
Avoids bad = All (λ c. bad c ≡ false)

pub record IsPrintableComment (c : Comment) : Type 0 where
  pub one_line : Avoids ends_line c
  pub trimmed : IsTrimmed c
  pub fits : length c ≤ 511

-- A key that is written on one line, from which it is read back.
pub record IsPrintableKey (k : KeyValue) : Type 0 where
  pub key_plain : Avoids (λ c. is_special c || c == b'=') k.key
  pub key_trimmed : IsTrimmed k.key
  pub key_begins : (get_or k.key 0 b'[' == b'[') ≡ false
  pub key_fits : length k.key ≤ 255
  pub value_plain : Avoids is_special k.value
  pub value_trimmed : IsTrimmed k.value
  pub value_fits : length k.value ≤ 511
  pub comment_printable : IsPrintableComment k.comment
  pub comments_printable : All IsPrintableComment k.comments_before
  pub line_fits : length (key_line k) ≤ 1022

pub record IsPrintableSection (s : Section) : Type 0 where
  pub name_plain : Avoids (λ c. is_special c || c == b']') s.name
  pub name_trimmed : IsTrimmed s.name
  pub name_fits : length s.name ≤ 255
  pub comment_printable : IsPrintableComment s.comment
  pub comments_printable : All IsPrintableComment s.comments_before
  pub keys_printable : All IsPrintableKey s.keys

pub record IsPrintable (ini : IniFile) : Type 0 where
  pub header_printable : All IsPrintableComment ini.header_comments
  pub sections_printable : All IsPrintableSection ini.sections

pub Avoids-Lacks : (bad : ℕ → Bool) (c : ℕ) (s : Bytes) → bad c ≡ true → Avoids bad s → Lacks c s
Avoids-Lacks bad c [] b h = tt
Avoids-Lacks bad c (x ∷ s) b h = (λ e. cc (h.0, b, ap bad e), Avoids-Lacks bad c s b h.1)

pub Avoids-weaken :
    (p q : ℕ → Bool) (s : Bytes) → ((c : ℕ) → p c ≡ false → q c ≡ false) → Avoids p s → Avoids q s
Avoids-weaken p q [] w h = tt
Avoids-weaken p q (c ∷ s) w h = (w c h.0, Avoids-weaken p q s w h.1)

pub Avoids-append : (p : ℕ → Bool) (s t : Bytes) → Avoids p s → Avoids p t → Avoids p (s ++ t)
Avoids-append p [] t h k = k
Avoids-append p (c ∷ s) t h k = (h.0, Avoids-append p s t h.1 k)

special_quote : (c : ℕ) → is_special c ≡ false → is_quote c ≡ false
special_quote c h = ground arith

extract_none :
    (line : Bytes) (sign : ℕ) → Lacks sign line → extract_comment line sign ≡ (line, none)
unfolding extract_comment
extract_none line sign h = rw (strchr-Lacks sign line h, extract_comment)

extract_some :
    (before after : Bytes) (sign : ℕ)
    → Lacks sign before
    → All (λ c. is_quote c ≡ false) before
    → extract_comment (before ++ sign ∷ after) sign ≡ (before, some (trim_whitespace after))
unfolding extract_comment
extract_some before after sign h q =
    rw (strchr-append sign before after h, extract_comment, in_quotes_plain false before q)

-- A line with no comment.
split_comment-none : (body : Bytes) → Avoids is_special body → split_comment body ≡ (body, none)
unfolding split_comment
split_comment-none body h =
    ap retry_comment (extract_none body b';' (Avoids-Lacks is_special b';' body refl h))
    ∙ extract_none body b'#' (Avoids-Lacks is_special b'#' body refl h)

-- A line with a comment behind `;`.
split_comment-some :
    (body comment : Bytes)
    → Avoids is_special body
    → IsTrimmed comment
    → split_comment (body ++ (b' ' ∷ b';' ∷ b' ' ∷ comment)) ≡ (body ++ b' ' ∷ [], some comment)
unfolding split_comment
split_comment-some body comment h t = rw (← append_assoc body (b' ' ∷ []) (b';' ∷ b' ' ∷ comment)) (
    ap retry_comment (
      extract_some (body ++ b' ' ∷ []) (b' ' ∷ comment) b';'
        (Avoids-Lacks is_special b';' (body ++ b' ' ∷ []) refl spaced)
        (Avoids-weaken is_special is_quote (body ++ b' ' ∷ []) special_quote spaced))
    ∙ ap (λ t. (body ++ b' ' ∷ [], some t)) (trim_space_before comment ∙ trim-IsTrimmed comment t))
  where
    spaced : Avoids is_special (body ++ b' ' ∷ [])
    spaced = Avoids-append is_special body (b' ' ∷ []) h (refl, tt)

-- Both at once: what `ini_save` puts behind a body is found by `ini_load`.
abbrev pub body_kept : Bytes → Bytes → Bytes
body_kept body [] = body
body_kept body (c ∷ cs) = body ++ b' ' ∷ []

abbrev pub comment_kept : Bytes → Option Bytes
comment_kept [] = none
comment_kept (c ∷ cs) = some (c ∷ cs)

pub split_comment-line_end :
    (body comment : Bytes)
    → Avoids is_special body
    → IsTrimmed comment
    → split_comment (body ++ line_end comment) ≡ (body_kept body comment, comment_kept comment)
split_comment-line_end body [] h t = rw (append-nil body) (split_comment-none body h)
split_comment-line_end body (c ∷ cs) h t = split_comment-some body (c ∷ cs) h t

pub comment_field_kept : (c : Bytes) → length c ≤ 511 → comment_field (comment_kept c) ≡ c
unfolding comment_field
comment_field_kept [] h = refl
comment_field_kept (c ∷ cs) h = take_all 511 (c ∷ cs) h
