-- ===== src/Ini/Bounded/Loading.antt =====
-- common/ini.c: `ini_load` fills every field within its array, whatever the file holds.
use ps4_hen_plugins.Base.{
  ℕ, suc, ◌≤◌, Bool, true, false, ◌||◌, Option, none, some, List, [], ◌∷◌, inl, inr, arith, ◌==◌,
  Bytes, length, drop, strchr, All, Bool-cases, Option-cases,
}
use ps4_hen_plugins.Ini.{Comment, KeyValue, Section}
use ps4_hen_plugins.Ini.Bounded.{
  IsBoundedComment, IsBoundedKey, IsBoundedSection, IsBounded, copy_fits, with_keys,
  add_comment_to_list-fits,
}
use ps4_hen_plugins.Ini.Bounded.Operations.{IsBounded?, Op, apply_all, apply_all-IsBounded?}
use ps4_hen_plugins.Ini.Load.{
  Loader, pending, set_pending, add_pending, comment_field, load_section, load_header, load_named,
  load_pair, add_key, load_current, load_key, load_trimmed, load_line, load_lines, start, ini_load,
  on_first, first_comments, read_lines, split_comment, cut_line,
}
use ps4_hen_plugins.Ini.Text.{trim_whitespace}
use ps4_hen_plugins.Ini.Store.{create_section, create_key}

pending-fits : (l : Loader) → IsBounded l.ini → All IsBoundedComment (pending l)
pending-fits l h = elim (Bool-cases l.pending_in_section) [
  | inl e ↦ rw e (go l.ini.sections h.sections_fit)
  | inr e ↦ rw e h.header_fits
]
  where
    go : (ss : List Section) → All IsBoundedSection ss → All IsBoundedComment (first_comments ss)
    go [] f = tt
    go (s ∷ ss) f = f.0.comments_fit

set_pending-IsBounded :
    (l : Loader) (cs : List Comment)
    → IsBounded l.ini
    → All IsBoundedComment cs
    → IsBounded (set_pending l cs)
set_pending-IsBounded l cs h f = elim (Bool-cases l.pending_in_section) [
  | inl e ↦
      rw e (record { header_fits = h.header_fits; sections_fit = go l.ini.sections h.sections_fit })
  | inr e ↦ rw e (record { header_fits = f; sections_fit = h.sections_fit })
]
  where
    go :
        (ss : List Section)
        → All IsBoundedSection ss
        → All IsBoundedSection (on_first (λ s. record s { comments_before = cs }) ss)
    go [] g = tt
    go (s ∷ ss) g = (
      record {
        name_fits = g.0.name_fits;
        comment_fits = g.0.comment_fits;
        comments_fit = f;
        keys_fit = g.0.keys_fit;
      },
      g.1,
    )

comment_field-fits : (c : Option Bytes) → length (comment_field c) ≤ 511
unfolding comment_field
comment_field-fits none = omega arith
comment_field-fits (some []) = omega arith
comment_field-fits (some (c ∷ cs)) = copy_fits 511 (c ∷ cs)

load_section-IsBounded :
    (m : Bool) (l : Loader) (n : Bytes) (c : Option Bytes)
    → IsBounded l.ini
    → IsBounded (load_section m l n c).ini
unfolding load_section create_section
load_section-IsBounded false l n c h = h
load_section-IsBounded true l n c h =
    let emptied = set_pending-IsBounded l [] h tt in
    record {
      header_fits = emptied.header_fits;
      sections_fit = (
        record {
          name_fits = copy_fits 255 n;
          comment_fits = comment_field-fits c;
          comments_fit = tt;
          keys_fit = tt;
        },
        emptied.sections_fit,
      );
    }

add_key-IsBounded :
    (m : Bool) (l : Loader) (n v : Bytes) (c : Option Bytes) (s : Section)
    → IsBounded l.ini
    → IsBounded (add_key m l n v c s).ini
unfolding add_key create_key
add_key-IsBounded false l n v c s h = h
add_key-IsBounded true l n v c s h =
    let emptied = set_pending-IsBounded l [] h tt in
    let kv : IsBoundedKey _ = record {
      key_fits = copy_fits 255 n;
      value_fits = copy_fits 511 v;
      comment_fits = comment_field-fits c;
      comments_fit = pending-fits l h;
    } in
    record {
      header_fits = emptied.header_fits;
      sections_fit = go _ kv (set_pending l []).sections emptied.sections_fit;
    }
  where
    go :
        (k : KeyValue)
        → IsBoundedKey k
        → (ss : List Section) → All IsBoundedSection ss
        → All IsBoundedSection (on_first (λ t. record t { keys = k ∷ t.keys }) ss)
    go k b [] g = tt
    go k b (s ∷ ss) g = (with_keys s _ g.0 (b, g.0.keys_fit), g.1)

load_current-IsBounded :
    (m : Bool) (l : Loader) (n v : Bytes) (c : Option Bytes) (ss : List Section)
    → IsBounded l.ini
    → IsBounded (load_current m l n v c ss).ini
unfolding load_current
load_current-IsBounded m l n v c [] h = h
load_current-IsBounded m l n v c (s ∷ ss) h = elim (Bool-cases l.has_section) [
  | inl e ↦ simp e (add_key-IsBounded m l n v c s h)
  | inr e ↦ simp e h
]

load_named-IsBounded :
    (m : Bool) (l : Loader) (c : Option Bytes) (o : Option (Bytes × Bytes))
    → IsBounded l.ini
    → IsBounded (load_named m l c o).ini
unfolding load_named
load_named-IsBounded m l c none h = h
load_named-IsBounded m l c (some (b, _)) h =
    load_section-IsBounded m l (trim_whitespace (drop 1 b)) c h

load_pair-IsBounded :
    (m : Bool) (l : Loader) (c : Option Bytes) (o : Option (Bytes × Bytes))
    → IsBounded l.ini
    → IsBounded (load_pair m l c o).ini
unfolding load_pair
load_pair-IsBounded m l c none h = h
load_pair-IsBounded m l c (some (b, a)) h =
    load_current-IsBounded m l (trim_whitespace b) (trim_whitespace a) c l.ini.sections h

load_header-IsBounded :
    (m : Bool) (l : Loader) (t : Bytes) → IsBounded l.ini → IsBounded (load_header m l t).ini
unfolding load_header
load_header-IsBounded m l t h =
    load_named-IsBounded m l (split_comment t).1 (strchr b']' (split_comment t).0) h

load_key-IsBounded :
    (m : Bool) (l : Loader) (t : Bytes) → IsBounded l.ini → IsBounded (load_key m l t).ini
unfolding load_key
load_key-IsBounded m l t h = elim (Option-cases (strchr b'=' t)) [
  | inl e ↦ rw (e, load_key) h
  | inr (f, e) ↦
      rw (e, load_key)
        (load_pair-IsBounded m l (split_comment t).1 (strchr b'=' (split_comment t).0) h)
]

add_pending-IsBounded :
    (m : Bool) (l : Loader) (t : Bytes) → IsBounded l.ini → IsBounded (add_pending m l t).ini
unfolding add_pending
add_pending-IsBounded m l t h =
    set_pending-IsBounded l _ h (add_comment_to_list-fits m (pending l) t (pending-fits l h))

load_trimmed-IsBounded :
    (m : Bool) (l : Loader) (t u : Bytes) → IsBounded l.ini → IsBounded (load_trimmed m l t u).ini
unfolding load_trimmed
load_trimmed-IsBounded m l t [] h = add_pending-IsBounded m l [] h
load_trimmed-IsBounded m l t (c ∷ cs) h = elim (Bool-cases (c == b';' || c == b'#')) [
  | inl e ↦ rw e (add_pending-IsBounded m l (trim_whitespace cs) h)
  | inr e ↦ elim (Bool-cases (c == b'[')) [
    | inl e' ↦ rw (e, e') (load_header-IsBounded m l t h)
    | inr e' ↦ rw (e, e') (load_key-IsBounded m l t h)
  ]
]

load_lines-IsBounded :
    (malloc : ℕ → Bool) (n : ℕ) (l : Loader) (lines : List Bytes)
    → IsBounded l.ini
    → IsBounded (load_lines malloc n l lines).ini
unfolding load_lines load_line
load_lines-IsBounded malloc n l [] h = h
load_lines-IsBounded malloc n l (line ∷ lines) h =
    load_lines-IsBounded malloc (suc n) (load_line (malloc n) l line) lines
      (load_trimmed-IsBounded (malloc n) l (cut_line line) (trim_whitespace (cut_line line)) h)

ini_load-IsBounded? :
    (malloc : ℕ → Bool) (filename : Bytes) (file : Option Bytes)
    → IsBounded? (ini_load malloc filename file)
unfolding ini_load
ini_load-IsBounded? malloc filename none = elim (Bool-cases (malloc 0)) [
  | inl e ↦ rw e (record { header_fits = tt; sections_fit = tt })
  | inr e ↦ rw e tt
]
ini_load-IsBounded? malloc filename (some file) = elim (Bool-cases (malloc 0)) [
  | inl e ↦ rw e (
      load_lines-IsBounded malloc 1 (start filename) (read_lines (length file) file)
        (record { header_fits = tt; sections_fit = tt }))
  | inr e ↦ rw e tt
]

-- Whatever the file holds, however `malloc` answers and whatever sequence of operations follows the
-- load, each name is at most 255 bytes long, and each value and comment at most 511.
pub apply_all-ini_load-IsBounded? :
    (malloc : ℕ → Bool) (filename : Bytes) (file : Option Bytes) (ops : List Op)
    → IsBounded? (apply_all ops (ini_load malloc filename file))
apply_all-ini_load-IsBounded? malloc filename file ops =
    apply_all-IsBounded? ops (ini_load malloc filename file)
      (ini_load-IsBounded? malloc filename file)
