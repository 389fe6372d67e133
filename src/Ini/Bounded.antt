-- ===== src/Ini/Bounded.antt =====
-- common/ini.c: every field of the structures keeps within its array, from `ini_load` through any
-- sequence of operations.
pub mod Operations
pub mod Loading
use ps4_hen_plugins.Base.{
  ℕ, zero, suc, ◌+◌, ◌-◌, ◌*◌, ◌/◌, ◌%◌, ◌^◌, ◌≤◌, ◌<◌, min, Bool, true, false, not, ◌&&◌, ◌||◌,
  Option, none, some, List, [], ◌∷◌, ◌++◌, ◌≡◌, refl, sym, ap, ◌∙◌, ◌⊎◌, ◌≢◌, ◌↔◌, inl, inr, arith,
  leb, ltb, ◌==◌, if◌then◌else◌, Bytes, length, take, drop, get_or, strchr, All, Lacks, matches,
  matches_iff, matches_refl, codes, Bool-cases, Option-cases, append-nil, append_assoc, rev_onto,
  length-append, length-take, take_all, take-append, some_inj, none-ne-some, get_or-append,
  get_or-append_right, strchr-append, strchr-Lacks, Lacks-append,
}
use ps4_hen_plugins.Ini.{Comment, KeyValue, Section, IniFile, Focus, plug, find}
use ps4_hen_plugins.Ini.Find.{IsFirst, find-IsFirst}
use ps4_hen_plugins.Ini.Load.{
  Loader, pending, set_pending, add_pending, comment_field, load_section, load_header, add_key,
  load_current, load_key, load_trimmed, load_line, load_lines, start, ini_load, on_first,
  first_comments,
}
use ps4_hen_plugins.Ini.Store.{
  bounded_copy, create_comment, add_comment_to_list, create_section, create_key, new_section,
  new_key, find_section, find_key, Allocs, get_section, get_key, write_key, store_key,
  store_section, set_in_section, set_value, ini_set_with_comment, ini_set, ini_add_comment,
  ini_add_section_comment, ini_delete_key, ini_delete_section,
}

abbrev pub IsBoundedComment : Comment → Type 0
IsBoundedComment c = length c ≤ 511

pub record IsBoundedKey (k : KeyValue) : Type 0 where
  pub key_fits : length k.key ≤ 255
  pub value_fits : length k.value ≤ 511
  pub comment_fits : length k.comment ≤ 511
  pub comments_fit : All IsBoundedComment k.comments_before

pub record IsBoundedSection (s : Section) : Type 0 where
  pub name_fits : length s.name ≤ 255
  pub comment_fits : length s.comment ≤ 511
  pub comments_fit : All IsBoundedComment s.comments_before
  pub keys_fit : All IsBoundedKey s.keys

-- Every string is shorter than the array that holds it.
pub record IsBounded (ini : IniFile) : Type 0 where
  pub header_fits : All IsBoundedComment ini.header_comments
  pub sections_fit : All IsBoundedSection ini.sections

pub copy_fits : (n : ℕ) (s : Bytes) → length (take n s) ≤ n
copy_fits n s = omega (arith, length-take n s)

module _ {A : Type 0} (P : A → Type 0) where
  abbrev pub AllFocus : Option (Focus A) → Type 0
  AllFocus none = Unit
  AllFocus (some (before, x, after)) = All P before × P x × All P after

  pub All-plug :
      (before after : List A) (x : A)
      → All P before
      → P x
      → All P after
      → All P (plug before x after)
  All-plug [] after x b h a = (h, a)
  All-plug (y ∷ before) after x b h a = (b.0, All-plug before after x b.1 h a)

  pub All-join : (before after : List A) → All P before → All P after → All P (before ++ after)
  All-join [] after b a = a
  All-join (y ∷ before) after b a = (b.0, All-join before after b.1 a)

  pub All-parts :
      (before after : List A) (x : A)
      → All P (plug before x after)
      → All P before × P x × All P after
  All-parts [] after x h = (tt, h.0, h.1)
  All-parts (y ∷ before) after x h =
      let (b, p, a) = All-parts before after x h.1 in ((h.0, b), p, a)

  pub IsFirst-AllFocus :
      (p : A → Bool) (xs : List A) (o : Option (Focus A)) → IsFirst p xs o → All P xs → AllFocus o
  IsFirst-AllFocus p xs none f h = tt
  IsFirst-AllFocus p xs (some (before, x, after)) f h = All-parts before after x (rw f.0 at h)

  pub find-AllFocus : (p : A → Bool) (xs : List A) → All P xs → AllFocus (find p xs)
  find-AllFocus p xs h = IsFirst-AllFocus p xs (find p xs) (find-IsFirst p xs) h

pub find_section-fits :
    (ss : List Section) (n : Bytes)
    → All IsBoundedSection ss
    → AllFocus IsBoundedSection (find_section ss n)
unfolding find_section
find_section-fits ss n h = find-AllFocus IsBoundedSection (λ s. matches s.name n) ss h

pub find_key-fits :
    (ks : List KeyValue) (n : Bytes) → All IsBoundedKey ks → AllFocus IsBoundedKey (find_key ks n)
unfolding find_key
find_key-fits ks n h = find-AllFocus IsBoundedKey (λ k. matches k.key n) ks h

pub new_section-fits : (n : Bytes) → IsBoundedSection (new_section n)
new_section-fits n = record {
  name_fits = copy_fits 255 n;
  comment_fits = omega arith;
  comments_fit = tt;
  keys_fit = tt;
}

pub new_key-fits : (n : Bytes) → IsBoundedKey (new_key n)
new_key-fits n = record {
  key_fits = copy_fits 255 n;
  value_fits = omega arith;
  comment_fits = omega arith;
  comments_fit = tt;
}

pub get_section-fits :
    (m : Bool) (ss : List Section) (n : Bytes)
    → All IsBoundedSection ss
    → AllFocus IsBoundedSection (get_section m ss n)
unfolding get_section create_section
get_section-fits m ss n h = go m (find_section ss n) (find_section-fits ss n h)
  where
    go :
        (m : Bool) (o : Option (Focus Section))
        → AllFocus IsBoundedSection o
        → AllFocus IsBoundedSection
            (elim o [ none ↦ if m then some ([], new_section n, ss) else none | some f ↦ some f ])
    go true none f = (tt, new_section-fits n, h)
    go false none f = tt
    go m (some x) f = f

pub get_key-fits :
    (m : Bool) (ks : List KeyValue) (n : Bytes)
    → All IsBoundedKey ks
    → AllFocus IsBoundedKey (get_key m ks n)
unfolding get_key create_key
get_key-fits m ks n h = go m (find_key ks n) (find_key-fits ks n h)
  where
    go :
        (m : Bool) (o : Option (Focus KeyValue))
        → AllFocus IsBoundedKey o
        → AllFocus IsBoundedKey
            (elim o [ none ↦ if m then some ([], new_key n, ks) else none | some f ↦ some f ])
    go true none f = (tt, new_key-fits n, h)
    go false none f = tt
    go m (some x) f = f

pub write_key-fits :
    (k : KeyValue) (v : Bytes) (c : Option Bytes) → IsBoundedKey k → IsBoundedKey (write_key k v c)
unfolding write_key
write_key-fits k v none h = record {
  key_fits = h.key_fits;
  value_fits = copy_fits 511 v;
  comment_fits = h.comment_fits;
  comments_fit = h.comments_fit;
}
write_key-fits k v (some c) h = record {
  key_fits = h.key_fits;
  value_fits = copy_fits 511 v;
  comment_fits = copy_fits 511 c;
  comments_fit = h.comments_fit;
}

pub with_keys :
    (s : Section) (keys : List KeyValue)
    → IsBoundedSection s
    → All IsBoundedKey keys
    → IsBoundedSection (record s { keys = keys })
with_keys s keys h k = record {
  name_fits = h.name_fits;
  comment_fits = h.comment_fits;
  comments_fit = h.comments_fit;
  keys_fit = k;
}

pub store_key-fits :
    (s : Section) (v : Bytes) (c : Option Bytes) (o : Option (Focus KeyValue))
    → IsBoundedSection s
    → AllFocus IsBoundedKey o
    → IsBoundedSection (store_key s v c o).0
unfolding store_key
store_key-fits s v c none h f = h
store_key-fits s v c (some (b, k, a)) h f =
    with_keys s _ h (All-plug IsBoundedKey b a (write_key k v c) f.0 (write_key-fits k v c f.1) f.2)

pub store_section-fits :
    (m : Bool) (ini : IniFile) (n v : Bytes) (c : Option Bytes) (o : Option (Focus Section))
    → IsBounded ini
    → AllFocus IsBoundedSection o
    → IsBounded (store_section m ini n v c o).0
unfolding store_section set_in_section
store_section-fits m ini n v c none h f = h
store_section-fits m ini n v c (some (b, s, a)) h f = record {
  header_fits = h.header_fits;
  sections_fit =
      All-plug IsBoundedSection b a _ f.0
        (store_key-fits s v c (get_key m s.keys n) f.1 (get_key-fits m s.keys n f.1.keys_fit)) f.2;
}

pub add_comment_to_list-fits :
    (m : Bool) (cs : List Comment) (t : Bytes)
    → All IsBoundedComment cs
    → All IsBoundedComment (add_comment_to_list m cs t)
unfolding add_comment_to_list
add_comment_to_list-fits true cs t h = All-join IsBoundedComment cs _ h (copy_fits 511 t, tt)
add_comment_to_list-fits false cs t h = h
