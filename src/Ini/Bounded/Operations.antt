-- ===== src/Ini/Bounded/Operations.antt =====
-- common/ini.c: the operations keep every field within its array.
use ps4_hen_plugins.Base.{
  Bool, true, false, Option, none, some, List, [], ◌∷◌, ◌++◌, inl, inr, Bytes, take, All,
  Option-cases,
}
use ps4_hen_plugins.Ini.{Section, IniFile, Focus, plug}
use ps4_hen_plugins.Ini.Bounded.{
  IsBoundedKey, IsBoundedSection, IsBounded, copy_fits, AllFocus, All-plug, All-join,
  find_section-fits, find_key-fits, get_section-fits, with_keys, store_section-fits,
  add_comment_to_list-fits,
}
use ps4_hen_plugins.Ini.Store.{
  Allocs, get_section, set_value, add_comment_to_list, find_section, find_key, ini_set_with_comment,
  ini_set, ini_add_comment, ini_add_section_comment, ini_delete_key, ini_delete_section,
}

-- One call of an operation, with the answers of `malloc`; none of these pointers but a comment or
-- the section of a comment may be NULL.
pub data Op : Type 0 where
  set_with_comment : Allocs → Bytes → Bytes → Bytes → Option Bytes → Op
  set : Allocs → Bytes → Bytes → Bytes → Op
  add_comment : Bool → Option Bytes → Bytes → Op
  add_section_comment : Bytes → Bytes → Op
  delete_key : Bytes → Bytes → Op
  delete_section : Bytes → Op

unfoldable pub apply : Op → Option IniFile → Option IniFile
apply (set_with_comment m s k v c) ini = (ini_set_with_comment m ini (some s) (some k) (some v) c).0
apply (set m s k v) ini = (ini_set m ini (some s) (some k) (some v)).0
apply (add_comment m s t) ini = (ini_add_comment m ini s (some t)).0
apply (add_section_comment s t) ini = (ini_add_section_comment ini (some s) (some t)).0
apply (delete_key s k) ini = (ini_delete_key ini s k).0
apply (delete_section s) ini = (ini_delete_section ini s).0

unfoldable pub apply_all : List Op → Option IniFile → Option IniFile
unfolding apply
apply_all [] ini = ini
apply_all (op ∷ ops) ini = apply_all ops (apply op ini)

abbrev pub IsBounded? : Option IniFile → Type 0
IsBounded? none = Unit
IsBounded? (some ini) = IsBounded ini

ini_set_with_comment-IsBounded :
    (m : Allocs) (ini : IniFile) (s k v : Bytes) (c : Option Bytes)
    → IsBounded ini
    → IsBounded? (ini_set_with_comment m (some ini) (some s) (some k) (some v) c).0
unfolding ini_set_with_comment set_value
ini_set_with_comment-IsBounded m ini s k v c h =
    store_section-fits m.for_key ini k v c (get_section m.for_section ini.sections s) h
      (get_section-fits m.for_section ini.sections s h.sections_fit)

-- Replacing or dropping the section that a search gives.
sections_replaced :
    (ini : IniFile) (b a : List Section) (s : Section)
    → IsBounded ini
    → All IsBoundedSection b
    → IsBoundedSection s
    → All IsBoundedSection a
    → IsBounded (record ini { sections = plug b s a; modified = true })
sections_replaced ini b a s h hb hs ha = record {
  header_fits = h.header_fits;
  sections_fit = All-plug IsBoundedSection b a s hb hs ha;
}

ini_add_comment-IsBounded :
    (m : Bool) (ini : IniFile) (s : Option Bytes) (t : Bytes)
    → IsBounded ini
    → IsBounded? (ini_add_comment m (some ini) s (some t)).0
unfolding ini_add_comment
ini_add_comment-IsBounded m ini none t h = record {
  header_fits = add_comment_to_list-fits m ini.header_comments t h.header_fits;
  sections_fit = h.sections_fit;
}
ini_add_comment-IsBounded m ini (some n) t h =
    go (find_section ini.sections n) (find_section-fits ini.sections n h.sections_fit)
  where
    go :
        (o : Option (Focus Section))
        → AllFocus IsBoundedSection o
        → IsBounded? (
            let r : Option IniFile × Bool = elim o [
              | none ↦ (some ini, false)
              | some (before, s, after) ↦
                  let s' = record s {
                    comments_before = add_comment_to_list m s.comments_before t;
                  } in
                  (some (record ini { sections = plug before s' after; modified = true }), true)
            ] in
            r.0)
    go none f = h
    go (some (b, s, a)) f =
        sections_replaced ini b a _ h f.0
          (record {
            name_fits = f.1.name_fits;
            comment_fits = f.1.comment_fits;
            comments_fit = add_comment_to_list-fits m s.comments_before t f.1.comments_fit;
            keys_fit = f.1.keys_fit;
          })
          f.2

ini_add_section_comment-IsBounded :
    (ini : IniFile) (n t : Bytes)
    → IsBounded ini
    → IsBounded? (ini_add_section_comment (some ini) (some n) (some t)).0
unfolding ini_add_section_comment
ini_add_section_comment-IsBounded ini n t h =
    go (find_section ini.sections n) (find_section-fits ini.sections n h.sections_fit)
  where
    go :
        (o : Option (Focus Section))
        → AllFocus IsBoundedSection o
        → IsBounded? (
            let r : Option IniFile × Bool = elim o [
              | none ↦ (some ini, false)
              | some (before, s, after) ↦
                  let s' = record s { comment = take 511 t } in
                  (some (record ini { sections = plug before s' after; modified = true }), true)
            ] in
            r.0)
    go none f = h
    go (some (b, s, a)) f =
        sections_replaced ini b a _ h f.0
          (record {
            name_fits = f.1.name_fits;
            comment_fits = copy_fits 511 t;
            comments_fit = f.1.comments_fit;
            keys_fit = f.1.keys_fit;
          })
          f.2

ini_delete_key-IsBounded :
    (ini : IniFile) (n k : Bytes) → IsBounded ini → IsBounded? (ini_delete_key (some ini) n k).0
unfolding ini_delete_key
ini_delete_key-IsBounded ini n k h = elim (Option-cases (find_section ini.sections n)) [
  | inl absent ↦ rw (absent, ini_delete_key) h
  | inr ((b, s, a), found) ↦
      let f : AllFocus IsBoundedSection (some (b, s, a)) =
        rw found at (find_section-fits ini.sections n h.sections_fit) in
      elim (Option-cases (find_key s.keys k)) [
        | inl absent ↦ rw (found, ini_delete_key, absent) h
        | inr ((kb, x, ka), found_key) ↦
            let g : AllFocus IsBoundedKey (some (kb, x, ka)) =
              rw found_key at (find_key-fits s.keys k f.1.keys_fit) in
            rw (found, ini_delete_key, found_key)
              (sections_replaced ini b a (record s { keys = kb ++ ka }) h f.0
                (with_keys s (kb ++ ka) f.1 (All-join IsBoundedKey kb ka g.0 g.2)) f.2)
      ]
]

ini_delete_section-IsBounded :
    (ini : IniFile) (n : Bytes) → IsBounded ini → IsBounded? (ini_delete_section (some ini) n).0
unfolding ini_delete_section
ini_delete_section-IsBounded ini n h = elim (Option-cases (find_section ini.sections n)) [
  | inl absent ↦ rw (absent, ini_delete_section) h
  | inr ((b, s, a), found) ↦
      let f : AllFocus IsBoundedSection (some (b, s, a)) =
        rw found at (find_section-fits ini.sections n h.sections_fit) in
      rw (found, ini_delete_section)
        (record {
          header_fits = h.header_fits;
          sections_fit = All-join IsBoundedSection b a f.0 f.2;
        })
]

pub apply-IsBounded? : (op : Op) (ini : Option IniFile) → IsBounded? ini → IsBounded? (apply op ini)
unfolding apply ini_set_with_comment ini_set ini_add_comment ini_add_section_comment ini_delete_key
    ini_delete_section
apply-IsBounded? (set_with_comment m s k v c) none h = tt
apply-IsBounded? (set_with_comment m s k v c) (some ini) h =
    ini_set_with_comment-IsBounded m ini s k v c h
apply-IsBounded? (set m s k v) none h = tt
apply-IsBounded? (set m s k v) (some ini) h = ini_set_with_comment-IsBounded m ini s k v none h
apply-IsBounded? (add_comment m s t) none h = tt
apply-IsBounded? (add_comment m s t) (some ini) h = ini_add_comment-IsBounded m ini s t h
apply-IsBounded? (add_section_comment s t) none h = tt
apply-IsBounded? (add_section_comment s t) (some ini) h =
    ini_add_section_comment-IsBounded ini s t h
apply-IsBounded? (delete_key s k) none h = tt
apply-IsBounded? (delete_key s k) (some ini) h = ini_delete_key-IsBounded ini s k h
apply-IsBounded? (delete_section s) none h = tt
apply-IsBounded? (delete_section s) (some ini) h = ini_delete_section-IsBounded ini s h

pub apply_all-IsBounded? :
    (ops : List Op) (ini : Option IniFile) → IsBounded? ini → IsBounded? (apply_all ops ini)
unfolding apply_all
apply_all-IsBounded? [] ini h = h
apply_all-IsBounded? (op ∷ ops) ini h =
    apply_all-IsBounded? ops (apply op ini) (apply-IsBounded? op ini h)
