-- ===== src/Pkg/Names.antt =====
-- plugin_mono/source/pkg_broswer.c: the names of package files, and the title ID in them.
use ps4_hen_plugins.Base.{
  ℕ, zero, suc, ◌-◌, Bool, true, false, not, ◌&&◌, ◌||◌, [], ◌∷◌, leb, ltb, ◌==◌, if◌then◌else◌,
  Bytes, length, get_or, take, drop,
}

-- `has_pkg_ext`
unfoldable pub has_pkg_ext : Bytes → Bool
has_pkg_ext name =
    let ext = drop (length name - 4) name in
    if ltb (length name) 5
    then false
    else get_or ext 0 0 == b'.'
      && ((get_or ext 1 0 == b'p' || get_or ext 1 0 == b'P')
          && ((get_or ext 2 0 == b'k' || get_or ext 2 0 == b'K')
              && (get_or ext 3 0 == b'g' || get_or ext 3 0 == b'G')))

-- An upper case letter or a digit, which is what the code calls alphanumeric.
unfoldable pub is_alnum : ℕ → Bool
is_alnum c = leb b'A' c && leb c b'Z' || leb b'0' c && leb c b'9'

-- The loop over the candidate's bytes.
unfoldable pub all_alnum : ℕ → Bytes → Bool
unfolding is_alnum
all_alnum zero s = true
all_alnum (suc n) [] = false
all_alnum (suc n) (c ∷ s) = let rest = all_alnum n s in if not (is_alnum c) then false else rest

-- The tests at one position, with the byte in front of it, which is 0 at the start.
unfoldable pub is_title_id : ℕ → Bytes → Bool
unfolding is_alnum all_alnum
is_title_id before p =
    let first = get_or p 0 0 in
    if (first == b'C' || first == b'P' || first == b'U') && leb 10 (length p)
    then not (is_alnum before) && (all_alnum 10 p && not (is_alnum (get_or p 10 0)))
    else false

unfoldable pub title_from : ℕ → ℕ → Bytes → Bytes
unfolding is_title_id
title_from out_sz before [] = []
title_from out_sz before (c ∷ p) =
    let rest = title_from out_sz c p in
    if is_title_id before (c ∷ p)
    then take (if leb out_sz 10 then out_sz - 1 else 10) (c ∷ p)
    else rest

-- `extract_title_id`
unfoldable pub extract_title_id : Bytes → ℕ → Bytes
unfolding title_from
extract_title_id filename out_sz = if ltb out_sz 2 then [] else title_from out_sz 0 filename
