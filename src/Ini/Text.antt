-- ===== src/Ini/Text.antt =====
-- common/ini.c: `trim_whitespace` and `extract_comment`.
use ps4_hen_plugins.Base.{
  ℕ, zero, suc, Bool, true, false, not, ◌&&◌, ◌||◌, Option, none, some, [], ◌∷◌, leb, ◌==◌,
  if◌then◌else◌, Bytes, length, take, get_or, strchr,
}

-- `isspace` in the C locale
unfoldable pub isspace : ℕ → Bool
isspace c = c == b' ' || leb 9 c && leb c 13

unfoldable pub skip_spaces : Bytes → Bytes
unfolding isspace
skip_spaces [] = []
skip_spaces (c ∷ cs) = if isspace c then skip_spaces cs else c ∷ cs

-- `while (end > str && isspace(*end)) end--; end[1] = '\0';`, with `end` an index.
unfoldable pub cut_end : ℕ → Bytes → Bytes
unfolding isspace
cut_end zero s = take 1 s
cut_end (suc e) s = elim (isspace (get_or s (suc e) 0)) [
  | true ↦ cut_end e s
  | false ↦ take (suc (suc e)) s
]

unfoldable pub trim_from : Bytes → Bytes
trim_from [] = []
trim_from (c ∷ cs) = cut_end (length cs) (c ∷ cs)

unfoldable pub trim_whitespace : Bytes → Bytes
unfolding trim_from skip_spaces cut_end
trim_whitespace s = trim_from (skip_spaces s)

unfoldable pub is_quote : ℕ → Bool
is_quote c = c == b'"' || c == 0x27

-- The loop over the bytes before the comment sign: whether it ends inside quotes. The byte behind
-- a final backslash is the comment sign, which is no quote.
unfoldable pub in_quotes : Bool → Bytes → Bool
unfolding is_quote
in_quotes q [] = q
in_quotes q (c ∷ []) = if is_quote c then not q else q
in_quotes q (c ∷ d ∷ ds) = elim (is_quote c) [
  | true ↦ in_quotes (not q) (d ∷ ds)
  | false ↦ elim (c == b'\\' && is_quote d) [ true ↦ in_quotes q ds | false ↦ in_quotes q (d ∷ ds) ]
]

-- The line as the function leaves it, and the comment that it returns.
unfoldable pub extract_comment : Bytes → ℕ → Bytes × Option Bytes
unfolding in_quotes trim_whitespace
extract_comment line sign = elim (strchr sign line) [
  | none ↦ (line, none)
  | some (before, after) ↦
      if in_quotes false before then (line, none) else (before, some (trim_whitespace after))
]
