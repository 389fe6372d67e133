-- ===== src/Ini/Trim.antt =====
-- common/ini.c: `trim_whitespace` and `extract_comment` on the strings that `ini_save` writes.
use ps4_hen_plugins.Base.{
  ℕ, zero, suc, Bool, false, [], ◌∷◌, ◌++◌, ◌≡◌, refl, ◌∙◌, inl, inr, arith, Bytes, length, take,
  get_or, All, Bool-cases, length-append, take_all, take-append, get_or-last, get_or-append,
}
use ps4_hen_plugins.Ini.Text.{
  isspace, skip_spaces, cut_end, trim_from, trim_whitespace, is_quote, in_quotes,
}

-- Empty, or neither the first nor the last byte is a space.
abbrev pub IsTrimmed : Bytes → Type 0
IsTrimmed [] = Unit
IsTrimmed (c ∷ cs) = (isspace c ≡ false) × (isspace (get_or (c ∷ cs) (length cs) 0) ≡ false)

cut_end_stops :
    (e : ℕ) (c : ℕ) (cs : Bytes)
    → isspace (get_or (c ∷ cs) e 0) ≡ false
    → cut_end e (c ∷ cs) ≡ take (suc e) (c ∷ cs)
unfolding cut_end
cut_end_stops zero c cs h = refl
cut_end_stops (suc e) c cs h = rw (h, cut_end)

pub trim-IsTrimmed : (s : Bytes) → IsTrimmed s → trim_whitespace s ≡ s
unfolding trim_whitespace skip_spaces trim_from
trim-IsTrimmed [] h = refl
trim-IsTrimmed (c ∷ cs) h =
    rw h.0 (cut_end_stops (length cs) c cs h.1 ∙ take_all (suc (length cs)) (c ∷ cs) (omega arith))

pub trim_space_before : (s : Bytes) → trim_whitespace (b' ' ∷ s) ≡ trim_whitespace s
unfolding trim_whitespace skip_spaces isspace
trim_space_before s = refl

pub trim_space_after : (s : Bytes) → IsTrimmed s → trim_whitespace (s ++ b' ' ∷ []) ≡ s
unfolding trim_whitespace skip_spaces trim_from cut_end isspace
trim_space_after [] h = refl
trim_space_after (c ∷ cs) h = rw h.0 (rw more (rw (get_or-last cs b' ' 0, cut_end) stops))
  where
    more : length (cs ++ b' ' ∷ []) ≡ suc (length cs)
    more = omega (arith, length-append cs (b' ' ∷ []))

    kept : isspace (get_or (c ∷ (cs ++ b' ' ∷ [])) (length cs) 0) ≡ false
    kept = rw (get_or-append (c ∷ cs) (b' ' ∷ []) (length cs) 0 (omega arith)) h.1

    stops : cut_end (length cs) (c ∷ (cs ++ b' ' ∷ [])) ≡ c ∷ cs
    stops = cut_end_stops (length cs) c (cs ++ b' ' ∷ []) kept ∙ take-append (c ∷ cs) (b' ' ∷ [])

-- The trimmed line begins with its first byte that is no space.
pub trim_first :
    (c : ℕ) (cs : Bytes)
    → isspace c ≡ false
    → (rest : Bytes) × (trim_whitespace (c ∷ cs) ≡ c ∷ rest)
unfolding trim_whitespace skip_spaces trim_from
trim_first c cs h = rw h (go (length cs))
  where
    go : (e : ℕ) → (rest : Bytes) × (cut_end e (c ∷ cs) ≡ c ∷ rest)
    go zero = ([], refl)
    go (suc e) = elim (Bool-cases (isspace (get_or cs e 0))) [
      | inl space ↦ let (rest, eq) = go e in (rest, rw (space, cut_end) eq)
      | inr other ↦ (take (suc e) cs, rw (other, cut_end))
    ]

pub in_quotes_plain : (q : Bool) (s : Bytes) → All (λ c. is_quote c ≡ false) s → in_quotes q s ≡ q
unfolding in_quotes
in_quotes_plain q [] h = refl
in_quotes_plain q (c ∷ []) h = rw h.0
in_quotes_plain q (c ∷ d ∷ ds) h = ground (arith, h.0, h.1.0, in_quotes_plain q (d ∷ ds) h.1)
