-- ===== src/Settings/Matches.antt =====
-- plugin_mono/source/shellui_patch/settings_menu.c: the text with the matches replaced.
use ps4_hen_plugins.Base.{
  ℕ, zero, suc, ◌≤◌, ◌<◌, Bool, true, false, [], ◌∷◌, ◌++◌, ◌≡◌, ◌≢◌, refl, sym, ap, ◌∙◌, ◌⊎◌, inl,
  inr, arith, Bool-cases, Lacks, ◌==◌, Bytes, length, drop,
}
use ps4_hen_plugins.Settings.Replace.{
  ReplaceMode, replace_match, add_before, add_after, replace_line, starts_with, line_rest,
}

-- What stands in the output for a match, but for its line.
unfoldable pub piece : Bytes → Bytes → ReplaceMode → Bytes
piece search replacement replace_match = replacement
piece search replacement add_before = replacement ++ search
piece search replacement add_after = search ++ replacement
piece search replacement replace_line = replacement

abbrev pub by_line : ReplaceMode → Bool
by_line replace_match = false
by_line add_before = false
by_line add_after = false
by_line replace_line = true

-- The text with the matches replaced, from the left: outside of a match each byte is kept, and a
-- match that stands for its line takes all that follows on the line with it.
pub data Replaced (search replacement : Bytes) (mode : ReplaceMode) : Bytes → Bytes → Type 0 where
  ended : Replaced search replacement mode [] []
  copied :
      {c : ℕ} {pos out : Bytes}
      → ((rest : Bytes) → c ∷ pos ≢ search ++ rest)
      → Replaced search replacement mode pos out
      → Replaced search replacement mode (c ∷ pos) (c ∷ out)
  matched :
      {text pos out all : Bytes}
      → by_line mode ≡ false
      → text ≡ search ++ pos
      → all ≡ piece search replacement mode ++ out
      → Replaced search replacement mode pos out
      → Replaced search replacement mode text all
  line_matched :
      (before rest : Bytes)
      → {text pos out all : Bytes} → by_line mode ≡ true
      → text ≡ search ++ rest
      → text ≡ before ++ b'\n' ∷ pos
      → Lacks b'\n' before
      → all ≡ replacement ++ b'\n' ∷ out
      → Replaced search replacement mode pos out
      → Replaced search replacement mode text all
  last_line :
      (rest : Bytes)
      → {text : Bytes} → by_line mode ≡ true
      → text ≡ search ++ rest
      → Lacks b'\n' text
      → Replaced search replacement mode text replacement

pub truth_clash : false ≡ true → ⊥
truth_clash e = absurd (ground arith)

pub starts_with-split :
    (search text : Bytes)
    → starts_with search text ≡ true
    → text ≡ search ++ drop (length search) text
unfolding starts_with
starts_with-split [] text h = refl
starts_with-split (c ∷ search) [] h = absurd (ground arith)
starts_with-split (c ∷ search) (x ∷ pos) h = elim (Bool-cases (x == c)) [
  | inl e ↦
      let same : x ≡ c = ground arith in
      rw same (ap (λ t. c ∷ t) (starts_with-split search pos (rw e at h)))
  | inr e ↦ absurd (truth_clash (rw e at h))
]

starts_with-append : (search rest : Bytes) → starts_with search (search ++ rest) ≡ true
unfolding starts_with
starts_with-append [] rest = refl
starts_with-append (c ∷ search) rest =
    let e : (c == c) ≡ true = ground arith in rw e (starts_with-append search rest)

pub starts_with-misses :
    (search text : Bytes) → starts_with search text ≡ false → (rest : Bytes) → text ≢ search ++ rest
starts_with-misses search text h rest e =
    truth_clash ((sym h) ∙ (rw e (starts_with-append search rest)))

pub length-drop : (n : ℕ) (s : Bytes) → length (drop n s) ≤ length s
length-drop zero s = omega arith
length-drop (suc n) [] = omega arith
length-drop (suc n) (x ∷ s) = omega (arith, length-drop n s)

-- A match of at least one byte is passed.
pub drop-shorter : (n c : ℕ) (pos : Bytes) → 0 < n → length (drop n (c ∷ pos)) ≤ length pos
drop-shorter zero c pos h = absurd (omega arith)
drop-shorter (suc n) c pos h = length-drop n pos

-- The two ways in which a line ends.
pub line_rest-cases :
    (s : Bytes)
    → ((line_rest s ≡ []) × Lacks b'\n' s)
      ⊎ ((before : Bytes) × (pos : Bytes) × ((line_rest s ≡ b'\n' ∷ pos)
            × ((s ≡ before ++ b'\n' ∷ pos) × Lacks b'\n' before)))
unfolding line_rest
line_rest-cases [] = inl (refl, tt)
line_rest-cases (c ∷ s) = elim (Bool-cases (c == b'\n')) [
  | inl e ↦
      let same : c ≡ b'\n' = ground arith in
      inr ([], s, (rw e (ap (λ t. t ∷ s) same), (ap (λ t. t ∷ s) same, tt)))
  | inr e ↦
      let other : c ≢ b'\n' = ground arith in
      elim (line_rest-cases s) [
        | inl (r, l) ↦ inl (rw e r, (other, l))
        | inr (before, pos, (r, (q, l))) ↦
            inr (c ∷ before, pos, (rw e r, (ap (λ t. c ∷ t) q, (other, l))))
      ]
]
