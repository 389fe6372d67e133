-- ===== src/Pkg/Titles.antt =====
-- plugin_mono/source/pkg_broswer.c: the title ID is the first one of the file name.
use mathlib.Core.Option
use ps4_hen_plugins.Base.{
  ℕ, zero, suc, ◌+◌, ◌≤◌, ◌<◌, Bool, true, false, not, ◌&&◌, ◌||◌, Option, none, some, [], ◌∷◌,
  ◌++◌, ◌≡◌, refl, sym, ◌∙◌, ◌⊎◌, ◌↔◌, inl, inr, arith, leb, ◌==◌, if◌then◌else◌, Bytes, length,
  get_or, take, drop, Bool-cases, codes, length-append, get_or-append_right,
}
use ps4_hen_plugins.Pkg.Names.{is_alnum, all_alnum, is_title_id, title_from, extract_title_id}

truth_clash : false ≡ true → ⊥
truth_clash e = absurd (ground arith)

-- The position in a text at which a title ID stands, which is looked at with the byte in front.
pub record IsTitleId (before : ℕ) (p : Bytes) : Type 0 where
  pub starts : (get_or p 0 0 ≡ b'C') ⊎ ((get_or p 0 0 ≡ b'P') ⊎ (get_or p 0 0 ≡ b'U'))
  pub long : 10 ≤ length p
  pub alnum : (i : ℕ) → i < 10 → is_alnum (get_or p i 0) ≡ true
  pub not_preceded : is_alnum before ≡ false
  pub not_followed : is_alnum (get_or p 10 0) ≡ false

-- The same, at a position behind.
unfoldable pub IsTitleIdAt : ℕ → Bytes → ℕ → Type 0
IsTitleIdAt before p zero = IsTitleId before p
IsTitleIdAt before [] (suc i) = ⊥
IsTitleIdAt before (c ∷ p) (suc i) = IsTitleIdAt c p i

-- The first position of a title ID, or that there is none.
unfoldable pub IsFirstTitleId : ℕ → Bytes → Option ℕ → Type 0
IsFirstTitleId before p none = (i : ℕ) → ¬ IsTitleIdAt before p i
IsFirstTitleId before p (some i) =
    IsTitleIdAt before p i × ((j : ℕ) → j < i → ¬ IsTitleIdAt before p j)

-- The ten bytes at that position.
unfoldable pub title_of : Bytes → Option ℕ → Bytes
title_of p none = []
title_of p (some i) = take 10 (drop i p)

all_alnum_iff :
    (n : ℕ) (s : Bytes)
    → n ≤ length s
    → (all_alnum n s ≡ true) ↔ ((i : ℕ) → i < n → is_alnum (get_or s i 0) ≡ true)
unfolding all_alnum
all_alnum_iff zero s h = (λ e i below. absurd (omega arith), λ k. refl)
all_alnum_iff (suc n) [] h = absurd (omega arith)
all_alnum_iff (suc n) (c ∷ s) h =
    let rest = all_alnum_iff n s (omega arith) in
    elim (Bool-cases (is_alnum c)) [
      | inl e ↦ rw e (λ a. at_each e (rest.0 a), λ k. rest.1 (λ i below. k (suc i) (omega arith)))
      | inr e ↦ rw e (λ a. absurd (cc), λ k. (sym e) ∙ k 0 (omega arith))
    ]
  where
    at_each :
        is_alnum c ≡ true
        → ((i : ℕ) → i < n → is_alnum (get_or s i 0) ≡ true)
        → (i : ℕ) → i < suc n
        → is_alnum (get_or (c ∷ s) i 0) ≡ true
    at_each e k zero below = e
    at_each e k (suc i) below = k i (omega arith)

-- The tests at a position, apart from the text.
title_test :
    (first n : ℕ) (before all behind : Bool)
    → ((if (first == b'C' || first == b'P' || first == b'U') && leb 10 n
          then not before && (all && not behind)
          else false)
        ≡ true)
      ↔ (((first ≡ b'C') ⊎ ((first ≡ b'P') ⊎ (first ≡ b'U')))
          × ((10 ≤ n) × ((before ≡ false) × ((all ≡ true) × (behind ≡ false)))))
title_test first n before all behind = ground arith

IsTitleId-parts :
    (before : ℕ) (p : Bytes)
    → (((get_or p 0 0 ≡ b'C') ⊎ ((get_or p 0 0 ≡ b'P') ⊎ (get_or p 0 0 ≡ b'U')))
        × ((10 ≤ length p)
            × ((is_alnum before ≡ false)
                × ((all_alnum 10 p ≡ true) × (is_alnum (get_or p 10 0) ≡ false)))))
    → IsTitleId before p
IsTitleId-parts before p t = record {
  starts = t.0;
  long = t.1.0;
  alnum = (all_alnum_iff 10 p t.1.0).0 t.1.1.1.0;
  not_preceded = t.1.1.0;
  not_followed = t.1.1.1.1;
}

is_title_id_iff : (before : ℕ) (p : Bytes) → (is_title_id before p ≡ true) ↔ IsTitleId before p
unfolding is_title_id
is_title_id_iff before p =
    let test =
      title_test (get_or p 0 0) (length p) (is_alnum before) (all_alnum 10 p)
        (is_alnum (get_or p 10 0)) in
    (
      λ e. IsTitleId-parts before p (test.0 e),
      λ h. test.1 (
        h.starts,
        (h.long, (h.not_preceded, ((all_alnum_iff 10 p h.long).1 h.alnum, h.not_followed))),
      ),
    )

IsFirstTitleId-later :
    (before c : ℕ) (p : Bytes) (o : Option ℕ)
    → ¬ IsTitleId before (c ∷ p)
    → IsFirstTitleId c p o
    → IsFirstTitleId before (c ∷ p) (Option.map suc o)
unfolding IsFirstTitleId IsTitleIdAt
IsFirstTitleId-later before c p none misses h = at_each
  where
    at_each : (i : ℕ) → ¬ IsTitleIdAt before (c ∷ p) i
    at_each zero = misses
    at_each (suc i) = h i
IsFirstTitleId-later before c p (some k) misses h = (h.0, at_each)
  where
    at_each : (j : ℕ) → j < suc k → ¬ IsTitleIdAt before (c ∷ p) j
    at_each zero below = misses
    at_each (suc j) below = h.1 j (omega arith)

title_of-later :
    (c : ℕ) (p : Bytes) (o : Option ℕ) → title_of (c ∷ p) (Option.map suc o) ≡ title_of p o
unfolding title_of
title_of-later c p none = refl
title_of-later c p (some i) = refl

nowhere : (before i : ℕ) → ¬ IsTitleIdAt before [] i
unfolding IsTitleIdAt
nowhere before zero h = absurd (omega (arith, h.long))
nowhere before (suc i) h = h

title_from-IsFirstTitleId :
    (before : ℕ) (p : Bytes)
    → (first : Option ℕ) × (IsFirstTitleId before p first
        × (title_from 16 before p ≡ title_of p first))
unfolding title_from
title_from-IsFirstTitleId before [] =
    (none, (unfold IsFirstTitleId in nowhere before, unfold title_of in refl))
title_from-IsFirstTitleId before (c ∷ p) = elim (Bool-cases (is_title_id before (c ∷ p))) [
  | inl e ↦ rw e (
    some 0,
    (
      unfold IsFirstTitleId IsTitleIdAt in
          ((is_title_id_iff before (c ∷ p)).0 e, λ j below. absurd (omega arith)),
      unfold title_of in refl,
    ),
  )
  | inr e ↦
      let (first, r) = title_from-IsFirstTitleId c p in
      rw e (
        Option.map suc first,
        (
          IsFirstTitleId-later before c p first
              (λ h. truth_clash ((sym e) ∙ (is_title_id_iff before (c ∷ p)).1 h)) r.0,
          r.1 ∙ (sym (title_of-later c p first)),
        ),
      )
]

-- The title ID of a package's name, in the 16 bytes of an entry, is the ten bytes at the first
-- position where a title ID stands, and empty where there is no such position.
pub extract_title_id-IsFirstTitleId :
    (filename : Bytes)
    → (first : Option ℕ) × (IsFirstTitleId 0 filename first
        × (extract_title_id filename 16 ≡ title_of filename first))
unfolding extract_title_id
extract_title_id-IsFirstTitleId filename = title_from-IsFirstTitleId 0 filename

IsTitleIdAt-fits : (before : ℕ) (p : Bytes) (i : ℕ) → IsTitleIdAt before p i → i + 10 ≤ length p
unfolding IsTitleIdAt
IsTitleIdAt-fits before p zero h = omega (arith, h.long)
IsTitleIdAt-fits before [] (suc i) h = elim h [ ]
IsTitleIdAt-fits before (c ∷ p) (suc i) h = omega (arith, IsTitleIdAt-fits c p i h)

IsTitleIdAt-is_alnum :
    (before : ℕ) (p : Bytes) (i j : ℕ)
    → IsTitleIdAt before p i
    → i ≤ j
    → j < i + 10
    → is_alnum (get_or p j 0) ≡ true
unfolding IsTitleIdAt
IsTitleIdAt-is_alnum before p zero j h low high = h.alnum j (omega arith)
IsTitleIdAt-is_alnum before [] (suc i) j h low high = elim h [ ]
IsTitleIdAt-is_alnum before (c ∷ p) (suc i) zero h low high = absurd (omega arith)
IsTitleIdAt-is_alnum before (c ∷ p) (suc i) (suc j) h low high =
    IsTitleIdAt-is_alnum c p i j h (omega arith) (omega arith)

-- Where a byte that is no alphanumeric stands less than ten bytes from both ends, no title fits.
title_of-near :
    (p : Bytes) (k : ℕ) (o : Option ℕ)
    → k < 10
    → length p < k + 11
    → is_alnum (get_or p k 0) ≡ false
    → IsFirstTitleId 0 p o
    → title_of p o ≡ []
unfolding title_of IsFirstTitleId
title_of-near p k none h l e f = refl
title_of-near p k (some i) h l e f = absurd (
    truth_clash (
      (sym e)
      ∙ IsTitleIdAt-is_alnum 0 p i k f.0 (omega (arith, IsTitleIdAt-fits 0 p i f.0)) (omega arith)))

dot_behind : (t : Bytes) → length t ≡ 9 → is_alnum (get_or (t ++ codes ".pkg") 9 0) ≡ false
unfolding is_alnum
dot_behind t e =
    let place : get_or (t ++ codes ".pkg") (length t + 0) 0 ≡ b'.' =
      get_or-append_right t (codes ".pkg") 0 0 in
    let same : length t + 0 ≡ 9 = omega arith in rw (rw same at place) refl

-- A package named by a title ID of nine bytes, as the console's are, gets an empty title ID.
pub extract_title_id-nine :
    (title : Bytes) → length title ≡ 9 → extract_title_id (title ++ codes ".pkg") 16 ≡ []
extract_title_id-nine title e =
    let (first, r) = extract_title_id-IsFirstTitleId (title ++ codes ".pkg") in
    r.1
    ∙ title_of-near (title ++ codes ".pkg") 9 first (omega arith)
        (omega (arith, length-append title (codes ".pkg"))) (dot_behind title e) r.0
