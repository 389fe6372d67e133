-- ===== src/Pkg/Extends.antt =====
-- plugin_mono/source/pkg_broswer.c: a list of packages that is extended as far as its bound.
use ps4_hen_plugins.Base.{
  ℕ, ◌+◌, ◌≤◌, ◌<◌, true, List, [], ◌∷◌, ◌++◌, ◌≡◌, refl, sym, ap, ◌∙◌, ◌⊎◌, inl, inr, arith,
  append-nil, append_assoc, length-append, length-take, take_all, take-append_short,
  take-append-take, length, take,
}
use ps4_hen_plugins.Pkg.Scan.{PkgEntry, PkgList}

-- What the list counts, and its bound.
pub record IsValid (list : PkgList) : Type 0 where
  pub counted : list.count ≡ length list.entries
  pub bounded : list.count ≤ 1024

-- The second list is the first with these packages behind it, as far as 1024 go; it says so where
-- there were more.
pub record Extends (list : PkgList) (found : List PkgEntry) (list' : PkgList) : Type 0 where
  pub entries : list'.entries ≡ take 1024 (list.entries ++ found)
  pub counted : list'.count ≡ length list'.entries
  pub overflowed : 1024 < length list.entries + length found → list'.overflow ≡ true
  pub kept : list.overflow ≡ true → list'.overflow ≡ true

-- A step that extends each valid list by these packages.
pub record Adds (step : PkgList → PkgList) (found : List PkgEntry) : Type 0 where
  pub extends : (list : PkgList) → IsValid list → Extends list found (step list)

pub Extends-IsValid :
    (list : PkgList) (found : List PkgEntry) (list' : PkgList)
    → Extends list found list'
    → IsValid list'
Extends-IsValid list found list' h = record {
  counted = h.counted;
  bounded = omega (arith, h.counted, ap length h.entries, length-take 1024 (list.entries ++ found));
}

pub Extends-none : (list : PkgList) → IsValid list → Extends list [] list
Extends-none list h = record {
  entries = rw append-nil (sym (take_all 1024 list.entries (omega (arith, h.counted, h.bounded))));
  counted = h.counted;
  overflowed = λ more. absurd (omega (arith, h.counted, h.bounded));
  kept = λ e. e;
}

over_or_within : (m n : ℕ) → (1024 < m + n) ⊎ (m + n ≤ 1024)
over_or_within m n = omega arith

pub Extends-append :
    (a b c : PkgList) (f g : List PkgEntry) → Extends a f b → Extends b g c → Extends a (f ++ g) c
Extends-append a b c f g h k = record {
  entries = k.entries ∙ (rw (h.entries, ← append_assoc) (take-append-take 1024 (a.entries ++ f) g));
  counted = k.counted;
  overflowed = λ more. elim (over_or_within (length a.entries) (length f)) [
    | inl over ↦ k.kept (h.overflowed over)
    | inr within ↦ k.overflowed (
        omega (
          arith,
          more,
          within,
          ap length h.entries,
          length-take 1024 (a.entries ++ f),
          length-append a.entries f,
          length-append f g,
        ))
  ];
  kept = λ e. k.kept (h.kept e);
}

-- A full list that says so is extended by anything.
pub Extends-full :
    (list : PkgList) (found : List PkgEntry)
    → IsValid list
    → 1024 ≤ list.count
    → Extends list found (record list { overflow = true })
Extends-full list found h full = record {
  entries = sym (
      take-append_short 1024 list.entries found (omega (arith, h.counted))
      ∙ take_all 1024 list.entries (omega (arith, h.counted, h.bounded)));
  counted = h.counted;
  overflowed = λ more. refl;
  kept = λ e. refl;
}

pub Extends-entry :
    (list : PkgList) (e : PkgEntry)
    → IsValid list
    → list.count < 1024
    → Extends list
        (e ∷ [])
        (record list { entries = list.entries ++ e ∷ []; count = list.count + 1 })
Extends-entry list e h room = record {
  entries = sym (
      take_all 1024 (list.entries ++ e ∷ [])
        (omega (arith, h.counted, length-append list.entries (e ∷ []))));
  counted = omega (arith, h.counted, length-append list.entries (e ∷ []));
  overflowed = λ more. absurd (omega (arith, h.counted));
  kept = λ o. o;
}
