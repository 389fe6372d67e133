-- ===== src/Ini/Find.antt =====
-- common/ini.c: the search loops over linked lists find the first node that fits.
use ps4_hen_plugins.Base.{
  Bool, true, false, Option, none, some, List, [], ◌∷◌, ◌++◌, ◌≡◌, refl, sym, ap, ◌∙◌, inl, inr,
  arith, if◌then◌else◌, Bytes, All, matches, matches_iff, matches_refl, Bool-cases,
}
use mathlib.Core.Path.{subst}
use ps4_hen_plugins.Ini.{Focus, plug, find}

module _ {A : Type 0} where
  -- The node that a search returns, without its place.
  abbrev pub node : Option (Focus A) → Option A
  node none = none
  node (some (_, x, _)) = some x

  -- What the result of a search for the first node with `p` says about the list.
  abbrev pub IsFirst : (A → Bool) → List A → Option (Focus A) → Type 0
  IsFirst p xs none = All (λ x. p x ≡ false) xs
  IsFirst p xs (some (before, x, after)) =
      (xs ≡ plug before x after) × (p x ≡ true) × All (λ y. p y ≡ false) before

  pub find-IsFirst : (p : A → Bool) (xs : List A) → IsFirst p xs (find p xs)
  unfolding find
  find-IsFirst p [] = tt
  find-IsFirst p (x ∷ xs) = elim (Bool-cases (p x)) [
    | inl e ↦ rw e (refl, e, tt)
    | inr e ↦ rw e (go (find p xs) e (find-IsFirst p xs))
  ]
    where
      go :
          (o : Option (Focus A))
          → p x ≡ false
          → IsFirst p xs o
          → IsFirst p
              (x ∷ xs)
              (elim o [ none ↦ none | some (before, y, after) ↦ some (x ∷ before, y, after) ])
      go none e h = (e, h)
      go (some (b, y, a)) e h = (ap (λ t. x ∷ t) h.0, h.1, (e, h.2))

  pub find-plug :
      (p : A → Bool) (before after : List A) (x : A)
      → All (λ y. p y ≡ false) before
      → p x ≡ true
      → find p (plug before x after) ≡ some (before, x, after)
  unfolding find
  find-plug p [] after x h e = rw e
  find-plug p (y ∷ before) after x h e = rw (h.0, find-plug p before after x h.1 e)

  -- A node that does not fit is not seen by the search.
  pub node-find_skip :
      (p : A → Bool) (before after : List A) (x : A)
      → p x ≡ false
      → node (find p (plug before x after)) ≡ node (find p (before ++ after))
  unfolding find
  node-find_skip p [] after x e = ground arith
  node-find_skip p (y ∷ before) after x e = ground (arith, node-find_skip p before after x e)

  pub find-none : (p : A → Bool) (xs : List A) → All (λ x. p x ≡ false) xs → find p xs ≡ none
  unfolding find
  find-none p [] h = refl
  find-none p (x ∷ xs) h = rw (h.0, find-none p xs h.1)

  -- Another node in the same place, where neither fits.
  pub node-find_replace :
      (p : A → Bool) (before after : List A) (x x' : A)
      → p x ≡ false
      → p x' ≡ false
      → node (find p (plug before x' after)) ≡ node (find p (plug before x after))
  node-find_replace p before after x x' e e' =
      node-find_skip p before after x' e' ∙ sym (node-find_skip p before after x e)

-- Lists of named nodes, searched by `strcmp`.
module _ {A : Type 0} (name_of : A → Bytes) where
  abbrev pub named : Bytes → A → Bool
  named name x = matches (name_of x) name

  abbrev pub look : List A → Bytes → Option A
  look xs name = node (find (named name) xs)

  -- The node stands for the name in the list: whatever node of that name replaces it, the name
  -- leads to that node, and every other name leads where it did.
  abbrev pub IsSlot : List A → Bytes → Focus A → Type 0
  IsSlot xs name (before, x, after) =
      (x' : A) (other : Bytes)
      → name_of x' ≡ name
      → look (plug before x' after) other ≡ (if matches name other then some x' else look xs other)

  pub found-IsSlot :
      (xs : List A) (name : Bytes) (f : Focus A)
      → IsFirst (named name) xs (some f)
      → IsSlot xs name f
  found-IsSlot xs name (before, x, after) (split, fits, earlier) x' other e =
      elim (Bool-cases (matches name other)) [
        | inl h ↦
            let other_is : name ≡ other = (matches_iff name other).0 h in
            let here : matches (name_of x') name ≡ true = rw e (matches_refl name) in
            let at : look (plug before x' after) name ≡ some x' =
              ap node (find-plug (named name) before after x' earlier here) in
            rw h (subst (λ o. look (plug before x' after) o ≡ some x') other_is at)
        | inr h ↦
            let name_is : name_of x ≡ name = (matches_iff (name_of x) name).0 fits in
            rw (h, split)
              (node-find_replace (named other) before after x x' (rw name_is h) (rw e h))
      ]

  pub fresh-IsSlot : (xs : List A) (name : Bytes) (x : A) → IsSlot xs name ([], x, xs)
  unfolding find
  fresh-IsSlot xs name x x' other e = rw e (go (matches name other))
    where
      go :
          (b : Bool)
          → node (
              if b then some ([], x', xs) else elim (find (named other) xs) [
                | none ↦ none
                | some (before, y, after) ↦ some (x' ∷ before, y, after)
              ])
            ≡ (if b then some x' else look xs other)
      go b = ground arith

  pub look-found :
      (xs : List A) (name : Bytes) (f : Focus A)
      → find (named name) xs ≡ some f
      → IsFirst (named name) xs (some f)
  look-found xs name f e = rw e at (find-IsFirst (named name) xs)
