-- ===== src/Prelude/Maps.antt =====
-- Go maps with string keys as association lists: the first entry of a key is the one that counts.
use mathlib.Core.Bool.{Bool, true, false}
use mathlib.Core.Path.{◌≡◌, refl, sym, ap, ◌∙◌}
use mathlib.Core.Logic.{◌⊎◌, inl, inr}
use mathlib.Core.Option.{Option, none, some}
use mathlib.Core.List.{List, [], ◌∷◌}
use o4x.Prelude.Tests.{if◌then◌else◌, Bool-cases}
use o4x.Prelude.Strings.{Text, text_eq, text_eq_iff}

module _ {ℓ} {A : Type ℓ} where
  unfoldable pub lookup : Text → List (Text × A) → Option A
  lookup key [] = none
  lookup key ((k, x) ∷ entries) =
      let rest = lookup key entries in if text_eq k key then some x else rest

  -- `m[key] = x`
  unfoldable pub put : Text → A → List (Text × A) → List (Text × A)
  put key x [] = (key, x) ∷ []
  put key x ((k, y) ∷ entries) =
      let rest = put key x entries in if text_eq k key then (k, x) ∷ entries else (k, y) ∷ rest

  pub lookup-put :
      (key q : Text) (x : A) (entries : List (Text × A))
      → lookup q (put key x entries) ≡ (if text_eq key q then some x else lookup q entries)
  unfolding lookup put
  lookup-put key q x [] = refl
  lookup-put key q x ((k, y) ∷ entries) = elim (Bool-cases (text_eq k key)) [
    | inl same ↦
        let e : text_eq k q ≡ text_eq key q = ap (λ s. text_eq s q) ((text_eq_iff k key).0 same) in
        rw (same, e) (again (text_eq key q))
    | inr other ↦ rw (other, lookup-put key q x entries) (swap (Bool-cases (text_eq key q)) other)
  ]
    where
      again :
          (b : Bool)
          → (if b then some x else lookup q entries)
            ≡ (if b then some x else if b then some y else lookup q entries)
      again true = refl
      again false = refl

      swap :
          (text_eq key q ≡ true) ⊎ (text_eq key q ≡ false)
          → text_eq k key ≡ false
          → (if text_eq k q then some y else if text_eq key q then some x else lookup q entries)
            ≡ (if text_eq key q then some x else if text_eq k q then some y else lookup q entries)
      swap (inl here) other =
          let e : text_eq k q ≡ false = ap (text_eq k) (sym ((text_eq_iff key q).0 here)) ∙ other in
          rw (here, e) refl
      swap (inr there) other = rw there refl

  -- The keys of a map that was filled by `put`.
  abbrev pub keys : List (Text × A) → List Text
  keys [] = []
  keys ((k, x) ∷ entries) = k ∷ keys entries
