-- ===== src/Base/Members.antt =====
-- Members of a list, and keys that no two members share.
use mathlib.Core.Path.{◌≡◌, refl, ◌∙◌, sym, subst}
use mathlib.Core.Bool.{Bool, true, false}
use mathlib.Core.List.{List, [], ◌∷◌, ◌++◌, map}
use mathlib.Core.Logic.{◌≢◌, ◌⊎◌, inl, inr}
use native.Mathlib.Omega.{arith}
use infer_platform.Base.Chars.{Text, text_eq, text_eq_refl, text_eq→eq}
use infer_platform.Base.Tests.{Bool-cases}
use infer_platform.Base.Lists.{All, All-append, All-mono, any}

module _ {ℓ κ} {A : Type ℓ} {K : Type κ} where
  -- No two members have the same key.
  abbrev pub Distinct : (A → K) → List A → Type κ
  Distinct key [] = Unit
  Distinct key (x ∷ xs) = All (λ y. key x ≢ key y) xs × Distinct key xs

  pub Distinct-append :
      (key : A → K) (xs : List A) (y : A)
      → Distinct key xs
      → All (λ x. key x ≢ key y) xs
      → Distinct key (xs ++ (y ∷ []))
  Distinct-append key [] y d a = (tt, tt)
  Distinct-append key (x ∷ xs) y d a =
      (All-append (λ z. key x ≢ key z) xs (y ∷ []) d.0 (a.0, tt), Distinct-append key xs y d.1 a.1)

  All-map_keys :
      (key : A → K) (f : A → A) (k : K) (xs : List A)
      → ((x : A) → key (f x) ≡ key x)
      → All (λ y. k ≢ key y) xs
      → All (λ y. k ≢ key y) (map f xs)
  All-map_keys key f k [] same a = tt
  All-map_keys key f k (x ∷ xs) same a = ((λ e. a.0 (e ∙ same x)), All-map_keys key f k xs same a.1)

  -- A change that keeps the keys keeps them distinct.
  pub Distinct-map :
      (key : A → K) (f : A → A) (xs : List A)
      → ((x : A) → key (f x) ≡ key x)
      → Distinct key xs
      → Distinct key (map f xs)
  Distinct-map key f [] same d = tt
  Distinct-map key f (x ∷ xs) same d = (
    subst (λ k. All (λ y. k ≢ key y) (map f xs)) (sym (same x))
        (All-map_keys key f (key x) xs same d.0),
    Distinct-map key f xs same d.1,
  )

module _ {ℓ} {A : Type ℓ} where
  pub any-false : (p : A → Bool) (xs : List A) → any p xs ≡ false → All (λ x. p x ≡ false) xs
  any-false p [] e = tt
  any-false p (x ∷ xs) e = (ground arith, any-false p xs (ground arith))

  pub data Member (x : A) : List A → Type ℓ where
    here : (xs : List A) → Member x (x ∷ xs)
    there : (y : A) (xs : List A) → Member x xs → Member x (y ∷ xs)

  pub All-Member {κ} : (P : A → Type κ) (x : A) (xs : List A) → Member x xs → All P xs → P x
  All-Member P x _ (here xs) a = a.0
  All-Member P x _ (there y xs m) a = All-Member P x xs m a.1

-- A member of a list that is not empty is the first element or one of the others.
abbrev IsIn {ℓ} : {A : Type ℓ} → A → List A → Type ℓ
IsIn x [] = Unit
IsIn x (y ∷ ys) = (x ≡ y) ⊎ Member x ys

Member-IsIn {ℓ} : {A : Type ℓ} (x : A) (xs : List A) → Member x xs → IsIn x xs
Member-IsIn x _ (here xs) = inl refl
Member-IsIn x _ (there y xs m) = inr m

pub Member-nil {ℓ} : {A : Type ℓ} (x : A) → ¬ Member x []
Member-nil x m = All-Member (λ y. ⊥) x [] m tt

pub Member-cons {ℓ} :
    {A : Type ℓ} (x y : A) (ys : List A) → Member x (y ∷ ys) → (x ≡ y) ⊎ Member x ys
Member-cons x y ys m = Member-IsIn x (y ∷ ys) m

pub Member-any : (key : Text) (keys : List Text) → Member key keys → any (text_eq key) keys ≡ true
Member-any key _ (here keys) = rw (text_eq_refl key) refl
Member-any key _ (there other keys m) = ground (arith, Member-any key keys m)

pub any-Member : (key : Text) (keys : List Text) → any (text_eq key) keys ≡ true → Member key keys
any-Member key [] e = absurd (ground (arith, e))
any-Member key (other ∷ keys) e = elim (Bool-cases (text_eq key other)) [
  | inl same ↦ subst (λ k. Member key (k ∷ keys)) (text_eq→eq key other same) (here keys)
  | inr differs ↦ there other keys (any-Member key keys (rw differs at e))
]

-- Every member of a list is one.
pub All-members {ℓ} : {A : Type ℓ} (xs : List A) → All (λ x. Member x xs) xs
All-members [] = tt
All-members (x ∷ xs) = (
  here xs,
  All-mono (λ y. Member y xs) (λ y. Member y (x ∷ xs)) xs (λ y m. there x xs m) (All-members xs),
)
