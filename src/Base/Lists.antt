-- ===== src/Base/Lists.antt =====
-- Lists measured by native numbers, Boolean searches, and predicates on all members.
use Prim.Native.Nat.{ℕ, zero, suc, ◌+◌, ◌≤◌, ◌<◌}
use mathlib.Core.Path.{◌≡◌, refl, ap, subst}
use mathlib.Core.Bool.{Bool, true, false, ◌&&◌, ◌||◌}
use mathlib.Core.List.{List, [], ◌∷◌, ◌++◌, map}
use mathlib.Core.Option.{Option, none, some}
use mathlib.Core.Logic.{inl, inr, ◌≢◌, ◌⊎◌}
use native.Mathlib.Omega.{arith}
use infer_platform.Base.Tests.{if◌then◌else◌, Bool-cases}

module _ {ℓ} {A : Type ℓ} where
  abbrev pub length : List A → ℕ
  length [] = 0
  length (x ∷ xs) = suc (length xs)

  abbrev pub is_empty : List A → Bool
  is_empty [] = true
  is_empty (x ∷ xs) = false

  abbrev pub get_elem? : List A → ℕ → Option A
  get_elem? [] i = none
  get_elem? (x ∷ xs) zero = some x
  get_elem? (x ∷ xs) (suc i) = get_elem? xs i

  abbrev pub take : ℕ → List A → List A
  take zero xs = []
  take (suc n) [] = []
  take (suc n) (x ∷ xs) = x ∷ take n xs

  abbrev pub drop : ℕ → List A → List A
  drop zero xs = xs
  drop (suc n) [] = []
  drop (suc n) (x ∷ xs) = drop n xs

  -- `iter().filter(p)` for a Boolean test.
  abbrev pub filter : (A → Bool) → List A → List A
  filter p [] = []
  filter p (x ∷ xs) = if p x then x ∷ filter p xs else filter p xs

  abbrev pub any : (A → Bool) → List A → Bool
  any p [] = false
  any p (x ∷ xs) = p x || any p xs

  abbrev pub all : (A → Bool) → List A → Bool
  all p [] = true
  all p (x ∷ xs) = p x && all p xs

  -- `iter().find(p)`: the first member that passes.
  abbrev pub find : (A → Bool) → List A → Option A
  find p [] = none
  find p (x ∷ xs) = if p x then some x else find p xs

  -- `iter().position(p)`
  abbrev pub position : (A → Bool) → List A → Option ℕ
  position p [] = none
  position p (x ∷ xs) =
      let later = position p xs in
      if p x then some 0 else elim later [ none ↦ none | some i ↦ some (suc i) ]

  abbrev pub sum_by : (A → ℕ) → List A → ℕ
  sum_by f [] = 0
  sum_by f (x ∷ xs) = f x + sum_by f xs

  abbrev pub All {κ} : (A → Type κ) → List A → Type κ
  All P [] = Unit
  All P (x ∷ xs) = P x × All P xs

module _ {ℓ} {A : Type ℓ} where
  pub length-append : (xs ys : List A) → length (xs ++ ys) ≡ length xs + length ys
  length-append [] ys = omega arith
  length-append (x ∷ xs) ys = omega (arith, length-append xs ys)

  pub length-filter-le : (p : A → Bool) (xs : List A) → length (filter p xs) ≤ length xs
  length-filter-le p [] = omega arith
  length-filter-le p (x ∷ xs) = ground (arith, length-filter-le p xs)

  pub length-map {κ} : {B : Type κ} (f : A → B) (xs : List A) → length (map f xs) ≡ length xs
  length-map f [] = refl
  length-map f (x ∷ xs) = ap suc (length-map f xs)

  pub All-append {κ} : (P : A → Type κ) (xs ys : List A) → All P xs → All P ys → All P (xs ++ ys)
  All-append P [] ys hx hy = hy
  All-append P (x ∷ xs) ys hx hy = (hx.0, All-append P xs ys hx.1 hy)

  pub All-mono {κ μ} :
      (P : A → Type κ) (Q : A → Type μ) (xs : List A) → ((x : A) → P x → Q x) → All P xs → All Q xs
  All-mono P Q [] h a = tt
  All-mono P Q (x ∷ xs) h a = (h x a.0, All-mono P Q xs h a.1)

  pub All-filter {κ} :
      (P : A → Type κ) (p : A → Bool) (xs : List A) → All P xs → All P (filter p xs)
  All-filter P p [] a = tt
  All-filter P p (x ∷ xs) a = ground (arith, All-filter P p xs a.1)

  -- The members that a filter keeps pass its test.
  pub All-filter_self : (p : A → Bool) (xs : List A) → All (λ x. p x ≡ true) (filter p xs)
  All-filter_self p [] = tt
  All-filter_self p (x ∷ xs) = ground (arith, All-filter_self p xs)

  pub filter-All : (p : A → Bool) (xs : List A) → All (λ x. p x ≡ true) xs → filter p xs ≡ xs
  filter-All p [] a = refl
  filter-All p (x ∷ xs) a = ground (arith, filter-All p xs a.1)

  -- Of what `find` returns, and of the members that it passed over.
  pub find-some : (p : A → Bool) (xs : List A) (x : A) → find p xs ≡ some x → p x ≡ true
  find-some p [] x e = cc
  find-some p (y ∷ ys) x e = ground (arith, find-some p ys x)

  pub find-none : (p : A → Bool) (xs : List A) → find p xs ≡ none → All (λ x. p x ≡ false) xs
  find-none p [] e = tt
  find-none p (x ∷ xs) e = ground (arith, find-none p xs)

  pub All-get_elem? {κ} :
      (P : A → Type κ) (xs : List A) (i : ℕ) (x : A) → get_elem? xs i ≡ some x → All P xs → P x
  All-get_elem? P [] i x e a = cc
  All-get_elem? P (y ∷ ys) zero x e a = let same : y ≡ x = cc in subst P same a.0
  All-get_elem? P (y ∷ ys) (suc i) x e a = All-get_elem? P ys i x e a.1

  -- The place of what `find` returns.
  pub find_index :
      (p : A → Bool) (xs : List A) (x : A)
      → find p xs ≡ some x
      → (i : ℕ) × (get_elem? xs i ≡ some x)
  find_index p [] x e = cc
  find_index p (y ∷ ys) x e = elim (Bool-cases (p y)) [
    | inl hit ↦ (0, rw hit at e)
    | inr miss ↦ let (i, found) = find_index p ys x (rw miss at e) in (suc i, found)
  ]

  pub All-take {κ} : (P : A → Type κ) (k : ℕ) (xs : List A) → All P xs → All P (take k xs)
  All-take P zero xs a = tt
  All-take P (suc k) [] a = tt
  All-take P (suc k) (x ∷ xs) a = (a.0, All-take P k xs a.1)

  pub All-drop {κ} : (P : A → Type κ) (k : ℕ) (xs : List A) → All P xs → All P (drop k xs)
  All-drop P zero xs a = a
  All-drop P (suc k) [] a = tt
  All-drop P (suc k) (x ∷ xs) a = All-drop P k xs a.1

  -- What all members have by two facts.
  pub All-both {κ μ} :
      (P : A → Type κ) (Q : A → Type μ) (xs : List A)
      → All P xs
      → All Q xs
      → All (λ x. P x × Q x) xs
  All-both P Q [] a b = tt
  All-both P Q (x ∷ xs) a b = ((a.0, b.0), All-both P Q xs a.1 b.1)

  pub length-take-drop : (k : ℕ) (xs : List A) → length (drop k xs) + length (take k xs) ≡ length xs
  length-take-drop zero xs = omega arith
  length-take-drop (suc k) [] = omega arith
  length-take-drop (suc k) (x ∷ xs) = omega (arith, length-take-drop k xs)

  -- The first member past `k`.
  pub get_elem?-drop-append :
      (k : ℕ) (xs ys : List A) → k < length xs → get_elem? (drop k xs ++ ys) 0 ≡ get_elem? xs k
  get_elem?-drop-append k [] ys h = absurd (omega arith)
  get_elem?-drop-append zero (x ∷ xs) ys h = refl
  get_elem?-drop-append (suc k) (x ∷ xs) ys h = get_elem?-drop-append k xs ys (omega arith)

  pub nonempty_of_length : (xs : List A) → 0 < length xs → xs ≢ []
  nonempty_of_length [] h e = omega arith
  nonempty_of_length (x ∷ xs) h e = cc

  pub length_pos : (xs : List A) → xs ≢ [] → 0 < length xs
  length_pos [] h = absurd (h refl)
  length_pos (x ∷ xs) h = omega arith

  pub get_elem?-map {κ} :
      {B : Type κ} (f : A → B) (xs : List A) (i : ℕ) (x : A)
      → get_elem? xs i ≡ some x
      → get_elem? (map f xs) i ≡ some (f x)
  get_elem?-map f [] i x e = cc
  get_elem?-map f (y ∷ ys) zero x e = cc
  get_elem?-map f (y ∷ ys) (suc i) x e = get_elem?-map f ys i x e

  pub get_elem?-lt : (xs : List A) (i : ℕ) (x : A) → get_elem? xs i ≡ some x → i < length xs
  get_elem?-lt [] i x e = cc
  get_elem?-lt (y ∷ ys) zero x e = omega arith
  get_elem?-lt (y ∷ ys) (suc i) x e = omega (arith, get_elem?-lt ys i x e)

  -- A place is past the end or holds a member.
  pub get_elem?-cases :
      (xs : List A) (i : ℕ)
      → (length xs ≤ i) × (get_elem? xs i ≡ none)
        ⊎ (i < length xs) × (x : A) × (get_elem? xs i ≡ some x)
  get_elem?-cases [] i = inl (omega arith, refl)
  get_elem?-cases (x ∷ xs) zero = inr (omega arith, x, refl)
  get_elem?-cases (x ∷ xs) (suc i) = elim (get_elem?-cases xs i) [
    | inl (past, missing) ↦ inl (omega (arith, past), missing)
    | inr (inside, y, found) ↦ inr (omega (arith, inside), y, found)
  ]

  pub is_empty-eq_false : (xs : List A) → xs ≢ [] → is_empty xs ≡ false
  is_empty-eq_false [] h = absurd (h refl)
  is_empty-eq_false (x ∷ xs) h = refl

  -- Where a member stands in a list.
  abbrev pub Listed : List A → A → Type ℓ
  Listed xs x = (i : ℕ) × (get_elem? xs i ≡ some x)

  pub All-Listed : (xs : List A) → All (Listed xs) xs
  All-Listed [] = tt
  All-Listed (x ∷ xs) = (
    (0, refl),
    All-mono (Listed xs) (Listed (x ∷ xs)) xs (λ y found. (suc found.0, found.1)) (All-Listed xs),
  )

  pub All-map {κ μ} :
      {B : Type κ} (Q : B → Type μ) (f : A → B) (xs : List A)
      → All (λ x. Q (f x)) xs
      → All Q (map f xs)
  All-map Q f [] a = tt
  All-map Q f (x ∷ xs) a = (a.0, All-map Q f xs a.1)
