-- ===== src/Base/Sorting.antt =====
-- `slice::sort_by`: a stable sort. `le x y` stands for `cmp(x, y) != Greater`; the standard library
-- promises the stable arrangement, which for a total preorder is the one that this insertion gives.
use Prim.Native.Nat.{ℕ, suc, ◌+◌}
use mathlib.Core.Path.{◌≡◌, refl, ◌∙◌, ap}
use mathlib.Core.Bool.{Bool, true, false}
use mathlib.Core.List.{List, [], ◌∷◌, Perm}
use mathlib.Core.List.Perm
use mathlib.Core.Logic.{inl, inr}
use native.Mathlib.Omega.{arith}
use infer_platform.Base.Tests.{if◌then◌else◌, Bool-cases}
use infer_platform.Base.Lists.{length, filter, sum_by, All, All-mono}

module _ {ℓ} {A : Type ℓ} (le : A → A → Bool) where
  pub insert_by : A → List A → List A
  insert_by x [] = x ∷ []
  insert_by x (y ∷ ys) = if le x y then x ∷ y ∷ ys else y ∷ insert_by x ys

  unfoldable pub sort_by : List A → List A
  unfolding insert_by
  sort_by [] = []
  sort_by (x ∷ xs) = insert_by x (sort_by xs)

  -- Ascending: each member is `le` every later one.
  abbrev pub IsSorted : List A → Type ℓ
  IsSorted [] = Unit
  IsSorted (x ∷ xs) = All (λ y. le x y ≡ true) xs × IsSorted xs

  insert_by-perm : (x : A) (xs : List A) → Perm (insert_by x xs) (x ∷ xs)
  unfolding insert_by
  insert_by-perm x [] = Perm.rfl
  insert_by-perm x (y ∷ ys) = elim (Bool-cases (le x y)) [
    | inl e ↦ rw e Perm.rfl
    | inr e ↦ rw e (Perm.trans (Perm.cons y (insert_by-perm x ys)) (Perm.swap x y ys))
  ]

  pub sort_by-perm : (xs : List A) → Perm (sort_by xs) xs
  unfolding sort_by
  sort_by-perm [] = Perm.rfl
  sort_by-perm (x ∷ xs) = Perm.trans (insert_by-perm x (sort_by xs)) (Perm.cons x (sort_by-perm xs))

  insert_by-length : (x : A) (xs : List A) → length (insert_by x xs) ≡ suc (length xs)
  unfolding insert_by
  insert_by-length x [] = refl
  insert_by-length x (y ∷ ys) = ground (arith, insert_by-length x ys)

  pub length-sort_by : (xs : List A) → length (sort_by xs) ≡ length xs
  unfolding sort_by
  length-sort_by [] = refl
  length-sort_by (x ∷ xs) = insert_by-length x (sort_by xs) ∙ ap suc (length-sort_by xs)

  insert_by-sum : (f : A → ℕ) (x : A) (xs : List A) → sum_by f (insert_by x xs) ≡ f x + sum_by f xs
  unfolding insert_by
  insert_by-sum f x [] = refl
  insert_by-sum f x (y ∷ ys) = ground (arith, insert_by-sum f x ys)

  -- A sum over the members does not depend on their order.
  pub sum_by-sort_by : (f : A → ℕ) (xs : List A) → sum_by f (sort_by xs) ≡ sum_by f xs
  unfolding sort_by
  sum_by-sort_by f [] = refl
  sum_by-sort_by f (x ∷ xs) = omega (arith, insert_by-sum f x (sort_by xs), sum_by-sort_by f xs)

  insert_by-All {κ} :
      (P : A → Type κ) (x : A) (xs : List A) → P x → All P xs → All P (insert_by x xs)
  unfolding insert_by
  insert_by-All P x [] p a = (p, tt)
  insert_by-All P x (y ∷ ys) p a = elim (Bool-cases (le x y)) [
    | inl e ↦ rw e (p, a)
    | inr e ↦ rw e (a.0, insert_by-All P x ys p a.1)
  ]

  pub All-sort_by {κ} : (P : A → Type κ) (xs : List A) → All P xs → All P (sort_by xs)
  unfolding sort_by
  All-sort_by P [] a = tt
  All-sort_by P (x ∷ xs) a = insert_by-All P x (sort_by xs) a.0 (All-sort_by P xs a.1)

  -- For a total preorder the result ascends.
  module _ (total : (x y : A) → le x y ≡ false → le y x ≡ true)
      (trans : (x y z : A) → le x y ≡ true → le y z ≡ true → le x z ≡ true) where
    insert_by-IsSorted : (x : A) (xs : List A) → IsSorted xs → IsSorted (insert_by x xs)
    unfolding insert_by
    insert_by-IsSorted x [] s = (tt, tt)
    insert_by-IsSorted x (y ∷ ys) s = elim (Bool-cases (le x y)) [
      | inl e ↦
          rw e
            ((e, All-mono (λ z. le y z ≡ true) (λ z. le x z ≡ true) ys (λ z. trans x y z e) s.0), s)
      | inr e ↦
          rw e
            (insert_by-All (λ z. le y z ≡ true) x ys (total x y e) s.0, insert_by-IsSorted x ys s.1)
    ]

    pub sort_by-IsSorted : (xs : List A) → IsSorted (sort_by xs)
    unfolding sort_by
    sort_by-IsSorted [] = tt
    sort_by-IsSorted (x ∷ xs) = insert_by-IsSorted x (sort_by xs) (sort_by-IsSorted xs)

  -- Members that the order ties keep their order.
  module _ (p : A → Bool) (tied : (x y : A) → p x ≡ true → p y ≡ true → le x y ≡ true) where
    filter-insert_by : (x : A) (xs : List A) → filter p (insert_by x xs) ≡ filter p (x ∷ xs)
    unfolding insert_by
    filter-insert_by x [] = refl
    filter-insert_by x (y ∷ ys) = ground (arith, filter-insert_by x ys, tied x y)

    pub filter-sort_by : (xs : List A) → filter p (sort_by xs) ≡ filter p xs
    unfolding sort_by
    filter-sort_by [] = refl
    filter-sort_by (x ∷ xs) = ground (arith, filter-insert_by x (sort_by xs), filter-sort_by xs)

-- What a list is folded to does not depend on the order, when two steps may be exchanged.
module _ {ℓ κ} {A : Type ℓ} {B : Type κ} (f : A → B → B) where
  abbrev pub fold : B → List A → B
  fold b [] = b
  fold b (x ∷ xs) = f x (fold b xs)

  fold-insert_by :
      (le : A → A → Bool) (swap : (x y : A) (b : B) → f x (f y b) ≡ f y (f x b)) (b : B) (x : A)
      (xs : List A)
      → fold b (insert_by le x xs) ≡ f x (fold b xs)
  unfolding insert_by
  fold-insert_by le swap b x [] = refl
  fold-insert_by le swap b x (y ∷ ys) = elim (Bool-cases (le x y)) [
    | inl e ↦ rw e refl
    | inr e ↦ rw e (ap (f y) (fold-insert_by le swap b x ys) ∙ swap y x (fold b ys))
  ]

  pub fold-sort_by :
      (le : A → A → Bool) (swap : (x y : A) (b : B) → f x (f y b) ≡ f y (f x b)) (b : B)
      (xs : List A)
      → fold b (sort_by le xs) ≡ fold b xs
  unfolding sort_by
  fold-sort_by le swap b [] = refl
  fold-sort_by le swap b (x ∷ xs) =
      fold-insert_by le swap b x (sort_by le xs) ∙ ap (f x) (fold-sort_by le swap b xs)
