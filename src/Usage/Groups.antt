-- ===== src/Usage/Groups.antt =====
-- What grouping keeps: the sums over all groups, and the sums of each group.
use infer_platform.Base.{
  ◌≡◌, refl, sym, ap, ◌∙◌, Bool, List, [], ◌∷◌, map, pos, +ℤ_assoc, +ℤ_comm, zero_+ℤ, arith,
  Bool-cases, inl, inr, sort_by, fold, fold-sort_by,
}
use infer_platform.Usage.{UsageLog, Sums, no_rows, add_sums, sums_of, total, add_to_group, group_by}

Sums_eq :
    (a b : Sums)
    → a.requests ≡ b.requests
    → a.tokens_in ≡ b.tokens_in
    → a.tokens_out ≡ b.tokens_out
    → a ≡ b
Sums_eq a b e f g = λ i. record { requests = e i; tokens_in = f i; tokens_out = g i }

pub add_sums_assoc : (a b c : Sums) → add_sums (add_sums a b) c ≡ add_sums a (add_sums b c)
unfolding add_sums
add_sums_assoc a b c =
    Sums_eq (add_sums (add_sums a b) c) (add_sums a (add_sums b c)) (omega arith)
      (+ℤ_assoc a.tokens_in b.tokens_in c.tokens_in)
      (+ℤ_assoc a.tokens_out b.tokens_out c.tokens_out)

pub add_sums_comm : (a b : Sums) → add_sums a b ≡ add_sums b a
unfolding add_sums
add_sums_comm a b =
    Sums_eq (add_sums a b) (add_sums b a) (omega arith) (+ℤ_comm a.tokens_in b.tokens_in)
      (+ℤ_comm a.tokens_out b.tokens_out)

pub add_no_rows : (a : Sums) → add_sums a no_rows ≡ a
unfolding add_sums
add_no_rows a =
    Sums_eq (add_sums a no_rows) a (omega arith) (+ℤ_comm a.tokens_in (pos 0) ∙ zero_+ℤ a.tokens_in)
      (+ℤ_comm a.tokens_out (pos 0) ∙ zero_+ℤ a.tokens_out)

-- The order of the first two does not matter.
pub add_sums_swap : (a b c : Sums) → add_sums a (add_sums b c) ≡ add_sums b (add_sums a c)
add_sums_swap a b c =
    sym (add_sums_assoc a b c) ∙ ap (λ s. add_sums s c) (add_sums_comm a b) ∙ add_sums_assoc b a c

abbrev pub group_total : {K : Type 0} → List (K × Sums) → Sums
group_total groups = total (map (λ g. g.1) groups)

module _ {K : Type 0} (same : K → K → Bool) where
  total-add_to_group :
      (k : K) (s : Sums) (groups : List (K × Sums))
      → group_total (add_to_group same k s groups) ≡ add_sums s (group_total groups)
  unfolding add_to_group total
  total-add_to_group k s [] = refl
  total-add_to_group k s ((k2, s2) ∷ groups) = elim (Bool-cases (same k2 k)) [
    | inl e ↦ rw e (add_sums_assoc s s2 (group_total groups))
    | inr e ↦
        rw e (
          ap (add_sums s2) (total-add_to_group k s groups)
          ∙ add_sums_swap s2 s (group_total groups))
  ]

  -- Whatever the rows are grouped by, the sums over the groups are those over the rows.
  pub total-group_by :
      (key : UsageLog → K) (rows : List UsageLog)
      → group_total (group_by same key rows) ≡ total (map sums_of rows)
  unfolding group_by total
  total-group_by key [] = refl
  total-group_by key (row ∷ rows) =
      total-add_to_group (key row) (sums_of row) (group_by same key rows)
      ∙ ap (add_sums (sums_of row)) (total-group_by key rows)

abbrev pub add_group : {K : Type 0} → K × Sums → Sums → Sums
add_group g s = add_sums g.1 s

group_total-eq-fold :
    {K : Type 0} (groups : List (K × Sums)) → group_total groups ≡ fold add_group no_rows groups
unfolding total
group_total-eq-fold [] = refl
group_total-eq-fold (g ∷ groups) = ap (add_sums g.1) (group_total-eq-fold groups)

-- The order of the groups does not matter.
pub group_total-sort_by :
    {K : Type 0} (le : K × Sums → K × Sums → Bool) (groups : List (K × Sums))
    → group_total (sort_by le groups) ≡ group_total groups
group_total-sort_by le groups =
    group_total-eq-fold (sort_by le groups)
    ∙ fold-sort_by add_group le (λ x y s. add_sums_swap x.1 y.1 s) no_rows groups
    ∙ sym (group_total-eq-fold groups)
