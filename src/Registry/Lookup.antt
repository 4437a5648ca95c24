-- ===== src/Registry/Lookup.antt =====
-- No name of the table is a prefix of another, so a lookup depends on no order of the table.
use mathlib.Core.List.{append-nil}
use infer_platform.Base.{
  ℕ, ◌≡◌, refl, List, [], ◌∷◌, ◌++◌, map, some, Text, Casing, IsAscii, ascii_lower, All, all, find,
  arith, Bool, true, false, ◌&&◌, ◌==◌, text_eq, starts_with, text_eq→eq, starts_with-append,
  starts_with-eq_append, Bool-cases, Option-cases, inl, inr, find-some, find_index, get_elem?,
  All-get_elem?, sym, ◌∙◌, if◌then◌else◌,
}
use infer_platform.Planner.{ModelSpec}
use infer_platform.Registry.{KnownModel, model_spec, known_models, spec_of, matches, get}

-- The texts differ at a place that both have.
diverges : Text → Text → Bool
diverges [] t = false
diverges (x ∷ s) [] = false
diverges (x ∷ s) (y ∷ t) = if x == y then diverges s t else true

not-starts_with : (s t r : Text) → diverges s t ≡ true → starts_with (s ++ r) t ≡ false
unfolding diverges starts_with
not-starts_with [] t r h = cc
not-starts_with (x ∷ s) [] r h = cc
not-starts_with (x ∷ s) (y ∷ t) r h = ground (arith, not-starts_with s t r)

not-text_eq : (s t r : Text) → diverges s t ≡ true → text_eq (s ++ r) t ≡ false
unfolding diverges text_eq
not-text_eq [] t r h = cc
not-text_eq (x ∷ s) [] r h = cc
not-text_eq (x ∷ s) (y ∷ t) r h = ground (arith, not-text_eq s t r)

-- Each name diverges from all that stand before it.
prefix_free : List KnownModel → Bool
prefix_free [] = true
prefix_free (k ∷ l) = all (λ j. diverges j.name k.name) l && prefix_free l

known_models-prefix_free : prefix_free known_models ≡ true
unfolding prefix_free known_models diverges
known_models-prefix_free = refl

matches_own : (k : KnownModel) (r : Text) → matches (k.name ++ r) k ≡ true
unfolding matches
matches_own k r = ground (arith, starts_with-append k.name r)

matches_other :
    (j k : KnownModel) (r : Text) → diverges j.name k.name ≡ true → matches (j.name ++ r) k ≡ false
unfolding matches
matches_other j k r h =
    ground (arith, not-starts_with j.name k.name r h, not-text_eq j.name k.name r h)

module _ (r : Text) where
  abbrev FoundIn : List KnownModel → KnownModel → Type 0
  FoundIn l k = find (matches (k.name ++ r)) l ≡ some k

  FoundIn-cons :
      (k : KnownModel) (l m : List KnownModel)
      → all (λ j. diverges j.name k.name) m ≡ true
      → All (FoundIn l) m
      → All (FoundIn (k ∷ l)) m
  FoundIn-cons k l [] h a = tt
  FoundIn-cons k l (j ∷ m) h a = (
    ground (arith, matches_other j k r (ground arith), a.0),
    FoundIn-cons k l m (ground arith) a.1,
  )

  All-found : (l : List KnownModel) → prefix_free l ≡ true → All (FoundIn l) l
  unfolding prefix_free
  All-found [] h = tt
  All-found (k ∷ l) h = (
    ground (arith, matches_own k r),
    FoundIn-cons k l l (ground arith) (All-found l (ground arith)),
  )

-- An ASCII name that reads, in lower case, as a registered name and any suffix gets that model.
pub get_known :
    (u : Casing) (i : ℕ) (k : KnownModel) (t r : Text)
    → get_elem? known_models i ≡ some k
    → IsAscii t
    → map ascii_lower t ≡ k.name ++ r
    → get u t ≡ some (model_spec k)
unfolding get spec_of
get_known u i k t r listed ascii e =
    let low : u.to_lowercase t ≡ k.name ++ r = u.ascii_lem t ascii ∙ e in
    let found =
      All-get_elem? (FoundIn r known_models) known_models i k listed
        (All-found r known_models known_models-prefix_free) in
    rw low (rw found refl)

-- A table entry whose name begins the name in lower case, with its figures.
pub record IsRegistered (u : Casing) (t : Text) (spec : ModelSpec) : Type 0 where
  pub entry : KnownModel
  pub index : ℕ
  pub listed : get_elem? known_models index ≡ some entry
  pub suffix : Text
  pub prefixed : u.to_lowercase t ≡ entry.name ++ suffix
  pub figures : spec ≡ model_spec entry

matches_prefix : (t : Text) (k : KnownModel) → matches t k ≡ true → (r : Text) × (t ≡ k.name ++ r)
unfolding matches
matches_prefix t k h = elim (Bool-cases (text_eq t k.name)) [
  | inl e ↦ ([], text_eq→eq t k.name e ∙ sym (append-nil k.name))
  | inr e ↦ starts_with-eq_append t k.name (ground arith)
]

-- When a lookup succeeds, a table entry's name begins the name in lower case, and the figures are
-- that entry's.
pub get-IsRegistered :
    (u : Casing) (t : Text) (spec : ModelSpec) → get u t ≡ some spec → IsRegistered u t spec
unfolding get spec_of
get-IsRegistered u t spec e = elim (Option-cases (find (matches (u.to_lowercase t)) known_models)) [
  | inl missing ↦ absurd (ground (arith, missing))
  | inr (k, hit) ↦
      let (suffix, prefixed) =
        matches_prefix (u.to_lowercase t) k
          (find-some (matches (u.to_lowercase t)) known_models k hit) in
      let (index, listed) = find_index (matches (u.to_lowercase t)) known_models k hit in
      record {
        entry = k;
        index = index;
        listed = listed;
        suffix = suffix;
        prefixed = prefixed;
        figures = ground (arith, hit);
      }
]
