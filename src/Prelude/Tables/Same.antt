-- ===== src/Prelude/Tables/Same.antt =====
-- Tables whose rows have the same keys in the same order.
use Prim.Native.String.{String}
use mathlib.Core.Path.{◌≡◌, refl, sym, ap, ◌∙◌, subst}
use mathlib.Core.Logic.{inl, inr}
use mathlib.Core.Bool.{Bool, true}
use mathlib.Core.Option.{some}
use mathlib.Core.List.{List, [], ◌∷◌, ◌++◌, map}
use text.Mathlib.Text.{◌==◌}
use robine.Prelude.Tests.{Bool-cases}
use robine.Prelude.Tables.{find_row, update_rows, Absent, IsUnique}
use robine.Prelude.Tables.Keys.{IsUnique-middle, update-middle}

-- A row that is found stands between two parts of the table.
pub find_row-middle {ℓ} :
    {A : Type ℓ} (p : A → Bool) (c : A) (rows : List A)
    → find_row p rows ≡ some c
    → (xs : List A) × (ys : List A) × (rows ≡ xs ++ c ∷ ys) × (p c ≡ true)
find_row-middle p c [] h = cc h
find_row-middle p c (r ∷ rows) h = elim (Bool-cases (p r)) [
  | inl e ↦
      let found : r ≡ c = cc (rw e at h) in
      ([], rows, subst (λ x. r ∷ rows ≡ x ∷ rows) found refl, subst (λ x. p x ≡ true) found e)
  | inr e ↦
      let (xs, ys, split, holds) = find_row-middle p c rows (rw e at h) in
      (r ∷ xs, ys, ap (λ l. r ∷ l) split, holds)
]

module _ {ℓ} {A : Type ℓ} (key : A → String) where
  keys-Absent :
      (k : String) (rows rows' : List A)
      → map key rows ≡ map key rows'
      → Absent key k rows
      → Absent key k rows'
  keys-Absent k [] [] e h = tt
  keys-Absent k [] (s ∷ rows') e h = cc e
  keys-Absent k (r ∷ rows) [] e h = cc e
  keys-Absent k (r ∷ rows) (s ∷ rows') e h =
      let same : key r ≡ key s = cc e in
      ((λ f. h.0 (same ∙ f)), keys-Absent k rows rows' (cc e) h.1)

  pub keys-IsUnique :
      (rows rows' : List A) → map key rows ≡ map key rows' → IsUnique key rows → IsUnique key rows'
  keys-IsUnique [] [] e h = tt
  keys-IsUnique [] (s ∷ rows') e h = cc e
  keys-IsUnique (r ∷ rows) [] e h = cc e
  keys-IsUnique (r ∷ rows) (s ∷ rows') e h =
      let same : key r ≡ key s = cc e in
      let more : map key rows ≡ map key rows' = cc e in
      (
        subst (λ k. Absent key k rows') same (keys-Absent (key r) rows rows' more h.0),
        keys-IsUnique rows rows' more h.1,
      )

  module _ (f : A → A) (keeps : (r : A) → key (f r) ≡ key r) where
    -- a change of the first rows that keeps their keys
    pub keys-map : (xs ys : List A) → map key (map f xs ++ ys) ≡ map key (xs ++ ys)
    keys-map [] ys = refl
    keys-map (x ∷ xs) ys = rw (keeps x) (ap (λ l. key x ∷ l) (keys-map xs ys))

    pub keys-map_all : (xs : List A) → map key (map f xs) ≡ map key xs
    keys-map_all [] = refl
    keys-map_all (x ∷ xs) = rw (keeps x) (ap (λ l. key x ∷ l) (keys-map_all xs))

  pub keys-middle :
      (xs : List A) (c d : A) (ys : List A)
      → key d ≡ key c
      → map key (xs ++ d ∷ ys) ≡ map key (xs ++ c ∷ ys)
  keys-middle [] c d ys e = rw e refl
  keys-middle (x ∷ xs) c d ys e = ap (λ l. key x ∷ l) (keys-middle xs c d ys e)

-- The update of the row that a primary key finds keeps any key that the new row keeps.
pub update-keys {ℓ} :
    {A : Type ℓ} (key other : A → String) (rows : List A) (c d : A)
    → IsUnique key rows
    → find_row (λ r. key r == key c) rows ≡ some c
    → other d ≡ other c
    → map other (update_rows (λ r. key r == key c) (λ _. d) rows) ≡ map other rows
update-keys key other rows c d unique found e =
    let (xs, ys, split, _) = find_row-middle (λ r. key r == key c) c rows found in
    let (before, after) = IsUnique-middle key xs c ys (subst (IsUnique key) split unique) in
    subst (λ l. map other (update_rows (λ r. key r == key c) (λ _. d) l) ≡ map other l) (sym split)
      (ap (map other) (update-middle key (λ _. d) xs c ys before after)
        ∙ keys-middle other xs c d ys e)
