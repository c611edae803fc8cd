-- ===== src/Prelude/Tables/Keys.antt =====
-- What the statements keep of the uniqueness of keys.
use Prim.Native.String.{String}
use mathlib.Core.Path.{◌≡◌, refl, sym, ap, ◌∙◌, subst}
use mathlib.Core.Logic.{inl, inr}
use mathlib.Core.Bool.{Bool, true, false}
use mathlib.Core.List.{List, [], ◌∷◌, ◌++◌}
use text.Mathlib.Text.{◌==◌}
use text.Mathlib.TextEquality.{eq_iff}
use robine.Prelude.Tests.{if◌then◌else◌, Bool-cases}
use robine.Prelude.Tables.{delete_rows, update_rows, has_row, upsert, Absent, IsUnique}

pub eq-false : (a b : String) → (a ≡ b → ⊥) → (a == b) ≡ false
eq-false a b h = elim (Bool-cases (a == b)) [ inl e ↦ absurd (h ((eq_iff a b).0 e)) | inr e ↦ e ]

pub eq-false-ne : (a b : String) → (a == b) ≡ false → a ≡ b → ⊥
eq-false-ne a b h e = let clash = sym ((eq_iff a b).1 e) ∙ h in cc clash

module _ {ℓ} {A : Type ℓ} (key : A → String) where
  pub has_row-Absent :
      (k : String) (rows : List A) → has_row (λ r. key r == k) rows ≡ false → Absent key k rows
  has_row-Absent k [] h = tt
  has_row-Absent k (r ∷ rows) h = elim (Bool-cases (key r == k)) [
    | inl e ↦ let h' = (rw e at h) in cc h'
    | inr e ↦ (eq-false-ne (key r) k e, has_row-Absent k rows (rw e at h))
  ]

  pub Absent-has_row :
      (k : String) (rows : List A) → Absent key k rows → has_row (λ r. key r == k) rows ≡ false
  Absent-has_row k [] h = refl
  Absent-has_row k (r ∷ rows) h = rw (eq-false (key r) k h.0) (Absent-has_row k rows h.1)

  pub Absent-append :
      (k : String) (xs ys : List A) → Absent key k xs → Absent key k ys → Absent key k (xs ++ ys)
  Absent-append k [] ys h g = g
  Absent-append k (x ∷ xs) ys h g = (h.0, Absent-append k xs ys h.1 g)

  pub IsUnique-snoc :
      (rows : List A) (r : A)
      → IsUnique key rows
      → Absent key (key r) rows
      → IsUnique key (rows ++ r ∷ [])
  IsUnique-snoc [] r h g = (tt, tt)
  IsUnique-snoc (s ∷ rows) r h g = (
    Absent-append (key s) rows (r ∷ []) h.0 ((λ e. g.0 (sym e)), tt),
    IsUnique-snoc rows r h.1 g.1,
  )

  module _ (p : A → Bool) where
    pub Absent-delete :
        (k : String) (rows : List A) → Absent key k rows → Absent key k (delete_rows p rows)
    Absent-delete k [] h = tt
    Absent-delete k (r ∷ rows) h = elim (Bool-cases (p r)) [
      | inl e ↦ rw e (Absent-delete k rows h.1)
      | inr e ↦ rw e (h.0, Absent-delete k rows h.1)
    ]

    pub IsUnique-delete : (rows : List A) → IsUnique key rows → IsUnique key (delete_rows p rows)
    IsUnique-delete [] h = tt
    IsUnique-delete (r ∷ rows) h = elim (Bool-cases (p r)) [
      | inl e ↦ rw e (IsUnique-delete rows h.1)
      | inr e ↦ rw e (Absent-delete (key r) rows h.0, IsUnique-delete rows h.1)
    ]

    -- An update that keeps the key of every row that it changes
    module _ (f : A → A) (keeps : (r : A) → p r ≡ true → key (f r) ≡ key r) where
      updated-key : (r : A) → key (if p r then f r else r) ≡ key r
      updated-key r = elim (Bool-cases (p r)) [ inl e ↦ rw e (keeps r e) | inr e ↦ rw e ]

      pub Absent-update :
          (k : String) (rows : List A) → Absent key k rows → Absent key k (update_rows p f rows)
      Absent-update k [] h = tt
      Absent-update k (r ∷ rows) h =
          ((λ e. h.0 (sym (updated-key r) ∙ e)), Absent-update k rows h.1)

      pub IsUnique-update :
          (rows : List A) → IsUnique key rows → IsUnique key (update_rows p f rows)
      IsUnique-update [] h = tt
      IsUnique-update (r ∷ rows) h = (
        subst (λ k. Absent key k (update_rows p f rows)) (sym (updated-key r))
            (Absent-update (key r) rows h.0),
        IsUnique-update rows h.1,
      )

  -- An update by key leaves the rows without it alone.
  pub update-Absent :
      (k : String) (f : A → A) (rows : List A)
      → Absent key k rows
      → update_rows (λ r. key r == k) f rows ≡ rows
  update-Absent k f [] h = refl
  update-Absent k f (r ∷ rows) h =
      rw (eq-false (key r) k h.0) (ap (λ l. r ∷ l) (update-Absent k f rows h.1))

  pub IsUnique-middle :
      (xs : List A) (c : A) (ys : List A)
      → IsUnique key (xs ++ c ∷ ys)
      → Absent key (key c) xs × Absent key (key c) ys
  IsUnique-middle [] c ys h = (tt, h.0)
  IsUnique-middle (x ∷ xs) c ys h =
      let (before, after) = IsUnique-middle xs c ys h.1 in
      (((λ e. absent-head xs (key x) h.0 (sym e)), before), after)
    where
      absent-head : (xs : List A) (k : String) → Absent key k (xs ++ c ∷ ys) → key c ≡ k → ⊥
      absent-head [] k h = h.0
      absent-head (x ∷ xs) k h = absent-head xs k h.1

  pub update-middle :
      (f : A → A) (xs : List A) (c : A) (ys : List A)
      → Absent key (key c) xs
      → Absent key (key c) ys
      → update_rows (λ r. key r == key c) f (xs ++ c ∷ ys) ≡ xs ++ f c ∷ ys
  update-middle f [] c ys h g =
      rw ((eq_iff (key c) (key c)).1 refl) (ap (λ l. f c ∷ l) (update-Absent (key c) f ys g))
  update-middle f (x ∷ xs) c ys h g =
      rw (eq-false (key x) (key c) h.0) (ap (λ l. x ∷ l) (update-middle f xs c ys h.1 g))

  pub IsUnique-upsert :
      (r : A) (rows : List A) → IsUnique key rows → IsUnique key (upsert key r rows)
  IsUnique-upsert r rows h = elim (Bool-cases (has_row (λ s. key s == key r) rows)) [
    | inl e ↦ rw e (
        IsUnique-update (λ s. key s == key r) (λ _. r) (λ s k. sym ((eq_iff (key s) (key r)).0 k))
          rows h)
    | inr e ↦ rw e (IsUnique-snoc rows r h (has_row-Absent (key r) rows e))
  ]
