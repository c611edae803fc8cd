-- ===== src/Prelude/Tables/Sweep.antt =====
-- A loop that reads some rows of a table and updates those that pass a test, each by its key.
use Prim.Native.Nat.{ℕ, zero, suc}
use Prim.Native.String.{String}
use mathlib.Core.Path.{◌≡◌, refl, sym, ap, ◌∙◌, subst}
use mathlib.Core.Logic.{inl, inr}
use mathlib.Core.Bool.{Bool}
use mathlib.Core.List.{List, [], ◌∷◌, ◌++◌, map, append_assoc, append-nil}
use text.Mathlib.Text.{◌==◌}
use text.Mathlib.TextEquality.{eq_iff}
use robine.Prelude.Tests.{if◌then◌else◌, Bool-cases}
use robine.Prelude.Lists.{drop}
use robine.Prelude.Tables.{update_rows, take, IsUnique}
use robine.Prelude.Tables.Keys.{IsUnique-update, IsUnique-middle, update-middle}

pub take-append-drop {ℓ} : {A : Type ℓ} (n : ℕ) (rows : List A) → take n rows ++ drop n rows ≡ rows
take-append-drop zero rows = refl
take-append-drop (suc n) [] = refl
take-append-drop (suc n) (r ∷ rows) = ap (λ l. r ∷ l) (take-append-drop n rows)

module _ {ℓ} {A : Type ℓ} (key : A → String) (test : A → Bool) (g : A → A) where
  -- the table after the round at a row
  abbrev pub round : A → List A → List A
  round c table = if test c then update_rows (λ r. key r == key c) (λ _. g c) table else table

  abbrev pub sweep : List A → List A → List A
  sweep [] table = table
  sweep (c ∷ rows) table = sweep rows (round c table)

  abbrev pub advance : A → A
  advance c = if test c then g c else c

  module _ (keeps : (c : A) → key (g c) ≡ key c) where
    round-middle :
        (xs : List A) (c : A) (ys : List A)
        → IsUnique key (xs ++ c ∷ ys)
        → round c (xs ++ c ∷ ys) ≡ xs ++ advance c ∷ ys
    round-middle xs c ys h = elim (Bool-cases (test c)) [
      | inl e ↦
          let (before, after) = IsUnique-middle key xs c ys h in
          rw e (update-middle key (λ _. g c) xs c ys before after)
      | inr e ↦ rw e
    ]

    round-IsUnique : (c : A) (table : List A) → IsUnique key table → IsUnique key (round c table)
    round-IsUnique c table h = elim (Bool-cases (test c)) [
      | inl e ↦ rw e (
          IsUnique-update key (λ r. key r == key c) (λ _. g c)
            (λ r k. keeps c ∙ sym ((eq_iff (key r) (key c)).0 k)) table h)
      | inr e ↦ rw e h
    ]

    pub sweep-IsUnique :
        (rows table : List A) → IsUnique key table → IsUnique key (sweep rows table)
    sweep-IsUnique [] table h = h
    sweep-IsUnique (c ∷ rows) table h =
        sweep-IsUnique rows (round c table) (round-IsUnique c table h)

    sweep-middle :
        (xs rows ys : List A)
        → IsUnique key (xs ++ (rows ++ ys))
        → sweep rows (xs ++ (rows ++ ys)) ≡ xs ++ (map advance rows ++ ys)
    sweep-middle xs [] ys h = refl
    sweep-middle xs (c ∷ rows) ys h =
        let once = round-middle xs c (rows ++ ys) h in
        let moved = sym (append_assoc xs (advance c ∷ []) (rows ++ ys)) in
        let unique =
          subst (IsUnique key) (once ∙ moved) (round-IsUnique c (xs ++ c ∷ (rows ++ ys)) h) in
        ap (sweep rows) (once ∙ moved)
        ∙ sweep-middle (xs ++ advance c ∷ []) rows ys unique
        ∙ append_assoc xs (advance c ∷ []) (map advance rows ++ ys)

    -- The loop over the first rows advances exactly these.
    pub sweep-take :
        (n : ℕ) (table : List A)
        → IsUnique key table
        → sweep (take n table) table ≡ map advance (take n table) ++ drop n table
    sweep-take n table h =
        ap (sweep (take n table)) (sym (take-append-drop n table))
        ∙ sweep-middle [] (take n table) (drop n table)
            (subst (IsUnique key) (sym (take-append-drop n table)) h)

    pub sweep-all :
        (table : List A) → IsUnique key table → sweep table table ≡ map advance table ++ []
    sweep-all table h =
        let whole = append-nil table in
        ap (sweep table) (sym whole) ∙ sweep-middle [] table [] (subst (IsUnique key) (sym whole) h)
