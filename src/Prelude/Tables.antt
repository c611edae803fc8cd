-- ===== src/Prelude/Tables.antt =====
-- Tables of rows, as SQL statements use them, with a text as the primary key.
pub mod Keys
pub mod Sweep
pub mod Same
use Prim.Native.Nat.{ℕ, zero, suc, ◌+◌}
use Prim.Native.String.{String}
use mathlib.Core.Path.{◌≡◌, refl}
use mathlib.Core.Bool.{Bool, true, false, ◌||◌}
use mathlib.Core.List.{List, [], ◌∷◌, ◌++◌}
use mathlib.Core.Option.{Option, none, some}
use text.Mathlib.Text.{◌==◌}
use robine.Prelude.Tests.{if◌then◌else◌}

module _ {ℓ} {A : Type ℓ} where
  -- `SELECT … WHERE`, the first row
  abbrev pub find_row : (A → Bool) → List A → Option A
  find_row p [] = none
  find_row p (r ∷ rows) = if p r then some r else find_row p rows

  -- `SELECT … WHERE`
  abbrev pub where_rows : (A → Bool) → List A → List A
  where_rows p [] = []
  where_rows p (r ∷ rows) = let more = where_rows p rows in if p r then r ∷ more else more

  -- `DELETE … WHERE`
  abbrev pub delete_rows : (A → Bool) → List A → List A
  delete_rows p [] = []
  delete_rows p (r ∷ rows) = let more = delete_rows p rows in if p r then more else r ∷ more

  -- `UPDATE … WHERE`
  abbrev pub update_rows : (A → Bool) → (A → A) → List A → List A
  update_rows p f [] = []
  update_rows p f (r ∷ rows) = (if p r then f r else r) ∷ update_rows p f rows

  -- `SELECT EXISTS(…)`
  abbrev pub has_row : (A → Bool) → List A → Bool
  has_row p [] = false
  has_row p (r ∷ rows) = p r || has_row p rows

  -- `SELECT COUNT(*) … WHERE`
  abbrev pub count_rows : (A → Bool) → List A → ℕ
  count_rows p [] = 0
  count_rows p (r ∷ rows) = (if p r then 1 else 0) + count_rows p rows

  -- `LIMIT`
  abbrev pub take : ℕ → List A → List A
  take zero rows = []
  take (suc n) [] = []
  take (suc n) (r ∷ rows) = r ∷ take n rows

  -- `ORDER BY`, a stable sort
  abbrev pub insert_ordered : (A → A → Bool) → A → List A → List A
  insert_ordered le r [] = r ∷ []
  insert_ordered le r (s ∷ rows) = if le r s then r ∷ s ∷ rows else s ∷ insert_ordered le r rows

  abbrev pub order_rows : (A → A → Bool) → List A → List A
  order_rows le [] = []
  order_rows le (r ∷ rows) = insert_ordered le r (order_rows le rows)

  -- A property of every row
  abbrev pub All {κ} : (A → Type κ) → List A → Type κ
  All P [] = Unit
  All P (r ∷ rows) = P r × All P rows

-- `INSERT … ON CONFLICT DO UPDATE` of a whole row, with a primary key
abbrev pub upsert {ℓ} : {A : Type ℓ} → (A → String) → A → List A → List A
upsert key r rows =
    if has_row (λ s. key s == key r) rows
    then update_rows (λ s. key s == key r) (λ _. r) rows
    else rows ++ r ∷ []

module _ {ℓ} {A : Type ℓ} (key : A → String) where
  -- No row has the key.
  abbrev pub Absent : String → List A → Type 0
  Absent k [] = Unit
  Absent k (r ∷ rows) = (key r ≡ k → ⊥) × Absent k rows

  -- `PRIMARY KEY` or `UNIQUE`
  abbrev pub IsUnique : List A → Type 0
  IsUnique [] = Unit
  IsUnique (r ∷ rows) = Absent (key r) rows × IsUnique rows
