-- ===== src/Store/Runs/Active.antt =====
-- crates/robine-store-sqlite/src/lib.rs: how many runs of a flow are active, that is, not queued.
use robine.Prelude.{
  ◌+◌, ◌≤◌, ◌≡◌, refl, ap, String, Bool, true, false, List, [], ◌∷◌, ◌++◌, ◌||◌, arith,
  if◌then◌else◌, Bool-cases, inl, inr,
}
use robine.Prelude.Tables.{
  where_rows, delete_rows, update_rows, has_row, count_rows, insert_ordered, order_rows, All,
}
use robine.Domain.Model.{FlowRun}
use robine.Store.Runs.{by_wake, of_flow, is_active, existing_runs}

-- Counting under the statements
module _ {ℓ} {A : Type ℓ} (p : A → Bool) where
  pub count-append : (xs ys : List A) → count_rows p (xs ++ ys) ≡ count_rows p xs + count_rows p ys
  count-append [] ys = omega arith
  count-append (x ∷ xs) ys = omega (arith, count-append xs ys)

  pub count-delete :
      (q : A → Bool) (xs : List A) → count_rows p (delete_rows q xs) ≤ count_rows p xs
  count-delete q [] = omega arith
  count-delete q (x ∷ xs) = ground (arith, count-delete q xs)

  pub count-update :
      (q : A → Bool) (c : A) (xs : List A)
      → count_rows p (update_rows q (λ _. c) xs)
        ≤ count_rows p xs + (if p c then count_rows q xs else 0)
  count-update q c [] = omega arith
  count-update q c (x ∷ xs) = ground (arith, count-update q c xs)

  -- rows that count alike
  pub count-update_same :
      (q : A → Bool) (c : A) (xs : List A)
      → All (λ x. q x ≡ true → p x ≡ p c) xs
      → count_rows p (update_rows q (λ _. c) xs) ≡ count_rows p xs
  count-update_same q c [] h = refl
  count-update_same q c (x ∷ xs) h = elim (Bool-cases (q x)) [
    | inl e ↦ rw (e, h.0 e) (ap (λ n. (if p c then 1 else 0) + n) (count-update_same q c xs h.1))
    | inr e ↦ rw e (ap (λ n. (if p x then 1 else 0) + n) (count-update_same q c xs h.1))
  ]

  pub count-none : (xs : List A) → All (λ x. p x ≡ false) xs → count_rows p xs ≡ 0
  count-none [] h = refl
  count-none (x ∷ xs) h = rw h.0 (omega (arith, count-none xs h.1))

  where-none : (xs : List A) → where_rows p xs ≡ [] → All (λ x. p x ≡ false) xs
  where-none [] h = tt
  where-none (x ∷ xs) h = elim (Bool-cases (p x)) [
    | inl e ↦ let h' = (rw e at h) in cc h'
    | inr e ↦ (e, where-none xs (rw e at h))
  ]

  has_row-insert :
      (le : A → A → Bool) (x : A) (xs : List A)
      → has_row p (insert_ordered le x xs) ≡ (p x || has_row p xs)
  has_row-insert le x [] = refl
  has_row-insert le x (y ∷ xs) = ground (arith, has_row-insert le x xs)

  pub has_row-order :
      (le : A → A → Bool) (xs : List A) → has_row p (order_rows le xs) ≡ has_row p xs
  has_row-order le [] = refl
  has_row-order le (x ∷ xs) =
      ground (arith, has_row-insert le x (order_rows le xs), has_row-order le xs)

insert-ne-nil {ℓ} :
    {A : Type ℓ} (le : A → A → Bool) (x : A) (xs : List A) → insert_ordered le x xs ≡ [] → ⊥
insert-ne-nil le x [] h = cc h
insert-ne-nil le x (y ∷ xs) h = elim (Bool-cases (le x y)) [
  | inl e ↦ let h' = (rw e at h) in cc h'
  | inr e ↦ let h' = (rw e at h) in cc h'
]

order-nil {ℓ} : {A : Type ℓ} (le : A → A → Bool) (xs : List A) → order_rows le xs ≡ [] → xs ≡ []
order-nil le [] h = refl
order-nil le (x ∷ xs) h = absurd (insert-ne-nil le x (order_rows le xs) h)

module _ {J : Type 0} where
  active-of_flow :
      (flow_id : String) (r : FlowRun J) → of_flow flow_id r ≡ false → is_active flow_id r ≡ false
  active-of_flow flow_id r h = rw h refl

  pub All-active :
      (flow_id : String) (runs : List (FlowRun J))
      → All (λ r. of_flow flow_id r ≡ false) runs
      → All (λ r. is_active flow_id r ≡ false) runs
  All-active flow_id [] h = tt
  All-active flow_id (r ∷ runs) h = (active-of_flow flow_id r h.0, All-active flow_id runs h.1)

  -- A flow without runs has no active one.
  pub existing-none :
      (flow_id : String) (runs : List (FlowRun J))
      → existing_runs flow_id runs ≡ []
      → count_rows (is_active flow_id) runs ≡ 0
  existing-none flow_id runs h = count-none (is_active flow_id) runs (
      All-active flow_id runs (
        where-none (of_flow flow_id) runs
          (order-nil by_wake (where_rows (of_flow flow_id) runs) h)))
