-- ===== src/Store/Claims/Once.antt =====
-- crates/robine-store-sqlite/src/lib.rs: a trigger is claimed once, and chains of causes are bounded.
use robine.Prelude.{
  ℕ, ◌+◌, ◌≤◌, ◌≡◌, refl, String, Bool, true, false, List, [], ◌∷◌, ◌++◌, ◌==◌, ◌&&◌, ◌||◌, leb,
  eq_iff, arith, if◌then◌else◌, Bool-cases, and-true, inl, inr, subst, ◌⊎◌, Result, ok, err,
}
use robine.Prelude.Tables.{delete_rows, has_row, count_rows, All}
use robine.Store.{Claim}
use robine.Store.Claims.{retention, is_outdated, is_claim, of_chain, insert_claim, claim}
use robine.Store.Runs.Active.{count-append, count-delete}

-- One call of `claim_flow_trigger`
pub record ClaimRequest : Type 0 where
  pub flow_id : String
  pub correlation_id : String
  pub now : ℕ

abbrev granted : {E : Type 0} → Result E Bool → ℕ
granted (ok true) = 1
granted _ = 0

-- How many of the requests for one trigger are granted, one after the other
abbrev pub grants : String → String → List ClaimRequest → List Claim → ℕ
grants flow_id correlation_id [] rows = 0
grants flow_id correlation_id (r ∷ requests) rows =
    let (claimed, rows') = claim r.flow_id r.correlation_id r.now rows in
    (if r.flow_id == flow_id && r.correlation_id == correlation_id then granted claimed else 0)
    + grants flow_id correlation_id requests rows'

-- A claim of the trigger that is no older than an instant
abbrev pub is_recent : String → String → ℕ → Claim → Bool
is_recent flow_id correlation_id start c =
    is_claim flow_id correlation_id c && leb start c.claimed_at

has_row-append {ℓ} :
    {A : Type ℓ} (p : A → Bool) (xs ys : List A)
    → has_row p (xs ++ ys) ≡ (has_row p xs || has_row p ys)
has_row-append p [] ys = refl
has_row-append p (x ∷ xs) ys = ground (arith, has_row-append p xs ys)

module _ (flow_id correlation_id : String) (start : ℕ) where
  recent-claimed :
      (rows : List Claim)
      → has_row (is_recent flow_id correlation_id start) rows ≡ true
      → has_row (is_claim flow_id correlation_id) rows ≡ true
  recent-claimed [] h = h
  recent-claimed (c ∷ rows) h = ground (arith, recent-claimed rows)

  recent-kept :
      (now : ℕ) (rows : List Claim)
      → now ≤ start + retention
      → has_row (is_recent flow_id correlation_id start) rows ≡ true
      → has_row (is_recent flow_id correlation_id start) (delete_rows (is_outdated now) rows) ≡ true
  recent-kept now [] h k = k
  recent-kept now (c ∷ rows) h k = ground (arith, recent-kept now rows h)

  insert-recent :
      (f c : String) (now : ℕ) (undone rows : List Claim)
      → has_row (is_recent flow_id correlation_id start) undone ≡ true
      → has_row (is_recent flow_id correlation_id start) rows ≡ true
      → has_row (is_recent flow_id correlation_id start) ((insert_claim f c now undone rows).1)
        ≡ true
  insert-recent f c now undone rows h k = elim (Bool-cases (has_row (is_claim f c) rows)) [
    | inl e ↦ rw e k
    | inr e ↦ elim (Bool-cases (leb 32 (count_rows (of_chain c) rows))) [
      | inl d ↦ rw (e, d) h
      | inr d ↦
          rw (e, d) (rw (has_row-append (is_recent flow_id correlation_id start) rows _, k) refl)
    ]
  ]

  pub claim-recent :
      (r : ClaimRequest) (rows : List Claim)
      → r.now ≤ start + retention
      → has_row (is_recent flow_id correlation_id start) rows ≡ true
      → has_row
          (is_recent flow_id correlation_id start)
          ((claim r.flow_id r.correlation_id r.now rows).1)
        ≡ true
  unfolding claim
  claim-recent r rows h k =
      insert-recent r.flow_id r.correlation_id r.now rows (delete_rows (is_outdated r.now) rows) k
        (recent-kept r.now rows h k)

  -- A trigger with a recent claim is not claimed again.
  pub claim-again :
      (now : ℕ) (rows : List Claim)
      → now ≤ start + retention
      → has_row (is_recent flow_id correlation_id start) rows ≡ true
      → (claim flow_id correlation_id now rows).0 ≡ ok false
  unfolding claim
  claim-again now rows h k =
      rw (recent-claimed (delete_rows (is_outdated now) rows) (recent-kept now rows h k)) refl

  request-again :
      (r : ClaimRequest) (rows : List Claim)
      → (r.flow_id == flow_id && r.correlation_id == correlation_id) ≡ true
      → r.now ≤ start + retention
      → has_row (is_recent flow_id correlation_id start) rows ≡ true
      → (claim r.flow_id r.correlation_id r.now rows).0 ≡ ok false
  request-again r rows e h k =
      let (same, chain) = and-true e in
      rw ((eq_iff r.flow_id flow_id).0 same, (eq_iff r.correlation_id correlation_id).0 chain)
        (claim-again r.now rows h k)

  grants-none :
      (requests : List ClaimRequest) (rows : List Claim)
      → All (λ r. r.now ≤ start + retention) requests
      → has_row (is_recent flow_id correlation_id start) rows ≡ true
      → grants flow_id correlation_id requests rows ≡ 0
  grants-none [] rows h k = refl
  grants-none (r ∷ requests) rows h k =
      let rest =
        grants-none requests ((claim r.flow_id r.correlation_id r.now rows).1) h.1
          (claim-recent r rows h.0 k) in
      elim (Bool-cases (r.flow_id == flow_id && r.correlation_id == correlation_id)) [
        | inl e ↦ rw (e, request-again r rows e h.0 k) (omega (arith, rest))
        | inr e ↦ rw e (omega (arith, rest))
      ]

  insert-granted :
      (now : ℕ) (undone rows : List Claim)
      → start ≤ now
      → (insert_claim flow_id correlation_id now undone rows).0 ≡ ok true
      → has_row
          (is_recent flow_id correlation_id start)
          ((insert_claim flow_id correlation_id now undone rows).1)
        ≡ true
  insert-granted now undone rows h k =
      elim (Bool-cases (has_row (is_claim flow_id correlation_id) rows)) [
        | inl e ↦ let clash = (rw e at k) in cc clash
        | inr e ↦ elim (Bool-cases (leb 32 (count_rows (of_chain correlation_id) rows))) [
          | inl d ↦ let clash = (rw (e, d) at k) in cc clash
          | inr d ↦
              rw
                (
                  e,
                  d,
                  has_row-append (is_recent flow_id correlation_id start) rows _,
                  (eq_iff flow_id flow_id).1 refl,
                  (eq_iff correlation_id correlation_id).1 refl,
                )
                (ground arith)
        ]
      ]

  claim-granted :
      (now : ℕ) (rows : List Claim)
      → start ≤ now
      → (claim flow_id correlation_id now rows).0 ≡ ok true
      → has_row (is_recent flow_id correlation_id start) ((claim flow_id correlation_id now rows).1)
        ≡ true
  unfolding claim
  claim-granted now rows h k = insert-granted now rows (delete_rows (is_outdated now) rows) h k

  request-granted :
      (r : ClaimRequest) (rows : List Claim)
      → (r.flow_id == flow_id && r.correlation_id == correlation_id) ≡ true
      → start ≤ r.now
      → (claim r.flow_id r.correlation_id r.now rows).0 ≡ ok true
      → has_row
          (is_recent flow_id correlation_id start)
          ((claim r.flow_id r.correlation_id r.now rows).1)
        ≡ true
  request-granted r rows e h =
      let (same, chain) = and-true e in
      rw ((eq_iff r.flow_id flow_id).0 same, (eq_iff r.correlation_id correlation_id).0 chain)
        (claim-granted r.now rows h)

granted-cases : {E : Type 0} (x : Result E Bool) → (x ≡ ok true) ⊎ (granted x ≡ 0)
granted-cases (ok true) = inl refl
granted-cases (ok false) = inr refl
granted-cases (err e) = inr refl

granted-most : {E : Type 0} (x : Result E Bool) → granted x ≤ 1
granted-most (ok true) = omega arith
granted-most (ok false) = omega arith
granted-most (err e) = omega arith

-- Of the requests that `claim_flow_trigger` receives within thirty days, at most one is granted for each
-- flow and correlation, whatever claims there were before and whatever other requests come between.
pub claims_once :
    (flow_id correlation_id : String) (start : ℕ) (requests : List ClaimRequest) (rows : List Claim)
    → All (λ r. (start ≤ r.now) × (r.now ≤ start + retention)) requests
    → grants flow_id correlation_id requests rows ≤ 1
claims_once flow_id correlation_id start [] rows h = omega arith
claims_once flow_id correlation_id start (r ∷ requests) rows h =
    let rows' = (claim r.flow_id r.correlation_id r.now rows).1 in
    let rest = claims_once flow_id correlation_id start requests rows' h.1 in
    elim (Bool-cases (r.flow_id == flow_id && r.correlation_id == correlation_id)) [
      | inr e ↦ rw e (omega (arith, rest))
      | inl e ↦ rw e (elim (granted-cases ((claim r.flow_id r.correlation_id r.now rows).0)) [
        | inr z ↦ rw z (omega (arith, rest))
        | inl g ↦
            let none =
              grants-none flow_id correlation_id start requests rows' (latest requests h.1)
                (request-granted flow_id correlation_id start r rows e h.0.0 g) in
            rw g (omega (arith, none))
      ])
    ]
  where
    latest :
        (requests : List ClaimRequest)
        → All (λ r. (start ≤ r.now) × (r.now ≤ start + retention)) requests
        → All (λ r. r.now ≤ start + retention) requests
    latest [] h = tt
    latest (r ∷ requests) h = (h.0.1, latest requests h.1)

-- Chains of causes are no longer than 32.
abbrev pub IsBounded : List Claim → Type 0
IsBounded rows = (chain : String) → count_rows (of_chain chain) rows ≤ 32

insert-IsBounded :
    (f c : String) (now : ℕ) (undone rows : List Claim)
    → IsBounded undone
    → IsBounded rows
    → IsBounded ((insert_claim f c now undone rows).1)
insert-IsBounded f c now undone rows h k chain = elim (Bool-cases (has_row (is_claim f c) rows)) [
  | inl e ↦ rw e (k chain)
  | inr e ↦ elim (Bool-cases (leb 32 (count_rows (of_chain c) rows))) [
    | inl d ↦ rw (e, d) (h chain)
    | inr d ↦
        rw (e, d, count-append (of_chain chain) rows _)
          (elim (Bool-cases (c == chain)) [
            | inl same ↦ rw same (bound ((eq_iff c chain).0 same) d)
            | inr other ↦ rw other (omega (arith, k chain))
          ])
  ]
]
  where
    bound :
        c ≡ chain
        → leb 32 (count_rows (of_chain c) rows) ≡ false
        → count_rows (of_chain chain) rows + 1 ≤ 32
    bound e d = subst (λ x. count_rows (of_chain x) rows + 1 ≤ 32) e (ground arith)

pub claim-IsBounded :
    (f c : String) (now : ℕ) (rows : List Claim)
    → IsBounded rows
    → IsBounded ((claim f c now rows).1)
unfolding claim
claim-IsBounded f c now rows h =
    insert-IsBounded f c now rows (delete_rows (is_outdated now) rows) h
      (λ chain. omega (arith, count-delete (of_chain chain) (is_outdated now) rows, h chain))
