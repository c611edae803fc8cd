-- ===== src/Store/Claims.antt =====
-- crates/robine-store-sqlite/src/lib.rs: claims, one per trigger of a flow in a chain of causes.
pub mod Once
use robine.Prelude.{
  ℕ, ◌+◌, String, Bool, true, false, List, [], ◌∷◌, ◌++◌, ◌==◌, ◌&&◌, ltb, leb, if◌then◌else◌,
  Result, ok, err,
}
use robine.Prelude.Tables.{delete_rows, has_row, count_rows}
use robine.Application.Errors.{ApplicationError}
use robine.Store.{Store, Method, Claim}

-- `chrono::Duration::days(30)`, in nanoseconds
abbrev pub retention : ℕ
retention = 2592000000000000

abbrev pub is_outdated : ℕ → Claim → Bool
is_outdated now claim = ltb (claim.claimed_at + retention) now

abbrev pub is_claim : String → String → Claim → Bool
is_claim flow_id correlation_id claim =
    claim.flow_id == flow_id && claim.correlation_id == correlation_id

abbrev pub of_chain : String → Claim → Bool
of_chain correlation_id claim = claim.correlation_id == correlation_id

-- the tests and the insertion, after the claims that are too old are gone
abbrev pub insert_claim :
    String → String → ℕ → List Claim → List Claim → Result ApplicationError Bool × List Claim
insert_claim flow_id correlation_id now undone rows =
    if has_row (is_claim flow_id correlation_id) rows
    then (ok false, rows)
    else (if leb 32 (count_rows (of_chain correlation_id) rows)
        then (
          err (ApplicationError.validation "Flow causal chain exceeded the maximum depth of 32"),
          undone,
        )
        else (
          ok true,
          rows
              ++ record { flow_id = flow_id; correlation_id = correlation_id; claimed_at = now }
                ∷ [],
        ))

unfoldable pub claim : String → String → ℕ → List Claim → Result ApplicationError Bool × List Claim
claim flow_id correlation_id now rows =
    insert_claim flow_id correlation_id now rows (delete_rows (is_outdated now) rows)

unfoldable pub claim_flow_trigger : {F J : Type 0} → String → String → ℕ → Method F J Bool
unfolding claim
claim_flow_trigger flow_id correlation_id now s =
    let (claimed, rows) = claim flow_id correlation_id now s.flow_trigger_claims in
    (claimed, record s { flow_trigger_claims = rows })
