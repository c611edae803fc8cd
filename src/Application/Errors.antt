-- ===== src/Application/Errors.antt =====
-- crates/robine-application/src/lib.rs: the errors of the use cases.
use robine.Prelude.{String, List}
use robine.Domain.Discovery.{DomainError}
use robine.Flow.Syntax.Token.{Diagnostic}
use robine.Flow.Check.{CheckDiagnostic}

pub data ApplicationError : Type 0 where
  entity_not_found : ApplicationError
  capability_not_supported validation infrastructure : String → ApplicationError
  domain : DomainError → ApplicationError

pub data FlowError : Type 0 where
  syntax : List Diagnostic → FlowError
  validation : List CheckDiagnostic → FlowError
  not_found disabled already_consumed : FlowError
  application : ApplicationError → FlowError
