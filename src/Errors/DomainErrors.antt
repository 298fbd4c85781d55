-- ===== src/Errors/DomainErrors.antt =====
-- src/shared/errors/domain-exception.ts: the constructors of `DomainErrors`. An exception is
-- permanent unless a conflict says otherwise.
use nestjs_modular_monolith.Common.{Bool, true}
use nestjs_modular_monolith.Errors.Kinds.{DomainErrorKind, ErrorCode, Thrown, domain}

abbrev pub malformed : ErrorCode → Thrown
malformed c = domain (record { kind = DomainErrorKind.malformed; code = c; permanent = true })

abbrev pub validation : ErrorCode → Thrown
validation c = domain (record { kind = DomainErrorKind.validation; code = c; permanent = true })

abbrev pub not_found : ErrorCode → Thrown
not_found c = domain (record { kind = DomainErrorKind.not_found; code = c; permanent = true })

abbrev pub conflict : ErrorCode → Bool → Thrown
conflict c permanent =
    domain (record { kind = DomainErrorKind.conflict; code = c; permanent = permanent })

abbrev pub forbidden : ErrorCode → Thrown
forbidden c = domain (record { kind = DomainErrorKind.forbidden; code = c; permanent = true })
