-- ===== src/Ormpatch/Errors.antt =====
-- ormpatch/errors.go: what a refusal is. The texts of the messages are not kept; the kind of the
-- error, its code, its position and the prop that it names are.
use protobuf_orm.Base.{ℕ, String, Option, none, some}

-- `patch.At`, by the calls that made it: `patch.At(s)`, `at.Sub(s)`, `at.Index(s, i)`
pub data At : Type 0 where
  root : String → At
  sub : At → String → At
  index : At → String → ℕ → At

-- `patch.Code`, the codes that the package names and any other
pub data Code : Type 0 where
  missing_field missing_oneof message_type_mismatch too_deep path_not_reached : Code
  illegal_scope illegal_arm illegal_selector duplicate_target vacant_target test_failed : Code
  other_code : ℕ → Code

pub data Error : Type 0 where
  -- `patch.Errf`
  format : Code → At → Error
  -- UnsupportedError
  unsupported : At → Error
  -- ImmutableError, VersionWriteError
  immutable : At → String → Error
  version_write : At → String → Error
  -- InvalidValueError, with the length that it reports
  invalid_value : At → String → ℕ → Error
  -- VersionNotGivenError
  version_not_given : String → Error
  -- ErrRequestLayout, with the number where a field is missing
  request_layout : ℕ → Error
  -- an edge is set and there is no resolver
  no_resolver : String → Error
  -- an error of the resolver's own
  resolver : ℕ → Error
  -- a Go panic
  panicked : Error

-- `patch.CodeOf`: the code of a format violation, and none (CodeOK) for the engine's own refusals
abbrev pub code_of : Error → Option Code
code_of (format c at) = some c
code_of _ = none

-- ErrNoPatch
abbrev pub no_patch : Error
no_patch = format missing_field (root "")

-- UUIDLen
abbrev pub uuid_len : ℕ
uuid_len = 16
