-- ===== src/Graph/Failure.antt =====
-- The errors of the parser, joined (graph/entity.go, graph/prop.go).
use protobuf_orm.Base.{ℕ, String, List, [], ◌∷◌, map}
use protobuf_orm.Base.Result.{Result, ok, err}
use protobuf_orm.Graph.Index.{IndexError}
use protobuf_orm.Graph.Parse.{PropError, FieldsError}
use protobuf_orm.Graph.Parse.Edges.{BackError}

-- why an entity is refused
pub data Cause : Type 0 where
  bad_options : PropError → Cause
  scalar_edge : Cause
  not_an_entity : Cause
  unique_list : Cause
  bad_fields : FieldsError → Cause
  bad_index : ℕ → List IndexError → Cause
  bad_back : BackError → Cause

-- one of the errors that are joined, with the names of the props and entities that it was met in
pub record Failure : Type 0 where
  pub path : List String
  pub cause : Cause

-- an error is at least one of them
abbrev pub Failures : Type 0
Failures = Failure × List Failure

abbrev pub Outcome : Type 0 → Type 0
Outcome A = Result Failures A

abbrev pub one_failure : Cause → Failures
one_failure c = (record { path = []; cause = c }, [])

-- `fmt.Errorf(".%s: %w", name, err)`
abbrev pub in_prop : String → Failure → Failure
in_prop name f = record f { path = name ∷ f.path }

abbrev pub in_name : String → Failures → Failures
in_name name (f, fs) = (in_prop name f, map (in_prop name) fs)

-- `errs = append(errs, …)`
abbrev pub failures : {A : Type 0} → String → Outcome A → List Failure
failures name (ok a) = []
failures name (err (f, fs)) = in_prop name f ∷ map (in_prop name) fs

-- `if len(errs) > 0`
abbrev pub unless_failed : {A : Type 0} → List Failure × A → Outcome A
unless_failed ([], a) = ok a
unless_failed (f ∷ fs, a) = err (f, fs)
