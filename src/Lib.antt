-- ===== src/Lib.antt =====
-- The ORM's schema graph and its compiler of patch documents.
--
-- The program reads protobuf files in which messages are annotated as entities, and builds a graph
-- of entities, whose props are fields (columns) and edges (foreign keys). From the graph a
-- generator derives a PatchRequest for each entity, and `ormpatch` compiles a patch document, which
-- a request or a client carries, to a plan: the column writes and the predicates of one UPDATE.
--
-- Base: shared types, Boolean tests and lists; Base/Table is a Go map keyed by field numbers.
-- Proto: the observations of protobuf reflection, which the program takes from outside.
--   Proto/Value: the values and map keys of reflection.
-- Ormpb: the package ormpb. Kinds models type.go, Ref models ref.go, and Options the records of
--   options that the generated files declare. Kinds/Deduction, Ref/Agreement and
--   Ref/RoundTrip prove.
-- Graph: the package graph. Prop models the predicates of prop.go, field.go, edge.go and util.go;
--   Entity the lookups of entity.go; Index, Rpc and Patch model index.go, rpc.go and patchreq.go.
--   Parse models what parseProp of prop.go makes of the options of a prop, and the checks that
--   parseEntity of entity.go makes of the fields; Parse/Edges models the end of parseProp and how
--   parseEntity finds the inverse of an edge. Prop/Laws, Index/Laws, Index/Accepted, Rpc/Laws,
--   Patch/Slots, Patch/Layout, Patch/Contents, Parse/Fields, Parse/Entity, Parse/Entity/Accepted
--   and Parse/Edges/Sound prove.
--   Store is what the parser works on: entities by address, and the graph, which names some of
--   them. Failure holds its errors, Finish the part of parseEntity that comes after the props,
--   Parser parseEntity and parseProp, and File Parse and ParseFiles of graph.go and gogen.go. View
--   is what the methods of an entity show of the store. Store/Frame and Parser/Frame say what a
--   call leaves as it was; Parser/Undeclared and Parser/Depth how deep the recursion goes;
--   Store/Complete, Parser/Targets, Parser/Progress, Parser/Links, Parser/Accepted and Parser/Sound
--   what an accepted entity is. File/Runs, File/Complete, File/Again and View/Laws prove it of whole
--   files. GoType is GoType of gogen.go, with what its children prove.
-- Ormpatch: the package ormpatch.
--   Document: a patch document as the accessors of the patch format show it.
--   Library: the functions of the package `patch` that the compiler calls, as a record of
--     parameters.
--   Errors, Plan, Props, Literal: errors.go, plan.go, props.go and value.go. Literal/Distinct proves.
--   State: the state of `compiler` and its methods as functions that pass it on; an error ends a
--     compilation, so no state comes back with it. State/Keeps: rules for invariants.
--   Compile: compile.go. Writes holds mutable, write, checkOp, resize, addressable, test and
--     testAbsent; Address holds walk, enter and ident; Targets the methods for one target
--     (atColumn, atEdge, atMapEntry, atListElem, one); Document the recursion over the document
--     (Compile, CompileWith, delta, entry, container, targets). Suits, Calls, Elements, Sites,
--     Scopes and Induction are an induction over a whole compilation, and Columns and Frames the
--     invariants that it is used for.
--   Request: frompatchreq.go; its children Conversion, Compiled, Version, Complete, Accepted,
--     Faultless and Supported prove. Generated says what a request of the generated type is, and SingleEntries
--     what the compiler does with the entries, by Compile/Fresh, Compile/Supported and
--     Literal/Refusals.
--   EntityOf: entity.go; EntityOf/Laws and EntityOf/Keys prove, the latter of EntityOf and the
--     compiler together.
--   Plans: what is proved of the plans that CompileWith makes, and of the documents it refuses.
--     Plans/Lengths lists the calls that change the length of a list.
-- Tests: a schema, documents and requests on which the theorems are applied.
--
-- How the model corresponds to the code. A method of `compiler` that returns an error is a function
-- from the state to an error or a new state. A Go interface with a closed set of implementations is
-- a data type, and a field with its `Has…` is an Option. An int32 number of a request's field is
-- kept as its bit pattern, with the wrap-around written out; an int64 index is an integer. Errors
-- keep their kind, code, position and prop, and not their texts. The recursion over a document is
-- structural, so no fuel is needed; the bound of 64 on the nesting is the code's own. The parser
-- follows edges from entity to entity to a depth of one more than there are messages that the file
-- can name, which is enough, since along the way every entity is declared; a pointer to an entity is
-- an address, and a pointer to a prop of it is the prop's number, which no other has. A Go map is an
-- association list: the code never iterates over one whose order could be observed, except over a
-- map value of a literal, where only the length that an error reports depends on it.
--
-- Not modelled: the generated protobuf code, and what only prints.
pub mod Base
pub mod Proto
pub mod Ormpb
pub mod Graph
pub mod Ormpatch
pub mod Tests
