-- ===== src/Lib.antt =====
-- netbox-herald: a Kubernetes operator that keeps NetBox in step with one cluster.
--
-- The operator runs five reconcilers. That of the HeraldConfig
-- (internal/controller/heraldconfig_controller.go) reads the settings, builds a client of NetBox,
-- checks its version, makes sure that the managed tag and the custom field of the external ids
-- exist, and puts the spec and the client into a shared store (internal/config/store.go). Those
-- of the cluster, the Nodes, the Services and the pod CIDRs (the other files of
-- internal/controller) take both from the store and mirror their objects into NetBox by the calls
-- of internal/netbox, which finds each object by the managed tag and an external id.
--
-- The files:
-- - Base: errors and results as values, the monad `Exec S` of functions that change a world S and
--   return, fail or panic, its Hoare triples, and tests and lemmas on numbers, texts and lists.
-- - Api: the types of api/v1alpha1/heraldconfig_types.go, as records.
-- - Config: the store. Its mutex makes Set and Get single steps.
-- - NetBox: internal/netbox. Model has the API's records and its calls, which are fields of a
--   record of parameters; Connect is config.go, client.go and version.go; Tags, CustomFields,
--   Refs, Nodes, Cluster, Services and PodCidrs are the files of these names; ExternalId is
--   readExternalID and the ids; Write is the text that the source repeats for each kind of
--   objects, once, over the four calls on a kind. Prefixes says which external ids find and list
--   what is written.
-- - Supernet: computeSupernets of podcidr_controller.go. An address is the number that its bytes
--   spell; net.ParseCIDR and net.IPNet.String are parameters.
-- - Controller: the reconcilers, a file for each, with what they share in Kube (the calls of the
--   Kubernetes API, parameters), Common, SyncStatus and Prune. A reconcile takes the store as it
--   is at its start and, as `later`, the store as it is when it writes the status. Laws is what
--   the HeraldConfig's reconcile does to the store; Wiring is the SetupWithManager functions;
--   Requeues says when a reconcile asks for another one; Bootstraps says what has to hold for the
--   store to be filled.
-- - Server: hypotheses on NetBox's REST API, as it documents it: a database with a table for each
--   kind, list calls that filter by tag and name and return one page, writes and deletions by id,
--   new objects with fresh ids, and calls that fail without an effect. Registry reads a table as
--   a map from external ids.
-- - Sync: the calls of NetBox and the loops of Controller on such a server.
-- - Refinement: the writes and deletions of NetBox, in any sequence and with any failures,
--   against an abstract state, which has for each kind a map from external ids to what is
--   registered under them.
-- - Manager: cmd/main.go. Options has the flags and the options that they make, Main the start of
--   the process over a record of controller-runtime's calls, Reach the states of the running
--   process.
-- - Tests: a server in memory that keeps those hypotheses, and each theorem at a concrete input.
--
-- Go's loops over slices are structural recursion on lists, so there is no fuel. An int64 id is a
-- natural number. int32(count) keeps its wrap-around (Base.Int). A nil pointer, a failed type
-- assertion and a number that big.Int.FillBytes cannot write end a function in a panic. The shift
-- of computeSupernets is by at least 0 bits, since a mask has no more ones than bits.
--
-- Not modelled: the parsing of the flags, the registration of the API types in a scheme, the
-- dispatch of requests by controller-runtime, generated code, logging, contexts and their
-- cancellation, and the texts of errors beyond their format and arguments. A reconcile's steps
-- are not interleaved with those of others, beyond the two readings of the store.
pub mod Base
pub mod Api
pub mod Config
pub mod NetBox
pub mod Supernet
pub mod Controller
pub mod Server
pub mod Sync
pub mod Refinement
pub mod Manager
pub mod Tests
