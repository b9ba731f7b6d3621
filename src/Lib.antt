-- ===== src/Lib.antt =====
-- obacht-agent: the agent that runs on a device, takes desired state and signed mutations from a
-- backend, and applies them to the host. This library models the parts of the agent that decide what
-- may happen on the host.
--
-- internal/unitpolicy (`UnitPolicy`). `Validate` is the policy for the systemd units that the agent
-- stages and a root helper installs. `Rules` has the constants, the expressions and `validateKV`,
-- `Scan` the loop over the lines and the presence checks; `Directives` reads a unit independently of
-- the policy, as systemd does, and the theorems are about what it reads. Regular expressions are
-- matched with derivatives (`Base.Regex`). A unit is a list of code points.
--
-- internal/signedmut (`SignedMut`). `Verify` decides whether an envelope signed by a pinned user key
-- is accepted. `Json` is the value tree that Go's decoder yields, `Jcs` the canonical form (jcs.go and
-- `normalize`), `Envelope` the wire structs and how `json.Unmarshal` fills them, `Verify` the verifier.
-- The parser of JSON, base64 and Ed25519 belong to Go's library: they are the parameter `Primitives`,
-- of which nothing is assumed. Times are whole seconds of a clock that has passed 1970; `iat` and
-- `exp` are integers of any sign, and their difference wraps at 64 bits as in the source. `UserKeys` is
-- the format of the pinned public keys; the directory they are read from is not modelled.
--
-- internal/store (`Store`). `Nonces` is the table of seen nonces with every failure SQLite may
-- report (`Fault`); it is an instance of the interface `ReplayStore` that the verifier takes.
-- `Locks` is the table of exclusivity locks; its SELECT and its INSERT may meet different tables, as
-- another goroutine may write in between. `Table` has tables as lists of rows with the statements that
-- SQLite runs on them, `Db` the tables of instances, services, domains, bindings, locks and secrets,
-- `Statements` the operations of instances.go and domains.go, and `Intact` the constraints of the
-- migrations (primary keys, CHECKs, foreign keys with their cascades). A statement that fails, or that
-- violates a CHECK or a foreign key, writes nothing. The times at which rows were made are left out.
-- `Secrets` has the secrets by which instances authenticate, `Templates` those of template_secrets.go;
-- what `rand.Read` and the encodings yield is a parameter. `Whole` has all the operations on these tables,
-- `Owned` the constraints on locks and secrets.
--
-- internal/sync/signed_mutation.go (`Sync`) and internal/basicauth (`BasicAuth`). `Params` decodes the
-- parameters of the operations, `Dispatch` and `Install` are `dispatchSignedMutation` and
-- `dispatchInstanceUpsert` over the tables of the store, `Handle` is the handler of an event, which runs
-- the verifier of `SignedMut`, the dispatch, the audit log and the answer. internal/manifest is the
-- interface `Manifests`, bcrypt a function; nothing is assumed of either. The reconciler is a counter of
-- the passes that were asked for.
--
-- internal/reconciler (`Reconciler`). `Queue` has the critical sections under `workMu`, `Goroutines`
-- the pass and the apply worker as two goroutines, of which one takes a step at each event. The pass
-- that a timer or a trigger starts reads rows and containers that are arbitrary in the model. What the
-- docker drivers do inside a job or a removal is a parameter. `RunOnce`, which
-- has no worker beside it, is not modelled. `Down` has the handlers of stopped and removed instances
-- over the tables they write, `Target` the map of the bound services and the choice of the service that
-- the readiness probe asks.
-- `System` is `reconcileSystem` over the tables of the store, with the driver of systemd as an interface,
-- and `Ipc` is `injectIPC`. `Apply` has `applyContainer` and `applyCompose`, with the parsers, the secrets
-- of templates and docker as the interface `Docker`.
--
-- internal/runtime/compose (`Compose`). `Allowlist` is `ValidateComposeBody`, over the documents of
-- `Yaml`; `yaml.Unmarshal` is a parameter. `Confined` says what a document may hold, without
-- reference to the checks, and `Accepted` has the proof.
--
-- internal/redact (`Redact`). The values of environment variables that may not leave the process;
-- `strings.ToUpper` is a parameter.
--
-- internal/diskcheck (`Disk`). `Check` is the check for free space; what `statfs`, the environment and
-- `strconv.ParseUint` yield are parameters.
--
-- internal/readiness (`Readiness`). `Config` is the block of a manifest that the prober works with:
-- its validation, its defaults and the statuses that count as an answer. `Prober` is the state machine of
-- probe.go, with the goroutine of a starting instance as a number and its context as a flag; what a
-- probe answers, and whether its context is cancelled meanwhile, is a parameter. The loop of the
-- starting phase runs on fuel: its round `k` ends no earlier than `k` intervals after the start, since
-- the ticker sends no more ticks than that, so the budget divided by the interval, and two more, are
-- enough. The goroutines of one steady tick run one after the other, as each works on an instance of
-- its own.
--
-- Not modelled: the drivers of docker, compose and systemd, the rendering of the ingress, manifests and
-- their materialisation, the local server and the commands, telemetry, and the files of pinned keys.

pub mod Base
pub mod UnitPolicy
pub mod Store
pub mod BasicAuth
pub mod Redact
pub mod Sync
pub mod SignedMut
pub mod Reconciler
pub mod Compose
pub mod Disk
pub mod Readiness
