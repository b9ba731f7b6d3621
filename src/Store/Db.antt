-- ===== src/Store/Db.antt =====
-- internal/store: the tables of the database that instances and domains live in, their columns, and
-- the constraints of the migrations. A statement that fails leaves the tables as they are.
use obacht_agent.Base.{
  ℕ, Bool, true, false, ◌&&◌, ◌≡◌, ◌↔◌, Option, List, [], ◌∷◌, map, Eq, ◌==◌, nat_eq, list_eq,
  list_beq_iff, ap, arith,
}
use obacht_agent.Base.Int.{ℤ}
use obacht_agent.Base.Result.{Result, ok, err}
use obacht_agent.Base.Text.{Text, text}
use obacht_agent.Store.Instances.{Instance}
use obacht_agent.Store.Locks.{Lock, Outcome, works, fails}

-- domains.go
pub record Domain : Type 0 where
  pub domain : Text
  pub desired_status : Text
  pub observed_status : Text
  pub cert_not_after : ℕ
  pub cert_issuer : Text
  pub last_error : Text
  pub basic_auth_user : Text
  pub basic_auth_hash : Text

-- `none` is NULL.
pub record Binding : Type 0 where
  pub domain : Text
  pub instance_id : Option Text
  pub service_name : Option Text
  pub local_port : ℤ
  pub mode : Text
  pub path_prefix : Text

pub record InstanceService : Type 0 where
  pub instance_id : Text
  pub service_name : Text
  pub target_type : Text
  pub target : Text
  pub app_path : Text

-- secrets.go
pub record InstanceSecret : Type 0 where
  pub instance_id : Text
  pub secret : Text

-- template_secrets.go
pub record TemplateSecret : Type 0 where
  pub instance_id : Text
  pub key : Text
  pub value : Text
  pub charset : Text
  pub length : ℤ

pub record Db : Type 0 where
  pub instances : List Instance
  pub services : List InstanceService
  pub domains : List Domain
  pub bindings : List Binding
  pub locks : List Lock
  pub secrets : List InstanceSecret
  pub template_secrets : List TemplateSecret

pub data StoreError : Type 0 where
  missing_field not_found bad_binding unpaired_auth statement_failed : StoreError
  bad_length bad_charset no_random : StoreError

-- A primary key of two columns.
abbrev pair_beq : Text × Text → Text × Text → Bool
pair_beq a b = a.0 == b.0 && a.1 == b.1

pub pair_beq_iff : (a b : Text × Text) → (pair_beq a b ≡ true) ↔ (a ≡ b)
pair_beq_iff a b = (
  λ h.
      let p : a.0 ≡ b.0 = ground (arith, h, list_beq_iff a.0 b.0) in
      let q : a.1 ≡ b.1 = ground (arith, h, list_beq_iff a.1 b.1) in λ i. (p i, q i),
  λ h.
      let p : a.0 ≡ b.0 = ap (λ (x : Text × Text). x.0) h in
      let q : a.1 ≡ b.1 = ap (λ (x : Text × Text). x.1) h in
      ground (arith, p, q, list_beq_iff a.0 b.0, list_beq_iff a.1 b.1),
)

instance abbrev pub pair_eq : Eq (Text × Text)
pair_eq = record { beq = pair_beq; beq_iff = pair_beq_iff }

abbrev pub service_key : InstanceService → Text × Text
service_key s = (s.instance_id, s.service_name)

-- A statement that writes: SQLite may fail, and refuses what violates a constraint.
abbrev pub exec : Outcome → Bool → Db → Db → Result StoreError (Unit {0}) × Db
exec works true db db' = (ok tt, db')
exec works false db db' = (err statement_failed, db)
exec fails allowed db db' = (err statement_failed, db)

-- CHECK(status IN …) of 0001_initial.sql
abbrev pub known_statuses : List Text
known_statuses = map text ("pending" ∷ "claiming" ∷ "ready" ∷ "error" ∷ [])

abbrev pub known_targets : List Text
known_targets = map text ("host_port" ∷ "docker_dns" ∷ "unix_socket" ∷ [])

abbrev pub known_modes : List Text
known_modes = map text ("root" ∷ "path" ∷ [])
