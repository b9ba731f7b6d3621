-- ===== src/Store/Samples.antt =====
-- A database with one instance, its domain and binding, and runs of the store on it.
use obacht_agent.Base.{
  ◌⊎◌, none, Bool, true, ◌≡◌, refl, Option, some, List, [], ◌∷◌, nat_eq, list_eq, list_beq, arith,
}
use obacht_agent.Base.Int.{pos}
use obacht_agent.Base.Result.{ok}
use obacht_agent.Base.Text.{Text, text}
use obacht_agent.Store.Table.{find_row, has_row, upsert_row, update_rows}
use obacht_agent.Store.Instances.{Instance, container, stopped, installed}
use obacht_agent.Store.Locks.{Outcome, works, fails}
use obacht_agent.Store.Db.{pair_eq, Domain, Binding, Db}
use obacht_agent.Store.Statements.{
  upsert_instance, get_instance, cascade_instance, delete_instance, upsert_domain, upsert_binding,
  delete_domain, set_domain_basic_auth,
}
use obacht_agent.Store.Secrets.{
  create_instance_secret, ensure_instance_secret, lookup_instance_by_secret, ensure-lookup,
}
use obacht_agent.Store.Intact.{IsIntact}
use obacht_agent.Store.Templates.{template_key, generate_secret_value, ensure_template_secret}
use obacht_agent.Store.Ensured.{IsGenerated, ensure_template-again}
use obacht_agent.Store.Ops.{put_instance, put_domain, protect_domain, drop_instance}
use obacht_agent.Store.Whole.{
  AnyOp, statement, claim_group, reissue_secret, ensure_secret, run_all, IsConsistent,
}
use obacht_agent.Store.Constraints.{run_all-IsConsistent}
use obacht_agent.Store.Reads.{observed_of, IsWritten, get_instance-upsert_instance}

abbrev runs : Bool
unfolding find_row has_row upsert_row update_rows upsert_instance cascade_instance delete_instance
    upsert_domain upsert_binding delete_domain set_domain_basic_auth list_beq create_instance_secret
    ensure_instance_secret
runs = true

abbrev pub notes : Instance
notes = record {
  id = text "notes";
  template_id = text "notes-app";
  runtime = container;
  version = text "1.0";
  desired_state = installed;
  config_json = text "{}";
  observed_state = text "running";
  observed_json = [];
  service_ready = text "ready";
  ready_at = some 100;
}

abbrev site : Domain
site = record {
  domain = text "a.example";
  desired_status = text "ready";
  observed_status = text "ready";
  cert_not_after = 5;
  cert_issuer = [];
  last_error = [];
  basic_auth_user = [];
  basic_auth_hash = [];
}

abbrev route : Binding
route = record {
  domain = text "a.example";
  instance_id = some (text "notes");
  service_name = some (text "web");
  local_port = pos 0;
  mode = text "root";
  path_prefix = [];
}

abbrev pub sample_db : Db
sample_db = record {
  instances = notes ∷ [];
  services = [];
  domains = site ∷ [];
  bindings = route ∷ [];
  locks = record { group = text "display"; holder = text "notes" } ∷ [];
  secrets = [];
  template_secrets = [];
}

pub sample-IsIntact : IsIntact sample_db
unfolding runs
sample-IsIntact = record {
  instance_keys = (refl, tt);
  service_keys = tt;
  domain_keys = (refl, tt);
  binding_keys = (refl, tt);
  instance_rows = ((refl, refl, refl), tt);
  domain_rows = ((refl, refl), tt);
  binding_rows = ((refl, refl), tt);
  service_rows = tt;
}

abbrev stop_notes : Instance
stop_notes = record notes { desired_state = stopped; version = text "1.1" }

sample-IsConsistent : IsConsistent sample_db
unfolding runs
sample-IsConsistent = record {
  intact = sample-IsIntact;
  owned = record {
    lock_keys = (refl, tt);
    secret_keys = tt;
    template_keys = tt;
    lock_rows = (refl, tt);
    secret_rows = tt;
  };
}

-- An update, a domain of a status that the schema refuses, credentials, a lock and a secret of an
-- instance that is not there, a secret, and the end of the instance.
abbrev sample_ops : List (Outcome × AnyOp)
sample_ops =
    (works, statement (put_instance stop_notes))
    ∷ (works, statement (put_domain (text "b.example") (text "removed")))
    ∷ (fails, statement (protect_domain (text "a.example") (text "me") (text "hash")))
    ∷ (works, claim_group works [] (text "audio") (text "camera"))
    ∷ (works, reissue_secret (some (text "00ff")) (text "camera"))
    ∷ (works, ensure_secret works (some (text "00ff")) (text "notes"))
    ∷ (works, statement (drop_instance (text "notes")))
    ∷ []

run_all-IsConsistent_example : IsConsistent (run_all sample_ops sample_db)
run_all-IsConsistent_example = run_all-IsConsistent sample_ops sample_db sample-IsConsistent

stop_succeeds : (upsert_instance works stop_notes sample_db).0 ≡ ok tt
unfolding runs
stop_succeeds = refl

get_instance-upsert_instance_example :
    ((row : Instance) × (get_instance works
          (text "notes")
          (upsert_instance works stop_notes sample_db).1
        ≡ ok row)
      × IsWritten stop_notes row
      × (observed_of (ok row) ≡ observed_of (get_instance works (text "notes") sample_db)))
    × (get_instance works (text "camera") (upsert_instance works stop_notes sample_db).1
        ≡ get_instance works (text "camera") sample_db)
get_instance-upsert_instance_example =
    get_instance-upsert_instance works stop_notes sample_db (text "camera") stop_succeeds
      (λ h. ground arith)

abbrev with_secret : Db
with_secret = record sample_db {
  secrets = record { instance_id = text "notes"; secret = text "00ff" } ∷ [];
}

secret_issued :
    ensure_instance_secret works works (some (text "00ff")) (text "notes") sample_db
    ≡ (ok (text "00ff"), with_secret)
unfolding runs
secret_issued = refl

ensure-lookup_example :
    (lookup_instance_by_secret works (text "00ff") with_secret ≡ ok (text "notes"))
    × ((write' : Outcome) (random' : Option Text)
        → ensure_instance_secret works write' random' (text "notes") with_secret
          ≡ (ok (text "00ff"), with_secret))
ensure-lookup_example =
    ensure-lookup works works (some (text "00ff")) (text "notes") (text "00ff") sample_db
      with_secret secret_issued refl ((λ h. refl), tt)

abbrev with_template : Db
with_template = record sample_db {
  template_secrets =
      record {
        instance_id = text "notes";
        key = text "db";
        value = text "00ff00ff";
        charset = text "hex";
        length = pos 8;
      }
      ∷ [];
}

template_generated :
    ensure_template_secret works works
      (some (text "00ff00ff"))
      (text "notes")
      (text "db")
      (text "hex")
      (pos 8)
      sample_db
    ≡ (ok (text "00ff00ff"), with_template)
unfolding runs ensure_template_secret generate_secret_value
template_generated = refl

ensure_template-again_example :
    ((with_template ≡ sample_db)
      ⊎ IsGenerated (some (text "00ff00ff")) (text "hex") (pos 8) (text "00ff00ff"))
    × (ensure_template_secret works works none
          (text "notes")
          (text "db")
          (text "base64")
          (pos 12)
          with_template
        ≡ (ok (text "00ff00ff"), with_template))
    × (find_row template_key (text "notes", text "key") with_template.template_secrets
        ≡ find_row template_key (text "notes", text "key") [])
ensure_template-again_example =
    ensure_template-again works works works (some (text "00ff00ff")) none (text "notes") (text "db")
      (text "hex") (text "base64") (pos 8) (pos 12) (text "00ff00ff") sample_db with_template
      (text "notes", text "key") template_generated (λ h. ground arith)
