-- ===== src/Sync/Tests.antt =====
-- Runs of the handler on one envelope, with stand-ins for Go's library and for internal/manifest.
use obacht_agent.Base.{
  ℕ, zero, suc, ◌≡◌, ◌⊎◌, is_nil, ◌≢◌, refl, ap, Bool, true, false, none, some, List, [], ◌∷◌,
  arith, list_beq, ◌==◌, nat_eq, list_eq, if◌then◌else◌,
}
use obacht_agent.Base.Int.{pos, wrap64, ◌-ℤ◌}
use obacht_agent.Base.Result.{ok}
use obacht_agent.Base.Text.{Text, text, byte_len}
use obacht_agent.SignedMut.Json.{Json, int, str, obj, end, member}
use obacht_agent.SignedMut.Jcs.{
  canonicalize, write_int, format_int, decimal, quote, key_lt, insert_entry, write_entries,
}
use obacht_agent.SignedMut.Envelope.{
  Mutation, decode_mutation, decode_envelope, fill_mutation, fill_envelope, set_mutation_field,
  set_envelope_field, fold_key,
}
use obacht_agent.SignedMut.Verify.{
  Bytes, Primitives, UserKey, find_key, sized, check_window, check_mutation, finish_replay,
  verify_parsed, verify_signed, verify_key, verify_envelope, verify_json, verify,
}
use obacht_agent.SignedMut.Sound.{IsSigned, IsFresh, carried_mutation}
use obacht_agent.SignedMut.Integers.{IsNullFree}
use obacht_agent.Store.Nonces.{
  Row, no_fault, prune_fails, nonce_table, prune, insert_or_ignore, check_and_mark_nonce,
}
use obacht_agent.Store.Table.{find_row, upsert_row}
use obacht_agent.Store.Instances.{to_runtime, to_desired}
use obacht_agent.Store.Locks.{works}
use obacht_agent.Store.Statements.{upsert_instance, delete_domain}
use obacht_agent.Store.Samples.{sample_db}
use obacht_agent.Sync.Params.{InstallParams, field, decode_one, decode_install}
use obacht_agent.Sync.Device.{Outcomes, linux, Manifests, Host, Device}
use obacht_agent.Sync.Install.{
  find_duplicate, verified_manifest, check_singleton, check_system, check_power, planned_instance,
  plan_install, dispatch_instance_upsert,
}
use obacht_agent.Sync.Dispatch.{domain_delete, dispatch_signed_mutation}
use obacht_agent.Sync.Handle.{
  Agent, peek_text, peek_mutation, after_verify, handle_raw, handle_signed_mutation,
}
use obacht_agent.Sync.Answered.{IsAnswered, handle-IsAnswered, handle-attested}
use obacht_agent.Sync.Once.{Delivery, deliver, deliver_all, carried_out_once}
use obacht_agent.Sync.Attested.{IsAttested, instance_upsert-IsAttested}

abbrev zeros : ℕ → Bytes
zeros zero = []
zeros (suc n) = 0 ∷ zeros n

abbrev sample_tree : Json
sample_tree = obj (
    member (text "v") (int (pos 1)) (
      member (text "op") (str (text "domain.delete")) (
        member (text "params") (obj (member (text "domain") (str (text "a.example")) end)) (
          member (text "device_id") (str (text "dev1")) (
            member (text "nonce") (str (text "n1")) (
              member (text "iat") (int (pos 100000))
                (member (text "exp") (int (pos 100120)) end)))))))

abbrev sample_json : Json
sample_json = obj (
    member (text "mutation") sample_tree (
      member (text "sig_b64") (str (text "s"))
        (member (text "signer_pubkey_b64") (str (text "k")) end)))

-- Every text is the one envelope, and a text of base64 stands for 32 or 64 zeros.
abbrev stand_ins : Primitives
stand_ins = record {
  parse_json = λ raw. some sample_json;
  decode_base64 =
      λ b. elim b [ [] ↦ none | c ∷ s ↦ if c == b'k' then some (zeros 32) else some (zeros 64) ];
  verify_ed25519 = λ key message signature. true;
}

abbrev pinned : UserKey
pinned = record { label = text "a.pub"; pub_key = zeros 32 }

-- A registry that accepts every manifest; a manifest of one byte is a kiosk that asks for Power Mode.
abbrev registry : Manifests
registry = record {
  decode_base64 = λ b. some b;
  verify = λ manifest signature. true;
  runtime_type = λ manifest. text "system";
  has_host_service = λ manifest. false;
  has_managed_service = λ manifest. false;
  has_kiosk = λ manifest. true;
  min_sudo_level = λ manifest. text "power";
  resolve_secret_sentinels = λ config stored. config;
  build_instance_config = λ manifest config id template version.
      some (record { runtime = text "system"; version = version; config_json = text "{}" });
}

abbrev host : Host
host = record {
  goos = linux;
  power_mode = true;
  hash = λ password. some password;
  has_ingress = true;
  manifests = registry;
}

abbrev all_work : Outcomes
all_work = record { list_instances = works; read_instance = works; write = works }

abbrev device : Device
device = record { db = sample_db; triggers = 0; reloads = 0 }

abbrev agent : Agent (List Row)
agent = record { device = device; nonces = []; audit_log = []; answers = [] }

abbrev delivery : Delivery
delivery = record {
  arrival = record { raw = text "{}"; now = 100010; fault = no_fault };
  outcomes = all_work;
}

abbrev later_delivery : Delivery
later_delivery = record {
  arrival = record { raw = text "{}"; now = 100020; fault = prune_fails };
  outcomes = all_work;
}

-- All that a run of the handler computes with.
abbrev runs : Bool
unfolding verify verify_json verify_envelope verify_key verify_signed verify_parsed finish_replay
    find_key sized check_window check_mutation canonicalize write_int format_int decimal quote
    key_lt insert_entry write_entries list_beq decode_mutation decode_envelope fill_mutation
    fill_envelope set_mutation_field set_envelope_field fold_key prune insert_or_ignore
    check_and_mark_nonce byte_len wrap64 ◌-ℤ◌ field decode_one domain_delete
    dispatch_signed_mutation delete_domain peek_text peek_mutation after_verify handle_raw
    handle_signed_mutation
runs = true

delivered : (deliver stand_ins (text "dev1") host (pinned ∷ []) delivery agent).device.triggers ≡ 1
unfolding runs
delivered = refl

sample_changes : (deliver stand_ins (text "dev1") host (pinned ∷ []) delivery agent).device ≢ device
sample_changes h =
    let still : (deliver stand_ins (text "dev1") host (pinned ∷ []) delivery agent).device.triggers
        ≡ 0 =
      ap (λ (d : Device). d.triggers) h in
    omega (arith, still, delivered)

sample_carried : carried_mutation stand_ins (text "{}") ≡ some sample_tree
unfolding carried_mutation runs
sample_carried = refl

sample_nulls : IsNullFree sample_tree
sample_nulls = (λ h. cc, (λ h. cc, (λ h. cc, (λ h. cc, (λ h. cc, (λ h. cc, (λ h. cc, tt)))))))

abbrev event : List Text
event = text "{}" ∷ []

handle-IsAnswered_example :
    ((is_nil event ≡ true)
      × (handle_signed_mutation stand_ins
            (nonce_table no_fault)
            (text "dev1")
            host
            all_work
            100010
            (pinned ∷ [])
            event
            agent
          ≡ agent))
    ⊎ ((is_nil event ≡ false)
        × IsAnswered agent (
            handle_signed_mutation stand_ins
              (nonce_table no_fault)
              (text "dev1")
              host
              all_work
              100010
              (pinned ∷ [])
              event
              agent))
handle-IsAnswered_example =
    handle-IsAnswered stand_ins (nonce_table no_fault) (text "dev1") host all_work 100010
      (pinned ∷ []) event agent

handle-attested_example :
    (raw : Text) × (rest : List Text) × (m : Mutation) × (k : UserKey) × (s' : List Row) × (event
      ≡ raw ∷ rest)
    × IsSigned stand_ins (nonce_table no_fault) (text "dev1") 100010 (pinned ∷ []) raw m k
    × IsFresh stand_ins (nonce_table no_fault) (text "dev1") 100010 m [] s'
    × ((handle_signed_mutation stand_ins
          (nonce_table no_fault)
          (text "dev1")
          host
          all_work
          100010
          (pinned ∷ [])
          event
          agent).device
        ≡ (dispatch_signed_mutation host all_work m device).1)
handle-attested_example =
    handle-attested stand_ins (nonce_table no_fault) (text "dev1") host all_work 100010
      (pinned ∷ []) event agent sample_changes

carried_out_once_example :
    let deliver_here = deliver stand_ins (text "dev1") host (pinned ∷ []) in
    let between =
      deliver_all stand_ins
        (text "dev1")
        host
        (pinned ∷ [])
        (later_delivery ∷ [])
        (deliver_here delivery agent) in
    (deliver_here later_delivery between).device ≡ between.device
carried_out_once_example =
    carried_out_once stand_ins (text "dev1") host (pinned ∷ []) delivery later_delivery
      (later_delivery ∷ []) agent sample_tree sample_changes refl sample_carried sample_nulls
      (omega arith, tt)

abbrev install : Mutation
install = record {
  v = pos 1;
  device_id = text "dev1";
  op = text "instance.upsert";
  params = some (
      obj (
        member (text "instance_id") (str (text "tv")) (
          member (text "template_id") (str (text "kiosk")) (
            member (text "manifest_b64") (str (text "m"))
              (member (text "manifest_sig_b64") (str (text "s")) end)))));
  nonce = text "n2";
  iat = pos 0;
  exp = pos 0;
  key_id = [];
}

install_succeeds : (dispatch_instance_upsert host all_work install device).0 ≡ ok tt
unfolding dispatch_instance_upsert plan_install verified_manifest check_singleton check_system
    check_power planned_instance decode_install field fold_key list_beq find_row upsert_row
    upsert_instance to_runtime to_desired find_duplicate
install_succeeds = refl

instance_upsert-IsAttested_example :
    (p : InstallParams) × (manifest : Bytes) × (decode_install install.params ≡ ok p)
    × IsAttested host p manifest sample_db
instance_upsert-IsAttested_example =
    instance_upsert-IsAttested host all_work install device install_succeeds
