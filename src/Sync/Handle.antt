-- ===== src/Sync/Handle.antt =====
-- internal/sync/signed_mutation.go: `handleSignedMutation`, with its entries in the audit log and its
-- answers to the backend. An error's text is the data that it is made from.
use obacht_agent.Base.{
  ℕ, Bool, true, false, Option, none, some, List, [], ◌∷◌, ◌++◌, is_nil, ◌==◌, nat_eq, list_eq,
  if◌then◌else◌,
}
use obacht_agent.Base.Result.{ok, err}
use obacht_agent.Base.Text.{Text, text}
use obacht_agent.SignedMut.Json.{Json, str, obj, Members, end, member}
use obacht_agent.SignedMut.Envelope.{Mutation, fold_key}
use obacht_agent.SignedMut.Verify.{
  Primitives, UserKey, Deny, malformed, untrusted_key, Verdict, denied, store_error, accepted,
  verify,
}
use obacht_agent.Store.Nonces.{ReplayStore}
use obacht_agent.Sync.Device.{Outcomes, Host, DispatchError, Device, Step}
use obacht_agent.Sync.Dispatch.{dispatch_signed_mutation}

-- `AuditResult` with the outcome that the operation's name ends in.
pub data AuditOutcome : Type 0 where
  applied dispatch_error : AuditOutcome
  denied_as : Deny → AuditOutcome

pub data Failure : Type 0 where
  no_pinned_keys nonces_unavailable : Failure
  refused : Deny → Failure
  not_dispatched : DispatchError → Failure

-- internal/audit: the columns that the handler fills. The nonce is the only parameter.
pub record Entry : Type 0 where
  pub outcome : AuditOutcome
  pub actor : Text
  pub target : Text
  pub nonce : Option Text
  pub params_summary : Text
  pub error_message : Option Failure

-- `agent:signed_mutation_result`
pub record Answer : Type 0 where
  pub device_id : Text
  pub nonce : Text
  pub op : Text
  pub is_ok : Bool
  pub error : Option Failure

-- What the handler works on; the newest entry and answer stand first. `Append` and `Emit` may fail, which
-- the handler does not look at.
pub record Agent (S : Type 0) : Type 0 where
  pub device : Device
  pub nonces : S
  pub audit_log : List Entry
  pub answers : List Answer

-- The best effort to name the operation: a member of the wrong type is passed over.
unfoldable pub peek_text : Text → Members → Text → Text
peek_text name end old = old
peek_text name (member k (str s) rest) old =
    if fold_key k == name then peek_text name rest s else peek_text name rest old
peek_text name (member k j rest) old = peek_text name rest old

unfoldable pub peek_mutation : Text → Members → Text → Text
unfolding peek_text
peek_mutation name end old = old
peek_mutation name (member k (obj ms) rest) old =
    if fold_key k == text "mutation"
    then peek_mutation name rest (peek_text name ms old)
    else peek_mutation name rest old
peek_mutation name (member k j rest) old = peek_mutation name rest old

abbrev pub peek : Text → Option Json → Text
peek name (some (obj ms)) = peek_mutation name ms []
peek name _ = []

abbrev pub actor_of : Text → Text
actor_of label = if is_nil label then text "user" else text "user:" ++ label

abbrev pub label_of : Option UserKey → Text
label_of none = []
label_of (some k) = k.label

-- `auditSignedMutation` without and with a verified mutation
abbrev pub audit_refusal : Deny → Text → Text → Failure → Entry
audit_refusal why op label e = record {
  outcome = denied_as why;
  actor = actor_of label;
  target = op;
  nonce = none;
  params_summary = [];
  error_message = some e;
}

abbrev pub audit_verified : AuditOutcome → Mutation → Text → Option Failure → Entry
audit_verified outcome m label e = record {
  outcome = outcome;
  actor = actor_of label;
  target = m.op;
  nonce = some m.nonce;
  params_summary = m.op;
  error_message = e;
}

abbrev pub report : {S : Type 0} → Entry → Answer → Agent S → Agent S
report entry answer a = record a { audit_log = entry ∷ a.audit_log; answers = answer ∷ a.answers }

module _ (prim : Primitives) {S : Type 0} (store : ReplayStore S) (own : Text) (host : Host)
    (o : Outcomes) (now : ℕ) (keys : List UserKey) (raw : Text) where
  abbrev pub peek_op : Text
  peek_op = peek (text "op") (prim.parse_json raw)

  abbrev pub peek_nonce : Text
  peek_nonce = peek (text "nonce") (prim.parse_json raw)

  -- A mutation that is turned away before its dispatch.
  abbrev pub turn_away : Deny → Text → Failure → Failure → Agent S → Agent S
  turn_away why label logged told a =
      report (audit_refusal why peek_op label logged)
        (record {
          device_id = own;
          nonce = peek_nonce;
          op = peek_op;
          is_ok = false;
          error = some told;
        })
        a

  abbrev pub answer_dispatched : Mutation → Bool → Option Failure → Answer
  answer_dispatched m is_ok e = record {
    device_id = own;
    nonce = m.nonce;
    op = m.op;
    is_ok = is_ok;
    error = e;
  }

  abbrev pub after_dispatch : Mutation → UserKey → Agent S → Step → Agent S
  after_dispatch m k a (err e, d) =
      report (audit_verified dispatch_error m k.label (some (not_dispatched e)))
        (answer_dispatched m false (some (not_dispatched e))) (record a { device = d })
  after_dispatch m k a (ok _, d) =
      report (audit_verified applied m k.label none) (answer_dispatched m true none)
        (record a { device = d })

  -- what follows `Verify`, whose effect on the nonces has happened
  unfoldable pub after_verify : Agent S → Verdict → Agent S
  after_verify a (denied why k) = turn_away why (label_of k) (refused why) (refused why) a
  after_verify a (store_error k) =
      turn_away malformed k.label nonces_unavailable (refused malformed) a
  after_verify a (accepted m k) = after_dispatch m k a (dispatch_signed_mutation host o m a.device)

  -- the handler behind its first check
  unfoldable pub handle_raw : Agent S → Agent S
  handle_raw a =
      if is_nil keys
      then turn_away untrusted_key [] no_pinned_keys no_pinned_keys a
      else (let r = verify prim store own now keys raw a.nonces in
          after_verify (record a { nonces = r.1 }) r.0)

-- `handleSignedMutation`: an event without arguments is dropped, and of others the first counts.
unfoldable pub handle_signed_mutation :
    Primitives
    → {S : Type 0} → ReplayStore S
    → Text
    → Host
    → Outcomes
    → ℕ
    → List UserKey
    → List Text
    → Agent S
    → Agent S
handle_signed_mutation prim store own host o now keys [] a = a
handle_signed_mutation prim store own host o now keys (raw ∷ rest) a =
    handle_raw prim store own host o now keys raw a
