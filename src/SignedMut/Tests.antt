-- ===== src/SignedMut/Tests.antt =====
-- Runs of the verifier on one envelope, with stand-ins for the primitives of Go's library.
use obacht_agent.Base.{
  All, ◌<◌, ◌&&◌, ltb, length, ℕ, zero, suc, ◌+◌, ◌≡◌, ◌≢◌, refl, true, none, some, [], ◌∷◌, arith,
  list_beq, ◌≤◌, if◌then◌else◌, ◌==◌, nat_eq, Bool,
}
use obacht_agent.Base.Int.{pos, wrap64, ◌-ℤ◌}
use obacht_agent.Base.Result.{ok}
use obacht_agent.Base.Text.{text, byte_len}
use obacht_agent.SignedMut.Json.{Json, int, str, obj, end, member}
use obacht_agent.SignedMut.Jcs.{
  canonicalize, write_int, format_int, decimal, quote, key_lt, insert_entry, write_entries,
}
use obacht_agent.SignedMut.Envelope.{
  Mutation, decode_mutation, decode_envelope, fill_mutation, fill_envelope, set_mutation_field,
  set_envelope_field, fold_key,
}
use obacht_agent.SignedMut.Verify.{
  denied, device_mismatch, replay, Bytes, Primitives, UserKey, accepted, find_key, sized,
  check_window, check_mutation, finish_replay, verify_parsed, verify_signed, verify_key,
  verify_envelope, verify_json, verify,
}
use obacht_agent.Store.Nonces.{
  Row, no_fault, prune_fails, nonce_table, prune, insert_or_ignore, check_and_mark_nonce,
}
use obacht_agent.SignedMut.UserKeys.{read_ssh_string, marshal_ssh_ed25519, parse_wire}
use obacht_agent.SignedMut.Wire.{parse-marshal, parse-canonical}
use obacht_agent.SignedMut.Sound.{
  IsSigned, IsFresh, carried_mutation, verify-accepted, verify-lifetime,
}
use obacht_agent.SignedMut.Kept.{denied-keeps_nonces}
use obacht_agent.SignedMut.Integers.{IsNullFree}
use obacht_agent.SignedMut.Replay.{
  nonce_refused_for_a_day, accepted_once, Arrival, receive, receive_all,
}

abbrev zeros : ℕ → Bytes
zeros zero = []
zeros (suc n) = 0 ∷ zeros n

abbrev sample_tree : Json
sample_tree = obj (
    member (text "v") (int (pos 1)) (
      member (text "op") (str (text "domain.delete")) (
        member (text "device_id") (str (text "dev1")) (
          member (text "nonce") (str (text "n1")) (
            member (text "iat") (int (pos 100000)) (member (text "exp") (int (pos 100120)) end))))))

abbrev sample_json : Json
sample_json = obj (
    member (text "mutation") sample_tree (
      member (text "sig_b64") (str (text "s"))
        (member (text "signer_pubkey_b64") (str (text "k")) end)))

-- Every text is the one envelope, and a text of base64 stands for 32 or 64 zeros.
abbrev stand_ins : Primitives
stand_ins = record {
  parse_json = λ raw. some sample_json;
  decode_base64 =
      λ b. elim b [ [] ↦ none | c ∷ s ↦ if c == b'k' then some (zeros 32) else some (zeros 64) ];
  verify_ed25519 = λ key message signature. true;
}

abbrev pinned : UserKey
pinned = record { label = text "a.pub"; pub_key = zeros 32 }

abbrev sample_mutation : Mutation
sample_mutation = record {
  v = pos 1;
  device_id = text "dev1";
  op = text "domain.delete";
  params = none;
  nonce = text "n1";
  iat = pos 100000;
  exp = pos 100120;
  key_id = [];
}

abbrev arrival : Arrival
arrival = record { raw = text "{}"; now = 100010; fault = no_fault }

abbrev marked_row : Row
marked_row = record { nonce = text "n1"; seen_at = 100010 }

sample_canonical :
    canonicalize sample_tree
    ≡ ok (
        text
          "{\"device_id\":\"dev1\",\"exp\":100120,\"iat\":100000,\"nonce\":\"n1\",\"op\":\"domain.delete\",\"v\":1}")
unfolding canonicalize write_int format_int decimal quote key_lt insert_entry write_entries list_beq
sample_canonical = refl

-- All that a run of the verifier computes with.
abbrev runs : Bool
unfolding verify verify_json verify_envelope verify_key verify_signed verify_parsed finish_replay
    find_key sized check_window check_mutation canonicalize write_int format_int decimal quote
    key_lt insert_entry write_entries list_beq decode_mutation decode_envelope fill_mutation
    fill_envelope set_mutation_field set_envelope_field fold_key prune insert_or_ignore
    check_and_mark_nonce byte_len wrap64 ◌-ℤ◌
runs = true

sample_accepted :
    receive stand_ins (text "dev1") (pinned ∷ []) arrival []
    ≡ (accepted sample_mutation pinned, marked_row ∷ [])
unfolding runs
sample_accepted = refl

verify-accepted_example :
    IsSigned stand_ins
      (nonce_table no_fault)
      (text "dev1")
      100010
      (pinned ∷ [])
      (text "{}")
      sample_mutation
      pinned
    × IsFresh stand_ins
        (nonce_table no_fault)
        (text "dev1")
        100010
        sample_mutation
        []
        (marked_row ∷ [])
verify-accepted_example =
    verify-accepted stand_ins (nonce_table no_fault) (text "dev1") 100010 (pinned ∷ []) (text "{}")
      sample_mutation pinned [] (marked_row ∷ []) sample_accepted

-- An agent with another id.
sample_denied :
    (receive stand_ins (text "dev2") (pinned ∷ []) arrival []).0
    ≡ denied device_mismatch (some pinned)
unfolding runs
sample_denied = refl

denied-keeps_nonces_example : (receive stand_ins (text "dev2") (pinned ∷ []) arrival []).1 ≡ []
denied-keeps_nonces_example =
    denied-keeps_nonces stand_ins (nonce_table no_fault) (text "dev2") 100010 [] (pinned ∷ [])
      (text "{}") device_mismatch (some pinned) sample_denied other
  where
    other : device_mismatch ≢ replay
    other h = ground arith

sample_carried : carried_mutation stand_ins (text "{}") ≡ some sample_tree
unfolding carried_mutation runs
sample_carried = refl

sample_nulls : IsNullFree sample_tree
sample_nulls = (λ h. cc, (λ h. cc, (λ h. cc, (λ h. cc, (λ h. cc, (λ h. cc, tt))))))

verify-lifetime_example : (100120 + 0 ≤ 600 + 100000 + 0) × (100120 ≤ 100010 + 30 + 600 + 0)
verify-lifetime_example =
    verify-lifetime stand_ins (nonce_table no_fault) (text "dev1") 100010 (pinned ∷ []) (text "{}")
      sample_tree sample_mutation pinned [] (marked_row ∷ []) sample_accepted sample_carried
      sample_nulls

abbrev later_arrival : Arrival
later_arrival = record { raw = text "{}"; now = 100020; fault = prune_fails }

nonce_refused_for_a_day_example :
    (receive stand_ins
      (text "dev1")
      (pinned ∷ [])
      later_arrival
      (receive_all stand_ins (text "dev1") (pinned ∷ []) (later_arrival ∷ []) (marked_row ∷ []))).0
    ≢ accepted sample_mutation pinned
nonce_refused_for_a_day_example =
    nonce_refused_for_a_day stand_ins (text "dev1") (pinned ∷ []) arrival later_arrival
      (later_arrival ∷ []) [] (marked_row ∷ []) sample_mutation sample_mutation pinned pinned
      sample_accepted (omega arith, tt) refl

accepted_once_example :
    (receive stand_ins
      (text "dev1")
      (pinned ∷ [])
      later_arrival
      (receive_all stand_ins (text "dev1") (pinned ∷ []) (later_arrival ∷ []) (marked_row ∷ []))).0
    ≢ accepted sample_mutation pinned
accepted_once_example =
    accepted_once stand_ins (text "dev1") (pinned ∷ []) arrival later_arrival (later_arrival ∷ [])
      [] (marked_row ∷ []) sample_tree sample_mutation pinned pinned sample_accepted sample_carried
      sample_nulls (omega arith, tt)

parse-marshal_example : parse_wire (marshal_ssh_ed25519 (zeros 32)) ≡ ok (zeros 32)
parse-marshal_example = parse-marshal (zeros 32) refl

abbrev all_bytes : Bytes → Bool
all_bytes [] = true
all_bytes (b ∷ bs) = ltb b 256 && all_bytes bs

all_bytes-All : (bs : Bytes) → all_bytes bs ≡ true → All (λ b. b < 256) bs
all_bytes-All [] h = tt
all_bytes-All (b ∷ bs) h = (ground arith, all_bytes-All bs (ground arith))

marshalled_bytes : all_bytes (marshal_ssh_ed25519 (zeros 32)) ≡ true
unfolding marshal_ssh_ed25519
marshalled_bytes = refl

marshalled_read : parse_wire (marshal_ssh_ed25519 (zeros 32)) ≡ ok (zeros 32)
unfolding parse_wire read_ssh_string marshal_ssh_ed25519 list_beq
marshalled_read = refl

parse-canonical_example :
    (marshal_ssh_ed25519 (zeros 32) ≡ marshal_ssh_ed25519 (zeros 32)) × (length (zeros 32) ≡ 32)
parse-canonical_example =
    parse-canonical (marshal_ssh_ed25519 (zeros 32)) (zeros 32)
      (all_bytes-All (marshal_ssh_ed25519 (zeros 32)) marshalled_bytes) marshalled_read
