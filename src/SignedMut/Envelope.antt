-- ===== src/SignedMut/Envelope.antt =====
-- internal/signedmut/envelope.go: the wire types, and how `encoding/json` fills them. A member goes
-- to the field that its key names up to case; of several the last one stays; `null` changes nothing.
use obacht_agent.Base.{
  ℕ, ◌+◌, ◌&&◌, Option, none, some, [], map, leb, ◌==◌, nat_eq, list_eq, if◌then◌else◌,
}
use obacht_agent.Base.Int.{ℤ, pos}
use obacht_agent.Base.Result.{Result, ok, err, ◌>>=◌}
use obacht_agent.Base.Text.{Text, text}
use obacht_agent.SignedMut.Json.{Json, null, int, str, obj, Members, end, member}

pub record Envelope : Type 0 where
  pub mutation : Option Json
  pub sig_b64 : Text
  pub signer_pubkey_b64 : Text

pub record Mutation : Type 0 where
  pub v : ℤ
  pub device_id : Text
  pub op : Text
  pub params : Option Json
  pub nonce : Text
  pub iat : ℤ
  pub exp : ℤ
  pub key_id : Text

pub data DecodeError : Type 0 where
  wrong_type : DecodeError

abbrev pub no_envelope : Envelope
no_envelope = record { mutation = none; sig_b64 = []; signer_pubkey_b64 = [] }

abbrev pub no_mutation : Mutation
no_mutation = record {
  v = pos 0;
  device_id = [];
  op = [];
  params = none;
  nonce = [];
  iat = pos 0;
  exp = pos 0;
  key_id = [];
}

-- the case folding of `encoding/json`: ASCII, the long s and the Kelvin sign
abbrev pub fold_char : ℕ → ℕ
fold_char c =
    if leb b'A' c && leb c b'Z'
    then c + 32
    else if c == 0x17f
    then b's'
    else if c == 0x212a
    then b'k'
    else c

unfoldable pub fold_key : Text → Text
fold_key k = map fold_char k

abbrev pub get_text : Json → Text → Result DecodeError Text
get_text (str s) old = ok s
get_text null old = ok old
get_text _ old = err wrong_type

abbrev pub get_int : Json → ℤ → Result DecodeError ℤ
get_int (int n) old = ok n
get_int null old = ok old
get_int _ old = err wrong_type

-- `key` is folded
unfoldable pub set_mutation_field : Text → Json → Mutation → Result DecodeError Mutation
set_mutation_field key j m =
    if key == text "v"
    then (do x ← get_int j m.v; ok (record m { v = x }))
    else if key == text "device_id"
    then (do x ← get_text j m.device_id; ok (record m { device_id = x }))
    else if key == text "op"
    then (do x ← get_text j m.op; ok (record m { op = x }))
    else if key == text "params"
    then ok (record m { params = some j })
    else if key == text "nonce"
    then (do x ← get_text j m.nonce; ok (record m { nonce = x }))
    else if key == text "iat"
    then (do x ← get_int j m.iat; ok (record m { iat = x }))
    else if key == text "exp"
    then (do x ← get_int j m.exp; ok (record m { exp = x }))
    else if key == text "key_id"
    then (do x ← get_text j m.key_id; ok (record m { key_id = x }))
    else ok m

unfoldable pub fill_mutation : Members → Mutation → Result DecodeError Mutation
fill_mutation end m = ok m
fill_mutation (member k j ms) m = set_mutation_field (fold_key k) j m >>= λ m'. fill_mutation ms m'

-- `json.Unmarshal(env.Mutation, &m)`
unfoldable pub decode_mutation : Json → Result DecodeError Mutation
decode_mutation (obj ms) = fill_mutation ms no_mutation
decode_mutation null = ok no_mutation
decode_mutation _ = err wrong_type

unfoldable pub set_envelope_field : Text → Json → Envelope → Result DecodeError Envelope
set_envelope_field key j e =
    if key == text "mutation"
    then ok (record e { mutation = some j })
    else if key == text "sig_b64"
    then (do x ← get_text j e.sig_b64; ok (record e { sig_b64 = x }))
    else if key == text "signer_pubkey_b64"
    then (do x ← get_text j e.signer_pubkey_b64; ok (record e { signer_pubkey_b64 = x }))
    else ok e

unfoldable pub fill_envelope : Members → Envelope → Result DecodeError Envelope
fill_envelope end e = ok e
fill_envelope (member k j ms) e = set_envelope_field (fold_key k) j e >>= λ e'. fill_envelope ms e'

-- `json.Unmarshal(raw, &env)`
unfoldable pub decode_envelope : Json → Result DecodeError Envelope
decode_envelope (obj ms) = fill_envelope ms no_envelope
decode_envelope null = ok no_envelope
decode_envelope _ = err wrong_type
