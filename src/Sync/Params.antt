-- ===== src/Sync/Params.antt =====
-- internal/sync/signed_mutation.go: the parameters of the operations, as `encoding/json` reads them. A
-- field takes the last member of its name up to case; `null` leaves it as it was. The order in which the
-- fields are read does not matter, since the code forgets which field is wrong.
use obacht_agent.Base.{
  String, Bool, false, Option, none, some, [], ◌==◌, nat_eq, list_eq, if◌then◌else◌,
}
use obacht_agent.Base.Int.{ℤ, pos}
use obacht_agent.Base.Result.{Result, ok, err, ◌>>=◌}
use obacht_agent.Base.Text.{Text, text}
use obacht_agent.SignedMut.Json.{Json, null, bool, obj, Members, end, member}
use obacht_agent.SignedMut.Envelope.{DecodeError, wrong_type, fold_key, get_text, get_int}

abbrev pub get_bool : Json → Bool → Result DecodeError Bool
get_bool (bool b) old = ok b
get_bool null old = ok old
get_bool _ old = err wrong_type

abbrev pub append_members : Members → Members → Members
append_members end ms = ms
append_members (member k j rest) ms = member k j (append_members rest ms)

-- A map of anything: a second object adds its members to the first's.
abbrev pub get_map : Json → Members → Result DecodeError Members
get_map (obj ms) old = ok (append_members old ms)
get_map null old = ok end
get_map _ old = err wrong_type

-- One field of a struct.
unfoldable pub field :
    {A : Type 0} → (Json → A → Result DecodeError A) → Text → Members → A → Result DecodeError A
field get name end old = ok old
field get name (member k j rest) old =
    if fold_key k == name
    then get j old >>= (λ new. field get name rest new)
    else field get name rest old

-- `json.Unmarshal` into a struct: an object, or `null`, which sets no field.
abbrev pub members_of : Option Json → Result DecodeError Members
members_of none = err wrong_type
members_of (some null) = ok end
members_of (some (obj ms)) = ok ms
members_of (some _) = err wrong_type

abbrev pub text_field : String → Members → Result DecodeError Text
text_field name ms = field get_text (text name) ms []

pub record BasicAuthParams : Type 0 where
  pub domain : Text
  pub username : Text
  pub password : Text
  pub clear : Bool

pub record BindingParams : Type 0 where
  pub domain : Text
  pub instance_id : Text
  pub service : Text
  pub local_port : ℤ

pub record InstallParams : Type 0 where
  pub instance_id : Text
  pub template_id : Text
  pub version : Text
  pub desired_state : Text
  pub user_config : Members
  pub manifest_b64 : Text
  pub manifest_sig_b64 : Text

-- The structs that hold one and two texts.
unfoldable pub decode_one : String → Option Json → Result DecodeError Text
decode_one name params = do ms ← members_of params; text_field name ms

unfoldable pub decode_two : String → String → Option Json → Result DecodeError (Text × Text)
decode_two first second params = do
  ms ← members_of params
  x ← text_field first ms
  y ← text_field second ms
  ok (x, y)

unfoldable pub decode_basic_auth : Option Json → Result DecodeError BasicAuthParams
decode_basic_auth params = do
  ms ← members_of params
  d ← text_field "domain" ms
  u ← text_field "username" ms
  p ← text_field "password" ms
  c ← field get_bool (text "clear") ms false
  ok (record { domain = d; username = u; password = p; clear = c })

unfoldable pub decode_binding : Option Json → Result DecodeError BindingParams
decode_binding params = do
  ms ← members_of params
  d ← text_field "domain" ms
  i ← text_field "instance_id" ms
  s ← text_field "service" ms
  port ← field get_int (text "local_port") ms (pos 0)
  ok (record { domain = d; instance_id = i; service = s; local_port = port })

unfoldable pub decode_install : Option Json → Result DecodeError InstallParams
decode_install params = do
  ms ← members_of params
  i ← text_field "instance_id" ms
  t ← text_field "template_id" ms
  v ← text_field "version" ms
  s ← text_field "desired_state" ms
  u ← field get_map (text "user_config") ms end
  m ← text_field "manifest_b64" ms
  g ← text_field "manifest_sig_b64" ms
  ok (record {
    instance_id = i;
    template_id = t;
    version = v;
    desired_state = s;
    user_config = u;
    manifest_b64 = m;
    manifest_sig_b64 = g;
  })
