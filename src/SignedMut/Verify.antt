-- ===== src/SignedMut/Verify.antt =====
-- internal/signedmut/envelope.go: `Verifier.Verify`. What it takes from Go's library and does not
-- compute itself is the parameter `Primitives`.
use obacht_agent.Base.{
  ℕ, ◌+◌, ◌^◌, Bool, true, false, not, ◌&&◌, ◌||◌, Option, none, some, List, [], ◌∷◌, length,
  is_nil, ltb, ◌==◌, nat_eq, list_eq, if◌then◌else◌,
}
use obacht_agent.Base.Int.{pos, ◌-ℤ◌, wrap64, lebℤ, ltbℤ}
use obacht_agent.Base.Result.{Result, ok, err}
use obacht_agent.Base.Text.{Text, byte_len}
use obacht_agent.SignedMut.Json.{Json}
use obacht_agent.SignedMut.Jcs.{canonicalize}
use obacht_agent.SignedMut.Envelope.{Envelope, Mutation, decode_mutation, decode_envelope}
use obacht_agent.Store.Nonces.{NonceError, ReplayStore}

abbrev pub Bytes : Type 0
Bytes = List ℕ

-- The JSON parser (one value, with nothing behind it), base64 and Ed25519 of Go's library.
pub record Primitives : Type 0 where
  pub parse_json : Text → Option Json
  pub decode_base64 : Text → Option Bytes
  pub verify_ed25519 : Bytes → Text → Bytes → Bool

-- userkeys.go
pub record UserKey : Type 0 where
  pub label : Text
  pub pub_key : Bytes

-- The deny reasons.
pub data Deny : Type 0 where
  malformed untrusted_key sig device_mismatch expired future_iat window replay : Deny

-- What `Verify` returns; a denial names the pinned key where one has been matched.
pub data Verdict : Type 0 where
  denied : Deny → Option UserKey → Verdict
  store_error : UserKey → Verdict
  accepted : Mutation → UserKey → Verdict

abbrev pub max_envelope_bytes : ℕ
max_envelope_bytes = 2 ^ 20

-- in seconds
abbrev pub clock_skew : ℕ
clock_skew = 30

abbrev pub max_lifetime : ℕ
max_lifetime = 600

abbrev pub public_key_size : ℕ
public_key_size = 32

abbrev pub signature_size : ℕ
signature_size = 64

-- the loop over the pinned keys
unfoldable pub find_key : Bytes → List UserKey → Option UserKey
find_key signer [] = none
find_key signer (k ∷ ks) = if k.pub_key == signer then some k else find_key signer ks

-- A decoded field that must have a given size.
unfoldable pub sized : ℕ → Option Bytes → Option Bytes
sized n none = none
sized n (some b) = if length b == n then some b else none

-- The checks of the time window; `now` is a clock that has passed 1970.
unfoldable pub check_window : ℕ → Mutation → Option Deny
check_window now m =
    if ltbℤ (pos (now + clock_skew)) m.iat
    then some future_iat
    else if lebℤ m.exp (pos now)
    then some expired
    else if ltbℤ (pos max_lifetime) (wrap64 (m.exp -ℤ m.iat)) || lebℤ m.exp m.iat
    then some window
    else none

-- The checks of a mutation whose signature holds, up to the replay check.
unfoldable pub check_mutation : Text → ℕ → Mutation → Option Deny
check_mutation own now m =
    if not (lebℤ m.v (pos 1) && lebℤ (pos 1) m.v)
    then some malformed
    else if is_nil m.op || is_nil m.nonce || ltb 128 (byte_len m.nonce)
    then some malformed
    else if not (m.device_id == own)
    then some device_mismatch
    else check_window now m

module _ (prim : Primitives) {S : Type 0} (store : ReplayStore S) (own : Text) (now : ℕ) where
  open prim use {parse_json, decode_base64, verify_ed25519}

  -- the replay check, last
  unfoldable pub finish_replay : Mutation → UserKey → Result NonceError Bool × S → Verdict × S
  finish_replay m k (err e, s) = (store_error k, s)
  finish_replay m k (ok false, s) = (denied replay (some k), s)
  finish_replay m k (ok true, s) = (accepted m k, s)

  unfoldable pub verify_parsed : Mutation → UserKey → S → Verdict × S
  verify_parsed m k s = elim (check_mutation own now m) [
    | some why ↦ (denied why (some k), s)
    | none ↦ finish_replay m k (store.check_and_mark_nonce m.nonce now s)
  ]

  -- the signature over the canonical form
  unfoldable pub verify_signed : Json → Bytes → Bytes → UserKey → S → Verdict × S
  verify_signed j signer signature k s = elim (canonicalize j) [
    | err e ↦ (denied malformed none, s)
    | ok canon ↦
        if not (verify_ed25519 signer canon signature)
        then (denied sig (some k), s)
        else elim (decode_mutation j) [
          | err e ↦ (denied malformed (some k), s)
          | ok m ↦ verify_parsed m k s
        ]
  ]

  unfoldable pub verify_key : List UserKey → Json → Option Bytes → Option Bytes → S → Verdict × S
  verify_key keys j none signature s = (denied malformed none, s)
  verify_key keys j (some signer) none s = (denied malformed none, s)
  verify_key keys j (some signer) (some signature) s = elim (find_key signer keys) [
    | none ↦ (denied untrusted_key none, s)
    | some k ↦ verify_signed j signer signature k s
  ]

  unfoldable pub verify_envelope : List UserKey → Envelope → Option Json → S → Verdict × S
  verify_envelope keys env none s = (denied malformed none, s)
  verify_envelope keys env (some j) s =
      if is_nil env.sig_b64 || is_nil env.signer_pubkey_b64
      then (denied malformed none, s)
      else verify_key keys j (sized public_key_size (decode_base64 env.signer_pubkey_b64))
          (sized signature_size (decode_base64 env.sig_b64)) s

  unfoldable pub verify_json : List UserKey → Option Json → S → Verdict × S
  verify_json keys none s = (denied malformed none, s)
  verify_json keys (some j) s = elim (decode_envelope j) [
    | err e ↦ (denied malformed none, s)
    | ok env ↦ verify_envelope keys env env.mutation s
  ]

  unfoldable pub verify : List UserKey → Text → S → Verdict × S
  verify keys raw s =
      if ltb max_envelope_bytes (byte_len raw)
      then (denied malformed none, s)
      else verify_json keys (parse_json raw) s
