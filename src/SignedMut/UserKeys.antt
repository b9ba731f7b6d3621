-- ===== src/SignedMut/UserKeys.antt =====
-- internal/signedmut/userkeys.go: the public keys of users in the format of OpenSSH. A line is shorter
-- than 4 GiB, so `4+n` does not wrap.
use obacht_agent.Base.{
  ℕ, ◌+◌, ◌*◌, ◌/◌, ◌%◌, ◌^◌, not, Option, none, some, List, [], ◌∷◌, ◌++◌, length, take, drop,
  is_nil, ltb, ◌==◌, nat_eq, list_eq, if◌then◌else◌,
}
use obacht_agent.Base.Result.{Result, ok, err, guard, ◌>>=◌, ◌>>◌}
use obacht_agent.Base.Text.{Text, text, trim_space, fields}
use obacht_agent.SignedMut.Verify.{Bytes, public_key_size}

pub data KeyError : Type 0 where
  too_few_fields key_type bad_base64 short_prefix long_prefix wire_algo trailing_bytes key_size :
      KeyError

abbrev pub algo : Bytes
algo = text "ssh-ed25519"

-- `binary.BigEndian.Uint32`
abbrev pub uint32 : ℕ → ℕ → ℕ → ℕ → ℕ
uint32 a b c d = a * 2 ^ 24 + b * 2 ^ 16 + c * 2 ^ 8 + d

-- `binary.BigEndian.PutUint32`
abbrev pub put_uint32 : ℕ → Bytes
put_uint32 n = n / 2 ^ 24 % 256 ∷ n / 2 ^ 16 % 256 ∷ n / 2 ^ 8 % 256 ∷ n % 256 ∷ []

abbrev pub cut : ℕ → Bytes → Result KeyError (Bytes × Bytes)
cut n rest = if ltb (length rest % 2 ^ 32) n then err long_prefix else ok (take n rest, drop n rest)

-- `readSSHString`
unfoldable pub read_ssh_string : Bytes → Result KeyError (Bytes × Bytes)
read_ssh_string (a ∷ b ∷ c ∷ d ∷ rest) = cut (uint32 a b c d) rest
read_ssh_string _ = err short_prefix

-- `marshalSSHEd25519`
unfoldable pub marshal_ssh_ed25519 : Bytes → Bytes
marshal_ssh_ed25519 key = put_uint32 (length algo) ++ algo ++ put_uint32 (length key) ++ key

-- `ParseOpenSSHEd25519` behind base64
unfoldable pub parse_wire : Bytes → Result KeyError Bytes
parse_wire wire = do
  (name, rest) ← read_ssh_string wire
  guard (name == algo) wire_algo
  (key, rest') ← read_ssh_string rest
  guard (is_nil rest') trailing_bytes
  guard (length key == public_key_size) key_size
  ok key

module _ (decode_base64 : Text → Option Bytes) where
  abbrev pub parse_decoded : Option Bytes → Result KeyError Bytes
  parse_decoded none = err bad_base64
  parse_decoded (some wire) = parse_wire wire

  abbrev pub parse_fields : List Text → Result KeyError Bytes
  parse_fields (kind ∷ blob ∷ _) =
      if not (kind == text "ssh-ed25519") then err key_type else parse_decoded (decode_base64 blob)
  parse_fields _ = err too_few_fields

  unfoldable pub parse_openssh_ed25519 : Text → Result KeyError Bytes
  parse_openssh_ed25519 line = parse_fields (fields (trim_space line))
