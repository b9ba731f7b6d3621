-- ===== src/SignedMut/Kept.antt =====
-- What `Verify` does to the nonce store: nothing, or one `CheckAndMarkNonce`.
use obacht_agent.Base.{
  subst, sym, ℕ, Bool, true, false, ◌≡◌, ◌≢◌, Option, none, some, List, arith, inl, inr,
  Option-cases, Bool-cases, is_nil, ltb, ◌||◌, refl,
}
use obacht_agent.Base.Result.{Result, ok, err, Result-cases}
use obacht_agent.Base.Text.{Text, byte_len}
use obacht_agent.SignedMut.Json.{Json}
use obacht_agent.SignedMut.Jcs.{canonicalize}
use obacht_agent.SignedMut.Envelope.{Envelope, Mutation, decode_mutation, decode_envelope}
use obacht_agent.SignedMut.Verify.{
  Bytes, Primitives, UserKey, Deny, replay, Verdict, denied, max_envelope_bytes, find_key,
  check_mutation, finish_replay, verify_parsed, verify_signed, verify_key, verify_envelope,
  verify_json, verify,
}
use obacht_agent.Store.Nonces.{NonceError, ReplayStore}

-- A run that ends before the replay check, or goes through it.
data Outcome {S : Type 0} (store : ReplayStore S) (now : ℕ) (s : S) (r : Verdict × S) : Type 0 where
  untouched : r.1 ≡ s → Outcome store now s r
  marked :
      (n : Text)
      → r.1 ≡ (store.check_and_mark_nonce n now s).1
      → ((why : Deny) (k : Option UserKey) → r.0 ≡ denied why k → why ≡ replay)
      → Outcome store now s r

module _ (prim : Primitives) {S : Type 0} (store : ReplayStore S) (own : Text) (now : ℕ)
    (s : S) where
  finish_replay-Outcome :
      (m : Mutation) (k : UserKey) (n : Text) (r : Result NonceError Bool × S)
      → store.check_and_mark_nonce n now s ≡ r
      → Outcome store now s (finish_replay prim store own now m k r)
  unfolding finish_replay
  finish_replay-Outcome m k n (err e, t) h = marked n (ground arith) (λ why o d. ground arith)
  finish_replay-Outcome m k n (ok false, t) h = marked n (ground arith) (λ why o d. ground arith)
  finish_replay-Outcome m k n (ok true, t) h = marked n (ground arith) (λ why o d. ground arith)

  verify_parsed-Outcome :
      (m : Mutation) (k : UserKey) → Outcome store now s (verify_parsed prim store own now m k s)
  unfolding verify_parsed
  verify_parsed-Outcome m k = elim (Option-cases (check_mutation own now m)) [
    | inl passed ↦
        rw (passed, verify_parsed)
          (finish_replay-Outcome m k m.nonce (store.check_and_mark_nonce m.nonce now s) refl)
    | inr (why, refused) ↦ rw (refused, verify_parsed) (untouched refl)
  ]

  verify_signed-Outcome :
      (j : Json) (signer signature : Bytes) (k : UserKey)
      → Outcome store now s (verify_signed prim store own now j signer signature k s)
  unfolding verify_signed
  verify_signed-Outcome j signer signature k = elim (Result-cases (canonicalize j)) [
    | inr (e, failed) ↦ rw (failed, verify_signed) (untouched refl)
    | inl (canon, c) ↦ elim (Bool-cases (prim.verify_ed25519 signer canon signature)) [
      | inr bad ↦ rw (c, bad, verify_signed) (untouched refl)
      | inl good ↦ elim (Result-cases (decode_mutation j)) [
        | inr (e, failed) ↦ rw (c, good, failed, verify_signed) (untouched refl)
        | inl (m, d) ↦ rw (c, good, d, verify_signed) (verify_parsed-Outcome m k)
      ]
    ]
  ]

  verify_key-Outcome :
      (keys : List UserKey) (j : Json) (o p : Option Bytes)
      → Outcome store now s (verify_key prim store own now keys j o p s)
  unfolding verify_key
  verify_key-Outcome keys j none p = untouched refl
  verify_key-Outcome keys j (some signer) none = untouched refl
  verify_key-Outcome keys j (some signer) (some signature) =
      elim (Option-cases (find_key signer keys)) [
        | inl unknown ↦ rw (unknown, verify_key) (untouched refl)
        | inr (k, found) ↦ rw (found, verify_key) (verify_signed-Outcome j signer signature k)
      ]

  verify_envelope-Outcome :
      (keys : List UserKey) (env : Envelope) (o : Option Json)
      → Outcome store now s (verify_envelope prim store own now keys env o s)
  unfolding verify_envelope
  verify_envelope-Outcome keys env none = untouched refl
  verify_envelope-Outcome keys env (some j) =
      elim (Bool-cases (is_nil env.sig_b64 || is_nil env.signer_pubkey_b64)) [
        | inl absent ↦ rw absent (untouched refl)
        | inr given ↦ rw given (verify_key-Outcome keys j _ _)
      ]

  verify_json-Outcome :
      (keys : List UserKey) (o : Option Json)
      → Outcome store now s (verify_json prim store own now keys o s)
  unfolding verify_json
  verify_json-Outcome keys none = untouched refl
  verify_json-Outcome keys (some j) = elim (Result-cases (decode_envelope j)) [
    | inr (e, failed) ↦ rw (failed, verify_json) (untouched refl)
    | inl (env, d) ↦ rw (d, verify_json) (verify_envelope-Outcome keys env env.mutation)
  ]

  verify-Outcome :
      (keys : List UserKey) (raw : Text)
      → Outcome store now s (verify prim store own now keys raw s)
  unfolding verify
  verify-Outcome keys raw = elim (Bool-cases (ltb max_envelope_bytes (byte_len raw))) [
    | inl large ↦ rw large (untouched refl)
    | inr fits ↦ rw fits (verify_json-Outcome keys (prim.parse_json raw))
  ]

  -- A predicate of the store that one `CheckAndMarkNonce` keeps is kept by `Verify`.
  pub verify-keeps :
      (P : S → Type 0) (keys : List UserKey) (raw : Text)
      → P s
      → ((n : Text) → P (store.check_and_mark_nonce n now s).1)
      → P (verify prim store own now keys raw s).1
  verify-keeps P keys raw here step = elim (verify-Outcome keys raw) [
    | untouched e ↦ subst P (sym e) here
    | marked n e why ↦ subst P (sym e) (step n)
  ]

  -- An envelope that is denied for any other reason than a replay leaves the nonce store as it was:
  -- it does not use up its nonce.
  pub denied-keeps_nonces :
      (keys : List UserKey) (raw : Text) (why : Deny) (k : Option UserKey)
      → (verify prim store own now keys raw s).0 ≡ denied why k
      → why ≢ replay
      → (verify prim store own now keys raw s).1 ≡ s
  denied-keeps_nonces keys raw why k h other = elim (verify-Outcome keys raw) [
    | untouched e ↦ e
    | marked n e only ↦ absurd (other (only why k h))
  ]
