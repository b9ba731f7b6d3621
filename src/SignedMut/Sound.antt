-- ===== src/SignedMut/Sound.antt =====
-- What an accepting run of `Verify` has established.
use obacht_agent.Base.{
  subst, ap, ◌∙◌, ℕ, ◌+◌, ◌≤◌, ◌<◌, Bool, true, false, ◌≡◌, refl, Option, none, some, List, [], ◌∷◌,
  Memᴰ, ◌==◌, nat_eq, list_eq, arith, inl, inr, list_beq_iff, Option-cases, Bool-cases, sym,
}
use obacht_agent.Base.Int.{ℤ, pos, pos_part, neg_part, ◌-ℤ◌, wrap64, -ℤ_parts}
use obacht_agent.Base.Result.{Result, ok, err, Result-cases}
use obacht_agent.Base.Text.{Text}
use obacht_agent.SignedMut.Json.{Json}
use obacht_agent.SignedMut.Jcs.{canonicalize}
use obacht_agent.SignedMut.Envelope.{Envelope, Mutation, decode_mutation, decode_envelope}
use obacht_agent.SignedMut.Integers.{IsNullFree, decode-IsSafeInt, lifetime_exact}
use obacht_agent.SignedMut.Verify.{
  Bytes, Primitives, UserKey, accepted, clock_skew, max_lifetime, public_key_size, signature_size,
  find_key, sized, check_window, check_mutation, finish_replay, verify_parsed, verify_signed,
  verify_key, verify_envelope, verify_json, verify,
}
use obacht_agent.Store.Nonces.{NonceError, ReplayStore}

-- The time window in exact integers, and the other checks of a signed mutation.
pub record IsTimely (own : Text) (now : ℕ) (m : Mutation) : Type 0 where
  pub bound : m.device_id ≡ own
  pub version : m.v ≡ pos 1
  pub started : pos_part m.iat ≤ now + clock_skew + neg_part m.iat
  pub unexpired : now + neg_part m.exp < pos_part m.exp
  pub ordered : pos_part m.iat + neg_part m.exp < pos_part m.exp + neg_part m.iat
  pub short : pos_part (wrap64 (m.exp -ℤ m.iat)) ≤ max_lifetime + neg_part (wrap64 (m.exp -ℤ m.iat))

one_of_bounds :
    (z : ℤ) → pos_part z + 0 ≤ 1 + neg_part z → 1 + neg_part z ≤ pos_part z + 0 → z ≡ pos 1
one_of_bounds z h k = ground arith

check_mutation-IsTimely :
    (own : Text) (now : ℕ) (m : Mutation) → check_mutation own now m ≡ none → IsTimely own now m
unfolding check_mutation check_window
check_mutation-IsTimely own now m h = record {
  bound = ground (arith, list_beq_iff m.device_id own);
  version = one_of_bounds m.v (ground arith) (ground arith);
  started = ground arith;
  unexpired = ground arith;
  ordered = ground arith;
  short = ground arith;
}

find_key-mem :
    (signer : Bytes) (keys : List UserKey) (k : UserKey)
    → find_key signer keys ≡ some k
    → Memᴰ k keys × (k.pub_key ≡ signer)
unfolding find_key
find_key-mem signer [] k h = cc
find_key-mem signer (x ∷ keys) k h = elim (Bool-cases (x.pub_key == signer)) [
  | inl here ↦
      let same : x ≡ k = ground arith in
      (Memᴰ.head (sym same), ground (arith, list_beq_iff x.pub_key signer))
  | inr there ↦ let (m, e) = find_key-mem signer keys k (ground arith) in (Memᴰ.tail m, e)
]

sized-eq-some : (n : ℕ) (o : Option Bytes) (b : Bytes) → sized n o ≡ some b → o ≡ some b
unfolding sized
sized-eq-some n none b h = cc
sized-eq-some n (some c) b h = ground arith

-- The value tree of the mutation that an envelope carries.
unfoldable pub carried_mutation : Primitives → Text → Option Json
carried_mutation prim raw = elim (prim.parse_json raw) [
  | none ↦ none
  | some wire ↦ elim (decode_envelope wire) [ err e ↦ none | ok env ↦ env.mutation ]
]

module _ (prim : Primitives) {S : Type 0} (store : ReplayStore S) (own : Text) (now : ℕ) where
  -- How the accepted mutation came out of the envelope.
  pub record IsSigned (keys : List UserKey) (raw : Text) (m : Mutation) (k : UserKey) : Type 0 where
    pub wire : Json
    pub env : Envelope
    pub tree : Json
    pub canon : Text
    pub signature : Bytes
    pub parsed : prim.parse_json raw ≡ some wire
    pub opened : decode_envelope wire ≡ ok env
    pub carried : env.mutation ≡ some tree
    pub pinned : Memᴰ k keys
    pub claimed : prim.decode_base64 env.signer_pubkey_b64 ≡ some k.pub_key
    pub attached : prim.decode_base64 env.sig_b64 ≡ some signature
    pub canonical : canonicalize tree ≡ ok canon
    pub signed : prim.verify_ed25519 k.pub_key canon signature ≡ true
    pub decoded : decode_mutation tree ≡ ok m

  -- What `verify_parsed` has checked.
  pub record IsFresh (m : Mutation) (s s' : S) : Type 0 where
    pub timely : IsTimely own now m
    pub marked : store.check_and_mark_nonce m.nonce now s ≡ (ok true, s')

  finish_replay-accepted :
      (m m' : Mutation) (k k' : UserKey) (r : Result NonceError Bool × S) (s' : S)
      → finish_replay prim store own now m k r ≡ (accepted m' k', s')
      → (m ≡ m') × (k ≡ k') × (r ≡ (ok true, s'))
  unfolding finish_replay
  finish_replay-accepted m m' k k' (err e, s) s' h = ground arith
  finish_replay-accepted m m' k k' (ok false, s) s' h = ground arith
  finish_replay-accepted m m' k k' (ok true, s) s' h = (ground arith, ground arith, ground arith)

  verify_parsed-accepted :
      (m m' : Mutation) (k k' : UserKey) (s s' : S)
      → verify_parsed prim store own now m k s ≡ (accepted m' k', s')
      → (m ≡ m') × (k ≡ k') × IsFresh m s s'
  unfolding verify_parsed
  verify_parsed-accepted m m' k k' s s' h = elim (Option-cases (check_mutation own now m)) [
    | inl passed ↦
        let (a, b, c) =
          finish_replay-accepted m m' k k' (store.check_and_mark_nonce m.nonce now s) s'
            (rw (passed, verify_parsed) at h) in
        (a, b, record { timely = check_mutation-IsTimely own now m passed; marked = c })
    | inr (why, refused) ↦ absurd (ground arith)
  ]

  record IsSignedTree (tree : Json) (signer signature : Bytes) (m : Mutation) : Type 0 where
    canon : Text
    canonical : canonicalize tree ≡ ok canon
    signed : prim.verify_ed25519 signer canon signature ≡ true
    decoded : decode_mutation tree ≡ ok m

  verify_signed-accepted :
      (j : Json) (signer signature : Bytes) (m' : Mutation) (k k' : UserKey) (s s' : S)
      → verify_signed prim store own now j signer signature k s ≡ (accepted m' k', s')
      → (k ≡ k') × IsSignedTree j signer signature m' × IsFresh m' s s'
  unfolding verify_signed
  verify_signed-accepted j signer signature m' k k' s s' h = elim (Result-cases (canonicalize j)) [
    | inr (e, failed) ↦ absurd (ground arith)
    | inl (canon, c) ↦ elim (Bool-cases (prim.verify_ed25519 signer canon signature)) [
      | inr bad ↦ absurd (ground arith)
      | inl good ↦ elim (Result-cases (decode_mutation j)) [
        | inr (e, failed) ↦ absurd (ground arith)
        | inl (m, d) ↦
            let (a, b, f) =
              verify_parsed-accepted m m' k k' s s' (rw (c, good, d, verify_signed) at h) in
            (
              b,
              record { canon = canon; canonical = c; signed = good; decoded = rw (← a) d },
              rw (← a) f,
            )
      ]
    ]
  ]

  verify_key-accepted :
      (keys : List UserKey) (j : Json) (o p : Option Bytes) (m : Mutation) (k : UserKey) (s s' : S)
      → verify_key prim store own now keys j o p s ≡ (accepted m k, s')
      → (signature : Bytes) × (o ≡ some k.pub_key)
        × (p ≡ some signature)
        × Memᴰ k keys
        × IsSignedTree j k.pub_key signature m
        × IsFresh m s s'
  unfolding verify_key
  verify_key-accepted keys j none p m k s s' h = absurd (ground arith)
  verify_key-accepted keys j (some signer) none m k s s' h = absurd (ground arith)
  verify_key-accepted keys j (some signer) (some signature) m k s s' h =
      elim (Option-cases (find_key signer keys)) [
        | inl unknown ↦ absurd (ground arith)
        | inr (k', found) ↦
            let (a, b, f) =
              verify_signed-accepted j signer signature m k' k s s' (rw (found, verify_key) at h) in
            let (listed, named) = find_key-mem signer keys k' found in
            let same : signer ≡ k.pub_key = sym named ∙ ap (λ (x : UserKey). x.pub_key) a in
            (
              signature,
              ap some same,
              refl,
              rw (← a) listed,
              subst (λ x. IsSignedTree j x signature m) same b,
              f,
            )
      ]

  verify_envelope-accepted :
      (keys : List UserKey) (env : Envelope) (o : Option Json) (m : Mutation) (k : UserKey)
      (s s' : S)
      → verify_envelope prim store own now keys env o s ≡ (accepted m k, s')
      → (j : Json) × (o ≡ some j)
        × (verify_key prim store own now keys j
              (sized public_key_size (prim.decode_base64 env.signer_pubkey_b64))
              (sized signature_size (prim.decode_base64 env.sig_b64))
              s
            ≡ (accepted m k, s'))
  unfolding verify_envelope
  verify_envelope-accepted keys env none m k s s' h = absurd (ground arith)
  verify_envelope-accepted keys env (some j) m k s s' h = (j, refl, ground arith)

  verify_json-accepted :
      (keys : List UserKey) (o : Option Json) (m : Mutation) (k : UserKey) (s s' : S)
      → verify_json prim store own now keys o s ≡ (accepted m k, s')
      → (j : Json) × (env : Envelope) × (o ≡ some j)
        × (decode_envelope j ≡ ok env)
        × (verify_envelope prim store own now keys env env.mutation s ≡ (accepted m k, s'))
  unfolding verify_json
  verify_json-accepted keys none m k s s' h = absurd (ground arith)
  verify_json-accepted keys (some j) m k s s' h = elim (Result-cases (decode_envelope j)) [
    | inr (e, failed) ↦ absurd (ground arith)
    | inl (env, d) ↦ (j, env, refl, d, rw (d, verify_json) at h)
  ]

  verify-json :
      (keys : List UserKey) (raw : Text) (m : Mutation) (k : UserKey) (s s' : S)
      → verify prim store own now keys raw s ≡ (accepted m k, s')
      → verify_json prim store own now keys (prim.parse_json raw) s ≡ (accepted m k, s')
  unfolding verify
  verify-json keys raw m k s s' h = ground arith

  -- If `Verify` accepts an envelope, then the key it names is one of the pinned keys and is the key
  -- that the envelope carries, the Ed25519 test passed for that key over the canonical form of the very
  -- value tree that the mutation was decoded from, the mutation is of version 1 and bound to this
  -- device, its time window passed, and the nonce store reported its nonce as fresh in this call.
  pub verify-accepted :
      (keys : List UserKey) (raw : Text) (m : Mutation) (k : UserKey) (s s' : S)
      → verify prim store own now keys raw s ≡ (accepted m k, s')
      → IsSigned keys raw m k × IsFresh m s s'
  verify-accepted keys raw m k s s' h =
      let (wire, env, parsed, opened, h₁) =
        verify_json-accepted keys (prim.parse_json raw) m k s s'
          (verify-json keys raw m k s s' h) in
      let (tree, carried, h₂) = verify_envelope-accepted keys env env.mutation m k s s' h₁ in
      let (signature, claimed, attached, pinned, t, fresh) =
        verify_key-accepted keys tree _ _ m k s s' h₂ in
      (
        record {
          wire = wire;
          env = env;
          tree = tree;
          canon = t.canon;
          signature = signature;
          parsed = parsed;
          opened = opened;
          carried = carried;
          pinned = pinned;
          claimed = sized-eq-some public_key_size _ k.pub_key claimed;
          attached = sized-eq-some signature_size _ signature attached;
          canonical = t.canonical;
          signed = t.signed;
          decoded = t.decoded;
        },
        fresh,
      )

  pub IsSigned-carried :
      (keys : List UserKey) (raw : Text) (m : Mutation) (k : UserKey) (t : IsSigned keys raw m k)
      (j : Json)
      → carried_mutation prim raw ≡ some j
      → t.tree ≡ j
  unfolding carried_mutation
  IsSigned-carried keys raw m k t j h =
      let a : t.env.mutation ≡ some j = rw (t.parsed, t.opened, carried_mutation) at h in
      ground (arith, a, t.carried)

  -- If `Verify` accepts a mutation whose object holds no `null`, then its lifetime is at most ten
  -- minutes and its expiry at most ten and a half minutes away, in exact integers.
  pub verify-lifetime :
      (keys : List UserKey) (raw : Text) (tree : Json) (m : Mutation) (k : UserKey) (s s' : S)
      → verify prim store own now keys raw s ≡ (accepted m k, s')
      → carried_mutation prim raw ≡ some tree
      → IsNullFree tree
      → (pos_part m.exp + neg_part m.iat ≤ max_lifetime + pos_part m.iat + neg_part m.exp)
        × (pos_part m.exp ≤ now + clock_skew + max_lifetime + neg_part m.exp)
  verify-lifetime keys raw tree m k s s' accepts carries nn =
      let (t, f) = verify-accepted keys raw m k s s' accepts in
      let same = IsSigned-carried keys raw m k t tree carries in
      let (safe_iat, safe_exp) =
        decode-IsSafeInt t.tree t.canon m t.canonical (rw same nn) t.decoded in
      let exact = lifetime_exact m.iat m.exp safe_iat safe_exp in
      let short = rw exact at (f.timely.short) in
      let long : pos_part m.exp + neg_part m.iat ≤ max_lifetime + pos_part m.iat + neg_part m.exp =
        omega (arith, short, -ℤ_parts m.exp m.iat) in
      (long, omega (arith, long, f.timely.started))
