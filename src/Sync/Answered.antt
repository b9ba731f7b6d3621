-- ===== src/Sync/Answered.antt =====
-- What one `agent:signed_mutation` event does: one entry, one answer, and what may change the device.
use obacht_agent.Base.{
  ℕ, suc, Bool, true, false, ◌≡◌, ◌≢◌, ◌⊎◌, refl, List, [], ◌∷◌, is_nil, Bool-cases, inl, inr,
  arith,
}
use obacht_agent.Base.Result.{ok, err}
use obacht_agent.Base.Text.{Text}
use obacht_agent.SignedMut.Envelope.{Mutation}
use obacht_agent.SignedMut.Verify.{
  Primitives, UserKey, Deny, malformed, untrusted_key, Verdict, denied, store_error, accepted,
  verify,
}
use obacht_agent.SignedMut.Sound.{IsSigned, IsFresh, verify-accepted}
use obacht_agent.Store.Nonces.{ReplayStore}
use obacht_agent.Sync.Device.{Outcomes, Host, Device, Step}
use obacht_agent.Sync.Dispatch.{dispatch_signed_mutation}
use obacht_agent.Sync.Written.{IsAllOrNothing, dispatch-IsAllOrNothing}
use obacht_agent.Sync.Handle.{
  AuditOutcome, applied, Failure, no_pinned_keys, Entry, Answer, Agent, turn_away, after_dispatch,
  after_verify, handle_raw, handle_signed_mutation,
}

abbrev pub is_applied : AuditOutcome → Bool
is_applied applied = true
is_applied _ = false

pub record IsAnswered {S : Type 0} (a a' : Agent S) : Type 0 where
  pub entry : Entry
  pub answer : Answer
  pub logged : a'.audit_log ≡ entry ∷ a.audit_log
  pub answered : a'.answers ≡ answer ∷ a.answers
  pub agree : answer.is_ok ≡ is_applied entry.outcome
  pub named : answer.op ≡ entry.target
  pub kept : answer.is_ok ≡ false → a'.device ≡ a.device
  pub done : answer.is_ok ≡ true → a'.device.triggers ≡ suc a.device.triggers

module _ (prim : Primitives) {S : Type 0} (store : ReplayStore S) (own : Text) (host : Host)
    (o : Outcomes) (now : ℕ) (keys : List UserKey) (raw : Text) where
  turn_away-IsAnswered :
      (why : Deny) (label : Text) (logged told : Failure) (a : Agent S)
      → IsAnswered a (turn_away prim store own host o now keys raw why label logged told a)
  turn_away-IsAnswered why label logged told a = record {
    entry = _;
    answer = _;
    logged = refl;
    answered = refl;
    agree = refl;
    named = refl;
    kept = λ h. refl;
    done = λ h. absurd (ground arith);
  }

  after_dispatch-IsAnswered :
      (m : Mutation) (k : UserKey) (a : Agent S) (r : Step)
      → IsAllOrNothing a.device r
      → IsAnswered a (after_dispatch prim store own host o now keys raw m k a r)
  after_dispatch-IsAnswered m k a (err e, d) h = record {
    entry = _;
    answer = _;
    logged = refl;
    answered = refl;
    agree = refl;
    named = refl;
    kept = λ x. h.1 e refl;
    done = λ x. absurd (ground arith);
  }
  after_dispatch-IsAnswered m k a (ok tt, d) h = record {
    entry = _;
    answer = _;
    logged = refl;
    answered = refl;
    agree = refl;
    named = refl;
    kept = λ x. absurd (ground arith);
    done = λ x. h.0 refl;
  }

  -- The nonces that `Verify` left do not matter.
  from_nonces : (a a' : Agent S) (s : S) → IsAnswered (record a { nonces = s }) a' → IsAnswered a a'
  from_nonces a a' s h = record {
    entry = h.entry;
    answer = h.answer;
    logged = h.logged;
    answered = h.answered;
    agree = h.agree;
    named = h.named;
    kept = h.kept;
    done = h.done;
  }

  after_verify-IsAnswered :
      (a : Agent S) (v : Verdict)
      → IsAnswered a (after_verify prim store own host o now keys raw a v)
  unfolding after_verify
  after_verify-IsAnswered a (denied why k) = turn_away-IsAnswered why _ _ _ a
  after_verify-IsAnswered a (store_error k) = turn_away-IsAnswered malformed _ _ _ a
  after_verify-IsAnswered a (accepted m k) =
      after_dispatch-IsAnswered m k a (dispatch_signed_mutation host o m a.device)
        (dispatch-IsAllOrNothing host o m a.device)

  handle_raw-IsAnswered :
      (a : Agent S) → IsAnswered a (handle_raw prim store own host o now keys raw a)
  unfolding handle_raw
  handle_raw-IsAnswered a = elim (Bool-cases (is_nil keys)) [
    | inl unpinned ↦
        rw unpinned (turn_away-IsAnswered untrusted_key [] no_pinned_keys no_pinned_keys a)
    | inr pinned ↦ rw pinned (
        from_nonces a _ _ (
          after_verify-IsAnswered
            (record a { nonces = (verify prim store own now keys raw a.nonces).1 })
            (verify prim store own now keys raw a.nonces).0))
  ]

  after_dispatch-device :
      (m : Mutation) (k : UserKey) (a : Agent S) (r : Step)
      → (after_dispatch prim store own host o now keys raw m k a r).device ≡ r.1
  after_dispatch-device m k a (err e, d) = refl
  after_dispatch-device m k a (ok _, d) = refl

  -- What changes the device: the dispatch of a mutation that `Verify` accepted, in this call.
  abbrev pub IsDispatched : Agent S → Device → Type 0
  IsDispatched a d =
      (m : Mutation) × (k : UserKey) × (s' : S) × (verify prim store own now keys raw a.nonces
        ≡ (accepted m k, s'))
      × (d ≡ (dispatch_signed_mutation host o m a.device).1)

  after_verify-device :
      (a : Agent S) (r : Verdict × S)
      → verify prim store own now keys raw a.nonces ≡ r
      → let d =
          (after_verify prim store own host o now keys raw
            (record a { nonces = r.1 })
            r.0).device in
        (d ≡ a.device) ⊎ IsDispatched a d
  unfolding after_verify
  after_verify-device a (denied why k, s) h = inl refl
  after_verify-device a (store_error k, s) h = inl refl
  after_verify-device a (accepted m k, s) h =
      inr (m, k, s, h, after_dispatch-device m k (record a { nonces = s }) _)

  pub handle_raw-device :
      (a : Agent S)
      → ((handle_raw prim store own host o now keys raw a).device ≡ a.device)
        ⊎ IsDispatched a (handle_raw prim store own host o now keys raw a).device
  unfolding handle_raw
  handle_raw-device a = elim (Bool-cases (is_nil keys)) [
    | inl unpinned ↦ rw unpinned (inl refl)
    | inr pinned ↦
        rw pinned (after_verify-device a (verify prim store own now keys raw a.nonces) refl)
  ]

module _ (prim : Primitives) {S : Type 0} (store : ReplayStore S) (own : Text) (host : Host)
    (o : Outcomes) (now : ℕ) (keys : List UserKey) where
  -- An event without arguments changes nothing. Every other event writes exactly one entry of the audit
  -- log and gives exactly one answer. The two name the same operation, and the answer says `ok` exactly if
  -- the entry does; without `ok` the device is as it was, with `ok` the reconciler has been asked for
  -- exactly one pass.
  pub handle-IsAnswered :
      (args : List Text) (a : Agent S)
      → ((is_nil args ≡ true) × (handle_signed_mutation prim store own host o now keys args a ≡ a))
        ⊎ ((is_nil args ≡ false)
            × IsAnswered a (handle_signed_mutation prim store own host o now keys args a))
  unfolding handle_signed_mutation
  handle-IsAnswered [] a = inl (refl, refl)
  handle-IsAnswered (raw ∷ rest) a =
      inr (refl, handle_raw-IsAnswered prim store own host o now keys raw a)

  -- If an event changes the device, its database or its requests to the reconciler and the ingress, then
  -- the first argument of the event carries a mutation that a pinned user key has signed over its canonical
  -- form, which is bound to this device, in its time window and of a nonce that the store had not seen, and
  -- what the event does is the dispatch of this mutation.
  pub handle-attested :
      (args : List Text) (a : Agent S)
      → (handle_signed_mutation prim store own host o now keys args a).device ≢ a.device
      → (raw : Text) × (rest : List Text) × (m : Mutation) × (k : UserKey) × (s' : S) × (args
          ≡ raw ∷ rest)
        × IsSigned prim store own now keys raw m k
        × IsFresh prim store own now m a.nonces s'
        × ((handle_signed_mutation prim store own host o now keys args a).device
            ≡ (dispatch_signed_mutation host o m a.device).1)
  unfolding handle_signed_mutation
  handle-attested [] a changed = absurd (changed refl)
  handle-attested (raw ∷ rest) a changed =
      elim (handle_raw-device prim store own host o now keys raw a) [
        | inl same ↦ absurd (changed same)
        | inr (m, k, s', v, d) ↦
            let (signed, fresh) = verify-accepted prim store own now keys raw m k a.nonces s' v in
            (raw, rest, m, k, s', refl, signed, fresh, d)
      ]
