-- ===== src/Sync/Once.antt =====
-- An envelope that reaches the handler again, in any order with others.
use obacht_agent.Base.{
  ◌≤◌, true, false, ◌≡◌, ◌≢◌, refl, sym, ap, ◌∙◌, some, List, [], ◌∷◌, All, map, is_nil, Bool-cases,
  inl, inr, arith,
}
use obacht_agent.Base.Result.{ok, err}
use obacht_agent.Base.Text.{Text}
use obacht_agent.SignedMut.Json.{Json}
use obacht_agent.SignedMut.Envelope.{Mutation, decode_mutation}
use obacht_agent.SignedMut.Verify.{Primitives, UserKey, Verdict, denied, store_error, accepted}
use obacht_agent.SignedMut.Integers.{IsNullFree}
use obacht_agent.SignedMut.Sound.{IsSigned, IsSigned-carried, carried_mutation, verify-accepted}
use obacht_agent.SignedMut.Replay.{Arrival, receive, receive_all, accepted_once}
use obacht_agent.Store.Nonces.{Row, nonce_table}
use obacht_agent.Sync.Device.{Outcomes, Host, Step}
use obacht_agent.Sync.Handle.{
  Agent, after_dispatch, after_verify, handle_raw, handle_signed_mutation,
}
use obacht_agent.Sync.Answered.{handle_raw-device}

-- An envelope, the time, and what SQLite does to the nonces and to the dispatch.
pub record Delivery : Type 0 where
  pub arrival : Arrival
  pub outcomes : Outcomes

module _ (prim : Primitives) (own : Text) (host : Host) (keys : List UserKey) where
  abbrev pub deliver : Delivery → Agent (List Row) → Agent (List Row)
  deliver x =
      handle_signed_mutation prim (nonce_table x.arrival.fault) own host x.outcomes x.arrival.now
        keys (x.arrival.raw ∷ [])

  abbrev pub deliver_all : List Delivery → Agent (List Row) → Agent (List Row)
  deliver_all [] a = a
  deliver_all (x ∷ later) a = deliver_all later (deliver x a)

  after_dispatch-nonces :
      (x : Delivery) (m : Mutation) (k : UserKey) (a : Agent (List Row)) (r : Step)
      → (after_dispatch prim
          (nonce_table x.arrival.fault)
          own
          host
          x.outcomes
          x.arrival.now
          keys
          x.arrival.raw
          m
          k
          a
          r).nonces
        ≡ a.nonces
  after_dispatch-nonces x m k a (err e, d) = refl
  after_dispatch-nonces x m k a (ok _, d) = refl

  after_verify-nonces :
      (x : Delivery) (a : Agent (List Row)) (v : Verdict)
      → (after_verify prim
          (nonce_table x.arrival.fault)
          own
          host
          x.outcomes
          x.arrival.now
          keys
          x.arrival.raw
          a
          v).nonces
        ≡ a.nonces
  unfolding after_verify
  after_verify-nonces x a (denied why k) = refl
  after_verify-nonces x a (store_error k) = refl
  after_verify-nonces x a (accepted m k) = after_dispatch-nonces x m k a _

  deliver-nonces :
      (x : Delivery) (a : Agent (List Row))
      → is_nil keys ≡ false
      → (deliver x a).nonces ≡ (receive prim own keys x.arrival a.nonces).1
  unfolding handle_signed_mutation handle_raw
  deliver-nonces x a pinned =
      rw pinned (after_verify-nonces x _ (receive prim own keys x.arrival a.nonces).0)

  deliver_all-nonces :
      (xs : List Delivery) (a : Agent (List Row))
      → is_nil keys ≡ false
      → (deliver_all xs a).nonces ≡ receive_all prim own keys (map (λ x. x.arrival) xs) a.nonces
  unfolding receive_all
  deliver_all-nonces [] a pinned = refl
  deliver_all-nonces (x ∷ xs) a pinned =
      deliver_all-nonces xs (deliver x a) pinned
      ∙ ap (receive_all prim own keys (map (λ x. x.arrival) xs)) (deliver-nonces x a pinned)

  no_keys_device :
      (x : Delivery) (a : Agent (List Row)) → is_nil keys ≡ true → (deliver x a).device ≡ a.device
  unfolding handle_signed_mutation handle_raw
  no_keys_device x a unpinned = rw unpinned refl

  -- The mutation of a null-free tree, whoever accepted it.
  same_mutation :
      (x y : Delivery) (tree : Json) (m m' : Mutation) (k k' : UserKey)
      → y.arrival.raw ≡ x.arrival.raw
      → carried_mutation prim x.arrival.raw ≡ some tree
      → IsSigned prim (nonce_table x.arrival.fault) own x.arrival.now keys x.arrival.raw m k
      → IsSigned prim (nonce_table y.arrival.fault) own y.arrival.now keys y.arrival.raw m' k'
      → m' ≡ m
  same_mutation x y tree m m' k k' same carries u v =
      let a : u.tree ≡ tree =
        IsSigned-carried prim (nonce_table x.arrival.fault) own x.arrival.now keys x.arrival.raw m k
          u tree carries in
      let b : v.tree ≡ tree =
        IsSigned-carried prim (nonce_table y.arrival.fault) own y.arrival.now keys y.arrival.raw m'
          k' v tree (ap (carried_mutation prim) same ∙ carries) in
      let both : ok m' ≡ ok m = sym v.decoded ∙ ap decode_mutation (b ∙ sym a) ∙ u.decoded in
      ground (arith, both)

  -- A mutation is carried out at most once: if the first delivery of an envelope changed the device, and
  -- the mutation's object holds no `null`, then whatever is delivered in between, up to the time of the
  -- second delivery, the second delivery of the same envelope changes nothing on the device.
  pub carried_out_once :
      (x y : Delivery) (between : List Delivery) (a : Agent (List Row)) (tree : Json)
      → (deliver x a).device ≢ a.device
      → y.arrival.raw ≡ x.arrival.raw
      → carried_mutation prim x.arrival.raw ≡ some tree
      → IsNullFree tree
      → All (λ (r : Arrival). r.now ≤ y.arrival.now) (map (λ x. x.arrival) between)
      → (deliver y (deliver_all between (deliver x a))).device
        ≡ (deliver_all between (deliver x a)).device
  unfolding handle_signed_mutation
  carried_out_once x y between a tree changed same carries nn times =
      elim (Bool-cases (is_nil keys)) [
        | inl unpinned ↦ absurd (changed (no_keys_device x a unpinned))
        | inr pinned ↦
            elim (handle_raw-device prim (nonce_table x.arrival.fault) own host x.outcomes
              x.arrival.now keys x.arrival.raw a) [
                | inl unchanged ↦ absurd (changed unchanged)
                | inr (m, k, s', v, d) ↦
                    elim (handle_raw-device prim (nonce_table y.arrival.fault) own host y.outcomes
                      y.arrival.now keys y.arrival.raw (deliver_all between (deliver x a))) [
                        | inl unchanged ↦ unchanged
                        | inr (m', k', s'', v', d') ↦ absurd (twice pinned m m' k k' s' s'' v v')
                      ]
              ]
      ]
    where
      twice :
          (pinned : is_nil keys ≡ false) (m m' : Mutation) (k k' : UserKey) (s' s'' : List Row)
          → receive prim own keys x.arrival a.nonces ≡ (accepted m k, s')
          → (receive prim own keys y.arrival (deliver_all between (deliver x a)).nonces)
            ≢ (accepted m' k', s'')
      twice pinned m m' k k' s' s'' v v' =
          let u =
            (verify-accepted prim (nonce_table x.arrival.fault) own x.arrival.now keys x.arrival.raw
              m k a.nonces s' v).0 in
          let u' =
            (verify-accepted prim (nonce_table y.arrival.fault) own y.arrival.now keys y.arrival.raw
              m' k' _ s'' v').0 in
          let table : (deliver_all between (deliver x a)).nonces
              ≡ receive_all prim own keys (map (λ x. x.arrival) between) s' =
            deliver_all-nonces between (deliver x a) pinned
            ∙ ap (receive_all prim own keys (map (λ x. x.arrival) between))
                (deliver-nonces x a pinned ∙ ap (λ r. r.1) v) in
          accepted_once prim own keys x.arrival y.arrival (map (λ x. x.arrival) between) a.nonces s'
            tree m k k' v carries nn times
            (ap (λ s. (receive prim own keys y.arrival s).0) (sym table)
              ∙ ap (λ r. r.0) v'
              ∙ ap (λ n. accepted n k') (same_mutation x y tree m m' k k' same carries u u'))
