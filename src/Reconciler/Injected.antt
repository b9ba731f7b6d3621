-- ===== src/Reconciler/Injected.antt =====
-- What `injectIPC` gives a container.
use obacht_agent.Base.{
  Bool, true, false, ◌≡◌, subst, sym, ap, ◌∙◌, if◌then◌else◌, ◌⊎◌, refl, Option-cases, list_beq,
  Option, none, some, List, [], ◌∷◌, ◌++◌, any, is_nil, ◌==◌, nat_eq, list_eq, list_beq_iff,
  Bool-cases, inl, inr, arith,
}
use obacht_agent.Base.Result.{Result, ok, err}
use obacht_agent.Base.Text.{Text}
use obacht_agent.Store.Table.{find_row, has_row}
use obacht_agent.Store.Rows.{find-has_row}
use obacht_agent.Store.Locks.{Outcome}
use obacht_agent.Store.Db.{Db, StoreError}
use obacht_agent.Store.Secrets.{ensure_instance_secret, IsStored, ensure-IsStored}
use obacht_agent.Redact.{EnvVar}
use obacht_agent.Reconciler.Ipc.{
  VolumeMount, IpcSpec, env_key, container_socket, socket_var, secret_var, set_default,
  mount_socket, Injected, with_secret, with_socket, inject_ipc,
}

abbrev pub mounts_socket : List VolumeMount → Bool
mounts_socket = any (λ v. v.target == container_socket)

abbrev pub or_else : Option EnvVar → Option EnvVar → Option EnvVar
or_else (some e) d = some e
or_else none d = d

abbrev pub when : Bool → EnvVar → Option EnvVar
when b e = if b then some e else none

-- The variables that a container gets where its template does not set them.
abbrev pub default_of : Text → Text → Option EnvVar
default_of secret k =
    or_else (when (socket_var == k) (record { key = socket_var; value = container_socket }))
      (when (secret_var == k) (record { key = secret_var; value = secret }))

-- The mount of the socket of the agent.
abbrev pub socket_mount : Text → VolumeMount
socket_mount socket = record {
  source = socket;
  target = container_socket;
  read_only = false;
  agent_managed = true;
}

-- Every variable is the template's or the default, no other is added; the secret is the stored one of the
-- instance, and is only asked for where the template has none; the volumes stay, and the socket of the
-- agent is mounted behind them where no volume has its place.
pub record IsInjected (socket id : Text) (before after : IpcSpec) (db db' : Db) : Type 0 where
  pub secret : Text
  pub variables :
      (k : Text)
      → find_row env_key k after.env ≡ or_else (find_row env_key k before.env) (default_of secret k)
  pub issued :
      ((has_row env_key secret_var before.env ≡ true) × (db' ≡ db))
      ⊎ ((has_row env_key secret_var before.env ≡ false) × IsStored id secret db')
  pub mounted :
      ((mounts_socket before.volumes ≡ true) × (after.volumes ≡ before.volumes))
      ⊎ ((mounts_socket before.volumes ≡ false)
          × (after.volumes ≡ before.volumes ++ socket_mount socket ∷ []))

find-none :
    (k : Text) (env : List EnvVar) → find_row env_key k env ≡ none → has_row env_key k env ≡ false
unfolding find_row has_row
find-none k [] h = refl
find-none k (e ∷ env) h = elim (Bool-cases (e.key == k)) [
  | inl here ↦ absurd (ground (arith, rw here at h))
  | inr away ↦ ground (arith, away, find-none k env (rw away at h))
]

row-cases :
    (k : Text) (env : List EnvVar)
    → ((has_row env_key k env ≡ true) × ((e : EnvVar) × (find_row env_key k env ≡ some e)))
      ⊎ ((has_row env_key k env ≡ false) × (find_row env_key k env ≡ none))
row-cases k env = elim (Option-cases (find_row env_key k env)) [
  | inl absent ↦ inr (find-none k env absent, absent)
  | inr (e, found) ↦ inl (find-has_row env_key k env found, (e, found))
]

or_else-none : (o : Option EnvVar) → o ≡ or_else o none
or_else-none none = refl
or_else-none (some e) = refl

or_else_assoc : (a b c : Option EnvVar) → or_else (or_else a b) c ≡ or_else a (or_else b c)
or_else_assoc none b c = refl
or_else_assoc (some e) b c = refl

set_default-find :
    (k v k' : Text) (env : List EnvVar)
    → find_row env_key k' (set_default k v env)
      ≡ or_else (find_row env_key k' env) (when (k == k') (record { key = k; value = v }))
unfolding set_default find_row
set_default-find k v k' env = elim (Bool-cases (k == k')) [
  | inr other ↦ elim (Bool-cases (has_row env_key k env)) [
    | inl there ↦ rw (there, other) (or_else-none (find_row env_key k' env))
    | inr absent ↦ rw (absent, other) (or_else-none (find_row env_key k' env))
  ]
  | inl same ↦
      let eq : k ≡ k' = (list_beq_iff k k').0 same in
      elim (row-cases k env) [
        | inl (there, (e, found)) ↦
            let found' : find_row env_key k' env ≡ some e =
              ap (λ x. find_row env_key x env) (sym eq) ∙ found in
            rw (there, same, found') refl
        | inr (absent, lost) ↦
            let lost' : find_row env_key k' env ≡ none =
              ap (λ x. find_row env_key x env) (sym eq) ∙ lost in
            rw (absent, same, lost') refl
      ]
]

-- The variable of the socket is not the one of the secret.
socket-has_secret :
    (env : List EnvVar)
    → has_row env_key secret_var (set_default socket_var container_socket env)
      ≡ has_row env_key secret_var env
unfolding set_default has_row list_beq
socket-has_secret env = elim (Bool-cases (has_row env_key socket_var env)) [
  | inl there ↦ rw there refl
  | inr absent ↦ rw absent refl
]

-- Where the template sets the secret, its default does not matter.
template-variables :
    (k : Text) (env : List EnvVar)
    → has_row env_key secret_var env ≡ true
    → find_row env_key k (set_default socket_var container_socket env)
      ≡ or_else (find_row env_key k env) (default_of [] k)
template-variables k env there =
    set_default-find socket_var container_socket k env ∙ elim (Bool-cases (secret_var == k)) [
      | inr other ↦ rw other (ap (or_else (find_row env_key k env)) (or_else-none _))
      | inl same ↦
          let eq : secret_var ≡ k = (list_beq_iff secret_var k).0 same in
          elim (row-cases secret_var env) [
            | inr (absent, lost) ↦ absurd (ground (arith, there, absent))
            | inl (here, (e, found)) ↦
                let found' : find_row env_key k env ≡ some e =
                  ap (λ x. find_row env_key x env) (sym eq) ∙ found in
                rw found' refl
          ]
    ]

issued-variables :
    (k secret : Text) (env : List EnvVar)
    → find_row env_key k
        (set_default secret_var secret (set_default socket_var container_socket env))
      ≡ or_else (find_row env_key k env) (default_of secret k)
issued-variables k secret env =
    set_default-find secret_var secret k (set_default socket_var container_socket env)
    ∙ ap (λ o. or_else o (when (secret_var == k) (record { key = secret_var; value = secret })))
        (set_default-find socket_var container_socket k env)
    ∙ or_else_assoc (find_row env_key k env) _ _

mount_socket-mounts :
    (socket : Text) (vs : List VolumeMount)
    → ((mounts_socket vs ≡ true) × (mount_socket socket vs ≡ vs))
      ⊎ ((mounts_socket vs ≡ false) × (mount_socket socket vs ≡ vs ++ socket_mount socket ∷ []))
unfolding mount_socket
mount_socket-mounts socket vs = elim (Bool-cases (mounts_socket vs)) [
  | inl there ↦ inl (there, rw there refl)
  | inr absent ↦ inr (absent, rw absent refl)
]

abbrev injected_ok : IpcSpec → Db → Injected
injected_ok spec db = (ok spec, db)

ok_injective : (x y : IpcSpec) (d d' : Db) → injected_ok x d ≡ injected_ok y d' → x ≡ y
ok_injective x y d d' h = ground (arith, h)

-- The environment behind the first variable.
with_socket-IsInjected :
    (read write : Outcome) (random : Option Text) (socket id : Text) (spec after : IpcSpec)
    (db db' : Db)
    → with_socket read write random socket id
        (set_default socket_var container_socket spec.env)
        spec.volumes
        db
      ≡ (ok after, db')
    → IsInjected socket id spec after db db'
with_socket-IsInjected read write random socket id spec after db db' =
    elim (Bool-cases (has_row env_key secret_var env₁)) [
      | inl there ↦ rw there (λ h.
          let template : has_row env_key secret_var spec.env ≡ true =
            sym (socket-has_secret spec.env) ∙ there in
          let eq : record { env = env₁; volumes = mount_socket socket spec.volumes } ≡ after =
            ok_injective _ after db db' h in
          subst (λ x. IsInjected socket id spec x db db') eq
            (record {
              secret = [];
              variables = λ k. template-variables k spec.env template;
              issued = inl (template, sym (ap (λ (x : Injected). x.1) h));
              mounted = mount_socket-mounts socket spec.volumes;
            }))
      | inr absent ↦ rw absent (
          issued_here (sym (socket-has_secret spec.env) ∙ absent)
            (ensure_instance_secret read write random id db) refl)
    ]
  where
    env₁ : List EnvVar
    env₁ = set_default socket_var container_socket spec.env

    issued_here :
        has_row env_key secret_var spec.env ≡ false
        → (r : Result StoreError Text × Db) → ensure_instance_secret read write random id db ≡ r
        → with_secret socket env₁ spec.volumes r ≡ (ok after, db')
        → IsInjected socket id spec after db db'
    issued_here unset (err e, d) made h = absurd (ground arith)
    issued_here unset (ok given, d) made h =
        subst (λ x. IsInjected socket id spec x db db') (ok_injective _ after d db' h)
          (record {
            secret = given;
            variables = λ k. issued-variables k given spec.env;
            issued = inr (
              unset,
              subst (IsStored id given) (ap (λ (x : Injected). x.1) h)
                  (ensure-IsStored read write random id given db d made).1,
            );
            mounted = mount_socket-mounts socket spec.volumes;
          })

-- For an agent with a socket, an `injectIPC` that succeeds leaves every variable that the template sets
-- with its value and adds at most the variable of the socket, whose value is the socket's path in the
-- container, and the variable of the secret, whose value is the secret that the database holds for the
-- instance; where the template sets the secret, the database is unchanged. The volumes are the template's,
-- with the mount of the agent's socket behind them if no volume of the template has its place.
pub inject_ipc-IsInjected :
    (read write : Outcome) (random : Option Text) (socket id : Text) (spec after : IpcSpec)
    (db db' : Db)
    → is_nil socket ≡ false
    → inject_ipc read write random socket id spec db ≡ (ok after, db')
    → IsInjected socket id spec after db db'
unfolding inject_ipc
inject_ipc-IsInjected read write random socket id spec after db db' wired h =
    with_socket-IsInjected read write random socket id spec after db db' (rw wired at h)
