-- ===== src/Compose/Accepted.antt =====
-- An accepted compose file stays inside its own volumes and networks.
use obacht_agent.Base.{
  ℕ, ◌+◌, true, false, ◌≡◌, ◌≢◌, refl, ap, Option, none, some, [], ◌∷◌, ◌++◌, All, elem, is_nil-eq,
  ◌==◌, nat_eq, list_eq, list_beq_iff, Bool-cases, ◌⊎◌, inl, inr, arith,
}
use obacht_agent.Base.Result.{ok, guard, guard-eq-ok, >>=-eq-ok}
use obacht_agent.Base.Text.{Text, text}
use obacht_agent.Compose.Yaml.{
  Yaml, null, str, other, seq, mapping, Items, nil, cons, Entries, end, entry, at_key, has_key,
  text_of, mapping_of, AllEntries, AllItems,
}
use obacht_agent.Compose.Allowlist.{
  allowed_top_level, allowed_service_keys, forbidden_volume_keys, forbidden_network_keys,
  forbidden_service_keys, data_marker, is_extension, each_entry, check_top_level, before_colon,
  check_mount, check_mounts, validate_service_volumes, check_service_key, check_service, check_defs,
  or_end, check_services, has_services, no_services, validate_document, validate_parsed,
  validate_compose_body,
}
use obacht_agent.Compose.Confined.{
  IsPlain, IsTarget, IsSafeMount, IsSafeMounts, IsSafeKey, IsSafeService, each_entry-All,
  defs-IsPlain, has_key-IsDeclared,
}

before_colon_lem :
    (m : Text)
    → (rest : Text) × (m ≡ before_colon m ++ rest)
      × IsTarget rest
      × All (λ c. c ≢ b':') (before_colon m)
unfolding before_colon
before_colon_lem [] = ([], refl, tt, tt)
before_colon_lem (c ∷ s) =
    let (rest, e, t, clear) = before_colon_lem s in
    elim (Bool-cases (c == b':')) [
      | inl colon ↦ rw colon (c ∷ s, refl, ground (arith, colon), tt)
      | inr plain ↦
          rw plain (rest, ap (λ xs. c ∷ xs) e, t, (λ same. ground (arith, same, plain), clear))
    ]

module _ (volumes : Entries) (plain : AllEntries (λ k v. IsPlain v) volumes) where
  mount-IsSafeMount :
      (svc : Text) (i : ℕ) (m : Yaml) → check_mount svc volumes i m ≡ ok tt → IsSafeMount volumes m
  unfolding check_mount
  mount-IsSafeMount svc i (str m) h =
      let (rest, e, t, clear) = before_colon_lem m in
      record {
        source = before_colon m;
        target = rest;
        split = e;
        no_colon = clear;
        at_colon = t;
        not_path = ground arith;
        declared = has_key-IsDeclared (before_colon m) volumes plain (ground arith);
      }
  mount-IsSafeMount svc i (mapping m) h =
      let src = text_of (at_key (text "source") m) in
      (
        λ bind.
            ground (arith, bind, h, list_beq_iff (text_of (at_key (text "type") m)) (text "bind")),
        elim (Bool-cases (has_key src volumes)) [
          | inl there ↦ inr (has_key-IsDeclared src volumes plain there)
          | inr missing ↦ inl (is_nil-eq src (ground (arith, h, missing)))
        ],
      )
  mount-IsSafeMount svc i null h = absurd (ground arith)
  mount-IsSafeMount svc i (other _) h = absurd (ground arith)
  mount-IsSafeMount svc i (seq _) h = absurd (ground arith)

  mounts-IsSafeMount :
      (svc : Text) (i : ℕ) (ms : Items)
      → check_mounts svc volumes i ms ≡ ok tt
      → AllItems (IsSafeMount volumes) ms
  unfolding check_mounts
  mounts-IsSafeMount svc i nil h = tt
  mounts-IsSafeMount svc i (cons m ms) h =
      let (_, a, b) =
        >>=-eq-ok (check_mount svc volumes i m) (λ _. check_mounts svc volumes (i + 1) ms) h in
      (mount-IsSafeMount svc i m a, mounts-IsSafeMount svc (i + 1) ms b)

  volumes-IsSafeMounts :
      (svc : Text) (v : Yaml)
      → validate_service_volumes svc volumes v ≡ ok tt
      → IsSafeMounts volumes v
  unfolding validate_service_volumes
  volumes-IsSafeMounts svc (seq ms) h = mounts-IsSafeMount svc 0 ms h
  volumes-IsSafeMounts svc null h = absurd (ground arith)
  volumes-IsSafeMounts svc (str _) h = absurd (ground arith)
  volumes-IsSafeMounts svc (other _) h = absurd (ground arith)
  volumes-IsSafeMounts svc (mapping _) h = absurd (ground arith)

  key-IsSafeKey :
      (svc k : Text) (v : Yaml) → check_service_key svc volumes k v ≡ ok tt → IsSafeKey volumes k v
  unfolding check_service_key
  key-IsSafeKey svc k v h = elim (Bool-cases (is_extension k)) [
    | inl x ↦ inl x
    | inr x ↦
        let listed : elem k allowed_service_keys ≡ true = ground arith in
        let spared : elem k forbidden_service_keys ≡ false = ground arith in
        inr (
          listed,
          spared,
          elim (Bool-cases (k == text "volumes")) [
            | inl here ↦
                inr (volumes-IsSafeMounts svc v (ground (arith, x, h, listed, spared, here)))
            | inr away ↦ inl (λ same. ground (arith, same, away, list_beq_iff k (text "volumes")))
          ],
        )
  ]

  service-IsSafe :
      (svc : Text) (v : Yaml) → check_service volumes svc v ≡ ok tt → IsSafeService volumes svc v
  unfolding check_service
  service-IsSafe svc (mapping es) h =
      each_entry-All (IsSafeKey volumes) (check_service_key svc volumes) (key-IsSafeKey svc) es h
  service-IsSafe svc null h = absurd (ground arith)
  service-IsSafe svc (str _) h = absurd (ground arith)
  service-IsSafe svc (other _) h = absurd (ground arith)
  service-IsSafe svc (seq _) h = absurd (ground arith)

  services-IsSafe :
      (o : Option Entries)
      → check_services volumes o ≡ ok tt
      → AllEntries (IsSafeService volumes) (or_end o)
  services-IsSafe none h = tt
  services-IsSafe (some end) h = tt
  services-IsSafe (some (entry k v es)) h =
      each_entry-All (IsSafeService volumes) (check_service volumes) service-IsSafe (entry k v es) h

-- The mapping that a document holds at a key; the empty one if there is none.
abbrev pub section : Text → Entries → Entries
section k doc = or_end (mapping_of (at_key k doc))

abbrev pub IsTopLevelKey : Text → Yaml → Type 0
IsTopLevelKey k v = (k ≡ data_marker) ⊎ (elem k allowed_top_level ≡ true)

pub record IsConfinedDocument (doc : Entries) : Type 0 where
  pub top_level : AllEntries IsTopLevelKey doc
  pub plain_volumes : AllEntries (λ k v. IsPlain v) (section (text "volumes") doc)
  pub plain_networks : AllEntries (λ k v. IsPlain v) (section (text "networks") doc)
  pub some_service : section (text "services") doc ≢ end
  pub safe_services :
      AllEntries (IsSafeService (section (text "volumes") doc)) (section (text "services") doc)

top_level-IsTopLevelKey : (k : Text) (v : Yaml) → check_top_level k v ≡ ok tt → IsTopLevelKey k v
unfolding check_top_level
top_level-IsTopLevelKey k v h = elim (Bool-cases (is_extension k)) [
  | inl x ↦ inl (ground (arith, x, h, list_beq_iff k data_marker))
  | inr x ↦ inr (ground (arith, x, h))
]

has_services-end : (o : Option Entries) → has_services o ≡ true → or_end o ≢ end
has_services-end none h e = ground arith
has_services-end (some end) h e = ground arith
has_services-end (some (entry k v es)) h e = cc

document-IsConfined : (doc : Entries) → validate_document doc ≡ ok tt → IsConfinedDocument doc
unfolding validate_document
document-IsConfined doc h =
    let (_, top, h₁) = >>=-eq-ok (each_entry check_top_level doc) _ h in
    let (_, found, h₂) = >>=-eq-ok (guard (has_services services) no_services) _ h₁ in
    let (_, vols, h₃) = >>=-eq-ok (check_defs forbidden_volume_keys volumes) _ h₂ in
    let (_, nets, h₄) = >>=-eq-ok (check_defs forbidden_network_keys networks) _ h₃ in
    let plain = defs-IsPlain forbidden_volume_keys volumes vols in
    record {
      top_level = each_entry-All IsTopLevelKey check_top_level top_level-IsTopLevelKey doc top;
      plain_volumes = plain;
      plain_networks = defs-IsPlain forbidden_network_keys networks nets;
      some_service =
          has_services-end services (guard-eq-ok (has_services services) no_services found);
      safe_services = services-IsSafe (or_end volumes) plain services h₄;
    }
  where
    services : Option Entries
    services = mapping_of (at_key (text "services") doc)

    volumes : Option Entries
    volumes = mapping_of (at_key (text "volumes") doc)

    networks : Option Entries
    networks = mapping_of (at_key (text "networks") doc)

-- A body that `ValidateComposeBody` accepts parses to a document with services in which every top-level
-- key is allowed; volumes and networks are defined without driver, options and names of their own;
-- every key of a service is an extension or an allowed one; and every mount of a service is of a
-- volume with such a definition and is neither a path nor of type `bind`, where a long mount may
-- also have no source.
pub validate-IsConfinedDocument :
    (parse_yaml : Text → Option (Option Entries)) (body : Text)
    → validate_compose_body parse_yaml body ≡ ok tt
    → (doc : Entries) × (parse_yaml body ≡ some (some doc)) × IsConfinedDocument doc
unfolding validate_compose_body
validate-IsConfinedDocument parse_yaml body h = parsed (parse_yaml body) refl h
  where
    parsed :
        (o : Option (Option Entries))
        → parse_yaml body ≡ o
        → validate_parsed parse_yaml o ≡ ok tt
        → (doc : Entries) × (parse_yaml body ≡ some (some doc)) × IsConfinedDocument doc
    parsed none e k = absurd (ground arith)
    parsed (some none) e k = absurd (ground arith)
    parsed (some (some doc)) e k = (doc, e, document-IsConfined doc k)
