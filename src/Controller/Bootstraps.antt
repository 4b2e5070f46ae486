-- ===== src/Controller/Bootstraps.antt =====
-- What a bootstrap that returned has looked at: the Secrets, the transport and the version.
use netbox_herald.Base.{
  ◌≡◌, refl, ◌<>◌, ◌⊎◌, inl, inr, String, Bool, true, false, Option, none, some, List, Result, ok,
  err, panic, Exec, str_eq, Bool-cases, Option-cases, sym, ap, ◌∙◌,
}
use netbox_herald.Base.Int.{ℤ, is_nonpositive}
use netbox_herald.Base.Triple.{
  Triple, Triple-return, Triple-bind, Triple-given, Triple-weaken, Triple-fail, Triple-context,
  Triple-result, Triple-if, Ends,
}
use netbox_herald.Api.Spec.{SecretKeyRef, NetBoxConfig, HeraldConfigSpec}
use netbox_herald.NetBox.Model.{Value, null, boolean, number, text, array, object, NetBoxApi}
use netbox_herald.NetBox.ExternalId.{get_field, as_text}
use netbox_herald.NetBox.Tags.{ensure_managed_tag}
use netbox_herald.NetBox.CustomFields.{ensure_external_id_custom_field}
use netbox_herald.NetBox.Connect.{
  Config, seconds, get_key, key_of, value_or_fail, secret_key, ca_bundle, load_config, Url,
  Libraries, supported_version_range, auth_scheme, timeout_of, ca_pool_of, connect, build_client,
  accept_version, accept_payload, check_version,
}
use netbox_herald.Controller.Kube.{Kube}
use netbox_herald.Controller.HeraldConfigController.{version_of, bootstrap}

abbrev pub Any : {S : Type 0} → S → Type 0
Any s = Unit

module _ {S A : Type 0} where
  Ends-Any : (r : Result A) (s : S) → Ends (λ _. Any) Any r s
  Ends-Any (ok a) s = tt
  Ends-Any (err e) s = tt
  Ends-Any panic s = tt

  -- every end is allowed
  Triple-Any : (m : Exec S A) → Triple Any m (λ _. Any) Any
  Triple-Any m = record { run = λ s h. Ends-Any (m s).0 (m s).1 }

-- The timeout of a client is positive.
timeout_of_positive : (cfg : Config) → is_nonpositive (timeout_of cfg) ≡ false
unfolding timeout_of
timeout_of_positive cfg = elim (Bool-cases (is_nonpositive cfg.request_timeout)) [
  | inl unset ↦ rw unset refl
  | inr set ↦ rw (set, set) refl
]

timeout_of_set :
    (cfg : Config)
    → (is_nonpositive cfg.request_timeout ≡ true) ⊎ (timeout_of cfg ≡ cfg.request_timeout)
unfolding timeout_of
timeout_of_set cfg = elim (Bool-cases (is_nonpositive cfg.request_timeout)) [
  | inl unset ↦ inl unset
  | inr set ↦ inr (rw set refl)
]

module _ {S : Type 0} (kube : Kube S) (libraries : Libraries S) (operator_namespace : String)
    (secret_of : String → Option (List (String × String)))
    (stored : (name : String)
      → Triple Any (kube.get_secret operator_namespace name) (λ o _. o ≡ secret_of name) Any) where
  -- the value of a reference: that of its key, or of "token", in the Secret that it names
  abbrev pub IsRead : SecretKeyRef → String → Type 0
  IsRead ref value =
      (entries : List (String × String)) × (secret_of ref.name ≡ some entries)
      × (get_key (key_of ref) entries ≡ some value)

  abbrev pub IsRead? : Option SecretKeyRef → String → Type 0
  IsRead? none value = value ≡ ""
  IsRead? (some ref) value = IsRead ref value

  -- the pool of the CA bundle: none for an empty one, else the bundle, which has certificates
  abbrev pub IsPool : String → Option String → Type 0
  IsPool ca none = str_eq ca "" ≡ true
  IsPool ca (some pem) = (pem ≡ ca) × (libraries.has_certs ca ≡ true)

  -- the configuration as the spec has it, with the values of its Secrets
  abbrev pub IsLoaded : NetBoxConfig → Config → Type 0
  IsLoaded spec cfg =
      (cfg.server_url ≡ spec.url)
      × (cfg.insecure_skip_verify ≡ spec.tls.insecure_skip_verify)
      × (cfg.request_timeout ≡ seconds spec.request_timeout_seconds)
      × IsRead spec.token_secret_ref cfg.api_token
      × IsRead? spec.tls.ca_bundle_secret_ref cfg.ca_cert_pem

  -- the client of a transport with the token, the CA bundle and a positive timeout
  abbrev pub IsConnected : Config → NetBoxApi S → Type 0
  IsConnected cfg client =
      (url : Url) × (pool : Option String) × (timeout : ℤ) × (str_eq cfg.api_token "" ≡ false)
      × (libraries.parse_url cfg.server_url ≡ ok url)
      × IsPool cfg.ca_cert_pem pool
      × (is_nonpositive timeout ≡ false)
      × ((is_nonpositive cfg.request_timeout ≡ true) ⊎ (timeout ≡ cfg.request_timeout))
      × (libraries.new_client (record {
        url = url;
        insecure_skip_verify = cfg.insecure_skip_verify;
        ca_pool = pool;
        timeout = timeout;
        authorization = auth_scheme cfg.api_token <> (" " <> cfg.api_token);
      })
          ≡ ok client)

  -- The version is in the supported range, or the check is off.
  abbrev pub IsSupported : Bool → String → Type 0
  IsSupported true version =
      (str_eq version "" ≡ false)
      × (libraries.check_semver supported_version_range version ≡ ok true)
  IsSupported false version = version ≡ ""

  -- What a bootstrap has looked at.
  abbrev pub IsVetted : HeraldConfigSpec → NetBoxApi S × String → Type 0
  IsVetted spec (client, version) =
      (cfg : Config) × IsLoaded spec.netbox cfg
      × IsConnected cfg client
      × IsSupported spec.netbox.version_check.enabled version

  value_or_fail-IsRead :
      (ref : SecretKeyRef) (o : Option (List (String × String)))
      → o ≡ secret_of ref.name
      → Triple Any (value_or_fail kube operator_namespace ref o) (λ v _. IsRead ref v) Any
  unfolding value_or_fail
  value_or_fail-IsRead ref none e = Triple-fail _
  value_or_fail-IsRead ref (some entries) e = elim (Option-cases (get_key (key_of ref) entries)) [
    | inl missing ↦ rw (value_or_fail, missing) (Triple-fail _)
    | inr (v, is) ↦ rw (value_or_fail, is) (Triple-return v λ s h. (entries, sym e, is))
  ]

  secret_key-IsRead :
      (ref : SecretKeyRef)
      → Triple Any (secret_key kube operator_namespace ref) (λ v _. IsRead ref v) Any
  unfolding secret_key
  secret_key-IsRead ref =
      Triple-bind _ _
        (Triple-context _ (Triple-weaken (λ o s h. (tt, h)) (λ s h. tt) (stored ref.name)))
        λ o. Triple-given λ e. value_or_fail-IsRead ref o e

  ca_bundle-IsRead? :
      (ref : Option SecretKeyRef)
      → Triple Any (ca_bundle kube operator_namespace ref) (λ v _. IsRead? ref v) Any
  unfolding ca_bundle
  ca_bundle-IsRead? none = Triple-return "" λ s h. refl
  ca_bundle-IsRead? (some ref) = Triple-context _ (secret_key-IsRead ref)

  load_config-IsLoaded :
      (spec : NetBoxConfig)
      → Triple Any (load_config kube operator_namespace spec) (λ cfg _. IsLoaded spec cfg) Any
  unfolding load_config
  load_config-IsLoaded spec =
      Triple-bind _ _
        (Triple-weaken (λ _ _ h. (tt, h)) (λ _ h. h)
          (Triple-context _ (secret_key-IsRead spec.token_secret_ref)))
        λ token. Triple-given λ read.
          Triple-bind _ _
            (Triple-weaken (λ _ _ h. (tt, h)) (λ _ h. h)
              (ca_bundle-IsRead? spec.tls.ca_bundle_secret_ref))
            λ ca. Triple-given λ read'. Triple-return _ λ s h. (refl, refl, refl, read, read')

  ca_pool_of-IsPool : (ca : String) → Triple Any (ca_pool_of libraries ca) (λ p _. IsPool ca p) Any
  unfolding ca_pool_of
  ca_pool_of-IsPool ca =
      Triple-if (str_eq ca "") _ _ (λ empty. Triple-return none λ s h. empty)
        λ _.
          Triple-if (libraries.has_certs ca) _ _ (λ has. Triple-return (some ca) λ s h. (refl, has))
            λ _. Triple-fail _

  build_client-IsConnected :
      (cfg : Config)
      → Triple Any (build_client libraries cfg) (λ client _. IsConnected cfg client) Any
  unfolding build_client connect
  build_client-IsConnected cfg =
      Triple-if (str_eq cfg.api_token "") _ _ (λ _. Triple-fail _)
        λ given.
          Triple-bind _ _ (Triple-context _ (Triple-result (libraries.parse_url cfg.server_url)))
            λ url. Triple-given λ parsed.
              Triple-bind _ _
                (Triple-weaken (λ _ _ h. (tt, h)) (λ _ h. h) (ca_pool_of-IsPool cfg.ca_cert_pem))
                λ pool. Triple-given λ pooled. Triple-context _ (
                  Triple-weaken
                    (λ client s h. (
                      url,
                      pool,
                      timeout_of cfg,
                      given,
                      parsed,
                      pooled,
                      timeout_of_positive cfg,
                      timeout_of_set cfg,
                      h.1,
                    ))
                    (λ _ h. h) (Triple-result _))

  accept_version-IsSupported :
      (o : Option String) → Triple Any (accept_version libraries o) (λ v _. IsSupported true v) Any
  unfolding accept_version
  accept_version-IsSupported none = Triple-fail _
  accept_version-IsSupported (some raw) =
      Triple-if (str_eq raw "") _ _ (λ _. Triple-fail _)
        λ given. Triple-bind _ _ (Triple-context _ (Triple-result _)) λ supported.
          Triple-given λ is.
            Triple-if supported _ _
              (λ yes. Triple-return raw λ s h. (given, is ∙ ap (λ b. ok b) yes)) λ _. Triple-fail _

  accept_payload-IsSupported :
      (payload : Value)
      → Triple Any (accept_payload libraries payload) (λ v _. IsSupported true v) Any
  unfolding accept_payload
  accept_payload-IsSupported null = Triple-fail _
  accept_payload-IsSupported (boolean b) = Triple-fail _
  accept_payload-IsSupported (number n) = Triple-fail _
  accept_payload-IsSupported (text t) = Triple-fail _
  accept_payload-IsSupported (array items) = Triple-fail _
  accept_payload-IsSupported (object fields) =
      accept_version-IsSupported (as_text (get_field "netbox-version" fields))

  version_of-IsSupported :
      (client : NetBoxApi S) (enabled : Bool)
      → Triple Any
          (version_of kube libraries operator_namespace client enabled)
          (λ v _. IsSupported enabled v)
          Any
  unfolding version_of check_version
  version_of-IsSupported client true =
      Triple-bind _ _ (Triple-context _ (Triple-Any client.status_list))
        λ payload. accept_payload-IsSupported payload
  version_of-IsSupported client false = Triple-return "" λ s h. refl

  -- If the Kubernetes API answers a read of a Secret of the operator's namespace, where it
  -- returns, with what is kept under its name, then a bootstrap that returns gives the client that
  -- was made of a transport to the parsed URL of the spec, with its insecureSkipVerify, a positive
  -- timeout, which is the spec's where that is positive, the token under the key of its reference
  -- in the header, which is not empty, and, if the bundle that is referred to is not empty, that
  -- bundle, which has certificates, as the whole pool, without the system's roots. Its version is
  -- not empty and in the supported range where the check is on, and empty where it is off.
  pub bootstrap-IsVetted :
      (spec : HeraldConfigSpec)
      → Triple Any (bootstrap kube libraries operator_namespace spec) (λ r _. IsVetted spec r) Any
  unfolding bootstrap
  bootstrap-IsVetted spec =
      Triple-bind _ _
        (Triple-weaken (λ _ _ h. (tt, h)) (λ _ h. h) (load_config-IsLoaded spec.netbox))
        λ cfg. Triple-given λ loaded.
          Triple-bind _ _
            (Triple-weaken (λ _ _ h. (tt, h)) (λ _ h. h) (build_client-IsConnected cfg))
            λ client. Triple-given λ connected.
              Triple-bind _ _
                (Triple-weaken (λ _ _ h. (tt, h)) (λ _ h. h)
                  (version_of-IsSupported client spec.netbox.version_check.enabled))
                λ version. Triple-given λ supported.
                  Triple-bind _ _ (Triple-Any (ensure_managed_tag client _)) λ _.
                    Triple-bind _ _ (Triple-Any (ensure_external_id_custom_field client))
                      λ _. Triple-return _ λ s h. (cfg, loaded, connected, supported)
