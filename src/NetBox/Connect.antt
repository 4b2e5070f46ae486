-- ===== src/NetBox/Connect.antt =====
-- internal/netbox/config.go, client.go and version.go: from a spec to a client of a NetBox whose
-- version is supported.
use netbox_herald.Base.{
  ◌+◌, ◌-◌, ◌*◌, String, ◌<>◌, Bool, Option, none, some, List, [], ◌∷◌, str_eq, starts_with,
  foreign, message, wrapped, Result, Exec, pure, fail, context, ◌>>=◌, if◌then◌else◌,
}
use netbox_herald.Base.Int.{ℤ, pos, negsuc, is_nonpositive}
use netbox_herald.Api.Spec.{SecretKeyRef, NetBoxConfig}
use netbox_herald.NetBox.Model.{Value, object, NetBoxApi}
use netbox_herald.NetBox.ExternalId.{get_field, as_text}
use netbox_herald.Controller.Kube.{Kube}

-- `netbox.Config`; the bytes of a Secret are a text here, and an absent CA bundle is empty.
pub record Config : Type 0 where
  pub server_url : String
  pub api_token : String
  pub insecure_skip_verify : Bool
  pub ca_cert_pem : String
  pub request_timeout : ℤ

-- `time.Duration(seconds) * time.Second`, of an int32, which cannot overflow
unfoldable pub seconds : ℤ → ℤ
seconds (pos n) = pos (n * 1_000_000_000)
seconds (negsuc n) = negsuc ((n + 1) * 1_000_000_000 - 1)

-- `value, ok := secret.Data[key]`
unfoldable pub get_key : String → List (String × String) → Option String
get_key key [] = none
get_key key ((k, v) ∷ rest) = if str_eq k key then some v else get_key key rest

-- An empty key stands for "token".
abbrev pub key_of : SecretKeyRef → String
key_of ref = if str_eq ref.key "" then "token" else ref.key

module _ {S : Type 0} (kube : Kube S) (namespace : String) where
  unfoldable pub value_or_fail : SecretKeyRef → Option (List (String × String)) → Exec S String
  value_or_fail ref none =
      fail (wrapped "getting secret %s/%s" (namespace ∷ ref.name ∷ []) (foreign "not found"))
  value_or_fail ref (some entries) = elim (get_key (key_of ref) entries) [
    | none ↦ fail (message "secret %s/%s has no key %q" (namespace ∷ ref.name ∷ key_of ref ∷ []))
    | some value ↦ pure value
  ]

  unfoldable pub secret_key : SecretKeyRef → Exec S String
  unfolding value_or_fail get_key
  secret_key ref = do
    found ←
        context (wrapped "getting secret %s/%s" (namespace ∷ ref.name ∷ []))
          (kube.get_secret namespace ref.name)
    value_or_fail ref found

  unfoldable pub ca_bundle : Option SecretKeyRef → Exec S String
  unfolding secret_key
  ca_bundle none = pure ""
  ca_bundle (some ref) =
      context (wrapped "resolving netbox.tls.caBundleSecretRef" []) (secret_key ref)

  unfoldable pub load_config : NetBoxConfig → Exec S Config
  unfolding secret_key ca_bundle seconds
  load_config spec = do
    token ←
        context (wrapped "resolving netbox.tokenSecretRef" []) (secret_key spec.token_secret_ref)
    ca ← ca_bundle spec.tls.ca_bundle_secret_ref
    pure (record {
      server_url = spec.url;
      api_token = token;
      insecure_skip_verify = spec.tls.insecure_skip_verify;
      ca_cert_pem = ca;
      request_timeout = seconds spec.request_timeout_seconds;
    })

-- `url.URL`
pub record Url : Type 0 where
  pub scheme : String
  pub host : String
  pub path : String

-- What the transport is built of.
pub record Transport : Type 0 where
  pub url : Url
  pub insecure_skip_verify : Bool
  pub ca_pool : Option String
  pub timeout : ℤ
  -- the value of the header "Authorization"
  pub authorization : String

-- The packages that build a client: urlx, x509, the go-openapi runtime, and semver.
pub record Libraries (S : Type 0) : Type 0 where
  pub parse_url : String → Result Url
  -- `pool.AppendCertsFromPEM`
  pub has_certs : String → Bool
  -- `TLSTransport` and `netboxclient.New`
  pub new_client : Transport → Result (NetBoxApi S)
  -- `semver.NewVersion` of the second text, checked against the constraint of the first
  pub check_semver : String → String → Result Bool

abbrev pub supported_version_range : String
supported_version_range = ">= 4.3.0, < 5.0.0"

abbrev pub default_request_timeout : ℤ
default_request_timeout = pos 30_000_000_000

unfoldable pub auth_scheme : String → String
auth_scheme token = if starts_with token "nbt_" then "Bearer" else "Token"

unfoldable pub timeout_of : Config → ℤ
timeout_of cfg =
    if is_nonpositive cfg.request_timeout then default_request_timeout else cfg.request_timeout

module _ {S : Type 0} (libraries : Libraries S) where
  -- the branch on `len(cfg.CACertPEM) > 0`
  unfoldable pub ca_pool_of : String → Exec S (Option String)
  ca_pool_of pem =
      if str_eq pem ""
      then pure none
      else if libraries.has_certs pem
      then pure (some pem)
      else fail (message "no valid certificates found in CA bundle" [])

  unfoldable pub connect : Config → Exec S (NetBoxApi S)
  unfolding ca_pool_of auth_scheme timeout_of
  connect cfg = do
    url ←
        context (wrapped "parsing NetBox server URL" [])
          (λ s. (libraries.parse_url cfg.server_url, s))
    pool ← ca_pool_of cfg.ca_cert_pem
    context (wrapped "building TLS transport" []) λ s. (
      libraries.new_client (record {
        url = url;
        insecure_skip_verify = cfg.insecure_skip_verify;
        ca_pool = pool;
        timeout = timeout_of cfg;
        authorization = auth_scheme cfg.api_token <> (" " <> cfg.api_token);
      }),
      s,
    )

  -- `Config.Client`
  unfoldable pub build_client : Config → Exec S (NetBoxApi S)
  unfolding connect
  build_client cfg =
      if str_eq cfg.api_token "" then fail (message "missing NetBox API token" []) else connect cfg

  -- what follows the read of "netbox-version"; an empty text counts as missing
  unfoldable pub accept_version : Option String → Exec S String
  accept_version none = fail (message "NetBox status response missing netbox-version" [])
  accept_version (some raw) =
      if str_eq raw ""
      then fail (message "NetBox status response missing netbox-version" [])
      else do
        supported ←
            context (wrapped "parsing NetBox version %q" (raw ∷ []))
              (λ s. (libraries.check_semver supported_version_range raw, s))
        if supported
            then pure raw
            else fail (
                message "NetBox version %s does not satisfy supported range %s"
                  (raw ∷ supported_version_range ∷ []))

  -- the type assertion of the payload
  unfoldable pub accept_payload : Value → Exec S String
  unfolding accept_version get_field
  accept_payload (object fields) = accept_version (as_text (get_field "netbox-version" fields))
  accept_payload _ = fail (message "unexpected NetBox status response shape" [])

  unfoldable pub check_version : NetBoxApi S → Exec S String
  unfolding accept_payload
  check_version client = do
    payload ← context (wrapped "fetching NetBox status" []) client.status_list
    accept_payload payload
