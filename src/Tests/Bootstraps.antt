-- ===== src/Tests/Bootstraps.antt =====
-- A bootstrap with a token, a CA bundle and the version check.
use netbox_herald.Base.{
  String, Option, true, none, some, List, [], ◌∷◌, ok, refl, str_eq, if◌then◌else◌,
}
use netbox_herald.Base.Triple.{Triple}
use netbox_herald.Api.Spec.{HeraldConfigSpec}
use netbox_herald.Controller.Kube.{Kube}
use netbox_herald.Controller.HeraldConfigController.{bootstrap}
use netbox_herald.Controller.Bootstraps.{Any, IsVetted, bootstrap-IsVetted}
use netbox_herald.Server.Tables.{Db}
use netbox_herald.Base.{◌≡◌}
use netbox_herald.Controller.Common.{resolve_managed_tag_slug}
use netbox_herald.Controller.HeraldConfigController.{version_of}
use netbox_herald.NetBox.ExternalId.{get_field}
use netbox_herald.NetBox.Tags.{ensure_managed_tag}
use netbox_herald.NetBox.CustomFields.{ensure_external_id_custom_field}
use netbox_herald.NetBox.Connect.{
  load_config, secret_key, value_or_fail, get_key, ca_bundle, build_client, connect, ca_pool_of,
  auth_scheme, timeout_of, seconds, check_version, accept_payload, accept_version,
}
use netbox_herald.Tests.Memory.{memory, fresh_db}
use netbox_herald.Tests.Controllers.{kube, libraries, spec}

abbrev secret_of : String → Option (List (String × String))
secret_of name =
    if str_eq name "netbox"
    then some (("token", "nbt_secret") ∷ [])
    else if str_eq name "netbox-ca"
    then some (("ca.crt", "-----BEGIN CERTIFICATE-----") ∷ [])
    else none

abbrev keeper : Kube Db
keeper = record kube { get_secret = λ namespace name d. (ok (secret_of name), d) }

abbrev checked_spec : HeraldConfigSpec
checked_spec = record spec {
  netbox = record spec.netbox {
    tls = record spec.netbox.tls {
      ca_bundle_secret_ref = some (record { name = "netbox-ca"; key = "ca.crt" });
    };
    version_check = record { enabled = true };
  };
}

bootstrap-IsVetted_example :
    Triple Any
      (bootstrap keeper libraries "herald" checked_spec)
      (λ r _.
        IsVetted keeper libraries "herald" secret_of
          (λ name. record { run = λ s h. refl })
          checked_spec
          r)
      Any
bootstrap-IsVetted_example =
    bootstrap-IsVetted keeper libraries "herald" secret_of (λ name. record { run = λ s h. refl })
      checked_spec

-- It returns the client and the version.
bootstrap_run : (bootstrap keeper libraries "herald" checked_spec fresh_db).0 ≡ ok (memory, "4.3.0")
unfolding bootstrap load_config secret_key value_or_fail get_key ca_bundle build_client connect
    ca_pool_of auth_scheme timeout_of seconds version_of check_version accept_payload accept_version
    get_field ensure_managed_tag ensure_external_id_custom_field resolve_managed_tag_slug
bootstrap_run = refl
