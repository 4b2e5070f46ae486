-- ===== src/Tests/Resyncs.antt =====
-- A reconcile of a Service that is there, with a server in memory that answers every call.
use netbox_herald.Base.{◌≡◌, refl, some, inr, ok}
use mathlib.Core.Option.{some-injective}
use mathlib.Core.Path.{subst}
use netbox_herald.NetBox.Model.{NetBoxApi}
use netbox_herald.Controller.Kube.{Kube}
use netbox_herald.Controller.ServiceController.{reconcile_service}
use netbox_herald.Server.Tables.{Db}
use netbox_herald.Sync.Works.{Returns, IsUp}
use netbox_herald.Sync.Resyncs.{IsAnswering, IsResync, reconcile_service-Returns}
use netbox_herald.Tests.Memory.{memory}
use netbox_herald.Tests.Services.{memory-IsUp, parse_any, parsed_any}
use netbox_herald.Tests.Controllers.{kube, spec, filled, web}

-- a cluster that has the Service
abbrev kube_web : Kube Db
kube_web = record kube { get_service = λ namespace name d. (ok (some web), d) }

kube_web-IsAnswering : IsAnswering kube_web
kube_web-IsAnswering = record {
  get_herald_config_works = λ name. record { run = λ s h. tt };
  update_status_works = λ cr. record { run = λ s h. tt };
}

filled-IsUp : (client : NetBoxApi Db) → filled.client ≡ some client → IsUp client
filled-IsUp client stored = subst IsUp (some-injective memory client stored) memory-IsUp

reconcile_service-Returns_example :
    Returns (IsResync spec) (reconcile_service parse_any kube_web filled filled "default" "web")
reconcile_service-Returns_example =
    reconcile_service-Returns kube_web kube_web-IsAnswering filled filled-IsUp memory memory-IsUp
      spec parse_any filled refl refl "default" "web"
      (record { run = λ s h. (web, refl, (inr (parsed_any, refl), tt)) })
