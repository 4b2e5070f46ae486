-- ===== src/Tests/Counts.antt =====
-- The status of the Services on a world that has a server in memory and the HeraldConfig as the
-- Kubernetes API keeps it.
use netbox_herald.Base.{some, [], ◌∷◌, ok, Exec}
use netbox_herald.Base.Triple.{Triple}
use netbox_herald.Api.Status.{HeraldConfig}
use netbox_herald.Config.{Store}
use netbox_herald.NetBox.Model.{Endpoint, NetBoxApi}
use netbox_herald.NetBox.Services.{ip_address_body}
use netbox_herald.Controller.Kube.{Kube}
use netbox_herald.Server.Tables.{Db}
use netbox_herald.Tests.Specs.{web_spec}
use netbox_herald.Tests.Memory.{memory, fresh_db}
use netbox_herald.Tests.Controllers.{kube, spec, config}

record World : Type 0 where
  db : Db
  herald : HeraldConfig

abbrev lift : {A : Type 0} → Exec Db A → Exec World A
lift m w = ((m w.db).0, record w { db = (m w.db).1 })

abbrev lift_endpoint : {A : Type 0} → Endpoint Db A → Endpoint World A
lift_endpoint objects = record {
  list = λ q. lift (objects.list q);
  create = λ body. lift (objects.create body);
  update = λ id body. lift (objects.update id body);
  delete = λ id. lift (objects.delete id);
}

abbrev lifted : NetBoxApi World
lifted = record {
  status_list = lift memory.status_list;
  tags_list = λ slug. lift (memory.tags_list slug);
  tags_create = λ data'. lift (memory.tags_create data');
  custom_fields_list = λ name. lift (memory.custom_fields_list name);
  custom_fields_create = λ data'. lift (memory.custom_fields_create data');
  sites = λ name. lift (memory.sites name);
  cluster_types = λ name. lift (memory.cluster_types name);
  cluster_groups = λ name. lift (memory.cluster_groups name);
  device_roles = λ name. lift (memory.device_roles name);
  device_types = λ name. lift (memory.device_types name);
  rirs = λ name. lift (memory.rirs name);
  platforms = λ name. lift (memory.platforms name);
  devices = lift_endpoint memory.devices;
  virtual_machines = lift_endpoint memory.virtual_machines;
  clusters = lift_endpoint memory.clusters;
  ip_addresses = lift_endpoint memory.ip_addresses;
  prefixes = lift_endpoint memory.prefixes;
  aggregates = lift_endpoint memory.aggregates;
}

abbrev recorder : Kube World
recorder = record {
  get_herald_config = λ name w. (ok (some w.herald), w);
  update_status = λ cr w. (ok tt, record w { herald = cr });
  get_node = λ name. lift (kube.get_node name);
  list_nodes = lift kube.list_nodes;
  get_service = λ namespace name. lift (kube.get_service namespace name);
  list_services = lift kube.list_services;
  get_namespace_uid = λ name. lift (kube.get_namespace_uid name);
  get_secret = λ namespace name. lift (kube.get_secret namespace name);
  now = λ w. 1;
  set_status_condition = kube.set_status_condition;
}

abbrev web_db : Db
web_db = record fresh_db { ip_addresses = record { id = 2; body = ip_address_body web_spec } ∷ [] }

abbrev store : Store World
store = record { spec = some spec; client = some lifted }

abbrev start : World
start = record { db = web_db; herald = config }
