-- ===== src/Tests/Sequences.antt =====
-- A sequence of calls, and the abstract state that it leaves.
use netbox_herald.Base.{refl, arith, String, List, [], ◌∷◌}
use netbox_herald.Server.Tables.{Db}
use netbox_herald.Refinement.View.{view, IsReady}
use netbox_herald.Refinement.Calls.{Call, put_device, put_address, drop_device}
use netbox_herald.Refinement.Runs.{perform_all, Replays, perform_all-Replays}
use netbox_herald.Tests.Specs.{device_spec, web_spec}
use netbox_herald.Tests.Memory.{server_page, memory, memory-IsServer, fresh_db}

abbrev slug : String
slug = "netbox-herald-managed"

abbrev self : Db → Db
self d = d

abbrev calls : List Call
calls = put_device device_spec ∷ put_address web_spec ∷ drop_device "8a1f" ∷ []

fresh-IsReady : IsReady server_page slug 3 fresh_db
fresh-IsReady = record {
  devices_fit = ((tt, λ e. omega arith), omega arith);
  virtual_machines_fit = ((tt, λ e. omega arith), omega arith);
  clusters_fit = ((tt, λ e. omega arith), omega arith);
  ip_addresses_fit = ((tt, λ e. omega arith), omega arith);
  prefixes_fit = ((tt, λ e. omega arith), omega arith);
  aggregates_fit = ((tt, λ e. omega arith), omega arith);
}

perform_all-Replays_example :
    IsReady server_page slug 0 (perform_all memory slug calls fresh_db).1
    × Replays calls
        (perform_all memory slug calls fresh_db).0
        (view slug fresh_db)
        (view slug (perform_all memory slug calls fresh_db).1)
perform_all-Replays_example =
    perform_all-Replays self memory server_page memory-IsServer slug calls fresh_db
      (refl, (refl, (tt, tt))) fresh-IsReady
