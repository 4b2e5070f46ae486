-- ===== src/Tests/Memory.antt =====
-- A NetBox server in memory, whose states are its databases.
use netbox_herald.Base.{
  ℕ, suc, ◌<◌, ◌≤◌, refl, ap, arith, String, some, List, [], ◌∷◌, ◌++◌, length, filter, All,
  All-map, ok, Exec, ltb, if◌then◌else◌,
}
use netbox_herald.NetBox.Model.{
  object, field, text, end, Tag, TagData, Object, Endpoint, Reference, NetBoxApi,
}
use netbox_herald.NetBox.Tags.{is_text}
use netbox_herald.Server.Tables.{
  Db, Table, matches, listing, IsFresh, write_at, erase_at, devices_table, virtual_machines_table,
  clusters_table, ip_addresses_table, prefixes_table, aggregates_table,
}
use netbox_herald.Server.Laws.{IsEndpoint, IsLookup, IsServer}

abbrev pub server_page : ℕ
server_page = 50

module _ {A : Type 0} where
  -- a number above every id
  abbrev next_id : List (Object A) → ℕ
  next_id [] = 1
  next_id (o ∷ os) = let n = next_id os in if ltb o.id n then n else suc o.id

  ids_below : (t : List (Object A)) (n : ℕ) → next_id t ≤ n → All (λ (o : Object A). o.id < n) t
  ids_below [] n h = tt
  ids_below (o ∷ t) n h = (ground arith, ids_below t n (ground arith))

  next_id-IsFresh : (t : List (Object A)) → IsFresh (next_id t) t
  next_id-IsFresh t =
      All-map t (λ o below same. absurd (omega arith)) (ids_below t (next_id t) (omega arith))

module _ {A : Type 0} (table : Table A) where
  abbrev memory_endpoint : Endpoint Db A
  memory_endpoint = record {
    list = λ q d. (
      ok (record {
        count = some (length (filter (matches q) (table.get d)));
        results = listing server_page q (table.get d);
      }),
      d,
    );
    create = λ body d.
        let o : Object A = record { id = next_id (table.get d); body = body } in
        (ok o, table.put (table.get d ++ o ∷ []) d);
    update = λ id body d.
        (ok (record { id = id; body = body }), table.put (write_at id body (table.get d)) d);
    delete = λ id d. (ok tt, table.put (erase_at id (table.get d)) d);
  }

  memory_endpoint-IsEndpoint : IsEndpoint (λ (d : Db). d) memory_endpoint table server_page
  memory_endpoint-IsEndpoint = record {
    list_lem = λ q d. record {
      run = λ s e. (
        e,
        ap (λ k. listing server_page q (table.get k)) e,
        ap (λ k. some (length (filter (matches q) (table.get k)))) e,
      );
    };
    create_lem =
        λ body d. record { run = λ s e. rw (← e) (refl, next_id-IsFresh (table.get s), refl) };
    update_lem = λ id body d. record {
      run = λ s e. (refl, ap (λ k. table.put (write_at id body (table.get k)) k) e);
    };
    delete_lem =
        λ id d. record { run = λ s e. ap (λ k. table.put (erase_at id (table.get k)) k) e };
  }

abbrev memory_lookup : (Db → List Reference) → String → Exec Db (List Reference)
memory_lookup get name d = (ok (filter (λ r. is_text name r.name) (get d)), d)

memory_lookup-IsLookup :
    (get : Db → List Reference) → IsLookup (λ (d : Db). d) (memory_lookup get) get
memory_lookup-IsLookup get = record {
  lookup_lem = λ name d. record {
    run = λ s e. (e, ap (λ k. filter (λ (r : Reference). is_text name r.name) (get k)) e);
  };
}

abbrev new_tag : TagData → Tag
new_tag data' = record { id = 1; name = data'.name; slug = data'.slug }

abbrev pub memory : NetBoxApi Db
memory = record {
  status_list = λ d. (ok (object (field "netbox-version" (text "4.3.0") end)), d);
  tags_list = λ slug d. (ok (filter (λ (t : Tag). is_text slug t.slug) d.tags), d);
  tags_create = λ data' d. (ok (new_tag data'), record d { tags = d.tags ++ new_tag data' ∷ [] });
  custom_fields_list = λ name d. (ok [], d);
  custom_fields_create = λ data' d. (ok (record { name = data'.name }), d);
  sites = memory_lookup (λ d. d.sites);
  cluster_types = memory_lookup (λ d. d.cluster_types);
  cluster_groups = memory_lookup (λ d. d.cluster_groups);
  device_roles = memory_lookup (λ d. d.device_roles);
  device_types = memory_lookup (λ d. d.device_types);
  rirs = memory_lookup (λ d. d.rirs);
  platforms = memory_lookup (λ d. d.platforms);
  devices = memory_endpoint devices_table;
  virtual_machines = memory_endpoint virtual_machines_table;
  clusters = memory_endpoint clusters_table;
  ip_addresses = memory_endpoint ip_addresses_table;
  prefixes = memory_endpoint prefixes_table;
  aggregates = memory_endpoint aggregates_table;
}

pub memory-IsServer : IsServer (λ (d : Db). d) memory server_page
memory-IsServer = record {
  tags_list_lem = λ slug d. record {
    run = λ s e. (e, ap (λ (k : Db). filter (λ (t : Tag). is_text slug t.slug) k.tags) e);
  };
  tags_create_lem = λ data' d. record {
    run = λ s e. (refl, refl, ap (λ (k : Db). record k { tags = k.tags ++ new_tag data' ∷ [] }) e);
  };
  sites_lem = memory_lookup-IsLookup (λ d. d.sites);
  cluster_types_lem = memory_lookup-IsLookup (λ d. d.cluster_types);
  cluster_groups_lem = memory_lookup-IsLookup (λ d. d.cluster_groups);
  device_roles_lem = memory_lookup-IsLookup (λ d. d.device_roles);
  device_types_lem = memory_lookup-IsLookup (λ d. d.device_types);
  rirs_lem = memory_lookup-IsLookup (λ d. d.rirs);
  platforms_lem = memory_lookup-IsLookup (λ d. d.platforms);
  devices_lem = memory_endpoint-IsEndpoint devices_table;
  virtual_machines_lem = memory_endpoint-IsEndpoint virtual_machines_table;
  clusters_lem = memory_endpoint-IsEndpoint clusters_table;
  ip_addresses_lem = memory_endpoint-IsEndpoint ip_addresses_table;
  prefixes_lem = memory_endpoint-IsEndpoint prefixes_table;
  aggregates_lem = memory_endpoint-IsEndpoint aggregates_table;
}

abbrev pub reference : ℕ → String → Reference
reference id name = record { id = id; name = some name }

-- a server with what a cluster's administrator has set up, and nothing of Herald's yet
abbrev pub fresh_db : Db
fresh_db = record {
  tags = [];
  sites = reference 3 "berlin" ∷ [];
  cluster_types = reference 4 "Kubernetes" ∷ [];
  cluster_groups = [];
  device_roles = reference 5 "node" ∷ [];
  device_types = reference 6 "server" ∷ [];
  rirs = reference 7 "RFC 1918" ∷ [];
  platforms = [];
  devices = [];
  virtual_machines = [];
  clusters = [];
  ip_addresses = [];
  prefixes = [];
  aggregates = [];
}
