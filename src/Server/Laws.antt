-- ===== src/Server/Laws.antt =====
-- The laws of the calls. A call that fails has changed nothing: a request is one transaction, and
-- its reply is not lost.
use netbox_herald.Base.{ℕ, ◌≡◌, String, some, List, [], ◌∷◌, ◌++◌, filter, length, Exec}
use netbox_herald.Base.Triple.{Triple}
use netbox_herald.NetBox.Model.{Tag, TagData, Body, Query, Endpoint, Reference, NetBoxApi}
use netbox_herald.NetBox.Tags.{is_text}
use netbox_herald.Server.Tables.{
  Db, Table, matches, listing, IsFresh, write_at, erase_at, devices_table, virtual_machines_table,
  clusters_table, ip_addresses_table, prefixes_table, aggregates_table,
}

module _ {S : Type 0} (db : S → Db) where
  abbrev pub At : Db → S → Type 0
  At d s = db s ≡ d

  -- The four calls on one table; `page` is the server's page size.
  pub record IsEndpoint {A : Type 0} (objects : Endpoint S A) (table : Table A) (page : ℕ)
      : Type 0 where
    pub list_lem :
        (q : Query) (d : Db)
        → Triple
            (At d)
            (objects.list q)
            (λ p s.
              (db s ≡ d)
              × (p.results ≡ listing page q (table.get d))
              × (p.count ≡ some (length (filter (matches q) (table.get d)))))
            (At d)
    pub create_lem :
        (body : Body A) (d : Db)
        → Triple
            (At d)
            (objects.create body)
            (λ o s.
              (o.body ≡ body)
              × IsFresh o.id (table.get d)
              × (db s ≡ table.put (table.get d ++ o ∷ []) d))
            (At d)
    pub update_lem :
        (id : ℕ) (body : Body A) (d : Db)
        → Triple
            (At d)
            (objects.update id body)
            (λ o s. (o.id ≡ id) × (db s ≡ table.put (write_at id body (table.get d)) d))
            (At d)
    pub delete_lem :
        (id : ℕ) (d : Db)
        → Triple
            (At d)
            (objects.delete id)
            (λ _ s. db s ≡ table.put (erase_at id (table.get d)) d)
            (At d)

  -- The list call of a kind that the code only refers to.
  pub record IsLookup (call : String → Exec S (List Reference)) (get : Db → List Reference)
      : Type 0 where
    pub lookup_lem :
        (name : String) (d : Db)
        → Triple
            (At d)
            (call name)
            (λ rs s. (db s ≡ d) × (rs ≡ filter (λ (r : Reference). is_text name r.name) (get d)))
            (At d)

  -- The calls of a client on one server.
  pub record IsServer (client : NetBoxApi S) (page : ℕ) : Type 0 where
    pub tags_list_lem :
        (slug : String) (d : Db)
        → Triple
            (At d)
            (client.tags_list slug)
            (λ tags s. (db s ≡ d) × (tags ≡ filter (λ (t : Tag). is_text slug t.slug) d.tags))
            (At d)
    pub tags_create_lem :
        (data' : TagData) (d : Db)
        → Triple
            (At d)
            (client.tags_create data')
            (λ t s.
              (t.name ≡ data'.name)
              × (t.slug ≡ data'.slug)
              × (db s ≡ record d { tags = d.tags ++ t ∷ [] }))
            (At d)
    pub sites_lem : IsLookup client.sites (λ d. d.sites)
    pub cluster_types_lem : IsLookup client.cluster_types (λ d. d.cluster_types)
    pub cluster_groups_lem : IsLookup client.cluster_groups (λ d. d.cluster_groups)
    pub device_roles_lem : IsLookup client.device_roles (λ d. d.device_roles)
    pub device_types_lem : IsLookup client.device_types (λ d. d.device_types)
    pub rirs_lem : IsLookup client.rirs (λ d. d.rirs)
    pub platforms_lem : IsLookup client.platforms (λ d. d.platforms)
    pub devices_lem : IsEndpoint client.devices devices_table page
    pub virtual_machines_lem : IsEndpoint client.virtual_machines virtual_machines_table page
    pub clusters_lem : IsEndpoint client.clusters clusters_table page
    pub ip_addresses_lem : IsEndpoint client.ip_addresses ip_addresses_table page
    pub prefixes_lem : IsEndpoint client.prefixes prefixes_table page
    pub aggregates_lem : IsEndpoint client.aggregates aggregates_table page
