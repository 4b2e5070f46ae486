-- ===== src/Server/Tables.antt =====
-- The objects that NetBox stores, and what its list, write and delete calls do to them.
use netbox_herald.Base.{
  ℕ, ◌==◌, ◌≡◌, refl, ◌≢◌, String, Bool, true, ◌&&◌, Option, none, some, List, [], ◌∷◌, take,
  filter, any, All, if◌then◌else◌,
}
use netbox_herald.NetBox.Model.{
  Tag, NestedTag, Object, Body, Query, Reference, DeviceData, VirtualMachineData, ClusterData,
  IpAddressData, PrefixData, AggregateData,
}
use netbox_herald.NetBox.Tags.{is_text}

-- One table for each kind that the code writes, and one for each kind that it refers to.
pub record Db : Type 0 where
  pub tags : List Tag
  pub sites : List Reference
  pub cluster_types : List Reference
  pub cluster_groups : List Reference
  pub device_roles : List Reference
  pub device_types : List Reference
  pub rirs : List Reference
  pub platforms : List Reference
  pub devices : List (Object DeviceData)
  pub virtual_machines : List (Object VirtualMachineData)
  pub clusters : List (Object ClusterData)
  pub ip_addresses : List (Object IpAddressData)
  pub prefixes : List (Object PrefixData)
  pub aggregates : List (Object AggregateData)

-- A table of the database: how to read it, and the database with another one in its place.
pub record Table (A : Type 0) : Type 0 where
  pub get : Db → List (Object A)
  pub put : List (Object A) → Db → Db
  pub get-put : (t : List (Object A)) (d : Db) → get (put t d) ≡ t
  pub put-get : (d : Db) → put (get d) d ≡ d
  pub put-put : (t u : List (Object A)) (d : Db) → put t (put u d) ≡ put t d
  -- The tags are another table.
  pub get-tags : (tags : List Tag) (d : Db) → get (record d { tags = tags }) ≡ get d
  pub tags-put : (t : List (Object A)) (d : Db) → (put t d).tags ≡ d.tags
  pub put-tags :
      (t : List (Object A)) (tags : List Tag) (d : Db)
      → put t (record d { tags = tags }) ≡ record (put t d) { tags = tags }

-- the most results that a list call returns: its limit, or the server's page size
abbrev pub page_of : ℕ → Query → ℕ
page_of page q = elim q.limit [ none ↦ page | some n ↦ n ]

module _ {A : Type 0} where
  -- the object carries a tag with the slug
  unfoldable pub has_tag : String → Object A → Bool
  has_tag slug o = any (λ (t : NestedTag). is_text slug t.slug) o.body.tags

  abbrev matches_tag : Option String → Object A → Bool
  matches_tag none o = true
  matches_tag (some slug) o = has_tag slug o

  abbrev matches_name : Option String → Object A → Bool → Bool
  matches_name none o rest = rest
  matches_name (some name) o rest = is_text name o.body.name && rest

  -- the filters of a list call
  abbrev pub matches : Query → Object A → Bool
  matches q o = matches_name q.name o (matches_tag q.tag o)

  -- the results of a list call: the first page of what matches
  abbrev pub listing : ℕ → Query → List (Object A) → List (Object A)
  listing page q t = take (page_of page q) (filter (matches q) t)

  abbrev pub has_id : ℕ → Object A → Bool
  has_id id o = o.id == id

  abbrev pub IsFresh : ℕ → List (Object A) → Type 0
  IsFresh id = All (λ o. o.id ≢ id)

  abbrev pub replace_body : ℕ → Body A → Object A → Object A
  replace_body id body o = if has_id id o then record o { body = body } else o

  -- a PUT of the object with the id
  unfoldable pub write_at : ℕ → Body A → List (Object A) → List (Object A)
  write_at id body [] = []
  write_at id body (o ∷ os) = replace_body id body o ∷ write_at id body os

  -- a DELETE of the object with the id
  unfoldable pub erase_at : ℕ → List (Object A) → List (Object A)
  erase_at id [] = []
  erase_at id (o ∷ os) = let rest = erase_at id os in if has_id id o then rest else o ∷ rest

  -- no two objects of a table share an id
  abbrev pub UniqueIds : List (Object A) → Type 0
  UniqueIds [] = Unit
  UniqueIds (o ∷ os) = IsFresh o.id os × UniqueIds os

abbrev pub devices_table : Table DeviceData
devices_table = record {
  get = λ d. d.devices;
  put = λ t d. record d { devices = t };
  get-put = λ t d. refl;
  put-get = λ d. refl;
  put-put = λ t u d. refl;
  get-tags = λ tags d. refl;
  tags-put = λ t d. refl;
  put-tags = λ t tags d. refl;
}

abbrev pub virtual_machines_table : Table VirtualMachineData
virtual_machines_table = record {
  get = λ d. d.virtual_machines;
  put = λ t d. record d { virtual_machines = t };
  get-put = λ t d. refl;
  put-get = λ d. refl;
  put-put = λ t u d. refl;
  get-tags = λ tags d. refl;
  tags-put = λ t d. refl;
  put-tags = λ t tags d. refl;
}

abbrev pub clusters_table : Table ClusterData
clusters_table = record {
  get = λ d. d.clusters;
  put = λ t d. record d { clusters = t };
  get-put = λ t d. refl;
  put-get = λ d. refl;
  put-put = λ t u d. refl;
  get-tags = λ tags d. refl;
  tags-put = λ t d. refl;
  put-tags = λ t tags d. refl;
}

abbrev pub ip_addresses_table : Table IpAddressData
ip_addresses_table = record {
  get = λ d. d.ip_addresses;
  put = λ t d. record d { ip_addresses = t };
  get-put = λ t d. refl;
  put-get = λ d. refl;
  put-put = λ t u d. refl;
  get-tags = λ tags d. refl;
  tags-put = λ t d. refl;
  put-tags = λ t tags d. refl;
}

abbrev pub prefixes_table : Table PrefixData
prefixes_table = record {
  get = λ d. d.prefixes;
  put = λ t d. record d { prefixes = t };
  get-put = λ t d. refl;
  put-get = λ d. refl;
  put-put = λ t u d. refl;
  get-tags = λ tags d. refl;
  tags-put = λ t d. refl;
  put-tags = λ t tags d. refl;
}

abbrev pub aggregates_table : Table AggregateData
aggregates_table = record {
  get = λ d. d.aggregates;
  put = λ t d. record d { aggregates = t };
  get-put = λ t d. refl;
  put-get = λ d. refl;
  put-put = λ t u d. refl;
  get-tags = λ tags d. refl;
  tags-put = λ t d. refl;
  put-tags = λ t tags d. refl;
}
