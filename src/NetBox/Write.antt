-- ===== src/NetBox/Write.antt =====
-- The calls that internal/netbox/node.go, cluster.go, service.go and podcidr.go write out once for
-- each kind of objects: here once, over the endpoint of the kind and its messages.
use netbox_herald.Base.{
  ℕ, String, Option, none, some, List, [], ◌∷◌, find?, filter, wrapped, wrapped_id, Exec, pure,
  context, ◌>>=◌, ◌>>◌,
}
use netbox_herald.NetBox.Model.{Object, Body, Query, Endpoint}
use netbox_herald.NetBox.ExternalId.{has_external_id, has_id_prefix}

-- the list call with `WithTag` alone
abbrev pub tagged : String → Query
tagged slug = record { tag = some slug; name = none; limit = none }

-- with `WithTag` and `WithName`
abbrev pub tagged_named : String → String → Query
tagged_named slug name = record { tag = some slug; name = some name; limit = none }

-- `if resp.Payload.Count == nil { return 0, nil }`
unfoldable pub count_or_zero : Option ℕ → ℕ
count_or_zero none = 0
count_or_zero (some n) = n

module _ {S A : Type 0} (objects : Endpoint S A) where
  -- `findDeviceByExternalID` and its like: the first listed object with the external id.
  unfoldable pub find_by_external_id : String → String → String → Exec S (Option (Object A))
  unfolding has_external_id
  find_by_external_id listing slug external_id = do
    page ← context (wrapped listing []) (objects.list (tagged slug))
    pure (find? (has_external_id external_id) page.results)

  -- The end of each Ensure function: an update in place, or a creation; the id of the result.
  unfoldable pub write_object : String → String → String → Option (Object A) → Body A → Exec S ℕ
  write_object updating creating shown (some existing) body = do
    o ← context (wrapped_id updating (shown ∷ []) existing.id) (objects.update existing.id body)
    pure o.id
  write_object updating creating shown none body = do
    o ← context (wrapped creating (shown ∷ [])) (objects.create body)
    pure o.id

  -- `deleteDevice` and its like
  unfoldable pub delete_object : String → ℕ → Exec S Unit
  delete_object deleting id = context (wrapped_id deleting [] id) (objects.delete id)

  -- `if existing == nil { return nil }`, then the deletion
  unfoldable pub delete_found : String → Option (Object A) → Exec S Unit
  unfolding delete_object
  delete_found deleting none = pure tt
  delete_found deleting (some existing) = delete_object deleting existing.id

  unfoldable pub delete_by_external_id : String → String → String → String → Exec S Unit
  unfolding find_by_external_id delete_found
  delete_by_external_id listing deleting slug external_id = do
    existing ← find_by_external_id listing slug external_id
    delete_found deleting existing

  -- The listed objects whose external id has the prefix.
  unfoldable pub list_by_id_prefix : String → String → String → Exec S (List (Object A))
  unfolding has_id_prefix
  list_by_id_prefix listing slug prefix = do
    page ← context (wrapped listing []) (objects.list (tagged slug))
    pure (filter (has_id_prefix prefix) page.results)

  -- The loop over the owned objects; the first failure ends it.
  unfoldable pub delete_all : String → List (Object A) → Exec S Unit
  unfolding delete_object
  delete_all deleting [] = pure tt
  delete_all deleting (o ∷ os) = do delete_object deleting o.id; delete_all deleting os

  -- `CountManaged…`: a list call with limit 1, for its count.
  unfoldable pub count_managed : String → String → Exec S ℕ
  unfolding count_or_zero
  count_managed listing slug = do
    page ←
        context (wrapped listing [])
          (objects.list (record { tag = some slug; name = none; limit = some 1 }))
    pure (count_or_zero page.count)
