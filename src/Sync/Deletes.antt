-- ===== src/Sync/Deletes.antt =====
-- The deletions by prefix on a lawful server, and the ids that they list by.
use netbox_herald.Base.{
  ℕ, ◌≤◌, ◌≡◌, ◌>>=◌, refl, sym, ap, ◌∙◌, String, true, not, Option, none, some, length, filter,
  take, starts_with,
}
use netbox_herald.Base.Triple.{Triple, Triple-bind, Triple-given, Triple-weaken}
use netbox_herald.NetBox.Model.{
  Value, null, boolean, number, text, array, object, Object, Endpoint, NetBoxApi,
}
use netbox_herald.NetBox.ExternalId.{
  external_id_field_name, get_field, as_text, read_external_id, id_starts_with, has_id_prefix,
  service_external_id_prefix,
}
use netbox_herald.NetBox.Write.{list_by_id_prefix, delete_all}
use netbox_herald.NetBox.Services.{list_service_ips, delete_service_ips}
use netbox_herald.Controller.Prune.{text_or_empty, owned_id}
use netbox_herald.Server.Tables.{Db, Table, UniqueIds, has_tag, ip_addresses_table}
use netbox_herald.Server.Laws.{At, IsEndpoint, IsServer}
use netbox_herald.Server.Calls.{erase_all, list_by_id_prefix_lem, delete_all_lem}
use netbox_herald.Server.Erase.{is_owned, owned_all, erase_all-filter}

abbrev pub IsOwnedId : String → Value → Type 0
IsOwnedId prefix fields =
    (id : String) × (owned_id fields ≡ some id)
    × (read_external_id fields ≡ some id)
    × (starts_with id prefix ≡ true)

owned_id_of_text :
    (prefix : String) (o : Option String)
    → id_starts_with prefix o ≡ true
    → (id : String) × (o ≡ some id) × (text_or_empty o ≡ id) × (starts_with id prefix ≡ true)
owned_id_of_text prefix none h = cc h
owned_id_of_text prefix (some id) h = (id, refl, refl, h)

IsOwnedId-of_value :
    (prefix : String) (fields : Value)
    → id_starts_with prefix (read_external_id fields) ≡ true
    → IsOwnedId prefix fields
unfolding owned_id read_external_id
IsOwnedId-of_value prefix null h = cc h
IsOwnedId-of_value prefix (boolean b) h = cc h
IsOwnedId-of_value prefix (number n) h = cc h
IsOwnedId-of_value prefix (text t) h = cc h
IsOwnedId-of_value prefix (array vs) h = cc h
IsOwnedId-of_value prefix (object fields) h =
    let (id, e, same, starts) =
      owned_id_of_text prefix (as_text (get_field external_id_field_name fields)) h in
    (id, ap some same, e, starts)

-- The unchecked type assertions of the pruning loops succeed on every object that the listing by
-- prefix returns, and read the external id that it was listed by.
pub IsOwnedId-has_id_prefix :
    {A : Type 0} (prefix : String) (o : Object A)
    → has_id_prefix prefix o ≡ true
    → IsOwnedId prefix o.body.custom_fields
unfolding has_id_prefix
IsOwnedId-has_id_prefix prefix o h = IsOwnedId-of_value prefix o.body.custom_fields h

module _ {S A : Type 0} (db : S → Db) (objects : Endpoint S A) (table : Table A) (page : ℕ)
    (lawful : IsEndpoint db objects table page) where
  pub delete_owned_lem :
      (listing_message deleting slug prefix : String) (d : Db)
      → UniqueIds (table.get d)
      → length (filter (has_tag slug) (table.get d)) ≤ page
      → Triple
          (At db d)
          (do
            os ← list_by_id_prefix objects listing_message slug prefix
            delete_all objects deleting os)
          (λ _ s. db s ≡ table.put (filter (λ o. not (is_owned slug prefix o)) (table.get d)) d)
          (λ s.
            (n : ℕ) × (db s
              ≡ table.put
                  (erase_all (take n (filter (is_owned slug prefix) (table.get d))) (table.get d))
                  d))
  delete_owned_lem l deleting slug prefix d u room =
      Triple-bind _ _
        (Triple-weaken (λ _ s h. h) (λ s h. (0, h ∙ sym (table.put-get d)))
          (list_by_id_prefix_lem db objects table page lawful l slug prefix d))
        λ os. Triple-given λ e.
          let all : os ≡ filter (is_owned slug prefix) (table.get d) =
            e ∙ owned_all page slug prefix (table.get d) room in
          Triple-weaken
            (λ _ s h.
              h
              ∙ ap (λ k. table.put k d)
                  (ap (λ k. erase_all k (table.get d)) all
                    ∙ erase_all-filter (is_owned slug prefix) (table.get d) u))
            (λ s (n, h). (n, h ∙ ap (λ k. table.put (erase_all (take n k) (table.get d)) d) all))
            (delete_all_lem db objects table page lawful deleting os d)

module _ {S : Type 0} (db : S → Db) (client : NetBoxApi S) (page : ℕ)
    (server : IsServer db client page) (slug : String) (d : Db) where
  -- On a server that keeps NetBox's documented laws, if ids are unique and the managed addresses
  -- fit on one page: a run of DeleteServiceIPs that returns leaves exactly the addresses that are
  -- not managed or lack the Service's prefix, and the rest of the database; one that fails has
  -- done the first deletions, in the order of the listing.
  pub delete_service_ips_exact :
      (namespace name : String)
      → UniqueIds d.ip_addresses
      → length (filter (has_tag slug) d.ip_addresses) ≤ page
      → Triple
          (At db d)
          (delete_service_ips client slug namespace name)
          (λ _ s. db s ≡ record d {
            ip_addresses =
                filter
                  (λ o. not (is_owned slug (service_external_id_prefix namespace name) o))
                  d.ip_addresses;
          })
          (λ s.
            (n : ℕ) × (db s ≡ record d {
              ip_addresses =
                  erase_all
                    (take n (
                      filter
                        (is_owned slug (service_external_id_prefix namespace name))
                        d.ip_addresses))
                    d.ip_addresses;
            }))
  unfolding delete_service_ips list_service_ips
  delete_service_ips_exact namespace name u room =
      delete_owned_lem db client.ip_addresses ip_addresses_table page server.ip_addresses_lem _ _
        slug (service_external_id_prefix namespace name) d u room
