-- ===== src/Sync/Names.antt =====
-- The deletions by name, which serve a Node that is gone, on a lawful server.
use netbox_herald.Base.{
  ℕ, ◌≤◌, ◌≡◌, ap, ◌∙◌, ◌⊎◌, inl, inr, arith, String, Bool, not, ◌&&◌, List, length, filter, find?,
  take_all, Error, context, ◌>>=◌, [], ◌∷◌,
}
use netbox_herald.Base.Triple.{Triple, Triple-bind, Triple-context, Triple-given, Triple-weaken}
use netbox_herald.NetBox.Model.{Object, Endpoint, NetBoxApi}
use netbox_herald.NetBox.Tags.{is_text}
use netbox_herald.NetBox.Write.{tagged_named, delete_found}
use netbox_herald.NetBox.Nodes.{delete_device_by_name, delete_virtual_machine_by_name}
use netbox_herald.Controller.NodeController.{delete_node_by_name}
use netbox_herald.Server.Tables.{
  Db, Table, UniqueIds, matches, listing, devices_table, virtual_machines_table,
}
use netbox_herald.Server.Laws.{At, IsEndpoint, IsServer}
use netbox_herald.Server.Calls.{erase_found, delete_found_lem}
use netbox_herald.Server.Erase.{filter-filter, erase_all-filter}
use netbox_herald.Sync.Removals.{erase_found-first_of}
use netbox_herald.Server.Registry.{first_of, find?-first_of}

module _ {A : Type 0} where
  -- a managed object of the name
  abbrev pub is_named : String → String → Object A → Bool
  is_named slug name o = matches (tagged_named slug name) o && is_text name o.body.name

  pub length-filter : (p : Object A → Bool) (t : List (Object A)) → length (filter p t) ≤ length t
  length-filter p [] = omega arith
  length-filter p (o ∷ t) = ground (arith, length-filter p t)

  erase_found-named :
      (page : ℕ) (slug name : String) (t : List (Object A))
      → UniqueIds t
      → length (filter (matches (tagged_named slug name)) t) ≤ 1
      → 1 ≤ page
      → erase_found
          (find?
            (λ (o : Object A). is_text name o.body.name)
            (listing page (tagged_named slug name) t))
          t
        ≡ filter (λ o. not (is_named slug name o)) t
  erase_found-named page slug name t u few some_page =
      let m : Object A → Bool = matches (tagged_named slug name) in
      let p : Object A → Bool = λ o. is_text name o.body.name in
      let same = ap length (filter-filter m p t) in
      let fewer = length-filter p (filter m t) in
      ap (λ o. erase_found o t)
        (ap (find? (λ (o : Object A). is_text name o.body.name)) (
            take_all page (filter (matches (tagged_named slug name)) t)
              (omega (arith, few, some_page)))
          ∙ find?-first_of (λ (o : Object A). is_text name o.body.name)
              (filter (matches (tagged_named slug name)) t)
          ∙ ap first_of (
              filter-filter (matches (tagged_named slug name))
                (λ (o : Object A). is_text name o.body.name) t))
      ∙ erase_found-first_of (filter (is_named slug name) t) t (omega (arith, few, same, fewer))
      ∙ erase_all-filter (is_named slug name) t u

-- From the database `d`, the managed objects of the name are gone from the table.
abbrev pub WithoutName : {A : Type 0} → Table A → String → String → Db → Db
WithoutName table slug name d = table.put (filter (λ o. not (is_named slug name o)) (table.get d)) d

-- Ids are unique, and at most one managed object has the name.
abbrev pub IsNameClear : {A : Type 0} → Table A → String → String → Db → Type 0
IsNameClear table slug name d =
    UniqueIds (table.get d) × (length (filter (matches (tagged_named slug name)) (table.get d)) ≤ 1)

removes_named :
    {S A : Type 0} (db : S → Db) (objects : Endpoint S A) (table : Table A) (page : ℕ)
    (lawful : IsEndpoint db objects table page) (message : Error → Error)
    (deleting slug name : String) (d : Db)
    → 1 ≤ page
    → IsNameClear table slug name d
    → Triple
        (At db d)
        (do
          listed ← context message (objects.list (tagged_named slug name))
          delete_found objects deleting (find? (λ o. is_text name o.body.name) listed.results))
        (λ _ s. db s ≡ WithoutName table slug name d)
        (At db d)
removes_named db objects table page lawful message deleting slug name d some_page (u, few) =
    Triple-bind _ _
      (Triple-context message (
        Triple-weaken (λ p s h. (h.0, h.1)) (λ s h. h)
          (lawful.list_lem (tagged_named slug name) d)))
      λ listed. Triple-given λ e.
        Triple-weaken
          (λ _ s h.
            h
            ∙ ap (λ t. table.put t d)
                (ap (λ os. erase_found (find? (λ o. is_text name o.body.name) os) (table.get d)) e
                  ∙ erase_found-named page slug name (table.get d) u few some_page))
          (λ s h. h)
          (delete_found_lem db objects table page lawful deleting
            (find? (λ o. is_text name o.body.name) listed.results) d)

module _ {S : Type 0} (db : S → Db) (client : NetBoxApi S) (page : ℕ)
    (server : IsServer db client page) (slug name : String) (d : Db) where
  -- On a server that keeps NetBox's documented laws, with a page of at least one object: if ids
  -- are unique and at most one managed Device and at most one managed VirtualMachine has the name,
  -- then a run of deleteNodeByName that returns removes exactly these; one that fails has changed
  -- nothing or removed the Device.
  pub delete_node_by_name_removes :
      1 ≤ page
      → IsNameClear devices_table slug name d
      → IsNameClear virtual_machines_table slug name d
      → Triple
          (At db d)
          (delete_node_by_name client slug name)
          (λ _ s.
            db s
            ≡ WithoutName virtual_machines_table slug name (WithoutName devices_table slug name d))
          (λ s. (db s ≡ d) ⊎ (db s ≡ WithoutName devices_table slug name d))
  unfolding delete_node_by_name delete_device_by_name delete_virtual_machine_by_name
  delete_node_by_name_removes some_page devices machines =
      Triple-bind _ _
        (Triple-weaken (λ _ s h. h) (λ s h. inl h)
          (removes_named db client.devices devices_table page server.devices_lem _ _ slug name d
            some_page devices))
        λ _.
          Triple-weaken (λ _ s h. h) (λ s h. inr h)
            (removes_named db client.virtual_machines virtual_machines_table page
              server.virtual_machines_lem _ _ slug name (WithoutName devices_table slug name d)
              some_page machines)
