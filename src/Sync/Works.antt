-- ===== src/Sync/Works.antt =====
-- `syncServiceAddresses` returns where NetBox answers every call.
use netbox_herald.Base.{
  ℕ, ◌≡◌, ◌⊎◌, refl, inl, inr, String, true, false, Option, none, some, List, [], ◌∷◌, ◌++◌, filter,
  find?, All, Exec, str_eq, deref, eq_iff, pure, Bool-cases, ◌>>=◌,
}
use netbox_herald.Base.Triple.{Triple-elim, Triple, Triple-bind, Triple-context}
use netbox_herald.NetBox.Model.{Tag, TagData, Object, Body, Query, IpAddressData, NetBoxApi}
use netbox_herald.NetBox.ExternalId.{has_id_prefix, service_external_id_prefix}
use netbox_herald.NetBox.Tags.{is_text, create_managed_tag, tag_or_create, ensure_managed_tag}
use netbox_herald.NetBox.Write.{
  tagged, find_by_external_id, write_object, delete_object, list_by_id_prefix,
}
use netbox_herald.NetBox.Services.{ServiceIpSpec, ensure_service_ip, list_service_ips}
use netbox_herald.Controller.Kube.{Service}
use netbox_herald.Controller.Prune.{owned_id, contains, prune_one, prune}
use netbox_herald.Controller.ServiceController.{
  cidr_for_ip, ensure_address, ensure_addresses, sync_service_addresses,
}
use netbox_herald.Server.Members.{All-members, Member-filter, Member-find?}
use netbox_herald.Sync.Deletes.{IsOwnedId-has_id_prefix}
use netbox_herald.Sync.Tags.{is_text-some}

module _ {S : Type 0} where
  -- From every state the function returns, and then the value satisfies `P`.
  abbrev pub Returns : {A : Type 0} → (A → Type 0) → Exec S A → Type 0
  Returns P m = Triple (λ _. Unit) m (λ a _. P a) (λ _. ⊥)

  abbrev pub Works : {A : Type 0} → Exec S A → Type 0
  Works m = Returns (λ _. Unit) m

  -- NetBox answers the calls on tags and IP addresses, and creates the tag that it was asked for.
  pub record IsUp (client : NetBoxApi S) : Type 0 where
    pub tags_list_works : (slug : String) → Works (client.tags_list slug)
    pub tags_create_works :
        (data' : TagData) → Returns (λ tag. tag.slug ≡ data'.slug) (client.tags_create data')
    pub list_works : (q : Query) → Works (client.ip_addresses.list q)
    pub create_works : (body : Body IpAddressData) → Works (client.ip_addresses.create body)
    pub update_works :
        (id : ℕ) (body : Body IpAddressData) → Works (client.ip_addresses.update id body)
    pub delete_works : (id : ℕ) → Works (client.ip_addresses.delete id)

  pub returned : {A : Type 0} (P : A → Type 0) (a : A) → P a → Returns P (pure a)
  returned P a p = record { run = λ s h. p }

  pub then_ :
      {A B : Type 0} (P : A → Type 0) (Q : B → Type 0) (m : Exec S A) (f : A → Exec S B)
      → Returns P m
      → ((a : A) → P a → Returns Q (f a))
      → Returns Q (m >>= f)
  then_ P Q m f tm tf =
      Triple-bind {mid = λ a _. P a} m f tm λ a. record { run = λ s p. (tf a p).run s tt }

module _ {S : Type 0} (client : NetBoxApi S) (up : IsUp client) (slug : String) where
  tag_or_create-Returns :
      (o : Option Tag)
      → ((tag : Tag) → o ≡ some tag → tag.slug ≡ some slug)
      → Returns (λ tag. tag.slug ≡ some slug) (tag_or_create client slug o)
  unfolding tag_or_create create_managed_tag
  tag_or_create-Returns (some tag) h = returned _ tag (h tag refl)
  tag_or_create-Returns none h = Triple-context _ (up.tags_create_works _)

  ensure_managed_tag-Returns :
      Returns (λ tag. tag.slug ≡ some slug) (ensure_managed_tag client slug)
  unfolding ensure_managed_tag
  ensure_managed_tag-Returns = then_ _ _ _ _ (Triple-context _ (up.tags_list_works slug)) λ tags _.
      tag_or_create-Returns (find? (λ tag. is_text slug tag.slug) tags) λ tag e.
        is_text-some slug tag.slug (Member-find? (λ tag. is_text slug tag.slug) tag tags e).1

  write_object-Works :
      (u c shown : String) (o : Option (Object IpAddressData)) (body : Body IpAddressData)
      → Works (write_object client.ip_addresses u c shown o body)
  unfolding write_object
  write_object-Works u c shown (some o) body =
      then_ _ _ _ _ (Triple-context _ (up.update_works o.id body)) λ x _. returned _ x.id tt
  write_object-Works u c shown none body =
      then_ _ _ _ _ (Triple-context _ (up.create_works body)) λ x _. returned _ x.id tt

  deref-Works : (o : Option String) → o ≡ some slug → Works {S = S} (deref o)
  deref-Works none e = cc e
  deref-Works (some a) e = returned _ a tt

  find_by_external_id-Works :
      (l slug' external_id : String)
      → Works (find_by_external_id client.ip_addresses l slug' external_id)
  unfolding find_by_external_id
  find_by_external_id-Works l slug' external_id =
      then_ _ _ _ _ (Triple-context _ (up.list_works (tagged slug'))) λ p _. returned _ _ tt

  ensure_service_ip-Works :
      (spec : ServiceIpSpec)
      → spec.managed_tag.slug ≡ some slug
      → Works (ensure_service_ip client spec)
  unfolding ensure_service_ip
  ensure_service_ip-Works spec has =
      then_ _ _ _ _ (deref-Works spec.managed_tag.slug has) λ slug' _.
        then_ _ _ _ _ (find_by_external_id-Works _ slug' spec.external_id)
          λ o _. write_object-Works _ _ spec.address o _

  pub list_service_ips-Returns :
      (namespace name : String)
      → Returns
          (All λ (o : Object IpAddressData).
            has_id_prefix (service_external_id_prefix namespace name) o ≡ true)
          (list_service_ips client slug namespace name)
  unfolding list_service_ips list_by_id_prefix
  list_service_ips-Returns namespace name =
      then_ _ _ _ _ (Triple-context _ (up.list_works (tagged slug))) λ p _. returned _ _ (
        All-members (filter (has_id_prefix (service_external_id_prefix namespace name)) p.results)
          λ o m. (Member-filter _ o p.results m).1)

  prune_one-Works :
      (deleting : String) (desired : List String) (o : Object IpAddressData) (i : Option String)
      (id : String)
      → i ≡ some id
      → Works (prune_one client.ip_addresses deleting desired o i)
  unfolding prune_one delete_object
  prune_one-Works deleting desired o none id e = cc e
  prune_one-Works deleting desired o (some i) id e = elim (Bool-cases (contains desired i)) [
    | inl kept ↦ rw kept (returned _ tt tt)
    | inr stale ↦ rw stale (Triple-context _ (up.delete_works o.id))
  ]

  prune-Works :
      (deleting prefix : String) (desired : List String) (os : List (Object IpAddressData))
      → All (λ (o : Object IpAddressData). has_id_prefix prefix o ≡ true) os
      → Works (prune client.ip_addresses deleting desired os)
  unfolding prune
  prune-Works deleting prefix desired [] h = returned _ tt tt
  prune-Works deleting prefix desired (o ∷ os) (h, hs) =
      let (id, read, _, _) = IsOwnedId-has_id_prefix prefix o h in
      then_ _ _ _ _ (prune_one-Works deleting desired o (owned_id o.body.custom_fields) id read)
        λ _ _. prune-Works deleting prefix desired os hs

  -- The parser accepts every ingress IP that is not empty.
  abbrev pub IsParsable : (String → Option ℕ) → List String → Type 0
  IsParsable parse_ip ips = All (λ ip. (ip ≡ "") ⊎ ((n : ℕ) × (parse_ip ip ≡ some n))) ips

  module _ (parse_ip : String → Option ℕ) (svc : Service) (tag : Tag)
      (has : tag.slug ≡ some slug) where
    cidr_for_ip-Works :
        (ip : String) (n : ℕ)
        → parse_ip ip ≡ some n
        → Works {S = S} (λ s. (cidr_for_ip parse_ip ip, s))
    unfolding cidr_for_ip
    cidr_for_ip-Works ip n e = rw (e, cidr_for_ip) (returned _ _ tt)

    ensure_address-Works :
        (ip : String) (n : ℕ)
        → parse_ip ip ≡ some n
        → Works (ensure_address parse_ip client tag svc ip)
    unfolding ensure_address
    ensure_address-Works ip n e =
        then_ _ _ _ _ (Triple-context _ (cidr_for_ip-Works ip n e))
          λ a _. then_ _ _ _ _ (ensure_service_ip-Works _ has) λ _ _. returned _ _ tt

    ensure_addresses-Works :
        (ips desired : List String)
        → IsParsable parse_ip ips
        → Works (ensure_addresses parse_ip client tag svc ips desired)
    unfolding ensure_addresses
    ensure_addresses-Works [] desired h = returned _ desired tt
    ensure_addresses-Works (ip ∷ ips) desired (h, hs) =
        Triple-elim (str_eq ip "") _ _ (λ empty. ensure_addresses-Works ips desired hs)
          (λ given.
            then_ _ _ _ _ (parsed_address h given)
              λ id _. ensure_addresses-Works ips (desired ++ id ∷ []) hs)
      where
        parsed_address :
            (ip ≡ "") ⊎ ((n : ℕ) × (parse_ip ip ≡ some n))
            → str_eq ip "" ≡ false
            → Works (ensure_address parse_ip client tag svc ip)
        parsed_address (inl empty) given = cc (given, (eq_iff ip "").1 empty)
        parsed_address (inr (n, e)) given = ensure_address-Works ip n e

  -- If NetBox answers every call on tags and IP addresses and creates the tag that it is asked
  -- for, and the parser accepts every ingress IP that is not empty, then syncServiceAddresses
  -- returns from every state, with no error and no panic.
  pub sync_service_addresses_returns :
      (parse_ip : String → Option ℕ) (svc : Service)
      → IsParsable parse_ip svc.ingress_ips
      → Works (sync_service_addresses parse_ip client slug svc)
  unfolding sync_service_addresses
  sync_service_addresses_returns parse_ip svc parses =
      then_ _ _ _ _ ensure_managed_tag-Returns λ tag has.
        then_ _ _ _ _ (ensure_addresses-Works parse_ip svc tag has svc.ingress_ips [] parses)
          λ desired _. then_ _ _ _ _ (list_service_ips-Returns svc.namespace svc.name) λ os owned.
            prune-Works _ (service_external_id_prefix svc.namespace svc.name) desired os owned
