-- ===== src/Sync/Addresses.antt =====
-- The loop of `syncServiceAddresses` over the ingresses, on a lawful server.
use mathlib.Core.List.{append-nil, append_assoc}
use netbox_herald.Base.{
  ℕ, suc, ◌+◌, ◌≡◌, refl, sym, ap, ◌∙◌, arith, String, Bool, true, false, Option, some, List, [],
  ◌∷◌, ◌++◌, length, ok, err, Result, str_eq, if◌then◌else◌,
}
use netbox_herald.Base.Triple.{
  Triple-elim, Triple, Triple-return, Triple-bind, Triple-given, Triple-weaken, Triple-context,
}
use netbox_herald.NetBox.Model.{Tag, NetBoxApi}
use netbox_herald.NetBox.ExternalId.{external_id_for_service_address}
use netbox_herald.NetBox.Services.{ServiceIpSpec, ip_address_body, ensure_service_ip}
use netbox_herald.Controller.Kube.{Service}
use netbox_herald.Controller.ServiceController.{cidr_for_ip, ensure_address, ensure_addresses}
use netbox_herald.Server.Tables.{Db, ip_addresses_table}
use netbox_herald.Server.Laws.{IsServer}
use netbox_herald.Sync.Ensure.{ensure_service_ip_lem}
use netbox_herald.Sync.Owners.{Others, Kept, Within-Kept, ensure-Kept}

-- the external ids of the ingress IPs that are not empty
abbrev pub desired_ids : String → String → List String → List String
desired_ids namespace name [] = []
desired_ids namespace name (ip ∷ ips) =
    let rest = desired_ids namespace name ips in
    if str_eq ip "" then rest else external_id_for_service_address namespace name ip ∷ rest

module _ {S : Type 0} (db : S → Db) (client : NetBoxApi S) (page : ℕ)
    (server : IsServer db client page) (slug : String) (d0 : Db) where
  ensure_service_ip-Kept :
      (spec : ServiceIpSpec) (n : ℕ) (ids : List String)
      → spec.managed_tag.slug ≡ some slug
      → Triple
          (λ s. Kept ip_addresses_table slug d0 n ids (db s))
          (ensure_service_ip client spec)
          (λ _ s. Kept ip_addresses_table slug d0 (suc n) (ids ++ spec.external_id ∷ []) (db s))
          (λ s. Others ip_addresses_table slug d0 (db s))
  unfolding ip_address_body
  ensure_service_ip-Kept spec n ids has =
      ensure-Kept db ip_addresses_table page slug d0 _ spec.managed_tag spec.external_id
        (ip_address_body spec) n ids has (refl, refl)
        (ensure_service_ip_lem db client page server spec)

  -- Work that touches no database.
  Triple-result : {A : Type 0} (P : S → Type 0) (r : Result A) → Triple P (λ s. (r, s)) (λ _. P) P
  Triple-result P (ok a) = record { run = λ s h. h }
  Triple-result P (err e) = record { run = λ s h. h }
  Triple-result P Result.panic = record { run = λ s h. h }

  module _ (parse_ip : String → Option ℕ) (tag : Tag) (tagged : tag.slug ≡ some slug)
      (svc : Service) where
    ensure_address-Kept :
        (ip : String) (n : ℕ) (ids : List String)
        → Triple
            (λ s. Kept ip_addresses_table slug d0 n ids (db s))
            (ensure_address parse_ip client tag svc ip)
            (λ id s.
              Kept ip_addresses_table slug d0 (suc n) (ids ++ id ∷ []) (db s)
              × (id ≡ external_id_for_service_address svc.namespace svc.name ip))
            (λ s. Others ip_addresses_table slug d0 (db s))
    unfolding ensure_address
    ensure_address-Kept ip n ids =
        Triple-bind _ _
          (Triple-context _ (
            Triple-weaken (λ _ _ h. h) (λ s (_, _, _, others). others)
              (Triple-result (λ s. Kept ip_addresses_table slug d0 n ids (db s))
                (cidr_for_ip parse_ip ip))))
          λ address.
            Triple-bind _ _ (ensure_service_ip-Kept _ n ids tagged)
              λ _. Triple-return _ λ s h. (h, refl)

    pub ensure_addresses-Kept :
        (ips desired : List String) (n : ℕ)
        → Triple
            (λ s. Kept ip_addresses_table slug d0 n desired (db s))
            (ensure_addresses parse_ip client tag svc ips desired)
            (λ ids s.
              Kept ip_addresses_table slug d0 (n + length ips) ids (db s)
              × (ids ≡ desired ++ desired_ids svc.namespace svc.name ips))
            (λ s. Others ip_addresses_table slug d0 (db s))
    unfolding ensure_addresses
    ensure_addresses-Kept [] desired n = Triple-return _ λ s h. (
      Within-Kept ip_addresses_table slug d0 n (n + 0) desired (db s) (omega arith) h,
      sym (append-nil desired),
    )
    ensure_addresses-Kept (ip ∷ ips) desired n =
        Triple-elim (str_eq ip "") _ _
          (λ empty.
            Triple-weaken
              (λ ids s (k, e). (
                Within-Kept ip_addresses_table slug d0 (n + length ips) (n + suc (length ips)) ids
                    (db s) (omega arith) k,
                e ∙ ap (λ ds. desired ++ ds) (sym (chosen ips ip true empty)),
              ))
              (λ s h. h) (ensure_addresses-Kept ips desired n))
          (λ given. Triple-bind _ _ (ensure_address-Kept ip n desired) λ id. Triple-given λ is.
            Triple-weaken
              (λ ids s (k, e). (
                Within-Kept ip_addresses_table slug d0 (suc n + length ips) (n + suc (length ips))
                    ids (db s) (omega arith) k,
                e
                    ∙ append_assoc desired (id ∷ []) (desired_ids svc.namespace svc.name ips)
                    ∙ ap (λ ds. desired ++ ds)
                        (ap (λ i. i ∷ desired_ids svc.namespace svc.name ips) is
                          ∙ sym (chosen ips ip false given)),
              ))
              (λ s h. h) (ensure_addresses-Kept ips (desired ++ id ∷ []) (suc n)))
      where
        chosen :
            (ips : List String) (ip : String) (b : Bool)
            → str_eq ip "" ≡ b
            → desired_ids svc.namespace svc.name (ip ∷ ips) ≡ (
                if b
                then desired_ids svc.namespace svc.name ips
                else external_id_for_service_address svc.namespace svc.name ip
                  ∷ desired_ids svc.namespace svc.name ips)
        chosen ips ip b e =
            ap
              (λ c.
                if c
                then desired_ids svc.namespace svc.name ips
                else external_id_for_service_address svc.namespace svc.name ip
                  ∷ desired_ids svc.namespace svc.name ips)
              e
