-- ===== src/Sync/Lookups.antt =====
-- The lookups of NetBox/Refs.antt on a lawful server.
use mathlib.Core.Option
use mathlib.Core.Path.{subst}
use netbox_herald.Base.{
  ℕ, ◌≡◌, refl, sym, ap, ◌∙◌, String, Bool, true, false, Option, none, some, List, [], ◌∷◌, filter,
  find?, inl, inr, context, Error, Exec, str_eq, Bool-cases,
}
use netbox_herald.Base.Triple.{
  Triple, Triple-return, Triple-bind, Triple-context, Triple-given, Triple-weaken, Triple-if,
}
use netbox_herald.NetBox.Model.{Reference, Object, Query, ClusterData, NetBoxApi}
use netbox_herald.NetBox.Tags.{is_text}
use netbox_herald.NetBox.Refs.{
  id_or_fail, lookup_id, optional_id, cluster_id_or_fail, lookup_cluster_id, lookup_site_id,
  lookup_cluster_type_id, lookup_cluster_group_id, lookup_device_role_id, lookup_device_type_id,
  lookup_rir_id, lookup_platform_id,
}
use netbox_herald.Server.Tables.{Db, listing}
use netbox_herald.Server.Laws.{At, IsLookup, IsServer}

-- the id of the first reference of that name
abbrev pub resolved : String → List Reference → Option ℕ
resolved name rs =
    Option.map (λ (r : Reference). r.id) (find? (λ (r : Reference). is_text name r.name) rs)

-- an empty name stands for no reference
abbrev pub Resolved? : String → List Reference → Option ℕ → Type 0
Resolved? name rs none = str_eq name "" ≡ true
Resolved? name rs (some id) = (str_eq name "" ≡ false) × (resolved name rs ≡ some id)

-- the list call with `WithName` alone
abbrev named : String → Query
named name = record { tag = none; name = some name; limit = none }

-- the id of the first cluster of that name on the first page
abbrev pub resolved_cluster : ℕ → String → List (Object ClusterData) → Option ℕ
resolved_cluster page name t =
    Option.map (λ (c : Object ClusterData). c.id)
      (find? (λ (c : Object ClusterData). is_text name c.body.name) (listing page (named name) t))

find?-filter {ℓ} : {A : Type ℓ} (p : A → Bool) (xs : List A) → find? p (filter p xs) ≡ find? p xs
find?-filter p [] = refl
find?-filter p (x ∷ xs) = elim (Bool-cases (p x)) [
  | inl hit ↦ rw (hit, hit)
  | inr miss ↦ rw miss (find?-filter p xs)
]

module _ {S : Type 0} (db : S → Db) where
  id_or_fail_lem :
      (missing : Error) (o : Option Reference) (d : Db)
      → Triple
          (At db d)
          (id_or_fail missing o)
          (λ id s. (db s ≡ d) × (Option.map (λ (r : Reference). r.id) o ≡ some id))
          (At db d)
  id_or_fail_lem missing none d = record { run = λ s h. h }
  id_or_fail_lem missing (some r) d = Triple-return _ λ s h. (h, refl)

  pub lookup_id_lem :
      (call : String → Exec S (List Reference)) (get : Db → List Reference)
      → IsLookup db call get
      → (message : Error → Error) (missing : Error) (name : String) (d : Db)
      → Triple
          (At db d)
          (lookup_id (context message (call name)) missing name)
          (λ id s. (db s ≡ d) × (resolved name (get d) ≡ some id))
          (At db d)
  unfolding lookup_id
  lookup_id_lem call get lawful message missing name d =
      Triple-bind _ _ (Triple-context message (lawful.lookup_lem name d)) λ rs. Triple-given λ e.
        subst
          (λ o.
            Triple (At db d) (id_or_fail missing o)
              (λ id s. (db s ≡ d) × (resolved name (get d) ≡ some id)) (At db d))
          (sym (
            ap (find? (λ r. is_text name r.name)) e
            ∙ find?-filter (λ r. is_text name r.name) (get d)))
          (id_or_fail_lem missing _ d)

  pub optional_id_lem :
      (lookup : String → Exec S ℕ) (rs : List Reference) (name : String) (d : Db)
      → Triple (At db d) (lookup name) (λ id s. (db s ≡ d) × (resolved name rs ≡ some id)) (At db d)
      → Triple
          (At db d)
          (optional_id lookup name)
          (λ id s. (db s ≡ d) × Resolved? name rs id)
          (At db d)
  unfolding optional_id
  optional_id_lem lookup rs name d t =
      Triple-if (str_eq name "") _ _ (λ empty. Triple-return _ λ s h. (h, empty))
        (λ named. Triple-bind _ _ t λ id. Triple-return _ λ s h. (h.0, (named, h.1)))

-- Each lookup returns the id of its name, or fails; it changes nothing.
module _ {S : Type 0} (db : S → Db) (client : NetBoxApi S) (page : ℕ)
    (server : IsServer db client page) (name : String) (d : Db) where
  pub lookup_site_id_lem :
      Triple
        (At db d)
        (lookup_site_id client name)
        (λ id s. (db s ≡ d) × (resolved name d.sites ≡ some id))
        (At db d)
  unfolding lookup_site_id
  lookup_site_id_lem = lookup_id_lem db client.sites (λ d. d.sites) server.sites_lem _ _ name d

  pub lookup_cluster_type_id_lem :
      Triple
        (At db d)
        (lookup_cluster_type_id client name)
        (λ id s. (db s ≡ d) × (resolved name d.cluster_types ≡ some id))
        (At db d)
  unfolding lookup_cluster_type_id
  lookup_cluster_type_id_lem =
      lookup_id_lem db client.cluster_types (λ d. d.cluster_types) server.cluster_types_lem _ _ name
        d

  pub lookup_cluster_group_id_lem :
      Triple
        (At db d)
        (lookup_cluster_group_id client name)
        (λ id s. (db s ≡ d) × (resolved name d.cluster_groups ≡ some id))
        (At db d)
  unfolding lookup_cluster_group_id
  lookup_cluster_group_id_lem =
      lookup_id_lem db client.cluster_groups (λ d. d.cluster_groups) server.cluster_groups_lem _ _
        name d

  pub lookup_device_role_id_lem :
      Triple
        (At db d)
        (lookup_device_role_id client name)
        (λ id s. (db s ≡ d) × (resolved name d.device_roles ≡ some id))
        (At db d)
  unfolding lookup_device_role_id
  lookup_device_role_id_lem =
      lookup_id_lem db client.device_roles (λ d. d.device_roles) server.device_roles_lem _ _ name d

  pub lookup_device_type_id_lem :
      Triple
        (At db d)
        (lookup_device_type_id client name)
        (λ id s. (db s ≡ d) × (resolved name d.device_types ≡ some id))
        (At db d)
  unfolding lookup_device_type_id
  lookup_device_type_id_lem =
      lookup_id_lem db client.device_types (λ d. d.device_types) server.device_types_lem _ _ name d

  pub lookup_rir_id_lem :
      Triple
        (At db d)
        (lookup_rir_id client name)
        (λ id s. (db s ≡ d) × (resolved name d.rirs ≡ some id))
        (At db d)
  unfolding lookup_rir_id
  lookup_rir_id_lem = lookup_id_lem db client.rirs (λ d. d.rirs) server.rirs_lem _ _ name d

  pub lookup_platform_id_lem :
      Triple
        (At db d)
        (lookup_platform_id client name)
        (λ id s. (db s ≡ d) × (resolved name d.platforms ≡ some id))
        (At db d)
  unfolding lookup_platform_id
  lookup_platform_id_lem =
      lookup_id_lem db client.platforms (λ d. d.platforms) server.platforms_lem _ _ name d

  cluster_id_or_fail_lem :
      (o : Option (Object ClusterData))
      → Triple
          (At db d)
          (cluster_id_or_fail client name o)
          (λ id s. (db s ≡ d) × (Option.map (λ (c : Object ClusterData). c.id) o ≡ some id))
          (At db d)
  unfolding cluster_id_or_fail
  cluster_id_or_fail_lem none = record { run = λ s h. h }
  cluster_id_or_fail_lem (some c) = Triple-return _ λ s h. (h, refl)

  listed_by_name :
      Triple
        (At db d)
        (client.clusters.list (named name))
        (λ p s. (db s ≡ d) × (p.results ≡ listing page (named name) d.clusters))
        (At db d)
  listed_by_name =
      Triple-weaken (λ p s h. (h.0, h.1)) (λ s h. h) (server.clusters_lem.list_lem (named name) d)

  pub lookup_cluster_id_lem :
      Triple
        (At db d)
        (lookup_cluster_id client name)
        (λ id s. (db s ≡ d) × (resolved_cluster page name d.clusters ≡ some id))
        (At db d)
  unfolding lookup_cluster_id
  lookup_cluster_id_lem = Triple-bind _ _ (Triple-context _ listed_by_name) λ p. Triple-given λ e.
      subst
        (λ os.
          Triple (At db d)
            (cluster_id_or_fail client name (find? (λ c. is_text name c.body.name) os))
            (λ id s. (db s ≡ d) × (resolved_cluster page name d.clusters ≡ some id)) (At db d))
        (sym e) (cluster_id_or_fail_lem _)
