-- ===== src/NetBox/Tags.antt =====
-- internal/netbox/tags.go
use netbox_herald.Base.{
  String, Bool, false, Option, none, some, [], ◌∷◌, find?, str_eq, wrapped, Exec, pure, context,
  ◌>>=◌,
}
use netbox_herald.NetBox.Model.{Tag, NestedTag, NetBoxApi}

-- `tag.Slug != nil && *tag.Slug == slug`, of any optional text.
abbrev pub is_text : String → Option String → Bool
is_text t none = false
is_text t (some s) = str_eq s t

module _ {S : Type 0} (client : NetBoxApi S) where
  unfoldable pub create_managed_tag : String → Exec S Tag
  create_managed_tag slug = context (wrapped "creating NetBox managed tag %q" (slug ∷ [])) (
      client.tags_create (record {
        name = some "netbox-herald managed";
        slug = some slug;
        description = "Objects managed by netbox-herald. Do not edit or remove this tag manually.";
        color = "0d6efd";
      }))

  -- what follows the loop over the listed tags
  unfoldable pub tag_or_create : String → Option Tag → Exec S Tag
  unfolding create_managed_tag
  tag_or_create slug (some tag) = pure tag
  tag_or_create slug none = create_managed_tag slug

  unfoldable pub ensure_managed_tag : String → Exec S Tag
  unfolding tag_or_create
  ensure_managed_tag slug = do
    results ← context (wrapped "listing NetBox tags" []) (client.tags_list slug)
    tag_or_create slug (find? (λ tag. is_text slug tag.slug) results)

unfoldable pub nested_managed_tag : Tag → NestedTag
nested_managed_tag tag = record { id = tag.id; name = tag.name; slug = tag.slug }
