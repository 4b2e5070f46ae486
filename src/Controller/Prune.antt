-- ===== src/Controller/Prune.antt =====
-- The loops at the end of `syncServiceAddresses` and `syncNodePrefixes`, which delete what is
-- owned and no longer desired.
use netbox_herald.Base.{
  String, Bool, Option, none, some, List, [], ◌∷◌, any, str_eq, Exec, pure, crash, ◌>>◌,
  if◌then◌else◌,
}
use netbox_herald.NetBox.Model.{Value, object, Object, Endpoint}
use netbox_herald.NetBox.ExternalId.{external_id_field_name, get_field, as_text}
use netbox_herald.NetBox.Write.{delete_object}

-- `id, _ := v.(string)`: a failed assertion with `_` leaves the empty text.
abbrev pub text_or_empty : Option String → String
text_or_empty none = ""
text_or_empty (some s) = s

-- `p.CustomFields.(map[string]any)[ExternalIDFieldName].(string)`: the first assertion panics,
-- which `none` stands for.
unfoldable pub owned_id : Value → Option String
unfolding get_field
owned_id (object fields) = some (text_or_empty (as_text (get_field external_id_field_name fields)))
owned_id _ = none

-- `slices.Contains`
unfoldable pub contains : List String → String → Bool
contains ids id = any (λ d. str_eq d id) ids

module _ {S A : Type 0} (objects : Endpoint S A) (deleting : String) (desired : List String) where
  unfoldable pub prune_one : Object A → Option String → Exec S Unit
  unfolding contains delete_object
  prune_one o none = crash
  prune_one o (some id) =
      if contains desired id then pure tt else delete_object objects deleting o.id

  unfoldable pub prune : List (Object A) → Exec S Unit
  unfolding prune_one owned_id
  prune [] = pure tt
  prune (o ∷ os) = do prune_one o (owned_id o.body.custom_fields); prune os
