-- ===== src/Sync/Wanted.antt =====
-- Which addresses the pruning leaves: the untagged ones, and those with a desired id.
use netbox_herald.Base.{
  ◌≡◌, refl, ap, ◌∙◌, inl, inr, String, Bool, true, false, not, ◌&&◌, Option, none, some, List, [],
  ◌∷◌, Bool-cases, str_eq, eq_iff,
}
use netbox_herald.NetBox.Model.{Object}
use netbox_herald.Server.Tables.{has_tag}
use netbox_herald.Server.Erase.{is_owned}
use netbox_herald.Sync.Prunes.{is_stale, is_stale_of}
use netbox_herald.Server.Unique.{is_managed}
use netbox_herald.Controller.Prune.{text_or_empty, owned_id, contains}
use netbox_herald.Base.{All, str_eq_refl}
use netbox_herald.NetBox.Model.{Value, null, boolean, number, text, array, object}
use netbox_herald.NetBox.ExternalId.{
  external_id_field_name, get_field, as_text, read_external_id, id_is, has_external_id,
}

-- Pruning touches only what carries the tag.
pub untagged-pruned :
    {A : Type 0} (slug prefix : String) (desired : List String) (o : Object A)
    → not (has_tag slug o) ≡ true
    → is_owned slug prefix o && is_stale desired o ≡ false
untagged-pruned slug prefix desired o h = elim (Bool-cases (has_tag slug o)) [
  | inl yes_tag ↦ cc (rw yes_tag at h)
  | inr no_tag ↦ rw no_tag refl
]

managed_id_of_text :
    (e : String) (o : Option String) → id_is e o ≡ true → some (text_or_empty o) ≡ some e
managed_id_of_text e none h = cc h
managed_id_of_text e (some id) h = ap some ((eq_iff id e).0 h)

managed_id_of_value :
    (e : String) (fields : Value)
    → id_is e (read_external_id fields) ≡ true
    → owned_id fields ≡ some e
unfolding owned_id read_external_id
managed_id_of_value e null h = cc h
managed_id_of_value e (boolean b) h = cc h
managed_id_of_value e (number n) h = cc h
managed_id_of_value e (text t) h = cc h
managed_id_of_value e (array vs) h = cc h
managed_id_of_value e (object fields) h =
    managed_id_of_text e (as_text (get_field external_id_field_name fields)) h

has_external_id-owned_id :
    {A : Type 0} (e : String) (o : Object A)
    → has_external_id e o ≡ true
    → owned_id o.body.custom_fields ≡ some e
unfolding has_external_id
has_external_id-owned_id e o h = managed_id_of_value e o.body.custom_fields h

and_false : (b : Bool) → b && false ≡ false
and_false true = refl
and_false false = refl

is_managed-has_external_id :
    {A : Type 0} (slug e : String) (o : Object A)
    → is_managed slug e o ≡ true
    → has_external_id e o ≡ true
is_managed-has_external_id slug e o h = elim (Bool-cases (has_tag slug o)) [
  | inl yes_tag ↦ rw yes_tag at h
  | inr no_tag ↦ cc (rw no_tag at h)
]

-- A managed address with a desired external id is not pruned.
pub managed-kept :
    {A : Type 0} (slug prefix e : String) (desired : List String) (o : Object A)
    → contains desired e ≡ true
    → is_managed slug e o ≡ true
    → is_owned slug prefix o && is_stale desired o ≡ false
managed-kept slug prefix e desired o wanted h =
    ap (λ b. is_owned slug prefix o && b)
      (is_stale_of desired o e true
        (has_external_id-owned_id e o (is_managed-has_external_id slug e o h)) wanted)
    ∙ and_false (is_owned slug prefix o)

contains_self : (ids : List String) (e : String) → contains (e ∷ ids) e ≡ true
unfolding contains
contains_self ids e = rw (str_eq_refl e) refl

contains_more :
    (ids : List String) (x e : String) → contains ids e ≡ true → contains (x ∷ ids) e ≡ true
unfolding contains
contains_more ids x e h = elim (Bool-cases (str_eq x e)) [
  | inl same ↦ rw same refl
  | inr other ↦ rw other h
]

-- Each item of a list is found in it.
pub All-contains :
    (P Q : String → Type 0) (ids : List String)
    → ((e : String) → (contains ids e ≡ true) × P e → Q e)
    → All P ids
    → All Q ids
All-contains P Q [] f h = tt
All-contains P Q (x ∷ ids) f (h, hs) = (
  f x (contains_self ids x, h),
  All-contains P Q ids (λ e (listed, p). f e (contains_more ids x e listed, p)) hs,
)
