-- ===== src/Sync/Tags.antt =====
-- `EnsureManagedTag` on a lawful server.
use netbox_herald.Base.{ℕ, ◌≡◌, refl, sym, ap, ◌∙◌, String, true, Option, none, some, find?, eq_iff}
use netbox_herald.Base.Triple.{Triple, Triple-return, Triple-bind, Triple-weaken, Triple-context}
use netbox_herald.NetBox.Model.{Tag, NetBoxApi}
use netbox_herald.NetBox.Tags.{is_text, tag_or_create, create_managed_tag, ensure_managed_tag}
use netbox_herald.Server.Tables.{Db}
use netbox_herald.Server.Laws.{At, IsServer}
use netbox_herald.Server.Members.{Member-find?}

pub is_text-some : (t : String) (o : Option String) → is_text t o ≡ true → o ≡ some t
is_text-some t none h = cc h
is_text-some t (some s) h = ap some ((eq_iff s t).0 h)

module _ {S : Type 0} (db : S → Db) (client : NetBoxApi S) (page : ℕ)
    (server : IsServer db client page) (slug : String) where
  tag_or_create_lem :
      (o : Option Tag) (d : Db)
      → ((tag : Tag) → o ≡ some tag → tag.slug ≡ some slug)
      → Triple
          (At db d)
          (tag_or_create client slug o)
          (λ tag s. (db s ≡ record d { tags = (db s).tags }) × (tag.slug ≡ some slug))
          (At db d)
  unfolding tag_or_create create_managed_tag
  tag_or_create_lem (some tag) d h =
      Triple-return _
        λ s e. (e ∙ ap (λ k. record d { tags = k }) (sym (ap (λ k. k.tags) e)), h tag refl)
  tag_or_create_lem none d h =
      Triple-weaken
        (λ tag s (_, has, e). (e ∙ ap (λ k. record d { tags = k }) (sym (ap (λ k. k.tags) e)), has))
        (λ s e. e) (Triple-context _ (server.tags_create_lem _ d))

  pub ensure_managed_tag_lem :
      (d : Db)
      → Triple
          (At db d)
          (ensure_managed_tag client slug)
          (λ tag s. (db s ≡ record d { tags = (db s).tags }) × (tag.slug ≡ some slug))
          (At db d)
  unfolding ensure_managed_tag
  ensure_managed_tag_lem d =
      Triple-bind _ _ (Triple-context _ (server.tags_list_lem slug d)) λ tags.
        Triple-weaken (λ _ s h. h) (λ _ h. h)
          (record {
            run = λ s h.
                (tag_or_create_lem (find? (λ tag. is_text slug tag.slug) tags) d λ tag e.
                    is_text-some slug tag.slug
                      (Member-find? (λ tag. is_text slug tag.slug) tag tags e).1).run
                  s h.0;
          })
