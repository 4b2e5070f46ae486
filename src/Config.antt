-- ===== src/Config.antt =====
-- internal/config/store.go: the spec and the client that the controllers share.
use netbox_herald.Base.{Option, none}
use netbox_herald.Api.Spec.{HeraldConfigSpec}
use netbox_herald.NetBox.Model.{NetBoxApi}

-- `config.Store`; its mutex makes `Set` and `Get` single steps.
pub record Store (S : Type 0) : Type 0 where
  pub spec : Option HeraldConfigSpec
  pub client : Option (NetBoxApi S)

module _ {S : Type 0} where
  unfoldable pub new_store : Store S
  new_store = record { spec = none; client = none }

  unfoldable pub set_store : Store S → Option HeraldConfigSpec → Option (NetBoxApi S) → Store S
  set_store s spec client = record s { spec = spec; client = client }

  unfoldable pub get_store : Store S → Option HeraldConfigSpec × Option (NetBoxApi S)
  get_store s = (s.spec, s.client)
