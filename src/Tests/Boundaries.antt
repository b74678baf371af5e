-- ===== src/Tests/Boundaries.antt =====
-- The theorems on the boundary commands, at a store with another writer.
use orisun.Base.{
  ℕ, ◌≡◌, refl, some, true, false, List, [], ◌∷◌, codes, codes_eq, is_letter, is_digit,
}
use orisun.Status.{ok, err, coded, already_exists, Error}
use orisun.Catalog.{active, validate_name, apply, define, activate, get, put}
use orisun.Position.{not_exists_position, after, position_compare}
use orisun.Boundaries.{EventToAppend, Definition, Action, validate_definition, make_event}
use orisun.Boundaries.Create.{
  create_boundary, normalize, load_context, context_of, append_definition, created_event,
}
use orisun.Boundaries.Create.Unique.{Creates, create_boundary-Creates}
use orisun.Boundaries.Provision.{
  provision_boundary, activated_event, provision_loaded, append_activated, append_outcome,
  load_lifecycle, lifecycle_context, rebuild, find_definition, outcomes_after, insert_event,
  sort_events, apply_each,
}
use orisun.Tests.AdminLog.{
  admin_ports, position_at, admin_log, admin_ports-IsStore, AppendMore, rival,
}

abbrev pub admin : List ℕ
admin = codes "admin"

abbrev pub orders : Definition
orders = record {
  name = codes "orders";
  description = [];
  placement = record { backend = codes "sqlite"; namespace = codes "orders" };
}

abbrev pub untrimmed : List ℕ → List ℕ
untrimmed s = s

abbrev no_text : Error → List ℕ
no_text e = codes "failed"

abbrev provisioned : Definition → Action (List EventToAppend) (Unit {0})
provisioned d w = (ok tt, w)

-- The log after the definition of `orders`, and what provisioning makes of it.
abbrev defined : List EventToAppend
defined = (create_boundary (admin_ports false) untrimmed admin orders []).1

create_twice :
    (create_boundary (admin_ports false) untrimmed admin orders defined).0
    ≡ err (coded already_exists)
unfolding create_boundary normalize validate_definition validate_name is_letter is_digit
    load_context context_of append_definition make_event not_exists_position codes_eq
create_twice = refl

provision_defined :
    provision_boundary (admin_ports false) admin 2 no_text provisioned orders defined
    ≡ some (
      ok (record {
        name = orders.name;
        description = [];
        placement = orders.placement;
        status = active;
        last_error = [];
        definition_position = some (position_at 1);
        status_position = some (position_at 3);
      }),
      rival ∷ created_event orders ∷ rival ∷ activated_event orders.name ∷ [],
    )
unfolding create_boundary normalize validate_definition validate_name is_letter is_digit
    load_context context_of append_definition make_event not_exists_position codes_eq
    provision_boundary provision_loaded append_activated append_outcome load_lifecycle
    lifecycle_context rebuild find_definition outcomes_after insert_event sort_events apply_each
    apply define activate get put after position_compare
provision_defined = refl

create_boundary-Creates_example :
    Creates
      (admin_ports true)
      admin_log
      AppendMore
      (admin_ports-IsStore true)
      untrimmed
      admin
      orders
      []
      (create_boundary (admin_ports true) untrimmed admin orders [])
create_boundary-Creates_example =
    create_boundary-Creates (admin_ports true) admin_log AppendMore (admin_ports-IsStore true)
      untrimmed admin orders []
