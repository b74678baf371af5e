-- ===== src/Tests/Delivery.antt =====
-- The theorems on batches, subscriptions and the catalog, at concrete inputs.
use orisun.Base.{
  ◌&&◌, ◌||◌, ℕ, ◌≡◌, refl, inl, true, false, Option, none, some, List, [], ◌∷◌, all, length, arith,
  pos, codes, codes_eq,
}
use orisun.Status.{is_ok, ok, context_canceled}
use orisun.Position.{Position}
use orisun.GroupCommit.{Request, Config, Executed, returned, run_flush, drain_batch}
use orisun.GroupCommit.Flush.{
  Submission, submitted, live_inputs, answers, live_answers, results, is_delivered, run_flush_lem,
}
use orisun.GroupCommit.Batch.{IsDrained, drain_batch-IsDrained}
use orisun.Drain.{ReadEvent, Calls, drain, new_subscription_drain}
use orisun.Drain.Order.{InOrder, drain_delivers-InOrder}
use orisun.Activation.{
  ActivationGate, has_name, enable_boundary_activation_gate, require_boundary_active, activate_all,
}
use orisun.Activation.Gate.{require_boundary_active-activate_all}
use orisun.Catalog.{
  validate_name, Boundary, provisioning, Catalog, CatalogEvent, boundary_activated, boundary_failed,
  get, apply, apply_all,
}
use orisun.Catalog.History.{
  IsSuccessor, Continues, apply-Continues, apply_unchanged, apply_all-IsSuccessor,
}

-- Three requests, the second of them cancelled.
abbrev three : List (Submission ℕ)
three = (none, 10, 1) ∷ (some context_canceled, 20, 2) ∷ (none, 30, 1) ∷ []

abbrev echo : List ℕ → Executed ℕ
echo inputs = returned inputs

run_flush_lem_example :
    (results (run_flush echo (submitted three))
      ≡ answers three (live_answers (length (live_inputs three)) (echo (live_inputs three))))
    × (all is_delivered (results (run_flush echo (submitted three))) ≡ true)
run_flush_lem_example = run_flush_lem ℕ ℕ echo three

abbrev small : Config
small = record { max_batch_requests = 2; max_batch_events = 3; max_pending = 8 }

abbrev queued : ℕ → Request ℕ ℕ
queued events = record {
  cancelled = none;
  prepared = 0;
  events = events;
  result = none;
  delivered = false;
}

drain_batch-IsDrained_example :
    IsDrained small
      (queued 1)
      (queued 1 ∷ queued 3 ∷ queued 1 ∷ [])
      (drain_batch small (queued 3 ∷ queued 1 ∷ []) (queued 1))
drain_batch-IsDrained_example =
    drain_batch-IsDrained small (queued 1) (queued 3 ∷ queued 1 ∷ []) (omega arith)

abbrev at : ℕ → ReadEvent ℕ
at n = record {
  position = record { commit_position = pos n; prepare_position = pos n };
  payload = n;
}

abbrev next_batch : List (ReadEvent ℕ) → List (ReadEvent ℕ)
next_batch [] = at 1 ∷ at 2 ∷ at 3 ∷ []
next_batch (e ∷ es) = []

abbrev calls : Calls ℕ
calls = record {
  check_active = λ delivered. ok tt;
  get_batch = λ delivered request. ok (next_batch delivered);
  cancelled = λ delivered. none;
  check_event = λ delivered. ok tt;
  handler = λ delivered event. ok tt;
}

abbrev first_position : Option Position
first_position = some (record { commit_position = pos 1; prepare_position = pos 1 })

drain_delivers-InOrder_example :
    InOrder first_position (drain 3 calls (new_subscription_drain first_position)).1.delivered
drain_delivers-InOrder_example = drain_delivers-InOrder 3 calls first_position

abbrev orders : Boundary
orders = record {
  name = codes "orders";
  description = [];
  placement = record { backend = codes "sqlite"; namespace = codes "orders" };
  status = provisioning;
  last_error = [];
  definition_position = none;
  status_position = none;
}

abbrev catalog : Catalog
catalog = (codes "orders", orders) ∷ []

abbrev activation : CatalogEvent
activation = record {
  lifecycle = boundary_activated (codes "orders");
  position = record { commit_position = pos 1; prepare_position = pos 1 };
}

abbrev late_failure : CatalogEvent
late_failure = record {
  lifecycle = boundary_failed (codes "orders") (codes "disk");
  position = record { commit_position = pos 2; prepare_position = pos 2 };
}

abbrev bad_failure : CatalogEvent
bad_failure = record {
  lifecycle = boundary_failed (codes "orders") [];
  position = record { commit_position = pos 2; prepare_position = pos 2 };
}

found : get (codes "orders") catalog ≡ some orders
unfolding get codes_eq
found = refl

apply_all-IsSuccessor_example :
    (d : Boundary) × (get (codes "orders") (apply_all (activation ∷ late_failure ∷ []) catalog)
      ≡ some d)
    × IsSuccessor orders d
apply_all-IsSuccessor_example =
    apply_all-IsSuccessor (activation ∷ late_failure ∷ []) catalog (codes "orders") orders found

apply-Continues_example :
    Continues (get (codes "orders") catalog) (get (codes "orders") (apply activation catalog).1.1)
apply-Continues_example = apply-Continues activation catalog (codes "orders")

bad_failure_fails : is_ok (apply bad_failure catalog).1.0 ≡ false
unfolding apply codes_eq
bad_failure_fails = refl

apply_unchanged_example : (apply bad_failure catalog).1.1 ≡ catalog
apply_unchanged_example = apply_unchanged bad_failure catalog (inl bad_failure_fails)

abbrev enabled_gate : ActivationGate
enabled_gate = record { enforce = true; active_boundaries = codes "admin" ∷ [] }

gate_enabled :
    enable_boundary_activation_gate
      (codes "admin" ∷ [])
      (record { enforce = false; active_boundaries = [] })
    ≡ (ok tt, enabled_gate)
unfolding enable_boundary_activation_gate orisun.Base.is_letter
gate_enabled = refl

require_boundary_active-activate_all_example :
    is_ok
      (require_boundary_active (codes "orders") (activate_all (codes "orders" ∷ []) enabled_gate))
    ≡ (is_ok (validate_name (codes "orders"))
        && (has_name (codes "orders") (codes "admin" ∷ [])
            || has_name (codes "orders") (codes "orders" ∷ [])))
require_boundary_active-activate_all_example =
    require_boundary_active-activate_all (codes "orders") (codes "admin" ∷ []) (codes "orders" ∷ [])
      enabled_gate gate_enabled
