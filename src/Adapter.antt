-- ===== src/Adapter.antt =====
-- packages/openclaw-adapter/src/{adapter,types}.ts: the one way to OpenClaw. The transport behind the
-- adapter is a parameter: what it answers to each of its methods.
pub mod Forwarding
pub mod Gateway
use openclaw_nie_guard.Common.{
  ℕ, String, Option, none, some, Bool, true, false, not, ◌&&◌, ◌||◌, List, [], ◌∷◌, includes, ◌==◌,
  if◌then◌else◌, ◌or_else◌,
}
use openclaw_nie_guard.Types.{
  OperationClass, operation_class_eq, operator_read, operator_write, tool_invoke, node_invoke,
  file_read, file_write, export_data, exec_run, admin_control, operation_name, PolicyProfile,
  policy_profile_eq, standard, strict, scif, ErrorCode, operation_blocked, Json, concat,
}

pub record MediatedOperation : Type 0 where
  pub operation_class : OperationClass
  pub target_id : String
  pub target_class : String
  pub payload : Json
  pub binding_hash : String
  pub correlation_id : String

pub record AdapterError : Type 0 where
  pub code : ErrorCode
  pub message : String

pub record AdapterResponse : Type 0 where
  pub ok : Bool
  pub forwarded : Option Bool
  pub result : Option Json
  pub error : Option AdapterError

-- `OpenClawTransport`; the adapter calls five of its methods.
pub data Method : Type 0 where
  invoke_tool invoke_node read_resource write_resource execute_restricted : Method

pub record OpenClawTransport : Type 0 where
  pub name : String
  pub version : Option String
  pub call : Method → MediatedOperation → AdapterResponse

-- `DEFAULT_DENY_CATEGORIES` and `STRICT_ONLY_CATEGORIES`
abbrev pub default_deny_categories : List OperationClass
default_deny_categories = exec_run ∷ admin_control ∷ []

abbrev pub strict_only_categories : List OperationClass
strict_only_categories = node_invoke ∷ export_data ∷ []

abbrev pub blocked : String → AdapterResponse
blocked message = record {
  ok = false;
  forwarded = some false;
  result = none;
  error = some (record { code = operation_blocked; message = message });
}

-- The `switch` of `route`: every operation class has a method, so its default is not reached.
unfoldable pub method_of : OperationClass → Method
method_of operator_read = read_resource
method_of file_read = read_resource
method_of operator_write = write_resource
method_of file_write = write_resource
method_of tool_invoke = invoke_tool
method_of node_invoke = invoke_node
method_of exec_run = execute_restricted
method_of admin_control = execute_restricted
method_of export_data = read_resource

module _ (transport : OpenClawTransport) where
  -- The method of the transport that was called, if one was, and the answer.
  unfoldable pub route : MediatedOperation → PolicyProfile → Option Method × AdapterResponse
  unfolding method_of
  route op profile =
      if includes default_deny_categories op.operation_class
        && not (profile == strict)
        && not (profile == scif)
      then (
        none,
        blocked
            (concat (operation_name op.operation_class ∷ " requires strict or scif profile." ∷ [])),
      )
      else if includes strict_only_categories op.operation_class && profile == standard
      then (
        none,
        blocked (
            concat
              (operation_name op.operation_class ∷ " not permitted at standard profile." ∷ [])),
      )
      else (some (method_of op.operation_class), transport.call (method_of op.operation_class) op)

  abbrev is_not_false : Option Bool → Bool
  is_not_false (some false) = false
  is_not_false _ = true

  unfoldable pub forward : MediatedOperation → PolicyProfile → Option Method × AdapterResponse
  unfolding route
  forward op profile =
      let (called, r) = route op profile in
      (called, record r { forwarded = some (is_not_false r.forwarded) })
