-- ===== src/Policy/Roles.antt =====
-- default-roles.ts, and the reading of a property of a plain object.
use openclaw_nie_guard.Common.{
  ◌≡◌, arith, String, Option, none, some, List, [], ◌∷◌, includes, string_eq, if◌then◌else◌, Map,
  lookup,
}
use openclaw_nie_guard.Types.{
  OperationClass, PolicyProfile, standard, strict, operator_read, operator_write, tool_invoke,
  node_invoke, file_read, file_write, export_data, exec_run, admin_control,
}

pub record RoleDefinition : Type 0 where
  pub description : String
  pub allowed_operations : List OperationClass
  pub default_profile : PolicyProfile
  pub requires_dual_control : List OperationClass

-- `object[name]`: a member of its own, one that it inherits from `Object.prototype`, or `undefined`.
pub data Property {ℓ} (A : Type ℓ) : Type ℓ where
  absent inherited : Property A
  own : A → Property A

-- The members of `Object.prototype`.
abbrev pub object_prototype : List String
object_prototype =
    "constructor" ∷ "__defineGetter__" ∷ "__defineSetter__" ∷ "hasOwnProperty" ∷ "__lookupGetter__"
    ∷ "__lookupSetter__" ∷ "isPrototypeOf" ∷ "propertyIsEnumerable" ∷ "toString" ∷ "valueOf"
    ∷ "__proto__" ∷ "toLocaleString" ∷ []

abbrev from_own {ℓ} : {A : Type ℓ} → Option A → String → Property A
from_own (some a) name = own a
from_own none name = if includes object_prototype name then inherited else absent

unfoldable pub get_property {ℓ} : {A : Type ℓ} → String → Map String A → Property A
get_property name members = from_own (lookup name members) name

-- `DEFAULT_ROLE_MATRIX`
abbrev pub default_role_matrix : Map String RoleDefinition
default_role_matrix =
    (
      "viewer",
      record {
        description = "Read-only access to operator resources.";
        allowed_operations = operator_read ∷ [];
        default_profile = standard;
        requires_dual_control = [];
      },
    )
    ∷ (
      "analyst",
      record {
        description = "Read plus approved read-only tool invocation.";
        allowed_operations = operator_read ∷ tool_invoke ∷ [];
        default_profile = standard;
        requires_dual_control = [];
      },
    )
    ∷ (
      "operator",
      record {
        description = "Read, write, and approved tool invocation.";
        allowed_operations =
            operator_read ∷ operator_write ∷ tool_invoke ∷ file_read ∷ file_write ∷ [];
        default_profile = standard;
        requires_dual_control = [];
      },
    )
    ∷ (
      "orchestrator",
      record {
        description = "Multi-agent orchestration across nodes. Sub-agent flows use CDT.";
        allowed_operations =
            operator_read ∷ operator_write ∷ tool_invoke ∷ node_invoke ∷ file_read ∷ file_write
            ∷ [];
        default_profile = strict;
        requires_dual_control = [];
      },
    )
    ∷ (
      "admin",
      record {
        description = "Administrative control. Dual-control enforced on all admin operations.";
        allowed_operations = admin_control ∷ exec_run ∷ [];
        default_profile = strict;
        requires_dual_control = admin_control ∷ exec_run ∷ [];
      },
    )
    ∷ (
      "egress_agent",
      record {
        description =
            "Agent permitted to make one outbound call. Present because a matrix that cannot express an egress-capable agent does not model any deployment we ship, and because the taint gate is only meaningful against a role that could otherwise carry data outward.";
        allowed_operations = operator_read ∷ file_read ∷ export_data ∷ [];
        default_profile = strict;
        requires_dual_control = [];
      },
    )
    ∷ (
      "node_admin",
      record {
        description = "Node administration. Pairing ops only via enrollment ceremony.";
        allowed_operations = node_invoke ∷ [];
        default_profile = strict;
        requires_dual_control = node_invoke ∷ [];
      },
    )
    ∷ []

pub lookup_of_own {ℓ} :
    {A : Type ℓ} (name : String) (members : Map String A) (a : A)
    → get_property name members ≡ own a
    → lookup name members ≡ some a
unfolding get_property
lookup_of_own name members a h = ground arith
