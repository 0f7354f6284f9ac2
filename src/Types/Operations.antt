-- ===== src/Types/Operations.antt =====
-- operation.ts and intent.ts of packages/shared-types: operation classes, policy profiles and intent
-- classes, and the intents that each operation permits.
use openclaw_nie_guard.Common.{ℕ, zero, suc, ◌≡◌, refl, List, [], ◌∷◌, Eq, eq_of_code}

-- `OperationClass`
pub data OperationClass : Type 0 where
  operator_read operator_write tool_invoke node_invoke file_read file_write export_data exec_run
        admin_control :
      OperationClass

abbrev pub operation_class_code : OperationClass → ℕ
operation_class_code operator_read = 0
operation_class_code operator_write = 1
operation_class_code tool_invoke = 2
operation_class_code node_invoke = 3
operation_class_code file_read = 4
operation_class_code file_write = 5
operation_class_code export_data = 6
operation_class_code exec_run = 7
operation_class_code admin_control = 8

abbrev operation_class_of_code : ℕ → OperationClass
operation_class_of_code zero = operator_read
operation_class_of_code (suc zero) = operator_write
operation_class_of_code (suc (suc zero)) = tool_invoke
operation_class_of_code (suc (suc (suc zero))) = node_invoke
operation_class_of_code (suc (suc (suc (suc zero)))) = file_read
operation_class_of_code (suc (suc (suc (suc (suc zero))))) = file_write
operation_class_of_code (suc (suc (suc (suc (suc (suc zero)))))) = export_data
operation_class_of_code (suc (suc (suc (suc (suc (suc (suc zero))))))) = exec_run
operation_class_of_code _ = admin_control

pub operation_class_of_code-operation_class_code :
    (a : OperationClass) → operation_class_of_code (operation_class_code a) ≡ a
operation_class_of_code-operation_class_code operator_read = refl
operation_class_of_code-operation_class_code operator_write = refl
operation_class_of_code-operation_class_code tool_invoke = refl
operation_class_of_code-operation_class_code node_invoke = refl
operation_class_of_code-operation_class_code file_read = refl
operation_class_of_code-operation_class_code file_write = refl
operation_class_of_code-operation_class_code export_data = refl
operation_class_of_code-operation_class_code exec_run = refl
operation_class_of_code-operation_class_code admin_control = refl

instance abbrev pub operation_class_eq : Eq OperationClass
operation_class_eq =
    eq_of_code operation_class_code operation_class_of_code
      operation_class_of_code-operation_class_code

-- `PolicyProfile`
pub data PolicyProfile : Type 0 where
  relaxed standard strict scif : PolicyProfile

abbrev pub policy_profile_code : PolicyProfile → ℕ
policy_profile_code relaxed = 0
policy_profile_code standard = 1
policy_profile_code strict = 2
policy_profile_code scif = 3

abbrev policy_profile_of_code : ℕ → PolicyProfile
policy_profile_of_code zero = relaxed
policy_profile_of_code (suc zero) = standard
policy_profile_of_code (suc (suc zero)) = strict
policy_profile_of_code _ = scif

pub policy_profile_of_code-policy_profile_code :
    (a : PolicyProfile) → policy_profile_of_code (policy_profile_code a) ≡ a
policy_profile_of_code-policy_profile_code relaxed = refl
policy_profile_of_code-policy_profile_code standard = refl
policy_profile_of_code-policy_profile_code strict = refl
policy_profile_of_code-policy_profile_code scif = refl

instance abbrev pub policy_profile_eq : Eq PolicyProfile
policy_profile_eq =
    eq_of_code policy_profile_code policy_profile_of_code policy_profile_of_code-policy_profile_code

-- `IntentClass`
pub data IntentClass : Type 0 where
  read write analyze export execute escalate : IntentClass

abbrev pub intent_class_code : IntentClass → ℕ
intent_class_code read = 0
intent_class_code write = 1
intent_class_code analyze = 2
intent_class_code export = 3
intent_class_code execute = 4
intent_class_code escalate = 5

abbrev intent_class_of_code : ℕ → IntentClass
intent_class_of_code zero = read
intent_class_of_code (suc zero) = write
intent_class_of_code (suc (suc zero)) = analyze
intent_class_of_code (suc (suc (suc zero))) = export
intent_class_of_code (suc (suc (suc (suc zero)))) = execute
intent_class_of_code _ = escalate

pub intent_class_of_code-intent_class_code :
    (a : IntentClass) → intent_class_of_code (intent_class_code a) ≡ a
intent_class_of_code-intent_class_code read = refl
intent_class_of_code-intent_class_code write = refl
intent_class_of_code-intent_class_code analyze = refl
intent_class_of_code-intent_class_code export = refl
intent_class_of_code-intent_class_code execute = refl
intent_class_of_code-intent_class_code escalate = refl

instance abbrev pub intent_class_eq : Eq IntentClass
intent_class_eq =
    eq_of_code intent_class_code intent_class_of_code intent_class_of_code-intent_class_code

-- `OPERATION_TO_INTENT`
unfoldable pub operation_to_intent : OperationClass → List IntentClass
operation_to_intent operator_read = read ∷ analyze ∷ []
operation_to_intent operator_write = write ∷ []
operation_to_intent tool_invoke = read ∷ analyze ∷ write ∷ []
operation_to_intent node_invoke = read ∷ analyze ∷ write ∷ execute ∷ []
operation_to_intent file_read = read ∷ analyze ∷ []
operation_to_intent file_write = write ∷ []
operation_to_intent export_data = export ∷ []
operation_to_intent exec_run = execute ∷ []
operation_to_intent admin_control = escalate ∷ []
