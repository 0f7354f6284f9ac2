-- ===== src/Types/Names.antt =====
-- The texts of the enumerations, as the source spells them, and texts put together from parts.
use Prim.Native.String
use Prim.Native.Char.{code}
use Prim.Native.Nat.{zero, suc}
use openclaw_nie_guard.Common.{◌+◌, ◌/◌, ◌%◌, ℕ, leb, if◌then◌else◌, ltb, String, List, [], ◌∷◌}
use openclaw_nie_guard.Types.Operations.{
  OperationClass, operator_read, operator_write, tool_invoke, node_invoke, file_read, file_write,
  export_data, exec_run, admin_control, IntentClass, read, write, analyze, export, execute,
  escalate, PolicyProfile, relaxed, standard, strict, scif,
}
use openclaw_nie_guard.Types.Classifications.{
  Classification, public, sensitive, regulated, classified_adjacent, Origin, external_channel,
  mcp_response, rag, system, tool_output, user, FheMode, mode_a, mode_b, mode_c,
}

-- A template: its parts in order.
abbrev pub concat : List String → String
concat [] = ""
concat (s ∷ ss) = String.◌++◌ s (concat ss)

-- `join(", ")`
abbrev pub comma_separated : List String → String
comma_separated [] = ""
comma_separated (s ∷ []) = s
comma_separated (s ∷ ss) = concat (s ∷ ", " ∷ comma_separated ss ∷ [])

abbrev pub operation_name : OperationClass → String
operation_name operator_read = "operator.read"
operation_name operator_write = "operator.write"
operation_name tool_invoke = "tool.invoke"
operation_name node_invoke = "node.invoke"
operation_name file_read = "file.read"
operation_name file_write = "file.write"
operation_name export_data = "export.data"
operation_name exec_run = "exec.run"
operation_name admin_control = "admin.control"

abbrev pub intent_name : IntentClass → String
intent_name read = "read"
intent_name write = "write"
intent_name analyze = "analyze"
intent_name export = "export"
intent_name execute = "execute"
intent_name escalate = "escalate"

abbrev pub profile_name : PolicyProfile → String
profile_name relaxed = "relaxed"
profile_name standard = "standard"
profile_name strict = "strict"
profile_name scif = "scif"

abbrev pub classification_name : Classification → String
classification_name public = "public"
classification_name sensitive = "sensitive"
classification_name regulated = "regulated"
classification_name classified_adjacent = "classified-adjacent"

abbrev pub origin_name : Origin → String
origin_name external_channel = "external-channel"
origin_name mcp_response = "mcp-response"
origin_name rag = "rag"
origin_name system = "system"
origin_name tool_output = "tool-output"
origin_name user = "user"

abbrev pub mode_name : FheMode → String
mode_name mode_a = "A"
mode_name mode_b = "B"
mode_name mode_c = "C"

abbrev digit : ℕ → String
digit zero = "0"
digit (suc zero) = "1"
digit (suc (suc zero)) = "2"
digit (suc (suc (suc zero))) = "3"
digit (suc (suc (suc (suc zero)))) = "4"
digit (suc (suc (suc (suc (suc zero))))) = "5"
digit (suc (suc (suc (suc (suc (suc zero)))))) = "6"
digit (suc (suc (suc (suc (suc (suc (suc zero))))))) = "7"
digit (suc (suc (suc (suc (suc (suc (suc (suc zero)))))))) = "8"
digit _ = "9"

-- A number in a template, in decimal. A safe integer is below 2 ^ 53, so 17 rounds are enough.
decimal_from : ℕ → ℕ → String → String
decimal_from zero n acc = acc
decimal_from (suc f) n acc =
    let acc' = String.◌++◌ (digit (n % 10)) acc in
    let rest = decimal_from f (n / 10) acc' in if ltb n 10 then acc' else rest

unfoldable pub decimal : ℕ → String
unfolding decimal_from
decimal n = decimal_from 17 n ""

-- `length` of a text: its UTF-16 code units.
unfoldable pub utf16_length : String → ℕ
utf16_length String.[] = 0
utf16_length (String.◌∷◌ c s) = (if leb 65536 (code c) then 2 else 1) + utf16_length s

-- `slice(0, n)` of a text in ASCII, such as a hash in hexadecimal.
unfoldable pub first_chars : ℕ → String → String
first_chars zero s = ""
first_chars (suc n) String.[] = ""
first_chars (suc n) (String.◌∷◌ c s) = String.◌∷◌ c (first_chars n s)
