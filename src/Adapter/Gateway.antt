-- ===== src/Adapter/Gateway.antt =====
-- packages/openclaw-adapter/src/gateway-transport.ts: reads forwarded to an OpenClaw gateway over HTTP. `fetch` is
-- a parameter: what the gateway answers to a call. A body is what the source's type reads of it, the empty one
-- where it is no JSON; parsing the URL is the runtime's, so a URL comes in its parts.
pub mod Answers
use Prim.Native.Char.{Char, code}
use Prim.Native.String
use openclaw_nie_guard.Common.{
  ℕ, zero, suc, String, Option, none, some, Bool, true, false, not, ◌&&◌, ◌||◌, List, [], ◌∷◌, ◌++◌,
  all, ltb, leb, ◌==◌, nat_eq, string_eq, if◌then◌else◌, ◌or_else◌, Map, lookup, is_some, is_space,
}
use openclaw_nie_guard.Types.{
  ErrorCode, text, Json, num, str, obj, Members, end, member, concat, decimal, operation_name,
  first_chars, utf16_length,
}
use openclaw_nie_guard.Adapter.{
  MediatedOperation, AdapterResponse, AdapterError, Method, read_resource, OpenClawTransport,
}

pub record GatewayTarget : Type 0 where
  pub tool : String
  pub path : String

pub record Url : Type 0 where
  pub protocol : String
  pub hostname : String
  pub host : String
  pub pathname : String
  pub search : String
  pub fragment : String
  pub username : String
  pub password : String

pub record OpenClawGatewayTransportOptions : Type 0 where
  pub url : Url
  pub token : String
  pub version : String
  pub targets : Map String GatewayTarget

-- The body of a call, and what comes back.
pub record GatewayCall : Type 0 where
  pub tool : String
  pub path : String
  pub idempotency_key : String

pub record ToolDetails : Type 0 where
  pub status : Option String
  pub code : Option String
  pub error : Option String
  pub text : Option String
  pub path : Option String
  pub lines : Option ℕ

pub record GatewayBody : Type 0 where
  pub ok : Bool
  pub error_message : Option String
  pub details : ToolDetails

pub data Fetched : Type 0 where
  no_answer : String → Fetched
  answered : ℕ → GatewayBody → Fetched

-- `STATUS_CODE`
abbrev pub status_codes : Map ℕ String
status_codes =
    (400, "ERR_OPENCLAW_BAD_REQUEST")
    ∷ (401, "ERR_OPENCLAW_UNAUTHORIZED")
    ∷ (403, "ERR_OPENCLAW_POLICY")
    ∷ (404, "ERR_OPENCLAW_TOOL_NOT_AVAILABLE")
    ∷ (405, "ERR_OPENCLAW_METHOD_NOT_ALLOWED")
    ∷ (408, "ERR_OPENCLAW_TIMEOUT")
    ∷ (413, "ERR_OPENCLAW_PAYLOAD_TOO_LARGE")
    ∷ (429, "ERR_OPENCLAW_RATE_LIMITED")
    ∷ (500, "ERR_OPENCLAW_TOOL_FAILED")
    ∷ []

abbrev pub status_code : ℕ → String
status_code status =
    lookup status status_codes or_else concat ("ERR_OPENCLAW_HTTP_" ∷ decimal status ∷ [])

-- `loopbackUrl`: `none` where it throws.
unfoldable pub loopback_url : Url → Option String
loopback_url u =
    if not (u.protocol == "http:")
    then none
    else if not (u.hostname == "127.0.0.1") && not (u.hostname == "[::1]")
    then none
    else if not (u.pathname == "/")
        || not (u.search == "")
        || not (u.fragment == "")
        || not (u.username == "")
        || not (u.password == "")
    then none
    else some (concat (u.protocol ∷ "//" ∷ u.host ∷ []))

abbrev is_digit : Char → Bool
is_digit c = leb b'0' (code c) && leb (code c) b'9'

abbrev is_lower : Char → Bool
is_lower c = leb b'a' (code c) && leb (code c) b'z'

abbrev is_upper : Char → Bool
is_upper c = leb b'A' (code c) && leb (code c) b'Z'

abbrev every_char : (Char → Bool) → String → Bool
every_char p String.[] = true
every_char p (String.◌∷◌ c s) = p c && every_char p s

-- One character of the first kind and at most `n` of the second.
abbrev is_name : (Char → Bool) → (Char → Bool) → ℕ → String → Bool
is_name first later n String.[] = false
is_name first later n (String.◌∷◌ c s) = first c && every_char later s && leb (utf16_length s) n

abbrev has_space : String → Bool
has_space String.[] = false
has_space (String.◌∷◌ c s) = is_space c || has_space s

-- The parts of a text between the dots.
abbrev add_char : Char → List String → List String
add_char c [] = String.◌∷◌ c "" ∷ []
add_char c (part ∷ parts) = String.◌∷◌ c part ∷ parts

abbrev dotted : String → List String
dotted String.[] = "" ∷ []
dotted (String.◌∷◌ c s) =
    let rest = dotted s in if code c == b'.' then "" ∷ rest else add_char c rest

abbrev has_digits : ℕ → ℕ → String → Bool
has_digits least most s =
    every_char is_digit s && leb least (utf16_length s) && leb (utf16_length s) most

abbrev is_version_of : List String → Bool
is_version_of (a ∷ b ∷ c ∷ []) = has_digits 4 4 a && has_digits 1 2 b && has_digits 1 3 c
is_version_of _ = false

-- `TOOL_NAME`, `TARGET_ID` and the pattern of a tool's own code
abbrev pub is_tool_name : String → Bool
is_tool_name s = is_name is_lower (λ c. is_lower c || is_digit c || code c == b'_') 63 s

abbrev is_alphanumeric : Char → Bool
is_alphanumeric c = is_upper c || is_lower c || is_digit c

abbrev pub is_target_id : String → Bool
is_target_id s =
    is_name is_alphanumeric
      (λ c. is_alphanumeric c || code c == b'.' || code c == b'_' || code c == b'-') 127 s

abbrev pub is_tool_code : String → Bool
is_tool_code s = is_name is_upper (λ c. is_upper c || is_digit c || code c == b'_') 63 s

abbrev is_target : String × GatewayTarget → Bool
is_target (id, target) = is_target_id id && is_tool_name target.tool && not (target.path == "")

-- The constructor, where it does not throw.
unfoldable pub accepts_options : OpenClawGatewayTransportOptions → Bool
unfolding loopback_url
accepts_options options =
    is_some (loopback_url options.url)
    && not (options.token == "" || has_space options.token)
    && is_version_of (dotted options.version)
    && all is_target options.targets

abbrev refuse : String → String → AdapterResponse
refuse code message = record {
  ok = false;
  forwarded = some false;
  result = none;
  error = some (record { code = text code; message = message });
}

-- An error that the gateway answered: `forwarded` is left to the adapter.
-- A failure, with 200 characters of its message at most: `slice` counts a character outside the first 65536 as
-- two. A body that is the JSON `null` is left out; the source throws on it.
abbrev failure : String → String → AdapterResponse
failure code message = record {
  ok = false;
  forwarded = none;
  result = none;
  error = some (record { code = text code; message = first_chars 200 message });
}

abbrev lines_member : Option ℕ → Members → Members
lines_member none rest = rest
lines_member (some n) rest = member "lines" (num n) rest

abbrev tool_code : ToolDetails → String
tool_code d =
    if (d.status or_else "") == "not_found"
    then "ERR_OPENCLAW_NOT_FOUND"
    else if is_tool_code (d.code or_else "")
    then concat ("ERR_OPENCLAW_" ∷ (d.code or_else "") ∷ [])
    else "ERR_OPENCLAW_TOOL_ERROR"

abbrev pub read_result : GatewayTarget → ToolDetails → Json
read_result target d = obj (
    member "tool" (str target.tool) (
      member "path" (str (d.path or_else target.path))
        (lines_member d.lines (member "text" (str (d.text or_else "")) end))))

-- `invoke`, from the answer on.
unfoldable pub mapped : GatewayTarget → Fetched → AdapterResponse
mapped target (no_answer message) = failure "ERR_OPENCLAW_UNREACHABLE" message
mapped target (answered status body) =
    if not (status == 200)
    then failure (status_code status)
        (body.error_message or_else concat ("the gateway answered " ∷ decimal status ∷ []))
    else if not body.ok
    then failure "ERR_OPENCLAW_TOOL_FAILED" (body.error_message or_else "the tool did not succeed")
    else if not ((body.details.status or_else "") == "ok")
    then failure (tool_code body.details) (
        body.details.error
        or_else concat ("the tool answered " ∷ (body.details.status or_else "undefined") ∷ []))
    else record {
      ok = true;
      forwarded = none;
      result = some (read_result target body.details);
      error = none;
    }

module _ (options : OpenClawGatewayTransportOptions) (fetch : GatewayCall → Fetched) where
  abbrev pub call_of : GatewayTarget → MediatedOperation → GatewayCall
  call_of target op = record {
    tool = target.tool;
    path = target.path;
    idempotency_key = op.correlation_id;
  }

  -- Each operation: the call of the gateway, if there is one, and the answer.
  unfoldable pub invoke : GatewayTarget → MediatedOperation → Option GatewayCall × AdapterResponse
  unfolding mapped
  invoke target op = (some (call_of target op), mapped target (fetch (call_of target op)))

  unfoldable pub read_target : MediatedOperation → Option GatewayCall × AdapterResponse
  unfolding invoke
  read_target op = elim (lookup op.target_id options.targets) [
    | none ↦ (
      none,
      refuse "ERR_OPENCLAW_UNKNOWN_TARGET"
          (concat ("no OpenClaw target " ∷ op.target_id ∷ " in this deployment" ∷ [])),
    )
    | some target ↦ invoke target op
  ]

  unfoldable pub not_mapped : MediatedOperation → Option GatewayCall × AdapterResponse
  not_mapped op = (
    none,
    refuse "ERR_OPENCLAW_NOT_MAPPED" (
        concat (
          operation_name op.operation_class
          ∷ " is not mapped to the OpenClaw gateway in this deployment"
          ∷ [])),
  )

  unfoldable pub perform : Method → MediatedOperation → Option GatewayCall × AdapterResponse
  unfolding read_target not_mapped
  perform read_resource op = read_target op
  perform _ op = not_mapped op

  unfoldable pub gateway_transport : OpenClawTransport
  gateway_transport = record {
    name = "openclaw-gateway";
    version = some options.version;
    call = λ method op. (perform method op).1;
  }
