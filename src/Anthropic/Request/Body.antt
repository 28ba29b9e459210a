-- ===== src/Anthropic/Request/Body.antt =====
-- internal/handlers/anthropic.go: the model, the tools and the whole body of the request. `F` is the
-- type of the floating point numbers, which are passed on as they are.
use foxrouters.Anthropic.Request.{
  extract_text, translate_messages, Raw, OpenaiMessage, ContentBlock, said, AnthropicMessage,
}
use foxrouters.Custom.{CustomRegistry, resolve}
use foxrouters.Prelude.{
  if◌then◌else◌, Str, str_eq, contains, codes, has_prefix, Bool, not, ◌&&◌, ◌||◌, Option, none,
  some, List, [], ◌∷◌, ◌++◌, map,
}
use foxrouters.Prelude.Int.{ℤ, is_positive}
use foxrouters.Prelude.Space.{trim_space, to_lower}

-- What ANTHROPIC_DEFAULT_MODEL holds is an argument.
unfoldable pub default_anthropic_upstream : Str → Str
default_anthropic_upstream env =
    let v = trim_space env in if str_eq v [] then codes "cb/claude-sonnet-4.6" else v

unfoldable pub built_in_model : Str → Str → Str
built_in_model env m =
    if has_prefix m (codes "cb/") || has_prefix m (codes "grok-")
    then m
    else if contains (to_lower m) (codes "grok")
    then codes "grok-4.5"
    else default_anthropic_upstream env

unfoldable pub aliased_model : Option CustomRegistry → Str → Option Str
aliased_model none m = none
aliased_model (some reg) m =
    let resolved = (resolve reg m).resolved_model in
    if str_eq resolved m then none else some resolved

unfoldable pub map_anthropic_model : Str → Option CustomRegistry → Str → Str
map_anthropic_model env reg model =
    let m = trim_space model in
    if str_eq m []
    then default_anthropic_upstream env
    else elim (aliased_model reg m) [ none ↦ built_in_model env m | some r ↦ r ]

-- A tool of the request; a schema of `none` has no bytes.
pub record AnthropicTool : Type 0 where
  pub name : Str
  pub description : Str
  pub input_schema : Option Str

-- A tool of chat completions; a parameters of `none` is the schema of an empty object.
pub record OpenaiTool : Type 0 where
  pub name : Str
  pub description : Option Str
  pub parameters : Option Str

unfoldable pub translate_tool : AnthropicTool → OpenaiTool
translate_tool t = record {
  name = t.name;
  description = if str_eq t.description [] then none else some t.description;
  parameters = t.input_schema;
}

-- `none` for a field that is absent or is no list of tools.
unfoldable pub translate_tools : Option (List AnthropicTool) → List OpenaiTool
translate_tools none = []
translate_tools (some ts) = map translate_tool ts

-- tool_choice: a string, an object with its type and name, or neither.
pub data RawChoice : Type 0 where
  no_choice : RawChoice
  choice_text : Str → RawChoice
  choice_object : Str → Str → RawChoice
  choice_other : RawChoice

pub data OpenaiChoice : Type 0 where
  mode : Str → OpenaiChoice
  function : Str → OpenaiChoice

unfoldable pub choice_of_text : Str → OpenaiChoice
choice_of_text s =
    if str_eq s (codes "any")
    then mode (codes "required")
    else if str_eq s (codes "auto") || str_eq s (codes "none")
    then mode s
    else mode (codes "auto")

unfoldable pub choice_of_object : Str → Str → OpenaiChoice
choice_of_object type name =
    if str_eq type (codes "auto")
    then mode (codes "auto")
    else if str_eq type (codes "any")
    then mode (codes "required")
    else if str_eq type (codes "none")
    then mode (codes "none")
    else if str_eq type (codes "tool") && not (str_eq name [])
    then function name
    else mode (codes "auto")

unfoldable pub translate_tool_choice : RawChoice → Option OpenaiChoice
translate_tool_choice no_choice = none
translate_tool_choice (choice_text s) = some (choice_of_text s)
translate_tool_choice (choice_object type name) = some (choice_of_object type name)
translate_tool_choice choice_other = none

pub record AnthropicRequest (F : Type 0) : Type 0 where
  pub model : Str
  pub max_tokens : ℤ
  pub system : Raw ContentBlock
  pub messages : List AnthropicMessage
  pub stream : Bool
  pub temperature : Option F
  pub top_p : Option F
  pub stop_sequences : List Str
  pub tools : Option (List AnthropicTool)
  pub tool_choice : RawChoice

-- The body for chat completions; what is `none` or empty is absent, but for the messages.
pub record OpenaiBody (F : Type 0) : Type 0 where
  pub model : Str
  pub messages : List OpenaiMessage
  pub stream : Bool
  pub max_tokens : Option ℤ
  pub temperature : Option F
  pub top_p : Option F
  pub stop : List Str
  pub tools : List OpenaiTool
  pub tool_choice : Option OpenaiChoice

unfoldable pub system_messages : Raw ContentBlock → List OpenaiMessage
system_messages raw =
    let text = extract_text raw in
    if str_eq (trim_space text) [] then [] else said (codes "system") text ∷ []

module _ {F : Type 0} where
  unfoldable pub build_openai_body : Str → Option CustomRegistry → AnthropicRequest F → OpenaiBody F
  build_openai_body env reg req = record {
    model = map_anthropic_model env reg req.model;
    messages = system_messages req.system ++ translate_messages req.messages;
    stream = req.stream;
    max_tokens = if is_positive req.max_tokens then some req.max_tokens else none;
    temperature = req.temperature;
    top_p = req.top_p;
    stop = req.stop_sequences;
    tools = translate_tools req.tools;
    tool_choice = translate_tool_choice req.tool_choice;
  }

-- AnthropicAuthMiddleware: the path, and the headers Authorization and x-api-key; an empty header is
-- an absent one. It gives the new Authorization.
unfoldable pub anthropic_auth_middleware : Str → Str → Str → Str
anthropic_auth_middleware path authorization api_key =
    if not (has_prefix path (codes "/v1/"))
    then authorization
    else if str_eq authorization [] && not (str_eq api_key [])
    then codes "Bearer " ++ api_key
    else authorization
