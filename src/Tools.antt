-- ===== src/Tools.antt =====
-- backend/app/tools: results.py, registry.py and execution.py. The check of a tool's parameter model
-- (pydantic's) and the run of a tool are parameters; an unexpected exception is a value of any type
-- `E`. Durations and log lines are left out, and the error texts that embed a name, a timeout or a
-- validation report are parameters, since their rendering is Python's.
pub mod Calls
mod Tests
use nexa_assist.Common.{
  String, Bool, true, false, not, ◌||◌, Option, none, some, Result, ◌>>=◌, ◌>>◌, raise_if,
  string_key, ltb, length,
}
use nexa_assist.Dict.{Dict, lookup, insert, has_key}
use nexa_assist.Names.{codes, all_allowed, is_empty}
use nexa_assist.Jobs.Base.{max_name_length}

pub data ToolOutcome : Type 0 where
  ok invalid_params failed timeout not_found : ToolOutcome

pub record ToolResult (V : Type 0) : Type 0 where
  pub tool : String
  pub outcome : ToolOutcome
  pub output : Option V
  pub error : Option String
  pub retryable : Bool

-- How `tool.run` ended under `asyncio.timeout`.
pub data ToolRan (V E : Type 0) : Type 0 where
  returned : V → ToolRan V E
  timed_out : ToolRan V E
  tool_error : String → Bool → ToolRan V E
  raised : E → ToolRan V E

pub record Tool (V P E : Type 0) : Type 0 where
  pub name : String
  pub description : String
  pub model_validate : V → Result String P
  pub run : P → ToolRan V E

pub data ToolFault : Type 0 where
  registration tool_not_found : ToolFault

pub record Texts : Type 0 where
  pub unavailable : String → String
  pub too_slow : String
  pub invalid : String → String

abbrev pub unexpected_error : String
unexpected_error = "The tool failed unexpectedly."

module _ {V : Type 0} where
  -- `ToolResult.ok`
  abbrev pub is_ok : ToolResult V → Bool
  is_ok r = elim r.outcome [ ok ↦ true | _ ↦ false ]

  -- `ToolResult.success` and `ToolResult.failure`
  abbrev pub success : String → V → ToolResult V
  success tool output = record {
    tool = tool;
    outcome = ok;
    output = some output;
    error = none;
    retryable = false;
  }

  abbrev pub failure : String → ToolOutcome → String → Bool → ToolResult V
  failure tool outcome error retryable = record {
    tool = tool;
    outcome = outcome;
    output = none;
    error = some error;
    retryable = retryable;
  }

module _ {V P E : Type 0} where
  unfoldable pub register :
      Dict String (Tool V P E) → Tool V P E → Result ToolFault (Dict String (Tool V P E))
  register tools tool = do
    raise_if (is_empty (codes tool.name) || not (all_allowed (codes tool.name))) registration
    raise_if (ltb max_name_length (length (codes tool.name))) registration
    raise_if (is_empty (codes tool.description)) registration
    raise_if (has_key tool.name tools) registration
    Result.ok (insert tool.name tool tools)

  unfoldable pub get : Dict String (Tool V P E) → String → Result ToolFault (Tool V P E)
  get tools name = elim (lookup name tools) [
    | none ↦ Result.err tool_not_found
    | some tool ↦ Result.ok tool
  ]

  -- `_run`, by how the tool ended
  unfoldable pub run : Texts → Tool V P E → ToolRan V E → ToolResult V
  run texts tool (returned output) = success tool.name output
  run texts tool timed_out = failure tool.name timeout texts.too_slow true
  run texts tool (tool_error message retryable) = failure tool.name failed message retryable
  run texts tool (raised e) = failure tool.name failed unexpected_error false

  -- `empty` is the `{}` of `params or {}`.
  unfoldable pub execute : Texts → V → Dict String (Tool V P E) → String → Option V → ToolResult V
  unfolding get
  execute texts empty tools name params = elim (get tools name) [
    | Result.err fault ↦ failure name not_found (texts.unavailable name) false
    | Result.ok tool ↦
        elim (tool.model_validate (elim params [ none ↦ empty | some given ↦ given ])) [
          | Result.err report ↦ failure name invalid_params (texts.invalid report) false
          | Result.ok checked ↦ run texts tool (tool.run checked)
        ]
  ]
