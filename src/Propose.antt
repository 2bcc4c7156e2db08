-- ===== src/Propose.antt =====
-- agent_tools/propose.py: the tool that turns the model's words into a checked proposal.
pub mod Unique
use park_smart_harness.Base.{
  String, ◌<>◌, show, Bool, true, false, Option, none, some, List, [], ◌∷◌, ◌==◌, ◌&&◌, not,
  nonempty, filter, length, take, if◌then◌else◌,
}
use park_smart_harness.Json.{Json, Dict, get}
use park_smart_harness.Tools.{ToolResult, ToolContext, Principal}
use park_smart_harness.PlanView.{text_of_json}
use park_smart_harness.Compaction.Compactor.{join_with}
use park_smart_harness.Proposal.{ControlProposal, Proposals, put}
use park_smart_harness.Ground.{
  Intent, Grounded, Rejection, Fetched, fetched, backend_error, Grounding, grounded, rejected,
  ReversibilityMap, payload, door_payload,
}
use park_smart_harness.Ground.Control.{ParamReader, Texts, ground_control}

-- `DeviceHit` of agent_tools/backend.py, as far as it is read here.
pub record DeviceHit : Type 0 where
  pub device_id : String
  pub name : String
  pub status : String
  pub point_type_no : String
  pub point_type_id : String
  pub point_id : String

-- The reads of the backend that a proposal makes.
pub record ProposeBackend : Type 0 where
  pub device_status : String → Option String → Fetched (List DeviceHit)
  pub params : ParamReader

pub record Coordinates : Type 0 where
  pub point_type_id : String
  pub device_id : String
  pub point_type_no : String
  pub point_id : String

pub data Target : Type 0 where
  located : Coordinates → Target
  unclear : String → Target

abbrev pub text_or : String → String → String
text_or a b = if nonempty a then a else b

abbrev pub failure : String → ToolResult
failure error = record { ok = false; content = ""; error = some error }

abbrev pub success : String → ToolResult
success content = record { ok = true; content = content; error = none }

abbrev pub token_of : Option Principal → Option String
token_of none = none
token_of (some p) = p.token

-- The coordinates that were given, and those of the device for the ones that were not.
abbrev pub filled : Coordinates → DeviceHit → Coordinates
filled c h = record {
  point_type_id = text_or c.point_type_id h.point_type_id;
  device_id = text_or c.device_id h.device_id;
  point_type_no = text_or c.point_type_no h.point_type_no;
  point_id = text_or c.point_id h.point_id;
}

abbrev pub candidate_names : List DeviceHit → List String
candidate_names [] = []
candidate_names (h ∷ hs) =
    if nonempty h.name
    then (h.name <> "(" <> h.status <> ")") ∷ candidate_names hs
    else candidate_names hs

abbrev pub ambiguous : String → List DeviceHit → Target
ambiguous target hits = unclear (
    "「"
    <> target
    <> "」匹配到 "
    <> show (length hits)
    <> " 台设备,控制必须唯一目标、**绝不替用户选**。"
    <> "**请把下面候选完整列给用户,并明确告诉用户怎么回复**"
    <> "——回设备编号即可(如「空调机组101」)。"
    <> "候选清单:"
    <> join_with "、" (candidate_names (take 12 hits)))

-- Of several devices, the one whose name is exactly the target, if it is the only one.
abbrev pub exact_hit : Coordinates → String → List DeviceHit → List DeviceHit → Target
exact_hit c target hits (h ∷ []) = located (filled c h)
exact_hit c target hits _ = ambiguous target hits

abbrev pub pick_hit : Coordinates → String → List DeviceHit → Target
pick_hit c target [] =
    unclear ("未找到名为「" <> target <> "」的设备(后端连接正常,但无此设备)。" <> "请用户确认设备名或编号;可先查设备运行状态列出可用设备。")
pick_hit c target (h ∷ []) = located (filled c h)
pick_hit c target (h ∷ k ∷ hs) =
    exact_hit c target (h ∷ k ∷ hs) (filter (λ d. d.name == target) (h ∷ k ∷ hs))

abbrev pub from_status : Coordinates → String → Fetched (List DeviceHit) → Target
from_status c target (fetched hits) = pick_hit c target hits
from_status c target (backend_error code text) = unclear (
    "控制提案登记失败:后端设备查询出错(code=" <> code <> ":" <> text <> ")。"
    <> "这是**系统/认证/网络**问题(常见为 AI 服务的后端 token 失效),**不是设备名问题**——"
    <> "请直接告知用户:暂时无法连接设备后端、需检查/更新 token 与后端连通," <> "**不要让用户改用更精确的设备名**(换名无法解决)。")

module _ {Num : Type 0} (texts : Texts Num) (rmap : ReversibilityMap)
    (backend : ProposeBackend) where
  -- `str(args.get(k, ""))`
  abbrev pub text_arg : String → Dict → String
  text_arg k args = text_given (get k args)
    where
      text_given : Option Json → String
      text_given none = ""
      text_given (some v) = text_of_json texts.repr v

  abbrev pub given : Dict → Coordinates
  given args = record {
    point_type_id = text_arg "point_type_id" args;
    device_id = text_arg "device_id" args;
    point_type_no = text_arg "point_type_no" args;
    point_id = text_arg "point_id" args;
  }

  abbrev pub name_given : Dict → String
  name_given args = text_or (text_arg "target" args) (text_arg "device" args)

  abbrev pub locate : Dict → Option String → Target
  locate args token =
      if not (nonempty (text_arg "point_type_id" args)) && nonempty (name_given args)
      then from_status (given args) (name_given args)
          (backend.device_status (name_given args) token)
      else located (given args)

  abbrev pub intent_of : Dict → Coordinates → Intent
  intent_of args c = record {
    point_type_id = c.point_type_id;
    point_type_no = c.point_type_no;
    device_id = c.device_id;
    point_id = c.point_id;
    system_no = text_arg "system_no" args;
    param = text_arg "param" args;
    value = text_arg "value" args;
  }

  abbrev pub target_name : Dict → Grounded → String
  target_name args g = text_or (name_given args) (text_or g.point_type_no "目标设备")

  abbrev pub human_of : Dict → Grounded → String
  human_of args g =
      "对「"
      <> target_name args g
      <> "」"
      <> g.param_type_name
      <> "="
      <> g.param_value
      <> "（"
      <> g.reversibility
      <> "）"

  abbrev pub proposal_of : Dict → ToolContext → Grounded → ControlProposal
  proposal_of args ctx g = record {
    target = target_name args g;
    action = g.action;
    params =
        if g.action == "doorControl" then door_payload texts.int_of g else payload texts.int_of g;
    risk = "ticket";
    human = human_of args g;
    requires_confirmation = true;
    handle = "";
    reversibility = g.reversibility;
    token = token_text (token_of ctx.principal);
    thread_id = ctx.thread_id;
  }
    where
      token_text : Option String → String
      token_text none = ""
      token_text (some t) = t

  -- `fresh` is the uuid that the store draws.
  abbrev pub registered :
      Dict → ToolContext → String → Proposals → Grounding → ToolResult × Proposals
  registered args ctx fresh store (rejected r) = (failure ("控制提案被拒:" <> r.reason), store)
  registered args ctx fresh store (grounded g) = (
    success (
        "控制提案已登记（"
        <> human_of args g
        <> "）。"
        <> "主控直接调用 execute_proposal 发起确认即可(**无需传 handle/提案号**,系统自动取最近一条),"
        <> "不要自己下发控制。"),
    (put fresh (proposal_of args ctx g) store).1,
  )

  abbrev pub at_target : Dict → ToolContext → String → Proposals → Target → ToolResult × Proposals
  at_target args ctx fresh store (unclear error) = (failure error, store)
  at_target args ctx fresh store (located c) =
      registered args ctx fresh store
        (ground_control texts rmap false (intent_of args c) backend.params (token_of ctx.principal))

  -- The handler of `propose_control`; no caller says that the backend is idempotent.
  unfoldable pub propose_control : Dict → ToolContext → String → Proposals → ToolResult × Proposals
  propose_control args ctx fresh store =
      at_target args ctx fresh store (locate args (token_of ctx.principal))
