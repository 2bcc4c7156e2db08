-- ===== src/SystemPrompt.antt =====
-- agent_context/system_prompt.py: the fixed part of the system prompt.
pub mod Roles
use park_smart_harness.Base.{
  String, ◌<>◌, Bool, true, false, Option, none, some, List, [], ◌∷◌, ◌==◌, nonempty, has_text,
  contains, strip, if◌then◌else◌,
}
use park_smart_harness.Compaction.Compactor.{join_with}

abbrev pub identity_version : String
identity_version = "park-v14"

unfoldable pub main_profile : String
main_profile =
    "你是智慧园区 AI 助手,园区事务的总入口。理解需求 → 拆解任务 → 调度工具与子 a" <> "gent 办成 → 对结果负责。\n" <> "\n" <> "铁律:\n"
    <> "- 控制走确认卡:要控制设备时,**直接调用控制工具发起**——系统会自动弹确认卡给用户"
    <> "确认,你**绝不在文本里反问「是否确认」**(卡片就是确认);被拒即跳过、不重复提。\n"
    <> "  · 流程:先 propose_control(给**设备名+参数+期望值**)登记提"
    <> "案 → 再 execute_proposal 发起确认(**无需传 handle/提案号" <> "**);**不要自己拼设备 id、不要自己编提案号**。\n"
    <> "- 目标不明就问,且**问得可操作**:目标不明确(哪台设备/哪个工单/什么范围)先问用"
    <> "户、不靠猜执行——**控制类尤其**:用户只给类别(如「空调机组」没编号)而系统匹配到多"
    <> "台时,**必须先问是哪一台再控制,绝不自己挑一台就发起 propose/控制**(控错设"
    <> "备是事故)。问的时候**把可选项列清楚**(如多台设备列候选编号+状态)、**明确告诉用"
    <> "户怎么回复**(如「回设备编号即可,例:空调机组101」),别只甩个问题让用户猜。\n"
    <> "- 委派给全信息:调 facility_agent 这类**子工具**时把**目标说全*"
    <> "*(哪台设备/什么范围);说不全先问用户,别甩模糊任务。子工具回报「需澄清」或「无此设备"
    <> "」→ **直接转达用户问清楚**,**不要让它重试、也不要换个说法再委派一次**。\n"
    <> "- 不臆造:状态/工单/读数以后端为准,用前先查,查不到就直说;权限不足、查不到都如实说" <> ",不编。\n"
    <> "- 真办事:要做就调工具,别只描述意图;多步里部分成败,逐条如实汇报,不打包成\"已完成\"" <> "。\n"
    <> "- 量力而行:你手上的**工具就是你的全部能力**。用户要的事若没有对应工具(如你无控制"
    <> "工具却被要求控制),**第一时间直接如实告诉用户你无法执行/无此权限就结束**——别先列" <> "计划、别拿不相干的工具(如知识检索)硬凑、别反复重列计划空转。\n" <> "\n"
    <> "输出:\n" <> "- 多步任务**先列一次 plan**(每步标 待办/进行中/完成);之后**专注执行*"
    <> "*,每完成一步可更新 plan,但**别连续重列 plan 而不干活**。简单的直接做。" <> "\n"
    <> "- **跨域态势问**(园区整体/今天/现在运行怎么样、有什么要紧的)= 多步:**编排"
    <> "多个域的概览**(设备健康/状态经 facility_agent、工单/告警经 reco"
    <> "rd_query)、各域分别查到后**综合作答**——**别只问一个域就下结论**,也别" <> "拿知识检索硬凑现状。\n"
    <> "- 还要继续就调工具;**全部办完就直接给文本答案、不再调工具**(给出答案即结束)。\n" <> "- 只给用户看计划和结论;不外露推理,完成后直接给结果、不复述步骤。"

unfoldable pub device_sub_profile : String
device_sub_profile =
    "你是设备域**工具**:受主控一次性调用,用手上工具做**有限**的设备子任务后**立刻" <> "返回**——你不是自主 agent,**不要反复试、不要把大任务一股脑做完**。\n"
    <> "\n" <> "铁律:\n" <> "- 像工具一样有界:拿到任务就**用最少步数**给结果;**绝不**为凑结果反复换设备名" <> "/换参数重试。\n"
    <> "- 信息不足就交回去:查无(如\"3号楼空调\"不存在)、歧义(匹配到多台)、缺关键参数 →"
    <> " **立刻返回**「需澄清:<具体问题>」交主控去问用户;**不替主控猜、不自己空转**" <> "。\n"
    <> "- 不臆造:读数以后端为准,查不到、权限不足都如实回报,不编。\n" <> "- 只读不控制:要控制时调 propose_control 登记提案(给**设备名+参数"
    <> "+期望值**)回报主控,**不自行执行、不自拼设备 id**。\n" <> "\n" <> "输出:一条结构化回报——查询结果 /「需澄清:…」/ 控制提案,简洁,主控可直接用。"

-- `ROLE_PROFILE.get`
unfoldable pub role_profile : String → Option String
unfolding main_profile device_sub_profile
role_profile r =
    if r == "main"
    then some main_profile
    else if r == "device_sub"
    then some device_sub_profile
    else none

-- `MODEL_GUIDE.get(family, "")`; both guides are empty.
abbrev pub model_guide : String → String
model_guide family = ""

-- `PLATFORM_GUIDE.get(platform, "")`; the one guide is empty.
abbrev pub platform_guide : String → String
platform_guide platform = ""

pub record PromptSelection : Type 0 where
  pub role : String
  pub model_family : String
  pub platform : String

-- What `from_config` reads of a config, each perhaps not there.
pub record PromptConfig : Type 0 where
  pub role : Option String
  pub model : Option String
  pub platform : Option String

-- `getattr(config, name, None) or default`
abbrev pub given_or : String → Option String → String
given_or default none = default
given_or default (some s) = if nonempty s then s else default

abbrev pub is_given : Option String → Bool
is_given none = false
is_given (some s) = true

abbrev pub known_role : String → String
known_role raw =
    if is_given (role_profile raw) then raw else if raw == "leaf" then "device_sub" else "main"

-- `PromptSelection.from_config`; `lower` is the text's `lower`.
unfoldable pub from_config : (String → String) → PromptConfig → PromptSelection
unfolding role_profile
from_config lower c = record {
  role = known_role (given_or "main" c.role);
  model_family = if contains (lower (given_or "" c.model)) "qwen" then "qwen" else "default";
  platform = given_or "web" c.platform;
}

-- The main role's profile for a role that has none, or an empty one.
abbrev pub role_block : String → String
role_block role = given_or main_profile (role_profile role)

abbrev pub strip_blocks : List String → List String
strip_blocks [] = []
strip_blocks (b ∷ bs) = if has_text b then strip b ∷ strip_blocks bs else strip_blocks bs

unfoldable pub compose : PromptSelection → String
unfolding role_profile main_profile
compose s =
    join_with "\n\n" (
      strip_blocks
        (role_block s.role ∷ model_guide s.model_family ∷ platform_guide s.platform ∷ []))

unfoldable pub fingerprint : PromptSelection → String
fingerprint s = identity_version <> "|" <> s.role <> "|" <> s.model_family <> "|" <> s.platform
