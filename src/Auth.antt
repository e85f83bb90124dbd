-- ===== src/Auth.antt =====
-- backend/app/auth.py: who makes a request, and which device it comes from.
-- The JWT library is a parameter, `decode`: whether to check the expiry, the token, and the claims
-- of a token that it accepts.
use auto_script_hub.Prelude.{
  ℕ, String, Bool, true, not, ◌&&◌, Option, none, some, ◌==◌, str_eq, Reply, ok, http, ◌>>=◌, ◌>>◌,
  require, expect, first, holds, if◌then◌else◌,
}
use auto_script_hub.Store.{Db, User, Agent, is_managed, is_active}

-- A decoded payload: `sub`, `agent_id` and `user_id` as `int` reads them (none where it raises),
-- and whether `str(sub)` is the decimal of a number.
pub record Claims : Type 0 where
  pub kind : Option String
  pub sub : Option ℕ
  pub sub_is : ℕ → Bool
  pub agent_id : Option ℕ
  pub user_id : Option ℕ

abbrev pub Decode : Type 0
Decode = Bool → String → Option Claims

-- `if not token`
abbrev pub is_missing : Option String → Bool
is_missing none = true
is_missing (some t) = str_eq t ""

device_claims : Option Claims → Agent → Reply (Unit {0})
device_claims none agent = http 401 "无效的 Agent 设备令牌"
device_claims (some c) agent = do
  agent_id ← expect c.agent_id 401 "无效的 Agent 设备令牌"
  user_id ← expect c.user_id 401 "无效的 Agent 设备令牌"
  require
      (holds (λ k. str_eq k "agent") c.kind
        && (agent_id == agent.id && (user_id == agent.user_id && c.sub_is agent.user_id)))
      403 "Agent 设备令牌与目标不匹配"

decode_token : Decode → Bool → Option String → Option Claims
decode_token decode expiry none = none
decode_token decode expiry (some t) = decode expiry t

unfoldable pub verify_agent_token : Decode → Option String → Agent → Bool → Reply (Unit {0})
unfolding device_claims decode_token
verify_agent_token decode token agent allow_expired =
    if not (is_managed agent.mode)
    then ok tt
    else if is_missing token
    then http 401 "缺少 Agent 设备令牌"
    else device_claims (decode_token decode (not allow_expired) token) agent

session_user : Option Claims → Db → Reply User
session_user none db = http 401 "无效的令牌"
session_user (some c) db = do
  require (not (holds (λ k. str_eq k "agent") c.kind)) 401 "无效的令牌"
  user_id ← expect c.sub 401 "无效的令牌"
  expect (first (λ u. u.id == user_id && (is_active u.status && not u.is_deleted)) db.users) 401
      "用户不存在"

unfoldable pub get_current_user : Decode → Option String → Db → Reply User
unfolding session_user
get_current_user decode none db = http 401 "未登录"
get_current_user decode (some credentials) db = session_user (decode true credentials) db
