-- ===== src/Messages.antt =====
-- src/state.rs: the templates of the texts that refuse a request, with the defaults of src/store/config.rs.
use llm_gateway.Prelude.{ℕ, [], ◌∷◌}
use llm_gateway.Prelude.Text.{Text, codes, trim_start, show_ℕ, replace}

pub record MessageTemplates : Type 0 where
  pub concurrency_text : Text
  pub model_denied_text : Text

abbrev default_concurrency : Text
default_concurrency = codes "并发请求过高，请稍后重试（{retry} 秒后自动恢复）"

abbrev default_model_denied : Text
default_model_denied = codes "您的当前订阅套餐尚未包含对模型 {model} 的访问权限，请联系管理员开通"

-- `trim` leaves nothing exactly if `trim_start` leaves nothing.
or_default : Text → Text → Text → Text
or_default [] text default = default
or_default (c ∷ cs) text default = text

unfoldable pub concurrency : MessageTemplates → ℕ → Text
unfolding or_default
concurrency t retry_secs =
    let text = t.concurrency_text in
    replace (or_default (trim_start text) text default_concurrency) (codes "{retry}")
      (show_ℕ retry_secs)

unfoldable pub model_denied : MessageTemplates → Text → Text
unfolding or_default
model_denied t model =
    let text = t.model_denied_text in
    replace (or_default (trim_start text) text default_model_denied) (codes "{model}") model
