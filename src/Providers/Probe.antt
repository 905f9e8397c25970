-- ===== src/Providers/Probe.antt =====
-- app/providers/probe/main.py: a check of every account, one after the other, and the result of all.
pub mod Closing
pub mod Secrets
pub mod Verdict
use qiankun.Prelude.{
  ℕ, ◌+◌, String, Bool, true, false, List, [], ◌∷◌, ◌++◌, map, maybe, none, if◌then◌else◌,
}
use qiankun.Prelude.Exec.{Exec, pure, raise, Error, ◌>>=◌, ◌>>◌}
use qiankun.Prelude.Lists.{all_of, length}
use qiankun.Prelude.Json.{Value, Fields, from_list, update_fields}
use qiankun.Prelude.Text.{fstring}
use qiankun.Scheduler.Attempt.{ProviderResult}
use qiankun.Providers.ProbeConfig.{ProbeKind, kind_name, ProbeAccount, ProbeConfig, display_url}
use qiankun.Providers.ProbeChecks.{
  Level, Probing, ProbeTools, ClientConduct, BrokerConduct, HttpConduct, log_line, get_time,
  elapsed_ms, result_of, check_http, check_client, check_rabbitmq,
}

-- What the libraries do during the check of one account.
pub record TargetConduct : Type 0 where
  pub http : HttpConduct
  pub client : ClientConduct
  pub broker : BrokerConduct

-- `checkers[config.kind]`
unfoldable pub checker :
    ProbeTools → ProbeConfig → ProbeAccount → TargetConduct → Exec Probing ProviderResult
unfolding check_http check_client check_rabbitmq
checker t config account c = elim (config.kind) [
  | ProbeKind.http ↦ check_http t c.http config account
  | ProbeKind.redis ↦ check_client t true c.client config account
  | ProbeKind.mysql ↦ check_client t false c.client config account
  | ProbeKind.postgresql ↦ check_client t false c.client config account
  | ProbeKind.rabbitmq ↦ check_rabbitmq t c.broker config account
  | ProbeKind.mongodb ↦ check_client t false c.client config account
]

-- The body of the loop of `_run_targets`
unfoldable pub run_target :
    ProbeTools → ProbeConfig → TargetConduct → ProbeAccount → Exec Probing ProviderResult
unfolding checker
run_target t config conduct account = do
  log_line Level.info
      (fstring ("[" ∷ account.name ∷ "] 开始检测 " ∷ display_url t.urls account.url ∷ []))
  checker t config account conduct

-- The loop; the conducts are given by the number of the round.
unfoldable pub run_each :
    ProbeTools
    → ProbeConfig
    → (ℕ → TargetConduct)
    → ℕ
    → List ProbeAccount
    → Exec Probing (List ProviderResult)
unfolding run_target
run_each t config conduct n [] = pure []
run_each t config conduct n (account ∷ accounts) = do
  result ← run_target t config (conduct n) account
  results ← run_each t config conduct (n + 1) accounts
  pure (result ∷ results)

-- `**result.data`
abbrev pub fields_of : Value → Fields
fields_of (Value.dict fields) = fields
fields_of _ = Fields.end

-- An entry of `target_results`
abbrev pub target_result : ProviderResult → Value
target_result r = Value.dict (
    update_fields
      (Fields.field "success" (Value.bool r.success)
        (Fields.field "message" (Value.str r.message) Fields.end))
      (fields_of r.payload))

-- The result of `_run_targets`, from those of the targets.
abbrev pub summary : ProbeConfig → String → List ProviderResult → ProviderResult
summary config success_message results =
    let success = all_of (λ (r : ProviderResult). r.success) results in
    result_of success
      (if success then success_message else fstring (kind_name config.kind ∷ " 连通性存在异常目标" ∷ []))
      (Fields.field "kind" (Value.str (kind_name config.kind))
        (Fields.field "targets" (Value.list (from_list (map target_result results))) Fields.end))

-- `_run_targets`
unfoldable pub run_targets :
    ProbeTools → ProbeConfig → (ℕ → TargetConduct) → String → Exec Probing ProviderResult
unfolding run_each
run_targets t config conduct success_message = do
  results ← run_each t config conduct 0 config.accounts
  pure (summary config success_message results)

-- `success_message`
abbrev pub success_message : ProbeConfig → String
success_message config = fstring (kind_name config.kind ∷ " 连通性正常" ∷ [])

-- The line before the checks, of so many targets
abbrev pub start_line : ProbeTools → ProbeKind → ℕ → String
start_line t kind n =
    fstring ("开始 " ∷ kind_name kind ∷ " 连通性检测, 共 " ∷ t.urls.show_int n ∷ " 个目标" ∷ [])

-- The end of `execute`; the clock is read once more for the log line's fields.
unfoldable pub announce :
    ProbeTools → ProbeConfig → ℕ → ProviderResult → Exec Probing ProviderResult
announce t config started result = do
  elapsed ← elapsed_ms t started
  log_line Level.info (
      fstring (
        kind_name config.kind
        ∷ " 连通性检测完成, "
        ∷ result.message
        ∷ ", 总耗时 "
        ∷ t.urls.show_int elapsed
        ∷ "ms"
        ∷ []))
  again ← elapsed_ms t started
  pure result

-- `execute`
unfoldable pub execute :
    ProbeTools → ProbeConfig → (ℕ → TargetConduct) → Exec Probing ProviderResult
unfolding run_targets announce
execute t config conduct = do
  started ← get_time t
  log_line Level.info (start_line t config.kind (length config.accounts))
  result ← run_targets t config conduct (success_message config)
  announce t config started result
