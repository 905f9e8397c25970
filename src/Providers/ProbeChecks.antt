-- ===== src/Providers/ProbeChecks.antt =====
-- app/providers/probe/main.py, the checks of one target. What a client library does during a check is its
-- `Conduct`; how long it waits is its own affair. `opened` and `closed` count the clients,
-- connections and channels that a check has got, and those that it has asked to close.
use qiankun.Prelude.{
  ℕ, ◌+◌, ◌-◌, String, Bool, true, false, ◌&&◌, Option, none, some, List, [], ◌∷◌, ◌++◌, leb, maybe,
  if◌then◌else◌,
}
use qiankun.Prelude.Exec.{
  Error, Exec, Result, ok, err, pure, raise, raise_if, modify, lift, ◌>>=◌, ◌>>◌,
}
use qiankun.Prelude.Json.{Value, JsonInt, Fields}
use qiankun.Prelude.Text.{fstring}
use qiankun.Scheduler.Attempt.{ProviderResult}
use qiankun.Providers.ProbeConfig.{
  kind_name, UrlTools, ProbeAccount, ProbeConfig, display_url, target_host,
}

pub data Level : Type 0 where
  info warning error : Level

pub record LogLine : Type 0 where
  pub level : Level
  pub message : String

pub record Probing : Type 0 where
  pub opened : ℕ
  pub closed : ℕ
  pub lines : List LogLine
  pub reads : ℕ

-- The monotonic clock in milliseconds, URLs, and `str.upper`
pub record ProbeTools : Type 0 where
  pub perf_counter : ℕ → ℕ
  pub urls : UrlTools
  pub upper : String → String

-- How the calls of a client library end. An exception has its text; `closing` says that the close
-- raises. The reply of Redis is `none` for `True` and `"OK"`, and otherwise its `repr`.
pub record ClientConduct : Type 0 where
  pub connecting : Option String
  pub working : Option String
  pub reply : Option String
  pub closing : Bool

-- Of RabbitMQ: a connection, a channel, and a message, which is there and is the same, or not.
pub record BrokerConduct : Type 0 where
  pub connecting : Option String
  pub channel : Option String
  pub publishing : Option String
  pub incoming : Option Bool
  pub acking : Option String
  pub channel_closing : Bool
  pub connection_closing : Bool

-- Of HTTP: a status, a `RequestsError`, or another exception.
pub data HttpConduct : Type 0 where
  responded : ℕ → HttpConduct
  request_error : String → HttpConduct
  other_error : HttpConduct

abbrev pub get_time : ProbeTools → Exec Probing ℕ
get_time t w = (ok (t.perf_counter w.reads), record w { reads = w.reads + 1 })

-- `_elapsed_ms`
abbrev pub elapsed_ms : ProbeTools → ℕ → Exec Probing ℕ
elapsed_ms t started = do now ← get_time t; pure (now - started)

abbrev pub log_line : Level → String → Exec Probing Unit
log_line level message =
    modify (λ w. record w { lines = w.lines ++ record { level = level; message = message } ∷ [] })

abbrev pub acquire : Exec Probing Unit
acquire = modify (λ w. record w { opened = w.opened + 1 })

-- A close, which counts also where it raises.
abbrev pub release : Bool → Exec Probing Unit
release raises =
    modify (λ w. record w { closed = w.closed + 1 }) >> raise_if raises Error.unexpected

abbrev int : ℕ → Value
int n = Value.int (JsonInt.nonnegative n)

-- `_target_data`
unfoldable pub target_data : ProbeTools → ProbeConfig → ProbeAccount → ℕ → Exec Probing (Fields × ℕ)
unfolding target_host
target_data t config account started = do
  host ← lift (target_host account.url)
  elapsed ← elapsed_ms t started
  pure (
    Fields.field "kind" (Value.str (kind_name config.kind)) (
        Fields.field "account" (Value.str account.name) (
          Fields.field "url" (Value.str (display_url t.urls account.url)) (
            Fields.field "host" (Value.str host) (
              Fields.field "port" (maybe account.url.port Value.null int)
                (Fields.field "elapsed_ms" (int elapsed) Fields.end))))),
    elapsed,
  )

abbrev pub result_of : Bool → String → Fields → ProviderResult
result_of success message fields = record {
  success = success;
  message = message;
  payload = Value.dict fields;
}

abbrev append_field : String → Value → Fields → Fields
append_field key v Fields.end = Fields.field key v Fields.end
append_field key v (Fields.field k w fs) = Fields.field k w (append_field key v fs)

abbrev ms : ProbeTools → ℕ → String
ms t n = fstring (", 耗时 " ∷ t.urls.show_int n ∷ "ms" ∷ [])

abbrev about : ProbeAccount → String
about account = fstring ("[" ∷ account.name ∷ "] " ∷ [])

-- `_succeed`; the target of its line is the host and the port of `data`.
unfoldable pub succeed :
    ProbeTools → ProbeConfig → ProbeAccount → Fields × ℕ → Exec Probing ProviderResult
succeed t config account found = do
  let message = fstring (kind_name config.kind ∷ " 连通性正常" ∷ [])
  host ← lift (target_host account.url)
  log_line Level.info (
      fstring (
        about account
        ∷ message
        ∷ ", 目标 "
        ∷ host
        ∷ ":"
        ∷ maybe account.url.port "None" t.urls.show_int
        ∷ ms t found.1
        ∷ []))
  pure (result_of true message found.0)

-- `_failure`
unfoldable pub failure :
    ProbeTools → ProbeConfig → ProbeAccount → ℕ → String → Exec Probing ProviderResult
unfolding target_data
failure t config account started cause = do
  found ← target_data t config account started
  let message = fstring (t.upper (kind_name config.kind) ∷ " 连通性异常" ∷ [])
  log_line Level.error (fstring (about account ∷ message ∷ ": " ∷ cause ∷ ms t found.1 ∷ []))
  pure (result_of false message (append_field "error" (Value.str cause) found.0))

-- `HTTP_EXPECTED_STATUS_MIN <= response.status_code <= HTTP_EXPECTED_STATUS_MAX`
abbrev pub is_reachable : ℕ → Bool
is_reachable status = leb 200 status && leb status 399

-- `_check_http` with a response
unfoldable pub check_response :
    ProbeTools → ProbeConfig → ProbeAccount → ℕ → ℕ → Exec Probing ProviderResult
check_response t config account started status = do
  elapsed ← elapsed_ms t started
  let fields = Fields.field "kind" (Value.str (kind_name config.kind)) (
      Fields.field "account" (Value.str account.name) (
        Fields.field "url" (Value.str (display_url t.urls account.url)) (
          Fields.field "method" (Value.str "GET") (
            Fields.field "status_code" (int status)
              (Fields.field "elapsed_ms" (int elapsed) Fields.end)))))
  let good = is_reachable status
  log_line (if good then Level.info else Level.warning) (
      fstring (
        about account
        ∷ (if good then "HTTP 连通性正常, 状态码 " else "HTTP 响应状态码不符合预期, 期望 200-399, 实际 ")
        ∷ t.urls.show_int status
        ∷ ms t elapsed
        ∷ []))
  pure (result_of good (if good then "HTTP 连通性正常" else "HTTP 响应状态码不符合预期") fields)

-- `_check_http`; the session of the library closes itself.
unfoldable pub check_http :
    ProbeTools → HttpConduct → ProbeConfig → ProbeAccount → Exec Probing ProviderResult
unfolding check_response failure
check_http t conduct config account = do
  started ← get_time t
  elim conduct [
    | HttpConduct.responded status ↦ check_response t config account started status
    | HttpConduct.request_error text ↦ failure t config account started text
    | HttpConduct.other_error ↦ raise Error.unexpected
  ]

-- `except Exception … finally`: the close comes after the body, or after the handler, even if that raises.
abbrev pub settle_after : {A : Type 0} → Result A → Exec Probing Unit → Exec Probing A
settle_after (ok a) close = close >> pure a
settle_after (err e) close = close >> raise e

abbrev pub ensure : {A : Type 0} → Exec Probing A → Exec Probing Unit → Exec Probing A
ensure body close w = let (r, v) = body w in settle_after r close v

-- What comes after the `try` statement: the handler has returned (`some`), or the body has ended.
abbrev pub handled :
    ProbeTools
    → ProbeConfig
    → ProbeAccount
    → ℕ
    → Option String
    → Exec Probing (Option ProviderResult)
handled t config account started none = pure none
handled t config account started (some cause) = do
  result ← failure t config account started cause
  pure (some result)

-- The `try` statement of the checks that have one client.
unfoldable pub with_client :
    ProbeTools
    → ClientConduct
    → ProbeConfig
    → ProbeAccount
    → ℕ
    → Exec Probing (Option ProviderResult)
unfolding failure
with_client t conduct config account started =
    maybe conduct.connecting
      (acquire
        >> ensure (handled t config account started conduct.working) (release conduct.closing))
      (λ cause. handled t config account started (some cause))

-- `Redis SET 响应不符合预期`
unfoldable pub unexpected_reply :
    ProbeTools → ProbeConfig → ProbeAccount → String → Fields × ℕ → Exec Probing ProviderResult
unexpected_reply t config account reply found = do
  log_line Level.warning
      (fstring (about account ∷ "Redis SET 响应不符合预期, 期望 True 或 OK, 实际 " ∷ reply ∷ ms t found.1 ∷ []))
  pure (result_of false "Redis SET 响应不符合预期" found.0)

-- The end of a check whose `try` statement has not returned; `reply` is `none` but for Redis.
unfoldable pub conclude :
    ProbeTools
    → Option String
    → ProbeConfig
    → ProbeAccount
    → ℕ
    → Option ProviderResult
    → Exec Probing ProviderResult
unfolding target_data succeed unexpected_reply
conclude t reply config account started (some result) = pure result
conclude t reply config account started none = do
  found ← target_data t config account started
  maybe reply (succeed t config account found)
      (λ text. unexpected_reply t config account text found)

-- `_check_redis`; and `_check_mysql`, `_check_postgresql` and `_check_mongodb` with a reply that is not looked at.
unfoldable pub check_client :
    ProbeTools → Bool → ClientConduct → ProbeConfig → ProbeAccount → Exec Probing ProviderResult
unfolding with_client conclude
check_client t reads_reply conduct config account = do
  started ← get_time t
  result ← with_client t conduct config account started
  conclude t (if reads_reply then conduct.reply else none) config account started result

-- The error of a message that did not come back as it was sent.
abbrev pub message_error : Option Bool → Option String → Option String
message_error none acking = some "RabbitMQ 未消费到检测消息"
message_error (some same) (some cause) = some cause
message_error (some true) none = none
message_error (some false) none = some "RabbitMQ 消费消息与生产消息不一致"

-- The body after the channel is there
abbrev pub exchange_error : BrokerConduct → Option String
exchange_error conduct =
    maybe conduct.publishing (message_error conduct.incoming conduct.acking) some

abbrev pub with_channel :
    ProbeTools
    → BrokerConduct
    → ProbeConfig
    → ProbeAccount
    → ℕ
    → Exec Probing (Option ProviderResult)
with_channel t conduct config account started =
    maybe conduct.channel
      (acquire
        >> ensure (handled t config account started (exchange_error conduct))
            (release conduct.channel_closing))
      (λ cause. handled t config account started (some cause))

-- `_check_rabbitmq`: the connection is closed also where the close of the channel raises.
unfoldable pub check_rabbitmq :
    ProbeTools → BrokerConduct → ProbeConfig → ProbeAccount → Exec Probing ProviderResult
unfolding failure conclude
check_rabbitmq t conduct config account = do
  started ← get_time t
  result ←
      maybe conduct.connecting
        (acquire
          >> ensure (with_channel t conduct config account started)
              (release conduct.connection_closing))
        (λ cause. handled t config account started (some cause))
  conclude t none config account started result
