-- ===== src/Providers/Probe/Closing.antt =====
-- What a check of probe/main.py has opened, it has asked to close when it ends.
use qiankun.Prelude.{
  ℕ, ◌+◌, ◌≡◌, arith, String, Bool, true, false, Option, none, some, List, [], ◌∷◌, maybe,
  if◌then◌else◌,
}
use qiankun.Prelude.Lists.{length}
use qiankun.Prelude.Exec.{Exec, Result, ok, err, lift, continue, ◌>>=◌, ◌>>◌}
use qiankun.Prelude.Json.{Fields}
use qiankun.Scheduler.Attempt.{ProviderResult}
use qiankun.Providers.ProbeConfig.{ProbeKind, ProbeAccount, ProbeConfig, of_kind, target_host}
use qiankun.Providers.ProbeChecks.{
  Level, Probing, ProbeTools, ClientConduct, BrokerConduct, HttpConduct, log_line, get_time,
  target_data, succeed, failure, check_response, check_http, acquire, release, ensure, settle_after,
  handled, with_client, unexpected_reply, conclude, check_client, exchange_error, with_channel,
  check_rabbitmq,
}
use qiankun.Providers.Probe.{
  TargetConduct, checker, run_target, run_each, run_targets, success_message, start_line, announce,
  execute,
}

-- So many are open more than are closed.
abbrev IsAhead : ℕ → Probing → Type 0
IsAhead k w = w.opened ≡ w.closed + k

-- A step after which as many are open as before, however it ends.
record Keeps {A : Type 0} (c : Exec Probing A) : Type 0 where
  keeps : (k : ℕ) (w : Probing) → IsAhead k w → IsAhead k (c w).1

continue-IsAhead :
    {A B : Type 0} (k : ℕ) (r : Result A) (f : A → Exec Probing B) (w : Probing)
    → ((a : A) → Keeps (f a))
    → IsAhead k w
    → IsAhead k (continue r f w).1
continue-IsAhead k (ok a) f w rest h = (rest a).keeps k w h
continue-IsAhead k (err e) f w rest h = h

>>=-Keeps :
    {A B : Type 0} (c : Exec Probing A) (f : A → Exec Probing B)
    → Keeps c
    → ((a : A) → Keeps (f a))
    → Keeps (c >>= f)
>>=-Keeps c f h rest = record {
  keeps = λ k w e. continue-IsAhead k (c w).0 f (c w).1 rest (h.keeps k w e);
}

lift-Keeps : {A : Type 0} (r : Result A) → Keeps (lift {S = Probing} r)
lift-Keeps r = record { keeps = λ k w e. e }

log_line-Keeps : (level : Level) (message : String) → Keeps (log_line level message)
log_line-Keeps level message = record { keeps = λ k w e. e }

get_time-Keeps : (t : ProbeTools) → Keeps (get_time t)
get_time-Keeps t = record { keeps = λ k w e. e }

settled-IsAhead :
    {A : Type 0} (k : ℕ) (r : Result A) (raises : Bool) (w : Probing)
    → IsAhead (k + 1) w
    → IsAhead k (settle_after r (release raises) w).1
settled-IsAhead k (ok a) true w h = omega arith
settled-IsAhead k (ok a) false w h = omega arith
settled-IsAhead k (err e) true w h = omega arith
settled-IsAhead k (err e) false w h = omega arith

-- What is got and then used in a `try` with a `finally` is closed, however the use ends.
ensure-Keeps :
    {A : Type 0} (body : Exec Probing A) (raises : Bool)
    → Keeps body
    → Keeps (acquire >> ensure body (release raises))
ensure-Keeps body raises h = record {
  keeps = λ k w e.
      let v : Probing = record w { opened = w.opened + 1 } in
      settled-IsAhead k (body v).0 raises (body v).1 (h.keeps (k + 1) v (omega arith));
}

-- A client is got, used and closed, or it is not got and the failure is reported.
attempt-Keeps :
    {A : Type 0} (problem : Option String) (body : Exec Probing A) (raises : Bool)
    (report : String → Exec Probing A)
    → Keeps body
    → ((cause : String) → Keeps (report cause))
    → Keeps (maybe problem (acquire >> ensure body (release raises)) report)
attempt-Keeps none body raises report h reports = ensure-Keeps body raises h
attempt-Keeps (some cause) body raises report h reports = reports cause

module _ (t : ProbeTools) (config : ProbeConfig) (account : ProbeAccount) where
  target_data-Keeps : (started : ℕ) → Keeps (target_data t config account started)
  unfolding target_data
  target_data-Keeps started =
      >>=-Keeps (lift (target_host account.url)) _ (lift-Keeps _)
        (λ host. record { keeps = λ k w e. e })

  succeed-Keeps : (found : Fields × ℕ) → Keeps (succeed t config account found)
  unfolding succeed
  succeed-Keeps found =
      >>=-Keeps (lift (target_host account.url)) _ (lift-Keeps _)
        (λ host. record { keeps = λ k w e. e })

  failure-Keeps : (started : ℕ) (cause : String) → Keeps (failure t config account started cause)
  unfolding failure
  failure-Keeps started cause =
      >>=-Keeps (target_data t config account started) _ (target_data-Keeps started)
        (λ found. record { keeps = λ k w e. e })

  check_response-Keeps :
      (started status : ℕ) → Keeps (check_response t config account started status)
  unfolding check_response
  check_response-Keeps started status = record { keeps = λ k w e. e }

  check_http-Keeps : (conduct : HttpConduct) → Keeps (check_http t conduct config account)
  unfolding check_http
  check_http-Keeps (HttpConduct.responded status) =
      >>=-Keeps (get_time t) _ (get_time-Keeps t) (λ started. check_response-Keeps started status)
  check_http-Keeps (HttpConduct.request_error cause) =
      >>=-Keeps (get_time t) _ (get_time-Keeps t) (λ started. failure-Keeps started cause)
  check_http-Keeps HttpConduct.other_error = record { keeps = λ k w e. e }

  handled-Keeps :
      (started : ℕ) (problem : Option String) → Keeps (handled t config account started problem)
  handled-Keeps started none = record { keeps = λ k w e. e }
  handled-Keeps started (some cause) =
      >>=-Keeps (failure t config account started cause) _ (failure-Keeps started cause)
        (λ result. record { keeps = λ k w e. e })

  with_client-Keeps :
      (conduct : ClientConduct) (started : ℕ) → Keeps (with_client t conduct config account started)
  unfolding with_client
  with_client-Keeps conduct started =
      attempt-Keeps conduct.connecting _ conduct.closing _ (handled-Keeps started conduct.working)
        (λ cause. handled-Keeps started (some cause))

  unexpected_reply-Keeps :
      (reply : String) (found : Fields × ℕ) → Keeps (unexpected_reply t config account reply found)
  unfolding unexpected_reply
  unexpected_reply-Keeps reply found = record { keeps = λ k w e. e }

  told-Keeps :
      (reply : Option String) (found : Fields × ℕ)
      → Keeps (
          maybe reply
            (succeed t config account found)
            (λ text. unexpected_reply t config account text found))
  told-Keeps none found = succeed-Keeps found
  told-Keeps (some text) found = unexpected_reply-Keeps text found

  conclude-Keeps :
      (reply : Option String) (started : ℕ) (result : Option ProviderResult)
      → Keeps (conclude t reply config account started result)
  unfolding conclude
  conclude-Keeps reply started none =
      >>=-Keeps (target_data t config account started) _ (target_data-Keeps started)
        (told-Keeps reply)
  conclude-Keeps reply started (some result) = record { keeps = λ k w e. e }

  check_client-Keeps :
      (reads_reply : Bool) (conduct : ClientConduct)
      → Keeps (check_client t reads_reply conduct config account)
  unfolding check_client
  check_client-Keeps reads_reply conduct = >>=-Keeps (get_time t) _ (get_time-Keeps t) (λ started.
      >>=-Keeps (with_client t conduct config account started) _ (with_client-Keeps conduct started)
        (conclude-Keeps (if reads_reply then conduct.reply else none) started))

  with_channel-Keeps :
      (conduct : BrokerConduct) (started : ℕ)
      → Keeps (with_channel t conduct config account started)
  with_channel-Keeps conduct started =
      attempt-Keeps conduct.channel _ conduct.channel_closing _
        (handled-Keeps started (exchange_error conduct))
        (λ cause. handled-Keeps started (some cause))

  with_connection-Keeps :
      (conduct : BrokerConduct) (started : ℕ)
      → Keeps (
          maybe conduct.connecting
            (acquire
              >> ensure
                  (with_channel t conduct config account started)
                  (release conduct.connection_closing))
            (λ cause. handled t config account started (some cause)))
  with_connection-Keeps conduct started =
      attempt-Keeps conduct.connecting _ conduct.connection_closing _
        (with_channel-Keeps conduct started) (λ cause. handled-Keeps started (some cause))

  check_rabbitmq-Keeps : (conduct : BrokerConduct) → Keeps (check_rabbitmq t conduct config account)
  unfolding check_rabbitmq
  check_rabbitmq-Keeps conduct = >>=-Keeps (get_time t) _ (get_time-Keeps t) (λ started.
      >>=-Keeps _ _ (with_connection-Keeps conduct started) (conclude-Keeps none started))

checker-Keeps :
    (t : ProbeTools) (kind : ProbeKind) (accounts : List ProbeAccount) (timeout : ℕ)
    (account : ProbeAccount) (conduct : TargetConduct)
    → Keeps (checker t (of_kind kind accounts timeout) account conduct)
unfolding checker
checker-Keeps t ProbeKind.http accounts timeout a c =
    check_http-Keeps t (of_kind ProbeKind.http accounts timeout) a c.http
checker-Keeps t ProbeKind.redis accounts timeout a c =
    check_client-Keeps t (of_kind ProbeKind.redis accounts timeout) a true c.client
checker-Keeps t ProbeKind.mysql accounts timeout a c =
    check_client-Keeps t (of_kind ProbeKind.mysql accounts timeout) a false c.client
checker-Keeps t ProbeKind.postgresql accounts timeout a c =
    check_client-Keeps t (of_kind ProbeKind.postgresql accounts timeout) a false c.client
checker-Keeps t ProbeKind.rabbitmq accounts timeout a c =
    check_rabbitmq-Keeps t (of_kind ProbeKind.rabbitmq accounts timeout) a c.broker
checker-Keeps t ProbeKind.mongodb accounts timeout a c =
    check_client-Keeps t (of_kind ProbeKind.mongodb accounts timeout) a false c.client

module _ (t : ProbeTools) (config : ProbeConfig) (conduct : ℕ → TargetConduct) where
  run_target-Keeps :
      (c : TargetConduct) (account : ProbeAccount) → Keeps (run_target t config c account)
  unfolding run_target
  run_target-Keeps c account =
      >>=-Keeps (log_line Level.info _) _ (log_line-Keeps Level.info _)
        (λ _. checker-Keeps t config.kind config.accounts config.timeout account c)

  run_each-Keeps :
      (n : ℕ) (accounts : List ProbeAccount) → Keeps (run_each t config conduct n accounts)
  unfolding run_each
  run_each-Keeps n [] = record { keeps = λ k w e. e }
  run_each-Keeps n (account ∷ accounts) =
      >>=-Keeps (run_target t config (conduct n) account) _ (run_target-Keeps (conduct n) account)
        (λ result.
          >>=-Keeps (run_each t config conduct (n + 1) accounts) _ (run_each-Keeps (n + 1) accounts)
            (λ results. record { keeps = λ k w e. e }))

  run_targets-Keeps :
      (success_message : String) → Keeps (run_targets t config conduct success_message)
  unfolding run_targets
  run_targets-Keeps success_message =
      >>=-Keeps (run_each t config conduct 0 config.accounts) _ (run_each-Keeps 0 config.accounts)
        (λ results. record { keeps = λ k w e. e })

  announce-Keeps :
      (started : ℕ) (result : ProviderResult) → Keeps (announce t config started result)
  unfolding announce
  announce-Keeps started result = record { keeps = λ k w e. e }

  execute-Keeps : Keeps (execute t config conduct)
  unfolding execute
  execute-Keeps = >>=-Keeps (get_time t) _ (get_time-Keeps t) (λ started.
      >>=-Keeps (log_line Level.info (start_line t config.kind (length config.accounts))) _
        (log_line-Keeps Level.info _)
        (λ _.
          >>=-Keeps (run_targets t config conduct (success_message config))
            (announce t config started) (run_targets-Keeps (success_message config))
            (announce-Keeps started)))

-- A run of the probe that starts with as many clients, connections and channels open as closed ends so:
-- all that it has got it has asked to close, whatever the kind and the accounts are, and however
-- the libraries' calls end, also where a close raises or the report of a failure does.
pub execute-closes :
    (t : ProbeTools) (config : ProbeConfig) (conduct : ℕ → TargetConduct) (w : Probing)
    → w.opened ≡ w.closed
    → (execute t config conduct w).1.opened ≡ (execute t config conduct w).1.closed
execute-closes t config conduct w e =
    let h : IsAhead 0 (execute t config conduct w).1 =
      (execute-Keeps t config conduct).keeps 0 w (omega arith) in
    omega arith
