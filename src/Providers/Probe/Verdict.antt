-- ===== src/Providers/Probe/Verdict.antt =====
-- What a run of probe/main.py says of its targets.
use qiankun.Prelude.{
  ℕ, ◌+◌, ◌≡◌, String, Bool, true, false, ◌&&◌, Option, none, some, List, [], ◌∷◌, not,
}
use qiankun.Prelude.Exec.{Result, ok}
use qiankun.Scheduler.Attempt.{ProviderResult}
use qiankun.Providers.ProbeConfig.{ProbeKind, ProbeAccount, ProbeConfig, target_host}
use qiankun.Providers.ProbeChecks.{ClientConduct, HttpConduct, is_reachable, exchange_error}
use qiankun.Providers.Probe.{TargetConduct}

abbrev HasHost : ProbeAccount → Type 0
HasHost a = (host : String) × (target_host a.url ≡ ok host)

-- A result that says so.
abbrev Says : Bool → Result ProviderResult → Type 0
Says good r = (result : ProviderResult) × (r ≡ ok result) × (result.success ≡ good)

-- No close raises, and the HTTP library only its own errors.
abbrev pub is_quiet : ProbeKind → TargetConduct → Bool
is_quiet ProbeKind.http c = elim (c.http) [
  | HttpConduct.responded status ↦ true
  | HttpConduct.request_error cause ↦ true
  | HttpConduct.other_error ↦ false
]
is_quiet ProbeKind.rabbitmq c = not c.broker.channel_closing && not c.broker.connection_closing
is_quiet _ c = not c.client.closing

abbrev is_absent : Option String → Bool
is_absent none = true
is_absent (some _) = false

-- The target can be reached and does what it should.
abbrev pub is_healthy : ProbeKind → TargetConduct → Bool
is_healthy ProbeKind.http c = elim (c.http) [
  | HttpConduct.responded status ↦ is_reachable status
  | HttpConduct.request_error cause ↦ false
  | HttpConduct.other_error ↦ false
]
is_healthy ProbeKind.redis c =
    is_absent c.client.connecting && (is_absent c.client.working && is_absent c.client.reply)
is_healthy ProbeKind.rabbitmq c =
    is_absent c.broker.connecting
    && (is_absent c.broker.channel && is_absent (exchange_error c.broker))
is_healthy _ c = is_absent c.client.connecting && is_absent c.client.working

abbrev pub are_healthy : ProbeKind → (ℕ → TargetConduct) → ℕ → List ProbeAccount → Bool
are_healthy kind conduct n [] = true
are_healthy kind conduct n (a ∷ accounts) =
    is_healthy kind (conduct n) && are_healthy kind conduct (n + 1) accounts

abbrev client : Option String → Option String → Option String → ClientConduct
client connecting working reply = record {
  connecting = connecting;
  working = working;
  reply = reply;
  closing = false;
}
