-- ===== src/Samples.antt =====
-- Data for the examples: whole numbers in the place of JavaScript's, and servers that answer alike
-- to every request.
use Prim.Native.Nat.{◌+◌, ◌-◌, ◌*◌, ◌/◌}
use marshal_pm.Base.{
  ℕ, Bool, true, false, none, some, List, [], ◌∷◌, Text, codes, decimal, Floats, ltb, ◌==◌,
  if◌then◌else◌, returned, threw,
}
use marshal_pm.Api.Types.{Proc, Agent, DirEntry, FileContent, CommitResult, LogLine}
use marshal_pm.Api.Http.{Fetch}
use marshal_pm.Browser.{Browser, no_dialog}
use marshal_pm.Ui.Notice.{no_notice}

abbrev pub whole_numbers : Floats
whole_numbers = record {
  Num = ℕ;
  of_nat = λ n. n;
  add = λ a b. a + b;
  sub = λ a b. a - b;
  mul = λ a b. a * b;
  div = λ a b. a / b;
  lt = λ a b. ltb a b;
  parse = λ t. 0;
  eq = λ a b. a == b;
  truthy = λ a. ltb 0 a;
  min = λ a b. if ltb b a then b else a;
  max = λ a b. if ltb a b then b else a;
  round = λ a. a;
  to_fixed = λ d a. decimal a;
  show = λ a. decimal a;
}

abbrev pub replies : {A : Type 0} → ℕ → A → Fetch ℕ A
replies status a = λ _. returned (record {
  status = status;
  json = returned a;
  error_field = returned (some (codes "refused"));
  text = returned (codes "refused");
})

abbrev pub unreachable : {A : Type 0} → Fetch ℕ A
unreachable = λ _. threw (codes "Failed to fetch")

abbrev pub proc : Text → Text → Proc ℕ
proc name state = record {
  name = name;
  state = state;
  pid = 100;
  uptime_ms = 5000;
  restarts = 2;
  cpu = 3;
  mem = 4096;
  source = none;
  detail = none;
  credential = none;
  threads = 4;
  open_fds = none;
  exit_code = 0;
  exit_reason = none;
  restarts_24h = 2;
  last_restart_unix = none;
}

abbrev pub agent : Text → Bool → List (Proc ℕ) → Agent ℕ
agent name connected procs = record {
  name = name;
  connected = connected;
  last_seen_unix = 1000;
  procs = procs;
  hostname = none;
  ip = none;
  os = none;
  arch = none;
  marshal_version = none;
  host_boot_unix = none;
  host = some (record {
    cpu_percent = 10;
    load1 = 1;
    load5 = 1;
    load15 = 1;
    mem_total = 8000;
    mem_used = 3000;
    mem_used_pct = 37;
    net_rx_bps = 0;
    net_tx_bps = 0;
  });
}

abbrev pub fleet : List (Agent ℕ)
fleet =
    agent (codes "a1") true (proc (codes "web") (codes "online") ∷ [])
    ∷ agent (codes "a2") true
        (proc (codes "job") (codes "errored") ∷ proc (codes "api") (codes "running") ∷ [])
    ∷ agent (codes "a3") false []
    ∷ []

abbrev pub file : Text → Text → FileContent
file path content = record {
  path = path;
  content = content;
  size = 3;
  truncated = false;
  binary = false;
}

abbrev pub entry : Text → DirEntry
entry name = record { name = name; is_dir = false; size = 3; mod_unix = 1; mode = 420 }

abbrev pub commit : CommitResult
commit = record { sha = codes "abc"; branch = codes "main" }

abbrev pub browser : Browser
browser = record {
  path = codes "src";
  entries = entry (codes "a.ts") ∷ [];
  open_file = some (file (codes "src/a.ts") (codes "old"));
  draft = codes "new";
  msg = [];
  busy = false;
  err = none;
  dialog = no_dialog;
  reload = 0;
  notice = no_notice;
}

abbrev pub line : Text → LogLine
line text = record { ts = 1; name = codes "web"; instance_id = 0; stderr = false; text = text }
