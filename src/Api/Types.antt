-- ===== src/Api/Types.antt =====
-- web/src/api.ts: the types of what the server sends and is sent. A field that may be absent is an
-- `Option`; `N` stands for the numbers that have fractions.
use marshal_pm.Base.{ℕ, Bool, Option, List, Text}

pub data Source : Type 0 where
  command git : Source

-- `open_fds`: -1, unavailable on this platform, is `none`.
pub record Proc (N : Type 0) : Type 0 where
  pub name : Text
  pub state : Text
  pub pid : ℕ
  pub uptime_ms : ℕ
  pub restarts : ℕ
  pub cpu : N
  pub mem : ℕ
  pub source : Option Source
  pub detail : Option Text
  pub credential : Option Text
  pub threads : ℕ
  pub open_fds : Option ℕ
  pub exit_code : ℕ
  pub exit_reason : Option Text
  pub restarts_24h : ℕ
  pub last_restart_unix : Option ℕ

pub record AgentHost (N : Type 0) : Type 0 where
  pub cpu_percent : N
  pub load1 : N
  pub load5 : N
  pub load15 : N
  pub mem_total : ℕ
  pub mem_used : ℕ
  pub mem_used_pct : N
  pub net_rx_bps : N
  pub net_tx_bps : N

pub record Agent (N : Type 0) : Type 0 where
  pub name : Text
  pub connected : Bool
  pub last_seen_unix : ℕ
  pub procs : List (Proc N)
  pub hostname : Option Text
  pub ip : Option Text
  pub os : Option Text
  pub arch : Option Text
  pub marshal_version : Option Text
  pub host_boot_unix : Option ℕ
  pub host : Option (AgentHost N)

pub record Bucket (N : Type 0) : Type 0 where
  pub ts : ℕ
  pub cpu_avg : N
  pub cpu_max : N
  pub mem_avg : N
  pub mem_max : N

pub record ProcMetrics (N : Type 0) : Type 0 where
  pub name : Text
  pub buckets : List (Bucket N)

pub record AgentMetrics (N : Type 0) : Type 0 where
  pub agent : Text
  pub procs : List (ProcMetrics N)

pub record LogLine : Type 0 where
  pub ts : ℕ
  pub name : Text
  pub instance_id : ℕ
  pub stderr : Bool
  pub text : Text

pub record LogsResponse : Type 0 where
  pub cursor : ℕ
  pub lines : List LogLine

pub record ControlResult : Type 0 where
  pub ok : Bool
  pub error : Option Text

pub record CommandSource (N : Type 0) : Type 0 where
  pub name : Text
  pub cmd : Text
  pub args : Option (List Text)
  pub cwd : Option Text
  pub instances : Option N
  pub env : Option (List (Text × Text))
  pub restart : Option Text
  pub max_restarts : Option N
  pub kill_timeout : Option Text
  pub max_memory_restart : Option N

pub record GitSource (N : Type 0) : Type 0 where
  pub name : Text
  pub cmd : Text
  pub args : Option (List Text)
  pub instances : Option N
  pub env : Option (List (Text × Text))
  pub restart : Option Text
  pub repo : Text
  pub git_ref : Option Text
  pub build : Option Text
  pub subdir : Option Text
  pub credential : Option Text
  pub max_memory_restart : Option N

pub data AppSource (N : Type 0) : Type 0 where
  from_command : CommandSource N → AppSource N
  from_git : GitSource N → AppSource N

pub record CredentialMeta : Type 0 where
  pub name : Text
  pub type : Text
  pub username : Text
  pub public_key : Option Text
  pub created_at : ℕ

pub record DirEntry : Type 0 where
  pub name : Text
  pub is_dir : Bool
  pub size : ℕ
  pub mod_unix : ℕ
  pub mode : ℕ

pub record DirListing : Type 0 where
  pub path : Text
  pub entries : List DirEntry

pub record FileContent : Type 0 where
  pub path : Text
  pub content : Text
  pub size : ℕ
  pub truncated : Bool
  pub binary : Bool

pub record CommitResult : Type 0 where
  pub sha : Text
  pub branch : Text

pub record NotifChannel : Type 0 where
  pub name : Text
  pub type : Text
  pub enabled : Bool
  pub config : List (Text × Text)
  pub has_secret : Bool

pub record NotifRule : Type 0 where
  pub name : Text
  pub enabled : Bool
  pub events : List Text
  pub agent : Text
  pub process : Text
  pub channels : List Text

pub record NotifSettings (N : Type 0) : Type 0 where
  pub cooldown_seconds : N
  pub suppress_recovery : Option Bool
  pub cooldown_overrides : Option (List (Text × N))
  pub coalesce_window_seconds : Option N

pub record NotifConfig (N : Type 0) : Type 0 where
  pub channels : List NotifChannel
  pub rules : List NotifRule
  pub settings : NotifSettings N

pub record TestAllResult : Type 0 where
  pub name : Text
  pub ok : Bool
  pub error : Option Text

pub record TestAll : Type 0 where
  pub ok : Bool
  pub sent : ℕ
  pub results : List TestAllResult
  pub error : Option Text

pub record ConnectInfo : Type 0 where
  pub token : Text
  pub fingerprint : Text
  pub default_address : Text

pub record ErrSignature : Type 0 where
  pub id : Text
  pub sample : Text
  pub source : Option Text
  pub agent : Text
  pub proc : Text
  pub affected : List Text
  pub count : ℕ
  pub first_unix : ℕ
  pub last_unix : ℕ
  pub buckets : List ℕ
  pub acknowledged : Bool

pub record ErrCluster : Type 0 where
  pub errors : ℕ
  pub signatures : ℕ
  pub unacknowledged : ℕ
  pub affected_procs : ℕ
  pub last_error_unix : ℕ

pub record ErrorsResponse : Type 0 where
  pub range : Text
  pub since : ℕ
  pub now : ℕ
  pub cluster : ErrCluster
  pub signatures : List ErrSignature
  pub truncated : Bool

pub record UpdateStatus : Type 0 where
  pub enabled : Bool
  pub current : Text
  pub latest : Text
  pub outdated : Bool
  pub checked_at : Text
  pub outdated_agents : List Text
