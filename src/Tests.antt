-- ===== src/Tests.antt =====
-- Small states on which the theorems are applied: three services, with hard and soft dependencies.
pub mod Registration
pub mod Ordering
pub mod Ticks
pub mod Queries
pub mod Messages
pub mod Lifecycles
pub mod Grouped
pub mod Probes
use gorch.Base.{
  ℕ, false, true, List, [], ◌∷◌, none, some, Name, name_discrete, ite, ◌≡◌, refl, Memᴰ, ℕ_discrete,
}
use gorch.Config.{zero_config}
use gorch.Entry.{ServiceEntry, new_entry}
use gorch.Orchestrator.{Ref, Orchestrator, write_name, write}
use gorch.Orchestrator.Registry.{IsRegistry}
use gorch.Graph.{lookup_entry}
use gorch.Register.{insert_entry}
use gorch.Register.Acyclic.{IsAcyclic, insert-IsAcyclic, NoPathBack}
use gorch.Register.Insert.{insert-IsRegistry}
use gorch.Messenger.{Messenger}
use gorch.Runtime.{Runtime}
use gorch.Service.{Service, RegisterConfig, func_service}
use gorch.Service.Options as Options
use gorch.Graph.Paths.{DependsOn}

abbrev pub plain : Service
plain = func_service 1 2

abbrev pub config : Name → List Name → List Name → RegisterConfig
config name hard soft = record Options.zero_config {
  name = name;
  depends_on = hard;
  soft_depends_on = soft;
}

unfoldable pub entry : Name → List Name → List Name → ServiceEntry
unfolding new_entry
entry name hard soft = new_entry plain (config name hard soft)

abbrev pub quiet : Runtime
quiet = record { cancelled = λ c. false; next_context = 0; closed = λ c. false; next_chan = 0 }

abbrev pub no_messages : Messenger
no_messages = record {
  slots = [];
  owners = [];
  owner_id = λ t. 0;
  dead = λ t. false;
  next_token = 0;
  channels = λ c. record { cap = 0; queue = []; waiting = 0; closed = false };
  next_chan = 0;
  fault = false;
}

unfoldable pub empty : Orchestrator
unfolding new_entry
empty = record {
  cfg = zero_config;
  started = true;
  start_claimed = false;
  stopping = false;
  stopped = false;
  entries = [];
  name_index = λ n. none;
  auto_seq = 0;
  owner_seq = 0;
  metrics = record {
    starts = 0;
    stops = 0;
    crashes = 0;
    restarts = 0;
    health_fails = 0;
    cron_failures = 0;
    abandoned_goroutines = 0;
  };
  store = λ r. new_entry plain Options.zero_config;
  next_ref = 0;
  rt = quiet;
  ctx = none;
  wg = 0;
  wg_panic = false;
  start_once = false;
  stop_once = false;
  shutdown_done = false;
  messenger = no_messages;
  calls = [];
}

pub empty-IsRegistry : IsRegistry empty
unfolding empty
empty-IsRegistry = record {
  indexed = λ n r h. cc h;
  listed = λ r m. elim m [ ];
  same_name = λ r m. elim m [ ];
  made = λ r m. elim m [ ];
  distinct = tt;
}

pub empty-IsAcyclic : IsAcyclic empty
unfolding empty
empty-IsAcyclic r m = elim m [ ]

-- A store alone, and one of it in which the services wait for each other.
unfoldable pub db_only : Orchestrator
unfolding empty entry
db_only = insert_entry empty (entry "db" [] [])

unfoldable pub small : Orchestrator
unfolding db_only entry
small = insert_entry db_only (entry "api" ("db" ∷ []) ("cache" ∷ []))

pub db_only-IsRegistry : IsRegistry db_only
unfolding new_entry empty entry db_only
db_only-IsRegistry = insert-IsRegistry empty (entry "db" [] []) empty-IsRegistry refl refl

pub small-IsRegistry : IsRegistry small
unfolding new_entry name_discrete empty entry db_only small
small-IsRegistry =
    insert-IsRegistry db_only (entry "api" ("db" ∷ []) ("cache" ∷ [])) db_only-IsRegistry refl refl

pub db_only-IsAcyclic : IsAcyclic db_only
unfolding new_entry empty entry db_only
db_only-IsAcyclic =
    insert-IsAcyclic empty (entry "db" [] []) empty-IsRegistry refl refl (λ d m. elim m [ ])
      empty-IsAcyclic
