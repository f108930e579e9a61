-- ===== src/Tests/Api.antt =====
-- The server: operations that do nothing, requests, and some runs of handlers and goroutines.
use clickhouse_backup.Base.Maps.{lookup}
use clickhouse_backup.Base.{
  Option, ◌≤◌, ◌≡◌, refl, ◌↔◌, ◌⊎◌, Text, codes, ◌++◌, true, false, none, some, List, [], ◌∷◌,
  length, errorf, Result, ok, arith,
}
use clickhouse_backup.Base.Maps.{lookup}
use clickhouse_backup.Config.{Config, default_config}
use clickhouse_backup.Server.Response.{
  line, fresh_writer, send_response, write_error, content_type, json_type,
}
use clickhouse_backup.Server.Response.Headers.{
  sent_headers, sent_code, send_response-sent, write_error-sent,
}
use clickhouse_backup.Server.Status.{AsyncStatus, CommandInfo, start, stop}
use clickhouse_backup.Server.Api.{
  ApiServer, Operations, create_job, upload_job, try_acquire, with_status,
}
use clickhouse_backup.Server.Handlers.{Request, http_freeze_handler}
use clickhouse_backup.Server.Handlers.Outcomes.{IsSome, IsLeftOpen, http_freeze_handler-IsLeftOpen}
use clickhouse_backup.Server.Handlers.Queries.{http_config_handler}
use clickhouse_backup.Server.Handlers.Secrets.{
  Secrets, with_secrets, http_config_handler_hides, http_config_handler_shows,
}
use clickhouse_backup.Server.Auth.{
  Credentials, user_of, pass_of, basic_auth_middleware, basic_auth_middleware_iff,
}
use clickhouse_backup.Server.Routes.{create, serve}
use clickhouse_backup.Server.Routes.Locking.{Refused, serve-Refused}
use clickhouse_backup.Server.Threads.{
  System, new_server, new_system, transfer, enter, Reach, here, next,
}
use clickhouse_backup.Server.Threads.Invariant.{mutual_exclusion, stop-in_reach}
use clickhouse_backup.Server.Threads.Overlap.{overtaken_for_good, create_overlap}

abbrev idle : Operations
idle = record {
  World = List Text;
  create_backup = λ c name pattern w. (name ∷ w, none);
  freeze = λ c pattern w. (w, none);
  clean = λ c w. ([], none);
  upload = λ c name from w. (w, none);
  download = λ c name w. (w, none);
  restore = λ c name pattern schema only drop w. (w, some (errorf (codes "no such backup")));
  remove_backup_local = λ c name w. (w, none);
  remove_backup_remote = λ c name w. (w, none);
  get_tables = λ c w. ok [];
  list_local_backups = λ c w. ok [];
  get_remote_backups = λ c w. ok [];
  run_command = λ words w. (w, none);
}

abbrev api : ApiServer
api = new_server default_config []

abbrev request : Request
request = record {
  url_path = codes "/backup/create";
  query = (codes "name", codes "monday") ∷ [];
  vars = (codes "where", codes "local") ∷ (codes "name", codes "monday") ∷ [];
  body = ok [];
  clock = λ n. n;
}

abbrev no_yaml : Text → Config → Result (Option Config)
no_yaml text config = ok (some config)

abbrev busy : ApiServer
busy = record api { locked = true }

serve-Refused_example : Refused idle busy [] (serve idle no_yaml create request busy [])
serve-Refused_example = serve-Refused idle no_yaml create request busy [] refl refl

unlocked : api.locked ≡ false
unfolding new_server
unlocked = refl

http_freeze_handler-IsLeftOpen_example :
    IsSome idle (IsLeftOpen idle request api) (http_freeze_handler idle request api [])
http_freeze_handler-IsLeftOpen_example = http_freeze_handler-IsLeftOpen idle request api [] unlocked

abbrev entered : System
entered = record {
  api = with_status busy (start (codes "clean") 5 busy.status);
  inside = codes "clean" ∷ [];
  waiting = [];
  running = [];
}

entered_in_reach : Reach (new_system default_config []) entered
unfolding try_acquire new_server
entered_in_reach = next here (enter (codes "clean") 5 busy refl)

mutual_exclusion_example :
    (length entered.inside ≤ 1) × ((entered.api.locked ≡ true) ↔ (length entered.inside ≡ 1))
mutual_exclusion_example = mutual_exclusion default_config [] entered entered_in_reach

stop-in_reach_example : (log : AsyncStatus) × (stop none 9 entered.api.status ≡ some log)
stop-in_reach_example =
    stop-in_reach default_config [] entered none 9 entered_in_reach (omega arith)

abbrev command : Text → CommandInfo
command name = record {
  command = name;
  status = codes "in progress";
  start = codes "now";
  finish = [];
  error = [];
}

abbrev two_running : System
two_running = record {
  api = with_status api (command (codes "create") ∷ command (codes "upload") ∷ []);
  inside = [];
  waiting = [];
  running = upload_job (codes "monday") [] ∷ create_job (codes "monday") [] ∷ [];
}

abbrev one_waiting : System
one_waiting = record two_running { waiting = upload_job (codes "tuesday") [] ∷ [] }

overtaken_for_good_example :
    (rest : AsyncStatus) × (one_waiting.api.status
      ≡ ([] ++ (command (codes "create") ∷ [])) ++ rest)
overtaken_for_good_example =
    overtaken_for_good two_running one_waiting [] [] (command (codes "create"))
      (command (codes "upload")) refl (next here (transfer (upload_job (codes "tuesday") [])))

create_overlap_test :
    (s : System) × Reach (new_system default_config []) s
    × (s.running ≡ create_job (codes "b") [] ∷ create_job (codes "a") [] ∷ [])
    × (s.api.locked ≡ false)
create_overlap_test = create_overlap default_config [] (codes "a") [] (codes "b") []

abbrev login : Credentials
login = record { basic_user = codes "admin"; basic_pass = codes "secret"; query = [] }

basic_auth_middleware_iff_test :
    (basic_auth_middleware default_config.api login (λ w. false) true ≡ true) ↔ (
      ((default_config.api.username ≡ []) × (default_config.api.password ≡ []))
      ⊎ ((user_of login ≡ default_config.api.username)
          × (pass_of login ≡ default_config.api.password)))
basic_auth_middleware_iff_test = basic_auth_middleware_iff default_config.api login

abbrev secrets : Text → Secrets
secrets s = record {
  click_house_password = s;
  api_password = s;
  s3_secret_key = s;
  gcs_credentials_json = s;
  cos_secret_key = s;
  ftp_password = s;
}

http_config_handler_hides_test :
    (http_config_handler
      (record api { config = with_secrets (secrets (codes "a")) api.config })
      tt).writer
    ≡ (http_config_handler
        (record api { config = with_secrets (secrets (codes "b")) api.config })
        tt).writer
http_config_handler_hides_test =
    http_config_handler_hides (Unit {0}) tt api (secrets (codes "a")) (secrets (codes "b"))

http_config_handler_shows_example : api.config.azure_blob ≡ busy.config.azure_blob
unfolding new_server http_config_handler
http_config_handler_shows_example = http_config_handler_shows (Unit {0}) tt api busy refl

send_response-sent_test :
    (sent_code (send_response 201 (line (codes "x")) fresh_writer) ≡ some 201)
    × (lookup content_type (sent_headers (send_response 201 (line (codes "x")) fresh_writer))
        ≡ some json_type)
    × ((send_response 201 (line (codes "x")) fresh_writer).body ≡ line (codes "x") ∷ [])
send_response-sent_test = send_response-sent 201 (line (codes "x")) fresh_writer refl

write_error-sent_test :
    (write_error 500 (codes "list") (errorf (codes "x")) fresh_writer).sent ≡ some (500, [])
write_error-sent_test = write_error-sent 500 (codes "list") (errorf (codes "x")) fresh_writer refl
