-- ===== src/Server/Routes.antt =====
-- `setupAPIServer`: the routes with their handlers. The router of `gorilla/mux` finds the route.
pub mod Locking
use clickhouse_backup.Base.{ℕ, Text, Option, none, some, Result}
use clickhouse_backup.Config.{Config}
use clickhouse_backup.Server.Api.{ApiServer, Operations}
use clickhouse_backup.Server.Handlers.{
  Request, Exchange, http_create_handler, http_freeze_handler, http_clean_handler,
  http_upload_handler, http_restore_handler, http_download_handler, http_delete_handler,
}
use clickhouse_backup.Server.Handlers.Queries.{
  http_list_handler, http_tables_handler, http_backup_status_handler, http_root_handler,
  http_config_default_handler, http_config_handler, http_config_update_handler,
}
use clickhouse_backup.Server.Integration.{integration_post, integration_backup_log}

-- A route for each handler; two paths lead to `list`.
pub data Route : Type 0 where
  root tables list create clean freeze upload download restore delete : Route
  config_default config config_update status actions_log actions_post : Route

module _ (O : Operations) (unmarshal : Text → Config → Result (Option Config)) where
  unfoldable pub serve : Route → Request → ApiServer → O.World → Option (Exchange O.World)
  serve root r api world = some (http_root_handler api world)
  serve tables r api world = some (http_tables_handler O r api world)
  serve list r api world = some (http_list_handler O r api world)
  serve create r api world = http_create_handler O r api world
  serve clean r api world = http_clean_handler O r api world
  serve freeze r api world = http_freeze_handler O r api world
  serve upload r api world = http_upload_handler O r api world
  serve download r api world = http_download_handler O r api world
  serve restore r api world = http_restore_handler O r api world
  serve delete r api world = http_delete_handler O r api world
  serve config_default r api world = some (http_config_default_handler api world)
  serve config r api world = some (http_config_handler api world)
  serve config_update r api world = http_config_update_handler unmarshal r api world
  serve status r api world = some (http_backup_status_handler api world)
  serve actions_log r api world = some (integration_backup_log api world)
  serve actions_post r api world = integration_post O r api world
