-- ===== src/Config/Apps.antt =====
-- The options of the processes: config/app_options.go of api-gateway and of the services.
use go_commerce_microservice.Prelude.{Option, none, some, String, List, [], ◌∷◌, if◌then◌else◌}
use go_commerce_microservice.Prelude.Int.{ℤ, leb_ℤ}
use go_commerce_microservice.Error.{Error}
use go_commerce_microservice.Config.{require_all, positive_all, ◌or_else◌}

pub record GatewayOptions : Type 0 where
  pub app_port : String
  pub management_port : String
  pub catalog_read_grpc_addr : String
  pub catalog_write_grpc_addr : String
  pub order_grpc_url : String
  pub request_timeout : ℤ
  pub grpc_read_timeout : ℤ
  pub grpc_write_timeout : ℤ
  pub read_header_timeout : ℤ
  pub read_timeout : ℤ
  pub write_timeout : ℤ
  pub idle_timeout : ℤ

-- The requests to the services end before the gateway's, and that before the server's write.
unfoldable pub timeouts_nested : GatewayOptions → Option Error
timeouts_nested o =
    if leb_ℤ o.write_timeout o.request_timeout
    then some (Error.message "AppOptions.writeTimeout must be greater than requestTimeout")
    else if leb_ℤ o.request_timeout o.grpc_read_timeout
    then some (Error.message "AppOptions.grpcReadTimeout must be shorter than requestTimeout")
    else if leb_ℤ o.request_timeout o.grpc_write_timeout
    then some (Error.message "AppOptions.grpcWriteTimeout must be shorter than requestTimeout")
    else none

abbrev pub gateway_required : GatewayOptions → List (String × String)
gateway_required o =
    ("appPort", o.app_port)
    ∷ ("managementPort", o.management_port)
    ∷ ("catalogReadGrpcAddr", o.catalog_read_grpc_addr)
    ∷ ("catalogWriteGrpcAddr", o.catalog_write_grpc_addr)
    ∷ ("orderGrpcUrl", o.order_grpc_url)
    ∷ []

abbrev pub gateway_positive : GatewayOptions → List (String × ℤ)
gateway_positive o =
    ("requestTimeout", o.request_timeout)
    ∷ ("grpcReadTimeout", o.grpc_read_timeout)
    ∷ ("grpcWriteTimeout", o.grpc_write_timeout)
    ∷ ("readHeaderTimeout", o.read_header_timeout)
    ∷ ("readTimeout", o.read_timeout)
    ∷ ("writeTimeout", o.write_timeout)
    ∷ ("idleTimeout", o.idle_timeout)
    ∷ []

unfoldable pub validate_gateway_options : GatewayOptions → Option Error
unfolding timeouts_nested
validate_gateway_options o =
    require_all "AppOptions" (gateway_required o)
    or_else positive_all "AppOptions" (gateway_positive o)
    or_else timeouts_nested o

pub record OrderAppOptions : Type 0 where
  pub grpc_port : String
  pub health_port : String

unfoldable pub validate_order_app_options : OrderAppOptions → Option Error
validate_order_app_options o =
    require_all "appOptions" (("grpcPort", o.grpc_port) ∷ ("healthPort", o.health_port) ∷ [])

pub record InventoryAppOptions : Type 0 where
  pub health_port : String

unfoldable pub validate_inventory_app_options : InventoryAppOptions → Option Error
validate_inventory_app_options o = require_all "appOptions" (("healthPort", o.health_port) ∷ [])

pub record CatalogWriteAppOptions : Type 0 where
  pub grpc_port : String
  pub health_port : String

unfoldable pub validate_catalog_write_app_options : CatalogWriteAppOptions → Option Error
validate_catalog_write_app_options o =
    require_all "appOptions" (("grpcPort", o.grpc_port) ∷ ("healthPort", o.health_port) ∷ [])

pub record CatalogReadAppOptions : Type 0 where
  pub grpc_port : String
  pub health_port : String

unfoldable pub validate_catalog_read_app_options : CatalogReadAppOptions → Option Error
validate_catalog_read_app_options o =
    require_all "appOptions" (("grpcPort", o.grpc_port) ∷ ("healthPort", o.health_port) ∷ [])
