-- ===== src/Config/Databases.antt =====
-- The options of the databases: internal/database/postgres_options.go of the writing services, and
-- mongo_options.go and elasticsearch_options.go of catalog-read-service.
use go_commerce_microservice.Prelude.{Option, String, [], ◌∷◌}
use go_commerce_microservice.Prelude.Int.{ℤ}
use go_commerce_microservice.Error.{Error}
use go_commerce_microservice.Config.{require_all, positive_all, ◌or_else◌}

pub record OrderPostgresOptions : Type 0 where
  pub host : String
  pub port : String
  pub user : String
  pub password : String
  pub database : String
  pub ssl_mode : String
  pub connection_timeout : ℤ

unfoldable pub validate_order_postgres_options : OrderPostgresOptions → Option Error
validate_order_postgres_options o =
    require_all "postgresOptions" (
      ("host", o.host)
      ∷ ("port", o.port)
      ∷ ("user", o.user)
      ∷ ("password", o.password)
      ∷ ("database", o.database)
      ∷ ("sslMode", o.ssl_mode)
      ∷ [])
    or_else positive_all "postgresOptions" (("connectionTimeout", o.connection_timeout) ∷ [])

pub record InventoryPostgresOptions : Type 0 where
  pub host : String
  pub port : String
  pub user : String
  pub password : String
  pub database : String
  pub ssl_mode : String
  pub connection_timeout : ℤ

unfoldable pub validate_inventory_postgres_options : InventoryPostgresOptions → Option Error
validate_inventory_postgres_options o =
    require_all "postgresOptions" (
      ("host", o.host)
      ∷ ("port", o.port)
      ∷ ("user", o.user)
      ∷ ("password", o.password)
      ∷ ("database", o.database)
      ∷ ("sslMode", o.ssl_mode)
      ∷ [])
    or_else positive_all "postgresOptions" (("connectionTimeout", o.connection_timeout) ∷ [])

pub record CatalogPostgresOptions : Type 0 where
  pub host : String
  pub port : String
  pub user : String
  pub password : String
  pub database : String
  pub ssl_mode : String
  pub connection_timeout : ℤ

unfoldable pub validate_catalog_postgres_options : CatalogPostgresOptions → Option Error
validate_catalog_postgres_options o =
    require_all "postgresOptions" (
      ("host", o.host)
      ∷ ("port", o.port)
      ∷ ("user", o.user)
      ∷ ("password", o.password)
      ∷ ("database", o.database)
      ∷ ("sslMode", o.ssl_mode)
      ∷ [])
    or_else positive_all "postgresOptions" (("connectionTimeout", o.connection_timeout) ∷ [])

pub record MongoOptions : Type 0 where
  pub uri : String
  pub database : String
  pub connection_timeout : ℤ

unfoldable pub validate_mongo_options : MongoOptions → Option Error
validate_mongo_options o =
    require_all "mongoOptions" (("uri", o.uri) ∷ ("database", o.database) ∷ [])
    or_else positive_all "mongoOptions" (("connectionTimeout", o.connection_timeout) ∷ [])

pub record ElasticsearchOptions : Type 0 where
  pub url : String
  pub products_index : String
  pub connection_timeout : ℤ

unfoldable pub validate_elasticsearch_options : ElasticsearchOptions → Option Error
validate_elasticsearch_options o =
    require_all "elasticsearchOptions" (("url", o.url) ∷ ("productsIndex", o.products_index) ∷ [])
    or_else positive_all "elasticsearchOptions" (("connectionTimeout", o.connection_timeout) ∷ [])
