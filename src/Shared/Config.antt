-- ===== src/Shared/Config.antt =====
-- The deployment's configuration: src/shared/config/environment.config.ts and app-config.service.ts.
-- The variables are read and validated by ConfigModule and class-validator.
pub mod Lists
use Prim.Native.Char.{Char, code}
use text.Mathlib.TextBridge.{to_list, of_list}
use layer_backend.Base.{
  ℕ, String, Bool, true, false, Option, none, some, List, [], ◌∷◌, map, not, ◌&&◌, ◌||◌, ◌==◌, leb,
  str_eq, select, if◌then◌else◌,
}

-- `EEnvironment`.
pub data Environment : Type 0 where
  local development production test : Environment

-- `EnvironmentVariables`, once it is validated.
pub record EnvironmentVariables : Type 0 where
  pub node_env : Environment
  pub port : ℕ
  pub log_level : String
  pub database_url : String
  pub kafka_client_id : String
  pub kafka_brokers : String
  pub kafka_consumer_group : String
  pub kafka_topic_bc_product : String
  pub kafka_topic_bc_stock : String
  pub kafka_topic_ecom_stock : String
  pub ecom_api_url : String
  pub ecom_api_token : Option String
  pub cors_origins : String
  pub swagger_enabled : Bool
  pub swagger_path : String

-- `isProduction`.
abbrev pub is_production : EnvironmentVariables → Bool
is_production env = elim env.node_env [ Environment.production ↦ true | _ ↦ false ]

abbrev pub is_comma : Char → Bool
is_comma c = code c == 44

-- What `trim` of JavaScript removes: white space and line terminators.
abbrev pub is_space : Char → Bool
is_space c =
    let n = code c in
    (leb 9 n && leb n 13)
    || n == 32
    || n == 160
    || n == 5760
    || (leb 8192 n && leb n 8202)
    || n == 8232
    || n == 8233
    || n == 8239
    || n == 8287
    || n == 12288
    || n == 65279

abbrev pub is_empty {ℓ} : {A : Type ℓ} → List A → Bool
is_empty [] = true
is_empty (x ∷ xs) = false

-- A character in front of the first part.
abbrev pub push : Char → List (List Char) → List (List Char)
push c [] = (c ∷ []) ∷ []
push c (x ∷ xs) = (c ∷ x) ∷ xs

-- `split(',')`.
unfoldable pub split_commas : List Char → List (List Char)
split_commas [] = [] ∷ []
split_commas (c ∷ cs) = let rest = split_commas cs in if is_comma c then [] ∷ rest else push c rest

-- `trim()`.
unfoldable pub trim_start : List Char → List Char
trim_start [] = []
trim_start (c ∷ cs) = let rest = trim_start cs in if is_space c then rest else c ∷ cs

unfoldable pub trim_end : List Char → List Char
trim_end [] = []
trim_end (c ∷ cs) = let rest = trim_end cs in if is_space c && is_empty rest then [] else c ∷ rest

abbrev pub trim : List Char → List Char
trim cs = trim_start (trim_end cs)

-- `split(',').map((entry) => entry.trim()).filter(Boolean)`.
unfoldable pub entries : List Char → List (List Char)
entries cs = select (λ entry. not (is_empty entry)) (map trim (split_commas cs))

-- `kafkaBrokers`.
unfoldable pub kafka_brokers : EnvironmentVariables → List String
kafka_brokers env = map of_list (entries (to_list env.kafka_brokers))

-- `'*'`, or a list of origins.
pub data CorsOrigins : Type 0 where
  any : CorsOrigins
  origins : List String → CorsOrigins

-- `corsOrigins`.
unfoldable pub cors_origins : EnvironmentVariables → CorsOrigins
cors_origins env =
    let raw = to_list env.cors_origins in
    if str_eq (of_list (trim raw)) "*"
    then CorsOrigins.any
    else CorsOrigins.origins (map of_list (entries raw))
