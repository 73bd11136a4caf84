-- ===== src/Store.antt =====
-- The PostgreSQL tables of services/migrations/0001_init_auth.sql, 0002_core_platform.sql,
-- 0003_ai_debugging.sql and 0004_billing.sql that the services read and write, and the statements that they send. A table
-- is the list of its rows, oldest first. Identifiers (UUID) are numbers.
pub mod Action
use gotra.Prelude.{
  ℕ, ℤ, Str, Bool, ◌&&◌, not, Option, none, some, List, ◌==◌, if◌then◌else◌, map, any, select,
}

-- users
pub record User : Type 0 where
  pub id : ℕ
  pub email : Str
  pub name : Str
  pub email_verified : Bool
  pub last_login_at : Option ℕ

-- user_auth_providers
pub record ProviderRow : Type 0 where
  pub user_id : ℕ
  pub provider : Str
  pub provider_user_id : Str
  pub provider_email : Str
  pub password_hash : Option Str

-- sessions
pub record Session : Type 0 where
  pub id : ℕ
  pub user_id : ℕ
  pub refresh_token_hash : Str
  pub ip_address : Str
  pub user_agent : Str
  pub expires_at : ℕ
  pub revoked_at : Option ℕ

-- email_verifications and password_resets
pub record OneTimeToken : Type 0 where
  pub user_id : ℕ
  pub token_hash : Str
  pub expires_at : ℕ
  pub used_at : Option ℕ

pub record Workspace : Type 0 where
  pub id : ℕ
  pub owner_id : ℕ
  pub name : Str
  pub slug : Str
  pub is_personal : Bool

pub record Project : Type 0 where
  pub id : ℕ
  pub workspace_id : ℕ
  pub owner_id : ℕ
  pub name : Str
  pub slug : Str

-- project_members
pub record Member : Type 0 where
  pub project_id : ℕ
  pub user_id : ℕ
  pub role : Str

pub record ApiKey : Type 0 where
  pub project_id : ℕ
  pub name : Str
  pub key_hash : Str

pub record Tunnel : Type 0 where
  pub id : ℕ
  pub project_id : ℕ
  pub public_url : Str
  pub local_port : ℕ
  pub status : Str

pub record Subscription : Type 0 where
  pub workspace_id : ℕ
  pub plan : Str
  pub status : Str

-- A row of requests; the JSON column of headers is the map that it encodes.
pub record Request : Type 0 where
  pub id : ℕ
  pub tunnel_id : ℕ
  pub project_id : ℕ
  pub method : Str
  pub path : Str
  pub query : Str
  pub headers : List (Str × List Str)
  pub body : Str
  pub received_at : ℕ

pub record Response : Type 0 where
  pub request_id : ℕ
  pub status_code : ℤ
  pub headers : List (Str × List Str)
  pub body : Str
  pub duration_ms : ℕ

-- The column modified_request of replays, as the value that json.Marshal was given.
pub record ModifiedRequest : Type 0 where
  pub method : Str
  pub path : Str
  pub headers : List (Str × List Str)
  pub body : Str

pub record Replay : Type 0 where
  pub id : ℕ
  pub original_request_id : ℕ
  pub project_id : ℕ
  pub modified_request : ModifiedRequest
  pub result_status_code : ℤ
  pub result_body : Str
  pub duration_ms : ℕ

pub record Analysis : Type 0 where
  pub id : ℕ
  pub project_id : ℕ
  pub request_id : Option ℕ
  pub analysis_type : Str
  pub provider : Str
  pub confidence_score : ℕ
  pub severity : Str
  pub created_at : ℕ

pub record Incident : Type 0 where
  pub id : ℕ
  pub project_id : ℕ
  pub summary : Str
  pub root_cause : Str
  pub confidence_score : ℕ
  pub created_at : ℕ

pub record Usage : Type 0 where
  pub project_id : ℕ
  pub provider : Str
  pub tokens_in : ℤ
  pub tokens_out : ℤ

pub record Db : Type 0 where
  pub users : List User
  pub providers : List ProviderRow
  pub sessions : List Session
  pub verifications : List OneTimeToken
  pub resets : List OneTimeToken
  pub workspaces : List Workspace
  pub projects : List Project
  pub members : List Member
  pub api_keys : List ApiKey
  pub tunnels : List Tunnel
  pub subscriptions : List Subscription
  pub requests : List Request
  pub responses : List Response
  pub replays : List Replay
  pub analyses : List Analysis
  pub incidents : List Incident
  pub usages : List Usage

-- An analysis whose request is gone keeps its row, by ON DELETE SET NULL.
unfoldable pub unlink : (ℕ → Bool) → Analysis → Analysis
unlink gone a = elim a.request_id [
  | none ↦ a
  | some id ↦ if gone id then record a { request_id = none } else a
]

-- The tables without the requests that pass a test, and what the foreign keys make of the rows that
-- refer to them.
unfoldable pub drop_requests : (Request → Bool) → Db → Db
unfolding unlink
drop_requests p d =
    let gone = λ (id : ℕ). any (λ (r : Request). r.id == id && p r) d.requests in
    record d {
      requests = select (λ (r : Request). not (p r)) d.requests;
      responses = select (λ (r : Response). not (gone r.request_id)) d.responses;
      replays = select (λ (r : Replay). not (gone r.original_request_id)) d.replays;
      analyses = map (unlink gone) d.analyses;
    }
