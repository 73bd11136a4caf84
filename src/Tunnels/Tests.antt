-- ===== src/Tunnels/Tests.antt =====
-- Tunnels and quotas at a concrete world.
use gotra.Prelude.{
  ℕ, zero, suc, pos, ◌+◌, ◌≡◌, refl, Str, Bool, true, false, Option, none, some, List, [], ◌∷◌,
  ◌++◌, ◌==◌, not, codes, str_eq, any, select, find, ltb, if◌then◌else◌,
}
use gotra.Errors.{GoError, Sentinel, ok, err}
use gotra.Store.{Db, Workspace, Project, Member, Tunnel, Request, drop_requests}
use gotra.Store as Tables
use gotra.Store.Action.{Env, World}
use gotra.Store.Action.Laws.{spent}
use gotra.Billing.{
  Subscription, subscription_for, open_tunnels, plan_for, within_limit, check_tunnel_quota,
  upsert_plan,
}
use gotra.Billing.Quota.{check_tunnel_quota_lem, sold_tunnels, tunnels_in_use}
use gotra.Tunnels.{member_of, accessible, valid_port, role_viewer, create, delete}
use gotra.Tunnels.Access.{create_sound}
use gotra.Tunnels.Handler.{delete_tunnel_at, delete_tunnel_at_sound}
use gotra.Web.{Claims, success, current_user_id}

abbrev sevens : ℕ → List ℕ
sevens zero = []
sevens (suc n) = 7 ∷ sevens n

abbrev calm : ℕ → Option ℕ
calm n = none

abbrev pub quiet : Env
quiet = record {
  fault = calm;
  json_headers = λ hs. hs;
  new_id = λ n. 100 + n;
  random = λ k n. some (sevens n);
  sha256 = λ s. s;
  id_key = λ pw salt t m p n. sevens n;
  uuid_string = λ n. n ∷ [];
  new_uuid = λ bs. bs;
  sign = λ u w r e. some [];
  access_ttl = 900;
  refresh_ttl = 2592000;
}

abbrev old_tunnel : Tunnel
old_tunnel = record {
  id = 40;
  project_id = 6;
  public_url = codes "https://old.tunnels.gotra.local";
  local_port = 80;
  status = codes "active";
}

abbrev tables_of : List Tunnel → Db
tables_of ts = record {
  users = [];
  providers = [];
  sessions = [];
  verifications = [];
  resets = [];
  workspaces =
      record { id = 5; owner_id = 1; name = []; slug = codes "ws-a"; is_personal = true } ∷ [];
  projects = record { id = 6; workspace_id = 5; owner_id = 1; name = []; slug = [] } ∷ [];
  members = record { project_id = 6; user_id = 1; role = codes "owner" } ∷ [];
  api_keys = [];
  tunnels = ts;
  subscriptions = [];
  requests = [];
  responses = [];
  replays = [];
  analyses = [];
  incidents = [];
  usages = [];
}

abbrev pub busy : World
busy = record {
  committed = tables_of (old_tunnel ∷ []);
  pending = tables_of [];
  now = 1000;
  statements = 0;
  draws = 0;
  outbox = [];
}

abbrev free_sub : Subscription
free_sub = record { workspace_id = 5; plan = codes "free"; status = codes "active" }

abbrev new_tunnel : Tunnel
new_tunnel = record {
  id = 103;
  project_id = 6;
  public_url = codes "https://bwchbwch.tunnels.gotra.local";
  local_port = 3000;
  status = codes "created";
}

abbrev created : World
created = (create quiet (some (check_tunnel_quota quiet)) 1 6 (pos 3000) busy).1

create_runs :
    create quiet (some (check_tunnel_quota quiet)) 1 6 (pos 3000) busy ≡ (ok new_tunnel, created)
unfolding gotra.Auth.Provision.primary_of gotra.Auth.Tokens.generate_opaque_token
    gotra.Billing.check_tunnel_quota gotra.Security.Base64.symbol gotra.Security.Base64.encode
    gotra.Security.Token.opaque_token gotra.Security.Token.label gotra.Store.Action.statement
    gotra.Tunnels.project_role gotra.Tunnels.create_tunnel gotra.Tunnels.gen_public_url
    gotra.Tunnels.create gotra.Prelude.str_eq gotra.Prelude.to_lower
create_runs = refl

create_sound_example :
    (valid_port (pos 3000) ≡ some 3000)
    × ((m : Member) × (member_of 1 6 busy.committed ≡ some m) × (str_eq m.role role_viewer ≡ false))
    × ((sub : Subscription) × (subscription_for 1 busy.committed ≡ some sub)
        × (within_limit
              (open_tunnels sub.workspace_id busy.committed)
              (plan_for sub.plan).max_tunnels
            ≡ true))
    × (new_tunnel.project_id ≡ 6)
    × (new_tunnel.status ≡ codes "created")
    × (any (λ (x : Tunnel). str_eq x.public_url new_tunnel.public_url) busy.committed.tunnels
        ≡ false)
    × (created.committed
        ≡ record busy.committed { tunnels = busy.committed.tunnels ++ new_tunnel ∷ [] })
create_sound_example =
    create_sound quiet 1 6 (pos 3000) busy {t = new_tunnel} {w' = created} create_runs

abbrev owner_claims : Claims
owner_claims = record { user_id = 1; workspace_id = 5; roles = [] }

-- An identifier is written as one byte.
abbrev parse_id : Str → Option ℕ
parse_id [] = none
parse_id (c ∷ s) = some c

abbrev deleted : World
deleted = (delete_tunnel_at quiet parse_id (some owner_claims) (40 ∷ []) busy).1

delete_runs :
    delete_tunnel_at quiet parse_id (some owner_claims) (40 ∷ []) busy
    ≡ (ok (success 200 "deleted"), deleted)
unfolding delete_tunnel_at gotra.Web.current_user_id gotra.Store.Action.statement
    gotra.Tunnels.get_with_access gotra.Tunnels.delete_by_id gotra.Tunnels.delete
    gotra.Prelude.str_eq
delete_runs = refl

delete_tunnel_at_sound_example :
    (id : ℕ) × (parse_id (40 ∷ []) ≡ some id)
    × ((t : Tunnel) × (role : Str) × (accessible
            (current_user_id (some owner_claims))
            id
            busy.committed
          ≡ some (t, role))
        × (str_eq role role_viewer ≡ false))
    × (deleted.committed
        ≡ drop_requests
            (λ (r : Request). r.tunnel_id == id)
            (record busy.committed {
              tunnels = select (λ (t : Tunnel). not (t.id == id)) busy.committed.tunnels;
            }))
delete_tunnel_at_sound_example =
    delete_tunnel_at_sound quiet parse_id (some owner_claims) (40 ∷ []) busy {status = 200}
      {body = "deleted"} {w' = deleted} delete_runs

check_tunnel_quota_lem_example : check_tunnel_quota quiet 1 busy ≡ (
  if ltb (tunnels_in_use 5 busy.committed) (sold_tunnels (codes "free"))
      then ok tt
      else err (GoError.sentinel Sentinel.quota_exceeded),
  spent (spent busy),
)
unfolding gotra.Billing.subscription_for gotra.Billing.subscription_of
    gotra.Auth.Provision.primary_of
check_tunnel_quota_lem_example = check_tunnel_quota_lem quiet (λ n. refl) 1 busy free_sub refl
