-- ===== src/Gateway/Handshake/Tests.antt =====
-- A handshake at a concrete world.
use gotra.Prelude.{
  ℕ, pos, ◌≡◌, refl, Str, Bool, true, false, Option, none, some, List, [], ◌∷◌, codes, str_eq, any,
}
use gotra.Errors.{ok}
use gotra.Store.{Member, Tunnel}
use gotra.Store.Action.{World}
use gotra.Tunnels.{member_of, valid_port, role_viewer}
use gotra.Tunnels.Tests.{quiet, busy}
use gotra.Gateway.Host.{public_url}
use gotra.Gateway.Handshake.{open_tunnel, announce}
use gotra.Gateway.Handshake.Authorized.{open_tunnel_sound}

-- Every token is that of user 1, and every project text that of project 6.
abbrev first_user : Str → Option ℕ
first_user s = some 1

abbrev only_project : Str → Option ℕ
only_project s = some 6

abbrev base : Str
base = codes "gotra.dev"

abbrev opened_tunnel : Tunnel
opened_tunnel = record {
  id = 101;
  project_id = 6;
  public_url = codes "https://bwchbwch.gotra.dev";
  local_port = 3000;
  status = codes "created";
}

abbrev opened : World
opened = (open_tunnel quiet first_user only_project base [] [] (pos 3000) busy).1

open_tunnel_runs :
    open_tunnel quiet first_user only_project base [] [] (pos 3000) busy
    ≡ (ok (opened_tunnel, codes "bwchbwch"), opened)
unfolding gotra.Auth.Tokens.generate_opaque_token gotra.Gateway.Handshake.new_subdomain
    gotra.Gateway.Handshake.handshake gotra.Security.Base64.symbol gotra.Security.Base64.encode
    gotra.Security.Token.opaque_token gotra.Security.Token.label gotra.Store.Action.statement
    gotra.Tunnels.project_role gotra.Tunnels.create_tunnel gotra.Tunnels.set_status
    gotra.Tunnels.create gotra.Prelude.str_eq gotra.Prelude.to_lower
open_tunnel_runs = refl

open_tunnel_sound_example :
    (user_id project_id : ℕ) × (first_user [] ≡ some user_id)
    × (only_project [] ≡ some project_id)
    × ((m : Member) × (member_of user_id project_id busy.committed ≡ some m)
        × (str_eq m.role role_viewer ≡ false))
    × (valid_port (pos 3000) ≡ some opened_tunnel.local_port)
    × (opened_tunnel.project_id ≡ project_id)
    × (opened_tunnel.public_url ≡ public_url base (codes "bwchbwch"))
    × (any (λ (x : Tunnel). str_eq x.public_url opened_tunnel.public_url) busy.committed.tunnels
        ≡ false)
open_tunnel_sound_example =
    open_tunnel_sound quiet first_user only_project base [] [] (pos 3000) busy {t = opened_tunnel}
      {sub = codes "bwchbwch"} {w' = opened} open_tunnel_runs
