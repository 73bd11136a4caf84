-- ===== src/Gateway/Tests.antt =====
-- Hosts, registries and connections at concrete states.
use gotra.Prelude.{
  ℕ, pos, ◌≡◌, refl, Str, Bool, true, false, ◌&&◌, Option, none, some, List, [], ◌∷◌, ◌++◌, ◌==◌,
  codes, ◌↔◌, ◌⊎◌, inl, inr, str_eq, lacks, if◌then◌else◌, arith,
}
use gotra.Errors.{GoError, Sentinel, ok, err}
use gotra.Store.Action.{Attempt, got}
use gotra.Gateway.Host.{
  subdomain_from_host, split_host, without_port, tunnel_host, host_permitted, captured_path,
  forward_path,
}
use gotra.Gateway.Host.Names.{
  subdomain_from_host-tunnel_host, subdomain_from_host_sound, host_permitted_iff,
  captured_path-forward_path,
}
use gotra.Gateway.Message.{Request, Response, ClusterRequest, ClusterResponse}
use gotra.Gateway.Registry.{
  Cluster, Entry, local_lookup, owner_instance, add, remove, snapshot, wait,
}
use gotra.Gateway.Registry.Routes.{owner_instance-remove}
use gotra.Gateway.Registry.Backed.{
  Reaches, started, stored, ticked, was_set, has_stored, owner_instance-stored, idle,
}
use gotra.Gateway.Conn.{
  Conn, Runs, opened, began, arrived, ended, new_agent_conn, begin_forward, deliver, end_forward,
  channel, answered,
}
use gotra.Gateway.Conn.Correlation.{own_channel, channel-own_channel, AllAnswered, AllAnswered-Runs}
use gotra.Gateway.Public.{PublicRequest, forwarded, handle_cluster_request, handle_public}
use gotra.Gateway.Public.Anywhere.{Answered, handle_public-Answered, handle_public-anywhere}

abbrev base : Str
base = codes "gotra.dev"

subdomain_from_host-tunnel_host_example :
    (subdomain_from_host base (codes "abc1.gotra.dev") ≡ codes "abc1")
    × (subdomain_from_host base (codes "abc1.gotra.dev:8443") ≡ codes "abc1")
unfolding gotra.Gateway.Host.Names.is_plain lacks
subdomain_from_host-tunnel_host_example =
    subdomain_from_host-tunnel_host base (codes "abc1") (codes "8443") refl refl refl

subdomain_from_host_sound_example :
    without_port (codes "abc1.gotra.dev:80") (split_host (codes "abc1.gotra.dev:80"))
    ≡ codes "abc1.gotra.dev"
unfolding subdomain_from_host split_host str_eq lacks gotra.Gateway.Host.cut_suffix
    gotra.Prelude.cut_byte
subdomain_from_host_sound_example =
    subdomain_from_host_sound base (codes "abc1.gotra.dev:80") b'a' (codes "bc1") refl

-- Connection 7 of instance 1, then connection 8 in its place.
abbrev one : Cluster
one = add true 1 (codes "abc1") 7 (idle 100)

abbrev two : Cluster
two = add true 1 (codes "abc1") 8 one

-- The connection 7 was replaced by 8; its removal takes the route of 8 away.
owner_instance-remove_example :
    owner_instance none (remove true 1 (codes "abc1") 7 two) (codes "abc1")
    ≡ err (GoError.sentinel Sentinel.no_tunnel)
owner_instance-remove_example = owner_instance-remove 1 (codes "abc1") 7 two

-- The SET of a tick of refreshLoop is under way.
two-Reaches : Reaches ((1, codes "abc1") ∷ (1, codes "abc1") ∷ []) ((1, codes "abc1") ∷ []) two
unfolding add snapshot gotra.Gateway.Registry.publish gotra.Gateway.Registry.hold str_eq
two-Reaches = ticked 1 (
    was_set [] [] true 1 (codes "abc1") (
      stored 1 (codes "abc1") 8
        (was_set [] [] true 1 (codes "abc1") (stored 1 (codes "abc1") 7 started))))

two_owner : owner_instance none two (codes "abc1") ≡ ok 1
unfolding add gotra.Gateway.Registry.publish gotra.Gateway.Registry.hold owner_instance
    gotra.Gateway.Registry.live_route str_eq
two_owner = refl

owner_instance-stored_example :
    (has_stored ((1, codes "abc1") ∷ (1, codes "abc1") ∷ []) 1 (codes "abc1") ≡ true)
    × (owner_instance none (wait 90 two) (codes "abc1") ≡ err (GoError.sentinel Sentinel.no_tunnel))
owner_instance-stored_example =
    owner_instance-stored (codes "abc1") 1 90 two-Reaches two_owner (omega arith)

abbrev pong : Response
pong = record { status = pos 200; headers = []; body = codes "pong" }

abbrev answered_once : Conn
answered_once =
    end_forward 3 (answered pong) (deliver 3 pong (deliver 4 pong (begin_forward 3 new_agent_conn)))

answered_once-Runs : Runs answered_once
unfolding channel deliver begin_forward
answered_once-Runs = ended 3 (answered pong) refl (arrived 3 pong (arrived 4 pong (began 3 opened)))

channel-own_channel_example : channel 3 answered_once ≡ own_channel 3 answered_once.log
channel-own_channel_example = channel-own_channel 3 answered_once-Runs

AllAnswered-Runs_example : AllAnswered answered_once.log
AllAnswered-Runs_example = AllAnswered-Runs answered_once-Runs

abbrev silent : GoError → Str
silent e = []

abbrev echo : ℕ → Request → Attempt Response
echo conn req = got (record { status = pos 200; headers = []; body = req.path })

abbrev peer : ℕ → ClusterRequest → Attempt ClusterResponse
peer i m = got (handle_cluster_request silent echo two i m)

abbrev visit : PublicRequest
visit = record {
  host = codes "abc1.gotra.dev";
  method = codes "GET";
  path = codes "/a";
  raw_query = codes "b=1";
  headers = [];
  body = some [];
}

visit_subdomain : subdomain_from_host base visit.host ≡ codes "abc1"
unfolding subdomain_from_host split_host str_eq gotra.Gateway.Host.cut_suffix gotra.Prelude.cut_byte
visit_subdomain = refl

handle_public-Answered_example :
    Answered silent echo peer two
      (λ i m. refl)
      none
      2
      (codes "abc1")
      (forwarded visit [])
      (handle_public silent echo peer base none two 2 visit)
handle_public-Answered_example =
    handle_public-Answered silent echo peer two (λ i m. refl) base none 2 visit [] b'a'
      (codes "bc1") refl visit_subdomain

handle_public-anywhere_example :
    handle_public silent echo peer base none two 2 visit
    ≡ handle_public silent echo peer base none two 1 visit
unfolding subdomain_from_host split_host str_eq gotra.Gateway.Host.cut_suffix gotra.Prelude.cut_byte
    add
handle_public-anywhere_example =
    handle_public-anywhere silent echo peer two (λ i m. refl) base 1 2 8 visit refl refl two_owner
