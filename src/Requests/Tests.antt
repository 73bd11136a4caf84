-- ===== src/Requests/Tests.antt =====
-- A captured request, read back and replayed.
use gotra.Prelude.{pos, ◌≡◌, ◌⊎◌, refl, some, List, [], ◌∷◌, codes, All, length}
use gotra.Errors.{ok}
use gotra.Store.{Member}
use gotra.Store.Action.{World}
use gotra.Store.Action.Laws.{spent}
use gotra.Tunnels.{member_of}
use gotra.Tunnels.Tests.{quiet, busy}
use gotra.Requests.{Capture, Summary, limit_or_default, summary_of}
use gotra.Requests.Repository.{save_capture, get_for_user, list_for_project}
use gotra.Requests.Captures.{
  as_json, captured_detail, get_for_user-save_capture, IsListedFrom, IsWithin,
  list_for_project_bounded,
}

abbrev pub crash : Capture
crash = record {
  tunnel_id = 40;
  project_id = 6;
  method = codes "POST";
  path = codes "/pay";
  query = [];
  req_headers = [];
  req_body = codes "1";
  status = pos 500;
  resp_headers = [];
  resp_body = codes "no";
  duration_ms = 7;
}

abbrev pub saved : World
saved = (save_capture quiet crash busy).1

save_capture_runs : save_capture quiet crash busy ≡ (ok 101, saved)
unfolding save_capture gotra.Requests.insert_request gotra.Requests.insert_response
    gotra.Store.Action.statement gotra.Store.Action.row_or gotra.Store.Action.begin
    gotra.Store.Action.commit
save_capture_runs = refl

get_for_user-save_capture_example :
    get_for_user quiet 1 101 saved
    ≡ (ok (captured_detail 101 1000 (as_json quiet crash)), spent saved)
unfolding member_of
get_for_user-save_capture_example =
    get_for_user-save_capture quiet crash 1 busy {id = 101} {w' = saved} save_capture_runs refl refl
      refl refl

abbrev listing : List Summary
listing =
    record {
      id = 101;
      tunnel_id = 40;
      method = codes "POST";
      path = codes "/pay";
      status = some (pos 500);
      duration_ms = some 7;
      received_at = 1000;
    }
    ∷ []

abbrev listed_at : World
listed_at = (list_for_project quiet 1 6 (pos 600) saved).1

list_for_project_runs : list_for_project quiet 1 6 (pos 600) saved ≡ (ok listing, listed_at)
unfolding save_capture gotra.Requests.insert_request gotra.Requests.insert_response
    gotra.Store.Action.statement gotra.Store.Action.row_or gotra.Store.Action.begin
    gotra.Store.Action.commit list_for_project gotra.Requests.listed limit_or_default member_of
list_for_project_runs = refl

list_for_project_bounded_example :
    IsWithin (pos 600) (length listing)
    × All (IsListedFrom 6 saved.committed) listing
    × ((listing ≡ []) ⊎ ((m : Member) × (member_of 1 6 saved.committed ≡ some m)))
list_for_project_bounded_example =
    list_for_project_bounded quiet 1 6 (pos 600) saved {items = listing} {w' = listed_at}
      list_for_project_runs
