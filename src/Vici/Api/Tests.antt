-- ===== src/Vici/Api/Tests.antt =====
-- Requests to the session manager.
use aipanel.Base.{
  ℕ, ◌≡◌, String, Text, codes, true, false, [], ◌∷◌, Option, none, some, nat_Key, string_Key,
}
use aipanel.Vici.Samples.{row_of, session}
use aipanel.Vici.Adapter.{response}
use aipanel.Vici.Worker.{Worker, new_worker, default_backoff}
use aipanel.Vici.Worker.Calls.{Outside}
use aipanel.Vici.Supervisor.{Supervisor}
use aipanel.Agent.Tools.{dnc_post, callback_post}
use aipanel.Vici.Api.{http_error, hangup_call, handle}
use aipanel.Vici.Api.Isolation.{IsApart, target, handle-IsApart}
use aipanel.Vici.Api.Compat.{post_request, post_request-refused}

abbrev seated : Worker
seated = record (new_worker (row_of 7) default_backoff 900 none) {
  captured = some session;
  http = some session;
}

abbrev two_workers : Supervisor
two_workers = record {
  workers = (7, seated) ∷ (8, new_worker (row_of 8) default_backoff 900 none) ∷ [];
  tasks = [];
  retired = [];
}

abbrev outside : Outside
outside = record {
  env = record { now = 1000; redis_up = true };
  reply = response 200 (codes "SUCCESS");
  stops = false;
}

-- The calls of one deployment.
abbrev resolve : String → Option ℕ
resolve call_id = some 7

handle-IsApart_example :
    IsApart
      (target resolve (hangup_call 7) two_workers)
      two_workers
      8
      (handle resolve "t" "t" outside (hangup_call 7) two_workers).1
handle-IsApart_example = handle-IsApart resolve "t" "t" outside (hangup_call 7) two_workers 8

abbrev str : Text → String
str t = "asked twice"

post_request-refused_example :
    (handle resolve "t" "t" outside
        (post_request str "c1" (dnc_post (codes "asked twice")))
        two_workers
      ≡ (http_error 400, two_workers))
    × (handle resolve "t" "t" outside
          (post_request str "c1" (callback_post (codes "noon") []))
          two_workers
        ≡ (http_error 400, two_workers))
post_request-refused_example =
    post_request-refused resolve str "t" "c1" outside (codes "asked twice") (codes "noon") []
      two_workers
