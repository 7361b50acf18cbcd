-- ===== src/Admission/Mux.antt =====
-- pkg/maroonedpods-server/maroonedpods-server.go: the paths of the webhook server. Both patterns of the
-- mux are exact; the headers that cors adds are left out.
use maroonedpods.Prelude.{String, ◌==◌, if◌then◌else◌}
use maroonedpods.Admission.{Json}
use maroonedpods.Admission.Server.{HttpRequest, HttpResponse, ReviewJson, serve_http}

abbrev pub healthz_path : String
healthz_path = "/healthz"

abbrev pub serve_path : String
serve_path = "/serve-path"

pub data Route : Type 0 where
  health admission unrouted : Route

unfoldable pub route : String → Route
route path =
    if path == healthz_path then health else if path == serve_path then admission else unrouted

-- what is written: "OK" for the health route, and the admission handler's response
pub data Answer : Type 0 where
  health_text : String → Answer
  answered : HttpResponse → Answer
  page_not_found : Answer

unfoldable pub serve_path_request : Json → ReviewJson → String → String → HttpRequest → Answer
serve_path_request json reviews ns path r = elim (route path) [
  | health ↦ health_text "OK"
  | admission ↦ answered (serve_http json reviews ns r)
  | unrouted ↦ page_not_found
]
