-- ===== src/Informers/Tests.antt =====
-- The requests of an informer at some options.
use maroonedpods.Prelude.{◌≡◌, refl, false}
use maroonedpods.Informers.{Getter, ListOptions, new_list_watch_from_client}
use maroonedpods.Informers.Collection.{verb_of}

abbrev getter : Getter
getter = record { group = "" }

abbrev options : ListOptions
options = record {
  label_selector = "app=x";
  field_selector = "";
  watch = false;
  resource_version = "7";
  limit = 500;
}

watched : verb_of ((new_list_watch_from_client getter "pods" "" "" "").watch_func options) ≡ "watch"
unfolding verb_of new_list_watch_from_client
watched = refl
