-- ===== src/Informers/Collection.antt =====
-- What the list and the watch of an informer have in common.
use maroonedpods.Prelude.{String, ◌≡◌, refl, false, if◌then◌else◌}
use maroonedpods.Informers.{Getter, ListOptions, Request, ListWatch, new_list_watch_from_client}

-- how the API server reads a request for a collection: the parameter decides
unfoldable pub verb_of : Request → String
verb_of r = if r.params.watch then "watch" else "list"

-- the objects that a request is about, whatever it wants to know of them
pub record Collection : Type 0 where
  pub group : String
  pub namespace : String
  pub resource : String
  pub fields : String
  pub labels : String

abbrev pub collection_of : Request → Collection
collection_of r = record {
  group = r.group;
  namespace = r.namespace;
  resource = r.resource;
  fields = r.params.field_selector;
  labels = r.params.label_selector;
}

-- A list without a watch lists a collection and a watch watches it, for whatever options.
pub record IsOver (lw : ListWatch) (c : Collection) : Type 0 where
  pub lists : (o : ListOptions) → o.watch ≡ false → verb_of (lw.list_func o) ≡ "list"
  pub watches : (o : ListOptions) → verb_of (lw.watch_func o) ≡ "watch"
  pub lists_it : (o : ListOptions) → collection_of (lw.list_func o) ≡ c
  pub watches_it : (o : ListOptions) → collection_of (lw.watch_func o) ≡ c

-- Whatever the options say of selectors and of watching, a list-watch watches the collection that it
-- lists: the given resource in the given namespace, in the API group of its client and under the given
-- selectors. What it lists it lists, if the options ask for no watch, and what it watches it watches.
pub new_list_watch_from_client-IsOver :
    (c : Getter) (resource namespace fields labels : String)
    → IsOver (new_list_watch_from_client c resource namespace fields labels) (record {
      group = c.group;
      namespace = namespace;
      resource = resource;
      fields = fields;
      labels = labels;
    })
unfolding new_list_watch_from_client verb_of
new_list_watch_from_client-IsOver c resource namespace fields labels = record {
  lists = λ o h. rw h refl;
  watches = λ o. refl;
  lists_it = λ o. refl;
  watches_it = λ o. refl;
}
