-- ===== src/Informers.antt =====
-- pkg/informers/informers.go: the requests by which an informer lists and watches, the informers of
-- the programs, and the informer for unit tests.
pub mod Collection
pub mod Tests
use maroonedpods.Prelude.{ℕ, String, Bool, true, false, List, [], ◌∷◌, if◌then◌else◌, ◌==◌}

-- a `cache.Getter`: a REST client, which asks in one API group
pub record Getter : Type 0 where
  pub group : String

-- `client.MaroonedPodsClient`, by the REST clients that the informers take from it
pub record Client : Type 0 where
  pub rest_client : Getter
  pub core_v1_rest_client : Getter
  pub kubevirt_v1_rest_client : Getter

-- the options of a list or a watch that are read here
pub record ListOptions : Type 0 where
  pub label_selector : String
  pub field_selector : String
  pub watch : Bool
  pub resource_version : String
  pub limit : ℕ

-- the last call of the chain: `Do` or `Watch`
pub data Call : Type 0 where
  doing watching : Call

pub record Request : Type 0 where
  pub group : String
  pub namespace : String
  pub resource : String
  pub params : ListOptions
  pub call : Call

pub record ListWatch : Type 0 where
  pub list_func : ListOptions → Request
  pub watch_func : ListOptions → Request

-- the selectors are their texts
unfoldable pub new_list_watch_from_client : Getter → String → String → String → String → ListWatch
new_list_watch_from_client c resource namespace field_selector label_selector = record {
  list_func = λ options. record {
    group = c.group;
    namespace = namespace;
    resource = resource;
    params = record options { label_selector = label_selector; field_selector = field_selector };
    call = doing;
  };
  watch_func = λ options. record {
    group = c.group;
    namespace = namespace;
    resource = resource;
    params = record options {
      label_selector = label_selector;
      field_selector = field_selector;
      watch = true;
    };
    call = watching;
  };
}

-- client-go's informer, by what it is made of; the period of the resync is in hours
pub record SharedIndexInformer : Type 0 where
  pub list_watch : ListWatch
  pub kind : String
  pub resync : ℕ
  pub indexers : List String

-- `metav1.NamespaceAll` and `cache.NamespaceIndex`
abbrev pub namespace_all : String
namespace_all = ""

abbrev pub by_namespace : List String
by_namespace = "namespace" ∷ []

-- the texts of `fields.Everything()` and `labels.Everything()`
module _ (all_fields all_labels : String) where
  unfoldable pub get_maroonedpods_informer : Client → SharedIndexInformer
  get_maroonedpods_informer cli = record {
    list_watch =
        new_list_watch_from_client cli.rest_client "maroonedpods" namespace_all all_fields
          all_labels;
    kind = "MaroonedPods";
    resync = 1;
    indexers = by_namespace;
  }

  unfoldable pub get_pod_informer : Client → SharedIndexInformer
  get_pod_informer cli = record {
    list_watch =
        new_list_watch_from_client cli.core_v1_rest_client "pods" namespace_all all_fields
          all_labels;
    kind = "Pod";
    resync = 1;
    indexers = by_namespace;
  }

  unfoldable pub get_nodes_informer : Client → SharedIndexInformer
  get_nodes_informer cli = record {
    list_watch =
        new_list_watch_from_client cli.core_v1_rest_client "nodes" namespace_all all_fields
          all_labels;
    kind = "Node";
    resync = 1;
    indexers = [];
  }

  unfoldable pub get_secret_informer : Client → String → SharedIndexInformer
  get_secret_informer cli ns = record {
    list_watch =
        new_list_watch_from_client cli.core_v1_rest_client "secrets" ns all_fields all_labels;
    kind = "Secret";
    resync = 1;
    indexers = by_namespace;
  }

  unfoldable pub get_vmi_informer : Client → SharedIndexInformer
  get_vmi_informer cli = record {
    list_watch =
        new_list_watch_from_client cli.kubevirt_v1_rest_client "virtualmachineinstances"
          namespace_all all_fields all_labels;
    kind = "VirtualMachineInstance";
    resync = 1;
    indexers = by_namespace;
  }
