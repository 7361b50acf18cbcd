-- ===== src/Startup/Server.antt =====
-- cmd/maroonedpods-server/maroonedpods-server.go: `main`, with `Start` of the server that it makes.
use maroonedpods.Prelude.{String, Bool, true, false, List, [], ◌∷◌, Result, ok, err}
use maroonedpods.Informers.{Client, SharedIndexInformer, get_secret_informer}
use maroonedpods.Rotation.{secret_resource_name}
use maroonedpods.Settings.{get_namespace}
use maroonedpods.Startup.{
  started, waited, certs_started, serving, exited, fatal, running, Wait, synced, stopped, blocked,
  Process, ends, then_,
}

-- what the calls of `main` give
pub record World : Type 0 where
  pub all_fields : String
  pub all_labels : String
  pub trim_space : String → String
  pub namespace_file : Result String
  pub client : Result Client
  pub wait : List SharedIndexInformer → Wait
  -- whether the listener has failed; it returns only with an error
  pub listener_failed : Bool

-- `startTLS` at the address, which waits for the listener
unfoldable pub start_tls : String → Bool → Process
start_tls bind_addr failed =
    then_ (serving bind_addr) (elim failed [ true ↦ ends fatal | false ↦ ends running ])

module _ (w : World) where
  -- `main` once it has a client; `MaroonedPodsServer` gives no error
  unfoldable pub serve_namespace : String → Client → Process
  unfolding start_tls
  serve_namespace ns cli =
      let secrets = get_secret_informer w.all_fields w.all_labels cli ns in
      then_ (started secrets) (elim (w.wait (secrets ∷ [])) [
        | blocked ↦ ends running
        | stopped ↦ then_ (waited (secrets ∷ []) false) (ends (exited 1))
        | synced ↦ then_ (waited (secrets ∷ []) true) (
            then_ (certs_started secret_resource_name ns)
              (start_tls "0.0.0.0:8443" w.listener_failed))
      ])

  unfoldable pub server_main : Process
  unfolding serve_namespace
  server_main = elim w.client [
    | err _ ↦ ends (exited 1)
    | ok cli ↦ serve_namespace (get_namespace w.trim_space w.namespace_file) cli
  ]
