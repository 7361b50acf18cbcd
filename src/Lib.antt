-- ===== src/Lib.antt =====
-- A verification of MaroonedPods: an operator that installs a controller and a webhook server, a
-- webhook that holds new pods back with a scheduling gate, and the certificates between them.
--
-- The parts and how they interact. The operator finds the active MaroonedPods resource, derives from
-- it the certificates that it keeps (a CA, its bundle, and the certificate of the server) and has them
-- rotated; it registers the webhooks with that bundle once both deployments are ready; it grants the
-- roles of the controller and the server, and applies their deployments and services. The webhook
-- server parses an admission review, lets its handler gate a new pod or judge an update, and serves
-- under the certificate of the secret, with a fallback. Only the controller's service account may
-- remove the gate.
--
-- Files, and the code that each is about (paths from the repository's root):
--   Prelude: the shared names; Go's (T, error) as Result, an int as ℤ, maps of strings, tests on
--     numbers.
--   Admission: pkg/maroonedpods-server/handler/handler.go, one definition for each method of Handler;
--     Admission/Server is ServeHTTP and parseRequest of
--     pkg/maroonedpods-server/maroonedpods-handler.go; Mux is the routes of
--     pkg/maroonedpods-server/maroonedpods-server.go; Account, Gating, Decision and Lifecycle hold
--     the theorems.
--   Cr: the resource of staging/src/maroonedpods.io/api/pkg/apis/core/v1alpha1/types.go, and
--     GetActiveMaroonedPods and GetDeployment of pkg/util/util.go.
--   Webhooks: pkg/maroonedpods-operator/resources/cluster/maroonedpodsserver.go, the two webhook
--     configurations and getAPIServerCABundle; Service is where they point, and Reach puts them
--     together with Admission.
--   Rotation: pkg/maroonedpods-operator/resources/cert/factory.go and getCertificateDefinitions of
--     controller.go; Rotation/Sync is certManager.Sync of certrotation.go with all that it calls.
--   Labels: MergeLabels, SetRecommendedLabels and GetRecommendedInstallerLabelsFromCr of util.go.
--   Hooks: checkSanity and configMapOwnerDeleted of pkg/maroonedpods-operator/reconciler-hooks.go, with
--     getConfigMap of controller.go and IsCreating of cr-manager.go.
--   Rbac: the policy rules of resources/cluster, resources/namespaced and resources/operator of
--     pkg/maroonedpods-operator, with what a rule grants in Rbac/Rule.
--   Resources: the factories of pkg/maroonedpods-operator/resources: Cluster, Namespaced with
--     Server and Controller, and Operator with Csv; Util is CreateContainer and its kind in
--     pkg/util/util.go. Order is the loop over a map of factories; Install and Reachable hold the
--     theorems.
--   Reconcile: GetAllResources and getNamespacedArgs of cr-manager.go, Reconcile of controller.go and
--     the certificate synchronizer; Claim is createOperatorConfig.
--   Certs: Pem is pkg/certificates/triple/cert/pem.go; Current is SecretCertificateManager and the
--     fallback of pkg/certificates/bootstrap/cert-manager.go under SetupTLS of pkg/util/util.go;
--     Watch is FileCertificateManager, a step relation with a step for each move of a goroutine.
--     Pem/Encode is the encoders, ReadBack the round trips; Issue is
--     pkg/certificates/triple/triple.go and cert/cert.go, Issue/Stored is
--     pkg/certificates/certificates.go and the fallback certificate, and Crypto what they call.
--   Controller: Gate is pkg/maroonedpods-controller/maroonepods-gate-controller, the handlers of pods,
--     the worker, and the workers of Run, a step relation with a step for each call on the queue;
--     Leader is application.go, a step relation for the election and the probe.
--   Settings: the namespace and the TLS names of util.go, GetMaroonedPodsClient of
--     pkg/client/maroonedpodsCli.go, and the map function of cruft.go.
--   Informers: pkg/informers/informers.go, as the requests that an informer makes.
--   Clients: the construction of a client in pkg/client/maroonedpodsCli.go and client.go; Scheme is
--     its init with register.go of the API; Subresource is what differs in
--     pkg/util/maroonedpodscli.go.
--   Startup: Controller is Execute of pkg/maroonedpods-controller/application.go with all that it
--     calls, Server and Operator are the mains under cmd, the latter with Add, newReconciler and
--     add of pkg/maroonedpods-operator/controller.go; Verbosity is the level of the operator's log.
--     Ordered, Elected, Permitted and Wired hold the theorems; Rotation/Start is newCertManager and
--     Start of certrotation.go.
--   Build: Crds is tools/crd-generator, Manifests tools/manifest-generator and tools/csv-generator;
--     GoSource is how Go reads a generated file, Readable and Printed hold the theorems.
--   Log: pkg/log/log.go, the filtered logger, its registry, and the readers of libvirt and qemu lines.
--   The modules called Tests hold concrete inputs.
--
-- State. A Go method that changes its receiver gives the new receiver beside its result; a nil pointer
-- is none; a panic is a result of its own where the code can reach one. The start of a program is
-- the list of what it does that others see, and how it ends. A map is an association list, or a
-- function where it is only read; where Go walks a map, the order of its keys is an argument. A
-- duration is the bits of an int64, subtracted modulo 2^64; in certificates it is a number of
-- seconds.
--
-- Fuel. The loops over PEM blocks get one more than the number of bytes: pem.Decode, a parameter, takes
-- at least one byte off the rest when it finds a block, and under that hypothesis the theorems give the
-- result of the loop, so the fuel is enough. The worker gets one more than the keys that are
-- pending. Every other loop is structural recursion.
--
-- Parameters, with what is assumed of them where a theorem says so: encoding/json (the conversions of
-- a pod, the gates and a review), encoding/pem, crypto/x509 and crypto/tls, the JSON patch of the API
-- server, the Kubernetes client and listers (an update that succeeds returns the object that was
-- sent), the certificate rotation of openshift/library-go,
-- the resource builder of the lifecycle SDK (an object has the name, rules, labels and accounts
-- that it is built with), controller-runtime's owner references, the creation of certificates (one
-- has the fields of its template), the constructors of the REST clients, the registration of
-- KubeVirt's types, the sorting of texts, the printing of objects, the work queue and the election
-- of client-go, zapr's levels, time.Parse and strconv.Atoi.
--
-- Not modelled: the lifecycle SDK, which applies the objects and calls the hooks; the elector of
-- client-go and its informers beyond their requests; HTTP servers; MarshallObject of tools/util, a
-- copy from KubeVirt; the declarations of interfaces, the getters of generated clients, and what
-- pkg/util repeats of pkg/client. The text of an error is kept only where the code or its answer
-- shows it. Concurrency is modelled for FileCertificateManager, the leader's probe and the workers
-- of the gate controller; the mutexes of SecretCertificateManager and of the loggers make their
-- operations atomic, so they are functions.
pub mod Prelude
pub mod Admission
pub mod Cr
pub mod Webhooks
pub mod Rotation
pub mod Labels
pub mod Hooks
pub mod Rbac
pub mod Resources
pub mod Reconcile
pub mod Controller
pub mod Settings
pub mod Certs
pub mod Log
pub mod Informers
pub mod Clients
pub mod Startup
pub mod Build
