-- ===== src/Admission/Lifecycle.antt =====
-- handler.go under the API server: a pod's scheduling gates through a history of updates. The
-- server encodes both pods into the request and stores the new one if the webhook allows it.
use mathlib.Core.Path.{subst}
use maroonedpods.Prelude.{
  String, ◌≡◌, refl, ◌⊎◌, ◌↔◌, inl, inr, Bool, true, false, List, [], ◌∷◌, arith, Result, ok, err,
  any, ◌==◌,
}
use maroonedpods.Admission.{
  create_operation, Pod, AdmissionRequest, AdmissionReview, Json, new_handler, should_mutate,
  is_controller_service_account, handle, validate_pod_update,
}
use maroonedpods.Admission.Account.{HasGate, is_controller_service_account_iff}
use maroonedpods.Admission.Decision.{Legal, validate_pod_update-Answers}

abbrev pub allows : Result AdmissionReview → Bool
allows (ok r) = r.response.allowed
allows (err _) = false

-- the request that asks to replace `old` by `new`
pub record IsUpdate (json : Json) (old : Pod) (user : String) (new : Pod) (r : AdmissionRequest)
    : Type 0 where
  pub is_pod : r.kind ≡ "Pod"
  pub is_update : r.operation ≡ "UPDATE"
  pub by : r.username ≡ user
  pub old_decodes : json.unmarshal_pod r.old_object ≡ ok old
  pub new_decodes : json.unmarshal_pod r.object ≡ ok new

module _ (json : Json) (ns : String) where
  -- one update that the webhook let through, by the named user
  pub data Update (p : Pod) : String → Pod → Type 0 where
    update :
        {user : String} {q : Pod} (r : AdmissionRequest)
        → IsUpdate json p user q r
        → allows (handle json (new_handler r ns)) ≡ true
        → Update p user q

  -- what happened to a pod since its creation, the last user first
  pub data History (p : Pod) : List String → Pod → Type 0 where
    start : History p [] p
    next :
        {users : List String} {user : String} {q r : Pod}
        → History p users q
        → Update q user r
        → History p (user ∷ users) r

  handle-IsUpdate :
      {user : String} {p q : Pod} (r : AdmissionRequest)
      → IsUpdate json p user q r
      → handle json (new_handler r ns) ≡ validate_pod_update json (new_handler r ns)
  unfolding handle new_handler should_mutate
  handle-IsUpdate r u =
      let pod : (r.kind == "Pod") ≡ true = rw (u.is_pod) refl in
      let update : (r.operation == create_operation) ≡ false = rw (u.is_update) refl in ground arith

  -- An update whose pods decode is let through exactly if it removes no gate or is made by the
  -- controller's service account of the handler's namespace.
  pub handle-Legal_iff :
      {user : String} {p q : Pod} (r : AdmissionRequest)
      → IsUpdate json p user q r
      → (allows (handle json (new_handler r ns)) ≡ true) ↔ Legal ns user p q
  unfolding new_handler
  handle-Legal_iff {user} {p} {q} r u =
      let (a, e, w) =
        validate_pod_update-Answers json (new_handler r ns) p q u.old_decodes u.new_decodes in
      rw (handle-IsUpdate r u, e)
        (subst (λ (x : String). (a.response.allowed ≡ true) ↔ Legal ns x p q) u.by w.allowed_iff)

  -- Whatever updates were let through since a pod had the gate, the pod still has the gate, or
  -- one of the updates was made by the controller's service account of the handler's namespace.
  pub History-HasGate :
      {p q : Pod} {users : List String}
      → HasGate p.scheduling_gates
      → History p users q
      → HasGate q.scheduling_gates ⊎ (any (λ u. is_controller_service_account u ns) users ≡ true)
  unfolding any
  History-HasGate g start = inl g
  History-HasGate g (next {user = user} h (update r u allowed)) = elim (History-HasGate g h) [
    | inr c ↦ inr (ground arith)
    | inl gq ↦ elim ((handle-Legal_iff r u).0 allowed) [
      | inl none_old ↦ absurd (none_old gq)
      | inr rest ↦ elim rest [
        | inl new ↦ inl new
        | inr by ↦ inr (ground (arith, (is_controller_service_account_iff user ns).1 by))
      ]
    ]
  ]
