-- ===== src/Events/Clients.antt =====
-- The clients of src/wstangoproc_cli/EventProcCli.cpp are kept apart: `request` and
-- `unsubscribeAllDev` over any history.
use web_socket_ds.Base.{
  ◌≡◌, refl, ◌∙◌, ◌≢◌, ℕ, String, List, [], ◌∷◌, Option-cases, inl, inr, arith, suc, All,
}
use web_socket_ds.Base.Int.{stoi}
use web_socket_ds.Wire.{TypeWsReq}
use web_socket_ds.Request.{ParsedInputJson, value_at}
use web_socket_ds.Events.State.{Tango, Env, get_id_of_event_subscription, empty}
use web_socket_ds.Events.Unsubscribe.{find_id, rem_dev_req, unsubscribe_all_dev}
use web_socket_ds.Events.Requests.{request}
use web_socket_ds.Events.Isolation.Removal.{get_id-remove_subscription, get_id-unsubscribe_all_dev}
use web_socket_ds.Events.Isolation.Quiet.{
  IsQuiet, IsQuiet-empty, remove_subscription-IsQuiet, unsubscribe_all_dev-IsQuiet,
}
use web_socket_ds.Events.Isolation.Addition.{add_dev_req-Keeps}

-- What reaches the component: a request, or the end of a connection.
pub data Call (Tree : Type 0) : Type 0 where
  requests : ℕ → ParsedInputJson Tree → Call Tree
  disconnects : ℕ → Call Tree

module _ {Tree : Type 0} where
  abbrev pub client_of : Call Tree → ℕ
  client_of (requests hdl p) = hdl
  client_of (disconnects hdl) = hdl

  -- `WSTangoConnCli::clientDisconnected` calls `unsubscribeAllDev`.
  unfoldable pub step : (t : Tango) → ℕ → Env t → Call Tree → Env t
  step t unset e (requests hdl p) = (request t unset p hdl e).1
  step t unset e (disconnects hdl) = unsubscribe_all_dev t unset hdl e

  unfoldable pub run : (t : Tango) → ℕ → Env t → List (Call Tree) → Env t
  run t unset e [] = e
  run t unset e (c ∷ cs) = run t unset (step t unset e c) cs

module _ (t : Tango) (unset hdl h : ℕ) (apart : h ≢ hdl) (d a ty : String) where
  abbrev Kept : Env t → Env t → Type 0
  Kept e e' =
      (get_id_of_event_subscription e'.proc h d a ty ≡ get_id_of_event_subscription e.proc h d a ty)
      × IsQuiet e'.proc.event_subs

  module _ {Tree : Type 0} (p : ParsedInputJson Tree) where
    rem_dev_req-Kept :
        (e : Env t) → IsQuiet e.proc.event_subs → Kept e (rem_dev_req t unset p hdl e).1
    unfolding rem_dev_req
    rem_dev_req-Kept e q = elim (Option-cases (stoi (value_at p "event_sub_id"))) [
      | inl no_number ↦ rw (no_number, rem_dev_req) (refl, q)
      | inr (id, number) ↦ elim (Option-cases (find_id id e.proc)) [
        | inl missing ↦ rw (number, missing, rem_dev_req) (refl, q)
        | inr (info, found) ↦
            rw (number, found, rem_dev_req)
              (
                get_id-remove_subscription t unset hdl h apart d a ty info e,
                remove_subscription-IsQuiet t unset hdl info e q,
              )
      ]
    ]

    -- Whatever a client asks for, another client has the same subscriptions afterwards as before.
    request-Kept :
        (kind : TypeWsReq) (e : Env t)
        → p.type_req ≡ kind
        → IsQuiet e.proc.event_subs
        → Kept e (request t unset p hdl e).1
    unfolding request
    request-Kept TypeWsReq.event_req_add_dev e k q =
        rw (k, request) (add_dev_req-Keeps t unset hdl h apart d a ty p e q)
    request-Kept TypeWsReq.event_req_off e k q =
        rw (k, request)
          (
            get_id-unsubscribe_all_dev t unset hdl h apart d a ty e,
            unsubscribe_all_dev-IsQuiet t unset hdl e q,
          )
    request-Kept TypeWsReq.event_req_rem_dev e k q = rw (k, request) (rem_dev_req-Kept e q)
    request-Kept _ e k q = rw (k, request) (refl, q)

module _ {Tree : Type 0} (t : Tango) (unset : ℕ) where
  step-IsQuiet :
      (e : Env t) (c : Call Tree)
      → IsQuiet e.proc.event_subs
      → IsQuiet (step t unset e c).proc.event_subs
  unfolding step
  step-IsQuiet e (requests hdl p) q =
      (request-Kept t unset hdl (suc hdl) (omega arith) "" "" "" p p.type_req e refl q).1
  step-IsQuiet e (disconnects hdl) q = unsubscribe_all_dev-IsQuiet t unset hdl e q

  run-IsQuiet :
      (e : Env t) (cs : List (Call Tree))
      → IsQuiet e.proc.event_subs
      → IsQuiet (run t unset e cs).proc.event_subs
  unfolding run
  run-IsQuiet e [] q = q
  run-IsQuiet e (c ∷ cs) q = run-IsQuiet (step t unset e c) cs (step-IsQuiet e c q)

  module _ (h : ℕ) (d a ty : String) where
    get_id-step :
        (e : Env t) (c : Call Tree)
        → h ≢ client_of c
        → IsQuiet e.proc.event_subs
        → get_id_of_event_subscription (step t unset e c).proc h d a ty
          ≡ get_id_of_event_subscription e.proc h d a ty
    unfolding step
    get_id-step e (requests hdl p) apart q =
        (request-Kept t unset hdl h apart d a ty p p.type_req e refl q).0
    get_id-step e (disconnects hdl) apart q =
        get_id-unsubscribe_all_dev t unset hdl h apart d a ty e

    get_id-run :
        (e : Env t) (cs : List (Call Tree))
        → All (λ c. h ≢ client_of c) cs
        → IsQuiet e.proc.event_subs
        → get_id_of_event_subscription (run t unset e cs).proc h d a ty
          ≡ get_id_of_event_subscription e.proc h d a ty
    unfolding run
    get_id-run e [] apart q = refl
    get_id-run e (c ∷ cs) (apart, later) q =
        get_id-run (step t unset e c) cs later (step-IsQuiet e c q) ∙ get_id-step e c apart q

-- After any history of requests and disconnections, whatever the other clients then do (subscribe,
-- remove by any id, turn everything off, leave) and however Tango answers them, a client has the
-- same subscriptions under the same ids as before.
pub run-others :
    {Tree : Type 0} (t : Tango) (unset : ℕ) (w : t.World) (history others : List (Call Tree))
    (h : ℕ) (d a ty : String)
    → All (λ c. h ≢ client_of c) others
    → let now = run t unset (record { proc = empty; world = w }) history in
      get_id_of_event_subscription (run t unset now others).proc h d a ty
      ≡ get_id_of_event_subscription now.proc h d a ty
run-others t unset w history others h d a ty apart =
    get_id-run t unset h d a ty (run t unset (record { proc = empty; world = w }) history) others
      apart (run-IsQuiet t unset (record { proc = empty; world = w }) history IsQuiet-empty)
