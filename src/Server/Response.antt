-- ===== src/Server/Response.antt =====
-- Answers: what is written to the client (response.go), and the audit entry of a denial.
-- The body of an answer, before encoding/json prints it.
use git_single_tenant_templa.Prelude.{ℕ, String, Bool, false, Option, none, some, List, [], ◌∷◌}
use git_single_tenant_templa.Audit.{record_event, event_of}
use git_single_tenant_templa.Exec.{Result, ok, err, Exec, pure, World, Env, next, on_pool}
use git_single_tenant_templa.Model.{
  Permission, User, Role, Session, Invitation, ApiKey, Action, Meta, text, texts, Event, Entry,
  Error, escalation,
}
use git_single_tenant_templa.Repo.Directory.{UserSummary}
use git_single_tenant_templa.Server.Errors.{Reply, handle, denial_of}
use git_single_tenant_templa.Server.Request.{Request, Config}
use git_single_tenant_templa.Service.Common.{ignore}

pub data Payload : Type 0 where
  no_content : Payload
  complaint : String → Payload
  error_text : Error → Bool → Payload
  status_text : String → Payload
  user_json : User → Payload
  token_and_user : String → User → Payload
  sessions_json : List (Session × Bool) → Payload
  users_page : List UserSummary → Option ℕ → Payload
  invitation_json : Invitation → Payload
  invitations_json : List Invitation → Payload
  permissions_json : List Permission → Payload
  role_json : Role → Payload
  roles_json : List Role → Payload
  entries_page : List Entry → Option ℕ → Payload
  api_keys_json : List ApiKey → Payload
  api_key_and_token : ApiKey → String → Payload

pub record Response : Type 0 where
  pub status : ℕ
  pub asks_for_credential : Bool
  pub retry_after : Option ℕ
  pub payload : Payload

-- writeJSON
abbrev pub write_json : ℕ → Payload → Response
write_json status payload = record {
  status = status;
  asks_for_credential = false;
  retry_after = none;
  payload = payload;
}

-- writeError
abbrev pub write_error : ℕ → String → Response
write_error status message = write_json status (complaint message)

abbrev pub invalid_body : Response
invalid_body = write_error 400 "invalid JSON body"

-- `w.WriteHeader(http.StatusNoContent)`
abbrev pub write_no_content : Response
write_no_content = write_json 204 no_content

-- What errorHandler.handle writes: the text of the error itself, or a constant one.
unfoldable pub write_reply : Error → Reply → Response
write_reply e reply = record {
  status = reply.status;
  asks_for_credential = reply.asks_for_credential;
  retry_after = none;
  payload = error_text e reply.shows_error;
}

-- The metadata of a denial: the request, what the escalation lacked, and the user if one is known.
unfoldable pub escalation_detail : Error → List (String × Meta) → List (String × Meta)
escalation_detail (escalation lacked) rest = ("detail", texts lacked) ∷ rest
escalation_detail e rest = rest

unfoldable pub denial_event : Request → Option User → Error → Action → Event
unfolding escalation_detail
denial_event r none e action =
    event_of none action "" none
      (escalation_detail e (("method", text r.method) ∷ ("path", text r.path) ∷ []))
denial_event r (some user) e action = event_of (some user.id) action "" none (
    ("email", text user.email)
    ∷ escalation_detail e (("method", text r.method) ∷ ("path", text r.path) ∷ []))

-- errorHandler.auditDenial: on the pool, and its failure is only logged.
unfoldable pub audit_denial : Env → Request → Option User → Error → Exec World (Unit {0})
unfolding denial_of denial_event
audit_denial env r who e = elim (denial_of e) [
  | none ↦ pure tt
  | some action ↦ ignore (on_pool env (record_event env (denial_event r who e action)))
]

-- errorHandler.handle
unfoldable pub handle_error :
    Env → Config → Request → Option User → Error → World → Response × World
unfolding audit_denial handle write_reply
handle_error env config r who e w =
    (write_reply e (handle config.debug e), (audit_denial env r who e w).1)

-- A handler ends in its answer, or in the error that it hands to errorHandler.handle.
unfoldable pub finish :
    Env → Config → Request → Option User → Result Response → World → Response × World
unfolding handle_error
finish env config r who (ok response) w = (response, w)
finish env config r who (err e) w = handle_error env config r who e w

-- A handler, run to its answer.
unfoldable pub run_handler :
    Env → Config → Request → Option User → Exec World Response → World → Response × World
unfolding finish
run_handler env config r who m w = finish env config r who (m w).0 (m w).1

-- `if err := decodeJSON(...); err != nil { writeError(...); return }`, and the same of uuid.Parse.
unfoldable pub or_answer :
    {A : Type 0} → Option A → Response → (A → Exec World Response) → Exec World Response
or_answer none response next = pure response
or_answer (some a) response next = next a
