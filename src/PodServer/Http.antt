-- ===== src/PodServer/Http.antt =====
-- pod_server.py: `PodRequestHandler`. Reading the body, parsing it as JSON, UUIDs and the clock are
-- the request's fields, computed by other packages.
pub mod Laws
use Prim.Native.Char.{code}
use fireviewer_orchestrator.Common.{
  ℕ, zero, suc, ◌-◌, ◌*◌, leb, ltb, ◌⊎◌, String, ◌+++◌, Bool, true, false, Option, none, some, List,
  [], ◌∷◌, ◌++◌, ◌≡◌, ◌↔◌, ◌||◌, ◌&&◌, if◌then◌else◌, not, refl, arith, Bool-cases, inl, inr, ap,
  is_some, or_else,
}
use fireviewer_orchestrator.Common.Texts.{str_len, str_take, str_drop}
use fireviewer_orchestrator.Common.Order.{Ord, ◌==◌, string_ord}
use fireviewer_orchestrator.Common.Sets.{contains}
use fireviewer_orchestrator.Common.Dict.{lookup}
use fireviewer_orchestrator.PodServer.{
  Pod, PodJob, Queue, Field, text, response, new_job, store_job, put_pending, get, cancel,
}

abbrev pub max_request_bytes : ℕ
max_request_bytes = 8 * 1024 * 1024

-- A response: its status code and its JSON object, if it has one.
pub record Reply (pod : Pod) : Type 0 where
  pub status : ℕ
  pub body : List (String × Field pod)

-- What `json.loads` made of the body: nothing, a value that is no object, or an object with the
-- test `isinstance(request.get("input"), dict)`.
pub data Body (pod : Pod) : Type 0 where
  invalid_json not_an_object : Body pod
  object : pod.Value → Bool → Body pod

-- A request. `content_length` is none where the header is absent or not decimal.
pub record Request (pod : Pod) : Type 0 where
  pub path : String
  pub authorization : Option String
  pub content_length : Option ℕ
  pub body : Body pod
  pub uuid : String
  pub now : pod.Time

-- `startswith` and `endswith` of texts.
unfoldable pub startswith : String → String → Bool
startswith s prefix = str_take (str_len prefix) s == prefix

unfoldable pub endswith : String → String → Bool
endswith s suffix = str_drop (str_len s - str_len suffix) s == suffix

unfoldable pub is_ascii : String → Bool
is_ascii String.[] = true
is_ascii (String.◌∷◌ c s) = ltb (code c) 128 && is_ascii s

-- The paths of one job and of its cancellation, with the identifier between.
unfoldable pub job_path : String → Option String
unfolding startswith
job_path path =
    if startswith path "/v1/jobs/" then some (str_drop (str_len "/v1/jobs/") path) else none

unfoldable pub cancel_path : String → Option String
cancel_path path =
    if startswith path "/v1/jobs/" && endswith path "/cancel"
    then some (str_drop (str_len "/v1/jobs/") (str_take (str_len path - str_len "/cancel") path))
    else none

module _ {pod : Pod} where
  abbrev pub error_reply : ℕ → String → Reply pod
  error_reply status message = record { status = status; body = ("error", text message) ∷ [] }

  -- `_authorized`: `hmac.compare_digest` compares two ASCII texts, and raises a `TypeError`, none
  -- here, where one is not ASCII.
  unfoldable pub authorized : String → Request pod → Option Bool
  authorized auth_token r =
      let supplied = or_else r.authorization "" in
      let expected = "Bearer " +++ auth_token in
      if is_ascii supplied && is_ascii expected then some (supplied == expected) else none

  -- `_read_object`: the reply of a refusal, or the object with the test of its `input`.
  unfoldable pub read_object : Request pod → Reply pod ⊎ (pod.Value × Bool)
  read_object r = length_of r.content_length
    where
      parse : Body pod → Reply pod ⊎ (pod.Value × Bool)
      parse invalid_json = inl (error_reply 400 "invalid_json")
      parse not_an_object = inl (error_reply 400 "object_required")
      parse (object v b) = inr (v, b)

      length_of : Option ℕ → Reply pod ⊎ (pod.Value × Bool)
      length_of none = inl (error_reply 411 "content_length_required")
      length_of (some n) =
          if leb n 0 || ltb max_request_bytes n
          then inl (error_reply 413 "payload_too_large")
          else parse r.body

  abbrev pub ready_reply : Reply pod
  ready_reply = record {
    status = 200;
    body = ("status", text "ready") ∷ ("mode", text "runpod-pod") ∷ [];
  }

  -- `{"error": "job_not_found"}`, or the job
  unfoldable pub job_reply : Option (PodJob pod) → Reply pod
  job_reply none = error_reply 404 "job_not_found"
  job_reply (some job) = record { status = 200; body = response job }

  -- `do_GET` after the paths that need no token, by what the comparison of tokens gives.
  unfoldable pub get_answer : Option Bool → Request pod → Queue pod → Option (Reply pod)
  get_answer none r q = none
  get_answer (some false) r q = some (error_reply 401 "unauthorized")
  get_answer (some true) r q = elim (job_path r.path) [
    | none ↦ some (error_reply 404 "not_found")
    | some k ↦ some (job_reply (get k q))
  ]

  -- `do_GET`: none where an exception ends the request without a reply.
  unfoldable pub do_get : String → Request pod → Queue pod → Option (Reply pod)
  unfolding get_answer
  do_get auth_token r q =
      if contains r.path ("/" ∷ "/healthz" ∷ "/readyz" ∷ [])
      then some ready_reply
      else if r.path == "/favicon.ico"
      then some (record { status = 204; body = [] })
      else get_answer (authorized auth_token r) r q

  -- `submit`, both parts
  unfoldable pub submit : PodJob pod → Queue pod → Queue pod
  submit job q = put_pending job.job_id (store_job job q)

  -- The branch of `do_POST` at `/v1/jobs`.
  unfoldable pub post_job : Request pod → Queue pod → Reply pod × Queue pod
  post_job r q = elim (read_object r) [
    | inl refusal ↦ (refusal, q)
    | inr (v, has_input) ↦
        let job = new_job ("pod-" +++ r.uuid) v r.now in
        if has_input
        then (record { status = 202; body = response job }, submit job q)
        else (error_reply 400 "input_object_required", q)
  ]

  -- `do_POST` of an authorized request
  unfoldable pub post_authorized : Request pod → Queue pod → Reply pod × Queue pod
  post_authorized r q = if r.path == "/v1/jobs" then post_job r q else elim (cancel_path r.path) [
    | none ↦ (error_reply 404 "not_found", q)
    | some k ↦ (job_reply (cancel k q).0, (cancel k q).1)
  ]

  -- By what the comparison of tokens gives.
  unfoldable pub post_answer :
      Option Bool → Request pod → Queue pod → Option (Reply pod) × Queue pod
  post_answer none r q = (none, q)
  post_answer (some false) r q = (some (error_reply 401 "unauthorized"), q)
  post_answer (some true) r q = let end = post_authorized r q in (some end.0, end.1)

  -- `do_POST`: none where an exception ends the request without a reply.
  unfoldable pub do_post : String → Request pod → Queue pod → Option (Reply pod) × Queue pod
  unfolding post_answer
  do_post auth_token r q = post_answer (authorized auth_token r) r q
