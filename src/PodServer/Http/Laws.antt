-- ===== src/PodServer/Http/Laws.antt =====
-- The HTTP handlers: what a request without the token can see and do, and which requests queue a
-- job.
use fireviewer_orchestrator.Common.{
  ℕ, nat_eq, eq_iff, String, ◌+++◌, Bool, true, false, Option, none, some, ◌≡◌, ◌⊎◌, ◌≤◌, refl,
  arith, ap, ◌∙◌, or_else, sym, if◌then◌else◌, [], ◌∷◌, Bool-cases, Option-cases, inl, inr,
}
use fireviewer_orchestrator.Common.Order.{◌==◌, string_ord}
use fireviewer_orchestrator.Common.Sets.{contains}
use fireviewer_orchestrator.PodServer.{Pod, PodJob, Queue, new_job, cancel}
use fireviewer_orchestrator.PodServer.Http.{
  Reply, Request, object, authorized, do_get, do_post, post_job, read_object, submit, cancel_path,
  job_reply, error_reply, ready_reply, get_answer, post_answer, post_authorized,
}

module _ {pod : Pod} (auth_token : String) (r : Request pod) where
  -- The reply of `do_get`, given what it answers where a token is needed.
  abbrev if_public : Option (Reply pod) → Option (Reply pod)
  if_public guarded =
      if contains r.path ("/" ∷ "/healthz" ∷ "/readyz" ∷ [])
      then some ready_reply
      else if r.path == "/favicon.ico"
      then some (record { status = 204; body = [] })
      else guarded

  -- Without the token, that is where the comparison is false or raises, a GET's reply does not depend
  -- on the queue, a POST leaves the queue as it is, and it is refused with 401 or, where the header or
  -- the token is not ASCII, gets no reply.
  pub http-unauthorized :
      (q q' : Queue pod)
      → ¬ (authorized auth_token r ≡ some true)
      → (do_get auth_token r q ≡ do_get auth_token r q')
        × ((do_post auth_token r q).1 ≡ q)
        × (((authorized auth_token r ≡ none) × ((do_post auth_token r q).0 ≡ none))
            ⊎ ((authorized auth_token r ≡ some false)
                × ((do_post auth_token r q).0 ≡ some (error_reply 401 "unauthorized"))))
  unfolding do_get do_post get_answer post_answer
  http-unauthorized q q' h = go (authorized auth_token r) refl
    where
      go :
          (answer : Option Bool)
          → authorized auth_token r ≡ answer
          → (do_get auth_token r q ≡ do_get auth_token r q')
            × ((do_post auth_token r q).1 ≡ q)
            × (((authorized auth_token r ≡ none) × ((do_post auth_token r q).0 ≡ none))
                ⊎ ((authorized auth_token r ≡ some false)
                    × ((do_post auth_token r q).0 ≡ some (error_reply 401 "unauthorized"))))
      go none e = (
        ap (λ a. if_public (get_answer a r q)) e ∙ sym (ap (λ a. if_public (get_answer a r q')) e),
        ap (λ a. (post_answer a r q).1) e,
        inl (e, ap (λ a. (post_answer a r q).0) e),
      )
      go (some false) e = (
        ap (λ a. if_public (get_answer a r q)) e ∙ sym (ap (λ a. if_public (get_answer a r q')) e),
        ap (λ a. (post_answer a r q).1) e,
        inr (e, ap (λ a. (post_answer a r q).0) e),
      )
      go (some true) e = absurd (h e)

  -- What a request that submits a job is: its token, its path, its length and its body.
  pub record IsSubmission (v : pod.Value) : Type 0 where
    pub authorized : authorized auth_token r ≡ some true
    pub at_jobs : r.path ≡ "/v1/jobs"
    pub length : ℕ
    pub declared : r.content_length ≡ some length
    pub positive : 1 ≤ length
    pub bounded : length ≤ 8388608
    pub body : r.body ≡ object v true

  read_object-inr :
      (v : pod.Value) (b : Bool)
      → read_object r ≡ inr (v, b)
      → (r.body ≡ object v b) × (n : ℕ) × (r.content_length ≡ some n) × (1 ≤ n) × (n ≤ 8388608)
  unfolding read_object
  read_object-inr v b h = elim (Option-cases r.content_length) [
    | inl absent ↦ absurd (ground arith)
    | inr (n, e) ↦ (ground arith, n, e, ground arith, ground arith)
  ]

  read_object-inl :
      (refusal : Reply pod) → read_object r ≡ inl refusal → nat_eq refusal.status 202 ≡ false
  unfolding read_object
  read_object-inl refusal h = ground arith

  job_reply-status : (job : Option (PodJob pod)) → nat_eq (job_reply job).status 202 ≡ false
  unfolding job_reply
  job_reply-status none = refl
  job_reply-status (some j) = refl

  post_job-accepted :
      (q : Queue pod) (o : Reply pod ⊎ (pod.Value × Bool))
      → read_object r ≡ o
      → authorized auth_token r ≡ some true
      → r.path ≡ "/v1/jobs"
      → (post_job r q).0.status ≡ 202
      → (v : pod.Value) × IsSubmission v
        × ((post_job r q).1 ≡ submit (new_job ("pod-" +++ r.uuid) v r.now) q)
  unfolding post_job
  post_job-accepted q (inl refusal) e a p h = absurd (ground (arith, read_object-inl refusal e))
  post_job-accepted q (inr (v, false)) e a p h = absurd (ground arith)
  post_job-accepted q (inr (v, true)) e a p h =
      let (b, n, c, low, high) = read_object-inr v true e in
      (
        v,
        record {
          authorized = a;
          at_jobs = p;
          length = n;
          declared = c;
          positive = low;
          bounded = high;
          body = b;
        },
        ground arith,
      )

  post_authorized-accepted :
      (q : Queue pod)
      → authorized auth_token r ≡ some true
      → (post_authorized r q).0.status ≡ 202
      → (v : pod.Value) × IsSubmission v
        × ((post_authorized r q).1 ≡ submit (new_job ("pod-" +++ r.uuid) v r.now) q)
  unfolding post_authorized
  post_authorized-accepted q a h = elim (Bool-cases (r.path == "/v1/jobs")) [
    | inl at ↦
        let (v, s, e) =
          post_job-accepted q (read_object r) refl a ((eq_iff r.path "/v1/jobs").0 at)
            (ground arith) in
        (v, s, ground arith)
    | inr elsewhere ↦ elim (Option-cases (cancel_path r.path)) [
      | inl absent ↦ absurd (ground arith)
      | inr (k, found) ↦ absurd (ground (arith, job_reply-status (cancel k q).0))
    ]
  ]

  post_answer-accepted :
      (q : Queue pod) (reply : Reply pod) (answer : Option Bool)
      → authorized auth_token r ≡ answer
      → (post_answer answer r q).0 ≡ some reply
      → reply.status ≡ 202
      → (v : pod.Value) × IsSubmission v
        × ((post_answer answer r q).1 ≡ submit (new_job ("pod-" +++ r.uuid) v r.now) q)
  unfolding post_answer
  post_answer-accepted q reply none a h accepted = absurd (ground (arith, h))
  post_answer-accepted q reply (some false) a h accepted =
      absurd (ground (arith, accepted, ap (λ o. (or_else o reply).status) h))
  post_answer-accepted q reply (some true) a h accepted =
      post_authorized-accepted q a (ap (λ o. (or_else o reply).status) h ∙ accepted)

  -- A POST that is answered with 202 carries the token, goes to `/v1/jobs`, declares between 1 byte
  -- and 8 MiB, and has an object with an object `input`; the queue is that of `submit`.
  pub do_post-accepted :
      (q : Queue pod) (reply : Reply pod)
      → (do_post auth_token r q).0 ≡ some reply
      → reply.status ≡ 202
      → (v : pod.Value) × IsSubmission v
        × ((do_post auth_token r q).1 ≡ submit (new_job ("pod-" +++ r.uuid) v r.now) q)
  unfolding do_post
  do_post-accepted q reply h accepted =
      post_answer-accepted q reply (authorized auth_token r) refl h accepted
