-- ===== src/Dispatcher/Endpoints/Submitting.antt =====
-- What a request to submit leads to.
use alpine_judge.Common.{◌≡◌, ◌≢◌, refl, ◌↔◌, ◌⊎◌, true, Option, none, some, List, [], ◌∷◌, arith}
use alpine_judge.Common.{◌==◌, nat_eq, list_eq, Option-cases, Bool-cases, inl, inr}
use alpine_judge.Common.Results.{IoResult, IoResult-cases, io_error, io_ok}
use alpine_judge.Common.Text.{Bytes, str}
use alpine_judge.Shared.S3.{S3Client}
use alpine_judge.Shared.Rmq.{Message, Broker, ChannelOp, declared_queue, published, publish}
use alpine_judge.Dispatcher.Validate.{SubmissionSpec, validate_submission}
use alpine_judge.Dispatcher.Endpoints.{
  Request, message_of, queued, marshalled, validated, decoded, submission_receiver,
}

module _ (S : S3Client) (bucket : Bytes) (B : Broker) (queue : Bytes)
    (marshal : SubmissionSpec → IoResult Bytes) (s : S.Store) (r : Request) where
  -- The request carries a valid submission, and the broker took its message.
  pub record IsQueued : Type 0 where
    pub post : (r.method == str "POST") ≡ true
    pub submission : SubmissionSpec
    pub decodes : r.submission ≡ io_ok submission
    pub valid : validate_submission S bucket s submission ≡ none
    pub body : Bytes
    pub marshals : marshal submission ≡ io_ok body
    pub taken : publish B queue (message_of S bucket B queue marshal submission body) ≡ (
      none,
      declared_queue queue
          ∷ published [] queue (message_of S bucket B queue marshal submission body)
          ∷ [],
    )

  publish-shape :
      (msg : Message)
      → (publish B queue msg).0 ≡ none
      → publish B queue msg ≡ (none, declared_queue queue ∷ published [] queue msg ∷ [])
  unfolding publish
  publish-shape msg h = ground arith

  queued_sound :
      (submission : SubmissionSpec) (p : Option Bytes × List ChannelOp)
      → (queued S bucket B queue marshal submission p).0.status ≡ 202
      → p.0 ≡ none
  unfolding queued
  queued_sound submission (some text, ops) h = absurd (omega arith)
  queued_sound submission (none, ops) h = refl

  marshalled_sound :
      (submission : SubmissionSpec) (m : IoResult Bytes)
      → (marshalled S bucket B queue marshal submission m).0.status ≡ 202
      → (body : Bytes) × (m ≡ io_ok body)
        × ((publish B queue (message_of S bucket B queue marshal submission body)).0 ≡ none)
  unfolding marshalled
  marshalled_sound submission (io_error text) h = absurd (omega arith)
  marshalled_sound submission (io_ok body) h = (body, refl, queued_sound submission _ h)

  validated_sound :
      (submission : SubmissionSpec) (v : Option Bytes)
      → (validated S bucket B queue marshal submission v).0.status ≡ 202
      → (v ≡ none)
        × ((marshalled S bucket B queue marshal submission (marshal submission)).0.status ≡ 202)
  unfolding validated
  validated_sound submission (some text) h = absurd (omega arith)
  validated_sound submission none h = (refl, h)

  decoded_sound :
      (d : IoResult SubmissionSpec)
      → (decoded S bucket B queue marshal s d).0.status ≡ 202
      → (submission : SubmissionSpec) × (d ≡ io_ok submission)
        × ((validated S bucket B queue marshal submission
              (validate_submission S bucket s submission)).0.status
            ≡ 202)
  unfolding decoded
  decoded_sound (io_error text) h = absurd (omega arith)
  decoded_sound (io_ok submission) h = (submission, refl, h)

  submission_receiver_sound :
      (submission_receiver S bucket B queue marshal s r).0.status ≡ 202 → IsQueued
  unfolding submission_receiver
  submission_receiver_sound h = elim (Bool-cases (r.method == str "POST")) [
    | inr other ↦ let k = rw other at h in absurd (omega arith)
    | inl post ↦
        let (submission, e, d) = decoded_sound r.submission (rw post at h) in
        let (valid, v) = validated_sound submission _ d in
        let (body, m, p) = marshalled_sound submission _ v in
        record {
          post = post;
          submission = submission;
          decodes = e;
          valid = valid;
          body = body;
          marshals = m;
          taken = publish-shape _ p;
        }
  ]

  -- A valid submission is answered 202, and exactly one message, the submission in JSON under its
  -- ID, was put into the queue.
  pub submission_receiver_complete :
      (q : IsQueued)
      → ((submission_receiver S bucket B queue marshal s r).0.status ≡ 202)
        × ((submission_receiver S bucket B queue marshal s r).1
            ≡ declared_queue queue
              ∷ published [] queue (message_of S bucket B queue marshal q.submission q.body)
              ∷ [])
  unfolding submission_receiver
  submission_receiver_complete q =
      rw (q.post, q.decodes, decoded, q.valid, validated, q.marshals, marshalled, q.taken, queued)
        (refl, refl)

  -- A submitter is answered 202 exactly when the request was a `POST` of a submission that is
  -- valid, and the broker has taken its message.
  pub submission_receiver-accepted_iff :
      ((submission_receiver S bucket B queue marshal s r).0.status ≡ 202) ↔ IsQueued
  submission_receiver-accepted_iff =
      (submission_receiver_sound, λ q. (submission_receiver_complete q).0)

  -- Nothing is asked of the broker for a request that is refused before: with another method, with
  -- a body that is no submission, or with a submission that is not valid.
  submission_receiver_silent :
      ((submission : SubmissionSpec)
        → r.submission ≡ io_ok submission
        → validate_submission S bucket s submission ≢ none)
      → ((submission_receiver S bucket B queue marshal s r).1 ≡ [])
        × (((submission_receiver S bucket B queue marshal s r).0.status ≡ 400)
            ⊎ ((submission_receiver S bucket B queue marshal s r).0.status ≡ 405))
  unfolding submission_receiver
  submission_receiver_silent bad = elim (Bool-cases (r.method == str "POST")) [
    | inr other ↦ rw other (refl, inr refl)
    | inl post ↦ elim (IoResult-cases r.submission) [
      | inr (text, e) ↦ rw (post, e, decoded) (refl, inl refl)
      | inl (submission, e) ↦ elim (Option-cases (validate_submission S bucket s submission)) [
        | inl valid ↦ absurd (bad submission e valid)
        | inr (text, v) ↦ rw (post, e, decoded, v, validated) (refl, inl refl)
      ]
    ]
  ]
