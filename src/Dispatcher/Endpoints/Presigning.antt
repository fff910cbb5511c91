-- ===== src/Dispatcher/Endpoints/Presigning.antt =====
-- When a client gets a URL to upload a testset to.
use alpine_judge.Common.{
  ℕ, ◌≡◌, ◌≢◌, refl, ◌↔◌, true, false, Option, none, some, [], ◌∷◌, arith, ap,
}
use alpine_judge.Common.{◌==◌, nat_eq, list_eq, is_empty, Bool-cases, inl, inr}
use alpine_judge.Common.Results.{IoResult, IoResult-cases, io_error, io_ok}
use alpine_judge.Common.Text.{Bytes, str}
use alpine_judge.Shared.S3.{S3Client, generate_presigned_upload_url}
use alpine_judge.Dispatcher.Endpoints.{
  Response, Request, write_error, json_header, presigned_response, presign_key, presign_fields,
  send_presigned_key_for_testset,
}

module _ (S : S3Client) (bucket : Bytes) (r : Request) where
  -- The request is a `POST` of a map with a testset, for which storage signs a URL.
  pub record IsSigned (url : Bytes) : Type 0 where
    pub post : (r.method == str "POST") ≡ true
    pub key : Bytes
    pub decodes : r.fields ≡ io_ok (some key)
    pub named : is_empty key ≡ false
    pub signs : S.presign_put bucket key ≡ io_ok url

  abbrev pub signed_response : Bytes → Response
  signed_response url = record {
    status = 202;
    headers = json_header;
    body = (str "s3_presigned_key", url) ∷ [];
  }

  error-ne-signed :
      (code : ℕ) (text url : Bytes) → code ≢ 202 → write_error code text ≢ signed_response url
  error-ne-signed code text url ne h = ne (ap (λ x. x.status) h)

  presigned_sound :
      (key url : Bytes)
      → presigned_response S bucket (generate_presigned_upload_url S bucket key)
        ≡ signed_response url
      → S.presign_put bucket key ≡ io_ok url
  unfolding presigned_response generate_presigned_upload_url
  presigned_sound key url h = elim (IoResult-cases (S.presign_put bucket key)) [
    | inr (text, e) ↦
        let k = rw (generate_presigned_upload_url, e) at h in
        absurd (error-ne-signed 500 _ url (λ e. omega arith) k)
    | inl (other, e) ↦
        let k = rw (generate_presigned_upload_url, e) at h in
        let same : other ≡ url = cc in rw same at e
  ]

  presign_fields_sound :
      (f : IoResult (Option Bytes)) (url : Bytes)
      → presign_fields S bucket f ≡ signed_response url
      → (key : Bytes) × (f ≡ io_ok (some key))
        × (is_empty key ≡ false)
        × (S.presign_put bucket key ≡ io_ok url)
  unfolding presign_fields presign_key
  presign_fields_sound (io_error text) url h =
      absurd (error-ne-signed 400 _ url (λ e. omega arith) h)
  presign_fields_sound (io_ok none) url h = absurd (error-ne-signed 400 _ url (λ e. omega arith) h)
  presign_fields_sound (io_ok (some key)) url h = elim (Bool-cases (is_empty key)) [
    | inl e ↦
        let k = rw (presign_fields, presign_key, e) at h in
        absurd (error-ne-signed 400 _ url (λ e. omega arith) k)
    | inr e ↦ (key, refl, e, presigned_sound key url (rw (presign_fields, presign_key, e) at h))
  ]

  -- A client is answered with a URL exactly when it sent a `POST` of a map of strings that names a
  -- testset, and storage signed this URL for it.
  send_presigned_key_for_testset-IsSigned_iff :
      (url : Bytes)
      → (send_presigned_key_for_testset S bucket r ≡ signed_response url) ↔ IsSigned url
  unfolding send_presigned_key_for_testset presign_fields presign_key presigned_response
      generate_presigned_upload_url
  send_presigned_key_for_testset-IsSigned_iff url = (
    λ h. elim (Bool-cases (r.method == str "POST")) [
      | inr e ↦
          let k = rw (send_presigned_key_for_testset, e) at h in
          absurd (error-ne-signed 405 _ url (λ e. omega arith) k)
      | inl post ↦
          let (key, decodes, named, signs) =
            presign_fields_sound r.fields url (rw (send_presigned_key_for_testset, post) at h) in
          record { post = post; key = key; decodes = decodes; named = named; signs = signs }
    ],
    complete,
  )
    where
      complete : IsSigned url → send_presigned_key_for_testset S bucket r ≡ signed_response url
      complete q =
          rw
            (
              q.post, send_presigned_key_for_testset, q.decodes, presign_fields, presign_key,
              q.named, generate_presigned_upload_url, q.signs,
            )
            refl
