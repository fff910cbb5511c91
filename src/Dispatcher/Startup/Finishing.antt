-- ===== src/Dispatcher/Startup/Finishing.antt =====
-- When the dispatcher comes to its regular end.
use alpine_judge.Common.{
  ℕ, ◌≡◌, refl, ◌↔◌, Bool, true, false, Option, none, some, List, [], ◌∷◌, is_empty,
}
use alpine_judge.Common.Text.{Bytes, str}
use alpine_judge.Shared.S3.Buckets.{S3Manager, init_s3_manager}
use alpine_judge.Shared.Rmq.{
  Connection, connected, context_ended, channel_failed, out_of_fuel, new_rmq_manager,
}
use alpine_judge.Shared.Rmq.Closing.{closed_channel, closed_connection}
use alpine_judge.Dispatcher.Startup.{
  Site, ServiceOp, closed, Ending, finished, serve, with_broker, with_url, with_manager, dispatcher,
}

-- What it takes to come there.
pub record Finishes (H : Site) (fuel : ℕ) : Type 0 where
  pub configured : H.load_config ≡ none
  pub has_url : is_empty (H.getenv (str "RABBITMQ_URL")) ≡ false
  pub connects : (new_rmq_manager H.dial H.cancelled H.broker fuel).0 ≡ connected
  pub serves : H.listen_and_serve ≡ none

-- The connections to the broker that were closed.
abbrev pub closings : List ServiceOp → List ServiceOp
closings [] = []
closings (closed op ∷ ops) = closed op ∷ closings ops
closings (other ∷ ops) = closings ops

abbrev pub closes_both : List ServiceOp
closes_both = closed closed_channel ∷ closed closed_connection ∷ []

-- The connections to close, by the configuration, whether there is no URL, the attempts to connect
-- and the server: both at a regular end, the connection alone where it gives no channel.
abbrev pub to_close : Option Bytes → Bool → Connection → Option Bytes → List ServiceOp
to_close (some text) no_url c server = []
to_close none true c server = []
to_close none false connected (some text) = []
to_close none false connected none = closes_both
to_close none false context_ended server = []
to_close none false channel_failed server = closed closed_connection ∷ []
to_close none false out_of_fuel server = []

abbrev EndsIff : List ServiceOp × Ending → Type 0 → List ServiceOp → Type 0
EndsIff r P ops = ((r.1 ≡ finished) ↔ P) × (closings r.0 ≡ ops)

module _ (H : Site) (m : S3Manager) where
  serve-EndsIff :
      (err : Option Bytes)
      → EndsIff (serve H err m) (err ≡ none) (to_close none false connected err)
  serve-EndsIff none = ((λ h. refl, λ h. refl), refl)
  serve-EndsIff (some text) = ((λ h. cc, λ h. cc), refl)

  with_broker-EndsIff :
      (c : Connection)
      → EndsIff
          (with_broker H c m)
          ((c ≡ connected) × (H.listen_and_serve ≡ none))
          (to_close none false c H.listen_and_serve)
  with_broker-EndsIff connected =
      let ((there, back), same) = serve-EndsIff H.listen_and_serve in
      ((λ h. (refl, there h), λ (_, h). back h), same)
  with_broker-EndsIff context_ended = ((λ h. cc, λ (h, _). cc), refl)
  with_broker-EndsIff channel_failed = ((λ h. cc, λ (h, _). cc), refl)
  with_broker-EndsIff out_of_fuel = ((λ h. cc, λ (h, _). cc), refl)

  with_url-EndsIff :
      (no_url : Bool) (fuel : ℕ)
      → let c = (new_rmq_manager H.dial H.cancelled H.broker fuel).0 in
        EndsIff
          (with_url H no_url fuel m)
          ((no_url ≡ false) × (c ≡ connected) × (H.listen_and_serve ≡ none))
          (to_close none no_url c H.listen_and_serve)
  with_url-EndsIff true fuel = ((λ h. cc, λ (h, _, _). cc), refl)
  with_url-EndsIff false fuel =
      let ((there, back), same) =
        with_broker-EndsIff (new_rmq_manager H.dial H.cancelled H.broker fuel).0 in
      ((λ h. let (c, s) = there h in (refl, c, s), λ (_, c, s). back (c, s)), same)

with_manager-EndsIff :
    (H : Site) (load : Option Bytes) (b r a k e : Bytes) (fuel : ℕ)
    → let c = (new_rmq_manager H.dial H.cancelled H.broker fuel).0 in
      let no_url = is_empty (H.getenv (str "RABBITMQ_URL")) in
      EndsIff
        (with_manager H (init_s3_manager load b r a k e) fuel)
        ((load ≡ none) × (no_url ≡ false) × (c ≡ connected) × (H.listen_and_serve ≡ none))
        (to_close load no_url c H.listen_and_serve)
unfolding init_s3_manager
with_manager-EndsIff H (some text) b r a k e fuel = ((λ h. cc, λ (h, _, _, _). cc), refl)
with_manager-EndsIff H none b r a k e fuel =
    let ((there, back), same) =
      with_url-EndsIff H _ (is_empty (H.getenv (str "RABBITMQ_URL"))) fuel in
    ((λ h. let (u, c, s) = there h in (refl, u, c, s), λ (_, u, c, s). back (u, c, s)), same)

-- The dispatcher returns exactly when the SDK can be set up, the URL of the broker is not empty,
-- the broker is reached within the fuel, and the server listens until the signal. It closes its
-- channel and its connection to the broker, once each, in these runs; where the SDK and the URL are
-- there and the connection gives no channel, it closes the connection; and it closes nothing in all
-- other runs.
pub dispatcher-finished_iff :
    (H : Site) (fuel : ℕ)
    → (((dispatcher H fuel).1 ≡ finished) ↔ Finishes H fuel)
      × (closings (dispatcher H fuel).0
          ≡ to_close H.load_config
              (is_empty (H.getenv (str "RABBITMQ_URL")))
              (new_rmq_manager H.dial H.cancelled H.broker fuel).0
              H.listen_and_serve)
unfolding dispatcher
dispatcher-finished_iff H fuel =
    let ((there, back), same) = with_manager-EndsIff H H.load_config _ _ _ _ _ fuel in
    (
      (
        λ h.
            let (l, u, c, s) = there h in
            record { configured = l; has_url = u; connects = c; serves = s },
        λ f. back (f.configured, f.has_url, f.connects, f.serves),
      ),
      same,
    )
