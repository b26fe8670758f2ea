-- ===== src/HubSpot/Webhook.antt =====
-- src/connectors/hubspot/hubspotConnector.ts: the parsing of webhooks.
use hubspot_salesforce_conne.Prelude.{
  ℕ, zero, suc, String, Bool, true, false, not, ◌&&◌, ◌≡◌, refl, ◌⊎◌, inl, inr, Bool-cases, Option,
  none, some, List, [], ◌∷◌, ◌==◌, eq_iff, arith, if◌then◌else◌, concat, get_or,
}
use hubspot_salesforce_conne.Prelude.Dict.{Dict, lookup}
use hubspot_salesforce_conne.Prelude.Text.{ends_with}
use hubspot_salesforce_conne.Prelude.Time.{Timestamp, stamp}
use hubspot_salesforce_conne.Types.{hubspot, ChangeEvent, ChangeType}
use hubspot_salesforce_conne.Failure.{Failure, plain}
use hubspot_salesforce_conne.Exec.{Exec, Result, ok, err, pure, throw, ◌>>=◌}
use hubspot_salesforce_conne.Registry.{Registry, ObjectRegistration, canonical_objects_for}

-- The ids are those that a template literal makes of numbers or texts, and `object_id` is
-- `String(e.objectId)`.
pub record HsWebhookEvent : Type 0 where
  pub event_id : Option String
  pub portal_id : Option String
  pub subscription_id : Option String
  pub object_id : String
  pub subscription_type : Option String
  pub object_type_id : Option String
  pub occurred_at : Option ℕ

-- the settings that are read, and the secret that the connector holds
pub record WebhookSettings : Type 0 where
  pub app_secret : String
  pub env_secret : String
  pub allow_unsigned : Bool
  pub public_base_url : String

pub record Headers : Type 0 where
  pub signature : Option String
  pub timestamp : Option String

-- `hmac` and `sha256` are those of the crypto library, and `parse_json` is `JSON.parse`
pub record Codec : Type 0 where
  pub hmac : String → String → String
  pub sha256 : String → String
  pub parse_json : String → Result (List HsWebhookEvent)

abbrev suffix_is : Option String → String → Bool
suffix_is none suffix = false
suffix_is (some text) suffix = ends_with text suffix

unfoldable pub change_of : Option String → ChangeType
change_of subscription =
    if suffix_is subscription "creation"
    then ChangeType.created
    else if suffix_is subscription "deletion"
    then ChangeType.deleted
    else ChangeType.updated

-- the text of a number in the template literal
module _ (number : ℕ → String) where
  abbrev pub identity_of : HsWebhookEvent → String
  identity_of e = concat (
      get_or e.portal_id ""
      ∷ ":"
      ∷ get_or e.subscription_id ""
      ∷ ":"
      ∷ get_or e.event_id ""
      ∷ ":"
      ∷ get_or e.subscription_type "undefined"
      ∷ ":"
      ∷ e.object_id
      ∷ ":"
      ∷ (elim e.occurred_at [ none ↦ "" | some n ↦ number n ])
      ∷ [])

-- a millisecond number that is there and not 0
abbrev pub occurred : ℕ → Option ℕ → Timestamp
occurred now none = stamp now
occurred now (some zero) = stamp now
occurred now (some (suc n)) = stamp (suc n)

module _ {W : Type 0} (codec : Codec) (number : ℕ → String) (registry : Registry)
    (object_type_ids : Dict String) (now : ℕ)
    (resolve_type : Option (String → String → Exec W (Option String))) where
  unfoldable pub event_of : HsWebhookEvent → String → ChangeEvent
  event_of e type = record {
    event_id = some (codec.sha256 (identity_of number e));
    system = hubspot;
    type = type;
    source_id = e.object_id;
    change_type = change_of e.subscription_type;
    occurred_at = occurred now e.occurred_at;
  }

  -- `if (!type) return null`
  unfoldable pub typed_event : HsWebhookEvent → Option String → Option ChangeEvent
  unfolding event_of
  typed_event e none = none
  typed_event e (some type) = if type == "" then none else some (event_of e type)

  asked : HsWebhookEvent → String → Exec W (Option String)
  asked e object = elim resolve_type [ none ↦ pure none | some f ↦ f object e.object_id ]

  unfoldable pub type_of :
      HsWebhookEvent → String → List ObjectRegistration → Exec W (Option String)
  unfolding asked
  type_of e object [] = pure none
  type_of e object (one ∷ []) = pure (some one.canonical_object)
  type_of e object (one ∷ two ∷ rest) = asked e object

  unfoldable pub map_event : HsWebhookEvent → Exec W (Option ChangeEvent)
  unfolding typed_event type_of
  map_event e = elim (lookup (get_or e.object_type_id "") object_type_ids) [
    | none ↦ pure none
    | some object ↦
        if object == ""
        then pure none
        else type_of e object (canonical_objects_for hubspot object registry) >>= λ type.
            pure (typed_event e type)
  ]

  abbrev pub prepend : Option ChangeEvent → List ChangeEvent → List ChangeEvent
  prepend none events = events
  prepend (some event) events = event ∷ events

  unfoldable pub map_events : List HsWebhookEvent → Exec W (List ChangeEvent)
  unfolding map_event
  map_events [] = pure []
  map_events (e ∷ rest) = do
    event ← map_event e
    events ← map_events rest
    pure (prepend event events)

  unfoldable pub decode_events : Result (List HsWebhookEvent) → Exec W (List ChangeEvent)
  unfolding map_events
  decode_events (err e) = throw e
  decode_events (ok events) = map_events events

  abbrev pub secret_of : WebhookSettings → String
  secret_of settings =
      if settings.app_secret == "" then settings.env_secret else settings.app_secret

  abbrev pub signed_text : WebhookSettings → Headers → String → String
  signed_text settings headers body = concat (
      "POST"
      ∷ settings.public_base_url
      ∷ "/webhooks/hubspot"
      ∷ body
      ∷ get_or headers.timestamp ""
      ∷ [])

  unfoldable pub is_signed : WebhookSettings → Headers → String → Bool
  is_signed settings headers body =
      get_or headers.signature ""
      == codec.hmac (secret_of settings) (signed_text settings headers body)

  unfoldable pub parse_webhook : WebhookSettings → Headers → String → Exec W (List ChangeEvent)
  unfolding is_signed decode_events
  parse_webhook settings headers body =
      if secret_of settings == "" && not settings.allow_unsigned
      then throw (plain "HubSpot webhook secret unavailable")
      else if not (secret_of settings == "") && not (is_signed settings headers body)
      then throw (plain "HubSpot webhook signature mismatch")
      else decode_events (codec.parse_json body)

  -- A body that leads to events, or to any call of the resolver, is signed with the secret; or
  -- there is no secret, and unsigned bodies are allowed. Any other body is refused with the state
  -- unchanged.
  pub parse_webhook-signed :
      (settings : WebhookSettings) (headers : Headers) (body : String) (w : W)
      → ((get_or headers.signature ""
            ≡ codec.hmac (secret_of settings) (signed_text settings headers body))
          ⊎ ((secret_of settings ≡ "") × (settings.allow_unsigned ≡ true)))
        ⊎ ((e : Failure) × (parse_webhook settings headers body w ≡ (err e, w)))
  unfolding parse_webhook is_signed
  parse_webhook-signed settings headers body w = elim (Bool-cases (secret_of settings == "")) [
    | inl absent ↦ elim (Bool-cases settings.allow_unsigned) [
      | inl allowed ↦ inl (inr (ground (arith, absent, eq_iff (secret_of settings) ""), allowed))
      | inr refused ↦ inr (plain "HubSpot webhook secret unavailable", rw (absent, refused) refl)
    ]
    | inr present ↦ elim (Bool-cases (is_signed settings headers body)) [
      | inl signed ↦ inl (
          inl (
            ground (
              arith,
              signed,
              eq_iff (get_or headers.signature "")
                  (codec.hmac (secret_of settings) (signed_text settings headers body)),
            )))
      | inr forged ↦
          inr (plain "HubSpot webhook signature mismatch", ground (arith, present, forged))
    ]
  ]
