-- ===== src/HubSpot/Examples.antt =====
-- src/connectors/hubspot/hubspotConnector.ts: a webhook that is signed, and the theorem at it.
use hubspot_salesforce_conne.Prelude.{
  ℕ, String, true, false, ◌≡◌, refl, ◌⊎◌, Option, none, some, List, [], ◌∷◌, concat, get_or,
}
use hubspot_salesforce_conne.Prelude.Dict.{lookup, Dict}
use hubspot_salesforce_conne.Types.{ChangeEvent, ChangeType}
use hubspot_salesforce_conne.Failure.{Failure}
use hubspot_salesforce_conne.Exec.{Exec, Result, ok, err}
use hubspot_salesforce_conne.Registry.{Registry, canonical_objects_for}
use hubspot_salesforce_conne.HubSpot.Webhook.{
  WebhookSettings, Headers, Codec, parse_webhook, parse_webhook-signed, secret_of, signed_text,
  is_signed, decode_events, map_events, map_event, type_of, typed_event, event_of, change_of,
}

-- a signature is the secret and the text; the body is one deletion
abbrev codec : Codec
codec = record {
  hmac = λ secret text. concat (secret ∷ text ∷ []);
  sha256 = λ text. text;
  parse_json = λ text. ok (
      record {
        event_id = some "1";
        portal_id = some "p";
        subscription_id = some "s";
        object_id = "003";
        subscription_type = some "contact.deletion";
        object_type_id = some "0-1";
        occurred_at = some 5;
      }
      ∷ []);
}

abbrev number : ℕ → String
number n = "n"

abbrev registry : Registry
registry =
    (
      "contact",
      record {
        canonical_object = "contact";
        label = "Contact";
        salesforce_object = none;
        hubspot_object = some "contacts";
      },
    )
    ∷ []

abbrev object_type_ids : Dict String
object_type_ids = ("0-1", "contacts") ∷ []

abbrev resolver : Option (String → String → Exec (Unit {0}) (Option String))
resolver = none

abbrev settings : WebhookSettings
settings = record {
  app_secret = "";
  env_secret = "key";
  allow_unsigned = false;
  public_base_url = "https://h";
}

abbrev headers : Headers
headers = record { signature = some "keyPOSThttps://h/webhooks/hubspot{}9"; timestamp = some "9" }

abbrev first_change : Result (List ChangeEvent) × (Unit {0}) → Option ChangeType
first_change (ok (event ∷ events), w) = some event.change_type
first_change _ = none

deletes :
    first_change
      (parse_webhook codec number registry object_type_ids 1000 resolver settings headers "{}" tt)
    ≡ some ChangeType.deleted
unfolding parse_webhook is_signed decode_events map_events map_event type_of typed_event event_of
    change_of canonical_objects_for lookup
deletes = refl

parse_webhook-signed_example :
    ((get_or headers.signature ""
        ≡ codec.hmac
            (secret_of codec number registry object_type_ids 1000 resolver settings)
            (signed_text codec number registry object_type_ids 1000 resolver settings headers "{}"))
      ⊎ ((secret_of codec number registry object_type_ids 1000 resolver settings ≡ "")
          × (settings.allow_unsigned ≡ true)))
    ⊎ ((e : Failure) × (parse_webhook codec number registry object_type_ids 1000 resolver settings
            headers "{}" tt
          ≡ (err e, tt)))
parse_webhook-signed_example =
    parse_webhook-signed codec number registry object_type_ids 1000 resolver settings headers "{}"
      tt
