-- ===== src/Push.antt =====
-- internal/push/service.go: which settings of Firebase the clients get, and whether a message can be sent.
-- The delivery itself is a request to Google.
use callfxo.Prelude.{Bool, ◌&&◌, ◌||◌, not}
use callfxo.Text.{Text, trim_space, is_blank}
use callfxo.Config.{FcmConfig}

pub record PublicConfig : Type 0 where
  pub enabled : Bool
  pub project_id : Text
  pub web_app_id : Text
  pub web_api_key : Text
  pub android_app_id : Text
  pub android_api_key : Text
  pub messaging_sender_id : Text
  pub auth_domain : Text
  pub storage_bucket : Text
  pub measurement_id : Text
  pub vapid_key : Text

unfoldable pub client_enabled : FcmConfig → Bool
unfolding is_blank
client_enabled cfg =
    cfg.enabled
    && not (is_blank cfg.project_id)
    && (not (is_blank cfg.web_app_id) || not (is_blank cfg.android_app_id))
    && (not (is_blank cfg.web_api_key) || not (is_blank cfg.android_api_key))
    && not (is_blank cfg.messaging_sender_id)

unfoldable pub public_config : FcmConfig → PublicConfig
unfolding client_enabled trim_space
public_config cfg = record {
  enabled = client_enabled cfg;
  project_id = trim_space cfg.project_id;
  web_app_id = trim_space cfg.web_app_id;
  web_api_key = trim_space cfg.web_api_key;
  android_app_id = trim_space cfg.android_app_id;
  android_api_key = trim_space cfg.android_api_key;
  messaging_sender_id = trim_space cfg.messaging_sender_id;
  auth_domain = trim_space cfg.auth_domain;
  storage_bucket = trim_space cfg.storage_bucket;
  measurement_id = trim_space cfg.measurement_id;
  vapid_key = trim_space cfg.vapid_key;
}

unfoldable pub can_send : FcmConfig → Bool
unfolding client_enabled is_blank
can_send cfg = client_enabled cfg && not (is_blank cfg.service_account_json)
