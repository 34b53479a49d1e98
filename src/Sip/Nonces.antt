-- ===== src/Sip/Nonces.antt =====
-- internal/sipx/service.go, lines 24 to 44 and 386 to 440: the nonces of the challenges.
pub mod Life
use callfxo.Prelude.{
  ℕ, ◌+◌, Bool, true, false, not, Option, none, some, List, [], ◌∷◌, ◌++◌, ltb, is_nil,
  if◌then◌else◌,
}
use callfxo.Prelude.Equality.{◌==◌, nat_eq, list_eq}
use callfxo.Prelude.GoMap.{GoMap, lookup, insert, remove, remove_values}
use callfxo.Text.{Text, txt}
use callfxo.Store.Schema.{Store}

pub record Service : Type 0 where
  pub realm : Text
  pub nonce_ttl : ℕ
  pub nonces : GoMap Text ℕ
  pub store : Store

-- What the service answers a request: status, reason, and the WWW-Authenticate header.
pub record Response : Type 0 where
  pub status : ℕ
  pub reason : Text
  pub www_authenticate : Option Text

abbrev pub respond : ℕ → Text → Response
respond status reason = record { status = status; reason = reason; www_authenticate = none }

unfoldable pub store_nonce : ℕ → Text → Service → Service
store_nonce now nonce s = record s { nonces = insert nonce (now + s.nonce_ttl) s.nonces }

abbrev pub validate_at : ℕ → Text → Option ℕ → Service → Bool × Service
validate_at now nonce none s = (false, s)
validate_at now nonce (some exp) s =
    if ltb exp now then (false, record s { nonces = remove nonce s.nonces }) else (true, s)

unfoldable pub validate_nonce : ℕ → Text → Service → Bool × Service
validate_nonce now nonce s =
    if is_nil nonce then (false, s) else validate_at now nonce (lookup nonce s.nonces) s

-- One tick of cleanupNoncesLoop.
unfoldable pub cleanup_nonces : ℕ → Service → Service
cleanup_nonces now s = record s { nonces = remove_values (λ exp. ltb exp now) s.nonces }

unfoldable pub reply_auth_challenge : ℕ → Text → Text → Service → Response × Service
unfolding store_nonce
reply_auth_challenge now nonce opaque s = (
  record {
    status = 401;
    reason = txt "Unauthorized";
    www_authenticate = some (
        txt "Digest realm=\""
        ++ s.realm
        ++ txt "\", nonce=\""
        ++ nonce
        ++ txt "\", opaque=\""
        ++ opaque
        ++ txt "\", algorithm=MD5");
  },
  store_nonce now nonce s,
)
