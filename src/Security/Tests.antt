-- ===== src/Security/Tests.antt =====
-- The claims and tokens of the packages security and security/v2 with an issuer and an expiry.
use go_cook.Shared.{
  ◌≡◌, refl, ℕ, ◌+◌, String, String-discrete, true, false, ◌<>◌, Option, none, some, [], ◌∷◌, new,
  ok, err, if◌then◌else◌, ◌==◌,
}
use go_cook.Shared.Int.{pos, pos_part}
use go_cook.Shared.Format.{print}
use go_cook.Security.Json.{
  Json, Document, null, number, text, flag, numbers, as_number, as_text, folds, folded, resolve,
  unmarshal,
}
use go_cook.Security.Claims.{
  RegisteredClaims, V1Access, V1Refresh, V2Access, V2Refresh, v1_access_json, v1_refresh_json,
}
use go_cook.Security.Claims.Wire.{
  marshal_access, marshal_refresh, unmarshal_access, unmarshal_refresh,
}
use go_cook.Security.Claims.Reading.{IsLawful, unmarshal-marshal}
use go_cook.Security.Claims.Versions.{unmarshal-v1}
use go_cook.Security.Tokens.{Signer, v1_generate_tokens, v2_generate_tokens}
use go_cook.Security.Tokens.Pairs.{V1Pair, V2Pair, generate_tokens-IsPair}

abbrev put_claim : String → Json → String × ℕ → Option (String × ℕ)
put_claim name v (issuer, expiry) =
    if name == "iss"
    then elim (as_text v issuer) [ none ↦ none | some s ↦ some (s, expiry) ]
    else if name == "exp"
    then elim (as_number v expiry) [ none ↦ none | some n ↦ some (issuer, n) ]
    else none

abbrev standard : RegisteredClaims
standard = record {
  Registered = String × ℕ;
  zero_claims = ("", 0);
  members = "iss" ∷ "exp" ∷ [];
  encode = λ r. ("iss", text r.0) ∷ ("exp", number r.1) ∷ [];
  put = put_claim;
}

standard-IsLawful : IsLawful standard
unfolding unmarshal resolve folded folds String-discrete
standard-IsLawful = record {
  restored = λ r. refl;
  exact = λ r. (refl, (refl, tt));
  apart = (
    (refl, refl),
    (
      (refl, refl),
      (
        (refl, refl),
        (
          (refl, refl),
          (
            (refl, refl),
            ((refl, refl), ((refl, refl), ((refl, refl), ((refl, refl), ((refl, refl), tt))))),
          ),
        ),
      ),
    ),
  );
}

abbrev access : V2Access standard
access = record {
  id = 7;
  onboarding_id = 3;
  email = "ada@example.org";
  role = "admin";
  is_verify = true;
  registered = ("auth-service", 3600);
}

abbrev refresh : V2Refresh standard
refresh = record { id = 7; email = "ada@example.org"; registered = ("auth-service", 36000) }

unmarshal-marshal_example :
    (unmarshal_access standard (marshal_access standard access) ≡ ok access)
    × (unmarshal_refresh standard (marshal_refresh standard refresh) ≡ ok refresh)
unmarshal-marshal_example = unmarshal-marshal standard standard-IsLawful access refresh

abbrev old_access : V1Access standard
old_access = record {
  user_id = 7;
  username = "";
  role_id = [];
  is_verify = true;
  registered = ("auth-service", 3600);
}

abbrev old_refresh : V1Refresh standard
old_refresh = record {
  user_id = 7;
  email = "ada@example.org";
  registered = ("auth-service", 36000);
}

unmarshal-v1_example :
    (unmarshal_access standard (v1_access_json standard old_access)
      ≡ ok (record {
        id = 7;
        onboarding_id = 0;
        email = "";
        role = "";
        is_verify = true;
        registered = ("auth-service", 3600);
      }))
    × (unmarshal_refresh standard (v1_refresh_json standard old_refresh) ≡ ok refresh)
unmarshal-v1_example = unmarshal-v1 standard standard-IsLawful old_access old_refresh

-- A text that tells the members of a document, with their values.
abbrev written : Json → String
written null = "null"
written (number n) = print n
written (text t) = "'" <> t <> "'"
written (flag true) = "true"
written (flag false) = "false"
written (numbers l) = "[…]"

abbrev spelled : Document → String
spelled [] = "."
spelled ((name, v) ∷ rest) = name <> ":" <> written v <> "," <> spelled rest

-- A clock that ticks, and signatures that are the key with the document.
abbrev signer : Signer standard
signer = record {
  World = ℕ;
  Time = ℕ;
  now = λ n. (n, n + 1);
  add = λ t d. t + pos_part d;
  parse_duration = λ s.
      if s == "1h"
      then ok (pos 3600000000000)
      else if s == "24h"
      then ok (pos 86400000000000)
      else err (new "time: invalid duration");
  register = λ issuer subject issued expires. (issuer <> "/" <> subject, expires);
  sign = λ key d. ok (key <> "." <> spelled d);
}

generate_tokens-IsPair_example :
    V1Pair standard signer "secret" 7 "ada@example.org" 0
      (v1_generate_tokens standard signer "secret" 7 "ada@example.org" 0).0
    × V2Pair standard signer "secret" 7 "ada@example.org" 3 "admin" true 0
        (pos 3600000000000)
        (pos 86400000000000)
        (v2_generate_tokens standard signer "secret" "" "24h" 7 "ada@example.org" 3 "admin" true
          0).0
unfolding String-discrete
generate_tokens-IsPair_example =
    generate_tokens-IsPair standard signer standard-IsLawful "secret" "" "24h" 7 "ada@example.org" 3
      "admin" true 0
