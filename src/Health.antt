-- ===== src/Health.antt =====
-- The readiness probe, src/cryptovira/apps/common/views.py. What a dependency raises is an argument.
use cryptovira.Prelude.{
  ℕ, String, ◌≡◌, refl, Bool, true, false, ◌&&◌, Option, none, some, if◌then◌else◌, ◌↔◌, arith,
}

-- an exception: the name of its type, and its text
pub record Raised : Type 0 where
  pub type_name : String
  pub text : String

-- an entry of `checks`: `{"ok": True}`, or `{"ok": False, "error": ...}`
pub record Check : Type 0 where
  pub is_ok : Bool
  pub error : Option String

-- `JsonResponse({"status": ..., "checks": ...}, status=...)`
pub record Response : Type 0 where
  pub status : ℕ
  pub told : String
  pub database : Check
  pub cache : Check
  pub broker : Check

-- `_describe`
abbrev pub describe : Raised → String
describe e = e.type_name

-- `_check_database`, `_check_cache`, `_check_broker`: what the `try` block raised, if anything
unfoldable pub check : Option Raised → Check
check none = record { is_ok = true; error = none }
check (some e) = record { is_ok = false; error = some (describe e) }

-- `readyz`
unfoldable pub readyz : Option Raised → Option Raised → Option Raised → Response
unfolding check
readyz database cache broker =
    let healthy = (check database).is_ok && ((check cache).is_ok && (check broker).is_ok) in
    record {
      status = if healthy then 200 else 503;
      told = if healthy then "ok" else "degraded";
      database = check database;
      cache = check cache;
      broker = check broker;
    }

-- The probe answers 200 exactly when none of the three dependencies raises.
readyz-healthy_iff :
    (database cache broker : Option Raised)
    → ((readyz database cache broker).status ≡ 200)
      ↔ (database ≡ none) × (cache ≡ none) × (broker ≡ none)
unfolding readyz
readyz-healthy_iff none none none = ((λ h. (refl, refl, refl)), (λ h. refl))
readyz-healthy_iff none none (some e) = ((λ h. absurd (omega (arith, h))), (λ h. cc h.2))
readyz-healthy_iff none (some e) c = ((λ h. absurd (omega (arith, h))), (λ h. cc h.1))
readyz-healthy_iff (some e) b c = ((λ h. absurd (omega (arith, h))), (λ h. cc h.0))

-- the same exceptions, with other texts
abbrev retold : (String → String) → Option Raised → Option Raised
retold f none = none
retold f (some e) = some (record e { text = f e.text })

check-retold : (f : String → String) (o : Option Raised) → check (retold f o) ≡ check o
unfolding check
check-retold f none = refl
check-retold f (some e) = refl

-- Exceptions of the same types with other texts give the same response of the probe.
readyz-retold :
    (f : String → String) (database cache broker : Option Raised)
    → readyz (retold f database) (retold f cache) (retold f broker) ≡ readyz database cache broker
unfolding readyz
readyz-retold f database cache broker =
    rw (check-retold f database, check-retold f cache, check-retold f broker) refl
