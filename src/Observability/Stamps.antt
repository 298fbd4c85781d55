-- ===== src/Observability/Stamps.antt =====
-- That a request has one pair of identifiers, which can stand in a log.
use nestjs_modular_monolith.Common.{
  ◌≡◌, refl, ap, inl, inr, Bool, true, false, Bool-cases, Option, none, some, if◌then◌else◌,
  is_null,
}
use nestjs_modular_monolith.Text.{Text}
use nestjs_modular_monolith.Observability.{
  HeaderValue, RequestIds, Carrier, RequestIdCarrier, is_safe_id, first_header_value, safe_or,
  resolve_request_id, resolve_correlation_id, stamp, target_of, put_back, ensure_request_ids,
}

safe_or-safe :
    (inbound : Option Text) (fallback : Text)
    → is_safe_id fallback ≡ true
    → is_safe_id (safe_or inbound fallback) ≡ true
safe_or-safe none fallback h = h
safe_or-safe (some inbound) fallback h = elim (Bool-cases (is_safe_id inbound)) [
  | inl safe ↦ rw safe safe
  | inr unsafe ↦ rw unsafe h
]

resolve_request_id-safe :
    (target : Carrier) (trust_inbound : Bool) (new_id : Text)
    → is_safe_id new_id ≡ true
    → is_safe_id (resolve_request_id target trust_inbound new_id) ≡ true
unfolding resolve_request_id
resolve_request_id-safe target false new_id h = h
resolve_request_id-safe target true new_id h =
    safe_or-safe (first_header_value target.request_id_header) new_id h

-- An identifier from outside is looked at only where it is trusted.
resolve_request_id_eq :
    (target : Carrier) (trust_inbound : Bool) (new_id : Text)
    → resolve_request_id target trust_inbound new_id ≡ (
        if trust_inbound
        then safe_or (first_header_value target.request_id_header) new_id
        else new_id)
unfolding resolve_request_id
resolve_request_id_eq target true new_id = refl
resolve_request_id_eq target false new_id = refl

-- What stamping an object comes to, and stamping it again.
abbrev IsStamped : Bool → Bool → Text → Text → Carrier → Type 0
IsStamped trust again new_id newer target =
    let (ids, stamped) = stamp target target.stamped trust new_id in
    (is_safe_id ids.request_id ≡ true)
    × (is_safe_id ids.correlation_id ≡ true)
    × (ids.request_id
        ≡ (if trust then safe_or (first_header_value target.request_id_header) new_id else new_id))
    × (stamp stamped stamped.stamped again newer ≡ (ids, stamped))

target_safe :
    (trust again : Bool) (new_id newer : Text)
    → is_safe_id new_id ≡ true
    → (h k : HeaderValue) (stamped : Option RequestIds) → is_null stamped ≡ true
    → IsStamped trust again new_id newer
        (record { request_id_header = h; correlation_id_header = k; stamped = stamped })
unfolding resolve_correlation_id
target_safe trust again new_id newer safe h k (some ids) fresh = cc
target_safe trust again new_id newer safe h k none fresh =
    let target : Carrier = record {
      request_id_header = h;
      correlation_id_header = k;
      stamped = none;
    } in
    let own_safe = resolve_request_id-safe target trust new_id safe in
    (
      own_safe,
      safe_or-safe (first_header_value k) (resolve_request_id target trust new_id) own_safe,
      resolve_request_id_eq target trust new_id,
      refl,
    )

request_safe :
    (trust again : Bool) (new_id newer : Text)
    → is_safe_id new_id ≡ true
    → (own : Carrier) (raw : Option Carrier)
    → is_null (target_of (record { own = own; raw = raw }) raw).stamped ≡ true
    → let (ids, stamped) = ensure_request_ids (record { own = own; raw = raw }) trust new_id in
      (is_safe_id ids.request_id ≡ true)
      × (is_safe_id ids.correlation_id ≡ true)
      × (ids.request_id ≡ (
          if trust
          then safe_or
              (first_header_value
                (target_of (record { own = own; raw = raw }) raw).request_id_header)
              new_id
          else new_id))
      × (ensure_request_ids stamped again newer ≡ (ids, stamped))
unfolding ensure_request_ids
request_safe trust again new_id newer safe own none fresh =
    let (first, second, decided, repeated) =
      target_safe trust again new_id newer safe own.request_id_header own.correlation_id_header
        own.stamped fresh in
    (
      first,
      second,
      decided,
      ap (λ (x : RequestIds × Carrier). (x.0, put_back (record { own = own; raw = none }) none x.1))
          repeated,
    )
request_safe trust again new_id newer safe own (some raw) fresh =
    let (first, second, decided, repeated) =
      target_safe trust again new_id newer safe raw.request_id_header raw.correlation_id_header
        raw.stamped fresh in
    (
      first,
      second,
      decided,
      ap
          (λ (x : RequestIds × Carrier).
            (x.0, put_back (record { own = own; raw = some raw }) (some raw) x.1))
          repeated,
    )

-- A request that has no identifiers yet gets safe ones, of at most 128 units, whatever its headers say,
-- where a new identifier is safe; the header decides the identifier of the request only where it is
-- trusted; and whoever asks later gets the same ones and changes nothing.
pub ensure_request_ids-safe :
    (request : RequestIdCarrier) (trust_inbound again : Bool) (new_id newer : Text)
    → is_null (target_of request request.raw).stamped ≡ true
    → is_safe_id new_id ≡ true
    → let (ids, stamped) = ensure_request_ids request trust_inbound new_id in
      (is_safe_id ids.request_id ≡ true)
      × (is_safe_id ids.correlation_id ≡ true)
      × (ids.request_id ≡ (
          if trust_inbound
          then safe_or (first_header_value (target_of request request.raw).request_id_header) new_id
          else new_id))
      × (ensure_request_ids stamped again newer ≡ (ids, stamped))
unfolding ensure_request_ids
ensure_request_ids-safe request trust again new_id newer fresh safe =
    request_safe trust again new_id newer safe request.own request.raw fresh
